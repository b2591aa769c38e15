-- ===== src/Calendar/Counting.antt =====
-- The bookkeeping of libraries/Calendar: `alarmAmount` counts the used slots, and ids are not reused.
use spu_energy_efficient_sys.Common.{
  ℕ, zero, suc, ◌+◌, ◌<◌, ◌≡◌, ◌≢◌, sym, ap, ◌∙◌, true, false, List, [], ◌∷◌, All, arith, ℤ, pos,
  negsuc, length, set, if◌then◌else◌, Bool-cases, inl, inr, subst,
}
use spu_energy_efficient_sys.Calendar.{Alarm, Calendar, free_slot, max_alarms}

abbrev pub used_count : List Alarm → ℕ
used_count [] = 0
used_count (a ∷ rest) = if a.used then suc (used_count rest) else used_count rest

-- The id is a number below `n`.
abbrev pub IdBelow : ℕ → ℤ → Type 0
IdBelow n (pos m) = m < n
IdBelow n (negsuc m) = ⊥

-- No used slot further on has this id.
abbrev pub Unrepeated : ℤ → List Alarm → Type 0
Unrepeated id = All (λ b. b.used ≡ true → b.id ≢ id)

-- Ids of used slots are below the next id, and no slot before a used one, free or not, has its id.
abbrev pub Tidy : ℕ → List Alarm → Type 0
Tidy n [] = Unit {0}
Tidy n (a ∷ rest) = (a.used ≡ true → IdBelow n a.id) × Unrepeated a.id rest × Tidy n rest

pub record IsValid {World : Type 0} (c : Calendar World) : Type 0 where
  pub amount : c.alarm_amount ≡ pos (used_count c.alarms)
  pub tidy : Tidy c.next_id c.alarms
  pub slots : length c.alarms ≡ max_alarms

pub IdBelow-suc : (n : ℕ) (id : ℤ) → IdBelow n id → IdBelow (n + 1) id
IdBelow-suc n (pos m) h = omega arith
IdBelow-suc n (negsuc m) h = h

Tidy-suc : (n : ℕ) (slots : List Alarm) → Tidy n slots → Tidy (n + 1) slots
Tidy-suc n [] t = tt
Tidy-suc n (a ∷ rest) t = ((λ u. IdBelow-suc n a.id (t.0 u)), t.1, Tidy-suc n rest t.2)

-- Writing a slot over with one that is not newly used, or keeps its id.
pub Unrepeated-set :
    (id : ℤ) (slots : List Alarm) (i : ℕ) (a : Alarm)
    → (a.used ≡ true → a.id ≢ id)
    → Unrepeated id slots
    → Unrepeated id (set slots i a)
Unrepeated-set id [] i a new h = tt
Unrepeated-set id (x ∷ rest) zero a new h = (new, h.1)
Unrepeated-set id (x ∷ rest) (suc i) a new h = (h.0, Unrepeated-set id rest i a new h.1)

below_ne : (n : ℕ) (id : ℤ) → IdBelow n id → pos n ≢ id
below_ne n (pos m) h e = ground (arith, e)
below_ne n (negsuc m) h e = h

-- The number that is next is no id in use.
Unrepeated-next : (n : ℕ) (slots : List Alarm) → Tidy n slots → Unrepeated (pos n) slots
Unrepeated-next n [] t = tt
Unrepeated-next n (a ∷ rest) t =
    ((λ u e. below_ne n a.id (t.0 u) (sym e)), Unrepeated-next n rest t.2)

free_slot_used :
    (x : Alarm) (rest : List Alarm) → x.used ≡ true → free_slot (x ∷ rest) ≡ suc (free_slot rest)
unfolding free_slot
free_slot_used x rest u = ap (λ b. if b then suc (free_slot rest) else 0) u

free_slot_unused : (x : Alarm) (rest : List Alarm) → x.used ≡ false → free_slot (x ∷ rest) ≡ 0
unfolding free_slot
free_slot_unused x rest u = ap (λ b. if b then suc (free_slot rest) else 0) u

pub used_count_used :
    (x : Alarm) (rest : List Alarm) → x.used ≡ true → used_count (x ∷ rest) ≡ suc (used_count rest)
used_count_used x rest u = ap (λ b. if b then suc (used_count rest) else used_count rest) u

pub used_count_unused :
    (x : Alarm) (rest : List Alarm) → x.used ≡ false → used_count (x ∷ rest) ≡ used_count rest
used_count_unused x rest u = ap (λ b. if b then suc (used_count rest) else used_count rest) u

-- The first free slot takes a used alarm with the next id.
module _ (n : ℕ) (a : Alarm) (is_used : a.used ≡ true) (is_next : a.id ≡ pos n) where
  pub Tidy-add : (slots : List Alarm) → Tidy n slots → Tidy (n + 1) (set slots (free_slot slots) a)
  Tidy-add [] t = tt
  Tidy-add (x ∷ rest) t = elim (Bool-cases x.used) [
    | inl u ↦
        subst (λ i. Tidy (n + 1) (set (x ∷ rest) i a)) (sym (free_slot_used x rest u))
          (
            (λ v. IdBelow-suc n x.id (t.0 v)),
            Unrepeated-set x.id rest (free_slot rest) a
                (λ _ e. below_ne n x.id (t.0 u) (sym is_next ∙ e)) t.1,
            Tidy-add rest t.2,
          )
    | inr u ↦
        subst (λ i. Tidy (n + 1) (set (x ∷ rest) i a)) (sym (free_slot_unused x rest u))
          (
            (λ v. subst (IdBelow (n + 1)) (sym is_next) (omega arith)),
            subst (λ id. Unrepeated id rest) (sym is_next) (Unrepeated-next n rest t.2),
            Tidy-suc n rest t.2,
          )
  ]

  pub used_count-add :
      (slots : List Alarm)
      → free_slot slots < length slots
      → used_count (set slots (free_slot slots) a) ≡ suc (used_count slots)
  unfolding free_slot
  used_count-add [] h = absurd (omega arith)
  used_count-add (x ∷ rest) h = elim (Bool-cases x.used) [
    | inl u ↦
        ap (λ i. used_count (set (x ∷ rest) i a)) (free_slot_used x rest u)
        ∙ used_count_used x (set rest (free_slot rest) a) u
        ∙ ap suc (
            used_count-add rest (omega (arith, free_slot_used x rest u))
            ∙ sym (used_count_used x rest u))
    | inr u ↦
        ap (λ i. used_count (set (x ∷ rest) i a)) (free_slot_unused x rest u)
        ∙ used_count_used a rest is_used
        ∙ ap suc (sym (used_count_unused x rest u))
  ]
