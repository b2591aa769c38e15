-- ===== src/Calendar/Freeing.antt =====
-- Slots of libraries/Calendar that are written over without changing their id: freed or marked.
use spu_energy_efficient_sys.Common.{
  ℕ, zero, suc, ◌≡◌, ◌≢◌, refl, sym, ap, ◌∙◌, true, false, List, [], ◌∷◌, some, arith, ℤ, ◌==ℤ◌,
  ==ℤ_iff, get_elem?, set, Bool-cases, Option-cases, inl, inr, subst,
}
use mathlib.Core.Option.{some-injective}
use spu_energy_efficient_sys.Calendar.{Alarm}
use spu_energy_efficient_sys.Calendar.Edit.{find_id}
use spu_energy_efficient_sys.Calendar.Counting.{
  used_count, IdBelow, Unrepeated, Tidy, Unrepeated-set,
}

Unrepeated-get :
    (id : ℤ) (slots : List Alarm) (i : ℕ) (a : Alarm)
    → get_elem? slots i ≡ some a
    → Unrepeated id slots
    → a.used ≡ true
    → a.id ≢ id
Unrepeated-get id [] i a e h u = cc
Unrepeated-get id (x ∷ rest) zero a e h u =
    subst (λ b. b.used ≡ true → b.id ≢ id) (some-injective x a e) h.0 u
Unrepeated-get id (x ∷ rest) (suc i) a e h u = Unrepeated-get id rest i a e h.1 u

-- `b` goes where `a` stood, with its id, and is used at most if `a` was.
pub Tidy-keep :
    (n : ℕ) (slots : List Alarm) (i : ℕ) (a b : Alarm)
    → get_elem? slots i ≡ some a
    → b.id ≡ a.id
    → (b.used ≡ true → a.used ≡ true)
    → Tidy n slots
    → Tidy n (set slots i b)
Tidy-keep n [] i a b e same still t = tt
Tidy-keep n (x ∷ rest) zero a b e same still t =
    let k : b.id ≡ x.id = same ∙ ap (λ c. c.id) (sym (some-injective x a e)) in
    let v =
      λ (u : b.used ≡ true). subst (λ c. c.used ≡ true) (sym (some-injective x a e)) (still u) in
    (
      (λ u. subst (IdBelow n) (sym k) (t.0 (v u))),
      subst (λ id. Unrepeated id rest) (sym k) t.1,
      t.2,
    )
Tidy-keep n (x ∷ rest) (suc i) a b e same still t = (
  t.0,
  Unrepeated-set x.id rest i b (λ u k. Unrepeated-get x.id rest i a e t.1 (still u) (sym same ∙ k))
      t.1,
  Tidy-keep n rest i a b e same still t.2,
)

pub used_count-same :
    (slots : List Alarm) (i : ℕ) (a b : Alarm)
    → get_elem? slots i ≡ some a
    → b.used ≡ a.used
    → used_count (set slots i b) ≡ used_count slots
used_count-same [] i a b e same = refl
used_count-same (x ∷ rest) zero a b e same = ground (arith, e, same)
used_count-same (x ∷ rest) (suc i) a b e same = ground (arith, used_count-same rest i a b e same)

pub used_count-free :
    (slots : List Alarm) (i : ℕ) (a b : Alarm)
    → get_elem? slots i ≡ some a
    → a.used ≡ true
    → b.used ≡ false
    → suc (used_count (set slots i b)) ≡ used_count slots
used_count-free [] i a b e u v = cc
used_count-free (x ∷ rest) zero a b e u v = ground (arith, e, u, v)
used_count-free (x ∷ rest) (suc i) a b e u v = ground (arith, used_count-free rest i a b e u v)

-- What `removeAlarm` finds has the id and stands where it says.
pub find_id-some :
    (id : ℤ) (slots : List Alarm) (i : ℕ) (a : Alarm)
    → find_id id slots ≡ some (i, a)
    → (get_elem? slots i ≡ some a) × (a.id ≡ id)
unfolding find_id
find_id-some id [] i a e = cc
find_id-some id (x ∷ rest) i a e = elim (Bool-cases (x.id ==ℤ id)) [
  | inl hit ↦ ground (arith, e, (==ℤ_iff x.id id).0 hit)
  | inr miss ↦ elim (Option-cases (find_id id rest)) [
    | inl nothing ↦ ground (arith, e)
    | inr ((j, b), found) ↦ ground (arith, e, find_id-some id rest j b found)
  ]
]

-- In tidy slots the id of a used alarm leads to its slot.
pub find_id_used :
    (n : ℕ) (slots : List Alarm) (i : ℕ) (a : Alarm)
    → Tidy n slots
    → get_elem? slots i ≡ some a
    → a.used ≡ true
    → find_id a.id slots ≡ some (i, a)
unfolding find_id
find_id_used n [] i a t e u = cc
find_id_used n (x ∷ rest) zero a t e u =
    subst (λ b. find_id b.id (x ∷ rest) ≡ some (0, b)) (some-injective x a e)
      (rw ((==ℤ_iff x.id x.id).1 refl))
find_id_used n (x ∷ rest) (suc i) a t e u = elim (Bool-cases (x.id ==ℤ a.id)) [
  | inl hit ↦ absurd (Unrepeated-get x.id rest i a e t.1 u (sym ((==ℤ_iff x.id a.id).0 hit)))
  | inr miss ↦ rw (miss, find_id_used n rest i a t.2 e u)
]
