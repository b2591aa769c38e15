-- ===== src/Calendar/Matching.antt =====
-- `removeAlarmsWithEventAndId` of libraries/Calendar.
use spu_energy_efficient_sys.Common.{
  ℕ, suc, ◌+◌, ◌≡◌, refl, ap, ◌∙◌, Bool, false, ◌&&◌, List, [], ◌∷◌, arith, ℤ, pos, ◌==ℤ◌, length,
  if◌then◌else◌, Bool-cases, inl, inr, subst,
}
use spu_energy_efficient_sys.Eeprom.{Eeprom}
use spu_energy_efficient_sys.Calendar.{Alarm, Calendar, dec, store_alarms}
use spu_energy_efficient_sys.Calendar.Edit.{remove_alarms_with_event_and_id, free_matching}
use spu_energy_efficient_sys.Calendar.Counting.{used_count, Unrepeated, Tidy, IsValid}

-- Whether `removeAlarmsWithEventAndId` frees the slot.
abbrev pub matches : ℤ → ℤ → Alarm → Bool
matches event event_id a = a.used && (a.event ==ℤ event) && (a.event_id ==ℤ event_id)

abbrev pub free_if : Bool → Alarm → Alarm
free_if b a = if b then record a { used = false } else a

-- Each slot of the second list is the slot of the first, freed if it matches.
abbrev pub Freed : ℤ → ℤ → List Alarm → List Alarm → Type 0
Freed event event_id [] [] = Unit {0}
Freed event event_id (a ∷ xs) (b ∷ ys) =
    (b ≡ free_if (matches event event_id a) a) × Freed event event_id xs ys
Freed event event_id [] (b ∷ ys) = ⊥
Freed event event_id (a ∷ xs) [] = ⊥

module _ (event event_id : ℤ) where
  free_matching-Freed :
      (slots : List Alarm) (amount : ℤ)
      → Freed event event_id slots (free_matching event event_id slots amount).0
  unfolding free_matching
  free_matching-Freed [] amount = tt
  free_matching-Freed (a ∷ rest) amount = (refl, free_matching-Freed rest _)

  free_matching-amount :
      (slots : List Alarm) (k : ℕ) (amount : ℤ)
      → amount ≡ pos (k + used_count slots)
      → let (slots', amount') = free_matching event event_id slots amount in
        amount' ≡ pos (k + used_count slots')
  unfolding free_matching
  free_matching-amount [] k amount e = e
  free_matching-amount (a ∷ rest) k amount e = elim (Bool-cases (matches event event_id a)) [
    | inl hit ↦
        let less : dec amount ≡ pos (k + used_count rest) = ground (arith, e, hit) in
        ground (arith, hit, free_matching-amount rest k (dec amount) less)
    | inr miss ↦ elim (Bool-cases a.used) [
      | inl u ↦
          let more : amount ≡ pos (k + 1 + used_count rest) = ground (arith, e, u) in
          ground (arith, miss, u, free_matching-amount rest (k + 1) amount more)
      | inr u ↦
          let same : amount ≡ pos (k + used_count rest) = ground (arith, e, u) in
          ground (arith, miss, u, free_matching-amount rest k amount same)
    ]
  ]

  Unrepeated-Freed :
      (id : ℤ) (xs ys : List Alarm)
      → Freed event event_id xs ys
      → Unrepeated id xs
      → Unrepeated id ys
  Unrepeated-Freed id [] [] f u = tt
  Unrepeated-Freed id (a ∷ xs) (b ∷ ys) f u =
      (grind (arith, f.0, u.0), Unrepeated-Freed id xs ys f.1 u.1)
  Unrepeated-Freed id [] (b ∷ ys) f u = absurd f
  Unrepeated-Freed id (a ∷ xs) [] f u = absurd f

  Tidy-Freed : (n : ℕ) (xs ys : List Alarm) → Freed event event_id xs ys → Tidy n xs → Tidy n ys
  Tidy-Freed n [] [] f t = tt
  Tidy-Freed n (a ∷ xs) (b ∷ ys) f t = (
    ground (arith, f.0, t.0),
    subst (λ id. Unrepeated id ys) (ground (arith, f.0)) (Unrepeated-Freed a.id xs ys f.1 t.1),
    Tidy-Freed n xs ys f.1 t.2,
  )
  Tidy-Freed n [] (b ∷ ys) f t = absurd f
  Tidy-Freed n (a ∷ xs) [] f t = absurd f

  length-Freed : (xs ys : List Alarm) → Freed event event_id xs ys → length ys ≡ length xs
  length-Freed [] [] f = refl
  length-Freed (a ∷ xs) (b ∷ ys) f = ap suc (length-Freed xs ys f.1)
  length-Freed [] (b ∷ ys) f = absurd f
  length-Freed (a ∷ xs) [] f = absurd f

module _ (e : Eeprom) {World : Type 0} where
  -- `removeAlarmsWithEventAndId` frees exactly the used slots with that event and id, leaves every
  -- other slot as it is, saves the result, and keeps the calendar valid.
  pub remove_alarms_with_event_and_id_lem :
      (c : Calendar World) (s : e.Store) (event event_id : ℤ)
      → IsValid c
      → let (d, t) = remove_alarms_with_event_and_id e c s event event_id in
        Freed event event_id c.alarms d.alarms
        × (t ≡ store_alarms e s d.alarms)
        × (d.next_id ≡ c.next_id)
        × IsValid d
  unfolding remove_alarms_with_event_and_id
  remove_alarms_with_event_and_id_lem c s event event_id v =
      let freed = free_matching-Freed event event_id c.alarms c.alarm_amount in
      (
        freed,
        refl,
        refl,
        record {
          amount =
              free_matching-amount event event_id c.alarms 0 c.alarm_amount
                (v.amount ∙ ap pos (omega arith))
              ∙ ap pos (omega arith);
          tidy = Tidy-Freed event event_id c.next_id c.alarms _ freed v.tidy;
          slots = length-Freed event event_id c.alarms _ freed ∙ v.slots;
        },
      )
