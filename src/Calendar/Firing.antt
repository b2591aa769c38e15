-- ===== src/Calendar/Firing.antt =====
-- `checkAlarms` of libraries/Calendar: it keeps the calendar valid, and an alarm's event functions
-- are called in turns.
use spu_energy_efficient_sys.Common.{
  ℕ, zero, suc, ◌+◌, ◌≡◌, refl, sym, ap, ◌∙◌, Bool, true, false, some, arith, pos, ◌==◌, length-set,
  get_elem?, get_elem?_lt, get_elem?-set_self, if◌then◌else◌, Bool-cases, Option-cases, inl, inr,
  subst,
}
use spu_energy_efficient_sys.Eeprom.{Eeprom}
use spu_energy_efficient_sys.Calendar.{Alarm, Calendar, max_alarms, alarm_once, weekly_alarm}
use spu_energy_efficient_sys.Calendar.Check.{
  TimeLib, mark, check_once, check_weekly, check_alarm, check_slot, check_from, check_alarms,
}
use spu_energy_efficient_sys.Calendar.Counting.{IsValid}
use spu_energy_efficient_sys.Calendar.Freeing.{Tidy-keep, used_count-same}
use spu_energy_efficient_sys.Calendar.Removing.{remove_alarm_lem}

module _ {World : Type 0} where
  mark-IsValid :
      (c : Calendar World) (i : ℕ) (a : Alarm) (b : Bool)
      → IsValid c
      → get_elem? c.alarms i ≡ some a
      → IsValid (mark c i a b)
  unfolding mark
  mark-IsValid c i a b v at =
      let a' : Alarm = record a { started = b } in
      record {
        amount = v.amount ∙ ap pos (sym (used_count-same c.alarms i a a' at refl));
        tidy = Tidy-keep c.next_id c.alarms i a a' at refl (λ u. u) v.tidy;
        slots = length-set c.alarms i a' ∙ v.slots;
      }

module _ (l : TimeLib) (e : Eeprom) {World : Type 0} where
  check_once-IsValid :
      (c : Calendar World) (s : e.Store) (w : World) (i : ℕ) (a : Alarm) (t : l.Time)
      → IsValid c
      → get_elem? c.alarms i ≡ some a
      → a.used ≡ true
      → IsValid (check_once l e c s w i a t).0
  unfolding check_once
  check_once-IsValid c s w i a t v at u =
      let m = mark c i a false in
      let a' : Alarm = record a { started = false } in
      let there : get_elem? m.alarms i ≡ some a' =
        get_elem?-set_self c.alarms i a' (get_elem?_lt c.alarms i a at) in
      ground (
        arith,
        mark-IsValid c i a true v at,
        (remove_alarm_lem e m s i a' (mark-IsValid c i a false v at) there u).valid,
      )

  check_weekly-IsValid :
      (c : Calendar World) (s : e.Store) (w : World) (i : ℕ) (a : Alarm) (t : l.Time)
      → IsValid c
      → get_elem? c.alarms i ≡ some a
      → IsValid (check_weekly l e c s w i a t).0
  unfolding check_weekly
  check_weekly-IsValid c s w i a t v at =
      ground (arith, mark-IsValid c i a true v at, mark-IsValid c i a false v at)

  check_alarm-IsValid :
      (c : Calendar World) (s : e.Store) (w : World) (i : ℕ) (a : Alarm) (t : l.Time)
      → IsValid c
      → get_elem? c.alarms i ≡ some a
      → a.used ≡ true
      → IsValid (check_alarm l e c s w i a t).0
  unfolding check_alarm
  check_alarm-IsValid c s w i a t v at u = elim (Bool-cases (a.kind == alarm_once)) [
    | inl once ↦ simp once (check_once-IsValid c s w i a t v at u)
    | inr other ↦ elim (Bool-cases (a.kind == weekly_alarm)) [
      | inl weekly ↦ simp (other, weekly) (check_weekly-IsValid c s w i a t v at)
      | inr neither ↦ simp (other, neither) v
    ]
  ]

  check_slot-IsValid :
      (c : Calendar World) (s : e.Store) (w : World) (i : ℕ) (t : l.Time)
      → IsValid c
      → IsValid (check_slot l e c s w i t).0
  unfolding check_slot
  check_slot-IsValid c s w i t v = elim (Option-cases (get_elem? c.alarms i)) [
    | inl nothing ↦ rw (nothing, check_slot) v
    | inr (a, at) ↦
        rw (at, check_slot)
          (elim (Bool-cases a.used) [
            | inl u ↦
                subst (λ b. IsValid (if b then check_alarm l e c s w i a t else (c, s, w)).0)
                  (sym u) (check_alarm-IsValid c s w i a t v at u)
            | inr u ↦
                subst (λ b. IsValid (if b then check_alarm l e c s w i a t else (c, s, w)).0)
                  (sym u) v
          ])
  ]

  check_from-IsValid :
      (k i : ℕ) (c : Calendar World) (s : e.Store) (w : World) (t : l.Time)
      → IsValid c
      → IsValid (check_from l e c s w i k t).0
  unfolding check_from
  check_from-IsValid zero i c s w t v = v
  check_from-IsValid (suc k) i c s w t v =
      let (c', s', w') = check_slot l e c s w i t in
      check_from-IsValid k (i + 1) c' s' w' t (check_slot-IsValid c s w i t v)

  -- Whatever the time and the event functions, `checkAlarms` keeps a calendar valid, also where it
  -- removes alarms that have ended.
  pub check_alarms-IsValid :
      (c : Calendar World) (s : e.Store) (w : World) (t : l.Time)
      → IsValid c
      → IsValid (check_alarms l e c s w t).0
  unfolding check_alarms
  check_alarms-IsValid c s w t v = check_from-IsValid max_alarms 0 c s w t v
