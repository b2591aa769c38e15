-- ===== src/Calendar/Removing.antt =====
-- `removeAlarm` of libraries/Calendar.
use spu_energy_efficient_sys.Common.{
  ℕ, ◌≡◌, refl, sym, ap, ◌∙◌, true, false, List, some, arith, ℤ, length-set, get_elem?, set, subst,
}
use spu_energy_efficient_sys.Eeprom.{Eeprom}
use spu_energy_efficient_sys.Calendar.{Alarm, AlarmEvent, Calendar, dec, store_alarms}
use spu_energy_efficient_sys.Calendar.Edit.{find_id, remove_alarm}
use spu_energy_efficient_sys.Calendar.Counting.{used_count, IsValid}
use spu_energy_efficient_sys.Calendar.Freeing.{
  Tidy-keep, used_count-free, find_id-some, find_id_used, used_count-same,
}

module _ (e : Eeprom) {World : Type 0} where
  remove_alarm_found :
      (c : Calendar World) (s : e.Store) (id : ℤ) (i : ℕ) (a : Alarm)
      → find_id id c.alarms ≡ some (i, a)
      → let alarms = set c.alarms i (record a { used = false }) in
        remove_alarm e c s id
        ≡ (record c { alarms = alarms; alarm_amount = dec c.alarm_amount }, store_alarms e s alarms)
  unfolding remove_alarm
  remove_alarm_found c s id i a found = rw (found, remove_alarm)

  -- The calendar and the memory after the alarm `a` in slot `i` is removed: the slot is free, no
  -- other has changed, the alarms are saved, and the calendar is valid.
  pub record Removed (c : Calendar World) (s : e.Store) (i : ℕ) (a : Alarm)
      (r : Calendar World × e.Store) : Type 0 where
    pub freed : r.0.alarms ≡ set c.alarms i (record a { used = false })
    pub saved : r.1 ≡ store_alarms e s r.0.alarms
    pub next_id : r.0.next_id ≡ c.next_id
    pub same_events : Path (List (AlarmEvent World)) r.0.events c.events
    pub valid : IsValid r.0

  -- `removeAlarm` with the id of a used alarm of a valid calendar removes that alarm (`Removed`).
  pub remove_alarm_lem :
      (c : Calendar World) (s : e.Store) (i : ℕ) (a : Alarm)
      → IsValid c
      → get_elem? c.alarms i ≡ some a
      → a.used ≡ true
      → Removed c s i a (remove_alarm e c s a.id)
  remove_alarm_lem c s i a v at u =
      let b : Alarm = record a { used = false } in
      subst (Removed c s i a)
        (sym (remove_alarm_found c s a.id i a (find_id_used c.next_id c.alarms i a v.tidy at u)))
        (record {
          freed = refl;
          saved = refl;
          next_id = refl;
          same_events = refl;
          valid = record {
            amount = ground (arith, v.amount, used_count-free c.alarms i a b at u refl);
            tidy = Tidy-keep c.next_id c.alarms i a b at refl (λ w. u) v.tidy;
            slots = length-set c.alarms i b ∙ v.slots;
          };
        })

  -- The fault of `removeAlarm`: where the first slot with the id is free already (its alarm was
  -- removed before), no alarm goes, but the amount falls, so the calendar is valid no more.
  pub remove_alarm_stale :
      (c : Calendar World) (s : e.Store) (i : ℕ) (a : Alarm)
      → IsValid c
      → find_id a.id c.alarms ≡ some (i, a)
      → a.used ≡ false
      → let d = (remove_alarm e c s a.id).0 in
        (used_count d.alarms ≡ used_count c.alarms)
        × (d.alarm_amount ≡ dec c.alarm_amount)
        × (¬ IsValid d)
  remove_alarm_stale c s i a v found free =
      let b : Alarm = record a { used = false } in
      let r = remove_alarm_found c s a.id i a found in
      let same : used_count (remove_alarm e c s a.id).0.alarms ≡ used_count c.alarms =
        ap (λ r. used_count r.0.alarms) r
        ∙ used_count-same c.alarms i a b (find_id-some a.id c.alarms i a found).0 (sym free) in
      let fewer : (remove_alarm e c s a.id).0.alarm_amount ≡ dec c.alarm_amount =
        ap (λ r. r.0.alarm_amount) r in
      (same, fewer, λ w. ground (arith, v.amount, w.amount, same, fewer))
