-- ===== src/Calendar/Adding.antt =====
-- `addWeeklyAlarm` and `addAlarmOnce` of libraries/Calendar.
use spu_energy_efficient_sys.Common.{
  ℕ, ◌+◌, ◌≡◌, true, Option, none, some, ℤ, pos, negsuc, get_elem?, set,
}
use spu_energy_efficient_sys.Eeprom.{Eeprom}
use spu_energy_efficient_sys.Calendar.{Alarm, Calendar, free_slot, store_alarms}
use spu_energy_efficient_sys.Calendar.Counting.{IsValid}

-- How a slot is filled: used, under the id that is given.
abbrev pub Fills : (Alarm → ℕ → Alarm) → Type 0
Fills make = (old : Alarm) (n : ℕ) → ((make old n).used ≡ true) × ((make old n).id ≡ pos n)

module _ (e : Eeprom) {World : Type 0} where
  -- What adding an alarm gives: the first free slot filled by `make` under the next id, the other
  -- slots as they were, all saved, the id as result; or, with no free slot, nothing changed and -1.
  -- Either way the calendar is valid.
  pub record Added (c : Calendar World) (s : e.Store) (make : Alarm → ℕ → Alarm)
      (r : Calendar World × e.Store × ℤ) : Type 0 where
    pub valid : IsValid r.0
    pub filled :
        (old : Alarm)
        → get_elem? c.alarms (free_slot c.alarms) ≡ some old
        → (r.0.alarms ≡ set c.alarms (free_slot c.alarms) (make old c.next_id))
          × (r.1 ≡ store_alarms e s r.0.alarms)
          × (r.0.next_id ≡ c.next_id + 1)
          × (r.2 ≡ pos c.next_id)
    pub refused :
        get_elem? c.alarms (free_slot c.alarms) ≡ none → (r.0 ≡ c) × (r.1 ≡ s) × (r.2 ≡ negsuc 0)
