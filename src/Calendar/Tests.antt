-- ===== src/Calendar/Tests.antt =====
-- The theorems on libraries/Calendar at concrete calendars, with runs of the code.
use spu_energy_efficient_sys.Common.{
  ℕ, zero, suc, inl, inr, ◌≡◌, refl, Bool, true, false, List, [], ◌∷◌, ◌++◌, All, some, arith, pos,
  length, get_elem?, replicate,
}
use spu_energy_efficient_sys.Eeprom.{map_eeprom}
use spu_energy_efficient_sys.Calendar.{Alarm, AlarmEvent, Calendar, store_alarms}
use spu_energy_efficient_sys.Calendar.Edit.{
  remove_alarm, remove_alarms_with_event_and_id, used_alarms, new_calendar, find_id,
}
use spu_energy_efficient_sys.Calendar.Check.{fields_lib, Fields, check_alarms, event_on, event_off}
use spu_energy_efficient_sys.Calendar.Counting.{IsValid, used_count}
use spu_energy_efficient_sys.Calendar.Matching.{Freed, remove_alarms_with_event_and_id_lem}
use spu_energy_efficient_sys.Calendar.Removing.{Removed, remove_alarm_lem, remove_alarm_stale}
use spu_energy_efficient_sys.Calendar.Restart.{AllKept, IdBelow, IsStorable, restart}
use spu_energy_efficient_sys.Calendar.Firing.{check_alarms-IsValid}
use spu_energy_efficient_sys.Calendar.Turns.{Alternating, Watched, slot_run, weekly_turns}

abbrev free_alarm : Alarm
free_alarm = record {
  id = pos 0;
  day = pos 0;
  hour = pos 0;
  minutes = pos 0;
  finish_hour = pos 0;
  finish_minutes = pos 0;
  month = pos 0;
  year = pos 0;
  event = pos 0;
  started = false;
  used = false;
  kind = 0;
  event_id = pos 0;
}

-- Mondays from 8:30 to 20:00, group 2.
abbrev monday : Alarm
monday = record free_alarm {
  id = pos 3;
  day = pos 1;
  hour = pos 8;
  minutes = pos 30;
  finish_hour = pos 20;
  event = pos 1;
  event_id = pos 2;
  used = true;
  kind = 2;
}

-- 5 March 2019 from 9:00 to 9:10.
abbrev march : Alarm
march = record free_alarm {
  id = pos 4;
  day = pos 5;
  hour = pos 9;
  finish_hour = pos 9;
  finish_minutes = pos 10;
  month = pos 3;
  year = pos 19;
  event = pos 1;
  event_id = pos 2;
  used = true;
  kind = 1;
}

-- The alarm with id 2 was removed: its slot comes first.
abbrev removed : Alarm
removed = record monday { id = pos 2; used = false }

abbrev slots : List Alarm
slots = removed ∷ monday ∷ march ∷ replicate 27 free_alarm

abbrev logging : AlarmEvent (List Bool)
logging = record { code = pos 1; on = λ id w. w ++ (true ∷ []); off = λ id w. w ++ (false ∷ []) }

abbrev calendar : Calendar (List Bool)
calendar = record { alarms = slots; events = logging ∷ []; alarm_amount = pos 2; next_id = 5 }

abbrev memory : map_eeprom.Store
memory = λ p. 0

calendar-IsValid : IsValid calendar
calendar-IsValid = record { amount = refl; tidy = grind arith; slots = refl }

abbrev monday_morning : Fields
monday_morning = record { hour = 8; minute = 30; weekday = 2; day = 4; month = 3 }

abbrev monday_evening : Fields
monday_evening = record { hour = 20; minute = 0; weekday = 2; day = 4; month = 3 }

unused-IsStorable : (n : ℕ) → All (λ a. a.used ≡ true → IsStorable a) (replicate n free_alarm)
unused-IsStorable zero = tt
unused-IsStorable (suc n) = ((λ u. cc), unused-IsStorable n)

monday-IsStorable : IsStorable monday
monday-IsStorable = record {
  kind = inr refl;
  id = omega arith;
  day = omega arith;
  hour = omega arith;
  minutes = omega arith;
  finish_hour = omega arith;
  finish_minutes = omega arith;
  event = omega arith;
  event_id = omega arith;
  month = λ k. omega arith;
  year = λ k. omega arith;
}

march-IsStorable : IsStorable march
march-IsStorable = record {
  kind = inl refl;
  id = omega arith;
  day = omega arith;
  hour = omega arith;
  minutes = omega arith;
  finish_hour = omega arith;
  finish_minutes = omega arith;
  event = omega arith;
  event_id = omega arith;
  month = λ k. omega arith;
  year = λ k. omega arith;
}

slots-IsStorable : All (λ a. a.used ≡ true → IsStorable a) slots
slots-IsStorable =
    ((λ u. cc), ((λ u. monday-IsStorable), ((λ u. march-IsStorable), unused-IsStorable 27)))

restart_example :
    (c : Calendar (List Bool)) × (new_calendar map_eeprom
        (store_alarms map_eeprom memory slots)
        (replicate 30 free_alarm)
        (logging ∷ [])
        free_alarm
      ≡ some c)
    × AllKept (used_alarms slots) (used_alarms c.alarms)
    × (c.alarm_amount ≡ pos (length (used_alarms slots)))
    × All (IdBelow c.next_id) (used_alarms c.alarms)
unfolding used_alarms
restart_example =
    restart map_eeprom slots memory (replicate 30 free_alarm) (logging ∷ []) free_alarm refl
      (omega arith) slots-IsStorable

check_alarms-IsValid_example :
    IsValid (check_alarms fields_lib map_eeprom calendar memory [] monday_morning).0
check_alarms-IsValid_example =
    check_alarms-IsValid fields_lib map_eeprom calendar memory [] monday_morning calendar-IsValid

monday-Watched : Watched fields_lib map_eeprom calendar 1 monday false
unfolding event_on event_off
monday-Watched = record {
  there = refl;
  is_used = refl;
  is_weekly = refl;
  writes_on = λ w. refl;
  writes_off = λ w. refl;
}

weekly_turns_example :
    (calls : List Bool) × (b : Bool) × ((slot_run fields_lib map_eeprom
        (monday_morning ∷ monday_evening ∷ [])
        calendar
        memory
        []
        1).2
      ≡ [] ++ calls)
    × (get_elem?
          (slot_run fields_lib map_eeprom
            (monday_morning ∷ monday_evening ∷ [])
            calendar
            memory
            []
            1).0.alarms
          1
        ≡ some (record monday { started = b }))
    × Alternating false calls b
weekly_turns_example =
    weekly_turns fields_lib map_eeprom (monday_morning ∷ monday_evening ∷ []) calendar memory [] 1
      monday false monday-Watched

remove_alarm_lem_example :
    Removed map_eeprom calendar memory 1 monday (remove_alarm map_eeprom calendar memory (pos 3))
remove_alarm_lem_example =
    remove_alarm_lem map_eeprom calendar memory 1 monday calendar-IsValid refl refl

remove_alarm_stale_example :
    let d = (remove_alarm map_eeprom calendar memory (pos 2)).0 in
    (used_count d.alarms ≡ 2) × (d.alarm_amount ≡ pos 1) × (¬ IsValid d)
unfolding find_id
remove_alarm_stale_example =
    remove_alarm_stale map_eeprom calendar memory 0 removed calendar-IsValid refl refl

remove_alarms_with_event_and_id_lem_example :
    let (d, t) = remove_alarms_with_event_and_id map_eeprom calendar memory (pos 1) (pos 2) in
    Freed (pos 1) (pos 2) slots d.alarms
    × (t ≡ store_alarms map_eeprom memory d.alarms)
    × (d.next_id ≡ 5)
    × IsValid d
remove_alarms_with_event_and_id_lem_example =
    remove_alarms_with_event_and_id_lem map_eeprom calendar memory (pos 1) (pos 2) calendar-IsValid
