-- ===== src/Calendar.antt =====
-- libraries/Calendar: the alarms that switch groups on and off, kept in 30 slots and copied to the
-- EEPROM at every change. `World` is whatever the event functions act on.
pub mod Edit
pub mod Check
pub mod Counting
pub mod Image
pub mod Loading
pub mod Freeing
pub mod Matching
pub mod Removing
pub mod Adding
pub mod Saving
pub mod Restart
pub mod Firing
pub mod Turns
mod Tests
use spu_energy_efficient_sys.Common.{
  ℕ, zero, suc, ◌+◌, ◌-◌, ◌%◌, ◌≡◌, Bool, true, false, ◌&&◌, Option, none, some, List, [], ◌∷◌,
  ◌++◌, ℤ, pos, negsuc, ◌==ℤ◌, to_byte, length, get_elem?, set, ltb, leb, ◌==◌, ◌>>=◌,
  if◌then◌else◌,
}
use spu_energy_efficient_sys.Eeprom.{Eeprom}
use spu_energy_efficient_sys.Spu.{alarms_dir, delimiter}

abbrev pub max_alarms : ℕ
max_alarms = 30

abbrev pub max_calendar_events : ℕ
max_calendar_events = 5

abbrev pub event_not_set : ℤ
event_not_set = negsuc 0

abbrev pub alarm_once : ℕ
alarm_once = 1

abbrev pub weekly_alarm : ℕ
weekly_alarm = 2

-- `alarm`
pub record Alarm : Type 0 where
  pub id : ℤ
  pub day : ℤ
  pub hour : ℤ
  pub minutes : ℤ
  pub finish_hour : ℤ
  pub finish_minutes : ℤ
  pub month : ℤ
  pub year : ℤ
  pub event : ℤ
  pub started : Bool
  pub used : Bool
  pub kind : ℕ
  pub event_id : ℤ

-- `alarmEvent`
pub record AlarmEvent (World : Type 0) : Type 0 where
  pub code : ℤ
  pub on : ℤ → World → World
  pub off : ℤ → World → World

pub record Calendar (World : Type 0) : Type 0 where
  pub alarms : List Alarm
  pub events : List (AlarmEvent World)
  pub alarm_amount : ℤ
  pub next_id : ℕ

-- `alarmAmount++` and `alarmAmount--`
abbrev pub inc : ℤ → ℤ
inc (pos n) = pos (n + 1)
inc (negsuc zero) = pos 0
inc (negsuc (suc n)) = negsuc n

abbrev pub dec : ℤ → ℤ
dec (pos zero) = negsuc 0
dec (pos (suc n)) = pos n
dec (negsuc n) = negsuc (n + 1)

-- The `while` loop that looks for a slot; the number of slots if all are used.
unfoldable pub free_slot : List Alarm → ℕ
free_slot [] = 0
free_slot (a ∷ rest) = if a.used then suc (free_slot rest) else 0

-- What `storeAlarms` writes for one alarm.
unfoldable pub alarm_bytes : Alarm → List ℕ
alarm_bytes a =
    to_byte (pos a.kind)
    ∷ to_byte a.day
    ∷ to_byte a.hour
    ∷ to_byte a.minutes
    ∷ to_byte a.finish_hour
    ∷ to_byte a.finish_minutes
    ∷ to_byte a.event
    ∷ to_byte a.event_id
    ∷ to_byte a.id
    ∷ (if a.kind == alarm_once then to_byte a.year ∷ to_byte a.month ∷ [] else [])

-- `alarms[alarmIndex++] = aux; alarmAmount++`, and `nextId` above the alarm's id.
unfoldable pub put_alarm : {World : Type 0} → Calendar World → ℕ → Alarm → ℕ → Calendar World
put_alarm c i a id = record c {
  alarms = set c.alarms i a;
  alarm_amount = inc c.alarm_amount;
  next_id = if leb c.next_id id then id + 1 else c.next_id;
}

module _ (e : Eeprom) where
  open e use {Store, read, write, commit}

  -- `EEPROM.write(position++, b)` for each byte, with the position after the last.
  unfoldable pub write_bytes : Store → ℕ → List ℕ → Store
  write_bytes s p [] = s
  write_bytes s p (b ∷ bs) = write_bytes (write s p b) (p + 1) bs

  -- The loop of `storeAlarms` from `position` on, and the delimiter behind the last alarm.
  unfoldable pub store_from : Store → ℕ → List Alarm → Store
  store_from s p [] = write s p delimiter
  store_from s p (a ∷ rest) =
      store_from (if a.used then write_bytes s p (alarm_bytes a) else s)
        (if a.used then p + length (alarm_bytes a) else p) rest

  unfoldable pub store_alarms : Store → List Alarm → Store
  store_alarms s alarms = commit (store_from s alarms_dir alarms)

  -- The bytes of the alarm at `p`, behind its type; `month` and `year` stay for a weekly alarm.
  unfoldable pub read_alarm : Store → ℕ → ℕ → Alarm → Alarm × ℕ
  read_alarm s kind p aux =
      let a : Alarm = record aux {
        day = pos (read s p);
        hour = pos (read s (p + 1));
        minutes = pos (read s (p + 2));
        finish_hour = pos (read s (p + 3));
        finish_minutes = pos (read s (p + 4));
        event = pos (read s (p + 5));
        event_id = pos (read s (p + 6));
        used = true;
        started = false;
        id = pos (read s (p + 7));
        kind = kind;
      } in
      if kind == alarm_once
      then (record a { year = pos (read s (p + 8)); month = pos (read s (p + 9)) }, p + 10)
      else (a, p + 8)

  -- The `while` loop of `readAlarms`: the first slot free, the slots left, the position behind the
  -- type that was read, `aux` as the last round left it. One alarm too many is a fault.
  unfoldable pub read_from :
      {World : Type 0} → Store → Calendar World → ℕ → ℕ → ℕ → ℕ → Alarm → Option (Calendar World)
  read_from s c i zero kind p aux = if kind == delimiter then some c else none
  read_from s c i (suc k) kind p aux =
      let (a, q) = read_alarm s kind p aux in
      let c' = put_alarm c i a (read s (p + 7)) in
      let rest = read_from s c' (i + 1) k (read s q) (q + 1) a in
      if kind == delimiter then some c else rest

  unfoldable pub read_alarms :
      {World : Type 0} → Store → Calendar World → Alarm → Option (Calendar World)
  read_alarms s c aux = read_from s c 0 max_alarms (read s alarms_dir) (alarms_dir + 1) aux
