-- ===== src/Calendar/Edit.antt =====
-- libraries/Calendar: adding, removing and listing alarms, and the table of event functions.
use spu_energy_efficient_sys.Common.{
  ℕ, suc, ◌+◌, ◌%◌, true, false, ◌&&◌, Option, List, [], ◌∷◌, ℤ, pos, negsuc, ◌==ℤ◌, get_elem?, set,
  ltb, ◌>>=◌, if◌then◌else◌, map, some, none,
}
use spu_energy_efficient_sys.Eeprom.{Eeprom}
use spu_energy_efficient_sys.Calendar.{
  Alarm, AlarmEvent, Calendar, event_not_set, alarm_once, weekly_alarm, inc, dec, free_slot,
  store_alarms, read_alarms,
}

-- `year % 100` on an `int` takes the sign of the year.
unfoldable pub rem_100 : ℤ → ℤ
rem_100 (pos n) = pos (n % 100)
rem_100 (negsuc n) = if ltb ((n + 1) % 100) 1 then pos 0 else negsuc (n % 100)

-- What `addWeeklyAlarm` and `addAlarmOnce` write into the slot `old`.
unfoldable pub weekly : Alarm → ℤ → ℤ → ℤ → ℤ → ℤ → ℤ → ℤ → ℕ → Alarm
weekly old d h m finish_h finish_m event event_id id = record old {
  day = d;
  hour = h;
  minutes = m;
  finish_hour = finish_h;
  finish_minutes = finish_m;
  used = true;
  kind = weekly_alarm;
  event = event;
  event_id = event_id;
  id = pos id;
}

unfoldable pub once : Alarm → ℤ → ℤ → ℤ → ℤ → ℤ → ℤ → ℤ → ℤ → ℤ → ℕ → Alarm
unfolding rem_100
once old d month year h m finish_h finish_m event event_id id = record old {
  day = d;
  hour = h;
  minutes = m;
  finish_hour = finish_h;
  finish_minutes = finish_m;
  month = month;
  year = rem_100 year;
  used = true;
  event = event;
  event_id = event_id;
  kind = alarm_once;
  id = pos id;
}

-- The first slot with the id, used or not, and what is in it.
unfoldable pub find_id : ℤ → List Alarm → Option (ℕ × Alarm)
find_id id [] = none
find_id id (a ∷ rest) =
    let later : Option (ℕ × Alarm) = find_id id rest >>= λ r. some (suc r.0, r.1) in
    if a.id ==ℤ id then some (0, a) else later

-- The loop of `removeAlarmsWithEventAndId`: the slots freed, and their count off the amount.
unfoldable pub free_matching : ℤ → ℤ → List Alarm → ℤ → List Alarm × ℤ
free_matching event event_id [] amount = ([], amount)
free_matching event event_id (a ∷ rest) amount =
    let hit = a.used && (a.event ==ℤ event) && (a.event_id ==ℤ event_id) in
    let (rest', amount') = free_matching event event_id rest (if hit then dec amount else amount) in
    ((if hit then record a { used = false } else a) ∷ rest', amount')

-- The used alarms, as `getAlarms` copies them.
unfoldable pub used_alarms : List Alarm → List Alarm
used_alarms [] = []
used_alarms (a ∷ rest) = let others = used_alarms rest in if a.used then a ∷ others else others

-- A slot as `initAlarms` leaves it, and an entry of the event table as its constructor does.
unfoldable pub cleared : Alarm → Alarm
cleared a = record a { used = false; started = false }

unfoldable pub without_code : {World : Type 0} → AlarmEvent World → AlarmEvent World
without_code v = record v { code = event_not_set }

-- The loop of `addEvent`: the last free entry (`pos` if there is none), or `none` where the code is
-- in the table already.
unfoldable pub event_slot : {World : Type 0} → ℤ → ℕ → ℕ → List (AlarmEvent World) → Option ℕ
event_slot code at i [] = some at
event_slot code at i (v ∷ rest) =
    let found = event_slot code (if v.code ==ℤ event_not_set then i else at) (i + 1) rest in
    if v.code ==ℤ event_not_set then found else if v.code ==ℤ code then none else found

unfoldable pub add_event :
    {World : Type 0}
    → Calendar World
    → ℤ
    → (ℤ → World → World)
    → (ℤ → World → World)
    → Calendar World
unfolding event_slot
add_event c code on off = elim (event_slot code 0 0 c.events) [
  | none ↦ c
  | some i ↦ record c { events = set c.events i (record { code = code; on = on; off = off }) }
]

module _ (e : Eeprom) {World : Type 0} where
  open e use {Store}

  -- The common part of the two ways to add an alarm: `make` is what goes into the free slot. The
  -- result is the alarm's id, or -1 where all slots are used.
  unfoldable pub add_alarm :
      Calendar World → Store → (Alarm → ℕ → Alarm) → Calendar World × Store × ℤ
  unfolding free_slot
  add_alarm c s make = elim (get_elem? c.alarms (free_slot c.alarms)) [
    | some old ↦
        let alarms = set c.alarms (free_slot c.alarms) (make old c.next_id) in
        (
          record c { alarms = alarms; alarm_amount = inc c.alarm_amount; next_id = c.next_id + 1 },
          store_alarms e s alarms,
          pos c.next_id,
        )
    | none ↦ (c, s, negsuc 0)
  ]

  unfoldable pub add_weekly_alarm :
      Calendar World → Store → ℤ → ℤ → ℤ → ℤ → ℤ → ℤ → ℤ → Calendar World × Store × ℤ
  unfolding add_alarm
  add_weekly_alarm c s d h m finish_h finish_m event event_id =
      add_alarm c s (λ old id. weekly old d h m finish_h finish_m event event_id id)

  unfoldable pub add_alarm_once :
      Calendar World → Store → ℤ → ℤ → ℤ → ℤ → ℤ → ℤ → ℤ → ℤ → ℤ → Calendar World × Store × ℤ
  unfolding add_alarm
  add_alarm_once c s d month year h m finish_h finish_m event event_id =
      add_alarm c s (λ old id. once old d month year h m finish_h finish_m event event_id id)

  unfoldable pub remove_alarm : Calendar World → Store → ℤ → Calendar World × Store
  unfolding find_id
  remove_alarm c s id = elim (find_id id c.alarms) [
    | none ↦ (c, s)
    | some (i, a) ↦
        let alarms = set c.alarms i (record a { used = false }) in
        (record c { alarms = alarms; alarm_amount = dec c.alarm_amount }, store_alarms e s alarms)
  ]

  unfoldable pub remove_alarms_with_event_and_id :
      Calendar World → Store → ℤ → ℤ → Calendar World × Store
  unfolding free_matching
  remove_alarms_with_event_and_id c s event event_id =
      let (alarms, amount) = free_matching event event_id c.alarms c.alarm_amount in
      (record c { alarms = alarms; alarm_amount = amount }, store_alarms e s alarms)

  -- `AlarmCalendar::AlarmCalendar` and `initAlarms`. `slots` is the memory of the object, and `aux`
  -- the local variable of `readAlarms`, before anything is written.
  unfoldable pub new_calendar :
      Store → List Alarm → List (AlarmEvent World) → Alarm → Option (Calendar World)
  new_calendar s slots events aux =
      read_alarms e s
        (record {
          alarms = map cleared slots;
          events = map (without_code {World = World}) events;
          alarm_amount = pos 0;
          next_id = 0;
        })
        aux
