-- ===== src/Calendar/Check.antt =====
-- libraries/Calendar: `checkAlarms`, which starts and ends the alarms whose time has come. The fields
-- of a time are those of libraries/Time (a library of its own): `TimeLib`.
use spu_energy_efficient_sys.Common.{
  ℕ, zero, suc, ◌+◌, ◌-◌, Bool, true, false, not, ◌&&◌, List, [], ◌∷◌, ℤ, pos, ◌==ℤ◌, get_elem?,
  set, ◌==◌, if◌then◌else◌, none, some,
}
use spu_energy_efficient_sys.Eeprom.{Eeprom}
use spu_energy_efficient_sys.Calendar.{
  Alarm, AlarmEvent, Calendar, max_alarms, alarm_once, weekly_alarm,
}
use spu_energy_efficient_sys.Calendar.Edit.{remove_alarm}

pub record TimeLib : Type 1 where
  pub Time : Type 0
  pub hour : Time → ℕ
  pub minute : Time → ℕ
  -- 1 is Sunday.
  pub weekday : Time → ℕ
  pub day : Time → ℕ
  pub month : Time → ℕ

-- A time as the five fields.
abbrev pub Fields : Type 0
Fields = record { hour : ℕ; minute : ℕ; weekday : ℕ; day : ℕ; month : ℕ }

abbrev pub fields_lib : TimeLib
fields_lib = record {
  Time = Fields;
  hour = λ t. t.hour;
  minute = λ t. t.minute;
  weekday = λ t. t.weekday;
  day = λ t. t.day;
  month = λ t. t.month;
}

module _ {World : Type 0} where
  -- `eventOn` and `eventOff`: the first entry with the code; an unknown code does nothing.
  unfoldable pub event_on : List (AlarmEvent World) → ℤ → ℤ → World → World
  event_on [] code id w = w
  event_on (v ∷ rest) code id w =
      let other = event_on rest code id w in if v.code ==ℤ code then v.on id w else other

  unfoldable pub event_off : List (AlarmEvent World) → ℤ → ℤ → World → World
  event_off [] code id w = w
  event_off (v ∷ rest) code id w =
      let other = event_off rest code id w in if v.code ==ℤ code then v.off id w else other

  -- `aux->started = b` for the slot `i`.
  unfoldable pub mark : Calendar World → ℕ → Alarm → Bool → Calendar World
  mark c i a b = record c { alarms = set c.alarms i (record a { started = b }) }

module _ (l : TimeLib) where
  open l use {Time, hour, minute, weekday, day, month}

  -- Monday is 1 and Sunday 7.
  unfoldable pub day_of_week : Time → ℕ
  day_of_week t = if weekday t == 1 then 7 else weekday t - 1

  -- The conditions of `checkAlarm`. The year of an alarm is not looked at.
  unfoldable pub starts_once : Alarm → Time → Bool
  starts_once a t =
      (a.hour ==ℤ pos (hour t))
      && (a.minutes ==ℤ pos (minute t))
      && (a.day ==ℤ pos (day t))
      && (a.month ==ℤ pos (month t))

  unfoldable pub ends_once : Alarm → Time → Bool
  ends_once a t =
      (a.finish_hour ==ℤ pos (hour t))
      && (a.finish_minutes ==ℤ pos (minute t))
      && (a.day ==ℤ pos (day t))
      && (a.month ==ℤ pos (month t))

  unfoldable pub starts_weekly : Alarm → Time → Bool
  unfolding day_of_week
  starts_weekly a t =
      (a.hour ==ℤ pos (hour t)) && (a.minutes ==ℤ pos (minute t)) && (a.day ==ℤ pos (day_of_week t))

  unfoldable pub ends_weekly : Alarm → Time → Bool
  unfolding day_of_week
  ends_weekly a t =
      (a.finish_hour ==ℤ pos (hour t))
      && (a.finish_minutes ==ℤ pos (minute t))
      && (a.day ==ℤ pos (day_of_week t))

  module _ (e : Eeprom) {World : Type 0} where
    open e use {Store}

    -- `checkAlarm` for the alarm `a` in slot `i`.
    unfoldable pub check_once :
        Calendar World → Store → World → ℕ → Alarm → Time → Calendar World × Store × World
    unfolding event_on event_off mark
    check_once c s w i a t =
        if not a.started
        then (if starts_once a t
            then (mark c i a true, s, event_on c.events a.event a.event_id w)
            else (c, s, w))
        else if ends_once a t
        then (let (c', s') = remove_alarm e (mark c i a false) s a.id in
            (c', s', event_off c.events a.event a.event_id w))
        else (c, s, w)

    unfoldable pub check_weekly :
        Calendar World → Store → World → ℕ → Alarm → Time → Calendar World × Store × World
    unfolding event_on event_off mark
    check_weekly c s w i a t =
        if not a.started
        then (if starts_weekly a t
            then (mark c i a true, s, event_on c.events a.event a.event_id w)
            else (c, s, w))
        else if ends_weekly a t
        then (mark c i a false, s, event_off c.events a.event a.event_id w)
        else (c, s, w)

    unfoldable pub check_alarm :
        Calendar World → Store → World → ℕ → Alarm → Time → Calendar World × Store × World
    unfolding check_once check_weekly
    check_alarm c s w i a t =
        if a.kind == alarm_once
        then check_once c s w i a t
        else if a.kind == weekly_alarm
        then check_weekly c s w i a t
        else (c, s, w)

    -- The body of the loop of `checkAlarms`, for the slot `i`.
    unfoldable pub check_slot :
        Calendar World → Store → World → ℕ → Time → Calendar World × Store × World
    check_slot c s w i t = elim (get_elem? c.alarms i) [
      | some a ↦ if a.used then check_alarm c s w i a t else (c, s, w)
      | none ↦ (c, s, w)
    ]

    -- The loop of `checkAlarms` over the `k` slots from `i` on.
    unfoldable pub check_from :
        Calendar World → Store → World → ℕ → ℕ → Time → Calendar World × Store × World
    check_from c s w i zero t = (c, s, w)
    check_from c s w i (suc k) t =
        let (c', s', w') = check_slot c s w i t in check_from c' s' w' (i + 1) k t

    unfoldable pub check_alarms :
        Calendar World → Store → World → Time → Calendar World × Store × World
    check_alarms c s w t = check_from c s w 0 max_alarms t
