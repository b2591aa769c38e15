-- ===== src/Master/Motion.antt =====
-- Master/Master.ino: the detection of motion. Groups that are on are put to sleep one after the
-- other, those with the shortest time first, until there is motion again.
use spu_energy_efficient_sys.Common.{
  ℕ, zero, suc, ◌+◌, ◌-◌, Bool, true, false, not, ◌&&◌, ◌||◌, Option, none, some, List, [], ◌∷◌, ℤ,
  pos, negsuc, ◌==ℤ◌, get_elem?, set, ◌>>=◌, ◌==◌, leb, if◌then◌else◌,
}
use spu_energy_efficient_sys.Fifo.{Fifo}
use spu_energy_efficient_sys.Gpio.{Gpio}
use spu_energy_efficient_sys.Alarms.{Alarms, sleeps_groups, enables_pir}
use spu_energy_efficient_sys.Spu.{alarm_not_set, disconnected, group_amount}
use spu_energy_efficient_sys.Node.{Packet, Node}
use spu_energy_efficient_sys.Master.{Master, Group, Ip, turn_on_group, turn_off_group, sleep_group}

-- A group that is on and that the lack of motion puts to sleep.
abbrev pub is_awake : Group → Bool
is_awake x = x.is_connected && (x.is_on && (not x.is_sleeping && not x.ignore_pir))

-- The loop of `getNextSleepingGroup` from the index `i` on.
unfoldable pub next_from : List Group → ℕ → ℕ → ℤ → ℤ
next_from [] i min group = group
next_from (x ∷ xs) i min group =
    if is_awake x && leb x.motion_detection_time min
    then next_from xs (i + 1) x.motion_detection_time (pos i)
    else next_from xs (i + 1) min group

unfoldable pub get_next_sleeping_group : List Group → ℤ
unfolding next_from
get_next_sleeping_group groups = next_from groups 0 65535 (negsuc 0)

-- The loops of `turnOffPir` and of `connectedPir`.
unfoldable pub needs_pir : List Group → Bool
needs_pir [] = false
needs_pir (x ∷ xs) = (x.is_connected && (x.is_on && not x.ignore_pir)) || needs_pir xs

unfoldable pub has_pir : {Queue : Type 0} → List (Node Queue Ip) → Bool
has_pir [] = false
has_pir (n ∷ ns) = n.pir_sensor_connected || has_pir ns

-- A group by an index that may be negative.
unfoldable pub group_at : List Group → ℤ → Option (ℕ × Group)
group_at groups (pos i) = get_elem? groups i >>= λ x. some (i, x)
group_at groups (negsuc i) = none

module _ {Queue Store Pins Timers : Type 0} where
  unfoldable pub connected_pir : Master Queue Store Pins Timers → Bool
  unfolding has_pir
  connected_pir m = m.pir.is_connected || has_pir m.nodes

  -- `turnOnPir`; `level` is what `digitalRead` says.
  unfoldable pub turn_on_pir :
      Master Queue Store Pins Timers → Bool → Master Queue Store Pins Timers
  turn_on_pir m level =
      let p = m.pir in
      if p.is_on
      then m
      else if p.is_connected
      then record m { pir = record p { is_on = true; motion_detected = level } }
      else record m { pir = record p { is_on = true } }

  unfoldable pub detect_motion :
      Master Queue Store Pins Timers → Bool → Master Queue Store Pins Timers
  detect_motion m level =
      let p = m.pir in
      if not p.is_disabled && (p.is_connected && p.is_on)
      then record m { pir = record p { motion_detected = level } }
      else m

  unfoldable pub detect_slave_motion :
      Master Queue Store Pins Timers → Master Queue Store Pins Timers
  detect_slave_motion m =
      let p = m.pir in
      if not p.is_disabled
      then record m { pir = record p { motion_detected_on_slave = true } }
      else m

  unfoldable pub enable_pir : Master Queue Store Pins Timers → Master Queue Store Pins Timers
  enable_pir m = record m {
    pir = record m.pir { is_disabled = false };
    enable_pir_alarm = alarm_not_set;
  }

module _ (a : Alarms) {Queue Store Pins : Type 0} where
  open a use {Timers, timer_once, free}

  -- `if(motionAlarm != DISCONNECTED){ Alarm.free(motionAlarm); motionAlarm = ALARM_NOT_SET; }`
  unfoldable pub stop_motion_alarm : Master Queue Store Pins Timers → Master Queue Store Pins Timers
  stop_motion_alarm m =
      if not (m.motion_alarm ==ℤ disconnected)
      then record m { motion_alarm = alarm_not_set; timers = free m.timers m.motion_alarm }
      else m

  unfoldable pub set_motion_alarm :
      Master Queue Store Pins Timers → ℕ → Master Queue Store Pins Timers
  set_motion_alarm m seconds =
      let (id, timers) = timer_once m.timers seconds sleeps_groups in
      record m { motion_alarm = id; timers = timers; current_motion_detection_time = seconds }

  unfoldable pub turn_off_pir : Master Queue Store Pins Timers → Master Queue Store Pins Timers
  unfolding needs_pir stop_motion_alarm
  turn_off_pir m =
      if needs_pir m.groups
      then m
      else stop_motion_alarm
          (record m { pir = record m.pir { is_on = false; is_sleeping = false } })

  -- The end of `sleepGroups`: the timer for the group that is left, and the PIR.
  unfoldable pub await_next :
      Master Queue Store Pins Timers → ℕ → Option (ℕ × Group) → Master Queue Store Pins Timers
  unfolding set_motion_alarm
  await_next m time none = m
  await_next m time (some (i, y)) =
      set_motion_alarm (record m { pir = record m.pir { next_sleeping_group = pos i } })
        (y.motion_detection_time - time)

  unfoldable pub disable_pir : Master Queue Store Pins Timers → Master Queue Store Pins Timers
  disable_pir m =
      let (id, timers) = timer_once m.timers m.pir.inactivity_time enables_pir in
      if m.pir.inactivity_time == 0 then m else record m {
        enable_pir_alarm = id;
        timers = timers;
        pir = record m.pir { is_disabled = true };
      }

module _ (f : Fifo Packet) (g : Gpio) {Store : Type 0} where
  open f use {Queue}
  open g use {Pins}

  -- The loop of `sleepGroups`, which asks for the next group at most `k` times; `time` is the time of
  -- the old group. The result has the group that is left for later, if there is one; `none` is also
  -- a loop that is not done by then.
  unfoldable pub sleep_while :
      {Timers : Type 0}
      → Master Queue Store Pins Timers
      → ℕ
      → ℕ
      → Option (Master Queue Store Pins Timers × Option (ℕ × Group))
  unfolding get_next_sleeping_group group_at sleep_group
  sleep_while m time zero = none
  sleep_while m time (suc k) = elim (group_at m.groups (get_next_sleeping_group m.groups)) [
    | none ↦ some (m, none)
    | some (i, x) ↦
        let more = sleep_group f g m i >>= λ m'. sleep_while m' time k in
        if leb x.motion_detection_time time then more else some (m, some (i, x))
  ]

  module _ (a : Alarms) where
    open a use {Timers}

    unfoldable pub sleep_groups :
        Master Queue Store Pins Timers → Option (Master Queue Store Pins Timers)
    unfolding group_at sleep_group sleep_while await_next disable_pir
    sleep_groups m =
        let m1 = record m {
          motion_alarm = alarm_not_set;
          pir = record m.pir { is_sleeping = true };
        } in
        group_at m.groups m.pir.next_sleeping_group >>= λ (old, x).
        (if x.is_on then sleep_group f g m1 old else some m1) >>= λ m2.
        sleep_while m2 x.motion_detection_time (suc group_amount) >>= λ (m3, next).
        some (disable_pir a (await_next a m3 x.motion_detection_time next))

    -- The loop of `checkPir` that wakes the groups, for `k` indices from `i` on.
    unfoldable pub wake_groups :
        Master Queue Store Pins Timers → ℕ → ℕ → Option (Master Queue Store Pins Timers)
    unfolding turn_on_group
    wake_groups m i zero = some m
    wake_groups m i (suc k) = get_elem? m.groups i >>= λ x.
        let m1 = record m { groups = set m.groups i (record x { is_sleeping = false }) } in
        let on = turn_on_group f g m1 i >>= λ m2. wake_groups m2 (i + 1) k in
        let off = wake_groups m1 (i + 1) k in
        let same = wake_groups m (i + 1) k in
        if x.is_connected && x.is_sleeping then (if x.is_on then on else off) else same

    unfoldable pub check_pir :
        Master Queue Store Pins Timers → Option (Master Queue Store Pins Timers)
    unfolding connected_pir stop_motion_alarm wake_groups get_next_sleeping_group group_at
        set_motion_alarm
    check_pir m =
        let p = m.pir in
        let m1 = record m {
          pir =
              if p.motion_detected
              then record p { motion_detected = false }
              else record p { motion_detected_on_slave = false };
        } in
        let m2 = stop_motion_alarm a m1 in
        let woken =
          wake_groups (record m2 { pir = record m2.pir { is_sleeping = false } }) 0 group_amount in
        if p.is_on && ((p.motion_detected || p.motion_detected_on_slave) && connected_pir m)
        then ((if p.is_sleeping then woken else some m2) >>= λ m3.
            let next = get_next_sleeping_group m3.groups in
            group_at m3.groups next >>= λ (i, x). some (
              set_motion_alarm a (record m3 { pir = record m3.pir { next_sleeping_group = next } })
                x.motion_detection_time))
        else some m

    -- `turnOnGroupEvent` and `turnOffGroupEvent`, the functions of the calendar for one group;
    -- `manualTurnOnGroup` and `manualTurnOffGroup`, those of the menu.
    unfoldable pub turn_on_group_event :
        Master Queue Store Pins Timers → ℕ → Bool → Option (Master Queue Store Pins Timers)
    unfolding turn_on_group turn_on_pir set_motion_alarm
    turn_on_group_event m id level = turn_on_group f g m id >>= λ m1.
        get_elem? m1.groups id >>= λ x.
        let m2 = turn_on_pir m1 level in
        some (
          if x.ignore_pir
          then m1
          else if m2.motion_alarm ==ℤ alarm_not_set
          then set_motion_alarm a m2 x.motion_detection_time
          else m2)

    unfoldable pub turn_off_group_event :
        Master Queue Store Pins Timers → ℕ → Option (Master Queue Store Pins Timers)
    unfolding turn_off_group turn_off_pir
    turn_off_group_event m id = turn_off_group f g m id false >>= λ m1.
        get_elem? m1.groups id >>= λ x. some (if x.ignore_pir then m1 else turn_off_pir a m1)

    unfoldable pub manual_turn_on_group :
        Master Queue Store Pins Timers → ℕ → Bool → Option (Master Queue Store Pins Timers)
    unfolding turn_on_group turn_on_pir
    manual_turn_on_group m group level =
        turn_on_group f g m group >>= λ m1. some (turn_on_pir m1 level)

    unfoldable pub manual_turn_off_group :
        Master Queue Store Pins Timers → ℕ → Option (Master Queue Store Pins Timers)
    unfolding turn_off_group turn_off_pir
    manual_turn_off_group m group =
        turn_off_group f g m group false >>= λ m1. some (turn_off_pir a m1)

    -- The loops of `turnOnEverythingEvent` and `turnOffEverythingEvent`.
    unfoldable pub turn_on_all :
        Master Queue Store Pins Timers → ℕ → ℕ → Option (Master Queue Store Pins Timers)
    unfolding turn_on_group
    turn_on_all m i zero = some m
    turn_on_all m i (suc k) = get_elem? m.groups i >>= λ x.
        (if x.is_connected then turn_on_group f g m i else some m) >>= λ m'.
        turn_on_all m' (i + 1) k

    unfoldable pub turn_off_all :
        Master Queue Store Pins Timers → ℕ → ℕ → Option (Master Queue Store Pins Timers)
    unfolding turn_off_group
    turn_off_all m i zero = some m
    turn_off_all m i (suc k) = get_elem? m.groups i >>= λ x.
        (if x.is_connected then turn_off_group f g m i false else some m) >>= λ m'.
        turn_off_all m' (i + 1) k

    unfoldable pub turn_on_everything_event :
        Master Queue Store Pins Timers → Bool → Option (Master Queue Store Pins Timers)
    unfolding turn_on_all turn_on_pir
    turn_on_everything_event m level =
        turn_on_all m 0 group_amount >>= λ m'. some (turn_on_pir m' level)

    unfoldable pub turn_off_everything_event :
        Master Queue Store Pins Timers → Option (Master Queue Store Pins Timers)
    unfolding turn_off_all turn_off_pir
    turn_off_everything_event m = turn_off_all m 0 group_amount >>= λ m'. some (turn_off_pir a m')
