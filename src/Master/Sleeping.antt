-- ===== src/Master/Sleeping.antt =====
-- What `sleepGroups` does when a time without motion has passed.
use spu_energy_efficient_sys.Common.{
  ℕ, ◌-◌, ◌<◌, ◌≡◌, refl, Bool, true, false, some, pos, get_elem?, set, if◌then◌else◌, ◌⊎◌,
}
use spu_energy_efficient_sys.Fifo.{Fifo}
use spu_energy_efficient_sys.Gpio.{Gpio}
use spu_energy_efficient_sys.Alarms.{Alarms, sleeps_groups}
use spu_energy_efficient_sys.Spu.{alarm_not_set}
use spu_energy_efficient_sys.Node.{Packet}
use spu_energy_efficient_sys.Master.{Master, Group, sleep_group}
use spu_energy_efficient_sys.Master.Motion.{is_awake}
use spu_energy_efficient_sys.Master.Dozing.{slept, AllFrom}
use spu_energy_efficient_sys.Master.SleepLoop.{Kept, sleep_group-some}

module _ (f : Fifo Packet) (g : Gpio) (a : Alarms) {Store : Type 0} where
  open f use {Queue}
  open g use {Pins}
  open a use {Timers, timer_once}

  -- What is to come when groups have been put to sleep: nothing, as no group is awake whose time is
  -- below 65536; or a group that is awake, none with a shorter time, for which the timer runs.
  abbrev pub Coming : Master Queue Store Pins Timers → ℕ → Timers → Type 0
  Coming m time timers =
      ((m.motion_alarm ≡ alarm_not_set) × AllFrom 65536 m.groups)
      ⊎ ((i : ℕ) × (y : Group) × (get_elem? m.groups i ≡ some y)
          × (is_awake y ≡ true)
          × AllFrom y.motion_detection_time m.groups
          × (time < y.motion_detection_time)
          × (m.pir.next_sleeping_group ≡ pos i)
          × (m.motion_alarm ≡ (timer_once timers (y.motion_detection_time - time) sleeps_groups).0))

  -- The old group goes to sleep, if it is on.
  start :
      (m : Master Queue Store Pins Timers) (old : ℕ) (x : Group) (c : Bool)
      → get_elem? m.groups old ≡ some x
      → (m' : Master Queue Store Pins Timers) × ((if c then sleep_group f g m old else some m)
          ≡ some m')
        × (m'.groups ≡ (if c then set m.groups old (slept x) else m.groups))
        × Kept f g m m'
  start m old x true here = sleep_group-some f g m old x here
  start m old x false here = (m, refl, refl, (refl, refl, refl))
