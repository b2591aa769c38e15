-- ===== src/Master/Devices.antt =====
-- Master/Master.ino: connecting and disconnecting the sensors of the master itself, and how many
-- relays are on. The timer that reads the temperature is left out.
use spu_energy_efficient_sys.Common.{
  ℕ, zero, suc, ◌+◌, Bool, true, false, not, ◌&&◌, ◌||◌, Option, some, List, [], ◌∷◌, pos, ◌>>=◌,
  get_elem?, if◌then◌else◌,
}
use spu_energy_efficient_sys.Eeprom.{Eeprom}
use spu_energy_efficient_sys.Fifo.{Fifo}
use spu_energy_efficient_sys.Gpio.{Gpio}
use spu_energy_efficient_sys.Alarms.{Alarms}
use spu_energy_efficient_sys.Spu.{group_amount, max_slave_relay_amount}
use spu_energy_efficient_sys.Node.{RelayInfo, Packet, Node}
use spu_energy_efficient_sys.Node.Sensors.{is_relay_in_group}
use spu_energy_efficient_sys.Master.{Master, Group, Ip, turn_on_group}
use spu_energy_efficient_sys.Master.Motion.{turn_on_pir, turn_off_pir, connected_pir}
use spu_energy_efficient_sys.Master.Settings.{store_sensor_info}

-- Whether some group is in use and on.
unfoldable pub some_group_on : List Group → Bool
some_group_on [] = false
some_group_on (x ∷ xs) = (x.is_connected && x.is_on) || some_group_on xs

-- The first loop of `activeActuators`.
unfoldable pub relays_on : List RelayInfo → ℕ
relays_on [] = 0
relays_on (r ∷ rs) = (if r.is_on then 1 else 0) + relays_on rs

module _ {Queue : Type 0} where
  -- The relays `j` to `j + k` of a node that are in a group.
  unfoldable pub relays_in_group : Node Queue Ip → ℕ → ℕ → ℕ → Option ℕ
  unfolding is_relay_in_group
  relays_in_group n group j zero = some 0
  relays_in_group n group j (suc k) = is_relay_in_group n j (pos group) >>= λ here.
      relays_in_group n group (j + 1) k >>= λ others. some ((if here then 1 else 0) + others)

  unfoldable pub node_relays : List (Node Queue Ip) → ℕ → Option ℕ
  unfolding relays_in_group
  node_relays [] group = some 0
  node_relays (n ∷ ns) group = relays_in_group n group 0 max_slave_relay_amount >>= λ here.
      node_relays ns group >>= λ others. some (here + others)

  -- The loop over the groups, from the index `i` on.
  unfoldable pub group_relays : List (Node Queue Ip) → List Group → ℕ → Option ℕ
  unfolding node_relays
  group_relays nodes [] i = some 0
  group_relays nodes (x ∷ xs) i =
      (if x.is_connected && (x.is_on && not x.is_sleeping) then node_relays nodes i else some 0)
      >>= λ here. group_relays nodes xs (i + 1) >>= λ others. some (here + others)

  -- `activeActuators`; the number of infrared senders is always 0.
  unfoldable pub active_actuators :
      {Store Pins Timers : Type 0} → Master Queue Store Pins Timers → Option (ℕ × ℕ)
  unfolding relays_on group_relays
  active_actuators m =
      group_relays m.nodes m.groups 0 >>= λ others. some (relays_on m.relays + others, 0)

module _ (e : Eeprom) {Queue Pins Timers : Type 0} where
  open e use {Store}

  unfoldable pub connect_master_dht :
      Master Queue Store Pins Timers → Master Queue Store Pins Timers
  connect_master_dht m = store_sensor_info e (record m { dht_connected = true })

  unfoldable pub disconnect_master_dht :
      Master Queue Store Pins Timers → Master Queue Store Pins Timers
  disconnect_master_dht m = store_sensor_info e (record m { dht_connected = false })

  -- `connectMasterPir`; `level` is what `digitalRead` says.
  unfoldable pub connect_master_pir :
      Master Queue Store Pins Timers → Bool → Master Queue Store Pins Timers
  unfolding some_group_on turn_on_pir
  connect_master_pir m level =
      let m1 = record m { pir = record m.pir { is_connected = true } } in
      store_sensor_info e (if some_group_on m1.groups then turn_on_pir m1 level else m1)

module _ (e : Eeprom) (f : Fifo Packet) (g : Gpio) (a : Alarms) where
  open e use {Store}
  open f use {Queue}
  open g use {Pins}
  open a use {Timers}

  -- The loop of `disconnectMasterPir`.
  unfoldable pub wake_all :
      Master Queue Store Pins Timers → ℕ → ℕ → Option (Master Queue Store Pins Timers)
  unfolding turn_on_group
  wake_all m i zero = some m
  wake_all m i (suc k) = get_elem? m.groups i >>= λ x.
      (if x.is_connected && (x.is_on && x.is_sleeping) then turn_on_group f g m i else some m)
      >>= λ m'. wake_all m' (i + 1) k

  unfoldable pub disconnect_master_pir :
      Master Queue Store Pins Timers → Option (Master Queue Store Pins Timers)
  unfolding turn_off_pir connected_pir wake_all
  disconnect_master_pir m =
      let m0 = turn_off_pir a m in
      let m1 = record m0 { pir = record m0.pir { is_connected = false } } in
      (if connected_pir m1 then some m1 else wake_all m1 0 group_amount) >>= λ m2.
      some (store_sensor_info e m2)
