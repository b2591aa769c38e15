-- ===== src/Slave/Sensors.antt =====
-- Slave/Slave.ino: the sensors, relays and the infrared sender of a slave, their record in the EEPROM
-- (readSensors, writeSensors), and what the slave tells the master about them.
use spu_energy_efficient_sys.Common.{
  ℕ, ◌+◌, ◌/◌, ◌%◌, ◌-◌, negsuc, Bool, true, false, not, ◌&&◌, Option, some, List, [], ◌∷◌, ◌++◌,
  map, ℤ, pos, ◌==ℤ◌, to_byte, get_elem?, get_or, set, replicate, ◌>>=◌, if◌then◌else◌, ltb,
}
use spu_energy_efficient_sys.Eeprom.{Eeprom}
use spu_energy_efficient_sys.Gpio.{Gpio}
use spu_energy_efficient_sys.Alarms.{Alarms}
use spu_energy_efficient_sys.Spu.{
  disconnected, pir_dir, temp_dir, ir_dir, relay_dir, sensor_dir, relay_group_dir,
  ir_control_group_dir, sensor_info_msg, sensor_data_msg, motion_detected_msg, max_packet_size,
  max_slave_relay_amount,
}
use spu_energy_efficient_sys.SensorByte.{pack, unpack}
use spu_energy_efficient_sys.Node.{RelayInfo}
use spu_energy_efficient_sys.Slave.{Slave, send_code, send_packet, send_message, set_resend_alarm}

-- The pins of the board that the sketch names.
pub record Wiring : Type 0 where
  pub pir : ℕ
  pub temperature : ℕ
  pub ir_send : ℕ

abbrev pub is_connected : ℤ → Bool
is_connected pin = not (pin ==ℤ disconnected)

-- `b[i] = true` where the test holds.
abbrev pub mark_if : Bool → List Bool → ℕ → List Bool
mark_if test b i = if test then set b i true else b

-- The loop of `sensorInfoByte` over the relays, from the index `i` on.
unfoldable pub mark_relays : List Bool → ℕ → List RelayInfo → List Bool
mark_relays b i [] = b
mark_relays b i (r ∷ rs) = mark_relays (mark_if r.connected b (i + relay_dir)) (i + 1) rs

-- The first loop of `readSensors` over the relays.
unfoldable pub connect_flagged : List Bool → ℕ → List RelayInfo → List RelayInfo
connect_flagged b j [] = []
connect_flagged b j (r ∷ rs) =
    (if get_or b (relay_dir + j) false then record r { connected = true } else r)
    ∷ connect_flagged b (j + 1) rs

-- The pins of the connected relays of a group.
unfoldable pub group_pins : List RelayInfo → ℤ → List ℤ
group_pins [] group = []
group_pins (r ∷ rs) group =
    let rest = group_pins rs group in
    if r.connected && (r.group ==ℤ group) then r.pin ∷ rest else rest

module _ {Store Pins Timers : Type 0} where
  unfoldable pub sensor_flags : Slave Store Pins Timers → List Bool
  unfolding mark_relays
  sensor_flags s =
      let b0 = replicate 8 false in
      let b1 = mark_if (is_connected s.pir_pin) b0 pir_dir in
      let b2 = mark_if (is_connected s.temperature_sensor_pin) b1 temp_dir in
      let b3 = mark_if (is_connected s.ir_control_pin) b2 ir_dir in mark_relays b3 0 s.relays

  unfoldable pub sensor_info_byte : Slave Store Pins Timers → ℕ
  unfolding sensor_flags
  sensor_info_byte s = pack (sensor_flags s)

  -- `initPir`; `level` is what `digitalRead` says.
  unfoldable pub init_pir : Wiring → Slave Store Pins Timers → Bool → Slave Store Pins Timers
  init_pir w s level = record s { pir_pin = pos w.pir; pir_state = level }

  unfoldable pub disconnect_pir : Slave Store Pins Timers → Slave Store Pins Timers
  disconnect_pir s = record s { pir_pin = disconnected }

  unfoldable pub init_temperature_sensor :
      Wiring → Slave Store Pins Timers → Slave Store Pins Timers
  init_temperature_sensor w s = record s { temperature_sensor_pin = pos w.temperature }

  unfoldable pub disconnect_temperature_sensor : Slave Store Pins Timers → Slave Store Pins Timers
  disconnect_temperature_sensor s = record s { temperature_sensor_pin = disconnected }

  -- The words of `sendSensorInfo` and of `sendSensorData`.
  unfoldable pub sensor_info : Slave Store Pins Timers → List ℤ
  unfolding sensor_info_byte
  sensor_info s =
      pos (sensor_info_byte s) ∷ (map (λ r. r.group) s.relays ++ (s.ir_control_group ∷ []))

  unfoldable pub sensor_data : Slave Store Pins Timers → List ℤ
  sensor_data s =
      (if is_connected s.temperature_sensor_pin then s.temperature ∷ s.humidity ∷ [] else [])
      ++ (let c = s.current % 65536 in
          if is_connected s.current_sensor_pin then pos (c / 256) ∷ pos (c - c / 256) ∷ [] else [])

  -- Its array has `MAX_PACKET_SIZE` words.
  unfoldable pub send_sensor_data : Slave Store Pins Timers → Option (Slave Store Pins Timers)
  unfolding sensor_data
  send_sensor_data s = send_packet s sensor_data_msg (sensor_data s) max_packet_size

module _ (e : Eeprom) where
  open e use {Store, read, write, commit}

  -- The loop of `writeSensors` over the relays, and the loop of `readSensors` over their groups.
  unfoldable pub write_groups : Store → ℕ → List RelayInfo → Store
  write_groups m i [] = m
  write_groups m i (r ∷ rs) =
      write_groups (write m (relay_group_dir + i) (if r.connected then to_byte r.group else 0))
        (i + 1) rs

  unfoldable pub read_groups : Store → ℕ → List RelayInfo → List RelayInfo
  read_groups m i [] = []
  read_groups m i (r ∷ rs) =
      (if r.connected then record r { group = pos (read m (relay_group_dir + i)) } else r)
      ∷ read_groups m (i + 1) rs

  module _ {Pins Timers : Type 0} where
    unfoldable pub write_sensors : Slave Store Pins Timers → Slave Store Pins Timers
    unfolding write_groups
    write_sensors s =
        let m1 = write s.memory sensor_dir (sensor_info_byte s) in
        let m2 = write_groups m1 0 s.relays in
        let m3 = write m2 ir_control_group_dir (to_byte s.ir_control_group) in
        record s { memory = commit m3 }

    -- `readSensors`, at the start; `level` is what `digitalRead` says.
    unfoldable pub read_sensors : Wiring → Slave Store Pins Timers → Bool → Slave Store Pins Timers
    unfolding connect_flagged read_groups init_pir init_temperature_sensor
    read_sensors w s level =
        let b = unpack (read s.memory sensor_dir) in
        let s1 = if get_or b pir_dir false then init_pir w s level else s in
        let s2 = if get_or b temp_dir false then init_temperature_sensor w s1 else s1 in
        let s3 =
          if get_or b ir_dir false
          then record s2 {
            ir_control_pin = pos w.ir_send;
            ir_control_group = pos (read s.memory ir_control_group_dir);
          }
          else s2 in
        record s3 { relays = read_groups s.memory 0 (connect_flagged b 0 s.relays) }

    unfoldable pub connect_relay :
        Slave Store Pins Timers → ℕ → ℤ → Option (Slave Store Pins Timers)
    connect_relay s relay group = get_elem? s.relays relay >>= λ r. some (
        write_sensors
          (record s { relays = set s.relays relay (record r { connected = true; group = group }) }))

    unfoldable pub connect_ir_control :
        Wiring → Slave Store Pins Timers → ℤ → Slave Store Pins Timers
    connect_ir_control w s group =
        write_sensors (record s { ir_control_pin = pos w.ir_send; ir_control_group = group })

    unfoldable pub disconnect_ir_control : Slave Store Pins Timers → Slave Store Pins Timers
    disconnect_ir_control s = write_sensors (record s { ir_control_pin = disconnected })

-- `digitalWrite` of an `int` pin; a pin that is no pin of the board is not modelled.
unfoldable pub write_pin : (g : Gpio) → g.Pins → ℤ → Bool → g.Pins
write_pin g s (pos p) level = g.digital_write s p level
write_pin g s (negsuc p) level = s

unfoldable pub write_pins : (g : Gpio) → g.Pins → List ℤ → Bool → g.Pins
unfolding write_pin
write_pins g s [] level = s
write_pins g s (p ∷ ps) level = write_pins g (write_pin g s p level) ps level

module _ (g : Gpio) {Store Timers : Type 0} where
  open g use {Pins}

  unfoldable pub turn_on_group : Slave Store Pins Timers → ℤ → Slave Store Pins Timers
  unfolding group_pins write_pins
  turn_on_group s group = record s { pins = write_pins g s.pins (group_pins s.relays group) true }

  unfoldable pub turn_off_group : Slave Store Pins Timers → ℤ → Slave Store Pins Timers
  unfolding group_pins write_pins
  turn_off_group s group =
      let s' = record s { pins = write_pins g s.pins (group_pins s.relays group) false } in
      if is_connected s.ir_control_pin && (s.ir_control_group ==ℤ group)
      then record s' { sent = s'.sent ++ (send_code ∷ []) }
      else s'

unfoldable pub disconnect_relay :
    (e : Eeprom) (g : Gpio) {Timers : Type 0}
    → Slave e.Store g.Pins Timers
    → ℕ
    → Option (Slave e.Store g.Pins Timers)
unfolding write_pin
disconnect_relay e g s relay = get_elem? s.relays relay >>= λ r. some (
    write_sensors e (record s {
      relays = set s.relays relay (record r { connected = false });
      pins = write_pin g s.pins r.pin true;
    }))

module _ (a : Alarms) {Store Pins : Type 0} where
  open a use {Timers}

  -- `sendSensorInfo`; `behind` is how many words of the memory behind its array can be read.
  unfoldable pub send_sensor_info : ℕ → Slave Store Pins Timers → Option (Slave Store Pins Timers)
  unfolding sensor_info
  send_sensor_info behind s =
      send_packet s sensor_info_msg (sensor_info s) (max_slave_relay_amount + 2 + behind) >>= λ s'.
      some (set_resend_alarm a s')

  -- `checkPIR`, with what its two calls of `millis` read.
  unfoldable pub check_pir : Slave Store Pins Timers → ℕ → ℕ → Slave Store Pins Timers
  check_pir s now later =
      if is_connected s.pir_pin && s.pir_state && ltb 500 (now - s.last_pir_detection)
      then record (send_message a s motion_detected_msg true) {
        pir_state = false;
        last_pir_detection = later;
      }
      else s
