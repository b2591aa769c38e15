-- ===== src/Slave/Memory.antt =====
-- The sensors and relays of a slave survive its restart.
use spu_energy_efficient_sys.Common.{
  ◌+◌, ◌≡◌, sym, ap, ◌∙◌, Bool, true, false, [], ◌∷◌, pos, to_byte, to_byte-pos, get_or,
  if◌then◌else◌, arith,
}
use spu_energy_efficient_sys.Eeprom.{Eeprom}
use spu_energy_efficient_sys.Spu.{
  disconnected, sensor_dir, pir_dir, temp_dir, ir_dir, relay_group_dir, ir_control_group_dir,
}
use spu_energy_efficient_sys.SensorByte.{unpack}
use spu_energy_efficient_sys.Node.{RelayInfo}
use spu_energy_efficient_sys.Slave.{Slave}
use spu_energy_efficient_sys.Slave.Sensors.{
  Wiring, is_connected, write_sensors, read_sensors, connect_flagged, read_groups,
}
use spu_energy_efficient_sys.Slave.Written.{
  sensor_flags_lem, SameRelay, IsByte, restore, restore-SameRelay, pin_restored, read_flags,
  read_group0, read_group1, read_ir_group,
}

module _ (e : Eeprom) where
  open e use {Store, read}

  module _ {Pins Timers : Type 0} where
    -- The parts of `readSensors` on the single pins.
    read_sensors_pir :
        (w : Wiring) (s : Slave Store Pins Timers) (level : Bool)
        → (read_sensors e w s level).pir_pin ≡ (
            if get_or (unpack (read s.memory sensor_dir)) pir_dir false
            then pos w.pir
            else s.pir_pin)
    unfolding read_sensors
    read_sensors_pir w s level = ground arith

    read_sensors_temperature :
        (w : Wiring) (s : Slave Store Pins Timers) (level : Bool)
        → (read_sensors e w s level).temperature_sensor_pin ≡ (
            if get_or (unpack (read s.memory sensor_dir)) temp_dir false
            then pos w.temperature
            else s.temperature_sensor_pin)
    unfolding read_sensors
    read_sensors_temperature w s level = ground arith

    read_sensors_ir :
        (w : Wiring) (s : Slave Store Pins Timers) (level : Bool)
        → ((read_sensors e w s level).ir_control_pin ≡ (
            if get_or (unpack (read s.memory sensor_dir)) ir_dir false
            then pos w.ir_send
            else s.ir_control_pin))
          × ((read_sensors e w s level).ir_control_group ≡ (
              if get_or (unpack (read s.memory sensor_dir)) ir_dir false
              then pos (read s.memory ir_control_group_dir)
              else s.ir_control_group))
    unfolding read_sensors
    read_sensors_ir w s level = ground arith

    read_sensors_relays :
        (w : Wiring) (s : Slave Store Pins Timers) (level : Bool) (q0 q1 : RelayInfo)
        → s.relays ≡ q0 ∷ q1 ∷ []
        → (read_sensors e w s level).relays
          ≡ restore
              (get_or (unpack (read s.memory sensor_dir)) 3 false)
              (read s.memory relay_group_dir)
              q0
            ∷ restore
                (get_or (unpack (read s.memory sensor_dir)) 4 false)
                (read s.memory (relay_group_dir + 1))
                q1
            ∷ []
    unfolding read_sensors
    read_sensors_relays w s level q0 q1 two =
        ap
          (λ rs.
            read_groups e s.memory 0 (connect_flagged (unpack (read s.memory sensor_dir)) 0 rs))
          two

    -- A slave that starts: nothing is connected yet.
    pub record IsFresh (s : Slave Store Pins Timers) (q0 q1 : RelayInfo) : Type 0 where
      pub pir : s.pir_pin ≡ disconnected
      pub temperature : s.temperature_sensor_pin ≡ disconnected
      pub ir : s.ir_control_pin ≡ disconnected
      pub two : s.relays ≡ q0 ∷ q1 ∷ []
      pub free0 : q0.connected ≡ false
      pub free1 : q1.connected ≡ false

    -- A slave `t` with the sensors, relays and groups of `s`.
    pub record Restored (s t : Slave Store Pins Timers) (r0 r1 : RelayInfo) : Type 0 where
      pub pir : is_connected t.pir_pin ≡ is_connected s.pir_pin
      pub temperature :
          is_connected t.temperature_sensor_pin ≡ is_connected s.temperature_sensor_pin
      pub ir : is_connected t.ir_control_pin ≡ is_connected s.ir_control_pin
      pub ir_group : is_connected s.ir_control_pin ≡ true → t.ir_control_group ≡ s.ir_control_group
      pub relays :
          (t0 t1 : RelayInfo) × (t.relays ≡ t0 ∷ t1 ∷ []) × SameRelay r0 t0 × SameRelay r1 t1

    -- A slave with two relays that has written its sensors and starts again (from its variables as
    -- they are initialised, with the same memory) has the same sensors, the same relays connected,
    -- and these and the infrared sender in the same groups, when these are groups of one byte.
    pub read_sensors-write_sensors :
        (w : Wiring) (s f : Slave Store Pins Timers) (level : Bool) (r0 r1 q0 q1 : RelayInfo)
        → s.relays ≡ r0 ∷ r1 ∷ []
        → (r0.connected ≡ true → IsByte r0.group)
        → (r1.connected ≡ true → IsByte r1.group)
        → IsByte s.ir_control_group
        → IsFresh f q0 q1
        → f.memory ≡ (write_sensors e s).memory
        → Restored s (read_sensors e w f level) r0 r1
    read_sensors-write_sensors w s f level r0 r1 q0 q1 two b0 b1 bi fresh same =
        let flags : unpack (read f.memory sensor_dir)
            ≡ is_connected s.pir_pin
              ∷ is_connected s.temperature_sensor_pin
              ∷ is_connected s.ir_control_pin
              ∷ r0.connected
              ∷ r1.connected
              ∷ false
              ∷ false
              ∷ false
              ∷ [] =
          ap (λ m. unpack (read m sensor_dir)) same
          ∙ read_flags e s r0 r1 two
          ∙ sensor_flags_lem s r0 r1 two in
        let (ir_pin, ir_group) = read_sensors_ir w f level in
        record {
          pir =
              ap is_connected (
                read_sensors_pir w f level
                ∙ ap (λ b. if get_or b pir_dir false then pos w.pir else f.pir_pin) flags)
              ∙ pin_restored (is_connected s.pir_pin) w.pir f.pir_pin fresh.pir;
          temperature =
              ap is_connected (
                read_sensors_temperature w f level
                ∙ ap
                    (λ b.
                      if get_or b temp_dir false
                      then pos w.temperature
                      else f.temperature_sensor_pin)
                    flags)
              ∙ pin_restored (is_connected s.temperature_sensor_pin) w.temperature
                  f.temperature_sensor_pin fresh.temperature;
          ir =
              ap is_connected (
                ir_pin
                ∙ ap (λ b. if get_or b ir_dir false then pos w.ir_send else f.ir_control_pin) flags)
              ∙ pin_restored (is_connected s.ir_control_pin) w.ir_send f.ir_control_pin fresh.ir;
          ir_group = λ on.
              let (n, lt, x) = bi in
              let chosen = λ (c : Bool).
                if c then pos (read f.memory ir_control_group_dir) else f.ir_control_group in
              ir_group
              ∙ ap (λ b. chosen (get_or b ir_dir false)) flags
              ∙ ap chosen on
              ∙ ap pos (
                  ap (λ m. read m ir_control_group_dir) same
                  ∙ read_ir_group e s r0 r1 two
                  ∙ ap to_byte x
                  ∙ to_byte-pos n lt)
              ∙ sym x;
          relays = (
            restore (get_or (unpack (read f.memory sensor_dir)) 3 false)
                (read f.memory relay_group_dir) q0,
            restore (get_or (unpack (read f.memory sensor_dir)) 4 false)
                (read f.memory (relay_group_dir + 1)) q1,
            read_sensors_relays w f level q0 q1 fresh.two,
            restore-SameRelay _ _ r0 q0 fresh.free0 (ap (λ b. get_or b 3 false) flags)
                (ap (λ m. read m relay_group_dir) same ∙ read_group0 e s r0 r1 two) b0,
            restore-SameRelay _ _ r1 q1 fresh.free1 (ap (λ b. get_or b 4 false) flags)
                (ap (λ m. read m (relay_group_dir + 1)) same ∙ read_group1 e s r0 r1 two) b1,
          );
        }
