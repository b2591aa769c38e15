-- ===== src/Slave/Written.antt =====
-- The bits and bytes in which a slave keeps its sensors, relays and groups, as `writeSensors` leaves
-- them.
use spu_energy_efficient_sys.Common.{
  ℕ, ◌+◌, ◌≡◌, refl, sym, ap, ◌∙◌, Bool, true, false, [], ◌∷◌, ◌<◌, ℤ, pos, to_byte, to_byte-pos,
  to_byte_lt, length, replicate, if◌then◌else◌, arith,
}
use spu_energy_efficient_sys.Eeprom.{Eeprom, read-write_self, read-write_ne}
use spu_energy_efficient_sys.Spu.{disconnected, sensor_dir, relay_group_dir, ir_control_group_dir}
use spu_energy_efficient_sys.SensorByte.{unpack, unpack-pack, pack_lt}
use spu_energy_efficient_sys.Node.{RelayInfo}
use spu_energy_efficient_sys.Slave.{Slave}
use spu_energy_efficient_sys.Slave.Sensors.{
  is_connected, mark_if, sensor_flags, sensor_info_byte, write_groups, write_sensors,
}

flags_lem :
    (p t i c d : Bool)
    → mark_if d (mark_if c (mark_if i (mark_if t (mark_if p (replicate 8 false) 0) 1) 2) 3) 4
      ≡ p ∷ t ∷ i ∷ c ∷ d ∷ false ∷ false ∷ false ∷ []
flags_lem p t i c d = ground arith

module _ {Store Pins Timers : Type 0} where
  -- The eight bits, for two relays.
  pub sensor_flags_lem :
      (s : Slave Store Pins Timers) (r0 r1 : RelayInfo)
      → s.relays ≡ r0 ∷ r1 ∷ []
      → sensor_flags s
        ≡ is_connected s.pir_pin
          ∷ is_connected s.temperature_sensor_pin
          ∷ is_connected s.ir_control_pin
          ∷ r0.connected
          ∷ r1.connected
          ∷ false
          ∷ false
          ∷ false
          ∷ []
  unfolding sensor_flags
  sensor_flags_lem s r0 r1 e = rw e (
      flags_lem (is_connected s.pir_pin) (is_connected s.temperature_sensor_pin)
        (is_connected s.ir_control_pin) r0.connected r1.connected)

-- The byte that is written for a relay.
abbrev pub group_byte : RelayInfo → ℕ
group_byte r = if r.connected then to_byte r.group else 0

group_byte_lt : (r : RelayInfo) → group_byte r < 256
group_byte_lt r = ground (arith, to_byte_lt r.group)

-- A relay after a restart: connected as before, and then in its group.
abbrev pub SameRelay : RelayInfo → RelayInfo → Type 0
SameRelay r r' = (r'.connected ≡ r.connected) × (r.connected ≡ true → r'.group ≡ r.group)

-- A group as the slave gets it from the master.
abbrev pub IsByte : ℤ → Type 0
IsByte x = (n : ℕ) × (n < 256) × (x ≡ pos n)

-- What `readSensors` makes of a relay, by its bit and its byte.
abbrev pub restore : Bool → ℕ → RelayInfo → RelayInfo
restore t v q =
    let q' : RelayInfo = if t then record q { connected = true } else q in
    if q'.connected then record q' { group = pos v } else q'

pub restore-SameRelay :
    (t : Bool) (v : ℕ) (r q : RelayInfo)
    → q.connected ≡ false
    → t ≡ r.connected
    → v ≡ group_byte r
    → (r.connected ≡ true → IsByte r.group)
    → SameRelay r (restore t v q)
restore-SameRelay true v r q free flag stored fits =
    let (n, lt, x) = fits (sym flag) in
    (flag, λ _. ap pos (stored ∙ rw (← flag) (ap to_byte x ∙ to_byte-pos n lt)) ∙ sym x)
restore-SameRelay false v r q free flag stored fits = ground (arith, free, flag)

pub pin_restored :
    (c : Bool) (p : ℕ) (x : ℤ) → x ≡ disconnected → is_connected (if c then pos p else x) ≡ c
pin_restored true p x h = refl
pin_restored false p x h = rw h refl

module _ (e : Eeprom) where
  open e use {Store, read, write, commit, read-write, read-commit}

  -- What `writeSensors` leaves, for two relays.
  module _ {Pins Timers : Type 0} (s : Slave Store Pins Timers) (r0 r1 : RelayInfo)
      (two : s.relays ≡ r0 ∷ r1 ∷ []) where
    m1 : Store
    m1 = write s.memory sensor_dir (sensor_info_byte s)

    m2 : Store
    m2 = write (write m1 relay_group_dir (group_byte r0)) (relay_group_dir + 1) (group_byte r1)

    written :
        (write_sensors e s).memory
        ≡ commit (write m2 ir_control_group_dir (to_byte s.ir_control_group))
    unfolding write_sensors m1 m2
    written =
        ap
          (λ rs.
            commit
              (write (write_groups e m1 0 rs) ir_control_group_dir (to_byte s.ir_control_group)))
          two

    byte_lt : sensor_info_byte s < 256
    unfolding sensor_info_byte
    byte_lt = pack_lt (sensor_flags s) (ap length (sensor_flags_lem s r0 r1 two))

    pub read_flags : unpack (read (write_sensors e s).memory sensor_dir) ≡ sensor_flags s
    unfolding m1 m2 sensor_info_byte
    read_flags =
        ap unpack (
          ap (λ m. read m sensor_dir) written
          ∙ read-commit _ sensor_dir
          ∙ read-write_ne e m2 ir_control_group_dir _ sensor_dir (omega arith) (omega arith)
          ∙ read-write_ne e _ (relay_group_dir + 1) _ sensor_dir (omega arith) (omega arith)
          ∙ read-write_ne e m1 relay_group_dir _ sensor_dir (omega arith) (omega arith)
          ∙ read-write_self e s.memory sensor_dir (sensor_info_byte s) (omega arith) byte_lt)
        ∙ unpack-pack (sensor_flags s) (ap length (sensor_flags_lem s r0 r1 two))

    pub read_group0 : read (write_sensors e s).memory relay_group_dir ≡ group_byte r0
    unfolding m2
    read_group0 =
        ap (λ m. read m relay_group_dir) written
        ∙ read-commit _ relay_group_dir
        ∙ read-write_ne e m2 ir_control_group_dir _ relay_group_dir (omega arith) (omega arith)
        ∙ read-write_ne e _ (relay_group_dir + 1) _ relay_group_dir (omega arith) (omega arith)
        ∙ read-write_self e m1 relay_group_dir (group_byte r0) (omega arith) (group_byte_lt r0)

    pub read_group1 : read (write_sensors e s).memory (relay_group_dir + 1) ≡ group_byte r1
    unfolding m2
    read_group1 =
        ap (λ m. read m (relay_group_dir + 1)) written
        ∙ read-commit _ (relay_group_dir + 1)
        ∙ read-write_ne e m2 ir_control_group_dir _ (relay_group_dir + 1) (omega arith)
            (omega arith)
        ∙ read-write_self e _ (relay_group_dir + 1) (group_byte r1) (omega arith) (group_byte_lt r1)

    pub read_ir_group :
        read (write_sensors e s).memory ir_control_group_dir ≡ to_byte s.ir_control_group
    read_ir_group =
        ap (λ m. read m ir_control_group_dir) written
        ∙ read-commit _ ir_control_group_dir
        ∙ read-write_self e m2 ir_control_group_dir (to_byte s.ir_control_group) (omega arith)
            (to_byte_lt s.ir_control_group)
