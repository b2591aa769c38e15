-- ===== src/Protocol/SensorInfo.antt =====
-- The parts of `handleSensorInfo`, on the packet of a slave with two relays.
use spu_energy_efficient_sys.Common.{
  no_flag, ℕ, zero, suc, ◌+◌, ◌<◌, ◌≡◌, refl, sym, ap, ◌∙◌, Bool, true, false, not, ◌&&◌, Option,
  some, List, [], ◌∷◌, ◌++◌, map, ℤ, pos, to_byte, to_byte-pos, length, get_elem?, set, ◌>>=◌,
  if◌then◌else◌, arith, length-set, subst,
}
use spu_energy_efficient_sys.Fifo.{Fifo}
use spu_energy_efficient_sys.Spu.{
  sensor_info_msg, turn_on_group_msg, turn_off_group_msg, group_amount,
}
use spu_energy_efficient_sys.SensorByte.{unpack, unpack-pack, pack_lt}
use spu_energy_efficient_sys.Node.{RelayInfo, Packet, Node, Sent, send_packet, enqueue}
use spu_energy_efficient_sys.Node.Sensors.{handle_sensor_info, copy_relays}
use spu_energy_efficient_sys.Node.Relays.{Framed, enqueue-Framed}
use spu_energy_efficient_sys.Slave.{Slave, packet_bytes}
use spu_energy_efficient_sys.Slave.Sensors.{
  is_connected, sensor_flags, sensor_info, sensor_info_byte,
}
use spu_energy_efficient_sys.Slave.Written.{SameRelay, sensor_flags_lem}
use spu_energy_efficient_sys.Master.{Group, Ip}
use spu_energy_efficient_sys.Master.Reports.{mark_group, report_relays, tell_groups}

get_elem?-some : (bs : List Bool) (k : ℕ) → k < length bs → (b : Bool) × (get_elem? bs k ≡ some b)
get_elem?-some [] k h = absurd (omega (arith, h))
get_elem?-some (b ∷ bs) zero h = (b, refl)
get_elem?-some (b ∷ bs) (suc k) h = get_elem?-some bs k (omega (arith, h))

mark_group-some : (gs : List Bool) (k : ℕ) → k < length gs → mark_group gs k ≡ some (set gs k true)
unfolding mark_group
mark_group-some gs k h =
    let (b, here) = get_elem?-some gs k h in ap (λ o. o >>= λ _. some (set gs k true)) here

-- A relay as it is recorded, by its bit and its byte.
abbrev pub Recorded : Bool → ℕ → RelayInfo → Type 0
Recorded c q r = (r.connected ≡ c) × (c ≡ true → r.group ≡ pos q)

abbrev pub flags : Bool → Bool → Bool → Bool → Bool → List Bool
flags p t i c0 c1 = p ∷ t ∷ i ∷ c0 ∷ c1 ∷ false ∷ false ∷ false ∷ []

pub relays-Recorded :
    (p t i c0 c1 : Bool) (code val q0 q1 : ℕ) (left : List ℕ) (x0 x1 : RelayInfo) (gs : List Bool)
    → x0.connected ≡ false
    → x1.connected ≡ false
    → (c0 ≡ true → q0 < length gs)
    → (c1 ≡ true → q1 < length gs)
    → (r0 r1 : RelayInfo) × (gs' : List Bool) × (report_relays
          (flags p t i c0 c1)
          (code ∷ val ∷ q0 ∷ q1 ∷ left)
          0
          2
          (x0 ∷ x1 ∷ [])
          gs
        ≡ some (r0 ∷ r1 ∷ [], gs'))
      × (length gs' ≡ length gs)
      × Recorded c0 q0 r0
      × Recorded c1 q1 r1
unfolding report_relays
relays-Recorded p t i false false code val q0 q1 left x0 x1 gs n0 n1 h0 h1 =
    (x0, x1, gs, refl, refl, (n0, λ e. no_flag e), (n1, λ e. no_flag e))
relays-Recorded p t i true false code val q0 q1 left x0 x1 gs n0 n1 h0 h1 = (
  record x0 { connected = true; group = pos q0 },
  x1,
  set gs q0 true,
  rw (mark_group-some gs q0 (h0 refl), report_relays) refl,
  length-set gs q0 true,
  (refl, λ _. refl),
  (n1, λ e. no_flag e),
)
relays-Recorded p t i false true code val q0 q1 left x0 x1 gs n0 n1 h0 h1 = (
  x0,
  record x1 { connected = true; group = pos q1 },
  set gs q1 true,
  rw (mark_group-some gs q1 (h1 refl), report_relays) refl,
  length-set gs q1 true,
  (n0, λ e. no_flag e),
  (refl, λ _. refl),
)
relays-Recorded p t i true true code val q0 q1 left x0 x1 gs n0 n1 h0 h1 =
    let gs' = set gs q0 true in
    let lt : q1 < length gs' = subst (λ n. q1 < n) (sym (length-set gs q0 true)) (h1 refl) in
    (
      record x0 { connected = true; group = pos q0 },
      record x1 { connected = true; group = pos q1 },
      set gs' q1 true,
      rw (mark_group-some gs q0 (h0 refl), mark_group-some gs' q1 lt, report_relays) refl,
      length-set gs' q1 true ∙ length-set gs q0 true,
      (refl, λ _. refl),
      (refl, λ _. refl),
    )

abbrev pub with_group : ℕ → List Bool → Option (List Bool × ℤ)
with_group q marked = some (marked, pos q)

-- The group of the infrared sender is marked too.
pub ir_marked :
    (i : Bool) (q : ℕ) (gs : List Bool)
    → (i ≡ true → q < length gs)
    → (gs' : List Bool) × (group : ℤ) × ((if i
          then (mark_group gs q >>= with_group q)
          else some (gs, pos 0))
        ≡ some (gs', group))
      × (length gs' ≡ length gs)
ir_marked false q gs h = (gs, pos 0, refl, refl)
ir_marked true q gs h = (
  set gs q true,
  pos q,
  ap (λ o. o >>= with_group q) (mark_group-some gs q (h refl)),
  length-set gs q true,
)

pub handle_sensor_info_lem :
    {Queue : Type 0} (n : Node Queue Ip) (n0 n1 a0 a1 : RelayInfo) (t p i : Bool) (group : ℤ)
    → n.relays ≡ n0 ∷ n1 ∷ []
    → handle_sensor_info n t p i (a0 ∷ a1 ∷ []) group
      ≡ some (record n {
        temperature_sensor_connected = t;
        pir_sensor_connected = p;
        ir_control_connected = i;
        relays = a0 ∷ a1 ∷ [];
      })
unfolding handle_sensor_info copy_relays
handle_sensor_info_lem n n0 n1 a0 a1 t p i group two =
    ap
      (λ rs. copy_relays rs (a0 ∷ a1 ∷ []) 0 2 >>= λ relays. some (record n {
        temperature_sensor_connected = t;
        pir_sensor_connected = p;
        ir_control_connected = i;
        relays = relays;
      }))
      two

-- A group that the master has.
abbrev pub IsGroup : ℤ → Type 0
IsGroup x = (k : ℕ) × (k < group_amount) × (x ≡ pos k)

pub IsGroup-to_byte : (x : ℤ) → IsGroup x → (to_byte x < group_amount) × (pos (to_byte x) ≡ x)
IsGroup-to_byte x (k, lt, eq) =
    let same : to_byte x ≡ k = ap to_byte eq ∙ to_byte-pos k (omega (arith, lt)) in
    (omega (arith, lt, same), ap pos same ∙ sym eq)

pub Recorded-SameRelay :
    (r r' : RelayInfo)
    → (r.connected ≡ true → IsGroup r.group)
    → Recorded r.connected (to_byte r.group) r'
    → SameRelay r r'
Recorded-SameRelay r r' h (on, group) = (on, λ e. group e ∙ (IsGroup-to_byte r.group (h e)).1)

module _ {Store Pins Timers : Type 0} (s : Slave Store Pins Timers) (r0 r1 : RelayInfo)
    (two : s.relays ≡ r0 ∷ r1 ∷ []) where
  -- The flags and the packet of such a slave.
  eight :
      sensor_flags s
      ≡ flags
          (is_connected s.pir_pin)
          (is_connected s.temperature_sensor_pin)
          (is_connected s.ir_control_pin)
          r0.connected
          r1.connected
  eight = sensor_flags_lem s r0 r1 two

  pub flags_arrive :
      unpack (to_byte (pos (sensor_info_byte s)))
      ≡ flags
          (is_connected s.pir_pin)
          (is_connected s.temperature_sensor_pin)
          (is_connected s.ir_control_pin)
          r0.connected
          r1.connected
  unfolding sensor_info_byte
  flags_arrive =
      ap unpack (to_byte-pos (sensor_info_byte s) (pack_lt (sensor_flags s) (ap length eight)))
      ∙ unpack-pack (sensor_flags s) (ap length eight)
      ∙ eight

  pub packet_arrives :
      (number : ℕ)
      → packet_bytes sensor_info_msg (sensor_info s) number
        ≡ sensor_info_msg
          ∷ to_byte (pos (sensor_info_byte s))
          ∷ to_byte r0.group
          ∷ to_byte r1.group
          ∷ to_byte s.ir_control_group
          ∷ to_byte (pos number)
          ∷ []
  unfolding packet_bytes sensor_info to_byte
  packet_arrives number =
      ap
        (λ rs.
          packet_bytes sensor_info_msg
            (pos (sensor_info_byte s) ∷ (map (λ r. r.group) rs ++ (s.ir_control_group ∷ [])))
            number)
        two

module _ (f : Fifo Packet) where
  open f use {Queue}

  Framed-trans : (n m l : Node Queue Ip) → Framed f n m → Framed f m l → Framed f n l
  Framed-trans n m l h k = record {
    relays = k.relays ∙ h.relays;
    pir = k.pir ∙ h.pir;
    temperature = k.temperature ∙ h.temperature;
    ir = k.ir ∙ h.ir;
    ir_group = k.ir_group ∙ h.ir_group;
    ip = k.ip ∙ h.ip;
  }

  Framed-refl : (n : Node Queue Ip) → Framed f n n
  Framed-refl n = record {
    relays = refl;
    pir = refl;
    temperature = refl;
    ir = refl;
    ir_group = refl;
    ip = refl;
  }

  -- Telling the slave how its groups stand never fails, and leaves what is recorded of it alone.
  pub tell_groups-Framed :
      (cs : List Bool) (gs : List Group) (n : Node Queue Ip) (i : ℕ)
      → length cs ≡ length gs
      → (r : Sent Queue Ip) × (tell_groups f n cs gs i ≡ some r) × Framed f n r.0
  unfolding tell_groups send_packet
  tell_groups-Framed [] gs n i h = ((n, []), refl, Framed-refl n)
  tell_groups-Framed (c ∷ cs) [] n i h = absurd (omega (arith, h))
  tell_groups-Framed (false ∷ cs) (x ∷ gs) n i h =
      let (r, done, framed) = tell_groups-Framed cs gs n (i + 1) (omega (arith, h)) in
      ((r.0, r.1), ap (λ o. o >>= λ (n'', more). some (n'', [] ++ more)) done, framed)
  tell_groups-Framed (true ∷ cs) (x ∷ gs) n i h =
      let code = if x.is_on && not x.is_sleeping then turn_on_group_msg else turn_off_group_msg in
      let words = pos code ∷ pos i ∷ [] in
      let (n', out) : Sent Queue Ip = enqueue f n words in
      let (r, done, framed) = tell_groups-Framed cs gs n' (i + 1) (omega (arith, h)) in
      (
        (r.0, out ++ r.1),
        ap (λ o. o >>= λ (n'', more). some (n'', out ++ more)) done,
        Framed-trans n n' r.0 (enqueue-Framed f n words) framed,
      )
