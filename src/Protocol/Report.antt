-- ===== src/Protocol/Report.antt =====
-- What a slave tells of its sensors and relays (`sendSensorInfo`) and the master records
-- (`handleSensorInfo`).
use spu_energy_efficient_sys.Common.{
  ℕ, ◌<◌, ◌≡◌, refl, sym, ap, ◌∙◌, Bool, true, false, some, List, [], ◌∷◌, ℤ, pos, to_byte, length,
  replicate, ◌>>=◌, if◌then◌else◌, subst,
}
use spu_energy_efficient_sys.Fifo.{Fifo}
use spu_energy_efficient_sys.Spu.{sensor_info_msg, group_amount}
use spu_energy_efficient_sys.Node.{RelayInfo, Packet, Node, Sent, new_relay}
use spu_energy_efficient_sys.Slave.{Slave, packet_bytes}
use spu_energy_efficient_sys.Slave.Sensors.{is_connected, sensor_info, sensor_info_byte}
use spu_energy_efficient_sys.Slave.Written.{SameRelay}
use spu_energy_efficient_sys.Master.{Group, Ip}
use spu_energy_efficient_sys.Master.Reports.{
  mark_group, tell_groups, record_info, report_flags, report_info,
}
use spu_energy_efficient_sys.Protocol.SensorInfo.{
  relays-Recorded, flags, with_group, ir_marked, handle_sensor_info_lem, IsGroup, IsGroup-to_byte,
  Recorded-SameRelay, flags_arrive, packet_arrives, tell_groups-Framed,
}

module _ (f : Fifo Packet) where
  open f use {Queue}

  -- A slave with two relays sends what is connected, and the master takes the packet without leaving
  -- its arrays, when the connected relays and the infrared sender are in groups that the master has.
  -- It then has the same sensors and the infrared sender recorded for that slave, the same relays as
  -- connected, and these in the same groups. (The master has its ten
  -- groups and two relays for the slave.)
  pub report_info-sensor_info :
      {Store Pins Timers : Type 0} (s : Slave Store Pins Timers) (r0 r1 n0 n1 : RelayInfo)
      (n : Node Queue Ip) (gs : List Group) (number : ℕ) (pins : ℤ × ℤ)
      → s.relays ≡ r0 ∷ r1 ∷ []
      → (r0.connected ≡ true → IsGroup r0.group)
      → (r1.connected ≡ true → IsGroup r1.group)
      → (is_connected s.ir_control_pin ≡ true → IsGroup s.ir_control_group)
      → n.relays ≡ n0 ∷ n1 ∷ []
      → length gs ≡ group_amount
      → (r : Sent Queue Ip) × (report_info f n gs
            (packet_bytes sensor_info_msg (sensor_info s) number)
            pins
          ≡ some r)
        × (r.0.pir_sensor_connected ≡ is_connected s.pir_pin)
        × (r.0.temperature_sensor_connected ≡ is_connected s.temperature_sensor_pin)
        × (r.0.ir_control_connected ≡ is_connected s.ir_control_pin)
        × (t0 t1 : RelayInfo) × (r.0.relays ≡ t0 ∷ t1 ∷ [])
        × SameRelay r0 t0
        × SameRelay r1 t1
  unfolding report_info report_flags record_info
  report_info-sensor_info s r0 r1 n0 n1 n gs number pins two h0 h1 hi known ten =
      let p = is_connected s.pir_pin in
      let t = is_connected s.temperature_sensor_pin in
      let i = is_connected s.ir_control_pin in
      let byte = to_byte (pos (sensor_info_byte s)) in
      let q = to_byte s.ir_control_group in
      let (t0, t1, marked, relays, length1, same0, same1) =
        relays-Recorded p t i r0.connected r1.connected sensor_info_msg byte (to_byte r0.group)
          (to_byte r1.group) (q ∷ to_byte (pos number) ∷ []) (new_relay pins.0) (new_relay pins.1)
          (replicate group_amount false) refl refl (λ c. (IsGroup-to_byte r0.group (h0 c)).0)
          (λ c. (IsGroup-to_byte r1.group (h1 c)).0) in
      let (marked', group, ir, length2) =
        ir_marked i q marked
          (λ c. subst (λ l. q < l) (sym length1) (IsGroup-to_byte s.ir_control_group (hi c)).0) in
      let b = flags p t i r0.connected r1.connected in
      let packet =
        sensor_info_msg
        ∷ byte
        ∷ to_byte r0.group
        ∷ to_byte r1.group
        ∷ q
        ∷ to_byte (pos number)
        ∷ [] in
      let groups_of = λ (rs : List RelayInfo × List Bool).
        (if i then (mark_group rs.1 q >>= with_group q) else some (rs.1, pos 0)) >>= λ g.
        record_info f n gs b rs.0 g.0 g.1 in
      let n' : Node Queue Ip = record n {
        temperature_sensor_connected = t;
        pir_sensor_connected = p;
        ir_control_connected = i;
        relays = t0 ∷ t1 ∷ [];
      } in
      let (r, told, framed) = tell_groups-Framed f marked' gs n' 0 (length2 ∙ length1 ∙ sym ten) in
      (
        r,
        ap (λ pk. report_info f n gs pk pins) (packet_arrives s r0 r1 two number)
            ∙ ap (report_flags f n gs packet pins) (flags_arrive s r0 r1 two)
            ∙ ap (λ o. o >>= groups_of) relays
            ∙ ap (λ o. o >>= λ g. record_info f n gs b (t0 ∷ t1 ∷ []) g.0 g.1) ir
            ∙ ap (λ o. o >>= λ m. tell_groups f m marked' gs 0)
                (handle_sensor_info_lem n n0 n1 t0 t1 t p i group known)
            ∙ told,
        framed.pir,
        framed.temperature,
        framed.ir,
        t0,
        t1,
        framed.relays,
        Recorded-SameRelay r0 t0 h0 same0,
        Recorded-SameRelay r1 t1 h1 same1,
      )
