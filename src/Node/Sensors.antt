-- ===== src/Node/Sensors.antt =====
-- libraries/Node: the sensors and relays that the master records for a slave. An index past the end
-- of `relays` is a fault (`none`); a negative one is not modelled.
use spu_energy_efficient_sys.Common.{
  ℕ, zero, suc, ◌+◌, Bool, true, false, ◌&&◌, Option, some, List, [], ◌∷◌, ℤ, pos, ◌==ℤ◌, get_elem?,
  set, ◌>>=◌, if◌then◌else◌,
}
use spu_energy_efficient_sys.Fifo.{Fifo}
use spu_energy_efficient_sys.Spu.{
  max_slave_relay_amount, connect_pir_msg, disconnect_pir_msg, connect_temperature_msg,
  disconnect_temperature_msg, connect_ir_control_msg, disconnect_ir_control_msg, connect_relay_msg,
  disconnect_relay_msg,
}
use spu_energy_efficient_sys.Node.{
  RelayInfo, Packet, Node, Sent, and_then, send_message, send_packet,
}

-- The copy loop of `handleSensorInfo`: `relays[i] = r[i]` for the `k` indices from `i` on.
unfoldable pub copy_relays : List RelayInfo → List RelayInfo → ℕ → ℕ → Option (List RelayInfo)
copy_relays to from i zero = some to
copy_relays to from i (suc k) = get_elem? from i >>= λ r. copy_relays (set to i r) from (i + 1) k

module _ {Queue Ip : Type 0} where
  -- `handleSensorInfo`. Its parameter `irGroup` is not used.
  unfoldable pub handle_sensor_info :
      Node Queue Ip → Bool → Bool → Bool → List RelayInfo → ℤ → Option (Node Queue Ip)
  unfolding copy_relays
  handle_sensor_info n temp_connected pir_connected ir_connected r ir_group =
      copy_relays n.relays r 0 max_slave_relay_amount >>= λ relays. some (record n {
        temperature_sensor_connected = temp_connected;
        pir_sensor_connected = pir_connected;
        ir_control_connected = ir_connected;
        relays = relays;
      })

  unfoldable pub is_relay_connected : Node Queue Ip → ℕ → Option Bool
  is_relay_connected n relay = get_elem? n.relays relay >>= λ r. some r.connected

  unfoldable pub is_relay_in_group : Node Queue Ip → ℕ → ℤ → Option Bool
  is_relay_in_group n relay group =
      get_elem? n.relays relay >>= λ r. some (r.connected && (r.group ==ℤ group))

module _ {Ip : Type 0} (f : Fifo Packet) where
  open f use {Queue}

  unfoldable pub connect_relay : Node Queue Ip → ℕ → ℤ → Option (Sent Queue Ip)
  connect_relay n relay group = send_packet f n connect_relay_msg (pos relay ∷ group ∷ []) >>= λ s.
      get_elem? s.0.relays relay >>= λ r. some (
        record s.0 { relays = set s.0.relays relay (record r { connected = true; group = group }) },
        s.1,
      )

  -- `packet` has one entry and `sendPacket` is told two: `beyond` is the integer behind it, or `none`
  -- if reading that faults.
  unfoldable pub disconnect_relay : Node Queue Ip → ℕ → Option ℤ → Option (Sent Queue Ip)
  disconnect_relay n relay beyond = beyond >>= λ word.
      send_packet f n disconnect_relay_msg (pos relay ∷ word ∷ []) >>= λ s.
      get_elem? s.0.relays relay >>= λ r.
      some (record s.0 { relays = set s.0.relays relay (record r { connected = false }) }, s.1)

  unfoldable pub connect_pir : Node Queue Ip → Sent Queue Ip
  connect_pir n =
      let (n', out) = send_message f n connect_pir_msg in
      (record n' { pir_sensor_connected = true }, out)

  unfoldable pub disconnect_pir : Node Queue Ip → Sent Queue Ip
  disconnect_pir n =
      let (n', out) = send_message f n disconnect_pir_msg in
      (record n' { pir_sensor_connected = false }, out)

  unfoldable pub connect_temperature_sensor : Node Queue Ip → Sent Queue Ip
  connect_temperature_sensor n =
      let (n', out) = send_message f n connect_temperature_msg in
      (record n' { temperature_sensor_connected = true }, out)

  unfoldable pub disconnect_temperature_sensor : Node Queue Ip → Sent Queue Ip
  disconnect_temperature_sensor n =
      let (n', out) = send_message f n disconnect_temperature_msg in
      (record n' { temperature_sensor_connected = false }, out)

  unfoldable pub connect_ir_control : Node Queue Ip → ℤ → Option (Sent Queue Ip)
  connect_ir_control n group = send_packet f n connect_ir_control_msg (group ∷ []) >>= λ s.
      some (record s.0 { ir_control_connected = true; ir_control_group = group }, s.1)

  unfoldable pub disconnect_ir_control : Node Queue Ip → Sent Queue Ip
  disconnect_ir_control n =
      let (n', out) = send_message f n disconnect_ir_control_msg in
      (record n' { ir_control_connected = false }, out)

  -- The loop of `disconnectFromGroup` over the `k` relays from `i` on; `beyond` is what
  -- `disconnectRelay` reads past its packet in each round, if that can be read.
  unfoldable pub disconnect_relays :
      Node Queue Ip → ℤ → Option (ℕ → ℤ) → ℕ → ℕ → Option (Sent Queue Ip)
  disconnect_relays n group beyond i zero = some (n, [])
  disconnect_relays n group beyond i (suc k) = is_relay_connected n i >>= λ connected.
      is_relay_in_group n i group >>= λ in_group.
      (if connected && in_group
        then disconnect_relay n i (beyond >>= λ words. some (words i))
        else some (n, []))
      >>= λ s. and_then s (λ n'. disconnect_relays n' group beyond (i + 1) k)

  unfoldable pub disconnect_from_group : Node Queue Ip → ℤ → Option (ℕ → ℤ) → Option (Sent Queue Ip)
  unfolding disconnect_relays
  disconnect_from_group n group beyond =
      disconnect_relays n group beyond 0 max_slave_relay_amount >>= λ s. and_then s (λ n'.
        if n'.ir_control_connected && (n'.ir_control_group ==ℤ group)
        then some (disconnect_ir_control n')
        else some (n', []))
