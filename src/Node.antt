-- ===== src/Node.antt =====
-- libraries/Node: what the master keeps of one slave, and the queue of messages that it still has
-- to send to it. A method returns the new node beside the datagrams that it hands to the UDP
-- socket; `none` is an access out of the bounds of an array. The queue is the library's (`Fifo`),
-- the address type is that of the WiFi library.
pub mod Sending
pub mod Delivery
pub mod Retries
pub mod Sensors
pub mod Relays
mod Tests
use spu_energy_efficient_sys.Common.{
  ℕ, zero, suc, ◌+◌, ◌%◌, ◌≡◌, Bool, true, false, ◌&&◌, ◌||◌, Option, none, some, List, [], ◌∷◌,
  ◌++◌, map, ℤ, pos, negsuc, ◌==ℤ◌, to_byte, length, get_elem?, set, ltb, leb, ◌==◌, ◌>>=◌,
  if◌then◌else◌,
}
use spu_energy_efficient_sys.Fifo.{Fifo}
use spu_energy_efficient_sys.Spu.{
  disconnected, pending_state, running_state, error_state, pending_response_state, max_packet_size,
  max_slave_relay_amount, default_port, received_msg, connect_pir_msg, disconnect_pir_msg,
  connect_temperature_msg, disconnect_temperature_msg, connect_ir_control_msg,
  disconnect_ir_control_msg, connect_relay_msg, disconnect_relay_msg,
}

-- `relayInfo`
pub record RelayInfo : Type 0 where
  pub is_on : Bool
  pub connected : Bool
  pub group : ℤ
  pub pin : ℤ

-- Its constructor, which leaves `pin` as it finds it.
unfoldable pub new_relay : ℤ → RelayInfo
new_relay pin = record { is_on = false; connected = false; group = disconnected; pin = pin }

-- `Packet`: `payload[0 .. length)`.
pub record Packet : Type 0 where
  pub payload : List ℤ

-- What one `beginPacket`, its `write`s and `endPacket` put on the network.
pub record Datagram (Ip : Type 0) : Type 0 where
  pub address : Ip
  pub port : ℕ
  pub bytes : List ℕ

pub record Node (Queue Ip : Type 0) : Type 0 where
  pub ip : Ip
  pub state : ℕ
  pub last_message_number : ℕ
  pub pending_packets : Queue
  pub time_since_sent : ℕ
  pub pir_sensor_connected : Bool
  pub temperature_sensor_connected : Bool
  pub current_sensor_connected : Bool
  pub ir_control_connected : Bool
  pub ir_control_group : ℤ
  pub relays : List RelayInfo

abbrev pub Sent : Type 0 → Type 0 → Type 0
Sent Queue Ip = Node Queue Ip × List (Datagram Ip)

-- The first call's datagrams, then those of the second.
unfoldable pub and_then :
    {Queue Ip : Type 0}
    → Sent Queue Ip
    → (Node Queue Ip → Option (Sent Queue Ip))
    → Option (Sent Queue Ip)
and_then (n, out) f = f n >>= λ r. some (r.0, out ++ r.1)

-- The bytes that `sendNextPacket` writes for a packet.
abbrev pub encode : Packet → List ℕ
encode p = map to_byte p.payload

abbrev pub datagram : {Ip : Type 0} → Ip → List ℕ → Datagram Ip
datagram ip bytes = record { address = ip; port = default_port; bytes = bytes }

module _ {Ip : Type 0} (f : Fifo Packet) where
  open f use {Queue, create, push, pop, peek, is_empty, get_count, clean}

  -- `Node::Node`. The two fields that it leaves alone are arguments.
  unfoldable pub new_node : Ip → ℤ → ℤ × ℤ → Node Queue Ip
  unfolding new_relay
  new_node ip ir_group pins = record {
    ip = ip;
    state = running_state;
    last_message_number = 0;
    pending_packets = create 15;
    time_since_sent = 0;
    pir_sensor_connected = false;
    temperature_sensor_connected = false;
    current_sensor_connected = false;
    ir_control_connected = false;
    ir_control_group = ir_group;
    relays = new_relay pins.0 ∷ new_relay pins.1 ∷ [];
  }

  -- `sendNextPacket`. A queue that is not empty has a record to peek.
  unfoldable pub send_next_packet : Node Queue Ip → Sent Queue Ip
  send_next_packet n =
      if is_empty n.pending_packets
      then (record n { state = running_state; time_since_sent = 0 }, [])
      else elim (peek n.pending_packets) [
        | some p ↦ (n, datagram n.ip (encode p) ∷ [])
        | none ↦ (n, [])
      ]

  -- The common part of `sendMessage` and `sendPacket`: the state, the number and the queue.
  unfoldable pub enqueue : Node Queue Ip → List ℤ → Sent Queue Ip
  enqueue n words =
      let p : Packet = record { payload = words ++ (pos n.last_message_number ∷ []) } in
      let q = (push n.pending_packets p).1 in
      let n' : Node Queue Ip = record n {
        state = pending_response_state;
        last_message_number = n.last_message_number + 1;
        pending_packets = q;
      } in
      if get_count q == 1 then send_next_packet n' else (n', [])

  unfoldable pub send_message : Node Queue Ip → ℕ → Sent Queue Ip
  unfolding enqueue
  send_message n code = enqueue n (pos code ∷ [])

  -- `sendPacket`; `words` are the `len` integers read from `packet` on. `payload` has room for
  -- `MAX_PACKET_SIZE` of them, with the code and the number.
  unfoldable pub send_packet : Node Queue Ip → ℕ → List ℤ → Option (Sent Queue Ip)
  unfolding enqueue
  send_packet n code words =
      if ltb max_packet_size (length words + 2) then none else some (enqueue n (pos code ∷ words))

  unfoldable pub send_ack : Node Queue Ip → Sent Queue Ip
  send_ack n = (n, datagram n.ip (received_msg ∷ 0 ∷ []) ∷ [])

  unfoldable pub receive_ack : Node Queue Ip → Sent Queue Ip
  unfolding send_next_packet
  receive_ack n =
      let (n', out) = send_next_packet (record n { pending_packets = (pop n.pending_packets).1 }) in
      (record n' { time_since_sent = 0 }, out)

  unfoldable pub clear_messages : Node Queue Ip → Node Queue Ip
  clear_messages n = record n { pending_packets = clean n.pending_packets }

  -- `checkSentPackets`, which the master calls every `SENT_CHECK_TIME` seconds.
  unfoldable pub check_sent_packets : Node Queue Ip → Sent Queue Ip
  unfolding send_next_packet
  check_sent_packets n =
      if is_empty n.pending_packets
      then (n, [])
      else let (n', out) : Sent Queue Ip =
          if ltb 0 t
          then (if ltb t 5 || (ltb t 16 && t % 2 == 0)
              then send_next_packet n
              else if leb 16 t
              then (record n { state = error_state }, [])
              else (n, []))
          else (n, []) in
        (record n' { time_since_sent = n'.time_since_sent + 1 }, out)
    where
      t : ℕ
      t = n.time_since_sent

  unfoldable pub reconnect : Node Queue Ip → Sent Queue Ip
  unfolding send_ack
  reconnect n =
      send_ack (record n { state = running_state; last_message_number = 1; time_since_sent = 0 })

  unfoldable pub error : Node Queue Ip → Node Queue Ip
  error n = record n { state = error_state }

module _ {Queue Ip : Type 0} where
  unfoldable pub set_ip : Node Queue Ip → Ip → Node Queue Ip
  set_ip n new_ip = record n { ip = new_ip }

  unfoldable pub has_pending_state : Node Queue Ip → Bool
  has_pending_state n = n.state == pending_state

  unfoldable pub has_pending_response : Node Queue Ip → Bool
  has_pending_response n = n.state == pending_response_state

  unfoldable pub has_running_state : Node Queue Ip → Bool
  has_running_state n = n.state == running_state

  unfoldable pub has_error_state : Node Queue Ip → Bool
  has_error_state n = n.state == error_state
