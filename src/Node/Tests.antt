-- ===== src/Node/Tests.antt =====
-- The theorems on libraries/Node at concrete nodes, with runs of the code.
use Prim.Native.Nat.{min}
use spu_energy_efficient_sys.Common.{
  ℕ, ◌+◌, ◌-◌, ◌/◌, ◌≤◌, ◌<◌, ◌≡◌, ◌≢◌, refl, ◌⊎◌, Bool, true, false, List, [], ◌∷◌, Option, none,
  some, arith, ℤ, pos, to_byte, get_elem?, replicate,
}
use spu_energy_efficient_sys.Fifo.{Fifo, list_fifo}
use spu_energy_efficient_sys.Spu.{max_packet_size, error_state, state_msg}
use spu_energy_efficient_sys.Node.{
  Packet, RelayInfo, Node, Sent, encode, datagram, new_node, send_message, send_packet, receive_ack,
  reconnect, send_next_packet,
}
use spu_energy_efficient_sys.Node.Sending.{
  outstanding, room, Enqueued, send_message-Enqueued, send_packet_cases, receive_ack_lem,
}
use spu_energy_efficient_sys.Node.Retries.{periods, periods_lem}
use spu_energy_efficient_sys.Node.Delivery.{
  Event, message, packet, ack, tick, Session, start, history, InOrder, delivery-InOrder,
}
use spu_energy_efficient_sys.Node.Sensors.{
  connect_relay, disconnect_relay, disconnect_from_group, is_relay_connected, is_relay_in_group,
}
use spu_energy_efficient_sys.Node.Relays.{connect_relay_lem}

abbrev queue : Fifo Packet
queue = list_fifo Packet

-- Addresses as their last byte.
abbrev TestNode : Type 0
TestNode = Node queue.Queue ℕ

abbrev relay : Bool → ℤ → RelayInfo
relay connected group = record { is_on = false; connected = connected; group = group; pin = pos 0 }

abbrev first_packet : Packet
first_packet = record { payload = pos 7 ∷ pos 0 ∷ [] }

abbrev second_packet : Packet
second_packet = record { payload = pos 14 ∷ pos 1 ∷ pos 4 ∷ pos 1 ∷ [] }

-- A node with two packets outstanding; relay 0 is in group 4, relay 1 is not, the IR control is.
abbrev waiting : TestNode
waiting = record {
  ip = 211;
  state = 250;
  last_message_number = 2;
  pending_packets = (first_packet ∷ second_packet ∷ [], 15);
  time_since_sent = 0;
  pir_sensor_connected = false;
  temperature_sensor_connected = false;
  current_sensor_connected = false;
  ir_control_connected = true;
  ir_control_group = pos 4;
  relays = relay true (pos 4) ∷ relay true (pos 5) ∷ [];
}

abbrev events : List Event
events = message 7 ∷ packet 14 (pos 1 ∷ pos 4 ∷ []) ∷ tick ∷ tick ∷ ack ∷ ack ∷ ack ∷ []

delivery-InOrder_example :
    (t : Session queue.Queue ℕ) × (history queue (start queue 211 (pos 0) (pos 0, pos 2)) events
      ≡ some t)
    × InOrder queue 211 t
delivery-InOrder_example = delivery-InOrder queue 211 (pos 0) (pos 0, pos 2) events (omega arith)

periods_lem_example :
    let (n, out) = periods queue 17 waiting in
    (out ≡ replicate (min (17 - 1) 4 + (min 17 16 - 5) / 2) (datagram 211 (7 ∷ 0 ∷ [])))
    × (min (17 - 1) 4 + (min 17 16 - 5) / 2 ≤ 9)
    × (n.state ≡ error_state)
    × (n.pending_packets ≡ waiting.pending_packets)
unfolding to_byte
periods_lem_example = periods_lem queue 17 waiting first_packet (second_packet ∷ []) refl refl

send_message-Enqueued_example :
    Enqueued queue waiting (pos 0 ∷ []) (send_message queue waiting state_msg)
send_message-Enqueued_example = send_message-Enqueued queue waiting state_msg (omega arith)

send_packet_cases_example :
    ((max_packet_size < 99 + 2) × (send_packet queue waiting 24 (replicate 99 (pos 1)) ≡ none))
    ⊎ ((r : Sent queue.Queue ℕ) × (99 + 2 ≤ max_packet_size)
        × (send_packet queue waiting 24 (replicate 99 (pos 1)) ≡ some r)
        × Enqueued queue waiting (pos 24 ∷ replicate 99 (pos 1)) r)
send_packet_cases_example = send_packet_cases queue waiting 24 (replicate 99 (pos 1)) (omega arith)

receive_ack_lem_example :
    let (n, out) = receive_ack queue waiting in
    (outstanding queue n ≡ second_packet ∷ [])
    × (out ≡ datagram 211 (encode second_packet) ∷ [])
    × (n.state ≡ 250)
    × (n.time_since_sent ≡ 0)
    × (n.last_message_number ≡ 2)
    × (room queue n ≡ 15)
    × (n.ip ≡ 211)
receive_ack_lem_example = receive_ack_lem queue waiting

connect_relay_lem_example :
    (s : Sent queue.Queue ℕ) × (connect_relay queue waiting 1 (pos 4) ≡ some s)
    × (is_relay_in_group s.0 1 (pos 4) ≡ some true)
    × ((j : ℕ) → 1 ≢ j → get_elem? s.0.relays j ≡ get_elem? waiting.relays j)
connect_relay_lem_example = connect_relay_lem queue waiting 1 (pos 4) (omega arith)

abbrev unreadable : Option (ℕ → ℤ)
unreadable = none

disconnect_from_group_faults : disconnect_from_group queue waiting (pos 4) unreadable ≡ none
unfolding disconnect_from_group is_relay_connected is_relay_in_group disconnect_relay
disconnect_from_group_faults = refl

-- A reconnecting slave leaves the queue as it is: the next message is queued and not transmitted.
reconnect_keeps_queue :
    let (n, _) = reconnect queue waiting in ((send_message queue n 7).1 ≡ []) × (n.state ≡ 252)
unfolding reconnect send_message
reconnect_keeps_queue = (refl, refl)

-- A new node transmits its first message at once, under number 0.
first_message :
    (send_message {Ip = ℕ} queue (new_node queue 211 (pos 0) (pos 0, pos 2)) 7).1
    ≡ datagram 211 (7 ∷ 0 ∷ []) ∷ []
unfolding send_message send_next_packet new_node to_byte
first_message = refl
