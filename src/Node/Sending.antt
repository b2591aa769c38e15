-- ===== src/Node/Sending.antt =====
-- `sendMessage`, `sendPacket` and `receiveAck` of libraries/Node, read on the packets outstanding.
use spu_energy_efficient_sys.Common.{
  ℕ, ◌+◌, ◌<◌, ◌≡◌, refl, ap, none, some, List, [], ◌∷◌, ◌++◌, arith, ℤ, pos, length, length-append,
  head?, tail, ltb, ◌==◌, if◌then◌else◌, Bool-cases, ◌⊎◌, inl, inr, ◌≤◌,
}
use spu_energy_efficient_sys.Fifo.{Fifo}
use spu_energy_efficient_sys.Spu.{running_state, pending_response_state, max_packet_size}
use spu_energy_efficient_sys.Node.{
  Packet, Datagram, Node, Sent, encode, datagram, send_next_packet, enqueue, send_message,
  send_packet, receive_ack,
}

-- The state that `sendNextPacket` leaves: `RUNNING_STATE` when nothing is outstanding.
abbrev pub state_after : ℕ → List Packet → ℕ
state_after s [] = running_state
state_after s (p ∷ ps) = s

module _ {Ip : Type 0} (f : Fifo Packet) where
  -- The packets that the slave has not acknowledged, oldest first.
  abbrev pub outstanding : Node f.Queue Ip → List Packet
  outstanding n = f.records n.pending_packets

  abbrev pub room : Node f.Queue Ip → ℕ
  room n = f.capacity n.pending_packets

  -- What goes on the network for the oldest outstanding packet.
  abbrev pub first_datagram : Ip → List Packet → List (Datagram Ip)
  first_datagram ip [] = []
  first_datagram ip (p ∷ ps) = datagram ip (encode p) ∷ []

  -- The packet that a call of `sendMessage` or `sendPacket` builds from the words before its number.
  abbrev pub numbered : Node f.Queue Ip → List ℤ → Packet
  numbered n words = record { payload = words ++ (pos n.last_message_number ∷ []) }

  send_next_cases :
      (n : Node f.Queue Ip) (ps : List Packet)
      → outstanding n ≡ ps
      → let (n', out) = send_next_packet f n in
        (out ≡ first_datagram n.ip ps)
        × (n'.state ≡ state_after n.state ps)
        × (n'.pending_packets ≡ n.pending_packets)
        × (n'.last_message_number ≡ n.last_message_number)
        × (n'.ip ≡ n.ip)
  unfolding send_next_packet
  send_next_cases n [] e = ground (arith, f.is_empty_lem n.pending_packets, ap length e)
  send_next_cases n (p ∷ ps) e = ground (
    arith,
    f.is_empty_lem n.pending_packets,
    f.peek_lem n.pending_packets,
    e,
    ap length e,
    ap head? e,
  )

  -- What `sendMessage` and `sendPacket` do with the words of a packet: unless the queue is full the
  -- packet goes to its end, under the next number; it is transmitted at once exactly when nothing
  -- was outstanding; either way the node waits for a response and the number is used up.
  pub record Enqueued (n : Node f.Queue Ip) (words : List ℤ) (r : Sent f.Queue Ip) : Type 0 where
    pub pending : outstanding r.0 ≡ (
        if ltb (length (outstanding n)) (room n)
        then outstanding n ++ (numbered n words ∷ [])
        else outstanding n)
    pub emitted : r.1 ≡ (
        if length (outstanding n) == 0 then datagram n.ip (encode (numbered n words)) ∷ [] else [])
    pub state : r.0.state ≡ pending_response_state
    pub number : r.0.last_message_number ≡ n.last_message_number + 1
    pub same_room : room r.0 ≡ room n
    pub same_ip : r.0.ip ≡ n.ip

  enqueue_first :
      (n : Node f.Queue Ip) (words : List ℤ)
      → outstanding n ≡ []
      → 1 < room n
      → Enqueued n words (enqueue f n words)
  unfolding enqueue
  enqueue_first n words e h = ground (
    arith,
    e,
    ap length e,
    f.records-push n.pending_packets (numbered n words),
    ap length (f.records-push n.pending_packets (numbered n words)),
    f.capacity-push n.pending_packets (numbered n words),
    f.get_count_lem (f.push n.pending_packets (numbered n words)).1,
    send_next_cases
        (record n {
          state = pending_response_state;
          last_message_number = n.last_message_number + 1;
          pending_packets = (f.push n.pending_packets (numbered n words)).1;
        })
        (numbered n words ∷ []),
  )

  enqueue_later :
      (n : Node f.Queue Ip) (words : List ℤ) (p : Packet) (ps : List Packet)
      → outstanding n ≡ p ∷ ps
      → 1 < room n
      → Enqueued n words (enqueue f n words)
  unfolding enqueue
  enqueue_later n words p ps e h = ground (
    arith,
    e,
    ap length e,
    f.records-push n.pending_packets (numbered n words),
    ap length (f.records-push n.pending_packets (numbered n words)),
    length-append (outstanding n) (numbered n words ∷ []),
    f.capacity-push n.pending_packets (numbered n words),
    f.get_count_lem (f.push n.pending_packets (numbered n words)).1,
  )

  enqueue_of :
      (n : Node f.Queue Ip) (words : List ℤ) (ps : List Packet)
      → outstanding n ≡ ps
      → 1 < room n
      → Enqueued n words (enqueue f n words)
  enqueue_of n words [] e h = enqueue_first n words e h
  enqueue_of n words (p ∷ ps) e h = enqueue_later n words p ps e h

  -- `sendMessage` enqueues the code under the next message number.
  pub send_message-Enqueued :
      (n : Node f.Queue Ip) (code : ℕ)
      → 1 < room n
      → Enqueued n (pos code ∷ []) (send_message f n code)
  unfolding send_message
  send_message-Enqueued n code h = enqueue_of n (pos code ∷ []) (outstanding n) refl h

  -- `sendPacket` enqueues the code and the words; it overruns `payload` exactly when the words
  -- leave no room for code and number.
  pub send_packet_cases :
      (n : Node f.Queue Ip) (code : ℕ) (words : List ℤ)
      → 1 < room n
      → ((max_packet_size < length words + 2) × (send_packet f n code words ≡ none))
        ⊎ ((r : Sent f.Queue Ip) × (length words + 2 ≤ max_packet_size)
            × (send_packet f n code words ≡ some r)
            × Enqueued n (pos code ∷ words) r)
  unfolding send_packet
  send_packet_cases n code words h = elim (Bool-cases (ltb max_packet_size (length words + 2))) [
    | inl long ↦ inl (ground arith, rw long)
    | inr fits ↦ inr (
      enqueue f n (pos code ∷ words),
      ground arith,
      rw fits,
      enqueue_of n (pos code ∷ words) (outstanding n) refl h,
    )
  ]

  -- `receiveAck` takes the oldest packet from the queue and transmits the one behind it; the node
  -- runs again exactly when none is left. The count of periods without a response starts anew.
  pub receive_ack_lem :
      (n : Node f.Queue Ip)
      → let (n', out) = receive_ack f n in
        (outstanding n' ≡ tail (outstanding n))
        × (out ≡ first_datagram n.ip (tail (outstanding n)))
        × (n'.state ≡ state_after n.state (tail (outstanding n)))
        × (n'.time_since_sent ≡ 0)
        × (n'.last_message_number ≡ n.last_message_number)
        × (room n' ≡ room n)
        × (n'.ip ≡ n.ip)
  unfolding receive_ack
  receive_ack_lem n = ground (
    arith,
    f.records-pop n.pending_packets,
    f.capacity-pop n.pending_packets,
    send_next_cases (record n { pending_packets = (f.pop n.pending_packets).1 })
        (tail (outstanding n)) (f.records-pop n.pending_packets),
  )
