-- ===== src/Node/Delivery.antt =====
-- The master's side of the protocol over whole histories: sends, acknowledgements and retry periods
-- in any order.
use spu_energy_efficient_sys.Common.{
  ℕ, suc, ◌+◌, ◌<◌, ◌≡◌, refl, sym, ap, ◌∙◌, Bool, true, false, Option, some, List, [], ◌∷◌, ◌++◌,
  map, map-append, append-nil, append_assoc, arith, ℤ, pos, length, ltb, ◌==◌, ◌>>=◌, if◌then◌else◌,
  take, tail, Bool-cases, inl, inr, lt→ltb, All, ◌≤◌,
}
use spu_energy_efficient_sys.Fifo.{Fifo}
use spu_energy_efficient_sys.Spu.{max_packet_size}
use spu_energy_efficient_sys.Node.{
  Packet, Datagram, Node, Sent, encode, datagram, send_message, send_packet, receive_ack,
  check_sent_packets, new_node,
}
use spu_energy_efficient_sys.Node.Sending.{
  outstanding, room, numbered, first_datagram, send_message-Enqueued, Enqueued, send_packet_cases,
  receive_ack_lem,
}
use spu_energy_efficient_sys.Node.Retries.{check_sent_packets-Ticked, resends}

-- What can happen to a node of the master.
pub data Event : Type 0 where
  message : ℕ → Event
  packet : ℕ → List ℤ → Event
  ack : Event
  tick : Event

-- The words of a packet leave room for its code and its number.
abbrev pub Fits : Event → Type 0
Fits (packet code words) = length words + 2 ≤ max_packet_size
Fits e = Unit {0}

-- `Repeats xs ys`: `xs` is `ys` with each entry once or several times in a row.
pub data Repeats {A : Type 0} : List A → List A → Type 0 where
  none_yet : Repeats [] []
  fresh : {xs ys : List A} (a : A) → Repeats xs ys → Repeats (xs ++ (a ∷ [])) (ys ++ (a ∷ []))
  again :
      {xs : List A} (ys : List A) (a : A)
      → Repeats xs (ys ++ (a ∷ []))
      → Repeats (xs ++ (a ∷ [])) (ys ++ (a ∷ []))

-- A node with its history: the packets that its queue took, those that were acknowledged, and
-- all that went on the network.
pub record Session (Queue Ip : Type 0) : Type 0 where
  pub node : Node Queue Ip
  pub accepted : List Packet
  pub acked : List Packet
  pub wire : List (Datagram Ip)

append_taken :
    (acked ps : List Packet) (p : Packet) (b : Bool)
    → (acked ++ ps) ++ (if b then p ∷ [] else []) ≡ acked ++ (if b then ps ++ (p ∷ []) else ps)
append_taken acked ps p true = append_assoc acked ps (p ∷ [])
append_taken acked ps p false = append-nil (acked ++ ps)

take-tail : (acked ps : List Packet) → acked ++ ps ≡ (acked ++ take 1 ps) ++ tail ps
take-tail acked [] = simp append-nil
take-tail acked (p ∷ ps) = sym (append_assoc acked (p ∷ []) ps)

suc-eq-zero : (n : ℕ) → (suc n == 0) ≡ false
suc-eq-zero n = ground arith

module _ {Ip : Type 0} (f : Fifo Packet) where
  -- The packet of a call, if the queue has room for it.
  abbrev pub taken : Node f.Queue Ip → List ℤ → List Packet
  taken n words = if ltb (length (outstanding f n)) (room f n) then numbered f n words ∷ [] else []

  -- The history after a call that sends `words`.
  abbrev sent : Session f.Queue Ip → List ℤ → Sent f.Queue Ip → Session f.Queue Ip
  sent s words r = record s {
    node = r.0;
    accepted = s.accepted ++ taken s.node words;
    wire = s.wire ++ r.1;
  }

  acknowledged : Session f.Queue Ip → Session f.Queue Ip
  acknowledged s =
      let (n, out) = receive_ack f s.node in
      record s { node = n; acked = s.acked ++ take 1 (outstanding f s.node); wire = s.wire ++ out }

  ticked : Session f.Queue Ip → Session f.Queue Ip
  ticked s =
      let (n, out) = check_sent_packets f s.node in record s { node = n; wire = s.wire ++ out }

  pub after : Session f.Queue Ip → Event → Option (Session f.Queue Ip)
  unfolding acknowledged ticked
  after s (message code) = some (sent s (pos code ∷ []) (send_message f s.node code))
  after s (packet code words) =
      send_packet f s.node code words >>= λ r. some (sent s (pos code ∷ words) r)
  after s ack = some (acknowledged s)
  after s tick = some (ticked s)

  pub history : Session f.Queue Ip → List Event → Option (Session f.Queue Ip)
  history s [] = some s
  history s (e ∷ es) = after s e >>= λ t. history t es

  unfoldable pub start : Ip → ℤ → ℤ × ℤ → Session f.Queue Ip
  start ip ir_group pins = record {
    node = new_node f ip ir_group pins;
    accepted = [];
    acked = [];
    wire = [];
  }

  -- In order, and one at a time: the packets taken are those acknowledged and then those
  -- outstanding, and the network has seen the acknowledged ones and the oldest outstanding one,
  -- in that order, each perhaps several times in a row.
  pub record InOrder (ip : Ip) (s : Session f.Queue Ip) : Type 0 where
    pub address : s.node.ip ≡ ip
    pub roomy : 1 < room f s.node
    pub ledger : s.accepted ≡ s.acked ++ outstanding f s.node
    pub network :
        Repeats s.wire
          (map (λ p. datagram ip (encode p)) (s.acked ++ take 1 (outstanding f s.node)))

  -- The network part, over lists.
  abbrev Seen : Ip → List (Datagram Ip) → List Packet → List Packet → Type 0
  Seen ip wire acked pending =
      Repeats wire (map (λ p. datagram ip (encode p)) (acked ++ take 1 pending))

  Seen-first :
      (ip : Ip) (wire : List (Datagram Ip)) (acked : List Packet) (p : Packet) (ps : List Packet)
      → Repeats wire (map (λ p. datagram ip (encode p)) acked)
      → Seen ip (wire ++ (datagram ip (encode p) ∷ [])) acked (p ∷ ps)
  Seen-first ip wire acked p ps h = rw map-append (fresh (datagram ip (encode p)) h)

  Seen-again :
      (ip : Ip) (wire : List (Datagram Ip)) (acked : List Packet) (ps : List Packet)
      → Seen ip wire acked ps
      → Seen ip (wire ++ first_datagram f ip ps) acked ps
  Seen-again ip wire acked [] h = rw append-nil h
  Seen-again ip wire acked (p ∷ ps) h = rw map-append (
      again (map (λ p. datagram ip (encode p)) acked) (datagram ip (encode p)) (rw map-append at h))

  Seen-ack :
      (ip : Ip) (wire : List (Datagram Ip)) (acked : List Packet) (ps : List Packet)
      → Seen ip wire acked ps
      → Seen ip (wire ++ first_datagram f ip (tail ps)) (acked ++ take 1 ps) (tail ps)
  Seen-ack ip wire acked [] h = simp append-nil (simp append-nil at h)
  Seen-ack ip wire acked (p ∷ []) h = simp append-nil h
  Seen-ack ip wire acked (p ∷ p' ∷ ps) h = Seen-first ip wire (acked ++ (p ∷ [])) p' ps h

  Seen-send :
      (ip : Ip) (wire : List (Datagram Ip)) (acked : List Packet) (ps : List Packet) (p : Packet)
      (size : ℕ)
      → 1 < size
      → Seen ip wire acked ps
      → Seen ip
          (wire ++ (if length ps == 0 then datagram ip (encode p) ∷ [] else []))
          acked
          (if ltb (length ps) size then ps ++ (p ∷ []) else ps)
  Seen-send ip wire acked [] p size c h =
      rw (lt→ltb 0 size (omega arith)) (Seen-first ip wire acked p [] (rw append-nil at h))
  Seen-send ip wire acked (x ∷ xs) p size c h = elim (Bool-cases (ltb (length (x ∷ xs)) size)) [
    | inl free ↦ rw (suc-eq-zero (length xs), free, append-nil wire) h
    | inr full ↦ rw (suc-eq-zero (length xs), full, append-nil wire) h
  ]

  sent-InOrder :
      (ip : Ip) (s : Session f.Queue Ip) (words : List ℤ) (r : Sent f.Queue Ip)
      → Enqueued f s.node words r
      → InOrder ip s
      → InOrder ip (sent s words r)
  sent-InOrder ip s words r e v = record {
    address = e.same_ip ∙ v.address;
    roomy = rw e.same_room v.roomy;
    ledger =
        rw (e.pending, v.ledger)
          (append_taken s.acked (outstanding f s.node) (numbered f s.node words) _);
    network =
        rw (e.emitted, e.pending, v.address)
          (Seen-send ip s.wire s.acked (outstanding f s.node) (numbered f s.node words)
            (room f s.node) v.roomy v.network);
  }

  ack-InOrder : (ip : Ip) (s : Session f.Queue Ip) → InOrder ip s → InOrder ip (acknowledged s)
  unfolding acknowledged
  ack-InOrder ip s v =
      let (pending, out, _, _, _, same_room, same_ip) = receive_ack_lem f s.node in
      record {
        address = same_ip ∙ v.address;
        roomy = rw same_room v.roomy;
        ledger = rw (pending, v.ledger) (take-tail s.acked (outstanding f s.node));
        network =
            rw (pending, out, v.address)
              (Seen-ack ip s.wire s.acked (outstanding f s.node) v.network);
      }

  Seen-tick :
      (ip : Ip) (s : Session f.Queue Ip) (b : Bool)
      → InOrder ip s
      → Seen ip
          (s.wire ++ (if b then first_datagram f ip (outstanding f s.node) else []))
          s.acked
          (outstanding f s.node)
  Seen-tick ip s true v = Seen-again ip s.wire s.acked (outstanding f s.node) v.network
  Seen-tick ip s false v = rw (append-nil s.wire) v.network

  tick-InOrder : (ip : Ip) (s : Session f.Queue Ip) → InOrder ip s → InOrder ip (ticked s)
  unfolding ticked
  tick-InOrder ip s v =
      let t = check_sent_packets-Ticked f s.node in
      let kept = ap f.records t.pending in
      record {
        address = t.same_ip ∙ v.address;
        roomy = rw (ap f.capacity t.pending) v.roomy;
        ledger = rw kept v.ledger;
        network =
            rw (kept, t.emitted, v.address) (Seen-tick ip s (resends s.node.time_since_sent) v);
      }

  after-InOrder :
      (ip : Ip) (s : Session f.Queue Ip) (e : Event)
      → Fits e
      → InOrder ip s
      → (t : Session f.Queue Ip) × (after s e ≡ some t) × InOrder ip t
  unfolding after
  after-InOrder ip s (message code) h v =
      (_, refl, sent-InOrder ip s (pos code ∷ []) _ (send_message-Enqueued f s.node code v.roomy) v)
  after-InOrder ip s (packet code words) h v =
      elim (send_packet_cases f s.node code words v.roomy) [
        | inl (long, _) ↦ absurd (omega arith)
        | inr (r, _, e, q) ↦
            (sent s (pos code ∷ words) r, rw e, sent-InOrder ip s (pos code ∷ words) r q v)
      ]
  after-InOrder ip s ack h v = (acknowledged s, refl, ack-InOrder ip s v)
  after-InOrder ip s tick h v = (ticked s, refl, tick-InOrder ip s v)

  history-InOrder :
      (ip : Ip) (es : List Event) (s : Session f.Queue Ip)
      → All Fits es
      → InOrder ip s
      → (t : Session f.Queue Ip) × (history s es ≡ some t) × InOrder ip t
  unfolding history
  history-InOrder ip [] s h v = (s, refl, v)
  history-InOrder ip (e ∷ es) s h v =
      let (t, done, w) = after-InOrder ip s e h.0 v in
      let (u, rest, x) = history-InOrder ip es t h.1 w in (u, rw done rest, x)

  start-InOrder : (ip : Ip) (ir_group : ℤ) (pins : ℤ × ℤ) → InOrder ip (start ip ir_group pins)
  unfolding start new_node
  start-InOrder ip ir_group pins = record {
    address = refl;
    roomy = rw (f.capacity-create 15) (omega arith);
    ledger = sym (f.records-create 15);
    network = rw (f.records-create 15) none_yet;
  }

  -- Whatever the master sends to a new node (in packets that fit), and whenever acknowledgements and
  -- retry periods come, the run meets no fault, and delivery is in order, without loss of a packet
  -- that the queue took, and one packet at a time (`InOrder`).
  pub delivery-InOrder :
      (ip : Ip) (ir_group : ℤ) (pins : ℤ × ℤ) (es : List Event)
      → All Fits es
      → (t : Session f.Queue Ip) × (history (start ip ir_group pins) es ≡ some t) × InOrder ip t
  delivery-InOrder ip ir_group pins es h =
      history-InOrder ip es (start ip ir_group pins) h (start-InOrder ip ir_group pins)
