-- ===== src/Node/Retries.antt =====
-- `checkSentPackets` of libraries/Node: which periods retransmit, and when the slave counts as lost.
use mathlib.Core.List.{append-nil}
use mathlib.Core.Path.{ap₂}
use Prim.Native.Nat.{min}
use spu_energy_efficient_sys.Common.{
  ℕ, zero, suc, ◌+◌, ◌-◌, ◌/◌, ◌%◌, ◌≡◌, refl, ap, Bool, ◌&&◌, ◌||◌, List, [], ◌∷◌, ◌++◌, arith,
  length, head?, ltb, leb, ◌==◌, if◌then◌else◌, replicate, not, Bool-cases, inl, inr, ◌∙◌, ◌≤◌,
}
use spu_energy_efficient_sys.Fifo.{Fifo}
use spu_energy_efficient_sys.Spu.{error_state}
use spu_energy_efficient_sys.Node.{Packet, Node, Sent, encode, datagram, check_sent_packets}
use spu_energy_efficient_sys.Node.Sending.{outstanding, first_datagram}

-- The periods without a response at whose end the oldest packet goes out again: the first to the
-- fourth, then every even one below the sixteenth.
pub resends : ℕ → Bool
resends t = ltb 0 t && (ltb t 5 || (ltb t 16 && t % 2 == 0))

-- How many of the periods below `k` those are.
pub resent : ℕ → ℕ
resent k = min (k - 1) 4 + (min k 16 - 5) / 2

pub resent-suc : (k : ℕ) → resent (suc k) ≡ (if resends k then resent k + 1 else resent k)
unfolding resent resends
resent-suc k = ground arith

replicate-suc {ℓ} : {A : Type ℓ} (n : ℕ) (a : A) → replicate n a ++ (a ∷ []) ≡ replicate (n + 1) a
replicate-suc zero a = refl
replicate-suc (suc n) a = ground (arith, replicate-suc n a)

replicate_step :
    {A : Type 0} (k : ℕ) (a : A)
    → replicate (resent k) a ++ (if resends k then a ∷ [] else []) ≡ replicate (resent (suc k)) a
replicate_step k a = elim (Bool-cases (resends k)) [
  | inl again ↦ rw (again, resent-suc k, again, replicate-suc (resent k) a)
  | inr quiet ↦ rw (quiet, resent-suc k, quiet, append-nil (replicate (resent k) a))
]

module _ {Ip : Type 0} (f : Fifo Packet) where
  -- A period leaves the queue alone. With nothing outstanding it changes nothing at all; otherwise
  -- it counts, retransmits the oldest packet in the periods of `resends`, and from the sixteenth
  -- on puts the node into `ERROR_STATE`.
  pub record Ticked (n : Node f.Queue Ip) (r : Sent f.Queue Ip) : Type 0 where
    pub pending : r.0.pending_packets ≡ n.pending_packets
    pub emitted :
        r.1 ≡ (if resends n.time_since_sent then first_datagram f n.ip (outstanding f n) else [])
    pub state : r.0.state ≡ (
        if leb 16 n.time_since_sent && not (length (outstanding f n) == 0)
        then error_state
        else n.state)
    pub time :
        r.0.time_since_sent
        ≡ (if length (outstanding f n) == 0 then n.time_since_sent else n.time_since_sent + 1)
    pub number : r.0.last_message_number ≡ n.last_message_number
    pub same_ip : r.0.ip ≡ n.ip

  tick_idle : (n : Node f.Queue Ip) → outstanding f n ≡ [] → Ticked n (check_sent_packets f n)
  unfolding check_sent_packets resends
  tick_idle n e = ground (arith, e, ap length e, f.is_empty_lem n.pending_packets)

  tick_waiting :
      (n : Node f.Queue Ip) (p : Packet) (ps : List Packet)
      → outstanding f n ≡ p ∷ ps
      → Ticked n (check_sent_packets f n)
  unfolding check_sent_packets resends
  tick_waiting n p ps e = ground (
    arith,
    e,
    ap length e,
    ap head? e,
    f.is_empty_lem n.pending_packets,
    f.peek_lem n.pending_packets,
  )

  tick_of :
      (n : Node f.Queue Ip) (ps : List Packet)
      → outstanding f n ≡ ps
      → Ticked n (check_sent_packets f n)
  tick_of n [] e = tick_idle n e
  tick_of n (p ∷ ps) e = tick_waiting n p ps e

  pub check_sent_packets-Ticked : (n : Node f.Queue Ip) → Ticked n (check_sent_packets f n)
  check_sent_packets-Ticked n = tick_of n (outstanding f n) refl

  -- `k` periods, one after the other.
  pub periods : ℕ → Node f.Queue Ip → Sent f.Queue Ip
  periods zero n = (n, [])
  periods (suc k) n =
      let (n', out) = periods k n in let (n'', out') = check_sent_packets f n' in (n'', out ++ out')

  periods_kept :
      (k : ℕ) (n : Node f.Queue Ip) (p : Packet) (ps : List Packet)
      → outstanding f n ≡ p ∷ ps
      → n.time_since_sent ≡ 0
      → let (n', out) = periods k n in
        (n'.time_since_sent ≡ k) × (n'.pending_packets ≡ n.pending_packets) × (n'.ip ≡ n.ip)
  unfolding periods
  periods_kept zero n p ps e z = ground arith
  periods_kept (suc k) n p ps e z =
      ground
        (arith, periods_kept k n p ps e z, check_sent_packets-Ticked (periods k n).0, ap length e)

  periods_state :
      (k : ℕ) (n : Node f.Queue Ip) (p : Packet) (ps : List Packet)
      → outstanding f n ≡ p ∷ ps
      → n.time_since_sent ≡ 0
      → (periods k n).0.state ≡ (if ltb 16 k then error_state else n.state)
  unfolding periods
  periods_state zero n p ps e z = ground arith
  periods_state (suc k) n p ps e z = ground (
    arith,
    periods_state k n p ps e z,
    periods_kept k n p ps e z,
    (check_sent_packets-Ticked (periods k n).0).state,
    ap length e,
  )

  tick_emits :
      (k : ℕ) (n : Node f.Queue Ip) (p : Packet) (ps : List Packet)
      → outstanding f n ≡ p ∷ ps
      → n.time_since_sent ≡ 0
      → (check_sent_packets f (periods k n).0).1
        ≡ (if resends k then datagram n.ip (encode p) ∷ [] else [])
  tick_emits k n p ps e z =
      ground
        (arith, e, periods_kept k n p ps e z, (check_sent_packets-Ticked (periods k n).0).emitted)

  periods_emitted :
      (k : ℕ) (n : Node f.Queue Ip) (p : Packet) (ps : List Packet)
      → outstanding f n ≡ p ∷ ps
      → n.time_since_sent ≡ 0
      → (periods k n).1 ≡ replicate (resent k) (datagram n.ip (encode p))
  unfolding periods resent
  periods_emitted zero n p ps e z = refl
  periods_emitted (suc k) n p ps e z =
      ap₂ ◌++◌ (periods_emitted k n p ps e z) (tick_emits k n p ps e z)
      ∙ replicate_step k (datagram n.ip (encode p))

  -- While a slave stays silent from the moment that a packet went out, `k` periods retransmit that
  -- packet `min (k - 1) 4 + (min k 16 - 5) / 2` times, so nine times at most; nothing else is
  -- transmitted, the queue is kept, and the node is in `ERROR_STATE` exactly from the 17th period
  -- on (if it was in another state before).
  pub periods_lem :
      (k : ℕ) (n : Node f.Queue Ip) (p : Packet) (ps : List Packet)
      → outstanding f n ≡ p ∷ ps
      → n.time_since_sent ≡ 0
      → let (n', out) = periods k n in
        (out ≡ replicate (min (k - 1) 4 + (min k 16 - 5) / 2) (datagram n.ip (encode p)))
        × (min (k - 1) 4 + (min k 16 - 5) / 2 ≤ 9)
        × (n'.state ≡ (if ltb 16 k then error_state else n.state))
        × (n'.pending_packets ≡ n.pending_packets)
  unfolding resent
  periods_lem k n p ps e z = (
    periods_emitted k n p ps e z,
    omega arith,
    periods_state k n p ps e z,
    (periods_kept k n p ps e z).1,
  )
