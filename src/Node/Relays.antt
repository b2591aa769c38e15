-- ===== src/Node/Relays.antt =====
-- The relays of a node by group: connecting one, and disconnecting a whole group.
use spu_energy_efficient_sys.Common.{
  ℕ, zero, suc, ◌+◌, ◌<◌, ◌≡◌, ◌≢◌, refl, Bool, true, false, ◌&&◌, ◌||◌, ◌⊎◌, Option, none, some,
  List, [], ◌∷◌, ℤ, pos, ◌==ℤ◌, ==ℤ_iff, get_elem?, set, if◌then◌else◌, arith, length, inl, inr,
  get_elem?-set_self, get_elem?-set_ne, Option-cases,
}
use spu_energy_efficient_sys.Fifo.{Fifo}
use spu_energy_efficient_sys.Spu.{connect_relay_msg}
use spu_energy_efficient_sys.Node.{
  RelayInfo, Packet, Node, Sent, send_next_packet, enqueue, send_packet,
}
use spu_energy_efficient_sys.Node.Sensors.{connect_relay, disconnect_relays, is_relay_in_group}

abbrev pub member : ℤ → RelayInfo → Bool
member group r = r.connected && (r.group ==ℤ group)

-- What becomes of a relay when its group is disconnected.
abbrev pub leave : ℤ → RelayInfo → RelayInfo
leave group r = if member group r then record r { connected = false } else r

-- The loop of `disconnectFromGroup` on the relays alone.
pub leave_from : ℤ → ℕ → ℕ → List RelayInfo → List RelayInfo
leave_from group i zero rs = rs
leave_from group i (suc k) rs = leave_from group (i + 1) k (change rs (get_elem? rs i))
  where
    change : List RelayInfo → Option RelayInfo → List RelayInfo
    change rs none = rs
    change rs (some r) = set rs i (leave group r)

-- Whether a relay is in the group, among the `k` from `i` on.
any_from : ℤ → ℕ → ℕ → List RelayInfo → Bool
any_from group i zero rs = false
any_from group i (suc k) rs =
    let others = any_from group (i + 1) k rs in is_member (get_elem? rs i) || others
  where
    is_member : Option RelayInfo → Bool
    is_member none = false
    is_member (some r) = member group r

get_elem?-ne-none : (rs : List RelayInfo) (i : ℕ) → i < length rs → get_elem? rs i ≢ none
get_elem?-ne-none [] i h e = elim h [ ]
get_elem?-ne-none (x ∷ rs) zero h e = cc
get_elem?-ne-none (x ∷ rs) (suc i) h e = get_elem?-ne-none rs i (omega arith) e

module _ {Ip : Type 0} (f : Fifo Packet) where
  -- What sending leaves alone.
  pub record Framed (n m : Node f.Queue Ip) : Type 0 where
    pub relays : m.relays ≡ n.relays
    pub pir : m.pir_sensor_connected ≡ n.pir_sensor_connected
    pub temperature : m.temperature_sensor_connected ≡ n.temperature_sensor_connected
    pub ir : m.ir_control_connected ≡ n.ir_control_connected
    pub ir_group : m.ir_control_group ≡ n.ir_control_group
    pub ip : m.ip ≡ n.ip

  send_next-Framed : (n : Node f.Queue Ip) → Framed n (send_next_packet f n).0
  unfolding send_next_packet
  send_next-Framed n = ground arith

  pub enqueue-Framed : (n : Node f.Queue Ip) (words : List ℤ) → Framed n (enqueue f n words).0
  unfolding enqueue
  enqueue-Framed n words = grind (arith, send_next-Framed)

  connect_relay_eq :
      (n : Node f.Queue Ip) (i : ℕ) (group : ℤ) (r : RelayInfo)
      → get_elem? n.relays i ≡ some r
      → let (m, out) = enqueue f n (pos connect_relay_msg ∷ pos i ∷ group ∷ []) in
        connect_relay f n i group
        ≡ some (
          record m { relays = set n.relays i (record r { connected = true; group = group }) },
          out,
        )
  unfolding connect_relay send_packet
  connect_relay_eq n i group r e =
      rw ((enqueue-Framed n (pos connect_relay_msg ∷ pos i ∷ group ∷ [])).relays, e)

  -- After `connectRelay` the relay is connected and in the group, and no other relay has changed.
  pub connect_relay_lem :
      (n : Node f.Queue Ip) (i : ℕ) (group : ℤ)
      → i < length n.relays
      → (s : Sent f.Queue Ip) × (connect_relay f n i group ≡ some s)
        × (is_relay_in_group s.0 i group ≡ some true)
        × ((j : ℕ) → i ≢ j → get_elem? s.0.relays j ≡ get_elem? n.relays j)
  unfolding is_relay_in_group
  connect_relay_lem n i group h = elim (Option-cases (get_elem? n.relays i)) [
    | inl missing ↦ absurd (get_elem?-ne-none n.relays i h missing)
    | inr (r, e) ↦ (
      _,
      connect_relay_eq n i group r e,
      rw (
        get_elem?-set_self n.relays i (record r { connected = true; group = group }) h,
        (==ℤ_iff group group).1 refl,
      ),
      λ j ne. get_elem?-set_ne n.relays _ ne,
    )
  ]

  -- The loop of `disconnectFromGroup`.
  record Left (n m : Node f.Queue Ip) (relays : List RelayInfo) : Type 0 where
    relays_are : m.relays ≡ relays
    pir : m.pir_sensor_connected ≡ n.pir_sensor_connected
    temperature : m.temperature_sensor_connected ≡ n.temperature_sensor_connected
    ir : m.ir_control_connected ≡ n.ir_control_connected
    ir_group : m.ir_control_group ≡ n.ir_control_group

  module _ (group : ℤ) (beyond : ℕ → ℤ) where
    abbrev Done : Node f.Queue Ip → ℕ → ℕ → Type 0
    Done n i k =
        (s : Sent f.Queue Ip) × (disconnect_relays f n group (some beyond) i k ≡ some s)
        × Left n s.0 (leave_from group i k n.relays)

  -- The loop when the word behind the packet cannot be read: it stops at the first relay of the group,
  -- and passes over the others.
  module _ (group : ℤ) where
    abbrev Unread : Node f.Queue Ip → ℕ → ℕ → Type 0
    Unread n i k =
        ((any_from group i k n.relays ≡ true) × (disconnect_relays f n group none i k ≡ none))
        ⊎ ((disconnect_relays f n group none i k ≡ some (n, []))
            × (leave_from group i k n.relays ≡ n.relays))
