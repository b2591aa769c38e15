-- ===== src/Master.antt =====
-- Master/Master.ino: the room controller. The record `Master` has the variables of the sketch, the
-- slaves that it knows, the memory, the pins, the timers, the datagrams that went out and the
-- temperatures and humidities that the control panel was sent; `none` is an access out of the bounds of an array. An address is the list of its four bytes. This file has
-- the state, the broadcasts and the switching of groups.
pub mod Network
pub mod Reports
pub mod Settings
pub mod Devices
pub mod Infrared
pub mod Motion
pub mod GroupBytes
pub mod GroupMemory
pub mod Dozing
pub mod SleepLoop
pub mod Sleeping
mod Tests
use spu_energy_efficient_sys.Common.{
  ℕ, zero, suc, ◌+◌, Bool, true, false, ◌&&◌, Option, none, some, List, [], ◌∷◌, ◌++◌, map, ℤ, pos,
  ◌==ℤ◌, get_elem?, set, ◌>>=◌, if◌then◌else◌,
}
use spu_energy_efficient_sys.Fifo.{Fifo}
use spu_energy_efficient_sys.Gpio.{Gpio}
use spu_energy_efficient_sys.Spu.{turn_on_group_msg, turn_off_group_msg}
use spu_energy_efficient_sys.Node.{
  RelayInfo, Packet, Datagram, Node, Sent, send_packet, send_message,
}
use spu_energy_efficient_sys.Slave.Sensors.{group_pins, write_pins}

-- `relayGroup`
pub record Group : Type 0 where
  pub name : List ℕ
  pub is_on : Bool
  pub is_connected : Bool
  pub is_sleeping : Bool
  pub ignore_pir : Bool
  pub motion_detection_time : ℕ

-- `PirInfo`
pub record PirInfo : Type 0 where
  pub is_connected : Bool
  pub is_on : Bool
  pub motion_detected : Bool
  pub motion_detected_on_slave : Bool
  pub is_sleeping : Bool
  pub is_disabled : Bool
  pub inactivity_time : ℕ
  pub next_sleeping_group : ℤ

abbrev pub Ip : Type 0
Ip = List ℕ

pub record Master (Queue Store Pins Timers : Type 0) : Type 0 where
  pub nodes : List (Node Queue Ip)
  pub base_ip : ℕ
  pub groups : List Group
  pub relays : List RelayInfo
  pub pir : PirInfo
  pub dht_connected : Bool
  pub requested_from_panel : Bool
  pub motion_alarm : ℤ
  pub enable_pir_alarm : ℤ
  pub current_motion_detection_time : ℕ
  pub temperature : ℕ
  pub humidity : ℕ
  pub ir_code : List ℕ
  pub ir_code_length : ℕ
  pub ir_code_complete : Bool
  pub memory : Store
  pub pins : Pins
  pub timers : Timers
  pub sent : List (Datagram Ip)
  pub shown : List (ℕ × ℕ)

-- The nodes after a broadcast, and what they sent.
abbrev pub Broadcast : Type 0 → Type 0
Broadcast Queue = List (Node Queue Ip) × List (Datagram Ip)

-- `on` of the relays that `turnOnGroup` and `turnOffGroup` switch.
unfoldable pub switch_relays : List RelayInfo → ℤ → Bool → List RelayInfo
switch_relays [] group on = []
switch_relays (r ∷ rs) group on =
    (if r.connected && (r.group ==ℤ group) then record r { is_on = on } else r)
    ∷ switch_relays rs group on

module _ (f : Fifo Packet) where
  open f use {Queue}

  -- `sendGlobalMessage`
  unfoldable pub global_message : List (Node Queue Ip) → ℕ → Broadcast Queue
  global_message [] code = ([], [])
  global_message (n ∷ ns) code =
      let (n', out) = send_message f n code in
      let (ns', more) = global_message ns code in (n' ∷ ns', out ++ more)

  -- `sendGlobalPacket`
  unfoldable pub global_packet : List (Node Queue Ip) → ℕ → List ℤ → Option (Broadcast Queue)
  global_packet [] code words = some ([], [])
  global_packet (n ∷ ns) code words = send_packet f n code words >>= λ (n', out).
      global_packet ns code words >>= λ (ns', more). some (n' ∷ ns', out ++ more)

  module _ {Store Pins Timers : Type 0} where
    unfoldable pub send_global_message :
        Master Queue Store Pins Timers → ℕ → Master Queue Store Pins Timers
    unfolding global_message
    send_global_message m code =
        let (nodes, out) = global_message m.nodes code in
        record m { nodes = nodes; sent = m.sent ++ out }

    unfoldable pub send_global_packet :
        Master Queue Store Pins Timers → ℕ → List ℤ → Option (Master Queue Store Pins Timers)
    unfolding global_packet
    send_global_packet m code words = global_packet m.nodes code words >>= λ (nodes, out).
        some (record m { nodes = nodes; sent = m.sent ++ out })

module _ (f : Fifo Packet) (g : Gpio) {Store Timers : Type 0} where
  open f use {Queue}
  open g use {Pins}

  -- The loops of `turnOnGroup` and `turnOffGroup` over the relays of the master.
  unfoldable pub switch_own :
      Master Queue Store Pins Timers → ℕ → Bool → Master Queue Store Pins Timers
  unfolding switch_relays
  switch_own m group on = record m {
    pins = write_pins g m.pins (group_pins m.relays (pos group)) on;
    relays = switch_relays m.relays (pos group) on;
  }

  unfoldable pub turn_on_group :
      Master Queue Store Pins Timers → ℕ → Option (Master Queue Store Pins Timers)
  unfolding switch_own send_global_packet
  turn_on_group m group =
      send_global_packet f (switch_own m group true) turn_on_group_msg (pos group ∷ []) >>= λ m'.
      get_elem? m'.groups group >>= λ x.
      some (record m' {
        groups = set m'.groups group (record x { is_on = true; is_sleeping = false });
      })

  unfoldable pub turn_off_group :
      Master Queue Store Pins Timers → ℕ → Bool → Option (Master Queue Store Pins Timers)
  unfolding switch_own send_global_packet
  turn_off_group m group sleep =
      send_global_packet f (switch_own m group false) turn_off_group_msg (pos group ∷ []) >>= λ m'.
      get_elem? m'.groups group >>= λ x. some (record m' {
        groups = set m'.groups group (
            if sleep
            then record x { is_on = true; is_sleeping = true }
            else record x { is_on = false });
      })

  unfoldable pub sleep_group :
      Master Queue Store Pins Timers → ℕ → Option (Master Queue Store Pins Timers)
  unfolding turn_off_group
  sleep_group m group = turn_off_group m group true
