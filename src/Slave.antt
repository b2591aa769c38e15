-- ===== src/Slave.antt =====
-- Slave/Slave.ino: the firmware of a node that the master commands. The record `Slave` has the
-- variables of the sketch beside the memory, the pins, the timers and what went out; a function of
-- the sketch is a function on it, and `none` is an access out of the bounds of an array. This file
-- has the state and the sending of messages and packets.
pub mod Sensors
pub mod Written
pub mod Memory
pub mod Connection
pub mod Handling
pub mod Resending
pub mod Groups
pub mod Waiting
pub mod Answers
pub mod Stopping
mod Tests
use spu_energy_efficient_sys.Common.{
  ℕ, ◌+◌, ◌≡◌, Bool, true, false, Option, none, some, ltb, List, [], ◌∷◌, ◌++◌, map, ℤ, pos,
  to_byte, length, ◌==◌, if◌then◌else◌,
}
use spu_energy_efficient_sys.Alarms.{Alarms, resends_last_message}
use spu_energy_efficient_sys.Spu.{
  received_msg, max_packet_size, running_state, pending_response_state, alarm_not_set,
}
use spu_energy_efficient_sys.Node.{RelayInfo}
use spu_energy_efficient_sys.IrControl.{IrControl}

abbrev pub resend_time : ℕ
resend_time = 5

-- What the sketch asks of the UDP socket, the infrared sender and the WiFi library.
pub data Output : Type 0 where
  datagram : List ℕ → Output
  send_code : Output
  wifi_disconnect : Output
  wifi_connect : List ℕ → List ℕ → List ℕ → Bool → Output
  restart : Output

-- `resend_alarm` is `ALARM_NOT_SET` or the timer that resends. Of `sentPacket` only the first
-- `sentPacketSize` words are kept: the code reads no others of them. `current` is `current * 1000`
-- as an integer.
pub record Slave (Store Pins Timers : Type 0) : Type 0 where
  pub node_ip : List ℕ
  pub resend_alarm : ℤ
  pub received_msg_number : ℕ
  pub sent_msg_number : ℕ
  pub sent_msg : ℕ
  pub sent_packet : List ℤ
  pub sent_packet_code : ℕ
  pub packet_sent : Bool
  pub master_state : ℕ
  pub time_since_connection : ℕ
  pub relays : List RelayInfo
  pub pir_pin : ℤ
  pub current_sensor_pin : ℤ
  pub temperature_sensor_pin : ℤ
  pub ir_control_pin : ℤ
  pub ir_control_group : ℤ
  pub pir_state : Bool
  pub ircontrol : IrControl
  pub ir_code_length : ℕ
  pub ir_receiving_length : ℕ
  pub ir_code : List ℕ
  pub temperature : ℤ
  pub humidity : ℤ
  pub current : ℕ
  pub last_pir_detection : ℕ
  pub memory : Store
  pub pins : Pins
  pub timers : Timers
  pub sent : List Output

-- The bytes of `sendPacket`: a packet of one word is filled up, so that the master takes it for one.
unfoldable pub packet_bytes : ℕ → List ℤ → ℕ → List ℕ
packet_bytes code packet number =
    to_byte (pos code)
    ∷ (map to_byte packet ++ (to_byte (pos number) ∷ (if length packet == 1 then 0 ∷ [] else [])))

module _ {Store Pins Timers : Type 0} where
  -- `beginPacket`, the `write`s and `endPacket`, to the master.
  abbrev pub transmit : Slave Store Pins Timers → List ℕ → Slave Store Pins Timers
  transmit s bytes = record s { sent = s.sent ++ (datagram bytes ∷ []) }

  unfoldable pub send_ack : Slave Store Pins Timers → Slave Store Pins Timers
  send_ack s = record (transmit s (received_msg ∷ to_byte (pos s.sent_msg_number) ∷ [])) {
    sent_msg_number = s.sent_msg_number + 1;
    sent_msg = received_msg;
  }

  -- `sendPacket`, with the `len` words of `packet`. Its copy to `sentPacket` reads `MAX_PACKET_SIZE`
  -- words from `packet` on, of which `readable` can be read.
  unfoldable pub send_packet :
      Slave Store Pins Timers → ℕ → List ℤ → ℕ → Option (Slave Store Pins Timers)
  unfolding packet_bytes
  send_packet s code packet readable =
      if ltb readable max_packet_size
      then none
      else some (record (transmit s (packet_bytes code packet s.sent_msg_number)) {
        sent_msg_number = s.sent_msg_number + 1;
        sent_packet = packet;
        packet_sent = true;
        sent_packet_code = code;
      })

module _ (a : Alarms) {Store Pins : Type 0} where
  open a use {Timers, timer_once, free}

  unfoldable pub set_resend_alarm : Slave Store Pins Timers → Slave Store Pins Timers
  set_resend_alarm s =
      let (id, timers) = timer_once s.timers resend_time resends_last_message in
      record s { master_state = pending_response_state; resend_alarm = id; timers = timers }

  unfoldable pub send_message : Slave Store Pins Timers → ℕ → Bool → Slave Store Pins Timers
  unfolding set_resend_alarm
  send_message s code resend =
      let s' = record (transmit s (to_byte (pos code) ∷ to_byte (pos s.sent_msg_number) ∷ [])) {
        sent_msg_number = s.sent_msg_number + 1;
        sent_msg = code;
        packet_sent = false;
      } in
      if resend then set_resend_alarm s' else s'

  -- The body of the timer; `sentPacket` has `MAX_PACKET_SIZE` words.
  unfoldable pub resend_last_message : Slave Store Pins Timers → Option (Slave Store Pins Timers)
  unfolding send_packet send_message
  resend_last_message s =
      if s.packet_sent
      then send_packet s s.sent_packet_code s.sent_packet max_packet_size
      else some (send_message s s.sent_msg true)

  -- `masterState = RUNNING_STATE; Alarm.free(resendAlarm); resendAlarm = ALARM_NOT_SET`
  unfoldable pub stop_resending : Slave Store Pins Timers → Slave Store Pins Timers
  stop_resending s = record s {
    master_state = running_state;
    resend_alarm = alarm_not_set;
    timers = free s.timers s.resend_alarm;
  }
