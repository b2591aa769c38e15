-- ===== src/Slave/Tests.antt =====
-- The slave on concrete values.
use spu_energy_efficient_sys.Common.{
  ℕ, ◌+◌, ◌≡◌, ◌≢◌, refl, Bool, true, false, none, some, List, [], ◌∷◌, ◌++◌, pos, negsuc, ◌==◌,
  leb, if◌then◌else◌, replicate, arith, ◌<◌, ◌⊎◌,
}
use spu_energy_efficient_sys.Eeprom.{map_eeprom}
use spu_energy_efficient_sys.Gpio.{map_gpio}
use spu_energy_efficient_sys.Alarms.{ListTimers, list_alarms, resends_last_message}
use spu_energy_efficient_sys.Node.{RelayInfo}
use spu_energy_efficient_sys.Slave.{Slave, send_code, send_message, restart}
use spu_energy_efficient_sys.Slave.Sensors.{
  Wiring, turn_on_group, turn_off_group, read_sensors, write_sensors,
}
use spu_energy_efficient_sys.Slave.Written.{IsByte}
use spu_energy_efficient_sys.Slave.Memory.{IsFresh, Restored, read_sensors-write_sensors}
use spu_energy_efficient_sys.Slave.Resending.{timeouts, repeats, timeouts_lem}
use spu_energy_efficient_sys.Slave.Groups.{drives, switch_group_lem}
use spu_energy_efficient_sys.Slave.Connection.{Surroundings, continues, restarts, connect_to_master}
use spu_energy_efficient_sys.Slave.Waiting.{Quiet, connect_to_master_lem}
use spu_energy_efficient_sys.Slave.Handling.{handle_message}
use spu_energy_efficient_sys.Slave.Stopping.{handle_message-timeouts}
use spu_energy_efficient_sys.Slave.Answers.{
  reply, replies, state_after, unreadable, handle_message_lem,
}

abbrev Board : Type 0
Board = Slave (ℕ → ℕ) (ℕ → Bool) ListTimers

abbrev relay_at : Bool → ℕ → ℕ → RelayInfo
relay_at on group pin = record { is_on = false; connected = on; group = pos group; pin = pos pin }

-- A board as it starts, with the relays on the pins 5 and 4.
abbrev fresh_board : Board
fresh_board = record {
  node_ip = [];
  resend_alarm = negsuc 0;
  received_msg_number = 1;
  sent_msg_number = 0;
  sent_msg = 0;
  sent_packet = [];
  sent_packet_code = 0;
  packet_sent = false;
  master_state = 252;
  time_since_connection = 0;
  relays = relay_at false 0 5 ∷ relay_at false 0 4 ∷ [];
  pir_pin = negsuc 0;
  current_sensor_pin = negsuc 0;
  temperature_sensor_pin = negsuc 0;
  ir_control_pin = negsuc 0;
  ir_control_group = pos 0;
  pir_state = false;
  ircontrol = record { code_length = 0; raw_code = replicate 220 0 };
  ir_code_length = 0;
  ir_receiving_length = 0;
  ir_code = replicate 220 0;
  temperature = pos 0;
  humidity = pos 0;
  current = 0;
  last_pir_detection = 0;
  memory = λ p. 0;
  pins = λ p. true;
  timers = ([], 0);
  sent = [];
}

-- The first relay is in group 3, the infrared sender too, and a response is awaited.
abbrev busy_board : Board
busy_board = record fresh_board {
  relays = relay_at true 3 5 ∷ relay_at false 0 4 ∷ [];
  ir_control_pin = pos 14;
  ir_control_group = pos 3;
  pir_pin = pos 12;
  master_state = 250;
  resend_alarm = pos 0;
  sent_msg_number = 300;
}

abbrev board_wiring : Wiring
board_wiring = record { pir = 12; temperature = 13; ir_send = 14 }

three-IsByte : IsByte (pos 3)
three-IsByte = (3, omega arith, refl)

zero-IsByte : false ≡ true → IsByte (pos 0)
zero-IsByte h = (0, omega arith, refl)

abbrev restarted : Board
restarted = record fresh_board { memory = (write_sensors map_eeprom busy_board).memory }

restarted-IsFresh : IsFresh map_eeprom restarted (relay_at false 0 5) (relay_at false 0 4)
restarted-IsFresh = record {
  pir = refl;
  temperature = refl;
  ir = refl;
  two = refl;
  free0 = refl;
  free1 = refl;
}

first-IsByte : true ≡ true → IsByte (pos 3)
first-IsByte h = three-IsByte

read_sensors-write_sensors_example :
    Restored map_eeprom busy_board
      (read_sensors map_eeprom board_wiring restarted false)
      (relay_at true 3 5)
      (relay_at false 0 4)
read_sensors-write_sensors_example =
    read_sensors-write_sensors map_eeprom board_wiring busy_board restarted false
      (relay_at true 3 5) (relay_at false 0 4) (relay_at false 0 5) (relay_at false 0 4) refl
      first-IsByte zero-IsByte three-IsByte restarted-IsFresh refl

timeouts_lem_example :
    (t : Board) × (timeouts list_alarms (send_message list_alarms busy_board 2 true) 2 ≡ some t)
    × (t.sent ≡ [] ++ repeats 2 300 3)
    × (t.sent_msg_number ≡ 303)
    × ((rest : ListTimers) × (list_alarms.expire t.timers t.resend_alarm
          ≡ some (resends_last_message, rest)))
    × (t.master_state ≡ 250)
timeouts_lem_example = timeouts_lem list_alarms busy_board 2 2 refl

switch_group_lem_example :
    ((turn_on_group map_gpio busy_board (pos 3)).pins 5
      ≡ (if drives busy_board.relays (pos 3) 5 then true else true))
    × ((turn_off_group map_gpio busy_board (pos 3)).pins 5
        ≡ (if drives busy_board.relays (pos 3) 5 then false else true))
    × ((turn_on_group map_gpio busy_board (pos 3)).sent ≡ [])
    × ((turn_off_group map_gpio busy_board (pos 3)).sent ≡ send_code ∷ [])
switch_group_lem_example = switch_group_lem map_gpio busy_board (pos 3) 5

-- The acknowledgement comes at the seventh poll.
abbrev slow_master : Surroundings
slow_master = record {
  wifi = λ n. true;
  arrivals = λ n. if n == 6 then some (255 ∷ 0 ∷ []) else none;
  heap = [];
  pir_level = false;
  behind = 1000;
}

slow_master_filled : (l : ℕ) → slow_master.arrivals l ≢ some []
slow_master_filled l = ground arith

connect_to_master_lem_example :
    (Quiet slow_master.arrivals 0 10
      × (r : Board) × (connect_to_master map_eeprom list_alarms slow_master busy_board ≡ restarts r)
      × (r.sent ≡ [] ++ (repeats 254 300 2 ++ (restart ∷ []))))
    ⊎ ((n c : ℕ) × (cs : List ℕ) × (n < 10)
        × Quiet slow_master.arrivals 0 n
        × (slow_master.arrivals n ≡ some (c ∷ cs))
        × (t : Board) × (connect_to_master map_eeprom list_alarms slow_master busy_board
            ≡ continues t)
        × (t.sent ≡ [] ++ repeats 254 300 (if leb 5 n then 2 else 1))
        × (t.master_state ≡ (if c == 255 then 252 else 250)))
connect_to_master_lem_example =
    connect_to_master_lem map_eeprom list_alarms slow_master busy_board slow_master_filled

-- The timer 0 runs.
abbrev waiting_board : Board
waiting_board = record busy_board { timers = ((pos 0, resends_last_message) ∷ [], 1) }

handle_message_lem_example :
    ((unreadable 1000 13 ≡ true)
      × (handle_message map_eeprom map_gpio list_alarms board_wiring slow_master waiting_board 13
          ≡ none))
    ⊎ ((t : Board) × (handle_message map_eeprom map_gpio list_alarms board_wiring slow_master
            waiting_board 13
          ≡ some t)
        × (unreadable 1000 13 ≡ false)
        × ((t.sent ≡ [] ++ reply waiting_board 13)
            × (t.sent_msg_number ≡ 300 + replies 13)
            × (t.master_state ≡ state_after 252 13)
            × (t.resend_alarm ≡ negsuc 0)
            × (t.timers ≡ list_alarms.free waiting_board.timers (pos 0))
            × (t.pins ≡ waiting_board.pins)))
handle_message_lem_example =
    handle_message_lem map_eeprom map_gpio list_alarms board_wiring slow_master waiting_board 13

handle_message-timeouts_example :
    (t t' : Board) × (timeouts list_alarms (send_message list_alarms busy_board 2 true) 2 ≡ some t)
    × (handle_message map_eeprom map_gpio list_alarms board_wiring slow_master t 255 ≡ some t')
    × (t'.sent ≡ ([] ++ repeats 2 300 3) ++ reply t 255)
    × (t'.master_state ≡ 252)
    × (list_alarms.expire t'.timers t.resend_alarm ≡ none)
    × (t'.resend_alarm ≡ negsuc 0)
handle_message-timeouts_example =
    handle_message-timeouts map_eeprom map_gpio list_alarms board_wiring slow_master busy_board 2 2
      255 refl λ h. ground (arith, h)
