-- ===== src/Protocol/Tests.antt =====
-- Master and slave together on concrete values.
use spu_energy_efficient_sys.Common.{
  ℕ, ◌≡◌, ◌<◌, ◌≤◌, refl, Bool, true, false, some, none, List, [], ◌∷◌, All, ℤ, pos, negsuc,
  replicate, take, arith, ◌==◌, if◌then◌else◌,
}
use spu_energy_efficient_sys.Eeprom.{map_eeprom}
use spu_energy_efficient_sys.Fifo.{list_fifo}
use spu_energy_efficient_sys.Gpio.{map_gpio}
use spu_energy_efficient_sys.Alarms.{ListTimers, list_alarms}
use spu_energy_efficient_sys.Node.{RelayInfo, Packet, Node, Sent}
use spu_energy_efficient_sys.WifiSettings.{read_text, read_ssid, read_password}
use spu_energy_efficient_sys.WifiSettings.Texts.{IsChar}
use spu_energy_efficient_sys.Slave.{Slave, packet_bytes, send_message}
use spu_energy_efficient_sys.Slave.Sensors.{Wiring, sensor_info}
use spu_energy_efficient_sys.Slave.Written.{SameRelay}
use spu_energy_efficient_sys.Slave.Connection.{Surroundings}
use spu_energy_efficient_sys.Slave.Handling.{take_wifi_settings}
use spu_energy_efficient_sys.Master.{Group}
use spu_energy_efficient_sys.Master.Reports.{report_info}
use spu_energy_efficient_sys.Master.Settings.{create_wifi_packet}
use spu_energy_efficient_sys.Protocol.{behind_code}
use spu_energy_efficient_sys.Protocol.SensorInfo.{IsGroup}
use spu_energy_efficient_sys.Protocol.Report.{report_info-sensor_info}
use spu_energy_efficient_sys.IrControl.{IrControl, begin}
use spu_energy_efficient_sys.IrControl.Restoring.{IsValue}
use spu_energy_efficient_sys.Master.Infrared.{code_packets}
use spu_energy_efficient_sys.Protocol.InfraredCode.{receive, code_arrives}
use spu_energy_efficient_sys.Protocol.NetworkSettings.{settings_arrive}

abbrev plain_relay : Bool → ℕ → RelayInfo
plain_relay on group = record { is_on = false; connected = on; group = pos group; pin = pos 5 }

-- A slave with a temperature sensor and its second relay in group 7.
abbrev warm_slave : Slave (ℕ → ℕ) (ℕ → Bool) ListTimers
warm_slave = record {
  node_ip = [];
  resend_alarm = negsuc 0;
  received_msg_number = 1;
  sent_msg_number = 0;
  sent_msg = 0;
  sent_packet = [];
  sent_packet_code = 0;
  packet_sent = false;
  master_state = 252;
  time_since_connection = 0;
  relays = plain_relay false 0 ∷ plain_relay true 7 ∷ [];
  pir_pin = negsuc 0;
  current_sensor_pin = negsuc 0;
  temperature_sensor_pin = pos 13;
  ir_control_pin = negsuc 0;
  ir_control_group = pos 0;
  pir_state = false;
  ircontrol = record { code_length = 0; raw_code = replicate 220 0 };
  ir_code_length = 0;
  ir_receiving_length = 0;
  ir_code = replicate 220 0;
  temperature = pos 21;
  humidity = pos 40;
  current = 0;
  last_pir_detection = 0;
  memory = λ p. 0;
  pins = λ p. true;
  timers = ([], 0);
  sent = [];
}

abbrev known_node : Node (List Packet × ℕ) (List ℕ)
known_node = record {
  ip = 192 ∷ 168 ∷ 0 ∷ 211 ∷ [];
  state = 252;
  last_message_number = 0;
  pending_packets = ([], 15);
  time_since_sent = 0;
  pir_sensor_connected = true;
  temperature_sensor_connected = false;
  current_sensor_connected = false;
  ir_control_connected = false;
  ir_control_group = pos 0;
  relays = plain_relay true 1 ∷ plain_relay false 1 ∷ [];
}

abbrev some_group : Group
some_group = record {
  name = 97 ∷ [];
  is_on = true;
  is_connected = true;
  is_sleeping = false;
  ignore_pir = false;
  motion_detection_time = 20;
}

first_absent : false ≡ true → IsGroup (pos 0)
first_absent h = (0, omega arith, refl)

second-IsGroup : true ≡ true → IsGroup (pos 7)
second-IsGroup h = (7, omega arith, refl)

report_info-sensor_info_example :
    (r : Sent (List Packet × ℕ) (List ℕ)) × (report_info
        (list_fifo Packet)
        known_node
        (replicate 10 some_group)
        (packet_bytes 18 (sensor_info warm_slave) 9)
        (pos 0, pos 0)
      ≡ some r)
    × (r.0.pir_sensor_connected ≡ false)
    × (r.0.temperature_sensor_connected ≡ true)
    × (r.0.ir_control_connected ≡ false)
    × (t0 t1 : RelayInfo) × (r.0.relays ≡ t0 ∷ t1 ∷ [])
    × SameRelay (plain_relay false 0) t0
    × SameRelay (plain_relay true 7) t1
report_info-sensor_info_example =
    report_info-sensor_info (list_fifo Packet) warm_slave (plain_relay false 0) (plain_relay true 7)
      (plain_relay true 1) (plain_relay false 1) known_node (replicate 10 some_group) 9
      (pos 0, pos 0) refl first_absent second-IsGroup first_absent refl refl

-- A memory with the network name `a` and the password `b`.
abbrev named_memory : ℕ → ℕ
named_memory p = if p == 0 then 97 else if p == 32 then 98 else 0

abbrev usual_surroundings : Surroundings
usual_surroundings = record {
  wifi = λ n. true;
  arrivals = λ n. none;
  heap = replicate 64 0;
  pir_level = false;
  behind = 1000;
}

abbrev usual_wiring : Wiring
usual_wiring = record { pir = 4; temperature = 5; ir_send = 15 }

named_ssid : read_ssid map_eeprom named_memory ≡ some (97 ∷ [])
unfolding read_ssid read_text
named_ssid = refl

named_password : read_password map_eeprom named_memory ≡ some (98 ∷ [])
unfolding read_password read_text
named_password = refl

a-IsChar : All IsChar (97 ∷ [])
a-IsChar = ((omega arith, omega arith), tt)

b-IsChar : All IsChar (98 ∷ [])
b-IsChar = ((omega arith, omega arith), tt)

one_character : (0 < 1) × (1 < 32) × (1 < 64)
one_character = (omega arith, omega arith, omega arith)

whole_heap : 64 ≤ 64
whole_heap = omega arith

settings_arrive_example :
    (words : List ℤ) × (t : Slave (ℕ → ℕ) (ℕ → Bool) ListTimers) × (create_wifi_packet map_eeprom
        named_memory
      ≡ some words)
    × (take_wifi_settings map_eeprom map_gpio list_alarms usual_wiring usual_surroundings warm_slave
          (behind_code words 3)
        ≡ some (send_message list_alarms t 249 true))
    × (read_ssid map_eeprom t.memory ≡ some (97 ∷ []))
    × (read_password map_eeprom t.memory ≡ some (98 ∷ []))
settings_arrive_example =
    settings_arrive map_eeprom map_gpio list_alarms usual_wiring map_eeprom named_memory
      usual_surroundings warm_slave (97 ∷ []) (98 ∷ []) 3 named_ssid named_password a-IsChar
      b-IsChar one_character.0 one_character.0 one_character.1 one_character.2 whole_heap

abbrev short_code : List ℕ
short_code = 4440 ∷ 582 ∷ []

abbrev blank_control : IrControl
blank_control = record { code_length = 0; raw_code = replicate 220 0 }

-- The slave has been told that two values come.
abbrev told_slave : Slave (ℕ → ℕ) (ℕ → Bool) ListTimers
told_slave = record warm_slave { ir_receiving_length = 2 }

short_code-IsValue : All IsValue short_code
short_code-IsValue = ((omega arith, omega arith), ((omega arith, omega arith), tt))

two_values : 2 ≤ 220
two_values = omega arith

code_arrives_example :
    (packets : List (List ℤ)) × (t : Slave (ℕ → ℕ) (ℕ → Bool) ListTimers) × (code_packets 2
        short_code
      ≡ some packets)
    × (receive map_eeprom map_gpio list_alarms usual_wiring told_slave packets 5 ≡ some t)
    × (t.ir_code_length ≡ 0)
    × ((begin map_eeprom blank_control t.memory).code_length ≡ 2)
    × (take 2 (begin map_eeprom blank_control t.memory).raw_code ≡ short_code)
code_arrives_example =
    code_arrives map_eeprom map_gpio list_alarms usual_wiring 4440 (582 ∷ []) told_slave
      blank_control 5 refl refl refl refl refl short_code-IsValue two_values
