-- ===== src/Spu.antt =====
-- The codes, sizes and EEPROM addresses of libraries/SPU/SPU.h, shared by master and slave.
use spu_energy_efficient_sys.Common.{ℕ, ◌+◌, ◌-◌, ◌*◌, ℤ, negsuc, List, [], ◌∷◌}

abbrev pub state_msg : ℕ
state_msg = 0

abbrev pub received_msg : ℕ
received_msg = 255

abbrev pub connection_msg : ℕ
connection_msg = 254

abbrev pub ip_msg : ℕ
ip_msg = 249

abbrev pub motion_detected_msg : ℕ
motion_detected_msg = 2

abbrev pub motion_ended_msg : ℕ
motion_ended_msg = 3

abbrev pub connect_pir_msg : ℕ
connect_pir_msg = 7

abbrev pub disconnect_pir_msg : ℕ
disconnect_pir_msg = 8

abbrev pub connect_current_msg : ℕ
connect_current_msg = 9

abbrev pub disconnect_current_msg : ℕ
disconnect_current_msg = 10

abbrev pub connect_temperature_msg : ℕ
connect_temperature_msg = 11

abbrev pub disconnect_temperature_msg : ℕ
disconnect_temperature_msg = 12

abbrev pub connect_ir_control_msg : ℕ
connect_ir_control_msg = 22

abbrev pub disconnect_ir_control_msg : ℕ
disconnect_ir_control_msg = 23

abbrev pub connect_relay_msg : ℕ
connect_relay_msg = 14

abbrev pub disconnect_relay_msg : ℕ
disconnect_relay_msg = 15

abbrev pub sensor_data_msg : ℕ
sensor_data_msg = 13

abbrev pub sensor_info_msg : ℕ
sensor_info_msg = 18

abbrev pub wifi_settings_msg : ℕ
wifi_settings_msg = 19

abbrev pub turn_on_group_msg : ℕ
turn_on_group_msg = 20

abbrev pub turn_off_group_msg : ℕ
turn_off_group_msg = 21

abbrev pub ir_code_msg : ℕ
ir_code_msg = 24

abbrev pub ir_length_msg : ℕ
ir_length_msg = 25

abbrev pub pending_state : ℕ
pending_state = 253

abbrev pub running_state : ℕ
running_state = 252

abbrev pub error_state : ℕ
error_state = 251

abbrev pub pending_response_state : ℕ
pending_response_state = 250

abbrev pub max_packet_size : ℕ
max_packet_size = 100

abbrev pub alarm_not_set : ℤ
alarm_not_set = negsuc 0

abbrev pub disconnected : ℤ
disconnected = negsuc 0

abbrev pub state_check_time : ℕ
state_check_time = 15

abbrev pub memory_size : ℕ
memory_size = 4096

abbrev pub max_master_relay_amount : ℕ
max_master_relay_amount = 2

abbrev pub max_slave_relay_amount : ℕ
max_slave_relay_amount = 2

abbrev pub group_name_length : ℕ
group_name_length = 15

abbrev pub motion_det_time_length : ℕ
motion_det_time_length = 2

abbrev pub ir_code_length : ℕ
ir_code_length = 220

abbrev pub ir_value_length : ℕ
ir_value_length = 2

abbrev pub ir_code_dir : ℕ
ir_code_dir = memory_size - (ir_code_length * ir_value_length)

abbrev pub max_ip_amount : ℕ
max_ip_amount = 20

abbrev pub max_ssid_length : ℕ
max_ssid_length = 32

abbrev pub max_passwd_length : ℕ
max_passwd_length = 64

abbrev pub min_passwd_length : ℕ
min_passwd_length = 8

abbrev pub sensor_info_length : ℕ
sensor_info_length = 1

abbrev pub group_info_length : ℕ
group_info_length = group_name_length + motion_det_time_length + 1

abbrev pub group_amount : ℕ
group_amount = 10

abbrev pub name_length : ℕ
name_length = 10

abbrev pub pir_time_length : ℕ
pir_time_length = 4

abbrev pub ext_ip_length : ℕ
ext_ip_length = 4

abbrev pub ssid_dir : ℕ
ssid_dir = 0

abbrev pub passwd_dir : ℕ
passwd_dir = ssid_dir + max_ssid_length

abbrev pub slave_ip_dir : ℕ
slave_ip_dir = passwd_dir + max_passwd_length

abbrev pub sensor_info_dir : ℕ
sensor_info_dir = slave_ip_dir + max_ip_amount

abbrev pub pir_time_dir : ℕ
pir_time_dir = sensor_info_dir + sensor_info_length

abbrev pub name_dir : ℕ
name_dir = pir_time_dir + pir_time_length

abbrev pub ext_ssid_dir : ℕ
ext_ssid_dir = name_dir + name_length

abbrev pub ext_passwd_dir : ℕ
ext_passwd_dir = ext_ssid_dir + max_ssid_length

abbrev pub ext_ip_dir : ℕ
ext_ip_dir = ext_passwd_dir + max_passwd_length

abbrev pub relay_mode_dir : ℕ
relay_mode_dir = ext_ip_dir + ext_ip_length

abbrev pub group_info_dir : ℕ
group_info_dir = relay_mode_dir + max_master_relay_amount

abbrev pub alarms_dir : ℕ
alarms_dir = group_info_dir + group_info_length * group_amount

abbrev pub delimiter : ℕ
delimiter = 0

abbrev pub ip_dir : ℕ
ip_dir = passwd_dir + max_passwd_length

abbrev pub sensor_dir : ℕ
sensor_dir = ip_dir + 4

abbrev pub relay_group_dir : ℕ
relay_group_dir = sensor_dir + 1

abbrev pub ir_control_group_dir : ℕ
ir_control_group_dir = relay_group_dir + max_slave_relay_amount

abbrev pub pir_dir : ℕ
pir_dir = 0

abbrev pub temp_dir : ℕ
temp_dir = 1

abbrev pub ir_dir : ℕ
ir_dir = 2

abbrev pub relay_dir : ℕ
relay_dir = 3

abbrev pub default_port : ℕ
default_port = 4000

abbrev pub default_ext_port : ℕ
default_ext_port = 8081

abbrev pub default_motion_det_time : ℕ
default_motion_det_time = 20

-- `DEFAULT_SSID` and `DEFAULT_PASSWD`, as character codes.
abbrev pub default_ssid : List ℕ
default_ssid = 110 ∷ 111 ∷ 100 ∷ 101 ∷ 49 ∷ []

abbrev pub default_passwd : List ℕ
default_passwd = 49 ∷ 50 ∷ 51 ∷ 52 ∷ 53 ∷ 54 ∷ 55 ∷ 56 ∷ []
