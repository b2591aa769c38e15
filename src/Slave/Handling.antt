-- ===== src/Slave/Handling.antt =====
-- Slave/Slave.ino: what a slave does with the messages and packets of the master.
use spu_energy_efficient_sys.Common.{
  ℕ, ◌+◌, ◌*◌, true, false, ◌&&◌, Option, none, some, List, [], ◌∷◌, ◌++◌, pos, length, get_elem?,
  set, take, ltb, ◌==◌, ◌>>=◌, if◌then◌else◌,
}
use spu_energy_efficient_sys.Eeprom.{Eeprom}
use spu_energy_efficient_sys.Gpio.{Gpio}
use spu_energy_efficient_sys.Alarms.{Alarms}
use spu_energy_efficient_sys.Spu.{
  state_msg, received_msg, ip_msg, connect_pir_msg, disconnect_pir_msg, connect_temperature_msg,
  disconnect_temperature_msg, connect_ir_control_msg, disconnect_ir_control_msg, connect_relay_msg,
  disconnect_relay_msg, sensor_data_msg, sensor_info_msg, wifi_settings_msg, turn_on_group_msg,
  turn_off_group_msg, ir_code_msg, ir_length_msg, running_state, pending_response_state, ip_dir,
  max_ssid_length, max_passwd_length,
}
use spu_energy_efficient_sys.WifiSettings.{write_ssid, write_password}
use spu_energy_efficient_sys.IrControl.{store_code}
use spu_energy_efficient_sys.Slave.{Slave, wifi_disconnect, send_ack, send_message, stop_resending}
use spu_energy_efficient_sys.Slave.Sensors.{
  Wiring, init_pir, disconnect_pir, init_temperature_sensor, disconnect_temperature_sensor,
  write_sensors, connect_relay, disconnect_relay, connect_ir_control, disconnect_ir_control,
  turn_on_group, turn_off_group, send_sensor_info, send_sensor_data,
}
use spu_energy_efficient_sys.Slave.Connection.{
  Outcome, continues, fault, checked, Surroundings, init_connection,
}

-- The characters up to the next zero byte, and the bytes behind it.
unfoldable pub read_field : List ℕ → Option (List ℕ × List ℕ)
read_field [] = none
read_field (c ∷ cs) =
    let rest = read_field cs >>= λ (t, left). some (c ∷ t, left) in
    if c == 0 then some ([], cs) else rest

-- The loop of `storeIp`.
unfoldable pub write_ip : (e : Eeprom) → e.Store → ℕ → List ℕ → e.Store
write_ip e m p [] = m
write_ip e m p (b ∷ bs) = write_ip e (e.write m p b) (p + 1) bs

unfoldable pub store_ip : (e : Eeprom) → e.Store → List ℕ → e.Store
unfolding write_ip
store_ip e m ip = e.commit (write_ip e m ip_dir ip)

module _ (e : Eeprom) (g : Gpio) (a : Alarms) (w : Wiring) where
  abbrev Board : Type 0
  Board = Slave e.Store g.Pins a.Timers

  -- The `switch` of `handleMessage`.
  unfoldable pub answer : Surroundings → Board → ℕ → Option Board
  answer u s code =
      if code == state_msg
      then some (send_message a s running_state false)
      else if code == connect_pir_msg
      then some (send_ack (write_sensors e (init_pir w s u.pir_level)))
      else if code == disconnect_pir_msg
      then some (send_ack (write_sensors e (disconnect_pir s)))
      else if code == connect_temperature_msg
      then some (send_ack (write_sensors e (init_temperature_sensor w s)))
      else if code == disconnect_temperature_msg
      then some (send_ack (write_sensors e (disconnect_temperature_sensor s)))
      else if code == disconnect_ir_control_msg
      then some (send_ack (disconnect_ir_control e s))
      else if code == sensor_data_msg
      then send_sensor_data s
      else if code == sensor_info_msg
      then send_sensor_info a u.behind s
      else if code == received_msg
      then some s
      else some (send_ack s)

  unfoldable pub handle_message : Surroundings → Board → ℕ → Option Board
  unfolding answer stop_resending
  handle_message u s code =
      let pending = s.master_state == pending_response_state in
      let s' = if pending then stop_resending a s else s in
      if pending && code == received_msg then some s' else answer u s' code

  -- The case `WIFI_SETTINGS_MSG`; the two arrays have `MAX_SSID_LENGTH` and `MAX_PASSWD_LENGTH` bytes.
  unfoldable pub take_wifi_settings : Surroundings → Board → List ℕ → Option Board
  unfolding read_field
  take_wifi_settings u s rest = read_field rest >>= λ (ssid, left).
      read_field left >>= λ (passwd, _).
      if ltb (length ssid) max_ssid_length && ltb (length passwd) max_passwd_length
      then (write_ssid e s.memory (ssid ++ (0 ∷ u.heap)) >>= λ m1.
          write_password e m1 (passwd ++ (0 ∷ u.heap)) >>= λ m2.
          some (send_message a (record s { memory = m2 }) ip_msg true))
      else none

  -- The loop of the case `IR_CODE_MSG` over the bytes behind the code; it stops before the last,
  -- the number of the packet.
  unfoldable pub take_ir_values : Board → List ℕ → Option Board
  take_ir_values s [] = some s
  take_ir_values s (number ∷ []) = some s
  take_ir_values s (low ∷ high ∷ rest) =
      let s1 = record s {
        ir_code = set s.ir_code s.ir_code_length (low + 256 * high);
        ir_code_length = s.ir_code_length + 1;
      } in
      let more = take_ir_values s1 rest in
      if ltb s.ir_code_length (length s.ir_code)
      then (if s1.ir_code_length == s1.ir_receiving_length
          then (store_code e s1.ircontrol s1.memory (take s1.ir_code_length s1.ir_code)
              >>= λ (c, m). some (record s1 { ircontrol = c; memory = m; ir_code_length = 0 }))
          else more)
      else none

  -- The case `IP_MSG`.
  unfoldable pub take_ip : Surroundings → Board → List ℕ → Outcome Board
  unfolding store_ip
  take_ip u s ip =
      let s1 = stop_resending a s in
      init_connection e a u (record s1 {
        time_since_connection = 0;
        node_ip = ip;
        memory = store_ip e s1.memory ip;
        sent = s1.sent ++ (wifi_disconnect ∷ []);
      })

  -- The `switch` of `handleData`; `rest` is the packet behind its code.
  unfoldable pub obey : Surroundings → Board → ℕ → List ℕ → Outcome Board
  unfolding take_ip take_wifi_settings take_ir_values
  obey u s code rest =
      let s1 = send_ack s in
      if code == ip_msg
      then (checked (get_elem? rest 3) λ _. take_ip u s1 (take 4 rest))
      else if code == wifi_settings_msg
      then checked (take_wifi_settings u s1 rest) continues
      else if code == turn_on_group_msg
      then (checked (get_elem? rest 0) λ group. continues (turn_on_group g s1 (pos group)))
      else if code == turn_off_group_msg
      then (checked (get_elem? rest 0) λ group. continues (turn_off_group g s1 (pos group)))
      else if code == connect_relay_msg
      then (checked (get_elem? rest 0) λ relay.
          checked (get_elem? rest 1)
            λ group. checked (connect_relay e s1 relay (pos group)) continues)
      else if code == disconnect_relay_msg
      then (checked (get_elem? rest 0) λ relay. checked (disconnect_relay e g s1 relay) continues)
      else if code == connect_ir_control_msg
      then (checked (get_elem? rest 0) λ group. continues (connect_ir_control e w s1 (pos group)))
      else if code == ir_length_msg
      then (checked (get_elem? rest 0) λ low. checked (get_elem? rest 1) λ high.
          continues (record s1 { ir_receiving_length = low + 256 * high; ir_code_length = 0 }))
      else if code == ir_code_msg
      then checked (take_ir_values s1 rest) continues
      else continues s1

  unfoldable pub handle_data : Surroundings → Board → List ℕ → Outcome Board
  unfolding obey stop_resending
  handle_data u s [] = fault
  handle_data u s (code ∷ rest) =
      let pending = s.master_state == pending_response_state in
      let s' = if pending then stop_resending a s else s in
      if pending && code == received_msg then continues s' else obey u s' code rest

  -- `handlePacket`, with the bytes that `udp.read` gives.
  unfoldable pub handle_packet : Surroundings → Board → List ℕ → Outcome Board
  unfolding handle_message handle_data
  handle_packet u s bytes =
      let s' = record s { time_since_connection = 0 } in
      if length bytes == 2
      then (checked (get_elem? bytes 0) λ code. checked (get_elem? bytes 1) λ number.
          checked (handle_message u s' code)
            λ t. continues (record t { received_msg_number = number }))
      else handle_data u s' bytes
