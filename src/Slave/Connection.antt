-- ===== src/Slave/Connection.antt =====
-- Slave/Slave.ino: the connection to the network and to the master. What the sketch polls is an
-- argument (`Surroundings`). A wait that gives up resets the processor, which ends the run
-- (`restarts`); `fault` is an access out of bounds. The status light and the button that clears the
-- EEPROM are left out of the waits, and so are `WiFi.reconnect` and the other timers, which
-- `Alarm.delay` lets run.
use spu_energy_efficient_sys.Common.{
  ℕ, zero, suc, ◌+◌, ◌*◌, Bool, true, false, not, Option, none, some, List, [], ◌∷◌, ◌++◌, ◌==◌,
  leb, if◌then◌else◌,
}
use spu_energy_efficient_sys.Eeprom.{Eeprom}
use spu_energy_efficient_sys.Alarms.{Alarms}
use spu_energy_efficient_sys.Spu.{
  alarm_not_set, received_msg, connection_msg, wifi_settings_msg, running_state, ip_dir,
  state_check_time,
}
use spu_energy_efficient_sys.WifiSettings.{read_ssid, read_password}
use spu_energy_efficient_sys.Slave.{Slave, wifi_connect, wifi_disconnect, restart, send_message}
use spu_energy_efficient_sys.Slave.Sensors.{send_sensor_info}

-- How a function of the sketch ends.
pub data Outcome (S : Type 0) : Type 0 where
  continues : S → Outcome S
  restarts : S → Outcome S
  fault : Outcome S

abbrev pub and_then : {S : Type 0} → Outcome S → (S → Outcome S) → Outcome S
and_then (continues s) f = f s
and_then (restarts s) f = restarts s
and_then fault f = fault

abbrev pub checked : {A S : Type 0} → Option A → (A → Outcome S) → Outcome S
checked none f = fault
checked (some x) f = f x

-- What happens around the slave while it waits: whether the network is there at the n-th poll of a
-- wait, and the packet that has come by then; what stands in memory that `malloc` gives; the level
-- of the PIR's pin; how many words of the stack behind the array of `sendSensorInfo` can be read.
pub record Surroundings : Type 0 where
  pub wifi : ℕ → Bool
  pub arrivals : ℕ → Option (List ℕ)
  pub heap : List ℕ
  pub pir_level : Bool
  pub behind : ℕ

-- The waits on the network, for at most `k` more polls from the `i`-th on.
unfoldable pub wifi_comes : (ℕ → Bool) → ℕ → ℕ → Bool
wifi_comes wifi i zero = false
wifi_comes wifi i (suc k) = let rest = wifi_comes wifi (i + 1) k in if wifi i then true else rest

unfoldable pub stored_ip : (e : Eeprom) → e.Store → List ℕ
stored_ip e m =
    e.read m ip_dir ∷ e.read m (ip_dir + 1) ∷ e.read m (ip_dir + 2) ∷ e.read m (ip_dir + 3) ∷ []

-- `ESP.reset`
abbrev pub reset : {Store Pins Timers : Type 0} → Slave Store Pins Timers → Slave Store Pins Timers
reset s = record s { sent = s.sent ++ (restart ∷ []) }

module _ (e : Eeprom) (a : Alarms) {Pins : Type 0} where
  open e use {Store, read}
  open a use {Timers, free}

  -- The first `parsePacket` that finds a packet, of ten; the message is sent again after the fifth
  -- that finds none.
  unfoldable pub await_master :
      Surroundings → Slave Store Pins Timers → ℕ → ℕ → Outcome (Slave Store Pins Timers)
  await_master u s i zero = restarts (reset s)
  await_master u s i (suc k) = elim (u.arrivals i) [
    | some [] ↦ fault
    | some (message ∷ _) ↦
        continues (if message == received_msg then record s { master_state = running_state } else s)
    | none ↦
        await_master u (if i + 1 == 5 then send_message a s connection_msg true else s) (i + 1) k
  ]

  unfoldable pub connect_to_master :
      Surroundings → Slave Store Pins Timers → Outcome (Slave Store Pins Timers)
  unfolding await_master
  connect_to_master u s = await_master u (send_message a s connection_msg true) 0 10

  -- `connectWifi`; the address is empty where the network assigns it.
  unfoldable pub connect_wifi :
      Surroundings → Slave Store Pins Timers → List ℕ → Bool → Outcome (Slave Store Pins Timers)
  unfolding wifi_comes
  connect_wifi u s ip paired =
      let s1 = record s { resend_alarm = alarm_not_set; timers = free s.timers s.resend_alarm } in
      checked (read_ssid e s1.memory) λ ssid. checked (read_password e s1.memory) λ passwd.
        let s2 = record s1 { sent = s1.sent ++ (wifi_connect ip ssid passwd paired ∷ []) } in
        if wifi_comes u.wifi 0 30 then continues s2 else restarts (reset s2)

  unfoldable pub init_connection :
      Surroundings → Slave Store Pins Timers → Outcome (Slave Store Pins Timers)
  unfolding stored_ip connect_wifi connect_to_master
  init_connection u s =
      let s' = record s { node_ip = stored_ip e s.memory } in
      if not (read s.memory ip_dir == 0)
      then (and_then (connect_wifi u s' (stored_ip e s.memory) true) λ s1.
          and_then (connect_to_master u s1)
            λ s2. checked (send_sensor_info a u.behind s2) continues)
      else and_then (connect_wifi u s' [] false) λ s1.
        and_then (connect_to_master u s1) λ s2. continues (send_message a s2 wifi_settings_msg true)

  -- `checkMasterStatus`, which runs every `STATE_CHECK_TIME` seconds.
  unfoldable pub check_master_status :
      Surroundings → Slave Store Pins Timers → Outcome (Slave Store Pins Timers)
  unfolding stored_ip connect_wifi connect_to_master
  check_master_status u s =
      and_then
        (if leb (state_check_time * 2) s.time_since_connection
          then (and_then
              (connect_wifi u (record s { sent = s.sent ++ (wifi_disconnect ∷ []) })
                (stored_ip e s.memory) true)
              λ s1. and_then (connect_to_master u s1) λ s2.
                checked (send_sensor_info a u.behind s2)
                  λ t. continues (record t { time_since_connection = 0 }))
          else continues s)
        λ s3.
          continues
            (record s3 { time_since_connection = s3.time_since_connection + state_check_time })

  -- `checkConnection`, which runs in every round of `loop`.
  unfoldable pub check_connection :
      Surroundings → Slave Store Pins Timers → Bool → Outcome (Slave Store Pins Timers)
  unfolding wifi_comes connect_to_master
  check_connection u s connected =
      if not connected
      then (if wifi_comes u.wifi 0 20
          then (and_then (connect_to_master u s)
              λ s1. checked (send_sensor_info a u.behind s1) continues)
          else restarts (reset s))
      else continues s
