-- ===== src/Master/Settings.antt =====
-- Master/Master.ino: what the master keeps in its memory of the groups (storeRelayGroupSettings,
-- initRelayGroups), of its own sensors and relays (storeSensorInfo, initMasterSensors), and the packet
-- in which it hands the network settings on.
use spu_energy_efficient_sys.Common.{
  ℕ, zero, suc, ◌+◌, ◌*◌, ◌/◌, ◌%◌, true, false, not, Option, some, List, [], ◌∷◌, ◌++◌, ℤ, pos,
  to_byte, get_or, ◌==◌, ◌>>=◌, if◌then◌else◌,
}
use spu_energy_efficient_sys.Eeprom.{Eeprom}
use spu_energy_efficient_sys.Fifo.{Fifo}
use spu_energy_efficient_sys.Spu.{
  group_info_dir, group_info_length, group_name_length, sensor_info_dir, pir_time_dir,
  relay_mode_dir, pir_dir, temp_dir, max_ssid_length, max_passwd_length, wifi_settings_msg,
}
use spu_energy_efficient_sys.SensorByte.{pack, unpack}
use spu_energy_efficient_sys.WifiSettings.{read_ssid, read_password}
use spu_energy_efficient_sys.Node.{RelayInfo, Packet}
use spu_energy_efficient_sys.Master.{Master, Group, PirInfo, send_global_packet}

-- `packet[pos++] = text[i]` for at most `k` characters, the terminator included; a text is what
-- stands in memory behind its pointer.
unfoldable pub copy_text : ℕ → List ℕ → List ℤ
copy_text zero text = []
copy_text (suc k) [] = pos 0 ∷ []
copy_text (suc k) (c ∷ cs) =
    let rest = copy_text k cs in if c == 0 then pos 0 ∷ [] else pos c ∷ rest

module _ (e : Eeprom) where
  open e use {Store, read, write, commit}

  -- `for(j = 0; j < k; j++) EEPROM.write(p + j, name[j])`. Behind its end a `String` reads as 0.
  unfoldable pub write_name : Store → ℕ → ℕ → List ℕ → Store
  write_name s p zero name = s
  write_name s p (suc k) [] = write_name (write s p 0) (p + 1) k []
  write_name s p (suc k) (c ∷ cs) = write_name (write s p c) (p + 1) k cs

  -- The bytes of the group with the index `i`.
  abbrev pub group_dir : ℕ → ℕ
  group_dir i = group_info_dir + group_info_length * i

  unfoldable pub store_group : Store → ℕ → Group → Store
  unfolding write_name
  store_group s i x =
      if x.is_connected
      then (let p = group_dir i in
          let s1 = write_name s p group_name_length x.name in
          let s2 = write s1 (p + group_name_length) (if x.ignore_pir then 1 else 0) in
          let t = x.motion_detection_time % 65536 in
          write (write s2 (p + group_name_length + 1) (t % 256)) (p + group_name_length + 2)
            (t / 256))
      else write_name s (group_dir i) group_info_length []

  unfoldable pub store_groups : Store → ℕ → List Group → Store
  unfolding store_group
  store_groups s i [] = s
  store_groups s i (x ∷ xs) = store_groups (store_group s i x) (i + 1) xs

  unfoldable pub store_relay_group_settings : Store → List Group → Store
  unfolding store_groups
  store_relay_group_settings s groups = commit (store_groups s 0 groups)

  -- The characters from `p` on, at most `k`, up to a zero byte.
  unfoldable pub read_name : Store → ℕ → ℕ → List ℕ
  read_name s p zero = []
  read_name s p (suc k) =
      let rest = read_name s (p + 1) k in if read s p == 0 then [] else read s p ∷ rest

  -- The body of the loop of `initRelayGroups`, on a group as it is at the start. The two bytes of the
  -- time replace the lower half of the `int`.
  unfoldable pub init_group : Store → ℕ → Group → Group
  unfolding read_name
  init_group s i x =
      let p = group_dir i in
      let name = read_name s p group_name_length in
      let ignore = read s (p + group_name_length) == 1 in
      let time = read s (p + group_name_length + 1) + 256 * read s (p + group_name_length + 2) in
      if read s p == 0 then x else record x {
        is_connected = true;
        name = x.name ++ name;
        ignore_pir = ignore;
        motion_detection_time =
            if ignore
            then x.motion_detection_time
            else time + x.motion_detection_time / 65536 * 65536;
      }

  unfoldable pub init_relay_groups : Store → ℕ → List Group → List Group
  unfolding init_group
  init_relay_groups s i [] = []
  init_relay_groups s i (x ∷ xs) = init_group s i x ∷ init_relay_groups s (i + 1) xs

  -- The loops over the relays of the master.
  unfoldable pub store_modes : Store → ℕ → List RelayInfo → Store
  store_modes s i [] = s
  store_modes s i (r ∷ rs) =
      store_modes (write s (relay_mode_dir + i) (if r.connected then to_byte r.group else 255))
        (i + 1) rs

  unfoldable pub init_modes : Store → ℕ → List RelayInfo → List RelayInfo
  init_modes s i [] = []
  init_modes s i (r ∷ rs) =
      let group = read s (relay_mode_dir + i) in
      (if not (group == 255)
        then record r { connected = true; is_on = false; group = pos group }
        else record r { connected = false })
      ∷ init_modes s (i + 1) rs

  -- The four bytes of the inactivity time.
  unfoldable pub store_time : Store → ℕ → Store
  store_time s t =
      let s1 = write s pir_time_dir (t % 256) in
      let s2 = write s1 (pir_time_dir + 1) (t / 256 % 256) in
      let s3 = write s2 (pir_time_dir + 2) (t / 65536 % 256) in
      write s3 (pir_time_dir + 3) (t / 16777216 % 256)

  unfoldable pub read_time : Store → ℕ
  read_time s =
      read s pir_time_dir
      + 256 * read s (pir_time_dir + 1)
      + 65536 * read s (pir_time_dir + 2)
      + 16777216 * read s (pir_time_dir + 3)

  module _ {Queue Pins Timers : Type 0} where
    unfoldable pub store_sensor_info :
        Master Queue Store Pins Timers → Master Queue Store Pins Timers
    unfolding store_time store_modes
    store_sensor_info m =
        let b =
          m.pir.is_connected ∷ m.dht_connected ∷ false ∷ false ∷ false ∷ false ∷ false ∷ false
          ∷ [] in
        let s1 = write m.memory sensor_info_dir (pack b) in
        record m { memory = commit (store_modes (store_time s1 m.pir.inactivity_time) 0 m.relays) }

    -- What `initMasterSensors` reads, without the set-up of the pins and the timer of the sensor.
    unfoldable pub init_master_sensors :
        Master Queue Store Pins Timers → Master Queue Store Pins Timers
    unfolding read_time init_modes
    init_master_sensors m =
        let b = unpack (read m.memory sensor_info_dir) in
        let p0 = record m.pir { is_connected = false } in
        let p1 : PirInfo =
          if get_or b pir_dir false
          then record p0 { is_connected = true; is_on = false; motion_detected = false }
          else p0 in
        record m {
          pir = record p1 { inactivity_time = read_time m.memory };
          dht_connected = get_or b temp_dir false;
          relays = init_modes m.memory 0 m.relays;
        }

  -- `createWifiPacket`
  unfoldable pub create_wifi_packet : Store → Option (List ℤ)
  unfolding copy_text
  create_wifi_packet s = read_ssid e s >>= λ ssid. read_password e s >>= λ passwd.
      some (copy_text max_ssid_length ssid ++ copy_text max_passwd_length passwd)

  unfoldable pub send_wifi_settings :
      (f : Fifo Packet) {Pins Timers : Type 0}
      → Master f.Queue Store Pins Timers
      → Option (Master f.Queue Store Pins Timers)
  unfolding create_wifi_packet
  send_wifi_settings f m =
      create_wifi_packet m.memory >>= λ packet. send_global_packet f m wifi_settings_msg packet
