-- ===== src/Protocol/NetworkSettings.antt =====
-- The network settings that the master sends with `createWifiPacket` and a slave takes in the case
-- `WIFI_SETTINGS_MSG`.
use spu_energy_efficient_sys.Common.{
  ℕ, zero, suc, ◌≤◌, ◌<◌, ◌≡◌, refl, ap, ◌∙◌, true, false, some, List, [], ◌∷◌, ◌++◌, map, All, ℤ,
  pos, to_byte, to_byte-pos, length, ◌==◌, if◌then◌else◌, arith, append_assoc, lt→ltb, map-append,
}
use spu_energy_efficient_sys.Eeprom.{Eeprom}
use spu_energy_efficient_sys.Gpio.{Gpio}
use spu_energy_efficient_sys.Alarms.{Alarms}
use spu_energy_efficient_sys.Spu.{max_ssid_length, max_passwd_length, ip_msg}
use spu_energy_efficient_sys.WifiSettings.{write_ssid, write_password, read_ssid, read_password}
use spu_energy_efficient_sys.WifiSettings.Texts.{IsChar, read-write_settings}
use spu_energy_efficient_sys.Slave.{Slave, send_message}
use spu_energy_efficient_sys.Slave.Sensors.{Wiring}
use spu_energy_efficient_sys.Slave.Connection.{Surroundings}
use spu_energy_efficient_sys.Slave.Handling.{read_field, take_wifi_settings}
use spu_energy_efficient_sys.Master.Settings.{copy_text, create_wifi_packet}
use spu_energy_efficient_sys.Protocol.{behind_code}

-- The bytes of a text in the packet, with its terminator, and what stands behind them.
copy_text_lem :
    (cs : List ℕ) (k : ℕ) (behind : List ℕ)
    → All IsChar cs
    → length cs < k
    → map to_byte (copy_text k cs) ++ behind ≡ cs ++ (0 ∷ behind)
unfolding copy_text to_byte
copy_text_lem cs zero behind h few = absurd (omega (arith, few))
copy_text_lem [] (suc k) behind h few = refl
copy_text_lem (c ∷ cs) (suc k) behind h few =
    let more : (c == 0) ≡ false = ground (arith, h.0) in
    ap (λ t. map to_byte (if t then pos 0 ∷ [] else pos c ∷ copy_text k cs) ++ behind) more
    ∙ ap (λ b. b ∷ (map to_byte (copy_text k cs) ++ behind)) (to_byte-pos c (omega (arith, h.0)))
    ∙ ap (λ bs. c ∷ bs) (copy_text_lem cs k behind h.1 (omega (arith, few)))

-- The slave finds the text again.
read_field_lem :
    (cs : List ℕ) (behind : List ℕ)
    → All IsChar cs
    → read_field (cs ++ (0 ∷ behind)) ≡ some (cs, behind)
unfolding read_field
read_field_lem [] behind h = refl
read_field_lem (c ∷ cs) behind h =
    let more : (c == 0) ≡ false = ground (arith, h.0) in
    rw (more, read_field_lem cs behind h.1) refl

packet_bytes :
    (ssid passwd : List ℕ) (number : ℕ)
    → All IsChar ssid
    → All IsChar passwd
    → length ssid < max_ssid_length
    → length passwd < max_passwd_length
    → behind_code (copy_text max_ssid_length ssid ++ copy_text max_passwd_length passwd) number
      ≡ ssid ++ (0 ∷ (passwd ++ (0 ∷ to_byte (pos number) ∷ [])))
packet_bytes ssid passwd number hs hp ls lp =
    let a = copy_text max_ssid_length ssid in
    let b = copy_text max_passwd_length passwd in
    let last = to_byte (pos number) ∷ [] in
    ap (λ l. l ++ last) (map-append to_byte a b)
    ∙ append_assoc (map to_byte a) (map to_byte b) last
    ∙ ap (λ l. map to_byte a ++ l) (copy_text_lem passwd max_passwd_length last hp lp)
    ∙ copy_text_lem ssid max_ssid_length _ hs ls

module _ (e : Eeprom) (g : Gpio) (a : Alarms) (w : Wiring) where
  -- What the slave does with such bytes.
  take_wifi_settings_lem :
      (u : Surroundings) (s : Slave e.Store g.Pins a.Timers) (ssid passwd left : List ℕ)
      (m1 m2 : e.Store)
      → All IsChar ssid
      → All IsChar passwd
      → length ssid < max_ssid_length
      → length passwd < max_passwd_length
      → write_ssid e s.memory (ssid ++ (0 ∷ u.heap)) ≡ some m1
      → write_password e m1 (passwd ++ (0 ∷ u.heap)) ≡ some m2
      → take_wifi_settings e g a w u s (ssid ++ (0 ∷ (passwd ++ (0 ∷ left))))
        ≡ some (send_message a (record s { memory = m2 }) ip_msg true)
  unfolding take_wifi_settings
  take_wifi_settings_lem u s ssid passwd left m1 m2 hs hp ls lp w1 w2 =
      let rest = passwd ++ (0 ∷ left) in
      let first = read_field_lem ssid rest hs in
      let second = read_field_lem passwd left hp in
      let t1 = lt→ltb (length ssid) max_ssid_length ls in
      let t2 = lt→ltb (length passwd) max_passwd_length lp in
      rw (first, second, t1, t2, w1, w2) refl

  -- The master has a network name and a password in its memory, neither empty, both of which leave
  -- room for their terminators. It can make the packet; a slave that gets it can store both, asks for
  -- an address, and from then on reads the same name and password from its memory. (The characters
  -- are bytes other than zero. The slave writes whole fields, with what stands in its memory behind
  -- the terminators: 64 bytes of that are there.)
  pub settings_arrive :
      (e' : Eeprom) (m : e'.Store) (u : Surroundings) (s : Slave e.Store g.Pins a.Timers)
      (ssid passwd : List ℕ) (number : ℕ)
      → read_ssid e' m ≡ some ssid
      → read_password e' m ≡ some passwd
      → All IsChar ssid
      → All IsChar passwd
      → 0 < length ssid
      → 0 < length passwd
      → length ssid < max_ssid_length
      → length passwd < max_passwd_length
      → max_passwd_length ≤ length u.heap
      → (words : List ℤ) × (t : Slave e.Store g.Pins a.Timers) × (create_wifi_packet e' m
          ≡ some words)
        × (take_wifi_settings e g a w u s (behind_code words number)
            ≡ some (send_message a t ip_msg true))
        × (read_ssid e t.memory ≡ some ssid)
        × (read_password e t.memory ≡ some passwd)
  unfolding create_wifi_packet
  settings_arrive e' m u s ssid passwd number r1 r2 hs hp s0 p0 ls lp enough =
      let (m1, m2, w1, w2, read1, read2) =
        read-write_settings e s.memory ssid passwd u.heap hs hp s0 p0 ls lp enough in
      (
        copy_text max_ssid_length ssid ++ copy_text max_passwd_length passwd,
        record s { memory = m2 },
        rw (r1, r2) refl,
        ap (take_wifi_settings e g a w u s) (packet_bytes ssid passwd number hs hp ls lp)
            ∙ take_wifi_settings_lem u s ssid passwd _ m1 m2 hs hp ls lp w1 w2,
        read1,
        read2,
      )
