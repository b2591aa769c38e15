-- ===== src/WifiSettings/Tests.antt =====
-- The network settings on concrete values.
use spu_energy_efficient_sys.Common.{
  ℕ, ◌≡◌, some, List, [], ◌∷◌, ◌++◌, All, replicate, arith, ◌<◌, ◌≤◌,
}
use spu_energy_efficient_sys.Eeprom.{map_eeprom}
use spu_energy_efficient_sys.WifiSettings.{write_ssid, write_password, read_ssid, read_password}
use spu_energy_efficient_sys.WifiSettings.Texts.{IsChar, read-write_settings}

abbrev name_text : List ℕ
name_text = 110 ∷ 111 ∷ []

abbrev word_text : List ℕ
word_text = 49 ∷ []

name_text-IsChar : All IsChar name_text
name_text-IsChar = ((omega arith, omega arith), ((omega arith, omega arith), tt))

word_text-IsChar : All IsChar word_text
word_text-IsChar = ((omega arith, omega arith), tt)

one_two : (0 < 1) × (0 < 2)
one_two = (omega arith, omega arith)

room : (2 < 32) × (1 < 64)
room = (omega arith, omega arith)

enough : 64 ≤ 64
enough = omega arith

read-write_settings_example :
    (m1 m2 : ℕ → ℕ) × (write_ssid map_eeprom (λ p. 7) (name_text ++ (0 ∷ replicate 64 7)) ≡ some m1)
    × (write_password map_eeprom m1 (word_text ++ (0 ∷ replicate 64 7)) ≡ some m2)
    × (read_ssid map_eeprom m2 ≡ some name_text)
    × (read_password map_eeprom m2 ≡ some word_text)
read-write_settings_example =
    read-write_settings map_eeprom (λ p. 7) name_text word_text (replicate 64 7) name_text-IsChar
      word_text-IsChar one_two.1 one_two.0 room.0 room.1 enough
