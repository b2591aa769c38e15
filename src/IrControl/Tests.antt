-- ===== src/IrControl/Tests.antt =====
-- The infrared code on concrete values.
use spu_energy_efficient_sys.Common.{
  ℕ, ◌≡◌, ◌≤◌, refl, some, List, [], ◌∷◌, All, replicate, take, arith, ◌==◌, if◌then◌else◌,
}
use spu_energy_efficient_sys.Eeprom.{map_eeprom}
use spu_energy_efficient_sys.IrControl.{IrControl, store_code, load_values, begin}
use spu_energy_efficient_sys.IrControl.Restoring.{IsValue, begin-store_code}

abbrev blank_control : IrControl
blank_control = record { code_length = 3; raw_code = replicate 220 0 }

abbrev short_code : List ℕ
short_code = 4440 ∷ 4348 ∷ 582 ∷ []

short_code-IsValue : All IsValue short_code
short_code-IsValue =
    ((omega arith, omega arith), ((omega arith, omega arith), ((omega arith, omega arith), tt)))

three_values : 3 ≤ 220
three_values = omega arith

begin-store_code_example :
    (c' : IrControl) × (s' : ℕ → ℕ) × (store_code map_eeprom blank_control (λ p. 7) short_code
      ≡ some (c', s'))
    × (take 3 c'.raw_code ≡ short_code)
    × ((begin map_eeprom blank_control s').code_length ≡ 3)
    × (take 3 (begin map_eeprom blank_control s').raw_code ≡ short_code)
begin-store_code_example =
    begin-store_code map_eeprom blank_control blank_control (λ p. 7) short_code refl refl
      short_code-IsValue three_values

-- A memory with the value 512, whose low byte is zero: the code that starts with it is empty.
abbrev zero_byte : ℕ → ℕ
zero_byte p = if p == 3657 then 2 else 0

low_byte_zero : (begin map_eeprom blank_control zero_byte).code_length ≡ 0
unfolding begin load_values
low_byte_zero = refl
