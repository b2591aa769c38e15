-- ===== src/Gpio.antt =====
-- What the program relies on of the pins of the board, whose code is not in the repository: a pin
-- keeps the level that was last written to it.
use spu_energy_efficient_sys.Common.{ℕ, ◌≡◌, refl, Bool, ◌==◌, if◌then◌else◌}

pub record Gpio : Type 1 where
  pub Pins : Type 0
  -- `digitalWrite`; `true` is HIGH.
  pub digital_write : Pins → ℕ → Bool → Pins
  pub level : Pins → ℕ → Bool
  pub level-digital_write :
      (s : Pins) (p : ℕ) (b : Bool) (q : ℕ)
      → level (digital_write s p b) q ≡ (if p == q then b else level s q)

-- A function from pins to levels meets this.
abbrev pub map_gpio : Gpio
map_gpio = record {
  Pins = ℕ → Bool;
  digital_write = λ s p b q. if p == q then b else s q;
  level = λ s p. s p;
  level-digital_write = λ s p b q. refl;
}
