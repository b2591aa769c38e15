-- ===== src/LedIndicator/Lights.antt =====
-- What writing to the two pins of the indicator shows.
use spu_energy_efficient_sys.Common.{
  ℕ, ◌≡◌, ◌≢◌, refl, sym, Bool, true, false, not, ◌∙◌, ◌==◌, if◌then◌else◌, arith,
}
use spu_energy_efficient_sys.Gpio.{Gpio}
use spu_energy_efficient_sys.LedIndicator.Modes.{
  Light, dark, red, green, blinking, alternating, light, next, is_red, is_green,
}

module _ (g : Gpio) where
  open g use {Pins, level, digital_write, level-digital_write}

  -- The pins show a light and nothing else.
  abbrev pub Shows : Pins → ℕ → ℕ → Light → Type 0
  Shows s red_pin green_pin x = (level s red_pin ≡ is_red x) × (level s green_pin ≡ is_green x)

  test_self : (p : ℕ) → (p == p) ≡ true
  test_self p = ground arith

  test_ne : (p q : ℕ) → p ≢ q → (p == q) ≡ false
  test_ne p q h = ground arith

  module _ (red_pin green_pin : ℕ) (h : red_pin ≢ green_pin) where
    pub written_red :
        (s : Pins) (a : Bool)
        → (level (digital_write s red_pin a) red_pin ≡ a)
          × (level (digital_write s red_pin a) green_pin ≡ level s green_pin)
    written_red s a = (
      rw (level-digital_write s red_pin a red_pin, test_self red_pin) refl,
      rw (level-digital_write s red_pin a green_pin, test_ne red_pin green_pin h) refl,
    )

    pub written_green :
        (s : Pins) (a : Bool)
        → (level (digital_write s green_pin a) green_pin ≡ a)
          × (level (digital_write s green_pin a) red_pin ≡ level s red_pin)
    written_green s a = (
      rw (level-digital_write s green_pin a green_pin, test_self green_pin) refl,
      rw (level-digital_write s green_pin a red_pin, test_ne green_pin red_pin (λ e. h (sym e)))
          refl,
    )

    -- The pins after `show`, and after the two writes the other way round.
    pub shown_lem :
        (s : Pins) (a b : Bool)
        → (level (digital_write (digital_write s red_pin a) green_pin b) red_pin ≡ a)
          × (level (digital_write (digital_write s red_pin a) green_pin b) green_pin ≡ b)
    shown_lem s a b =
        let s' = digital_write s red_pin a in
        ((written_green s' b).1 ∙ (written_red s a).0, (written_green s' b).0)

    pub shown_back :
        (s : Pins) (a b : Bool)
        → (level (digital_write (digital_write s green_pin b) red_pin a) red_pin ≡ a)
          × (level (digital_write (digital_write s green_pin b) red_pin a) green_pin ≡ b)
    shown_back s a b =
        let s' = digital_write s green_pin b in
        ((written_red s' a).0, (written_red s' a).1 ∙ (written_green s b).0)

    -- A lit or dark colour after the other write of `blink`.
    pub blink_shown :
        (s : Pins) (c lit : Bool)
        → Shows s red_pin green_pin (light (blinking c lit))
        → Shows
            (if lit
              then (if c then digital_write s green_pin false else digital_write s red_pin false)
              else if c
              then digital_write s green_pin true
              else digital_write s red_pin true)
            red_pin
            green_pin
            (light (blinking c (not lit)))
    blink_shown s true true (a, b) = ((written_green s false).1 ∙ a, (written_green s false).0)
    blink_shown s true false (a, b) = ((written_green s true).1 ∙ a, (written_green s true).0)
    blink_shown s false true (a, b) = ((written_red s false).0, (written_red s false).1 ∙ b)
    blink_shown s false false (a, b) = ((written_red s true).0, (written_red s true).1 ∙ b)

    pub swap_shown :
        (s : Pins) (x : Light)
        → Shows
            (if not (is_red x)
              then digital_write (digital_write s green_pin false) red_pin true
              else digital_write (digital_write s red_pin false) green_pin true)
            red_pin
            green_pin
            (light (next (alternating x)))
    swap_shown s dark = shown_back s true false
    swap_shown s red = shown_lem s false true
    swap_shown s green = shown_back s true false
