-- ===== src/LedIndicator.antt =====
-- libraries/LEDIndicator: the red and green light that shows the state of the board. A method returns
-- the new indicator beside the pins; `update` takes the times that its two calls of `millis` read.
pub mod Modes
pub mod Lights
pub mod Refinement
mod Tests
use spu_energy_efficient_sys.Common.{
  ℕ, ◌+◌, ◌-◌, ◌%◌, ◌^◌, Bool, true, false, not, ◌&&◌, ◌||◌, ltb, if◌then◌else◌,
}
use spu_energy_efficient_sys.Gpio.{Gpio}

abbrev pub blink_period : ℕ
blink_period = 500

-- `state_change` is the value of the `int` as the unsigned 32 bits with which the code subtracts.
pub record Led : Type 0 where
  pub is_green : Bool
  pub is_blinking : Bool
  pub is_on : Bool
  pub state : Bool
  pub is_alternating : Bool
  pub red_pin : ℕ
  pub green_pin : ℕ
  pub state_change : ℕ

-- `(millis() - stateChange) > BLINK_PERIOD`, on 32 bits without a sign.
unfoldable pub elapsed : ℕ → ℕ → Bool
elapsed now state_change = ltb blink_period ((now + 2 ^ 32 - state_change) % 2 ^ 32)

module _ (g : Gpio) where
  open g use {Pins, digital_write}

  -- Both pins, the red one first.
  abbrev pub show : Led → Pins → Bool → Bool → Pins
  show l s red green = digital_write (digital_write s l.red_pin red) l.green_pin green

  unfoldable pub turn_off : Led → Pins → Led × Pins
  turn_off l s = (record l { is_on = false; is_alternating = false }, show l s false false)

  -- The constructor. The fields that it leaves alone are those of `l`.
  unfoldable pub new_led : Led → Pins → ℕ → ℕ → Led × Pins
  unfolding turn_off
  new_led l s red green = turn_off (record l { red_pin = red; green_pin = green }) s

  unfoldable pub blink_red : Led → Pins → Led × Pins
  blink_red l s = (
    record l {
      is_on = true;
      is_green = false;
      is_blinking = true;
      state_change = 0;
      state = false;
      is_alternating = false;
    },
    show l s false false,
  )

  unfoldable pub blink_green : Led → Pins → Led × Pins
  blink_green l s = (
    record l {
      is_on = true;
      is_green = true;
      is_blinking = true;
      state_change = 0;
      state = false;
      is_alternating = false;
    },
    show l s false false,
  )

  unfoldable pub still_red : Led → Pins → Led × Pins
  still_red l s = (
    record l { is_on = true; is_green = false; is_blinking = false; is_alternating = false },
    show l s true false,
  )

  unfoldable pub still_green : Led → Pins → Led × Pins
  still_green l s = (
    record l { is_on = true; is_green = true; is_blinking = false; is_alternating = false },
    show l s false true,
  )

  unfoldable pub alternate : Led → Pins → Led × Pins
  alternate l s = (
    record l {
      is_on = true;
      is_alternating = true;
      is_blinking = false;
      state_change = 0;
      is_green = true;
    },
    show l s false false,
  )

  -- The two bodies of `update`.
  unfoldable pub blink : Led → Pins → Led × Pins
  blink l s = (
    record l { state = not l.state },
    if l.state
        then (if l.is_green
            then digital_write s l.green_pin false
            else digital_write s l.red_pin false)
        else if l.is_green
        then digital_write s l.green_pin true
        else digital_write s l.red_pin true,
  )

  unfoldable pub swap : Led → Pins → Led × Pins
  swap l s = (
    record l { is_green = not l.is_green },
    if l.is_green
        then digital_write (digital_write s l.green_pin false) l.red_pin true
        else digital_write (digital_write s l.red_pin false) l.green_pin true,
  )

  unfoldable pub update : Led → Pins → ℕ → ℕ → Led × Pins
  unfolding elapsed blink swap
  update l s now later =
      if l.is_on && (l.is_blinking || l.is_alternating) && elapsed now l.state_change
      then (if l.is_blinking
          then blink (record l { state_change = later }) s
          else if l.is_alternating
          then swap (record l { state_change = later }) s
          else (record l { state_change = later }, s))
      else (l, s)
