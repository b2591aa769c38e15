-- ===== src/LedIndicator/Tests.antt =====
-- The indicator on concrete runs.
use spu_energy_efficient_sys.Common.{
  ℕ, ◌+◌, ◌<◌, ◌%◌, ◌^◌, ◌≡◌, ◌≢◌, refl, Bool, true, false, List, [], ◌∷◌, arith,
}
use spu_energy_efficient_sys.Gpio.{map_gpio}
use spu_energy_efficient_sys.LedIndicator.{Led, elapsed, new_led, update, blink_green}
use spu_energy_efficient_sys.LedIndicator.Modes.{
  Call, call_turn_off, call_blink, call_alternate, call_update, light, modes, green, elapsed_lem,
  off,
}
use spu_energy_efficient_sys.LedIndicator.Lights.{Shows}
use spu_energy_efficient_sys.LedIndicator.Refinement.{performed, performed_lem}

-- Memory before the constructor.
abbrev fresh_led : Led
fresh_led = record {
  is_green = true;
  is_blinking = true;
  is_on = true;
  state = true;
  is_alternating = true;
  red_pin = 0;
  green_pin = 0;
  state_change = 7;
}

abbrev dark_pins : ℕ → Bool
dark_pins p = false

abbrev some_calls : List Call
some_calls =
    call_blink true
    ∷ call_update 400 400
    ∷ call_update 600 601
    ∷ call_turn_off
    ∷ call_alternate
    ∷ call_update 1000 1000
    ∷ call_update 1600 1600
    ∷ []

five_ne_four : ◌≢◌ {A = ℕ} 5 4
five_ne_four = omega arith

abbrev lit_after : Led × (ℕ → Bool)
lit_after = let (l, s) = blink_green map_gpio fresh_led dark_pins in update map_gpio l s 501 501

blink_after_period : lit_after.1 4 ≡ false
unfolding blink_green update
blink_after_period = refl

alternation : light (modes (off, 7) some_calls).0 ≡ green
unfolding elapsed
alternation = refl

performed_lem_example :
    Shows map_gpio
      (performed map_gpio (new_led map_gpio fresh_led dark_pins 5 4) some_calls).1
      5
      4
      (light (modes (off, 7) some_calls).0)
performed_lem_example = performed_lem map_gpio fresh_led dark_pins 5 4 some_calls five_ne_four

clock_bound : 700 < 2 ^ 32
clock_bound = omega arith

-- The clock starts again between 4294967000 and 404.
elapsed_lem_example : elapsed ((4294967000 + 700) % 2 ^ 32) (4294967000 % 2 ^ 32) ≡ true
elapsed_lem_example = elapsed_lem 4294967000 700 clock_bound
