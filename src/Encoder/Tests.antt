-- ===== src/Encoder/Tests.antt =====
-- The encoder on concrete readings.
use spu_energy_efficient_sys.Common.{◌≡◌, refl, Bool, true, false, List, [], ◌∷◌, ◌++◌, arith}
use spu_energy_efficient_sys.Encoder.{Sample, Encoder, on_click, new_encoder, dial_pos}
use spu_energy_efficient_sys.Encoder.Runs.{run, presses, moves}
use spu_energy_efficient_sys.Encoder.Presses.{
  Press, IsPress, IsReleased, press_samples, presses_lem,
}
use spu_energy_efficient_sys.Encoder.Turns.{Turn, IsTurn, turn_samples, turns_lem}

abbrev sample : Bool → Bool → Bool → Sample
sample clk dt sw = record { clk = clk; dt = dt; sw = sw }

abbrev at_rest : Encoder
at_rest = record { last_dial_pos = 3; button_pressed = false; time_hold = 0 }

new_encoder_lem : new_encoder 3 ≡ at_rest
unfolding new_encoder
new_encoder_lem = refl

-- Two readings down while the dial turns.
abbrev short_press : Press
short_press = record {
  first = sample true true true;
  more = sample false true true ∷ [];
  up = sample true true false;
  idle = sample true true false ∷ sample true true false ∷ [];
}

short_press-IsPress : IsPress short_press
short_press-IsPress = (refl, (refl, tt), refl, (refl, (refl, tt)))

at_at_rest-IsReleased : IsReleased at_rest
at_at_rest-IsReleased = (refl, refl)

-- One reading with the switch up before the presses, and two after each.
abbrev two_presses : List Sample
two_presses = (sample true true false ∷ []) ++ press_samples (short_press ∷ short_press ∷ [])

presses_lem_example :
    (presses (run at_rest two_presses).1 ≡ on_click ∷ on_click ∷ [])
    × IsReleased (run at_rest two_presses).0
presses_lem_example =
    presses_lem (sample true true false ∷ []) (short_press ∷ short_press ∷ []) at_rest
      at_at_rest-IsReleased (refl, tt) (short_press-IsPress, (short_press-IsPress, tt))

-- 3, 1, 0, 2, 3: clockwise; the way back is the other direction.
abbrev clockwise : Turn
clockwise = record {
  away = sample false true false ∷ sample false false true ∷ [];
  last = sample true false true;
  back = sample true true true;
  rest = sample true true true ∷ sample true true false ∷ [];
}

abbrev back_again : Turn
back_again = record {
  away = sample true false true ∷ sample false false true ∷ [];
  last = sample false true true;
  back = sample true true false;
  rest = sample true true false ∷ sample true true false ∷ [];
}

clockwise-IsTurn : IsTurn clockwise
unfolding dial_pos
clockwise-IsTurn = ((ground arith, (ground arith, tt)), ground arith, refl, (refl, (refl, tt)))

back_again-IsTurn : IsTurn back_again
unfolding dial_pos
back_again-IsTurn = ((ground arith, (ground arith, tt)), ground arith, refl, (refl, (refl, tt)))

turns_lem_example :
    moves (run at_rest (turn_samples (clockwise ∷ back_again ∷ []))).1 ≡ true ∷ false ∷ []
unfolding dial_pos
turns_lem_example =
    turns_lem (clockwise ∷ back_again ∷ []) at_rest (clockwise-IsTurn, (back_again-IsTurn, tt))
