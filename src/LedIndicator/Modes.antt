-- ===== src/LedIndicator/Modes.antt =====
-- What the indicator shows, as a machine of modes, and that the methods of the class implement it.
use spu_energy_efficient_sys.Common.{
  ℕ, ◌+◌, ◌%◌, ◌^◌, ◌≡◌, Bool, true, false, not, ◌<◌, ltb, if◌then◌else◌, arith, List, [], ◌∷◌,
}
use spu_energy_efficient_sys.LedIndicator.{Led, blink_period, elapsed}

pub data Light : Type 0 where
  dark : Light
  red : Light
  green : Light

-- A colour is `true` for green. A blinking light is lit or not; alternation starts in the dark.
pub data Mode : Type 0 where
  off : Mode
  still : Bool → Mode
  blinking : Bool → Bool → Mode
  alternating : Light → Mode

abbrev pub colour : Bool → Light
colour true = green
colour false = red

abbrev pub light : Mode → Light
light off = dark
light (still c) = colour c
light (blinking c lit) = if lit then colour c else dark
light (alternating s) = s

-- What happens when the period is over.
abbrev pub next : Mode → Mode
next off = off
next (still c) = still c
next (blinking c lit) = blinking c (not lit)
next (alternating dark) = alternating red
next (alternating red) = alternating green
next (alternating green) = alternating red

abbrev pub is_moving : Mode → Bool
is_moving off = false
is_moving (still c) = false
is_moving (blinking c lit) = true
is_moving (alternating s) = true

-- The calls that an indicator gets.
pub data Call : Type 0 where
  call_turn_off : Call
  call_blink : Bool → Call
  call_still : Bool → Call
  call_alternate : Call
  call_update : ℕ → ℕ → Call

-- The machine: the mode, and the time of the last change.
abbrev pub mode_after : Mode × ℕ → Call → Mode × ℕ
mode_after m call_turn_off = (off, m.1)
mode_after m (call_blink c) = (blinking c false, 0)
mode_after m (call_still c) = (still c, m.1)
mode_after m call_alternate = (alternating dark, 0)
mode_after (m, since) (call_update now later) =
    if is_moving m then (if elapsed now since then (next m, later) else (m, since)) else (m, since)

abbrev pub modes : Mode × ℕ → List Call → Mode × ℕ
modes m [] = m
modes m (c ∷ cs) = modes (mode_after m c) cs

abbrev pub is_red : Light → Bool
is_red red = true
is_red _ = false

abbrev pub is_green : Light → Bool
is_green green = true
is_green _ = false

-- The fields that a mode determines.
abbrev pub Fields : Led → Mode → Type 0
Fields l off = l.is_on ≡ false
Fields l (still c) = (l.is_blinking ≡ false) × (l.is_alternating ≡ false)
Fields l (blinking c lit) =
    (l.is_on ≡ true) × (l.is_blinking ≡ true) × (l.is_green ≡ c) × (l.state ≡ lit)
Fields l (alternating s) =
    (l.is_on ≡ true)
    × (l.is_blinking ≡ false)
    × (l.is_alternating ≡ true)
    × (l.is_green ≡ not (is_red s))

-- The period is measured rightly as long as it is below 2^32 milliseconds, also when the clock
-- of 32 bits starts again from zero in between: it is over exactly after more than 500.
pub elapsed_lem :
    (start d : ℕ)
    → d < 2 ^ 32
    → elapsed ((start + d) % 2 ^ 32) (start % 2 ^ 32) ≡ ltb blink_period d
unfolding elapsed
elapsed_lem start d h = ground arith
