-- ===== src/Encoder.antt =====
-- libraries/Encoder: the dial with its switch. `check` takes what it reads from the three pins, and
-- returns the new state beside the handlers that it calls, in order.
pub mod Runs
pub mod Presses
pub mod Turns
mod Tests
use spu_energy_efficient_sys.Common.{
  ℕ, ◌+◌, Bool, true, false, not, ◌&&◌, List, [], ◌∷◌, ◌++◌, ltb, ◌==◌, if◌then◌else◌,
}

-- One reading of the pins.
pub record Sample : Type 0 where
  pub clk : Bool
  pub dt : Bool
  pub sw : Bool

-- The handlers: `onMoveEvent` with its direction, `onClickEvent`, `onHoldEvent`.
pub data Handler : Type 0 where
  on_move : Bool → Handler
  on_click : Handler
  on_hold : Handler

-- The fields that `check` uses.
pub record Encoder : Type 0 where
  pub last_dial_pos : ℕ
  pub button_pressed : Bool
  pub time_hold : ℕ

-- The constructor sets all but the last position of the dial.
unfoldable pub new_encoder : ℕ → Encoder
new_encoder dial = record { last_dial_pos = dial; button_pressed = false; time_hold = 0 }

-- `(clk << 1) | dt`
unfoldable pub dial_pos : Bool → Bool → ℕ
dial_pos clk dt = (if clk then 2 else 0) + (if dt then 1 else 0)

-- The two tests on the dial.
unfoldable pub check_dial : ℕ → ℕ → List Handler
check_dial last dial =
    (if dial == 3 && last == 1 then on_move false ∷ [] else [])
    ++ (if dial == 3 && last == 2 then on_move true ∷ [] else [])

-- The test on the switch.
unfoldable pub check_switch : Encoder → Bool → Encoder × List Handler
check_switch e true =
    let t = if e.button_pressed then e.time_hold + 1 else e.time_hold in
    (record e { button_pressed = true; time_hold = t }, if t == 350 then on_hold ∷ [] else [])
check_switch e false = (
  record e { button_pressed = false; time_hold = 0 },
  if e.button_pressed && ltb e.time_hold 350 then on_click ∷ [] else [],
)

unfoldable pub check : Encoder → Sample → Encoder × List Handler
unfolding check_dial
check e s =
    let dial = dial_pos s.clk s.dt in
    let (e', calls) = check_switch e s.sw in
    (record e' { last_dial_pos = dial }, check_dial e.last_dial_pos dial ++ calls)
