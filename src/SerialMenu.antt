-- ===== src/SerialMenu.antt =====
-- libraries/SerialMenu: the class `Menu`, a table of named commands, and the commands that arrive on
-- the serial port, one to a line. A method returns the new menu; `none` is an access out of the bounds
-- of an array. A handler is a function on the state of the rest of the program (`World`);
-- `equalsIgnoreCase` of the String library is the parameter `same`.
pub mod Parsing
pub mod Editing
mod Tests
use spu_energy_efficient_sys.Common.{
  ℕ, zero, suc, ◌+◌, ◌-◌, Bool, true, false, Option, none, some, List, [], ◌∷◌, ◌++◌, get_elem?,
  set, take, replicate, ltb, ◌==◌, ◌>>=◌, if◌then◌else◌,
}

abbrev pub max_event_number : ℕ
max_event_number = 30

abbrev pub max_arg_number : ℕ
max_arg_number = 10

-- The characters of a `String`.
abbrev pub Text : Type 0
Text = List ℕ

-- The number of arguments, the array of arguments, and the state that the handler changes.
abbrev pub Action : Type 0 → Type 0
Action World = ℕ → List Text → World → World

pub record MenuEvent (World : Type 0) : Type 0 where
  pub name : Text
  pub action : Action World

pub record Menu (World : Type 0) : Type 0 where
  pub events : List (MenuEvent World)
  pub number_of_events : ℕ
  pub default_set : Bool
  pub default_event : Action World

-- `events[0 .. numberOfEvents)`, over which the loops run.
abbrev pub entries : {World : Type 0} → Menu World → List (MenuEvent World)
entries m = take m.number_of_events m.events

-- What `serialEvent` has read of a line: `inputString`, `args` and `argc`.
pub record Line : Type 0 where
  pub input_string : Text
  pub args : List Text
  pub argc : ℕ

abbrev pub newline : ℕ
newline = 10

abbrev pub comma : ℕ
comma = 44

unfoldable pub new_line : Line
new_line = record { input_string = []; args = replicate max_arg_number []; argc = 0 }

-- A character other than the newline.
unfoldable pub read_char : Line → ℕ → Option Line
read_char l c =
    if c == comma
    then some (record l { argc = l.argc + 1 })
    else if l.argc == 0
    then some (record l { input_string = l.input_string ++ (c ∷ []) })
    else elim (get_elem? l.args (l.argc - 1)) [
      | none ↦ none
      | some a ↦ some (record l { args = set l.args (l.argc - 1) (a ++ (c ∷ [])) })
    ]

-- The `while` loop: whether the line is complete, the line, and what is left on the port.
unfoldable pub read_line : List ℕ → Line → Option (Bool × Line × List ℕ)
unfolding read_char
read_line [] l = some (false, l, [])
read_line (c ∷ cs) l =
    let rest = read_char l c >>= λ l'. read_line cs l' in
    if c == newline then some (true, l, cs) else rest

module _ {World : Type 0} where
  -- The constructor. The fields that it leaves alone are those of `m`.
  unfoldable pub new_menu : Menu World → Menu World
  new_menu m = record m { number_of_events = 0; default_set = false }

  unfoldable pub add_event : Menu World → Text → Action World → Bool × Menu World
  add_event m name action =
      if ltb m.number_of_events max_event_number
      then (
        true,
        record m {
          events = set m.events m.number_of_events (record { name = name; action = action });
          number_of_events = m.number_of_events + 1;
        },
      )
      else (false, m)

  unfoldable pub add_default : Menu World → Action World → Menu World
  add_default m action = record m { default_event = action; default_set = true }

  -- The inner loop of `removeEvent`, for `k` rounds from `j` on.
  unfoldable pub shift : List (MenuEvent World) → ℕ → ℕ → Option (List (MenuEvent World))
  shift events j zero = some events
  shift events j (suc k) = get_elem? events (j + 1) >>= λ e. shift (set events j e) (j + 1) k

  module _ (same : Text → Text → Bool) where
    unfoldable pub find_event : Text → List (MenuEvent World) → Option ℕ
    find_event name [] = none
    find_event name (e ∷ es) =
        let rest = find_event name es >>= λ i. some (i + 1) in
        if same e.name name then some 0 else rest

    unfoldable pub remove_event : Menu World → Text → Option (Menu World)
    unfolding find_event shift
    remove_event m name = elim (find_event name (entries m)) [
      | none ↦ some m
      | some i ↦ shift m.events i (m.number_of_events - 1 - i) >>= λ events.
          some (record m { events = events; number_of_events = m.number_of_events - 1 })
    ]

    -- The loop of `handleEvents`.
    unfoldable pub dispatch : List (MenuEvent World) → Text → Option (Action World)
    dispatch [] message = none
    dispatch (e ∷ es) message =
        let rest = dispatch es message in if same message e.name then some e.action else rest

    unfoldable pub handle_events : Menu World → Text → List Text → ℕ → World → World
    unfolding dispatch
    handle_events m message arguments argc w = elim (dispatch (entries m) message) [
      | some action ↦ action argc arguments w
      | none ↦ if m.default_set then m.default_event 1 (message ∷ []) w else w
    ]

    -- `serialEvent`, with the characters that are available: the new state, and what is left.
    unfoldable pub serial_event : Menu World → List ℕ → World → Option (World × List ℕ)
    unfolding new_line read_line handle_events
    serial_event m input w = read_line input new_line >>= λ (complete, l, rest).
        some (if complete then handle_events m l.input_string l.args l.argc w else w, rest)
