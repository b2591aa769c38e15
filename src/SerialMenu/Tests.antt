-- ===== src/SerialMenu/Tests.antt =====
-- The serial menu on concrete lines.
use spu_energy_efficient_sys.Common.{
  ℕ, ◌+◌, ◌-◌, ◌≡◌, ◌≢◌, refl, Bool, true, false, none, some, List, [], ◌∷◌, ◌++◌, All, replicate,
  arith, ◌==◌, ◌≤◌, ltb, if◌then◌else◌,
}
use spu_energy_efficient_sys.SerialMenu.{
  Text, Action, Menu, MenuEvent, entries, new_menu, handle_events, serial_event, newline, comma,
}
use spu_energy_efficient_sys.SerialMenu.Parsing.{
  command, serial_event_lem, serial_event_unfinished, serial_event_overrun,
}
use spu_energy_efficient_sys.SerialMenu.Editing.{
  Change, add, remove, changed, changed_lem, list_changed, IsValid,
}

-- Names compared by their first letter alone, in any case.
abbrev letter : ℕ → ℕ
letter c = if ltb c 97 then c else c - 32

abbrev same_letter : Text → Text → Bool
same_letter [] [] = true
same_letter [] (b ∷ bs) = false
same_letter (a ∷ rest) [] = false
same_letter (a ∷ rest) (b ∷ bs) = letter a == letter b

-- Handlers that note the number of their arguments.
abbrev note : ℕ → Action ℕ
note k argc args w = w + k + argc

abbrev idle_event : MenuEvent ℕ
idle_event = record { name = []; action = note 0 }

abbrev blank_menu : Menu ℕ
blank_menu = record {
  events = replicate 30 idle_event;
  number_of_events = 7;
  default_set = true;
  default_event = note 0;
}

abbrev menu : Menu ℕ
menu = record blank_menu {
  events = record { name = 83 ∷ []; action = note 100 } ∷ replicate 29 idle_event;
  number_of_events = 1;
  default_set = false;
}

-- `s,12,3`
abbrev digits : List Text
digits = (49 ∷ 50 ∷ []) ∷ (51 ∷ []) ∷ []

s_plain : (◌≢◌ {A = ℕ} 115 10) × (◌≢◌ {A = ℕ} 115 44)
s_plain = (omega arith, omega arith)

one_plain : (◌≢◌ {A = ℕ} 49 10) × (◌≢◌ {A = ℕ} 49 44)
one_plain = (omega arith, omega arith)

two_plain : (◌≢◌ {A = ℕ} 50 10) × (◌≢◌ {A = ℕ} 50 44)
two_plain = (omega arith, omega arith)

three_plain : (◌≢◌ {A = ℕ} 51 10) × (◌≢◌ {A = ℕ} 51 44)
three_plain = (omega arith, omega arith)

two_few : 2 ≤ 10
two_few = omega arith

serial_event_lem_example :
    serial_event same_letter menu (command (115 ∷ []) digits ++ (newline ∷ 9 ∷ [])) 1
    ≡ some (103, 9 ∷ [])
unfolding handle_events
serial_event_lem_example =
    serial_event_lem same_letter menu (115 ∷ []) digits (9 ∷ []) 1 (s_plain, tt)
      ((one_plain, (two_plain, tt)), ((three_plain, tt), tt)) two_few

serial_event_unfinished_example :
    serial_event same_letter menu (command (115 ∷ []) digits) 1 ≡ some (1, [])
serial_event_unfinished_example =
    serial_event_unfinished same_letter menu (115 ∷ []) digits 1 (s_plain, tt)
      ((one_plain, (two_plain, tt)), ((three_plain, tt), tt)) two_few

ones-IsPlain : All (All (λ c. (c ≢ newline) × (c ≢ comma))) (replicate 10 (49 ∷ []))
ones-IsPlain =
    let p : All (λ c. (c ≢ newline) × (c ≢ comma)) (49 ∷ []) = (one_plain, tt) in
    (p, (p, (p, (p, (p, (p, (p, (p, (p, (p, tt))))))))))

serial_event_overrun_example :
    serial_event same_letter menu
      (command (115 ∷ []) (replicate 10 (49 ∷ [])) ++ (comma ∷ 51 ∷ newline ∷ []))
      1
    ≡ none
serial_event_overrun_example =
    serial_event_overrun same_letter menu (115 ∷ []) (replicate 10 (49 ∷ [])) 51 (newline ∷ []) 1
      (s_plain, tt) ones-IsPlain refl three_plain

abbrev some_changes : List (Change ℕ)
some_changes =
    add (65 ∷ []) (note 1) ∷ add (66 ∷ []) (note 2) ∷ add (97 ∷ []) (note 3) ∷ remove (97 ∷ []) ∷ []

changed_lem_example :
    (m' : Menu ℕ) × (changed same_letter (new_menu blank_menu) some_changes ≡ some m')
    × IsValid m'
    × (entries m' ≡ list_changed same_letter [] some_changes)
changed_lem_example = changed_lem same_letter blank_menu some_changes refl

rest_of_changes :
    list_changed same_letter [] some_changes
    ≡ record { name = 66 ∷ []; action = note 2 } ∷ record { name = 97 ∷ []; action = note 3 } ∷ []
rest_of_changes = refl
