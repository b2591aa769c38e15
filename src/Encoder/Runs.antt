-- ===== src/Encoder/Runs.antt =====
-- The encoder over sequences of readings, and the handlers of its two parts taken apart.
use spu_energy_efficient_sys.Common.{
  ℕ, ◌≡◌, refl, sym, ap, ◌∙◌, Bool, true, false, List, [], ◌∷◌, ◌++◌, ◌==◌, if◌then◌else◌, arith,
  append-nil, append_assoc,
}
use spu_energy_efficient_sys.Encoder.{
  Sample, Handler, on_move, on_click, on_hold, Encoder, dial_pos, check_dial, check_switch, check,
}

unfoldable pub run : Encoder → List Sample → Encoder × List Handler
run e [] = (e, [])
run e (s ∷ ss) = let (e', calls) = check e s in let (e'', rest) = run e' ss in (e'', calls ++ rest)

-- The calls of one kind.
abbrev pub presses : List Handler → List Handler
presses [] = []
presses (on_move d ∷ hs) = presses hs
presses (on_click ∷ hs) = on_click ∷ presses hs
presses (on_hold ∷ hs) = on_hold ∷ presses hs

abbrev pub moves : List Handler → List Bool
moves [] = []
moves (on_move d ∷ hs) = d ∷ moves hs
moves (on_click ∷ hs) = moves hs
moves (on_hold ∷ hs) = moves hs

pub presses-append : (xs ys : List Handler) → presses (xs ++ ys) ≡ presses xs ++ presses ys
presses-append [] ys = refl
presses-append (on_move d ∷ xs) ys = presses-append xs ys
presses-append (on_click ∷ xs) ys = ap (λ zs. on_click ∷ zs) (presses-append xs ys)
presses-append (on_hold ∷ xs) ys = ap (λ zs. on_hold ∷ zs) (presses-append xs ys)

pub moves-append : (xs ys : List Handler) → moves (xs ++ ys) ≡ moves xs ++ moves ys
moves-append [] ys = refl
moves-append (on_move d ∷ xs) ys = ap (λ zs. d ∷ zs) (moves-append xs ys)
moves-append (on_click ∷ xs) ys = moves-append xs ys
moves-append (on_hold ∷ xs) ys = moves-append xs ys

presses-check_dial : (last dial : ℕ) → presses (check_dial last dial) ≡ []
unfolding check_dial
presses-check_dial last dial = ground arith

moves-check_switch : (e : Encoder) (b : Bool) → moves (check_switch e b).1 ≡ []
unfolding check_switch
moves-check_switch e true = ground arith
moves-check_switch e false = ground arith

-- What the switch alone does in one reading, and the dial alone.
pub presses-check :
    (e : Encoder) (s : Sample) → presses (check e s).1 ≡ presses (check_switch e s.sw).1
unfolding check
presses-check e s =
    presses-append (check_dial e.last_dial_pos (dial_pos s.clk s.dt)) _
    ∙ ap (λ xs. xs ++ presses (check_switch e s.sw).1)
        (presses-check_dial e.last_dial_pos (dial_pos s.clk s.dt))

abbrev pub dial : Sample → ℕ
dial s = dial_pos s.clk s.dt

-- The move that ends in the reading `s` after the position `last`.
abbrev pub move : ℕ → Sample → List Bool
move last s =
    if dial s == 3
    then (if last == 1 then false ∷ [] else if last == 2 then true ∷ [] else [])
    else []

moves-check_dial : (last : ℕ) (s : Sample) → moves (check_dial last (dial s)) ≡ move last s
unfolding check_dial
moves-check_dial last s = ground arith

pub moves-check : (e : Encoder) (s : Sample) → moves (check e s).1 ≡ move e.last_dial_pos s
unfolding check
moves-check e s =
    moves-append (check_dial e.last_dial_pos (dial s)) _
    ∙ rw (moves-check_switch e s.sw, append-nil (moves (check_dial e.last_dial_pos (dial s))))
        (moves-check_dial e.last_dial_pos s)

pub last-check : (e : Encoder) (s : Sample) → (check e s).0.last_dial_pos ≡ dial s
unfolding check
last-check e s = refl

pub run-cons :
    (e : Encoder) (s : Sample) (ss : List Sample)
    → run e (s ∷ ss) ≡ ((run (check e s).0 ss).0, (check e s).1 ++ (run (check e s).0 ss).1)
unfolding run
run-cons e s ss = refl

pub run-nil : (e : Encoder) → run e [] ≡ (e, [])
unfolding run
run-nil e = refl

pub run-append :
    (e : Encoder) (xs ys : List Sample)
    → ((run e (xs ++ ys)).1 ≡ (run e xs).1 ++ (run (run e xs).0 ys).1)
      × ((run e (xs ++ ys)).0 ≡ (run (run e xs).0 ys).0)
unfolding run
run-append e [] ys = (refl, refl)
run-append e (x ∷ xs) ys =
    let (a, b) = run-append (check e x).0 xs ys in
    (
      ap (λ zs. (check e x).1 ++ zs) a
          ∙ sym (append_assoc (check e x).1 (run (check e x).0 xs).1 _),
      b,
    )
