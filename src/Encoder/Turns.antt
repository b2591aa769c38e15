-- ===== src/Encoder/Turns.antt =====
-- A turn of the dial of the encoder by one step is one move, whatever the switch does meanwhile.
use spu_energy_efficient_sys.Common.{
  ℕ, ◌≡◌, ◌≢◌, refl, ◌∙◌, Bool, true, false, List, [], ◌∷◌, ◌++◌, ◌==◌, if◌then◌else◌, All, arith,
  append-nil,
}
use spu_energy_efficient_sys.Encoder.{Sample, Encoder, check}
use spu_energy_efficient_sys.Encoder.Runs.{
  run, moves, dial, move, moves-append, moves-check, last-check, run-nil, run-cons, run-append,
}

-- A turn by one step: the dial leaves its rest (position 3), comes back to it from
-- `last`, and stays there.
pub record Turn : Type 0 where
  pub away : List Sample
  pub last : Sample
  pub back : Sample
  pub rest : List Sample

abbrev IsAtRest : List Sample → Type 0
IsAtRest = All (λ s. dial s ≡ 3)

abbrev pub IsTurn : Turn → Type 0
IsTurn t = All (λ s. dial s ≢ 3) t.away × (dial t.last ≢ 3) × (dial t.back ≡ 3) × IsAtRest t.rest

abbrev turn_readings : Turn → List Sample
turn_readings t = t.away ++ (t.last ∷ t.back ∷ t.rest)

abbrev pub turn_samples : List Turn → List Sample
turn_samples [] = []
turn_samples (t ∷ ts) = turn_readings t ++ turn_samples ts

-- Back from position 2 is clockwise, from position 1 is the other way; from 0 it is no move.
abbrev pub directions : List Turn → List Bool
directions [] = []
directions (t ∷ ts) =
    (if dial t.last == 1 then false ∷ [] else if dial t.last == 2 then true ∷ [] else [])
    ++ directions ts

move-away : (last : ℕ) (s : Sample) → dial s ≢ 3 → move last s ≡ []
move-away last s h = ground arith

run-away : (ss : List Sample) (e : Encoder) → All (λ s. dial s ≢ 3) ss → moves (run e ss).1 ≡ []
run-away [] e h = rw (run-nil e) refl
run-away (s ∷ ss) e h =
    rw
      (
        run-cons e s ss,
        moves-append (check e s).1 _,
        moves-check e s,
        move-away e.last_dial_pos s h.0,
      )
      (run-away ss (check e s).0 h.1)

move-rest : (l : ℕ) (s : Sample) → l ≡ 3 → dial s ≡ 3 → move l s ≡ []
move-rest l s at h = ground arith

check-rest :
    (e : Encoder) (s : Sample) → e.last_dial_pos ≡ 3 → dial s ≡ 3 → moves (check e s).1 ≡ []
check-rest e s at h = moves-check e s ∙ move-rest e.last_dial_pos s at h

run-rest :
    (ss : List Sample) (e : Encoder) → e.last_dial_pos ≡ 3 → IsAtRest ss → moves (run e ss).1 ≡ []
run-rest [] e at h = rw (run-nil e) refl
run-rest (s ∷ ss) e at h =
    rw (run-cons e s ss, moves-append (check e s).1 _, check-rest e s at h.0)
      (run-rest ss (check e s).0 (last-check e s ∙ h.0) h.1)

turn_lem :
    (e : Encoder) (t : Turn)
    → IsTurn t
    → moves (run e (turn_readings t)).1
      ≡ (if dial t.last == 1 then false ∷ [] else if dial t.last == 2 then true ∷ [] else [])
turn_lem e t (away, last, back, rest) =
    let e1 = (run e t.away).0 in
    let e2 = (check e1 t.last).0 in
    let e3 = (check e2 t.back).0 in
    rw
      (
        (run-append e t.away (t.last ∷ t.back ∷ t.rest)).0,
        moves-append (run e t.away).1 _,
        run-away t.away e away,
        run-cons e1 t.last (t.back ∷ t.rest),
        run-cons e2 t.back t.rest,
        moves-append (check e1 t.last).1 _,
        moves-check e1 t.last,
        move-away e1.last_dial_pos t.last last,
        moves-append (check e2 t.back).1 _,
        run-rest t.rest e3 (last-check e2 t.back ∙ back) rest,
        moves-check e2 t.back,
        last-check e1 t.last,
        back,
        append-nil,
      )
      refl

-- Over any turns by one step (through positions other than the rest, with any bouncing between them,
-- and any number of readings at rest after each), whatever state the encoder starts in and whatever the
-- switch does meanwhile: the handler for moves is called exactly once for each turn that comes back
-- from position 1 or 2, in order and in its direction, and not for one that comes back from position
-- 0 nor for a reading that finds the dial still at rest.
pub turns_lem :
    (ts : List Turn) (e : Encoder)
    → All IsTurn ts
    → moves (run e (turn_samples ts)).1 ≡ directions ts
turns_lem [] e h = rw (run-nil e) refl
turns_lem (t ∷ ts) e h =
    let now = turn_readings t in
    rw ((run-append e now (turn_samples ts)).0, moves-append (run e now).1 _, turn_lem e t h.0)
      (rw (turns_lem ts (run e now).0 h.1) refl)
