-- ===== src/Encoder/Presses.antt =====
-- A press of the switch of the encoder is one click or one hold, whatever the dial does meanwhile.
use spu_energy_efficient_sys.Common.{
  ℕ, ◌+◌, ◌≡◌, refl, ◌∙◌, true, false, List, [], ◌∷◌, ◌++◌, ltb, ◌==◌, if◌then◌else◌, length, All,
  map, arith, leb, ◌&&◌,
}
use spu_energy_efficient_sys.Encoder.{
  Sample, Handler, on_click, on_hold, Encoder, check_switch, check,
}
use spu_energy_efficient_sys.Encoder.Runs.{
  run, presses, presses-append, presses-check, run-nil, run-cons, run-append,
}

-- A press of the switch: the readings while it is down, of which `first` is the first, the one that
-- finds it up again, and those while it stays up.
pub record Press : Type 0 where
  pub first : Sample
  pub more : List Sample
  pub up : Sample
  pub idle : List Sample

abbrev pub AreUp : List Sample → Type 0
AreUp = All (λ s. s.sw ≡ false)

abbrev pub IsPress : Press → Type 0
IsPress p = (p.first.sw ≡ true) × All (λ s. s.sw ≡ true) p.more × (p.up.sw ≡ false) × AreUp p.idle

abbrev press_readings : Press → List Sample
press_readings p = (p.first ∷ p.more) ++ (p.up ∷ p.idle)

abbrev pub press_samples : List Press → List Sample
press_samples [] = []
press_samples (p ∷ ps) = press_readings p ++ press_samples ps

-- 350 readings after the first are a hold.
abbrev pub kind : Press → Handler
kind p = if ltb (length p.more) 350 then on_click else on_hold

abbrev pub IsReleased : Encoder → Type 0
IsReleased e = (e.button_pressed ≡ false) × (e.time_hold ≡ 0)

abbrev IsHeld : Encoder → ℕ → Type 0
IsHeld e t = (e.button_pressed ≡ true) × (e.time_hold ≡ t)

-- The last reading with the switch down calls the hold handler.
abbrev due : ℕ → List Handler
due t = if t == 349 then on_hold ∷ [] else []

same_switch :
    (e : Encoder) (s : Sample)
    → ((check e s).0.button_pressed ≡ (check_switch e s.sw).0.button_pressed)
      × ((check e s).0.time_hold ≡ (check_switch e s.sw).0.time_hold)
unfolding check
same_switch e s = (refl, refl)

check-IsHeld :
    (e : Encoder) (s : Sample) (t : ℕ)
    → s.sw ≡ true
    → IsHeld e t
    → (presses (check e s).1 ≡ due t) × IsHeld (check e s).0 (t + 1)
unfolding check_switch
check-IsHeld e s t d (b, h) =
    let (x, y) = same_switch e s in
    (presses-check e s ∙ rw (d, b, h) (ground arith), (x ∙ rw d refl, y ∙ rw (d, b, h) refl))

check-first :
    (e : Encoder) (s : Sample)
    → s.sw ≡ true
    → IsReleased e
    → (presses (check e s).1 ≡ []) × IsHeld (check e s).0 0
unfolding check_switch
check-first e s d (b, h) =
    let (x, y) = same_switch e s in
    (presses-check e s ∙ rw (d, b, h) refl, (x ∙ rw d refl, y ∙ rw (d, b, h) refl))

check-up :
    (e : Encoder) (s : Sample) (t : ℕ)
    → s.sw ≡ false
    → IsHeld e t
    → (presses (check e s).1 ≡ (if ltb t 350 then on_click ∷ [] else [])) × IsReleased (check e s).0
unfolding check_switch
check-up e s t d (b, h) =
    let (x, y) = same_switch e s in
    (presses-check e s ∙ rw (d, b, h) (ground arith), (x ∙ rw d refl, y ∙ rw d refl))

check-idle :
    (e : Encoder) (s : Sample)
    → s.sw ≡ false
    → IsReleased e
    → (presses (check e s).1 ≡ []) × IsReleased (check e s).0
unfolding check_switch
check-idle e s d (b, h) =
    let (x, y) = same_switch e s in
    (presses-check e s ∙ rw (d, b) refl, (x ∙ rw d refl, y ∙ rw d refl))

run-idle :
    (ss : List Sample) (e : Encoder)
    → AreUp ss
    → IsReleased e
    → (presses (run e ss).1 ≡ []) × IsReleased (run e ss).0
run-idle [] e h r = rw (run-nil e) (refl, r)
run-idle (s ∷ ss) e h r =
    let (calls, r') = check-idle e s h.0 r in
    let (rest, r'') = run-idle ss (check e s).0 h.1 r' in
    rw (run-cons e s ss) (rw (presses-append (check e s).1 _, calls, rest) refl, r'')

run-IsHeld :
    (ss : List Sample) (e : Encoder) (t : ℕ)
    → All (λ s. s.sw ≡ true) ss
    → IsHeld e t
    → (presses (run e ss).1 ≡ (if ltb t 350 && leb 350 (t + length ss) then on_hold ∷ [] else []))
      × IsHeld (run e ss).0 (t + length ss)
unfolding run
run-IsHeld [] e t h held = (ground arith, (held.0, held.1 ∙ omega arith))
run-IsHeld (s ∷ ss) e t h held =
    let (calls, held') = check-IsHeld e s t h.0 held in
    let (rest, held'') = run-IsHeld ss (check e s).0 (t + 1) h.1 held' in
    (
      presses-append (check e s).1 (run (check e s).0 ss).1 ∙ rw (calls, rest) (ground arith),
      (held''.0, held''.1 ∙ omega arith),
    )

press_lem :
    (e : Encoder) (p : Press)
    → IsReleased e
    → IsPress p
    → (presses (run e (press_readings p)).1 ≡ kind p ∷ []) × IsReleased (run e (press_readings p)).0
press_lem e p r (down, held, up, idle) =
    let e1 = (check e p.first).0 in
    let e2 = (run e1 p.more).0 in
    let (a, held1) = check-first e p.first down r in
    let (b, held2) = run-IsHeld p.more e1 0 held held1 in
    let (c, rel) = check-up e2 p.up (0 + length p.more) up held2 in
    let (d, rel') = run-idle p.idle (check e2 p.up).0 idle rel in
    let (x, y) = run-append e1 p.more (p.up ∷ p.idle) in
    rw (run-cons e p.first (p.more ++ (p.up ∷ p.idle)), y, x, run-cons e2 p.up p.idle)
      (
        rw
            (
              presses-append (check e p.first).1 _,
              a,
              presses-append (run e1 p.more).1 _,
              b,
              presses-append (check e2 p.up).1 _,
              c,
              d,
            )
            (ground arith),
        rel',
      )

run-presses :
    (ps : List Press) (e : Encoder)
    → IsReleased e
    → All IsPress ps
    → (presses (run e (press_samples ps)).1 ≡ map kind ps) × IsReleased (run e (press_samples ps)).0
run-presses [] e r h = rw (run-nil e) (refl, r)
run-presses (p ∷ ps) e r h =
    let now = press_readings p in
    let (a, rel) = press_lem e p r h.0 in
    let (b, rel') = run-presses ps (run e now).0 rel h.1 in
    let (x, y) = run-append e now (press_samples ps) in
    (rw (x, presses-append (run e now).1 _, a, b) refl, rw y rel')

-- Over any readings that start and go on with the switch up, with any presses between them, from a
-- state with the switch up and whatever the dial does meanwhile: the handlers called for the switch
-- are exactly one for each press, in order, the click for up to 350 readings and the hold for more;
-- the readings with the switch up call none, however many they are. Afterwards the switch is up
-- again.
pub presses_lem :
    (idle : List Sample) (ps : List Press) (e : Encoder)
    → IsReleased e
    → AreUp idle
    → All IsPress ps
    → (presses (run e (idle ++ press_samples ps)).1 ≡ map kind ps)
      × IsReleased (run e (idle ++ press_samples ps)).0
presses_lem idle ps e r up h =
    let (a, rel) = run-idle idle e up r in
    let (b, rel') = run-presses ps (run e idle).0 rel h in
    let (x, y) = run-append e idle (press_samples ps) in
    (rw (x, presses-append (run e idle).1 _, a, b) refl, rw y rel')
