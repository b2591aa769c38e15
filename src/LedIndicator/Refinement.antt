-- ===== src/LedIndicator/Refinement.antt =====
-- The methods of the indicator implement the machine of modes.
use spu_energy_efficient_sys.Common.{
  ℕ, ◌≡◌, ◌≢◌, refl, ap, Bool, true, false, not, ◌&&◌, ◌||◌, ◌∙◌, if◌then◌else◌, Bool-cases, inl,
  inr, arith, List, [], ◌∷◌,
}
use spu_energy_efficient_sys.Gpio.{Gpio}
use spu_energy_efficient_sys.LedIndicator.{
  Led, elapsed, turn_off, new_led, blink_red, blink_green, still_red, still_green, alternate,
  update, blink, swap, show,
}
use spu_energy_efficient_sys.LedIndicator.Modes.{
  Light, dark, red, green, Mode, off, still, blinking, alternating, light, next, Call,
  call_turn_off, call_blink, call_still, call_alternate, call_update, mode_after, modes, is_red,
  is_green, Fields,
}
use spu_energy_efficient_sys.LedIndicator.Lights.{Shows, shown_lem, blink_shown, swap_shown}

module _ (g : Gpio) where
  open g use {Pins, level, digital_write, level-digital_write}

  -- The method that a call names.
  pub perform : Led × Pins → Call → Led × Pins
  unfolding turn_off blink_red blink_green still_red still_green alternate
  perform (l, s) call_turn_off = turn_off g l s
  perform (l, s) (call_blink c) = if c then blink_green g l s else blink_red g l s
  perform (l, s) (call_still c) = if c then still_green g l s else still_red g l s
  perform (l, s) call_alternate = alternate g l s
  perform (l, s) (call_update now later) = update g l s now later

  pub performed : Led × Pins → List Call → Led × Pins
  performed r [] = r
  performed r (c ∷ cs) = performed (perform r c) cs

  record Refines (red_pin green_pin : ℕ) (r : Led × Pins) (m : Mode × ℕ) : Type 0 where
    red_lem : r.0.red_pin ≡ red_pin
    green_lem : r.0.green_pin ≡ green_pin
    since : r.0.state_change ≡ m.1
    fields : Fields r.0 m.0
    shown : Shows g r.1 red_pin green_pin (light m.0)

  update_idle :
      (l : Led) (s : Pins) (now later : ℕ)
      → (l.is_on && (l.is_blinking || l.is_alternating)) ≡ false
      → update g l s now later ≡ (l, s)
  unfolding update
  update_idle l s now later e = ground arith

  update_blinking :
      (l : Led) (s : Pins) (now later : ℕ)
      → l.is_on ≡ true
      → l.is_blinking ≡ true
      → update g l s now later ≡ (
          if elapsed now l.state_change
          then blink g (record l { state_change = later }) s
          else (l, s))
  unfolding update
  update_blinking l s now later e f = rw (e, f) refl

  update_alternating :
      (l : Led) (s : Pins) (now later : ℕ)
      → l.is_on ≡ true
      → l.is_blinking ≡ false
      → l.is_alternating ≡ true
      → update g l s now later ≡ (
          if elapsed now l.state_change
          then swap g (record l { state_change = later }) s
          else (l, s))
  unfolding update
  update_alternating l s now later e f h = rw (e, f, h) refl

  module _ (red_pin green_pin : ℕ) (h : red_pin ≢ green_pin) where
    shown-Refines :
        {l : Led} {s : Pins} {m : Mode × ℕ}
        → Refines red_pin green_pin (l, s) m
        → (l' : Led) (m' : Mode × ℕ) (a b : Bool) → l'.red_pin ≡ l.red_pin
        → l'.green_pin ≡ l.green_pin
        → l'.state_change ≡ m'.1
        → Fields l' m'.0
        → (a ≡ is_red (light m'.0)) × (b ≡ is_green (light m'.0))
        → Refines red_pin green_pin (l', show g l s a b) m'
    shown-Refines {s = s} v l' m' a b e f since fields (x, y) = record {
      red_lem = e ∙ v.red_lem;
      green_lem = f ∙ v.green_lem;
      since = since;
      fields = fields;
      shown =
          rw (v.red_lem, v.green_lem)
            (
              (shown_lem g red_pin green_pin h s a b).0 ∙ x,
              (shown_lem g red_pin green_pin h s a b).1 ∙ y,
            );
    }

    blink-Refines :
        {l : Led} {s : Pins} {c lit : Bool} {since : ℕ} (later : ℕ)
        → Refines red_pin green_pin (l, s) (blinking c lit, since)
        → Refines red_pin green_pin
            (blink g (record l { state_change = later }) s)
            (blinking c (not lit), later)
    unfolding blink
    blink-Refines {l = l} {s = s} {c = c} {lit = lit} later v =
        let (on, blinks, col, st) = v.fields in
        record {
          red_lem = v.red_lem;
          green_lem = v.green_lem;
          since = refl;
          fields = (on, blinks, col, ap not st);
          shown =
              rw (st, col, v.red_lem, v.green_lem)
                (blink_shown g red_pin green_pin h s c lit v.shown);
        }

    next-Fields :
        (l : Led) (x : Light)
        → Fields l (alternating x)
        → Fields (record l { is_green = not l.is_green }) (next (alternating x))
    next-Fields l dark (a, b, c, d) = (a, b, c, ap not d)
    next-Fields l red (a, b, c, d) = (a, b, c, ap not d)
    next-Fields l green (a, b, c, d) = (a, b, c, ap not d)

    swap-Refines :
        {l : Led} {s : Pins} (x : Light) {since : ℕ} (later : ℕ)
        → Refines red_pin green_pin (l, s) (alternating x, since)
        → Refines red_pin green_pin
            (swap g (record l { state_change = later }) s)
            (next (alternating x), later)
    unfolding swap
    swap-Refines {l = l} {s = s} x later v = record {
      red_lem = v.red_lem;
      green_lem = v.green_lem;
      since = refl;
      fields = next-Fields (record l { state_change = later }) x v.fields;
      shown = rw (v.fields.3, v.red_lem, v.green_lem) (swap_shown g red_pin green_pin h s x);
    }

    update-Refines :
        (l : Led) (s : Pins) (m : Mode) (since now later : ℕ)
        → Refines red_pin green_pin (l, s) (m, since)
        → Refines red_pin green_pin
            (update g l s now later)
            (mode_after (m, since) (call_update now later))
    update-Refines l s off since now later v = rw (update_idle l s now later (ground arith)) v
    update-Refines l s (still c) since now later v = rw (update_idle l s now later (ground arith)) v
    update-Refines l s (blinking c lit) since now later v =
        let (on, blinks, col, st) = v.fields in
        rw (update_blinking l s now later on blinks, ap (elapsed now) v.since)
          (elim (Bool-cases (elapsed now since)) [
            | inl e ↦ rw e (blink-Refines later v)
            | inr e ↦ rw e v
          ])
    update-Refines l s (alternating x) since now later v =
        let (on, blinks, turns, col) = v.fields in
        rw (update_alternating l s now later on blinks turns, ap (elapsed now) v.since)
          (elim (Bool-cases (elapsed now since)) [
            | inl e ↦ rw e (swap-Refines x later v)
            | inr e ↦ rw e v
          ])

    perform-Refines :
        (l : Led) (s : Pins) (m : Mode × ℕ)
        → Refines red_pin green_pin (l, s) m
        → (c : Call) → Refines red_pin green_pin (perform (l, s) c) (mode_after m c)
    unfolding perform
    perform-Refines l s m v call_turn_off =
        shown-Refines v _ _ false false refl refl v.since refl (refl, refl)
    perform-Refines l s m v (call_blink true) =
        shown-Refines v _ _ false false refl refl refl (refl, refl, refl, refl) (refl, refl)
    perform-Refines l s m v (call_blink false) =
        shown-Refines v _ _ false false refl refl refl (refl, refl, refl, refl) (refl, refl)
    perform-Refines l s m v (call_still true) =
        shown-Refines v _ _ false true refl refl v.since (refl, refl) (refl, refl)
    perform-Refines l s m v (call_still false) =
        shown-Refines v _ _ true false refl refl v.since (refl, refl) (refl, refl)
    perform-Refines l s m v call_alternate =
        shown-Refines v _ _ false false refl refl refl (refl, refl, refl, refl) (refl, refl)
    perform-Refines l s m v (call_update now later) = update-Refines l s m.0 m.1 now later v

    performed-Refines :
        (cs : List Call) (r : Led × Pins) (m : Mode × ℕ)
        → Refines red_pin green_pin r m
        → Refines red_pin green_pin (performed r cs) (modes m cs)
    unfolding performed
    performed-Refines [] r m v = v
    performed-Refines (c ∷ cs) r m v =
        performed-Refines cs (perform r c) (mode_after m c) (perform-Refines r.0 r.1 m v c)

    new_led-Refines :
        (l : Led) (s : Pins)
        → Refines red_pin green_pin (new_led g l s red_pin green_pin) (off, l.state_change)
    unfolding new_led
    new_led-Refines l s = record {
      red_lem = refl;
      green_lem = refl;
      since = refl;
      fields = refl;
      shown = shown_lem g red_pin green_pin h s false false;
    }

  -- A new indicator on two different pins, whatever its memory held before, shows after any calls
  -- of its methods what the machine of modes shows after them: no light, one of the two colours,
  -- one that blinks, or the two in turns, and never both at once.
  pub performed_lem :
      (l : Led) (s : Pins) (red_pin green_pin : ℕ) (cs : List Call)
      → red_pin ≢ green_pin
      → Shows g
          (performed (new_led g l s red_pin green_pin) cs).1
          red_pin
          green_pin
          (light (modes (off, l.state_change) cs).0)
  performed_lem l s red_pin green_pin cs h =
      (performed-Refines red_pin green_pin h cs _ _ (new_led-Refines red_pin green_pin h l s)).shown
