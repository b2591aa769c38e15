-- ===== src/Slave/Groups.antt =====
-- Which pins a slave drives when a group is switched.
use spu_energy_efficient_sys.Common.{
  ℕ, ◌≡◌, refl, sym, ap, ◌∙◌, Bool, true, false, ◌&&◌, List, [], ◌∷◌, ◌++◌, ℤ, pos, negsuc, ◌==ℤ◌,
  if◌then◌else◌, arith, append-nil,
}
use spu_energy_efficient_sys.Gpio.{Gpio}
use spu_energy_efficient_sys.Node.{RelayInfo}
use spu_energy_efficient_sys.Slave.{Slave, send_code}
use spu_energy_efficient_sys.Slave.Sensors.{
  is_connected, group_pins, write_pin, write_pins, turn_on_group, turn_off_group,
}

-- Whether the pin is that of a connected relay of the group.
unfoldable pub drives : List RelayInfo → ℤ → ℕ → Bool
drives [] group p = false
drives (r ∷ rs) group p =
    (if (r.connected && (r.group ==ℤ group)) && (r.pin ==ℤ pos p) then true else drives rs group p)

choose :
    {A : Type 0} (d m : Bool) (b l : A)
    → (if d then b else (if m then b else l)) ≡ (if (if m then true else d) then b else l)
choose d m b l = ground arith

-- The infrared code beside what went out, if the test holds.
if_sends :
    {Store Pins Timers : Type 0} (c : Bool) (s : Slave Store Pins Timers)
    → let t = if c then record s { sent = s.sent ++ (send_code ∷ []) } else s in
      (t.pins ≡ s.pins) × (t.sent ≡ s.sent ++ (if c then send_code ∷ [] else []))
if_sends true s = (refl, refl)
if_sends false s = (refl, sym (append-nil s.sent))

module _ (g : Gpio) where
  open g use {Pins, level, level-digital_write}

  level-write_pin :
      (s : Pins) (q : ℤ) (b : Bool) (p : ℕ)
      → level (write_pin g s q b) p ≡ (if q ==ℤ pos p then b else level s p)
  unfolding write_pin
  level-write_pin s (pos q) b p = level-digital_write s q b p
  level-write_pin s (negsuc q) b p = refl

  -- One relay more: it may be of the group (`c`), and its pin may be the one asked for.
  level-one_more :
      (c d : Bool) (q : ℤ) (ps : List ℤ) (b : Bool) (p : ℕ)
      → ((t : Pins) → level (write_pins g t ps b) p ≡ (if d then b else level t p))
      → (s : Pins)
      → level (write_pins g s (if c then q ∷ ps else ps) b) p
        ≡ (if (if c && (q ==ℤ pos p) then true else d) then b else level s p)
  unfolding write_pins
  level-one_more false d q ps b p others s = others s
  level-one_more true d q ps b p others s =
      others (write_pin g s q b)
      ∙ ap (λ l. if d then b else l) (level-write_pin s q b p)
      ∙ choose d (q ==ℤ pos p) b (level s p)

  level-write_pins :
      (rs : List RelayInfo) (group : ℤ) (b : Bool) (p : ℕ) (s : Pins)
      → level (write_pins g s (group_pins rs group) b) p
        ≡ (if drives rs group p then b else level s p)
  unfolding group_pins drives write_pins
  level-write_pins [] group b p s = refl
  level-write_pins (r ∷ rs) group b p s =
      level-one_more (r.connected && (r.group ==ℤ group)) (drives rs group p) r.pin
        (group_pins rs group) b p (level-write_pins rs group b p) s

  -- Switching a group on or off sets the level of exactly the pins of its connected relays, leaves
  -- every other pin alone, and tells the master nothing; switching it off also sends the infrared
  -- code, once, if the infrared sender is connected and in the group, and switching it on never.
  pub switch_group_lem :
      {Store Timers : Type 0} (s : Slave Store Pins Timers) (group : ℤ) (p : ℕ)
      → (level (turn_on_group g s group).pins p
          ≡ (if drives s.relays group p then true else level s.pins p))
        × (level (turn_off_group g s group).pins p
            ≡ (if drives s.relays group p then false else level s.pins p))
        × ((turn_on_group g s group).sent ≡ s.sent)
        × ((turn_off_group g s group).sent
            ≡ s.sent
              ++ (if is_connected s.ir_control_pin && (s.ir_control_group ==ℤ group)
                  then send_code ∷ []
                  else []))
  unfolding turn_on_group turn_off_group
  switch_group_lem s group p =
      let c = is_connected s.ir_control_pin && (s.ir_control_group ==ℤ group) in
      let off = record s { pins = write_pins g s.pins (group_pins s.relays group) false } in
      let (same, more) = if_sends c off in
      (
        level-write_pins s.relays group true p s.pins,
        ap (λ q. level q p) same ∙ level-write_pins s.relays group false p s.pins,
        refl,
        more,
      )
