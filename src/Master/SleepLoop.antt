-- ===== src/Master/SleepLoop.antt =====
-- The loop that puts groups to sleep ends, and which groups it puts to sleep.
use spu_energy_efficient_sys.Common.{
  ℕ, zero, suc, ◌≤◌, ◌<◌, ◌≡◌, refl, sym, ap, ◌∙◌, true, false, Option, none, some, List, [], ◌∷◌,
  ◌++◌, ℤ, pos, negsuc, get_elem?, set, ◌>>=◌, leb, map, if◌then◌else◌, arith, Bool-cases, inl, inr,
  ◌⊎◌,
}
use spu_energy_efficient_sys.Fifo.{Fifo}
use spu_energy_efficient_sys.Gpio.{Gpio}
use spu_energy_efficient_sys.Spu.{turn_off_group_msg}
use spu_energy_efficient_sys.Node.{Packet, Node, Datagram, send_packet, enqueue}
use spu_energy_efficient_sys.Master.{
  Master, Group, Ip, Broadcast, global_packet, send_global_packet, turn_off_group, sleep_group,
  switch_own,
}
use spu_energy_efficient_sys.Master.Motion.{
  is_awake, get_next_sleeping_group, group_at, sleep_while,
}
use spu_energy_efficient_sys.Master.Dozing.{
  awake_count, slept, AllFrom, doze, get_next_sleeping_group-Found, map-doze_self, map-set-slept,
  awake_count-set, AllFrom-weaken,
}

leb→lt : (a b : ℕ) → leb a b ≡ false → b < a
leb→lt a b h = ground (arith, h)

leb→le : (a b : ℕ) → leb a b ≡ true → a ≤ b
leb→le a b h = ground (arith, h)

fewer :
    (xs ys : List Group) (i : ℕ) (x : Group) (k : ℕ)
    → get_elem? xs i ≡ some x
    → is_awake x ≡ true
    → ys ≡ set xs i (slept x)
    → awake_count xs < suc k
    → awake_count ys < k
fewer xs ys i x k here awake eq h =
    let one = awake_count-set xs i x here awake in
    let same = ap awake_count eq in omega (arith, one, same, h)

module _ (f : Fifo Packet) where
  open f use {Queue}

  -- A packet of one word always fits.
  global_packet-one :
      (ns : List (Node Queue Ip)) (code : ℕ) (w : ℤ)
      → (b : Broadcast Queue) × (global_packet f ns code (w ∷ []) ≡ some b)
  unfolding global_packet send_packet
  global_packet-one [] code w = (([], []), refl)
  global_packet-one (n ∷ ns) code w =
      let (b, sent) = global_packet-one ns code w in
      let (n', out) : Node Queue Ip × List (Datagram Ip) = enqueue f n (pos code ∷ w ∷ []) in
      ((n' ∷ b.0, out ++ b.1), ap (λ o. o >>= λ (ns', more). some (n' ∷ ns', out ++ more)) sent)

module _ (f : Fifo Packet) (g : Gpio) {Store Timers : Type 0} where
  open f use {Queue}
  open g use {Pins}

  -- What putting groups to sleep leaves alone.
  abbrev pub Kept : Master Queue Store Pins Timers → Master Queue Store Pins Timers → Type 0
  Kept m m' = (m'.pir ≡ m.pir) × (m'.motion_alarm ≡ m.motion_alarm) × (m'.timers ≡ m.timers)

  pub sleep_group-some :
      (m : Master Queue Store Pins Timers) (i : ℕ) (x : Group)
      → get_elem? m.groups i ≡ some x
      → (m' : Master Queue Store Pins Timers) × (sleep_group f g m i ≡ some m')
        × (m'.groups ≡ set m.groups i (slept x))
        × Kept m m'
  unfolding sleep_group turn_off_group send_global_packet
  sleep_group-some m i x here =
      let (b, sent) = global_packet-one f m.nodes turn_off_group_msg (pos i) in
      let m0 = switch_own f g m i false in
      let m1 = record m0 { nodes = b.0; sent = m.sent ++ b.1 } in
      let done = λ (m' : Master Queue Store Pins Timers) (y : Group). record m' {
        groups = set m'.groups i (slept y);
      } in
      (
        done m1 x,
        ap
              (λ o.
                (o >>= λ (nodes, out). some (record m0 { nodes = nodes; sent = m.sent ++ out }))
                >>= λ m'. get_elem? m'.groups i >>= λ y. some (done m' y))
              sent
            ∙ ap (λ o. o >>= λ y. some (done m1 y)) here,
        refl,
        (refl, refl, refl),
      )

  -- What the loop does: all groups doze, and it stops at one that is still awake, if there is one.
  abbrev pub Slept : Master Queue Store Pins Timers → ℕ → ℕ → Type 0
  Slept m t k =
      (m' : Master Queue Store Pins Timers) × (next : Option (ℕ × Group)) × (sleep_while f g m t k
        ≡ some (m', next))
      × (m'.groups ≡ map (doze t) m.groups)
      × Kept m m'
      × (((next ≡ none) × AllFrom 65536 m'.groups)
          ⊎ ((i : ℕ) × (y : Group) × (next ≡ some (i, y))
              × (get_elem? m'.groups i ≡ some y)
              × (is_awake y ≡ true)
              × (t < y.motion_detection_time)
              × AllFrom y.motion_detection_time m'.groups))

  sleep_while-none :
      (m : Master Queue Store Pins Timers) (t k : ℕ)
      → get_next_sleeping_group m.groups ≡ negsuc 0
      → sleep_while f g m t (suc k) ≡ some (m, none)
  unfolding sleep_while group_at
  sleep_while-none m t k h = rw (h, sleep_while) refl

  sleep_while-found :
      (m : Master Queue Store Pins Timers) (t k i : ℕ) (x : Group)
      → get_next_sleeping_group m.groups ≡ pos i
      → get_elem? m.groups i ≡ some x
      → sleep_while f g m t (suc k) ≡ (
          if leb x.motion_detection_time t
          then (sleep_group f g m i >>= λ m'. sleep_while f g m' t k)
          else some (m, some (i, x)))
  unfolding sleep_while group_at
  sleep_while-found m t k i x h here = rw (h, here, sleep_while) refl

  -- One group goes to sleep, and the loop goes on.
  Slept-step :
      (m m1 : Master Queue Store Pins Timers) (t k i : ℕ) (x : Group)
      → get_elem? m.groups i ≡ some x
      → is_awake x ≡ true
      → x.motion_detection_time ≤ t
      → sleep_while f g m t (suc k) ≡ sleep_while f g m1 t k
      → m1.groups ≡ set m.groups i (slept x)
      → Kept m m1
      → Slept m1 t k
      → Slept m t (suc k)
  Slept-step m m1 t k i x here awake soon step groups (pir, alarm, timers)
        (m', next, done, dozed, (pir', alarm', timers'), end) =
      (
        m',
        next,
        step ∙ done,
        dozed ∙ ap (map (doze t)) groups ∙ map-set-slept m.groups i t x here awake soon,
        (pir' ∙ pir, alarm' ∙ alarm, timers' ∙ timers),
        end,
      )

  pub sleep_while-Slept :
      (k : ℕ) (m : Master Queue Store Pins Timers) (t : ℕ)
      → t < 65536
      → awake_count m.groups < k
      → Slept m t k
  sleep_while-Slept zero m t small enough = absurd (omega (arith, enough))
  sleep_while-Slept (suc k) m t small enough = elim (get_next_sleeping_group-Found m.groups) [
    | inl (nothing, all) ↦ (
      m,
      none,
      sleep_while-none m t k nothing,
      sym (
          map-doze_self m.groups t
            (AllFrom-weaken m.groups 65536 (suc t) (omega (arith, small)) all)),
      (refl, refl, refl),
      inl (refl, all),
    )
    | inr (i, x, at_i, here, awake, _, all) ↦
        let step = sleep_while-found m t k i x (at_i ∙ ap pos (omega arith)) here in
        elim (Bool-cases (leb x.motion_detection_time t)) [
          | inl early ↦
              let soon = leb→le x.motion_detection_time t early in
              let (m1, done, groups, kept) = sleep_group-some m i x here in
              Slept-step m m1 t k i x here awake soon
                (step
                  ∙ ap
                      (λ b.
                        if b
                        then (sleep_group f g m i >>= λ m'. sleep_while f g m' t k)
                        else some (m, some (i, x)))
                      early
                  ∙ ap (λ o. o >>= λ m'. sleep_while f g m' t k) done)
                groups kept
                (sleep_while-Slept k m1 t small
                  (fewer m.groups m1.groups i x k here awake groups enough))
          | inr later ↦
              let after : t < x.motion_detection_time = leb→lt x.motion_detection_time t later in
              (
                m,
                some (i, x),
                step
                    ∙ ap
                        (λ b.
                          if b
                          then (sleep_group f g m i >>= λ m'. sleep_while f g m' t k)
                          else some (m, some (i, x)))
                        later,
                sym (map-doze_self m.groups t (AllFrom-weaken m.groups _ (suc t) after all)),
                (refl, refl, refl),
                inr (i, x, refl, here, awake, after, all),
              )
        ]
  ]
