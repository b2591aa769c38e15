-- ===== src/Slave/Waiting.antt =====
-- How the waits of a slave for the network and the master end.
use spu_energy_efficient_sys.Common.{
  ℕ, zero, suc, ◌+◌, ◌-◌, ◌<◌, ◌≤◌, ◌≡◌, ◌≢◌, refl, sym, ap, ◌∙◌, Bool, true, false, Option, none,
  some, List, [], ◌∷◌, ◌++◌, ◌==◌, if◌then◌else◌, arith, append_assoc, ltb→lt, Bool-cases,
  Option-cases, inl, inr, ◌⊎◌, ltb, leb, ◌&&◌,
}
use spu_energy_efficient_sys.Eeprom.{Eeprom}
use spu_energy_efficient_sys.Alarms.{Alarms}
use spu_energy_efficient_sys.Spu.{
  received_msg, connection_msg, running_state, pending_response_state,
}
use spu_energy_efficient_sys.Slave.{Slave, restart, send_message, set_resend_alarm}
use spu_energy_efficient_sys.Slave.Resending.{repeats}
use spu_energy_efficient_sys.Slave.Connection.{
  continues, restarts, Surroundings, reset, await_master, connect_to_master,
}

-- At none of the polls from the `i`-th on and before the `j`-th there is a packet.
abbrev pub Quiet : (ℕ → Option (List ℕ)) → ℕ → ℕ → Type 0
Quiet arrivals i j = (l : ℕ) → i ≤ l → l < j → arrivals l ≡ none

same_index : (i l : ℕ) → i ≤ l → ltb i l ≡ false → l ≡ i
same_index i l u ge = ground (arith, u, ge)

later :
    (arrivals : ℕ → Option (List ℕ)) (i j : ℕ)
    → arrivals i ≡ none
    → Quiet arrivals (i + 1) j
    → Quiet arrivals i j
later arrivals i j here quiet l u v = elim (Bool-cases (ltb i l)) [
  | inl lt ↦ quiet l (omega (arith, ltb→lt i l lt)) v
  | inr ge ↦ ap arrivals (same_index i l u ge) ∙ here
]

-- Either `k` polls find nothing, or one of them is the first to find a packet.
first_arrival :
    (arrivals : ℕ → Option (List ℕ)) (k i : ℕ)
    → Quiet arrivals i (i + k)
      ⊎ ((n : ℕ) × (m : List ℕ) × (n < k) × Quiet arrivals i (i + n) × (arrivals (i + n) ≡ some m))
first_arrival arrivals zero i = inl (λ l u v. absurd (omega (arith, u, v)))
first_arrival arrivals (suc k) i = elim (Option-cases (arrivals i)) [
  | inr (m, here) ↦
      inr
        (0, m, omega arith, λ l u v. absurd (omega (arith, u, v)), ap arrivals (omega arith) ∙ here)
  | inl none_here ↦ elim (first_arrival arrivals k (i + 1)) [
    | inl quiet ↦
        inl (later arrivals i (i + suc k) none_here (λ l u v. quiet l u (omega (arith, v))))
    | inr (n, m, lt, quiet, there) ↦ inr (
      suc n,
      m,
      omega (arith, lt),
      later arrivals i (i + suc n) none_here (λ l u v. quiet l u (omega (arith, v))),
      ap arrivals (omega arith) ∙ there,
    )
  ]
]

too_few : (i : ℕ) → (ltb i 5 && leb 5 (i + 0)) ≡ false
too_few i = ground arith

too_late : (i n : ℕ) → (i + 1 == 5) ≡ true → (ltb (i + 1) 5 && leb 5 (i + 1 + n)) ≡ false
too_late i n h = ground (arith, h)

in_time : (i n : ℕ) → (i + 1 == 5) ≡ true → (ltb i 5 && leb 5 (i + suc n)) ≡ true
in_time i n h = ground (arith, h)

no_change :
    (i n : ℕ)
    → (i + 1 == 5) ≡ false
    → (ltb (i + 1) 5 && leb 5 (i + 1 + n)) ≡ (ltb i 5 && leb 5 (i + suc n))
no_change i n h = ground (arith, h)

module _ (e : Eeprom) (a : Alarms) {Pins : Type 0} where
  open e use {Store}
  open a use {Timers}

  -- The poll that finds nothing, and the one that finds a packet.
  await_master-none :
      (u : Surroundings) (s : Slave Store Pins Timers) (i k : ℕ)
      → u.arrivals i ≡ none
      → await_master e a u s i (suc k)
        ≡ await_master e a u
            (if i + 1 == 5 then send_message a s connection_msg true else s)
            (i + 1)
            k
  unfolding await_master
  await_master-none u s i k h = rw (h, await_master) refl

  await_master-some :
      (u : Surroundings) (s : Slave Store Pins Timers) (i k c : ℕ) (cs : List ℕ)
      → u.arrivals i ≡ some (c ∷ cs)
      → await_master e a u s i (suc k)
        ≡ continues (if c == received_msg then record s { master_state = running_state } else s)
  unfolding await_master
  await_master-some u s i k c cs h = rw (h, await_master) refl

  -- The slave after `n` polls, from the `i`-th on, that found nothing.
  abbrev waiting : Slave Store Pins Timers → ℕ → ℕ → Slave Store Pins Timers
  waiting s i zero = s
  waiting s i (suc n) =
      waiting (if i + 1 == 5 then send_message a s connection_msg true else s) (i + 1) n

  await_master-waiting :
      (u : Surroundings) (n : ℕ) (s : Slave Store Pins Timers) (i k : ℕ)
      → Quiet u.arrivals i (i + n)
      → await_master e a u s i (n + k) ≡ await_master e a u (waiting s i n) (i + n) k
  await_master-waiting u zero s i k quiet =
      ap (λ m. await_master e a u s i m) (omega arith)
      ∙ ap (λ m. await_master e a u s m k) (omega arith)
  await_master-waiting u (suc n) s i k quiet =
      let s' = if i + 1 == 5 then send_message a s connection_msg true else s in
      ap (λ m. await_master e a u s i m) (omega arith)
      ∙ await_master-none u s i (n + k) (quiet i (omega arith) (omega arith))
      ∙ await_master-waiting u n s' (i + 1) k
          (λ l v w. quiet l (omega (arith, v)) (omega (arith, w)))
      ∙ ap (λ m. await_master e a u (waiting s' (i + 1) n) m k) (omega arith)

  -- The request is sent again in the fifth of those polls.
  waiting_lem :
      (n : ℕ) (s : Slave Store Pins Timers) (i : ℕ)
      → waiting s i n
        ≡ (if ltb i 5 && leb 5 (i + n) then send_message a s connection_msg true else s)
  waiting_lem zero s i =
      ap (λ c. if c then send_message a s connection_msg true else s) (sym (too_few i))
  waiting_lem (suc n) s i =
      let f = send_message a s connection_msg true in
      elim (Bool-cases (i + 1 == 5)) [
        | inl fifth ↦
            ap (λ c. waiting (if c then f else s) (i + 1) n) fifth
            ∙ waiting_lem n f (i + 1)
            ∙ ap (λ c. if c then send_message a f connection_msg true else f) (too_late i n fifth)
            ∙ ap (λ c. if c then f else s) (sym (in_time i n fifth))
        | inr other ↦
            ap (λ c. waiting (if c then f else s) (i + 1) n) other
            ∙ waiting_lem n s (i + 1)
            ∙ ap (λ c. if c then f else s) (no_change i n other)
      ]

  -- The slave that has asked for its master, twice or once.
  asked : Slave Store Pins Timers → Bool → Slave Store Pins Timers
  asked s again =
      let s1 = send_message a s connection_msg true in
      if again then send_message a s1 connection_msg true else s1

  asked_sent :
      (s : Slave Store Pins Timers) (again : Bool)
      → (asked s again).sent
        ≡ s.sent ++ repeats connection_msg s.sent_msg_number (if again then 2 else 1)
  unfolding asked send_message set_resend_alarm
  asked_sent s true = append_assoc s.sent _ _
  asked_sent s false = refl

  asked_state :
      (s : Slave Store Pins Timers) (again : Bool)
      → (asked s again).master_state ≡ pending_response_state
  unfolding asked send_message set_resend_alarm
  asked_state s true = refl
  asked_state s false = refl

  connect_to_master-asked :
      (u : Surroundings) (s : Slave Store Pins Timers) (n k : ℕ)
      → n + k ≡ 10
      → Quiet u.arrivals 0 n
      → connect_to_master e a u s ≡ await_master e a u (asked s (leb 5 n)) n k
  unfolding connect_to_master asked
  connect_to_master-asked u s n k ten quiet =
      let s1 = send_message a s connection_msg true in
      ap (λ m. await_master e a u s1 0 m) (sym ten)
      ∙ await_master-waiting u n s1 0 k (λ l v w. quiet l v (omega (arith, w)))
      ∙ ap (λ t. await_master e a u t (0 + n) k) (waiting_lem n s1 0)
      ∙ ap
          (λ m.
            await_master e a u (if leb 5 m then send_message a s1 connection_msg true else s1) m k)
          (omega arith)

  -- What the slave makes of the packet that it was waiting for.
  greet : Slave Store Pins Timers → ℕ → Slave Store Pins Timers
  greet s c = if c == received_msg then record s { master_state = running_state } else s

  greet_lem :
      (s : Slave Store Pins Timers) (c : ℕ)
      → ((greet s c).sent ≡ s.sent)
        × ((greet s c).master_state ≡ (if c == received_msg then running_state else s.master_state))
  unfolding greet
  greet_lem s c = ground arith

  connect_to_master-some :
      (u : Surroundings) (s : Slave Store Pins Timers) (n c : ℕ) (cs : List ℕ)
      → n < 10
      → Quiet u.arrivals 0 n
      → u.arrivals n ≡ some (c ∷ cs)
      → connect_to_master e a u s ≡ continues (greet (asked s (leb 5 n)) c)
  unfolding greet
  connect_to_master-some u s n c cs lt quiet here =
      connect_to_master-asked u s n (suc (9 - n)) (omega (arith, lt)) quiet
      ∙ await_master-some u (asked s (leb 5 n)) n (9 - n) c cs here

  connect_to_master-none :
      (u : Surroundings) (s : Slave Store Pins Timers)
      → Quiet u.arrivals 0 10
      → connect_to_master e a u s ≡ restarts (reset (asked s true))
  unfolding await_master
  connect_to_master-none u s quiet = connect_to_master-asked u s 10 0 (omega arith) quiet

  -- Asking for the master ends. When the `n`-th of ten polls is the first to find a packet, the
  -- slave goes on, having asked twice if five polls found nothing and once if not; it is in the
  -- running state if the packet starts with `RECEIVED_MSG`, and waits for a response if not. When
  -- no poll finds a packet, it has asked twice and restarts. (A packet has at least one byte.)
  pub connect_to_master_lem :
      (u : Surroundings) (s : Slave Store Pins Timers)
      → ((l : ℕ) → u.arrivals l ≢ some [])
      → (Quiet u.arrivals 0 10
          × (r : Slave Store Pins Timers) × (connect_to_master e a u s ≡ restarts r)
          × (r.sent ≡ s.sent ++ (repeats connection_msg s.sent_msg_number 2 ++ (restart ∷ []))))
        ⊎ ((n c : ℕ) × (cs : List ℕ) × (n < 10)
            × Quiet u.arrivals 0 n
            × (u.arrivals n ≡ some (c ∷ cs))
            × (t : Slave Store Pins Timers) × (connect_to_master e a u s ≡ continues t)
            × (t.sent
                ≡ s.sent ++ repeats connection_msg s.sent_msg_number (if leb 5 n then 2 else 1))
            × (t.master_state
                ≡ (if c == received_msg then running_state else pending_response_state)))
  connect_to_master_lem u s filled = elim (first_arrival u.arrivals 10 0) [
    | inl quiet ↦ inl (
      quiet,
      reset (asked s true),
      connect_to_master-none u s quiet,
      ap (λ l. l ++ (restart ∷ [])) (asked_sent s true) ∙ append_assoc s.sent _ _,
    )
    | inr (n, [], lt, quiet, here) ↦ absurd (filled n (ap u.arrivals (omega arith) ∙ here))
    | inr (n, c ∷ cs, lt, before, there) ↦
        let quiet : Quiet u.arrivals 0 n = λ l v w. before l v (omega (arith, w)) in
        let here : u.arrivals n ≡ some (c ∷ cs) = ap u.arrivals (omega arith) ∙ there in
        let (sent, state) = greet_lem (asked s (leb 5 n)) c in
        inr (
          n,
          c,
          cs,
          lt,
          quiet,
          here,
          greet (asked s (leb 5 n)) c,
          connect_to_master-some u s n c cs lt quiet here,
          sent ∙ asked_sent s (leb 5 n),
          state
              ∙ ap (λ m. if c == received_msg then running_state else m) (asked_state s (leb 5 n)),
        )
  ]
