-- ===== src/Slave/Resending.antt =====
-- Messages that are sent again until the master answers.
use spu_energy_efficient_sys.Common.{
  ℕ, zero, suc, ◌+◌, ◌<◌, ◌≡◌, refl, ap, ◌∙◌, true, false, List, [], ◌∷◌, ◌++◌, pos, to_byte,
  if◌then◌else◌, append-nil, append_assoc, arith, sym, Option, none, some, ◌>>=◌,
}
use spu_energy_efficient_sys.Alarms.{
  Alarms, TimerFunction, resends_last_message, sleeps_groups, enables_pir,
}
use spu_energy_efficient_sys.Spu.{pending_response_state, max_packet_size}
use spu_energy_efficient_sys.Slave.{
  Slave, Output, datagram, send_packet, set_resend_alarm, send_message, resend_last_message,
  resend_time,
}

-- `n` datagrams with a message, under successive numbers from `k` on.
abbrev pub repeats : ℕ → ℕ → ℕ → List Output
repeats code k zero = []
repeats code k (suc n) =
    datagram (to_byte (pos code) ∷ to_byte (pos k) ∷ []) ∷ repeats code (k + 1) n

-- What a timer calls, if it ran.
abbrev call_timer :
    (a : Alarms) {Store Pins : Type 0}
    → Slave Store Pins a.Timers
    → Option (TimerFunction × a.Timers)
    → Option (Slave Store Pins a.Timers)
call_timer a s none = some s
call_timer a s (some (resends_last_message, rest)) =
    resend_last_message a (record s { timers = rest })
call_timer a s (some (sleeps_groups, rest)) = some s
call_timer a s (some (enables_pir, rest)) = some s

-- The timer of `resendAlarm` runs out, if there is one that runs.
abbrev pub timeout :
    (a : Alarms) {Store Pins : Type 0}
    → Slave Store Pins a.Timers
    → Option (Slave Store Pins a.Timers)
timeout a s = call_timer a s (a.expire s.timers s.resend_alarm)

five : 0 < resend_time
five = ground arith

module _ (a : Alarms) {Store Pins : Type 0} where
  open a use {Timers, timer_once, expire, has_slot, expire-timer_once}

  -- The timer of `resendAlarm` gets the time to run out `n` times.
  abbrev pub timeouts : Slave Store Pins Timers → ℕ → Option (Slave Store Pins Timers)
  timeouts s zero = some s
  timeouts s (suc n) = timeout a s >>= λ t. timeouts t n

  -- A message is outstanding and its timer runs.
  record Waits (s : Slave Store Pins Timers) (code : ℕ) : Type 0 where
    pub msg : s.sent_msg ≡ code
    pub packet : s.packet_sent ≡ false
    pub state : s.master_state ≡ pending_response_state
    pub rest : Timers
    pub runs : expire s.timers s.resend_alarm ≡ some (resends_last_message, rest)
    pub slot : has_slot rest ≡ true

  send_message-Waits :
      (s : Slave Store Pins Timers) (code : ℕ)
      → has_slot s.timers ≡ true
      → Waits (send_message a s code true) code
  unfolding send_message set_resend_alarm
  send_message-Waits s code free =
      let (rest, runs, slot) =
        expire-timer_once s.timers resend_time resends_last_message five free in
      record { msg = refl; packet = refl; state = refl; rest = rest; runs = runs; slot = slot }

  send_message_sent :
      (s : Slave Store Pins Timers) (code : ℕ)
      → ((send_message a s code true).sent ≡ s.sent ++ repeats code s.sent_msg_number 1)
        × ((send_message a s code true).sent_msg_number ≡ s.sent_msg_number + 1)
  unfolding send_message set_resend_alarm
  send_message_sent s code = (refl, refl)

  resend_message :
      (s : Slave Store Pins Timers) (code : ℕ)
      → s.sent_msg ≡ code
      → s.packet_sent ≡ false
      → resend_last_message a s ≡ some (send_message a s code true)
  unfolding resend_last_message
  resend_message s code msg packet =
      ap
        (λ b.
          if b
          then send_packet s s.sent_packet_code s.sent_packet max_packet_size
          else some (send_message a s s.sent_msg true))
        packet
      ∙ ap (λ c. some (send_message a s c true)) msg

  timeout_lem :
      (s : Slave Store Pins Timers) (code : ℕ) (h : Waits s code)
      → timeout a s ≡ some (send_message a (record s { timers = h.rest }) code true)
  timeout_lem s code h =
      ap (call_timer a s) h.runs ∙ resend_message (record s { timers = h.rest }) code h.msg h.packet

  -- `t` is `s` after the message has been sent `n` times more.
  record Resent (s : Slave Store Pins Timers) (code n : ℕ) (t : Slave Store Pins Timers)
      : Type 0 where
    pub waits : Waits t code
    pub sends : t.sent ≡ s.sent ++ repeats code s.sent_msg_number n
    pub counts : t.sent_msg_number ≡ s.sent_msg_number + n

  send_message-Resent :
      (s : Slave Store Pins Timers) (code n : ℕ) (t : Slave Store Pins Timers)
      → Resent (send_message a s code true) code n t
      → Resent s code (suc n) t
  send_message-Resent s code n t h =
      let (sent, number) = send_message_sent s code in
      record {
        waits = h.waits;
        sends =
            h.sends
            ∙ ap (λ k. (send_message a s code true).sent ++ repeats code k n) number
            ∙ ap (λ l. l ++ repeats code (s.sent_msg_number + 1) n) sent
            ∙ append_assoc s.sent (repeats code s.sent_msg_number 1)
                (repeats code (s.sent_msg_number + 1) n);
        counts = h.counts ∙ ap (λ k. k + n) number ∙ omega arith;
      }

  timeouts-Resent :
      (n : ℕ) (s : Slave Store Pins Timers) (code : ℕ)
      → Waits s code
      → (t : Slave Store Pins Timers) × (timeouts s n ≡ some t) × Resent s code n t
  timeouts-Resent zero s code h =
      (s, refl, record { waits = h; sends = sym (append-nil s.sent); counts = omega arith })
  timeouts-Resent (suc n) s code h =
      let s' : Slave Store Pins Timers = record s { timers = h.rest } in
      let (t, done, resent) =
        timeouts-Resent n (send_message a s' code true) code (send_message-Waits s' code h.slot) in
      let all = send_message-Resent s' code n t resent in
      (
        t,
        ap (λ o. o >>= λ t'. timeouts t' n) (timeout_lem s code h) ∙ done,
        record { waits = all.waits; sends = all.sends; counts = all.counts },
      )

  -- A message to be answered is sent at once, and while no answer comes again under the next number
  -- each time that the timer has run out: after any number of times the timer runs anew and will
  -- call `resendLastMessage`, and the slave waits for the answer. The library of timers has a slot
  -- for the timer when the message is sent.
  pub timeouts_lem :
      (s : Slave Store Pins Timers) (code n : ℕ)
      → has_slot s.timers ≡ true
      → (t : Slave Store Pins Timers) × (timeouts (send_message a s code true) n ≡ some t)
        × (t.sent ≡ s.sent ++ repeats code s.sent_msg_number (suc n))
        × (t.sent_msg_number ≡ s.sent_msg_number + suc n)
        × ((rest : Timers) × (expire t.timers t.resend_alarm ≡ some (resends_last_message, rest)))
        × (t.master_state ≡ pending_response_state)
  timeouts_lem s code n free =
      let (t, done, resent) =
        timeouts-Resent n (send_message a s code true) code (send_message-Waits s code free) in
      let all = send_message-Resent s code n t resent in
      (t, done, all.sends, all.counts, (all.waits.rest, all.waits.runs), all.waits.state)
