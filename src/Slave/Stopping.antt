-- ===== src/Slave/Stopping.antt =====
-- The end of the sending again: the answer of the master.
use spu_energy_efficient_sys.Common.{
  ℕ, suc, ◌≡◌, ◌≢◌, refl, ap, ◌∙◌, true, false, none, ◌++◌, ◌==◌, if◌then◌else◌, Bool-cases, inl,
  inr, ==_iff, sym, subst, some, no_flag,
}
use spu_energy_efficient_sys.Eeprom.{Eeprom}
use spu_energy_efficient_sys.Gpio.{Gpio}
use spu_energy_efficient_sys.Alarms.{Alarms}
use spu_energy_efficient_sys.Spu.{
  sensor_info_msg, running_state, pending_response_state, alarm_not_set,
}
use spu_energy_efficient_sys.Slave.{Slave, send_message}
use spu_energy_efficient_sys.Slave.Sensors.{Wiring}
use spu_energy_efficient_sys.Slave.Connection.{Surroundings}
use spu_energy_efficient_sys.Slave.Handling.{handle_message}
use spu_energy_efficient_sys.Slave.Resending.{repeats, timeouts, timeouts_lem}
use spu_energy_efficient_sys.Slave.Answers.{
  reply, alarm_after, timers_after, Handled, unreadable, handle_message_lem,
}

test_false : (code : ℕ) → code ≢ sensor_info_msg → (code == sensor_info_msg) ≡ false
test_false code h = elim (Bool-cases (code == sensor_info_msg)) [
  | inl same ↦ absurd (h ((==_iff code sensor_info_msg).0 same))
  | inr other ↦ other
]

readable : (behind code : ℕ) → (code == sensor_info_msg) ≡ false → unreadable behind code ≡ false
readable behind code h = rw h refl

module _ (e : Eeprom) (g : Gpio) (a : Alarms) (w : Wiring) where
  -- What a slave that waited has done with such a message.
  settle :
      (t t' : Slave e.Store g.Pins a.Timers) (answer : ℕ)
      → (t.master_state == pending_response_state) ≡ true
      → (answer == sensor_info_msg) ≡ false
      → Handled e g a w t (t.master_state == pending_response_state) answer t'
      → (t'.sent ≡ t.sent ++ reply t answer)
        × (t'.master_state ≡ running_state)
        × (t'.resend_alarm ≡ alarm_not_set)
        × (t'.timers ≡ a.free t.timers t.resend_alarm)
  settle t t' answer pending not_info h =
      let (sends, counts, state, alarm, timers, pins) =
        subst (λ b. Handled e g a w t b answer t') pending h in
      (
        sends,
        state ∙ ap (λ b. if b then pending_response_state else running_state) not_info,
        alarm
            ∙ ap
                (λ b.
                  if b
                  then alarm_after a (a.free t.timers t.resend_alarm) alarm_not_set sensor_info_msg
                  else alarm_not_set)
                not_info,
        timers
            ∙ ap
                (λ b.
                  if b
                  then timers_after a (a.free t.timers t.resend_alarm) sensor_info_msg
                  else a.free t.timers t.resend_alarm)
                not_info,
      )

  -- A message is sent, and sent again `n` times as its timer runs out, before a message of the master
  -- comes that does not ask for the sensors and groups: the slave answers that one, runs again, and
  -- the timer that it waited with does not run any more. The library of timers has a slot for the
  -- timer when the message is sent.
  pub handle_message-timeouts :
      (u : Surroundings) (s : Slave e.Store g.Pins a.Timers) (code n answer : ℕ)
      → a.has_slot s.timers ≡ true
      → answer ≢ sensor_info_msg
      → (t t' : Slave e.Store g.Pins a.Timers) × (timeouts a (send_message a s code true) n
          ≡ some t)
        × (handle_message e g a w u t answer ≡ some t')
        × (t'.sent ≡ (s.sent ++ repeats code s.sent_msg_number (suc n)) ++ reply t answer)
        × (t'.master_state ≡ running_state)
        × (a.expire t'.timers t.resend_alarm ≡ none)
        × (t'.resend_alarm ≡ alarm_not_set)
  handle_message-timeouts u s code n answer free other =
      let (t, done, sent, number, running, waits) = timeouts_lem a s code n free in
      let pending : (t.master_state == pending_response_state) ≡ true =
        ap (λ x. x == pending_response_state) waits in
      let not_info = test_false answer other in
      elim (handle_message_lem e g a w u t answer) [
        | inl (short, faults) ↦ no_flag (sym (readable u.behind answer not_info) ∙ short)
        | inr (t', handled, _, h) ↦
            let (sends, state, alarm, timers) = settle t t' answer pending not_info h in
            (
              t,
              t',
              done,
              handled,
              sends ∙ ap (λ l. l ++ reply t answer) sent,
              state,
              ap (λ x. a.expire x t.resend_alarm) timers ∙ a.expire-free t.timers t.resend_alarm,
              alarm,
            )
      ]
