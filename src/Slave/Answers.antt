-- ===== src/Slave/Answers.antt =====
-- What a slave answers to a message of its master.
use spu_energy_efficient_sys.Common.{
  ℕ, ◌+◌, ◌≡◌, refl, sym, Bool, true, false, List, [], ◌∷◌, ◌++◌, pos, to_byte, ℤ, ◌==◌, ◌&&◌,
  if◌then◌else◌, arith, append-nil, subst, ==_iff, Bool-cases, inl, inr, ltb, Option, none, some,
  ◌⊎◌,
}
use spu_energy_efficient_sys.Eeprom.{Eeprom}
use spu_energy_efficient_sys.Gpio.{Gpio}
use spu_energy_efficient_sys.Alarms.{Alarms, resends_last_message}
use spu_energy_efficient_sys.Spu.{
  state_msg, received_msg, sensor_data_msg, sensor_info_msg, running_state, pending_response_state,
  alarm_not_set, connect_pir_msg, disconnect_pir_msg, connect_temperature_msg,
  disconnect_temperature_msg, disconnect_ir_control_msg, max_packet_size, max_slave_relay_amount,
}
use spu_energy_efficient_sys.Slave.{
  Slave, Output, datagram, packet_bytes, send_ack, send_packet, send_message, set_resend_alarm,
  stop_resending, resend_time,
}
use spu_energy_efficient_sys.Slave.Sensors.{
  Wiring, sensor_info, sensor_data, write_sensors, init_pir, disconnect_pir,
  init_temperature_sensor, disconnect_temperature_sensor, disconnect_ir_control, send_sensor_info,
  send_sensor_data,
}
use spu_energy_efficient_sys.Slave.Connection.{Surroundings}
use spu_energy_efficient_sys.Slave.Handling.{answer, handle_message}

-- How many messages go out, and the state afterwards.
abbrev pub replies : ℕ → ℕ
replies code = if code == received_msg then 0 else 1

abbrev pub state_after : ℕ → ℕ → ℕ
state_after state code = if code == sensor_info_msg then pending_response_state else state

module _ {Store Pins Timers : Type 0} where
  -- The bytes of the answer to a message, if it has one.
  abbrev pub reply : Slave Store Pins Timers → ℕ → List Output
  reply s code =
      if code == received_msg
      then []
      else if code == state_msg
      then datagram (running_state ∷ to_byte (pos s.sent_msg_number) ∷ []) ∷ []
      else if code == sensor_data_msg
      then datagram (packet_bytes sensor_data_msg (sensor_data s) s.sent_msg_number) ∷ []
      else if code == sensor_info_msg
      then datagram (packet_bytes sensor_info_msg (sensor_info s) s.sent_msg_number) ∷ []
      else datagram (received_msg ∷ to_byte (pos s.sent_msg_number) ∷ []) ∷ []

-- `sendPacket` cannot read what it copies, where `behind` words can be read behind the array.
abbrev pub unreadable : ℕ → ℕ → Bool
unreadable behind code =
    code == sensor_info_msg && ltb (max_slave_relay_amount + 2 + behind) max_packet_size

-- The timer of `resendAlarm` and all timers after an answer: only the sensors and groups are sent with
-- a new timer.
abbrev pub alarm_after : (a : Alarms) → a.Timers → ℤ → ℕ → ℤ
alarm_after a timers alarm code =
    if code == sensor_info_msg
    then (a.timer_once timers resend_time resends_last_message).0
    else alarm

abbrev pub timers_after : (a : Alarms) → a.Timers → ℕ → a.Timers
timers_after a timers code =
    if code == sensor_info_msg
    then (a.timer_once timers resend_time resends_last_message).1
    else timers

module _ (a : Alarms) {Store Pins : Type 0} where
  open a use {Timers}

  -- `t` has answered the message in the place of `s`.
  pub record Answered (s : Slave Store Pins Timers) (code : ℕ) (t : Slave Store Pins Timers)
      : Type 0 where
    pub sent : t.sent ≡ s.sent ++ reply s code
    pub number : t.sent_msg_number ≡ s.sent_msg_number + replies code
    pub state : t.master_state ≡ state_after s.master_state code
    pub alarm : t.resend_alarm ≡ alarm_after a s.timers s.resend_alarm code
    pub timers : t.timers ≡ timers_after a s.timers code
    pub pins : t.pins ≡ s.pins

  -- The answer faults where the words behind the array of the sensors and groups cannot be read.
  abbrev pub Ends : ℕ → Slave Store Pins Timers → ℕ → Option (Slave Store Pins Timers) → Type 0
  Ends behind s code o =
      ((unreadable behind code ≡ true) × (o ≡ none))
      ⊎ ((t : Slave Store Pins Timers) × (o ≡ some t)
          × (unreadable behind code ≡ false)
          × Answered s code t)

  answered :
      (behind : ℕ) (s : Slave Store Pins Timers) (code : ℕ) (t : Slave Store Pins Timers)
      → unreadable behind code ≡ false
      → t.sent ≡ s.sent ++ reply s code
      → t.sent_msg_number ≡ s.sent_msg_number + replies code
      → t.master_state ≡ state_after s.master_state code
      → t.resend_alarm ≡ alarm_after a s.timers s.resend_alarm code
      → t.timers ≡ timers_after a s.timers code
      → t.pins ≡ s.pins
      → Ends behind s code (some t)
  answered behind s code t readable sent number state alarm timers pins = inr (
    t,
    refl,
    readable,
    record {
      sent = sent;
      number = number;
      state = state;
      alarm = alarm;
      timers = timers;
      pins = pins;
    },
  )

  -- A test of the code: the message that it finds, and the others.
  test :
      (b : ℕ) (s : Slave Store Pins Timers) (x y : Option (Slave Store Pins Timers)) (code k : ℕ)
      → Ends b s k x
      → ((code == k) ≡ false → Ends b s code y)
      → Ends b s code (if code == k then x else y)
  test b s x y code k found others = elim (Bool-cases (code == k)) [
    | inl same ↦
        subst (λ t. Ends b s code (if t then x else y)) (sym same)
          (subst (λ c. Ends b s c x) (sym ((==_iff code k).0 same)) found)
    | inr other ↦ subst (λ t. Ends b s code (if t then x else y)) (sym other) (others other)
  ]

  acknowledged :
      (b : ℕ) (s : Slave Store Pins Timers) (code : ℕ)
      → (code == received_msg) ≡ false
      → (code == state_msg) ≡ false
      → (code == sensor_data_msg) ≡ false
      → (code == sensor_info_msg) ≡ false
      → Ends b s code (some (send_ack s))
  unfolding send_ack
  acknowledged b s code h0 h1 h2 h3 =
      answered b s code (send_ack s) (rw h3 refl) (rw (h0, h1, h2, h3) refl) (rw h0 refl)
        (rw h3 refl) (rw h3 refl) (rw h3 refl) refl

  send_sensor_info-Ends :
      (b : ℕ) (s : Slave Store Pins Timers) → Ends b s sensor_info_msg (send_sensor_info a b s)
  unfolding send_sensor_info send_packet set_resend_alarm
  send_sensor_info-Ends b s =
      elim (Bool-cases (ltb (max_slave_relay_amount + 2 + b) max_packet_size)) [
        | inl short ↦ inl (short, rw short refl)
        | inr enough ↦ rw enough (
            inr (
              _,
              refl,
              refl,
              record {
                sent = refl;
                number = refl;
                state = refl;
                alarm = refl;
                timers = refl;
                pins = refl;
              },
            ))
      ]

module _ (e : Eeprom) (g : Gpio) (a : Alarms) (w : Wiring) where
  -- An acknowledgement.
  silent : (b : ℕ) (s : Slave e.Store g.Pins a.Timers) → Ends a b s received_msg (some s)
  silent b s =
      answered a b s received_msg s refl (sym (append-nil s.sent)) (omega arith) refl refl refl refl

  answer-Ends :
      (u : Surroundings) (s : Slave e.Store g.Pins a.Timers) (code : ℕ)
      → Ends a u.behind s code (answer e g a w u s code)
  unfolding answer send_message send_ack write_sensors init_pir disconnect_pir
      init_temperature_sensor disconnect_temperature_sensor disconnect_ir_control send_sensor_data
      send_packet to_byte
  answer-Ends u s code =
      let b = u.behind in
      test a b s _ _ code state_msg (answered a b s _ _ refl refl refl refl refl refl refl) λ h0.
        test a b s _ _ code connect_pir_msg (answered a b s _ _ refl refl refl refl refl refl refl)
          λ _.
            test a b s _ _ code disconnect_pir_msg
              (answered a b s _ _ refl refl refl refl refl refl refl)
              λ _.
                test a b s _ _ code connect_temperature_msg
                  (answered a b s _ _ refl refl refl refl refl refl refl)
                  λ _.
                    test a b s _ _ code disconnect_temperature_msg
                      (answered a b s _ _ refl refl refl refl refl refl refl)
                      λ _.
                        test a b s _ _ code disconnect_ir_control_msg
                          (answered a b s _ _ refl refl refl refl refl refl refl)
                          λ _.
                            test a b s _ _ code sensor_data_msg
                              (answered a b s _ _ refl refl refl refl refl refl refl)
                              λ h1.
                                test a b s _ _ code sensor_info_msg (send_sensor_info-Ends a b s)
                                  λ h2.
                                    test a b s _ _ code received_msg (silent b s)
                                      λ h3. acknowledged a b s code h3 h0 h1 h2

  -- The slave that has, or has not, stopped sending again.
  settled : Slave e.Store g.Pins a.Timers → Bool → Slave e.Store g.Pins a.Timers
  settled s pending = if pending then stop_resending a s else s

  handle_message-Ends :
      (u : Surroundings) (s' : Slave e.Store g.Pins a.Timers) (pending : Bool) (code : ℕ)
      → Ends a u.behind s' code
          (if pending && (code == received_msg) then some s' else answer e g a w u s' code)
  handle_message-Ends u s' false code = answer-Ends u s' code
  handle_message-Ends u s' true code =
      test a u.behind s' (some s') (answer e g a w u s' code) code received_msg (silent u.behind s')
        λ _. answer-Ends u s' code

  -- The timers without the one of `resendAlarm`, if a response was awaited.
  abbrev pub timers_left : Slave e.Store g.Pins a.Timers → Bool → a.Timers
  timers_left s pending = if pending then a.free s.timers s.resend_alarm else s.timers

  -- `s` has handled the message and is `t`.
  abbrev pub Handled :
      Slave e.Store g.Pins a.Timers → Bool → ℕ → Slave e.Store g.Pins a.Timers → Type 0
  Handled s pending code t =
      (t.sent ≡ s.sent ++ reply s code)
      × (t.sent_msg_number ≡ s.sent_msg_number + replies code)
      × (t.master_state ≡ state_after (if pending then running_state else s.master_state) code)
      × (t.resend_alarm
          ≡ alarm_after a (timers_left s pending)
              (if pending then alarm_not_set else s.resend_alarm) code)
      × (t.timers ≡ timers_after a (timers_left s pending) code)
      × (t.pins ≡ s.pins)

  settled-Handled :
      (s t : Slave e.Store g.Pins a.Timers) (pending : Bool) (code : ℕ)
      → Answered a (settled s pending) code t
      → Handled s pending code t
  unfolding settled stop_resending sensor_data sensor_info
  settled-Handled s t true code h = (h.sent, h.number, h.state, h.alarm, h.timers, h.pins)
  settled-Handled s t false code h = (h.sent, h.number, h.state, h.alarm, h.timers, h.pins)

  -- A message of the master, whatever its code, makes the slave fault or is answered by one datagram:
  -- the state of the slave, its sensor data, its sensors and groups, or an acknowledgement. Only an acknowledgement
  -- is not answered. A slave that waited for a response does so no longer: the timer of `resendAlarm`
  -- is freed and `resendAlarm` is not set. A slave that has just sent its sensors and groups waits
  -- for a response to them, with a new timer that resends. Nothing else becomes of the timers, and
  -- no pin changes. The slave faults if and only if its sensors and groups are asked for and the
  -- `MAX_PACKET_SIZE` words that `sendPacket` copies cannot be read, of which its array has but four.
  pub handle_message_lem :
      (u : Surroundings) (s : Slave e.Store g.Pins a.Timers) (code : ℕ)
      → ((unreadable u.behind code ≡ true) × (handle_message e g a w u s code ≡ none))
        ⊎ ((t : Slave e.Store g.Pins a.Timers) × (handle_message e g a w u s code ≡ some t)
            × (unreadable u.behind code ≡ false)
            × Handled s (s.master_state == pending_response_state) code t)
  unfolding handle_message settled
  handle_message_lem u s code =
      let pending = s.master_state == pending_response_state in
      elim (handle_message-Ends u (settled s pending) pending code) [
        | inl (short, faults) ↦ inl (short, faults)
        | inr (t, done, readable, h) ↦ inr (t, done, readable, settled-Handled s t pending code h)
      ]
