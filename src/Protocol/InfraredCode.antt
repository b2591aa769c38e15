-- ===== src/Protocol/InfraredCode.antt =====
-- The infrared code that the master transmits (panelTransmitIrCode) and a slave takes in the case
-- `IR_CODE_MSG`.
use spu_energy_efficient_sys.Common.{
  ℕ, zero, suc, ◌+◌, ◌≤◌, ◌<◌, ◌≡◌, refl, sym, ap, ◌∙◌, subst, Option, some, List, [], ◌∷◌, ◌++◌,
  All, ℤ, pos, to_byte, length, length-append, take, drop, ◌>>=◌, arith, append_assoc, append-nil,
  inl, inr,
}
use spu_energy_efficient_sys.Eeprom.{Eeprom}
use spu_energy_efficient_sys.Gpio.{Gpio}
use spu_energy_efficient_sys.Alarms.{Alarms}
use spu_energy_efficient_sys.Spu.{ir_code_length}
use spu_energy_efficient_sys.IrControl.{IrControl, store_code, begin}
use spu_energy_efficient_sys.IrControl.Restoring.{IsValue, begin-store_code}
use spu_energy_efficient_sys.Slave.Sensors.{Wiring}
use spu_energy_efficient_sys.Slave.Handling.{take_ir_values}
use spu_energy_efficient_sys.Master.Infrared.{fill_packet, code_packets}
use spu_energy_efficient_sys.Protocol.{behind_code}
use spu_energy_efficient_sys.Protocol.IrValues.{
  bytes_of, fill_packet_left, fill_packet_words, take-drop, IsSmall-take, List-cases, IsValue-small,
  bind_some, Receiver, Has, stored, take_some, take_last,
}

module _ (e : Eeprom) (g : Gpio) (a : Alarms) (w : Wiring) where
  -- The slave takes packets of a code, one after the other, numbered from `number` on.
  abbrev pub receive : Receiver e g a w → List (List ℤ) → ℕ → Option (Receiver e g a w)
  receive s [] number = some s
  receive s (p ∷ ps) number =
      take_ir_values e g a w s (behind_code p number) >>= λ s'. receive s' ps (number + 1)

  packet_arrives :
      (k number : ℕ) (vs : List ℕ)
      → behind_code (fill_packet k vs).0 number
        ≡ bytes_of (take k vs) ++ (to_byte (pos number) ∷ [])
  packet_arrives k number vs = ap (λ l. l ++ (to_byte (pos number) ∷ [])) (fill_packet_words k vs)

  -- The packets that are still to come complete the code.
  receive_rest :
      (k v : ℕ) (vs : List ℕ) (s : Receiver e g a w) (done : List ℕ) (n number : ℕ)
      → Has e g a w s done n
      → All (λ x. x < 65536) (v ∷ vs)
      → length done + length (v ∷ vs) ≡ n
      → n ≤ 220
      → length (v ∷ vs) ≤ k
      → (packets : List (List ℤ)) × (t : Receiver e g a w) × (code_packets k (v ∷ vs)
          ≡ some packets)
        × (receive s packets number
            ≡ (store_code e s.ircontrol s.memory (done ++ (v ∷ vs)) >>= stored e g a w t))
  unfolding code_packets
  receive_rest zero v vs s done n number has h all room enough = absurd (omega (arith, enough))
  receive_rest (suc k) v vs s done n number has h all room enough =
      let words = (fill_packet 49 (v ∷ vs)).0 in
      let arrives = packet_arrives 49 number (v ∷ vs) in
      let left = fill_packet_left 49 (v ∷ vs) in
      let both = take-drop 49 (v ∷ vs) in
      let b = to_byte (pos number) in
      let join = λ (o : Option (List (List ℤ))). o >>= λ ps. some (words ∷ ps) in
      let (small, small') = IsSmall-take 49 (v ∷ vs) h in
      elim (List-cases (drop 49 (v ∷ vs))) [
        | inl empty ↦
            let whole : take 49 (v ∷ vs) ≡ v ∷ vs =
              sym (append-nil (take 49 (v ∷ vs)))
              ∙ ap (λ l. take 49 (v ∷ vs) ++ l) (sym empty)
              ∙ both in
            let (t, taken) = take_last e g a w v vs s done n b has h all room in
            (
              words ∷ [],
              t,
              ap (λ l. join (code_packets k l)) (left ∙ empty) ∙ refl,
              ap (λ bs. take_ir_values e g a w s bs >>= some)
                    (arrives ∙ ap (λ l. bytes_of l ++ (b ∷ [])) whole)
                  ∙ ap (λ o. o >>= some) taken
                  ∙ bind_some
                      (store_code e s.ircontrol s.memory (done ++ (v ∷ vs)) >>= stored e g a w t),
            )
        | inr (x, xs, more) ↦
            let lengths =
              ap length (sym both) ∙ length-append (take 49 (v ∷ vs)) (drop 49 (v ∷ vs)) in
            let rest : length (drop 49 (v ∷ vs)) ≡ suc (length xs) = ap length more in
            let sum = length-append done (take 49 (v ∷ vs)) in
            let (t, taken, has', ir, memory) =
              take_some e g a w (take 49 (v ∷ vs)) s done n b has small
                (omega (arith, lengths, rest, all)) room in
            let (packets, t', packed, received) =
              receive_rest k x xs t (done ++ take 49 (v ∷ vs)) n (number + 1) has'
                (subst (All (λ y. y < 65536)) more small') (omega (arith, sum, rest, lengths, all))
                room (omega (arith, rest, lengths, enough)) in
            (
              words ∷ packets,
              t',
              ap (λ l. join (code_packets k l)) (left ∙ more) ∙ ap join packed,
              ap (λ bs. take_ir_values e g a w s bs >>= λ s'. receive s' packets (number + 1))
                    arrives
                  ∙ ap (λ o. o >>= λ s'. receive s' packets (number + 1)) taken
                  ∙ received
                  ∙ ap
                      (λ c.
                        store_code e c t.memory ((done ++ take 49 (v ∷ vs)) ++ (x ∷ xs))
                        >>= stored e g a w t')
                      ir
                  ∙ ap
                      (λ m.
                        store_code e s.ircontrol m ((done ++ take 49 (v ∷ vs)) ++ (x ∷ xs))
                        >>= stored e g a w t')
                      memory
                  ∙ ap (λ l. store_code e s.ircontrol s.memory l >>= stored e g a w t')
                      (append_assoc done (take 49 (v ∷ vs)) (x ∷ xs)
                        ∙ ap (λ l. done ++ (take 49 (v ∷ vs) ++ l)) (sym more)
                        ∙ ap (λ l. done ++ l) both),
            )
      ]

  -- A code of one to 220 values of 16 bits, none of which has a low byte of zero: the master can cut
  -- it into packets, and a slave that was told its length takes them without leaving its arrays,
  -- stores the code, and finds it in its memory when it starts again. (Its arrays have 220 entries,
  -- and it has taken no value yet.)
  pub code_arrives :
      (v : ℕ) (vs : List ℕ) (s : Receiver e g a w) (c2 : IrControl) (number : ℕ)
      → length s.ir_code ≡ ir_code_length
      → s.ir_code_length ≡ 0
      → s.ir_receiving_length ≡ length (v ∷ vs)
      → length s.ircontrol.raw_code ≡ ir_code_length
      → length c2.raw_code ≡ ir_code_length
      → All IsValue (v ∷ vs)
      → length (v ∷ vs) ≤ ir_code_length
      → (packets : List (List ℤ)) × (t : Receiver e g a w) × (code_packets
            (length (v ∷ vs))
            (v ∷ vs)
          ≡ some packets)
        × (receive s packets number ≡ some t)
        × (t.ir_code_length ≡ 0)
        × ((begin e c2 t.memory).code_length ≡ length (v ∷ vs))
        × (take (length (v ∷ vs)) (begin e c2 t.memory).raw_code ≡ v ∷ vs)
  code_arrives v vs s c2 number room start told slots slots2 h few =
      let (packets, t, packed, received) =
        receive_rest (length (v ∷ vs)) v vs s [] (length (v ∷ vs)) number (room, start, refl, told)
          (IsValue-small (v ∷ vs) h) (omega arith) few (omega arith) in
      let (c, m, done, _, count, values) =
        begin-store_code e s.ircontrol c2 s.memory (v ∷ vs) slots slots2 h few in
      (
        packets,
        record t { ircontrol = c; memory = m; ir_code_length = 0 },
        packed,
        received ∙ ap (λ o. o >>= stored e g a w t) done,
        refl,
        count,
        values,
      )
