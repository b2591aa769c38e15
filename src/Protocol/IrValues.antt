-- ===== src/Protocol/IrValues.antt =====
-- The values of an infrared code: as the bytes of a packet, and as a slave takes them one by one.
use spu_energy_efficient_sys.Common.{
  ℕ, zero, suc, ◌+◌, ◌*◌, ◌/◌, ◌%◌, ◌≤◌, ◌<◌, ◌≡◌, refl, sym, ap, ◌∙◌, subst, true, false, Option,
  none, some, List, [], ◌∷◌, ◌++◌, map, All, to_byte, length, length-append, length-set, take, drop,
  set, ltb, lt→ltb, ◌==◌, ◌>>=◌, if◌then◌else◌, arith, append_assoc, append-nil, ◌⊎◌, inl, inr,
}
use spu_energy_efficient_sys.Eeprom.{Eeprom}
use spu_energy_efficient_sys.Gpio.{Gpio}
use spu_energy_efficient_sys.Alarms.{Alarms}
use spu_energy_efficient_sys.IrControl.{IrControl, store_code}
use spu_energy_efficient_sys.IrControl.Restoring.{IsValue}
use spu_energy_efficient_sys.Slave.{Slave}
use spu_energy_efficient_sys.Slave.Sensors.{Wiring}
use spu_energy_efficient_sys.Slave.Handling.{take_ir_values}
use spu_energy_efficient_sys.Master.Infrared.{fill_packet}

-- The bytes of the values, low bytes first.
abbrev pub bytes_of : List ℕ → List ℕ
bytes_of [] = []
bytes_of (v ∷ vs) = v % 256 ∷ v / 256 % 256 ∷ bytes_of vs

pub fill_packet_left : (k : ℕ) (vs : List ℕ) → (fill_packet k vs).1 ≡ drop k vs
unfolding fill_packet
fill_packet_left zero vs = refl
fill_packet_left (suc k) [] = refl
fill_packet_left (suc k) (v ∷ vs) = fill_packet_left k vs

pub fill_packet_words :
    (k : ℕ) (vs : List ℕ) → map to_byte (fill_packet k vs).0 ≡ bytes_of (take k vs)
unfolding fill_packet to_byte
fill_packet_words zero vs = refl
fill_packet_words (suc k) [] = refl
fill_packet_words (suc k) (v ∷ vs) =
    let low : v % 256 % 256 ≡ v % 256 = omega arith in
    let high : v / 256 % 256 % 256 ≡ v / 256 % 256 = omega arith in
    ap (λ b. b ∷ v / 256 % 256 % 256 ∷ map to_byte (fill_packet k vs).0) low
    ∙ ap (λ b. v % 256 ∷ b ∷ map to_byte (fill_packet k vs).0) high
    ∙ ap (λ bs. v % 256 ∷ v / 256 % 256 ∷ bs) (fill_packet_words k vs)

pub take-drop : (k : ℕ) (vs : List ℕ) → take k vs ++ drop k vs ≡ vs
take-drop zero vs = refl
take-drop (suc k) [] = refl
take-drop (suc k) (v ∷ vs) = ap (λ l. v ∷ l) (take-drop k vs)

pub take-set :
    (xs : List ℕ) (k v : ℕ) → k < length xs → take (suc k) (set xs k v) ≡ take k xs ++ (v ∷ [])
take-set [] k v h = absurd (omega (arith, h))
take-set (x ∷ xs) zero v h = refl
take-set (x ∷ xs) (suc k) v h = ap (λ l. x ∷ l) (take-set xs k v (omega (arith, h)))

pub IsSmall-take :
    (k : ℕ) (vs : List ℕ)
    → All (λ v. v < 65536) vs
    → All (λ v. v < 65536) (take k vs) × All (λ v. v < 65536) (drop k vs)
IsSmall-take zero vs h = (tt, h)
IsSmall-take (suc k) [] h = (tt, tt)
IsSmall-take (suc k) (v ∷ vs) (x, h) = let (a, b) = IsSmall-take k vs h in ((x, a), b)

pub List-cases : (l : List ℕ) → (l ≡ []) ⊎ ((x : ℕ) × (xs : List ℕ) × (l ≡ x ∷ xs))
List-cases [] = inl refl
List-cases (x ∷ xs) = inr (x, xs, refl)

pub IsValue-small : (vs : List ℕ) → All IsValue vs → All (λ v. v < 65536) vs
IsValue-small [] h = tt
IsValue-small (v ∷ vs) (x, h) = (x.0, IsValue-small vs h)

pub bind_some : {A : Type 0} (o : Option A) → (o >>= some) ≡ o
bind_some none = refl
bind_some (some x) = refl

pub not_yet_last : (k l n : ℕ) → k + suc (suc l) ≡ n → (k + 1 == n) ≡ false
not_yet_last k l n h = ground (arith, h)

pub not_yet : (k l n : ℕ) → k + suc l < n → (k + 1 == n) ≡ false
not_yet k l n h = ground (arith, h)

module _ (e : Eeprom) (g : Gpio) (a : Alarms) (w : Wiring) where
  abbrev pub Receiver : Type 0
  Receiver = Slave e.Store g.Pins a.Timers

  -- The slave has taken the values `done` of a code of `n` values.
  abbrev pub Has : Receiver → List ℕ → ℕ → Type 0
  Has s done n =
      (length s.ir_code ≡ 220)
      × (s.ir_code_length ≡ length done)
      × (take (length done) s.ir_code ≡ done)
      × (s.ir_receiving_length ≡ n)

  abbrev pub added : Receiver → ℕ → Receiver
  added s v = record s {
    ir_code = set s.ir_code s.ir_code_length v;
    ir_code_length = s.ir_code_length + 1;
  }

  -- The slave when the whole code is stored.
  abbrev pub stored : Receiver → IrControl × e.Store → Option Receiver
  stored s p = some (record s { ircontrol = p.0; memory = p.1; ir_code_length = 0 })

  pub took :
      (s : Receiver) (done : List ℕ) (n v : ℕ)
      → Has s done n
      → length done < 220
      → take (s.ir_code_length + 1) (set s.ir_code s.ir_code_length v) ≡ done ++ (v ∷ [])
  took s done n v (room, count, prefix, _) lt =
      let after : length done + 1 ≡ suc (length done) = omega arith in
      ap (λ k. take (k + 1) (set s.ir_code k v)) count
      ∙ ap (λ k. take k (set s.ir_code (length done) v)) after
      ∙ take-set s.ir_code (length done) v (omega (arith, room, lt))
      ∙ ap (λ l. l ++ (v ∷ [])) prefix

  pub added-Has :
      (s : Receiver) (done : List ℕ) (n v : ℕ)
      → Has s done n
      → length done < 220
      → Has (added s v) (done ++ (v ∷ [])) n
  added-Has s done n v (room, count, prefix, all) lt =
      let one : length (done ++ (v ∷ [])) ≡ length done + 1 = length-append done (v ∷ []) in
      (
        length-set s.ir_code s.ir_code_length v ∙ room,
        ap (λ k. k + 1) count ∙ sym one,
        ap (λ k. take k (set s.ir_code s.ir_code_length v)) (one ∙ ap (λ k. k + 1) (sym count))
            ∙ took s done n v (room, count, prefix, all) lt,
        all,
      )

  -- One value.
  pub step :
      (s : Receiver) (done : List ℕ) (n v : ℕ) (rest : List ℕ)
      → Has s done n
      → length done < 220
      → v < 65536
      → take_ir_values e g a w s (v % 256 ∷ v / 256 % 256 ∷ rest) ≡ (
          if length done + 1 == n
          then (store_code e s.ircontrol s.memory (done ++ (v ∷ [])) >>= stored (added s v))
          else take_ir_values e g a w (added s v) rest)
  unfolding take_ir_values
  step s done n v rest (room, count, prefix, all) lt small =
      let value : v % 256 + 256 * (v / 256 % 256) ≡ v = omega (arith, small) in
      let inside : ltb s.ir_code_length (length s.ir_code) ≡ true =
        lt→ltb s.ir_code_length (length s.ir_code) (omega (arith, room, count, lt)) in
      let test : (s.ir_code_length + 1 == s.ir_receiving_length) ≡ (length done + 1 == n) =
        ap (λ k. k + 1 == s.ir_receiving_length) count ∙ ap (λ m. length done + 1 == m) all in
      let more = λ (t : Receiver). take_ir_values e g a w t rest in
      let inner = λ (t : Receiver).
        if t.ir_code_length == t.ir_receiving_length
        then (store_code e t.ircontrol t.memory (take t.ir_code_length t.ir_code) >>= stored t)
        else more t in
      ap (λ x. if ltb s.ir_code_length (length s.ir_code) then inner (added s x) else none) value
      ∙ ap (λ b. if b then inner (added s v) else none) inside
      ∙ ap
          (λ b.
            if b
            then (store_code e s.ircontrol s.memory
                  (take (s.ir_code_length + 1) (set s.ir_code s.ir_code_length v))
                >>= stored (added s v))
            else more (added s v))
          test
      ∙ ap
          (λ l.
            if length done + 1 == n
            then (store_code e s.ircontrol s.memory l >>= stored (added s v))
            else more (added s v))
          (took s done n v (room, count, prefix, all) lt)

  -- Some of the values, of which there are more to come.
  pub take_some :
      (vs : List ℕ) (s : Receiver) (done : List ℕ) (n b : ℕ)
      → Has s done n
      → All (λ v. v < 65536) vs
      → length done + length vs < n
      → n ≤ 220
      → (t : Receiver) × (take_ir_values e g a w s (bytes_of vs ++ (b ∷ [])) ≡ some t)
        × Has t (done ++ vs) n
        × (t.ircontrol ≡ s.ircontrol)
        × (t.memory ≡ s.memory)
  unfolding take_ir_values
  take_some [] s done n b has h few room =
      (s, refl, subst (λ l. Has s l n) (sym (append-nil done)) has, refl, refl)
  take_some (v ∷ vs) s done n b has (small, h) few room =
      let lt : length done < 220 = omega (arith, few, room) in
      let one : length (done ++ (v ∷ [])) ≡ length done + 1 = length-append done (v ∷ []) in
      let open_yet : (length done + 1 == n) ≡ false = not_yet (length done) (length vs) n few in
      let (t, taken, has', ir, memory) =
        take_some vs (added s v) (done ++ (v ∷ [])) n b (added-Has s done n v has lt) h
          (omega (arith, few, one)) room in
      (
        t,
        step s done n v (bytes_of vs ++ (b ∷ [])) has lt small
            ∙ ap
                (λ c.
                  if c
                  then (store_code e s.ircontrol s.memory (done ++ (v ∷ [])) >>= stored (added s v))
                  else take_ir_values e g a w (added s v) (bytes_of vs ++ (b ∷ [])))
                open_yet
            ∙ taken,
        subst (λ l. Has t l n) (append_assoc done (v ∷ []) vs) has',
        ir,
        memory,
      )

  -- The last of the values: the code is stored.
  pub take_last :
      (v : ℕ) (vs : List ℕ) (s : Receiver) (done : List ℕ) (n b : ℕ)
      → Has s done n
      → All (λ x. x < 65536) (v ∷ vs)
      → length done + length (v ∷ vs) ≡ n
      → n ≤ 220
      → (t : Receiver) × (take_ir_values e g a w s (bytes_of (v ∷ vs) ++ (b ∷ []))
          ≡ (store_code e s.ircontrol s.memory (done ++ (v ∷ vs)) >>= stored t))
  take_last v [] s done n b has (small, h) all room =
      let lt : length done < 220 = omega (arith, all, room) in
      let full : (length done + 1 == n) ≡ true = ground (arith, all) in
      (
        added s v,
        step s done n v (b ∷ []) has lt small
            ∙ ap
                (λ c.
                  if c
                  then (store_code e s.ircontrol s.memory (done ++ (v ∷ [])) >>= stored (added s v))
                  else take_ir_values e g a w (added s v) (b ∷ []))
                full,
      )
  take_last v (x ∷ vs) s done n b has (small, h) all room =
      let lt : length done < 220 = omega (arith, all, room) in
      let one : length (done ++ (v ∷ [])) ≡ length done + 1 = length-append done (v ∷ []) in
      let open_yet : (length done + 1 == n) ≡ false =
        not_yet_last (length done) (length vs) n all in
      let (t, taken) =
        take_last x vs (added s v) (done ++ (v ∷ [])) n b (added-Has s done n v has lt) h
          (omega (arith, all, one)) room in
      (
        t,
        step s done n v (bytes_of (x ∷ vs) ++ (b ∷ [])) has lt small
            ∙ ap
                (λ c.
                  if c
                  then (store_code e s.ircontrol s.memory (done ++ (v ∷ [])) >>= stored (added s v))
                  else take_ir_values e g a w (added s v) (bytes_of (x ∷ vs) ++ (b ∷ [])))
                open_yet
            ∙ taken
            ∙ ap (λ l. store_code e s.ircontrol s.memory l >>= stored t)
                (append_assoc done (v ∷ []) (x ∷ vs)),
      )
