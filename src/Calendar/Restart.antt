-- ===== src/Calendar/Restart.antt =====
-- What a restart keeps: `readAlarms` of libraries/Calendar after `storeAlarms`.
use spu_energy_efficient_sys.Common.{
  ℕ, ◌≤◌, ◌<◌, ◌≡◌, refl, sym, ap, ◌∙◌, true, false, List, [], ◌∷◌, All, map, some, arith, ℤ, pos,
  negsuc, to_byte, length, length-map, Bool-cases, inl, inr, subst, drop, to_byte-pos,
}
use spu_energy_efficient_sys.Eeprom.{Eeprom}
use spu_energy_efficient_sys.Spu.{alarms_dir}
use spu_energy_efficient_sys.Calendar.{
  Alarm, AlarmEvent, Calendar, alarm_once, store_alarms, read_alarms, max_alarms,
}
use spu_energy_efficient_sys.Calendar.Edit.{used_alarms, new_calendar, cleared, without_code}
use spu_energy_efficient_sys.Calendar.Image.{
  used_alarms_used, used_alarms_unused, store_alarms-Holds,
}
use spu_energy_efficient_sys.Calendar.Loading.{KnownKind, restored, load, read_from-image}
use spu_energy_efficient_sys.Calendar.Saving.{
  restores, alarms-load, amount-load, next_id-load, used_alarms-restores, NoneUsed-cleared,
  NoneUsed-drop,
}

abbrev pub IsByteInt : ℤ → Type 0
IsByteInt (pos n) = n < 256
IsByteInt (negsuc n) = ⊥

-- An alarm that the EEPROM can hold: the fields that are written are bytes.
pub record IsStorable (a : Alarm) : Type 0 where
  pub kind : KnownKind a
  pub id : IsByteInt a.id
  pub day : IsByteInt a.day
  pub hour : IsByteInt a.hour
  pub minutes : IsByteInt a.minutes
  pub finish_hour : IsByteInt a.finish_hour
  pub finish_minutes : IsByteInt a.finish_minutes
  pub event : IsByteInt a.event
  pub event_id : IsByteInt a.event_id
  pub month : a.kind ≡ alarm_once → IsByteInt a.month
  pub year : a.kind ≡ alarm_once → IsByteInt a.year

-- The same alarm, not started; a weekly alarm has no month and no year.
pub record Kept (a b : Alarm) : Type 0 where
  pub kind : b.kind ≡ a.kind
  pub id : b.id ≡ a.id
  pub day : b.day ≡ a.day
  pub hour : b.hour ≡ a.hour
  pub minutes : b.minutes ≡ a.minutes
  pub finish_hour : b.finish_hour ≡ a.finish_hour
  pub finish_minutes : b.finish_minutes ≡ a.finish_minutes
  pub event : b.event ≡ a.event
  pub event_id : b.event_id ≡ a.event_id
  pub month : a.kind ≡ alarm_once → b.month ≡ a.month
  pub year : a.kind ≡ alarm_once → b.year ≡ a.year
  pub started : b.started ≡ false

abbrev pub AllKept : List Alarm → List Alarm → Type 0
AllKept [] [] = Unit {0}
AllKept (a ∷ xs) (b ∷ ys) = Kept a b × AllKept xs ys
AllKept [] (b ∷ ys) = ⊥
AllKept (a ∷ xs) [] = ⊥

byte_kept : (z : ℤ) → IsByteInt z → pos (to_byte z) ≡ z
byte_kept (pos n) h = ap pos (to_byte-pos n h)
byte_kept (negsuc n) h = absurd h

restored-Kept : (aux a : Alarm) → IsStorable a → Kept a (restored aux a)
unfolding restored
restored-Kept aux a h = record {
  kind = refl;
  id = byte_kept a.id h.id;
  day = byte_kept a.day h.day;
  hour = byte_kept a.hour h.hour;
  minutes = byte_kept a.minutes h.minutes;
  finish_hour = byte_kept a.finish_hour h.finish_hour;
  finish_minutes = byte_kept a.finish_minutes h.finish_minutes;
  event = byte_kept a.event h.event;
  event_id = byte_kept a.event_id h.event_id;
  month = λ k. ground (arith, k, byte_kept a.month (h.month k));
  year = λ k. ground (arith, k, byte_kept a.year (h.year k));
  started = refl;
}

restores-AllKept :
    (news : List Alarm) (aux : Alarm) → All IsStorable news → AllKept news (restores aux news)
unfolding restores
restores-AllKept [] aux h = tt
restores-AllKept (a ∷ news) aux h =
    (restored-Kept aux a h.0, restores-AllKept news (restored aux a) h.1)

pub used_alarms-All :
    (P : Alarm → Type 0) (slots : List Alarm)
    → All (λ a. a.used ≡ true → P a) slots
    → All P (used_alarms slots)
unfolding used_alarms
used_alarms-All P [] h = tt
used_alarms-All P (a ∷ rest) h = elim (Bool-cases a.used) [
  | inl u ↦ subst (All P) (sym (used_alarms_used a rest u)) (h.0 u, used_alarms-All P rest h.1)
  | inr u ↦ subst (All P) (sym (used_alarms_unused a rest u)) (used_alarms-All P rest h.1)
]

-- `nextId` is above the id of each alarm.
abbrev pub IdBelow : ℕ → Alarm → Type 0
IdBelow n a = (m : ℕ) × (a.id ≡ pos m) × (m < n)

IdBelow-restores :
    (n : ℕ) (news : List Alarm) (aux : Alarm)
    → All (λ a. to_byte a.id < n) news
    → All (IdBelow n) (restores aux news)
unfolding restores restored
IdBelow-restores n [] aux h = tt
IdBelow-restores n (a ∷ news) aux h =
    ((to_byte a.id, refl, h.0), IdBelow-restores n news (restored aux a) h.1)

known_kinds :
    (slots : List Alarm)
    → All (λ a. a.used ≡ true → IsStorable a) slots
    → All (λ a. a.used ≡ true → KnownKind a) slots
known_kinds [] h = tt
known_kinds (a ∷ rest) h = ((λ u. (h.0 u).kind), known_kinds rest h.1)

module _ (e : Eeprom) {World : Type 0} where
  -- A calendar that is made anew over the EEPROM after `storeAlarms` (with at most 30 alarms, all of
  -- which the EEPROM can hold) meets no fault; it has the same alarms in the same order, none of
  -- them started, the right amount of them, and a next id above theirs.
  pub restart :
      (slots : List Alarm) (s : e.Store) (memory : List Alarm) (events : List (AlarmEvent World))
      (aux : Alarm)
      → length memory ≡ max_alarms
      → length (used_alarms slots) ≤ max_alarms
      → All (λ a. a.used ≡ true → IsStorable a) slots
      → (c : Calendar World) × (new_calendar e (store_alarms e s slots) memory events aux ≡ some c)
        × AllKept (used_alarms slots) (used_alarms c.alarms)
        × (c.alarm_amount ≡ pos (length (used_alarms slots)))
        × All (IdBelow c.next_id) (used_alarms c.alarms)
  unfolding new_calendar read_alarms
  restart slots s memory events aux full few storable =
      let news = used_alarms slots in
      let empty : Calendar World = record {
        alarms = map cleared memory;
        events = map (without_code {World = World}) events;
        alarm_amount = pos 0;
        next_id = 0;
      } in
      let filled =
        alarms-load news empty [] (map cleared memory) aux refl
          (omega (arith, length-map memory cleared)) in
      let used =
        ap used_alarms filled
        ∙ used_alarms-restores news (drop (length news) (map cleared memory)) aux
            (NoneUsed-drop (length news) (map cleared memory) (NoneUsed-cleared memory)) in
      (
        load empty 0 news aux,
        read_from-image e slots (store_alarms e s slots) empty 0 max_alarms alarms_dir aux
            (known_kinds slots storable) (store_alarms-Holds e slots s few) few,
        subst (AllKept news) (sym used)
            (restores-AllKept news aux (used_alarms-All IsStorable slots storable)),
        amount-load news empty 0 0 aux refl ∙ ap pos (omega arith),
        subst (All (IdBelow (load empty 0 news aux).next_id)) (sym used) (
            IdBelow-restores (load empty 0 news aux).next_id news aux
              (next_id-load news empty 0 aux).1),
      )
