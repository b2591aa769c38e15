-- ===== src/Calendar/Loading.antt =====
-- `readAlarms` of libraries/Calendar on the image of some alarms.
use spu_energy_efficient_sys.Common.{
  ℕ, zero, suc, ◌+◌, ◌≤◌, ◌≡◌, ◌≢◌, sym, ap, ◌∙◌, ◌⊎◌, true, false, List, [], ◌∷◌, ◌++◌, All,
  Option, some, arith, pos, to_byte, length, ◌==◌, if◌then◌else◌, Bool-cases, inl, inr, subst,
  to_byte-pos,
}
use spu_energy_efficient_sys.Eeprom.{Eeprom}
use spu_energy_efficient_sys.Spu.{delimiter}
use spu_energy_efficient_sys.Calendar.{
  Alarm, Calendar, alarm_once, weekly_alarm, alarm_bytes, read_alarm, put_alarm, read_from,
}
use spu_energy_efficient_sys.Calendar.Edit.{used_alarms}
use spu_energy_efficient_sys.Calendar.Image.{
  image, image_used, image_unused, used_alarms_used, used_alarms_unused, Holds, Holds-drop,
}

abbrev pub KnownKind : Alarm → Type 0
KnownKind a = (a.kind ≡ alarm_once) ⊎ (a.kind ≡ weekly_alarm)

-- An alarm that went through the EEPROM: every field as its low byte, not started; of a weekly
-- alarm `month` and `year` are what `aux` held before.
unfoldable pub restored : Alarm → Alarm → Alarm
restored aux a = record {
  id = pos (to_byte a.id);
  day = pos (to_byte a.day);
  hour = pos (to_byte a.hour);
  minutes = pos (to_byte a.minutes);
  finish_hour = pos (to_byte a.finish_hour);
  finish_minutes = pos (to_byte a.finish_minutes);
  month = if a.kind == alarm_once then pos (to_byte a.month) else aux.month;
  year = if a.kind == alarm_once then pos (to_byte a.year) else aux.year;
  event = pos (to_byte a.event);
  started = false;
  used = true;
  kind = a.kind;
  event_id = pos (to_byte a.event_id);
}

-- The calendar after `readAlarms` has put these alarms into the slots from `i` on.
unfoldable pub load : {World : Type 0} → Calendar World → ℕ → List Alarm → Alarm → Calendar World
load c i [] aux = c
load c i (a ∷ rest) aux =
    load (put_alarm c i (restored aux a) (to_byte a.id)) (i + 1) rest (restored aux a)

module _ (e : Eeprom) where
  read_alarm_lem :
      (s : e.Store) (p : ℕ) (a aux : Alarm) (cs : List ℕ)
      → KnownKind a
      → Holds e s p (alarm_bytes a ++ cs)
      → (read_alarm e s (e.read s p) (p + 1) aux ≡ (restored aux a, p + length (alarm_bytes a)))
        × (e.read s (p + 1 + 7) ≡ to_byte a.id)
        × (e.read s p ≡ a.kind)
  unfolding read_alarm alarm_bytes restored
  read_alarm_lem s p a aux cs k h = ground (arith, to_byte-pos a.kind)

  module _ {World : Type 0} where
    read_from_end :
        (s : e.Store) (c : Calendar World) (i k kind p : ℕ) (aux : Alarm)
        → kind ≡ delimiter
        → read_from e s c i k kind p aux ≡ some c
    unfolding read_from
    read_from_end s c i zero kind p aux h = ground arith
    read_from_end s c i (suc k) kind p aux h = ground arith

    read_from_next :
        (s : e.Store) (c : Calendar World) (i k p : ℕ) (a aux : Alarm) (cs : List ℕ)
        → KnownKind a
        → Holds e s p (alarm_bytes a ++ cs)
        → read_from e s c i (suc k) (e.read s p) (p + 1) aux
          ≡ read_from e s
              (put_alarm c i (restored aux a) (to_byte a.id))
              (i + 1)
              k
              (e.read s (p + length (alarm_bytes a)))
              (p + length (alarm_bytes a) + 1)
              (restored aux a)
    unfolding read_from
    read_from_next s c i k p a aux cs known h =
        let (alarm, id, kind) = read_alarm_lem s p a aux cs known h in
        rw (alarm, id, nonzero (e.read s p) (ground (arith, kind)))
      where
        nonzero : (n : ℕ) → n ≢ 0 → (n == 0) ≡ false
        nonzero n h = ground arith

    read_from_used :
        (s : e.Store) (c : Calendar World) (i k n p : ℕ) (a aux : Alarm) (cs : List ℕ)
        (result : Option (Calendar World))
        → KnownKind a
        → Holds e s p (alarm_bytes a ++ cs)
        → suc n ≤ k
        → ((j : ℕ)
            → n ≤ j
            → read_from e s
                (put_alarm c i (restored aux a) (to_byte a.id))
                (i + 1)
                j
                (e.read s (p + length (alarm_bytes a)))
                (p + length (alarm_bytes a) + 1)
                (restored aux a)
              ≡ result)
        → read_from e s c i k (e.read s p) (p + 1) aux ≡ result
    read_from_used s c i zero n p a aux cs result known h fits rest = absurd (omega arith)
    read_from_used s c i (suc k) n p a aux cs result known h fits rest =
        read_from_next s c i k p a aux cs known h ∙ rest k (omega arith)

    -- The loop of `readAlarms` on an image reads exactly the used alarms.
    pub read_from-image :
        (slots : List Alarm) (s : e.Store) (c : Calendar World) (i k p : ℕ) (aux : Alarm)
        → All (λ a. a.used ≡ true → KnownKind a) slots
        → Holds e s p (image slots)
        → length (used_alarms slots) ≤ k
        → read_from e s c i k (e.read s p) (p + 1) aux ≡ some (load c i (used_alarms slots) aux)
    unfolding image used_alarms load
    read_from-image [] s c i k p aux known h fits =
        read_from_end s c i k (e.read s p) (p + 1) aux h.0
    read_from-image (a ∷ rest) s c i k p aux known h fits = elim (Bool-cases a.used) [
      | inl u ↦
          subst (λ l. read_from e s c i k (e.read s p) (p + 1) aux ≡ some (load c i l aux))
            (sym (used_alarms_used a rest u))
            (let bytes : Holds e s p (alarm_bytes a ++ image rest) =
                subst (Holds e s p) (image_used a rest u) h in
              read_from_used s c i k (length (used_alarms rest)) p a aux (image rest) _ (known.0 u)
                bytes (omega (arith, ap length (used_alarms_used a rest u)))
                (λ j room.
                  read_from-image rest s (put_alarm c i (restored aux a) (to_byte a.id)) (i + 1) j
                    (p + length (alarm_bytes a)) (restored aux a) known.1
                    (Holds-drop e (alarm_bytes a) (image rest) s p bytes) room))
      | inr u ↦
          subst (λ l. read_from e s c i k (e.read s p) (p + 1) aux ≡ some (load c i l aux))
            (sym (used_alarms_unused a rest u))
            (read_from-image rest s c i k p aux known.1
              (subst (Holds e s p) (image_unused a rest u) h)
              (omega (arith, ap length (used_alarms_unused a rest u))))
    ]
