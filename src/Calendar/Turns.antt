-- ===== src/Calendar/Turns.antt =====
-- `checkAlarm` of libraries/Calendar for one weekly alarm over a sequence of checks.
use spu_energy_efficient_sys.Common.{
  ℕ, ◌≡◌, refl, sym, ap, ◌∙◌, Bool, true, false, not, List, [], ◌∷◌, ◌++◌, append_assoc, append-nil,
  some, ◌==◌, get_elem?, get_elem?_lt, get_elem?-set_self, if◌then◌else◌, Bool-cases, inl, inr,
  subst,
}
use spu_energy_efficient_sys.Eeprom.{Eeprom}
use spu_energy_efficient_sys.Calendar.{Alarm, Calendar, alarm_once, weekly_alarm}
use spu_energy_efficient_sys.Calendar.Check.{
  TimeLib, mark, check_once, check_weekly, check_alarm, check_slot, starts_weekly, ends_weekly,
  event_on, event_off,
}

-- From the state `b` (started or not) these calls lead to the state `b'`: each call is of the other
-- function than the one before, `true` for `on`.
abbrev pub Alternating : Bool → List Bool → Bool → Type 0
Alternating b [] b' = b ≡ b'
Alternating b (x ∷ rest) b' = (x ≡ not b) × Alternating x rest b'

module _ (l : TimeLib) (e : Eeprom) where
  -- The checks of slot `i` at these times.
  pub slot_run :
      List l.Time
      → Calendar (List Bool)
      → e.Store
      → List Bool
      → ℕ
      → Calendar (List Bool) × e.Store × List Bool
  slot_run [] c s w i = (c, s, w)
  slot_run (t ∷ ts) c s w i = let (c', s', w') = check_slot l e c s w i t in slot_run ts c' s' w' i

  -- The slot holds the alarm, started or not, and the event functions of its event write down that
  -- they were called.
  pub record Watched (c : Calendar (List Bool)) (i : ℕ) (a : Alarm) (b : Bool) : Type 0 where
    pub there : get_elem? c.alarms i ≡ some (record a { started = b })
    pub is_used : a.used ≡ true
    pub is_weekly : a.kind ≡ weekly_alarm
    pub writes_on : (w : List Bool) → event_on c.events a.event a.event_id w ≡ w ++ (true ∷ [])
    pub writes_off : (w : List Bool) → event_off c.events a.event a.event_id w ≡ w ++ (false ∷ [])

  Watched-mark :
      (c : Calendar (List Bool)) (i : ℕ) (a : Alarm) (b b' : Bool)
      → Watched c i a b
      → Watched (mark c i (record a { started = b }) b') i a b'
  unfolding mark
  Watched-mark c i a b b' v = record {
    there = get_elem?-set_self c.alarms i _ (get_elem?_lt c.alarms i _ v.there);
    is_used = v.is_used;
    is_weekly = v.is_weekly;
    writes_on = v.writes_on;
    writes_off = v.writes_off;
  }

  -- What one check does to a watched alarm.
  Outcome :
      Calendar (List Bool)
      → List Bool
      → ℕ
      → Alarm
      → Bool
      → Calendar (List Bool) × e.Store × List Bool
      → Type 0
  Outcome c w i a b r =
      (x : List Bool) × (b' : Bool) × (r.2 ≡ w ++ x)
      × Watched r.0 i a b'
      × ((b'' : Bool) (xs : List Bool) → Alternating b' xs b'' → Alternating b (x ++ xs) b'')

  check_weekly-Outcome :
      (c : Calendar (List Bool)) (s : e.Store) (w : List Bool) (i : ℕ) (a : Alarm) (b : Bool)
      (t : l.Time)
      → Watched c i a b
      → Outcome c w i a b (check_weekly l e c s w i (record a { started = b }) t)
  unfolding check_weekly Outcome
  check_weekly-Outcome c s w i a false t v =
      elim (Bool-cases (starts_weekly l (record a { started = false }) t)) [
        | inl now ↦
            rw (now, check_weekly)
              (
                true ∷ [],
                true,
                v.writes_on w,
                Watched-mark c i a false true v,
                λ b'' xs h. (refl, h),
              )
        | inr later ↦ rw (later, check_weekly) ([], false, sym (append-nil w), v, λ b'' xs h. h)
      ]
  check_weekly-Outcome c s w i a true t v =
      elim (Bool-cases (ends_weekly l (record a { started = true }) t)) [
        | inl now ↦
            rw (now, check_weekly)
              (
                false ∷ [],
                false,
                v.writes_off w,
                Watched-mark c i a true false v,
                λ b'' xs h. (refl, h),
              )
        | inr later ↦ rw (later, check_weekly) ([], true, sym (append-nil w), v, λ b'' xs h. h)
      ]

  check_slot-Watched :
      (c : Calendar (List Bool)) (s : e.Store) (w : List Bool) (i : ℕ) (a : Alarm) (b : Bool)
      (t : l.Time)
      → Watched c i a b
      → check_slot l e c s w i t ≡ check_weekly l e c s w i (record a { started = b }) t
  unfolding check_slot check_alarm
  check_slot-Watched c s w i a b t v =
      let a' : Alarm = record a { started = b } in
      rw (v.there, check_slot)
        (ap (λ u. if u then check_alarm l e c s w i a' t else (c, s, w)) v.is_used
          ∙ ap
              (λ k.
                if k == alarm_once
                then check_once l e c s w i a' t
                else if k == weekly_alarm
                then check_weekly l e c s w i a' t
                else (c, s, w))
              v.is_weekly)

  check_slot-Outcome :
      (c : Calendar (List Bool)) (s : e.Store) (w : List Bool) (i : ℕ) (a : Alarm) (b : Bool)
      (t : l.Time)
      → Watched c i a b
      → Outcome c w i a b (check_slot l e c s w i t)
  check_slot-Outcome c s w i a b t v =
      subst (Outcome c w i a b) (sym (check_slot-Watched c s w i a b t v))
        (check_weekly-Outcome c s w i a b t v)

  -- Over any sequence of checks the event functions of a weekly alarm are called in turns, `on`
  -- first if the alarm was not started; and at the end the alarm is started exactly if the last
  -- call (or, without one, the state before) says so.
  pub weekly_turns :
      (ts : List l.Time) (c : Calendar (List Bool)) (s : e.Store) (w : List Bool) (i : ℕ)
      (a : Alarm) (b : Bool)
      → Watched c i a b
      → (calls : List Bool) × (b' : Bool) × ((slot_run ts c s w i).2 ≡ w ++ calls)
        × (get_elem? (slot_run ts c s w i).0.alarms i ≡ some (record a { started = b' }))
        × Alternating b calls b'
  unfolding slot_run Outcome
  weekly_turns [] c s w i a b v = ([], b, sym (append-nil w), v.there, refl)
  weekly_turns (t ∷ ts) c s w i a b v =
      let (c', s', w') = check_slot l e c s w i t in
      let (x, b', wrote, v', link) = check_slot-Outcome c s w i a b t v in
      let (calls, b'', wrote', there, alternate) = weekly_turns ts c' s' w' i a b' v' in
      (
        x ++ calls,
        b'',
        wrote' ∙ ap (λ v. v ++ calls) wrote ∙ append_assoc w x calls,
        there,
        link b'' calls alternate,
      )
