-- ===== src/Alarms.antt =====
-- What the program uses of libraries/TimeAlarms (a library of its own): timers that run once. The
-- identifier of a timer is an `int`, of which the code knows only that it can free the timer by it.
-- The library has a fixed number of slots: a timer that finds one, and is set for a later second, runs
-- out once and leaves its slot free again.
use spu_energy_efficient_sys.Common.{
  ℤ, pos, ℕ, ◌+◌, ◌<◌, ◌≡◌, refl, ap, ◌∙◌, Bool, true, Option, none, some, List, [], ◌∷◌, ◌==ℤ◌,
  ==ℤ_iff, if◌then◌else◌, length, ltb, Bool-cases, inl, inr,
}

-- The functions that the sketches give to a timer.
pub data TimerFunction : Type 0 where
  resends_last_message : TimerFunction
  sleeps_groups : TimerFunction
  enables_pir : TimerFunction

pub record Alarms : Type 1 where
  pub Timers : Type 0
  -- `Alarm.timerOnce(seconds, f)`
  pub timer_once : Timers → ℕ → TimerFunction → ℤ × Timers
  -- `Alarm.free(id)`
  pub free : Timers → ℤ → Timers
  -- The time of the timer `id` comes, if it runs: the function that it calls, and the timers left.
  pub expire : Timers → ℤ → Option (TimerFunction × Timers)
  pub has_slot : Timers → Bool
  pub expire-timer_once :
      (t : Timers) (seconds : ℕ) (f : TimerFunction)
      → 0 < seconds
      → has_slot t ≡ true
      → (rest : Timers) × (expire (timer_once t seconds f).1 (timer_once t seconds f).0
          ≡ some (f, rest))
        × (has_slot rest ≡ true)
  pub expire-free : (t : Timers) (id : ℤ) → expire (free t id) id ≡ none

-- The timers that run by their identifiers, and the next identifier.
abbrev pub ListTimers : Type 0
ListTimers = List (ℤ × TimerFunction) × ℕ

abbrev without : List (ℤ × TimerFunction) → ℤ → List (ℤ × TimerFunction)
without [] id = []
without (a ∷ rest) id = if a.0 ==ℤ id then without rest id else a ∷ without rest id

abbrev Taken : Type 0
Taken = Option (TimerFunction × List (ℤ × TimerFunction))

abbrev keep : ℤ × TimerFunction → Taken → Taken
keep a none = none
keep a (some (f, others)) = some (f, a ∷ others)

abbrev take_out : List (ℤ × TimerFunction) → ℤ → Taken
take_out [] id = none
take_out (a ∷ rest) id =
    let others = take_out rest id in if a.0 ==ℤ id then some (a.1, rest) else keep a others

abbrev with_next : ℕ → Taken → Option (TimerFunction × ListTimers)
with_next next none = none
with_next next (some (f, rest)) = some (f, (rest, next))

abbrev expire_in : ListTimers → ℤ → Option (TimerFunction × ListTimers)
expire_in t id = with_next t.1 (take_out t.0 id)

keep-none : (a : ℤ × TimerFunction) (o : Taken) → o ≡ none → keep a o ≡ none
keep-none a o e = ap (keep a) e

pub take_out-without : (ts : List (ℤ × TimerFunction)) (id : ℤ) → take_out (without ts id) id ≡ none
take_out-without [] id = refl
take_out-without (a ∷ rest) id = elim (Bool-cases (a.0 ==ℤ id)) [
  | inl same ↦ rw same (take_out-without rest id)
  | inr other ↦ rw other (rw other (keep-none a _ (take_out-without rest id)))
]

abbrev slots : ℕ
slots = 12

abbrev start_if : ListTimers → TimerFunction → Bool → ℤ × ListTimers
start_if t f free = if free then (pos t.1, ((pos t.1, f) ∷ t.0, t.1 + 1)) else (pos 255, t)

abbrev start_in : ListTimers → ℕ → TimerFunction → ℤ × ListTimers
start_in t seconds f = start_if t f (ltb (length t.0) slots)

-- What `expire_in` makes of the test for the newest timer.
abbrev newest : ListTimers → TimerFunction → Bool → Option (TimerFunction × ListTimers)
newest t f same =
    with_next (t.1 + 1) (if same then some (f, t.0) else keep (pos t.1, f) (take_out t.0 (pos t.1)))

pub expire_in-start_in :
    (t : ListTimers) (seconds : ℕ) (f : TimerFunction)
    → 0 < seconds
    → ltb (length t.0) slots ≡ true
    → (rest : ListTimers) × (expire_in (start_in t seconds f).1 (start_in t seconds f).0
        ≡ some (f, rest))
      × (ltb (length rest.0) slots ≡ true)
expire_in-start_in t seconds f later h = (
  (t.0, t.1 + 1),
  ap (λ b. expire_in (start_if t f b).1 (start_if t f b).0) h
      ∙ ap (newest t f) ((==ℤ_iff (pos t.1) (pos t.1)).1 refl),
  h,
)

abbrev pub list_alarms : Alarms
list_alarms = record {
  Timers = ListTimers;
  timer_once = start_in;
  free = λ t id. (without t.0 id, t.1);
  expire = expire_in;
  has_slot = λ t. ltb (length t.0) slots;
  expire-timer_once = expire_in-start_in;
  expire-free = λ t id. ap (with_next t.1) (take_out-without t.0 id);
}
