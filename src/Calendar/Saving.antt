-- ===== src/Calendar/Saving.antt =====
-- The calendar that `readAlarms` of libraries/Calendar leaves: its slots, its amount, its next id.
use spu_energy_efficient_sys.Common.{
  ℕ, zero, suc, ◌+◌, ◌≤◌, ◌<◌, ◌≡◌, refl, ap, ◌∙◌, false, List, [], ◌∷◌, ◌++◌, All, map, arith, pos,
  to_byte, length, length-append, append_assoc, subst, set, drop,
}
use spu_energy_efficient_sys.Calendar.{Alarm, Calendar, put_alarm}
use spu_energy_efficient_sys.Calendar.Edit.{used_alarms, cleared}
use spu_energy_efficient_sys.Calendar.Image.{used_alarms_used, used_alarms_unused}
use spu_energy_efficient_sys.Calendar.Loading.{restored, load}

-- The alarms of an image, one after the other.
unfoldable pub restores : Alarm → List Alarm → List Alarm
restores aux [] = []
restores aux (a ∷ rest) = restored aux a ∷ restores (restored aux a) rest

set-append :
    (xs ys : List Alarm) (y v : Alarm) → set (xs ++ (y ∷ ys)) (length xs) v ≡ (xs ++ (v ∷ [])) ++ ys
set-append [] ys y v = refl
set-append (x ∷ xs) ys y v = ap (◌∷◌ x) (set-append xs ys y v)

pub alarms-load :
    {World : Type 0} (news : List Alarm) (c : Calendar World) (done free : List Alarm) (aux : Alarm)
    → c.alarms ≡ done ++ free
    → length news ≤ length free
    → (load c (length done) news aux).alarms
      ≡ done ++ (restores aux news ++ drop (length news) free)
unfolding load restores put_alarm
alarms-load [] c done free aux e h = e
alarms-load (a ∷ news) c done [] aux e h = absurd (omega arith)
alarms-load (a ∷ news) c done (x ∷ free) aux e h =
    let r : Alarm = restored aux a in
    let filled = done ++ (r ∷ []) in
    let d = put_alarm c (length done) r (to_byte a.id) in
    subst
      (λ i. (load d i news r).alarms ≡ done ++ (r ∷ (restores r news ++ drop (length news) free)))
      (length-append done (r ∷ []))
      (alarms-load news d filled free r
          (ap (λ l. set l (length done) r) e ∙ set-append done free x r) (omega arith)
        ∙ append_assoc done (r ∷ []) (restores r news ++ drop (length news) free))

pub amount-load :
    {World : Type 0} (news : List Alarm) (c : Calendar World) (i n : ℕ) (aux : Alarm)
    → c.alarm_amount ≡ pos n
    → (load c i news aux).alarm_amount ≡ pos (n + length news)
unfolding load put_alarm
amount-load [] c i n aux e = e ∙ ap pos (omega arith)
amount-load (a ∷ news) c i n aux e =
    amount-load news _ (i + 1) (n + 1) (restored aux a) (ground (arith, e)) ∙ ap pos (omega arith)

pub next_id-load :
    {World : Type 0} (news : List Alarm) (c : Calendar World) (i : ℕ) (aux : Alarm)
    → (c.next_id ≤ (load c i news aux).next_id)
      × All (λ a. to_byte a.id < (load c i news aux).next_id) news
unfolding load put_alarm
next_id-load [] c i aux = (omega arith, tt)
next_id-load (a ∷ news) c i aux =
    let (above, rest) =
      next_id-load news (put_alarm c i (restored aux a) (to_byte a.id)) (i + 1) (restored aux a) in
    (ground (arith, above), (ground (arith, above), rest))

-- No slot of these is used.
abbrev pub NoneUsed : List Alarm → Type 0
NoneUsed = All (λ a. a.used ≡ false)

pub NoneUsed-cleared : (slots : List Alarm) → NoneUsed (map cleared slots)
unfolding cleared
NoneUsed-cleared [] = tt
NoneUsed-cleared (a ∷ rest) = (refl, NoneUsed-cleared rest)

pub NoneUsed-drop : (n : ℕ) (slots : List Alarm) → NoneUsed slots → NoneUsed (drop n slots)
NoneUsed-drop zero slots h = h
NoneUsed-drop (suc n) [] h = tt
NoneUsed-drop (suc n) (a ∷ rest) h = NoneUsed-drop n rest h.1

used_alarms-NoneUsed : (slots : List Alarm) → NoneUsed slots → used_alarms slots ≡ []
unfolding used_alarms
used_alarms-NoneUsed [] h = refl
used_alarms-NoneUsed (a ∷ rest) h = used_alarms_unused a rest h.0 ∙ used_alarms-NoneUsed rest h.1

pub used_alarms-restores :
    (news free : List Alarm) (aux : Alarm)
    → NoneUsed free
    → used_alarms (restores aux news ++ free) ≡ restores aux news
unfolding restores restored
used_alarms-restores [] free aux h = used_alarms-NoneUsed free h
used_alarms-restores (a ∷ news) free aux h =
    used_alarms_used (restored aux a) _ refl
    ∙ ap (◌∷◌ (restored aux a)) (used_alarms-restores news free (restored aux a) h)
