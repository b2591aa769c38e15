-- ===== src/SerialMenu/Editing.antt =====
-- The table of commands of the serial menu is an association list: adding puts a command at its end
-- while there is room, removing drops the first one of the name.
use spu_energy_efficient_sys.Common.{
  ℕ, zero, suc, ◌+◌, ◌-◌, ◌≡◌, refl, sym, ap, ◌∙◌, Bool, Option, none, some, List, [], ◌∷◌, ◌++◌,
  get_elem?, set, take, ltb, ◌>>=◌, if◌then◌else◌, length, arith, ◌≤◌, ◌<◌, Bool-cases,
  Option-cases, inl, inr, ◌⊎◌, length-set, ltb→lt,
}
use spu_energy_efficient_sys.SerialMenu.{
  Text, Action, MenuEvent, Menu, entries, max_event_number, new_menu, add_event, remove_event,
  find_event, shift,
}

-- The calls that change the table.
pub data Change (World : Type 0) : Type 0 where
  add : Text → Action World → Change World
  remove : Text → Change World

module _ {World : Type 0} where
  -- The array has its room, and the count is within it.
  pub record IsValid (m : Menu World) : Type 0 where
    pub room : length m.events ≡ max_event_number
    pub count : m.number_of_events ≤ max_event_number

  -- Putting an entry behind the first `n`.
  take-set :
      (es : List (MenuEvent World)) (n : ℕ) (e : MenuEvent World)
      → n < length es
      → take (suc n) (set es n e) ≡ take n es ++ (e ∷ [])
  take-set [] n e h = absurd (omega arith)
  take-set (x ∷ es) zero e h = refl
  take-set (x ∷ es) (suc n) e h = ap (λ xs. x ∷ xs) (take-set es n e (omega arith))

  length-take : (es : List (MenuEvent World)) (n : ℕ) → n ≤ length es → length (take n es) ≡ n
  length-take es zero h = refl
  length-take [] (suc n) h = absurd (omega arith)
  length-take (x ∷ es) (suc n) h = ap suc (length-take es n (omega arith))

  -- The entries without the one at `i`.
  abbrev erase : ℕ → List (MenuEvent World) → List (MenuEvent World)
  erase i [] = []
  erase zero (e ∷ es) = es
  erase (suc i) (e ∷ es) = e ∷ erase i es

  shift-cons :
      (x : MenuEvent World) (k : ℕ) (es : List (MenuEvent World)) (j : ℕ)
      → shift (x ∷ es) (suc j) k ≡ (shift es j k >>= λ fs. some (x ∷ fs))
  unfolding shift
  shift-cons x zero es j = refl
  shift-cons x (suc k) es j =
      let next : suc j + 1 ≡ suc (j + 1) = omega arith in
      rw next (elim (Option-cases (get_elem? es (j + 1))) [
        | inl e ↦ rw e refl
        | inr (y, e) ↦ rw e (shift-cons x k (set es j y) (j + 1))
      ])

  -- What the inner loop of `removeEvent` does to the first `j + k + 1` entries.
  abbrev Shifted : List (MenuEvent World) → ℕ → ℕ → Type 0
  Shifted es j k =
      (fs : List (MenuEvent World)) × (shift es j k ≡ some fs)
      × (length fs ≡ length es)
      × (take (j + k) fs ≡ erase j (take (suc (j + k)) es))

  shift_all :
      (k : ℕ) (x : MenuEvent World) (es : List (MenuEvent World))
      → k ≤ length es
      → (fs : List (MenuEvent World)) × (shift (x ∷ es) 0 k ≡ some fs)
        × (length fs ≡ suc (length es))
        × (take k fs ≡ take k es)
  unfolding shift
  shift_all zero x es h = (x ∷ es, refl, refl, refl)
  shift_all (suc k) x [] h = absurd (omega arith)
  shift_all (suc k) x (y ∷ ys) h =
      let (fs, e, len, same) = shift_all k y ys (omega arith) in
      (y ∷ fs, shift-cons y k (y ∷ ys) 0 ∙ rw e refl, ap suc len, ap (λ xs. y ∷ xs) same)

  shift_lem : (es : List (MenuEvent World)) (j k : ℕ) → j + k < length es → Shifted es j k
  shift_lem [] j k h = absurd (omega arith)
  shift_lem (x ∷ es) zero k h =
      let (fs, e, len, same) = shift_all k x es (omega arith) in
      let plain : 0 + k ≡ k = omega arith in (fs, e, len, rw plain same)
  shift_lem (x ∷ es) (suc j) k h =
      let (fs, e, len, same) = shift_lem es j k (omega arith) in
      let next : suc j + k ≡ suc (j + k) = omega arith in
      (x ∷ fs, shift-cons x k es j ∙ rw e refl, ap suc len, rw next (ap (λ xs. x ∷ xs) same))

  module _ (same : Text → Text → Bool) where
    -- An association list without its first command of the name.
    abbrev pub without : Text → List (MenuEvent World) → List (MenuEvent World)
    without name [] = []
    without name (e ∷ es) = if same e.name name then es else e ∷ without name es

    find_event_cases :
        (name : Text) (es : List (MenuEvent World))
        → ((find_event same name es ≡ none) × (without name es ≡ es))
          ⊎ ((i : ℕ) × (find_event same name es ≡ some i)
              × (i < length es)
              × (without name es ≡ erase i es))
    unfolding find_event
    find_event_cases name [] = inl (refl, refl)
    find_event_cases name (e ∷ es) = elim (Bool-cases (same e.name name)) [
      | inl hit ↦ inr (0, rw hit refl, omega arith, rw hit refl)
      | inr miss ↦ elim (find_event_cases name es) [
        | inl (a, b) ↦ inl (rw (miss, a) refl, rw miss (ap (λ xs. e ∷ xs) b))
        | inr (i, a, l, b) ↦ inr (
          suc i,
          rw (miss, a) (ap some (omega arith)),
          omega arith,
          rw miss (ap (λ xs. e ∷ xs) b),
        )
      ]
    ]

    remove_event_lem :
        (m : Menu World) (name : Text)
        → IsValid m
        → (m' : Menu World) × (remove_event same m name ≡ some m')
          × IsValid m'
          × (entries m' ≡ without name (entries m))
    unfolding remove_event
    remove_event_lem m name v = elim (find_event_cases name (entries m)) [
      | inl (a, b) ↦ (m, rw (remove_event, a) refl, v, sym b)
      | inr (i, a, l, b) ↦
          let n = m.number_of_events in
          let size : length (entries m) ≡ n =
            length-take m.events n (omega (arith, v.room, v.count)) in
          let (fs, e, len, kept) =
            shift_lem m.events i (n - 1 - i) (omega (arith, v.room, v.count)) in
          let last : i + (n - 1 - i) ≡ n - 1 = omega arith in
          let all : suc (n - 1) ≡ n = omega arith in
          (
            record m { events = fs; number_of_events = n - 1 },
            rw (remove_event, a, e) refl,
            record { room = len ∙ v.room; count = omega (arith, v.count) },
            rw b (rw (last, all) at kept),
          )
    ]

  add_event_lem :
      (m : Menu World) (name : Text) (action : Action World)
      → IsValid m
      → ((add_event m name action).0 ≡ ltb (length (entries m)) max_event_number)
        × IsValid (add_event m name action).1
        × (entries (add_event m name action).1 ≡ (
            if ltb (length (entries m)) max_event_number
            then entries m ++ (record { name = name; action = action } ∷ [])
            else entries m))
  unfolding add_event
  add_event_lem m name action v =
      let n = m.number_of_events in
      let size : length (entries m) ≡ n = length-take m.events n (omega (arith, v.room, v.count)) in
      elim (Bool-cases (ltb n max_event_number)) [
        | inl free ↦
            let less = ltb→lt n max_event_number free in
            let next : n + 1 ≡ suc n = omega arith in
            (
              rw (size, free) refl,
              rw free (record {
                room = length-set m.events n (record { name = name; action = action }) ∙ v.room;
                count = omega (arith, less);
              }),
              rw (size, free, next)
                  (take-set m.events n (record { name = name; action = action })
                    (omega (arith, less, v.room))),
            )
        | inr full ↦ (rw (size, full) refl, rw full v, rw (size, full) refl)
      ]

  module _ (same : Text → Text → Bool) where
    pub change : Menu World → Change World → Option (Menu World)
    change m (add name action) = some (add_event m name action).1
    change m (remove name) = remove_event same m name

    pub changed : Menu World → List (Change World) → Option (Menu World)
    changed m [] = some m
    changed m (c ∷ cs) = change m c >>= λ m'. changed m' cs

    -- The same on an association list with room for 30.
    abbrev pub list_change : List (MenuEvent World) → Change World → List (MenuEvent World)
    list_change es (add name action) =
        if ltb (length es) max_event_number
        then es ++ (record { name = name; action = action } ∷ [])
        else es
    list_change es (remove name) = without same name es

    abbrev pub list_changed : List (MenuEvent World) → List (Change World) → List (MenuEvent World)
    list_changed es [] = es
    list_changed es (c ∷ cs) = list_changed (list_change es c) cs

    change_lem :
        (m : Menu World) (c : Change World)
        → IsValid m
        → (m' : Menu World) × (change m c ≡ some m')
          × IsValid m'
          × (entries m' ≡ list_change (entries m) c)
    unfolding change
    change_lem m (add name action) v =
        let (_, valid, same) = add_event_lem m name action v in
        ((add_event m name action).1, refl, valid, same)
    change_lem m (remove name) v = remove_event_lem same m name v

    changed-IsValid :
        (cs : List (Change World)) (m : Menu World)
        → IsValid m
        → (m' : Menu World) × (changed m cs ≡ some m')
          × IsValid m'
          × (entries m' ≡ list_changed (entries m) cs)
    unfolding changed
    changed-IsValid [] m v = (m, refl, v, refl)
    changed-IsValid (c ∷ cs) m v =
        let (m1, e, v1, es) = change_lem m c v in
        let (m2, f, v2, fs) = changed-IsValid cs m1 v1 in
        (m2, rw (e, f) refl, v2, fs ∙ ap (λ xs. list_changed xs cs) es)

    -- From the constructor, with an array of 30 entries of any content: after any calls of addEvent
    -- and removeEvent, none of which leaves the array, the entries of the menu are those of an
    -- association list in which adding appends while there are fewer than 30, and removing drops the
    -- first of the name.
    pub changed_lem :
        (m : Menu World) (cs : List (Change World))
        → length m.events ≡ max_event_number
        → (m' : Menu World) × (changed (new_menu m) cs ≡ some m')
          × IsValid m'
          × (entries m' ≡ list_changed [] cs)
    unfolding new_menu
    changed_lem m cs room =
        changed-IsValid cs (new_menu m) (record { room = room; count = omega arith })
