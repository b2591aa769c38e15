-- ===== src/Master/Dozing.antt =====
-- The groups alone: which of them is the next to sleep, and what a time without motion does to them.
use spu_energy_efficient_sys.Common.{
  ℕ, zero, suc, ◌+◌, ◌≤◌, ◌<◌, ◌≡◌, refl, sym, ap, ◌∙◌, subst, Bool, true, false, ◌&&◌, none, some,
  List, [], ◌∷◌, ℤ, pos, negsuc, get_elem?, set, leb, if◌then◌else◌, arith, Bool-cases, inl, inr,
  ◌⊎◌, length, All, map,
}
use mathlib.Core.Option.{some-injective}
use spu_energy_efficient_sys.Master.{Group}
use spu_energy_efficient_sys.Master.Motion.{is_awake, next_from, get_next_sleeping_group}

-- How many groups are awake.
abbrev pub awake_count : List Group → ℕ
awake_count [] = 0
awake_count (x ∷ xs) = (if is_awake x then 1 else 0) + awake_count xs

abbrev pub slept : Group → Group
slept x = record x { is_on = true; is_sleeping = true }

-- A group that is awake has at least the time `t`.
abbrev pub AllFrom : ℕ → List Group → Type 0
AllFrom t xs = All (λ x. is_awake x ≡ true → t ≤ x.motion_detection_time) xs

-- What the time `t` without motion does to a group.
abbrev pub doze : ℕ → Group → Group
doze t x = if is_awake x && leb x.motion_detection_time t then slept x else x

and_true : (c : Bool) (time t : ℕ) → c ≡ true → time ≤ t → (c && leb time t) ≡ true
and_true c time t on h = ground (arith, on, h)

and_false : (c : Bool) (time t : ℕ) → (c ≡ true → t < time) → (c && leb time t) ≡ false
and_false true time t h = ground (arith, h refl)
and_false false time t h = refl

none-some : {x : Group} → none ≡ some x → ⊥
none-some h = subst (λ o. elim o [ some z ↦ ⊥ | none ↦ Unit ]) h tt

pub AllFrom-weaken : (xs : List Group) (t u : ℕ) → u ≤ t → AllFrom t xs → AllFrom u xs
AllFrom-weaken [] t u h all = tt
AllFrom-weaken (x ∷ xs) t u h (here, all) =
    (λ on. omega (arith, here on, h), AllFrom-weaken xs t u h all)

-- What the loop over the groups finds: nothing below the bound, or the last of the groups that are
-- awake with the shortest time.
abbrev pub Found : List Group → ℕ → ℕ → ℤ → ℤ → Type 0
Found xs i min group r =
    ((r ≡ group) × AllFrom (suc min) xs)
    ⊎ ((j : ℕ) × (x : Group) × (r ≡ pos (i + j))
        × (get_elem? xs j ≡ some x)
        × (is_awake x ≡ true)
        × (x.motion_detection_time ≤ min)
        × AllFrom x.motion_detection_time xs)

taken_test : (c : Bool) (time min : ℕ) → ((c && leb time min) ≡ true) → (c ≡ true) × (time ≤ min)
taken_test c time min h = ground (arith, h)

passed_test : (c : Bool) (time min : ℕ) → ((c && leb time min) ≡ false) → c ≡ true → min < time
passed_test c time min h on = ground (arith, h, on)

next_from_step :
    (x : Group) (xs : List Group) (i min : ℕ) (group : ℤ) (c : Bool)
    → (is_awake x && leb x.motion_detection_time min) ≡ c
    → next_from (x ∷ xs) i min group ≡ (
        if c
        then next_from xs (i + 1) x.motion_detection_time (pos i)
        else next_from xs (i + 1) min group)
unfolding next_from
next_from_step x xs i min group c h =
    ap
      (λ b.
        if b
        then next_from xs (i + 1) x.motion_detection_time (pos i)
        else next_from xs (i + 1) min group)
      h

pub next_from-Found :
    (xs : List Group) (i min : ℕ) (group : ℤ) → Found xs i min group (next_from xs i min group)
unfolding next_from
next_from-Found [] i min group = inl (refl, tt)
next_from-Found (x ∷ xs) i min group =
    elim (Bool-cases (is_awake x && leb x.motion_detection_time min)) [
      | inl taken ↦
          let (on, le) = taken_test (is_awake x) x.motion_detection_time min taken in
          let step = next_from_step x xs i min group true taken in
          elim (next_from-Found xs (i + 1) x.motion_detection_time (pos i)) [
            | inl (same, all) ↦ inr (
              0,
              x,
              step ∙ same ∙ ap pos (omega arith),
              refl,
              on,
              le,
              (
                λ _. omega arith,
                AllFrom-weaken xs (suc x.motion_detection_time) _ (omega arith) all,
              ),
            )
            | inr (j, y, at_j, here, awake, lt, all) ↦ inr (
              suc j,
              y,
              step ∙ at_j ∙ ap pos (omega arith),
              here,
              awake,
              omega (arith, lt, le),
              (λ _. lt, all),
            )
          ]
      | inr passed ↦
          let step = next_from_step x xs i min group false passed in
          let over = passed_test (is_awake x) x.motion_detection_time min passed in
          elim (next_from-Found xs (i + 1) min group) [
            | inl (same, all) ↦ inl (step ∙ same, (λ on. omega (arith, over on), all))
            | inr (j, y, at_j, here, awake, lt, all) ↦ inr (
              suc j,
              y,
              step ∙ at_j ∙ ap pos (omega arith),
              here,
              awake,
              lt,
              (λ on. omega (arith, over on, lt), all),
            )
          ]
    ]

pub get_next_sleeping_group-Found :
    (groups : List Group) → Found groups 0 65535 (negsuc 0) (get_next_sleeping_group groups)
unfolding get_next_sleeping_group
get_next_sleeping_group-Found groups = next_from-Found groups 0 65535 (negsuc 0)

-- A group asleep is not awake, and the time does nothing more to it.
slept_lem : (x : Group) (t : ℕ) → (is_awake (slept x) ≡ false) × (doze t (slept x) ≡ slept x)
slept_lem x t = go x.is_connected
  where
    go :
        (c : Bool)
        → ((c && false) ≡ false)
          × ((if (c && false) && leb x.motion_detection_time t then slept (slept x) else slept x)
              ≡ slept x)
    go true = (refl, refl)
    go false = (refl, refl)

pub doze_early :
    (x : Group) (t : ℕ) → is_awake x ≡ true → x.motion_detection_time ≤ t → doze t x ≡ slept x
doze_early x t on h =
    ap (λ b. if b then slept x else x) (and_true (is_awake x) x.motion_detection_time t on h)

pub doze_later :
    (x : Group) (t : ℕ) → (is_awake x ≡ true → t < x.motion_detection_time) → doze t x ≡ x
doze_later x t h =
    ap (λ b. if b then slept x else x) (and_false (is_awake x) x.motion_detection_time t h)

pub map-doze_self : (xs : List Group) (t : ℕ) → AllFrom (suc t) xs → map (doze t) xs ≡ xs
map-doze_self [] t all = refl
map-doze_self (x ∷ xs) t (here, all) =
    ap (λ y. y ∷ map (doze t) xs) (doze_later x t (λ on. omega (arith, here on)))
    ∙ ap (λ ys. x ∷ ys) (map-doze_self xs t all)

-- Putting a group to sleep for which it is time changes nothing of what the time does.
pub map-set-slept :
    (xs : List Group) (i t : ℕ) (x : Group)
    → get_elem? xs i ≡ some x
    → is_awake x ≡ true
    → x.motion_detection_time ≤ t
    → map (doze t) (set xs i (slept x)) ≡ map (doze t) xs
map-set-slept [] i t x here on h = refl
map-set-slept (y ∷ xs) zero t x here on h =
    ap (λ z. z ∷ map (doze t) xs)
      ((slept_lem x t).1 ∙ sym (doze_early x t on h) ∙ ap (doze t) (sym (some-injective y x here)))
map-set-slept (y ∷ xs) (suc i) t x here on h =
    ap (λ zs. doze t y ∷ zs) (map-set-slept xs i t x here on h)

pub awake_count-set :
    (xs : List Group) (i : ℕ) (x : Group)
    → get_elem? xs i ≡ some x
    → is_awake x ≡ true
    → suc (awake_count (set xs i (slept x))) ≡ awake_count xs
awake_count-set [] i x here on = absurd (none-some here)
awake_count-set (y ∷ xs) zero x here on =
    ap (λ b. suc ((if b then 1 else 0) + awake_count xs)) (slept_lem x 0).0
    ∙ omega arith
    ∙ ap (λ b. (if b then 1 else 0) + awake_count xs) (sym on)
    ∙ ap (λ z. (if is_awake z then 1 else 0) + awake_count xs) (sym (some-injective y x here))
awake_count-set (y ∷ xs) (suc i) x here on =
    let less = awake_count-set xs i x here on in omega (arith, less)

pub awake_count_le : (xs : List Group) → awake_count xs ≤ length xs
awake_count_le [] = omega arith
awake_count_le (x ∷ xs) =
    let less = awake_count_le xs in
    elim (Bool-cases (is_awake x)) [
      | inl on ↦
          subst (λ b. (if b then 1 else 0) + awake_count xs ≤ suc (length xs)) (sym on)
            (omega (arith, less))
      | inr off ↦
          subst (λ b. (if b then 1 else 0) + awake_count xs ≤ suc (length xs)) (sym off)
            (omega (arith, less))
    ]
