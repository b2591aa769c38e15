-- ===== src/Master/GroupMemory.antt =====
-- The groups are there again after a restart of the master.
use spu_energy_efficient_sys.Common.{
  no_flag, ℕ, ◌+◌, ◌*◌, ◌/◌, ◌%◌, ◌≤◌, ◌<◌, ◌≡◌, refl, sym, ap, ◌∙◌, subst, Bool, true, false, List,
  [], ◌∷◌, ◌++◌, All, length, ◌==◌, if◌then◌else◌, arith, inl, inr, Bool-cases,
}
use spu_energy_efficient_sys.Eeprom.{Eeprom}
use spu_energy_efficient_sys.Spu.{group_info_length, group_name_length, group_amount}
use spu_energy_efficient_sys.WifiSettings.Texts.{IsChar}
use spu_energy_efficient_sys.Master.{Group}
use spu_energy_efficient_sys.Master.Settings.{
  group_dir, store_group, store_groups, store_relay_group_settings, read_name, init_group,
  init_relay_groups,
}
use spu_energy_efficient_sys.Master.GroupBytes.{
  pad, IsStorable, length-pad, Holds, Holds-Agrees, read_name-pad, Kept, Written,
  store_group-Written,
}

flag_test : (b : Bool) → ((if b then 1 else 0) == 1) ≡ b
flag_test true = refl
flag_test false = refl

-- A group as it is after a restart.
abbrev pub SameGroup : Group → Group → Type 0
SameGroup x y =
    (y.is_connected ≡ x.is_connected)
    × (x.is_connected ≡ true
        → (y.name ≡ x.name)
          × (y.ignore_pir ≡ x.ignore_pir)
          × (x.ignore_pir ≡ false → y.motion_detection_time ≡ x.motion_detection_time))

abbrev pub SameGroups : List Group → List Group → Type 0
SameGroups [] [] = Unit
SameGroups [] (y ∷ ys) = ⊥
SameGroups (x ∷ xs) [] = ⊥
SameGroups (x ∷ xs) (y ∷ ys) = SameGroup x y × SameGroups xs ys

-- A group as the master starts with it.
abbrev pub IsUnused : Group → Type 0
IsUnused x = (x.is_connected ≡ false) × (x.name ≡ []) × (x.motion_detection_time < 65536)

module _ (e : Eeprom) where
  open e use {Store, read, commit, read-commit}

  -- Bytes of a group that are not touched keep the group.
  Kept-Agrees :
      (s t : Store) (i : ℕ) (x : Group)
      → ((q : ℕ) → q < group_dir e i + group_info_length → read t q ≡ read s q)
      → Kept e s i x
      → Kept e t i x
  Kept-Agrees s t i x same (on, off) = (
    λ c.
        let (name, flag, low, high) = on c in
        (
          Holds-Agrees e (pad group_name_length x.name) s t (group_dir e i)
              (λ q l u. same q (omega (arith, u, length-pad group_name_length x.name))) name,
          same (group_dir e i + group_name_length) (omega arith) ∙ flag,
          same (group_dir e i + group_name_length + 1) (omega arith) ∙ low,
          same (group_dir e i + group_name_length + 2) (omega arith) ∙ high,
        ),
    λ c. same (group_dir e i) (omega arith) ∙ off c,
  )

  AllKept : Store → ℕ → List Group → Type 0
  AllKept s i [] = Unit
  AllKept s i (x ∷ xs) = Kept e s i x × AllKept s (i + 1) xs

  -- The loop leaves all groups in the memory, and touches nothing before them.
  store_groups-AllKept :
      (xs : List Group) (s : Store) (i : ℕ)
      → i + length xs ≤ group_amount
      → All IsStorable xs
      → AllKept (store_groups e s i xs) i xs
        × ((q : ℕ) → q < group_dir e i → read (store_groups e s i xs) q ≡ read s q)
  unfolding store_groups Written AllKept
  store_groups-AllKept [] s i room h = (tt, λ q l. refl)
  store_groups-AllKept (x ∷ xs) s i room (storable, h) =
      let s1 = store_group e s i x in
      let (kept, (below, _)) = store_group-Written e s i x (omega (arith, room)) storable in
      let (others, before) = store_groups-AllKept xs s1 (i + 1) (omega (arith, room)) h in
      (
        (
          Kept-Agrees s1 (store_groups e s1 (i + 1) xs) i x (λ q l. before q (omega (arith, l)))
              kept,
          others,
        ),
        λ q l. before q (omega (arith, l)) ∙ below q l,
      )

  first_char :
      (cs : List ℕ) (s : Store) (p : ℕ)
      → All IsChar cs
      → 0 < length cs
      → Holds e s p (pad group_name_length cs)
      → (read s p == 0) ≡ false
  first_char [] s p h some_char holds = absurd (omega (arith, some_char))
  first_char (c ∷ cs) s p h some_char holds =
      let more : (c == 0) ≡ false = ground (arith, h.0) in ap (λ b. b == 0) holds.0 ∙ more

  -- What the body of the loop of `initRelayGroups` makes of what is in the memory.
  init_group-SameGroup :
      (s : Store) (i : ℕ) (x y : Group)
      → Kept e s i x
      → IsStorable x
      → IsUnused y
      → SameGroup x (init_group e s i y)
  unfolding init_group
  init_group-SameGroup s i x y kept storable (free, blank, lower) =
      let p = group_dir e i in
      let ignore = read s (p + group_name_length) == 1 in
      let time = read s (p + group_name_length + 1) + 256 * read s (p + group_name_length + 2) in
      let upper = y.motion_detection_time / 65536 * 65536 in
      let found = record y {
        is_connected = true;
        name = y.name ++ read_name e s p group_name_length;
        ignore_pir = ignore;
        motion_detection_time = if ignore then y.motion_detection_time else time + upper;
      } in
      elim (Bool-cases x.is_connected) [
        | inl on ↦
            let (chars, long, fits, small) = storable on in
            let (name, flag, low, high) = kept.0 on in
            let t = x.motion_detection_time in
            let value : t % 65536 % 256 + 256 * (t % 65536 / 256) + upper ≡ t =
              omega (arith, small, lower) in
            let same_flag : ignore ≡ x.ignore_pir =
              ap (λ b. b == 1) flag ∙ flag_test x.ignore_pir in
            subst (λ c. SameGroup x (if c then y else found))
              (sym (first_char x.name s p chars long name))
              (
                sym on,
                λ _. (
                  ap (λ l. l ++ read_name e s p group_name_length) blank
                      ∙ read_name-pad e group_name_length x.name s p chars fits name,
                  same_flag,
                  λ hears.
                      ap (λ b. if b then y.motion_detection_time else time + upper)
                        (same_flag ∙ hears)
                      ∙ ap (λ l. l + 256 * read s (p + group_name_length + 2) + upper) low
                      ∙ ap (λ h. t % 65536 % 256 + 256 * h + upper) high
                      ∙ value,
                ),
              )
        | inr off ↦
            let zero_test : (read s p == 0) ≡ true = ap (λ b. b == 0) (kept.1 off) in
            subst (λ c. SameGroup x (if c then y else found)) (sym zero_test)
              (free ∙ sym off, λ on. no_flag (sym off ∙ on))
      ]

  init_relay_groups-SameGroups :
      (xs ys : List Group) (s : Store) (i : ℕ)
      → AllKept s i xs
      → All IsStorable xs
      → All IsUnused ys
      → length ys ≡ length xs
      → SameGroups xs (init_relay_groups e s i ys)
  unfolding init_relay_groups AllKept
  init_relay_groups-SameGroups [] [] s i kept h free same = tt
  init_relay_groups-SameGroups [] (y ∷ ys) s i kept h free same = absurd (omega (arith, same))
  init_relay_groups-SameGroups (x ∷ xs) [] s i kept h free same = absurd (omega (arith, same))
  init_relay_groups-SameGroups (x ∷ xs) (y ∷ ys) s i (kept, others) (storable, h) (unused, free)
        same =
      (
        init_group-SameGroup s i x y kept storable unused,
        init_relay_groups-SameGroups xs ys s (i + 1) others h free (omega (arith, same)),
      )

  AllKept-commit : (xs : List Group) (s : Store) (i : ℕ) → AllKept s i xs → AllKept (commit s) i xs
  unfolding AllKept
  AllKept-commit [] s i h = tt
  AllKept-commit (x ∷ xs) s i (kept, others) = (
    Kept-Agrees s (commit s) i x (λ q l. read-commit s q) kept,
    AllKept-commit xs s (i + 1) others,
  )

  -- At most ten groups, whose names have one to fifteen characters and whose times have 16 bits, are
  -- stored and read again by a master that starts, whose groups are not in use, have no names and times
  -- of 16 bits: the same groups are in use, with their names and whether they ignore the PIR, and
  -- those that do not ignore it with their times.
  pub init_relay_groups-store_relay_group_settings :
      (s : Store) (xs ys : List Group)
      → length xs ≤ group_amount
      → All IsStorable xs
      → All IsUnused ys
      → length ys ≡ length xs
      → SameGroups xs (init_relay_groups e (store_relay_group_settings e s xs) 0 ys)
  unfolding store_relay_group_settings
  init_relay_groups-store_relay_group_settings s xs ys room h free same =
      let (kept, _) = store_groups-AllKept xs s 0 (omega (arith, room)) h in
      init_relay_groups-SameGroups xs ys (commit (store_groups e s 0 xs)) 0
        (AllKept-commit xs (store_groups e s 0 xs) 0 kept) h free same
