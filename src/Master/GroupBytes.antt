-- ===== src/Master/GroupBytes.antt =====
-- The bytes of one group in the memory of the master.
use spu_energy_efficient_sys.Common.{
  no_flag, ℕ, zero, suc, ◌+◌, ◌/◌, ◌%◌, ◌≤◌, ◌<◌, ◌≡◌, refl, sym, ap, ◌∙◌, subst, Bool, true, false,
  List, [], ◌∷◌, All, length, ◌==◌, if◌then◌else◌, arith, ◌⊎◌, ◌≢◌, inl, inr, Bool-cases,
}
use spu_energy_efficient_sys.Eeprom.{Eeprom, read-write_self, read-write_ne}
use spu_energy_efficient_sys.Spu.{memory_size, group_info_length, group_name_length, group_amount}
use spu_energy_efficient_sys.WifiSettings.Texts.{IsChar}
use spu_energy_efficient_sys.Master.{Group}
use spu_energy_efficient_sys.Master.Settings.{write_name, group_dir, store_group, read_name}

-- A name filled up with zero bytes, or cut.
abbrev pub pad : ℕ → List ℕ → List ℕ
pad zero name = []
pad (suc k) [] = 0 ∷ pad k []
pad (suc k) (c ∷ cs) = c ∷ pad k cs

pub length-pad : (k : ℕ) (name : List ℕ) → length (pad k name) ≡ k
length-pad zero name = refl
length-pad (suc k) [] = ap suc (length-pad k [])
length-pad (suc k) (c ∷ cs) = ap suc (length-pad k cs)

IsChar-byte : (cs : List ℕ) → All IsChar cs → All (λ c. c < 256) cs
IsChar-byte [] h = tt
IsChar-byte (c ∷ cs) (x, h) = (x.1, IsChar-byte cs h)

apart :
    (p q : ℕ)
    → (q < p + group_name_length) ⊎ (p + group_info_length ≤ q)
    → (p + group_name_length ≢ q)
      × (p + group_name_length + 1 ≢ q)
      × (p + group_name_length + 2 ≢ q)
apart p q (inl h) = (omega (arith, h), omega (arith, h), omega (arith, h))
apart p q (inr h) = (omega (arith, h), omega (arith, h), omega (arith, h))

flag_lt : (b : Bool) → (if b then 1 else 0) < 256
flag_lt true = omega arith
flag_lt false = omega arith

-- What the master can keep of a group: a name of one to fifteen characters, and a time of 16 bits.
abbrev pub IsStorable : Group → Type 0
IsStorable x =
    x.is_connected ≡ true
    → All IsChar x.name
      × (0 < length x.name)
      × (length x.name ≤ group_name_length)
      × (x.motion_detection_time < 65536)

module _ (e : Eeprom) where
  open e use {Store, read, write, commit, read-commit}

  -- The bytes stand in the memory from `p` on.
  abbrev pub Holds : Store → ℕ → List ℕ → Type 0
  Holds s p [] = Unit {0}
  Holds s p (b ∷ bs) = (read s p ≡ b) × Holds s (p + 1) bs

  -- `t` is `s` but for `k` bytes from `p` on.
  abbrev pub Agrees : Store → Store → ℕ → ℕ → Type 0
  Agrees s t p k =
      ((q : ℕ) → q < p → read t q ≡ read s q) × ((q : ℕ) → p + k ≤ q → read t q ≡ read s q)

  -- A byte before those that are written next.
  first_byte :
      (s t : Store) (p b k : ℕ) (bs : List ℕ)
      → p < memory_size
      → b < 256
      → Holds t (p + 1) bs × Agrees (write s p b) t (p + 1) k
      → Holds t p (b ∷ bs) × Agrees s t p (suc k)
  first_byte s t p b k bs room small (holds, (below, above)) = (
    (below p (omega arith) ∙ read-write_self e s p b room small, holds),
    (
      λ q l. below q (omega (arith, l)) ∙ read-write_ne e s p b q room (omega (arith, l)),
      λ q l. above q (omega (arith, l)) ∙ read-write_ne e s p b q room (omega (arith, l)),
    ),
  )

  write_name-Holds :
      (k : ℕ) (name : List ℕ) (s : Store) (p : ℕ)
      → All (λ c. c < 256) name
      → p + k ≤ memory_size
      → Holds (write_name e s p k name) p (pad k name) × Agrees s (write_name e s p k name) p k
  unfolding write_name
  write_name-Holds zero name s p h room = (tt, (λ q l. refl, λ q l. refl))
  write_name-Holds (suc k) [] s p h room =
      first_byte s _ p 0 k (pad k []) (omega (arith, room)) (omega arith)
        (write_name-Holds k [] (write s p 0) (p + 1) tt (omega (arith, room)))
  write_name-Holds (suc k) (c ∷ cs) s p h room =
      first_byte s _ p c k (pad k cs) (omega (arith, room)) h.0
        (write_name-Holds k cs (write s p c) (p + 1) h.1 (omega (arith, room)))

  pub Holds-Agrees :
      (bs : List ℕ) (s t : Store) (p : ℕ)
      → ((q : ℕ) → p ≤ q → q < p + length bs → read t q ≡ read s q)
      → Holds s p bs
      → Holds t p bs
  Holds-Agrees [] s t p same h = tt
  Holds-Agrees (b ∷ bs) s t p same (x, xs) = (
    same p (omega arith) (omega arith) ∙ x,
    Holds-Agrees bs s t (p + 1) (λ q l u. same q (omega (arith, l)) (omega (arith, u))) xs,
  )

  -- The loop that reads a name takes back what was filled up.
  pub read_name-pad :
      (k : ℕ) (name : List ℕ) (s : Store) (p : ℕ)
      → All IsChar name
      → length name ≤ k
      → Holds s p (pad k name)
      → read_name e s p k ≡ name
  unfolding read_name
  read_name-pad zero [] s p h few x = refl
  read_name-pad zero (c ∷ cs) s p h few x = absurd (omega (arith, few))
  read_name-pad (suc k) [] s p h few (x, xs) =
      ap (λ b. if b == 0 then [] else b ∷ read_name e s (p + 1) k) x
  read_name-pad (suc k) (c ∷ cs) s p h few (x, xs) =
      let more : (c == 0) ≡ false = ground (arith, h.0) in
      ap (λ b. if b == 0 then [] else b ∷ read_name e s (p + 1) k) x
      ∙ ap (λ t. if t then [] else c ∷ read_name e s (p + 1) k) more
      ∙ ap (λ l. c ∷ l) (read_name-pad k cs s (p + 1) h.1 (omega (arith, few)) xs)

  -- The bytes of a group that is connected.
  abbrev pub Image : Store → ℕ → Group → Type 0
  Image s p x =
      Holds s p (pad group_name_length x.name)
      × (read s (p + group_name_length) ≡ (if x.ignore_pir then 1 else 0))
      × (read s (p + group_name_length + 1) ≡ x.motion_detection_time % 65536 % 256)
      × (read s (p + group_name_length + 2) ≡ x.motion_detection_time % 65536 / 256)

  -- What is in the memory of a group, connected or not.
  abbrev pub Kept : Store → ℕ → Group → Type 0
  Kept s i x =
      (x.is_connected ≡ true → Image s (group_dir e i) x)
      × (x.is_connected ≡ false → read s (group_dir e i) ≡ 0)

  -- The three bytes behind a name.
  behind_name : Store → ℕ → Bool → ℕ → Store
  behind_name s p ignore t =
      write
        (write (write s (p + group_name_length) (if ignore then 1 else 0))
          (p + group_name_length + 1) (t % 256))
        (p + group_name_length + 2) (t / 256)

  behind_name_ne :
      (s : Store) (p : ℕ) (ignore : Bool) (t q : ℕ)
      → p + group_info_length ≤ memory_size
      → (q < p + group_name_length) ⊎ (p + group_info_length ≤ q)
      → read (behind_name s p ignore t) q ≡ read s q
  unfolding behind_name
  behind_name_ne s p ignore t q room out =
      let (a, b, c) = apart p q out in
      read-write_ne e _ (p + group_name_length + 2) _ q (omega (arith, room)) c
      ∙ read-write_ne e _ (p + group_name_length + 1) _ q (omega (arith, room)) b
      ∙ read-write_ne e s (p + group_name_length) _ q (omega (arith, room)) a

  behind_name-Image :
      (s : Store) (p : ℕ) (ignore : Bool) (t : ℕ)
      → p + group_info_length ≤ memory_size
      → t < 65536
      → (read (behind_name s p ignore t) (p + group_name_length) ≡ (if ignore then 1 else 0))
        × (read (behind_name s p ignore t) (p + group_name_length + 1) ≡ t % 256)
        × (read (behind_name s p ignore t) (p + group_name_length + 2) ≡ t / 256)
  unfolding behind_name
  behind_name-Image s p ignore t room small = (
    read-write_ne e _ (p + group_name_length + 2) _ _ (omega (arith, room)) (omega arith)
        ∙ read-write_ne e _ (p + group_name_length + 1) _ _ (omega (arith, room)) (omega arith)
        ∙ read-write_self e s (p + group_name_length) _ (omega (arith, room)) (flag_lt ignore),
    read-write_ne e _ (p + group_name_length + 2) _ _ (omega (arith, room)) (omega arith)
        ∙ read-write_self e _ (p + group_name_length + 1) _ (omega (arith, room)) (omega arith),
    read-write_self e _ (p + group_name_length + 2) _ (omega (arith, room)) (omega (arith, small)),
  )

  -- A group of which the bytes have been written, and nothing else.
  unfoldable pub Written : Store → Store → ℕ → Group → Type 0
  Written s t i x = Kept t i x × Agrees s t (group_dir e i) group_info_length

  Written-on :
      (s : Store) (i : ℕ) (x : Group)
      → i < group_amount
      → All IsChar x.name
      → length x.name ≤ group_name_length
      → x.is_connected ≡ true
      → Written s
          (behind_name
            (write_name e s (group_dir e i) group_name_length x.name)
            (group_dir e i)
            x.ignore_pir
            (x.motion_detection_time % 65536))
          i
          x
  unfolding Written
  Written-on s i x lt chars fits on =
      let p = group_dir e i in
      let s1 = write_name e s p group_name_length x.name in
      let t = x.motion_detection_time % 65536 in
      let room : p + group_info_length ≤ memory_size = omega (arith, lt) in
      let (name, (below, above)) =
        write_name-Holds group_name_length x.name s p (IsChar-byte x.name chars)
          (omega (arith, lt)) in
      let (flag, low, high) = behind_name-Image s1 p x.ignore_pir t room (omega arith) in
      (
        (
          λ _. (
            Holds-Agrees (pad group_name_length x.name) s1 (behind_name s1 p x.ignore_pir t) p
                (λ q l u.
                  behind_name_ne s1 p x.ignore_pir t q room
                    (inl (omega (arith, u, length-pad group_name_length x.name))))
                name,
            flag,
            low,
            high,
          ),
          λ off. no_flag (sym off ∙ on),
        ),
        (
          λ q l. behind_name_ne s1 p x.ignore_pir t q room (inl (omega (arith, l))) ∙ below q l,
          λ q l. behind_name_ne s1 p x.ignore_pir t q room (inr l) ∙ above q (omega (arith, l)),
        ),
      )

  Written-off :
      (s : Store) (i : ℕ) (x : Group)
      → i < group_amount
      → x.is_connected ≡ false
      → Written s (write_name e s (group_dir e i) group_info_length []) i x
  unfolding Written
  Written-off s i x lt off =
      let (zeros, agrees) =
        write_name-Holds group_info_length [] s (group_dir e i) tt (omega (arith, lt)) in
      ((λ on. no_flag (sym off ∙ on), λ _. zeros.0), agrees)

  pub store_group-Written :
      (s : Store) (i : ℕ) (x : Group)
      → i < group_amount
      → IsStorable x
      → Written s (store_group e s i x) i x
  unfolding store_group behind_name
  store_group-Written s i x lt storable =
      let on_state =
        behind_name (write_name e s (group_dir e i) group_name_length x.name) (group_dir e i)
          x.ignore_pir (x.motion_detection_time % 65536) in
      let off_state = write_name e s (group_dir e i) group_info_length [] in
      elim (Bool-cases x.is_connected) [
        | inl on ↦
            let (chars, _, fits, _) = storable on in
            subst (λ c. Written s (if c then on_state else off_state) i x) (sym on)
              (Written-on s i x lt chars fits on)
        | inr off ↦
            subst (λ c. Written s (if c then on_state else off_state) i x) (sym off)
              (Written-off s i x lt off)
      ]
