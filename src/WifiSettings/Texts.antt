-- ===== src/WifiSettings/Texts.antt =====
-- A text that was stored is read again.
use spu_energy_efficient_sys.Common.{
  ℕ, zero, suc, ◌+◌, ◌≤◌, ◌<◌, ◌≡◌, refl, ap, ◌∙◌, false, some, List, [], ◌∷◌, ◌++◌, All, length,
  ◌==◌, arith,
}
use spu_energy_efficient_sys.Eeprom.{Eeprom, read-write_self, read-write_ne}
use spu_energy_efficient_sys.Spu.{
  memory_size, ssid_dir, passwd_dir, max_ssid_length, max_passwd_length, default_ssid,
  default_passwd,
}
use spu_energy_efficient_sys.WifiSettings.{
  or_default, read_text, read_ssid, read_password, write_text, write_ssid, write_password,
}

-- A character of a text: a byte other than the terminator.
abbrev pub IsChar : ℕ → Type 0
IsChar c = (0 < c) × (c < 256)

or_default_self : (t d : List ℕ) → 0 < length t → or_default t d ≡ t
or_default_self [] d h = absurd (omega arith)
or_default_self (c ∷ t) d h = refl

module _ (e : Eeprom) where
  open e use {Store, read, write, commit, read-write, read-commit}

  -- The characters and their terminator stand in the memory from `p` on.
  abbrev Holds : Store → ℕ → List ℕ → Type 0
  Holds m p [] = read m p ≡ 0
  Holds m p (c ∷ cs) = (read m p ≡ c) × Holds m (p + 1) cs

  -- A loop that writes, and the bytes outside of those that it writes.
  abbrev Writes : Store → ℕ → ℕ → List ℕ → Type 0
  Writes m p k chars =
      (m' : Store) × (write_text e m p k chars ≡ some m')
      × ((q : ℕ) → q < p → read m' q ≡ read m q)
      × ((q : ℕ) → p + k ≤ q → read m' q ≡ read m q)

  write_text-Writes :
      (chars : List ℕ) (m : Store) (p k : ℕ)
      → k ≤ length chars
      → p + k ≤ memory_size
      → Writes m p k chars
  unfolding write_text
  write_text-Writes chars m p zero h room = (m, refl, λ q l. refl, λ q l. refl)
  write_text-Writes [] m p (suc k) h room = absurd (omega arith)
  write_text-Writes (c ∷ chars) m p (suc k) h room =
      let (m', eq, below, above) =
        write_text-Writes chars (write m p c) (p + 1) k (omega arith) (omega arith) in
      (
        m',
        eq,
        λ q l.
            below q (omega (arith, l)) ∙ read-write_ne e m p c q (omega arith) (omega (arith, l)),
        λ q l.
            above q (omega (arith, l)) ∙ read-write_ne e m p c q (omega arith) (omega (arith, l)),
      )

  -- What the writing loop leaves for a text with its terminator, and what it leaves alone.
  write_text_lem :
      (cs beyond : List ℕ) (m : Store) (p k : ℕ)
      → All IsChar cs
      → length cs < k
      → k ≤ suc (length cs + length beyond)
      → p + k ≤ memory_size
      → (m' : Store) × (write_text e m p k (cs ++ (0 ∷ beyond)) ≡ some m')
        × Holds m' p cs
        × ((q : ℕ) → q < p → read m' q ≡ read m q)
        × ((q : ℕ) → p + k ≤ q → read m' q ≡ read m q)
  unfolding write_text
  write_text_lem cs beyond m p zero h few enough room = absurd (omega arith)
  write_text_lem [] beyond m p (suc k) h few enough room =
      let (m', eq, below, above) =
        write_text-Writes beyond (write m p 0) (p + 1) k (omega arith) (omega arith) in
      (
        m',
        eq,
        below p (omega arith) ∙ read-write_self e m p 0 (omega arith) (omega arith),
        λ q l.
            below q (omega (arith, l)) ∙ read-write_ne e m p 0 q (omega arith) (omega (arith, l)),
        λ q l.
            above q (omega (arith, l)) ∙ read-write_ne e m p 0 q (omega arith) (omega (arith, l)),
      )
  write_text_lem (c ∷ cs) beyond m p (suc k) h few enough room =
      let (m', eq, holds, below, above) =
        write_text_lem cs beyond (write m p c) (p + 1) k h.1 (omega arith) (omega arith)
          (omega arith) in
      (
        m',
        eq,
        (below p (omega arith) ∙ read-write_self e m p c (omega arith) (omega (arith, h.0)), holds),
        λ q l.
            below q (omega (arith, l)) ∙ read-write_ne e m p c q (omega arith) (omega (arith, l)),
        λ q l.
            above q (omega (arith, l)) ∙ read-write_ne e m p c q (omega arith) (omega (arith, l)),
      )

  read_text-Holds :
      (cs : List ℕ) (m : Store) (p k : ℕ)
      → All IsChar cs
      → length cs < k
      → Holds m p cs
      → read_text e m p k ≡ some cs
  unfolding read_text
  read_text-Holds cs m p zero h few x = absurd (omega arith)
  read_text-Holds [] m p (suc k) h few x = rw x refl
  read_text-Holds (c ∷ cs) m p (suc k) h few (x, xs) =
      let more : (c == 0) ≡ false = ground (arith, h.0) in
      rw (x, more, read_text-Holds cs m (p + 1) k h.1 (omega arith) xs) refl

  Holds-ext :
      (cs : List ℕ) (m m' : Store) (p n : ℕ)
      → p + length cs < n
      → ((q : ℕ) → p ≤ q → q < n → read m' q ≡ read m q)
      → Holds m p cs
      → Holds m' p cs
  Holds-ext [] m m' p n room same x = same p (omega arith) (omega arith) ∙ x
  Holds-ext (c ∷ cs) m m' p n room same (x, xs) = (
    same p (omega arith) (omega arith) ∙ x,
    Holds-ext cs m m' (p + 1) n (omega arith)
        (λ q l u. same q (omega (arith, l)) (omega (arith, u))) xs,
  )

  -- A network name and a password that are not empty and leave room for their terminators: both can
  -- be written, one after the other, and are read again, whatever the bytes (at least 64) that stand
  -- behind the terminators. (The characters are bytes other than zero.)
  pub read-write_settings :
      (m : Store) (ssid passwd beyond : List ℕ)
      → All IsChar ssid
      → All IsChar passwd
      → 0 < length ssid
      → 0 < length passwd
      → length ssid < max_ssid_length
      → length passwd < max_passwd_length
      → max_passwd_length ≤ length beyond
      → (m1 m2 : Store) × (write_ssid e m (ssid ++ (0 ∷ beyond)) ≡ some m1)
        × (write_password e m1 (passwd ++ (0 ∷ beyond)) ≡ some m2)
        × (read_ssid e m2 ≡ some ssid)
        × (read_password e m2 ≡ some passwd)
  unfolding write_ssid write_password read_ssid read_password
  read-write_settings m ssid passwd beyond hs hp ls lp rs rp enough =
      let (s1, eq1, holds1, _, above1) =
        write_text_lem ssid beyond m ssid_dir max_ssid_length hs rs (omega arith) (omega arith) in
      let (s2, eq2, holds2, below2, _) =
        write_text_lem passwd beyond (commit s1) passwd_dir max_passwd_length hp rp (omega arith)
          (omega arith) in
      let kept : Holds (commit s2) ssid_dir ssid =
        Holds-ext ssid s1 (commit s2) ssid_dir max_ssid_length (omega arith)
          (λ q l u. read-commit s2 q ∙ below2 q u ∙ read-commit s1 q) holds1 in
      let new : Holds (commit s2) passwd_dir passwd =
        Holds-ext passwd s2 (commit s2) passwd_dir memory_size (omega arith)
          (λ q l u. read-commit s2 q) holds2 in
      let name = read_text-Holds ssid (commit s2) ssid_dir max_ssid_length hs rs kept in
      let word = read_text-Holds passwd (commit s2) passwd_dir max_passwd_length hp rp new in
      (
        commit s1,
        commit s2,
        rw eq1 refl,
        rw eq2 refl,
        rw name (ap some (or_default_self ssid default_ssid ls)),
        rw word (ap some (or_default_self passwd default_passwd lp)),
      )
