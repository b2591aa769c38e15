-- ===== src/Calendar/Image.antt =====
-- What `storeAlarms` of libraries/Calendar leaves in the EEPROM, byte by byte.
use spu_energy_efficient_sys.Common.{
  ℕ, ◌+◌, ◌*◌, ◌≤◌, ◌<◌, ◌≡◌, refl, sym, ap, ◌∙◌, true, false, List, [], ◌∷◌, ◌++◌, All, arith, pos,
  to_byte_lt, length, length-append, if◌then◌else◌, Bool-cases, inl, inr, subst,
}
use native.Mathlib.Nat.{add-zero}
use spu_energy_efficient_sys.Eeprom.{Eeprom}
use spu_energy_efficient_sys.Spu.{memory_size, alarms_dir, delimiter}
use spu_energy_efficient_sys.Calendar.{Alarm, alarm_bytes, write_bytes, store_from, store_alarms}
use spu_energy_efficient_sys.Calendar.Edit.{used_alarms}

-- The bytes from `ALARMS_DIR` on: those of the used alarms, then the delimiter.
unfoldable pub image : List Alarm → List ℕ
image [] = delimiter ∷ []
image (a ∷ rest) = if a.used then alarm_bytes a ++ image rest else image rest

abbrev pub IsByte : ℕ → Type 0
IsByte b = b < 256

pub alarm_bytes-IsByte : (a : Alarm) → All IsByte (alarm_bytes a)
unfolding alarm_bytes
alarm_bytes-IsByte a = ground (
  arith,
  to_byte_lt (pos a.kind),
  to_byte_lt a.day,
  to_byte_lt a.hour,
  to_byte_lt a.minutes,
  to_byte_lt a.finish_hour,
  to_byte_lt a.finish_minutes,
  to_byte_lt a.event,
  to_byte_lt a.event_id,
  to_byte_lt a.id,
  to_byte_lt a.year,
  to_byte_lt a.month,
)

pub length-alarm_bytes : (a : Alarm) → length (alarm_bytes a) ≤ 11
unfolding alarm_bytes
length-alarm_bytes a = ground arith

pub image_used :
    (a : Alarm) (rest : List Alarm) → a.used ≡ true → image (a ∷ rest) ≡ alarm_bytes a ++ image rest
unfolding image
image_used a rest u = ap (λ b. if b then alarm_bytes a ++ image rest else image rest) u

pub image_unused : (a : Alarm) (rest : List Alarm) → a.used ≡ false → image (a ∷ rest) ≡ image rest
unfolding image
image_unused a rest u = ap (λ b. if b then alarm_bytes a ++ image rest else image rest) u

pub used_alarms_used :
    (a : Alarm) (rest : List Alarm) → a.used ≡ true → used_alarms (a ∷ rest) ≡ a ∷ used_alarms rest
unfolding used_alarms
used_alarms_used a rest u = ap (λ b. if b then a ∷ used_alarms rest else used_alarms rest) u

pub used_alarms_unused :
    (a : Alarm) (rest : List Alarm) → a.used ≡ false → used_alarms (a ∷ rest) ≡ used_alarms rest
unfolding used_alarms
used_alarms_unused a rest u = ap (λ b. if b then a ∷ used_alarms rest else used_alarms rest) u

pub length-image : (slots : List Alarm) → length (image slots) ≤ 11 * length (used_alarms slots) + 1
unfolding image used_alarms
length-image [] = omega arith
length-image (a ∷ rest) = elim (Bool-cases a.used) [
  | inl u ↦ omega (
    arith,
    ap length (image_used a rest u),
    ap length (used_alarms_used a rest u),
    length-append (alarm_bytes a) (image rest),
    length-alarm_bytes a,
    length-image rest,
  )
  | inr u ↦ omega (
    arith,
    ap length (image_unused a rest u),
    ap length (used_alarms_unused a rest u),
    length-image rest,
  )
]

module _ (e : Eeprom) where
  -- The bytes stand in the memory from `p` on.
  abbrev pub Holds : e.Store → ℕ → List ℕ → Type 0
  Holds s p [] = Unit {0}
  Holds s p (b ∷ bs) = (e.read s p ≡ b) × Holds s (p + 1) bs

  write_bytes_below :
      (bs : List ℕ) (s : e.Store) (p q : ℕ)
      → q < p
      → p + length bs ≤ memory_size
      → e.read (write_bytes e s p bs) q ≡ e.read s q
  unfolding write_bytes
  write_bytes_below [] s p q h fits = refl
  write_bytes_below (b ∷ bs) s p q h fits =
      write_bytes_below bs (e.write s p b) (p + 1) q (omega arith) (omega arith)
      ∙ ground (arith, e.read-write s p b q)

  Holds-same :
      (bs : List ℕ) (s t : e.Store) (p : ℕ)
      → ((q : ℕ) → p ≤ q → q < p + length bs → e.read t q ≡ e.read s q)
      → Holds s p bs
      → Holds t p bs
  Holds-same [] s t p same h = tt
  Holds-same (b ∷ bs) s t p same h = (
    same p (omega arith) (omega arith) ∙ h.0,
    Holds-same bs s t (p + 1) (λ q lo hi. same q (omega arith) (omega arith)) h.1,
  )

  write_bytes-Holds :
      (bs : List ℕ) (s : e.Store) (p : ℕ)
      → All IsByte bs
      → p + length bs ≤ memory_size
      → Holds (write_bytes e s p bs) p bs
  unfolding write_bytes
  write_bytes-Holds [] s p h fits = tt
  write_bytes-Holds (b ∷ bs) s p h fits = (
    write_bytes_below bs (e.write s p b) (p + 1) p (omega arith) (omega arith)
        ∙ ground (arith, e.read-write s p b p, h.0),
    write_bytes-Holds bs (e.write s p b) (p + 1) h.1 (omega arith),
  )

  Holds-append :
      (bs cs : List ℕ) (s : e.Store) (p : ℕ)
      → Holds s p bs
      → Holds s (p + length bs) cs
      → Holds s p (bs ++ cs)
  Holds-append [] cs s p h k = rw (add-zero p) at k
  Holds-append (b ∷ bs) cs s p h k =
      (h.0, Holds-append bs cs s (p + 1) h.1 (subst (λ q. Holds s q cs) (omega arith) k))

  pub Holds-drop :
      (bs cs : List ℕ) (s : e.Store) (p : ℕ) → Holds s p (bs ++ cs) → Holds s (p + length bs) cs
  Holds-drop [] cs s p h = rw (add-zero p) h
  Holds-drop (b ∷ bs) cs s p h =
      subst (λ q. Holds s q cs) (omega arith) (Holds-drop bs cs s (p + 1) h.1)

  store_from_used :
      (a : Alarm) (rest : List Alarm) (s : e.Store) (p : ℕ)
      → a.used ≡ true
      → store_from e s p (a ∷ rest)
        ≡ store_from e (write_bytes e s p (alarm_bytes a)) (p + length (alarm_bytes a)) rest
  unfolding store_from
  store_from_used a rest s p u =
      ap
        (λ b.
          store_from e (if b then write_bytes e s p (alarm_bytes a) else s)
            (if b then p + length (alarm_bytes a) else p) rest)
        u

  store_from_unused :
      (a : Alarm) (rest : List Alarm) (s : e.Store) (p : ℕ)
      → a.used ≡ false
      → store_from e s p (a ∷ rest) ≡ store_from e s p rest
  unfolding store_from
  store_from_unused a rest s p u =
      ap
        (λ b.
          store_from e (if b then write_bytes e s p (alarm_bytes a) else s)
            (if b then p + length (alarm_bytes a) else p) rest)
        u

  -- The size of the image of a used alarm and of the alarms behind it.
  length-image_used :
      (a : Alarm) (rest : List Alarm)
      → a.used ≡ true
      → length (image (a ∷ rest)) ≡ length (alarm_bytes a) + length (image rest)
  length-image_used a rest u =
      ap length (image_used a rest u) ∙ length-append (alarm_bytes a) (image rest)

  store_from_below :
      (slots : List Alarm) (s : e.Store) (p q : ℕ)
      → q < p
      → p + length (image slots) ≤ memory_size
      → e.read (store_from e s p slots) q ≡ e.read s q
  unfolding store_from image
  store_from_below [] s p q h fits = ground (arith, e.read-write s p 0 q)
  store_from_below (a ∷ rest) s p q h fits = elim (Bool-cases a.used) [
    | inl u ↦
        let size = length-image_used a rest u in
        ap (λ t. e.read t q) (store_from_used a rest s p u)
        ∙ store_from_below rest (write_bytes e s p (alarm_bytes a)) (p + length (alarm_bytes a)) q
            (omega arith) (omega arith)
        ∙ write_bytes_below (alarm_bytes a) s p q h (omega arith)
    | inr u ↦
        ap (λ t. e.read t q) (store_from_unused a rest s p u)
        ∙ store_from_below rest s p q h (omega (arith, ap length (image_unused a rest u)))
  ]

  -- The loop of `storeAlarms` writes the image.
  store_from-Holds :
      (slots : List Alarm) (s : e.Store) (p : ℕ)
      → p + length (image slots) ≤ memory_size
      → Holds (store_from e s p slots) p (image slots)
  unfolding store_from image
  store_from-Holds [] s p fits = (ground (arith, e.read-write s p 0 p), tt)
  store_from-Holds (a ∷ rest) s p fits = elim (Bool-cases a.used) [
    | inl u ↦
        let size = length-image_used a rest u in
        let bytes = alarm_bytes a in
        let t : e.Store = write_bytes e s p bytes in
        subst (λ t'. Holds t' p (image (a ∷ rest))) (sym (store_from_used a rest s p u))
          (subst (Holds (store_from e t (p + length bytes) rest) p) (sym (image_used a rest u)) (
            Holds-append bytes (image rest) _ p
              (Holds-same bytes t _ p
                (λ q lo hi. store_from_below rest t (p + length bytes) q hi (omega arith))
                (write_bytes-Holds bytes s p (alarm_bytes-IsByte a) (omega arith)))
              (store_from-Holds rest t (p + length bytes) (omega arith))))
    | inr u ↦
        subst (λ t'. Holds t' p (image (a ∷ rest))) (sym (store_from_unused a rest s p u))
          (subst (Holds (store_from e s p rest) p) (sym (image_unused a rest u))
            (store_from-Holds rest s p (omega (arith, ap length (image_unused a rest u)))))
  ]

  -- After `storeAlarms` the memory holds the image of the alarms, if there are at most 30.
  pub store_alarms-Holds :
      (slots : List Alarm) (s : e.Store)
      → length (used_alarms slots) ≤ 30
      → Holds (store_alarms e s slots) alarms_dir (image slots)
  unfolding store_alarms
  store_alarms-Holds slots s h =
      Holds-same (image slots) (store_from e s alarms_dir slots) _ alarms_dir
        (λ q lo hi. e.read-commit _ q)
        (store_from-Holds slots s alarms_dir (omega (arith, length-image slots)))
