-- ===== src/IrControl/Restoring.antt =====
-- An infrared code that was stored is there again after a restart.
use spu_energy_efficient_sys.Common.{
  ℕ, zero, suc, ◌+◌, ◌*◌, ◌/◌, ◌%◌, ◌≡◌, ◌≢◌, refl, sym, ap, ◌∙◌, true, false, some, List, [], ◌∷◌,
  ◌++◌, length, length-append, take, ltb, ◌==◌, ◌>>=◌, if◌then◌else◌, arith, ◌≤◌, ◌<◌, lt→ltb,
  ltb→lt, All, set-middle, append_assoc, append-nil, Bool-cases, inl, inr,
}
use spu_energy_efficient_sys.Eeprom.{Eeprom, read-write_self, read-write_ne}
use spu_energy_efficient_sys.Spu.{memory_size, ir_code_length, ir_code_dir}
use spu_energy_efficient_sys.IrControl.{IrControl, store_values, store_code, load_values, begin}

-- A 16-bit value whose low byte does not end the code.
abbrev pub IsValue : ℕ → Type 0
IsValue v = (v < 65536) × (v % 256 ≢ 0)

module _ (e : Eeprom) where
  -- The values stand in the memory from `p` on.
  abbrev pub Holds : e.Store → ℕ → List ℕ → Type 0
  Holds s p [] = Unit {0}
  Holds s p (v ∷ vs) = (e.read s p ≡ v % 256) × (e.read s (p + 1) ≡ v / 256) × Holds s (p + 2) vs

  Holds-write :
      (vs : List ℕ) (s : e.Store) (p q b : ℕ)
      → p + 2 * length vs ≤ q
      → q < memory_size
      → Holds s p vs
      → Holds (e.write s q b) p vs
  Holds-write [] s p q b h k x = tt
  Holds-write (v ∷ vs) s p q b h k (x, y, z) = (
    read-write_ne e s q b p k (omega arith) ∙ x,
    read-write_ne e s q b (p + 1) k (omega arith) ∙ y,
    Holds-write vs s (p + 2) q b (omega arith) k z,
  )

  Holds-commit : (vs : List ℕ) (s : e.Store) (p : ℕ) → Holds s p vs → Holds (e.commit s) p vs
  Holds-commit [] s p x = tt
  Holds-commit (v ∷ vs) s p (x, y, z) =
      (e.read-commit s p ∙ x, e.read-commit s (p + 1) ∙ y, Holds-commit vs s (p + 2) z)

  -- What the loop of `storeCode` leaves behind the values `done`.
  abbrev Stored : e.Store → ℕ → List ℕ → List ℕ → List ℕ → Type 0
  Stored s p done vs slots =
      (s' : e.Store) × (rest : List ℕ) × (store_values e s p (length done) vs (done ++ slots)
        ≡ some (s', (done ++ vs) ++ rest, p + 2 * length vs))
      × Holds s' p vs
      × ((q : ℕ) → q < p → e.read s' q ≡ e.read s q)
      × (length vs + length rest ≡ length slots)

  store_values-cons :
      (s : e.Store) (p v x : ℕ) (vs done slots : List ℕ)
      → store_values e s p (length done) (v ∷ vs) (done ++ (x ∷ slots))
        ≡ store_values e
            (e.write (e.write s p (v % 256)) (p + 1) (v / 256))
            (p + 2)
            (length (done ++ (v ∷ [])))
            vs
            ((done ++ (v ∷ [])) ++ slots)
  unfolding store_values
  store_values-cons s p v x vs done slots =
      let inside : ltb (length done) (length (done ++ (x ∷ slots))) ≡ true =
        lt→ltb _ _ (omega (arith, length-append done (x ∷ slots))) in
      rw
        (
          inside,
          set-middle done slots x v,
          length-append done (v ∷ []),
          append_assoc done (v ∷ []) slots,
        )
        refl

  store_values_lem :
      (vs : List ℕ) (s : e.Store) (p : ℕ) (done slots : List ℕ)
      → All IsValue vs
      → length vs ≤ length slots
      → p + 2 * length vs ≤ memory_size
      → Stored s p done vs slots
  unfolding store_values
  store_values_lem [] s p done slots h k m = (
    s,
    slots,
    ap (λ xs. some (s, xs ++ slots, p)) (sym (append-nil done))
        ∙ ap (λ n. some (s, (done ++ []) ++ slots, n)) (omega arith),
    tt,
    λ q l. refl,
    omega arith,
  )
  store_values_lem (v ∷ vs) s p done [] h k m = absurd (omega arith)
  store_values_lem (v ∷ vs) s p done (x ∷ slots) h k m =
      let s1 = e.write s p (v % 256) in
      let s2 = e.write s1 (p + 1) (v / 256) in
      let (s', rest, eq, holds, below, size) =
        store_values_lem vs s2 (p + 2) (done ++ (v ∷ [])) slots h.1 (omega arith) (omega arith) in
      let low : e.read s' p ≡ v % 256 =
        below p (omega arith)
        ∙ read-write_ne e s1 (p + 1) (v / 256) p (omega arith) (omega arith)
        ∙ read-write_self e s p (v % 256) (omega arith) (omega arith) in
      let high : e.read s' (p + 1) ≡ v / 256 =
        below (p + 1) (omega arith)
        ∙ read-write_self e s1 (p + 1) (v / 256) (omega arith) (omega (arith, h.0.0)) in
      let next : p + 2 + 2 * length vs ≡ p + 2 * suc (length vs) = omega arith in
      (
        s',
        rest,
        store_values-cons s p v x vs done slots
            ∙ eq
            ∙ ap (λ xs. some (s', xs ++ rest, p + 2 + 2 * length vs))
                (append_assoc done (v ∷ []) vs)
            ∙ ap (λ n. some (s', (done ++ (v ∷ vs)) ++ rest, n)) next,
        (low, high, holds),
        λ q l.
            below q (omega (arith, l))
            ∙ read-write_ne e s1 (p + 1) (v / 256) q (omega arith) (omega (arith, l))
            ∙ read-write_ne e s p (v % 256) q (omega arith) (omega (arith, l)),
        omega (arith, size),
      )

  -- A code with its length, of which the values `done` are known.
  abbrev code : List ℕ → List ℕ → IrControl
  code done slots = record { code_length = length done; raw_code = done ++ slots }

  load_values-cons :
      (s : e.Store) (p k v x : ℕ) (done slots : List ℕ)
      → IsValue v
      → e.read s p ≡ v % 256
      → e.read s (p + 1) ≡ v / 256
      → load_values e (code done (x ∷ slots)) s p (length done) (suc k)
        ≡ load_values e (code (done ++ (v ∷ [])) slots) s (p + 2) (length (done ++ (v ∷ []))) k
  unfolding load_values
  load_values-cons s p k v x done slots h low high =
      let more : (v % 256 == 0) ≡ false = ground (arith, h.1) in
      let value : v % 256 + 256 * (v / 256) ≡ v = omega arith in
      rw
        (
          low,
          high,
          more,
          value,
          set-middle done slots x v,
          length-append done (v ∷ []),
          append_assoc done (v ∷ []) slots,
        )
        refl

  load_values_lem :
      (vs : List ℕ) (s : e.Store) (p k : ℕ) (done slots : List ℕ)
      → All IsValue vs
      → Holds s p vs
      → k ≡ length slots
      → length vs ≤ k
      → (length vs < k → e.read s (p + 2 * length vs) ≡ 0)
      → (rest : List ℕ) × (load_values e (code done slots) s p (length done) k
          ≡ code (done ++ vs) rest)
  unfolding load_values
  load_values_lem [] s p zero done slots h x size l end = (slots, rw (append-nil done) refl)
  load_values_lem [] s p (suc k) done slots h x size l end =
      let here : p + 2 * 0 ≡ p = omega arith in
      let stop : e.read s p ≡ 0 = ap (e.read s) (sym here) ∙ end (omega arith) in
      (slots, rw (stop, append-nil done) refl)
  load_values_lem (v ∷ vs) s p zero done slots h x size l end = absurd (omega arith)
  load_values_lem (v ∷ vs) s p (suc k) done [] h x size l end = absurd (omega arith)
  load_values_lem (v ∷ vs) s p (suc k) done (y ∷ slots) h (low, high, x) size l end =
      let next : p + 2 + 2 * length vs ≡ p + 2 * suc (length vs) = omega arith in
      let (rest, eq) =
        load_values_lem vs s (p + 2) k (done ++ (v ∷ [])) slots h.1 x (omega arith) (omega arith)
          (λ less. ap (e.read s) next ∙ end (omega (arith, less))) in
      (
        rest,
        load_values-cons s p k v y done slots h.0 low high
            ∙ eq
            ∙ ap (λ xs. code xs rest) (append_assoc done (v ∷ []) vs),
      )

  take-code : (vs rest : List ℕ) → take (length vs) (vs ++ rest) ≡ vs
  take-code [] rest = refl
  take-code (v ∷ vs) rest = ap (λ xs. v ∷ xs) (take-code vs rest)

  -- The end of `storeCode`.
  abbrev closed : e.Store → ℕ → e.Store
  closed s p = e.commit (if ltb p memory_size then e.write s p 0 else s)

  closed-Holds :
      (vs : List ℕ) (s : e.Store) (p : ℕ) → Holds s p vs → Holds (closed s (p + 2 * length vs)) p vs
  closed-Holds vs s p h = elim (Bool-cases (ltb (p + 2 * length vs) memory_size)) [
    | inl room ↦
        rw (closed, room)
          (Holds-commit vs _ p
            (Holds-write vs s p (p + 2 * length vs) 0 (omega arith) (ltb→lt _ _ room) h))
    | inr full ↦ rw (closed, full) (Holds-commit vs s p h)
  ]

  closed_end : (s : e.Store) (q : ℕ) → q < memory_size → e.read (closed s q) q ≡ 0
  closed_end s q h =
      rw (closed, lt→ltb q memory_size h, e.read-commit (e.write s q 0) q)
        (read-write_self e s q 0 h (omega arith))

  -- A code of at most 220 values of 16 bits, none of which has a low byte of zero: `storeCode`
  -- stays within the array and keeps the values there, and after a restart (with an array of any
  -- content) `begin` finds their number and the values.
  pub begin-store_code :
      (c c2 : IrControl) (s : e.Store) (vs : List ℕ)
      → length c.raw_code ≡ ir_code_length
      → length c2.raw_code ≡ ir_code_length
      → All IsValue vs
      → length vs ≤ ir_code_length
      → (c' : IrControl) × (s' : e.Store) × (store_code e c s vs ≡ some (c', s'))
        × (take (length vs) c'.raw_code ≡ vs)
        × ((begin e c2 s').code_length ≡ length vs)
        × (take (length vs) (begin e c2 s').raw_code ≡ vs)
  unfolding store_code begin
  begin-store_code c c2 s vs room room2 h few =
      let (s', rest, eq, holds, _, _) =
        store_values_lem vs s ir_code_dir [] c.raw_code h (omega (arith, room)) (omega arith) in
      let last = ir_code_dir + 2 * length vs in
      let (rest2, eq2) =
        load_values_lem vs (closed s' last) ir_code_dir ir_code_length [] c2.raw_code h
          (closed-Holds vs s' ir_code_dir holds) (sym room2) few
          (λ less. closed_end s' last (omega (arith, less))) in
      (
        record c { raw_code = vs ++ rest },
        closed s' last,
        ap (λ r. r >>= λ x. some (record c { raw_code = x.1 }, closed x.0 x.2)) eq,
        take-code vs rest,
        ap (λ d. d.code_length) eq2,
        ap (λ d. take (length vs) d.raw_code) eq2 ∙ take-code vs rest2,
      )
