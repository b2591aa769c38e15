-- ===== src/Eeprom.antt =====
-- What the program relies on of the EEPROM library of the board, whose code is not in the
-- repository: a memory of `MEMORY_SIZE` bytes, written in RAM and made durable by `commit`.
use spu_energy_efficient_sys.Common.{
  ℕ, ◌%◌, ◌<◌, ◌≡◌, ◌≢◌, refl, true, false, arith, ◌==◌, if◌then◌else◌,
}
use spu_energy_efficient_sys.Spu.{memory_size}

pub record Eeprom : Type 1 where
  pub Store : Type 0
  pub read : Store → ℕ → ℕ
  pub write : Store → ℕ → ℕ → Store
  pub commit : Store → Store
  pub read_lt : (s : Store) (p : ℕ) → read s p < 256
  pub read-write :
      (s : Store) (p v q : ℕ)
      → p < memory_size
      → read (write s p v) q ≡ (if p == q then v % 256 else read s q)
  pub read-commit : (s : Store) (p : ℕ) → read (commit s) p ≡ read s p

-- A function from addresses to numbers, of which a read takes the low byte, meets this.
pub map_read_lt : (s : ℕ → ℕ) (p : ℕ) → s p % 256 < 256
map_read_lt s p = omega arith

pub map_read-write :
    (s : ℕ → ℕ) (p v q : ℕ)
    → p < memory_size
    → (if p == q then v else s q) % 256 ≡ (if p == q then v % 256 else s q % 256)
map_read-write s p v q h = ground arith

abbrev pub map_eeprom : Eeprom
map_eeprom = record {
  Store = ℕ → ℕ;
  read = λ s p. s p % 256;
  write = λ s p v q. if p == q then v else s q;
  commit = λ s. s;
  read_lt = map_read_lt;
  read-write = map_read-write;
  read-commit = λ s p. refl;
}

-- A byte that is written is read there, and nothing else changes.
module _ (e : Eeprom) where
  pub read-write_self :
      (m : e.Store) (p v : ℕ) → p < memory_size → v < 256 → e.read (e.write m p v) p ≡ v
  read-write_self m p v h k =
      let yes_test : (p == p) ≡ true = ground arith in
      rw (e.read-write m p v p h, yes_test) (omega (arith, k))

  pub read-write_ne :
      (m : e.Store) (p v q : ℕ) → p < memory_size → p ≢ q → e.read (e.write m p v) q ≡ e.read m q
  read-write_ne m p v q h k =
      let no_test : (p == q) ≡ false = ground (arith, k) in
      rw (e.read-write m p v q h, no_test) refl
