-- ===== src/IrControl.antt =====
-- libraries/IRControl: the infrared code of the air conditioner, kept in the EEPROM as 16-bit values
-- with the low byte first. Sending and the pins are left to the libraries; `none` is an access out of
-- the bounds of an array.
pub mod Restoring
mod Tests
use spu_energy_efficient_sys.Common.{
  ℕ, zero, suc, ◌+◌, ◌*◌, ◌/◌, ◌%◌, Option, none, some, List, [], ◌∷◌, set, length, ltb, ◌==◌,
  ◌>>=◌, if◌then◌else◌,
}
use spu_energy_efficient_sys.Eeprom.{Eeprom}
use spu_energy_efficient_sys.Spu.{memory_size, ir_code_length, ir_code_dir}

pub record IrControl : Type 0 where
  pub code_length : ℕ
  pub raw_code : List ℕ

module _ (e : Eeprom) where
  open e use {Store, read, write, commit}

  -- The loop of `storeCode` from the index `i` and the address `p` on: the memory and the code, and
  -- the address behind them.
  unfoldable pub store_values : Store → ℕ → ℕ → List ℕ → List ℕ → Option (Store × List ℕ × ℕ)
  store_values s p i [] raw = some (s, raw, p)
  store_values s p i (v ∷ vs) raw =
      let rest =
        store_values (write (write s p (v % 256)) (p + 1) (v / 256)) (p + 2) (i + 1) vs
          (set raw i v) in
      if ltb i (length raw) then rest else none

  unfoldable pub store_code : IrControl → Store → List ℕ → Option (IrControl × Store)
  unfolding store_values
  store_code c s v = store_values s ir_code_dir 0 v c.raw_code >>= λ (s', raw, p).
      some (record c { raw_code = raw }, commit (if ltb p memory_size then write s' p 0 else s'))

  -- The loop of `begin` for `k` rounds from the index `i` and the address `p` on.
  unfoldable pub load_values : IrControl → Store → ℕ → ℕ → ℕ → IrControl
  load_values c s p i zero = c
  load_values c s p i (suc k) =
      let c' : IrControl = record c {
        raw_code = set c.raw_code i (read s p + 256 * read s (p + 1));
        code_length = c.code_length + 1;
      } in
      let rest = load_values c' s (p + 2) (i + 1) k in if read s p == 0 then c else rest

  unfoldable pub begin : IrControl → Store → IrControl
  unfolding load_values
  begin c s = load_values (record c { code_length = 0 }) s ir_code_dir 0 ir_code_length
