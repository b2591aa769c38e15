-- ===== src/Common/Int.antt =====
-- The `int` values of the source that may be negative, and the cast `(byte)`.
-- `int` is read as unbounded: the source's values are small, and its counters do not reach 2^31.
use Prim.Native.Nat.{ℕ, ◌-◌, ◌%◌, ◌<◌}
use mathlib.Core.Path.{◌≡◌}
use mathlib.Core.Logic.{◌↔◌}
use mathlib.Core.Bool.{Bool, true, false}
use native.Mathlib.Omega.{arith}
use spu_energy_efficient_sys.Common.Tests.{◌==◌}

-- `negsuc n` is -(n + 1).
pub data ℤ : Type 0 where
  pos : ℕ → ℤ
  negsuc : ℕ → ℤ

infix 50 ◌==ℤ◌
abbrev pub ◌==ℤ◌ : ℤ → ℤ → Bool
pos a ==ℤ pos b = a == b
pos a ==ℤ negsuc b = false
negsuc a ==ℤ pos b = false
negsuc a ==ℤ negsuc b = a == b

pub ==ℤ_iff : (a b : ℤ) → ((a ==ℤ b) ≡ true) ↔ (a ≡ b)
==ℤ_iff (pos a) (pos b) = ground arith
==ℤ_iff (pos a) (negsuc b) = ground arith
==ℤ_iff (negsuc a) (pos b) = ground arith
==ℤ_iff (negsuc a) (negsuc b) = ground arith

-- `(byte) x`: the low eight bits of the two's complement.
unfoldable pub to_byte : ℤ → ℕ
to_byte (pos n) = n % 256
to_byte (negsuc n) = 255 - n % 256

pub to_byte_lt : (x : ℤ) → to_byte x < 256
unfolding to_byte
to_byte_lt (pos n) = omega arith
to_byte_lt (negsuc n) = omega arith

-- The cast keeps the values of a byte.
pub to_byte-pos : (n : ℕ) → n < 256 → to_byte (pos n) ≡ n
unfolding to_byte
to_byte-pos n h = omega arith
