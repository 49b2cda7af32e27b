-- ===== src/Prelude/Integers.antt =====
-- Integers over the native numbers, and the 32-bit ints given by their bit patterns.
use Prim.Native.Nat.{ℕ, ◌+◌, ◌%◌, ◌^◌}
use mathlib.Core.Bool.{Bool}
use connio.Prelude.Tests.{ltb}

-- `negsuc n` is -n - 1.
pub data ℤ : Type 0 where
  pos : ℕ → ℤ
  negsuc : ℕ → ℤ

abbrev pub int_mod : ℕ
int_mod = 2 ^ 32

abbrev pub int_sign : ℕ
int_sign = 2 ^ 31

-- `a < b` of two 32-bit ints.
abbrev pub int_ltb : ℕ → ℕ → Bool
int_ltb a b = ltb ((a + int_sign) % int_mod) ((b + int_sign) % int_mod)
