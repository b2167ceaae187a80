-- ===== src/Prelude/Ints.antt =====
-- Signed integers over the native numbers, under the library's names: tests of order and equality,
-- and the truncated quotient's parts that the number formats need.
use Prim.Native.Nat.{ℕ, zero, suc, ◌+◌}
use mathlib.Core.Bool.{Bool, true, false}
use stenograma.Prelude.Tests.{ltb, ◌==◌}

-- `negsuc n` is -(n + 1).
pub data ℤ : Type 0 where
  pos : ℕ → ℤ
  negsuc : ℕ → ℤ

abbrev pub ltb_ℤ : ℤ → ℤ → Bool
ltb_ℤ (pos a) (pos b) = ltb a b
ltb_ℤ (pos a) (negsuc b) = false
ltb_ℤ (negsuc a) (pos b) = true
ltb_ℤ (negsuc a) (negsuc b) = ltb b a

abbrev pub eqb_ℤ : ℤ → ℤ → Bool
eqb_ℤ (pos a) (pos b) = a == b
eqb_ℤ (pos a) (negsuc b) = false
eqb_ℤ (negsuc a) (pos b) = false
eqb_ℤ (negsuc a) (negsuc b) = a == b

-- a + 1.
abbrev pub suc_ℤ : ℤ → ℤ
suc_ℤ (pos a) = pos (a + 1)
suc_ℤ (negsuc zero) = pos 0
suc_ℤ (negsuc (suc a)) = negsuc a

-- The integer `-a` of a magnitude.
abbrev pub neg : ℕ → ℤ
neg zero = pos 0
neg (suc a) = negsuc a
