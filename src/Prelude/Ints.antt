-- ===== src/Prelude/Ints.antt =====
-- Go's signed integers.
use Prim.Native.Nat.{ℕ}
use mathlib.Core.Bool.{Bool, true, false}
use mow.Prelude.Tests.{ltb, ◌==◌}

pub data ℤ : Type 0 where
  pos : ℕ → ℤ
  negsuc : ℕ → ℤ

abbrev pub same_int : ℤ → ℤ → Bool
same_int (pos m) (pos n) = m == n
same_int (negsuc m) (negsuc n) = m == n
same_int _ _ = false

abbrev pub is_positive : ℤ → Bool
is_positive (pos n) = ltb 0 n
is_positive (negsuc n) = false

abbrev pub is_negative : ℤ → Bool
is_negative (pos n) = false
is_negative (negsuc n) = true

abbrev pub less_than : ℤ → ℤ → Bool
less_than (pos m) (pos n) = ltb m n
less_than (pos m) (negsuc n) = false
less_than (negsuc m) (pos n) = true
less_than (negsuc m) (negsuc n) = ltb n m
