-- ===== src/Prelude/Int.antt =====
-- The values of a C `int` that the code returns or compares with 0.
use Prim.Native.Nat.{ℕ, zero}
use mathlib.Core.Bool.{Bool, true, false}

-- `negsuc n` is -(n + 1).
pub data ℤ : Type 0 where
  pos : ℕ → ℤ
  negsuc : ℕ → ℤ

abbrev pub is_zero : ℤ → Bool
is_zero (pos zero) = true
is_zero _ = false
