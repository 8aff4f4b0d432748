-- ===== src/Prelude/Int.antt =====
-- Signed integers over the native numbers, as far as the library needs them.
use Prim.Native.Nat.{ℕ, zero, suc}
use mathlib.Core.Bool.{Bool, true, false}

-- `negsuc n` is -(n + 1).
pub data ℤ : Type 0 where
  pos negsuc : ℕ → ℤ

-- `n > 0`.
abbrev pub positive : ℤ → Bool
positive (pos zero) = false
positive (pos (suc n)) = true
positive (negsuc n) = false
