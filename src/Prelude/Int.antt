-- ===== src/Prelude/Int.antt =====
-- Go's `int` where it can be negative (its range is not bounded here).
use Prim.Native.Nat.{ℕ, zero, suc, ◌+◌, ◌/◌}

-- `negsuc n` is -(n + 1).
pub data ℤ : Type 0 where
  pos : ℕ → ℤ
  negsuc : ℕ → ℤ

abbrev neg_of : ℕ → ℤ
neg_of zero = pos 0
neg_of (suc n) = negsuc n

-- Go's `/` by a positive number: it truncates towards zero.
unfoldable pub quot : ℤ → ℕ → ℤ
quot (pos n) k = pos (n / k)
quot (negsuc n) k = neg_of ((n + 1) / k)
