-- ===== src/Common/Int.antt =====
-- Go's `int` where a value may be negative: the library's ℤ over the native numbers.
use Prim.Native.Nat.{ℕ}

-- `negsuc n` is -(n + 1).
pub data ℤ : Type 0 where
  pos : ℕ → ℤ
  negsuc : ℕ → ℤ
