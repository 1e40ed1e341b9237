-- ===== src/Base/Int.antt =====
-- Signed integers over the native numbers: Rust's `i64` values as they stand in the program text.
use Prim.Native.Nat.{ℕ}

-- `negsuc n` is -(n + 1).
pub data ℤ : Type 0 where
  pos : ℕ → ℤ
  negsuc : ℕ → ℤ
