-- ===== src/Base/Int.antt =====
-- Signed integers: `negsuc n` is -(n + 1). The code compares them and returns them.
use Prim.Native.Nat.{ℕ}

pub data ℤ : Type 0 where
  pos : ℕ → ℤ
  negsuc : ℕ → ℤ
