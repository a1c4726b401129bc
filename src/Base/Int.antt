-- ===== src/Base/Int.antt =====
-- Python's integers, as far as the services take them: they are compared with bounds.
use Prim.Native.Nat.{ℕ}

-- `negsuc n` is -(n + 1).
pub data ℤ : Type 0 where
  pos : ℕ → ℤ
  negsuc : ℕ → ℤ
