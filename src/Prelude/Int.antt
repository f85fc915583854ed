-- ===== src/Prelude/Int.antt =====
-- Signed numbers, for a `timedelta` that a caller may give with either sign.
use Prim.Native.Nat.{ℕ}

-- `negsuc n` is -(n + 1).
pub data ℤ : Type 0 where
  pos : ℕ → ℤ
  negsuc : ℕ → ℤ
