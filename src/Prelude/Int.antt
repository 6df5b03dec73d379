-- ===== src/Prelude/Int.antt =====
-- Signed numbers.
use Prim.Native.Nat.{ℕ}

-- A Go int; `negsuc n` is -(n + 1).
pub data ℤ : Type 0 where
  pos : ℕ → ℤ
  negsuc : ℕ → ℤ
