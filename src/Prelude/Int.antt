-- ===== src/Prelude/Int.antt =====
-- Signed values of C, `negsuc n` being -(n + 1).
use Prim.Native.Nat.{ℕ}

pub data ℤ : Type 0 where
  pos : ℕ → ℤ
  negsuc : ℕ → ℤ
