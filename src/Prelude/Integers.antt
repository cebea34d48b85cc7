-- ===== src/Prelude/Integers.antt =====
-- Integers over the native numbers: `negsuc n` is the number below 0 by `n + 1`.
use Prim.Native.Nat.{ℕ}

pub data ℤ : Type 0 where
  pos : ℕ → ℤ
  negsuc : ℕ → ℤ
