-- ===== src/Common/Int.antt =====
-- Signed 32-bit levels as integers over the native numbers; `negsuc n` is -(n + 1).
use Prim.Native.Nat.{ℕ, min}

pub data ℤ : Type 0 where
  pos : ℕ → ℤ
  negsuc : ℕ → ℤ

-- `z.clamp(0, hi) as u32`, for a bound `hi` that is not negative.
abbrev pub clamp_to : ℤ → ℕ → ℕ
clamp_to (pos n) hi = min n hi
clamp_to (negsuc n) hi = 0
