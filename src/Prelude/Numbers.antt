-- ===== src/Prelude/Numbers.antt =====
-- Signed integers, as Go's `int`, and the tests that the program makes on them.
use Prim.Native.Nat.{ℕ, ◌<◌}
use mathlib.Core.Bool.{Bool, true, false}
use webtransport_h2_go.Prelude.Tests.{ltb}

-- `negsuc n` is -(n + 1).
pub data ℤ : Type 0 where
  pos : ℕ → ℤ
  negsuc : ℕ → ℤ

-- The number itself where it is positive, and 0 otherwise.
abbrev pub pos_part : ℤ → ℕ
pos_part (pos n) = n
pos_part (negsuc n) = 0

-- `n > 0`
abbrev pub is_positive : ℤ → Bool
is_positive n = ltb 0 (pos_part n)

-- `n < 0`
abbrev pub is_negative : ℤ → Bool
is_negative (pos n) = false
is_negative (negsuc n) = true

abbrev pub u64 : ℕ
u64 = 18446744073709551616

abbrev pub IsU64 : ℕ → Type 0
IsU64 n = n < u64
