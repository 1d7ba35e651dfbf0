-- ===== src/Common/Signed.antt =====
-- Signed integers over the native numbers: the C `long` and `long long` values of the module.
use Prim.Native.Nat.{ℕ}
use mathlib.Core.Bool.{Bool, true, false}
use linux_fibers.Common.Tests.{ltb}

-- `negsuc n` is -(n + 1).
pub data ℤ : Type 0 where
  pos : ℕ → ℤ
  negsuc : ℕ → ℤ

abbrev pub minus_one : ℤ
minus_one = negsuc 0

-- `i < n` and `0 <= i` for a signed `i`.
abbrev pub lt_bound : ℤ → ℕ → Bool
lt_bound (pos i) n = ltb i n
lt_bound (negsuc _) n = true

abbrev pub is_nonneg : ℤ → Bool
is_nonneg (pos _) = true
is_nonneg (negsuc _) = false
