-- ===== src/Common/Integers.antt =====
-- Signed integers of 64 bits, over the native numbers.
use Prim.Native.Nat.{ℕ, ◌+◌, ◌-◌, ◌%◌}
use mathlib.Core.Bool.{Bool, false}
use elton.Common.Tests.{ltb, leb, if◌then◌else◌}

-- n, or -(n+1).
pub data ℤ : Type 0 where
  pos negsuc : ℕ → ℤ

abbrev pub is_positive : ℤ → Bool
is_positive (pos n) = ltb 0 n
is_positive (negsuc n) = false

-- A sum or product that is too large wraps.
unfoldable pub wrap64 : ℕ → ℤ
wrap64 n =
    let m = n % 18446744073709551616 in
    if ltb m 9223372036854775808 then pos m else negsuc (18446744073709551615 - m)

-- `n - v`.
unfoldable pub minus64 : ℕ → ℤ → ℤ
unfolding wrap64
minus64 n (pos m) = if leb m n then pos (n - m) else negsuc (m - n - 1)
minus64 n (negsuc m) = wrap64 (n + m + 1)
