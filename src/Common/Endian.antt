-- ===== src/Common/Endian.antt =====
-- `binary.BigEndian` for 16 and 32 bits.
use Prim.Native.Nat.{ℕ, ◌+◌, ◌*◌, ◌/◌, ◌%◌, ◌<◌, ◌^◌}
use mathlib.Core.Path.{◌≡◌}
use mathlib.Core.List.{[], ◌∷◌, ◌++◌}
use native.Mathlib.Omega.{arith}
use elton.Common.Bytes.{Text}

unfoldable pub put_u16 : ℕ → Text
put_u16 n = n / 256 % 256 ∷ n % 256 ∷ []

unfoldable pub put_u32 : ℕ → Text
put_u32 n = n / 16777216 % 256 ∷ n / 65536 % 256 ∷ n / 256 % 256 ∷ n % 256 ∷ []

-- A slice that is too short panics in Go; the callers test the length before, so 0 is never read.
unfoldable pub get_u16 : Text → ℕ
get_u16 (a ∷ b ∷ _) = a * 256 + b
get_u16 _ = 0

unfoldable pub get_u32 : Text → ℕ
get_u32 (a ∷ b ∷ c ∷ d ∷ _) = a * 16777216 + b * 65536 + c * 256 + d
get_u32 _ = 0

pub get-put_u16 : (n : ℕ) (rest : Text) → n < 2 ^ 16 → get_u16 (put_u16 n ++ rest) ≡ n
unfolding get_u16 put_u16
get-put_u16 n rest h = omega arith

pub get-put_u32 : (n : ℕ) (rest : Text) → n < 2 ^ 32 → get_u32 (put_u32 n ++ rest) ≡ n
unfolding get_u32 put_u32
get-put_u32 n rest h = omega arith
