-- ===== src/Common/Decimal.antt =====
-- `strconv.Itoa` of a number that is not negative, and `strconv.Atoi` of digits.
use Prim.Native.Nat.{ℕ, zero, suc, ◌+◌, ◌*◌, ◌-◌, ◌/◌, ◌%◌, ◌<◌}
use mathlib.Core.Path.{◌≡◌, refl, ◌∙◌}
use mathlib.Core.List.{[], ◌∷◌}
use mathlib.Core.Bool.{Bool, true, not, ◌&&◌}
use native.Mathlib.Omega.{arith}
use elton.Common.Tests.{ltb, leb, if◌then◌else◌}
use elton.Common.Bytes.{Text, codes, is_empty}

-- The digits of `n` in front of `out`; a number has fewer digits than its value plus one.
unfoldable pub digits : ℕ → ℕ → Text → Text
digits zero n out = out
digits (suc fuel) n out =
    let more = digits fuel (n / 10) ((b'0' + n % 10) ∷ out) in
    if ltb n 10 then (b'0' + n) ∷ out else more

unfoldable pub itoa : ℕ → Text
unfolding digits
itoa n = digits (suc n) n []

-- The value that digits spell behind `n`.
unfoldable pub value : ℕ → Text → ℕ
value n [] = n
value n (c ∷ s) = value (n * 10 + (c - b'0')) s

value-digits : (fuel n : ℕ) (out : Text) → n < fuel → value 0 (digits fuel n out) ≡ value n out
unfolding digits value
value-digits zero n out h = elim h [ ]
value-digits (suc fuel) n out h = ground (arith, value-digits fuel (n / 10) ((b'0' + n % 10) ∷ out))

-- The decimal print of a number spells it.
pub value-itoa : (n : ℕ) → value 0 (itoa n) ≡ n
unfolding itoa
value-itoa n = value-digits (suc n) n [] (omega arith) ∙ (unfold value in refl)

abbrev pub is_digit : ℕ → Bool
is_digit c = leb b'0' c && leb c b'9'

abbrev pub no_other : Text → Bool
no_other [] = true
no_other (c ∷ s) = is_digit c && no_other s

abbrev pub all_digits : Text → Bool
all_digits s = not (is_empty s) && no_other s

itoa_tests : (itoa 0 ≡ codes "0") × (itoa 1024 ≡ codes "1024")
unfolding itoa
itoa_tests = (refl, refl)
