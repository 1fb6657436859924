-- ===== src/Common/Bytes.antt =====
-- Go strings and byte slices as lists of bytes, and the functions of the packages `strings` and
-- `bytes` that the framework calls.
use Prim.Native.Char.{code}
use Prim.Native.String.{String}
use Prim.Native.Nat.{ℕ, ◌+◌, ◌-◌}
use mathlib.Core.Path.{◌≡◌, refl}
use mathlib.Core.Logic.{◌≢◌, ◌↔◌}
use mathlib.Core.Bool.{Bool, true, false, ◌&&◌, ◌||◌}
use mathlib.Core.List.{List, [], ◌∷◌, ◌++◌, map, reverse}
use mathlib.Core.Option.{Option, none, some}
use native.Mathlib.Omega.{arith}
use elton.Common.Tests.{leb, ◌==◌, if◌then◌else◌}
use elton.Common.Lists.{All}

abbrev pub Text : Type 0
Text = List ℕ

-- The bytes of an ASCII literal.
abbrev pub codes : String → Text
codes String.[] = []
codes (String.◌∷◌ c s) = code c ∷ codes s

-- `a == b` on strings.
unfoldable pub text_eq : Text → Text → Bool
text_eq [] [] = true
text_eq (a ∷ s) (b ∷ t) = a == b && text_eq s t
text_eq _ _ = false

pub text_eq_iff : (s t : Text) → (text_eq s t ≡ true) ↔ (s ≡ t)
unfolding text_eq
text_eq_iff [] [] = ground arith
text_eq_iff (a ∷ s) (b ∷ t) = ground (arith, text_eq_iff s t)
text_eq_iff [] (b ∷ t) = ground arith
text_eq_iff (a ∷ s) [] = ground arith

pub text_eq_refl : (s : Text) → text_eq s s ≡ true
text_eq_refl s = (text_eq_iff s s).1 refl

abbrev pub is_empty : Text → Bool
is_empty [] = true
is_empty (_ ∷ _) = false

-- No byte of the text is `b`.
abbrev pub Lacks : ℕ → Text → Type 0
Lacks b = All (λ c. c ≢ b)

-- `strings.Contains(s, string(b))`.
abbrev pub has_byte : ℕ → Text → Bool
has_byte b [] = false
has_byte b (c ∷ s) = c == b || has_byte b s

-- `strings.CutPrefix`: what follows the prefix.
unfoldable pub cut_prefix : Text → Text → Option Text
cut_prefix s [] = some s
cut_prefix [] (p ∷ ps) = none
cut_prefix (c ∷ s) (p ∷ ps) = if c == p then cut_prefix s ps else none

-- `strings.Contains`.
unfoldable pub contains : Text → Text → Bool
unfolding cut_prefix
contains [] p = elim (cut_prefix [] p) [ none ↦ false | some _ ↦ true ]
contains (c ∷ s) p = elim (cut_prefix (c ∷ s) p) [ none ↦ contains s p | some _ ↦ true ]

-- `strings.CutSuffix`: what stands before the suffix.
unfoldable pub cut_suffix : Text → Text → Option Text
unfolding text_eq
cut_suffix [] p = if text_eq [] p then some [] else none
cut_suffix (c ∷ s) p =
    if text_eq (c ∷ s) p
    then some []
    else elim (cut_suffix s p) [ none ↦ none | some base ↦ some (c ∷ base) ]

-- `strings.IndexByte`, with the two slices that its callers take.
unfoldable pub cut_byte : ℕ → Text → Option (Text × Text)
cut_byte b [] = none
cut_byte b (c ∷ s) =
    if c == b
    then some ([], s)
    else elim (cut_byte b s) [ none ↦ none | some (before, after) ↦ some (c ∷ before, after) ]

pub cut_byte-append :
    (b : ℕ) (s rest : Text) → Lacks b s → cut_byte b (s ++ b ∷ rest) ≡ some (s, rest)
unfolding cut_byte
cut_byte-append b [] rest h = ground arith
cut_byte-append b (c ∷ s) rest (ne, h) = ground (arith, cut_byte-append b s rest h)

-- `strings.ToLower` on ASCII.
abbrev pub lower_byte : ℕ → ℕ
lower_byte c = if leb b'A' c && leb c b'Z' then c + 32 else c

abbrev pub upper_byte : ℕ → ℕ
upper_byte c = if leb b'a' c && leb c b'z' then c - 32 else c

unfoldable pub to_lower : Text → Text
to_lower = map lower_byte

-- `strings.TrimSpace` on ASCII.
abbrev pub is_space : ℕ → Bool
is_space c = (leb 9 c && leb c 13) || c == 32

unfoldable pub trim_left : Text → Text
trim_left [] = []
trim_left (c ∷ s) = if is_space c then trim_left s else c ∷ s

unfoldable pub trim_space : Text → Text
unfolding trim_left
trim_space s = reverse (trim_left (reverse (trim_left s)))
