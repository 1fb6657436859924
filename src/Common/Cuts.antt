-- ===== src/Common/Cuts.antt =====
-- Parts by cutting at the first separator, again and again.
use Prim.Native.Nat.{ℕ, ◌<◌}
use mathlib.Core.Path.{◌≡◌, refl}
use mathlib.Core.Logic.{inl, inr}
use mathlib.Core.List.{[], ◌∷◌}
use mathlib.Core.Option.{none, some}
use native.Mathlib.Omega.{arith}
use elton.Common.Tests.{Option-cases}
use elton.Common.Lists.{length}
use elton.Common.Bytes.{Text, cut_byte}
use elton.Common.Parts.{split}

-- What a cut leaves is shorter, and the parts are the part before it and those behind it.
pub cut_byte-split :
    (b : ℕ) (s part rest : Text)
    → cut_byte b s ≡ some (part, rest)
    → (length rest < length s) × (split b s ≡ part ∷ split b rest)
unfolding cut_byte split
cut_byte-split b [] part rest e = cc
cut_byte-split b (c ∷ s) part rest e = elim (Option-cases (cut_byte b s)) [
  | inl whole ↦ ground arith
  | inr ((p, r), found) ↦ ground (arith, cut_byte-split b s p r found)
]

pub cut_byte-split-none : (b : ℕ) (s : Text) → cut_byte b s ≡ none → split b s ≡ s ∷ []
unfolding cut_byte split
cut_byte-split-none b [] e = refl
cut_byte-split-none b (c ∷ s) e = elim (Option-cases (cut_byte b s)) [
  | inl whole ↦ ground (arith, cut_byte-split-none b s whole)
  | inr ((p, r), found) ↦ ground arith
]
