-- ===== src/Common/Parts.antt =====
-- `bytes.Split` and `strings.Join` at a separator of one byte.
use Prim.Native.Nat.{ℕ}
use mathlib.Core.Path.{◌≡◌, refl, ap}
use mathlib.Core.Logic.{◌≢◌, inl, inr}
use mathlib.Core.List.{List, [], ◌∷◌, ◌++◌}
use native.Mathlib.Omega.{arith}
use elton.Common.Tests.{◌==◌, Bool-cases, if◌then◌else◌}
use elton.Common.Lists.{All, All-append}
use elton.Common.Bytes.{Text, Lacks}

abbrev push_head : ℕ → List Text → List Text
push_head c [] = (c ∷ []) ∷ []
push_head c (p ∷ ps) = (c ∷ p) ∷ ps

-- There is always at least one part.
unfoldable pub split : ℕ → Text → List Text
split b [] = [] ∷ []
split b (c ∷ s) = let rest = split b s in if c == b then [] ∷ rest else push_head c rest

unfoldable pub join : ℕ → List Text → Text
join b [] = []
join b (p ∷ []) = p
join b (p ∷ q ∷ ps) = p ++ (b ∷ join b (q ∷ ps))

pub split_only : (b : ℕ) (p : Text) → Lacks b p → split b p ≡ p ∷ []
unfolding split
split_only b [] h = refl
split_only b (c ∷ p) (ne, h) = ground (arith, split_only b p h)

split-append : (b : ℕ) (p rest : Text) → Lacks b p → split b (p ++ (b ∷ rest)) ≡ p ∷ split b rest
unfolding split
split-append b [] rest h = ground arith
split-append b (c ∷ p) rest (ne, h) = ground (arith, split-append b p rest h)

-- The parts have no separator, and those of a text around a separator are the parts of both sides.
push_head-Lacks :
    (b c : ℕ) (ps : List Text) → c ≢ b → All (Lacks b) ps → All (Lacks b) (push_head c ps)
push_head-Lacks b c [] ne h = ((ne, tt), tt)
push_head-Lacks b c (p ∷ ps) ne (h, hs) = ((ne, h), hs)

pub split-Lacks : (b : ℕ) (s : Text) → All (Lacks b) (split b s)
unfolding split
split-Lacks b [] = (tt, tt)
split-Lacks b (c ∷ s) = elim (Bool-cases (c == b)) [
  | inl e ↦ rw e (tt, split-Lacks b s)
  | inr e ↦ rw e (push_head-Lacks b c (split b s) (ground arith) (split-Lacks b s))
]

push_head-append :
    (c : ℕ) (ps qs : List Text) → ps ≢ [] → push_head c (ps ++ qs) ≡ push_head c ps ++ qs
push_head-append c [] qs ne = absurd (ne refl)
push_head-append c (p ∷ ps) qs ne = refl

split-ne : (b : ℕ) (s : Text) → split b s ≢ []
unfolding split
split-ne b [] = λ e. cc
split-ne b (c ∷ s) = elim (Bool-cases (c == b)) [
  | inl e ↦ rw e (λ x. cc)
  | inr e ↦ rw e (push_head-ne c (split b s))
]
  where
    push_head-ne : (d : ℕ) (ps : List Text) → push_head d ps ≢ []
    push_head-ne d [] = λ e. cc
    push_head-ne d (p ∷ ps) = λ e. cc

pub split-around : (b : ℕ) (p rest : Text) → split b (p ++ (b ∷ rest)) ≡ split b p ++ split b rest
unfolding split
split-around b [] rest = ground arith
split-around b (c ∷ p) rest = elim (Bool-cases (c == b)) [
  | inl e ↦ rw (e, split-around b p rest) refl
  | inr e ↦
      rw (e, split-around b p rest) (push_head-append c (split b p) (split b rest) (split-ne b p))
]

pub split-join : (b : ℕ) (ps : List Text) → ps ≢ [] → All (Lacks b) ps → split b (join b ps) ≡ ps
unfolding join
split-join b [] ne h = absurd (ne refl)
split-join b (p ∷ []) ne (h, _) = split_only b p h
split-join b (p ∷ q ∷ ps) ne (h, hs) =
    ground (arith, split-append b p (join b (q ∷ ps)) h, split-join b (q ∷ ps) (cc) hs)

-- A joined text has no byte that neither the separator nor the parts have.
pub join-Lacks : (b c : ℕ) (ps : List Text) → b ≢ c → All (Lacks c) ps → Lacks c (join b ps)
unfolding join
join-Lacks b c [] ne h = tt
join-Lacks b c (p ∷ []) ne (h, _) = h
join-Lacks b c (p ∷ q ∷ ps) ne (h, hs) = All-append _ p _ h (ne, join-Lacks b c (q ∷ ps) ne hs)

pub join-eq-nil : (b : ℕ) (ps : List Text) → join b ps ≡ [] → ps ≢ [] → ps ≡ [] ∷ []
unfolding join
join-eq-nil b [] e ne = absurd (ne refl)
join-eq-nil b (p ∷ []) e ne = ap (λ t. t ∷ []) e
join-eq-nil b ([] ∷ q ∷ ps) e ne = cc
join-eq-nil b ((c ∷ p) ∷ q ∷ ps) e ne = cc

parts_tests :
    (split b',' (b'a' ∷ b',' ∷ b',' ∷ b'b' ∷ []) ≡ (b'a' ∷ []) ∷ [] ∷ (b'b' ∷ []) ∷ [])
    × (join b',' ((b'a' ∷ []) ∷ [] ∷ []) ≡ b'a' ∷ b',' ∷ [])
unfolding split join
parts_tests = (refl, refl)
