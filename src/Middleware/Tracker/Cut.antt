-- ===== src/Middleware/Tracker/Cut.antt =====
-- How the tracker cuts a text that is made of runes.
use elton.Common.{
  ℕ, zero, suc, ◌+◌, ◌-◌, ◌≤◌, ◌<◌, ◌≡◌, refl, ap, ◌∙◌, true, false, inl, inr, List, [], ◌∷◌, ◌++◌,
  Text, take, drop, take_all, take_beyond, All, length, length-append, leb, if◌then◌else◌,
  Bool-cases, arith,
}
use elton.Middleware.Tracker.{rune_start, starts, rune_boundary, truncate_string}

-- A rune is the byte that begins it and those that continue it.
abbrev pub Rune : Type 0
Rune = ℕ × Text

abbrev pub Continues : ℕ → Type 0
Continues b = rune_start b ≡ false

abbrev pub IsRune : Rune → Type 0
IsRune (b, t) = (rune_start b ≡ true) × All Continues t

unfoldable pub encoded : List Rune → Text
encoded [] = []
encoded ((b, t) ∷ rs) = b ∷ t ++ encoded rs

starts-encoded : (rs : List Rune) → All IsRune rs → starts (encoded rs) ≡ true
unfolding encoded
starts-encoded [] h = refl
starts-encoded ((b, t) ∷ rs) ((begins, _), _) = begins

starts-within :
    (t s : Text) (m : ℕ) → All Continues t → m < length t → starts (drop m (t ++ s)) ≡ false
starts-within [] s m h lt = absurd (omega arith)
starts-within (b ∷ t) s zero (c, h) lt = c
starts-within (b ∷ t) s (suc m) (c, h) lt = starts-within t s m h (omega arith)

-- There is no boundary within a rune but its beginning.
rune_boundary-within :
    (b : ℕ) (t s : Text) (m : ℕ) → All Continues t → m ≤ length t → rune_boundary (b ∷ t ++ s) m ≡ 0
unfolding rune_boundary
rune_boundary-within b t s zero h le = refl
rune_boundary-within b t s (suc m) h le =
    rw (starts-within t s m h (omega arith)) (rune_boundary-within b t s m h (omega arith))

drop-beyond : (r s : Text) (n j : ℕ) → n ≡ length r + j → drop n (r ++ s) ≡ drop j s
drop-beyond [] s n j e = let same : n ≡ j = omega arith in rw same refl
drop-beyond (b ∷ r) s zero j e = absurd (omega arith)
drop-beyond (b ∷ r) s (suc n) j e = drop-beyond r s n j (omega arith)

-- Behind a rune the boundaries are those of the rest.
rune_boundary-beyond :
    (b : ℕ) (t s : Text) (n j : ℕ)
    → starts s ≡ true
    → n ≡ suc (length t) + j
    → rune_boundary (b ∷ t ++ s) n ≡ suc (length t) + rune_boundary s j
unfolding rune_boundary
rune_boundary-beyond b t s zero j h e = absurd (omega arith)
rune_boundary-beyond b t s (suc n) zero h e =
    let at_end = drop-beyond t s n zero (omega arith) in rw (at_end, h) (omega arith)
rune_boundary-beyond b t s (suc n) (suc j) h e =
    let later = drop-beyond t s n (suc j) (omega arith) in
    let below = rune_boundary-beyond b t s n j h (omega arith) in rw (later, below) (ground arith)

rune_boundary-le : (s : Text) (n : ℕ) → rune_boundary s n ≤ n
unfolding rune_boundary
rune_boundary-le s zero = omega arith
rune_boundary-le s (suc n) = ground (arith, rune_boundary-le s n)

length-encoded :
    (b : ℕ) (t : Text) (rs : List Rune)
    → length (encoded ((b, t) ∷ rs)) ≡ suc (length t) + length (encoded rs)
unfolding encoded
length-encoded b t rs = ap suc (length-append t (encoded rs)) ∙ omega arith

-- The runes that fit into so many bytes.
unfoldable pub fitting : ℕ → List Rune → List Rune
fitting n [] = []
fitting n ((b, t) ∷ rs) =
    let rest = fitting (n - suc (length t)) rs in
    if leb (suc (length t)) n then (b, t) ∷ rest else []

fitting_all : (rs : List Rune) (n : ℕ) → length (encoded rs) ≤ n → fitting n rs ≡ rs
unfolding fitting
fitting_all [] n h = refl
fitting_all ((b, t) ∷ rs) n h =
    let l = length-encoded b t rs in
    let rest = fitting_all rs (n - suc (length t)) (omega arith) in
    let fits : leb (suc (length t)) n ≡ true = ground arith in rw (fits, rest) refl

take_sum : (r s : Text) (n m : ℕ) → n ≡ length r + m → take n (r ++ s) ≡ r ++ take m s
take_sum r s n m e =
    let same : n - length r ≡ m = omega arith in
    take_beyond r s n (omega arith) ∙ ap (λ k. r ++ take k s) same

take-boundary :
    (rs : List Rune) (n : ℕ)
    → All IsRune rs
    → take (rune_boundary (encoded rs) n) (encoded rs) ≡ encoded (fitting n rs)
unfolding encoded fitting
take-boundary [] n h = take_all (rune_boundary [] n) [] (omega arith)
take-boundary ((b, t) ∷ rs) n ((begins, cs), h) = elim (Bool-cases (leb (suc (length t)) n)) [
  | inl fits ↦
      let j = n - suc (length t) in
      let at = rune_boundary-beyond b t (encoded rs) n j (starts-encoded rs h) (ground arith) in
      rw fits (
        take_sum (b ∷ t) (encoded rs) (rune_boundary (b ∷ t ++ encoded rs) n)
          (rune_boundary (encoded rs) j) at
        ∙ ap (λ s. b ∷ t ++ s) (take-boundary rs j h))
  | inr long ↦
      let at = rune_boundary-within b t (encoded rs) n cs (ground arith) in rw (long, at) refl
]

-- A text of runes is cut between two of them: what is left of it are the runes that fit into the
-- length, up to the first that does not.
pub truncate_string-fitting :
    (rs : List Rune) (n : ℕ)
    → All IsRune rs
    → truncate_string (encoded rs) n ≡ encoded (fitting n rs)
unfolding truncate_string
truncate_string-fitting rs n h = elim (Bool-cases (leb (length (encoded rs)) n)) [
  | inl short ↦ rw (short, fitting_all rs n (ground arith)) refl
  | inr long ↦ rw long (take-boundary rs n h)
]
