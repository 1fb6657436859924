-- ===== src/Route/Names.antt =====
-- The wildcard names of a pattern.
use elton.Common.{
  ℕ, zero, suc, ◌≤◌, ◌<◌, ◌≡◌, ◌≢◌, refl, ap, ◌∙◌, inl, inr, true, none, some, List, [], ◌∷◌, ◌++◌,
  Text, codes, Lacks, All, All-append, text_eq, text_eq_iff, length, length-append, cut_suffix,
  cut_byte, cut_byte-append, append_assoc, Option-cases, arith,
}
use elton.Route.{add_name, extract, extract_param_names}

-- A pattern as a sequence of pieces: plain text, a wildcard for one segment, one for the rest of
-- the path, and the mark of the end.
pub data Piece : Type 0 where
  plain one remainder : Text → Piece
  end : Piece

abbrev dots : Text
dots = codes "..."

abbrev pub show : Piece → Text
show (plain t) = t
show (one n) = b'{' ∷ (n ++ b'}' ∷ [])
show (remainder n) = b'{' ∷ ((n ++ dots) ++ b'}' ∷ [])
show end = codes "{$}"

abbrev pub show_all : List Piece → Text
show_all [] = []
show_all (p ∷ ps) = show p ++ show_all ps

abbrev pub names : List Piece → List Text
names [] = []
names (plain _ ∷ ps) = names ps
names (one n ∷ ps) = n ∷ names ps
names (remainder n ∷ ps) = n ∷ names ps
names (end ∷ ps) = names ps

-- What the syntax of patterns asks of a piece: no brace in plain text, and names that are neither
-- empty nor hold a closing brace; a name for one segment is not "$" and does not end in dots.
abbrev pub IsPiece : Piece → Type 0
IsPiece (plain t) = Lacks b'{' t
IsPiece (one n) = (n ≢ []) × (n ≢ codes "$") × (cut_suffix n (codes "...") ≡ none) × Lacks b'}' n
IsPiece (remainder n) = (n ≢ []) × Lacks b'}' n
IsPiece end = Unit

text_eq-length : (s t : Text) → text_eq s t ≡ true → length s ≡ length t
text_eq-length s t h = ap length ((text_eq_iff s t).0 h)

cut_suffix-append : (s p : Text) → cut_suffix (s ++ p) p ≡ some s
unfolding cut_suffix
cut_suffix-append [] [] = ground (arith, text_eq_iff [] [])
cut_suffix-append [] (c ∷ p) = ground (arith, text_eq_iff (c ∷ p) (c ∷ p))
cut_suffix-append (c ∷ s) p =
    ground (arith, cut_suffix-append s p, text_eq-length (c ∷ (s ++ p)) p, length-append s p)

cut_byte-length :
    (b : ℕ) (s part rest : Text) → cut_byte b s ≡ some (part, rest) → length rest < length s
unfolding cut_byte
cut_byte-length b [] part rest e = cc
cut_byte-length b (c ∷ s) part rest e = elim (Option-cases (cut_byte b s)) [
  | inl whole ↦ ground arith
  | inr ((p, r), found) ↦ ground (arith, cut_byte-length b s p r found)
]

-- More fuel than the length changes nothing.
extract_fuel : (f g : ℕ) (s : Text) → length s ≤ f → length s ≤ g → extract f s ≡ extract g s
unfolding extract
extract_fuel zero zero s lf lg = refl
extract_fuel zero (suc g) [] lf lg = refl
extract_fuel (suc f) zero [] lf lg = refl
extract_fuel zero (suc g) (c ∷ s) lf lg = absurd (omega arith)
extract_fuel (suc f) zero (c ∷ s) lf lg = absurd (omega arith)
extract_fuel (suc f) (suc g) [] lf lg = refl
extract_fuel (suc f) (suc g) (c ∷ s) lf lg = elim (Option-cases (cut_byte b'}' s)) [
  | inl open_ended ↦ ground (arith, extract_fuel f g s)
  | inr ((name, rest), found) ↦
      ground
        (arith, extract_fuel f g s, extract_fuel f g rest, cut_byte-length b'}' s name rest found)
]

extract-plain : (t s : Text) → Lacks b'{' t → extract_param_names (t ++ s) ≡ extract_param_names s
unfolding extract_param_names extract
extract-plain [] s h = refl
extract-plain (c ∷ t) s (ne, h) = ground (arith, extract-plain t s h)

extract-wildcard :
    (n s : Text)
    → Lacks b'}' n
    → extract_param_names (b'{' ∷ (n ++ (b'}' ∷ s))) ≡ add_name n (extract_param_names s)
unfolding extract_param_names
extract-wildcard n s h =
    let shorter = length-append n (b'}' ∷ s) in
    unfold extract in
    rw (cut_byte-append b'}' n s h) (
      ap (add_name n)
        (extract_fuel (length (n ++ (b'}' ∷ s))) (length s) s (omega arith) (omega arith)))

add_name-one :
    (n : Text) (ns : List Text)
    → n ≢ []
    → n ≢ codes "$"
    → cut_suffix n (codes "...") ≡ none
    → add_name n ns ≡ n ∷ ns
unfolding add_name
add_name-one [] ns ne nd nt = absurd (ne refl)
add_name-one (c ∷ n) ns ne nd nt = ground (arith, text_eq_iff (c ∷ n) (codes "$"))

add_name-remainder : (n : Text) (ns : List Text) → n ≢ [] → add_name (n ++ codes "...") ns ≡ n ∷ ns
unfolding add_name
add_name-remainder [] ns ne = absurd (ne refl)
add_name-remainder (c ∷ n) ns ne = ground (
  arith,
  cut_suffix-append (c ∷ n) (codes "..."),
  text_eq-length (c ∷ (n ++ codes "...")) (codes "$"),
  length-append n (codes "..."),
)

add_name-end : (ns : List Text) → add_name (codes "$") ns ≡ ns
unfolding add_name text_eq
add_name-end ns = refl

-- The names of a pattern are those of its wildcards, in order and as often as they stand there;
-- the mark of the end and the dots of a rest wildcard are left out.
pub extract_param_names-show_all :
    (ps : List Piece) → All IsPiece ps → extract_param_names (show_all ps) ≡ names ps
extract_param_names-show_all [] ok = unfold extract_param_names extract in refl
extract_param_names-show_all (plain t ∷ ps) (h, ok) =
    extract-plain t (show_all ps) h ∙ extract_param_names-show_all ps ok
extract_param_names-show_all (one n ∷ ps) ((ne, nd, nt, h), ok) =
    ap (λ t. extract_param_names (b'{' ∷ t)) (append_assoc n (b'}' ∷ []) (show_all ps))
    ∙ extract-wildcard n (show_all ps) h
    ∙ add_name-one n (extract_param_names (show_all ps)) ne nd nt
    ∙ ap (λ t. n ∷ t) (extract_param_names-show_all ps ok)
extract_param_names-show_all (remainder n ∷ ps) ((ne, h), ok) =
    ap (λ t. extract_param_names (b'{' ∷ t))
      (append_assoc (n ++ codes "...") (b'}' ∷ []) (show_all ps))
    ∙ extract-wildcard (n ++ codes "...") (show_all ps)
        (All-append _ n (codes "...") h (omega arith))
    ∙ add_name-remainder n (extract_param_names (show_all ps)) ne
    ∙ ap (λ t. n ∷ t) (extract_param_names-show_all ps ok)
extract_param_names-show_all (end ∷ ps) (_, ok) =
    extract-wildcard (codes "$") (show_all ps) (omega arith)
    ∙ add_name-end (extract_param_names (show_all ps))
    ∙ extract_param_names-show_all ps ok
