-- ===== src/Route/Segments.antt =====
-- `normalizeRoutePath` works segment by segment.
use elton.Common.{
  ℕ, zero, suc, ◌≤◌, ◌≡◌, ◌≢◌, refl, sym, ap, ◌∙◌, inl, inr, Bool, true, false, not, ◌&&◌, Option,
  none, some, List, [], ◌∷◌, ◌++◌, map, Text, codes, text_eq, text_eq_iff, is_empty, ◌==◌,
  if◌then◌else◌, length, has_byte, cut_suffix, split, join, append_assoc, Bool-cases, arith,
}
use elton.Route.{span_ident, at_segment_start, last_byte, convert, catch_all, normalize_route_path}

-- What becomes of a segment: an identifier behind a leading colon is put in braces.
unfoldable pub segment : Text → Text
segment [] = []
segment (c ∷ s) =
    let (name, rest) = span_ident s in
    if c == b':' && not (is_empty name) then b'{' ∷ (name ++ (b'}' ∷ rest)) else c ∷ s

abbrev hd : List Text → Text
hd [] = []
hd (p ∷ _) = p

abbrev tl : List Text → List Text
tl [] = []
tl (_ ∷ ps) = ps

split-cons : (s : Text) → split b'/' s ≡ hd (split b'/' s) ∷ tl (split b'/' s)
unfolding split
split-cons [] = refl
split-cons (c ∷ s) = ground (arith, split-cons s)

-- An identifier holds no slash, so it belongs to the first segment.
span-split :
    (s : Text)
    → (hd (split b'/' s) ≡ (span_ident s).0 ++ hd (split b'/' (span_ident s).1))
      × (tl (split b'/' s) ≡ tl (split b'/' (span_ident s).1))
      × (span_ident (hd (split b'/' s)) ≡ ((span_ident s).0, hd (split b'/' (span_ident s).1)))
      × (length (span_ident s).1 ≤ length s)
unfolding span_ident split
span-split [] = (refl, refl, refl, omega arith)
span-split (c ∷ s) = ground (arith, span-split s, split-cons s)

join-append : (q p : Text) (ps : List Text) → join b'/' ((q ++ p) ∷ ps) ≡ q ++ join b'/' (p ∷ ps)
unfolding join
join-append [] p ps = refl
join-append (c ∷ q) p [] = refl
join-append (c ∷ q) p (r ∷ ps) = ap (λ t. c ∷ t) (join-append q p (r ∷ ps))

ident_not_start :
    (s : Text)
    → is_empty (span_ident s).0 ≡ false
    → at_segment_start (last_byte (span_ident s).0) ≡ false
unfolding span_ident
ident_not_start [] h = cc
ident_not_start (c ∷ s) h = ground (arith, ident_not_start s)

-- The segments of what is left; the first is whole only at the start of a segment.
abbrev first_segment : Bool → Text → Text
first_segment b p = if b then segment p else p

abbrev rewritten : Bool → Text → Text
rewritten b s = join b'/' (first_segment b (hd (split b'/' s)) ∷ map segment (tl (split b'/' s)))

rewritten_slash : (b : Bool) (s : Text) → rewritten b (b'/' ∷ s) ≡ b'/' ∷ rewritten true s
unfolding split join segment
rewritten_slash true s = rw (split-cons s)
rewritten_slash false s = rw (split-cons s)

rewritten_other :
    (b : Bool) (c : ℕ) (s : Text)
    → (c == b'/') ≡ false
    → (c == b':' && b && not (is_empty (span_ident s).0)) ≡ false
    → rewritten b (c ∷ s) ≡ c ∷ rewritten false s
unfolding split segment
rewritten_other b c s h k = ground (
  arith,
  split-cons s,
  span-split s,
  join-append (c ∷ []) (hd (split b'/' s)) (map segment (tl (split b'/' s))),
)

rewritten_wildcard :
    (s : Text)
    → is_empty (span_ident s).0 ≡ false
    → rewritten true (b':' ∷ s)
      ≡ b'{' ∷ ((span_ident s).0 ++ (b'}' ∷ rewritten false (span_ident s).1))
unfolding split segment
rewritten_wildcard s h =
    let name = (span_ident s).0 in
    let rest = (span_ident s).1 in
    ground (
      arith,
      split-cons s,
      span-split s,
      join-append (b'{' ∷ (name ++ (b'}' ∷ []))) (hd (split b'/' rest))
          (map segment (tl (split b'/' rest))),
      append_assoc name (b'}' ∷ []) (hd (split b'/' rest)),
      append_assoc name (b'}' ∷ [])
          (join b'/' (hd (split b'/' rest) ∷ map segment (tl (split b'/' rest)))),
    )

rewritten_nil : (b : Bool) → rewritten b [] ≡ []
unfolding split join segment
rewritten_nil true = refl
rewritten_nil false = refl

convert_wildcard :
    (f c : ℕ) (prev : Option ℕ) (s : Text)
    → (c == b':' && at_segment_start prev && not (is_empty (span_ident s).0)) ≡ true
    → convert f (last_byte (span_ident s).0) (span_ident s).1
      ≡ rewritten (at_segment_start (last_byte (span_ident s).0)) (span_ident s).1
    → convert (suc f) prev (c ∷ s) ≡ rewritten (at_segment_start prev) (c ∷ s)
unfolding convert
convert_wildcard f c prev s h ih =
    let colon : c ≡ b':' = ground arith in
    let starts : at_segment_start prev ≡ true = ground arith in
    let named : is_empty (span_ident s).0 ≡ false = ground arith in
    rw h (
      ap (λ t. b'{' ∷ ((span_ident s).0 ++ (b'}' ∷ t)))
        (ih ∙ ap (λ b. rewritten b (span_ident s).1) (ident_not_start s named))
      ∙ sym (rewritten_wildcard s named)
      ∙ ap (λ b. rewritten b (b':' ∷ s)) (sym starts)
      ∙ ap (λ d. rewritten (at_segment_start prev) (d ∷ s)) (sym colon))

convert_copied :
    (f c : ℕ) (prev : Option ℕ) (s : Text)
    → (c == b':' && at_segment_start prev && not (is_empty (span_ident s).0)) ≡ false
    → convert f (some c) s ≡ rewritten (c == b'/') s
    → convert (suc f) prev (c ∷ s) ≡ rewritten (at_segment_start prev) (c ∷ s)
unfolding convert
convert_copied f c prev s h ih = elim (Bool-cases (c == b'/')) [
  | inl slash ↦
      let e : c ≡ b'/' = ground arith in
      rw h (
        ap (λ t. c ∷ t) (ih ∙ ap (λ b. rewritten b s) slash)
        ∙ ap (λ d. d ∷ rewritten true s) e
        ∙ sym (rewritten_slash (at_segment_start prev) s)
        ∙ ap (λ d. rewritten (at_segment_start prev) (d ∷ s)) (sym e))
  | inr other ↦ rw h (
      ap (λ t. c ∷ t) (ih ∙ ap (λ b. rewritten b s) other)
      ∙ sym (rewritten_other (at_segment_start prev) c s other h))
]

convert-rewritten :
    (fuel : ℕ) (prev : Option ℕ) (s : Text)
    → length s ≤ fuel
    → convert fuel prev s ≡ rewritten (at_segment_start prev) s
convert-rewritten zero prev [] le = unfold convert in sym (rewritten_nil (at_segment_start prev))
convert-rewritten (suc f) prev [] le = unfold convert in sym (rewritten_nil (at_segment_start prev))
convert-rewritten zero prev (c ∷ s) le = absurd (omega arith)
convert-rewritten (suc f) prev (c ∷ s) le =
    elim (Bool-cases (c == b':' && at_segment_start prev && not (is_empty (span_ident s).0))) [
      | inl wild ↦ convert_wildcard f c prev s wild (
          convert-rewritten f (last_byte (span_ident s).0) (span_ident s).1
            (omega (arith, span-split s)))
      | inr copied ↦ convert_copied f c prev s copied (convert-rewritten f (some c) s (omega arith))
    ]

convert_no_colon :
    (fuel : ℕ) (prev : Option ℕ) (s : Text)
    → length s ≤ fuel
    → has_byte b':' s ≡ false
    → convert fuel prev s ≡ s
unfolding convert
convert_no_colon zero prev [] le h = refl
convert_no_colon (suc f) prev [] le h = refl
convert_no_colon zero prev (c ∷ s) le h = absurd (omega arith)
convert_no_colon (suc f) prev (c ∷ s) le h = ground (arith, convert_no_colon f (some c) s)

-- A path other than the root is registered segment by segment: a final "*" becomes the wildcard
-- of the rest, and of a segment that begins with a colon and an identifier the identifier is put
-- in braces; every other segment is kept.
pub normalize_route_path-segments :
    (path : Text)
    → path ≢ []
    → path ≢ codes "/"
    → normalize_route_path path
      ≡ join b'/' (map segment (split b'/' (catch_all (cut_suffix path (codes "/*")) path)))
unfolding normalize_route_path
normalize_route_path-segments path ne nr =
    let p = catch_all (cut_suffix path (codes "/*")) path in
    let all : rewritten true p ≡ join b'/' (map segment (split b'/' p)) =
      ap (λ ps. join b'/' (map segment ps)) (sym (split-cons p)) in
    let filled : is_empty path ≡ false = not_empty path ne in
    let other : text_eq path (codes "/") ≡ false = ground (arith, text_eq_iff path (codes "/")) in
    let run = convert-rewritten (length p) none p (omega arith) in
    rw (filled, other)
      (elim (Bool-cases (has_byte b':' p)) [
        | inl colon ↦ rw colon (run ∙ all)
        | inr bare ↦
            rw bare (sym (convert_no_colon (length p) none p (omega arith) bare) ∙ run ∙ all)
      ])
  where
    not_empty : (s : Text) → s ≢ [] → is_empty s ≡ false
    not_empty [] h = absurd (h refl)
    not_empty (c ∷ s) h = refl
