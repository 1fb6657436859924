-- ===== src/Fresh/Laws.antt =====
-- Freshness, read from the lists that the header fields stand for.
use elton.Common.{
  ℕ, zero, suc, ◌≡◌, ◌≢◌, ◌≤◌, refl, ap, sym, Bool, false, not, ◌&&◌, ◌||◌, Option, none, some,
  List, [], ◌∷◌, Text, codes, Lacks, text_eq, is_empty, if◌then◌else◌, length, any_of, cut_prefix,
  cut_byte, cut_byte-split, cut_byte-split-none, split, trim_space, ◌==◌, Option-cases, inl, inr,
  arith,
}
use elton.Fresh.{
  skip_spaces, no_cache_here, no_cache_behind, no_cache_reg, etag_weak_match, tag_loop, Seconds,
  is_zero, earlier, parse_http_date, is_fresh,
}

-- The part is `no-cache` between white space.
abbrev pub is_no_cache : Text → Bool
is_no_cache p = elim (cut_prefix (skip_spaces p) (codes "no-cache")) [
  | none ↦ false
  | some t ↦ is_empty (skip_spaces t)
]

-- What stands before the first comma.
abbrev pub upto : Text → Text
upto [] = []
upto (c ∷ s) = if c == b',' then [] else c ∷ upto s

abbrev pub tail_of : List Text → List Text
tail_of [] = []
tail_of (_ ∷ ps) = ps

split-upto : (s : Text) → split b',' s ≡ upto s ∷ tail_of (split b',' s)
unfolding split
split-upto [] = refl
split-upto (c ∷ s) = ground (arith, split-upto s)

skip_spaces-upto : (s : Text) → skip_spaces (upto s) ≡ upto (skip_spaces s)
unfolding skip_spaces
skip_spaces-upto [] = refl
skip_spaces-upto (c ∷ s) = ground (arith, skip_spaces-upto s)

abbrev upto_of : Option Text → Option Text
upto_of none = none
upto_of (some t) = some (upto t)

cut_prefix-upto : (s p : Text) → Lacks b',' p → cut_prefix (upto s) p ≡ upto_of (cut_prefix s p)
unfolding cut_prefix
cut_prefix-upto s [] h = refl
cut_prefix-upto [] (q ∷ p) h = refl
cut_prefix-upto (c ∷ s) (q ∷ p) (ne, h) = ground (arith, cut_prefix-upto s p h)

no_cache_here-upto : (s : Text) → no_cache_here s ≡ is_no_cache (upto s)
unfolding no_cache_here
no_cache_here-upto s =
    let word = codes "no-cache" in
    let same = cut_prefix-upto (skip_spaces s) word (ground arith) in
    elim (Option-cases (cut_prefix (skip_spaces s) word)) [
      | inl e ↦ ground (arith, e, same, skip_spaces-upto s)
      | inr (t, e) ↦ ground (arith, e, same, skip_spaces-upto s, skip_spaces-upto t)
    ]

no_cache_behind-split : (s : Text) → no_cache_behind s ≡ any_of is_no_cache (tail_of (split b',' s))
unfolding no_cache_behind split
no_cache_behind-split [] = refl
no_cache_behind-split (c ∷ s) =
    ground (arith, no_cache_behind-split s, split-upto s, no_cache_here-upto s)

-- The regular expression of fresh.go finds exactly the fields that list `no-cache`.
no_cache_reg-split : (s : Text) → no_cache_reg s ≡ any_of is_no_cache (split b',' s)
unfolding no_cache_reg
no_cache_reg-split s = ground (arith, no_cache_behind-split s, split-upto s, no_cache_here-upto s)

-- Some part of the field, trimmed, matches the tag weakly.
abbrev pub lists_tag : Text → Text → Bool
lists_tag etag s = any_of (λ p. etag_weak_match (trim_space p) etag) (split b',' s)

no_match_empty : (etag : Text) → etag ≢ [] → etag ≢ codes "W/" → etag_weak_match [] etag ≡ false
unfolding etag_weak_match text_eq cut_prefix
no_match_empty [] ne nw = absurd (ne refl)
no_match_empty (a ∷ []) ne nw = ground arith
no_match_empty (a ∷ b ∷ []) ne nw = let other : (a ∷ b ∷ []) ≢ 87 ∷ 47 ∷ [] = nw in grind arith
no_match_empty (a ∷ b ∷ c ∷ etag) ne nw = ground arith

tag_loop-split :
    (fuel : ℕ) (s etag : Text)
    → length s ≤ fuel
    → etag ≢ []
    → etag ≢ codes "W/"
    → tag_loop fuel s etag ≡ lists_tag etag s
unfolding tag_loop
tag_loop-split fuel [] etag le ne nw =
    unfold split trim_space in (sym (ap (λ t. t || false) (no_match_empty etag ne nw)))
tag_loop-split zero (c ∷ s) etag le ne nw = absurd (omega arith)
tag_loop-split (suc fuel) (c ∷ s) etag le ne nw = elim (Option-cases (cut_byte b',' (c ∷ s))) [
  | inl whole ↦ ground (arith, whole, cut_byte-split-none b',' (c ∷ s) whole)
  | inr ((part, behind), found) ↦
      let (shorter, parts) = cut_byte-split b',' (c ∷ s) part behind found in
      ground (arith, found, parts, tag_loop-split fuel behind etag (omega arith) ne nw)
]

asks_no_cache :
    (s : Text) → (not (is_empty s) && no_cache_reg s) ≡ any_of is_no_cache (split b',' s)
asks_no_cache [] = unfold split cut_prefix skip_spaces in refl
asks_no_cache (c ∷ s) = no_cache_reg-split (c ∷ s)

tag_found :
    (etag s : Text)
    → etag ≢ codes "W/"
    → (not (is_empty etag) && tag_loop (length s) s etag)
      ≡ (not (is_empty etag) && lists_tag etag s)
tag_found [] s nw = refl
tag_found (a ∷ etag) s nw = tag_loop-split (length s) s (a ∷ etag) (omega arith) (cc) nw

module _ (parse_date : Text → Option Seconds) where
  abbrev pub tag_condition : Text → Text → Bool
  tag_condition none_match etag =
      is_empty none_match
      || text_eq none_match (codes "*")
      || (not (is_empty etag) && lists_tag etag none_match)

  abbrev pub date_condition : Text → Text → Bool
  date_condition modified_since last_modified =
      let last = parse_http_date parse_date last_modified in
      let asked = parse_http_date parse_date modified_since in
      is_empty modified_since
      || (not (is_empty last_modified)
          && not (is_zero last)
          && not (is_zero asked)
          && not (earlier asked last))

  -- A response is fresh if the request has a condition, does not list `no-cache`, and every
  -- condition that it has holds: the tag is among the comma-separated ones, trimmed and compared
  -- weakly, or `*` is asked for; and the response is not younger than the date, both dates being
  -- readable and not the epoch. The response's tag is not the bare prefix `W/`.
  pub is_fresh_lem :
      (modified_since none_match cache_control last_modified etag : Text)
      → etag ≢ codes "W/"
      → is_fresh parse_date modified_since none_match cache_control last_modified etag ≡ (
          (not (is_empty modified_since) || not (is_empty none_match))
          && not (any_of is_no_cache (split b',' cache_control))
          && tag_condition none_match etag
          && date_condition modified_since last_modified)
  unfolding is_fresh
  is_fresh_lem modified_since none_match cache_control last_modified etag nw =
      ground (arith, asks_no_cache cache_control, tag_found etag none_match nw)
