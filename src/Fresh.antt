-- ===== src/Fresh.antt =====
-- fresh.go: whether a conditional request can be answered with 304. The date parser of the package
-- `time` is the parameter `parse_date`: the seconds since the epoch, or none.
pub mod Laws
use elton.Common.{
  ℕ, zero, suc, Bool, true, false, not, ◌&&◌, ◌||◌, Option, none, some, List, [], ◌∷◌, Text, codes,
  text_eq, is_empty, ltb, ◌==◌, if◌then◌else◌, length, cut_prefix, cut_byte, trim_space,
}
use elton.Http
use elton.Http.{Header}

-- The class `\s` of `regexp`.
abbrev pub is_re_space : ℕ → Bool
is_re_space c = c == 9 || c == 10 || c == 12 || c == 13 || c == 32

unfoldable pub skip_spaces : Text → Text
skip_spaces [] = []
skip_spaces (c ∷ s) = if is_re_space c then skip_spaces s else c ∷ s

abbrev at_end : Text → Bool
at_end [] = true
at_end (c ∷ _) = c == b','

-- `\s*?no-cache\s*?(?:,|$)` at the beginning of a text.
unfoldable pub no_cache_here : Text → Bool
unfolding skip_spaces
no_cache_here s = elim (cut_prefix (skip_spaces s) (codes "no-cache")) [
  | none ↦ false
  | some t ↦ at_end (skip_spaces t)
]

-- The same behind one of the commas of a text.
unfoldable pub no_cache_behind : Text → Bool
unfolding no_cache_here
no_cache_behind [] = false
no_cache_behind (c ∷ s) = (c == b',' && no_cache_here s) || no_cache_behind s

-- `noCacheReg.MatchString`.
unfoldable pub no_cache_reg : Text → Bool
unfolding no_cache_here no_cache_behind
no_cache_reg s = no_cache_here s || no_cache_behind s

abbrev weak_tag : Text
weak_tag = codes "W/"

abbrev is_same : Option Text → Text → Bool
is_same none t = false
is_same (some s) t = text_eq s t

-- `etagWeakMatch`.
unfoldable pub etag_weak_match : Text → Text → Bool
unfolding text_eq cut_prefix
etag_weak_match match etag =
    text_eq match etag
    || is_same (cut_prefix match weak_tag) etag
    || is_same (cut_prefix etag weak_tag) match

-- The loop over the tags of `If-None-Match`: whether one matches. Each round drops a byte at least.
unfoldable pub tag_loop : ℕ → Text → Text → Bool
unfolding etag_weak_match trim_space
tag_loop fuel [] etag = false
tag_loop zero (c ∷ s) etag = false
tag_loop (suc fuel) (c ∷ s) etag = elim (cut_byte b',' (c ∷ s)) [
  | none ↦ etag_weak_match (trim_space (c ∷ s)) etag
  | some (part, behind) ↦ etag_weak_match (trim_space part) etag || tag_loop fuel behind etag
]

-- Seconds since the epoch: n, or -(n+1).
pub data Seconds : Type 0 where
  since before : ℕ → Seconds

abbrev pub is_zero : Seconds → Bool
is_zero (since zero) = true
is_zero _ = false

abbrev pub earlier : Seconds → Seconds → Bool
earlier (since m) (since n) = ltb m n
earlier (since m) (before n) = false
earlier (before m) (since n) = true
earlier (before m) (before n) = ltb n m

abbrev or_zero : Option Seconds → Seconds
or_zero none = since 0
or_zero (some t) = t

module _ (parse_date : Text → Option Seconds) where
  unfoldable pub parse_http_date : Text → Seconds
  parse_http_date s = or_zero (parse_date s)

  abbrev dates_hold : Text → Text → Bool
  dates_hold modified_since last_modified =
      let last = parse_http_date last_modified in
      let asked = parse_http_date modified_since in
      if is_zero last || is_zero asked then false else not (earlier asked last)

  -- `isFresh`, from the test on `If-Modified-Since`.
  abbrev since_part : Text → Text → Bool
  since_part modified_since last_modified =
      if not (is_empty modified_since)
      then (if is_empty last_modified then false else dates_hold modified_since last_modified)
      else true

  unfoldable pub is_fresh :
      (modified_since none_match cache_control last_modified etag : Text) → Bool
  unfolding no_cache_reg tag_loop text_eq
  is_fresh modified_since none_match cache_control last_modified etag =
      if is_empty modified_since && is_empty none_match
      then false
      else if not (is_empty cache_control) && no_cache_reg cache_control
      then false
      else if not (is_empty none_match) && not (text_eq none_match (codes "*"))
      then (if is_empty etag
          then false
          else if tag_loop (length none_match) none_match etag
          then since_part modified_since last_modified
          else false)
      else since_part modified_since last_modified

  -- `Fresh`.
  unfoldable pub fresh : Header → Header → Bool
  unfolding is_fresh Http.get
  fresh req res =
      is_fresh (Http.get (codes "If-Modified-Since") req) (Http.get (codes "If-None-Match") req)
        (Http.get (codes "Cache-Control") req) (Http.get (codes "Last-Modified") res)
        (Http.get (codes "ETag") res)
