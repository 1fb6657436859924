-- ===== src/Middleware/Cache/MaxAge.antt =====
-- middleware/cache.go: `GetCacheMaxAge`, `isCacheable` and `IsPassCacheMethod`.
use elton.Common.{
  ℕ, suc, ◌≡◌, Bool, true, false, not, ◌&&◌, ◌||◌, Option, none, some, [], ◌∷◌, Text, codes,
  text_eq, is_empty, ltb, ◌==◌, if◌then◌else◌, zero, cut_prefix, contains, join, value, is_digit,
  all_digits, ℤ, pos, negsuc, is_positive, minus64, arith,
}
use elton.Http
use elton.Http.{Header}
use elton.Context.{Context, Body, nil, is_reader, get_header}

unfoldable pub is_pass_cache_method : Text → Bool
unfolding text_eq
is_pass_cache_method m = not (text_eq m (codes "GET")) && not (text_eq m (codes "HEAD"))

unfoldable pub leading_digits : Text → Text
leading_digits [] = []
leading_digits (c ∷ s) = if is_digit c then c ∷ leading_digits s else []

-- The first match of a literal with digits behind it: `FindStringSubmatch` of such a pattern.
unfoldable pub find_number : Text → Text → Option Text
unfolding cut_prefix leading_digits
find_number word [] = none
find_number word (c ∷ s) =
    let later = find_number word s in
    elim (cut_prefix (c ∷ s) word) [
      | none ↦ later
      | some t ↦ if is_empty (leading_digits t) then later else some (leading_digits t)
    ]

abbrev at_most : ℕ → ℕ → ℕ
at_most bound n = if ltb bound n then bound else n

abbrev negated : ℕ → ℤ
negated zero = pos 0
negated (suc n) = negsuc (at_most 9223372036854775807 n)

-- `strconv.Atoi` without its error: 0 for a text that is no number, the nearest number of 64 bits
-- for one that is too large.
unfoldable pub atoi : Text → ℤ
unfolding value
atoi [] = pos 0
atoi (c ∷ s) =
    if c == b'-'
    then (if all_digits s then negated (value 0 s) else pos 0)
    else if c == b'+'
    then (if all_digits s then pos (at_most 9223372036854775807 (value 0 s)) else pos 0)
    else (if all_digits (c ∷ s) then pos (at_most 9223372036854775807 (value 0 (c ∷ s))) else pos 0)

unfoldable pub atoi_digits : Text → ℕ
unfolding value
atoi_digits s = at_most 9223372036854775807 (value 0 s)

abbrev number_or : ℕ → Option Text → ℕ
number_or d none = d
number_or d (some s) = atoi_digits s

abbrev less_age : ℕ → Text → ℤ
less_age n age = if is_empty age then pos n else minus64 n (atoi age)

-- What the pattern `no-cache|no-store|private` finds.
abbrev pub forbids : Text → Bool
forbids cc =
    contains cc (codes "no-cache")
    || contains cc (codes "no-store")
    || contains cc (codes "private")

abbrev age_of : Text → ℕ
age_of cc =
    number_or (number_or 0 (find_number (codes "max-age=") cc)) (find_number (codes "s-maxage=") cc)

unfoldable pub get_cache_max_age : Header → ℤ
unfolding Http.get Http.values join contains atoi atoi_digits minus64 find_number
get_cache_max_age h =
    let cc = join b',' (Http.values (codes "Cache-Control") h) in
    if not (is_empty (Http.get (codes "Set-Cookie") h))
    then pos 0
    else if is_empty cc
    then pos 0
    else if forbids cc
    then pos 0
    else less_age (age_of cc) (Http.get (codes "Age") h)

abbrev is_nil : Body → Bool
is_nil nil = true
is_nil _ = false

abbrev is_none : Option Text → Bool
is_none none = true
is_none (some _) = false

abbrev with_sign : ℤ → Bool × ℤ
with_sign n = (is_positive n, n)

-- `isCacheable`, with -2 as `negsuc 1` and -1 as `negsuc 0`.
unfoldable pub is_cacheable : Context → Bool × ℤ
unfolding get_cache_max_age get_header
is_cacheable c =
    if is_reader c.body
    then (false, negsuc 1)
    else if not (is_empty (get_header (codes "Content-Encoding") c))
    then (false, negsuc 1)
    else if c.status_code == 0 && is_none c.body_buffer && is_nil c.body
    then (false, negsuc 0)
    else with_sign (get_cache_max_age c.response.header)

-- A response is taken for cacheable only if it is no stream, is not encoded, sets no cookie, and
-- has none of `no-cache`, `no-store` and `private` in its `Cache-Control`.
pub is_cacheable-safe :
    (c : Context)
    → (is_cacheable c).0 ≡ true
    → (is_reader c.body ≡ false)
      × (get_header (codes "Content-Encoding") c ≡ [])
      × (Http.get (codes "Set-Cookie") c.response.header ≡ [])
      × (forbids (join b',' (Http.values (codes "Cache-Control") c.response.header)) ≡ false)
unfolding is_cacheable
is_cacheable-safe c h = ground arith
