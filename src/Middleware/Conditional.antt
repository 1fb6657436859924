-- ===== src/Middleware/Conditional.antt =====
-- middleware/etag.go, middleware/fresh.go and `genETag` of middleware/helper.go, for requests that
-- are not skipped. The SHA-1 sum in URL-safe base 64 is the parameter `sum`, the date parser the
-- parameter `parse_date`.
pub mod Revalidate
use elton.Common.{
  ℕ, zero, suc, ◌+◌, ◌-◌, ◌/◌, ◌%◌, Bool, true, false, not, ◌&&◌, ◌||◌, Option, none, some, List,
  [], ◌∷◌, ◌++◌, Text, codes, text_eq, is_empty, ltb, leb, ◌==◌, if◌then◌else◌, length,
}
use elton.Context.{Context, Err, get_header, set_header, not_modified}
use elton.Chain.Onion.{Layer}
use elton.Fresh.{Seconds, fresh}

-- `strconv.FormatInt(n, 16)`, for a number that is not negative.
abbrev pub hex_digit : ℕ → ℕ
hex_digit d = if ltb d 10 then b'0' + d else b'a' + (d - 10)

unfoldable pub hex_digits : ℕ → ℕ → Text → Text
hex_digits zero n out = out
hex_digits (suc fuel) n out =
    let more = hex_digits fuel (n / 16) (hex_digit (n % 16) ∷ out) in
    if ltb n 16 then hex_digit n ∷ out else more

unfoldable pub hex : ℕ → Text
unfolding hex_digits
hex n = hex_digits (suc n) n []

-- A response without a buffer, or with an empty one.
abbrev pub lacks_body : Option Text → Bool
lacks_body none = true
lacks_body (some b) = is_empty b

-- A status that was set and is no success.
abbrev pub fails : ℕ → Bool
fails code = not (code == 0) && (ltb code 200 || leb 300 code)

module _ (sum : Text → Text) where
  -- `genETag`.
  unfoldable pub gen_etag : Text → Text
  unfolding hex
  gen_etag [] = codes "\"0-2jmj7l5rSw0yVb_vlWAYkK_YBwk=\""
  gen_etag (c ∷ s) = b'"' ∷ (hex (length (c ∷ s)) ++ (b'-' ∷ (sum (c ∷ s) ++ (b'"' ∷ []))))

  abbrev pub buffer_of : Option Text → Text
  buffer_of none = []
  buffer_of (some b) = b

  abbrev pub tagged : Text → Context → Context
  tagged etag c = if is_empty etag then c else set_header (codes "ETag") etag c

  unfoldable pub etag_after : Context → Option Err → Context × Option Err
  unfolding gen_etag get_header set_header
  etag_after c (some e) = (c, some e)
  etag_after c none =
      if lacks_body c.body_buffer || not (is_empty (get_header (codes "ETag") c))
      then (c, none)
      else if fails c.status_code
      then (c, none)
      else (tagged (gen_etag (buffer_of c.body_buffer)) c, none)

  -- `NewETag`.
  abbrev pub etag_layer : Layer
  etag_layer = record { before = λ c. c; after = etag_after }

module _ (parse_date : Text → Option Seconds) where
  unfoldable pub fresh_after : Context → Option Err → Context × Option Err
  unfolding fresh not_modified text_eq
  fresh_after c (some e) = (c, some e)
  fresh_after c none =
      if lacks_body c.body_buffer || c.status_code == 304
      then (c, none)
      else if not (text_eq c.request.method (codes "GET"))
          && not (text_eq c.request.method (codes "HEAD"))
      then (c, none)
      else if fails c.status_code
      then (c, none)
      else if fresh parse_date c.request.header c.response.header
      then (not_modified c, none)
      else (c, none)

  -- `NewFresh`.
  abbrev pub fresh_layer : Layer
  fresh_layer = record { before = λ c. c; after = fresh_after }
