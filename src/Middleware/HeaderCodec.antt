-- ===== src/Middleware/HeaderCodec.antt =====
-- middleware/http_header.go: the compact encoding of header fields in cached responses.
-- A name in the dictionary of short headers is one byte (1 to 127); any other name stands behind
-- the byte 255 and before a colon. Values are joined by a line feed, fields by a zero byte.
pub mod Dictionary
pub mod RoundTrip
use elton.Common.{
  ℕ, suc, ◌+◌, ◌≡◌, refl, Bool, true, false, not, Option, none, some, List, [], ◌∷◌, ◌++◌, map,
  Text, codes, text_eq, is_empty, ltb, leb, ◌==◌, if◌then◌else◌, length, get_elem?, any_of, keep,
  to_lower, trim_space, cut_byte, split, join,
}
use elton.Http.{Header, add}

abbrev pub max_short_header : ℕ
max_short_header = 128

abbrev pub none_match_header : ℕ
none_match_header = 255

abbrev pub value_sep : ℕ
value_sep = 10

abbrev pub header_value_sep : ℕ
header_value_sep = b':'

abbrev pub headers_join_sep : ℕ
headers_join_sep = 0

pub record HeaderIndexes : Type 0 where
  pub values : List Text
  pub indexes : List (Text × ℕ)
  pub max : ℕ

-- A missing element is not reached, since `max` is the length of `values`.
abbrev text_or_empty : Option Text → Text
text_or_empty none = []
text_or_empty (some s) = s

unfoldable pub get_name : HeaderIndexes → ℕ → Text
get_name h index = if leb h.max index then [] else text_or_empty (get_elem? h.values index)

unfoldable pub find_index : Text → List (Text × ℕ) → Option ℕ
find_index k [] = none
find_index k ((j, i) ∷ m) = if text_eq j k then some i else find_index k m

unfoldable pub get_index : HeaderIndexes → Text → Option ℕ
unfolding find_index
get_index h name = find_index (to_lower name) h.indexes

-- `m[k] = i`: the new entry hides an older one.
abbrev set_index : Text → ℕ → List (Text × ℕ) → List (Text × ℕ)
set_index k i m = (k, i) ∷ m

abbrev pub short_name : Text → Text
short_name name = to_lower (trim_space name)

-- The loop of `SetShortHeaders` over the names behind the first `i`.
unfoldable pub index_names : ℕ → List Text → List (Text × ℕ) → List (Text × ℕ)
index_names i [] m = m
index_names i (name ∷ names) m = index_names (suc i) names (set_index (short_name name) (suc i) m)

-- `none` is the panic.
unfoldable pub set_short_headers : List Text → Option HeaderIndexes
unfolding index_names
set_short_headers names =
    if leb max_short_header (length names)
    then none
    else some (record {
      values = [] ∷ map short_name names;
      indexes = index_names 0 names [];
      max = suc (length names);
    })

unfoldable pub to_values : Text → List Text
to_values [] = []
to_values (c ∷ s) = split value_sep (c ∷ s)

abbrev named_values : Option (Text × Text) → Text × List Text
named_values none = ([], [])
named_values (some (name, value)) = (name, to_values value)

-- The test on the set of lower-case names.
abbrev pub is_ignored : List Text → Text → Bool
is_ignored ignore name = any_of (λ k. text_eq (to_lower k) (to_lower name)) ignore

module _ (dict : HeaderIndexes) where
  -- `HTTPHeader.Header`; an empty name tells the caller to skip the field.
  unfoldable pub decode_field : Text → Text × List Text
  decode_field [] = ([], [])
  decode_field (kind ∷ rest) =
      if ltb kind max_short_header
      then (get_name dict kind, to_values rest)
      else named_values (cut_byte header_value_sep rest)

  abbrev encode_as : Option ℕ → Text → Text → Text
  encode_as (some index) name value = index ∷ value
  encode_as none name value = none_match_header ∷ (name ++ (header_value_sep ∷ value))

  -- `NewHTTPHeader`.
  unfoldable pub encode_field : Text → List Text → Text
  encode_field name vs = encode_as (get_index dict name) name (join value_sep vs)

  abbrev encode_entry : Text × List Text → Text
  encode_entry e = encode_field e.0 e.1

  -- `NewHTTPHeaders`.
  unfoldable pub encode_headers : Header → List Text → Text
  unfolding encode_field
  encode_headers header ignore =
      join headers_join_sep (map encode_entry (keep (λ e. not (is_ignored ignore e.0)) header))

  unfoldable pub add_values : Text → List Text → Header → Header
  add_values name [] h = h
  add_values name (v ∷ vs) h = add_values name vs (add name v h)

  abbrev add_field : Text × List Text → Header → Header
  add_field (name, vs) h = if is_empty name then h else add_values name vs h

  unfoldable pub decode_items : List Text → Header → Header
  decode_items [] h = h
  decode_items (item ∷ items) h = decode_items items (add_field (decode_field item) h)

  -- `HTTPHeaders.Header`.
  unfoldable pub decode_headers : Text → Header
  unfolding decode_items decode_field add_values
  decode_headers hs = decode_items (split headers_join_sep hs) []
