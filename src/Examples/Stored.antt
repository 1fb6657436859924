-- ===== src/Examples/Stored.antt =====
-- A dictionary, a response with its stored bytes, and the codec at them.
use elton.Common.{
  ◌≡◌, refl, some, [], ◌∷◌, ◌++◌, codes, All, not, keep, length, text_eq, join, to_lower,
  trim_space, arith,
}
use elton.Http.{Header, is_token, canonical}
use elton.Http.Laws.{Distinct}
use elton.Middleware.HeaderCodec.{
  HeaderIndexes, set_short_headers, get_index, is_ignored, encode_headers, decode_headers,
}
use elton.Middleware.HeaderCodec.Dictionary.{IsDictionary, set_short_headers-IsDictionary}
use elton.Middleware.HeaderCodec.RoundTrip.{IsEncodable, decode-encode_headers}
use elton.Middleware.CacheResponse.{
  CacheResponse, bytes, new_cache_response, stored_headers, default_ignore_headers, status_hit,
}
use elton.Middleware.CacheResponse.RoundTrip.{IsStorable, new_cache_response-bytes}

abbrev pub dict : HeaderIndexes
dict = record {
  values = [] ∷ codes "content-type" ∷ codes "etag" ∷ [];
  indexes = (codes "etag", 2) ∷ (codes "content-type", 1) ∷ [];
  max = 3;
}

dict_built : set_short_headers (codes " Content-Type" ∷ codes "ETag" ∷ []) ≡ some dict
unfolding set_short_headers to_lower trim_space
dict_built = refl

pub dict-IsDictionary : IsDictionary dict
dict-IsDictionary =
    set_short_headers-IsDictionary (codes " Content-Type" ∷ codes "ETag" ∷ []) dict dict_built

set_short_headers-IsDictionary_example : IsDictionary dict
set_short_headers-IsDictionary_example =
    set_short_headers-IsDictionary (codes " Content-Type" ∷ codes "ETag" ∷ []) dict dict_built

abbrev fields : Header
fields =
    (codes "Content-Type", codes "text/plain" ∷ [])
    ∷ (codes "X-Tag", codes "a" ∷ codes "b" ∷ [])
    ∷ (codes "Date", codes "now" ∷ [])
    ∷ []

type-IsEncodable : IsEncodable (codes "Content-Type", codes "text/plain" ∷ [])
unfolding is_token canonical
type-IsEncodable = record {
  named = cc;
  token = refl;
  canon = refl;
  some_value = cc;
  not_blank = cc;
  no_feed = omega arith;
  no_zero = omega arith;
}

tag-IsEncodable : IsEncodable (codes "X-Tag", codes "a" ∷ codes "b" ∷ [])
unfolding is_token canonical
tag-IsEncodable = record {
  named = cc;
  token = refl;
  canon = refl;
  some_value = cc;
  not_blank = cc;
  no_feed = omega arith;
  no_zero = omega arith;
}

date-IsEncodable : IsEncodable (codes "Date", codes "now" ∷ [])
unfolding is_token canonical
date-IsEncodable = record {
  named = cc;
  token = refl;
  canon = refl;
  some_value = cc;
  not_blank = cc;
  no_feed = omega arith;
  no_zero = omega arith;
}

fields-IsEncodable : All IsEncodable fields
fields-IsEncodable = (type-IsEncodable, (tag-IsEncodable, (date-IsEncodable, tt)))

fields-Distinct : Distinct fields
fields-Distinct = (((cc), ((cc), tt)), (((cc), tt), (tt, tt)))

encoded :
    encode_headers dict fields (codes "date" ∷ [])
    ≡ (1 ∷ codes "text/plain") ++ (0 ∷ 255 ∷ codes "X-Tag:a\nb")
unfolding encode_headers get_index to_lower join text_eq
encoded = refl

decode-encode_headers_example :
    decode_headers dict (encode_headers dict fields (codes "date" ∷ []))
    ≡ keep (λ e. not (is_ignored (codes "date" ∷ []) e.0)) fields
decode-encode_headers_example =
    decode-encode_headers dict fields (codes "date" ∷ []) dict-IsDictionary fields-IsEncodable
      fields-Distinct

abbrev answer : CacheResponse
answer = record {
  status = status_hit;
  created_at = 1700000000;
  status_code = 200;
  header = fields;
  compression = 2;
  body = some (codes "hello");
}

stored_size : length (stored_headers dict answer []) ≡ 22
unfolding encode_headers get_index to_lower join text_eq
stored_size = refl

answer-IsStorable : IsStorable dict answer []
answer-IsStorable = record {
  hit = refl;
  time = omega arith;
  code = omega arith;
  size = omega (arith, stored_size);
}

new_cache_response-bytes_example : new_cache_response dict (bytes dict answer []) ≡ record answer {
  header = keep (λ e. not (is_ignored ([] ++ default_ignore_headers) e.0)) fields;
  body = some (codes "hello");
}
new_cache_response-bytes_example =
    new_cache_response-bytes dict answer [] dict-IsDictionary fields-IsEncodable fields-Distinct
      answer-IsStorable
