-- ===== src/Middleware/CacheResponse.antt =====
-- middleware/cache.go, the stored form of a response: `CacheResponse.Bytes` and
-- `NewCacheResponse`. The layout is status (1 byte), creation time (4), status code (2), length of the
-- encoded header fields (4), these fields, compression type (1), body.
pub mod RoundTrip
use elton.Common.{
  ℕ, ◌+◌, ◌≡◌, refl, Bool, true, false, ◌&&◌, Option, none, some, List, [], ◌∷◌, ◌++◌, Text, codes,
  text_eq, contains, ltb, ◌==◌, if◌then◌else◌, length, take, drop, put_u16, put_u32, get_u16,
  get_u32,
}
use elton.Http.{Header}
use elton.Middleware.HeaderCodec.{HeaderIndexes, encode_headers, decode_headers}

-- The type `CacheStatus` is a byte, and a stored byte need be none of these.
abbrev pub status_unknown : ℕ
status_unknown = 0

abbrev pub status_hit_for_pass : ℕ
status_hit_for_pass = 1

abbrev pub status_hit : ℕ
status_hit = 2

pub record CacheResponse : Type 0 where
  pub status : ℕ
  pub created_at : ℕ
  pub status_code : ℕ
  pub header : Header
  pub compression : ℕ
  pub body : Option Text

-- A response of which only the status is known.
abbrev pub only_status : ℕ → CacheResponse
only_status s = record {
  status = s;
  created_at = 0;
  status_code = 0;
  header = [];
  compression = 0;
  body = none;
}

abbrev pub default_ignore_headers : List Text
default_ignore_headers =
    codes "Content-Encoding"
    ∷ codes "Content-Length"
    ∷ codes "Connection"
    ∷ codes "Date"
    ∷ codes "Age"
    ∷ codes "X-Cache"
    ∷ []

abbrev pub body_bytes : Option Text → Text
body_bytes none = []
body_bytes (some b) = b

-- The eleven bytes in front of the header fields.
abbrev pub prefix : CacheResponse → ℕ → Text
prefix cp size = cp.status ∷ (put_u32 cp.created_at ++ (put_u16 cp.status_code ++ put_u32 size))

abbrev pub prefix_size : ℕ
prefix_size = 11

module _ (dict : HeaderIndexes) where
  -- The header fields as they are stored.
  abbrev pub stored_headers : CacheResponse → List Text → Text
  stored_headers cp ignore = encode_headers dict cp.header (ignore ++ default_ignore_headers)

  -- `CacheResponse.Bytes`.
  unfoldable pub bytes : CacheResponse → List Text → Text
  bytes cp ignore =
      if cp.status == status_hit
      then (let headers = stored_headers cp ignore in
          prefix cp (length headers) ++ (headers ++ (cp.compression ∷ body_bytes cp.body)))
      else cp.status ∷ []

  abbrev first_byte : Text → ℕ
  first_byte [] = 0
  first_byte (c ∷ _) = c

  -- The part of `NewCacheResponse` behind the two tests of the length.
  abbrev decode_rest : Text → ℕ → CacheResponse
  decode_rest stored size = record {
    status = first_byte stored;
    created_at = get_u32 (drop 1 stored);
    status_code = get_u16 (drop 5 stored);
    header = decode_headers dict (take size (drop 11 stored));
    compression = first_byte (drop size (drop 11 stored));
    body = some (drop 1 (drop size (drop 11 stored)));
  }

  -- `NewCacheResponse`.
  unfoldable pub new_cache_response : Text → CacheResponse
  new_cache_response stored =
      let size = get_u32 (drop 7 stored) in
      if ltb (length stored) 1
      then only_status status_unknown
      else if ltb (length stored) prefix_size
      then only_status (first_byte stored)
      else if ltb (length stored) (prefix_size + size + 1)
      then only_status status_unknown
      else decode_rest stored size
