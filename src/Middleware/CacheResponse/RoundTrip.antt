-- ===== src/Middleware/CacheResponse/RoundTrip.antt =====
-- A stored response is read back, and what a cut-off entry is read as.
use elton.Common.{
  ℕ, ◌<◌, ◌^◌, ◌≡◌, not, some, List, ◌∷◌, ◌++◌, Text, All, length, keep, put_u16, put_u32, get_u16,
  get_u32, take-append, drop-append, length-append, arith,
}
use elton.Http.Laws.{Distinct}
use elton.Middleware.HeaderCodec.{HeaderIndexes, decode_headers, is_ignored}
use elton.Middleware.HeaderCodec.Dictionary.{IsDictionary}
use elton.Middleware.HeaderCodec.RoundTrip.{IsEncodable, decode-encode_headers}
use elton.Middleware.CacheResponse.{
  CacheResponse, status_hit, default_ignore_headers, body_bytes, prefix, stored_headers, bytes,
  new_cache_response,
}

-- What the types of the source bound: a `uint32` time, a status code that a `uint16` holds, and a
-- header section shorter than 4 GiB.
pub record IsStorable (dict : HeaderIndexes) (cp : CacheResponse) (ignore : List Text)
    : Type 0 where
  pub hit : cp.status ≡ status_hit
  pub time : cp.created_at < 2 ^ 32
  pub code : cp.status_code < 2 ^ 16
  pub size : length (stored_headers dict cp ignore) < 2 ^ 32

module _ (dict : HeaderIndexes) (cp : CacheResponse) where
  decode_parts :
      (headers rest : Text)
      → cp.created_at < 2 ^ 32
      → cp.status_code < 2 ^ 16
      → length headers < 2 ^ 32
      → (c : ℕ)
      → new_cache_response dict (prefix cp (length headers) ++ (headers ++ (c ∷ rest))) ≡ record {
        status = cp.status;
        created_at = cp.created_at;
        status_code = cp.status_code;
        header = decode_headers dict headers;
        compression = c;
        body = some rest;
      }
  unfolding new_cache_response put_u32 put_u16 get_u32 get_u16
  decode_parts headers rest t s l c = ground (
    arith,
    take-append headers (c ∷ rest),
    drop-append headers (c ∷ rest),
    length-append headers (c ∷ rest),
  )

-- A stored hit is read back as it was, without the ignored header fields, and with a body that is
-- empty where there was none. The dictionary's indexes lead back. Every header field has a name that
-- is a token in canonical form, at least one value, not a single empty one, and no line feed or zero
-- byte in its values, and the names differ. The time fits 32 bits, the status 16, and the length of
-- the encoded fields 32.
pub new_cache_response-bytes :
    (dict : HeaderIndexes) (cp : CacheResponse) (ignore : List Text)
    → IsDictionary dict
    → All IsEncodable cp.header
    → Distinct cp.header
    → IsStorable dict cp ignore
    → new_cache_response dict (bytes dict cp ignore) ≡ record cp {
      header = keep (λ e. not (is_ignored (ignore ++ default_ignore_headers) e.0)) cp.header;
      body = some (body_bytes cp.body);
    }
unfolding bytes
new_cache_response-bytes dict cp ignore d ok ds s =
    let headers = stored_headers dict cp ignore in
    let back = decode-encode_headers dict cp.header (ignore ++ default_ignore_headers) d ok ds in
    let parts =
      decode_parts dict cp headers (body_bytes cp.body) s.time s.code s.size cp.compression in
    ground (arith, parts, back, s.hit)
