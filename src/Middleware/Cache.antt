-- ===== src/Middleware/Cache.antt =====
-- middleware/cache.go: the handler that `NewCache` makes. What is configured is a parameter: the
-- store, the key, the marshalling of a body, and the compressor with its library. `c.Next()` is the
-- function `inner`. The clock is read as `now`, in seconds since the epoch.
pub mod MaxAge
mod Answer
pub mod Hit
use elton.Common.{
  ℕ, ◌+◌, ◌-◌, ◌*◌, ◌%◌, ◌⊎◌, inl, inr, Bool, true, false, not, Option, none, some, List, [], ◌∷◌,
  ◌++◌, Text, codes, contains, is_empty, ◌==◌, if◌then◌else◌, itoa, length, ℤ, pos, negsuc, wrap64,
}
use elton.Http
use elton.Context.{Context, Body, Err, get_header, set_header, merge_header, get_request_header}
use elton.Middleware.HeaderCodec.{HeaderIndexes}
use elton.Middleware.CacheResponse.{
  CacheResponse, only_status, body_bytes, bytes, new_cache_response, status_hit,
  status_hit_for_pass,
}
use elton.Middleware.Cache.MaxAge.{is_pass_cache_method, is_cacheable}

-- `CacheStore`; a nil slice is the empty text.
pub record Store : Type 1 where
  pub State : Type 0
  pub get : Text → State → Text × Option Err
  pub set : Text → Text → ℤ → State → State × Option Err

-- `CacheCompressor`.
pub record Compressor : Type 0 where
  pub decompress : Text → Err ⊎ Text
  pub encoding : Text
  pub is_valid : Text → ℕ → Bool
  pub compress : Text → Err ⊎ (Text × ℕ)
  pub compression : ℕ

-- `GetBody`.
abbrev decompressed : Err ⊎ Text → Err ⊎ (Option Text × Text)
decompressed (inl e) = inl e
decompressed (inr b) = inr (some b, [])

unfoldable pub get_body : Text → Option Compressor → CacheResponse → Err ⊎ (Option Text × Text)
unfolding contains
get_body accept none cp = inr (cp.body, [])
get_body accept (some z) cp =
    if cp.compression == z.compression
    then (if contains accept z.encoding
        then inr (cp.body, z.encoding)
        else decompressed (z.decompress (body_bytes cp.body)))
    else inr (cp.body, [])

-- `SetBody`.
abbrev with_body : Context → Err ⊎ (Option Text × Text) → Context × Option Err
with_body c (inl e) = (c, some e)
with_body c (inr (b, encoding)) =
    let d = set_header (codes "Content-Encoding") encoding c in (record d { body_buffer = b }, none)

unfoldable pub set_body : Option Compressor → CacheResponse → Context → Context × Option Err
unfolding get_body get_request_header set_header
set_body z cp c =
    if is_empty (body_bytes cp.body)
    then (c, none)
    else with_body c (get_body (get_request_header (codes "Accept-Encoding") c) z cp)

-- The answer from a stored hit.
unfoldable pub answer_hit : Option Compressor → ℕ → CacheResponse → Context → Context × Option Err
unfolding set_body merge_header set_header
answer_hit z now cp c =
    let c1 = set_header (codes "X-Cache") (codes "hit") c in
    let age = (now % 4294967296 + (4294967296 - cp.created_at)) % 4294967296 in
    let c2 = set_header (codes "Age") (itoa age) c1 in
    let c3 = set_header (codes "Cache-Control") [] (record c2 { status_code = cp.status_code }) in
    set_body z cp (merge_header cp.header c3)

-- `cacheDefaultGetKey`.
unfoldable pub default_get_key : Context → Text
default_get_key c = c.request.method ++ (b' ' ∷ c.request.request_uri)

module _ (dict : HeaderIndexes) (store : Store) (get_key : Context → Text)
    (marshal : Body → Err ⊎ Text) (compressor : Option Compressor) (ignore : List Text)
    (hit_for_pass_ttl : ℤ) where
  abbrev pub Outcome : Type 0
  Outcome = store.State × Context × Option Err

  abbrev pub hit_for_pass_bytes : Text
  hit_for_pass_bytes = bytes dict (only_status status_hit_for_pass) []

  abbrev pub stored : Context → store.State × Option Err → Outcome
  stored c (s, e) = (s, c, e)

  abbrev pub beside : store.State → Context × Option Err → Outcome
  beside s (c, e) = (s, c, e)

  -- `getBodyBuffer`.
  abbrev pub body_of : Context → Err ⊎ Text
  body_of c = elim c.body_buffer [ none ↦ marshal c.body | some b ↦ inr b ]

  abbrev pub compressed : Context → Option Compressor → Text → Err ⊎ (Text × ℕ)
  compressed c none b = inr (b, 0)
  compressed c (some z) b =
      if z.is_valid (get_header (codes "Content-Type") c) (length b)
      then z.compress b
      else inr (b, 0)

  abbrev pub after_set : CacheResponse → Context → store.State × Option Err → Outcome
  after_set cp c (s, some e) = (s, c, some e)
  after_set cp c (s, none) = beside s (set_body compressor cp c)

  -- The response as it is stored.
  abbrev pub hit_of : ℕ → Context → Text → ℕ → CacheResponse
  hit_of now c b kind = record {
    status = status_hit;
    created_at = now % 4294967296;
    status_code = c.status_code;
    header = c.response.header;
    compression = kind;
    body = some b;
  }

  -- `time.Duration(cacheAge) * time.Second`; only a positive age comes here.
  abbrev pub seconds : ℤ → ℤ
  seconds (pos n) = wrap64 (n * 1000000000)
  seconds (negsuc n) = negsuc (n * 1000000000 + 999999999)

  abbrev pub keep_hit : ℕ → Text → ℤ → Context → store.State → Err ⊎ (Text × ℕ) → Outcome
  keep_hit now key age c s (inl e) = (s, c, some e)
  keep_hit now key age c s (inr (b, kind)) =
      let cp = hit_of now c b kind in
      after_set cp c (store.set key (bytes dict cp ignore) (seconds age) s)

  abbrev pub keep_body : ℕ → Text → ℤ → Context → store.State → Err ⊎ Text → Outcome
  keep_body now key age c s (inl e) = (s, c, some e)
  keep_body now key age c s (inr b) = keep_hit now key age c s (compressed c compressor b)

  -- From the return of `c.Next()` on, for a request whose key was not found.
  unfoldable pub after_fetch : ℕ → Text → store.State → Context × Option Err → Outcome
  unfolding is_cacheable get_header bytes wrap64 set_body
  after_fetch now key s (c, some e) = (s, c, some e)
  after_fetch now key s (c, none) =
      if (is_cacheable c).0
      then keep_body now key (is_cacheable c).1 c s (body_of c)
      else stored c (store.set key hit_for_pass_bytes hit_for_pass_ttl s)

  abbrev pub by_status :
      (Context → Context × Option Err) → ℕ → Text → Context → store.State → CacheResponse → Outcome
  by_status inner now key c s cp =
      if cp.status == status_hit_for_pass
      then beside s (inner (set_header (codes "X-Cache") (codes "hit-for-pass") c))
      else if cp.status == status_hit
      then beside s (answer_hit compressor now cp c)
      else after_fetch now key s (inner (set_header (codes "X-Cache") (codes "fetch") c))

  abbrev pub found :
      (Context → Context × Option Err)
      → ℕ
      → Text
      → Context
      → store.State
      → Text × Option Err
      → Outcome
  found inner now key c s (content, some e) = (s, c, some e)
  found inner now key c s (content, none) =
      by_status inner now key c s (new_cache_response dict content)

  -- The handler, for a request that is not skipped.
  unfoldable pub cache : (Context → Context × Option Err) → ℕ → Context → store.State → Outcome
  unfolding is_pass_cache_method new_cache_response after_fetch answer_hit set_header
  cache inner now c s =
      if is_pass_cache_method c.request.method
      then beside s (inner c)
      else found inner now (get_key c) c s (store.get (get_key c) s)
