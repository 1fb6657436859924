-- ===== src/Middleware/Cache/Hit.antt =====
-- A response that was fetched and stored, and the requests that it answers.
use elton.Common.{
  ℕ, ◌≡◌, ◌≢◌, ◌⊎◌, inl, inr, refl, ap, ◌∙◌, true, false, not, Option, none, some, List, [], ◌∷◌,
  ◌++◌, Text, codes, join, Bool-cases, keep, All, if◌then◌else◌, ℤ, arith,
}
use elton.Http
use elton.Http.{Header}
use elton.Http.Laws.{Distinct}
use elton.Context.{Context, Body, Err, set_header}
use elton.Middleware.HeaderCodec.{HeaderIndexes, is_ignored}
use elton.Middleware.HeaderCodec.Dictionary.{IsDictionary}
use elton.Middleware.HeaderCodec.RoundTrip.{IsEncodable}
use elton.Middleware.CacheResponse.{
  CacheResponse, default_ignore_headers, bytes, new_cache_response, status_hit,
}
use elton.Middleware.CacheResponse.RoundTrip.{IsStorable, new_cache_response-bytes}
use elton.Middleware.Cache.{
  Store, answer_hit, hit_of, hit_for_pass_bytes, seconds, after_fetch, cache, beside, body_of,
  after_set, keep_body, by_status, found, stored,
}
use elton.Middleware.Cache.MaxAge.{is_pass_cache_method, is_cacheable, is_cacheable-safe, forbids}
use elton.Middleware.Cache.Answer.{answer_hit-plain}

module _ (dict : HeaderIndexes) (store : Store) (get_key : Context → Text)
    (marshal : Body → Err ⊎ Text) (ignore : List Text) (ttl : ℤ) where
  abbrev run :
      (Context → Context × Option Err)
      → ℕ
      → Context
      → store.State
      → store.State × Context × Option Err
  run = cache dict store get_key marshal none ignore ttl

  -- What the store is given for the response `d` with the body `b`.
  abbrev pub entry_of : ℕ → Context → Text → Text
  entry_of now d b = bytes dict (hit_of dict store get_key marshal none ignore ttl now d b 0) ignore

  body_of-buffer :
      (c : Context) (b : Text)
      → c.body_buffer ≡ some b
      → body_of dict store get_key marshal none ignore ttl c ≡ inr b
  body_of-buffer c b e = rw e refl

  after_fetch-stores :
      (now : ℕ) (key : Text) (d : Context) (s s' : store.State) (b : Text)
      → (is_cacheable d).0 ≡ true
      → d.body_buffer ≡ some b
      → store.set key
          (entry_of now d b)
          (seconds dict store get_key marshal none ignore ttl (is_cacheable d).1)
          s
        ≡ (s', none)
      → (after_fetch dict store get_key marshal none ignore ttl now key s (d, none)).0 ≡ s'
  unfolding after_fetch
  after_fetch-stores now key d s s' b ok buf kept =
      let age = (is_cacheable d).1 in
      let cp = hit_of dict store get_key marshal none ignore ttl now d b 0 in
      let pass =
        stored dict store get_key marshal none ignore ttl d
          (store.set key (hit_for_pass_bytes dict store get_key marshal none ignore ttl) ttl s) in
      let keeps : Err ⊎ Text → store.State × Context × Option Err =
        λ r. keep_body dict store get_key marshal none ignore ttl now key age d s r in
      let got = body_of dict store get_key marshal none ignore ttl d in
      ap (λ t. (if t then keeps got else pass).0) ok
      ∙ ap (λ r. (keeps r).0) (body_of-buffer d b buf)
      ∙ ap (λ r. (after_set dict store get_key marshal none ignore ttl cp d r).0) kept

  fetch-runs :
      (inner : Context → Context × Option Err) (now : ℕ) (c d : Context) (s : store.State)
      → is_pass_cache_method c.request.method ≡ false
      → store.get (get_key c) s ≡ ([], none)
      → inner (set_header (codes "X-Cache") (codes "fetch") c) ≡ (d, none)
      → run inner now c s
        ≡ after_fetch dict store get_key marshal none ignore ttl now (get_key c) s (d, none)
  unfolding cache new_cache_response
  fetch-runs inner now c d s m miss ran =
      let key = get_key c in
      let looked : Text × Option Err → store.State × Context × Option Err =
        λ r. found dict store get_key marshal none ignore ttl inner now key c s r in
      let passed = beside dict store get_key marshal none ignore ttl s (inner c) in
      ap (λ t. if t then passed else looked (store.get key s)) m
      ∙ ap looked miss
      ∙ ap (after_fetch dict store get_key marshal none ignore ttl now key s) ran

  hit-answers :
      (inner : Context → Context × Option Err) (now : ℕ) (c : Context) (s : store.State)
      (kept : Text) (cp : CacheResponse)
      → is_pass_cache_method c.request.method ≡ false
      → store.get (get_key c) s ≡ (kept, none)
      → new_cache_response dict kept ≡ cp
      → cp.status ≡ status_hit
      → run inner now c s
        ≡ beside dict store get_key marshal none ignore ttl s (answer_hit none now cp c)
  unfolding cache
  hit-answers inner now c s kept cp m got read hit =
      let key = get_key c in
      let looked : Text × Option Err → store.State × Context × Option Err =
        λ r. found dict store get_key marshal none ignore ttl inner now key c s r in
      ap
        (λ t.
          if t
          then beside dict store get_key marshal none ignore ttl s (inner c)
          else looked (store.get key s))
        m
      ∙ ap looked got
      ∙ ap (by_status dict store get_key marshal none ignore ttl inner now key c s) read
      ∙ (rw hit refl)

  -- What is fetched is stored, and answers the next request for the key: if the handlers behind
  -- the cache leave a cacheable response with a body and fields that can be encoded, and the store
  -- keeps what it is given and gives it back, then the next request of a method that is cached
  -- gets the same status and body without running a handler, and the store is as it was. The
  -- times are free. (No compressor is configured.)
  pub fetch_then_hit :
      (inner inner' : Context → Context × Option Err) (now later : ℕ) (c c' d : Context)
      (s s' : store.State) (b : Text)
      → is_pass_cache_method c.request.method ≡ false
      → is_pass_cache_method c'.request.method ≡ false
      → get_key c' ≡ get_key c
      → store.get (get_key c) s ≡ ([], none)
      → inner (set_header (codes "X-Cache") (codes "fetch") c) ≡ (d, none)
      → (is_cacheable d).0 ≡ true
      → d.body_buffer ≡ some b
      → b ≢ []
      → store.set
          (get_key c)
          (entry_of now d b)
          (seconds dict store get_key marshal none ignore ttl (is_cacheable d).1)
          s
        ≡ (s', none)
      → store.get (get_key c) s' ≡ (entry_of now d b, none)
      → IsDictionary dict
      → All IsEncodable d.response.header
      → Distinct d.response.header
      → IsStorable dict (hit_of dict store get_key marshal none ignore ttl now d b 0) ignore
      → let r = run inner' later c' (run inner now c s).0 in
        (r.0 ≡ s') × (r.1.status_code ≡ d.status_code) × (r.1.body_buffer ≡ some b) × (r.2 ≡ none)
  fetch_then_hit inner inner' now later c c' d s s' b m m' same miss ran ok buf full kept back dc en
        ds st =
      let cp = hit_of dict store get_key marshal none ignore ttl now d b 0 in
      let kept_fields =
        keep (λ e. not (is_ignored (ignore ++ default_ignore_headers) e.0)) cp.header in
      let cp' = record cp { header = kept_fields; body = some b } in
      let first =
        ap (λ r. r.0) (fetch-runs inner now c d s m miss ran)
        ∙ after_fetch-stores now (get_key c) d s s' b ok buf kept in
      let found' = ap (λ k. store.get k s') same ∙ back in
      let second =
        hit-answers inner' later c' s' (entry_of now d b) cp' m' found'
          (new_cache_response-bytes dict cp ignore dc en ds st) refl in
      let (code, buffer, error) = answer_hit-plain later cp' c' b refl full in
      rw (first, second) (refl, code, buffer, error)

  after_fetch-marks :
      (now : ℕ) (key : Text) (d : Context) (s : store.State)
      → (is_cacheable d).0 ≡ false
      → after_fetch dict store get_key marshal none ignore ttl now key s (d, none)
        ≡ stored dict store get_key marshal none ignore ttl d (store.set key (1 ∷ []) ttl s)
  unfolding after_fetch bytes
  after_fetch-marks now key d s bad =
      let age = (is_cacheable d).1 in
      let got = body_of dict store get_key marshal none ignore ttl d in
      let keeps = keep_body dict store get_key marshal none ignore ttl now key age d s got in
      let marks =
        stored dict store get_key marshal none ignore ttl d
          (store.set key (hit_for_pass_bytes dict store get_key marshal none ignore ttl) ttl s) in
      ap (λ t. if t then keeps else marks) bad

  uncacheable :
      (d : Context)
      → (Http.get (codes "Set-Cookie") d.response.header ≢ [])
        ⊎ (forbids (join b',' (Http.values (codes "Cache-Control") d.response.header)) ≡ true)
      → (is_cacheable d).0 ≡ false
  uncacheable d bad = elim (Bool-cases (is_cacheable d).0) [
    | inl may ↦ absurd (ground (arith, is_cacheable-safe d may))
    | inr not_so ↦ not_so
  ]

  -- For a method that is cached, a key that the store does not hold, and handlers that return no
  -- error: a response that sets a cookie, or whose `Cache-Control` has `no-cache`, `no-store` or
  -- `private` in it, stays as the handlers left it, and the store is given nothing of it, only the
  -- byte 1 for the configured time. The error is the store's. (No compressor is configured.)
  pub private_never_stored :
      (inner : Context → Context × Option Err) (now : ℕ) (c d : Context) (s : store.State)
      → is_pass_cache_method c.request.method ≡ false
      → store.get (get_key c) s ≡ ([], none)
      → inner (set_header (codes "X-Cache") (codes "fetch") c) ≡ (d, none)
      → (Http.get (codes "Set-Cookie") d.response.header ≢ [])
        ⊎ (forbids (join b',' (Http.values (codes "Cache-Control") d.response.header)) ≡ true)
      → let r = run inner now c s in
        let w = store.set (get_key c) (1 ∷ []) ttl s in (r.0 ≡ w.0) × (r.1 ≡ d) × (r.2 ≡ w.1)
  private_never_stored inner now c d s m miss ran bad =
      rw
        (
          fetch-runs inner now c d s m miss ran,
          after_fetch-marks now (get_key c) d s (uncacheable d bad),
        )
        (refl, refl, refl)
