-- ===== src/Examples/Cached.antt =====
-- The cache at a response that is fetched and then answered from the store.
use elton.Common.{
  ◌≡◌, ◌⊎◌, inr, refl, true, false, Option, none, some, List, [], ◌∷◌, Text, codes, text_eq,
  text_eq_refl, if◌then◌else◌, length, to_lower, join, contains, ℤ, pos, arith,
}
use elton.Http
use elton.Http.{Header, is_token, canonical}
use elton.Context.{Context, Body, Err, no_request, get_header, is_reader}
use elton.Middleware.HeaderCodec.{encode_headers, get_index}
use elton.Middleware.HeaderCodec.RoundTrip.{IsEncodable}
use elton.Middleware.CacheResponse.{stored_headers}
use elton.Middleware.CacheResponse.RoundTrip.{IsStorable}
use elton.Middleware.Cache.{Store, cache, default_get_key, hit_of}
use elton.Middleware.Cache.MaxAge.{is_pass_cache_method, is_cacheable, is_cacheable-safe, forbids}
use elton.Middleware.Cache.Hit.{entry_of, fetch_then_hit, private_never_stored}
use elton.Examples.Chains.{blank}
use elton.Examples.Stored.{dict, dict-IsDictionary}

abbrev lookup : Text → List (Text × Text) → Text
lookup k [] = []
lookup k ((j, v) ∷ s) = if text_eq j k then v else lookup k s

abbrev memory : Store
memory = record {
  State = List (Text × Text);
  get = λ k s. (lookup k s, none);
  set = λ k v ttl s. ((k, v) ∷ s, none);
}

abbrev marshal : Body → Err ⊎ Text
marshal b = inr []

abbrev asking : Context
asking = record blank {
  request = record no_request { method = codes "GET"; request_uri = codes "/" };
}

abbrev max_age : Header
max_age = (codes "Cache-Control", codes "max-age=10" ∷ []) ∷ []

abbrev cached : Context
cached = record asking {
  status_code = 200;
  body_buffer = some (codes "hello");
  response = record { header = max_age; sent = none; body = [] };
}

abbrev answering : Context → Context × Option Err
answering c = (cached, none)

abbrev idle : Context → Context × Option Err
idle c = (c, none)

abbrev five_minutes : ℤ
five_minutes = pos 300000000000

get_is_cached : is_pass_cache_method asking.request.method ≡ false
unfolding is_pass_cache_method
get_is_cached = refl

cached-cacheable : (is_cacheable cached).0 ≡ true
unfolding is_cacheable Http.entry text_eq canonical
cached-cacheable = refl

max_age-IsEncodable : IsEncodable (codes "Cache-Control", codes "max-age=10" ∷ [])
unfolding is_token canonical
max_age-IsEncodable = record {
  named = cc;
  token = refl;
  canon = refl;
  some_value = cc;
  not_blank = cc;
  no_feed = omega arith;
  no_zero = omega arith;
}

entry_size :
    length (
      stored_headers dict
        (hit_of dict memory default_get_key marshal none [] five_minutes 1000 cached
          (codes "hello")
          0)
        [])
    ≡ 25
unfolding encode_headers get_index to_lower join text_eq
entry_size = refl

entry-IsStorable :
    IsStorable dict
      (hit_of dict memory default_get_key marshal none [] five_minutes 1000 cached
        (codes "hello")
        0)
      []
entry-IsStorable = record {
  hit = refl;
  time = omega arith;
  code = omega arith;
  size = omega (arith, entry_size);
}

abbrev filled : List (Text × Text)
filled =
    (
      default_get_key asking,
      entry_of dict memory default_get_key marshal [] five_minutes 1000 cached (codes "hello"),
    )
    ∷ []

stored_back : (k v : Text) (s : List (Text × Text)) → memory.get k ((k, v) ∷ s) ≡ (v, none)
stored_back k v s = rw (text_eq_refl k) refl

fetch_then_hit_example :
    let run = cache dict memory default_get_key marshal none [] five_minutes in
    let r = run idle 1005 asking (run answering 1000 asking []).0 in
    (r.0 ≡ filled)
    × (r.1.status_code ≡ 200)
    × (r.1.body_buffer ≡ some (codes "hello"))
    × (r.2 ≡ none)
fetch_then_hit_example =
    fetch_then_hit dict memory default_get_key marshal [] five_minutes answering idle 1000 1005
      asking asking cached [] filled (codes "hello") get_is_cached get_is_cached refl refl refl
      cached-cacheable refl (λ e. ground arith) refl
      (stored_back (default_get_key asking)
        (entry_of dict memory default_get_key marshal [] five_minutes 1000 cached (codes "hello"))
        [])
      dict-IsDictionary (max_age-IsEncodable, tt) (tt, tt) entry-IsStorable

abbrev private : Context
private = record asking {
  response = record {
    header = (codes "Cache-Control", codes "private, max-age=10" ∷ []) ∷ [];
    sent = none;
    body = [];
  };
}

abbrev answering_privately : Context → Context × Option Err
answering_privately c = (private, none)

private-forbids :
    forbids (join b',' (Http.values (codes "Cache-Control") private.response.header)) ≡ true
unfolding contains join Http.values Http.entry text_eq canonical
private-forbids = refl

private_never_stored_example :
    let r =
      cache dict memory default_get_key marshal none [] five_minutes answering_privately 1000 asking
        [] in
    (r.0 ≡ (default_get_key asking, 1 ∷ []) ∷ []) × (r.1 ≡ private) × (r.2 ≡ none)
private_never_stored_example =
    private_never_stored dict memory default_get_key marshal [] five_minutes answering_privately
      1000 asking private [] get_is_cached refl refl (inr private-forbids)

is_cacheable-safe_test :
    (is_reader cached.body ≡ false)
    × (get_header (codes "Content-Encoding") cached ≡ [])
    × (Http.get (codes "Set-Cookie") cached.response.header ≡ [])
    × (forbids (join b',' (Http.values (codes "Cache-Control") cached.response.header)) ≡ false)
is_cacheable-safe_test = is_cacheable-safe cached cached-cacheable
