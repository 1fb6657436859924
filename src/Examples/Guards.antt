-- ===== src/Examples/Guards.antt =====
-- Recovery, CORS and the lock key at concrete requests.
use elton.Common.{
  ◌⊎◌, ◌≡◌, refl, true, false, Bool, none, some, [], ◌∷◌, Text, codes, Option, arith, map, Lacks,
  All,
}
use elton.Context.{Context, Err, HesError, Request}
use elton.Chain.{Handler, done, returned, panicked_value, Outcome, run_chain, Cursor, end}
use elton.Middleware.Recover.{recover_handler}
use elton.Middleware.Recover.Contained.{Contained, recover_contains}
use elton.Middleware.Cors.{CorsConfig, default_cors}
use elton.Middleware.Cors.Origin.{Ignores, Grants, cors_origin}
use elton.Middleware.ConcurrentLimiter.{ConcurrentLimiterConfig, key_info, lock_key}
use elton.Middleware.ConcurrentLimiter.Keys.{Values, no_keys, one_key, lock_key-values}
use elton.Examples.Chains.{blank}
use elton.Examples.Answers.{library}

abbrev boom : Handler
boom c = done c (panicked_value (codes "boom"))

abbrev wrap_panic : Err → HesError
wrap_panic e = record {
  status_code = 500;
  message = codes "boom";
  category = codes "elton-recover";
  is_exception = true;
}

recover_contains_example :
    (r : Context × Option Err) × (run_chain 2
        (recover_handler library wrap_panic [] ∷ boom ∷ [])
        blank
      ≡ some (r.0, returned r.1, record { frames = []; base = end }))
    × Contained blank (panicked_value (codes "boom")) r
unfolding elton.Chain.pick elton.Chain.handlers
recover_contains_example =
    recover_contains library wrap_panic [] (λ e. refl) 1 (boom ∷ []) blank blank
      (panicked_value (codes "boom")) (record { frames = []; base = end }) refl
      (unfold run_chain in refl)

abbrev preflight_request : Request
preflight_request = record {
  method = codes "OPTIONS";
  request_uri = codes "/";
  header =
      (codes "Origin", codes "a" ∷ [])
      ∷ (codes "Access-Control-Request-Method", codes "PUT" ∷ [])
      ∷ [];
  remote_addr = [];
  path_values = [];
  path = codes "/";
  raw_query = [];
  query = (codes "id", codes "7" ∷ []) ∷ [];
}

abbrev asking : Context
asking = record blank { request = preflight_request }

abbrev with_credentials : CorsConfig
with_credentials = record default_cors { allow_credentials = true }

cors_origin_example : Ignores with_credentials asking ⊎ Grants with_credentials asking
unfolding elton.Middleware.Skipper.get_skipper
cors_origin_example = cors_origin with_credentials asking refl

abbrev by_id : ConcurrentLimiterConfig
by_id = record {
  key_generator = none;
  keys = codes "q:id" ∷ codes "h:Origin" ∷ [];
  body_value = none;
  skipper = none;
  not_allow_empty = true;
}

abbrev no_intranet : Text → Bool
no_intranet ip = false

abbrev same_host : Text → Text
same_host s = s

-- The request once its query is parsed.
abbrev asked : Context
asked = record asking { cache_query = some asking.request.query }

seven :
    Values no_intranet same_host none (map key_info by_id.keys) asking (codes "7" ∷ codes "a" ∷ [])
unfolding key_info elton.Middleware.ConcurrentLimiter.key_value elton.Http.get elton.Http.entry
    elton.Http.canonical
seven = one_key refl (one_key refl no_keys)

plain_values : All (Lacks b',') (codes "7" ∷ codes "a" ∷ [])
plain_values = (((λ e. ground arith), tt), (((λ e. ground arith), tt), tt))

lock_key-values_example : (codes "7" ∷ codes "a" ∷ []) ≡ (codes "7" ∷ codes "a" ∷ [])
unfolding elton.Http.get elton.Http.entry elton.Http.canonical
lock_key-values_example =
    lock_key-values no_intranet same_host by_id asking asking asked asked _ _ (codes "7,a") refl
      (λ e. cc) seven seven plain_values plain_values (unfold lock_key in refl)
      (unfold lock_key in refl)
