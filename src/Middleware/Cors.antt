-- ===== src/Middleware/Cors.antt =====
-- middleware/cors.go.
pub mod Allowed
pub mod Origin
use elton.Common.{
  ℕ, ◌/◌, Bool, true, false, not, ◌||◌, ◌&&◌, Option, none, some, List, [], ◌∷◌, ◌++◌, Text, codes,
  text_eq, is_empty, any_of, ltb, itoa, if◌then◌else◌,
}
use elton.Context.{Context, set_header, add_header, get_request_header, no_content}
use elton.Chain.{Run, done, returned, Handler, pass_on}
use elton.Middleware.Skipper.{Skipper, get_skipper}

-- `CORSConfig`; the duration is in nanoseconds.
pub record CorsConfig : Type 0 where
  pub skipper : Option Skipper
  pub allow_origins : List Text
  pub allow_origin_func : Option (Text → Bool)
  pub allow_methods : List Text
  pub allow_headers : List Text
  pub expose_headers : List Text
  pub max_age : ℕ
  pub allow_credentials : Bool

-- The configuration of `NewDefaultCORS`.
abbrev pub default_cors : CorsConfig
default_cors = record {
  skipper = none;
  allow_origins = codes "*" ∷ [];
  allow_origin_func = none;
  allow_methods = [];
  allow_headers = [];
  expose_headers = [];
  max_age = 0;
  allow_credentials = false;
}

-- `strings.Join` with a comma and a space.
unfoldable pub join_list : List Text → Text
join_list [] = []
join_list (s ∷ []) = s
join_list (s ∷ t ∷ ss) = s ++ codes ", " ++ join_list (t ∷ ss)

abbrev pub methods_or_default : List Text → List Text
methods_or_default [] =
    codes "GET" ∷ codes "HEAD" ∷ codes "PUT" ∷ codes "PATCH" ∷ codes "POST" ∷ codes "DELETE" ∷ []
methods_or_default (m ∷ ms) = m ∷ ms

abbrev pub is_star : Text → Bool
is_star o = text_eq o (codes "*")

-- The configured origins; every one if there is neither a list nor a function.
abbrev pub origins_or_default : CorsConfig → List Text
origins_or_default conf = elim conf.allow_origin_func [
  | some f ↦ conf.allow_origins
  | none ↦ elim conf.allow_origins [ [] ↦ codes "*" ∷ [] | o ∷ os ↦ o ∷ os ]
]

-- `matchOrigin`: the origin to allow, if there is one.
unfoldable pub match_origin : CorsConfig → Text → Option Text
unfolding text_eq
match_origin conf origin = if is_empty origin then none else elim conf.allow_origin_func [
  | some f ↦ if f origin then some origin else none
  | none ↦
      if any_of is_star (origins_or_default conf)
      then (if conf.allow_credentials then some origin else some (codes "*"))
      else if any_of (λ o. text_eq o origin && not (is_star o)) (origins_or_default conf)
      then some origin
      else none
]

abbrev pub set_unless_empty : Text → Text → Context → Context
set_unless_empty key value c = if is_empty value then c else set_header key value c

-- The fields of every response to an allowed origin.
unfoldable pub allow : CorsConfig → Text → Context → Context
unfolding text_eq set_header add_header join_list
allow conf origin c =
    let c1 = set_header (codes "Access-Control-Allow-Origin") origin c in
    let c2 = if is_star origin then c1 else add_header (codes "Vary") (codes "Origin") c1 in
    let c3 =
      if conf.allow_credentials
      then set_header (codes "Access-Control-Allow-Credentials") (codes "true") c2
      else c2 in
    set_unless_empty (codes "Access-Control-Expose-Headers") (join_list conf.expose_headers) c3

abbrev pub is_preflight : Context → Bool
is_preflight c =
    text_eq c.request.method (codes "OPTIONS")
    && not (is_empty (get_request_header (codes "Access-Control-Request-Method") c))

unfoldable pub preflight : CorsConfig → Context → Context
unfolding set_header get_request_header join_list no_content itoa
preflight conf c =
    let c1 =
      set_header (codes "Access-Control-Allow-Methods")
        (join_list (methods_or_default conf.allow_methods)) c in
    let asked = get_request_header (codes "Access-Control-Request-Headers") c1 in
    let listed = join_list conf.allow_headers in
    let c2 =
      set_unless_empty (codes "Access-Control-Allow-Headers")
        (if is_empty listed then asked else listed) c1 in
    let c3 =
      if ltb 0 conf.max_age
      then set_header (codes "Access-Control-Max-Age") (itoa (conf.max_age / 1000000000)) c2
      else c2 in
    no_content c3

abbrev pub answer_origin : CorsConfig → Context → Option Text → Run
answer_origin conf c none = pass_on c
answer_origin conf c (some origin) =
    let d = allow conf origin c in
    if is_preflight d then done (preflight conf d) (returned none) else pass_on d

-- `NewCORS`.
unfoldable pub cors : CorsConfig → Handler
unfolding get_skipper get_request_header match_origin allow preflight pass_on text_eq
cors conf c =
    if get_skipper conf.skipper c
    then pass_on c
    else answer_origin conf c (match_origin conf (get_request_header (codes "Origin") c))
