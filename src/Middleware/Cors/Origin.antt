-- ===== src/Middleware/Cors/Origin.antt =====
-- Which origin a response of the CORS middleware allows.
use elton.Common.{
  ◌/◌, ◌≡◌, refl, ap, subst, ◌∙◌, sym, Bool, true, false, ◌⊎◌, inl, inr, Option, none, some, [],
  Text, codes, text_eq, text_eq_refl, is_empty, ltb, itoa, Bool-cases, if◌then◌else◌,
}
use elton.Http.{canonical}
use elton.Context.{
  Context, set_header, add_header, get_header, get_request_header, clean_content, no_content,
}
use elton.Context.Laws.{get_header-set_header, get_header-set_other, get_header-add_other}
use elton.Chain.{done, returned, pass_on}
use elton.Middleware.Skipper.{get_skipper}
use elton.Middleware.Cors.Allowed.{
  IsAllowed, Announces, Verdict, decide, decide-Verdict, match_origin-decide,
}
use elton.Middleware.Cors.{
  CorsConfig, match_origin, is_star, set_unless_empty, allow, is_preflight, preflight,
  answer_origin, cors, join_list, methods_or_default,
}

abbrev pub allowed : Text
allowed = codes "Access-Control-Allow-Origin"

-- The allowed origin of a response, which fields under other keys leave alone.
abbrev pub origin_of : Context → Text
origin_of c = get_header allowed c

abbrev IsOther : Text → Type 0
IsOther k = text_eq (canonical k) (canonical allowed) ≡ false

unless_keeps :
    (k v : Text) (c : Context) → IsOther k → origin_of (set_unless_empty k v c) ≡ origin_of c
unless_keeps k v c other = elim (Bool-cases (is_empty v)) [
  | inl e ↦ rw e refl
  | inr e ↦ rw e (get_header-set_other k allowed v c other)
]

if_keeps :
    (b : Bool) (x y c : Context)
    → origin_of x ≡ origin_of c
    → origin_of y ≡ origin_of c
    → origin_of (if b then x else y) ≡ origin_of c
if_keeps true x y c p q = p
if_keeps false x y c p q = q

allow-origin :
    (conf : CorsConfig) (origin : Text) (c : Context) → origin_of (allow conf origin c) ≡ origin
unfolding allow
allow-origin conf origin c =
    let c1 = set_header allowed origin c in
    let varied = add_header (codes "Vary") (codes "Origin") c1 in
    let c2 = if is_star origin then c1 else varied in
    let trusted = set_header (codes "Access-Control-Allow-Credentials") (codes "true") c2 in
    let c3 = if conf.allow_credentials then trusted else c2 in
    unless_keeps (codes "Access-Control-Expose-Headers") (join_list conf.expose_headers) c3
      (unfold canonical text_eq in refl)
    ∙ if_keeps conf.allow_credentials trusted c2 c2
        (get_header-set_other (codes "Access-Control-Allow-Credentials") allowed (codes "true") c2
          (unfold canonical text_eq in refl))
        refl
    ∙ if_keeps (is_star origin) c1 varied c1 refl (
        get_header-add_other (codes "Vary") allowed (codes "Origin") c1
          (unfold canonical text_eq in refl))
    ∙ get_header-set_header allowed allowed origin c
    ∙ (rw (text_eq_refl (canonical allowed)) refl)

clean-origin : (c : Context) → origin_of (clean_content c) ≡ origin_of c
unfolding clean_content get_header
clean-origin c =
    let c1 = set_header (codes "Content-Type") [] c in
    let c2 = set_header (codes "Content-Length") [] c1 in
    let c3 = set_header (codes "Transfer-Encoding") [] c2 in
    get_header-set_other (codes "Content-Encoding") allowed [] c3 (unfold canonical text_eq in refl)
    ∙ get_header-set_other (codes "Transfer-Encoding") allowed [] c2
        (unfold canonical text_eq in refl)
    ∙ get_header-set_other (codes "Content-Length") allowed [] c1 (unfold canonical text_eq in refl)
    ∙ get_header-set_other (codes "Content-Type") allowed [] c (unfold canonical text_eq in refl)

no_content-origin : (c : Context) → origin_of (no_content c) ≡ origin_of c
unfolding no_content get_header
no_content-origin c = clean-origin c

preflight-origin : (conf : CorsConfig) (c : Context) → origin_of (preflight conf c) ≡ origin_of c
unfolding preflight
preflight-origin conf c =
    let methods = join_list (methods_or_default conf.allow_methods) in
    let c1 = set_header (codes "Access-Control-Allow-Methods") methods c in
    let asked = get_request_header (codes "Access-Control-Request-Headers") c1 in
    let listed = join_list conf.allow_headers in
    let headers = if is_empty listed then asked else listed in
    let c2 = set_unless_empty (codes "Access-Control-Allow-Headers") headers c1 in
    let age = itoa (conf.max_age / 1000000000) in
    let aged = set_header (codes "Access-Control-Max-Age") age c2 in
    no_content-origin (if ltb 0 conf.max_age then aged else c2)
    ∙ if_keeps (ltb 0 conf.max_age) aged c2 c2
        (get_header-set_other (codes "Access-Control-Max-Age") allowed age c2
          (unfold canonical text_eq in refl))
        refl
    ∙ unless_keeps (codes "Access-Control-Allow-Headers") headers c1
        (unfold canonical text_eq in refl)
    ∙ get_header-set_other (codes "Access-Control-Allow-Methods") allowed methods c
        (unfold canonical text_eq in refl)

abbrev asking : Context → Text
asking c = get_request_header (codes "Origin") c

-- A request whose origin is not allowed is passed on unchanged.
abbrev pub Ignores : CorsConfig → Context → Type 0
Ignores conf c = (¬ IsAllowed conf (asking c)) × (cors conf c ≡ pass_on c)

-- A request whose origin is allowed is passed on, or answered as a preflight, and the response
-- announces the origin.
abbrev pub Grants : CorsConfig → Context → Type 0
Grants conf c =
    IsAllowed conf (asking c)
    × ((d : Context) × ((cors conf c ≡ pass_on d)
          ⊎ ((cors conf c ≡ done d (returned none)) × (d.status_code ≡ 204)))
        × Announces conf.allow_origin_func conf.allow_origins conf.allow_credentials (asking c)
            (origin_of d))

granted :
    (conf : CorsConfig) (c : Context) (o : Text)
    → cors conf c ≡ answer_origin conf c (some o)
    → (d : Context) × ((cors conf c ≡ pass_on d)
        ⊎ ((cors conf c ≡ done d (returned none)) × (d.status_code ≡ 204)))
      × (origin_of d ≡ o)
granted conf c o run =
    let d = allow conf o c in
    elim (Bool-cases (is_preflight d)) [
      | inl asks ↦ (
        preflight conf d,
        inr (run ∙ (rw asks refl), unfold preflight no_content in refl),
        preflight-origin conf d ∙ allow-origin conf o c,
      )
      | inr plain ↦ (d, inl (run ∙ (rw plain refl)), allow-origin conf o c)
    ]

conclude :
    (conf : CorsConfig) (c : Context) (r : Option Text)
    → cors conf c ≡ answer_origin conf c r
    → is_empty (asking c) ≡ false
    → Verdict conf.allow_origin_func conf.allow_origins conf.allow_credentials (asking c) r
    → Ignores conf c ⊎ Grants conf c
conclude conf c none run asks refused = inl (λ a. refused a.1, run)
conclude conf c (some o) run asks (admitted, announced) =
    let (d, ran, same) = granted conf c o run in
    let func = conf.allow_origin_func in
    let os = conf.allow_origins in
    inr (
      (asks, admitted),
      (d, ran, subst (Announces func os conf.allow_credentials (asking c)) (sym same) announced),
    )

-- The CORS middleware, for a request that it does not skip. The origin of the request is allowed if
-- it is not empty and the configured function accepts it; without a function, if it is listed, or
-- `*` is, or there is no list. If it is not allowed, the request is passed on unchanged. If it is,
-- the request is passed on, or answered with the status 204 as a preflight, and in both cases the
-- response announces the request's own origin; or `*`, but that only if credentials are off, there
-- is no function, and `*` is listed or there is no list.
pub cors_origin :
    (conf : CorsConfig) (c : Context)
    → get_skipper conf.skipper c ≡ false
    → Ignores conf c ⊎ Grants conf c
cors_origin conf c runs =
    let run : cors conf c ≡ answer_origin conf c (match_origin conf (asking c)) =
      unfold cors in rw runs refl in
    elim (Bool-cases (is_empty (asking c))) [
      | inl silent ↦
          let nothing : match_origin conf (asking c) ≡ none =
            unfold match_origin in rw silent refl in
          inl (λ a. cc (sym silent ∙ a.0), run ∙ ap (answer_origin conf c) nothing)
      | inr asks ↦
          conclude conf c
            (decide conf.allow_origin_func conf.allow_origins conf.allow_credentials (asking c))
            (run ∙ ap (answer_origin conf c) (match_origin-decide conf (asking c) asks)) asks
            (decide-Verdict conf.allow_origin_func conf.allow_origins conf.allow_credentials
              (asking c))
    ]
