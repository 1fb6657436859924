-- ===== src/Examples/Conditionals.antt =====
-- A request that brings the tag of the body.
use elton.Common.{◌≡◌, refl, inr, Option, none, some, [], ◌∷◌, Text, codes, text_eq, arith}
use elton.Http
use elton.Context.{Context, get_header, no_request}
use elton.Chain.Onion.{Layer, onion}
use elton.Fresh.{Seconds}
use elton.Middleware.Conditional.{gen_etag, hex, etag_layer, fresh_layer}
use elton.Middleware.Conditional.Revalidate.{revalidated}
use elton.Examples.Chains.{blank}

abbrev sum : Text → Text
sum s = codes "x="

abbrev no_dates : Text → Option Seconds
no_dates s = none

abbrev returning : Context
returning = record blank {
  request = record no_request {
    method = codes "GET";
    header = (codes "If-None-Match", codes "\"2-x=\"" ∷ []) ∷ [];
  };
}

abbrev greeted : Context
greeted = record returning { status_code = 200; body_buffer = some (codes "hi") }

abbrev greeting : Layer
greeting = record {
  before = λ c. c;
  after = λ c e. (record c { status_code = 200; body_buffer = some (codes "hi") }, e);
}

revalidated_example :
    let r = onion (fresh_layer no_dates ∷ etag_layer sum ∷ greeting ∷ []) returning in
    (r.1 ≡ none)
    × (r.0.status_code ≡ 304)
    × (r.0.body_buffer ≡ none)
    × (get_header (codes "ETag") r.0 ≡ gen_etag sum (codes "hi"))
unfolding gen_etag hex get_header Http.get Http.entry Http.canonical text_eq
revalidated_example =
    revalidated sum no_dates (greeting ∷ []) returning greeted b'h' (codes "i") refl refl refl
      (inr refl) refl refl refl refl refl (ground arith)
