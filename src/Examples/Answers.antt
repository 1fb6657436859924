-- ===== src/Examples/Answers.antt =====
-- The error and the responder middleware at a handler that fails.
use elton.Common.{
  ℕ, ◌≡◌, ◌≢◌, ◌⊎◌, inl, refl, true, none, some, [], ◌∷◌, Text, codes, ◌==◌, if◌then◌else◌, arith,
}
use elton.Context.{Context, Err, plain}
use elton.Chain.{done, returned, Handler, start, run_chain}
use elton.Chain.Onion.{layer}
use elton.Middleware.Error.{Hes, error_layer}
use elton.Middleware.Responder.{responder_layer}
use elton.Middleware.Answered.{IsAnswer, every_request_answered}
use elton.Examples.Chains.{blank}

abbrev or_internal : ℕ → ℕ
or_internal code = if code == 0 then 500 else code

abbrev pub library : Hes
library = record {
  wrap = λ e category. record {
    status_code = 500;
    message = [];
    category = category;
    is_exception = true;
  };
  status_or_internal = λ he. or_internal he.status_code;
  to_json = λ he. none;
  show = λ he. he.message;
}

or_internal-positive : (code : ℕ) → or_internal code ≢ 0
or_internal-positive code = ground arith

-- A handler that does not call `Next`.
abbrev failing : Handler
failing c = done c (returned (some (plain (codes "no"))))

abbrev marshal : ℕ → Err ⊎ Text
marshal n = inl (plain (codes "no"))

abbrev wrap : Err → Err
wrap e = e

every_request_answered_example :
    (r : Context) × (run_chain 3
        (layer (error_layer library [])
          ∷ layer (responder_layer marshal wrap (codes "text/html"))
          ∷ failing
          ∷ [])
        blank
      ≡ some (r, returned none, start []))
    × IsAnswer r
every_request_answered_example =
    every_request_answered library marshal wrap (codes "text/html") [] 1 (failing ∷ []) blank blank
      (some (plain (codes "no"))) (start []) refl (λ he. or_internal-positive he.status_code)
      (unfold run_chain elton.Chain.exec elton.Chain.pass_on elton.Chain.pick
          elton.Chain.handlers in
        refl)
