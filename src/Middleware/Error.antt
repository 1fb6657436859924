-- ===== src/Middleware/Error.antt =====
-- middleware/error.go, for requests that are not skipped, and `wrapAsHesError` of
-- middleware/helper.go. What the library `hes` does is a parameter: the wrapping of another error,
-- the status with its fallback, the JSON form (none if it cannot be made) and the text of an error.
use elton.Common.{◌||◌, Option, none, some, Text, codes, contains, text_eq, ℕ, if◌then◌else◌}
use elton.Context.{Context, Err, HesError, as_hes, get_request_header, set_header}
use elton.Chain.Onion.{Layer}

pub record Hes : Type 0 where
  pub wrap : Err → Text → HesError
  pub status_or_internal : HesError → ℕ
  pub to_json : HesError → Option Text
  pub show : HesError → Text

module _ (lib : Hes) where
  abbrev hes_or_wrapped : Option HesError → Err → Text → HesError
  hes_or_wrapped none err category = lib.wrap err category
  hes_or_wrapped (some he) err category = he

  unfoldable pub wrap_as_hes_error : Err → Text → HesError
  unfolding as_hes
  wrap_as_hes_error err category = hes_or_wrapped (as_hes err) err category

  abbrev pub answer_text : HesError → Context → Context
  answer_text he c =
      set_header (codes "Content-Type") (codes "text/plain; charset=utf-8")
        (record c { body_buffer = some (lib.show he) })

  abbrev pub answer_json : HesError → Option Text → Context → Context
  answer_json he none c = answer_text he c
  answer_json he (some buf) c =
      set_header (codes "Content-Type") (codes "application/json; charset=utf-8")
        (record c { body_buffer = some buf })

  abbrev pub answer_error : Text → HesError → Context → Context
  answer_error response_type he c =
      let d = record c { status_code = lib.status_or_internal he } in
      if text_eq response_type (codes "json")
        || contains (get_request_header (codes "Accept") d) (codes "application/json")
      then answer_json he (lib.to_json he) d
      else answer_text he d

  unfoldable pub error_after : Text → Context → Option Err → Context × Option Err
  unfolding wrap_as_hes_error set_header text_eq contains get_request_header
  error_after response_type c none = (c, none)
  error_after response_type c (some err) =
      (answer_error response_type (wrap_as_hes_error err (codes "elton-error")) c, none)

  -- `NewError`.
  abbrev pub error_layer : Text → Layer
  error_layer response_type = record { before = λ c. c; after = error_after response_type }
