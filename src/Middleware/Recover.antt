-- ===== src/Middleware/Recover.antt =====
-- middleware/recover.go: a panic of the handlers within becomes a response. `hes.Wrap` with the
-- category and the status is the parameter `wrap_panic`.
pub mod Contained
use elton.Common.{
  ℕ, Bool, true, false, Option, none, some, List, [], ◌∷◌, Text, codes, contains, if◌then◌else◌,
}
use elton.Context.{Context, Err, plain, HesError, hes, set_header, get_request_header}
use elton.Chain.{Outcome, returned, panicked_err, panicked_value, Run, done, next, Handler}
use elton.Server.{emit_error, clear_headers, checked_write_header, written, answered}
use elton.Middleware.Error.{Hes}

-- What `recover()` yields, as an error; none if there was no panic.
abbrev pub panic_error : Outcome → Option Err
panic_error (returned e) = none
panic_error (panicked_err e) = some e
panic_error (panicked_value v) = some (plain v)

abbrev pub finish_with : Context × Outcome → Run
finish_with (c, o) = done c o

module _ (lib : Hes) (wrap_panic : Err → HesError)
    (listeners : List (Context → Err → Context)) where
  abbrev in_json : Context → Option Text → Context
  in_json c none = c
  in_json c (some b) = set_header (codes "Content-Type") (codes "application/json; charset=utf-8") c

  abbrev json_or_text : HesError → Option Text → Text
  json_or_text he none = lib.show he
  json_or_text he (some b) = b

  -- The JSON form, for a client that accepts it.
  abbrev json_of : HesError → Context → Option Text
  json_of he c =
      if contains (get_request_header (codes "Accept") c) (codes "application/json")
      then lib.to_json he
      else none

  abbrev pub respond : HesError → Context → Context × Outcome
  respond he c =
      let d = clear_headers (emit_error listeners (hes he) c) in
      let committed = record d { committed = true } in
      let json = json_of he committed in
      let e = in_json committed json in
      answered e (written (json_or_text he json) (checked_write_header he.status_code e.response))

  -- The deferred function; behind it the handler returns nil, unless that function panics.
  unfoldable pub recovered : Context → Outcome → Context × Outcome
  unfolding emit_error clear_headers checked_write_header get_request_header contains set_header
  recovered c (returned e) = (c, returned e)
  recovered c (panicked_err e) = respond (wrap_panic e) c
  recovered c (panicked_value v) = respond (wrap_panic (plain v)) c

  -- `NewRecover`.
  abbrev pub recover_handler : Handler
  recover_handler c = next c (λ d o. finish_with (recovered d o))
