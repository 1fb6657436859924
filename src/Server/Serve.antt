-- ===== src/Server/Serve.antt =====
-- elton.go: `ServeHTTP`.
use elton.Common.{
  ℕ, ◌≡◌, ◌≢◌, Bool, true, false, ◌||◌, Option, none, some, List, [], ◌∷◌, ◌++◌, Text, codes,
  is_empty, ◌==◌, if◌then◌else◌, arith,
}
use elton.Http
use elton.Http.{Writer}
use elton.Context.{Context, Request, Err, HesError}
use elton.Chain.{Outcome, returned}
use elton.EdgeWriter.{EdgeWriter, Op, acquire, apply_all, mark_handled, flush, header_or_new}
use elton.Server.{Elton, Status, running, closing, closed, Route, Pooled, serve_route}

-- The answer of `ServeMux`: the handler of a route with the values of its wildcards, or what the
-- mux writes by itself.
pub data MuxAnswer : Type 0 where
  matched : Route → (Text → Text) → MuxAnswer
  own : List Op → MuxAnswer

abbrev pub is_running : Status → Bool
is_running running = true
is_running _ = false

abbrev status_text : Status → Text
status_text running = codes "0"
status_text closing = codes "1"
status_text closed = codes "2"

unfoldable pub unavailable : Status → Writer → Writer
unavailable s w =
    Http.write (codes "service is not available, status is " ++ status_text s)
      (Http.write_header 503 w)

abbrev pub run_pre : List (Request → Request) → Request → Request
run_pre [] req = req
run_pre (h ∷ hs) req = run_pre hs (h req)

-- `notFound` and `methodNotAllowed`.
abbrev answer_or : Option (Writer → Request → Writer) → ℕ → Text → Writer → Request → Writer
answer_or (some f) code message w req = f w req
answer_or none code message w req = Http.write message (Http.write_header code w)

unfoldable pub not_found : Elton → Writer → Request → Writer
not_found e = answer_or e.not_found_handler 404 (codes "Not Found")

unfoldable pub method_not_allowed : Elton → Writer → Request → Writer
method_not_allowed e = answer_or e.method_not_allowed_handler 405 (codes "Method Not Allowed")

abbrev pub with_allow : Text → Writer → Writer
with_allow allow w =
    if is_empty allow then w else record w { header = Http.set (codes "Allow") allow w.header }

-- What `ServeHTTP` does with an answer of the mux itself.
unfoldable pub settle : Elton → Request → Writer → EdgeWriter → Writer
unfolding not_found method_not_allowed
settle e req w ew =
    if ew.status == 405
    then method_not_allowed e (with_allow (Http.get (codes "Allow") (header_or_new ew.hdr)) w) req
    else if ew.status == 404 || ew.status == 0
    then not_found e w req
    else (flush ew).inner

abbrev pub response_of : Option (Context × Outcome) → Option (Writer × Outcome)
response_of none = none
response_of (some (c, o)) = some (c.response, o)

module _ (hes_text : HesError → Text) (text_of : Err → Text)
    (mux : List Route → Request → MuxAnswer) where
  abbrev pub serve_answer :
      ℕ → Elton → Request → Writer → EdgeWriter → Pooled → MuxAnswer → Option (Writer × Outcome)
  serve_answer fuel e req w ew pooled (matched r path_value) =
      response_of
        (serve_route hes_text text_of fuel e r path_value req (mark_handled ew).inner pooled)
  serve_answer fuel e req w ew pooled (own ops) =
      some (settle e req w (apply_all ops ew), returned none)

  -- `ServeHTTP`, with the writer and the context that the pools return.
  unfoldable pub serve_http :
      ℕ → Elton → Request → Writer → EdgeWriter → Pooled → Option (Writer × Outcome)
  unfolding unavailable settle
  serve_http fuel e req w spare pooled =
      if is_running e.status
      then (let req' = run_pre e.pre_middlewares req in
          serve_answer fuel e req' w (acquire spare w) pooled (mux e.routes req'))
      else some (unavailable e.status w, returned none)

  -- An instance that is closing or closed answers 503 to everything and runs no handler.
  pub serve_http-unavailable :
      (fuel : ℕ) (e : Elton) (req : Request) (w : Writer) (spare : EdgeWriter) (pooled : Pooled)
      → e.status ≢ running
      → w.sent ≡ none
      → (b : Text) × (serve_http fuel e req w spare pooled
          ≡ some (record w { sent = some (503, w.header); body = w.body ++ b }, returned none))
  unfolding serve_http unavailable Http.write Http.write_header
  serve_http-unavailable fuel e req w spare pooled ne unsent =
      (codes "service is not available, status is " ++ status_text e.status, ground arith)
