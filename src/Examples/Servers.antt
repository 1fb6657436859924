-- ===== src/Examples/Servers.antt =====
-- The instance at concrete requests.
use elton.Common.{
  ℕ, ◌+◌, ◌≡◌, ◌⊎◌, refl, inl, inr, true, false, none, some, List, [], ◌∷◌, Text, codes, text_eq,
  length, itoa, if◌then◌else◌, arith,
}
use elton.Http
use elton.Http.{Header, Writer, new_writer, canonical}
use elton.Context.{
  Context, reader, Err, as_hes, hes, plain, HesError, Request, no_request, get_header,
}
use elton.Chain.{returned, start, handlers, pass_on}
use elton.EdgeWriter.{EdgeWriter, Op, change, head, body, direct_all}
use elton.EdgeWriter.Laws.{bodies}
use elton.Server.{
  Elton, running, closing, closed, Route, Pooled, new_without_server, finish, bad_code,
}
use elton.Server.Finish.{closable, finish_closes}
use elton.Server.Writes.{Sends, is_error_field}
use elton.Server.Answer.{error_response, error_crashes, buffer_response}
use elton.Server.Serve.{MuxAnswer, own, serve_http}
use elton.Server.Mux.{own_answer, serve_http-own, serve_http-redirect}
use elton.Server.Isolation.{serve_http-isolated}
use elton.Server.Closing.{closing_rejects}
use elton.Server.Lifecycle.{
  Call, can_go_on, Life, fresh, begin_close, end_close, pass_time, Step, begins, stay, next, Told,
  status-Told,
}
use elton.Server.Shutdown.{Finishes, none_more, one_more, closes_at_last}
use elton.Examples.Chains.{blank}

abbrev hes_text : HesError → Text
hes_text he = he.message

abbrev text_of : Err → Text
text_of (plain s) = s
text_of _ = []

abbrev base : Elton
base = record {
  error_handler = none;
  not_found_handler = none;
  method_not_allowed_handler = none;
  generate_id = none;
  status = running;
  routes = [];
  middlewares = [];
  pre_middlewares = [];
  error_listeners = [];
  done_listeners = [];
  before_listeners = [];
}

base_test : new_without_server ≡ base
unfolding new_without_server
base_test = refl

abbrev piped : Context
piped = record blank { body = reader (codes "hello") true }

finish_closes_example : (finish hes_text text_of base none piped).0.closes ≡ 0 + closable piped.body
finish_closes_example = finish_closes hes_text text_of base none piped refl refl refl (inl refl)

abbrev teapot : HesError
teapot = record { status_code = 418; message = codes "teapot"; category = []; is_exception = false }

error_response_example :
    let r = finish hes_text text_of base (some (hes teapot)) blank in
    (r.1 ≡ returned none)
    × ((h : Header) × Sends 418 h (codes "teapot") r.0.response
        × ((k : Text) → Http.get k h ≡ (if is_error_field k then [] else get_header k blank)))
unfolding as_hes
error_response_example =
    error_response hes_text text_of base (hes teapot) blank refl refl refl refl (omega arith)
      (omega arith)

abbrev unset : HesError
unset = record { status_code = 0; message = codes "x"; category = []; is_exception = false }

error_crashes_example :
    let r = finish hes_text text_of base (some (hes unset)) blank in
    (r.1 ≡ bad_code) × (r.0.response.sent ≡ none) × (r.0.response.body ≡ [])
error_crashes_example =
    error_crashes hes_text text_of base (hes unset) unset blank refl refl refl refl
      (unfold as_hes in refl) (inl (omega arith))

abbrev filled : Context
filled = record blank { status_code = 201; body_buffer = some (codes "ok") }

buffer_response_example :
    let r = finish hes_text text_of base none filled in
    (r.1 ≡ returned none)
    × ((h : Header) × Sends 201 h (codes "ok") r.0.response
        × ((k : Text)
            → Http.get k h ≡ (
                if text_eq (canonical (codes "Content-Length")) (canonical k)
                then itoa (length (codes "ok"))
                else get_header k filled)))
buffer_response_example =
    buffer_response hes_text text_of base filled (codes "ok") refl refl (inr (omega arith, refl))
      refl

abbrev spare : EdgeWriter
spare = record {
  inner = new_writer;
  hdr = none;
  status = 404;
  handled = true;
  header_wrote = true;
  buf = codes "old";
}

abbrev clean : EdgeWriter
clean = record {
  inner = new_writer;
  hdr = none;
  status = 0;
  handled = false;
  header_wrote = false;
  buf = [];
}

-- A context that was not used before, and one that an earlier request left in a composed handler.
abbrev idle : Pooled
idle = record { context = blank; cursor = start [] }

abbrev busy : Pooled
busy = record {
  context = record piped { cache_query = some ((codes "old", codes "1" ∷ []) ∷ []) };
  cursor = record { frames = handlers (pass_on ∷ []) ∷ []; base = handlers (pass_on ∷ []) };
}

abbrev closing_base : Elton
closing_base = record base { status = closing }

-- A mux without routes answers 404, and one that redirects.
abbrev miss : List Op
miss = head 404 ∷ body (codes "404 page not found") ∷ []

abbrev empty_mux : List Route → Request → MuxAnswer
empty_mux rs req = own miss

abbrev location : Header
location = (codes "Location", codes "/a/" ∷ []) ∷ []

abbrev redirecting : List Route → Request → MuxAnswer
redirecting rs req = own (change (λ _. location) ∷ head 301 ∷ bodies (codes "moved" ∷ []))

serve_http-own_example :
    serve_http hes_text text_of empty_mux 1 base no_request new_writer spare idle
    ≡ some (own_answer base no_request new_writer spare miss, returned none)
serve_http-own_example =
    serve_http-own hes_text text_of empty_mux 1 base no_request new_writer spare idle miss refl refl

serve_http-redirect_example :
    serve_http hes_text text_of redirecting 1 base no_request new_writer spare idle
    ≡ some (
      direct_all (change (λ _. location) ∷ head 301 ∷ bodies (codes "moved" ∷ [])) new_writer,
      returned none,
    )
serve_http-redirect_example =
    serve_http-redirect hes_text text_of redirecting 1 base no_request spare idle location 301
      (codes "moved" ∷ []) refl refl (λ e. omega arith) (λ e. omega arith) (λ e. omega arith) refl
      (tt, tt)

abbrev one_call : ℕ → Call
one_call elapsed = record { delay = 5; elapsed = elapsed; cancelled = false }

abbrev one_closer : Life
one_closer = record { status = closing; waiting = one_call 0 ∷ []; shut = 0 }

abbrev all_closed : Life
all_closed = record { status = closed; waiting = []; shut = 1 }

begun : Step fresh one_closer
begun = unfold fresh begin_close in begins (record { status = running; waiting = []; shut = 0 }) 5

status-Told_run : Told one_closer
status-Told_run = status-Told one_closer (next fresh fresh one_closer (stay fresh) begun)

closes_at_last_example :
    (1 + length all_closed.waiting ≡ length one_closer.waiting)
    × (all_closed.shut ≡ one_closer.shut + 1)
    × (((all_closed.waiting ≡ []) × (all_closed.status ≡ closed))
        ⊎ ((k : Life) × Finishes 1 all_closed k))
closes_at_last_example =
    closes_at_last one_closer all_closed 5 1 (next fresh fresh one_closer (stay fresh) begun)
      (λ e. ground arith) (omega arith, tt)
      (unfold pass_time end_close can_go_on in one_more [] [] (one_call 5) refl refl none_more)

serve_http-isolated_example :
    serve_http hes_text text_of empty_mux 1 base no_request new_writer spare busy
    ≡ serve_http hes_text text_of empty_mux 1 base no_request new_writer clean idle
serve_http-isolated_example =
    serve_http-isolated hes_text text_of empty_mux 1 base no_request new_writer spare clean busy
      idle

closing_rejects_example :
    (b : Text) × (serve_http hes_text text_of empty_mux 1 closing_base no_request new_writer spare
        idle
      ≡ some (record new_writer { sent = some (503, []); body = b }, returned none))
closing_rejects_example =
    closing_rejects hes_text text_of empty_mux 1 closing_base no_request new_writer spare idle fresh
      one_closer one_closer begun (stay one_closer) refl refl
