-- ===== src/Server.antt =====
-- elton.go: the instance, the registration of routes, and the handling of a request.
-- `http.ServeMux` is a function from the registered routes and a request to its answer. A write
-- that the server refuses has no error event here; tracing is switched off.
pub mod Writes
pub mod Answer
pub mod Finish
pub mod Serve
pub mod Lifecycle
pub mod Mux
pub mod Isolation
pub mod Closing
pub mod Shutdown
use elton.Common.{
  ℕ, ◌+◌, Bool, true, false, not, ◌&&◌, ◌||◌, Option, none, some, List, [], ◌∷◌, ◌++◌, Text, codes,
  is_empty, ltb, leb, ◌==◌, if◌then◌else◌, length, itoa, get_elem?,
}
use elton.Http
use elton.Http.{Header, Writer}
use elton.RouteParams
use elton.Context.{
  Context, Request, Body, Err, HesError, as_hes, reset, set_header, close_reader_body, is_reader,
  pipe,
}
use elton.Chain.{
  Handler, Outcome, returned, panicked_err, panicked_value, Cursor, exec, pass_on, reset_cursor,
  set_handlers,
}
use elton.Route.{normalize_route_path, extract_param_names}

pub data Status : Type 0 where
  running closing closed : Status

-- A route as `Handle` registers it: the pattern's method and path, the names of its wildcards, and
-- the chain, which is fixed here.
pub record Route : Type 0 where
  pub method : Text
  pub path : Text
  pub param_names : List Text
  pub chain : List Handler

-- What the pool of contexts hands out: the fields of the context, and those that its last chain left
-- behind, `Next` included.
pub record Pooled : Type 0 where
  pub context : Context
  pub cursor : Cursor

-- The fields of `Elton` that its methods use. A nil function is `none`; `generate_id` sees the
-- request in place of the outside world.
pub record Elton : Type 0 where
  pub error_handler : Option (Context → Err → Context)
  pub not_found_handler : Option (Writer → Request → Writer)
  pub method_not_allowed_handler : Option (Writer → Request → Writer)
  pub generate_id : Option (Request → Text)
  pub status : Status
  pub routes : List Route
  pub middlewares : List Handler
  pub pre_middlewares : List (Request → Request)
  pub error_listeners : List (Context → Err → Context)
  pub done_listeners : List (Context → Context)
  pub before_listeners : List (Context → Context)

-- `NewWithoutServer`.
unfoldable pub new_without_server : Elton
new_without_server = record {
  error_handler = none;
  not_found_handler = none;
  method_not_allowed_handler = none;
  generate_id = none;
  status = running;
  routes = [];
  middlewares = [];
  pre_middlewares = [];
  error_listeners = [];
  done_listeners = [];
  before_listeners = [];
}

-- `Use`, `Pre`, `OnError`, `OnDone`, `OnBefore`.
unfoldable pub use_middleware : List Handler → Elton → Elton
use_middleware hs e = record e { middlewares = e.middlewares ++ hs }

unfoldable pub pre : List (Request → Request) → Elton → Elton
pre hs e = record e { pre_middlewares = e.pre_middlewares ++ hs }

unfoldable pub on_error : (Context → Err → Context) → Elton → Elton
on_error ln e = record e { error_listeners = e.error_listeners ++ ln ∷ [] }

unfoldable pub on_done : (Context → Context) → Elton → Elton
on_done ln e = record e { done_listeners = e.done_listeners ++ ln ∷ [] }

unfoldable pub on_before : (Context → Context) → Elton → Elton
on_before ln e = record e { before_listeners = e.before_listeners ++ ln ∷ [] }

-- What `Handle` registers: the global middleware of this moment in front of the handlers.
abbrev pub route_of : Text → Text → List Handler → Elton → Route
route_of method path hs e =
    let path' = normalize_route_path path in
    record {
      method = method;
      path = path';
      param_names = extract_param_names path';
      chain = e.middlewares ++ hs;
    }

-- `Handle`. `accepts` tells whether the mux takes a pattern next to those that it has; it panics on
-- one that is invalid or in conflict, which is `none`.
unfoldable pub handle :
    (List Route → Route → Bool) → Text → Text → List Handler → Elton → Option Elton
handle accepts method path hs e =
    let r = route_of method path hs e in
    if accepts e.routes r then some (record e { routes = e.routes ++ r ∷ [] }) else none

-- `Multi`, and `ALL` with the methods of const.go.
unfoldable pub multi :
    (List Route → Route → Bool) → List Text → Text → List Handler → Elton → Option Elton
unfolding handle
multi accepts [] path hs e = some e
multi accepts (m ∷ ms) path hs e = elim (handle accepts m path hs e) [
  | none ↦ none
  | some f ↦ multi accepts ms path hs f
]

abbrev pub methods : List Text
methods =
    codes "GET"
    ∷ codes "POST"
    ∷ codes "PUT"
    ∷ codes "PATCH"
    ∷ codes "DELETE"
    ∷ codes "HEAD"
    ∷ codes "OPTIONS"
    ∷ codes "TRACE"
    ∷ []

unfoldable pub all : (List Route → Route → Bool) → Text → List Handler → Elton → Option Elton
all accepts path hs e = multi accepts methods path hs e

-- `EmitError` and the other loops over listeners.
unfoldable pub emit_error : List (Context → Err → Context) → Err → Context → Context
emit_error [] err c = c
emit_error (ln ∷ lns) err c = emit_error lns err (ln c err)

unfoldable pub emit : List (Context → Context) → Context → Context
emit [] c = c
emit (ln ∷ lns) c = emit lns (ln c)

-- `WriteHeader` of the server's writer ignores a second status, and panics on a first one outside
-- 100 to 999: `none`.
unfoldable pub checked_write_header : ℕ → Writer → Option Writer
checked_write_header code w = elim w.sent [
  | some s ↦ some w
  | none ↦ if ltb code 100 || ltb 999 code then none else some (Http.write_header code w)
]

abbrev pub bad_code : Outcome
bad_code = panicked_value (codes "invalid WriteHeader code")

-- The response of `c` after a write that may panic, and how the handler goes on.
abbrev pub answered : Context → Option Writer → Context × Outcome
answered c none = (c, bad_code)
answered c (some w) = (record c { response = w }, returned none)

-- The fields that an error response does not keep.
unfoldable pub clear_headers : Context → Context
unfolding set_header
clear_headers c =
    let c1 = set_header (codes "ETag") [] c in
    let c2 = set_header (codes "Last-Modified") [] c1 in
    let c3 = set_header (codes "Content-Encoding") [] c2 in
    set_header (codes "Content-Length") [] c3

abbrev pub written : Text → Option Writer → Option Writer
written b none = none
written b (some w) = some (Http.write b w)

-- `hes.Error.Error` and `error.Error` are the parameters `hes_text` and `text_of`.
module _ (hes_text : HesError → Text) (text_of : Err → Text) where
  abbrev pub error_status : Option HesError → ℕ
  error_status none = 500
  error_status (some he) = he.status_code

  abbrev pub error_message : Option HesError → Err → Text
  error_message none err = text_of err
  error_message (some he) err = hes_text he

  -- `error`.
  unfoldable pub error : Option (Context → Err → Context) → Err → Context → Context × Outcome
  unfolding clear_headers
  error custom err c =
      let d = clear_headers c in
      elim custom [
        | some f ↦ (f d err, returned none)
        | none ↦ answered d (
            written (error_message (as_hes err) err)
              (checked_write_header (error_status (as_hes err)) d.response))
      ]

  -- The status line, if a status was set.
  abbrev pub status_line : ℕ → Writer → Option Writer
  status_line code w = if code == 0 then some w else checked_write_header code w

  -- What the route handler does behind the chain when nothing failed: the buffer, a reader, or
  -- nothing goes out.
  abbrev send_buffer : Text → Context → Context × Outcome
  send_buffer b c =
      let d = set_header (codes "Content-Length") (itoa (length b)) (close_reader_body c) in
      answered d (written b (status_line d.status_code d.response))

  abbrev pub pipe_after : Context × Outcome → Context × Outcome
  pipe_after (c, returned e) = (if is_reader c.body then pipe c else c, returned e)
  pipe_after (c, o) = (c, o)

  unfoldable pub send : Option Text → Context → Context × Outcome
  unfolding set_header
  send (some b) c = send_buffer b c
  send none c = pipe_after (answered c (status_line c.status_code c.response))

  -- From the return of `c.Next()` to the end of the route handler.
  unfoldable pub finish : Elton → Option Err → Context → Context × Outcome
  unfolding error send emit_error
  finish e none c =
      if c.committed then (c, returned none) else send c.body_buffer (record c { committed = true })
  finish e (some err) c =
      let d = emit_error e.error_listeners err c in
      if d.committed
      then (d, returned none)
      else error e.error_handler err (close_reader_body (record d { committed = true }))

  abbrev after_chain : Elton → Context → Outcome → Context × Outcome
  after_chain e c (returned err) = finish e err c
  after_chain e c o = (c, o)

  abbrev done_after : Elton → Context × Outcome → Context × Outcome
  done_after e (c, o) = (emit e.done_listeners c, o)

  abbrev pub id_of : Option (Request → Text) → Request → Text
  id_of none req = []
  id_of (some f) req = f req

  -- The context that enters the chain of a route.
  unfoldable pub prepare : Elton → Route → (Text → Text) → Request → Writer → Context → Context
  prepare e r path_value req w pooled =
      let c = reset pooled in
      let d = emit e.before_listeners (record c {
        request = req;
        response = w;
        id = id_of e.generate_id req;
        params = RouteParams.fill r.param_names path_value c.params;
      }) in
      record d { route = r.path }

  -- The function that `Handle` registers; `none` means that the chain ran out of fuel. The done
  -- listeners are deferred, so they run after a panic too.
  unfoldable pub serve_route :
      ℕ → Elton → Route → (Text → Text) → Request → Writer → Pooled → Option (Context × Outcome)
  unfolding finish prepare emit exec reset_cursor pass_on
  serve_route fuel e r path_value req w pooled =
      let k = set_handlers r.chain (reset_cursor pooled.cursor) in
      elim (exec fuel k (pass_on (prepare e r path_value req w pooled.context))) [
        | none ↦ none
        | some (c, o, k) ↦ some (done_after e (after_chain e c o))
      ]
