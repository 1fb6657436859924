-- ===== src/Context.antt =====
-- context.go: the request context, its reset for reuse, and the operations on the response.
-- A method with a pointer receiver returns the new context.
pub mod Address
pub mod Contents
pub mod Cookies
pub mod CookieLaws
pub mod AddressLaws
pub mod Laws
use elton.Common.{
  ℕ, ◌+◌, Bool, true, false, not, ◌||◌, Option, none, some, List, [], ◌∷◌, ◌++◌, Text, codes,
  text_eq, is_empty, ltb, if◌then◌else◌,
}
use elton.Http
use elton.Http.{Header, Writer, new_writer}
use elton.RouteParams
use elton.RouteParams.{RouteParams}

-- The fields of `hes.Error` that the framework reads or sets.
pub record HesError : Type 0 where
  pub status_code : ℕ
  pub message : Text
  pub category : Text
  pub is_exception : Bool

-- A Go error with its chain: an error of the library `hes`, an error of another type, or one that
-- wraps another.
pub data Err : Type 0 where
  hes : HesError → Err
  plain : Text → Err
  wrapped : Text → Err → Err

-- `errors.As(err, &he)` for `*hes.Error`.
unfoldable pub as_hes : Err → Option HesError
as_hes (hes he) = some he
as_hes (plain _) = none
as_hes (wrapped _ e) = as_hes e

-- The dynamic types of `Context.Body` that the framework tells apart. A reader has the bytes that
-- it yields, and whether it is a `Closer`.
pub data Body : Type 0 where
  nil : Body
  text binary : Text → Body
  reader : Text → Bool → Body
  other : ℕ → Body

-- A value of the context's store: a string, or a value of another type.
pub data Value : Type 0 where
  str : Text → Value
  opaque : ℕ → Value

pub record Request : Type 0 where
  pub method : Text
  pub request_uri : Text
  pub header : Header
  pub remote_addr : Text
  pub path_values : List (Text × Text)
  pub path : Text
  pub raw_query : Text
  pub query : List (Text × List Text)

-- `closes` counts the calls of `Close` on reader bodies.
pub record Context : Type 0 where
  pub request : Request
  pub response : Writer
  pub committed : Bool
  pub id : Text
  pub route : Text
  pub params : RouteParams
  pub status_code : ℕ
  pub body : Body
  pub body_buffer : Option Text
  pub request_body : Option Text
  pub store : List (Text × Value)
  pub real_ip : Text
  pub client_ip : Text
  pub reuse_disabled : Bool
  pub cache_query : Option (List (Text × List Text))
  pub closes : ℕ

abbrev pub no_request : Request
no_request = record {
  method = [];
  request_uri = [];
  header = [];
  remote_addr = [];
  path_values = [];
  path = [];
  raw_query = [];
  query = [];
}

-- `Reset`, on the fields that the model has. The pointers that it clears are set by its one caller
-- at once, so the model has an empty request and writer for them; the fields of the chain, with
-- `Next`, are the cursor of `Chain.reset_cursor`, and those of the trace are not used. A request
-- begins without a call of `Close`.
unfoldable pub reset : Context → Context
unfolding RouteParams.reset
reset c = record c {
  request = no_request;
  response = new_writer;
  committed = false;
  id = [];
  route = [];
  params = RouteParams.reset c.params;
  status_code = 0;
  body = nil;
  body_buffer = none;
  request_body = none;
  store = [];
  real_ip = [];
  client_ip = [];
  reuse_disabled = false;
  cache_query = none;
  closes = 0;
}

-- `GetRequestHeader`, `SetRequestHeader`, `AddRequestHeader`.
unfoldable pub get_request_header : Text → Context → Text
get_request_header key c = Http.get key c.request.header

abbrev with_request_header : Header → Context → Context
with_request_header h c = let r = c.request in record c { request = record r { header = h } }

unfoldable pub set_request_header : Text → Text → Context → Context
set_request_header key value c =
    if is_empty value
    then with_request_header (Http.del key c.request.header) c
    else with_request_header (Http.set key value c.request.header) c

unfoldable pub add_request_header : Text → Text → Context → Context
add_request_header key value c = with_request_header (Http.add key value c.request.header) c

abbrev with_header : Header → Context → Context
with_header h c = let w = c.response in record c { response = record w { header = h } }

-- `GetHeader`, `SetHeader`, `AddHeader`, `MergeHeader`, `ResetHeader`.
unfoldable pub get_header : Text → Context → Text
get_header key c = Http.get key c.response.header

unfoldable pub set_header : Text → Text → Context → Context
set_header key value c =
    if is_empty value
    then with_header (Http.del key c.response.header) c
    else with_header (Http.set key value c.response.header) c

unfoldable pub add_header : Text → Text → Context → Context
add_header key value c = with_header (Http.add key value c.response.header) c

unfoldable pub add_each : Text → List Text → Context → Context
add_each key [] c = c
add_each key (v ∷ vs) c = add_each key vs (add_header key v c)

unfoldable pub merge_header : Header → Context → Context
merge_header [] c = c
merge_header ((key, vs) ∷ h) c = merge_header h (add_each key vs c)

unfoldable pub reset_header : Context → Context
reset_header c = with_header [] c

-- `Write` and `WriteHeader` of the context itself: they fill the buffer.
unfoldable pub write : Text → Context → Context
write b c = elim c.body_buffer [
  | none ↦ record c { body_buffer = some b }
  | some old ↦ record c { body_buffer = some (old ++ b) }
]

unfoldable pub write_header : ℕ → Context → Context
write_header code c = record c { status_code = code }

-- `cleanContent`, `NoContent`, `NotModified`, `Created`.
unfoldable pub clean_content : Context → Context
unfolding set_header
clean_content c =
    let c1 = set_header (codes "Content-Type") [] c in
    let c2 = set_header (codes "Content-Length") [] c1 in
    let c3 = set_header (codes "Transfer-Encoding") [] c2 in
    let c4 = set_header (codes "Content-Encoding") [] c3 in
    record c4 { body = nil; body_buffer = none }

unfoldable pub no_content : Context → Context
no_content c = let d = clean_content c in record d { status_code = 204 }

unfoldable pub not_modified : Context → Context
not_modified c = let d = clean_content c in record d { status_code = 304 }

unfoldable pub created : Body → Context → Context
created b c = record c { status_code = 201; body = b }

abbrev pub invalid_redirect : Err
invalid_redirect = hes (record {
  status_code = 400;
  message = codes "invalid redirect";
  category = codes "elton";
  is_exception = false;
})

-- `Redirect`; the last argument stands for `http.Redirect`, which writes the response.
unfoldable pub redirect :
    (Writer → Request → Text → ℕ → Writer) → ℕ → Text → Context → Context × Option Err
redirect http_redirect code url c =
    if ltb code 300 || ltb 308 code then (c, some invalid_redirect) else (
      record c {
        status_code = code;
        committed = true;
        body = nil;
        body_buffer = none;
        response = http_redirect c.response c.request url code;
      },
      none,
    )

-- `Set`, `Get` and `GetContextValue[string]`.
unfoldable pub store_put : Text → Value → List (Text × Value) → List (Text × Value)
store_put k v [] = (k, v) ∷ []
store_put k v ((j, w) ∷ m) = if text_eq j k then (k, v) ∷ m else (j, w) ∷ store_put k v m

unfoldable pub store_find : Text → List (Text × Value) → Option Value
store_find k [] = none
store_find k ((j, w) ∷ m) = if text_eq j k then some w else store_find k m

unfoldable pub set : Text → Value → Context → Context
set k v c = record c { store = store_put k v c.store }

unfoldable pub get : Text → Context → Option Value
get k c = store_find k c.store

abbrev string_or_empty : Option Value → Text
string_or_empty none = []
string_or_empty (some (opaque _)) = []
string_or_empty (some (str s)) = s

unfoldable pub get_context_string : Text → Context → Text
unfolding get
get_context_string k c = string_or_empty (get k c)

-- `IsReaderBody` and `closeReaderBody`.
abbrev pub is_reader : Body → Bool
is_reader (reader _ _) = true
is_reader _ = false

abbrev pub close_body : Body → Context → Context
close_body (reader s true) c = record c { body = nil; closes = c.closes + 1 }
close_body _ c = c

unfoldable pub close_reader_body : Context → Context
close_reader_body c = close_body c.body c

-- `Pipe` of the reader `b`: `io.Copy` to the response, and `Close`.
abbrev pub pipe_body : Body → Context → Context
pipe_body (reader s closer) c = record c {
  committed = true;
  response = Http.write s c.response;
  closes = if closer then c.closes + 1 else c.closes;
}
pipe_body _ c = c

unfoldable pub pipe : Context → Context
pipe c = pipe_body c.body c

unfoldable pub disable_reuse : Context → Context
disable_reuse c = record c { reuse_disabled = true }
