-- ===== src/Context/Contents.antt =====
-- context.go: path and query parameters, the fields that control caches, and files. The table of
-- MIME types, the file system and the library's format of times are parameters.
use elton.Common.{
  ℕ, ◌/◌, Bool, true, false, ◌⊎◌, inl, inr, Option, none, some, List, [], ◌∷◌, ◌++◌, Text, codes,
  text_eq, is_empty, itoa, extension, if◌then◌else◌,
}
use elton.RouteParams
use elton.Context.{Context, Err, hes, reader, get_header, set_header}

-- The value under a name: `PathValue` of the request, or an entry of the query.
unfoldable pub path_value : Text → List (Text × Text) → Text
path_value name [] = []
path_value name ((k, v) ∷ m) = if text_eq k name then v else path_value name m

-- `Param`; `none` is the panic of `Get` on fewer values than keys. `Params` is never nil in the model.
unfoldable pub param : Text → Context → Option Text
unfolding path_value RouteParams.get
param name c =
    let v = path_value name c.request.path_values in
    if is_empty v then RouteParams.get name c.params else some v

abbrev first_or_empty : List Text → Text
first_or_empty [] = []
first_or_empty (v ∷ vs) = v

unfoldable pub query_values : Text → List (Text × List Text) → List Text
query_values name [] = []
query_values name ((k, vs) ∷ m) = if text_eq k name then vs else query_values name m

-- `getCacheQuery`: the query, which is parsed by the first call.
unfoldable pub get_cache_query : Context → List (Text × List Text) × Context
get_cache_query c = elim c.cache_query [
  | some q ↦ (q, c)
  | none ↦ let q = c.request.query in (q, record c { cache_query = some q })
]

-- `QueryParam`.
unfoldable pub query_param : Text → Context → Text × Context
unfolding query_values get_cache_query
query_param name c = let (q, d) = get_cache_query c in (first_or_empty (query_values name q), d)

-- `Query`; a key without values, which no parsed query has, panics: `none`.
abbrev with_first : Text → List Text → Option (List (Text × Text)) → Option (List (Text × Text))
with_first k [] rest = none
with_first k (v ∷ vs) none = none
with_first k (v ∷ vs) (some m) = some ((k, v) ∷ m)

unfoldable pub first_values : List (Text × List Text) → Option (List (Text × Text))
first_values [] = some []
first_values ((k, vs) ∷ q) = with_first k vs (first_values q)

unfoldable pub query : Context → Option (List (Text × Text)) × Context
unfolding first_values get_cache_query
query c = let (q, d) = get_cache_query c in (first_values q, d)

-- `NoCache`, `NoStore`, `CacheMaxAge`, `PrivateCacheMaxAge`. A duration is in nanoseconds, and not
-- negative.
unfoldable pub no_cache : Context → Context
unfolding set_header
no_cache c = set_header (codes "Cache-Control") (codes "no-cache") c

unfoldable pub no_store : Context → Context
unfolding set_header
no_store c = set_header (codes "Cache-Control") (codes "no-store") c

unfoldable pub seconds : ℕ → Text
unfolding itoa
seconds d = itoa (d / 1000000000)

abbrev shared_age : List ℕ → Text
shared_age [] = []
shared_age (d ∷ ds) = codes ", s-maxage=" ++ seconds d

unfoldable pub cache_max_age : ℕ → List ℕ → Context → Context
unfolding set_header seconds
cache_max_age age shared c =
    set_header (codes "Cache-Control")
      (codes "public, max-age=" ++ seconds age ++ shared_age shared) c

unfoldable pub private_cache_max_age : ℕ → Context → Context
unfolding set_header seconds
private_cache_max_age age c =
    set_header (codes "Cache-Control") (codes "private, max-age=" ++ seconds age) c

-- What the file system tells of a file.
pub record FileInfo : Type 0 where
  pub is_dir : Bool
  pub size : ℕ
  pub mod_time : ℕ

-- An error of the file system, and whether it says that the file does not exist.
abbrev pub FileError : Type 0
FileError = Err × Bool

abbrev pub file_not_found : Err
file_not_found = hes (record {
  status_code = 404;
  message = codes "file not found";
  category = codes "elton";
  is_exception = false;
})

module _ (type_by_extension : Text → Text) where
  -- `SetContentTypeByExt`.
  abbrev pub set_type : Text → Context → Context
  set_type content_type c =
      if is_empty content_type then c else set_header (codes "Content-Type") content_type c

  unfoldable pub set_content_type_by_ext : Text → Context → Context
  unfolding set_header extension
  set_content_type_by_ext file c = set_type (type_by_extension (extension file)) c

  -- `HTML`.
  unfoldable pub html : Text → Context → Context
  unfolding set_content_type_by_ext
  html s c = let d = set_content_type_by_ext (codes ".html") c in record d { body_buffer = some s }

  -- `SendFile`; `open_file` yields the bytes of the file.
  module _ (stat : Text → FileError ⊎ FileInfo) (open_file : Text → Err ⊎ Text)
      (format_time : ℕ → Text) where
    abbrev with_info : FileInfo → Context → Context
    with_info info c =
        let d = set_header (codes "Content-Length") (itoa info.size) c in
        if is_empty (get_header (codes "Last-Modified") d)
        then set_header (codes "Last-Modified") (format_time info.mod_time) d
        else d

    abbrev opened : Text → Context → Err ⊎ Text → Context × Option Err
    opened file c (inl e) = (c, some e)
    opened file c (inr content) =
        let d = set_content_type_by_ext file c in (record d { body = reader content true }, none)

    abbrev sent : Text → Context → FileError ⊎ FileInfo → Context × Option Err
    sent file c (inl (e, missing)) = (c, some (if missing then file_not_found else e))
    sent file c (inr info) = opened file (with_info info c) (open_file file)

    unfoldable pub send_file : Text → Context → Context × Option Err
    unfolding set_header get_header itoa set_content_type_by_ext
    send_file file c = sent file c (stat file)
