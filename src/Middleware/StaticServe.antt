-- ===== src/Middleware/StaticServe.antt =====
-- middleware/static_serve.go: the handler of `NewEncodingStaticServe`. The file system is what a
-- `StaticFile` answers; the MIME types, the format of times, regular expressions, the sum of a body
-- and the library hes are parameters.
pub mod Inside
pub mod Confined
use elton.Common.{
  ℕ, ◌+◌, Bool, true, false, not, ◌&&◌, ◌||◌, ◌⊎◌, inl, inr, Option, none, some, List, [], ◌∷◌,
  ◌++◌, Text, codes, text_eq, is_empty, cut_prefix, split, join, join_path, any_of, ltb, ◌==◌,
  if◌then◌else◌, is_some,
}
use elton.Context.{Context, Err, hes, reader, set_header, add_header}
use elton.Context.Contents.{FileInfo, seconds, set_content_type_by_ext, no_cache}
use elton.Chain.{Run, done, returned, pass_on}
use elton.Middleware.Skipper.{Skipper, get_skipper}
use elton.Middleware.Conditional.{hex, gen_etag}
use elton.Middleware.Error.{Hes, wrap_as_hes_error}

-- `StaticFile`; a reader yields the bytes of the file.
pub record StaticFile : Type 0 where
  pub exists : Text → Bool
  pub get : Text → Err ⊎ Text
  pub stat : Text → Option FileInfo
  pub new_reader : Text → Err ⊎ Text

-- `StaticServeConfig`; durations are in nanoseconds.
pub record StaticServeConfig : Type 0 where
  pub path : Text
  pub max_age : ℕ
  pub s_max_age : ℕ
  pub immutable : Bool
  pub header : List (Text × Text)
  pub deny_query_string : Bool
  pub deny_dot : Bool
  pub enable_strong_etag : Bool
  pub disable_etag : Bool
  pub disable_last_modified : Bool
  pub not_found_next : Bool
  pub no_cache_match : Option (Text → Bool)
  pub before_response : Option (Text → Text → Err ⊎ Option Text)
  pub index_file : Text
  pub skipper : Option Skipper

abbrev pub get_static_serve_error : Text → ℕ → Err
get_static_serve_error message status = hes (record {
  status_code = status;
  message = message;
  category = codes "elton-static-serve";
  is_exception = false;
})

-- The list of directives, joined; nothing if there is no age.
unfoldable pub cache_control : StaticServeConfig → Text
unfolding seconds
cache_control conf =
    let age = if ltb 0 conf.max_age then codes ", max-age=" ++ seconds conf.max_age else [] in
    let shared =
      if ltb 0 conf.s_max_age then codes ", s-maxage=" ++ seconds conf.s_max_age else [] in
    if is_empty age && is_empty shared
    then []
    else codes "public" ++ age ++ shared ++ (if conf.immutable then codes ", immutable" else [])

abbrev pub first_or_empty : List Text → Text
first_or_empty [] = []
first_or_empty (v ∷ vs) = v

abbrev pub requested : Context → Text
requested c =
    let file = first_or_empty c.params.values in if is_empty file then c.request.path else file

abbrev pub starts_with_dot : Text → Bool
starts_with_dot [] = false
starts_with_dot (c ∷ s) = c == b'.'

abbrev pub base_path : StaticServeConfig → Text
base_path conf = join_path (conf.path ∷ [] ∷ [])

-- The checks on the path and the query: the file, or the error that is returned.
unfoldable pub locate : StaticServeConfig → Context → Err ⊎ Text
unfolding join_path text_eq cut_prefix split
locate conf c =
    let base = base_path conf in
    let file = join_path (conf.path ∷ requested c ∷ []) in
    if not (text_eq file base) && not (is_some (cut_prefix file (base ++ b'/' ∷ [])))
    then inl (get_static_serve_error (codes "out of path") 400)
    else if conf.deny_dot && any_of starts_with_dot (split b'/' file)
    then inl (get_static_serve_error (codes "static server not allow with dot") 400)
    else if conf.deny_query_string && not (is_empty c.request.raw_query)
    then inl (get_static_serve_error (codes "static serve not allow query string") 400)
    else inr file

-- The index file of a directory.
abbrev pub is_directory : Option FileInfo → Bool
is_directory none = false
is_directory (some info) = info.is_dir

unfoldable pub with_index : StaticServeConfig → StaticFile → Text → Text
unfolding join_path
with_index conf fs file =
    if is_empty conf.index_file
    then file
    else if is_directory (fs.stat file)
    then join_path (file ∷ conf.index_file ∷ [])
    else file

module _ (lib : Hes) (sum : Text → Text) (show : Err → Text) (type_by_extension : Text → Text)
    (format_time : ℕ → Text) where
  abbrev weak_tag : FileInfo → Text
  weak_tag info = codes "W/\"" ++ hex info.size ++ b'-' ∷ hex info.mod_time ++ codes "\""

  abbrev tag_of_info : Option FileInfo → Context → Context
  tag_of_info none c = c
  tag_of_info (some info) c = set_header (codes "ETag") (weak_tag info) c

  abbrev date_of_info : Option FileInfo → Context → Context
  date_of_info none c = c
  date_of_info (some info) c = set_header (codes "Last-Modified") (format_time info.mod_time) c

  abbrev tag_of_buffer : Option Text → Context → Context
  tag_of_buffer none c = c
  tag_of_buffer (some b) c = set_header (codes "ETag") (gen_etag sum b) c

  abbrev add_all : List (Text × Text) → Context → Context
  add_all [] c = c
  add_all ((k, v) ∷ header) c = add_all header (add_header k v c)

  abbrev matches : Option (Text → Bool) → Text → Bool
  matches none file = false
  matches (some match_) file = match_ file

  abbrev with_cache_control : StaticServeConfig → Text → Context → Context
  with_cache_control conf file c =
      if is_empty (cache_control conf) || matches conf.no_cache_match file
      then no_cache c
      else set_header (codes "Cache-Control") (cache_control conf) c

  abbrev with_reader : Context → Err ⊎ Text → Run
  with_reader c (inl e) = done c (returned (some (get_static_serve_error (show e) 400)))
  with_reader c (inr content) = pass_on (record c { status_code = 200; body = reader content true })

  abbrev with_content : StaticFile → Text → Option Text → Context → Run
  with_content fs file none c = with_reader c (fs.new_reader file)
  with_content fs file (some b) c = pass_on (record c { status_code = 200; body_buffer = some b })

  -- From the encoding to the end.
  abbrev respond : StaticServeConfig → StaticFile → Text → Text → Context → Option Text → Run
  respond conf fs encoding file c content =
      let d = if is_empty encoding then c else set_header (codes "Content-Encoding") encoding c in
      with_content fs file content (with_cache_control conf file (add_all conf.header d))

  abbrev respond_or_fail :
      StaticServeConfig → StaticFile → Text → Text → Context → Err ⊎ Option Text → Run
  respond_or_fail conf fs encoding file c (inl e) = done c (returned (some e))
  respond_or_fail conf fs encoding file c (inr content) = respond conf fs encoding file c content

  abbrev before : Option (Text → Text → Err ⊎ Option Text) → Text → Option Text → Err ⊎ Option Text
  before none file content = inr content
  before (some f) file none = inr none
  before (some f) file (some b) = f file b

  -- The tag, the date and the hook, for a file that was read whole or not.
  abbrev describe : StaticServeConfig → StaticFile → Text → Text → Context → Option Text → Run
  describe conf fs encoding file c content =
      let weak = not conf.disable_etag && not conf.enable_strong_etag in
      let info = if weak || not conf.disable_last_modified then fs.stat file else none in
      let c1 = if weak then tag_of_info info c else tag_of_buffer content c in
      let c2 = if conf.disable_last_modified then c1 else date_of_info info c1 in
      respond_or_fail conf fs encoding file c2 (before conf.before_response file content)

  abbrev describe_or_fail :
      StaticServeConfig → StaticFile → Text → Text → Context → Err ⊎ Text → Run
  describe_or_fail conf fs encoding file c (inl e) =
      done c (returned (some (hes (wrap_as_hes_error lib e (codes "elton-static-serve")))))
  describe_or_fail conf fs encoding file c (inr b) = describe conf fs encoding file c (some b)

  abbrev serve : StaticServeConfig → StaticFile → Text → Text → Context → Run
  serve conf fs encoding file c =
      if not (fs.exists file)
      then (if conf.not_found_next
          then pass_on c
          else done c
              (returned (some (get_static_serve_error (codes "static file not found") 404))))
      else (let d = set_content_type_by_ext type_by_extension file c in
          if not conf.disable_etag && conf.enable_strong_etag
          then describe_or_fail conf fs encoding file d (fs.get file)
          else describe conf fs encoding file d none)

  abbrev select : StaticServeConfig → Text → Context → Text × Option StaticFile → Run
  select conf file c (encoding, none) =
      done c (returned (some (get_static_serve_error (codes "static fs is nil") 400)))
  select conf file c (encoding, some fs) = serve conf fs encoding (with_index conf fs file) c

  abbrev located :
      StaticServeConfig → (Context → Text × Option StaticFile) → Context → Err ⊎ Text → Run
  located conf selector c (inl e) = done c (returned (some e))
  located conf selector c (inr file) = select conf file c (selector c)

  -- `NewEncodingStaticServe`.
  unfoldable pub encoding_static_serve :
      StaticServeConfig → (Context → Text × Option StaticFile) → Context → Run
  unfolding get_skipper locate with_index cache_control set_header add_header no_cache gen_etag hex
      set_content_type_by_ext wrap_as_hes_error pass_on
  encoding_static_serve conf selector c =
      if get_skipper conf.skipper c then pass_on c else located conf selector c (locate conf c)

  -- `NewStaticServe`.
  unfoldable pub static_serve : StaticFile → StaticServeConfig → Context → Run
  unfolding encoding_static_serve
  static_serve fs conf = encoding_static_serve conf (λ c. ([], some fs))
