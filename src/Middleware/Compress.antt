-- ===== src/Middleware/Compress.antt =====
-- middleware/compress.go, and the choice of the encoding in gzip.go, brotli.go and zstd.go. The
-- codecs are parameters, as are the regular expressions.
pub mod Lossless
use elton.Common.{
  ℕ, Bool, true, false, not, ◌&&◌, ◌||◌, ◌⊎◌, inl, inr, Option, none, some, List, [], ◌∷◌, ◌++◌,
  Text, codes, contains, cut_prefix, is_empty, is_some, ltb, length, if◌then◌else◌, ℤ, ◌==◌, zero,
}
use elton.Http
use elton.Context.{
  Context, Body, nil, Err, get_header, set_header, add_header, get_request_header, is_reader,
}
use elton.Chain.{Run, done, returned, Handler, pass_on, call_next}
use elton.Middleware.Skipper.{Skipper, get_skipper}
use elton.Server.{emit_error}

-- `Compressor`. The size of the body is `none` for a reader, where the source has -1; `pipe` writes
-- to the response and closes the reader.
pub record Compressor : Type 0 where
  pub accept : Context → Option ℕ → Option Text
  pub compress : Text → Option ℤ → Err ⊎ Text
  pub pipe : Context → Context × Option Err

-- `AcceptEncoding`.
unfoldable pub accept_encoding : Text → Context → Option Text
unfolding get_request_header contains
accept_encoding encoding c =
    if contains (get_request_header (codes "Accept-Encoding") c) encoding
    then some encoding
    else none

-- `Accept` of the compressors: `min_length` with its default, and the encoding.
abbrev pub min_or_default : ℕ → ℕ
min_or_default n = if n == 0 then 1024 else n

unfoldable pub accept_by_length : ℕ → Text → Context → Option ℕ → Option Text
unfolding accept_encoding
accept_by_length min_length encoding c none = accept_encoding encoding c
accept_by_length min_length encoding c (some size) =
    if ltb size (min_or_default min_length) then none else accept_encoding encoding c

-- `CompressConfig`; the checker with its default is a function on content types.
pub record CompressConfig : Type 0 where
  pub checker : Text → Bool
  pub compressors : List Compressor
  pub skipper : Option Skipper
  pub dynamic_level : Option (Context → ℕ → Text → ℤ)
  pub on_before_compress : Option (Context → Context × Option Err)

-- `AddCompressor`.
unfoldable pub add_compressor : Compressor → CompressConfig → CompressConfig
add_compressor k conf = record conf { compressors = conf.compressors ++ k ∷ [] }

-- `fillHeader`.
abbrev weaken : Text → Context → Context
weaken etag c =
    if is_empty etag || is_some (cut_prefix etag (codes "W/"))
    then c
    else set_header (codes "ETag") (codes "W/" ++ etag) c

unfoldable pub fill_header : Text → Context → Context
unfolding set_header add_header get_header cut_prefix
fill_header encoding c =
    let c1 = set_header (codes "Content-Encoding") encoding c in
    let c2 = add_header (codes "Vary") (codes "Accept-Encoding") c1 in
    weaken (get_header (codes "ETag") c2) c2

abbrev pub bytes_or_empty : Option Text → Text
bytes_or_empty none = []
bytes_or_empty (some b) = b

module _ (listeners : List (Context → Err → Context)) where
  -- The end of a pipe.
  abbrev piped : Context × Option Err → Context × Option Err
  piped (d, some e) = (d, some e)
  piped (d, none) = (record d { committed = true; body = nil }, none)

  abbrev with_header : Http.Header → Context → Context
  with_header h c = let w = c.response in record c { response = record w { header = h } }

  abbrev without_length : Context → Context
  without_length c = with_header (Http.del (codes "Content-Length") c.response.header) c

  abbrev level_of : Option (Context → ℕ → Text → ℤ) → Context → ℕ → Text → Option ℤ
  level_of none c size encoding = none
  level_of (some f) c size encoding = some (f c size encoding)

  abbrev pub replaced : Context → Text → Err ⊎ Text → Context × Option Err
  replaced c encoding (inl e) = (emit_error listeners e c, none)
  replaced c encoding (inr b) =
      let d = fill_header encoding c in (record d { body_buffer = some b }, none)

  -- The loop over the compressors: the first that accepts is the last. `streams` tells whether the
  -- body is a reader.
  unfoldable pub compress_loop :
      CompressConfig → Bool → List Compressor → Text → Context → Context × Option Err
  unfolding fill_header emit_error Http.del
  compress_loop conf streams [] body c = (c, none)
  compress_loop conf streams (k ∷ ks) body c =
      let later = compress_loop conf streams ks body c in
      let size = if streams then none else some (length body) in
      elim (k.accept c size) [
        | none ↦ later
        | some encoding ↦
            if streams
            then piped (k.pipe (fill_header encoding (without_length c)))
            else replaced c encoding
                (k.compress body (level_of conf.dynamic_level c (length body) encoding))
      ]

  abbrev pub before_compress :
      Option (Context → Context × Option Err) → Context → Context × Option Err
  before_compress none c = (c, none)
  before_compress (some f) c = f c

  abbrev pub after_before : CompressConfig → Bool → Context × Option Err → Context × Option Err
  after_before conf streams (c, some e) = (c, some e)
  after_before conf streams (c, none) =
      compress_loop conf streams conf.compressors (bytes_or_empty c.body_buffer) c

  unfoldable pub compress_after : CompressConfig → Context → Option Err → Context × Option Err
  unfolding compress_loop get_header
  compress_after conf c (some e) = (c, some e)
  compress_after conf c none =
      if not (is_some c.body_buffer) && not (is_reader c.body)
      then (c, none)
      else if not (is_empty (get_header (codes "Content-Encoding") c))
      then (c, none)
      else if not (conf.checker (get_header (codes "Content-Type") c))
      then (c, none)
      else after_before conf (is_reader c.body) (before_compress conf.on_before_compress c)

  abbrev leave : Context × Option Err → Run
  leave (c, e) = done c (returned e)

  -- `NewCompress`, which panics at registration without a compressor.
  unfoldable pub compress_handler : CompressConfig → Handler
  unfolding get_skipper pass_on call_next compress_after
  compress_handler conf c =
      if get_skipper conf.skipper c
      then pass_on c
      else call_next c (λ d e. leave (compress_after conf d e))
