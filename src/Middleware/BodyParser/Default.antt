-- ===== src/Middleware/BodyParser/Default.antt =====
-- What reaches the handlers behind a body parser.
use elton.Common.{
  ℕ, ◌<◌, ◌≡◌, refl, ap, ◌∙◌, Bool, true, false, ◌&&◌, ◌||◌, ◌⊎◌, inl, inr, Option, none, some, [],
  ◌∷◌, Text, codes, text_eq, trim_space, is_empty, leb, ◌==◌, if◌then◌else◌, is_some, length, arith,
  pos,
}
use elton.Context.{Context, Err, get_request_header}
use elton.Chain.{Run, done, returned, pass_on}
use elton.Reading.{Stop, Read, IsReader, error_of}
use elton.Middleware.Skipper.{get_skipper}
use elton.Middleware.BodyParser.{
  too_large_error, as_hes_error, read_result, content_length, init_cap,
}
use elton.Middleware.BodyParser.Limit.{kept, limited_result, read_all_limit}
use elton.Middleware.BodyParser.Decoders.{
  bytes_of, invalid_json, mime_type, last_byte, check_json, json_decoder, gzip_decoder,
}
use elton.Middleware.BodyParser.Handler.{
  BodyParserConfig, is_body_method, limit_or_default, validate_or_default, after_read, decoded,
  decode_rest, new_body_parser, default_config, add_decoder, decode_all,
}

-- The handler parses the request: it is not skipped, no body is parsed yet, and the method and the
-- content type are those of a body.
abbrev pub Parses : BodyParserConfig → Context → Type 0
Parses conf c =
    (get_skipper conf.skipper c ≡ false)
    × (is_some c.request_body ≡ false)
    × (validate_or_default conf.content_type_validate c ≡ true)
    × (is_body_method c.request.method ≡ true)

-- A text in braces or in brackets.
abbrev pub is_enclosed : Text → Bool
is_enclosed [] = false
is_enclosed (c ∷ s) = (c == b'{' && last_byte c s == b'}') || (c == b'[' && last_byte c s == b']')

check_json_lem :
    (s : Text)
    → check_json s
      ≡ (if is_empty s then inl none else if is_enclosed s then inl (some s) else inr invalid_json)
unfolding check_json
check_json_lem [] = refl
check_json_lem (c ∷ s) = ground arith

module _ (is_hes : Err → Bool) (wrap : Err → Err) (grow space : ℕ → ℕ)
    (grows : (c : ℕ) → c < grow c) (offers : (len : ℕ) → 0 < space len) {S : Type 0} (read : Read S)
    (rest : S → Text) (ending : S → Stop) (contract : IsReader read rest ending)
    (source : Context → S) where
  abbrev hint : ℕ → Context → ℕ
  hint limit c =
      init_cap (pos limit) (content_length (get_request_header (codes "Content-Length") c))

  -- The result of the reading, under the limit of the configuration.
  abbrev pub body_result : ℕ → Context → Option Text ⊎ Err
  body_result limit c =
      limited_result is_hes wrap grow space grows offers limit (kept (hint limit c))
        (rest (source c)) (ending (source c))

  new_body_parser_lem :
      (conf : BodyParserConfig) (limit fuel : ℕ) (c : Context)
      → limit_or_default conf.limit ≡ pos limit
      → 0 < limit
      → limit < fuel
      → Parses conf c
      → new_body_parser is_hes wrap read grow space source conf fuel c
        ≡ some (after_read conf c (body_result limit c))
  unfolding new_body_parser
  new_body_parser_lem conf limit fuel c is_limit positive enough (runs, fresh, typed, method) =
      let n = content_length (get_request_header (codes "Content-Length") c) in
      let run =
        read_all_limit is_hes wrap grow space grows offers read rest ending contract limit n fuel
          (source c) positive enough in
      rw (runs, fresh, typed, method, is_limit, run) refl

  -- A body that is larger than the limit of the parser stops the request, whatever the decoders and
  -- the hook before them do: the handler returns the error that the body is too large, and neither
  -- stores a body nor calls `Next`. (The request is one that is parsed, the fuel exceeds the limit,
  -- and the connection keeps the contract of `io.Reader`.)
  pub large_body_rejected :
      (conf : BodyParserConfig) (limit fuel : ℕ) (c : Context)
      → limit_or_default conf.limit ≡ pos limit
      → 0 < limit
      → limit < fuel
      → Parses conf c
      → limit < length (rest (source c))
      → new_body_parser is_hes wrap read grow space source conf fuel c
        ≡ some (done c (returned (some (as_hes_error is_hes wrap (too_large_error limit)))))
  large_body_rejected conf limit fuel c is_limit positive enough parses large =
      let past : leb (length (rest (source c))) limit ≡ false = ground arith in
      new_body_parser_lem conf limit fuel c is_limit positive enough parses
      ∙ ap
          (λ b. some (
            after_read conf c (
              if b
              then read_result is_hes wrap (kept (hint limit c))
                  (rest (source c), error_of (ending (source c)))
              else inr (as_hes_error is_hes wrap (too_large_error limit)))))
          past

  -- What the parser with the decoders for gzip and JSON makes of a body.
  abbrev pub json_run : Context → Option Text ⊎ Err → Run
  json_run c (inr e) = done c (returned (some e))
  json_run c (inl b) =
      let t = trim_space (bytes_of b) in
      if is_empty t
      then pass_on (record c { request_body = none })
      else if is_enclosed t
      then pass_on (record c { request_body = some t })
      else done (record c { request_body = b }) (returned (some invalid_json))

  ended :
      (b : Option Text) (t : Text) (c : Context)
      → decoded (
          decode_rest
            (λ x y. (x, inl y))
            (
              record c { request_body = b },
              if is_empty t
                  then inl none
                  else if is_enclosed t
                  then inl (some t)
                  else inr invalid_json,
            ))
        ≡ (if is_empty t
            then pass_on (record c { request_body = none })
            else if is_enclosed t
            then pass_on (record c { request_body = some t })
            else done (record c { request_body = b }) (returned (some invalid_json)))
  ended b t c = ground arith

  checked_run :
      (gunzip : Text → Err ⊎ Text) (c : Context) (r : Option Text ⊎ Err)
      → text_eq (mime_type c) (codes "application/json") ≡ true
      → text_eq (get_request_header (codes "Content-Encoding") c) (codes "gzip") ≡ false
      → after_read (default_config gunzip) c r ≡ json_run c r
  unfolding default_config add_decoder decode_all json_decoder gzip_decoder mime_type
      get_request_header
  checked_run gunzip c (inr e) json plain = refl
  checked_run gunzip c (inl b) json plain =
      rw (plain, json, check_json_lem) (ended b (trim_space (bytes_of b)) c)

  -- The default parser on a JSON request that is not compressed, of any size: a body over 50 KB is
  -- refused, and a read that fails is an error; otherwise the spaces around the body are dropped,
  -- and the handlers behind it get a nil body if nothing is left, the text if it stands in braces
  -- or brackets, and are not reached, with the error of status 400, for any other text. (The
  -- request is one that is parsed, the fuel exceeds the limit, and the connection keeps the
  -- contract of `io.Reader`.)
  pub default_body_parser_lem :
      (gunzip : Text → Err ⊎ Text) (fuel : ℕ) (c : Context)
      → 51200 < fuel
      → Parses (default_config gunzip) c
      → text_eq (mime_type c) (codes "application/json") ≡ true
      → text_eq (get_request_header (codes "Content-Encoding") c) (codes "gzip") ≡ false
      → new_body_parser is_hes wrap read grow space source (default_config gunzip) fuel c
        ≡ some (json_run c (body_result 51200 c))
  default_body_parser_lem gunzip fuel c enough parses json plain =
      new_body_parser_lem (default_config gunzip) 51200 fuel c
        (unfold default_config add_decoder in refl) (omega arith) enough parses
      ∙ ap some (checked_run gunzip c (body_result 51200 c) json plain)
