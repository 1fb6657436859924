-- ===== src/Middleware/BodyParser/Handler.antt =====
-- middleware/body_parser.go: the handler of `NewBodyParser`, and the parser with the default decoders.
use elton.Common.{
  ℕ, zero, suc, Bool, not, ◌||◌, ◌⊎◌, inl, inr, Option, none, some, List, [], ◌∷◌, ◌++◌, Text,
  codes, text_eq, keep, if◌then◌else◌, is_some, ℤ, pos, negsuc,
}
use elton.Context.{Context, Err, get_request_header}
use elton.Chain.{Run, done, returned, pass_on}
use elton.Reading.{Read}
use elton.Middleware.Skipper.{Skipper, get_skipper}
use elton.Middleware.BodyParser.{read_all, content_length}
use elton.Middleware.BodyParser.Decoders.{
  Decoder, json_decoder, gzip_decoder, default_json_content_type_validate,
}

-- `BodyParserConfig`; `InitCap` is the capacity of fresh buffers, which is in `space` below.
pub record BodyParserConfig : Type 0 where
  pub limit : ℤ
  pub decoders : List Decoder
  pub skipper : Option Skipper
  pub content_type_validate : Option (Context → Bool)
  pub on_before_decode : Option (Context → Context × Option Err)

-- `AddDecoder`.
unfoldable pub add_decoder : Decoder → BodyParserConfig → BodyParserConfig
add_decoder decoder conf = record conf { decoders = conf.decoders ++ decoder ∷ [] }

unfoldable pub is_body_method : Text → Bool
unfolding text_eq
is_body_method m = text_eq m (codes "POST") || text_eq m (codes "PATCH") || text_eq m (codes "PUT")

abbrev pub limit_or_default : ℤ → ℤ
limit_or_default (pos zero) = pos 51200
limit_or_default (pos (suc n)) = pos (suc n)
limit_or_default (negsuc n) = negsuc n

abbrev pub validate_or_default : Option (Context → Bool) → Context → Bool
validate_or_default none = default_json_content_type_validate
validate_or_default (some validate) = validate

-- The loop over the decoders that match.
abbrev pub decode_rest :
    (Context → Option Text → Context × (Option Text ⊎ Err))
    → Context × (Option Text ⊎ Err)
    → Context × (Option Text ⊎ Err)
decode_rest later (c, inl b) = later c b
decode_rest later (c, inr e) = (c, inr e)

unfoldable pub decode_all : List Decoder → Context → Option Text → Context × (Option Text ⊎ Err)
decode_all [] c b = (c, inl b)
decode_all (d ∷ ds) c b = decode_rest (decode_all ds) (d.decode c b)

abbrev pub decoded : Context × (Option Text ⊎ Err) → Run
decoded (c, inl b) = pass_on (record c { request_body = b })
decoded (c, inr e) = done c (returned (some e))

abbrev pub decode_matching : List Decoder → Option Text → Context → Run
decode_matching [] body c = pass_on c
decode_matching (d ∷ ds) body c = decoded (decode_all (d ∷ ds) c body)

abbrev pub after_before : List Decoder → Option Text → Context × Option Err → Run
after_before ds body (c, some e) = done c (returned (some e))
after_before ds body (c, none) = decode_matching (keep (λ d. d.validate c) ds) body c

abbrev pub with_body : BodyParserConfig → Option Text → Context → Run
with_body conf body c = elim conf.on_before_decode [
  | none ↦ after_before conf.decoders body (c, none)
  | some before ↦ after_before conf.decoders body (before c)
]

abbrev pub after_read : BodyParserConfig → Context → Option Text ⊎ Err → Run
after_read conf c (inr e) = done c (returned (some e))
after_read conf c (inl body) = with_body conf body (record c { request_body = body })

abbrev pub map_run : (Option Text ⊎ Err → Run) → Option (Option Text ⊎ Err) → Option Run
map_run f none = none
map_run f (some r) = some (f r)

-- `source c` is `c.Request.Body`, which is read by `read`; `none` means that the fuel ran out.
module _ (is_hes : Err → Bool) (wrap : Err → Err) {S : Type 0} (read : Read S) (grow space : ℕ → ℕ)
    (source : Context → S) where
  -- `NewBodyParser`.
  unfoldable pub new_body_parser : BodyParserConfig → ℕ → Context → Option Run
  unfolding get_skipper is_body_method read_all content_length get_request_header pass_on decode_all
  new_body_parser conf fuel c =
      let n = content_length (get_request_header (codes "Content-Length") c) in
      if get_skipper conf.skipper c
        || is_some c.request_body
        || not (validate_or_default conf.content_type_validate c)
      then some (pass_on c)
      else if not (is_body_method c.request.method)
      then some (pass_on c)
      else map_run (after_read conf c)
          (read_all is_hes wrap read grow space (limit_or_default conf.limit) n fuel (source c))

-- The configuration of `NewDefaultBodyParser`.
unfoldable pub default_config : (Text → Err ⊎ Text) → BodyParserConfig
unfolding add_decoder default_json_content_type_validate json_decoder gzip_decoder
default_config gunzip = add_decoder json_decoder (
    add_decoder (gzip_decoder gunzip) (record {
      limit = pos 0;
      decoders = [];
      skipper = none;
      content_type_validate = some default_json_content_type_validate;
      on_before_decode = none;
    }))
