-- ===== src/Middleware/BodyParser/Decoders.antt =====
-- middleware/body_parser.go: the decoders. What gzip, `url.ParseQuery` and `json.Marshal` do, and
-- the wrapping of an error, are parameters.
use elton.Common.{
  ℕ, Bool, true, false, not, ◌&&◌, ◌⊎◌, inl, inr, Option, none, some, List, [], ◌∷◌, Text, codes,
  text_eq, cut_byte, cut_prefix, trim_space, ◌==◌, if◌then◌else◌, is_some,
}
use elton.Context.{Context, Err, hes, get_request_header, set_request_header}

-- `BodyDecoder`. A body is `none` if it is nil.
pub record Decoder : Type 0 where
  pub validate : Context → Bool
  pub decode : Context → Option Text → Context × (Option Text ⊎ Err)

abbrev pub bytes_of : Option Text → Text
bytes_of none = []
bytes_of (some b) = b

abbrev pub invalid_json : Err
invalid_json = hes (record {
  status_code = 400;
  message = codes "invalid json format";
  category = codes "elton-body-parser";
  is_exception = false;
})

-- The part of the content type before a semicolon.
abbrev before_cut : Text → Option (Text × Text) → Text
before_cut s none = s
before_cut s (some (before, after)) = before

unfoldable pub mime_type : Context → Text
unfolding cut_byte get_request_header
mime_type c =
    let ct = get_request_header (codes "Content-Type") c in before_cut ct (cut_byte b';' ct)

abbrev pub last_byte : ℕ → Text → ℕ
last_byte c [] = c
last_byte c (d ∷ s) = last_byte d s

-- The tests of `jsonDecoder.Decode` on the text without the spaces around it.
unfoldable pub check_json : Text → Option Text ⊎ Err
check_json [] = inl none
check_json (c ∷ s) =
    let last = last_byte c s in
    if not (c == b'{') && not (c == b'[')
    then inr invalid_json
    else if c == b'{' && not (last == b'}')
    then inr invalid_json
    else if c == b'[' && not (last == b']')
    then inr invalid_json
    else inl (some (c ∷ s))

unfoldable pub json_decoder : Decoder
unfolding mime_type check_json trim_space text_eq
json_decoder = record {
  validate = λ c. text_eq (mime_type c) (codes "application/json");
  decode = λ c b. (c, check_json (trim_space (bytes_of b)));
}

module _ (gunzip : Text → Err ⊎ Text) where
  abbrev unzipped : Err ⊎ Text → Option Text ⊎ Err
  unzipped (inl e) = inr e
  unzipped (inr b) = inl (some b)

  unfoldable pub gzip_decoder : Decoder
  unfolding get_request_header set_request_header text_eq
  gzip_decoder = record {
    validate = λ c. text_eq (get_request_header (codes "Content-Encoding") c) (codes "gzip");
    decode = λ c b. (
      set_request_header (codes "Content-Length") []
          (set_request_header (codes "Content-Encoding") [] c),
      unzipped (gunzip (bytes_of b)),
    );
  }

-- A value of the map that the form decoder marshals.
pub data FormValue : Type 0 where
  single : Text → FormValue
  several : List Text → FormValue

abbrev pub form_value : List Text → FormValue
form_value [] = single []
form_value (v ∷ []) = single v
form_value (v ∷ w ∷ vs) = several (v ∷ w ∷ vs)

abbrev pub form_values : List (Text × List Text) → List (Text × FormValue)
form_values [] = []
form_values ((key, vs) ∷ m) = (key, form_value vs) ∷ form_values m

module _ (parse_query : Text → Err ⊎ List (Text × List Text))
    (marshal : List (Text × FormValue) → Err ⊎ Text) (wrap : Err → Err) where
  abbrev marshalled : Err ⊎ Text → Option Text ⊎ Err
  marshalled (inl e) = inr (wrap e)
  marshalled (inr b) = inl (some b)

  abbrev pub form_result : Err ⊎ List (Text × List Text) → Option Text ⊎ Err
  form_result (inl e) = inr (wrap e)
  form_result (inr m) = marshalled (marshal (form_values m))

  unfoldable pub form_url_encoded_decoder : Decoder
  unfolding mime_type text_eq
  form_url_encoded_decoder = record {
    validate = λ c. text_eq (mime_type c) (codes "application/x-www-form-urlencoded");
    decode = λ c b. (c, form_result (parse_query (bytes_of b)));
  }

-- The content types that are parsed by default, and those with forms.
unfoldable pub default_json_content_type_validate : Context → Bool
unfolding get_request_header cut_prefix
default_json_content_type_validate c =
    is_some (cut_prefix (get_request_header (codes "Content-Type") c) (codes "application/json"))

unfoldable pub default_json_and_form_content_type_validate : Context → Bool
unfolding get_request_header cut_prefix
default_json_and_form_content_type_validate c =
    let ct = get_request_header (codes "Content-Type") c in
    if is_some (cut_prefix ct (codes "application/json"))
    then true
    else is_some (cut_prefix ct (codes "application/x-www-form-urlencoded"))
