-- ===== src/Examples/Bodies.antt =====
-- The body parser at concrete requests.
use elton.Common.{
  ℕ, zero, suc, ◌+◌, ◌<◌, ◌≤◌, ◌≡◌, refl, sym, Bool, true, false, ◌⊎◌, inl, inr, Option, none, some,
  List, [], ◌∷◌, ◌++◌, Text, codes, take, drop, take-drop, length-take, leb, ltb, if◌then◌else◌,
  length, Bool-cases, arith, ℤ, pos,
}
use elton.Context.{Context, Err, plain, hes, Request}
use elton.Chain.{done, returned, pass_on}
use elton.Reading.{Stop, eof, Read, IsReader, read_all_init_cap, read_all_to_buffer}
use elton.Reading.Whole.{read_all_whole}
use elton.Middleware.BodyParser.{MaxBytes, read_max, too_large_error, read_all}
use elton.Middleware.BodyParser.Limited.{
  StaysEnded, limited_rest, limited_ending, read_max-IsReader,
}
use elton.Middleware.BodyParser.Limit.{read_all_limit}
use elton.Middleware.BodyParser.Handler.{
  BodyParserConfig, default_config, new_body_parser, is_body_method,
}
use elton.Middleware.BodyParser.Decoders.{default_json_content_type_validate}
use elton.Middleware.BodyParser.Default.{large_body_rejected, default_body_parser_lem}
use elton.Examples.Chains.{blank}

-- A connection with the bytes that are left and what it ends with.
abbrev Wire : Type 0
Wire = Text × Stop

abbrev wire_read : Read Wire
wire_read n (t, e) =
    if leb (length t) n
    then record { data_read = t; stop = some e; reader = ([], e) }
    else record { data_read = take n t; stop = none; reader = (drop n t, e) }

abbrev wire_rest : Wire → Text
wire_rest (t, e) = t

abbrev wire_ending : Wire → Stop
wire_ending (t, e) = e

wire-IsReader : IsReader wire_read wire_rest wire_ending
wire-IsReader = record {
  fits = λ n s. fits n s.0 s.1;
  goes_on = λ n s room go. goes_on n s.0 s.1 room go;
  ends = λ n s e room stops. ends n s.0 s.1 e stops;
}
  where
    fits : (n : ℕ) (t : Text) (e : Stop) → length (wire_read n (t, e)).data_read ≤ n
    fits n t e = elim (Bool-cases (leb (length t) n)) [
      | inl h ↦ rw h (ground arith)
      | inr h ↦ let long : n ≤ length t = ground arith in rw h (omega (arith, length-take n t long))
    ]

    goes_on :
        (n : ℕ) (t : Text) (e : Stop)
        → 0 < n
        → (wire_read n (t, e)).stop ≡ none
        → (0 < length (wire_read n (t, e)).data_read)
          × (t ≡ (wire_read n (t, e)).data_read ++ wire_rest (wire_read n (t, e)).reader)
          × (wire_ending (wire_read n (t, e)).reader ≡ e)
    goes_on n t e room go = elim (Bool-cases (leb (length t) n)) [
      | inl h ↦ ground arith
      | inr h ↦
          let long : n ≤ length t = ground arith in
          rw h (omega (arith, length-take n t long), sym (take-drop n t), refl)
    ]

    ends :
        (n : ℕ) (t : Text) (e x : Stop)
        → (wire_read n (t, e)).stop ≡ some x
        → (t ≡ (wire_read n (t, e)).data_read) × (e ≡ x)
    ends n t e x stops = elim (Bool-cases (leb (length t) n)) [
      | inl h ↦ rw h (refl, ground arith)
      | inr h ↦ ground arith
    ]

abbrev double : ℕ → ℕ
double c = c + c + 1

abbrev five_hundred : ℕ → ℕ
five_hundred len = 512

abbrev hello : Wire
hello = (codes "hello", eof)

read_all_whole_example :
    (read_all_init_cap wire_read double 6 2 hello ≡ some (codes "hello", none))
    × (read_all_to_buffer wire_read five_hundred 6 [] hello ≡ some (codes "hello", none))
read_all_whole_example =
    read_all_whole wire_read wire_rest wire_ending wire-IsReader double five_hundred
      (λ c. omega arith) (λ len. omega arith) 6 2 hello (omega arith)

read_max-IsReader_example :
    IsReader
      (read_max wire_read)
      (limited_rest wire_rest wire_ending)
      (limited_ending wire_rest wire_ending)
    × StaysEnded (read_max wire_read)
read_max-IsReader_example = read_max-IsReader wire_read wire_rest wire_ending wire-IsReader

abbrev is_hes_error : Err → Bool
is_hes_error (hes _) = true
is_hes_error _ = false

abbrev wrap_error : Err → Err
wrap_error e = hes (record {
  status_code = 500;
  message = codes "failed";
  category = codes "elton-body-parser";
  is_exception = true;
})

hello_over_limit :
    read_all is_hes_error wrap_error wire_read double five_hundred (pos 4) 0 5 hello
    ≡ some (inr (wrap_error (too_large_error 4)))
hello_over_limit =
    read_all_limit is_hes_error wrap_error double five_hundred (λ c. omega arith)
      (λ len. omega arith) wire_read wire_rest wire_ending wire-IsReader 4 0 5 hello (omega arith)
      (omega arith)

abbrev json_request : Request
json_request = record {
  method = codes "POST";
  request_uri = codes "/users";
  header = (codes "Content-Type", codes "application/json; charset=utf-8" ∷ []) ∷ [];
  remote_addr = [];
  path_values = [];
  path = [];
  raw_query = [];
  query = [];
}

abbrev posting : Context
posting = record blank { request = json_request }

abbrev no_gunzip : Text → Err ⊎ Text
no_gunzip b = inl (plain (codes "no gzip"))

abbrev spaced_object : Wire
spaced_object = (codes " {\"a\":1} ", eof)

default_body_parser_lem_example :
    new_body_parser is_hes_error wrap_error wire_read double five_hundred
      (λ c. spaced_object)
      (default_config no_gunzip)
      51201
      posting
    ≡ some (pass_on (record posting { request_body = some (codes "{\"a\":1}") }))
unfolding elton.Middleware.Skipper.get_skipper default_config elton.Http.get elton.Http.entry
    elton.Http.canonical is_body_method pass_on elton.Middleware.BodyParser.init_cap
    elton.Middleware.BodyParser.content_length
default_body_parser_lem_example =
    default_body_parser_lem is_hes_error wrap_error double five_hundred (λ c. omega arith)
      (λ len. omega arith) wire_read wire_rest wire_ending wire-IsReader (λ c. spaced_object)
      no_gunzip 51201 posting (omega arith) (refl, refl, refl, refl) refl refl

abbrev four_bytes : BodyParserConfig
four_bytes = record {
  limit = pos 4;
  decoders = [];
  skipper = none;
  content_type_validate = none;
  on_before_decode = none;
}

large_body_rejected_example :
    new_body_parser is_hes_error wrap_error wire_read double five_hundred
      (λ c. hello)
      four_bytes
      5
      posting
    ≡ some (done posting (returned (some (wrap_error (too_large_error 4)))))
unfolding elton.Middleware.Skipper.get_skipper default_json_content_type_validate elton.Http.get
    elton.Http.entry elton.Common.text_eq elton.Http.canonical is_body_method
large_body_rejected_example =
    large_body_rejected is_hes_error wrap_error double five_hundred (λ c. omega arith)
      (λ len. omega arith) wire_read wire_rest wire_ending wire-IsReader (λ c. hello) four_bytes 4 5
      posting refl (omega arith) (omega arith) (refl, refl, refl, refl) (omega arith)
