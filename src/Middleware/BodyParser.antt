-- ===== src/Middleware/BodyParser.antt =====
-- middleware/body_parser.go: the limit on the body, the reading of it, the decoders, and the
-- handler. gzip, the parser of queries, `json.Marshal` and the library hes are parameters.
pub mod Limited
pub mod Limit
pub mod Decoders
pub mod Handler
pub mod Default
use elton.Common.{
  ℕ, zero, suc, ◌+◌, ◌-◌, ◌*◌, Bool, true, false, not, ◌&&◌, ◌||◌, ◌⊎◌, inl, inr, Option, none,
  some, List, [], ◌∷◌, ◌++◌, map, Text, codes, text_eq, is_empty, cut_byte, cut_prefix, trim_space,
  keep, take, itoa, ltb, leb, ◌==◌, if◌then◌else◌, length, is_some, all_digits, value, ℤ, pos,
  negsuc, is_positive,
}
use elton.Context.{Context, Err, hes, plain, get_request_header, set_request_header}
use elton.Reading.{Stop, failure, Chunk, Read, read_all_init_cap, read_all_to_buffer}

-- `maxBytesReader`: `remaining` is `n`, and `err` the sticky error.
pub record MaxBytes (S : Type 0) : Type 0 where
  pub inner : S
  pub max : ℕ
  pub remaining : ℕ
  pub err : Option Stop

-- `MaxBytesReader`.
unfoldable pub max_bytes_reader : {S : Type 0} → S → ℕ → MaxBytes S
max_bytes_reader s n = record { inner = s; max = n; remaining = n; err = none }

abbrev pub too_large_error : ℕ → Err
too_large_error max = plain (codes "request body is too large, it should be <= " ++ itoa max)

abbrev pub too_large : ℕ → Stop
too_large max = failure (too_large_error max)

module _ {S : Type 0} (read : Read S) where
  -- What `Read` makes of a read from the underlying reader.
  abbrev pub within : MaxBytes S → Chunk S → Chunk (MaxBytes S)
  within l c =
      if leb (length c.data_read) l.remaining
      then record {
        data_read = c.data_read;
        stop = c.stop;
        reader = record l {
          inner = c.reader;
          remaining = l.remaining - length c.data_read;
          err = c.stop;
        };
      }
      else record {
        data_read = take l.remaining c.data_read;
        stop = some (too_large l.max);
        reader = record l { inner = c.reader; remaining = 0; err = some (too_large l.max) };
      }

  -- `maxBytesReader.Read` into a slice of `n` bytes.
  unfoldable pub read_max : Read (MaxBytes S)
  read_max n l = elim l.err [
    | some e ↦ record { data_read = []; stop = some e; reader = l }
    | none ↦
        if n == 0
        then record { data_read = []; stop = none; reader = l }
        else within l (read (if ltb (l.remaining + 1) n then l.remaining + 1 else n) l.inner)
  ]

-- `strconv.Atoi` of the content length where it succeeds with a positive number, and 0 otherwise.
abbrev small_digits : Text → ℕ
small_digits s = if all_digits s && leb (value 0 s) 9223372036854775807 then value 0 s else 0

unfoldable pub content_length : Text → ℕ
unfolding value
content_length [] = 0
content_length (c ∷ s) = if c == b'+' then small_digits s else small_digits (c ∷ s)

-- The capacity to begin with: at most the limit, if there is one.
unfoldable pub init_cap : ℤ → ℕ → ℕ
init_cap (pos limit) n = if ltb 0 limit && ltb limit n then limit else n
init_cap (negsuc _) n = n

-- `body` of `[]byte`: `append([]byte(nil), ...)` of no bytes is nil.
abbrev pub copied : Text → Option Text
copied b = if is_empty b then none else some b

-- How a body that is read becomes the result: a nil error, an error of hes, or one that is wrapped.
module _ (is_hes : Err → Bool) (wrap : Err → Err) where
  abbrev pub as_hes_error : Err → Err
  as_hes_error e = if is_hes e then e else wrap e

  abbrev pub read_result : (Text → Option Text) → Text × Option Err → Option Text ⊎ Err
  read_result copy (b, none) = inl (copy b)
  read_result copy (b, some e) = inr (as_hes_error e)

  abbrev pub map_result :
      (Text → Option Text) → Option (Text × Option Err) → Option (Option Text ⊎ Err)
  map_result copy none = none
  map_result copy (some r) = some (read_result copy r)

  -- The body of `ReadAll` for the reader `r`. `grow` and `space` are the capacities of `Reading`.
  unfoldable pub read_body :
      {S : Type 0} → Read S → (ℕ → ℕ) → (ℕ → ℕ) → ℕ → ℕ → S → Option (Option Text ⊎ Err)
  unfolding read_all_init_cap read_all_to_buffer
  read_body read grow space fuel capacity s =
      if ltb 0 capacity
      then map_result some (read_all_init_cap read grow fuel capacity s)
      else map_result copied (read_all_to_buffer read space fuel [] s)

  -- `requestBodyReader.ReadAll` for the request body `s` and the content length `n`.
  unfoldable pub read_all :
      {S : Type 0} → Read S → (ℕ → ℕ) → (ℕ → ℕ) → ℤ → ℕ → ℕ → S → Option (Option Text ⊎ Err)
  unfolding read_body init_cap max_bytes_reader
  read_all read grow space limit n fuel s =
      let unlimited = read_body read grow space fuel (init_cap limit n) s in
      elim limit [
        | negsuc _ ↦ unlimited
        | pos zero ↦ unlimited
        | pos (suc m) ↦
            read_body (read_max read) grow space fuel (init_cap (pos (suc m)) n)
              (max_bytes_reader s (suc m))
      ]
