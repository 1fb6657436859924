-- ===== src/Examples/Compressed.antt =====
-- Compression and traces at concrete values.
use elton.Common.{
  ℕ, ◌≡◌, refl, true, false, Bool, none, some, List, [], ◌∷◌, Text, codes, Option, ◌⊎◌, inl, inr, ℤ,
  arith,
}
use elton.Context.{Context, Err, Request}
use elton.Server.{emit_error}
use elton.Trace.{Trace, calculate}
use elton.Trace.Own.{total, calculate-total}
use elton.Middleware.Compress.{
  Compressor, CompressConfig, accept_by_length, compress_after, add_compressor,
}
use elton.Middleware.Compress.Lossless.{IsLossless, Keeps, compress_lossless}
use elton.Examples.Chains.{blank}

-- A codec that marks what it compressed.
abbrev marking : Compressor
marking = record {
  accept = accept_by_length 3 (codes "gzip");
  compress = λ b level. inr (b'z' ∷ b);
  pipe = λ c. (c, none);
}

abbrev unmark : Text → Text → Option Text
unmark encoding [] = none
unmark encoding (c ∷ s) = some s

marking-IsLossless : IsLossless unmark marking
marking-IsLossless c size encoding accepts b level z done = ground arith

abbrev marked_config : CompressConfig
marked_config = record {
  checker = λ content_type. true;
  compressors = marking ∷ [];
  skipper = none;
  dynamic_level = none;
  on_before_compress = none;
}

abbrev gzip_request : Request
gzip_request =
    let r = blank.request in
    record r { header = (codes "Accept-Encoding", codes "br, gzip" ∷ []) ∷ [] }

abbrev with_body : Context
with_body = record blank { request = gzip_request; body_buffer = some (codes "hello") }

compress_test :
    (compress_after [] marked_config with_body none).0.body_buffer ≡ some (codes "zhello")
unfolding compress_after elton.Middleware.Compress.accept_by_length elton.Http.canonical
    elton.Http.get elton.Http.entry elton.Common.text_eq
compress_test = refl

quiet :
    (e : Err) (c : Context)
    → ((emit_error [] e c).body_buffer ≡ c.body_buffer)
      × ((emit_error [] e c).response ≡ c.response)
unfolding emit_error
quiet e c = (refl, refl)

compress_lossless_example :
    Keeps [] unmark quiet (codes "hello") with_body (compress_after [] marked_config with_body none)
compress_lossless_example =
    compress_lossless [] unmark quiet marked_config (codes "hello") with_body refl refl refl
      (marking-IsLossless, tt)

-- Two middleware around a step that is traced by hand.
abbrev traced : Trace
traced = record {
  calculate_done = false;
  infos =
      record { middleware = true; name = codes "a"; duration = 30 }
      ∷ record { middleware = false; name = codes "db"; duration = 5 }
      ∷ record { middleware = true; name = codes "b"; duration = 20 }
      ∷ [];
}

own_times :
    (total (calculate traced).infos ≡ 30) × (calculate (calculate traced) ≡ calculate traced)
own_times =
    calculate-total traced refl
      ((λ e. omega arith), ((λ e. absurd (cc e)), ((λ e. omega arith), tt)))
