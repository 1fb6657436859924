-- ===== src/Middleware/Compress/Lossless.antt =====
-- A compressed response decodes to what it was.
use elton.Common.{
  ℕ, ◌≡◌, ◌⊎◌, refl, sym, ap, subst, ◌∙◌, inl, inr, Bool, true, false, not, ◌&&◌, ◌||◌, Option,
  none, some, List, [], ◌∷◌, ◌++◌, Text, codes, text_eq, text_eq_refl, is_empty, is_some,
  cut_prefix, length, Bool-cases, Option-cases, if◌then◌else◌, ℤ, All,
}
use elton.Http
use elton.Http.{canonical, Writer}
use elton.Context.{Context, Err, get_header, set_header, add_header, is_reader}
use elton.Context.Laws.{get_header-set_header, get_header-set_other, get_header-add_other}
use elton.Server.{emit_error}
use elton.Middleware.Compress.{
  Compressor, CompressConfig, fill_header, weaken, level_of, replaced, compress_loop, after_before,
  before_compress, compress_after, bytes_or_empty,
}

abbrev pub encoding_of : Context → Text
encoding_of c = get_header (codes "Content-Encoding") c

weaken-encoding : (etag : Text) (c : Context) → encoding_of (weaken etag c) ≡ encoding_of c
weaken-encoding etag c =
    elim (Bool-cases (is_empty etag || is_some (cut_prefix etag (codes "W/")))) [
      | inl e ↦ rw e refl
      | inr e ↦ rw e (
          get_header-set_other (codes "ETag") (codes "Content-Encoding") (codes "W/" ++ etag) c
            (unfold canonical text_eq in refl))
    ]

fill_header-encoding :
    (encoding : Text) (c : Context) → encoding_of (fill_header encoding c) ≡ encoding
unfolding fill_header
fill_header-encoding encoding c =
    let c1 = set_header (codes "Content-Encoding") encoding c in
    let c2 = add_header (codes "Vary") (codes "Accept-Encoding") c1 in
    weaken-encoding (get_header (codes "ETag") c2) c2
    ∙ get_header-add_other (codes "Vary") (codes "Content-Encoding") (codes "Accept-Encoding") c1
        (unfold canonical text_eq in refl)
    ∙ get_header-set_header (codes "Content-Encoding") (codes "Content-Encoding") encoding c
    ∙ (rw (text_eq_refl (canonical (codes "Content-Encoding"))) refl)

-- `decode` inverts the compressor, for the encodings that it accepts.
abbrev pub IsLossless : (Text → Text → Option Text) → Compressor → Type 0
IsLossless decode k =
    (c : Context) (size : Option ℕ) (encoding : Text)
    → k.accept c size ≡ some encoding
    → (b : Text) (level : Option ℤ) (z : Text) → k.compress b level ≡ inr z
    → decode encoding z ≡ some b

-- The body `b` of `c` is the same in `d`, or is there under the encoding that `d` announces.
abbrev pub Carries : (Text → Text → Option Text) → Text → Context → Context → Type 0
Carries decode b c d =
    ((d.body_buffer ≡ some b) × (encoding_of d ≡ encoding_of c))
    ⊎ ((z : Text) × (d.body_buffer ≡ some z) × (decode (encoding_of d) z ≡ some b))

module _ (listeners : List (Context → Err → Context)) (decode : Text → Text → Option Text)
    (observe : (e : Err) (c : Context)
      → ((emit_error listeners e c).body_buffer ≡ c.body_buffer)
        × ((emit_error listeners e c).response ≡ c.response)) where
  -- What a run of the middleware leaves.
  abbrev pub Keeps : Text → Context → Context × Option Err → Type 0
  Keeps b c r = (r.1 ≡ none) × Carries decode b c r.0

  replaced-Keeps :
      (b encoding : Text) (c : Context) (r : Err ⊎ Text)
      → c.body_buffer ≡ some b
      → ((z : Text) → r ≡ inr z → decode encoding z ≡ some b)
      → Keeps b c (replaced listeners c encoding r)
  unfolding get_header
  replaced-Keeps b encoding c (inl e) has lossless =
      let (buffer, response) = observe e c in
      (
        refl,
        inl (
          buffer ∙ has,
          ap (λ (w : Writer). Http.get (codes "Content-Encoding") w.header) response,
        ),
      )
  replaced-Keeps b encoding c (inr z) has lossless =
      let same = fill_header-encoding encoding c in
      (refl, inr (z, refl, (rw same (lossless z refl))))

  -- One round of the loop.
  loop_step :
      (conf : CompressConfig) (k : Compressor) (ks : List Compressor) (b : Text) (c : Context)
      (o : Option Text)
      → k.accept c (some (length b)) ≡ o
      → compress_loop listeners conf false (k ∷ ks) b c ≡ (elim o [
        | none ↦ compress_loop listeners conf false ks b c
        | some encoding ↦
            replaced listeners c encoding
              (k.compress b (level_of listeners conf.dynamic_level c (length b) encoding))
      ])
  unfolding compress_loop
  loop_step conf k ks b c o e =
      ap
        (λ (x : Option Text). elim x [
          | none ↦ compress_loop listeners conf false ks b c
          | some encoding ↦
              replaced listeners c encoding
                (k.compress b (level_of listeners conf.dynamic_level c (length b) encoding))
        ])
        e

  loop-Keeps :
      (conf : CompressConfig) (ks : List Compressor) (b : Text) (c : Context)
      → c.body_buffer ≡ some b
      → All (IsLossless decode) ks
      → Keeps b c (compress_loop listeners conf false ks b c)
  loop-Keeps conf [] b c has _ = unfold compress_loop in (refl, inl (has, refl))
  loop-Keeps conf (k ∷ ks) b c has (lossless, all) =
      elim (Option-cases (k.accept c (some (length b)))) [
        | inl refuses ↦
            subst (Keeps b c) (sym (loop_step conf k ks b c none refuses))
              (loop-Keeps conf ks b c has all)
        | inr (encoding, accepts) ↦
            let level = level_of listeners conf.dynamic_level c (length b) encoding in
            subst (Keeps b c) (sym (loop_step conf k ks b c (some encoding) accepts)) (
              replaced-Keeps b encoding c (k.compress b level) has
                (λ z done. lossless c (some (length b)) encoding accepts b level z done))
      ]

  if-Keeps :
      (b : Text) (c : Context) (t : Bool) (x y : Context × Option Err)
      → Keeps b c x
      → Keeps b c y
      → Keeps b c (if t then x else y)
  if-Keeps b c true x y p q = p
  if-Keeps b c false x y p q = q

  -- Compression loses nothing: behind the middleware, for a buffered response and no hook, there is
  -- no error, and either the buffer and the announced encoding are as before, or the buffer decodes,
  -- under the encoding that is announced now, to the one before. (Each compressor is lossless for
  -- the encodings that it accepts, and the error listeners leave the response alone.)
  pub compress_lossless :
      (conf : CompressConfig) (b : Text) (c : Context)
      → c.body_buffer ≡ some b
      → is_reader c.body ≡ false
      → conf.on_before_compress ≡ none
      → All (IsLossless decode) conf.compressors
      → Keeps b c (compress_after listeners conf c none)
  unfolding compress_after
  compress_lossless conf b c has buffered hook lossless =
      let unchanged : Keeps b c (c, none) = (refl, inl (has, refl)) in
      let loop = loop-Keeps conf conf.compressors b c has lossless in
      let run : after_before listeners conf (is_reader c.body)
            (before_compress listeners conf.on_before_compress c)
          ≡ compress_loop listeners conf false conf.compressors b c =
        ap
          (λ t. after_before listeners conf t (before_compress listeners conf.on_before_compress c))
          buffered
        ∙ ap (λ h. after_before listeners conf false (before_compress listeners h c)) hook
        ∙ ap (λ x. compress_loop listeners conf false conf.compressors (bytes_or_empty x) c) has in
      let last =
        after_before listeners conf (is_reader c.body)
          (before_compress listeners conf.on_before_compress c) in
      let empty = not (is_some c.body_buffer) && not (is_reader c.body) in
      let encoded = not (is_empty (encoding_of c)) in
      let other = not (conf.checker (get_header (codes "Content-Type") c)) in
      let third = if other then (c, none) else last in
      let second = if encoded then (c, none) else third in
      if-Keeps b c empty (c, none) second unchanged
        (if-Keeps b c encoded (c, none) third unchanged
          (if-Keeps b c other (c, none) last unchanged (subst (Keeps b c) (sym run) loop)))
