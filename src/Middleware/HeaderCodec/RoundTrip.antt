-- ===== src/Middleware/HeaderCodec/RoundTrip.antt =====
-- Decoding the encoded header fields gives them back.
use elton.Common.{
  ℕ, ◌≡◌, ◌≢◌, refl, sym, ap, ◌∙◌, inl, inr, Bool, true, false, not, List, [], ◌∷◌, ◌++◌, map, Text,
  Lacks, All, All-append, All-keep, is_empty, ◌==◌, if◌then◌else◌, keep, lower_byte, upper_byte,
  to_lower, cut_byte-append, split, join, split-join, join-Lacks, join-eq-nil, Option-cases,
  append_assoc, append-nil, arith,
}
use elton.Http.{Header, is_token_byte, is_token, capitalize, canonical, add}
use elton.Http.Laws.{Absent, put-Absent, put_last, entry-Absent, entry_last, Distinct, Absent-grow}
use elton.Middleware.HeaderCodec.{
  HeaderIndexes, value_sep, headers_join_sep, get_index, to_values, decode_field, encode_field,
  is_ignored, encode_headers, add_values, add_field, decode_items, decode_headers,
}
use elton.Middleware.HeaderCodec.Dictionary.{IsDictionary}

lower_byte-token : (c : ℕ) → is_token_byte c ≡ true → is_token_byte (lower_byte c) ≡ true
unfolding is_token_byte
lower_byte-token c h = ground arith

token_byte_bounds : (c : ℕ) → is_token_byte c ≡ true → (c ≢ 0) × (c ≢ b':')
unfolding is_token_byte
token_byte_bounds c h = ground arith

is_token-to_lower : (s : Text) → is_token s ≡ true → is_token (to_lower s) ≡ true
unfolding is_token to_lower
is_token-to_lower [] h = refl
is_token-to_lower (c ∷ s) h = ground (arith, lower_byte-token c, is_token-to_lower s)

capitalize_lower_byte :
    (upper : Bool) (c : ℕ)
    → (if upper then upper_byte (lower_byte c) else lower_byte (lower_byte c))
      ≡ (if upper then upper_byte c else lower_byte c)
capitalize_lower_byte true c = ground arith
capitalize_lower_byte false c = ground arith

dash_lower_byte : (c : ℕ) → (lower_byte c == b'-') ≡ (c == b'-')
dash_lower_byte c = ground arith

capitalize-to_lower : (upper : Bool) (s : Text) → capitalize upper (to_lower s) ≡ capitalize upper s
unfolding capitalize to_lower
capitalize-to_lower upper [] = refl
capitalize-to_lower upper (c ∷ s) =
    rw (capitalize_lower_byte upper c, dash_lower_byte c, capitalize-to_lower (c == b'-') s)

canonical-to_lower : (s : Text) → is_token s ≡ true → canonical (to_lower s) ≡ canonical s
unfolding canonical
canonical-to_lower s h = ground (arith, is_token-to_lower s, capitalize-to_lower true s)

token-Lacks : (s : Text) → is_token s ≡ true → Lacks 0 s × Lacks b':' s
unfolding is_token
token-Lacks [] h = (tt, tt)
token-Lacks (c ∷ s) h = ground (arith, token_byte_bounds c, token-Lacks s)

to_lower-ne-nil : (s : Text) → s ≢ [] → is_empty (to_lower s) ≡ false
unfolding to_lower
to_lower-ne-nil [] h = absurd (h refl)
to_lower-ne-nil (c ∷ s) h = refl

-- A header entry that the encoding keeps: a name in canonical form, and values that the HTTP
-- library allows, of which there is one at least, and not a single empty one.
pub record IsEncodable (e : Text × List Text) : Type 0 where
  pub named : e.0 ≢ []
  pub token : is_token e.0 ≡ true
  pub canon : canonical e.0 ≡ e.0
  pub some_value : e.1 ≢ []
  pub not_blank : e.1 ≢ [] ∷ []
  pub no_feed : All (Lacks value_sep) e.1
  pub no_zero : All (Lacks headers_join_sep) e.1

to_values-join :
    (vs : List Text)
    → vs ≢ []
    → vs ≢ [] ∷ []
    → All (Lacks value_sep) vs
    → to_values (join value_sep vs) ≡ vs
to_values-join vs ne nb h = go (join value_sep vs) refl
  where
    go : (t : Text) → join value_sep vs ≡ t → to_values t ≡ vs
    go [] e = absurd (nb (join-eq-nil value_sep vs e ne))
    go (c ∷ t) e = unfold to_values in rw (← e) (split-join value_sep vs ne h)

module _ (dict : HeaderIndexes) (d : IsDictionary dict) where
  -- A field is read back with its values, under the name or its lower-case form.
  decode-encode_field :
      (name : Text) (vs : List Text)
      → IsEncodable (name, vs)
      → (n : Text) × (decode_field dict (encode_field dict name vs) ≡ (n, vs))
        × (canonical n ≡ name)
        × (is_empty n ≡ false)
  unfolding decode_field encode_field
  decode-encode_field name vs ok = elim (Option-cases (get_index dict name)) [
    | inl long ↦ (
      name,
      rw (long, cut_byte-append b':' name (join value_sep vs) (token-Lacks name ok.token).1)
          (ap (λ t. (name, t)) (to_values-join vs ok.some_value ok.not_blank ok.no_feed)),
      ok.canon,
      not_empty name ok.named,
    )
    | inr (i, short) ↦ (
      to_lower name,
      ground (
        arith,
        short,
        d.in_range name i,
        d.leads_back name i,
        to_values-join vs ok.some_value ok.not_blank ok.no_feed,
      ),
      canonical-to_lower name ok.token ∙ ok.canon,
      to_lower-ne-nil name ok.named,
    )
  ]
    where
      not_empty : (s : Text) → s ≢ [] → is_empty s ≡ false
      not_empty [] h = absurd (h refl)
      not_empty (c ∷ s) h = refl

  encode_field-Lacks :
      (name : Text) (vs : List Text)
      → IsEncodable (name, vs)
      → Lacks headers_join_sep (encode_field dict name vs)
  unfolding encode_field
  encode_field-Lacks name vs ok =
      let value = join-Lacks value_sep 0 vs (omega arith) ok.no_zero in
      elim (Option-cases (get_index dict name)) [
        | inl long ↦
            rw long
              (omega arith, All-append _ name _ (token-Lacks name ok.token).0 (omega arith, value))
        | inr (i, short) ↦ let range = d.in_range name i short in rw short (omega arith, value)
      ]

  grow_values :
      (n name : Text) (vs ws : List Text) (h : Header)
      → canonical n ≡ name
      → Absent name h
      → add_values dict n vs (h ++ (name, ws) ∷ []) ≡ h ++ (name, ws ++ vs) ∷ []
  unfolding add_values add
  grow_values n name [] ws h c a = rw append-nil
  grow_values n name (v ∷ vs) ws h c a =
      rw (c, entry_last name ws h a, put_last name (ws ++ v ∷ []) ws h a)
        (grow_values n name vs (ws ++ v ∷ []) h c a
          ∙ ap (λ t. h ++ (name, t) ∷ []) (append_assoc ws (v ∷ []) vs))

  add_values_new :
      (n name : Text) (vs : List Text) (h : Header)
      → canonical n ≡ name
      → Absent name h
      → vs ≢ []
      → add_values dict n vs h ≡ h ++ (name, vs) ∷ []
  unfolding add_values add
  add_values_new n name [] h c a ne = absurd (ne refl)
  add_values_new n name (v ∷ vs) h c a ne =
      rw (c, entry-Absent name h a, put-Absent name (v ∷ []) h a)
        (grow_values n name vs (v ∷ []) h c a)

  decode_items_step :
      (item n : Text) (vs : List Text) (items : List Text) (h : Header)
      → decode_field dict item ≡ (n, vs)
      → is_empty n ≡ false
      → decode_items dict (item ∷ items) h ≡ decode_items dict items (add_values dict n vs h)
  unfolding decode_items
  decode_items_step item n vs items h read full =
      ap (λ p. decode_items dict items (add_field dict p h)) read
      ∙ ap (λ b. decode_items dict items (if b then h else add_values dict n vs h)) full

  decode_items-encode :
      (rest done : Header)
      → All IsEncodable rest
      → Distinct rest
      → All (λ e. Absent e.0 done) rest
      → decode_items dict (map (λ e. encode_field dict e.0 e.1) rest) done ≡ done ++ rest
  unfolding decode_items
  decode_items-encode [] done ok ds fresh = sym (append-nil done)
  decode_items-encode ((name, vs) ∷ rest) done (ok, oks) (new, ds) (a, fresh) =
      let (n, read, c, full) = decode-encode_field name vs ok in
      let items = map (λ e. encode_field dict e.0 e.1) rest in
      decode_items_step (encode_field dict name vs) n vs items done read full
      ∙ ap (decode_items dict items) (add_values_new n name vs done c a ok.some_value)
      ∙ decode_items-encode rest (done ++ (name, vs) ∷ []) oks ds
          (Absent-grow name vs rest done new fresh)
      ∙ append_assoc done ((name, vs) ∷ []) rest

keep-Absent :
    (p : Text × List Text → Bool) (k : Text) (h : Header) → Absent k h → Absent k (keep p h)
keep-Absent p k h a = All-keep _ p h a

keep-Distinct : (p : Text × List Text → Bool) (h : Header) → Distinct h → Distinct (keep p h)
keep-Distinct p [] ds = tt
keep-Distinct p (e ∷ h) (a, ds) =
    elim (p e) as (λ b. Distinct (if b then e ∷ keep p h else keep p h)) [
      | true ↦ (keep-Absent p e.0 h a, keep-Distinct p h ds)
      | false ↦ keep-Distinct p h ds
    ]

map-Lacks :
    (dict : HeaderIndexes) (d : IsDictionary dict) (h : Header)
    → All IsEncodable h
    → All (Lacks headers_join_sep) (map (λ e. encode_field dict e.0 e.1) h)
map-Lacks dict d [] _ = tt
map-Lacks dict d (e ∷ h) (ok, oks) = (encode_field-Lacks dict d e.0 e.1 ok, map-Lacks dict d h oks)

decode_headers-join :
    (dict : HeaderIndexes) (d : IsDictionary dict) (h : Header)
    → All IsEncodable h
    → Distinct h
    → decode_headers dict (join headers_join_sep (map (λ e. encode_field dict e.0 e.1) h)) ≡ h
unfolding decode_headers
decode_headers-join dict d [] ok ds = unfold join split in refl
decode_headers-join dict d (e ∷ h) ok ds =
    let items = map (λ (e : Text × List Text). encode_field dict e.0 e.1) (e ∷ h) in
    rw (split-join headers_join_sep items (cc) (map-Lacks dict d (e ∷ h) ok))
      (decode_items-encode dict d (e ∷ h) [] ok ds (nothing (e ∷ h)))
  where
    nothing : (h : Header) → All (λ e. Absent e.0 []) h
    nothing [] = tt
    nothing (e ∷ h) = (tt, nothing h)

-- The header fields of a response survive the cache, if every field has a name that is a token in
-- canonical form, at least one value, not a single empty one, and no line feed or zero byte in its
-- values, and the names differ: decoding the encoded fields gives exactly those that are not
-- ignored, in order, for every dictionary whose indexes lead back.
pub decode-encode_headers :
    (dict : HeaderIndexes) (h : Header) (ignore : List Text)
    → IsDictionary dict
    → All IsEncodable h
    → Distinct h
    → decode_headers dict (encode_headers dict h ignore) ≡ keep (λ e. not (is_ignored ignore e.0)) h
unfolding encode_headers
decode-encode_headers dict h ignore d ok ds =
    decode_headers-join dict d _ (All-keep _ _ h ok) (keep-Distinct _ h ds)
