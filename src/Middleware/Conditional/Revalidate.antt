-- ===== src/Middleware/Conditional/Revalidate.antt =====
-- A client that comes back with the tag that it was given.
use mathlib.Core.List.{reverse, reverse_aux, reverse_aux-append, reverse-reverse}
use elton.Common.{
  ℕ, zero, suc, ◌/◌, ◌%◌, ◌≡◌, ◌⊎◌, inl, inr, refl, sym, ap, subst, ◌∙◌, Bool, true, false, not,
  ◌&&◌, ◌||◌, Option, none, some, List, [], ◌∷◌, ◌++◌, Text, codes, text_eq, text_eq_refl, is_empty,
  ltb, ◌==◌, if◌then◌else◌, length, append_assoc, cut_prefix, Bool-cases, split_only, All-append,
  Lacks, split, trim_left, trim_space, arith,
}
use elton.Http
use elton.Http.{canonical}
use elton.Context.{Context, get_header, set_header, not_modified}
use elton.Context.Laws.{get_header-set_header, set_header-others, not_modified_lem}
use elton.Chain.Onion.{Layer, onion, onion-cons}
use elton.Fresh.{Seconds, skip_spaces, fresh, etag_weak_match}
use elton.Fresh.Laws.{is_fresh_lem, lists_tag}
use elton.Middleware.Conditional.{
  hex_digit, hex_digits, hex, lacks_body, fails, gen_etag, buffer_of, tagged, etag_after,
  etag_layer, fresh_after, fresh_layer,
}

hex_digits-Lacks : (fuel n : ℕ) (out : Text) → Lacks b',' out → Lacks b',' (hex_digits fuel n out)
unfolding hex_digits
hex_digits-Lacks zero n out h = h
hex_digits-Lacks (suc fuel) n out h = elim (Bool-cases (ltb n 16)) [
  | inl small ↦ rw small ((ground arith), h)
  | inr big ↦ rw big (hex_digits-Lacks fuel (n / 16) (hex_digit (n % 16) ∷ out) ((ground arith), h))
]

trim_quoted : (t : Text) → trim_space (b'"' ∷ (t ++ (b'"' ∷ []))) ≡ b'"' ∷ (t ++ (b'"' ∷ []))
unfolding trim_space
trim_quoted t =
    let whole = b'"' ∷ (t ++ (b'"' ∷ [])) in
    let turned : reverse whole ≡ b'"' ∷ reverse_aux t (b'"' ∷ []) =
      reverse_aux-append t (b'"' ∷ []) (b'"' ∷ []) in
    ap (λ u. reverse (trim_left u)) turned ∙ ap reverse (sym turned) ∙ reverse-reverse whole

-- The tag stands between quotes, and has no comma if the sum has none.
gen_etag-quoted :
    (sum : Text → Text) (c : ℕ) (s : Text)
    → gen_etag sum (c ∷ s) ≡ b'"' ∷ ((hex (length (c ∷ s)) ++ (b'-' ∷ sum (c ∷ s))) ++ (b'"' ∷ []))
unfolding gen_etag
gen_etag-quoted sum c s =
    ap (λ t. b'"' ∷ t) (sym (append_assoc (hex (length (c ∷ s))) (b'-' ∷ sum (c ∷ s)) (b'"' ∷ [])))

gen_etag-Lacks :
    (sum : Text → Text) (c : ℕ) (s : Text)
    → Lacks b',' (sum (c ∷ s))
    → Lacks b',' (gen_etag sum (c ∷ s))
unfolding gen_etag hex
gen_etag-Lacks sum c s h = (
  (ground arith),
  All-append _ (hex (length (c ∷ s))) _
      (hex_digits-Lacks (suc (length (c ∷ s))) (length (c ∷ s)) [] tt)
      ((ground arith), All-append _ (sum (c ∷ s)) (b'"' ∷ []) h ((ground arith), tt)),
)

-- A tag in quotes and without a comma is among the tags of a field that is the tag itself.
lists_own_tag :
    (t : Text)
    → Lacks b',' (b'"' ∷ (t ++ (b'"' ∷ [])))
    → lists_tag (b'"' ∷ (t ++ (b'"' ∷ []))) (b'"' ∷ (t ++ (b'"' ∷ []))) ≡ true
unfolding etag_weak_match
lists_own_tag t h =
    let whole = b'"' ∷ (t ++ (b'"' ∷ [])) in
    rw (split_only b',' whole h, trim_quoted t, text_eq_refl whole) refl

tag_fresh :
    (parse_date : Text → Option Seconds) (req res : Http.Header) (t : Text)
    → Lacks b',' (b'"' ∷ (t ++ (b'"' ∷ [])))
    → Http.get (codes "If-None-Match") req ≡ b'"' ∷ (t ++ (b'"' ∷ []))
    → Http.get (codes "If-Modified-Since") req ≡ []
    → Http.get (codes "Cache-Control") req ≡ []
    → Http.get (codes "ETag") res ≡ b'"' ∷ (t ++ (b'"' ∷ []))
    → fresh parse_date req res ≡ true
unfolding fresh
tag_fresh parse_date req res t lacks asked no_date no_control tag =
    let whole = b'"' ∷ (t ++ (b'"' ∷ [])) in
    let last = Http.get (codes "Last-Modified") res in
    let lem = is_fresh_lem parse_date [] whole [] last whole (λ e. ground arith) in
    rw (asked, no_date, no_control, tag)
      (lem ∙ (rw (lists_own_tag t lacks) (unfold split cut_prefix skip_spaces in refl)))

-- The last of several guarded branches.
module _ {ℓ} {A : Type ℓ} where
  third : (x y : A) (p q : Bool) → p ≡ false → q ≡ false → (if p then x else if q then x else y) ≡ y
  third x y p q hp hq = rw (hp, hq) refl

  fourth :
      (x y : A) (p q r s : Bool)
      → p ≡ false
      → q ≡ false
      → r ≡ false
      → s ≡ true
      → (if p then x else if q then x else if r then x else if s then y else x) ≡ y
  fourth x y p q r s hp hq hr hs = rw (hp, hq, hr, hs) refl

no_tag_yet :
    (d : Context) (b : ℕ) (bs : Text)
    → d.body_buffer ≡ some (b ∷ bs)
    → get_header (codes "ETag") d ≡ []
    → (lacks_body d.body_buffer || not (is_empty (get_header (codes "ETag") d))) ≡ false
unfolding get_header
no_tag_yet d b bs buffer untagged = rw (buffer, untagged) refl

succeeds : (code : ℕ) → (code ≡ 0) ⊎ (code ≡ 200) → fails code ≡ false
succeeds code h = ground arith

etag_after-tags :
    (sum : Text → Text) (d : Context) (b : ℕ) (bs : Text)
    → d.body_buffer ≡ some (b ∷ bs)
    → (d.status_code ≡ 0) ⊎ (d.status_code ≡ 200)
    → get_header (codes "ETag") d ≡ []
    → etag_after sum d none ≡ (set_header (codes "ETag") (gen_etag sum (b ∷ bs)) d, none)
unfolding etag_after
etag_after-tags sum d b bs buffer code untagged =
    third (d, none) (tagged sum (gen_etag sum (buffer_of sum d.body_buffer)) d, none)
      (lacks_body d.body_buffer || not (is_empty (get_header (codes "ETag") d)))
      (fails d.status_code) (no_tag_yet d b bs buffer untagged) (succeeds d.status_code code)
    ∙ ap (λ o. (tagged sum (gen_etag sum (buffer_of sum o)) d, none)) buffer

fresh_after-revalidates :
    (parse_date : Text → Option Seconds) (e : Context) (b : ℕ) (bs : Text)
    → e.body_buffer ≡ some (b ∷ bs)
    → (e.status_code ≡ 0) ⊎ (e.status_code ≡ 200)
    → e.request.method ≡ codes "GET"
    → fresh parse_date e.request.header e.response.header ≡ true
    → fresh_after parse_date e none ≡ (not_modified e, none)
unfolding fresh_after
fresh_after-revalidates parse_date e b bs buffer code method is_same =
    fourth (e, none) (not_modified e, none) (lacks_body e.body_buffer || e.status_code == 304)
      (not (text_eq e.request.method (codes "GET"))
        && not (text_eq e.request.method (codes "HEAD")))
      (fails e.status_code) (fresh parse_date e.request.header e.response.header)
      (rw buffer (ground arith)) (rw method refl) (succeeds e.status_code code) is_same

get_header-own : (k v : Text) (c : Context) → get_header k (set_header k v c) ≡ v
get_header-own k v c = get_header-set_header k k v c ∙ (rw (text_eq_refl (canonical k)) refl)

tag_kept : (e : Context) → get_header (codes "ETag") (not_modified e) ≡ get_header (codes "ETag") e
tag_kept e =
    let (_, _, _, _, _, field) = not_modified_lem (codes "ETag") e in
    field ∙ (unfold canonical text_eq in refl)

-- A handler that leaves a body for a GET request, with no tag of its own and no status but 200,
-- behind the fresh and the etag middleware: if the request brings the tag that is made from this
-- very body, with no date and no `Cache-Control`, it is answered 304 without the body and with the
-- tag. The sum has no comma.
pub revalidated :
    (sum : Text → Text) (parse_date : Text → Option Seconds) (ls : List Layer) (c d : Context)
    (b : ℕ) (bs : Text)
    → c.committed ≡ false
    → onion ls c ≡ (d, none)
    → d.body_buffer ≡ some (b ∷ bs)
    → (d.status_code ≡ 0) ⊎ (d.status_code ≡ 200)
    → d.request.method ≡ codes "GET"
    → get_header (codes "ETag") d ≡ []
    → Http.get (codes "If-None-Match") d.request.header ≡ gen_etag sum (b ∷ bs)
    → Http.get (codes "If-Modified-Since") d.request.header ≡ []
    → Http.get (codes "Cache-Control") d.request.header ≡ []
    → Lacks b',' (sum (b ∷ bs))
    → let r = onion (fresh_layer parse_date ∷ etag_layer sum ∷ ls) c in
      (r.1 ≡ none)
      × (r.0.status_code ≡ 304)
      × (r.0.body_buffer ≡ none)
      × (get_header (codes "ETag") r.0 ≡ gen_etag sum (b ∷ bs))
unfolding get_header
revalidated sum parse_date ls c d b bs live inner buffer code method untagged asked no_date
      no_control lacks =
    let tag = gen_etag sum (b ∷ bs) in
    let mid = hex (length (b ∷ bs)) ++ (b'-' ∷ sum (b ∷ bs)) in
    let quoted = gen_etag-quoted sum b bs in
    let e = set_header (codes "ETag") tag d in
    let (same_request, same_code, same_buffer) = set_header-others (codes "ETag") tag d in
    let tag_of_e = get_header-own (codes "ETag") tag d in
    let is_same =
      tag_fresh parse_date e.request.header e.response.header mid
        (subst (Lacks b',') quoted (gen_etag-Lacks sum b bs lacks))
        (ap (λ q. Http.get (codes "If-None-Match") q.header) same_request ∙ asked ∙ quoted)
        (ap (λ q. Http.get (codes "If-Modified-Since") q.header) same_request ∙ no_date)
        (ap (λ q. Http.get (codes "Cache-Control") q.header) same_request ∙ no_control)
        (tag_of_e ∙ quoted) in
    let code' : (e.status_code ≡ 0) ⊎ (e.status_code ≡ 200) =
      subst (λ n. (n ≡ 0) ⊎ (n ≡ 200)) (sym same_code) code in
    let ran : onion (fresh_layer parse_date ∷ etag_layer sum ∷ ls) c ≡ (not_modified e, none) =
      onion-cons (fresh_layer parse_date) (etag_layer sum ∷ ls) c live
      ∙ ap (λ r. fresh_after parse_date r.0 r.1)
          (onion-cons (etag_layer sum) ls c live
            ∙ ap (λ r. etag_after sum r.0 r.1) inner
            ∙ etag_after-tags sum d b bs buffer code untagged)
      ∙ fresh_after-revalidates parse_date e b bs (same_buffer ∙ buffer) code'
          (ap (λ q. q.method) same_request ∙ method) is_same in
    let (status, _, emptied, _, _, _) = not_modified_lem (codes "ETag") e in
    (
      ap (λ r. r.1) ran,
      ap (λ r. r.0.status_code) ran ∙ status,
      ap (λ r. r.0.body_buffer) ran ∙ emptied,
      ap (λ r. get_header (codes "ETag") r.0) ran ∙ tag_kept e ∙ tag_of_e,
    )
