-- ===== src/Context/Laws.antt =====
-- What the operations of the context leave in it.
use elton.Common.{
  ℕ, ◌≤◌, ◌<◌, ◌≡◌, ◌⊎◌, refl, ap, ◌∙◌, Bool, true, false, none, some, List, [], ◌∷◌, ◌++◌, Text,
  codes, text_eq, text_eq_iff, if◌then◌else◌, append_assoc, append-nil, any_of, arith,
}
use elton.Http
use elton.Http.{Header, canonical, Writer}
use elton.Http.Laws.{get-set, get-del, values-add}
use elton.RouteParams
use elton.Context.{
  Context, nil, Value, Request, invalid_redirect, reset, get_header, set_header, add_header,
  add_each, clean_content, not_modified, redirect, store_put, store_find, set, get,
}

-- A context taken from the pool shows nothing of the request it served before.
pub reset_forgets : (c d : Context) → reset c ≡ reset d
unfolding reset RouteParams.reset
reset_forgets c d = refl

-- The header after `SetHeader`, for every key and value: an empty value deletes the field.
pub get_header-set_header :
    (k j v : Text) (c : Context)
    → get_header j (set_header k v c)
      ≡ (if text_eq (canonical k) (canonical j) then v else get_header j c)
unfolding get_header set_header
get_header-set_header k j [] c = get-del k j c.response.header
get_header-set_header k j (b ∷ v) c = get-set k j (b ∷ v) c.response.header

-- A field under another key stays.
pub get_header-set_other :
    (k j v : Text) (c : Context)
    → text_eq (canonical k) (canonical j) ≡ false
    → get_header j (set_header k v c) ≡ get_header j c
get_header-set_other k j v c other = get_header-set_header k j v c ∙ (rw other refl)

pub get_header-add_other :
    (k j v : Text) (c : Context)
    → text_eq (canonical k) (canonical j) ≡ false
    → get_header j (add_header k v c) ≡ get_header j c
unfolding get_header add_header Http.get Http.values
get_header-add_other k j v c other =
    ap Http.first_value (values-add k j v c.response.header) ∙ (rw other refl)

-- `SetHeader` changes nothing but the header.
pub set_header-others :
    (k v : Text) (c : Context)
    → let d = set_header k v c in
      (d.request ≡ c.request) × (d.status_code ≡ c.status_code) × (d.body_buffer ≡ c.body_buffer)
unfolding set_header
set_header-others k [] c = (refl, refl, refl)
set_header-others k (b ∷ v) c = (refl, refl, refl)

values-add_each :
    (k j : Text) (vs : List Text) (c : Context)
    → Http.values j (add_each k vs c).response.header ≡ (
        if text_eq (canonical k) (canonical j)
        then Http.values j c.response.header ++ vs
        else Http.values j c.response.header)
unfolding add_each add_header
values-add_each k j [] c = ground (arith, append-nil (Http.values j c.response.header))
values-add_each k j (v ∷ vs) c = ground (
  arith,
  values-add_each k j vs (add_header k v c),
  values-add k j v c.response.header,
  append_assoc (Http.values j c.response.header) (v ∷ []) vs,
)

-- The fields that `cleanContent` removes.
abbrev pub content_fields : List Text
content_fields =
    codes "Content-Type"
    ∷ codes "Content-Length"
    ∷ codes "Transfer-Encoding"
    ∷ codes "Content-Encoding"
    ∷ []

abbrev pub is_content_field : Text → Bool
is_content_field j = any_of (λ f. text_eq (canonical f) (canonical j)) content_fields

get_header-clean_content :
    (j : Text) (c : Context)
    → get_header j (clean_content c) ≡ (if is_content_field j then [] else get_header j c)
unfolding clean_content get_header
get_header-clean_content j c =
    let c1 = set_header (codes "Content-Type") [] c in
    let c2 = set_header (codes "Content-Length") [] c1 in
    let c3 = set_header (codes "Transfer-Encoding") [] c2 in
    ground (
      arith,
      get_header-set_header (codes "Content-Type") j [] c,
      get_header-set_header (codes "Content-Length") j [] c1,
      get_header-set_header (codes "Transfer-Encoding") j [] c2,
      get_header-set_header (codes "Content-Encoding") j [] c3,
    )

-- `NotModified` answers 304 with no body and no field that describes one, and leaves every other
-- response header field, the request and the commit flag as they were.
pub not_modified_lem :
    (j : Text) (c : Context)
    → ((not_modified c).status_code ≡ 304)
      × ((not_modified c).body ≡ nil)
      × ((not_modified c).body_buffer ≡ none)
      × ((not_modified c).committed ≡ c.committed)
      × ((not_modified c).request ≡ c.request)
      × (get_header j (not_modified c) ≡ (if is_content_field j then [] else get_header j c))
unfolding not_modified clean_content set_header get_header
not_modified_lem j c = (refl, refl, refl, refl, refl, get_header-clean_content j c)

store_find-store_put :
    (k j : Text) (v : Value) (m : List (Text × Value))
    → store_find j (store_put k v m) ≡ (if text_eq k j then some v else store_find j m)
unfolding store_find store_put
store_find-store_put k j v [] = refl
store_find-store_put k j v ((i, w) ∷ m) =
    ground (arith, text_eq_iff k j, text_eq_iff i k, text_eq_iff i j, store_find-store_put k j v m)

pub store-get-set :
    (k j : Text) (v : Value) (c : Context)
    → get j (set k v c) ≡ (if text_eq k j then some v else get j c)
unfolding get set
store-get-set k j v c = store_find-store_put k j v c.store

-- A redirect is refused exactly outside 300 to 308, and then changes nothing; otherwise the
-- context is committed with the code and without a body.
pub redirect_lem :
    (f : Writer → Request → Text → ℕ → Writer) (code : ℕ) (url : Text) (c : Context)
    → ((code < 300) ⊎ (308 < code) → redirect f code url c ≡ (c, some invalid_redirect))
      × (300 ≤ code
          → code ≤ 308
          → ((redirect f code url c).1 ≡ none)
            × ((redirect f code url c).0.committed ≡ true)
            × ((redirect f code url c).0.status_code ≡ code)
            × ((redirect f code url c).0.body ≡ nil)
            × ((redirect f code url c).0.body_buffer ≡ none))
unfolding redirect
redirect_lem f code url c = (λ out. ground arith, λ lo hi. ground arith)
