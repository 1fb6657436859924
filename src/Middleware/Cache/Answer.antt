-- ===== src/Middleware/Cache/Answer.antt =====
-- The status and the body that `NewCache` answers a stored hit with.
use elton.Common.{
  ℕ, ◌+◌, ◌-◌, ◌%◌, ◌≡◌, ◌≢◌, refl, ◌∙◌, none, some, List, [], ◌∷◌, Text, codes, itoa,
}
use elton.Http.{Header}
use elton.Context.{Context, set_header, merge_header, add_each, add_header}
use elton.Context.Laws.{set_header-others}
use elton.Middleware.CacheResponse.{CacheResponse}
use elton.Middleware.Cache.{get_body, set_body, answer_hit}

add_each-status_code :
    (k : Text) (vs : List Text) (c : Context) → (add_each k vs c).status_code ≡ c.status_code
unfolding add_each add_header
add_each-status_code k [] c = refl
add_each-status_code k (v ∷ vs) c = add_each-status_code k vs (add_header k v c)

merge_header-status_code :
    (h : Header) (c : Context) → (merge_header h c).status_code ≡ c.status_code
unfolding merge_header
merge_header-status_code [] c = refl
merge_header-status_code ((k, vs) ∷ h) c =
    merge_header-status_code h (add_each k vs c) ∙ add_each-status_code k vs c

set_body-plain :
    (cp : CacheResponse) (c : Context) (b : Text)
    → cp.body ≡ some b
    → b ≢ []
    → let r = set_body none cp c in
      (r.0.status_code ≡ c.status_code) × (r.0.body_buffer ≡ some b) × (r.1 ≡ none)
unfolding set_body get_body
set_body-plain cp c [] e ne = absurd (ne refl)
set_body-plain cp c (x ∷ b) e ne = rw e (refl, refl, refl)

pub answer_hit-plain :
    (now : ℕ) (cp : CacheResponse) (c : Context) (b : Text)
    → cp.body ≡ some b
    → b ≢ []
    → let r = answer_hit none now cp c in
      (r.0.status_code ≡ cp.status_code) × (r.0.body_buffer ≡ some b) × (r.1 ≡ none)
unfolding answer_hit
answer_hit-plain now cp c b e ne =
    let c1 = set_header (codes "X-Cache") (codes "hit") c in
    let age = (now % 4294967296 + (4294967296 - cp.created_at)) % 4294967296 in
    let c2 = set_header (codes "Age") (itoa age) c1 in
    let c3 = record c2 { status_code = cp.status_code } in
    let c4 = set_header (codes "Cache-Control") [] c3 in
    let (code, buffer, error) = set_body-plain cp (merge_header cp.header c4) b e ne in
    (
      code
          ∙ merge_header-status_code cp.header c4
          ∙ (set_header-others (codes "Cache-Control") [] c3).1,
      buffer,
      error,
    )
