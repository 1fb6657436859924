-- ===== src/Context/CookieLaws.antt =====
-- Which signed cookies are accepted.
use elton.Common.{
  ◌≡◌, ◌↔◌, refl, ap, subst, ◌∙◌, true, Option, none, some, Text, is_some, Option-cases, inl, inr,
  arith,
}
use elton.Context.{Context, Request, Err}
use elton.Context.Cookies.{Cookie, Keygrip, signature_name, cookie, signed_cookie}

module _ (read_cookie : Text → Request → Option Cookie) (sign_key_is_nil : Err) (kg : Keygrip)
    (IsValid : Text → Text → Type 0)
    (finds : (v s : Text) → (is_some (kg.index v s) ≡ true) ↔ IsValid v s) where
  accepts :
      (name : Text) (c : Context) (k s : Cookie)
      → read_cookie name c.request ≡ some k
      → read_cookie (signature_name name) c.request ≡ some s
      → IsValid k.value s.value
      → signed_cookie read_cookie sign_key_is_nil (some kg) name c ≡ (some k, none)
  unfolding signed_cookie cookie
  accepts name c k s one two valid = elim (Option-cases (kg.index k.value s.value)) [
    | inl missing ↦ absurd (cc ((finds k.value s.value).1 valid, missing))
    | inr (n, there) ↦ rw (one, two, there) refl
  ]

  accepted :
      (name : Text) (c : Context) (k : Cookie)
      → signed_cookie read_cookie sign_key_is_nil (some kg) name c ≡ (some k, none)
      → (read_cookie name c.request ≡ some k)
        × (s : Cookie) × (read_cookie (signature_name name) c.request ≡ some s)
        × IsValid k.value s.value
  unfolding signed_cookie cookie
  accepted name c k h = elim (Option-cases (read_cookie name c.request)) [
    | inl missing ↦ ground arith
    | inr (a, one) ↦ elim (Option-cases (read_cookie (signature_name name) c.request)) [
      | inl missing ↦ ground arith
      | inr (s, two) ↦ elim (Option-cases (kg.index a.value s.value)) [
        | inl forged ↦ ground arith
        | inr (n, there) ↦
            let same : a ≡ k = ground arith in
            (
              one ∙ ap some same,
              s,
              two,
              subst (λ (x : Cookie). IsValid x.value s.value) same
                  ((finds a.value s.value).0 (ap is_some there)),
            )
      ]
    ]
  ]

  -- A signed cookie is accepted exactly if the request has the cookie, has the cookie with its
  -- signature, and the signature is valid for the value; `IsValid` is what the keygrip finds a key
  -- for.
  pub signed_cookie_iff :
      (name : Text) (c : Context) (k : Cookie)
      → (signed_cookie read_cookie sign_key_is_nil (some kg) name c ≡ (some k, none)) ↔ (
          (read_cookie name c.request ≡ some k)
          × (s : Cookie) × (read_cookie (signature_name name) c.request ≡ some s)
          × IsValid k.value s.value)
  signed_cookie_iff name c k =
      (accepted name c k, λ (one, s, two, valid). accepts name c k s one two valid)
