-- ===== src/Middleware/Answered.antt =====
-- The error and the responder middleware around the handlers of a route: every request is answered.
use elton.Common.{
  ℕ, suc, ◌≡◌, ◌≢◌, ◌⊎◌, inl, inr, refl, ap, subst, sym, ◌∙◌, Bool, true, false, ◌&&◌, ◌||◌, Option,
  none, some, List, ◌∷◌, Text, codes, text_eq, contains, ◌==◌, if◌then◌else◌, is_some, Bool-cases,
  arith,
}
use elton.Context.{
  Context, Body, nil, text, binary, reader, other, Err, HesError, is_reader, set_header,
  get_request_header,
}
use elton.Chain.{returned, Handler, Cursor, run_chain}
use elton.Chain.Onion.{layer}
use elton.Chain.Continued.{run_chain-layer}
use elton.Middleware.Error.{
  Hes, error_layer, error_after, answer_error, answer_json, answer_text, wrap_as_hes_error,
}
use elton.Middleware.Responder.{responder_layer, is_nil, invalid_response, respond_after, convert}

-- There is something to send: the response is out already, or a buffer, a reader or a status is set.
abbrev pub IsAnswer : Context → Type 0
IsAnswer c =
    (c.committed ≡ true)
    ⊎ ((is_some c.body_buffer ≡ true) ⊎ ((is_reader c.body ≡ true) ⊎ (c.status_code ≢ 0)))

-- A property of both branches.
if-cases {ℓ} :
    {A : Type ℓ} (P : A → Type 0) (p : Bool) (x y : A)
    → (p ≡ true → P x)
    → (p ≡ false → P y)
    → P (if p then x else y)
if-cases P true x y yes_case no_case = yes_case refl
if-cases P false x y yes_case no_case = no_case refl

abbrev Answers : Context × Option Err → Type 0
Answers r = r.1 ≡ none → IsAnswer r.0

buffer_or_committed : (c : Context) → (is_some c.body_buffer || c.committed) ≡ true → IsAnswer c
buffer_or_committed c h = elim (Bool-cases c.committed) [
  | inl e ↦ inl e
  | inr e ↦ inr (inl (ground arith))
]

module _ (lib : Hes) (marshal : ℕ → Err ⊎ Text) (wrap : Err → Err) (content_type : Text) where
  convert-IsAnswer :
      (b : Body) (c : Context)
      → is_reader b ≡ false
      → ((convert marshal wrap content_type b c).1 ≡ none)
      → IsAnswer (convert marshal wrap content_type b c).0
  convert-IsAnswer nil c h e = inr (inr (inr (ground arith)))
  convert-IsAnswer (text s) c h e = inr (inr (inr (ground arith)))
  convert-IsAnswer (binary s) c h e = inr (inr (inr (ground arith)))
  convert-IsAnswer (reader s closes) c h e = cc
  convert-IsAnswer (other n) c h e = inr (inr (inr (ground arith)))

  respond_after-IsAnswer :
      (c : Context) (e : Option Err)
      → (respond_after marshal wrap content_type c e).1 ≡ none
      → IsAnswer (respond_after marshal wrap content_type c e).0
  unfolding respond_after
  respond_after-IsAnswer c (some e) = λ h. cc
  respond_after-IsAnswer c none =
      if-cases Answers (is_some c.body_buffer || c.committed) (c, none) _
        (λ h e. buffer_or_committed c h)
        (λ h.
          if-cases Answers (c.status_code == 0 && is_nil c.body) (c, some invalid_response) _
            (λ h' e. cc)
            (λ h'.
              if-cases Answers (is_reader c.body) (c, none)
                (convert marshal wrap content_type c.body c) (λ h'' e. inr (inr (inl h'')))
                (λ h'' e. convert-IsAnswer c.body c h'' e)))

  answer_json-status :
      (he : HesError) (o : Option Text) (c : Context)
      → (answer_json lib he o c).status_code ≡ c.status_code
  unfolding set_header
  answer_json-status he none c = refl
  answer_json-status he (some buf) c = refl

  answer_error-status :
      (response_type : Text) (he : HesError) (c : Context)
      → (answer_error lib response_type he c).status_code ≡ lib.status_or_internal he
  unfolding set_header
  answer_error-status response_type he c =
      let d = record c { status_code = lib.status_or_internal he } in
      if-cases (λ (r : Context). r.status_code ≡ lib.status_or_internal he)
        (text_eq response_type (codes "json")
          || contains (get_request_header (codes "Accept") d) (codes "application/json"))
        (answer_json lib he (lib.to_json he) d) (answer_text lib he d)
        (λ h. answer_json-status he (lib.to_json he) d) (λ h. refl)

  error_after-IsAnswer :
      (response_type : Text)
      → ((he : HesError) → lib.status_or_internal he ≢ 0)
      → (c : Context) (e : Option Err) → (e ≡ none → IsAnswer c)
      → let r = error_after lib response_type c e in (r.1 ≡ none) × IsAnswer r.0
  unfolding error_after
  error_after-IsAnswer response_type fallback c none h = (refl, h refl)
  error_after-IsAnswer response_type fallback c (some err) h =
      let he = wrap_as_hes_error lib err (codes "elton-error") in
      (
        refl,
        inr (
            inr (
              inr
                (subst (λ n. n ≢ 0) (sym (answer_error-status response_type he c)) (fallback he)))),
      )

  -- Behind the error and the responder middleware every request has an answer: from a context that
  -- is not committed, if the handlers within, whatever they are, return with some context and some
  -- error or nil, then the chain with the two in front returns nil, and the response is out already
  -- or there is a buffer, a reader or a status to send. (The fallback of `hes` gives every error a
  -- status. A panic of a handler goes through the two.)
  pub every_request_answered :
      (response_type : Text) (fuel : ℕ) (hs : List Handler) (c d : Context) (e : Option Err)
      (k : Cursor)
      → c.committed ≡ false
      → ((he : HesError) → lib.status_or_internal he ≢ 0)
      → run_chain fuel hs c ≡ some (d, returned e, k)
      → (r : Context) × (run_chain
            (suc (suc fuel))
            (layer (error_layer lib response_type)
              ∷ layer (responder_layer marshal wrap content_type)
              ∷ hs)
            c
          ≡ some (r, returned none, k))
        × IsAnswer r
  every_request_answered response_type fuel hs c d e k live fallback run =
      let responder = responder_layer marshal wrap content_type in
      let x = respond_after marshal wrap content_type d e in
      let r = error_after lib response_type x.0 x.1 in
      let (ok, answer) =
        error_after-IsAnswer response_type fallback x.0 x.1 (respond_after-IsAnswer d e) in
      (
        r.0,
        run_chain-layer (suc fuel) (error_layer lib response_type) (layer responder ∷ hs) c x.0 x.1
              k live (run_chain-layer fuel responder hs c d e k live run)
            ∙ ap (λ o. some (r.0, returned o, k)) ok,
        answer,
      )
