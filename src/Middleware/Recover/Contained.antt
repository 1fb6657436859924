-- ===== src/Middleware/Recover/Contained.antt =====
-- No panic passes the recover middleware.
use elton.Common.{
  ℕ, suc, ◌≡◌, inl, inr, refl, ap, ◌∙◌, true, false, Option, none, some, List, [], ◌∷◌, Text,
  Option-cases, is_some,
}
use elton.Context.{Context, Err, plain, HesError, hes, set_header}
use elton.Chain.{
  Outcome, returned, panicked_err, panicked_value, Run, Handler, handlers, Cursor, pick, exec,
  start, pass_on, run_chain,
}
use elton.Chain.Onion.{exec-done}
use elton.Chain.Continued.{resume, plainly, exec_picked, continue_lem}
use elton.Http
use elton.Http.{Writer}
use elton.Server.{checked_write_header, clear_headers, emit_error, answered, written}
use elton.Middleware.Error.{Hes}
use elton.Middleware.Recover.{
  recovered, respond, in_json, json_of, json_or_text, recover_handler, finish_with,
}

-- What the recover middleware returns for the outcome of the handlers within: theirs, or nil and a
-- response that is sent if they panicked.
abbrev pub Contained : Context → Outcome → Context × Option Err → Type 0
Contained d (returned e) r = r ≡ (d, e)
Contained d o r = (r.1 ≡ none) × (r.0.committed ≡ true) × (is_some r.0.response.sent ≡ true)

module _ (lib : Hes) (wrap_panic : Err → HesError) (listeners : List (Context → Err → Context))
    (status_set : (e : Err) → (wrap_panic e).status_code ≡ 500) where
  sent_after :
      (b : Text) (w : Writer) → is_some (Http.write b (Http.write_header 500 w)).sent ≡ true
  unfolding Http.write Http.write_header
  sent_after b w = elim (Option-cases w.sent) [ inl e ↦ rw e refl | inr (s, e) ↦ rw e refl ]

  later_sent :
      (b : Text) (w : Writer) (s : ℕ × Http.Header)
      → w.sent ≡ some s
      → is_some (Http.write b w).sent ≡ true
  unfolding Http.write
  later_sent b w s later = rw later refl

  answered_lem :
      (code : ℕ) (b : Text) (e : Context)
      → code ≡ 500
      → e.committed ≡ true
      → (r : Context) × (answered e (written b (checked_write_header code e.response))
          ≡ (r, returned none))
        × (r.committed ≡ true)
        × (is_some r.response.sent ≡ true)
  unfolding checked_write_header
  answered_lem code b e is_500 committed = elim (Option-cases e.response.sent) [
    | inl first ↦ (
      record e { response = Http.write b (Http.write_header 500 e.response) },
      rw (is_500, first) refl,
      committed,
      sent_after b e.response,
    )
    | inr (s, later) ↦ (
      record e { response = Http.write b e.response },
      rw (is_500, later) refl,
      committed,
      later_sent b e.response s later,
    )
  ]

  in_json-committed :
      (c : Context) (json : Option Text)
      → (in_json lib wrap_panic listeners c json).committed ≡ c.committed
  unfolding set_header
  in_json-committed c none = refl
  in_json-committed c (some b) = refl

  respond_lem :
      (e : Err) (d : Context)
      → (r : Context) × (respond lib wrap_panic listeners (wrap_panic e) d ≡ (r, returned none))
        × (r.committed ≡ true)
        × (is_some r.response.sent ≡ true)
  respond_lem e d =
      let he = wrap_panic e in
      let c = record (clear_headers (emit_error listeners (hes he) d)) { committed = true } in
      let json = json_of lib wrap_panic listeners he c in
      answered_lem he.status_code (json_or_text lib wrap_panic listeners he json)
        (in_json lib wrap_panic listeners c json) (status_set e) (in_json-committed c json)

  recovered_lem :
      (d : Context) (o : Outcome)
      → (r : Context × Option Err) × (recovered lib wrap_panic listeners d o ≡ (r.0, returned r.1))
        × Contained d o r
  unfolding recovered
  recovered_lem d (returned e) = ((d, e), refl, refl)
  recovered_lem d (panicked_err e) =
      let (r, run, committed, sent) = respond_lem e d in ((r, none), run, (refl, committed, sent))
  recovered_lem d (panicked_value v) =
      let (r, run, committed, sent) = respond_lem (plain v) d in
      ((r, none), run, (refl, committed, sent))

  -- No panic passes the recover middleware: if the handlers within, whatever they are, end with a
  -- context and an outcome, then the chain with the middleware in front of them returns. For an
  -- outcome that is no panic it returns the same; for a panic it returns nil, and the response is
  -- committed and has a status. (The response was not committed when the middleware was entered,
  -- and `hes` sets the status 500 that it is asked for.)
  pub recover_contains :
      (fuel : ℕ) (hs : List Handler) (c d : Context) (o : Outcome) (k : Cursor)
      → c.committed ≡ false
      → run_chain fuel hs c ≡ some (d, o, k)
      → (r : Context × Option Err) × (run_chain
            (suc fuel)
            (recover_handler lib wrap_panic listeners ∷ hs)
            c
          ≡ some (r.0, returned r.1, k))
        × Contained d o r
  unfolding run_chain pass_on
  recover_contains fuel hs c d o k live run =
      let rec = recover_handler lib wrap_panic listeners in
      let then_ : Context → Outcome → Run =
        λ x y. finish_with (recovered lib wrap_panic listeners x y) in
      let (r, recovers, contained) = recovered_lem d o in
      let inner =
        continue_lem fuel (start hs) c then_ d o k (pick c.committed [] (handlers hs)) refl run
        ∙ ap (λ x. exec fuel k (finish_with x)) recovers
        ∙ exec-done fuel k r.0 (returned r.1) in
      let outer =
        exec_picked fuel (start (rec ∷ hs)) (start hs) c rec plainly
          (unfold pick handlers in rw live refl) in
      (
        r,
        outer ∙ ap (resume (suc fuel) plainly) inner ∙ exec-done (suc fuel) k r.0 (returned r.1),
        contained,
      )
