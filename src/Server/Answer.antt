-- ===== src/Server/Answer.antt =====
-- The bytes of the response that the route handler sends behind the chain.
use elton.Common.{
  ℕ, ◌≤◌, ◌<◌, ◌≡◌, ◌⊎◌, refl, sym, ap, subst, ◌∙◌, inl, inr, Bool, true, false, none, some, [],
  ◌++◌, Text, codes, text_eq, if◌then◌else◌, ◌==◌, length, itoa, arith,
}
use elton.Http
use elton.Http.{Header, Writer, canonical, body_allowed}
use elton.Context.{Context, Err, HesError, as_hes, get_header, set_header, close_reader_body}
use elton.Context.Laws.{get_header-set_header, set_header-others}
use elton.Chain.{returned}
use elton.Server.{
  Elton, emit_error, checked_write_header, clear_headers, bad_code, error, error_status,
  error_message, send, finish, written, status_line, answered,
}
use elton.Server.Finish.{IsStatus}
use elton.Server.Writes.{
  is_error_field, get_header-clear_headers, set_header-writer, close_reader_body-response,
  clear_headers-writer, Sends, written-Sends,
}

-- A status that a response with a body may have.
abbrev pub IsBodyStatus : ℕ → Type 0
IsBodyStatus code = (code ≡ 0) ⊎ ((code ≤ 999) × (body_allowed code ≡ true))

IsBodyStatus-IsStatus : (code : ℕ) → IsBodyStatus code → IsStatus code
IsBodyStatus-IsStatus code (inl z) = inl z
IsBodyStatus-IsStatus code (inr (hi, has_body)) = inr (ground arith, hi)

module _ (hes_text : HesError → Text) (text_of : Err → Text) where
  default_error :
      (err : Err) (c : Context)
      → 200 ≤ error_status hes_text text_of (as_hes err)
      → error_status hes_text text_of (as_hes err) ≤ 999
      → c.response.sent ≡ none
      → let r = error hes_text text_of none err c in
        let d = clear_headers c in
        (r.1 ≡ returned none)
        × Sends
            (error_status hes_text text_of (as_hes err))
            d.response.header
            (if body_allowed (error_status hes_text text_of (as_hes err))
              then c.response.body ++ error_message hes_text text_of (as_hes err) err
              else c.response.body)
            r.0.response
  unfolding error
  default_error err c lo hi unsent =
      rw
        (written-Sends (error_status hes_text text_of (as_hes err))
          (error_message hes_text text_of (as_hes err) err) (clear_headers c).response lo hi unsent)
        (refl, (refl, refl))

  finish-error :
      (e : Elton) (err : Err) (c : Context)
      → e.error_listeners ≡ []
      → e.error_handler ≡ none
      → c.committed ≡ false
      → finish hes_text text_of e (some err) c
        ≡ error hes_text text_of none err (close_reader_body (record c { committed = true }))
  unfolding finish emit_error
  finish-error e err c ln eh live = rw (ln, eh, live) refl

  get_header-one :
      (f : Text → Bool) (n k : Text) (c d : Context)
      → d.response ≡ c.response
      → (if f k then n else get_header k d) ≡ (if f k then n else get_header k c)
  unfolding get_header
  get_header-one f n k c d same = ap (λ w. if f k then n else Http.get k w.header) same

  bad_status :
      (code : ℕ) (w : Writer)
      → w.sent ≡ none
      → (code < 100) ⊎ (999 < code)
      → checked_write_header code w ≡ none
  unfolding checked_write_header
  bad_status code w unsent bad = ground arith

  -- What the default error handler answers to the error of a chain, when there is no error
  -- listener, the context is not committed, no response was sent and the status of the error is
  -- from 200 to 999. The server's writer takes the status of the `hes.Error` in the error's chain,
  -- or 500 if there is none, with the header fields that were set except `ETag`, `Last-Modified`,
  -- `Content-Encoding` and `Content-Length`; and behind what it took before, the text of that error,
  -- unless the status is 204 or 304, which have no body.
  pub error_response :
      (e : Elton) (err : Err) (c : Context)
      → e.error_listeners ≡ []
      → e.error_handler ≡ none
      → c.committed ≡ false
      → c.response.sent ≡ none
      → 200 ≤ error_status hes_text text_of (as_hes err)
      → error_status hes_text text_of (as_hes err) ≤ 999
      → let r = finish hes_text text_of e (some err) c in
        (r.1 ≡ returned none)
        × ((h : Header) × Sends
              (error_status hes_text text_of (as_hes err))
              h
              (if body_allowed (error_status hes_text text_of (as_hes err))
                then c.response.body ++ error_message hes_text text_of (as_hes err) err
                else c.response.body)
              r.0.response
            × ((k : Text) → Http.get k h ≡ (if is_error_field k then [] else get_header k c)))
  unfolding get_header
  error_response e err c ln eh live unsent lo hi =
      let d = close_reader_body (record c { committed = true }) in
      let (same, _) = close_reader_body-response (record c { committed = true }) in
      let (ok, (sent, out)) = default_error err d lo hi (ap (λ w. w.sent) same ∙ unsent) in
      let code = error_status hes_text text_of (as_hes err) in
      let message = error_message hes_text text_of (as_hes err) err in
      let body_same = ap (λ w. if body_allowed code then w.body ++ message else w.body) same in
      rw (finish-error e err c ln eh live) (
        ok,
        (
          (clear_headers d).response.header,
          (sent, out ∙ body_same),
          λ k. get_header-clear_headers k d ∙ get_header-one is_error_field [] k c d same,
        ),
      )

  -- Without error listeners and without a custom error handler, the end of a request whose context
  -- is not committed, on which nothing was sent, and whose chain returned an error with a
  -- `hes.Error` in it panics if that error's status is below 100 or above 999, such as the 0 of an
  -- error made without one; nothing is sent.
  pub error_crashes :
      (e : Elton) (err : Err) (he : HesError) (c : Context)
      → e.error_listeners ≡ []
      → e.error_handler ≡ none
      → c.committed ≡ false
      → c.response.sent ≡ none
      → as_hes err ≡ some he
      → (he.status_code < 100) ⊎ (999 < he.status_code)
      → let r = finish hes_text text_of e (some err) c in
        (r.1 ≡ bad_code) × (r.0.response.sent ≡ none) × (r.0.response.body ≡ c.response.body)
  unfolding error
  error_crashes e err he c ln eh live unsent found bad =
      let d = close_reader_body (record c { committed = true }) in
      let (same, _) = close_reader_body-response (record c { committed = true }) in
      let quiet = (clear_headers-writer d).0 ∙ ap (λ w. w.sent) same ∙ unsent in
      rw
        (
          finish-error e err c ln eh live,
          found,
          bad_status he.status_code (clear_headers d).response quiet bad,
        )
        (refl, quiet, (clear_headers-writer d).1 ∙ ap (λ w. w.body) same)

  status_written :
      (code : ℕ) (b : Text) (w : Writer)
      → IsBodyStatus code
      → w.sent ≡ none
      → written b (status_line hes_text text_of code w)
        ≡ some (record w {
          sent = some (if code == 0 then 200 else code, w.header);
          body = w.body ++ b;
        })
  unfolding checked_write_header Http.write_header Http.write
  status_written code b w (inl zero_code) unsent = ground arith
  status_written code b w (inr (hi, has_body)) unsent = ground arith

  finish_buffer :
      (e : Elton) (b : Text) (c : Context)
      → c.committed ≡ false
      → c.body_buffer ≡ some b
      → let d =
          set_header
            (codes "Content-Length")
            (itoa (length b))
            (close_reader_body (record c { committed = true })) in
        finish hes_text text_of e none c
        ≡ answered d (written b (status_line hes_text text_of d.status_code d.response))
  unfolding finish send
  finish_buffer e b c live buf = rw (live, buf) refl

  -- A chain that left a buffer and no error, in a context that is not committed, with a status
  -- that is 0 or has a body (from 200 to 999, but not 204 and 304), and before anything was sent:
  -- the server's writer takes the status of the context, 200 for 0, exactly the bytes of the buffer
  -- behind what it took before, and their number as `Content-Length`; the other header fields are
  -- those of the context.
  pub buffer_response :
      (e : Elton) (c : Context) (b : Text)
      → c.committed ≡ false
      → c.response.sent ≡ none
      → IsBodyStatus c.status_code
      → c.body_buffer ≡ some b
      → let r = finish hes_text text_of e none c in
        (r.1 ≡ returned none)
        × ((h : Header) × Sends
              (if c.status_code == 0 then 200 else c.status_code)
              h
              (c.response.body ++ b)
              r.0.response
            × ((k : Text)
                → Http.get k h ≡ (
                    if text_eq (canonical (codes "Content-Length")) (canonical k)
                    then itoa (length b)
                    else get_header k c)))
  unfolding get_header
  buffer_response e c b live unsent st buf =
      let c' = close_reader_body (record c { committed = true }) in
      let key = codes "Content-Length" in
      let n = itoa (length b) in
      let d = set_header key n c' in
      let (same, code) = close_reader_body-response (record c { committed = true }) in
      let code' : d.status_code ≡ c.status_code = (set_header-others key n c').1 ∙ code in
      let (sent, out) = set_header-writer key n c' in
      rw
        (
          finish_buffer e b c live buf,
          status_written d.status_code b d.response (subst IsBodyStatus (sym code') st)
              (sent ∙ ap (λ w. w.sent) same ∙ unsent),
          code',
        )
        (
          refl,
          (
            d.response.header,
            (refl, ap (λ t. t ++ b) (out ∙ ap (λ w. w.body) same)),
            λ k.
                get_header-set_header key k n c'
                ∙ get_header-one (λ j. text_eq (canonical key) (canonical j)) n k c c' same,
          ),
        )
