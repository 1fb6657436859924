-- ===== src/Server/Finish.antt =====
-- What a route handler leaves behind when the chain has returned.
use elton.Common.{
  ℕ, ◌+◌, ◌≤◌, ◌≡◌, ◌⊎◌, refl, ap, ◌∙◌, inl, inr, true, false, Option, none, some, [], ◌∷◌, Text,
  codes, if◌then◌else◌, Bool-cases, length, itoa, is_some, arith,
}
use elton.Http
use elton.Http.{Header, Writer, canonical}
use elton.Context.{
  Context, Body, nil, text, binary, reader, other, Err, HesError, set_header, close_reader_body,
  close_body, is_reader, pipe, pipe_body,
}
use elton.Server.{
  Elton, emit_error, checked_write_header, clear_headers, error, send, finish, send_buffer,
  answered, written, status_line, pipe_after,
}

-- How often the body wants `Close`.
abbrev pub closable : Body → ℕ
closable (reader s true) = 1
closable _ = 0

-- A status code that `WriteHeader` takes, or none.
abbrev pub IsStatus : ℕ → Type 0
IsStatus n = (n ≡ 0) ⊎ ((100 ≤ n) × (n ≤ 999))

close_body_closes : (b : Body) (c : Context) → (close_body b c).closes ≡ c.closes + closable b
close_body_closes (reader s true) c = refl
close_body_closes (reader s false) c = omega arith
close_body_closes nil c = omega arith
close_body_closes (text s) c = omega arith
close_body_closes (binary s) c = omega arith
close_body_closes (other n) c = omega arith

close_reader_body-closes : (c : Context) → (close_reader_body c).closes ≡ c.closes + closable c.body
unfolding close_reader_body
close_reader_body-closes c = close_body_closes c.body c

set_header-closes : (k v : Text) (c : Context) → (set_header k v c).closes ≡ c.closes
unfolding set_header
set_header-closes k [] c = refl
set_header-closes k (b ∷ v) c = refl

answered-closes : (c : Context) (w : Option Writer) → (answered c w).0.closes ≡ c.closes
answered-closes c none = refl
answered-closes c (some w) = refl

clear_headers-closes : (c : Context) → (clear_headers c).closes ≡ c.closes
unfolding clear_headers
clear_headers-closes c =
    let c1 = set_header (codes "ETag") [] c in
    let c2 = set_header (codes "Last-Modified") [] c1 in
    let c3 = set_header (codes "Content-Encoding") [] c2 in
    set_header-closes (codes "Content-Length") [] c3
    ∙ set_header-closes (codes "Content-Encoding") [] c2
    ∙ set_header-closes (codes "Last-Modified") [] c1
    ∙ set_header-closes (codes "ETag") [] c

status_line-sent :
    (code : ℕ) (w : Writer) (t : HesError → Text) (u : Err → Text)
    → IsStatus code
    → (v : Writer) × (status_line t u code w ≡ some v)
unfolding checked_write_header
status_line-sent code w t u (inl zero_code) = (w, ground arith)
status_line-sent code w t u (inr (lo, hi)) = elim (Bool-cases (is_some w.sent)) [
  | inl later ↦ (w, ground arith)
  | inr first ↦ (Http.write_header code w, ground arith)
]

module _ (hes_text : HesError → Text) (text_of : Err → Text) where
  send_buffer-closes :
      (b : Text) (c : Context)
      → (send_buffer hes_text text_of b c).0.closes ≡ c.closes + closable c.body
  unfolding close_reader_body
  send_buffer-closes b c =
      let d = set_header (codes "Content-Length") (itoa (length b)) (close_reader_body c) in
      answered-closes d (written b (status_line hes_text text_of d.status_code d.response))
      ∙ set_header-closes (codes "Content-Length") (itoa (length b)) (close_reader_body c)
      ∙ close_body_closes c.body c

  pipe_after-closes :
      (c : Context) (w : Option Writer)
      → is_some w ≡ true
      → (pipe_after hes_text text_of (answered c w)).0.closes ≡ c.closes + closable c.body
  unfolding pipe
  pipe_after-closes c none h = cc
  pipe_after-closes c (some w) h = go c.body
    where
      go :
          (b : Body)
          → (if is_reader b
              then pipe_body b (record c { response = w })
              else record c { response = w }).closes
            ≡ c.closes + closable b
      go nil = omega arith
      go (text s) = omega arith
      go (binary s) = omega arith
      go (other n) = omega arith
      go (reader s true) = omega arith
      go (reader s false) = omega arith

  send-closes :
      (buf : Option Text) (c : Context)
      → IsStatus c.status_code
      → (send hes_text text_of buf c).0.closes ≡ c.closes + closable c.body
  unfolding send
  send-closes (some b) c st = send_buffer-closes b c
  send-closes none c st =
      let (v, sent) = status_line-sent c.status_code c.response hes_text text_of st in
      pipe_after-closes c (status_line hes_text text_of c.status_code c.response) (ap is_some sent)

  error-closes : (err : Err) (c : Context) → (error hes_text text_of none err c).0.closes ≡ c.closes
  unfolding error
  error-closes err c = answered-closes (clear_headers c) _ ∙ clear_headers-closes c

  -- If the context is not committed when the chain has returned, and its status is 0 or from 100
  -- to 999, then the body of the response is closed exactly once if it is a reader that can be
  -- closed, and never otherwise: on the error path, when the buffer is sent in its place, and when
  -- it is copied to the client. (The error listeners and a custom error handler are the
  -- application's and may do anything, so there are none.)
  pub finish_closes :
      (e : Elton) (err : Option Err) (c : Context)
      → e.error_listeners ≡ []
      → e.error_handler ≡ none
      → c.committed ≡ false
      → IsStatus c.status_code
      → (finish hes_text text_of e err c).0.closes ≡ c.closes + closable c.body
  unfolding finish emit_error
  finish_closes e none c ln eh live st =
      rw live (send-closes c.body_buffer (record c { committed = true }) st)
  finish_closes e (some err) c ln eh live st =
      let d = record c { committed = true } in
      rw (ln, eh, live) (error-closes err (close_reader_body d) ∙ close_reader_body-closes d)
