-- ===== src/Server/Writes.antt =====
-- elton.go: what clearing header fields and closing a body leave, and what a write sends.
use elton.Common.{
  ℕ, ◌≤◌, ◌≡◌, refl, ◌∙◌, Bool, true, false, none, some, List, [], ◌∷◌, ◌++◌, Text, codes, text_eq,
  any_of, if◌then◌else◌, arith,
}
use elton.Http
use elton.Http.{Header, Writer, canonical, body_allowed}
use elton.Context.{
  Context, Body, nil, text, binary, reader, other, close_body, get_header, set_header,
  close_reader_body,
}
use elton.Context.Laws.{get_header-set_header}
use elton.Server.{checked_write_header, clear_headers, written}

abbrev pub error_fields : List Text
error_fields =
    codes "ETag" ∷ codes "Last-Modified" ∷ codes "Content-Encoding" ∷ codes "Content-Length" ∷ []

abbrev pub is_error_field : Text → Bool
is_error_field j = any_of (λ f. text_eq (canonical f) (canonical j)) error_fields

pub get_header-clear_headers :
    (j : Text) (c : Context)
    → get_header j (clear_headers c) ≡ (if is_error_field j then [] else get_header j c)
unfolding clear_headers
get_header-clear_headers j c =
    let c1 = set_header (codes "ETag") [] c in
    let c2 = set_header (codes "Last-Modified") [] c1 in
    let c3 = set_header (codes "Content-Encoding") [] c2 in
    ground (
      arith,
      get_header-set_header (codes "ETag") j [] c,
      get_header-set_header (codes "Last-Modified") j [] c1,
      get_header-set_header (codes "Content-Encoding") j [] c2,
      get_header-set_header (codes "Content-Length") j [] c3,
    )

pub set_header-writer :
    (k v : Text) (c : Context)
    → let w = (set_header k v c).response in (w.sent ≡ c.response.sent) × (w.body ≡ c.response.body)
unfolding set_header
set_header-writer k [] c = (refl, refl)
set_header-writer k (b ∷ v) c = (refl, refl)

pub close_body-response :
    (b : Body) (c : Context)
    → let d = close_body b c in (d.response ≡ c.response) × (d.status_code ≡ c.status_code)
close_body-response (reader s true) c = (refl, refl)
close_body-response (reader s false) c = (refl, refl)
close_body-response nil c = (refl, refl)
close_body-response (text s) c = (refl, refl)
close_body-response (binary s) c = (refl, refl)
close_body-response (other n) c = (refl, refl)

pub close_reader_body-response :
    (c : Context)
    → let d = close_reader_body c in (d.response ≡ c.response) × (d.status_code ≡ c.status_code)
unfolding close_reader_body
close_reader_body-response c = close_body-response c.body c

pub clear_headers-writer :
    (c : Context)
    → let w = (clear_headers c).response in (w.sent ≡ c.response.sent) × (w.body ≡ c.response.body)
unfolding clear_headers
clear_headers-writer c =
    let c1 = set_header (codes "ETag") [] c in
    let c2 = set_header (codes "Last-Modified") [] c1 in
    let c3 = set_header (codes "Content-Encoding") [] c2 in
    let (s1, b1) = set_header-writer (codes "ETag") [] c in
    let (s2, b2) = set_header-writer (codes "Last-Modified") [] c1 in
    let (s3, b3) = set_header-writer (codes "Content-Encoding") [] c2 in
    let (s4, b4) = set_header-writer (codes "Content-Length") [] c3 in
    (s4 ∙ s3 ∙ s2 ∙ s1, b4 ∙ b3 ∙ b2 ∙ b1)

-- What the server's writer has taken: the final status, the header fields of `h` and the bytes
-- `b`.
abbrev pub Sends : ℕ → Header → Text → Writer → Type 0
Sends code h b w = (w.sent ≡ some (code, h)) × (w.body ≡ b)

pub written-Sends :
    (code : ℕ) (b : Text) (w : Writer)
    → 200 ≤ code
    → code ≤ 999
    → w.sent ≡ none
    → written b (checked_write_header code w)
      ≡ some (record w {
        sent = some (code, w.header);
        body = if body_allowed code then w.body ++ b else w.body;
      })
unfolding checked_write_header Http.write_header Http.write
written-Sends code b w lo hi unsent = ground arith
