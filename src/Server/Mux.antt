-- ===== src/Server/Mux.antt =====
-- What the client sees of the answers that `ServeMux` gives by itself.
use elton.Common.{
  ℕ, ◌≡◌, ◌≢◌, refl, ap, ◌∙◌, false, ◌||◌, none, some, List, [], ◌∷◌, Text, codes, ◌==◌,
  if◌then◌else◌, arith,
}
use elton.Http
use elton.Http.{Header, Writer, new_writer, is_informational}
use elton.Http.Laws.{Distinct}
use elton.Context.{Request, Err, HesError}
use elton.Chain.{returned}
use elton.EdgeWriter.{
  EdgeWriter, Op, change, head, body, acquire, apply, apply_all, direct_all, flush, header_or_new,
}
use elton.EdgeWriter.Laws.{bodies, flush_delivers}
use elton.Server.{Elton, Route, Pooled, running}
use elton.Server.Serve.{
  MuxAnswer, own, run_pre, not_found, method_not_allowed, with_allow, settle, serve_http,
}

-- The status that a list of calls announces: the last `WriteHeader`, or 200 from a `Write` before
-- any.
abbrev pub last_status : List Op → ℕ → ℕ
last_status [] s = s
last_status (change f ∷ os) s = last_status os s
last_status (head code ∷ os) s = last_status os code
last_status (body b ∷ os) s = last_status os (if s == 0 then 200 else s)

-- The header that the calls build.
abbrev pub built : List Op → Header → Header
built [] h = h
built (change f ∷ os) h = built os (f h)
built (head code ∷ os) h = built os h
built (body b ∷ os) h = built os h

-- A writer that no route has taken and that has not been flushed.
abbrev pub Held : EdgeWriter → Type 0
Held ew = (ew.handled ≡ false) × (ew.header_wrote ≡ false)

apply-Held :
    (o : Op) (ew : EdgeWriter)
    → Held ew
    → Held (apply o ew)
      × ((apply o ew).status ≡ last_status (o ∷ []) ew.status)
      × (header_or_new (apply o ew).hdr ≡ built (o ∷ []) (header_or_new ew.hdr))
unfolding apply
apply-Held (change f) ew h = ground arith
apply-Held (head code) ew h = ground arith
apply-Held (body b) ew h = ground arith

apply_all-Held :
    (os : List Op) (ew : EdgeWriter)
    → Held ew
    → ((apply_all os ew).status ≡ last_status os ew.status)
      × (header_or_new (apply_all os ew).hdr ≡ built os (header_or_new ew.hdr))
unfolding apply_all
apply_all-Held [] ew h = (refl, refl)
apply_all-Held (change f ∷ os) ew h =
    let (still, s, g) = apply-Held (change f) ew h in
    let (s', g') = apply_all-Held os (apply (change f) ew) still in
    (s' ∙ ap (last_status os) s, g' ∙ ap (built os) g)
apply_all-Held (head code ∷ os) ew h =
    let (still, s, g) = apply-Held (head code) ew h in
    let (s', g') = apply_all-Held os (apply (head code) ew) still in
    (s' ∙ ap (last_status os) s, g' ∙ ap (built os) g)
apply_all-Held (body b ∷ os) ew h =
    let (still, s, g) = apply-Held (body b) ew h in
    let (s', g') = apply_all-Held os (apply (body b) ew) still in
    (s' ∙ ap (last_status os) s, g' ∙ ap (built os) g)

-- What the client gets when the mux answers itself with the calls `ops`, by the last status that
-- they announce.
abbrev pub own_answer : Elton → Request → Writer → EdgeWriter → List Op → Writer
own_answer e req w spare ops =
    let code = last_status ops 0 in
    if code == 405
    then method_not_allowed e (with_allow (Http.get (codes "Allow") (built ops [])) w) req
    else if code == 404 || code == 0
    then not_found e w req
    else (flush (apply_all ops (acquire spare w))).inner

last_status-bodies : (bs : List Text) (s : ℕ) → s ≢ 0 → last_status (bodies bs) s ≡ s
unfolding bodies
last_status-bodies [] s ne = refl
last_status-bodies (b ∷ bs) s ne = ground (arith, last_status-bodies bs s ne)

own_answer-flushed :
    (e : Elton) (req : Request) (w : Writer) (spare : EdgeWriter) (ops : List Op) {code : ℕ}
    → last_status ops 0 ≡ code
    → code ≢ 0
    → code ≢ 404
    → code ≢ 405
    → own_answer e req w spare ops ≡ (flush (apply_all ops (acquire spare w))).inner
own_answer-flushed e req w spare ops s n0 n404 n405 = ground arith

module _ (hes_text : HesError → Text) (text_of : Err → Text)
    (mux : List Route → Request → MuxAnswer) where
  -- While the instance is running, an answer of the mux itself is not what the client gets if the
  -- last status that it announces is 404 or 405, or if it announces none: then the framework's own
  -- handler answers, on a writer on which the mux has left no trace but the `Allow` field of a
  -- 405. Any other answer is flushed.
  pub serve_http-own :
      (fuel : ℕ) (e : Elton) (req : Request) (w : Writer) (spare : EdgeWriter) (pooled : Pooled)
      (ops : List Op)
      → e.status ≡ running
      → mux e.routes (run_pre e.pre_middlewares req) ≡ own ops
      → serve_http hes_text text_of mux fuel e req w spare pooled
        ≡ some (own_answer e (run_pre e.pre_middlewares req) w spare ops, returned none)
  unfolding serve_http settle
  serve_http-own fuel e req w spare pooled ops up ans =
      let (s, g) = apply_all-Held ops (acquire spare w) (unfold acquire in (refl, refl)) in
      let s' : (apply_all ops (acquire spare w)).status ≡ last_status ops 0 =
        s ∙ (unfold acquire in refl) in
      let g' : header_or_new (apply_all ops (acquire spare w)).hdr ≡ built ops [] =
        g ∙ (unfold acquire in refl) in
      rw (up, ans, s', g') refl

  -- While the instance is running, a redirect of the mux, or any other answer that it gives with a
  -- header of distinct keys, one final status that is not 0, 404 or 405, and a body in pieces, reaches a
  -- client to whom nothing was written yet exactly as the mux wrote it.
  pub serve_http-redirect :
      (fuel : ℕ) (e : Elton) (req : Request) (spare : EdgeWriter) (pooled : Pooled) (h : Header)
      (code : ℕ) (bs : List Text)
      → e.status ≡ running
      → mux e.routes (run_pre e.pre_middlewares req) ≡ own (change (λ _. h) ∷ head code ∷ bodies bs)
      → code ≢ 0
      → code ≢ 404
      → code ≢ 405
      → is_informational code ≡ false
      → Distinct h
      → serve_http hes_text text_of mux fuel e req new_writer spare pooled
        ≡ some (direct_all (change (λ _. h) ∷ head code ∷ bodies bs) new_writer, returned none)
  serve_http-redirect fuel e req spare pooled h code bs up ans n0 n404 n405 fin ds =
      let ops = change (λ _. h) ∷ head code ∷ bodies bs in
      let req' = run_pre e.pre_middlewares req in
      let flushed = (flush (apply_all ops (acquire spare new_writer))).inner in
      serve_http-own fuel e req new_writer spare pooled ops up ans
      ∙ ap (λ v. some (v, returned none))
          (own_answer-flushed e req' new_writer spare ops (last_status-bodies bs code n0) n0 n404
              n405
            ∙ flush_delivers spare h code bs n0 fin ds)
