-- ===== src/EdgeWriter/Laws.antt =====
-- Before a route takes the request nothing reaches the client; after that everything does.
use elton.Common.{
  ℕ, ◌≡◌, ◌≢◌, refl, sym, ap, ◌∙◌, true, false, false, none, some, List, [], ◌∷◌, ◌++◌, Text,
  append_assoc, append-nil, All, arith, Bool-cases, inl, inr,
}
use elton.Http
use elton.Http.{is_informational, takes_body, body_allowed, Header, Writer, new_writer, put}
use elton.Http.Laws.{Absent, Distinct, Absent-grow, All-Absent, put-Absent}
use elton.EdgeWriter.{
  EdgeWriter, acquire, copy_header, write, flush, Op, change, head, body, apply, apply_all, direct,
  direct_all,
}

apply-untouched :
    (o : Op) (ew : EdgeWriter)
    → ew.handled ≡ false
    → ((apply o ew).inner ≡ ew.inner) × ((apply o ew).handled ≡ false)
unfolding apply
apply-untouched (change f) ew h = ground arith
apply-untouched (head code) ew h = ground arith
apply-untouched (body b) ew h = ground arith

-- As long as no route has taken the request, whatever the router writes by itself leaves the
-- server's writer as it was, and the request free for a route.
pub apply_all-untouched :
    (os : List Op) (ew : EdgeWriter)
    → ew.handled ≡ false
    → ((apply_all os ew).inner ≡ ew.inner) × ((apply_all os ew).handled ≡ false)
unfolding apply_all
apply_all-untouched [] ew h = (refl, h)
apply_all-untouched (o ∷ os) ew h =
    let (same, still) = apply-untouched o ew h in
    let (same', still') = apply_all-untouched os (apply o ew) still in (same' ∙ same, still')

-- No informational status is announced.
abbrev pub IsFinalOp : Op → Type 0
IsFinalOp (change f) = Unit
IsFinalOp (head code) = is_informational code ≡ false
IsFinalOp (body b) = Unit

-- A writer that a route has taken, in step with the server's writer.
pub record Open (ew : EdgeWriter) : Type 0 where
  pub taken : ew.handled ≡ true
  pub unsent : ew.header_wrote ≡ false → (ew.status ≡ 0) × (ew.inner.sent ≡ none)
  pub was_sent : ew.header_wrote ≡ true → ew.inner.sent ≢ none

unfoldable pub bodies : List Text → List Op
bodies [] = []
bodies (b ∷ bs) = body b ∷ bodies bs

abbrev joined : List Text → Text
joined [] = []
joined (b ∷ bs) = b ++ joined bs

write-held :
    (b : Text) (ew : EdgeWriter)
    → ew.handled ≡ false
    → ew.status ≢ 0
    → write b ew ≡ record ew { buf = ew.buf ++ b }
unfolding write
write-held b ew h ne = ground arith

apply_all-bodies :
    (bs : List Text) (ew : EdgeWriter)
    → ew.handled ≡ false
    → ew.status ≢ 0
    → apply_all (bodies bs) ew ≡ record ew { buf = ew.buf ++ joined bs }
unfolding apply_all apply bodies
apply_all-bodies [] ew h ne = ap (λ t. record ew { buf = t }) (sym (append-nil ew.buf))
apply_all-bodies (b ∷ bs) ew h ne =
    ap (apply_all (bodies bs)) (write-held b ew h ne)
    ∙ apply_all-bodies bs (record ew { buf = ew.buf ++ b }) h ne
    ∙ ap (λ t. record ew { buf = t }) (append_assoc ew.buf b (joined bs))

direct_all-bodies :
    (bs : List Text) (w : Writer)
    → w.sent ≢ none
    → takes_body w.sent ≡ true
    → direct_all (bodies bs) w ≡ record w { body = w.body ++ joined bs }
unfolding direct_all direct bodies Http.write
direct_all-bodies [] w ne takes = ap (λ t. record w { body = t }) (sym (append-nil w.body))
direct_all-bodies (b ∷ bs) w ne takes =
    let one : Http.write b w ≡ record w { body = w.body ++ b } = ground arith in
    ap (direct_all (bodies bs)) one
    ∙ direct_all-bodies bs (record w { body = w.body ++ b }) ne takes
    ∙ ap (λ t. record w { body = t }) (append_assoc w.body b (joined bs))

direct_all-refused :
    (bs : List Text) (w : Writer)
    → w.sent ≢ none
    → takes_body w.sent ≡ false
    → direct_all (bodies bs) w ≡ w
unfolding direct_all direct bodies Http.write
direct_all-refused [] w ne refuses = refl
direct_all-refused (b ∷ bs) w ne refuses =
    let one : Http.write b w ≡ w = ground arith in
    ap (direct_all (bodies bs)) one ∙ direct_all-refused bs w ne refuses

copy_header-append :
    (h dst : Header) → Distinct h → All (λ e. Absent e.0 dst) h → copy_header h dst ≡ dst ++ h
unfolding copy_header
copy_header-append [] dst ds a = sym (append-nil dst)
copy_header-append ((k, vv) ∷ h) dst (new, ds) (a, fresh) =
    ap (copy_header h) (put-Absent k vv dst a)
    ∙ copy_header-append h (dst ++ (k, vv) ∷ []) ds (Absent-grow k vv h dst new fresh)
    ∙ append_assoc dst ((k, vv) ∷ []) h

-- An answer of the router itself, such as a redirect, with a final status is delivered as it was written: flushing
-- what was held back gives the response that the same calls make on the server's writer.
pub flush_delivers :
    (pooled : EdgeWriter) (h : Header) (code : ℕ) (bs : List Text)
    → code ≢ 0
    → is_informational code ≡ false
    → Distinct h
    → (flush
        (apply_all (change (λ _. h) ∷ head code ∷ bodies bs) (acquire pooled new_writer))).inner
      ≡ direct_all (change (λ _. h) ∷ head code ∷ bodies bs) new_writer
unfolding flush acquire apply_all apply direct_all direct Http.write Http.write_header
flush_delivers pooled h code bs ne fin ds =
    let held = apply_all (change (λ _. h) ∷ head code ∷ []) (acquire pooled new_writer) in
    let sent : Writer = record { header = h; sent = some (code, h); body = [] } in
    let copy = copy_header-append h [] ds (All-Absent h) in
    elim (Bool-cases (body_allowed code)) [
      | inl takes ↦ ground (
        arith,
        fin,
        takes,
        apply_all-bodies bs held,
        direct_all-bodies bs sent (λ e. cc e) takes,
        copy,
      )
      | inr refuses ↦ ground (
        arith,
        fin,
        refuses,
        apply_all-bodies bs held,
        direct_all-refused bs sent (λ e. cc e) refuses,
        copy,
      )
    ]
