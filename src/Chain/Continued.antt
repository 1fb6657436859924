-- ===== src/Chain/Continued.antt =====
-- What a handler does behind `c.Next()`, whatever the handlers within are.
use elton.Common.{ℕ, zero, suc, ◌≡◌, refl, ap, ◌∙◌, sym, false, Option, none, some, List, [], ◌∷◌}
use elton.Context.{Context}
use elton.Chain.{
  Outcome, returned, Run, done, next, Handler, handlers, Cursor, pick, Result, exec, start,
  after_call, pass_on, run_chain,
}
use elton.Chain.Onion.{Layer, layer, leave, exec-done, exec_absent}
use elton.Context.{Err}

-- What a call of `Next` does with the result of the handler that was picked.
abbrev pub resume : ℕ → (Context → Outcome → Run) → Option Result → Option Result
resume fuel then_ none = none
resume fuel then_ (some (d, o, k)) = exec fuel k (then_ d o)

abbrev pub plainly : Context → Outcome → Run
plainly d o = done d o

pub exec_picked :
    (f : ℕ) (k k' : Cursor) (c : Context) (h : Handler) (then_ : Context → Outcome → Run)
    → pick c.committed k.frames k.base ≡ (some h, k')
    → exec (suc f) k (next c then_) ≡ resume (suc f) then_ (exec f k' (h c))
unfolding exec
exec_picked f k k' c h then_ e =
    ap
      (λ (p : Option Handler × Cursor). elim p.0 [
        | none ↦ exec (suc f) p.1 (then_ c (returned none))
        | some h ↦ resume (suc f) then_ (exec f p.1 (h c))
      ])
      e

exec-zero :
    (k k' : Cursor) (c : Context) (h : Handler) (then_ : Context → Outcome → Run)
    → pick c.committed k.frames k.base ≡ (some h, k')
    → exec zero k (next c then_) ≡ none
unfolding exec
exec-zero k k' c h then_ e =
    ap
      (λ (p : Option Handler × Cursor). elim p.0 [
        | none ↦ exec zero p.1 (then_ c (returned none))
        | some h ↦ none
      ])
      e

resume_lem :
    (fuel : ℕ) (then_ : Context → Outcome → Run) (r : Option Result) (d : Context) (o : Outcome)
    (k : Cursor)
    → resume fuel plainly r ≡ some (d, o, k)
    → resume fuel then_ r ≡ exec fuel k (then_ d o)
resume_lem fuel then_ none d o k e = cc
resume_lem fuel then_ (some (x, y, z)) d o k e =
    let same : some (x, y, z) ≡ some (d, o, k) = sym (exec-done fuel z x y) ∙ e in cc same

-- What follows a call of `Next` begins with the outcome of the rest of the chain.
pub continue_lem :
    (f : ℕ) (k : Cursor) (c : Context) (then_ : Context → Outcome → Run) (d : Context) (o : Outcome)
    (k'' : Cursor) (p : Option Handler × Cursor)
    → pick c.committed k.frames k.base ≡ p
    → exec f k (next c plainly) ≡ some (d, o, k'')
    → exec f k (next c then_) ≡ exec f k'' (then_ d o)
continue_lem f k c then_ d o k'' (none, k') picked run =
    let absent = exec_absent f k k' c plainly picked in
    let same : some (c, returned none, k') ≡ some (d, o, k'') =
      sym (exec-done f k' c (returned none)) ∙ sym absent ∙ run in
    exec_absent f k k' c then_ picked ∙ cc same
continue_lem zero k c then_ d o k'' (some h, k') picked run =
    absurd (cc (sym (exec-zero k k' c h plainly picked) ∙ run))
continue_lem (suc f) k c then_ d o k'' (some h, k') picked run =
    exec_picked f k k' c h then_ picked
    ∙ resume_lem (suc f) then_ (exec f k' (h c)) d o k''
        (sym (exec_picked f k k' c h plainly picked) ∙ run)

-- A layer around handlers that return.
pub run_chain-layer :
    (fuel : ℕ) (l : Layer) (hs : List Handler) (c d : Context) (e : Option Err) (k : Cursor)
    → c.committed ≡ false
    → run_chain fuel hs (l.before c) ≡ some (d, returned e, k)
    → let r = l.after d e in run_chain (suc fuel) (layer l ∷ hs) c ≡ some (r.0, returned r.1, k)
unfolding run_chain pass_on
run_chain-layer fuel l hs c d e k live run =
    let c' = l.before c in
    let r = l.after d e in
    let then_ = after_call (λ x y. leave (l.after x y)) in
    let inner =
      continue_lem fuel (start hs) c' then_ d (returned e) k (pick c'.committed [] (handlers hs))
        refl run
      ∙ exec-done fuel k r.0 (returned r.1) in
    let outer =
      exec_picked fuel (start (layer l ∷ hs)) (start hs) c (layer l) plainly
        (unfold pick handlers in rw live refl) in
    outer ∙ ap (resume (suc fuel) plainly) inner ∙ exec-done (suc fuel) k r.0 (returned r.1)
