-- ===== src/Chain/Onion.antt =====
-- The order in which middleware runs: inwards to the handler, and outwards back.
use elton.Common.{
  ℕ, zero, suc, ◌≤◌, ◌≡◌, refl, ap, ◌∙◌, Bool, true, false, Option, none, some, List, [], ◌∷◌, map,
  if◌then◌else◌, length, arith,
}
use elton.Context.{Context, Err}
use elton.Chain.{
  Outcome, returned, Run, done, next, end, Handler, handlers, after_call, Cursor, pick, Result,
  exec, start, pass_on, run_chain,
}

-- A middleware that does something, calls `Next` once, and does something with what it returned.
pub record Layer : Type 0 where
  pub before : Context → Context
  pub after : Context → Option Err → Context × Option Err

abbrev pub leave : Context × Option Err → Run
leave (d, e) = done d (returned e)

abbrev pub layer : Layer → Handler
layer l c = next (l.before c) (after_call (λ d e. leave (l.after d e)))

-- What the chain does with such middleware: a nested call, cut short once committed.
abbrev pub onion : List Layer → Context → Context × Option Err
onion [] c = (c, none)
onion (l ∷ ls) c =
    if c.committed then (c, none) else (let r = onion ls (l.before c) in l.after r.0 r.1)

pub onion-cons :
    (l : Layer) (ls : List Layer) (c : Context)
    → c.committed ≡ false
    → onion (l ∷ ls) c ≡ (let r = onion ls (l.before c) in l.after r.0 r.1)
onion-cons l ls c live = rw live refl

pub exec-done :
    (fuel : ℕ) (k : Cursor) (c : Context) (o : Outcome) → exec fuel k (done c o) ≡ some (c, o, k)
unfolding exec
exec-done zero k c o = refl
exec-done (suc f) k c o = refl

pub exec_absent :
    (fuel : ℕ) (k k' : Cursor) (c : Context) (then_ : Context → Outcome → Run)
    → pick c.committed k.frames k.base ≡ (none, k')
    → exec fuel k (next c then_) ≡ exec fuel k' (then_ c (returned none))
unfolding exec
exec_absent zero k k' c then_ e =
    ap
      (λ (p : Option Handler × Cursor). elim p.0 [
        | none ↦ exec zero p.1 (then_ c (returned none))
        | some h ↦ none
      ])
      e
exec_absent (suc f) k k' c then_ e =
    ap
      (λ (p : Option Handler × Cursor). elim p.0 [
        | none ↦ exec (suc f) p.1 (then_ c (returned none))
        | some h ↦ elim (exec f p.1 (h c)) [
          | none ↦ none
          | some (d, o, k'') ↦ exec (suc f) k'' (then_ d o)
        ]
      ])
      e

pub exec_found :
    (f : ℕ) (k k' k'' : Cursor) (c d : Context) (o : Outcome) (h : Handler)
    (then_ : Context → Outcome → Run)
    → pick c.committed k.frames k.base ≡ (some h, k')
    → exec f k' (h c) ≡ some (d, o, k'')
    → exec (suc f) k (next c then_) ≡ exec (suc f) k'' (then_ d o)
unfolding exec
exec_found f k k' k'' c d o h then_ e run =
    ap
      (λ (p : Option Handler × Cursor). elim p.0 [
        | none ↦ exec (suc f) p.1 (then_ c (returned none))
        | some h ↦ elim (exec f p.1 (h c)) [
          | none ↦ none
          | some (d, o, k'') ↦ exec (suc f) k'' (then_ d o)
        ]
      ])
      e
    ∙ ap
        (λ (r : Option Result). elim r [
          | none ↦ none
          | some (d, o, k'') ↦ exec (suc f) k'' (then_ d o)
        ])
        run

-- What a call of `Next` comes to when the rest of the chain gives `r`.
abbrev pub Gives : ℕ → Cursor → Context → Context × Option Err → Type 0
Gives fuel k c r =
    (then_ : Context → Outcome → Run)
    → (k' : Cursor) × (exec fuel k (next c then_) ≡ exec fuel k' (then_ r.0 (returned r.1)))

-- A picked layer leaves what its `after` makes of the result of the rest.
pub Gives-layer :
    (f : ℕ) (k k' : Cursor) (c : Context) (l : Layer) (r : Context × Option Err)
    → pick c.committed k.frames k.base ≡ (some (layer l), k')
    → Gives f k' (l.before c) r
    → Gives (suc f) k c (l.after r.0 r.1)
Gives-layer f k k' c l r e inner then_ =
    let (k'', run) = inner (after_call (λ d e. leave (l.after d e))) in
    let out = l.after r.0 r.1 in
    (
      k'',
      exec_found f k k' k'' c out.0 (returned out.1) (layer l) then_ e
          (run ∙ exec-done f k'' out.0 (returned out.1)),
    )

Gives-absent :
    (fuel : ℕ) (k k' : Cursor) (c : Context)
    → pick c.committed k.frames k.base ≡ (none, k')
    → Gives fuel k c (c, none)
Gives-absent fuel k k' c e then_ = (k', exec_absent fuel k k' c then_ e)

pick_at_end : (b : Bool) → pick b [] end ≡ (none, record { frames = []; base = end })
unfolding pick
pick_at_end true = refl
pick_at_end false = refl

Gives-cons :
    (f : ℕ) (l : Layer) (ls : List Layer) (c : Context) (b : Bool)
    → c.committed ≡ b
    → Gives f (start (map layer ls)) (l.before c) (onion ls (l.before c))
    → Gives
        (suc f)
        (start (map layer (l ∷ ls)))
        c
        (if b then (c, none) else (let r = onion ls (l.before c) in l.after r.0 r.1))
unfolding handlers pick
Gives-cons f l ls c true e rest =
    let k = start (map layer (l ∷ ls)) in Gives-absent (suc f) k k c (rw e)
Gives-cons f l ls c false e rest =
    Gives-layer f (start (map layer (l ∷ ls))) (start (map layer ls)) c l (onion ls (l.before c))
      (rw e) rest

pub Gives-onion :
    (ls : List Layer) (fuel : ℕ) (c : Context)
    → length ls ≤ fuel
    → Gives fuel (start (map layer ls)) c (onion ls c)
Gives-onion [] fuel c le =
    Gives-absent fuel (start []) (start []) c (unfold handlers in pick_at_end c.committed)
Gives-onion (l ∷ ls) zero c le = absurd (omega arith)
Gives-onion (l ∷ ls) (suc f) c le =
    Gives-cons f l ls c c.committed refl (Gives-onion ls f (l.before c) (omega arith))

-- A chain of middleware is a nest of calls: each one's first half runs on the way in, in the
-- order of registration, and its second half on the way out, in the reverse order, with the
-- context and the error that the inner ones returned; a committed context turns back at once.
pub run_chain-onion :
    (ls : List Layer) (fuel : ℕ) (c : Context)
    → length ls ≤ fuel
    → (k : Cursor) × (run_chain fuel (map layer ls) c
        ≡ some ((onion ls c).0, returned (onion ls c).1, k))
unfolding run_chain pass_on
run_chain-onion ls fuel c le =
    let (k, run) = Gives-onion ls fuel c le (λ d o. done d o) in
    (k, run ∙ exec-done fuel k (onion ls c).0 (returned (onion ls c).1))
