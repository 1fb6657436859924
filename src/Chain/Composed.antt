-- ===== src/Chain/Composed.antt =====
-- `Compose`: the handlers of a composed handler run around those that follow it.
use elton.Common.{
  ℕ, zero, suc, ◌+◌, ◌≤◌, ◌≡◌, refl, sym, ap, ◌∙◌, false, Option, none, some, List, [], ◌∷◌, ◌++◌,
  map, if◌then◌else◌, length, All, arith,
}
use elton.Context.{Context, Err}
use elton.Chain.{
  returned, Run, done, push, Handlers, Handler, handlers, Cursor, pick, enter, exec, start, pass_on,
  run_chain, compose,
}
use elton.Chain.Onion.{Layer, layer, onion, exec-done, Gives, Gives-layer, Gives-onion, exec_found}

-- The layers of a composed handler, around what runs behind it. There is no test of the commit.
abbrev pub around : List Layer → (Context → Context × Option Err) → Context → Context × Option Err
around [] inner c = inner c
around (l ∷ ls) inner c = let r = around ls inner (l.before c) in l.after r.0 r.1

abbrev inside : List Layer → List Layer → Cursor
inside ls ms = record { frames = handlers (map layer ls) ∷ []; base = handlers (map layer ms) }

-- Only what is picked matters to a call of `Next`.
Gives-pick :
    (fuel : ℕ) (k j : Cursor) (c : Context) (r : Context × Option Err)
    → pick c.committed k.frames k.base ≡ pick c.committed j.frames j.base
    → Gives fuel j c r
    → Gives fuel k c r
unfolding exec
Gives-pick zero k j c r e given then_ =
    let (k', run) = given then_ in
    (
      k',
      ap
            (λ (p : Option Handler × Cursor). elim p.0 [
              | none ↦ exec zero p.1 (then_ c (returned none))
              | some h ↦ none
            ])
            e
          ∙ run,
    )
Gives-pick (suc f) k j c r e given then_ =
    let (k', run) = given then_ in
    (
      k',
      ap
            (λ (p : Option Handler × Cursor). elim p.0 [
              | none ↦ exec (suc f) p.1 (then_ c (returned none))
              | some h ↦ elim (exec f p.1 (h c)) [
                | none ↦ none
                | some (d, o, k'') ↦ exec (suc f) k'' (then_ d o)
              ]
            ])
            e
          ∙ run,
    )

Gives-around :
    (ls ms : List Layer) (fuel : ℕ) (c : Context)
    → length ls + length ms ≤ fuel
    → Gives fuel (inside ls ms) c (around ls (onion ms) c)
unfolding handlers pick
Gives-around [] ms fuel c le =
    Gives-pick fuel (inside [] ms) (start (map layer ms)) c (onion ms c) refl
      (Gives-onion ms fuel c (omega arith))
Gives-around (l ∷ ls) ms zero c le = absurd (omega arith)
Gives-around (l ∷ ls) ms (suc f) c le =
    Gives-layer f (inside (l ∷ ls) ms) (inside ls ms) c l (around ls (onion ms) (l.before c)) refl
      (Gives-around ls ms f (l.before c) (omega arith))

exec-push :
    (fuel : ℕ) (k : Cursor) (hs : Handlers) (r : Run)
    → exec fuel k (push hs r) ≡ exec fuel (enter hs k) r
unfolding exec
exec-push zero k hs r = refl
exec-push (suc f) k hs r = refl

-- A composed handler runs its handlers, in order, around those that follow it on the route. The
-- first of them needs a context that is not committed; the others run all the same.
pub compose_lem :
    (l : Layer) (ls ms : List Layer) (fuel : ℕ) (c : Context)
    → c.committed ≡ false
    → length (l ∷ ls) + length ms ≤ fuel
    → (h : Handler) × (compose (map layer (l ∷ ls)) ≡ some h)
      × ((k : Cursor) × (run_chain (suc fuel) (h ∷ map layer ms) c
            ≡ some
                ((around (l ∷ ls) (onion ms) c).0, returned (around (l ∷ ls) (onion ms) c).1, k)))
unfolding compose run_chain pass_on
compose_lem l ls ms fuel c live le =
    let h : Handler = λ d. push (handlers (map layer (l ∷ ls))) (pass_on d) in
    let r = around (l ∷ ls) (onion ms) c in
    let (k, run) = Gives-around (l ∷ ls) ms fuel c le (λ d o. done d o) in
    (
      h,
      refl,
      (
        k,
        exec_found fuel (start (h ∷ map layer ms)) (start (map layer ms)) k c r.0 (returned r.1) h
              (λ d o. done d o) (unfold handlers pick in rw live)
              (exec-push fuel _ _ _ ∙ run ∙ exec-done fuel k r.0 (returned r.1))
            ∙ exec-done (suc fuel) k r.0 (returned r.1),
      ),
    )

-- A layer that does not commit the context on the way in.
abbrev pub StaysLive : Layer → Type 0
StaysLive l = (c : Context) → c.committed ≡ false → (l.before c).committed ≡ false

-- As long as nothing commits on the way in, composing handlers and listing them is the same.
pub around-eq-onion :
    (ls ms : List Layer) (c : Context)
    → All StaysLive ls
    → c.committed ≡ false
    → around ls (onion ms) c ≡ onion (ls ++ ms) c
around-eq-onion [] ms c h live = refl
around-eq-onion (l ∷ ls) ms c (h, hs) live =
    ap (λ (r : Context × Option Err). l.after r.0 r.1)
      (around-eq-onion ls ms (l.before c) hs (h c live))
    ∙ ap (λ b. if b then (c, none) else (let r = onion (ls ++ ms) (l.before c) in l.after r.0 r.1))
        (sym live)
