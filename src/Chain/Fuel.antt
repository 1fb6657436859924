-- ===== src/Chain/Fuel.antt =====
-- The chain ends: how much fuel the handlers need.
use elton.Common.{
  ℕ, zero, suc, ◌+◌, ◌≤◌, ◌≡◌, refl, Bool, true, false, Option, none, some, List, [], ◌∷◌, arith,
}
use elton.Context.{Context}
use elton.Chain.{
  Outcome, returned, Run, done, next, push, Handlers, end, step, Handler, handlers, Cursor, pick,
  enter, Result, exec, pass_on, start, run_chain,
}

-- `Weighs n r`: what `r` pushes holds `n` handlers at most, counting with each handler what it
-- pushes itself. `WeighAll n hs`: so for the list `hs`.
mutual
  pub data Weighs : ℕ → Run → Type 0 where
    finishes : {n : ℕ} {c : Context} {o : Outcome} → Weighs n (done c o)
    calls :
        {n : ℕ} {c : Context} {then_ : Context → Outcome → Run}
        → ((d : Context) (o : Outcome) → Weighs n (then_ d o))
        → Weighs n (next c then_)
    pushes :
        {n a m : ℕ} {hs : Handlers} {r : Run}
        → a + m ≤ n
        → WeighAll a hs
        → Weighs m r
        → Weighs n (push hs r)

  pub data WeighAll : ℕ → Handlers → Type 0 where
    none_left : {n : ℕ} → WeighAll n end
    one_more :
        {n a m : ℕ} {h : Handler} {hs : Handlers}
        → suc (a + m) ≤ n
        → ((c : Context) → Weighs a (h c))
        → WeighAll m hs
        → WeighAll n (step h hs)

pub data FramesWeigh : ℕ → List Handlers → Type 0 where
  nothing : {n : ℕ} → FramesWeigh n []
  frame :
      {n a m : ℕ} {hs : Handlers} {fs : List Handlers}
      → a + m ≤ n
      → WeighAll a hs
      → FramesWeigh m fs
      → FramesWeigh n (hs ∷ fs)

-- The handlers that are left weigh `n` at most.
abbrev pub CursorWeighs : ℕ → Cursor → Type 0
CursorWeighs n k = (a : ℕ) × (b : ℕ) × FramesWeigh a k.frames × WeighAll b k.base × (a + b ≤ n)

-- The handler that is picked and what is left behind it.
abbrev PickWeighs : ℕ → Option Handler → Cursor → Type 0
PickWeighs n none k = CursorWeighs n k
PickWeighs n (some h) k =
    (a : ℕ) × (m : ℕ) × (suc (a + m) ≤ n) × ((c : Context) → Weighs a (h c)) × CursorWeighs m k

pick_base-weighs :
    (b n : ℕ) (committed : Bool) (base : Handlers)
    → WeighAll b base
    → b ≤ n
    → PickWeighs n (pick committed [] base).0 (pick committed [] base).1
unfolding pick
pick_base-weighs b n true base w le = (0, b, nothing, w, omega arith)
pick_base-weighs b n false end w le = (0, b, nothing, none_left, omega arith)
pick_base-weighs b n false (step h hs) (one_more {a} {m} lm wh w) le =
    (a, m, omega arith, wh, (0, m, nothing, w, omega arith))

pick-weighs :
    (a b n : ℕ) (committed : Bool) (frames : List Handlers) (base : Handlers)
    → FramesWeigh a frames
    → WeighAll b base
    → a + b ≤ n
    → PickWeighs n (pick committed frames base).0 (pick committed frames base).1
unfolding pick
pick-weighs a b n committed [] base wf wb le = pick_base-weighs b n committed base wb (omega arith)
pick-weighs a b n committed (end ∷ fs) base (frame {a = a'} {m} le' w wf) wb le =
    pick-weighs m b n committed fs base wf wb (omega arith)
pick-weighs a b n committed (step h hs ∷ fs) base
      (frame {m} le' (one_more {a = x} {m = y} lx wh w) wf) wb le =
    (x, y + m + b, omega arith, wh, (y + m, b, frame (omega arith) w wf, wb, omega arith))

-- A run ended, with a result whose cursor weighs `n` at most.
abbrev pub Ends : ℕ → Option Result → Type 0
Ends n none = ⊥
Ends n (some x) = CursorWeighs n x.2

weighs_more : (m n : ℕ) (k : Cursor) → m ≤ n → CursorWeighs m k → CursorWeighs n k
weighs_more m n k le (a, b, wf, wb, sum) = (a, b, wf, wb, omega arith)

Ends-more : (m n : ℕ) (r : Option Result) → m ≤ n → Ends m r → Ends n r
Ends-more m n none le w = absurd w
Ends-more m n (some x) le w = weighs_more m n x.2 le w

Ends-pick :
    (n total : ℕ) (found : Option Handler) (k : Cursor) (absent : Option Result)
    (call : Handler → Option Result)
    → PickWeighs n found k
    → (CursorWeighs n k → Ends total absent)
    → ((h : Handler) (a m : ℕ)
        → suc (a + m) ≤ n
        → ((c : Context) → Weighs a (h c))
        → CursorWeighs m k
        → Ends total (call h))
    → Ends total (elim found [ none ↦ absent | some h ↦ call h ])
Ends-pick n total none k absent call p f g = f p
Ends-pick n total (some h) k absent call (a, m, le, wh, wk) f g = g h a m le wh wk

Ends-bind :
    (m total : ℕ) (r : Option Result) (rest : Context → Outcome → Cursor → Option Result)
    → Ends m r
    → ((d : Context) (o : Outcome) (k : Cursor) → CursorWeighs m k → Ends total (rest d o k))
    → Ends total (elim r [ none ↦ none | some (d, o, k) ↦ rest d o k ])
Ends-bind m total none rest w f = absurd w
Ends-bind m total (some (d, o, k)) rest w f = f d o k w

CursorWeighs-enter :
    (n x : ℕ) (hs : Handlers) (k : Cursor)
    → WeighAll x hs
    → CursorWeighs n k
    → CursorWeighs (n + x) (enter hs k)
CursorWeighs-enter n x hs k w (a, b, wf, wb, sum) =
    (x + a, b, frame (omega arith) w wf, wb, omega arith)

-- The run of `r` ends and leaves no more handlers than there were.
exec-Ends :
    (fuel n m : ℕ) (k : Cursor) (r : Run)
    → CursorWeighs n k
    → Weighs m r
    → n + m ≤ fuel
    → Ends (n + m) (exec fuel k r)
unfolding exec
exec-Ends zero n m k (done c o) wk wr le = weighs_more n (n + m) k (omega arith) wk
exec-Ends (suc f) n m k (done c o) wk wr le = weighs_more n (n + m) k (omega arith) wk
exec-Ends zero n m k (push hs r) wk (pushes {a = x} {m = y} lx wh w) le =
    Ends-more (n + x + y) (n + m) (exec zero (enter hs k) r) (omega arith)
      (exec-Ends zero (n + x) y (enter hs k) r (CursorWeighs-enter n x hs k wh wk) w (omega arith))
exec-Ends (suc f) n m k (push hs r) wk (pushes {a = x} {m = y} lx wh w) le =
    Ends-more (n + x + y) (n + m) (exec (suc f) (enter hs k) r) (omega arith) (
      exec-Ends (suc f) (n + x) y (enter hs k) r (CursorWeighs-enter n x hs k wh wk) w
        (omega arith))
exec-Ends zero n m k (next c then_) (a, b, wf, wb, sum) (calls w) le =
    let k' = (pick c.committed k.frames k.base).1 in
    Ends-pick n (n + m) _ k' (exec zero k' (then_ c (returned none))) (λ h. none)
      (pick-weighs a b n c.committed k.frames k.base wf wb sum)
      (λ wk. exec-Ends zero n m k' (then_ c (returned none)) wk (w c (returned none)) le)
      (λ h x y lt _ _. absurd (omega arith))
exec-Ends (suc f) n m k (next c then_) (a, b, wf, wb, sum) (calls w) le =
    let k' = (pick c.committed k.frames k.base).1 in
    let rest : Context → Outcome → Cursor → Option Result =
      λ d o k''. exec (suc f) k'' (then_ d o) in
    Ends-pick n (n + m) _ k' (exec (suc f) k' (then_ c (returned none)))
      (λ h. elim (exec f k' (h c)) [ none ↦ none | some (d, o, k'') ↦ rest d o k'' ])
      (pick-weighs a b n c.committed k.frames k.base wf wb sum)
      (λ wk. exec-Ends (suc f) n m k' (then_ c (returned none)) wk (w c (returned none)) le)
      (λ h x y lt wh wk.
        Ends-bind (y + x) (n + m) (exec f k' (h c)) rest
          (exec-Ends f y x k' (h c) wk (wh c) (omega arith))
          (λ d o k'' wk''.
            Ends-more (y + x + m) (n + m) (rest d o k'') (omega arith)
              (exec-Ends (suc f) (y + x) m k'' (then_ d o) wk'' (w d o) (omega arith))))

some_of_Ends : (n : ℕ) (r : Option Result) → Ends n r → (x : Result) × (r ≡ some x)
some_of_Ends n none w = absurd w
some_of_Ends n (some x) w = (x, refl)

-- Every request ends: with fuel for the handlers of the route, those of composed handlers
-- included, the chain gives a result whatever the handlers do and however often they call `Next`.
pub run_chain_ends :
    (n : ℕ) (hs : List Handler) (c : Context)
    → WeighAll n (handlers hs)
    → (x : Result) × (run_chain n hs c ≡ some x)
unfolding run_chain
run_chain_ends n hs c w = some_of_Ends (n + 0) (run_chain n hs c) (
    exec-Ends n n 0 (start hs) (pass_on c) (0, n, nothing, w, omega arith)
      (unfold pass_on in calls (λ d o. finishes)) (omega arith))
