-- ===== src/Server/Shutdown.antt =====
-- elton.go: how the calls of `GracefulClose` come to their end.
use elton.Common.{
  ℕ, suc, ◌+◌, ◌≤◌, ◌<◌, ◌≡◌, ◌≢◌, ◌⊎◌, inl, inr, refl, ap, ◌∙◌, subst, true, List, [], ◌∷◌, ◌++◌,
  map, length, All, arith,
}
use elton.Server.{Status, running, closing, closed}
use elton.Server.Lifecycle.{
  Call, can_go_on, Life, fresh, end_close, later, pass_time, ends, Steps, next, passes, Told,
  length-later, length-around, status-Told,
}

-- So many calls go on behind their wait, one after the other, and none begins.
pub data Finishes : ℕ → Life → Life → Type 0 where
  none_more : {l : Life} → Finishes 0 l l
  one_more :
      {n : ℕ} {l m : Life} (before after : List Call) (k : Call)
      → l.waiting ≡ before ++ k ∷ after
      → can_go_on k ≡ true
      → Finishes n (end_close (before ++ after) l) m
      → Finishes (suc n) l m

Finishes-Steps : {n : ℕ} {l m : Life} → Finishes n l m → Steps fresh l → Steps fresh m
Finishes-Steps none_more s = s
Finishes-Steps (one_more {l = l} before after k w go f) s =
    Finishes-Steps f (next _ l (end_close (before ++ after) l) s (ends l before after k w go))

-- Each call that goes on is one that waited, and comes to the shutdown.
Finishes-counts :
    {n : ℕ} {l m : Life}
    → Finishes n l m
    → (n + length m.waiting ≡ length l.waiting) × (m.shut ≡ l.shut + n)
unfolding end_close
Finishes-counts none_more = (omega arith, omega arith)
Finishes-counts (one_more before after k w go f) =
    let (waits, shuts) = Finishes-counts f in
    (omega (arith, waits, length-around before after k w), omega (arith, shuts))

abbrev IsReady : Call → Type 0
IsReady k = can_go_on k ≡ true

abbrev pub IsShorter : ℕ → Call → Type 0
IsShorter t k = k.delay ≤ t

-- A timer that has run for the delay lets the call go on.
later-IsReady : (t : ℕ) (ks : List Call) → All (IsShorter t) ks → All IsReady (map (later t) ks)
unfolding can_go_on
later-IsReady t [] h = tt
later-IsReady t (k ∷ ks) (short, h) = (ground arith, later-IsReady t ks h)

All-without :
    (before after : List Call) (k : Call)
    → All IsReady (before ++ k ∷ after)
    → All IsReady (before ++ after)
All-without [] after k (r, h) = h
All-without (b ∷ before) after k (r, h) = (r, All-without before after k h)

Finishes-IsReady :
    {n : ℕ} {l m : Life} → Finishes n l m → All IsReady l.waiting → All IsReady m.waiting
unfolding end_close
Finishes-IsReady none_more h = h
Finishes-IsReady (one_more before after k w go f) h =
    Finishes-IsReady f (All-without before after k (subst (All IsReady) w h))

Status-cases : (s : Status) → (s ≡ running) ⊎ (s ≡ closing) ⊎ (s ≡ closed)
Status-cases running = inl refl
Status-cases closing = inr (inl refl)
Status-cases closed = inr (inr refl)

Told-begun : (l : Life) → Told l → l.status ≢ running → 0 < length l.waiting + l.shut
Told-begun l t stopped = elim (Status-cases l.status) [
  | inl up ↦ absurd (stopped up)
  | inr (inl waits) ↦ let w = t.1 waits in ground arith
  | inr (inr over) ↦ let w = t.2 over in ground arith
]

-- Where none waits any more, the status is `closed`.
Told-over :
    (m : Life) → Told m → 0 < length m.waiting + m.shut → length m.waiting ≡ 0 → m.status ≡ closed
Told-over m t begun none_waits = elim (Status-cases m.status) [
  | inl up ↦ let idle = t.0 up in absurd (ground arith)
  | inr (inl waits) ↦ let w = t.1 waits in absurd (ground arith)
  | inr (inr over) ↦ over
]

-- The first of the calls that wait goes on, if its wait is over.
first_goes :
    (m : Life) (ks : List Call)
    → m.waiting ≡ ks
    → All IsReady ks
    → (m.waiting ≡ []) ⊎ ((k : Life) × Finishes 1 m k)
first_goes m [] e h = inl e
first_goes m (k ∷ ks) e (go, h) = inr (end_close ks m, one_more [] ks k e go none_more)

-- Once a call of `GracefulClose` has begun, all of them come to the shutdown, and leave the instance
-- closed. From any state that is reached, let as much time pass as the longest delay of the calls
-- that wait. Whatever calls then go on, each was one of these, and has called `Shutdown`; and either
-- none waits any more and the status is `closed`, or another one can go on.
pub closes_at_last :
    (l m : Life) (t n : ℕ)
    → Steps fresh l
    → l.status ≢ running
    → All (IsShorter t) l.waiting
    → Finishes n (pass_time t l) m
    → (n + length m.waiting ≡ length l.waiting)
      × (m.shut ≡ l.shut + n)
      × (((m.waiting ≡ []) × (m.status ≡ closed)) ⊎ ((k : Life) × Finishes 1 m k))
unfolding pass_time
closes_at_last l m t n s stopped short f =
    let (waits, shuts) = Finishes-counts f in
    let same = length-later t l.waiting in
    let waits' : n + length m.waiting ≡ length l.waiting = waits ∙ same in
    let shuts' : m.shut ≡ l.shut + n = shuts in
    let told = status-Told m (Finishes-Steps f (passes fresh l t s)) in
    let begun = Told-begun l (status-Told l s) stopped in
    let ready = Finishes-IsReady f (later-IsReady t l.waiting short) in
    (
      waits',
      shuts',
      elim (first_goes m m.waiting refl ready) [
        | inl idle ↦ inl (idle, Told-over m told (omega arith) (ap length idle))
        | inr more ↦ inr more
      ],
    )
