-- ===== src/Server/Lifecycle.antt =====
-- elton.go: `GracefulClose` and the status that it publishes. Several goroutines may close the
-- instance, so the calls are steps that interleave: each stores `StatusClosing`, waits, stores
-- `StatusClosed` and calls `Shutdown` of the server, a call into `net/http`.
use elton.Common.{
  ℕ, suc, ◌+◌, ◌<◌, ◌≡◌, ◌≢◌, ap, sym, ◌∙◌, refl, Bool, true, false, not, ◌||◌, List, [], ◌∷◌, ◌++◌,
  map, length, length-append, ltb, leb, arith,
}
use elton.Server.{Status, running, closing, closed}

-- A call that has stored `StatusClosing` and waits: its delay, 0 if that is not positive, the time
-- that its timer has run, and whether its context is done.
pub record Call : Type 0 where
  pub delay : ℕ
  pub elapsed : ℕ
  pub cancelled : Bool

-- The `if` and the `select` of `GracefulClose`: whether they let the call go on.
unfoldable pub can_go_on : Call → Bool
can_go_on k = not (ltb 0 k.delay) || leb k.delay k.elapsed || k.cancelled

-- The status, the calls that wait, and the number of calls of `Shutdown` on the server.
pub record Life : Type 0 where
  pub status : Status
  pub waiting : List Call
  pub shut : ℕ

unfoldable pub fresh : Life
fresh = record { status = running; waiting = []; shut = 0 }

-- The two parts of `GracefulClose`, before and behind the wait.
unfoldable pub begin_close : ℕ → Life → Life
begin_close delay l = record l {
  status = closing;
  waiting = record { delay = delay; elapsed = 0; cancelled = false } ∷ l.waiting;
}

unfoldable pub end_close : List Call → Life → Life
end_close others l = record { status = closed; waiting = others; shut = l.shut + 1 }

-- `Running` and `Closing`.
unfoldable pub is_running : Life → Bool
is_running l = elim l.status [ running ↦ true | closing ↦ false | closed ↦ false ]

unfoldable pub is_closing : Life → Bool
is_closing l = elim l.status [ running ↦ false | closing ↦ true | closed ↦ false ]

-- The timers run, and the context of a call is done.
abbrev pub later : ℕ → Call → Call
later t k = record k { elapsed = k.elapsed + t }

unfoldable pub pass_time : ℕ → Life → Life
pass_time t l = record l { waiting = map (later t) l.waiting }

unfoldable pub cancel : List Call → Call → List Call → Life → Life
cancel before k after l = record l { waiting = before ++ record k { cancelled = true } ∷ after }

pub data Step : Life → Life → Type 0 where
  begins : (l : Life) (delay : ℕ) → Step l (begin_close delay l)
  ends :
      (l : Life) (before after : List Call) (k : Call)
      → l.waiting ≡ before ++ k ∷ after
      → can_go_on k ≡ true
      → Step l (end_close (before ++ after) l)

-- Steps of the calls, between which time passes and contexts are done.
pub data Steps : Life → Life → Type 0 where
  stay : (l : Life) → Steps l l
  next : (l m n : Life) → Steps l m → Step m n → Steps l n
  passes : (l m : Life) (t : ℕ) → Steps l m → Steps l (pass_time t m)
  cancels :
      (l m : Life) (before after : List Call) (k : Call)
      → Steps l m
      → m.waiting ≡ before ++ k ∷ after
      → Steps l (cancel before k after m)

-- What the status says of the calls.
abbrev pub Told : Life → Type 0
Told l =
    (l.status ≡ running → length l.waiting + l.shut ≡ 0)
    × (l.status ≡ closing → 0 < length l.waiting)
    × (l.status ≡ closed → 0 < l.shut)

pub length-later : (t : ℕ) (ks : List Call) → length (map (later t) ks) ≡ length ks
length-later t [] = refl
length-later t (k ∷ ks) = ap suc (length-later t ks)

-- A call among others.
pub length-around :
    (before after : List Call) (k : Call) {ks : List Call}
    → ks ≡ before ++ k ∷ after
    → length ks ≡ suc (length (before ++ after))
length-around before after k e =
    ap length e ∙ omega (arith, length-append before (k ∷ after), length-append before after)

Step-Told : {l m : Life} → Step l m → Told l → Told m
unfolding begin_close end_close
Step-Told (begins l delay) t = (λ e. ground arith, λ e. ground arith, λ e. ground arith)
Step-Told (ends l before after k w go) t = (λ e. ground arith, λ e. ground arith, λ e. ground arith)

Told-alike :
    (l : Life) (ks : List Call)
    → length ks ≡ length l.waiting
    → Told l
    → Told (record l { waiting = ks })
Told-alike l ks same t = (λ e. ground (arith, t.0 e, same), λ e. ground (arith, t.1 e, same), t.2)

-- However the calls of `GracefulClose` interleave, the status that a request reads is true:
-- `running` if no call has begun, `closing` only while some call waits out its delay, and
-- `closed` only if some call has come to the shutdown.
pub status-Told : (l : Life) → Steps fresh l → Told l
unfolding fresh pass_time cancel
status-Told _ (stay _) = (λ e. refl, λ e. ground arith, λ e. ground arith)
status-Told _ (next _ m n s t) = Step-Told t (status-Told m s)
status-Told _ (passes _ m t s) =
    Told-alike m (map (later t) m.waiting) (length-later t m.waiting) (status-Told m s)
status-Told _ (cancels _ m before after k s w) =
    let k' = record k { cancelled = true } in
    Told-alike m (before ++ k' ∷ after)
      (length-around before after k' refl ∙ sym (length-around before after k w)) (status-Told m s)

Step-stopped : {l m : Life} → Step l m → m.status ≢ running
unfolding begin_close end_close
Step-stopped (begins l delay) e = ground arith
Step-stopped (ends l before after k w go) e = ground arith

-- Once any call of `GracefulClose` has made a step, the status is never `running` again, whatever
-- steps of whatever calls follow.
pub never_reopens : (l m n : Life) → Step l m → Steps m n → n.status ≢ running
unfolding pass_time cancel
never_reopens l m _ s (stay _) = Step-stopped s
never_reopens l m _ s (next _ _ n u t) = Step-stopped t
never_reopens l m _ s (passes _ n t u) = never_reopens l m n s u
never_reopens l m _ s (cancels _ n before after k u w) = never_reopens l m n s u
