-- ===== src/Middleware/Limiter.antt =====
-- middleware/concurrent_limiter.go: `NewGlobalConcurrentLimiter`. Requests run concurrently and
-- share one atomic counter of 32 bits, so a request is the steps that it takes on the counter:
-- it arrives and is let through or refused, and its deferred decrement runs when it is over.
pub mod Bound
use elton.Common.{ℕ, suc, ◌+◌, ◌%◌, ◌≡◌, ◌<◌, Bool, true, false, leb, if◌then◌else◌}

-- `count.Add(1)` and `count.Add(^uint32(0))`.
abbrev pub word : ℕ
word = 4294967296

unfoldable pub add_one : ℕ → ℕ
add_one n = (n + 1) % 4294967296

unfoldable pub sub_one : ℕ → ℕ
sub_one n = (n + 4294967295) % 4294967296

-- The counter, and the requests on their way: those in `c.Next()`, and those that were refused and
-- have not yet run their deferred decrement.
pub record Gate : Type 0 where
  pub count : ℕ
  pub admitted : ℕ
  pub refused : ℕ

unfoldable pub open_gate : Gate
open_gate = record { count = 0; admitted = 0; refused = 0 }

unfoldable pub arrive : ℕ → Gate → Gate
unfolding add_one
arrive max g =
    let value = add_one g.count in
    if leb max value
    then record { count = value; admitted = g.admitted; refused = g.refused + 1 }
    else record { count = value; admitted = g.admitted + 1; refused = g.refused }

-- The return of a request that was let through, and of one that was refused, when `others` of its
-- kind are still there.
unfoldable pub leave_admitted : ℕ → Gate → Gate
unfolding sub_one
leave_admitted others g = record g { count = sub_one g.count; admitted = others }

unfoldable pub leave_refused : ℕ → Gate → Gate
unfolding sub_one
leave_refused others g = record g { count = sub_one g.count; refused = others }

pub data Step (max : ℕ) : Gate → Gate → Type 0 where
  arrives : (g : Gate) → Step max g (arrive max g)
  returns : (g : Gate) (others : ℕ) → g.admitted ≡ suc others → Step max g (leave_admitted others g)
  gives_up : (g : Gate) (others : ℕ) → g.refused ≡ suc others → Step max g (leave_refused others g)

-- Steps between gates that have fewer than 2^32 requests on their way each, which is what memory
-- allows.
pub data Steps (max : ℕ) : Gate → Gate → Type 0 where
  stay : (g : Gate) → Steps max g g
  next :
      (g h k : Gate)
      → Steps max g h
      → Step max h k
      → k.admitted + k.refused < 4294967296
      → Steps max g k
