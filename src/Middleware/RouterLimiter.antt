-- ===== src/Middleware/RouterLimiter.antt =====
-- middleware/router_concurrent_limiter.go: the local limiter, one counter of 32 bits per route, and
-- the steps that a request takes on it.
pub mod Bound
use elton.Common.{
  ℕ, suc, ◌+◌, ◌≡◌, ◌<◌, Bool, true, false, not, ◌&&◌, Option, none, some, List, [], ◌∷◌, Text,
  text_eq, ltb, ◌==◌, if◌then◌else◌,
}
use elton.Middleware.Limiter.{add_one, sub_one}

-- `routerConcurrency`.
pub record Slot : Type 0 where
  pub max : ℕ
  pub current : ℕ

abbrev pub Table : Type 0
Table = List (Text × Slot)

-- `NewLocalRouterConcurrencyLimiter`.
unfoldable pub new_table : List (Text × ℕ) → Table
new_table [] = []
new_table ((route, max) ∷ limits) = (route, record { max = max; current = 0 }) ∷ new_table limits

unfoldable pub find : Text → Table → Option Slot
find k [] = none
find k ((j, s) ∷ t) = if text_eq j k then some s else find k t

-- The change of the counter behind the pointer that the map holds for `k`.
unfoldable pub change : (ℕ → ℕ) → Text → Table → Table
change f k [] = []
change f k ((j, s) ∷ t) =
    if text_eq j k then (j, record s { current = f s.current }) ∷ t else (j, s) ∷ change f k t

abbrev after_inc : Option Slot → ℕ × ℕ
after_inc none = (0, 0)
after_inc (some s) = (add_one s.current, s.max)

-- `IncConcurrency`, `DecConcurrency`, `GetConcurrency`.
unfoldable pub inc : Text → Table → Table × (ℕ × ℕ)
unfolding find change
inc k t = (change add_one k t, after_inc (find k t))

unfoldable pub dec : Text → Table → Table
unfolding change
dec k t = change sub_one k t

abbrev current_or_zero : Option Slot → ℕ
current_or_zero none = 0
current_or_zero (some s) = s.current

unfoldable pub get_concurrency : Text → Table → ℕ
unfolding find
get_concurrency k t = current_or_zero (find k t)

abbrev pub set_at : Text → ℕ → (Text → ℕ) → Text → ℕ
set_at k n f j = if text_eq k j then n else f j

-- The table, and for each route the requests in `c.Next()` and those that were refused and have
-- not yet run their deferred decrement.
pub record Gates : Type 0 where
  pub table : Table
  pub admitted : Text → ℕ
  pub refused : Text → ℕ

unfoldable pub open_gates : List (Text × ℕ) → Gates
open_gates limits = record { table = new_table limits; admitted = λ _. 0; refused = λ _. 0 }

-- `NewRouterConcurrentLimiter`, from the increment to the test.
abbrev decide : Text → Gates → Table × (ℕ × ℕ) → Gates
decide k g (t, (current, max)) =
    if not (max == 0) && ltb max current
    then record { table = t; admitted = g.admitted; refused = set_at k (g.refused k + 1) g.refused }
    else record {
      table = t;
      admitted = set_at k (g.admitted k + 1) g.admitted;
      refused = g.refused;
    }

unfoldable pub arrive : Text → Gates → Gates
unfolding inc
arrive k g = decide k g (inc k g.table)

unfoldable pub leave_admitted : Text → ℕ → Gates → Gates
unfolding dec
leave_admitted k others g = record g {
  table = dec k g.table;
  admitted = set_at k others g.admitted;
}

unfoldable pub leave_refused : Text → ℕ → Gates → Gates
unfolding dec
leave_refused k others g = record g { table = dec k g.table; refused = set_at k others g.refused }

pub data Step : Gates → Gates → Type 0 where
  arrives : (k : Text) (g : Gates) → Step g (arrive k g)
  returns :
      (k : Text) (g : Gates) (others : ℕ)
      → g.admitted k ≡ suc others
      → Step g (leave_admitted k others g)
  gives_up :
      (k : Text) (g : Gates) (others : ℕ)
      → g.refused k ≡ suc others
      → Step g (leave_refused k others g)

-- Fewer than 2^32 requests of each route are on their way at any time.
abbrev pub Small : Gates → Type 0
Small g = (k : Text) → g.admitted k + g.refused k < 4294967296

pub data Steps : Gates → Gates → Type 0 where
  stay : (g : Gates) → Steps g g
  next : (g h k : Gates) → Steps g h → Step h k → Small k → Steps g k
