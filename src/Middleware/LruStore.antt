-- ===== src/Middleware/LruStore.antt =====
-- middleware/lru_store.go: the store of the cache in memory. The LRU cache of hashicorp/golang-lru
-- is the parameter: its states and its three calls, with what they promise as laws.
pub mod Laws
use elton.Common.{
  ℕ, ◌+◌, ◌/◌, ◌%◌, ◌≡◌, ◌≢◌, ◌⊎◌, Bool, true, false, ◌||◌, Option, none, some, List, [], ◌∷◌, ◌++◌,
  Text, ltb, if◌then◌else◌, length, drop, put_u32, get_u32,
}

-- `Peek`, `Get` (which also marks the entry as used) and `Add` (which may evict another entry).
pub record Lru : Type 1 where
  pub Cache : Type 0
  pub peek : Text → Cache → Option Text
  pub lookup : Text → Cache → Option Text × Cache
  pub add : Text → Text → Cache → Cache

pub record LruLaws (lru : Lru) : Type 0 where
  pub lookup-peek : (k : Text) (s : lru.Cache) → (lru.lookup k s).0 ≡ lru.peek k s
  pub peek-add : (k v : Text) (s : lru.Cache) → lru.peek k (lru.add k v s) ≡ some v
  pub peek-add_other :
      (j k v : Text) (s : lru.Cache)
      → j ≢ k
      → (lru.peek k (lru.add j v s) ≡ lru.peek k s) ⊎ (lru.peek k (lru.add j v s) ≡ none)

-- `nowSeconds`, for the seconds since the epoch.
unfoldable pub now_seconds : ℕ → ℕ
now_seconds unix = unix % 4294967296

-- What `Get` makes of the bytes that are stored, the expiry in front.
unfoldable pub unexpired : ℕ → Option Text → Option Text
unfolding now_seconds
unexpired unix none = none
unexpired unix (some value) =
    if ltb (length value) 4
    then none
    else if ltb (get_u32 value) (now_seconds unix)
    then none
    else some (drop 4 value)

-- The bytes that `Set` stores; `ttl` is in nanoseconds.
unfoldable pub stamped : ℕ → Text → ℕ → Text
unfolding now_seconds put_u32
stamped unix content ttl =
    put_u32 ((now_seconds unix + ttl / 1000000000 % 4294967296) % 4294967296) ++ content

module _ (lru : Lru) where
  abbrev read : Bool → Text → lru.Cache → Option Text × lru.Cache
  read true k s = (lru.peek k s, s)
  read false k s = lru.lookup k s

  abbrev checked : ℕ → Option Text × lru.Cache → Option Text × lru.Cache
  checked unix (value, s) = (unexpired unix value, s)

  -- `Get` at the time `unix`; `none` is the nil slice. It returns no error.
  unfoldable pub get : Bool → ℕ → Text → lru.Cache → Option Text × lru.Cache
  unfolding unexpired
  get use_peek unix k s = checked unix (read use_peek k s)

  -- `Set` at the time `unix`.
  unfoldable pub set : ℕ → Text → Text → ℕ → lru.Cache → lru.Cache
  unfolding stamped
  set unix k content ttl s = lru.add k (stamped unix content ttl) s
