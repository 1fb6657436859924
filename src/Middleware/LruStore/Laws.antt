-- ===== src/Middleware/LruStore/Laws.antt =====
-- What a reader of the store sees of what was written.
use elton.Common.{
  ℕ, ◌+◌, ◌/◌, ◌%◌, ◌≡◌, ◌≢◌, ◌⊎◌, ◌<◌, inl, inr, refl, ap, sym, ◌∙◌, Bool, true, false, none, some,
  ◌++◌, Text, ltb, if◌then◌else◌, length, drop, put_u32, get-put_u32, arith,
}
use elton.Middleware.LruStore.{Lru, LruLaws, now_seconds, unexpired, stamped, get, set}

length-put_u32 : (n : ℕ) (s : Text) → length (put_u32 n ++ s) ≡ length s + 4
unfolding put_u32
length-put_u32 n s = omega arith

drop-put_u32 : (n : ℕ) (s : Text) → drop 4 (put_u32 n ++ s) ≡ s
unfolding put_u32
drop-put_u32 n s = refl

unexpired-stamped :
    (t u ttl : ℕ) (content : Text)
    → unexpired u (some (stamped t content ttl)) ≡ (
        if ltb ((now_seconds t + ttl / 1000000000 % 4294967296) % 4294967296) (now_seconds u)
        then none
        else some content)
unfolding unexpired stamped
unexpired-stamped t u ttl content =
    let e = (now_seconds t + ttl / 1000000000 % 4294967296) % 4294967296 in
    ground
      (arith, get-put_u32 e content (omega arith), length-put_u32 e content, drop-put_u32 e content)

module _ (lru : Lru) (laws : LruLaws lru) where
  get-peek :
      (p : Bool) (u : ℕ) (k : Text) (s : lru.Cache)
      → (get lru p u k s).0 ≡ unexpired u (lru.peek k s)
  unfolding get
  get-peek true u k s = refl
  get-peek false u k s = ap (unexpired u) (laws.lookup-peek k s)

  -- If the LRU cache gives back what was added last, then what was stored is read back unchanged
  -- up to and including the second in which its time to live is over, and not at all after that,
  -- as long as the seconds fit in 32 bits.
  pub lru_get-set :
      (p : Bool) (t u : ℕ) (k content : Text) (ttl : ℕ) (s : lru.Cache)
      → t + ttl / 1000000000 < 4294967296
      → u < 4294967296
      → (get lru p u k (set lru t k content ttl s)).0
        ≡ (if ltb (t + ttl / 1000000000) u then none else some content)
  unfolding set now_seconds
  lru_get-set p t u k content ttl s fits fits' =
      get-peek p u k (set lru t k content ttl s)
      ∙ ap (unexpired u) (laws.peek-add k (stamped t content ttl) s)
      ∙ unexpired-stamped t u ttl content
      ∙ (ground arith)

  -- If adding to the LRU cache changes another entry at most by evicting it, then storing under
  -- another key never changes what is read under this one, except that the entry may be gone.
  pub lru_get-set_other :
      (p q : Bool) (t u : ℕ) (j k content : Text) (ttl : ℕ) (s : lru.Cache)
      → j ≢ k
      → ((get lru p u k (set lru t j content ttl s)).0 ≡ (get lru q u k s).0)
        ⊎ ((get lru p u k (set lru t j content ttl s)).0 ≡ none)
  unfolding set
  lru_get-set_other p q t u j k content ttl s ne =
      let before = get-peek q u k s in
      let after = get-peek p u k (set lru t j content ttl s) in
      elim (laws.peek-add_other j k (stamped t content ttl) s ne) [
        | inl same ↦ inl (after ∙ ap (unexpired u) same ∙ sym before)
        | inr gone ↦ inr (after ∙ ap (unexpired u) gone ∙ (unfold unexpired in refl))
      ]
