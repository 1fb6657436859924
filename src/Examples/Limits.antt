-- ===== src/Examples/Limits.antt =====
-- The limiters, the store in memory and conditional requests at concrete values.
use elton.Common.{
  ℕ, ◌+◌, ◌-◌, ◌≡◌, ◌≢◌, ◌≤◌, ◌⊎◌, inr, refl, true, not, ◌&&◌, Option, none, some, List, [], ◌∷◌,
  Text, codes, text_eq, text_eq_refl, text_eq_iff, cut_byte, any_of, split, ltb, if◌then◌else◌,
  arith,
}
use elton.Middleware.Limiter
use elton.Middleware.Limiter.{Gate, open_gate}
use elton.Middleware.Limiter.Bound.{limiter_bound}
use elton.Middleware.RouterLimiter
use elton.Middleware.RouterLimiter.{Gates, open_gates, get_concurrency}
use elton.Middleware.RouterLimiter.Bound.{router_limiter_bound}
use elton.Middleware.LruStore.{Lru, LruLaws, get, set}
use elton.Middleware.LruStore.Laws.{lru_get-set, lru_get-set_other}
use elton.Fresh.{Seconds, since, is_fresh}
use elton.Fresh.Laws.{is_no_cache, tag_condition, date_condition, is_fresh_lem}

abbrev one_in : Gate
one_in = record { count = 1; admitted = 1; refused = 0 }

abbrev one_turned_away : Gate
one_turned_away = record { count = 2; admitted = 1; refused = 1 }

two_arrive : Limiter.Steps 2 open_gate one_turned_away
unfolding open_gate Limiter.arrive
two_arrive =
    Limiter.next open_gate one_in one_turned_away
      (Limiter.next open_gate open_gate one_in (Limiter.stay open_gate) (Limiter.arrives open_gate)
        (omega arith))
      (Limiter.arrives one_in) (omega arith)

limiter_bound_example :
    (one_turned_away.count ≡ one_turned_away.admitted + one_turned_away.refused)
    × (one_turned_away.admitted ≤ 2 - 1)
limiter_bound_example = limiter_bound 2 one_turned_away two_arrive

abbrev router_max : ℕ
router_max = 1

abbrev limits : List (Text × ℕ)
limits = (codes "GET /", 1) ∷ []

abbrev router_in : Gates
router_in = record {
  table = (codes "GET /", record { max = 1; current = 1 }) ∷ [];
  admitted = λ j. if text_eq (codes "GET /") j then 1 else 0;
  refused = λ _. 0;
}

router_arrives : RouterLimiter.Steps (open_gates limits) router_in
unfolding open_gates RouterLimiter.arrive RouterLimiter.new_table text_eq Limiter.add_one
router_arrives =
    RouterLimiter.next (open_gates limits) (open_gates limits) router_in
      (RouterLimiter.stay (open_gates limits))
      (RouterLimiter.arrives (codes "GET /") (open_gates limits)) (λ k. ground arith)

router_limiter_bound_example :
    let k = codes "GET /" in
    (get_concurrency k router_in.table ≡ router_in.admitted k + router_in.refused k)
    × (router_max ≢ 0 → router_in.admitted k ≤ 1)
unfolding text_eq
router_limiter_bound_example =
    router_limiter_bound limits router_in (codes "GET /") router_max router_arrives refl

-- A cache of one entry.
abbrev only : Text → Option (Text × Text) → Option Text
only k none = none
only k (some (j, v)) = if text_eq j k then some v else none

abbrev single : Lru
single = record {
  Cache = Option (Text × Text);
  peek = only;
  lookup = λ k s. (only k s, s);
  add = λ k v s. some (k, v);
}

single-LruLaws : LruLaws single
single-LruLaws = record {
  lookup-peek = λ k s. refl;
  peek-add = λ k v s. ground (arith, text_eq_refl k);
  peek-add_other = λ j k v s ne. inr (ground (arith, text_eq_iff j k));
}

lru_get-set_run :
    (get single true 1010 (codes "k") (set single 1000 (codes "k") (codes "v") 10000000000 none)).0
    ≡ (if ltb 1010 1010 then none else some (codes "v"))
lru_get-set_run =
    lru_get-set single single-LruLaws true 1000 1010 (codes "k") (codes "v") 10000000000 none
      (omega arith) (omega arith)

lru_get-set_other_test :
    ((get single true 1010 (codes "k") (set single 1000 (codes "j") (codes "v") 10000000000 none)).0
      ≡ (get single true 1010 (codes "k") none).0)
    ⊎ ((get single true 1010
          (codes "k")
          (set single 1000 (codes "j") (codes "v") 10000000000 none)).0
        ≡ none)
lru_get-set_other_test =
    lru_get-set_other single single-LruLaws true true 1000 1010 (codes "j") (codes "k") (codes "v")
      10000000000 none (λ e. ground arith)

abbrev parse_date : Text → Option Seconds
parse_date [] = none
parse_date (c ∷ s) = some (since c)

is_fresh_lem_example : is_fresh parse_date [] (codes "\"a\", W/\"b\"") [] [] (codes "\"b\"") ≡ (
    true
    && not (any_of is_no_cache (split b',' []))
    && tag_condition parse_date (codes "\"a\", W/\"b\"") (codes "\"b\"")
    && date_condition parse_date [] [])
is_fresh_lem_example =
    is_fresh_lem parse_date [] (codes "\"a\", W/\"b\"") [] [] (codes "\"b\"") (cc)

weak_tag_fresh : is_fresh parse_date [] (codes "\"a\", W/\"b\"") [] [] (codes "\"b\"") ≡ true
unfolding is_fresh cut_byte
weak_tag_fresh = refl
