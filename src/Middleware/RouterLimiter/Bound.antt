-- ===== src/Middleware/RouterLimiter/Bound.antt =====
-- How many requests of a route the limiter lets through at once.
use elton.Common.{
  ℕ, suc, ◌+◌, ◌≡◌, ◌≢◌, ◌<◌, ◌≤◌, refl, sym, ap, ◌∙◌, Bool, false, not, ◌&&◌, Option, none, some,
  List, [], ◌∷◌, Text, text_eq, text_eq_iff, Bool-cases, Option-cases, inl, inr, ltb, ◌==◌,
  if◌then◌else◌, arith,
}
use elton.Middleware.Limiter.{add_one, sub_one}
use elton.Middleware.Limiter.Bound.{add_one-small, sub_one-small}
use elton.Middleware.RouterLimiter.{
  Slot, Table, new_table, find, change, inc, dec, get_concurrency, Gates, open_gates, arrive,
  leave_admitted, leave_refused, Step, arrives, returns, gives_up, Small, Steps, stay, next,
}

abbrev changed : (ℕ → ℕ) → Option Slot → Option Slot
changed f none = none
changed f (some s) = some (record s { current = f s.current })

find-change :
    (f : ℕ → ℕ) (k j : Text) (t : Table)
    → find j (change f k t) ≡ (if text_eq k j then changed f (find j t) else find j t)
unfolding find change
find-change f k j [] = ground arith
find-change f k j ((i, s) ∷ t) =
    ground (arith, text_eq_iff k j, text_eq_iff i k, text_eq_iff i j, find-change f k j t)

-- The limit of a route, 0 for a route that has none.
abbrev pub limit : Text → List (Text × ℕ) → Option ℕ
limit k [] = none
limit k ((j, max) ∷ limits) = if text_eq j k then some max else limit k limits

abbrev max_of : Option Slot → Option ℕ
max_of none = none
max_of (some s) = some s.max

-- What the slot of a route says of its requests.
abbrev Told : (admitted refused : ℕ) → Option Slot → Type 0
Told a r o = (s : Slot) → o ≡ some s → (s.current ≡ a + r) × (s.max ≢ 0 → a ≤ s.max)

abbrev Sound : List (Text × ℕ) → Gates → Type 0
Sound limits g =
    (k : Text)
    → (max_of (find k g.table) ≡ limit k limits)
      × Told (g.admitted k) (g.refused k) (find k g.table)

-- The requests of a route, before and after a step at the route `k`.
find-before :
    (f : ℕ → ℕ) (k j : Text) (t : Table) (s : Slot)
    → find j (change f k t) ≡ some s
    → (s0 : Slot) × (find j t ≡ some s0)
      × (s.max ≡ s0.max)
      × (s.current ≡ (if text_eq k j then f s0.current else s0.current))
find-before f k j t s found = elim (Option-cases (find j t)) [
  | inl e ↦ absurd (ground (arith, find-change f k j t))
  | inr (s0, e) ↦ (s0, e, ground (arith, find-change f k j t), ground (arith, find-change f k j t))
]

abbrev over : (max current : ℕ) → Bool
over max current = not (max == 0) && ltb max current

-- One request more at a slot that holds `a` and `r` requests.
decide-Told :
    (s s0 : Slot) (a r : ℕ)
    → a + r + 1 < 4294967296
    → s0.current ≡ a + r
    → (s0.max ≢ 0 → a ≤ s0.max)
    → s.max ≡ s0.max
    → s.current ≡ add_one s0.current
    → (s.current
        ≡ (if over s.max s.current then a else a + 1) + (if over s.max s.current then r + 1 else r))
      × (s.max ≢ 0 → (if over s.max s.current then a else a + 1) ≤ s.max)
decide-Told s s0 a r small counts few same_max now = ground (arith, add_one-small (a + r) small)

arrive-table : (k : Text) (g : Gates) → (arrive k g).table ≡ change add_one k g.table
unfolding arrive inc
arrive-table k g = ground arith

-- The counts of the other routes stay, and those of the route follow its slot.
arrive-others :
    (k j : Text) (g : Gates)
    → text_eq k j ≡ false
    → ((arrive k g).admitted j ≡ g.admitted j) × ((arrive k g).refused j ≡ g.refused j)
unfolding arrive
arrive-others k j g ne = ground arith

arrive-own :
    (k : Text) (g : Gates) (s0 : Slot)
    → find k g.table ≡ some s0
    → ((arrive k g).admitted k
        ≡ (if over s0.max (add_one s0.current) then g.admitted k else g.admitted k + 1))
      × ((arrive k g).refused k
          ≡ (if over s0.max (add_one s0.current) then g.refused k + 1 else g.refused k))
unfolding arrive inc
arrive-own k g s0 was = ground (arith, text_eq_iff k k)

arrive-Sound :
    (limits : List (Text × ℕ)) (k : Text) (g : Gates)
    → g.admitted k + g.refused k + 1 < 4294967296
    → Sound limits g
    → Sound limits (arrive k g)
arrive-Sound limits k g small sound j =
    let (maxes, told) = sound j in
    (
      ground (arith, arrive-table k g, text_eq_iff k j, find-change add_one k j g.table),
      λ s found.
          let (s0, was, same_max, now) =
            find-before add_one k j g.table s (ap (find j) (sym (arrive-table k g)) ∙ found) in
          let (counts, few) = told s0 was in
          elim (Bool-cases (text_eq k j)) [
            | inl e ↦
                let at : k ≡ j = ground (arith, text_eq_iff k j) in
                ground (
                  arith,
                  at,
                  arrive-own j g s0 was,
                  decide-Told s s0 (g.admitted j) (g.refused j) (ground (arith, at)) counts few
                      same_max (ground arith),
                )
            | inr ne ↦ ground (arith, arrive-others k j g ne)
          ],
    )

leave_admitted-Sound :
    (limits : List (Text × ℕ)) (k : Text) (g : Gates) (others : ℕ)
    → g.admitted k ≡ suc others
    → Small g
    → Sound limits g
    → Sound limits (leave_admitted k others g)
unfolding leave_admitted dec
leave_admitted-Sound limits k g others e small sound j =
    let (maxes, told) = sound j in
    (
      ground (arith, text_eq_iff k j, find-change sub_one k j g.table),
      λ s found.
          let (s0, was, same_max, now) = find-before sub_one k j g.table s found in
          let (counts, few) = told s0 was in
          ground (
            arith,
            text_eq_iff k j,
            small k,
            sub_one-small (g.admitted k + g.refused k) (others + g.refused k) (omega arith),
          ),
    )

leave_refused-Sound :
    (limits : List (Text × ℕ)) (k : Text) (g : Gates) (others : ℕ)
    → g.refused k ≡ suc others
    → Small g
    → Sound limits g
    → Sound limits (leave_refused k others g)
unfolding leave_refused dec
leave_refused-Sound limits k g others e small sound j =
    let (maxes, told) = sound j in
    (
      ground (arith, text_eq_iff k j, find-change sub_one k j g.table),
      λ s found.
          let (s0, was, same_max, now) = find-before sub_one k j g.table s found in
          let (counts, few) = told s0 was in
          ground (
            arith,
            text_eq_iff k j,
            small k,
            sub_one-small (g.admitted k + g.refused k) (g.admitted k + others) (omega arith),
          ),
    )

arrive_size :
    (k : Text) (g : Gates)
    → (arrive k g).admitted k + (arrive k g).refused k ≡ g.admitted k + g.refused k + 1
unfolding arrive
arrive_size k g = ground (arith, text_eq_iff k k)

open_gates-Sound : (limits : List (Text × ℕ)) → Sound limits (open_gates limits)
unfolding open_gates new_table find
open_gates-Sound [] k = (refl, λ s found. ground arith)
open_gates-Sound ((j, max) ∷ limits) k =
    let (maxes, told) = open_gates-Sound limits k in
    (
      ground arith,
      λ s found. elim (Bool-cases (text_eq j k)) [
        | inl e ↦ ground arith
        | inr ne ↦ told s (ground arith)
      ],
    )

Step-Sound :
    (limits : List (Text × ℕ)) {g h : Gates}
    → Step g h
    → Small g
    → Small h
    → Sound limits g
    → Sound limits h
Step-Sound limits (arrives k g) small small' sound =
    arrive-Sound limits k g (omega (arith, arrive_size k g, small' k)) sound
Step-Sound limits (returns k g others e) small small' sound =
    leave_admitted-Sound limits k g others e small sound
Step-Sound limits (gives_up k g others e) small small' sound =
    leave_refused-Sound limits k g others e small sound

Steps-Sound :
    (limits : List (Text × ℕ)) {f g : Gates}
    → Steps f g
    → Small f × Sound limits f
    → Small g × Sound limits g
Steps-Sound limits (stay _) sound = sound
Steps-Sound limits (next _ h k ss s small) sound =
    let (small', sound') = Steps-Sound limits ss sound in
    (small, Step-Sound limits s small' small sound')

open_gates-Small : (limits : List (Text × ℕ)) → Small (open_gates limits)
unfolding open_gates
open_gates-Small limits k = omega arith

-- However the requests of all routes interleave, and with fewer than 2^32 requests of a route on
-- their way at any time: the limiter's count of a route with a limit is the number of its
-- requests on their way, and a limit other than 0 bounds those that were let through.
pub router_limiter_bound :
    (limits : List (Text × ℕ)) (g : Gates) (k : Text) (max : ℕ)
    → Steps (open_gates limits) g
    → limit k limits ≡ some max
    → (get_concurrency k g.table ≡ g.admitted k + g.refused k) × (max ≢ 0 → g.admitted k ≤ max)
unfolding get_concurrency
router_limiter_bound limits g k max ss lim =
    let (maxes, told) =
      (Steps-Sound limits ss (open_gates-Small limits, open_gates-Sound limits)).1 k in
    elim (Option-cases (find k g.table)) [
      | inl e ↦ absurd (ground arith)
      | inr (s, e) ↦ let (counts, few) = told s e in (ground arith, λ ne. ground arith)
    ]
