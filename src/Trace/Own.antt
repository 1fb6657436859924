-- ===== src/Trace/Own.antt =====
-- The own times of the middleware.
use elton.Common.{
  ℕ, ◌+◌, ◌≤◌, ◌≡◌, refl, true, false, inl, inr, List, [], ◌∷◌, Bool-cases, if◌then◌else◌, arith,
}
use elton.Trace.{TraceInfo, Trace, next_duration, subtract_next, calculate}

-- Each middleware took at least as long as the next one, which it calls.
abbrev pub IsNested : List TraceInfo → Type 0
IsNested [] = Unit
IsNested (x ∷ xs) = (x.middleware ≡ true → next_duration xs ≤ x.duration) × IsNested xs

-- The durations of all middleware together.
abbrev pub total : List TraceInfo → ℕ
total [] = 0
total (x ∷ xs) = if x.middleware then x.duration + total xs else total xs

own_total : (xs : List TraceInfo) → IsNested xs → total (subtract_next xs) ≡ next_duration xs
unfolding subtract_next
own_total [] h = refl
own_total (x ∷ xs) (nested, h) = elim (Bool-cases x.middleware) [
  | inl e ↦ ground (arith, own_total xs h, nested e)
  | inr e ↦ ground (arith, own_total xs h)
]

-- `Calculate` leaves each middleware its own time: if each took at least as long as the one that it
-- calls, the durations of all of them together are then that of the first, which was the time of
-- the whole chain; and to calculate again changes nothing. (Nothing was calculated before.)
pub calculate-total :
    (t : Trace)
    → t.calculate_done ≡ false
    → IsNested t.infos
    → (total (calculate t).infos ≡ next_duration t.infos) × (calculate (calculate t) ≡ calculate t)
unfolding calculate
calculate-total t fresh nested = (rw fresh (own_total t.infos nested), rw fresh refl)
