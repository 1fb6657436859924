-- ===== src/Middleware/Limiter/Bound.antt =====
-- How many requests the limiter lets through at once.
use elton.Common.{ℕ, suc, ◌+◌, ◌-◌, ◌≡◌, ◌<◌, ◌≤◌, ◌⊎◌, inl, refl, arith}
use elton.Middleware.Limiter.{
  Gate, add_one, sub_one, open_gate, arrive, leave_admitted, leave_refused, Step, arrives, returns,
  gives_up, Steps, stay, next,
}

abbrev pub Sound : ℕ → Gate → Type 0
Sound max g = (g.count ≡ g.admitted + g.refused) × ((g.admitted ≡ 0) ⊎ (g.admitted < max))

pub add_one-small : (n : ℕ) → n + 1 < 4294967296 → add_one n ≡ n + 1
unfolding add_one
add_one-small n h = omega arith

pub sub_one-small : (n m : ℕ) → n ≡ suc m → n < 4294967296 → sub_one n ≡ m
unfolding sub_one
sub_one-small n m e h = omega arith

arrive-Sound :
    (max : ℕ) (g : Gate)
    → g.admitted + g.refused + 1 < 4294967296
    → Sound max g
    → Sound max (arrive max g)
unfolding arrive
arrive-Sound max g small (counts, few) = ground (arith, add_one-small g.count (omega arith))

arrive_size :
    (max : ℕ) (g : Gate)
    → (arrive max g).admitted + (arrive max g).refused ≡ g.admitted + g.refused + 1
unfolding arrive
arrive_size max g = ground arith

Step-Sound :
    (max : ℕ) {g h : Gate}
    → Step max g h
    → g.admitted + g.refused < 4294967296
    → h.admitted + h.refused < 4294967296
    → Sound max g
    → Sound max h
unfolding leave_admitted leave_refused
Step-Sound max (arrives g) small small' sound =
    arrive-Sound max g (omega (arith, arrive_size max g)) sound
Step-Sound max (returns g others e) small small' (counts, few) =
    ground (arith, sub_one-small g.count (others + g.refused) (omega arith) (omega arith))
Step-Sound max (gives_up g others e) small small' (counts, few) =
    ground (arith, sub_one-small g.count (g.admitted + others) (omega arith) (omega arith))

Steps-Sound :
    (max : ℕ) {g : Gate}
    → Steps max open_gate g
    → (g.admitted + g.refused < 4294967296) × Sound max g
unfolding open_gate
Steps-Sound max (stay _) = (omega arith, (refl, inl refl))
Steps-Sound max (next _ h k ss s small) =
    let (small', sound) = Steps-Sound max ss in (small, Step-Sound max s small' small sound)

-- However the requests interleave, and with fewer than 2^32 of them on their way at any time, the
-- counter is their number, so it is 0 again when all are over; and at most `max - 1` of them are
-- let through at once, none at all for a `max` of 0.
pub limiter_bound :
    (max : ℕ) (g : Gate)
    → Steps max open_gate g
    → (g.count ≡ g.admitted + g.refused) × (g.admitted ≤ max - 1)
limiter_bound max g ss = let (_, (counts, few)) = Steps-Sound max ss in (counts, omega arith)
