-- ===== src/Trace.antt =====
-- trace.go: the times of the middleware, and the text of the field Server-Timing. A duration is a
-- number of nanoseconds and not negative: where a middleware took less time than the one that it
-- calls, which a clock does not show, the source has a negative number and the model 0.
pub mod Own
use elton.Common.{
  ℕ, zero, suc, ◌≡◌, refl, ◌+◌, ◌-◌, ◌*◌, ◌/◌, ◌%◌, Bool, true, false, not, Option, none, some,
  List, [], ◌∷◌, ◌++◌, Text, codes, is_empty, itoa, keep, ltb, if◌then◌else◌, length,
}
use elton.Context.{Context, set_header}

-- `TraceInfo`.
pub record TraceInfo : Type 0 where
  pub middleware : Bool
  pub name : Text
  pub duration : ℕ

-- `Trace`.
pub record Trace : Type 0 where
  pub calculate_done : Bool
  pub infos : List TraceInfo

unfoldable pub new_trace : Trace
new_trace = record { calculate_done = false; infos = [] }

-- `Add`; `Start` adds an entry without a duration, and the function that it returns sets it.
unfoldable pub add : TraceInfo → Trace → Trace
add info t = record t { infos = t.infos ++ info ∷ [] }

unfoldable pub start : Text → Trace → Trace
unfolding add
start name t = add (record { middleware = false; name = name; duration = 0 }) t

-- The entry at an index gets the time since its start.
unfoldable pub stop : ℕ → ℕ → List TraceInfo → List TraceInfo
stop i d [] = []
stop zero d (x ∷ xs) = record x { duration = d } ∷ xs
stop (suc i) d (x ∷ xs) = x ∷ stop i d xs

-- The loop of `Calculate` behind an entry of a middleware: the entries up to the next one of a
-- middleware, whose duration is subtracted from it.
abbrev pub next_duration : List TraceInfo → ℕ
next_duration [] = 0
next_duration (x ∷ xs) = if x.middleware then x.duration else next_duration xs

unfoldable pub subtract_next : List TraceInfo → List TraceInfo
subtract_next [] = []
subtract_next (x ∷ xs) =
    let rest = subtract_next xs in
    if x.middleware then record x { duration = x.duration - next_duration xs } ∷ rest else x ∷ rest

unfoldable pub calculate : Trace → Trace
unfolding subtract_next
calculate t =
    if t.calculate_done then t else record { calculate_done = true; infos = subtract_next t.infos }

-- `writeMs`.
unfoldable pub get_ms : ℕ → Text
unfolding itoa
get_ms ns =
    let ms = itoa (ns / 1000000) in
    let offset = (ns % 1000000) / 1000 in
    if ltb ns 1000
    then b'0' ∷ []
    else if ltb offset 10
    then ms
    else if ltb offset 100
    then ms ++ codes ".0" ++ itoa (offset / 10)
    else ms ++ codes "." ++ itoa (offset / 10)

abbrev pub entry : Text → ℕ → TraceInfo → Text
entry prefix i x =
    prefix
    ++ itoa i
    ++ codes ";dur="
    ++ get_ms x.duration
    ++ codes ";desc=\""
    ++ x.name
    ++ codes "\""

abbrev comma_unless_last : List TraceInfo → Text
comma_unless_last [] = []
comma_unless_last (x ∷ xs) = b',' ∷ []

unfoldable pub server_timing_from : Text → ℕ → List TraceInfo → Text
unfolding get_ms itoa
server_timing_from prefix i [] = []
server_timing_from prefix i (x ∷ xs) =
    entry prefix i x ++ comma_unless_last xs ++ server_timing_from prefix (i + 1) xs

-- `TraceInfos.ServerTiming`, and `ServerTiming` of the context.
unfoldable pub server_timing : List TraceInfo → Text → Text
unfolding server_timing_from
server_timing infos prefix = server_timing_from prefix 0 infos

unfoldable pub context_server_timing : List TraceInfo → Text → Context → Context
unfolding server_timing set_header
context_server_timing infos prefix c =
    let value = server_timing infos prefix in
    if is_empty value then c else set_header (codes "Server-Timing") value c

-- `Filter` and `FilterDurationGreaterThan`.
unfoldable pub filter : (TraceInfo → Bool) → List TraceInfo → List TraceInfo
filter f infos = keep f infos

unfoldable pub filter_duration_greater_than : ℕ → List TraceInfo → List TraceInfo
unfolding filter
filter_duration_greater_than d infos = filter (λ x. ltb d x.duration) infos

trace_tests :
    (get_ms 1_230_000 ≡ codes "1.23") × (get_ms 1_050_000 ≡ codes "1.05") × (get_ms 999 ≡ codes "0")
unfolding get_ms
trace_tests = (refl, refl, refl)
