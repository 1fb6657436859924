-- ===== src/Chain.antt =====
-- context.go and elton.go: the chain of handlers behind `c.Next()`. A handler is a Go function
-- that may call `c.Next()` any number of times; the model has it as the tree of what it does
-- between these calls, so that nothing of the cursor is in its reach. A `defer` that recovers from
-- a panic, or that undoes something, is a continuation that looks at the outcome.
pub mod Fuel
pub mod Onion
pub mod Composed
pub mod Continued
use elton.Common.{ℕ, zero, suc, Bool, true, false, Option, none, some, List, [], ◌∷◌, Text}
use elton.Context.{Context, Err}

-- How a call ends: it returns an error or nil, or it panics with an error or another value.
pub data Outcome : Type 0 where
  returned : Option Err → Outcome
  panicked_err : Err → Outcome
  panicked_value : Text → Outcome

mutual
  -- `push` is the beginning of a handler that `Compose` made: it replaces `c.Next`.
  pub data Run : Type 0 where
    done : Context → Outcome → Run
    next : Context → (Context → Outcome → Run) → Run
    push : Handlers → Run → Run

  pub data Handlers : Type 0 where
    end : Handlers
    step : (Context → Run) → Handlers → Handlers

abbrev pub Handler : Type 0
Handler = Context → Run

unfoldable pub handlers : List Handler → Handlers
handlers [] = end
handlers (h ∷ hs) = step h (handlers hs)

-- `return c.Next()`.
unfoldable pub pass_on : Handler
pass_on c = next c (λ d o. done d o)

-- `err := c.Next()` followed by `then`; a panic goes through.
abbrev pub after_call : (Context → Option Err → Run) → Context → Outcome → Run
after_call then_ d (returned e) = then_ d e
after_call then_ d o = done d o

unfoldable pub call_next : Context → (Context → Option Err → Run) → Run
call_next c then_ = next c (after_call then_)

-- `Compose`; it panics on an empty list at registration, which is `none`.
unfoldable pub compose : List Handler → Option Handler
unfolding handlers
compose [] = none
compose (h ∷ hs) = some (λ c. push (handlers (h ∷ hs)) (pass_on c))

-- What `c.Next` points at: the handlers that are left in each composed handler entered and not yet
-- run to its end, innermost first, and those left in the snapshot of the route. `handlerIndex` is
-- the length of the snapshot less that of `base`, less one.
pub record Cursor : Type 0 where
  pub frames : List Handlers
  pub base : Handlers

-- `chainNext`: the test of `Committed`, and the step of the cursor.
abbrev pick_base : Bool → Handlers → Option Handler × Handlers
pick_base true hs = (none, hs)
pick_base false end = (none, end)
pick_base false (step h hs) = (some h, hs)

abbrev at_base : Option Handler × Handlers → Option Handler × Cursor
at_base (h, hs) = (h, record { frames = []; base = hs })

-- The function that `c.Next` is. A composed handler that is run to its end restores the function
-- that it replaced, and calls it.
unfoldable pub pick : Bool → List Handlers → Handlers → Option Handler × Cursor
pick committed [] base = at_base (pick_base committed base)
pick committed (end ∷ fs) base = pick committed fs base
pick committed (step h hs ∷ fs) base = (some h, record { frames = hs ∷ fs; base = base })

abbrev pub enter : Handlers → Cursor → Cursor
enter hs k = record k { frames = hs ∷ k.frames }

abbrev pub Result : Type 0
Result = Context × Outcome × Cursor

-- What a handler does. Each call of `c.Next` that runs a handler takes one unit of fuel from what
-- that handler may use; `none` means that the fuel ran out.
unfoldable pub exec : ℕ → Cursor → Run → Option Result
exec zero k (done c o) = some (c, o, k)
exec (suc fuel) k (done c o) = some (c, o, k)
exec zero k (push hs r) = exec zero (enter hs k) r
exec (suc fuel) k (push hs r) = exec (suc fuel) (enter hs k) r
exec zero k (next c then_) =
    let (found, k') = pick c.committed k.frames k.base in
    elim found [ none ↦ exec zero k' (then_ c (returned none)) | some h ↦ none ]
exec (suc fuel) k (next c then_) =
    let (found, k') = pick c.committed k.frames k.base in
    elim found [
      | none ↦ exec (suc fuel) k' (then_ c (returned none))
      | some h ↦ elim (exec fuel k' (h c)) [
        | none ↦ none
        | some (d, o, k'') ↦ exec (suc fuel) k'' (then_ d o)
      ]
    ]

abbrev pub start : List Handler → Cursor
start hs = record { frames = []; base = handlers hs }

-- What `Reset` makes of the fields of the chain, `Next` included; and the handlers and the index that
-- `Handle` sets.
unfoldable pub reset_cursor : Cursor → Cursor
reset_cursor k = record k { frames = []; base = end }

abbrev pub set_handlers : List Handler → Cursor → Cursor
set_handlers hs k = record k { base = handlers hs }

-- The call of `c.Next()` with which the framework enters the chain of a route.
unfoldable pub run_chain : ℕ → List Handler → Context → Option Result
unfolding exec pass_on
run_chain fuel hs c = exec fuel (start hs) (pass_on c)
