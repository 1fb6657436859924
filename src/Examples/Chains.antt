-- ===== src/Examples/Chains.antt =====
-- The chain at a few handlers.
use elton.Common.{◌≡◌, refl, true, false, none, some, List, [], ◌∷◌, ◌++◌, map, Text, codes, arith}
use elton.Context.{Context, nil, no_request}
use elton.Http.{new_writer}
use elton.RouteParams.{empty}
use elton.Chain.{
  returned, done, next, push, end, step, Handler, handlers, Cursor, Result, run_chain, pick,
  compose,
}
use elton.Chain.Fuel.{WeighAll, finishes, calls, pushes, none_left, one_more, run_chain_ends}
use elton.Chain.Onion.{Layer, layer, onion, run_chain-onion}
use elton.Chain.Composed.{around, compose_lem}

abbrev pub blank : Context
blank = record {
  request = no_request;
  response = new_writer;
  committed = false;
  id = [];
  route = [];
  params = empty;
  status_code = 0;
  body = nil;
  body_buffer = none;
  request_body = none;
  store = [];
  real_ip = [];
  client_ip = [];
  reuse_disabled = false;
  cache_query = none;
  closes = 0;
}

-- A middleware that signs the route field on the way in and on the way out.
abbrev signing : Text → Layer
signing s = record {
  before = λ c. record c { route = c.route ++ s };
  after = λ c e. (record c { route = c.route ++ s }, e);
}

-- A handler that commits and does not call `Next`.
abbrev answering : Handler
answering c = done (record c { committed = true; status_code = 200 }) (returned none)

abbrev two : List Layer
two = signing (codes "a") ∷ signing (codes "b") ∷ []

two_run :
    run_chain 2 (map layer two) blank
    ≡ some
        (record blank { route = codes "abba" }, returned none, record { frames = []; base = end })
unfolding run_chain pick handlers
two_run = refl

run_chain-onion_example :
    (k : Cursor) × (run_chain 2 (map layer two) blank
      ≡ some ((onion two blank).0, returned (onion two blank).1, k))
run_chain-onion_example = run_chain-onion two 2 blank (omega arith)

-- A handler that calls `Next` twice, and one that composes two.
abbrev twice : Handler
twice c = next c (λ d o. next d (λ e p. done e p))

abbrev composing : Handler
composing c = push (step answering (step twice end)) (next c (λ d o. done d o))

composing-WeighAll : WeighAll 4 (handlers (twice ∷ composing ∷ []))
unfolding handlers
composing-WeighAll =
    one_more {a = 0} {m = 3} (omega arith) (λ c. calls (λ d o. calls (λ e p. finishes)))
      (one_more {a = 2} {m = 0} (omega arith)
        (λ c.
          pushes {a = 2} {m = 0} (omega arith)
            (one_more {a = 0} {m = 1} (omega arith) (λ d. finishes)
              (one_more {a = 0} {m = 0} (omega arith) (λ d. calls (λ e o. calls (λ g p. finishes)))
                none_left))
            (calls (λ d o. finishes)))
        none_left)

run_chain_ends_example : (x : Result) × (run_chain 4 (twice ∷ composing ∷ []) blank ≡ some x)
run_chain_ends_example = run_chain_ends 4 (twice ∷ composing ∷ []) blank composing-WeighAll

compose_lem_example :
    (h : Handler) × (compose (map layer two) ≡ some h)
    × ((k : Cursor) × (run_chain 4 (h ∷ map layer (signing (codes "c") ∷ [])) blank
          ≡ some (
            (around two (onion (signing (codes "c") ∷ [])) blank).0,
            returned (around two (onion (signing (codes "c") ∷ [])) blank).1,
            k,
          )))
compose_lem_example =
    compose_lem (signing (codes "a")) (signing (codes "b") ∷ []) (signing (codes "c") ∷ []) 3 blank
      refl (omega arith)
