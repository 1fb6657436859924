-- ===== src/Groups/Added.antt =====
-- `AddGroup`: the routes that a group becomes.
use elton.Common.{ℕ, Bool, false, suc, ◌+◌, ◌≤◌, ◌≡◌, Option, none, some, List, ◌++◌, All, Text}
use elton.Chain.{Handler}
use elton.Route.{normalize_route_path}
use elton.Server.{Elton, Route}
use elton.Groups.{Ptr, Group, Store, add_routers, add_group}
use elton.Groups.Guarded.{Extends}

-- A registered route below a group: the pattern is made of a path that extends the group's, and
-- the chain is the middleware of the instance, the handlers of the group, and more.
abbrev pub IsGuarded : List Handler → Text → List Handler → Route → Type 0
IsGuarded middlewares path hs r =
    ((x : Text) × (r.path ≡ normalize_route_path (path ++ x)))
    × ((ys : List Handler) × (r.chain ≡ middlewares ++ (hs ++ ys)))

-- The instance got such routes, and nothing else was changed in its routes and middleware.
abbrev pub Adds : Text → List Handler → Elton → Elton → Type 0
Adds path hs e f =
    (f.middlewares ≡ e.middlewares)
    × (news : List Route) × (f.routes ≡ e.routes ++ news)
    × All (IsGuarded e.middlewares path hs) news

-- A registration below the group ends well, or the mux refuses a route of it next to those that it
-- has by then.
abbrev pub Refuses : (List Route → Route → Bool) → Text → List Handler → Elton → Type 0
Refuses accepts path hs e =
    (q : List Route) × (r : Route) × (accepts (e.routes ++ q) r ≡ false)
    × IsGuarded e.middlewares path hs r

abbrev pub Registers :
    (List Route → Route → Bool) → Text → List Handler → Elton → Option Elton → Type 0
Registers accepts path hs e none = Refuses accepts path hs e
Registers accepts path hs e (some f) = Adds path hs e f

-- A group of the store below `path` and `hs`, with fuel for the groups that are younger.
abbrev Under : Store → ℕ → Text → List Handler → Ptr → Type 0
Under s fuel path hs p =
    (g : Group) × (s.at p ≡ some g) × Extends path hs g.path g.handler_list × (s.next ≤ fuel + p)

abbrev below_then :
    (List Route → Route → Bool) → ℕ → Store → List Ptr → Group → Elton → Option Elton
below_then accepts fuel s ps g d = elim (add_group accepts fuel s g.children d) [
  | none ↦ none
  | some f ↦ add_group accepts (suc fuel) s ps f
]

abbrev group_then :
    (List Route → Route → Bool) → ℕ → Store → List Ptr → Elton → Group → Option Elton
group_then accepts fuel s ps e g = elim (add_routers accepts g.routers e) [
  | none ↦ none
  | some d ↦ below_then accepts fuel s ps g d
]

abbrev found_then :
    (List Route → Route → Bool) → ℕ → Store → List Ptr → Elton → Option Group → Option Elton
found_then accepts fuel s ps e none = none
found_then accepts fuel s ps e (some g) = group_then accepts fuel s ps e g
