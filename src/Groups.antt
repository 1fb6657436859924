-- ===== src/Groups.antt =====
-- elton.go: groups of routes. A group holds pointers to its sub groups, and a caller may go on
-- changing a group that has them, so groups live in a store.
pub mod Guarded
pub mod Added
use elton.Common.{
  ℕ, Bool, zero, suc, ◌+◌, Option, none, some, List, [], ◌∷◌, ◌++◌, Text, ◌==◌, if◌then◌else◌, ◌≡◌,
}
use elton.Chain.{Handler}
use elton.Server.{Elton, Route, handle, methods}

abbrev pub Ptr : Type 0
Ptr = ℕ

-- `Router`.
pub record Router : Type 0 where
  pub method : Text
  pub path : Text
  pub handle_list : List Handler

-- `Group`.
pub record Group : Type 0 where
  pub path : Text
  pub handler_list : List Handler
  pub routers : List Router
  pub children : List Ptr

abbrev pub group : Text → List Handler → Group
group path hs = record { path = path; handler_list = hs; routers = []; children = [] }

abbrev pub router : Text → Text → List Handler → Router
router method path hs = record { method = method; path = path; handle_list = hs }

pub record Store : Type 0 where
  pub next : Ptr
  pub at : Ptr → Option Group

abbrev pub empty_store : Store
empty_store = record { next = 0; at = λ p. none }

unfoldable pub write : Ptr → Group → Store → Store
write p g s = record s { at = λ q. if q == p then some g else s.at q }

-- A new object.
unfoldable pub alloc : Group → Store → Store
unfolding write
alloc g s = let t = write s.next g s in record t { next = s.next + 1 }

-- `NewGroup` of the package; the pointer is `s.next`.
unfoldable pub new_group : Text → List Handler → Store → Store
unfolding alloc
new_group path hs s = alloc (group path hs) s

-- `merge`.
unfoldable pub merge : Group → List Handler → List Handler
merge g hs = g.handler_list ++ hs

-- `Group.NewGroup` at the group `p`; a nil pointer, where the store has nothing, panics: `none`.
unfoldable pub new_sub_group : Ptr → Text → List Handler → Store → Option Store
unfolding alloc merge write
new_sub_group p path hs s = elim (s.at p) [
  | none ↦ none
  | some g ↦ some (
      write p (record g { children = g.children ++ s.next ∷ [] })
        (alloc (group (g.path ++ path) (merge g hs)) s))
]

-- `Group.handle`, which `GET` and its siblings call with their method.
unfoldable pub group_handle : Ptr → Text → Text → List Handler → Store → Option Store
unfolding merge write
group_handle p method path hs s = elim (s.at p) [
  | none ↦ none
  | some g ↦
      let r = router method (g.path ++ path) (merge g hs) in
      some (write p (record g { routers = g.routers ++ r ∷ [] }) s)
]

-- `Group.Multi`, and `Group.ALL` with the methods of const.go.
unfoldable pub group_multi : Ptr → List Text → Text → List Handler → Store → Option Store
unfolding group_handle
group_multi p [] path hs s = some s
group_multi p (m ∷ ms) path hs s = elim (group_handle p m path hs s) [
  | none ↦ none
  | some t ↦ group_multi p ms path hs t
]

unfoldable pub group_all : Ptr → Text → List Handler → Store → Option Store
unfolding group_multi
group_all p path hs s = group_multi p methods path hs s

-- The inner loop of `AddGroup`.
unfoldable pub add_routers : (List Route → Route → Bool) → List Router → Elton → Option Elton
unfolding handle
add_routers accepts [] e = some e
add_routers accepts (r ∷ rs) e = elim (handle accepts r.method r.path r.handle_list e) [
  | none ↦ none
  | some f ↦ add_routers accepts rs f
]

-- `AddGroup`; the fuel bounds the depth. `none` is a panic of the mux, too.
unfoldable pub add_group : (List Route → Route → Bool) → ℕ → Store → List Ptr → Elton → Option Elton
unfolding add_routers
add_group accepts fuel s [] e = some e
add_group accepts zero s (p ∷ ps) e = none
add_group accepts (suc fuel) s (p ∷ ps) e = elim (s.at p) [
  | none ↦ none
  | some g ↦ elim (add_routers accepts g.routers e) [
    | none ↦ none
    | some d ↦ elim (add_group accepts fuel s g.children d) [
      | none ↦ none
      | some f ↦ add_group accepts (suc fuel) s ps f
    ]
  ]
]

-- What a program does with groups, one call after the other.
pub data Step : Store → Store → Type 0 where
  creates : (path : Text) (hs : List Handler) (s : Store) → Step s (new_group path hs s)
  nests :
      (p : Ptr) (path : Text) (hs : List Handler) (s t : Store)
      → new_sub_group p path hs s ≡ some t
      → Step s t
  handles :
      (p : Ptr) (method path : Text) (hs : List Handler) (s t : Store)
      → group_handle p method path hs s ≡ some t
      → Step s t

pub data Steps : Store → Type 0 where
  nothing : Steps empty_store
  then_one : (s t : Store) → Steps s → Step s t → Steps t
