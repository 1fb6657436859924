-- ===== src/Examples/Grouped.antt =====
-- Groups of routes at a small tree.
use elton.Common.{
  Bool, not, ◌&&◌, any_of, text_eq, ◌≡◌, refl, none, some, List, [], ◌∷◌, Text, codes, Option, map,
}
use elton.Chain.{Handler, done, returned, pass_on}
use elton.Server.{Elton, Route, new_without_server}
use elton.Groups.{
  Group, Store, empty_store, new_group, new_sub_group, group_handle, add_group, group, router,
}

abbrev auth : Handler
auth c = pass_on c

abbrev log : Handler
log c = pass_on c

abbrev list_users : Handler
list_users c = done c (returned none)

-- The group of users with a sub group that is made before a route of its parent.
abbrev users : Group
users = group (codes "/users") (auth ∷ [])

abbrev one : Store
one = new_group (codes "/users") (auth ∷ []) empty_store

abbrev or_empty : Option Store → Store
or_empty none = empty_store
or_empty (some s) = s

abbrev two : Store
two = or_empty (new_sub_group 0 (codes "/v2") (log ∷ []) one)

abbrev three : Store
three = or_empty (group_handle 1 (codes "GET") (codes "/all") (list_users ∷ []) two)

abbrev four : Store
four = or_empty (group_handle 0 (codes "POST") (codes "/") (list_users ∷ []) three)

abbrev root : Group
root = record users {
  routers = router (codes "POST") (codes "/users/") (auth ∷ list_users ∷ []) ∷ [];
  children = 1 ∷ [];
}

abbrev is_route : Route → Text × Text
is_route r = (r.method, r.path)

abbrev routes_of : Option Elton → List (Text × Text)
routes_of none = []
routes_of (some e) = map is_route e.routes

-- A mux that refuses a pattern that it has.
abbrev no_repeat : List Route → Route → Bool
no_repeat rs r = not (any_of (λ q. text_eq q.path r.path && text_eq q.method r.method) rs)

routes_test :
    routes_of (add_group no_repeat 2 four (0 ∷ []) new_without_server)
    ≡ (codes "POST", codes "/users/") ∷ (codes "GET", codes "/users/v2/all") ∷ []
unfolding add_group elton.Common.text_eq new_sub_group group_handle new_group new_without_server
    elton.Route.normalize_route_path
routes_test = refl
