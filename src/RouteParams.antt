-- ===== src/RouteParams.antt =====
-- route_params.go: the wildcards of a matched route, as two slices of one length.
pub mod Laws
use elton.Common.{
  ℕ, Bool, true, false, Option, none, some, List, [], ◌∷◌, ◌++◌, map, Text, text_eq, if◌then◌else◌,
  take,
}

pub record RouteParams : Type 0 where
  pub keys : List Text
  pub values : List Text

abbrev pub empty : RouteParams
empty = record { keys = []; values = [] }

-- `Add`.
unfoldable pub add : Text → Text → RouteParams → RouteParams
add key value s = record { keys = s.keys ++ key ∷ []; values = s.values ++ value ∷ [] }

-- `Reset`.
unfoldable pub reset : RouteParams → RouteParams
reset s = record s { keys = take 0 s.keys; values = take 0 s.values }

-- The loop of `Get`. Fewer values than keys would be a panic in Go; the model answers `none`.
unfoldable pub get_from : Text → List Text → List Text → Option Text
get_from key [] vs = some []
get_from key (k ∷ ks) [] = if text_eq key k then none else get_from key ks []
get_from key (k ∷ ks) (v ∷ vs) = if text_eq key k then some v else get_from key ks vs

-- `Get`.
unfoldable pub get : Text → RouteParams → Option Text
unfolding get_from
get key s = get_from key s.keys s.values

-- `m[key] = value`.
unfoldable pub put : Text → Text → List (Text × Text) → List (Text × Text)
put k v [] = (k, v) ∷ []
put k v ((j, w) ∷ m) = if text_eq j k then (k, v) ∷ m else (j, w) ∷ put k v m

-- The loop of `ToMap`.
unfoldable pub fill_map : List Text → List Text → List (Text × Text) → Option (List (Text × Text))
fill_map [] vs m = some m
fill_map (k ∷ ks) [] m = none
fill_map (k ∷ ks) (v ∷ vs) m = fill_map ks vs (put k v m)

-- `ToMap`.
unfoldable pub to_map : RouteParams → Option (List (Text × Text))
unfolding fill_map
to_map s = fill_map s.keys s.values []

-- What the route handler of `Elton.Handle` writes: the slices get the length of the names, and each
-- wildcard name its `PathValue`. Without names the slices are left alone.
unfoldable pub fill : List Text → (Text → Text) → RouteParams → RouteParams
fill [] path_value s = s
fill (n ∷ ns) path_value s = record s { keys = n ∷ ns; values = map path_value (n ∷ ns) }
