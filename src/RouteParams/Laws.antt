-- ===== src/RouteParams/Laws.antt =====
-- What a route parameter reads as.
use elton.Common.{
  suc, ◌≡◌, refl, ap, true, some, List, [], ◌∷◌, ◌++◌, map, Text, text_eq, text_eq_iff, is_some,
  if◌then◌else◌, length, length-append, any_of, arith,
}
use elton.RouteParams.{RouteParams, add, get_from, get, put, fill_map, to_map, fill, reset}

-- The two slices have one length.
abbrev pub IsPaired : RouteParams → Type 0
IsPaired s = length s.keys ≡ length s.values

pub add-IsPaired : (k v : Text) (s : RouteParams) → IsPaired s → IsPaired (add k v s)
unfolding add
add-IsPaired k v s h = omega (arith, length-append s.keys (k ∷ []), length-append s.values (v ∷ []))

fill-IsPaired : (names : List Text) (f : Text → Text) → length names ≡ length (map f names)
fill-IsPaired [] f = refl
fill-IsPaired (n ∷ ns) f = ap suc (fill-IsPaired ns f)

get_from-add :
    (key k v : Text) (ks vs : List Text)
    → length ks ≡ length vs
    → get_from key (ks ++ k ∷ []) (vs ++ v ∷ []) ≡ (
        if any_of (text_eq key) ks
        then get_from key ks vs
        else if text_eq key k
        then some v
        else some [])
unfolding get_from
get_from-add key k v [] [] h = ground arith
get_from-add key k v (j ∷ ks) (w ∷ vs) h = ground (arith, get_from-add key k v ks vs)
get_from-add key k v [] (w ∷ vs) h = absurd (omega arith)
get_from-add key k v (j ∷ ks) [] h = absurd (omega arith)

-- Of two parameters of one name the first is read: an added parameter is read back unless its
-- name was there, and no other parameter changes; a missing name reads as the empty text.
pub get-add :
    (key k v : Text) (s : RouteParams)
    → IsPaired s
    → get key (add k v s) ≡ (
        if any_of (text_eq key) s.keys
        then get key s
        else if text_eq key k
        then some v
        else some [])
unfolding get add
get-add key k v s h = get_from-add key k v s.keys s.values h

get_from-fill :
    (key : Text) (names : List Text) (f : Text → Text)
    → get_from key names (map f names) ≡ some (if any_of (text_eq key) names then f key else [])
unfolding get_from
get_from-fill key [] f = refl
get_from-fill key (n ∷ ns) f = ground (arith, text_eq_iff key n, get_from-fill key ns f)

-- The parameters that a route fills are those of the matched path: a wildcard name reads as its
-- path value, and every other name as the empty text.
pub get-fill :
    (key : Text) (names : List Text) (f : Text → Text) (s : RouteParams)
    → get key (fill names f (reset s)) ≡ some (if any_of (text_eq key) names then f key else [])
unfolding get fill reset
get-fill key [] f s = refl
get-fill key (n ∷ ns) f s = get_from-fill key (n ∷ ns) f

fill_map-total :
    (ks vs : List Text) (m : List (Text × Text))
    → length ks ≡ length vs
    → is_some (fill_map ks vs m) ≡ true
unfolding fill_map
fill_map-total [] vs m h = refl
fill_map-total (k ∷ ks) [] m h = absurd (omega arith)
fill_map-total (k ∷ ks) (v ∷ vs) m h = fill_map-total ks vs (put k v m) (omega arith)

-- Neither `Get` nor `ToMap` runs out of values.
pub to_map-total : (s : RouteParams) → IsPaired s → is_some (to_map s) ≡ true
unfolding to_map
to_map-total s h = fill_map-total s.keys s.values [] h
