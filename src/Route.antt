-- ===== src/Route.antt =====
-- route.go: the patterns that routes are registered under, and their wildcard names.
pub mod Segments
pub mod Names
use elton.Common.{
  ℕ, zero, suc, ◌≡◌, refl, Bool, true, false, not, ◌&&◌, ◌||◌, Option, none, some, List, [], ◌∷◌,
  ◌++◌, Text, codes, text_eq, is_empty, leb, ◌==◌, if◌then◌else◌, length, has_byte, cut_suffix,
  cut_byte,
}

unfoldable pub is_route_ident_byte : ℕ → Bool
is_route_ident_byte c =
    c == b'_'
    || (leb b'a' c && leb c b'z')
    || (leb b'A' c && leb c b'Z')
    || (leb b'0' c && leb c b'9')

-- The inner loop: the identifier at the front, `path[i+1:j]`, and what follows it.
unfoldable pub span_ident : Text → Text × Text
unfolding is_route_ident_byte
span_ident [] = ([], [])
span_ident (c ∷ s) =
    let (name, rest) = span_ident s in
    if is_route_ident_byte c then (c ∷ name, rest) else ([], c ∷ s)

-- `i == 0 || path[i-1] == '/'`, for the byte in front.
abbrev pub at_segment_start : Option ℕ → Bool
at_segment_start none = true
at_segment_start (some p) = p == b'/'

abbrev pub last_byte : Text → Option ℕ
last_byte [] = none
last_byte (c ∷ []) = some c
last_byte (_ ∷ d ∷ s) = last_byte (d ∷ s)

-- The outer loop, at the bytes that are left and the byte in front of them. Each round drops a
-- byte at least, so the length of the path is enough fuel.
unfoldable pub convert : ℕ → Option ℕ → Text → Text
unfolding span_ident
convert fuel prev [] = []
convert zero prev (c ∷ s) = []
convert (suc fuel) prev (c ∷ s) =
    let (name, rest) = span_ident s in
    let wildcard = b'{' ∷ (name ++ (b'}' ∷ convert fuel (last_byte name) rest)) in
    let copied = c ∷ convert fuel (some c) s in
    if c == b':' && at_segment_start prev && not (is_empty name) then wildcard else copied

abbrev pub catch_all : Option Text → Text → Text
catch_all none path = path
catch_all (some base) path = base ++ codes "/{path...}"

-- `normalizeRoutePath`.
unfoldable pub normalize_route_path : Text → Text
unfolding convert text_eq cut_suffix
normalize_route_path path =
    if is_empty path || text_eq path (codes "/")
    then codes "/{$}"
    else (let path' = catch_all (cut_suffix path (codes "/*")) path in
        if has_byte b':' path' then convert (length path') none path' else path')

abbrev trimmed : Option Text → Text → Text
trimmed none name = name
trimmed (some n) name = n

-- What one wildcard adds to the names.
unfoldable pub add_name : Text → List Text → List Text
add_name name names =
    if is_empty name || text_eq name (codes "$")
    then names
    else (let n = trimmed (cut_suffix name (codes "...")) name in
        if is_empty n then names else n ∷ names)

unfoldable pub extract : ℕ → Text → List Text
extract fuel [] = []
extract zero (c ∷ s) = []
extract (suc fuel) (c ∷ s) =
    let inside : List Text = elim (cut_byte b'}' s) [
      | none ↦ []
      | some (name, rest) ↦ add_name name (extract fuel rest)
    ] in
    let outside = extract fuel s in if c == b'{' then inside else outside

-- `extractParamNames`.
unfoldable pub extract_param_names : Text → List Text
unfolding extract add_name cut_byte cut_suffix text_eq
extract_param_names path = extract (length path) path

normalize_tests :
    (normalize_route_path [] ≡ codes "/{$}")
    × (normalize_route_path (codes "/users/:id/*") ≡ codes "/users/{id}/{path...}")
    × (normalize_route_path (codes "/a:b/:/x") ≡ codes "/a:b/:/x")
    × (extract_param_names (codes "/users/{id}/{path...}") ≡ codes "id" ∷ codes "path" ∷ [])
    × (extract_param_names (codes "/{$}") ≡ [])
unfolding normalize_route_path extract_param_names
normalize_tests = (refl, refl, refl, refl, refl)
