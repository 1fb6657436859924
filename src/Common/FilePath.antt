-- ===== src/Common/FilePath.antt =====
-- `filepath.Clean`, `filepath.Join` and `filepath.Ext` for paths with `/`.
use Prim.Native.Nat.{ℕ, zero, suc}
use mathlib.Core.Path.{◌≡◌, refl}
use mathlib.Core.Bool.{Bool, true, false, not, ◌&&◌}
use mathlib.Core.List.{List, [], ◌∷◌}
use elton.Common.Tests.{◌==◌, if◌then◌else◌}
use elton.Common.Lists.{keep}
use elton.Common.Bytes.{Text, codes, text_eq, is_empty, has_byte}
use elton.Common.Parts.{split, join}

abbrev pub is_dot : Text → Bool
is_dot s = text_eq s (b'.' ∷ [])

abbrev pub is_dots : Text → Bool
is_dots s = text_eq s (b'.' ∷ b'.' ∷ [])

-- An element that is neither empty nor `.`.
abbrev pub is_element : Text → Bool
is_element s = not (is_empty s) && not (is_dot s)

-- The elements, read from the right, without each `..` and the element before it; the number
-- counts the `..` that have none.
abbrev pub resolve_one : Text → ℕ × List Text → ℕ × List Text
resolve_one e (up, es) =
    if is_dots e then (suc up, es) else elim up [ zero ↦ (zero, e ∷ es) | suc n ↦ (n, es) ]

unfoldable pub resolve : List Text → ℕ × List Text
unfolding text_eq
resolve [] = (0, [])
resolve (e ∷ es) = resolve_one e (resolve es)

abbrev pub ups : ℕ → List Text → List Text
ups zero es = es
ups (suc n) es = (b'.' ∷ b'.' ∷ []) ∷ ups n es

abbrev pub is_rooted : Text → Bool
is_rooted [] = false
is_rooted (c ∷ s) = c == b'/'

-- The parts of a clean path: a rooted one has an empty part in front.
abbrev pub clean_parts : Bool → ℕ × List Text → List Text
clean_parts true (up, []) = [] ∷ [] ∷ []
clean_parts true (up, e ∷ es) = [] ∷ e ∷ es
clean_parts false (zero, []) = (b'.' ∷ []) ∷ []
clean_parts false (up, es) = ups up es

unfoldable pub clean : Text → Text
unfolding resolve split join text_eq
clean s = join b'/' (clean_parts (is_rooted s) (resolve (keep is_element (split b'/' s))))

-- The join of the elements behind the empty ones; nothing if all are empty.
unfoldable pub join_path : List Text → Text
unfolding clean join
join_path [] = []
join_path (e ∷ es) = if is_empty e then join_path es else clean (join b'/' (e ∷ es))

-- The text from the last dot of the last element.
unfoldable pub extension : Text → Text
extension [] = []
extension (c ∷ s) =
    let later = extension s in
    if not (is_empty later) then later else if c == b'.' && not (has_byte b'/' s) then c ∷ s else []

path_tests :
    (join_path (codes "public" ∷ codes "/a/../../b" ∷ []) ≡ codes "b")
    × (join_path (codes "/srv/public/" ∷ codes "../x" ∷ []) ≡ codes "/srv/x")
    × (join_path (codes ".." ∷ codes "../x" ∷ []) ≡ codes "../../x")
    × (join_path (codes "./public" ∷ [] ∷ []) ≡ codes "public")
    × (join_path (codes "/" ∷ codes "../.." ∷ []) ≡ codes "/")
    × (join_path (codes "." ∷ [] ∷ []) ≡ codes ".")
    × (extension (codes "a.b/index.min.js") ≡ codes ".js")
    × (extension (codes "a.b/c") ≡ [])
unfolding join_path extension
path_tests = (refl, refl, refl, refl, refl, refl, refl, refl)
