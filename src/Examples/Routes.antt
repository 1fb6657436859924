-- ===== src/Examples/Routes.antt =====
-- Patterns, parameters and the edge writer.
use elton.Common.{
  ◌≡◌, refl, true, false, none, some, List, [], ◌∷◌, map, codes, text_eq, any_of, cut_suffix, split,
  join, if◌then◌else◌, arith,
}
use elton.Http.{Header, new_writer}
use elton.Route.{normalize_route_path, extract_param_names, catch_all}
use elton.Route.Segments.{segment, normalize_route_path-segments}
use elton.Route.Names.{
  Piece, plain, one, remainder, show_all, IsPiece, extract_param_names-show_all,
}
use elton.RouteParams.{RouteParams, get, add, fill, reset}
use elton.RouteParams.Laws.{get-add, get-fill}
use elton.EdgeWriter.{EdgeWriter, change, head, body, acquire, apply_all, flush, direct_all}
use elton.EdgeWriter.Laws.{apply_all-untouched, flush_delivers, bodies}

normalize_route_path-segments_example :
    normalize_route_path (codes "/users/:id/*")
    ≡ join b'/' (
        map segment (
          split b'/'
            (catch_all (cut_suffix (codes "/users/:id/*") (codes "/*")) (codes "/users/:id/*"))))
normalize_route_path-segments_example =
    normalize_route_path-segments (codes "/users/:id/*") (cc) (cc)

abbrev pieces : List Piece
pieces =
    plain (codes "/users/") ∷ one (codes "id") ∷ plain (codes "/") ∷ remainder (codes "path") ∷ []

id-IsPiece : IsPiece (one (codes "id"))
unfolding cut_suffix text_eq
id-IsPiece = ((cc), (cc), refl, omega arith)

extract_param_names-show_all_example :
    extract_param_names (show_all pieces) ≡ codes "id" ∷ codes "path" ∷ []
extract_param_names-show_all_example =
    extract_param_names-show_all pieces
      (omega arith, (id-IsPiece, (omega arith, (((cc), omega arith), tt))))

abbrev params : RouteParams
params = record { keys = codes "id" ∷ []; values = codes "7" ∷ [] }

get-add_test : get (codes "id") (add (codes "name") (codes "x") params) ≡ (
    if any_of (text_eq (codes "id")) (codes "id" ∷ [])
    then get (codes "id") params
    else if text_eq (codes "id") (codes "name")
    then some (codes "x")
    else some [])
get-add_test = get-add (codes "id") (codes "name") (codes "x") params refl

get-fill_test :
    get (codes "id") (fill (codes "id" ∷ []) (λ n. n) (reset params))
    ≡ some (if any_of (text_eq (codes "id")) (codes "id" ∷ []) then codes "id" else [])
get-fill_test = get-fill (codes "id") (codes "id" ∷ []) (λ n. n) params

-- A writer as a former request left it in the pool.
abbrev used : EdgeWriter
used = record {
  inner = new_writer;
  hdr = some ((codes "X-Old", codes "1" ∷ []) ∷ []);
  status = 404;
  handled = true;
  header_wrote = true;
  buf = codes "old";
}

abbrev fresh : EdgeWriter
fresh = record {
  inner = new_writer;
  hdr = none;
  status = 0;
  handled = false;
  header_wrote = false;
  buf = [];
}

apply_all-untouched_test :
    ((apply_all (head 404 ∷ body (codes "no") ∷ []) fresh).inner ≡ new_writer)
    × ((apply_all (head 404 ∷ body (codes "no") ∷ []) fresh).handled ≡ false)
apply_all-untouched_test = apply_all-untouched (head 404 ∷ body (codes "no") ∷ []) fresh refl

abbrev location : Header
location = (codes "Location", codes "/a/" ∷ []) ∷ []

flush_delivers_run :
    (flush (
      apply_all
        (change (λ _. location) ∷ head 301 ∷ bodies (codes "Moved" ∷ []))
        (acquire used new_writer))).inner
    ≡ direct_all (change (λ _. location) ∷ head 301 ∷ bodies (codes "Moved" ∷ [])) new_writer
flush_delivers_run =
    flush_delivers used location 301 (codes "Moved" ∷ []) (omega arith) refl (tt, tt)
