-- ===== src/Http.antt =====
-- The package `net/http` as far as the framework uses it: `Header`, the map of header fields under
-- canonical keys, and a `ResponseWriter`. A Go map is an association list; the order of its
-- entries stands for the order in which `range` happens to visit them.
pub mod Laws
use elton.Common.{
  ℕ, suc, ◌+◌, ◌-◌, ◌≡◌, refl, Bool, true, false, ◌&&◌, ◌||◌, Option, none, some, List, [], ◌∷◌,
  ◌++◌, Text, codes, text_eq, is_empty, leb, ltb, not, ◌==◌, if◌then◌else◌, lower_byte, upper_byte,
}

-- A byte that a field name may hold (RFC 7230, token).
unfoldable pub is_token_byte : ℕ → Bool
is_token_byte c =
    (leb b'a' c && leb c b'z')
    || (leb b'A' c && leb c b'Z')
    || (leb b'0' c && leb c b'9')
    || c == b'!'
    || (leb b'#' c && leb c b'\'')
    || c == b'*'
    || c == b'+'
    || c == b'-'
    || c == b'.'
    || (leb b'^' c && leb c b'`')
    || c == b'|'
    || c == b'~'

unfoldable pub is_token : Text → Bool
unfolding is_token_byte
is_token [] = true
is_token (c ∷ s) = is_token_byte c && is_token s

-- Upper case at the start and behind each dash, lower case elsewhere.
unfoldable pub capitalize : Bool → Text → Text
capitalize upper [] = []
capitalize upper (c ∷ s) = (if upper then upper_byte c else lower_byte c) ∷ capitalize (c == b'-') s

-- `textproto.CanonicalMIMEHeaderKey`.
unfoldable pub canonical : Text → Text
unfolding is_token capitalize
canonical s = if is_token s then capitalize true s else s

abbrev pub Header : Type 0
Header = List (Text × List Text)

-- The entry under a key that is canonical already.
unfoldable pub entry : Text → Header → List Text
entry k [] = []
entry k ((j, vs) ∷ h) = if text_eq j k then vs else entry k h

unfoldable pub put : Text → List Text → Header → Header
put k vs [] = (k, vs) ∷ []
put k vs ((j, ws) ∷ h) = if text_eq j k then (k, vs) ∷ h else (j, ws) ∷ put k vs h

unfoldable pub remove : Text → Header → Header
remove k [] = []
remove k ((j, ws) ∷ h) = if text_eq j k then remove k h else (j, ws) ∷ remove k h

abbrev pub first_value : List Text → Text
first_value [] = []
first_value (v ∷ _) = v

-- `Header.Get`, `Values`, `Set`, `Add` and `Del`.
unfoldable pub get : Text → Header → Text
get k h = first_value (entry (canonical k) h)

unfoldable pub values : Text → Header → List Text
values k h = entry (canonical k) h

unfoldable pub set : Text → Text → Header → Header
set k v h = put (canonical k) (v ∷ []) h

unfoldable pub add : Text → Text → Header → Header
add k v h = put (canonical k) (entry (canonical k) h ++ v ∷ []) h

unfoldable pub del : Text → Header → Header
del k h = remove (canonical k) h

-- A `ResponseWriter` of the server. The status and the header fields are fixed by the first
-- `WriteHeader` with a final status; later changes of `header` do not reach the client. `body` is
-- what the server takes for the body; for a HEAD request it takes the bytes and sends none.
pub record Writer : Type 0 where
  pub header : Header
  pub sent : Option (ℕ × Header)
  pub body : Text

abbrev pub new_writer : Writer
new_writer = record { header = []; sent = none; body = [] }

abbrev send : Option (ℕ × Header) → ℕ → Header → Option (ℕ × Header)
send none code h = some (code, h)
send (some s) code h = some s

-- A status from 100 to 199 but 101 is informational: it is sent at once, and a final one follows.
abbrev pub is_informational : ℕ → Bool
is_informational code = ltb 99 code && ltb code 200 && not (code == 101)

-- `bodyAllowedForStatus`.
abbrev pub body_allowed : ℕ → Bool
body_allowed code = not (ltb code 200 || code == 204 || code == 304)

abbrev pub takes_body : Option (ℕ × Header) → Bool
takes_body none = true
takes_body (some (code, h)) = body_allowed code

unfoldable pub write_header : ℕ → Writer → Writer
write_header code w =
    if is_informational code then w else record w { sent = send w.sent code w.header }

-- `Write` sends the status 200 first, if no status was sent; a status without a body refuses it.
unfoldable pub write : Text → Writer → Writer
write b w = record w {
  sent = send w.sent 200 w.header;
  body = if takes_body w.sent then w.body ++ b else w.body;
}

canonical_tests :
    (canonical (codes "content-type") ≡ codes "Content-Type")
    × (canonical (codes "ETAG") ≡ codes "Etag")
    × (canonical (codes "bad key") ≡ codes "bad key")
unfolding canonical
canonical_tests = (refl, refl, refl)
