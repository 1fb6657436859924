-- ===== src/Middleware/Tracker.antt =====
-- middleware/tracker.go. `json.Unmarshal` and the elapsed time are parameters.
pub mod Cut
pub mod Masked
use elton.Common.{
  ℕ, zero, suc, ◌-◌, Bool, true, false, ◌&&◌, ◌||◌, not, Option, none, some, List, [], ◌∷◌, ◌++◌,
  map, Text, codes, to_lower, contains, itoa, take, drop, length, leb, ltb, ◌==◌, if◌then◌else◌,
}
use elton.RouteParams
use elton.Context.{Context, Err, plain}
use elton.Context.Contents.{query}
use elton.Chain.{Run, done, returned, panicked_err, Handler, pass_on, call_next}
use elton.Middleware.Skipper.{Skipper, get_skipper}

-- A value of a JSON object: a string or something else.
pub data Json : Type 0 where
  string : Text → Json
  other : Text → Json

-- `HandleSuccess` and `HandleFail`.
abbrev pub handle_success : ℕ
handle_success = 0

abbrev pub handle_fail : ℕ
handle_fail = 1

-- `TrackerInfo`; a nil map is `none`.
pub record TrackerInfo : Type 0 where
  pub cid : Text
  pub query : Option (List (Text × Text))
  pub params : Option (List (Text × Text))
  pub form : Option (List (Text × Json))
  pub latency : ℕ
  pub result : ℕ
  pub err : Option Err

-- `TrackerConfig`, with `MatchString` of the mask; a length that is not positive is 0 here.
pub record TrackerConfig : Type 0 where
  pub on_track : TrackerInfo → Context → Context
  pub mask : Option (Text → Bool)
  pub max_length : ℕ
  pub skipper : Option Skipper

-- The folding of case by `(?i)`, in which the long s, of the bytes 197 and 191, is an s.
abbrev begins_191 : Text → Bool
begins_191 [] = false
begins_191 (b ∷ s) = b == 191

unfoldable pub fold_case : Text → Text
fold_case [] = []
fold_case (b ∷ s) =
    let rest = fold_case s in if b == 197 && begins_191 s then 115 ∷ drop 1 rest else b ∷ rest

-- `defaultTrackerMaskFields`.
unfoldable pub default_mask : Text → Bool
unfolding fold_case to_lower contains
default_mask name = contains (to_lower (fold_case name)) (codes "password")

-- `utf8.RuneStart`.
abbrev pub rune_start : ℕ → Bool
rune_start b = not (leb 128 b && ltb b 192)

-- Whether `s[n]` begins a rune; the one caller is within the bounds of `s`.
abbrev pub starts : Text → Bool
starts [] = true
starts (b ∷ s) = rune_start b

-- The loop of `truncateString`.
unfoldable pub rune_boundary : Text → ℕ → ℕ
rune_boundary s zero = zero
rune_boundary s (suc n) =
    let below = rune_boundary s n in if starts (drop (suc n) s) then suc n else below

-- `truncateString`.
unfoldable pub truncate_string : Text → ℕ → Text
unfolding rune_boundary
truncate_string s max_length =
    if leb (length s) max_length then s else take (rune_boundary s max_length) s

-- `cutString`.
unfoldable pub cut_string : Text → ℕ → Text
unfolding truncate_string itoa
cut_string v max_length =
    let prefix = truncate_string v max_length in
    prefix ++ codes " ... (" ++ itoa (length v - length prefix) ++ codes " more)"

abbrev pub masked : Text
masked = codes "***"

abbrev pub shown : (Text → Bool) → ℕ → Text × Text → Text × Text
shown mask max_length (k, v) =
    if mask k
    then (k, masked)
    else if ltb 0 max_length && ltb max_length (length v)
    then (k, cut_string v max_length)
    else (k, v)

-- `convertMap`.
unfoldable pub convert_map : List (Text × Text) → (Text → Bool) → ℕ → Option (List (Text × Text))
unfolding cut_string
convert_map [] mask max_length = none
convert_map (e ∷ es) mask max_length = some (map (shown mask max_length) (e ∷ es))

-- The loop over the form, in `NewTracker`.
abbrev pub cut_json : ℕ → Json → Json
cut_json max_length (string s) =
    if ltb max_length (length s) then string (cut_string s max_length) else string s
cut_json max_length (other t) = other t

abbrev pub shown_json : (Text → Bool) → ℕ → Text × Json → Text × Json
shown_json mask max_length (k, v) =
    if mask k then (k, string masked) else (k, cut_json max_length v)

abbrev pub mask_of : Option (Text → Bool) → Text → Bool
mask_of none = default_mask
mask_of (some mask) = mask

abbrev pub length_or_default : ℕ → ℕ
length_or_default n = if ltb 0 n then n else 20

-- A map that panics while it is built is `none`; the runtime panics with an error.
abbrev out_of_range : Err
out_of_range = plain (codes "index out of range")

-- `unmarshal` is what `json.Unmarshal` leaves in the map, whether or not it returns an error; and
-- `since` is the time between the two contexts.
module _ (unmarshal : Text → Option (List (Text × Json))) (since : Context → Context → ℕ) where
  abbrev parsed : Option (List (Text × Json)) → (Text → Bool) → ℕ → Option (List (Text × Json))
  parsed none mask max_length = none
  parsed (some m) mask max_length = some (map (shown_json mask max_length) m)

  -- The form of a request with this body.
  unfoldable pub form_of : Option Text → (Text → Bool) → ℕ → Option (List (Text × Json))
  unfolding cut_string
  form_of none mask max_length = none
  form_of (some []) mask max_length = none
  form_of (some (b ∷ s)) mask max_length = parsed (unmarshal (b ∷ s)) mask max_length

  abbrev pub result_of : Option Err → ℕ
  result_of none = handle_success
  result_of (some e) = handle_fail

  -- What is told of a request, once its query and its parameters are read.
  abbrev pub info_of :
      (Text → Bool)
      → ℕ
      → Context
      → List (Text × Text)
      → List (Text × Text)
      → Context
      → Option Err
      → TrackerInfo
  info_of mask max_length c q p d e = record {
    cid = d.id;
    query = convert_map q mask max_length;
    params = convert_map p mask max_length;
    form = form_of c.request_body mask max_length;
    latency = since c d;
    result = result_of e;
    err = e;
  }

  abbrev pub track :
      TrackerConfig → Context → Option (List (Text × Text)) → Option (List (Text × Text)) → Run
  track conf c none p = done c (panicked_err out_of_range)
  track conf c (some q) none = done c (panicked_err out_of_range)
  track conf c (some q) (some p) =
      let mask = mask_of conf.mask in
      let max_length = length_or_default conf.max_length in
      call_next c (λ d e. done (conf.on_track (info_of mask max_length c q p d e) d) (returned e))

  -- `NewTracker`, which panics at registration without a function to tell.
  unfoldable pub tracker : TrackerConfig → Handler
  unfolding get_skipper pass_on call_next query RouteParams.to_map default_mask convert_map form_of
  tracker conf c =
      if get_skipper conf.skipper c
      then pass_on c
      else (let (q, d) = query c in track conf d q (RouteParams.to_map d.params))
