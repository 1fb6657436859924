-- ===== src/EdgeWriter.antt =====
-- route.go: the response writer that stands between the router and the client. What the router
-- itself answers (404, 405, a redirect) is held back until `ServeHTTP` decides; what a route of
-- the framework writes goes through.
pub mod Laws
use elton.Common.{
  ℕ, Bool, true, false, Option, none, some, List, [], ◌∷◌, ◌++◌, Text, ◌==◌, is_empty,
  if◌then◌else◌,
}
use elton.Http
use elton.Http.{Header, Writer, put}

-- `inner` is the writer of the server.
pub record EdgeWriter : Type 0 where
  pub inner : Writer
  pub hdr : Option Header
  pub status : ℕ
  pub handled : Bool
  pub header_wrote : Bool
  pub buf : Text

-- `acquireEdgeWriter`, for a writer that the pool returns in any state.
unfoldable pub acquire : EdgeWriter → Writer → EdgeWriter
acquire pooled w = record pooled {
  inner = w;
  hdr = none;
  status = 0;
  handled = false;
  header_wrote = false;
  buf = [];
}

-- `for k, vv := range ew.hdr { dst[k] = vv }`.
unfoldable pub copy_header : Header → Header → Header
copy_header [] dst = dst
copy_header ((k, vv) ∷ h) dst = copy_header h (put k vv dst)

abbrev pub copied : Option Header → Writer → Writer
copied none w = w
copied (some h) w = record w { header = copy_header h w.header }

-- `Header` hands out a map that the caller changes by `f`.
abbrev pub header_or_new : Option Header → Header
header_or_new none = []
header_or_new (some h) = h

unfoldable pub change_header : (Header → Header) → EdgeWriter → EdgeWriter
change_header f ew =
    let w = ew.inner in
    if ew.handled
    then record ew { inner = record w { header = f w.header } }
    else record ew { hdr = some (f (header_or_new ew.hdr)) }

unfoldable pub mark_handled : EdgeWriter → EdgeWriter
unfolding copy_header
mark_handled ew = if ew.handled then ew else record ew {
  inner = copied ew.hdr ew.inner;
  hdr = none;
  status = 0;
  handled = true;
  header_wrote = false;
  buf = [];
}

unfoldable pub write_header : ℕ → EdgeWriter → EdgeWriter
write_header code ew =
    if ew.header_wrote
    then ew
    else if ew.handled
    then record ew { status = code; header_wrote = true; inner = Http.write_header code ew.inner }
    else record ew { status = code }

abbrev status_or_ok : ℕ → ℕ
status_or_ok s = if s == 0 then 200 else s

unfoldable pub write : Text → EdgeWriter → EdgeWriter
write b ew =
    let code = status_or_ok ew.status in
    if ew.handled
    then (if ew.header_wrote then record ew { inner = Http.write b ew.inner } else record ew {
      status = code;
      header_wrote = true;
      inner = Http.write b (Http.write_header code ew.inner);
    })
    else record ew { status = code; buf = ew.buf ++ b }

-- `flush`: what was held back goes out.
unfoldable pub flush : EdgeWriter → EdgeWriter
unfolding copy_header
flush ew =
    let w1 = copied ew.hdr ew.inner in
    let w2 = if ew.header_wrote then w1 else Http.write_header (status_or_ok ew.status) w1 in
    record ew {
      hdr = none;
      header_wrote = true;
      inner = if is_empty ew.buf then w2 else Http.write ew.buf w2;
    }

-- `Flush` of a writer whose inner writer is a `Flusher`, which sends what it has.
unfoldable pub flush_through : EdgeWriter → EdgeWriter
unfolding write_header
flush_through ew = if ew.handled then (if ew.header_wrote then ew else write_header 200 ew) else ew

-- The calls that a handler or the router can make on it.
pub data Op : Type 0 where
  change : (Header → Header) → Op
  head : ℕ → Op
  body : Text → Op

unfoldable pub apply : Op → EdgeWriter → EdgeWriter
unfolding change_header write_header write
apply (change f) ew = change_header f ew
apply (head code) ew = write_header code ew
apply (body b) ew = write b ew

unfoldable pub apply_all : List Op → EdgeWriter → EdgeWriter
unfolding apply
apply_all [] ew = ew
apply_all (o ∷ os) ew = apply_all os (apply o ew)

-- The same calls made on the writer of the server.
unfoldable pub direct : Op → Writer → Writer
direct (change f) w = record w { header = f w.header }
direct (head code) w = Http.write_header code w
direct (body b) w = Http.write b w

unfoldable pub direct_all : List Op → Writer → Writer
unfolding direct
direct_all [] w = w
direct_all (o ∷ os) w = direct_all os (direct o w)
