-- ===== src/Middleware/Skipper.antt =====
-- elton.go `DefaultSkipper` and middleware/helper.go `getSkipper`.
use elton.Common.{Bool, Option, none, some}
use elton.Context.{Context}

abbrev pub Skipper : Type 0
Skipper = Context → Bool

unfoldable pub default_skipper : Skipper
default_skipper c = c.committed

-- A configuration without a skipper holds `none`.
unfoldable pub get_skipper : Option Skipper → Skipper
unfolding default_skipper
get_skipper none = default_skipper
get_skipper (some skipper) = skipper
