-- ===== src/Middleware/RequestId.antt =====
-- middleware/request_id.go. The generator is a function of the context, in place of the outside
-- world.
use elton.Common.{Bool, Option, none, some, Text, codes, is_empty, if◌then◌else◌}
use elton.Context.{
  Context, str, get_request_header, set_request_header, set, set_header, get_context_string,
}
use elton.Chain.{Handler, pass_on}
use elton.Middleware.Skipper.{Skipper, get_skipper}

-- `RequestIDConfig`.
pub record RequestIdConfig : Type 0 where
  pub skipper : Option Skipper
  pub header : Text
  pub context_key : Text
  pub generator : Option (Context → Text)
  pub disable_response_header : Bool

abbrev pub header_or_default : Text → Text
header_or_default h = if is_empty h then codes "X-Request-Id" else h

abbrev pub key_or_default : Text → Text
key_or_default k = if is_empty k then codes "requestId" else k

module _ (default_request_id : Context → Text) where
  abbrev generate : Option (Context → Text) → Context → Text
  generate none c = default_request_id c
  generate (some f) c = f c

  -- The identifier of the request, and the context once the request has it.
  abbrev pub identified : RequestIdConfig → Context → Text × Context
  identified conf c =
      let header = header_or_default conf.header in
      let inbound = get_request_header header c in
      let fresh = generate conf.generator c in
      if is_empty inbound then (fresh, set_request_header header fresh c) else (inbound, c)

  abbrev pub stored : RequestIdConfig → Text × Context → Context
  stored conf (id, c) =
      let c1 = set (key_or_default conf.context_key) (str id) c in
      let c2 = if is_empty c1.id then record c1 { id = id } else c1 in
      if conf.disable_response_header then c2 else set_header (header_or_default conf.header) id c2

  -- `NewRequestID`.
  unfoldable pub request_id_handler : RequestIdConfig → Handler
  unfolding get_skipper get_request_header set_request_header set set_header pass_on
  request_id_handler conf c =
      if get_skipper conf.skipper c then pass_on c else pass_on (stored conf (identified conf c))

-- `GetRequestID`.
unfoldable pub get_request_id : Context → Text
unfolding get_context_string
get_request_id c = get_context_string (codes "requestId") c
