-- ===== src/Context/Address.antt =====
-- context.go: the address of the client. `net.ParseIP` behind `IsIntranet` and
-- `net.SplitHostPort` are parameters.
use elton.Common.{
  ℕ, suc, Bool, not, Option, none, some, [], ◌∷◌, Text, codes, is_empty, if◌then◌else◌, length,
  trim_space, cut_byte,
}
use elton.Http
use elton.Context.{Request, Context}

abbrev before_comma : Option (Text × Text) → Text → Text
before_comma none s = s
before_comma (some (before, _)) s = before

-- `firstCSVField`.
unfoldable pub first_csv_field : Text → Text
first_csv_field s = trim_space (before_comma (cut_byte b',' s) s)

-- The variables of the loop of `lastPublicCSVField`.
pub record Hops : Type 0 where
  pub first : Text
  pub last_public : Text

module _ (is_intranet : Text → Bool) where
  -- One round, for the part between two commas.
  unfoldable pub see_hop : Text → Hops → Hops
  see_hop part h =
      let v = trim_space part in
      if is_empty v then h else record {
        first = if is_empty h.first then v else h.first;
        last_public = if is_intranet v then h.last_public else v;
      }

  -- The loop cuts at the first comma until nothing is left; `fuel` bounds its rounds.
  unfoldable pub csv_loop : ℕ → Text → Hops → Hops
  csv_loop fuel [] h = h
  csv_loop ℕ.zero (c ∷ s) h = h
  csv_loop (suc fuel) (c ∷ s) h = elim (cut_byte b',' (c ∷ s)) [
    | none ↦ see_hop (c ∷ s) h
    | some (part, rest) ↦ csv_loop fuel rest (see_hop part h)
  ]

  -- `lastPublicCSVField`; each round drops a byte at least, so the length is enough fuel.
  unfoldable pub last_public_csv_field : Text → Text
  unfolding csv_loop see_hop
  last_public_csv_field s =
      let h = csv_loop (length s) s (record { first = []; last_public = [] }) in
      if is_empty h.last_public then h.first else h.last_public

module _ (is_intranet : Text → Bool) (split_host_port : Text → Text) where
  unfoldable pub get_remote_addr : Request → Text
  get_remote_addr req = split_host_port req.remote_addr

  abbrev x_forwarded_for : Text
  x_forwarded_for = codes "X-Forwarded-For"

  abbrev x_real_ip : Text
  x_real_ip = codes "X-Real-Ip"

  -- `GetRealIP`.
  unfoldable pub get_real_ip : Request → Text
  get_real_ip req =
      let forwarded = Http.get x_forwarded_for req.header in
      let real = Http.get x_real_ip req.header in
      if not (is_empty forwarded)
      then first_csv_field forwarded
      else if not (is_empty real)
      then real
      else get_remote_addr req

  -- `GetClientIP`.
  unfoldable pub get_client_ip : Request → Text
  get_client_ip req =
      let forwarded = Http.get x_forwarded_for req.header in
      let public = last_public_csv_field is_intranet forwarded in
      let real = Http.get x_real_ip req.header in
      if not (is_empty forwarded)
      then (if not (is_empty public)
          then public
          else if not (is_empty real)
          then real
          else get_remote_addr req)
      else if not (is_empty real)
      then real
      else get_remote_addr req

  -- `RealIP` and `ClientIP` keep the answer in the context.
  unfoldable pub real_ip : Context → Text × Context
  real_ip c =
      if is_empty c.real_ip
      then (let ip = get_real_ip c.request in (ip, record c { real_ip = ip }))
      else (c.real_ip, c)

  unfoldable pub client_ip : Context → Text × Context
  client_ip c =
      if is_empty c.client_ip
      then (let ip = get_client_ip c.request in (ip, record c { client_ip = ip }))
      else (c.client_ip, c)
