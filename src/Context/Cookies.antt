-- ===== src/Context/Cookies.antt =====
-- context.go: cookies and signed cookies. `Request.Cookie` and the text of a cookie are the
-- parameters `read_cookie` and `show_cookie`; a keygrip signs a text, and finds the index of the key
-- of a signature.
use elton.Common.{
  ℕ, Bool, true, false, ◌⊎◌, inl, inr, Option, none, some, ◌++◌, Text, codes, is_empty,
  if◌then◌else◌, ℤ, pos, negsuc,
}
use elton.Context.{Context, Request, Err, plain, add_header}

-- `http.Cookie`; the attributes are those that `cloneCookie` copies.
pub record Cookie : Type 0 where
  pub name : Text
  pub value : Text
  pub attributes : Text
  pub quoted : Bool
  pub partitioned : Bool

-- `cloneCookie`.
unfoldable pub clone_cookie : Cookie → Cookie
clone_cookie k = record {
  name = k.name;
  value = k.value;
  attributes = k.attributes;
  quoted = false;
  partitioned = false;
}

pub record Keygrip : Type 0 where
  pub sign : Text → Text
  pub index : Text → Text → Option ℕ

-- `http.ErrNoCookie`. `ErrSignKeyIsNil`, which hes makes, is a parameter.
abbrev pub no_cookie : Err
no_cookie = plain (codes "http: named cookie not present")

abbrev pub signature_name : Text → Text
signature_name name = name ++ codes ".sig"

module _ (read_cookie : Text → Request → Option Cookie) (sign_key_is_nil : Err) where
  abbrev found : Option Cookie → Err ⊎ Cookie
  found none = inl no_cookie
  found (some k) = inr k

  -- `Cookie`.
  unfoldable pub cookie : Text → Context → Err ⊎ Cookie
  cookie name c = found (read_cookie name c.request)

  abbrev index_or_minus : Option ℕ → ℤ
  index_or_minus none = negsuc 0
  index_or_minus (some n) = pos n

  abbrev pub checked : Keygrip → Cookie → Err ⊎ Cookie → Option Cookie × ℤ × Option Err
  checked kg k (inl e) = (none, negsuc 0, some e)
  checked kg k (inr s) = (some k, index_or_minus (kg.index k.value s.value), none)

  abbrev pub with_keygrip :
      Option Keygrip → Text → Context → Err ⊎ Cookie → Option Cookie × ℤ × Option Err
  with_keygrip kg name c (inl e) = (none, negsuc 0, some e)
  with_keygrip none name c (inr k) = (none, negsuc 0, some sign_key_is_nil)
  with_keygrip (some kg) name c (inr k) = checked kg k (cookie (signature_name name) c)

  -- `SignedCookieWithIndex`; the keygrip is that of the instance, or `none`.
  unfoldable pub signed_cookie_with_index :
      Option Keygrip → Text → Context → Option Cookie × ℤ × Option Err
  unfolding cookie
  signed_cookie_with_index kg name c = with_keygrip kg name c (cookie name c)

  abbrev is_negative : ℤ → Bool
  is_negative (pos n) = false
  is_negative (negsuc n) = true

  abbrev pub verified : Option Cookie × ℤ × Option Err → Option Cookie × Option Err
  verified (k, i, some e) = (k, some e)
  verified (k, i, none) = if is_negative i then (none, some no_cookie) else (k, none)

  -- `SignedCookie`.
  unfoldable pub signed_cookie : Option Keygrip → Text → Context → Option Cookie × Option Err
  unfolding signed_cookie_with_index
  signed_cookie kg name c = verified (signed_cookie_with_index kg name c)

module _ (show_cookie : Cookie → Text) where
  -- `AddCookie`, by `http.SetCookie`, which leaves out a cookie that has no text.
  unfoldable pub add_cookie : Cookie → Context → Context
  unfolding add_header
  add_cookie k c =
      let v = show_cookie k in if is_empty v then c else add_header (codes "Set-Cookie") v c

  -- `addSigCookie`.
  unfoldable pub add_sig_cookie : Option Keygrip → Cookie → Context → Context
  unfolding add_cookie clone_cookie
  add_sig_cookie none k c = c
  add_sig_cookie (some kg) k c =
      let s = clone_cookie k in
      add_cookie (record s { name = signature_name s.name; value = kg.sign s.value }) c

  -- `AddSignedCookie`.
  unfoldable pub add_signed_cookie : Option Keygrip → Cookie → Context → Context
  unfolding add_sig_cookie
  add_signed_cookie kg k c = add_sig_cookie kg k (add_cookie k c)
