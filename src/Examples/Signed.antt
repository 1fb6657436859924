-- ===== src/Examples/Signed.antt =====
-- Signed cookies and keys at concrete values.
use elton.Common.{
  ◌≡◌, ◌↔◌, refl, true, false, none, some, List, [], ◌∷◌, ◌++◌, Text, codes, Option, text_eq,
  text_eq_iff, is_some, if◌then◌else◌, arith,
}
use elton.Context.{Request, Err, plain}
use elton.Context.Cookies.{Cookie, Keygrip, signature_name, signed_cookie}
use elton.Context.CookieLaws.{signed_cookie_iff}
use elton.SignedKeys.{Holder, simple, keys, keygrip, Cache}
use elton.SignedKeys.Current.{IsCached, keygrip_current}
use elton.Examples.Chains.{blank}

abbrev mac : Text → Text
mac v = codes "k" ++ v

abbrev one_key : Keygrip
one_key = record { sign = mac; index = λ v s. if text_eq s (mac v) then some 0 else none }

abbrev named : Text → Text → Cookie
named name value = record {
  name = name;
  value = value;
  attributes = [];
  quoted = false;
  partitioned = false;
}

abbrev jar : Text → Request → Option Cookie
jar name r =
    if text_eq name (codes "jt")
    then some (named name (codes "abc"))
    else if text_eq name (codes "jt.sig")
    then some (named name (codes "kabc"))
    else none

finds : (v s : Text) → (is_some (one_key.index v s) ≡ true) ↔ (s ≡ mac v)
finds v s = ground (arith, text_eq_iff s (mac v))

abbrev nil_key : Err
nil_key = plain (codes "keys for sign cookie can't be nil")

signed_cookie_iff_example :
    (signed_cookie jar nil_key (some one_key) (codes "jt") blank
      ≡ (some (named (codes "jt") (codes "abc")), none))
    ↔ ((jar (codes "jt") blank.request ≡ some (named (codes "jt") (codes "abc")))
        × (s : Cookie) × (jar (signature_name (codes "jt")) blank.request ≡ some s)
        × (s.value ≡ mac (codes "abc")))
signed_cookie_iff_example =
    signed_cookie_iff jar nil_key one_key (λ v s. s ≡ mac v) finds (codes "jt") blank
      (named (codes "jt") (codes "abc"))

signed_cookie_test :
    signed_cookie jar nil_key (some one_key) (codes "jt") blank
    ≡ (some (named (codes "jt") (codes "abc")), none)
unfolding signed_cookie text_eq
signed_cookie_test = refl

abbrev list_of : List Text → List Text
list_of ks = ks

-- A cache of the old keys, and a holder with new ones.
abbrev old_cache : Cache list_of
old_cache = record { kg_keys = codes "old" ∷ []; kg = some (codes "old" ∷ []) }

abbrev rotated : Holder
rotated = simple (codes "new" ∷ codes "old" ∷ [])

old_cache-IsCached : IsCached list_of old_cache
unfolding IsCached
old_cache-IsCached kg e = cc e

keygrip_current_example :
    let r = keygrip list_of (some rotated) old_cache in
    (r.1 ≡ some (codes "new" ∷ codes "old" ∷ [])) × IsCached list_of r.0
unfolding keys
keygrip_current_example = keygrip_current list_of rotated old_cache old_cache-IsCached
