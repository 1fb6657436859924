-- ===== src/Examples/Tracked.antt =====
-- The tracker at concrete requests.
use elton.Common.{◌≡◌, refl, inl, inr, true, Option, none, some, List, [], ◌∷◌, Text, codes}
use elton.Context.{Context}
use elton.Middleware.Tracker.{Json, string, default_mask, truncate_string, cut_string, info_of}
use elton.Middleware.Tracker.Masked.{info_of-masked}
use elton.Examples.Chains.{blank}

abbrev login : Text → Context
login b = record blank { request_body = some b }

-- Every body is read as an object with one field.
abbrev one_field : Text → Option (List (Text × Json))
one_field b = some ((codes "oldPassWord", string b) ∷ [])

is_masked : default_mask (codes "oldPassWord") ≡ true
unfolding default_mask elton.Middleware.Tracker.fold_case elton.Common.to_lower
    elton.Common.contains elton.Common.cut_prefix
is_masked = refl

-- A rune of two bytes is not cut.
rune_test : truncate_string (97 ∷ 195 ∷ 169 ∷ 98 ∷ []) 2 ≡ 97 ∷ []
unfolding truncate_string elton.Middleware.Tracker.rune_boundary
rune_test = refl

cut_test : cut_string (codes "abcdef") 2 ≡ codes "ab ... (4 more)"
unfolding cut_string truncate_string elton.Middleware.Tracker.rune_boundary elton.Common.itoa
    elton.Common.digits
cut_test = refl

info_of-masked_example :
    info_of one_field
      (λ c d. 7)
      default_mask
      20
      (login (codes "abc"))
      ((codes "user", codes "tree") ∷ [])
      ((codes "oldPassWord", codes "x") ∷ [])
      blank
      none
    ≡ info_of one_field
        (λ c d. 7)
        default_mask
        20
        (login (codes "secret"))
        ((codes "user", codes "tree") ∷ [])
        ((codes "oldPassWord", codes "y") ∷ [])
        blank
        none
info_of-masked_example =
    info_of-masked default_mask one_field (λ c d. 7) 20 (login (codes "abc"))
      (login (codes "secret")) blank ((codes "user", codes "tree") ∷ [])
      ((codes "user", codes "tree") ∷ []) ((codes "oldPassWord", codes "x") ∷ [])
      ((codes "oldPassWord", codes "y") ∷ []) b'a' b's' (codes "bc") (codes "ecret")
      ((codes "oldPassWord", string (codes "abc")) ∷ [])
      ((codes "oldPassWord", string (codes "secret")) ∷ []) none (refl, inr refl, tt)
      (refl, inl is_masked, tt) refl refl refl refl (refl, inl is_masked, tt) refl
