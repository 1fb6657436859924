-- ===== src/Examples/Contexts.antt =====
-- The context at concrete values.
use elton.Common.{
  ℕ, ◌≡◌, ◌<◌, ◌≤◌, ◌⊎◌, Bool, true, false, none, some, [], ◌∷◌, Text, codes, text_eq, keep,
  is_empty, if◌then◌else◌,
}
use elton.Http.{Writer, canonical}
use elton.Context.{nil, Request, get_header, set_header, not_modified, redirect, invalid_redirect}
use elton.Context.Laws.{get_header-set_header, not_modified_lem, is_content_field, redirect_lem}
use elton.Context.Address.{last_public_csv_field}
use elton.Context.AddressLaws.{hops, first_of, last_or, is_public, last_public_csv_field_lem}
use elton.Examples.Chains.{blank}

get_header-set_header_test :
    get_header (codes "etag") (set_header (codes "ETag") (codes "x") blank) ≡ (
      if text_eq (canonical (codes "ETag")) (canonical (codes "etag"))
      then codes "x"
      else get_header (codes "etag") blank)
get_header-set_header_test = get_header-set_header (codes "ETag") (codes "etag") (codes "x") blank

not_modified_lem_test :
    ((not_modified blank).status_code ≡ 304)
    × ((not_modified blank).body ≡ nil)
    × ((not_modified blank).body_buffer ≡ none)
    × ((not_modified blank).committed ≡ false)
    × ((not_modified blank).request ≡ blank.request)
    × (get_header (codes "ETag") (not_modified blank)
        ≡ (if is_content_field (codes "ETag") then [] else get_header (codes "ETag") blank))
not_modified_lem_test = not_modified_lem (codes "ETag") blank

abbrev http_redirect : Writer → Request → Text → ℕ → Writer
http_redirect w req url code = record w { sent = some (code, w.header) }

redirect_lem_test :
    ((302 < 300) ⊎ (308 < 302)
      → redirect http_redirect 302 (codes "/") blank ≡ (blank, some invalid_redirect))
    × (300 ≤ 302
        → 302 ≤ 308
        → ((redirect http_redirect 302 (codes "/") blank).1 ≡ none)
          × ((redirect http_redirect 302 (codes "/") blank).0.committed ≡ true)
          × ((redirect http_redirect 302 (codes "/") blank).0.status_code ≡ 302)
          × ((redirect http_redirect 302 (codes "/") blank).0.body ≡ nil)
          × ((redirect http_redirect 302 (codes "/") blank).0.body_buffer ≡ none))
redirect_lem_test = redirect_lem http_redirect 302 (codes "/") blank

-- Addresses that begin with "10" are the intranet.
abbrev is_ten : Text → Bool
is_ten (b ∷ c ∷ s) = text_eq (b ∷ c ∷ []) (codes "10")
is_ten s = false

last_public_csv_field_lem_example : last_public_csv_field is_ten (codes "1.2.3.4, 10.0.0.1") ≡ (
    if is_empty (last_or [] (keep (is_public is_ten) (hops (codes "1.2.3.4, 10.0.0.1"))))
    then first_of (hops (codes "1.2.3.4, 10.0.0.1"))
    else last_or [] (keep (is_public is_ten) (hops (codes "1.2.3.4, 10.0.0.1"))))
last_public_csv_field_lem_example = last_public_csv_field_lem is_ten (codes "1.2.3.4, 10.0.0.1")
