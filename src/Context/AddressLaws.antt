-- ===== src/Context/AddressLaws.antt =====
-- The address that is read from `X-Forwarded-For`.
use elton.Common.{
  ℕ, zero, suc, ◌≤◌, ◌≡◌, refl, ap, Bool, true, not, inl, inr, List, [], ◌∷◌, map, Text, is_empty,
  if◌then◌else◌, length, keep, trim_space, cut_byte, split, cut_byte-split, cut_byte-split-none,
  Option-cases, Bool-cases, arith,
}
use elton.Context.Address.{Hops, see_hop, csv_loop, last_public_csv_field}

abbrev pub first_of : List Text → Text
first_of [] = []
first_of (v ∷ _) = v

-- The last of a list, or `d`.
abbrev pub last_or : Text → List Text → Text
last_or d [] = d
last_or d (v ∷ vs) = last_or v vs

abbrev is_filled : Text → Bool
is_filled v = not (is_empty v)

abbrev filled : List Text → List Text
filled ps = keep is_filled (map trim_space ps)

-- The addresses that the field lists: its parts between commas, trimmed, without the empty ones.
abbrev pub hops : Text → List Text
hops s = filled (split b',' s)

module _ (is_intranet : Text → Bool) where
  see_all : List Text → Hops → Hops
  see_all [] h = h
  see_all (p ∷ ps) h = see_all ps (see_hop is_intranet p h)

  csv_loop-see_all :
      (fuel : ℕ) (s : Text) (h : Hops)
      → length s ≤ fuel
      → csv_loop is_intranet fuel s h ≡ see_all (split b',' s) h
  unfolding csv_loop see_all
  csv_loop-see_all fuel [] h le = unfold see_hop trim_space split in refl
  csv_loop-see_all zero (c ∷ s) h le = absurd (omega arith)
  csv_loop-see_all (suc fuel) (c ∷ s) h le = elim (Option-cases (cut_byte b',' (c ∷ s))) [
    | inl whole ↦ rw (whole, csv_loop, cut_byte-split-none b',' (c ∷ s) whole)
    | inr ((part, rest), found) ↦
        let (shorter, parts) = cut_byte-split b',' (c ∷ s) part rest found in
        rw (found, csv_loop, parts)
          (csv_loop-see_all fuel rest (see_hop is_intranet part h) (omega arith))
  ]

  abbrev pub is_public : Text → Bool
  is_public v = not (is_intranet v)

  see_all_lem :
      (ps : List Text) (h : Hops)
      → see_all ps h ≡ record {
        first = if is_empty h.first then first_of (filled ps) else h.first;
        last_public = last_or h.last_public (keep is_public (filled ps));
      }
  unfolding see_all see_hop
  see_all_lem [] h = elim (Bool-cases (is_empty h.first)) [
    | inl e ↦ rw e (ap (λ t. record { first = t; last_public = h.last_public }) (empty h.first e))
    | inr e ↦ rw e
  ]
    where
      empty : (t : Text) → is_empty t ≡ true → t ≡ []
      empty [] e = refl
      empty (c ∷ t) e = cc
  see_all_lem (p ∷ ps) h = ground (arith, see_all_lem ps (see_hop is_intranet p h))

-- The client's address is the rightmost hop that is not an intranet address, and the first hop
-- where all are; the scan by commas reads exactly the trimmed parts that are not empty.
pub last_public_csv_field_lem :
    (is_intranet : Text → Bool) (s : Text)
    → last_public_csv_field is_intranet s ≡ (
        if is_empty (last_or [] (keep (is_public is_intranet) (hops s)))
        then first_of (hops s)
        else last_or [] (keep (is_public is_intranet) (hops s)))
unfolding last_public_csv_field
last_public_csv_field_lem is_intranet s =
    let start : Hops = record { first = []; last_public = [] } in
    ground (
      arith,
      csv_loop-see_all is_intranet (length s) s start,
      see_all_lem is_intranet (split b',' s) start,
    )
