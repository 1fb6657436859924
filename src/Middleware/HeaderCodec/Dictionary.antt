-- ===== src/Middleware/HeaderCodec/Dictionary.antt =====
-- The dictionary that `SetShortHeaders` builds: an index leads back to the name it was found by.
use elton.Common.{
  ℕ, suc, ◌+◌, ◌<◌, ◌≡◌, refl, ◌⊎◌, inl, inr, some, List, [], ◌∷◌, map, Text, text_eq, text_eq_iff,
  length, get_elem?, to_lower, Bool-cases, arith,
}
use elton.Middleware.HeaderCodec.{
  HeaderIndexes, max_short_header, get_name, find_index, get_index, short_name, index_names,
  set_short_headers,
}

pub record IsDictionary (d : HeaderIndexes) : Type 0 where
  pub in_range :
      (name : Text) (i : ℕ) → get_index d name ≡ some i → (0 < i) × (i < max_short_header)
  pub leads_back : (name : Text) (i : ℕ) → get_index d name ≡ some i → get_name d i ≡ to_lower name

-- Where an index comes from: the older entries, or the position of the name.
abbrev Origin : Text → ℕ → ℕ → List Text → Type 0
Origin k j i names =
    (n : ℕ) × (j ≡ suc (i + n)) × (n < length names) × (get_elem? (map short_name names) n ≡ some k)

find-index_names :
    (i : ℕ) (names : List Text) (m : List (Text × ℕ)) (k : Text) (j : ℕ)
    → find_index k (index_names i names m) ≡ some j
    → (find_index k m ≡ some j) ⊎ Origin k j i names
unfolding index_names
find-index_names i [] m k j e = inl e
find-index_names i (name ∷ names) m k j e =
    elim (find-index_names (suc i) names ((short_name name, suc i) ∷ m) k j e) [
      | inr (n, at, below, same) ↦ inr (suc n, omega arith, omega arith, same)
      | inl found ↦ here found
    ]
  where
    here :
        find_index k ((short_name name, suc i) ∷ m) ≡ some j
        → (find_index k m ≡ some j) ⊎ Origin k j i (name ∷ names)
    here found = elim (Bool-cases (text_eq (short_name name) k)) [
      | inl same ↦ inr (
        0,
        unfold find_index in ground arith,
        omega arith,
        ground (arith, text_eq_iff (short_name name) k),
      )
      | inr other ↦ inl (unfold find_index in ground arith)
    ]

length-map-short : (names : List Text) → length (map short_name names) ≡ length names
length-map-short [] = refl
length-map-short (n ∷ ns) = omega (arith, length-map-short ns)

-- Every index of a dictionary that `SetShortHeaders` accepts is from 1 to 127, so it is neither
-- the separator nor the mark of a long name, and it leads back to the lower-case name.
pub set_short_headers-IsDictionary :
    (names : List Text) (d : HeaderIndexes) → set_short_headers names ≡ some d → IsDictionary d
unfolding set_short_headers get_index get_name
set_short_headers-IsDictionary names d e =
    let built : d ≡ record {
      values = [] ∷ map short_name names;
      indexes = index_names 0 names [];
      max = suc (length names);
    } =
      ground arith in
    let small : length names < 128 = ground arith in
    rw built (record { in_range = range small; leads_back = back })
  where
    origin :
        (k : Text) (i : ℕ) → find_index k (index_names 0 names []) ≡ some i → Origin k i 0 names
    origin k i found = elim (find-index_names 0 names [] k i found) [
      | inl nothing ↦ absurd (unfold find_index in cc)
      | inr o ↦ o
    ]

    range :
        length names < 128
        → (name : Text) (i : ℕ) → find_index (to_lower name) (index_names 0 names []) ≡ some i
        → (0 < i) × (i < max_short_header)
    range small name i found = let (n, at, below, _) = origin (to_lower name) i found in omega arith

    back :
        (name : Text) (i : ℕ)
        → find_index (to_lower name) (index_names 0 names []) ≡ some i
        → get_name
            (record {
              values = [] ∷ map short_name names;
              indexes = index_names 0 names [];
              max = suc (length names);
            })
            i
          ≡ to_lower name
    back name i found =
        let (n, at, below, same) = origin (to_lower name) i found in
        let at' : i ≡ suc n = omega arith in rw at' (ground arith)
