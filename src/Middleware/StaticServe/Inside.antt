-- ===== src/Middleware/StaticServe/Inside.antt =====
-- Where the files lie that a request can name: a clean path has its `..` in front, so what stands
-- behind the directory that is served has none.
use elton.Common.{
  ℕ, zero, suc, ◌≡◌, ◌≢◌, refl, sym, subst, Bool, true, false, not, ◌⊎◌, inl, inr, some, List, [],
  ◌∷◌, ◌++◌, Text, text_eq, is_empty, cut_prefix, Lacks, All, All-keep, any_of, keep, split, join,
  split-Lacks, split-join, is_dots, is_element, is_rooted, resolve, resolve_one, ups, clean_parts,
  clean, join_path, Bool-cases, arith,
}

-- No part is `..`.
abbrev pub NoUps : List Text → Type 0
NoUps = All (λ e. is_dots e ≡ false)

-- Behind a part that is not `..` there is no `..`.
abbrev pub Settled : List Text → Type 0
Settled [] = Unit
Settled (e ∷ es) = (is_dots e ≡ false → NoUps es) × Settled es

NoUps-Settled : (es : List Text) → NoUps es → Settled es
NoUps-Settled [] h = tt
NoUps-Settled (e ∷ es) (h, hs) = (λ x. hs, NoUps-Settled es hs)

resolve_one-NoUps : (e : Text) (r : ℕ × List Text) → NoUps r.1 → NoUps (resolve_one e r).1
resolve_one-NoUps e (zero, es) h = elim (Bool-cases (is_dots e)) [
  | inl x ↦ rw x h
  | inr x ↦ rw x (x, h)
]
resolve_one-NoUps e (suc n, es) h = elim (Bool-cases (is_dots e)) [
  | inl x ↦ rw x h
  | inr x ↦ rw x h
]

resolve-NoUps : (es : List Text) → NoUps (resolve es).1
unfolding resolve
resolve-NoUps [] = tt
resolve-NoUps (e ∷ es) = resolve_one-NoUps e (resolve es) (resolve-NoUps es)

resolve_one-Lacks :
    (e : Text) (r : ℕ × List Text)
    → Lacks b'/' e
    → All (Lacks b'/') r.1
    → All (Lacks b'/') (resolve_one e r).1
resolve_one-Lacks e (zero, es) l h = elim (Bool-cases (is_dots e)) [
  | inl x ↦ rw x h
  | inr x ↦ rw x (l, h)
]
resolve_one-Lacks e (suc n, es) l h = elim (Bool-cases (is_dots e)) [
  | inl x ↦ rw x h
  | inr x ↦ rw x h
]

resolve-Lacks : (es : List Text) → All (Lacks b'/') es → All (Lacks b'/') (resolve es).1
unfolding resolve
resolve-Lacks [] h = tt
resolve-Lacks (e ∷ es) (l, h) = resolve_one-Lacks e (resolve es) l (resolve-Lacks es h)

ups-Settled : (n : ℕ) (es : List Text) → NoUps es → Settled (ups n es)
ups-Settled zero es h = NoUps-Settled es h
ups-Settled (suc n) es h = (λ e. absurd (unfold text_eq in cc e), ups-Settled n es h)

clean_parts-Settled :
    (rooted : Bool) (r : ℕ × List Text) → NoUps r.1 → Settled (clean_parts rooted r)
unfolding text_eq
clean_parts-Settled true (up, []) h = (λ e. (refl, tt), (λ e. tt, tt))
clean_parts-Settled true (up, e ∷ es) h = (λ x. h, NoUps-Settled (e ∷ es) h)
clean_parts-Settled false (zero, []) h = (λ e. tt, tt)
clean_parts-Settled false (zero, e ∷ es) h = NoUps-Settled (e ∷ es) h
clean_parts-Settled false (suc n, es) h = ups-Settled (suc n) es h

ups-Lacks : (n : ℕ) (es : List Text) → All (Lacks b'/') es → All (Lacks b'/') (ups n es)
ups-Lacks zero es h = h
ups-Lacks (suc n) es h = (((λ e. ground arith), ((λ e. ground arith), tt)), ups-Lacks n es h)

clean_parts-Lacks :
    (rooted : Bool) (r : ℕ × List Text)
    → All (Lacks b'/') r.1
    → All (Lacks b'/') (clean_parts rooted r)
clean_parts-Lacks true (up, []) h = (tt, (tt, tt))
clean_parts-Lacks true (up, e ∷ es) h = (tt, h)
clean_parts-Lacks false (zero, []) h = ((λ e. ground arith, tt), tt)
clean_parts-Lacks false (zero, e ∷ es) h = h
clean_parts-Lacks false (suc n, es) h = ups-Lacks (suc n) es h

clean_parts-ne : (rooted : Bool) (r : ℕ × List Text) → clean_parts rooted r ≢ []
clean_parts-ne true (up, []) = λ e. cc
clean_parts-ne true (up, e ∷ es) = λ x. cc
clean_parts-ne false (zero, []) = λ e. cc
clean_parts-ne false (zero, e ∷ es) = λ x. cc
clean_parts-ne false (suc n, es) = λ e. cc

clean-Settled : (s : Text) → Settled (split b'/' (clean s))
unfolding clean
clean-Settled s =
    let es = keep is_element (split b'/' s) in
    let r = resolve es in
    let lacks =
      resolve-Lacks es (All-keep (Lacks b'/') is_element (split b'/' s) (split-Lacks b'/' s)) in
    subst Settled
      (sym (
        split-join b'/' (clean_parts (is_rooted s) r) (clean_parts-ne (is_rooted s) r)
          (clean_parts-Lacks (is_rooted s) r lacks)))
      (clean_parts-Settled (is_rooted s) r (resolve-NoUps es))

pub join_path-Settled : (es : List Text) → Settled (split b'/' (join_path es))
unfolding join_path
join_path-Settled [] = unfold split in (λ e. tt, tt)
join_path-Settled (e ∷ es) = elim (Bool-cases (is_empty e)) [
  | inl x ↦ rw x (join_path-Settled es)
  | inr x ↦ rw x (clean-Settled (join b'/' (e ∷ es)))
]

pub Settled-behind :
    (xs ys : List Text) → Settled (xs ++ ys) → any_of (λ e. not (is_dots e)) xs ≡ true → NoUps ys
Settled-behind [] ys h some_place = cc
Settled-behind (x ∷ xs) ys (h, hs) some_place = elim (Bool-cases (is_dots x)) [
  | inl e ↦ Settled-behind xs ys hs (ground arith)
  | inr e ↦ NoUps-right xs ys (h e)
]
  where
    NoUps-right : (xs ys : List Text) → NoUps (xs ++ ys) → NoUps ys
    NoUps-right [] ys h = h
    NoUps-right (x ∷ xs) ys (_, h) = NoUps-right xs ys h

pub cut_prefix_lem : (s p rest : Text) → cut_prefix s p ≡ some rest → s ≡ p ++ rest
unfolding cut_prefix
cut_prefix_lem s [] rest e = cc
cut_prefix_lem [] (p ∷ ps) rest e = cc
cut_prefix_lem (c ∷ s) (p ∷ ps) rest e = ground (arith, cut_prefix_lem s ps rest)

-- A path is the directory itself, or lies in it: behind the directory and a slash there is no `..`.
abbrev pub IsInside : Text → Text → Type 0
IsInside base file =
    (file ≡ base) ⊎ ((rest : Text) × (file ≡ base ++ (b'/' ∷ rest)) × NoUps (split b'/' rest))
