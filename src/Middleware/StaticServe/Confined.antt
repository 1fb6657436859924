-- ===== src/Middleware/StaticServe/Confined.antt =====
-- The handler of static files stays within its directory.
use elton.Common.{
  ◌≡◌, refl, ap, subst, ◌∙◌, true, false, not, ◌⊎◌, inl, inr, Option, none, some, [], ◌∷◌, ◌++◌,
  Text, text_eq, text_eq_iff, is_empty, cut_prefix, any_of, split, is_dots, join_path, Bool-cases,
  Option-cases, is_some, ℕ, arith, append_assoc, split-around,
}
use elton.Context.{Context, Err}
use elton.Context.Contents.{set_content_type_by_ext}
use elton.Middleware.Skipper.{get_skipper}
use elton.Middleware.Error.{Hes}
use elton.Middleware.StaticServe.{
  StaticFile, StaticServeConfig, base_path, requested, locate, with_index, encoding_static_serve,
  located, serve, with_content, with_reader, respond_or_fail, before, describe, describe_or_fail,
  is_directory,
}
use elton.Middleware.StaticServe.Inside.{
  IsInside, Settled, Settled-behind, join_path-Settled, cut_prefix_lem,
}

-- The directory is not a chain of `..` alone.
abbrev pub HasPlace : StaticServeConfig → Type 0
HasPlace conf = any_of (λ e. not (is_dots e)) (split b'/' (base_path conf)) ≡ true

check_passes :
    (conf : StaticServeConfig) (c : Context) (file : Text)
    → locate conf c ≡ inr file
    → let f = join_path (conf.path ∷ requested c ∷ []) in
      (f ≡ file)
      × ((text_eq f (base_path conf) ≡ true)
          ⊎ (is_some (cut_prefix f (base_path conf ++ (b'/' ∷ []))) ≡ true))
unfolding locate
check_passes conf c file e = ground arith

-- A file that passes the checks of the handler is the directory that is served or lies in it,
-- whatever the request names: it is the path of the directory, or this path, a slash and a rest
-- that has no part `..`. (The configured directory is not a chain of `..` alone.)
pub locate-IsInside :
    (conf : StaticServeConfig) (c : Context) (file : Text)
    → HasPlace conf
    → locate conf c ≡ inr file
    → IsInside (base_path conf) file
locate-IsInside conf c file place e =
    let base = base_path conf in
    let f = join_path (conf.path ∷ requested c ∷ []) in
    let (same, passes) = check_passes conf c file e in
    subst (IsInside base) same (elim passes [
      | inl exact ↦ inl ((text_eq_iff f base).0 exact)
      | inr begins ↦ elim (Option-cases (cut_prefix f (base ++ (b'/' ∷ [])))) [
        | inl nothing ↦ ground arith
        | inr (rest, found) ↦
            let whole =
              cut_prefix_lem f (base ++ (b'/' ∷ [])) rest found
              ∙ append_assoc base (b'/' ∷ []) rest in
            let parts = ap (split b'/') whole ∙ split-around b'/' base rest in
            inr (
              rest,
              whole,
              Settled-behind (split b'/' base) (split b'/' rest)
                  (subst Settled parts (join_path-Settled (conf.path ∷ requested c ∷ []))) place,
            )
      ]
    ])

-- What the handler may look at: what lies inside, and the index file of such a directory.
abbrev pub IsReached : StaticServeConfig → Text → Type 0
IsReached conf p =
    IsInside (base_path conf) p
    ⊎ ((is_empty conf.index_file ≡ false)
        × (d : Text) × IsInside (base_path conf) d
        × (p ≡ join_path (d ∷ conf.index_file ∷ [])))

abbrev pub SameAt : StaticFile → StaticFile → Text → Type 0
SameAt fs fs' p =
    (fs.exists p ≡ fs'.exists p)
    × (fs.get p ≡ fs'.get p)
    × (fs.stat p ≡ fs'.stat p)
    × (fs.new_reader p ≡ fs'.new_reader p)

with_index-IsReached :
    (conf : StaticServeConfig) (fs : StaticFile) (file : Text)
    → IsInside (base_path conf) file
    → IsReached conf (with_index conf fs file)
unfolding with_index
with_index-IsReached conf fs file inside = elim (Bool-cases (is_empty conf.index_file)) [
  | inl e ↦ rw e (inl inside)
  | inr e ↦ elim (Bool-cases (is_directory (fs.stat file))) [
    | inl d ↦ rw (e, d) (inr (refl, file, inside, refl))
    | inr d ↦ rw (e, d) (inl inside)
  ]
]

with_index-same :
    (conf : StaticServeConfig) (fs fs' : StaticFile) (file : Text)
    → fs.stat file ≡ fs'.stat file
    → with_index conf fs file ≡ with_index conf fs' file
unfolding with_index
with_index-same conf fs fs' file e = rw e refl

module _ (lib : Hes) (sum : Text → Text) (show : Err → Text) (type_by_extension : Text → Text)
    (format_time : ℕ → Text) where
  module _ (conf : StaticServeConfig) (fs fs' : StaticFile) (encoding file : Text)
      (same : SameAt fs fs' file) where
    with_content-same :
        (content : Option Text) (c : Context)
        → with_content lib sum show type_by_extension format_time fs file content c
          ≡ with_content lib sum show type_by_extension format_time fs' file content c
    with_content-same none c = ap (with_reader lib sum show type_by_extension format_time c) same.3
    with_content-same (some b) c = refl

    respond-same :
        (c : Context) (r : Err ⊎ Option Text)
        → respond_or_fail lib sum show type_by_extension format_time conf fs encoding file c r
          ≡ respond_or_fail lib sum show type_by_extension format_time conf fs' encoding file c r
    respond-same c (inl e) = refl
    respond-same c (inr content) = with_content-same content _

    describe-same :
        (c : Context) (content : Option Text)
        → describe lib sum show type_by_extension format_time conf fs encoding file c content
          ≡ describe lib sum show type_by_extension format_time conf fs' encoding file c content
    describe-same c content = rw same.2 (
        respond-same _
          (before lib sum show type_by_extension format_time conf.before_response file content))

    describe_or_fail-same :
        (c : Context) (r : Err ⊎ Text)
        → describe_or_fail lib sum show type_by_extension format_time conf fs encoding file c r
          ≡ describe_or_fail lib sum show type_by_extension format_time conf fs' encoding file c r
    describe_or_fail-same c (inl e) = refl
    describe_or_fail-same c (inr b) = describe-same c (some b)

    serve-same :
        (c : Context)
        → serve lib sum show type_by_extension format_time conf fs encoding file c
          ≡ serve lib sum show type_by_extension format_time conf fs' encoding file c
    serve-same c =
        let d = set_content_type_by_ext type_by_extension file c in
        rw (same.0, same.1, describe_or_fail-same d (fs'.get file), describe-same d none) refl

  -- The handler of static files never looks outside of its directory: two file systems that answer
  -- alike for every path in the directory, and for the index file of such a path if there is one,
  -- give the same run for every request, its response and its errors included. (The configured
  -- directory is not a chain of `..` alone.)
  pub static_serve-confined :
      (conf : StaticServeConfig) (fs fs' : StaticFile) (encoding : Text) (c : Context)
      → HasPlace conf
      → ((p : Text) → IsReached conf p → SameAt fs fs' p)
      → encoding_static_serve lib sum show type_by_extension format_time conf
          (λ d. (encoding, some fs))
          c
        ≡ encoding_static_serve lib sum show type_by_extension format_time conf
            (λ d. (encoding, some fs'))
            c
  unfolding encoding_static_serve
  static_serve-confined conf fs fs' encoding c place same =
      elim (Bool-cases (get_skipper conf.skipper c)) [
        | inl skips ↦ rw skips refl
        | inr runs ↦ rw runs (by_location (locate conf c) refl)
      ]
    where
      by_location :
          (r : Err ⊎ Text)
          → locate conf c ≡ r
          → located lib sum show type_by_extension format_time conf (λ d. (encoding, some fs)) c r
            ≡ located lib sum show type_by_extension format_time conf
                (λ d. (encoding, some fs'))
                c
                r
      by_location (inl e) found = refl
      by_location (inr file) found =
          let inside = locate-IsInside conf c file place found in
          let (_, _, stat, _) = same file (inl inside) in
          let index = with_index-same conf fs fs' file stat in
          ap (λ p. serve lib sum show type_by_extension format_time conf fs encoding p c) index
          ∙ serve-same conf fs fs' encoding (with_index conf fs' file)
              (same (with_index conf fs' file) (with_index-IsReached conf fs' file inside)) c
