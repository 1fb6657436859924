-- ===== src/Middleware/Cors/Allowed.antt =====
-- Which origins a configuration of the CORS middleware allows, and what is matched for them.
use elton.Common.{
  ◌≡◌, refl, ◌∙◌, sym, ◌↔◌, List, ◌∷◌, any_of, text_eq_iff, ◌&&◌, not, Bool, true, false, ◌⊎◌, inl,
  inr, Option, none, some, [], Text, codes, text_eq, is_empty, Bool-cases, Option-cases,
  if◌then◌else◌, arith,
}
use elton.Middleware.Cors.{CorsConfig, match_origin, is_star, origins_or_default}

abbrev pub Listed : List Text → Text → Type 0
Listed [] origin = ⊥
Listed (o ∷ os) origin = (o ≡ origin) ⊎ Listed os origin

-- A configured function decides; without one the origin is listed, or `*` is, or there is no list.
abbrev pub Admits : Option (Text → Bool) → List Text → Text → Type 0
Admits (some f) os origin = f origin ≡ true
Admits none [] origin = Unit
Admits none (o ∷ os) origin = Listed (o ∷ os) origin ⊎ Listed (o ∷ os) (codes "*")

-- Every origin is admitted: there is no function, and `*` is listed or there is no list.
abbrev pub AdmitsAll : Option (Text → Bool) → List Text → Type 0
AdmitsAll (some f) os = ⊥
AdmitsAll none [] = Unit
AdmitsAll none (o ∷ os) = Listed (o ∷ os) (codes "*")

-- The origin of a request is allowed by the configuration.
abbrev pub IsAllowed : CorsConfig → Text → Type 0
IsAllowed conf origin =
    (is_empty origin ≡ false) × Admits conf.allow_origin_func conf.allow_origins origin

is_star_iff : (o : Text) → (is_star o ≡ true) ↔ (o ≡ codes "*")
is_star_iff o = text_eq_iff o (codes "*")

star-Listed : (os : List Text) → any_of is_star os ≡ true → Listed os (codes "*")
star-Listed [] h = cc h
star-Listed (o ∷ os) h = elim (Bool-cases (is_star o)) [
  | inl e ↦ inl ((is_star_iff o).0 e)
  | inr e ↦ inr (star-Listed os (ground (arith, h, e)))
]

Listed-star : (os : List Text) → Listed os (codes "*") → any_of is_star os ≡ true
Listed-star [] l = absurd l
Listed-star (o ∷ os) (inl e) = let star = (is_star_iff o).1 e in ground (arith, star)
Listed-star (o ∷ os) (inr l) = let rest = Listed-star os l in ground (arith, rest)

abbrev is_named : Text → Text → Bool
is_named origin o = text_eq o origin && not (is_star o)

named-Listed :
    (origin : Text) (os : List Text) → any_of (is_named origin) os ≡ true → Listed os origin
named-Listed origin [] h = cc h
named-Listed origin (o ∷ os) h = elim (Bool-cases (is_named origin o)) [
  | inl e ↦ inl ((text_eq_iff o origin).0 (ground (arith, e)))
  | inr e ↦ inr (named-Listed origin os (ground (arith, h, e)))
]

Listed-named :
    (origin : Text) (os : List Text)
    → any_of is_star os ≡ false
    → Listed os origin
    → any_of (is_named origin) os ≡ true
Listed-named origin [] plain l = absurd l
Listed-named origin (o ∷ os) plain (inl e) =
    let same = (text_eq_iff o origin).1 e in ground (arith, same, plain)
Listed-named origin (o ∷ os) plain (inr l) =
    let rest = Listed-named origin os (ground (arith, plain)) l in ground (arith, rest)

-- The origin that is announced: the one that asks, or `*` where every origin is admitted and
-- credentials are off.
abbrev pub Announces : Option (Text → Bool) → List Text → Bool → Text → Text → Type 0
Announces func os credentials origin o =
    (o ≡ origin) ⊎ ((o ≡ codes "*") × (credentials ≡ false) × AdmitsAll func os)

-- What is found for an origin: nothing if it is not admitted, and otherwise one to announce.
abbrev pub Verdict : Option (Text → Bool) → List Text → Bool → Text → Option Text → Type 0
Verdict func os credentials origin none = ¬ Admits func os origin
Verdict func os credentials origin (some o) =
    Admits func os origin × Announces func os credentials origin o

-- The matching of an origin that is not empty, by the fields of the configuration.
abbrev pub decide : Option (Text → Bool) → List Text → Bool → Text → Option Text
decide (some f) os credentials origin = if f origin then some origin else none
decide none os credentials origin =
    let origins : List Text = elim os [ [] ↦ codes "*" ∷ [] | o ∷ more ↦ o ∷ more ] in
    if any_of is_star origins
    then (if credentials then some origin else some (codes "*"))
    else if any_of (is_named origin) origins
    then some origin
    else none

pub decide-Verdict :
    (func : Option (Text → Bool)) (os : List Text) (credentials : Bool) (origin : Text)
    → Verdict func os credentials origin (decide func os credentials origin)
unfolding text_eq
decide-Verdict (some f) os credentials origin = elim (Bool-cases (f origin)) [
  | inl e ↦ rw e (e, inl refl)
  | inr e ↦ rw e (λ h. cc (sym e ∙ h))
]
decide-Verdict none [] true origin = (tt, inl refl)
decide-Verdict none [] false origin = (tt, inr (refl, refl, tt))
decide-Verdict none (o ∷ os) credentials origin = elim (Bool-cases (any_of is_star (o ∷ os))) [
  | inl e ↦
      let star = star-Listed (o ∷ os) e in
      elim (Bool-cases credentials) [
        | inl c ↦ rw (e, c) (inr star, inl refl)
        | inr c ↦ rw (e, c) (inr star, inr (refl, refl, star))
      ]
  | inr e ↦ elim (Bool-cases (any_of (is_named origin) (o ∷ os))) [
    | inl n ↦ rw (e, n) (inl (named-Listed origin (o ∷ os) n), inl refl)
    | inr n ↦
        rw (e, n)
          (λ a. elim a [
            | inl l ↦ cc (sym n ∙ Listed-named origin (o ∷ os) e l)
            | inr l ↦ cc (sym e ∙ Listed-star (o ∷ os) l)
          ])
  ]
]

origins-alone :
    (conf : CorsConfig)
    → conf.allow_origin_func ≡ none
    → origins_or_default conf
      ≡ (elim conf.allow_origins as (λ _. List Text) [ [] ↦ codes "*" ∷ [] | o ∷ os ↦ o ∷ os ])
origins-alone conf e = rw e refl

pub match_origin-decide :
    (conf : CorsConfig) (origin : Text)
    → is_empty origin ≡ false
    → match_origin conf origin
      ≡ decide conf.allow_origin_func conf.allow_origins conf.allow_credentials origin
unfolding match_origin
match_origin-decide conf origin asks = elim (Option-cases conf.allow_origin_func) [
  | inl e ↦ rw (asks, e, origins-alone conf e) refl
  | inr (f, e) ↦ rw (asks, e) refl
]
