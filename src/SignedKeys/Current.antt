-- ===== src/SignedKeys/Current.antt =====
-- The keygrip of an instance is always that of its present keys.
use elton.Common.{
  ◌≡◌, refl, ap, ◌∙◌, true, Option, none, some, List, [], ◌∷◌, Text, text_eq_iff, Bool-cases, inl,
  inr, arith,
}
use elton.SignedKeys.{Holder, keys, texts_eq, Cache, cached, for_keys, keygrip}

texts_eq_lem : (ss ts : List Text) → texts_eq ss ts ≡ true → ss ≡ ts
unfolding texts_eq
texts_eq_lem [] [] e = refl
texts_eq_lem [] (t ∷ ts) e = cc
texts_eq_lem (s ∷ ss) [] e = cc
texts_eq_lem (s ∷ ss) (t ∷ ts) e = ground (arith, text_eq_iff s t, texts_eq_lem ss ts)

module _ {K : Type 0} (new : List Text → K) where
  -- A keygrip that is kept is that of the keys that are kept with it.
  unfoldable pub IsCached : Cache new → Type 0
  IsCached c = (kg : K) → c.kg ≡ some kg → kg ≡ new c.kg_keys

  abbrev pub expected : List Text → Option K
  expected [] = none
  expected (k ∷ ks) = some (new (k ∷ ks))

  cached-current :
      (k : Text) (ks : List Text) (c : Cache new) (kg : Option K)
      → c.kg ≡ kg
      → IsCached c
      → (let r = cached new (k ∷ ks) c kg in (r.1 ≡ some (new (k ∷ ks))) × IsCached r.0)
  unfolding IsCached
  cached-current k ks c none e h = (refl, λ kg same. cc same)
  cached-current k ks c (some kg) e h = elim (Bool-cases (texts_eq c.kg_keys (k ∷ ks))) [
    | inl same ↦
        let equal = texts_eq_lem c.kg_keys (k ∷ ks) same in
        rw same (ap some (h kg e ∙ ap new equal), h)
    | inr differs ↦ rw differs (refl, λ x q. cc q)
  ]

  -- An instance signs and checks with its present keys: the keygrip that it gets out of its cache
  -- is the one that the library makes of the keys that the holder has now, and there is none if the
  -- holder has no keys, whatever keys it had before; the cache stays such.
  pub keygrip_current :
      (h : Holder) (c : Cache new)
      → IsCached c
      → (let r = keygrip new (some h) c in (r.1 ≡ expected (keys h)) × IsCached r.0)
  unfolding keygrip
  keygrip_current h c good = by_keys (keys h)
    where
      by_keys : (ks : List Text) → (let r = for_keys new ks c in (r.1 ≡ expected ks) × IsCached r.0)
      by_keys [] = (refl, good)
      by_keys (k ∷ ks) = cached-current k ks c c.kg refl good
