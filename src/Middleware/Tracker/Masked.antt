-- ===== src/Middleware/Tracker/Masked.antt =====
-- What the tracker tells of the values that are masked.
use elton.Common.{
  ℕ, ◌≡◌, refl, ap, sym, ◌∙◌, Bool, true, ◌⊎◌, inl, inr, Option, some, List, [], ◌∷◌, map, Text,
}
use elton.Context.{Context, Err}
use elton.Middleware.Tracker.{Json, shown, shown_json, convert_map, form_of, info_of}

module _ (mask : Text → Bool) where
  -- Two maps with the same keys, whose values differ at most where the key is masked.
  abbrev pub Alike : {V : Type 0} → List (Text × V) → List (Text × V) → Type 0
  Alike [] [] = Unit
  Alike [] (f ∷ fs) = ⊥
  Alike (e ∷ es) [] = ⊥
  Alike ((k, v) ∷ es) ((j, w) ∷ fs) = (k ≡ j) × ((mask k ≡ true) ⊎ (v ≡ w)) × Alike es fs

  -- A function on entries that does not look at a masked value.
  map-Alike :
      {V : Type 0} (show : Text × V → Text × V)
      → ((k : Text) (v w : V) → mask k ≡ true → show (k, v) ≡ show (k, w))
      → (es fs : List (Text × V)) → Alike es fs
      → map show es ≡ map show fs
  map-Alike show blind [] [] a = refl
  map-Alike show blind [] (f ∷ fs) a = absurd a
  map-Alike show blind (e ∷ es) [] a = absurd a
  map-Alike show blind ((k, v) ∷ es) ((j, w) ∷ fs) (same, inl hidden, a) =
      let rest = map-Alike show blind es fs a in
      let first = blind k v w hidden in rw (sym same, first, rest) refl
  map-Alike show blind ((k, v) ∷ es) ((j, w) ∷ fs) (same, inr equal, a) =
      let rest = map-Alike show blind es fs a in rw (same, equal, rest) refl

  convert_map-Alike :
      (n : ℕ) (es fs : List (Text × Text))
      → Alike es fs
      → convert_map es mask n ≡ convert_map fs mask n
  unfolding convert_map
  convert_map-Alike n [] [] a = refl
  convert_map-Alike n [] (f ∷ fs) a = absurd a
  convert_map-Alike n (e ∷ es) [] a = absurd a
  convert_map-Alike n (e ∷ es) (f ∷ fs) a =
      ap some (map-Alike (shown mask n) (λ k v w h. rw h refl) (e ∷ es) (f ∷ fs) a)

  module _ (unmarshal : Text → Option (List (Text × Json))) (since : Context → Context → ℕ) where
    form_of-Alike :
        (n : ℕ) (x y : ℕ) (s t : Text) (m o : List (Text × Json))
        → unmarshal (x ∷ s) ≡ some m
        → unmarshal (y ∷ t) ≡ some o
        → Alike m o
        → form_of unmarshal since (some (x ∷ s)) mask n
          ≡ form_of unmarshal since (some (y ∷ t)) mask n
    unfolding form_of
    form_of-Alike n x y s t m o read_m read_o a =
        rw (read_m, read_o) (ap some (map-Alike (shown_json mask n) (λ k v w h. rw h refl) m o a))

    -- The tracker tells nothing of a masked value: of two requests whose queries, parameters and
    -- JSON forms have the same keys, and the same values but under keys that are masked, the same
    -- is told if their handlers leave the same context and error after the same time.
    pub info_of-masked :
        (n : ℕ) (c c' d : Context) (q q' p p' : List (Text × Text)) (x y : ℕ) (s t : Text)
        (m o : List (Text × Json)) (e : Option Err)
        → Alike q q'
        → Alike p p'
        → c.request_body ≡ some (x ∷ s)
        → c'.request_body ≡ some (y ∷ t)
        → unmarshal (x ∷ s) ≡ some m
        → unmarshal (y ∷ t) ≡ some o
        → Alike m o
        → since c d ≡ since c' d
        → info_of unmarshal since mask n c q p d e ≡ info_of unmarshal since mask n c' q' p' d e
    info_of-masked n c c' d q q' p p' x y s t m o e qs ps body body' read_m read_o ms timed =
        let queries = convert_map-Alike n q q' qs in
        let params = convert_map-Alike n p p' ps in
        let told = λ (b : Option Text). form_of unmarshal since b mask n in
        let forms =
          ap told body ∙ form_of-Alike n x y s t m o read_m read_o ms ∙ ap told (sym body') in
        rw (timed, queries, params, forms) refl
