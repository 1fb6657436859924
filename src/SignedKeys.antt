-- ===== src/SignedKeys.antt =====
-- signed_keys.go, and the keygrip that an instance keeps for its keys (elton.go). The library
-- keygrip is the parameter `new`.
pub mod Current
use elton.Common.{
  ℕ, Bool, true, false, ◌&&◌, Option, none, some, List, [], ◌∷◌, Text, text_eq, if◌then◌else◌,
}

-- `SimpleSignedKeys`, `RWMutexSignedKeys` and `AtomicSignedKeys`; the last has no list before the
-- first `SetKeys`. A method runs alone, by its lock or as it is atomic.
pub data Holder : Type 0 where
  simple guarded : List Text → Holder
  atomic : Option (List Text) → Holder

abbrev loaded : Option (List Text) → List Text
loaded none = []
loaded (some ks) = ks

-- `Keys`.
unfoldable pub keys : Holder → List Text
keys (simple ks) = ks
keys (guarded ks) = ks
keys (atomic o) = loaded o

-- `SetKeys`.
unfoldable pub set_keys : List Text → Holder → Holder
set_keys ks (simple _) = simple ks
set_keys ks (guarded _) = guarded ks
set_keys ks (atomic _) = atomic (some ks)

-- `slices.Equal`.
unfoldable pub texts_eq : List Text → List Text → Bool
unfolding text_eq
texts_eq [] [] = true
texts_eq (s ∷ ss) (t ∷ ts) = text_eq s t && texts_eq ss ts
texts_eq _ _ = false

module _ {K : Type 0} (new : List Text → K) where
  -- `kgKeys` and `kg` of the instance.
  pub record Cache : Type 0 where
    pub kg_keys : List Text
    pub kg : Option K

  abbrev rebuild : List Text → Cache × Option K
  rebuild ks = (record { kg_keys = ks; kg = some (new ks) }, some (new ks))

  abbrev pub cached : List Text → Cache → Option K → Cache × Option K
  cached ks c none = rebuild ks
  cached ks c (some kg) = if texts_eq c.kg_keys ks then (c, some kg) else rebuild ks

  abbrev for_keys : List Text → Cache → Cache × Option K
  for_keys [] c = (c, none)
  for_keys (k ∷ ks) c = cached (k ∷ ks) c c.kg

  -- `keygrip`; `none` is an instance without a holder.
  unfoldable pub keygrip : Option Holder → Cache → Cache × Option K
  unfolding keys texts_eq
  keygrip none c = (c, none)
  keygrip (some h) c = for_keys (keys h) c
