-- ===== src/Middleware/ConcurrentLimiter/Keys.antt =====
-- What the lock key of a request stands for.
use elton.Common.{
  ◌≡◌, ◌≢◌, refl, sym, ap, ◌∙◌, Bool, ◌&&◌, ◌⊎◌, inl, inr, Option, none, some, List, [], ◌∷◌, ◌++◌,
  map, append_assoc, append-nil, Text, is_empty, Lacks, All, split, join, split-join, Bool-cases,
  arith,
}
use elton.Context.{Context, Err}
use elton.Middleware.ConcurrentLimiter.{
  KeyInfo, ConcurrentLimiterConfig, key_info, generated, lock_key, key_value, comma_unless_last,
  key_loop, write_value,
}

module _ (is_intranet : Text → Bool) (split_host_port : Text → Text)
    (body_value : Option (Context → Text → Text)) where
  -- The request has the values `vs` under the keys, one after the other.
  pub data Values : List KeyInfo → Context → List Text → Type 0 where
    no_keys : {c : Context} → Values [] c []
    one_key :
        {k : KeyInfo} {ks : List KeyInfo} {c d : Context} {v : Text} {vs : List Text}
        → key_value is_intranet split_host_port body_value k c ≡ some (d, v)
        → Values ks d vs
        → Values (k ∷ ks) c (v ∷ vs)

  joined :
      {ks : List KeyInfo} {vs : List Text} {c : Context} (sb v : Text)
      → Values ks c vs
      → (sb ++ v ++ comma_unless_last ks) ++ join b',' vs ≡ sb ++ join b',' (v ∷ vs)
  unfolding join
  joined sb v no_keys = append-nil (sb ++ v ++ []) ∙ append-nil (sb ++ v)
  joined sb v (one_key {vs = []} e h) = append_assoc (sb ++ v) (b',' ∷ []) _ ∙ append_assoc sb v _
  joined sb v (one_key {vs = w ∷ ws} e h) =
      append_assoc (sb ++ v) (b',' ∷ []) _ ∙ append_assoc sb v _

  -- What the loop writes are the values of the keys, with commas between them.
  key_loop_lem :
      {ks : List KeyInfo} {vs : List Text} {c : Context} (not_empty : Bool) (d : Context)
      (sb key : Text)
      → Values ks c vs
      → key_loop is_intranet split_host_port body_value not_empty ks c sb ≡ some (d, inr key)
      → key ≡ sb ++ join b',' vs
  unfolding key_loop
  key_loop_lem not_empty d sb key no_keys run = unfold join in cc (run, append-nil sb)
  key_loop_lem not_empty d sb key (one_key {ks} {c = c} {d = x} {v} {vs} e h) run =
      let go : write_value (key_loop is_intranet split_host_port body_value not_empty ks) not_empty
            (comma_unless_last ks) sb (some (x, v))
          ≡ some (d, inr key) =
        ap
          (write_value (key_loop is_intranet split_host_port body_value not_empty ks) not_empty
            (comma_unless_last ks) sb)
          (sym e)
        ∙ run in
      elim (Bool-cases (not_empty && is_empty v)) [
        | inl refused ↦ ground arith
        | inr writes ↦
            key_loop_lem not_empty d (sb ++ v ++ comma_unless_last ks) key h (ground arith)
            ∙ joined sb v h
      ]

  same_key :
      {ks : List KeyInfo} {vs ws : List Text} {c d : Context} (not_empty : Bool) (x y : Context)
      (key : Text)
      → ks ≢ []
      → Values ks c vs
      → Values ks d ws
      → All (Lacks b',') vs
      → All (Lacks b',') ws
      → key_loop is_intranet split_host_port body_value not_empty ks c [] ≡ some (x, inr key)
      → key_loop is_intranet split_host_port body_value not_empty ks d [] ≡ some (y, inr key)
      → vs ≡ ws
  same_key {vs} {ws} not_empty x y key some_keys h g plain_vs plain_ws one other =
      let joins =
        sym (key_loop_lem not_empty x [] key h one) ∙ key_loop_lem not_empty y [] key g other in
      sym (split-join b',' vs (Values-ne some_keys h) plain_vs)
      ∙ ap (split b',') joins
      ∙ split-join b',' ws (Values-ne some_keys g) plain_ws
    where
      Values-ne :
          {ks : List KeyInfo} {vs : List Text} {c : Context} → ks ≢ [] → Values ks c vs → vs ≢ []
      Values-ne ne no_keys = absurd (ne refl)
      Values-ne ne (one_key e h) = λ q. cc

generated-none : (r : Option (Context × (Err ⊎ Text))) → generated none r ≡ r
generated-none none = refl
generated-none (some (c, inl e)) = refl
generated-none (some (c, inr sb)) = refl

map-ne : (keys : List Text) → keys ≢ [] → map key_info keys ≢ []
map-ne [] ne = absurd (ne refl)
map-ne (k ∷ ks) ne = λ e. cc

-- The lock confuses no two submissions: two requests with the same lock key have the same values
-- under all keys of the limiter, if it has a key and no generator of its own, and if no value has a
-- comma.
pub lock_key-values :
    (is_intranet : Text → Bool) (split_host_port : Text → Text) (conf : ConcurrentLimiterConfig)
    (c d x y : Context) (vs ws : List Text) (key : Text)
    → conf.key_generator ≡ none
    → conf.keys ≢ []
    → Values is_intranet split_host_port conf.body_value (map key_info conf.keys) c vs
    → Values is_intranet split_host_port conf.body_value (map key_info conf.keys) d ws
    → All (Lacks b',') vs
    → All (Lacks b',') ws
    → lock_key is_intranet split_host_port conf c ≡ some (x, inr key)
    → lock_key is_intranet split_host_port conf d ≡ some (y, inr key)
    → vs ≡ ws
unfolding lock_key
lock_key-values is_intranet split_host_port conf c d x y vs ws key plain some_keys h g plain_vs
      plain_ws one other =
    let loop = λ (z : Context).
      key_loop is_intranet split_host_port conf.body_value conf.not_allow_empty
        (map key_info conf.keys) z [] in
    let bare =
      λ (z : Context). sym (ap (λ f. generated f (loop z)) plain ∙ generated-none (loop z)) in
    same_key is_intranet split_host_port conf.body_value conf.not_allow_empty x y key
      (map-ne conf.keys some_keys) h g plain_vs plain_ws (bare c ∙ one) (bare d ∙ other)
