-- ===== src/Examples/Statics.antt =====
-- Static files at concrete requests.
use elton.Common.{
  ℕ, ◌≡◌, ◌≢◌, refl, sym, subst, Bool, true, false, ◌⊎◌, inl, inr, Option, none, some, List, [],
  ◌∷◌, ◌++◌, Text, codes, text_eq, cut_prefix, is_some, if◌then◌else◌, arith,
}
use elton.Context.{Context, Err}
use elton.Middleware.StaticServe.{
  StaticFile, StaticServeConfig, base_path, locate, encoding_static_serve,
}
use elton.Middleware.StaticServe.Inside.{IsInside}
use elton.Middleware.StaticServe.Confined.{
  IsReached, SameAt, locate-IsInside, static_serve-confined,
}
use elton.Examples.Chains.{blank}
use elton.Examples.Answers.{library}

abbrev public : StaticServeConfig
public = record {
  path = codes "./public";
  max_age = 0;
  s_max_age = 0;
  immutable = false;
  header = [];
  deny_query_string = false;
  deny_dot = true;
  enable_strong_etag = false;
  disable_etag = false;
  disable_last_modified = false;
  not_found_next = false;
  no_cache_match = none;
  before_response = none;
  index_file = [];
  skipper = none;
}

abbrev asks : Text → Context
asks path = let r = blank.request in record blank { request = record r { path = path } }

abbrev is_out : Err ⊎ Text → Bool
is_out (inl e) = true
is_out (inr f) = false

-- A request within the directory, one that leaves it, and one for a neighbour with the same prefix.
locate_tests :
    (locate public (asks (codes "/a/../b.js")) ≡ inr (codes "public/b.js"))
    × (is_out (locate public (asks (codes "/../secret"))) ≡ true)
    × (is_out (locate public (asks (codes "/../publicsecret"))) ≡ true)
unfolding locate
locate_tests = (refl, refl, refl)

-- The chain of `..` that the theorems exclude: the check lets a file above the directory pass.
escape_test :
    locate (record public { path = codes ".."; deny_dot = false }) (asks (codes "/../secret"))
    ≡ inr (codes "../../secret")
unfolding locate
escape_test = refl

-- The directories `.` and `/` serve nothing.
nothing_served :
    (is_out (locate (record public { path = codes "." }) (asks (codes "/b.js"))) ≡ true)
    × (is_out (locate (record public { path = codes "/" }) (asks (codes "/b.js"))) ≡ true)
unfolding locate
nothing_served = (refl, refl)

file-IsInside : IsInside (base_path public) (codes "public/b.js")
unfolding locate
file-IsInside = locate-IsInside public (asks (codes "/a/../b.js")) (codes "public/b.js") refl refl

abbrev empty_files : StaticFile
empty_files = record {
  exists = λ p. true;
  get = λ p. inr [];
  stat = λ p. none;
  new_reader = λ p. inr (codes "hello");
}

-- The same, with other bytes outside of the directory.
abbrev with_secret : StaticFile
with_secret = record empty_files {
  new_reader = λ p.
      if is_some (cut_prefix p (codes "public")) then inr (codes "hello") else inr (codes "secret");
}

alike_at :
    (p : Text) → is_some (cut_prefix p (codes "public")) ≡ true → SameAt empty_files with_secret p
alike_at p e = (refl, refl, refl, rw e refl)

alike : (p : Text) → IsReached public p → SameAt empty_files with_secret p
unfolding cut_prefix
alike p (inl (inl e)) = alike_at p (rw e (unfold elton.Common.join_path in refl))
alike p (inl (inr (rest, e, _))) = alike_at p (rw e (unfold elton.Common.join_path in refl))
alike p (inr (has_index, d, _, _)) = absurd (cc has_index)

static_serve-confined_example :
    encoding_static_serve library
      (λ s. s)
      (λ e. [])
      (λ ext. [])
      (λ t. [])
      public
      (λ d. ([], some empty_files))
      (asks (codes "/b.js"))
    ≡ encoding_static_serve library
        (λ s. s)
        (λ e. [])
        (λ ext. [])
        (λ t. [])
        public
        (λ d. ([], some with_secret))
        (asks (codes "/b.js"))
static_serve-confined_example =
    static_serve-confined library (λ s. s) (λ e. []) (λ ext. []) (λ t. []) public empty_files
      with_secret [] (asks (codes "/b.js")) (unfold elton.Common.join_path in refl) alike
