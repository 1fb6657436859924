-- ===== src/Middleware/ConcurrentLimiter.antt =====
-- middleware/concurrent_limiter.go: `NewConcurrentLimiter`. The lock function of the user is a
-- parameter that changes a state `L`: it answers with an error, with a refusal, or with a success
-- and, unless it is nil, the function that unlocks.
pub mod Keys
use elton.Common.{
  Bool, true, false, not, ◌&&◌, ◌||◌, ◌⊎◌, inl, inr, Option, none, some, List, [], ◌∷◌, ◌++◌, map,
  Text, codes, text_eq, is_empty, cut_prefix, if◌then◌else◌,
}
use elton.Context.{Context, Err, hes, get_request_header}
use elton.Context.Address.{real_ip}
use elton.Context.Contents.{param, query_param}
use elton.Middleware.Skipper.{Skipper, get_skipper}
use elton.Chain.{Outcome, returned}

-- `concurrentLimiterKeyInfo`.
pub data KeyInfo : Type 0 where
  ip : KeyInfo
  header query params body : Text → KeyInfo

-- The reading of `Keys`.
abbrev key_body : Text → Option Text → KeyInfo
key_body key none = body key
key_body key (some name) = params name

abbrev key_params : Text → Option Text → KeyInfo
key_params key none = key_body key (cut_prefix key (codes "p:"))
key_params key (some name) = query name

abbrev key_query : Text → Option Text → KeyInfo
key_query key none = key_params key (cut_prefix key (codes "q:"))
key_query key (some name) = header name

unfoldable pub key_info : Text → KeyInfo
unfolding text_eq cut_prefix
key_info key = if text_eq key (codes ":ip") then ip else key_query key (cut_prefix key (codes "h:"))

abbrev pub not_allow_empty : Err
not_allow_empty = hes (record {
  status_code = 400;
  message = codes "empty value is not allowed";
  category = codes "elton-concurrent-limiter";
  is_exception = false;
})

abbrev pub too_frequently : Err
too_frequently = hes (record {
  status_code = 400;
  message = codes "submit too frequently";
  category = codes "elton-concurrent-limiter";
  is_exception = false;
})

-- `ConcurrentLimiterConfig` without the lock.
pub record ConcurrentLimiterConfig : Type 0 where
  pub key_generator : Option (Context → Err ⊎ Text)
  pub keys : List Text
  pub body_value : Option (Context → Text → Text)
  pub skipper : Option Skipper
  pub not_allow_empty : Bool

-- What the lock function returns.
pub data Locked (L : Type 0) : Type 0 where
  failed : Err → Locked L
  refused : Locked L
  locked : Option (L → L) → Locked L

abbrev pub comma_unless_last : List KeyInfo → Text
comma_unless_last [] = []
comma_unless_last (k ∷ ks) = b',' ∷ []

-- What the loop over the keys does with one value; `sb` is what was written.
abbrev pub write_value :
    (Context → Text → Option (Context × (Err ⊎ Text)))
    → Bool
    → Text
    → Text
    → Option (Context × Text)
    → Option (Context × (Err ⊎ Text))
write_value later not_empty comma sb none = none
write_value later not_empty comma sb (some (d, v)) =
    if not_empty && is_empty v then some (d, inl not_allow_empty) else later d (sb ++ v ++ comma)

module _ (is_intranet : Text → Bool) (split_host_port : Text → Text)
    (body_value : Option (Context → Text → Text)) where
  abbrev swapped : Text × Context → Context × Text
  swapped (v, c) = (c, v)

  abbrev with_context : Context → Option Text → Option (Context × Text)
  with_context c none = none
  with_context c (some v) = some (c, v)

  abbrev body_or_empty : Option (Context → Text → Text) → Context → Text → Text
  body_or_empty none c name = []
  body_or_empty (some f) c name = f c name

  -- The value of one key; `RealIP` and `QueryParam` keep what they find in the context. `none` is the panic of
  -- `Param`.
  unfoldable pub key_value : KeyInfo → Context → Option (Context × Text)
  unfolding real_ip get_request_header query_param param
  key_value ip c = some (swapped (real_ip is_intranet split_host_port c))
  key_value (header name) c = some (c, get_request_header name c)
  key_value (query name) c = some (swapped (query_param name c))
  key_value (params name) c = with_context c (param name c)
  key_value (body name) c = some (c, body_or_empty body_value c name)

  unfoldable pub key_loop : Bool → List KeyInfo → Context → Text → Option (Context × (Err ⊎ Text))
  unfolding key_value
  key_loop not_empty [] c sb = some (c, inr sb)
  key_loop not_empty (k ∷ ks) c sb =
      write_value (key_loop not_empty ks) not_empty (comma_unless_last ks) sb (key_value k c)

abbrev with_custom : Text → Err ⊎ Text → Err ⊎ Text
with_custom sb (inl e) = inl e
with_custom sb (inr custom) = inr (if is_empty sb then custom else sb ++ b',' ∷ custom)

abbrev generate : Option (Context → Err ⊎ Text) → Context → Err ⊎ Text → Err ⊎ Text
generate generator c (inl e) = inl e
generate none c (inr sb) = inr sb
generate (some f) c (inr sb) = with_custom sb (f c)

abbrev generated :
    Option (Context → Err ⊎ Text)
    → Option (Context × (Err ⊎ Text))
    → Option (Context × (Err ⊎ Text))
generated generator none = none
generated generator (some (c, r)) = some (c, generate generator c r)

-- The lock key of a request, or the error that is returned before the lock is asked.
unfoldable pub lock_key :
    (Text → Bool)
    → (Text → Text)
    → ConcurrentLimiterConfig
    → Context
    → Option (Context × (Err ⊎ Text))
unfolding key_loop key_info
lock_key is_intranet split_host_port conf c = generated conf.key_generator (
    key_loop is_intranet split_host_port conf.body_value conf.not_allow_empty
      (map key_info conf.keys) c [])

-- The handler around `inner`, which stands for `c.Next()` and may change the state of the lock as
-- other requests do; `unlock` is deferred, so it runs after a panic too.
module _ (is_intranet : Text → Bool) (split_host_port : Text → Text) {L : Type 0}
    (lock : Text → Context → L → L × Locked L) (wrap : Err → Err)
    (inner : Context → L → L × Context × Outcome) where
  abbrev unlocked : Option (L → L) → L × Context × Outcome → L × Context × Outcome
  unlocked none r = r
  unlocked (some unlock) (s, c, o) = (unlock s, c, o)

  abbrev pub after_lock : Context → L × Locked L → L × Context × Outcome
  after_lock c (s, failed e) = (s, c, returned (some (wrap e)))
  after_lock c (s, refused) = (s, c, returned (some too_frequently))
  after_lock c (s, locked unlock) = unlocked unlock (inner c s)

  abbrev pub with_key : L → Option (Context × (Err ⊎ Text)) → Option (L × Context × Outcome)
  with_key s none = none
  with_key s (some (c, inl e)) = some (s, c, returned (some e))
  with_key s (some (c, inr key)) = some (after_lock c (lock key c s))

  -- `NewConcurrentLimiter`; a nil lock panics at registration, and `none` is the panic of `Param`.
  unfoldable pub concurrent_limiter :
      ConcurrentLimiterConfig → Context → L → Option (L × Context × Outcome)
  unfolding get_skipper lock_key
  concurrent_limiter conf c s =
      if get_skipper conf.skipper c
      then some (inner c s)
      else with_key s (lock_key is_intranet split_host_port conf c)
