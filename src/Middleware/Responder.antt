-- ===== src/Middleware/Responder.antt =====
-- middleware/responder.go, for requests that are not skipped. `marshal` is the configured function;
-- `wrap` is `hes.Wrap` of an error of it.
use elton.Common.{
  ℕ, Bool, true, false, ◌&&◌, ◌||◌, Option, none, some, [], Text, codes, is_empty, ◌==◌,
  if◌then◌else◌, ◌⊎◌, inl, inr, is_some,
}
use elton.Context.{
  Context, Body, nil, text, binary, reader, other, Err, hes, is_reader, get_header, set_header,
}
use elton.Chain.Onion.{Layer}

abbrev pub invalid_response : Err
invalid_response = hes (record {
  status_code = 500;
  message = codes "invalid response";
  category = codes "elton-responder";
  is_exception = true;
})

abbrev pub is_nil : Body → Bool
is_nil nil = true
is_nil _ = false

abbrev status_or_ok : ℕ → ℕ
status_or_ok code = if code == 0 then 200 else code

-- The last lines: the buffer if there are bytes, and the status.
abbrev pub filled : Text → Context → Context
filled b c = record c {
  body_buffer = if is_empty b then c.body_buffer else some b;
  status_code = status_or_ok c.status_code;
}

abbrev typed : Text → Context → Context
typed content_type c =
    if is_empty (get_header (codes "Content-Type") c)
    then set_header (codes "Content-Type") content_type c
    else c

module _ (marshal : ℕ → Err ⊎ Text) (wrap : Err → Err) (content_type : Text) where
  abbrev marshalled : Context → Err ⊎ Text → Context × Option Err
  marshalled c (inl e) = (c, some (wrap e))
  marshalled c (inr b) = (filled b (typed content_type c), none)

  -- The switch on the type of the body. A reader does not come here.
  abbrev pub convert : Body → Context → Context × Option Err
  convert nil c = (filled [] c, none)
  convert (text s) c = (filled s (typed (codes "text/plain; charset=utf-8") c), none)
  convert (binary s) c = (filled s (typed (codes "application/octet-stream") c), none)
  convert (reader s closes) c = (c, none)
  convert (other n) c = marshalled c (marshal n)

  unfoldable pub respond_after : Context → Option Err → Context × Option Err
  unfolding get_header set_header
  respond_after c (some e) = (c, some e)
  respond_after c none =
      if is_some c.body_buffer || c.committed
      then (c, none)
      else if c.status_code == 0 && is_nil c.body
      then (c, some invalid_response)
      else if is_reader c.body
      then (c, none)
      else convert c.body c

  -- `NewResponder`.
  abbrev pub responder_layer : Layer
  responder_layer = record { before = λ c. c; after = respond_after }
