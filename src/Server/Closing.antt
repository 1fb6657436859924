-- ===== src/Server/Closing.antt =====
-- Requests that come after the instance has begun to close.
use elton.Common.{ℕ, ◌≡◌, ◌∙◌, sym, some, none, List, Text, ◌++◌}
use elton.Http.{Writer}
use elton.Context.{Request, Err, HesError}
use elton.Chain.{returned}
use elton.EdgeWriter.{EdgeWriter}
use elton.Server.{Elton, Route, Pooled}
use elton.Server.Serve.{MuxAnswer, serve_http, serve_http-unavailable}
use elton.Server.Lifecycle.{Life, Step, Steps, never_reopens}

module _ (hes_text : HesError → Text) (text_of : Err → Text)
    (mux : List Route → Request → MuxAnswer) where
  -- Once any call of `GracefulClose` has made a step, and whatever steps of whatever calls follow,
  -- an instance with the status that is then reached answers a request with 503, with the header
  -- fields that the writer has, if nothing was sent on it.
  pub closing_rejects :
      (fuel : ℕ) (e : Elton) (req : Request) (w : Writer) (spare : EdgeWriter) (pooled : Pooled)
      (l m n : Life)
      → Step l m
      → Steps m n
      → e.status ≡ n.status
      → w.sent ≡ none
      → (b : Text) × (serve_http hes_text text_of mux fuel e req w spare pooled
          ≡ some (record w { sent = some (503, w.header); body = w.body ++ b }, returned none))
  closing_rejects fuel e req w spare pooled l m n s ss now unsent =
      serve_http-unavailable hes_text text_of mux fuel e req w spare pooled
        (λ up. never_reopens l m n s ss (sym now ∙ up)) unsent
