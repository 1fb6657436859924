-- ===== src/Middleware/Guards.antt =====
-- middleware/response_size_limiter.go and middleware/timeout.go.
use elton.Common.{
  ℕ, Bool, true, false, ◌&&◌, Option, none, some, Text, codes, ltb, if◌then◌else◌, length,
}
use elton.Context.{Context, Err, hes}
use elton.Chain.{Run, done, returned, Handler, pass_on, call_next}
use elton.Middleware.Skipper.{Skipper, get_skipper}

abbrev pub response_too_large : Err
response_too_large = hes (record {
  status_code = 500;
  message = codes "body of response is too large";
  category = codes "elton-response-size-limiter";
  is_exception = false;
})

abbrev over : ℕ → Option Text → Bool
over max none = false
over max (some b) = ltb max (length b)

abbrev pub check_size : ℕ → Context → Option Err → Run
check_size max d (some e) = done d (returned (some e))
check_size max d none =
    if over max d.body_buffer
    then done d (returned (some response_too_large))
    else done d (returned none)

-- `NewResponseSizeLimiter`, which panics at registration unless the size is positive.
unfoldable pub response_size_limiter : Option Skipper → ℕ → Handler
unfolding get_skipper pass_on call_next
response_size_limiter skipper max c =
    if get_skipper skipper c then pass_on c else call_next c (check_size max)

abbrev pub request_timeout : Err
request_timeout = hes (record {
  status_code = 504;
  message = codes "request timeout";
  category = codes "elton-timeout";
  is_exception = false;
})

-- `NewTimeout`. `expired` tells whether the deadline of the request has passed when `Next` returns
-- with this context, and `is_deadline` whether an error is `DeadlineExceeded` or `Canceled`; the
-- request's own context, which gets the deadline, is not part of the model.
module _ (expired : Context → Bool) (is_deadline : Err → Bool) where
  abbrev timed_out : Err → Option Err → Bool
  timed_out timeout none = true
  timed_out timeout (some e) = is_deadline e

  abbrev pub check_deadline : Err → Context → Option Err → Run
  check_deadline timeout d e =
      if expired d && timed_out timeout e
      then done d (returned (some timeout))
      else done d (returned e)

  abbrev pub error_or_default : Option Err → Err
  error_or_default none = request_timeout
  error_or_default (some e) = e

  unfoldable pub timeout_handler : Option Skipper → Option Err → Handler
  unfolding get_skipper pass_on call_next
  timeout_handler skipper error c =
      if get_skipper skipper c
      then pass_on c
      else call_next c (check_deadline (error_or_default error))
