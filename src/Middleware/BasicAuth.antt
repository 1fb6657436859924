-- ===== src/Middleware/BasicAuth.antt =====
-- middleware/basic_auth.go. `http.Request.BasicAuth` is a parameter: what it finds in a request.
use elton.Common.{
  Bool, true, false, ◌||◌, ◌&&◌, ◌⊎◌, inl, inr, Option, none, some, Text, codes, text_eq, is_empty,
  ◌++◌, if◌then◌else◌,
}
use elton.Context.{Context, Err, HesError, hes, as_hes, set_header}
use elton.Chain.{Run, done, returned, Handler, pass_on}
use elton.Middleware.Skipper.{Skipper, get_skipper}

-- `BasicAuthConfig`; the validation may change the context.
pub record BasicAuthConfig : Type 0 where
  pub realm : Text
  pub validate : Text → Text → Context → Context × (Err ⊎ Bool)
  pub skipper : Option Skipper

-- The validation of `NewDefaultBasicAuth`.
unfoldable pub default_validate : Text → Text → Text → Text → Context → Context × (Err ⊎ Bool)
unfolding text_eq
default_validate account password acc pwd c = (c, inr (text_eq acc account && text_eq pwd password))

-- `getBasicAuthError` for an error with the status 401 and its own text, and for another one.
abbrev pub unauthorized : Err
unauthorized = hes (record {
  status_code = 401;
  message = codes "unAuthorized";
  category = codes "elton-basic-auth";
  is_exception = false;
})

module _ (show : Err → Text) (basic_auth : Context → Option (Text × Text)) where
  abbrev pub validate_error : Err → Option HesError → Err
  validate_error e (some he) = hes he
  validate_error e none = hes (record {
    status_code = 400;
    message = show e;
    category = codes "elton-basic-auth";
    is_exception = false;
  })

  unfoldable pub www_authenticate : Text → Text
  www_authenticate realm =
      codes "basic realm=\"" ++ (if is_empty realm then codes "basic auth" else realm) ++ codes "\""

  abbrev refused : Text → Context → Run
  refused realm c =
      done (set_header (codes "WWW-Authenticate") (www_authenticate realm) c)
        (returned (some unauthorized))

  abbrev pub after_validate : Text → Context × (Err ⊎ Bool) → Run
  after_validate realm (d, inl e) = done d (returned (some (validate_error e (as_hes e))))
  after_validate realm (d, inr true) = pass_on d
  after_validate realm (d, inr false) = refused realm d

  abbrev pub check_auth : BasicAuthConfig → Context → Option (Text × Text) → Run
  check_auth conf c none = refused conf.realm c
  check_auth conf c (some (user, password)) =
      after_validate conf.realm (conf.validate user password c)

  -- `NewBasicAuth`; a nil validation function panics at registration.
  unfoldable pub basic_auth_handler : BasicAuthConfig → Handler
  unfolding get_skipper text_eq pass_on set_header www_authenticate as_hes
  basic_auth_handler conf c =
      if get_skipper conf.skipper c || text_eq c.request.method (codes "OPTIONS")
      then pass_on c
      else check_auth conf c (basic_auth c)
