-- ===== src/Handlers/Auth.antt =====
-- internal/httpapi/auth.go: sign-in, refresh, sign-out and the signed-in user.
--
-- The random ids are inputs, `none` where the source of randomness fails; `verify` is
-- auth.VerifyPassword. The state of these handlers is the database.
pub mod Outcome
pub mod Renewal
mod Examples
use rdoc_cam_hub.Common.{
  ℕ, Text, String, bytes, Bool, true, false, ◌||◌, Option, none, some, List, [], ◌∷◌, ◌==◌, text_eq,
  if◌then◌else◌, length, ltb, Unicode, to_lower, trim_space,
}
use rdoc_cam_hub.Http.{
  Request, Response, Handler, Principal, JsonValue, text, number, role, Cookie, cookie_value,
  write_error, write_json, write_status, with_cookies, session_cookie_name, session_access_ttl,
  session_refresh_window, SessionCookieConfig, new_session, new_csrf, new_clearing,
  new_clearing_csrf,
}
use rdoc_cam_hub.Store.{Role, User, Session, Database, Env, Result, ok, err, not_found, failed}
use rdoc_cam_hub.Store.Users.{by_email}
use rdoc_cam_hub.Store.Sessions.{session_create, session_delete, rotate}
use rdoc_cam_hub.Handlers.{Decoded, body_too_large, bad_json, decoded}

-- loginReq
pub record LoginReq : Type 0 where
  pub email : Text
  pub password : Text

-- What auth.NewSessionID and auth.NewCSRFToken answer.
pub record Randomness : Type 0 where
  pub session_id : Option Text
  pub csrf_token : Option Text

abbrev pub login_max_body : ℕ
login_max_body = 4096

abbrev pub max_email_len : ℕ
max_email_len = 320

abbrev pub max_password_len : ℕ
max_password_len = 1024

-- The body for a user, of login and me.
abbrev pub user_body : ℕ → Text → Role → List (String × JsonValue)
user_body id email r = ("user_id", number id) ∷ ("email", text email) ∷ ("role", role r) ∷ []

abbrev pub invalid_credentials : Response
invalid_credentials = write_error 401 "invalid_credentials" "email or password incorrect"

module _ (env : Env) (cookies : SessionCookieConfig) (rand : Randomness) where
  -- login behind Sessions.Create
  unfoldable pub login_created :
      User → Text → Text → Result (Unit {0}) × Database → Response × Database
  unfolding new_session new_csrf
  login_created user sid csrf (err e, d) = (write_error 500 "internal" "session create failed", d)
  login_created user sid csrf (ok _, d) = (
    with_cookies (new_session cookies env.app_now sid ∷ new_csrf cookies env.app_now csrf ∷ [])
        (write_json 200 (user_body user.id user.email user.role)),
    d,
  )

  -- login behind VerifyPassword
  unfoldable pub login_verified :
      Request → User → Option Text → Option Text → Database → Response × Database
  unfolding login_created
  login_verified r user none csrf d = (write_error 500 "internal" "session create failed", d)
  login_verified r user (some sid) none d = (write_error 500 "internal" "csrf create failed", d)
  login_verified r user (some sid) (some csrf) d =
      login_created user sid csrf
        (session_create env d sid user.id session_access_ttl r.user_agent r.client_ip)

  module _ (verify : Text → Text → Bool) where
    -- login behind Users.ByEmail
    unfoldable pub login_found : Request → Text → Result User × Database → Response × Database
    unfolding login_verified
    login_found r password (err not_found, d) = (invalid_credentials, d)
    login_found r password (err failed, d) = (write_error 500 "internal" "lookup failed", d)
    login_found r password (ok user, d) =
        if verify password user.password_hash
        then login_verified r user rand.session_id rand.csrf_token d
        else (invalid_credentials, d)

    unfoldable pub login_with : Request → Text → Text → Database → Response × Database
    unfolding login_found
    login_with r email password d =
        if email == [] || password == []
        then (write_error 400 "bad_request" "email and password required", d)
        else if ltb max_email_len (length email) || ltb max_password_len (length password)
        then (write_error 400 "bad_request" "email or password exceeds length limit", d)
        else login_found r password (by_email env d email)

    unfoldable pub login_decoded :
        Unicode → Request → Decoded LoginReq → Database → Response × Database
    unfolding login_with
    login_decoded u r body_too_large d =
        (write_error 413 "body_too_large" "login body exceeds size limit", d)
    login_decoded u r bad_json d = (write_error 400 "bad_request" "invalid JSON body", d)
    login_decoded u r (decoded req) d =
        login_with r (trim_space u (to_lower u req.email)) req.password d

    -- login
    unfoldable pub login : Unicode → (ℕ → Text → Decoded LoginReq) → Handler Database
    unfolding login_decoded
    login u decode r d = login_decoded u r (decode login_max_body r.body) d

  -- writeRefreshFailure
  unfoldable pub write_refresh_failure : Response
  unfolding new_clearing new_clearing_csrf
  write_refresh_failure =
      with_cookies (new_clearing cookies session_cookie_name ∷ new_clearing_csrf cookies ∷ [])
        (write_error 401 "unauthorized" "no session")

  -- refresh behind Rotate
  unfoldable pub refresh_rotated :
      Text → Option Text → Result Session × Database → Response × Database
  unfolding write_refresh_failure new_session new_csrf
  refresh_rotated new_id csrf (err not_found, d) = (write_refresh_failure, d)
  refresh_rotated new_id csrf (err failed, d) =
      (write_error 500 "internal" "session refresh failed", d)
  refresh_rotated new_id none (ok s, d) = (write_error 500 "internal" "csrf create failed", d)
  refresh_rotated new_id (some csrf) (ok s, d) = (
    with_cookies (new_session cookies env.app_now new_id ∷ new_csrf cookies env.app_now csrf ∷ [])
        (write_status 204),
    d,
  )

  unfoldable pub refresh_with : Text → Option Text → Database → Response × Database
  unfolding refresh_rotated
  refresh_with old_id none d = (write_error 500 "internal" "session create failed", d)
  refresh_with old_id (some new_id) d =
      refresh_rotated new_id rand.csrf_token
        (rotate env d old_id new_id session_access_ttl session_refresh_window)

  -- refresh
  unfoldable pub refresh : Handler Database
  unfolding refresh_with write_refresh_failure cookie_value
  refresh r d =
      if cookie_value r session_cookie_name == []
      then (write_refresh_failure, d)
      else refresh_with (cookie_value r session_cookie_name) rand.session_id d

-- logout
unfoldable pub logout : Env → SessionCookieConfig → Handler Database
unfolding cookie_value new_clearing new_clearing_csrf
logout env cookies r d =
    let res =
      with_cookies (new_clearing cookies session_cookie_name ∷ new_clearing_csrf cookies ∷ [])
        (write_status 204) in
    if cookie_value r session_cookie_name == []
    then (res, d)
    else (res, (session_delete env d (cookie_value r session_cookie_name)).1)

unfoldable pub me_of : Option Principal → Response
me_of none = write_error 401 "unauthorized" "no session"
me_of (some p) = write_json 200 (user_body p.user_id p.email p.role)

-- me
unfoldable pub me : {S : Type 0} → Handler S
unfolding me_of
me r w = (me_of r.principal, w)
