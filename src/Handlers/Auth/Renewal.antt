-- ===== src/Handlers/Auth/Renewal.antt =====
-- What a refresh does to the session of its cookie.
use rdoc_cam_hub.Common.{
  Text, Option, none, some, [], ◌∷◌, ◌==◌, text_eq, ◌≡◌, ◌≢◌, inl, inr, refl, sym, ap, ◌∙◌, arith,
  Bool-cases,
}
use rdoc_cam_hub.Http.{
  Request, Response, cookie_value, session_cookie_name, session_access_ttl, session_refresh_window,
  SessionCookieConfig, new_session, new_csrf,
}
use rdoc_cam_hub.Store.{Session, Database, Env, Result, ok, err, not_found, failed}
use rdoc_cam_hub.Store.Sessions.{rotate}
use rdoc_cam_hub.Store.Sessions.Rotation.{rotate_error_keeps}
use rdoc_cam_hub.Handlers.Auth.{
  Randomness, refresh_rotated, refresh_with, refresh, write_refresh_failure,
}

-- The outcomes of a refresh of the session with an id.
pub data Renewal (env : Env) (cookies : SessionCookieConfig) (rand : Randomness) (old_id : Text)
    (d : Database) (out : Response × Database) : Type 0 where
  not_renewed :
      out.0.status ≢ 204 → out.1.sessions ≡ d.sessions → Renewal env cookies rand old_id d out
  lost : rand.csrf_token ≡ none → out.0.status ≡ 500 → Renewal env cookies rand old_id d out
  renewal :
      (new_id csrf : Text) (s : Session)
      → rand.session_id ≡ some new_id
      → rand.csrf_token ≡ some csrf
      → (rotate env d old_id new_id session_access_ttl session_refresh_window).0 ≡ ok s
      → out.0.status ≡ 204
      → out.0.cookies
        ≡ new_session cookies env.app_now new_id ∷ new_csrf cookies env.app_now csrf ∷ []
      → out.1 ≡ (rotate env d old_id new_id session_access_ttl session_refresh_window).1
      → Renewal env cookies rand old_id d out

module _ (env : Env) (cookies : SessionCookieConfig) (rand : Randomness) (old_id : Text)
    (d : Database) where
  rotated-Renewal :
      (new_id : Text) (csrf : Option Text) (out : Result Session × Database)
      → rand.session_id ≡ some new_id
      → rand.csrf_token ≡ csrf
      → rotate env d old_id new_id session_access_ttl session_refresh_window ≡ out
      → Renewal env cookies rand old_id d (refresh_rotated env cookies rand new_id csrf out)
  unfolding refresh_rotated write_refresh_failure
  rotated-Renewal new_id csrf (err not_found, d') e f g =
      not_renewed (λ h. ground arith)
        (ap (λ x. x.1.sessions) (sym g)
          ∙ rotate_error_keeps env d old_id new_id session_access_ttl session_refresh_window
              not_found (ap (λ x. x.0) g))
  rotated-Renewal new_id csrf (err failed, d') e f g =
      not_renewed (λ h. ground arith)
        (ap (λ x. x.1.sessions) (sym g)
          ∙ rotate_error_keeps env d old_id new_id session_access_ttl session_refresh_window failed
              (ap (λ x. x.0) g))
  rotated-Renewal new_id none (ok s, d') e f g = lost f refl
  rotated-Renewal new_id (some csrf) (ok s, d') e f g =
      renewal new_id csrf s e f (ap (λ x. x.0) g) refl refl (ap (λ x. x.1) (sym g))

  with-Renewal :
      (new_id : Option Text)
      → rand.session_id ≡ new_id
      → Renewal env cookies rand old_id d (refresh_with env cookies rand old_id new_id d)
  unfolding refresh_with
  with-Renewal none e = not_renewed (λ h. ground arith) refl
  with-Renewal (some new_id) e = rotated-Renewal new_id rand.csrf_token _ e refl refl

-- A refresh is answered 204 only with a rotation of the session of its cookie to the id that the
-- new cookie carries. Any other answer leaves the sessions as they are, but for the 500 of a
-- refresh that gets no CSRF token.
pub refresh-Renewal :
    (env : Env) (cookies : SessionCookieConfig) (rand : Randomness) (r : Request) (d : Database)
    → Renewal env cookies rand (cookie_value r session_cookie_name) d (refresh env cookies rand r d)
unfolding refresh write_refresh_failure
refresh-Renewal env cookies rand r d =
    elim (Bool-cases (cookie_value r session_cookie_name == [])) [
      | inl empty ↦ rw empty (not_renewed (λ h. ground arith) refl)
      | inr given ↦ rw given (
          with-Renewal env cookies rand (cookie_value r session_cookie_name) d rand.session_id refl)
    ]
