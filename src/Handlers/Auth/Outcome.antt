-- ===== src/Handlers/Auth/Outcome.antt =====
-- What sign-in and sign-out do to the sessions.
use rdoc_cam_hub.Common.{
  ℕ, Text, Bool, true, ◌||◌, Option, none, some, List, [], ◌∷◌, ◌++◌, ◌==◌, text_eq, length, ltb,
  Unicode, to_lower, trim_space, ◌≡◌, ◌≢◌, inl, inr, refl, sym, ap, ◌∙◌, arith, Bool-cases, find,
  delete_where, text_beq_iff,
}
use rdoc_cam_hub.Http.{
  Request, Response, cookie_value, session_cookie_name, session_access_ttl, SessionCookieConfig,
  new_session, new_csrf,
}
use rdoc_cam_hub.Store.{User, Session, Database, Env, Result, ok, err, not_found, failed}
use rdoc_cam_hub.Store.Users.{by_email}
use rdoc_cam_hub.Store.Sessions.{has_id, session_create, session_delete, session_refused}
use rdoc_cam_hub.Handlers.{Decoded, decoded}
use rdoc_cam_hub.Handlers.Auth.{
  LoginReq, Randomness, login_max_body, login_created, login_verified, login_found, login_with,
  login_decoded, login, logout, max_email_len, max_password_len,
}

-- The outcomes of a sign-in with an email and a password.
pub data SignIn (env : Env) (cookies : SessionCookieConfig) (verify : Text → Text → Bool)
    (email password : Text) (d : Database) (out : Response × Database) : Type 0 where
  no_sign_in :
      out.0.status ≢ 200
      → out.0.cookies ≡ []
      → out.1.sessions ≡ d.sessions
      → SignIn env cookies verify email password d out
  sign_in :
      (user : User) (row : Session) (csrf : Text)
      → find (λ (u : User). u.email == email) d.users ≡ some user
      → verify password user.password_hash ≡ true
      → out.0.status ≡ 200
      → out.0.cookies
        ≡ new_session cookies env.app_now row.id ∷ new_csrf cookies env.app_now csrf ∷ []
      → out.1.sessions ≡ d.sessions ++ row ∷ []
      → row.user_id ≡ user.id
      → SignIn env cookies verify email password d out

-- What Sessions.Create does.
data Creation (env : Env) (d : Database) (id : Text) (user_id : ℕ)
    (out : Result (Unit {0}) × Database) : Type 0 where
  not_created :
      (e : _) → out.0 ≡ err e → out.1.sessions ≡ d.sessions → Creation env d id user_id out
  created :
      (row : Session)
      → out.0 ≡ ok tt
      → out.1.sessions ≡ d.sessions ++ row ∷ []
      → row.id ≡ id
      → row.user_id ≡ user_id
      → Creation env d id user_id out

Creation-session_create :
    (env : Env) (d : Database) (id : Text) (user_id ttl : ℕ) (ua : Text) (ip : _)
    → Creation env d id user_id (session_create env d id user_id ttl ua ip)
unfolding session_create
Creation-session_create env d id user_id ttl ua ip = elim (Bool-cases (env.db_up d.statements)) [
  | inr down ↦ rw down (not_created failed refl refl)
  | inl up ↦ elim (Bool-cases (session_refused d id user_id)) [
    | inl taken ↦ rw (up, taken) (not_created failed refl refl)
    | inr free ↦ rw (up, free) (created _ refl refl refl refl)
  ]
]

find-deleted :
    (id : Text) (rows : List Session) → find (has_id id) (delete_where (has_id id) rows) ≡ none
unfolding find delete_where
find-deleted id [] = refl
find-deleted id (s ∷ rows) = ground (arith, find-deleted id rows)

module _ (env : Env) (cookies : SessionCookieConfig) (rand : Randomness)
    (verify : Text → Text → Bool) (r : Request) (email password : Text) (d : Database) where
  created-SignIn :
      (user : User) (sid csrf : Text) (out : Result (Unit {0}) × Database)
      → find (λ (u : User). u.email == email) d.users ≡ some user
      → verify password user.password_hash ≡ true
      → Creation env d sid user.id out
      → SignIn env cookies verify email password d
          (login_created env cookies rand user sid csrf out)
  unfolding login_created
  created-SignIn user sid csrf (err x, d') here right (not_created e broke kept) =
      no_sign_in (λ h. ground arith) refl kept
  created-SignIn user sid csrf (err x, d') here right (created row made added named owner) = cc
  created-SignIn user sid csrf (ok _, d') here right (not_created e broke kept) = cc
  created-SignIn user sid csrf (ok _, d') here right (created row made added named owner) =
      sign_in user row csrf here right refl
        (ap (λ x. new_session cookies env.app_now x ∷ new_csrf cookies env.app_now csrf ∷ [])
          (sym named))
        added owner

  -- A sign-in of the database that a lookup leaves is one of the database before it.
  SignIn-after_lookup :
      (d' : Database) (out : Response × Database)
      → d'.sessions ≡ d.sessions
      → d'.users ≡ d.users
      → SignIn env cookies verify email password d' out
      → SignIn env cookies verify email password d out
  SignIn-after_lookup d' out same users (no_sign_in bad bare kept) =
      no_sign_in bad bare (kept ∙ same)
  SignIn-after_lookup d' out same users (sign_in user row csrf here right status set added owner) =
      sign_in user row csrf (ap (find (λ (u : User). u.email == email)) (sym users) ∙ here) right
        status set (added ∙ ap (λ rows. rows ++ row ∷ []) same) owner

module _ (env : Env) (cookies : SessionCookieConfig) (rand : Randomness)
    (verify : Text → Text → Bool) (r : Request) (email password : Text) where
  verified-SignIn :
      (d : Database) (user : User) (sid csrf : Option Text)
      → find (λ (u : User). u.email == email) d.users ≡ some user
      → verify password user.password_hash ≡ true
      → SignIn env cookies verify email password d
          (login_verified env cookies rand r user sid csrf d)
  unfolding login_verified
  verified-SignIn d user none csrf here right = no_sign_in (λ h. ground arith) refl refl
  verified-SignIn d user (some sid) none here right = no_sign_in (λ h. ground arith) refl refl
  verified-SignIn d user (some sid) (some csrf) here right =
      created-SignIn env cookies rand verify r email password d user sid csrf _ here right
        (Creation-session_create env d sid user.id session_access_ttl r.user_agent r.client_ip)

  found-SignIn :
      (found : Result User × Database)
      → ((user : User)
          → found.0 ≡ ok user
          → find (λ (u : User). u.email == email) found.1.users ≡ some user)
      → SignIn env cookies verify email password found.1
          (login_found env cookies rand verify r password found)
  unfolding login_found
  found-SignIn (err not_found, d) sound = no_sign_in (λ h. ground arith) refl refl
  found-SignIn (err failed, d) sound = no_sign_in (λ h. ground arith) refl refl
  found-SignIn (ok user, d) sound = elim (Bool-cases (verify password user.password_hash)) [
    | inr wrong ↦ rw wrong (no_sign_in (λ h. ground arith) refl refl)
    | inl right ↦
        rw right (verified-SignIn d user rand.session_id rand.csrf_token (sound user refl) right)
  ]

  by_email_sound :
      (d : Database) (user : User)
      → (by_email env d email).0 ≡ ok user
      → find (λ (u : User). u.email == email) (by_email env d email).1.users ≡ some user
  unfolding by_email
  by_email_sound d user e = ground arith

  by_email_sessions : (d : Database) → (by_email env d email).1.sessions ≡ d.sessions
  unfolding by_email
  by_email_sessions d = ground arith

  by_email_users : (d : Database) → (by_email env d email).1.users ≡ d.users
  unfolding by_email
  by_email_users d = ground arith

  with-SignIn :
      (d : Database)
      → SignIn env cookies verify email password d
          (login_with env cookies rand verify r email password d)
  unfolding login_with
  with-SignIn d = elim (Bool-cases (email == [] || password == [])) [
    | inl empty ↦ rw empty (no_sign_in (λ h. ground arith) refl refl)
    | inr given ↦
        elim (Bool-cases
          (ltb max_email_len (length email) || ltb max_password_len (length password))) [
            | inl long ↦ rw (given, long) (no_sign_in (λ h. ground arith) refl refl)
            | inr short ↦
                rw (given, short)
                  (SignIn-after_lookup env cookies rand verify r email password d
                    (by_email env d email).1 _ (by_email_sessions d) (by_email_users d)
                    (found-SignIn (by_email env d email) (by_email_sound d)))
          ]
  ]

-- The credentials that a body gives, if it is one.
abbrev pub email_of : Unicode → LoginReq → Text
email_of u req = trim_space u (to_lower u req.email)

-- A sign-in with a well-formed body is answered 200 only for a stored user whose password
-- verifies: then one session of that user is added and the cookies carry its id. Any other answer
-- sets no cookie and leaves the sessions as they are.
pub login-SignIn :
    (env : Env) (cookies : SessionCookieConfig) (rand : Randomness) (verify : Text → Text → Bool)
    (u : Unicode) (decode : ℕ → Text → Decoded LoginReq) (r : Request) (req : LoginReq)
    (d : Database)
    → decode login_max_body r.body ≡ decoded req
    → SignIn env cookies verify
        (email_of u req)
        req.password
        d
        (login env cookies rand verify u decode r d)
unfolding login login_decoded
login-SignIn env cookies rand verify u decode r req d e =
    rw e (with-SignIn env cookies rand verify r (email_of u req) req.password d)

-- After a sign-out with a cookie that is not empty and a statement that the database carries out,
-- the id of the cookie names no session.
pub logout_ends :
    (env : Env) (cookies : SessionCookieConfig) (r : Request) (d : Database)
    → cookie_value r session_cookie_name ≢ []
    → env.db_up d.statements ≡ true
    → find (has_id (cookie_value r session_cookie_name)) (logout env cookies r d).1.sessions ≡ none
unfolding logout session_delete
logout_ends env cookies r d given up =
    elim (Bool-cases (cookie_value r session_cookie_name == [])) [
      | inl empty ↦ absurd (given ((text_beq_iff (cookie_value r session_cookie_name) []).0 empty))
      | inr id ↦ rw (id, up) (find-deleted (cookie_value r session_cookie_name) d.sessions)
    ]
