-- ===== src/Middleware/Authz.antt =====
-- internal/httpapi/middleware_auth.go: the session cookie and the role.
use rdoc_cam_hub.Common.{
  Text, Bool, true, false, List, [], ◌∷◌, ◌==◌, text_eq, any, if◌then◌else◌, ◌≡◌, ◌⊎◌, ◌<◌, ◌+◌,
  refl, arith, Option, none, some, find, In, Bool-cases, Option-cases, inl, inr, ltb, nat_eq, sym,
  ap, ◌∙◌, find-test, ◌&&◌,
}
use rdoc_cam_hub.Http.{
  Request, Response, Handler, Principal, cookie_value, write_error, session_cookie_name,
}
use rdoc_cam_hub.Store.{
  Role, role_eq, role_beq_iff, Database, Env, Result, ok, err, not_found, failed, Session, User,
}
use rdoc_cam_hub.Store.Sessions.{SessionWithUser, get_active_with_user}

abbrev pub principal_of : SessionWithUser → Principal
principal_of swu = record {
  user_id = swu.session.user_id;
  email = swu.user_email;
  role = swu.user_role;
  session_id = swu.session.id;
}

abbrev pub no_session : Response
no_session = write_error 401 "unauthorized" "no session"

unfoldable pub with_session :
    Handler Database → Request → Result SessionWithUser × Database → Response × Database
with_session next r (err not_found, d) = (no_session, d)
with_session next r (err failed, d) = (write_error 500 "internal" "session lookup failed", d)
with_session next r (ok swu, d) = next (record r { principal = some (principal_of swu) }) d

-- RequireSession
unfoldable pub require_session : Env → Handler Database → Handler Database
require_session env next r d =
    if cookie_value r session_cookie_name == []
    then (no_session, d)
    else with_session next r (get_active_with_user env d (cookie_value r session_cookie_name))

unfoldable pub with_role :
    {S : Type 0} → List Role → Handler S → Request → S → Option Principal → Response × S
unfolding any
with_role roles next r w none = (no_session, w)
with_role roles next r w (some p) =
    if any (λ role. role == p.role) roles
    then next r w
    else (write_error 403 "forbidden" "insufficient role", w)

-- RequireRole
unfoldable pub require_role : {S : Type 0} → List Role → Handler S → Handler S
unfolding with_role
require_role roles next r w = with_role roles next r w r.principal

-- The principal that a request's cookie stands for: a live session of a user of the table.
pub record IsPrincipal (env : Env) (d : Database) (id : Text) (p : Principal) : Type 0 where
  pub session : Session
  pub user : User
  pub stored :
      find (λ (s : Session). s.id == id && ltb env.db_now s.expires_at) d.sessions ≡ some session
  pub live : env.db_now < session.expires_at
  pub owner : find (λ (u : User). u.id == session.user_id) d.users ≡ some user
  pub as_user : p ≡ record {
    user_id = session.user_id;
    email = user.email;
    role = user.role;
    session_id = session.id;
  }

abbrev live_with_id : Env → Text → Session → Bool
live_with_id env id s = s.id == id && ltb env.db_now s.expires_at

abbrev owner_of : Session → User → Bool
owner_of s u = u.id == s.user_id

module _ (env : Env) (d : Database) (id : Text) where
  found-IsPrincipal :
      (swu : SessionWithUser)
      → (get_active_with_user env d id).0 ≡ ok swu
      → IsPrincipal env d id (principal_of swu)
  unfolding get_active_with_user
  found-IsPrincipal swu e = elim (Option-cases (find (live_with_id env id) d.sessions)) [
    | inl absent ↦ absurd (ground arith)
    | inr (s, stored) ↦ elim (Option-cases (find (owner_of s) d.users)) [
      | inl absent ↦ absurd (ground arith)
      | inr (u, owner) ↦ record {
        session = s;
        user = u;
        stored = stored;
        live = live_of_test s (find-test (live_with_id env id) d.sessions s stored);
        owner = owner;
        as_user = ground arith;
      }
    ]
  ]
    where
      live_of_test : (s : Session) → live_with_id env id s ≡ true → env.db_now < s.expires_at
      live_of_test s h = ground arith

  -- A lookup reads the tables and changes none.
  lookup_keeps : (get_active_with_user env d id).1 ≡ record d { statements = d.statements + 1 }
  unfolding get_active_with_user
  lookup_keeps = ground arith

-- The outcomes of RequireSession: a refusal that changes no table, or the next handler with the
-- principal of a live session, whose user and role are those of the tables now.
pub data SessionOutcome (env : Env) (next : Handler Database) (r : Request) (d : Database)
    (out : Response × Database) : Type 0 where
  refused :
      (out.0.status ≡ 401) ⊎ (out.0.status ≡ 500)
      → out.1.sessions ≡ d.sessions
      → out.1.users ≡ d.users
      → SessionOutcome env next r d out
  entered :
      (p : Principal)
      → IsPrincipal env d (cookie_value r session_cookie_name) p
      → out ≡ next (record r { principal = some p }) (record d { statements = d.statements + 1 })
      → SessionOutcome env next r d out

with_session-SessionOutcome :
    (env : Env) (next : Handler Database) (r : Request) (d : Database)
    (found : Result SessionWithUser × Database)
    → ((swu : SessionWithUser)
        → found.0 ≡ ok swu
        → IsPrincipal env d (cookie_value r session_cookie_name) (principal_of swu))
    → found.1 ≡ record d { statements = d.statements + 1 }
    → SessionOutcome env next r d (with_session next r found)
unfolding with_session
with_session-SessionOutcome env next r d (err not_found, d') sound e =
    refused (inl refl) (ap (λ (x : Database). x.sessions) e) (ap (λ (x : Database). x.users) e)
with_session-SessionOutcome env next r d (err failed, d') sound e =
    refused (inr refl) (ap (λ (x : Database). x.sessions) e) (ap (λ (x : Database). x.users) e)
with_session-SessionOutcome env next r d (ok swu, d') sound e =
    entered (principal_of swu) (sound swu refl)
      (ap (next (record r { principal = some (principal_of swu) })) e)

-- RequireSession either answers 401 or 500 and leaves users and sessions as they are, or runs the
-- next handler with the principal of a live session with the cookie's id, whose user and role are
-- those of the tables.
pub require_session_outcome :
    (env : Env) (next : Handler Database) (r : Request) (d : Database)
    → SessionOutcome env next r d (require_session env next r d)
unfolding require_session
require_session_outcome env next r d =
    elim (Bool-cases (cookie_value r session_cookie_name == [])) [
      | inl empty ↦ rw empty (refused (inl refl) refl refl)
      | inr given ↦ rw given (
          with_session-SessionOutcome env next r d _
            (found-IsPrincipal env d (cookie_value r session_cookie_name))
            (lookup_keeps env d (cookie_value r session_cookie_name)))
    ]

In-of_any_role :
    (role : Role) (roles : List Role) → any (λ x. x == role) roles ≡ true → In role roles
unfolding any
In-of_any_role role [] h = cc
In-of_any_role role (x ∷ rest) h = elim (Bool-cases (x == role)) [
  | inl hit ↦ inl ((role_beq_iff x role).0 hit)
  | inr miss ↦ inr (In-of_any_role role rest (rw miss at h))
]

-- The next handler runs exactly for a principal whose role is listed; any other request is answered
-- 401 or 403 and changes nothing.
pub data RoleOutcome {S : Type 0} (roles : List Role) (next : Handler S) (r : Request) (w : S)
    (out : Response × S) : Type 0 where
  no_principal :
      r.principal ≡ none → out.0.status ≡ 401 → out.1 ≡ w → RoleOutcome roles next r w out
  forbidden :
      (p : Principal)
      → r.principal ≡ some p
      → ¬ In p.role roles
      → out.0.status ≡ 403
      → out.1 ≡ w
      → RoleOutcome roles next r w out
  permitted :
      (p : Principal)
      → r.principal ≡ some p
      → In p.role roles
      → out ≡ next r w
      → RoleOutcome roles next r w out

any_role-of_In :
    (role : Role) (roles : List Role) → In role roles → any (λ x. x == role) roles ≡ true
unfolding any
any_role-of_In role [] h = absurd h
any_role-of_In role (x ∷ rest) (inl e) = ground (arith, role_beq_iff x role)
any_role-of_In role (x ∷ rest) (inr h) = ground (arith, any_role-of_In role rest h)

-- RequireRole runs the next handler exactly for a principal whose role is listed; without a
-- principal it answers 401, with another role 403, and then the state is unchanged.
pub require_role_outcome :
    {S : Type 0} (roles : List Role) (next : Handler S) (r : Request) (w : S)
    → RoleOutcome roles next r w (require_role roles next r w)
unfolding require_role with_role
require_role_outcome roles next r w = elim (Option-cases r.principal) [
  | inl e ↦ no_principal e (ground arith) (ground arith)
  | inr (p, e) ↦ elim (Bool-cases (any (λ x. x == p.role) roles)) [
    | inl hit ↦ permitted p e (In-of_any_role p.role roles hit) (ground arith)
    | inr miss ↦
        forbidden p e (λ listed. absurd (false_ne (sym miss ∙ any_role-of_In p.role roles listed)))
          (ground arith) (ground arith)
  ]
]
  where
    false_ne : ¬ (false ≡ true)
    false_ne e = cc
