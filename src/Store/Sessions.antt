-- ===== src/Store/Sessions.antt =====
-- internal/db/sessions.go
pub mod Lifetime
pub mod Rotation
mod Examples
use rdoc_cam_hub.Common.{
  ℕ, ◌+◌, Text, Bool, true, Option, none, some, List, ◌∷◌, ◌++◌, [], ◌==◌, ◌&&◌, ◌||◌, not,
  if◌then◌else◌, any, find, text_eq, ltb, delete_where, update_where, count_where, nat_eq,
}
use rdoc_cam_hub.Netip.{Addr}
use rdoc_cam_hub.Store.{
  Role, User, Session, Database, Env, Result, ok, err, failed, not_found, query, row_or_not_found,
  commit,
}

abbrev pub has_id : Text → Session → Bool
has_id id s = s.id == id

-- The primary key is taken, or the user is unknown.
unfoldable pub session_refused : Database → Text → ℕ → Bool
unfolding any
session_refused d id user_id =
    any (has_id id) d.sessions || not (any (λ (u : User). u.id == user_id) d.users)

-- SessionStore.Create; sessions.id is the primary key and user_id references users. A user agent or an
-- address that the columns do not take is a statement that the database does not carry out.
unfoldable pub session_create :
    Env → Database → Text → ℕ → ℕ → Text → Addr → Result (Unit {0}) × Database
unfolding query session_refused
session_create env d id user_id ttl ua ip = query env d λ d.
    let row : Session = record {
      id = id;
      user_id = user_id;
      created_at = env.db_now;
      expires_at = env.app_now + ttl;
      refreshed_at = env.db_now;
      user_agent = ua;
      ip = ip;
    } in
    if session_refused d id user_id
    then (err failed, d)
    else (ok tt, record d { sessions = d.sessions ++ row ∷ [] })

-- The session joined with its user.
pub record SessionWithUser : Type 0 where
  pub session : Session
  pub user_email : Text
  pub user_role : Role

unfoldable pub join_user : List User → Session → Option SessionWithUser
unfolding find
join_user users s = elim (find (λ (u : User). u.id == s.user_id) users) [
  | none ↦ none
  | some u ↦ some (record { session = s; user_email = u.email; user_role = u.role })
]

unfoldable pub join_active : List User → Option Session → Option SessionWithUser
unfolding join_user
join_active users none = none
join_active users (some s) = join_user users s

-- SessionStore.GetActiveWithUser
unfoldable pub get_active_with_user : Env → Database → Text → Result SessionWithUser × Database
unfolding query row_or_not_found find join_active
get_active_with_user env d id = query env d λ d. (
  row_or_not_found (
      join_active d.users
        (find (λ (s : Session). s.id == id && ltb env.db_now s.expires_at) d.sessions)),
  d,
)

-- SessionStore.Get
unfoldable pub session_get : Env → Database → Text → Result Session × Database
unfolding query row_or_not_found find
session_get env d id = query env d λ d. (row_or_not_found (find (has_id id) d.sessions), d)

-- SessionStore.Delete
unfoldable pub session_delete : Env → Database → Text → Result (Unit {0}) × Database
unfolding query delete_where
session_delete env d id =
    query env d λ d. (ok tt, record d { sessions = delete_where (has_id id) d.sessions })

abbrev pub is_expired : ℕ → Session → Bool
is_expired now s = ltb s.expires_at now

-- SessionStore.PurgeExpired
unfoldable pub purge_expired : Env → Database → Result ℕ × Database
unfolding query delete_where count_where
purge_expired env d = query env d λ d. (
  ok (count_where (is_expired env.db_now) d.sessions),
  record d { sessions = delete_where (is_expired env.db_now) d.sessions },
)

-- The columns that Rotate sets.
abbrev pub renewed : Env → Text → ℕ → Session → Session
renewed env new_id access_ttl s = record s {
  id = new_id;
  refreshed_at = env.app_now;
  expires_at = env.app_now + access_ttl;
}

-- The UPDATE violates the primary key if the new id is another row's.
unfoldable pub id_clash : Database → Text → Text → Bool
unfolding any
id_clash d old_id new_id = any (has_id new_id) d.sessions && not (old_id == new_id)

-- The UPDATE of Rotate.
unfoldable pub rotate_update :
    Env → Database → Text → Text → ℕ → Session → Result Session × Database
unfolding query id_clash update_where
rotate_update env d old_id new_id access_ttl s = query env d λ d.
    if id_clash d old_id new_id then (err failed, d) else (
      ok (renewed env new_id access_ttl s),
      record d {
        sessions = update_where (has_id old_id) (renewed env new_id access_ttl) d.sessions;
      },
    )

-- The hard cap, between the SELECT … FOR UPDATE and the UPDATE.
unfoldable pub rotate_found :
    Env → Database → Text → Text → ℕ → ℕ → Result Session → Result Session × Database
rotate_found env d old_id new_id access_ttl refresh_window (err e) = (err e, d)
rotate_found env d old_id new_id access_ttl refresh_window (ok s) =
    if ltb (s.created_at + refresh_window) env.app_now
    then (err not_found, d)
    else commit env d (rotate_update env d old_id new_id access_ttl s)

-- BEGIN
unfoldable pub begin : Env → Database → Result (Unit {0}) × Database
unfolding query
begin env d = query env d λ d. (ok tt, d)

-- What follows a BEGIN: the SELECT … FOR UPDATE, the cap, the UPDATE and the COMMIT.
unfoldable pub rotate_begun :
    Env → Database → Text → Text → ℕ → ℕ → Result (Unit {0}) → Result Session × Database
rotate_begun env d old_id new_id access_ttl refresh_window (err e) = (err e, d)
rotate_begun env d old_id new_id access_ttl refresh_window (ok _) =
    let (found, d) = session_get env d old_id in
    rotate_found env d old_id new_id access_ttl refresh_window found

-- SessionStore.Rotate
unfoldable pub rotate : Env → Database → Text → Text → ℕ → ℕ → Result Session × Database
rotate env d old_id new_id access_ttl refresh_window =
    let (began, d) = begin env d in rotate_begun env d old_id new_id access_ttl refresh_window began
