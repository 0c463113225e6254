-- ===== src/Store/Sessions/Examples.antt =====
-- Sessions at concrete tables.
use rdoc_cam_hub.Common.{text_beq}
use rdoc_cam_hub.Common.{
  ℕ, ◌+◌, ◌<◌, ◌≡◌, ◌≢◌, refl, none, some, bytes, true, List, [], ◌∷◌, arith, find, ltb,
}
use rdoc_cam_hub.Netip.{invalid}
use rdoc_cam_hub.Store.{User, Session, Database, Env, ok, admin, failed}
use rdoc_cam_hub.Store.Sessions.{
  SessionWithUser, has_id, rotate, get_active_with_user, purge_expired, rotate_begun, rotate_found,
  rotate_update, begin, session_get, commit,
}
use rdoc_cam_hub.Store.Sessions.Lifetime.{
  Call, rotates, purges, IsValid, run, step, active_is_recent,
}
use rdoc_cam_hub.Store.Sessions.Rotation.{rotate_error_keeps, rotate_swaps, purge_blocks_refresh}

abbrev alice : User
alice = record {
  id = 7;
  email = bytes "alice@example.org";
  password_hash = [];
  role = admin;
  created_at = 1;
}

abbrev session : Session
session = record {
  id = bytes "s1";
  user_id = 7;
  created_at = 100;
  expires_at = 115;
  refreshed_at = 100;
  user_agent = [];
  ip = invalid;
}

abbrev db : Database
db = record {
  users = alice ∷ [];
  sessions = session ∷ [];
  tokens = [];
  devices = [];
  dns_records = [];
  user_serial = 8;
  token_serial = 1;
  dns_serial = 1;
  statements = 0;
}

abbrev env_at : ℕ → Env
env_at t = record { app_now = t; db_now = t; db_up = λ n. true }

-- The database answers the first two statements only.
abbrev failing : Env
failing = record { app_now = 110; db_now = 110; db_up = λ n. ltb n 2 }

db-IsValid : IsValid 15 50 db
db-IsValid = record { distinct = (tt, tt); capped = (omega arith, tt) }

abbrev calls : List (Env × Call)
calls = (env_at 112, rotates (bytes "s1") (bytes "s2")) ∷ (env_at 120, purges) ∷ []

abbrev renewed_session : Session
renewed_session = record session { id = bytes "s2"; expires_at = 127; refreshed_at = 112 }

abbrev active : SessionWithUser
active = record {
  session = renewed_session;
  user_email = bytes "alice@example.org";
  user_role = admin;
}

active_is_recent_example : 121 < 100 + 50 + 15
unfolding run get_active_with_user rotate purge_expired step rotate_begun begin rotate_found
    session_get text_beq commit rotate_update
active_is_recent_example =
    active_is_recent 15 50 db calls (env_at 121) (bytes "s2") active db-IsValid
      (omega arith, (omega arith, tt)) refl

rotate_error_keeps_example :
    (rotate failing db (bytes "s1") (bytes "s2") 15 50).1.sessions ≡ session ∷ []
unfolding rotate rotate_begun begin rotate_found session_get text_beq commit rotate_update
rotate_error_keeps_example =
    rotate_error_keeps failing db (bytes "s1") (bytes "s2") 15 50 failed refl

rotate_swaps_example :
    let after = (rotate (env_at 112) db (bytes "s1") (bytes "s2") 15 50).1.sessions in
    (find (has_id (bytes "s1")) after ≡ none)
    × (find (has_id (bytes "s2")) after ≡ some renewed_session)
    × ((s : Session) × (find (has_id (bytes "s1")) db.sessions ≡ some s)
        × (renewed_session.user_id ≡ s.user_id)
        × (renewed_session.created_at ≡ s.created_at)
        × (renewed_session.expires_at ≡ 112 + 15))
unfolding rotate rotate_begun begin rotate_found session_get text_beq commit rotate_update
rotate_swaps_example =
    rotate_swaps (env_at 112) db (bytes "s1") (bytes "s2") 15 50 renewed_session (λ e. ground arith)
      refl

purge_blocks_refresh_example :
    (rotate (env_at 121) (purge_expired (env_at 120) db).1 (bytes "s1") (bytes "s2") 15 50).0
    ≢ ok renewed_session
unfolding purge_expired find text_beq
purge_blocks_refresh_example =
    purge_blocks_refresh (env_at 120) (env_at 121) db (bytes "s1") (bytes "s2") 15 50 session
      renewed_session 1 (tt, tt) refl (omega arith) refl
