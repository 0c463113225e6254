-- ===== src/Handlers/Auth/Examples.antt =====
-- Sign-in, refresh and sign-out at concrete requests.
use rdoc_cam_hub.Store.{commit}
use rdoc_cam_hub.Store.Sessions.{rotate_update}
use rdoc_cam_hub.Store.Sessions.{session_get}
use rdoc_cam_hub.Store.Sessions.{rotate_found}
use rdoc_cam_hub.Store.Sessions.{begin}
use rdoc_cam_hub.Store.Sessions.{rotate_begun}
use rdoc_cam_hub.Store.Sessions.{rotate}
use rdoc_cam_hub.Store.Sessions.{session_create}
use rdoc_cam_hub.Store.Users.{by_email}
use rdoc_cam_hub.Common.{to_lower}
use rdoc_cam_hub.Common.{trim_space}
use rdoc_cam_hub.Common.{text_beq}
use rdoc_cam_hub.Common.{
  ℕ, ◌≡◌, ◌==◌, text_eq, refl, none, some, Text, bytes, Bool, true, [], ◌∷◌, find, arith, Unicode,
}
use rdoc_cam_hub.Common.Int.{pos}
use rdoc_cam_hub.Netip.{invalid}
use rdoc_cam_hub.Http.{lookup, Request, SessionCookieConfig, session_cookie_name, cookie_value}
use rdoc_cam_hub.Store.{User, admin, Session, Database, Env}
use rdoc_cam_hub.Store.Sessions.{has_id}
use rdoc_cam_hub.Handlers.{Decoded, decoded}
use rdoc_cam_hub.Handlers.Auth.{LoginReq, Randomness, login, logout, refresh}
use rdoc_cam_hub.Handlers.Auth.Outcome.{SignIn, email_of, login-SignIn, logout_ends}
use rdoc_cam_hub.Handlers.Auth.Renewal.{Renewal, refresh-Renewal}

abbrev plain : Unicode
plain = record { lower = λ s. s; trim = λ s. s }

abbrev alice : User
alice = record {
  id = 7;
  email = bytes "a@example.org";
  password_hash = bytes "secret";
  role = admin;
  created_at = 1;
}

abbrev session : Session
session = record {
  id = bytes "s1";
  user_id = 7;
  created_at = 100;
  expires_at = 115;
  refreshed_at = 100;
  user_agent = [];
  ip = invalid;
}

abbrev db : Database
db = record {
  users = alice ∷ [];
  sessions = session ∷ [];
  tokens = [];
  devices = [];
  dns_records = [];
  user_serial = 8;
  token_serial = 1;
  dns_serial = 1;
  statements = 0;
}

abbrev env : Env
env = record { app_now = 110; db_now = 110; db_up = λ n. true }

abbrev request : Request
request = record {
  method = bytes "POST";
  path = [];
  host = [];
  remote_addr = [];
  user_agent = [];
  content_length = pos 0;
  headers = [];
  cookies = (bytes "camhub_session", bytes "s1") ∷ [];
  body = [];
  client_ip = invalid;
  principal = none;
}

abbrev cookies : SessionCookieConfig
cookies = record { secure = true; domain = [] }

abbrev random : Randomness
random = record { session_id = some (bytes "s2"); csrf_token = some (bytes "c2") }

abbrev credentials : LoginReq
credentials = record { email = bytes " A@Example.org"; password = bytes "secret" }

abbrev decode : ℕ → Text → Decoded LoginReq
decode n body = decoded credentials

abbrev equals : Text → Text → Bool
equals p h = p == h

login_test : (login env cookies random equals plain decode request db).0.status ≡ 200
unfolding login text_beq trim_space to_lower by_email session_create
login_test = refl

login-SignIn_example :
    SignIn env cookies equals
      (email_of plain credentials)
      (bytes "secret")
      db
      (login env cookies random equals plain decode request db)
login-SignIn_example =
    login-SignIn env cookies random equals plain decode request credentials db refl

logout_ends_example : find (has_id (bytes "s1")) (logout env cookies request db).1.sessions ≡ none
unfolding cookie_value lookup text_beq
logout_ends_example = logout_ends env cookies request db (λ e. ground arith) refl

refresh_test : (refresh env cookies random request db).0.status ≡ 204
unfolding refresh text_beq rotate rotate_begun begin rotate_found session_get commit rotate_update
refresh_test = refl

refresh-Renewal_example :
    Renewal env cookies random
      (cookie_value request session_cookie_name)
      db
      (refresh env cookies random request db)
refresh-Renewal_example = refresh-Renewal env cookies random request db
