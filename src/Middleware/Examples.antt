-- ===== src/Middleware/Examples.antt =====
-- The middlewares at concrete requests.
use rdoc_cam_hub.Http.{header_values}
use rdoc_cam_hub.Store.Sessions.{get_active_with_user}
use rdoc_cam_hub.Middleware.Authz.{with_session}
use rdoc_cam_hub.Http.{cookie_value}
use rdoc_cam_hub.Http.{header_get}
use rdoc_cam_hub.Common.{text_beq}
use rdoc_cam_hub.Common.{
  text_beq, ℕ, ◌+◌, ◌≡◌, ◌↔◌, inl, refl, none, some, Option, Text, bytes, true, List, [], ◌∷◌,
  arith, Unicode,
}
use rdoc_cam_hub.Common.Int.{pos}
use rdoc_cam_hub.Netip.{Addr, invalid, v4, Prefix}
use rdoc_cam_hub.Http.{
  lookup, header_get, cookie_value, Request, Handler, write_status, csrf_cookie_name,
  csrf_header_name,
}
use rdoc_cam_hub.Store.{admin, operator, viewer, Database, Env, Session, User}
use rdoc_cam_hub.Middleware.Csrf.{
  require_csrf, require_csrf_passes, require_csrf_stops, HasToken, is_safe_method, is_bearer_auth,
}
use rdoc_cam_hub.RateLimit.{new_ip_limiter, allow}
use rdoc_cam_hub.Middleware.LoginLimit.Runs.{counted, sign_ins}
use rdoc_cam_hub.Middleware.LoginLimit.{
  limiter_with, limiter_of, login_rate_limiter, RateLimitConfig,
}
use rdoc_cam_hub.Middleware.Authz.{
  require_session, require_role, SessionOutcome, require_session_outcome,
}
use rdoc_cam_hub.Middleware.TrustedIp.{walk_xff, hops_of, resolved, peer_addr}
use rdoc_cam_hub.Middleware.TrustedIp.Rightmost.{IsRightmost, walk_xff-IsRightmost, resolved-forged}

abbrev request : Request
request = record {
  method = bytes "POST";
  path = bytes "/v1/auth/logout";
  host = [];
  remote_addr = bytes "1:80";
  user_agent = [];
  content_length = pos 0;
  headers = (csrf_header_name, bytes "tok") ∷ (bytes "X-Forwarded-For", bytes "7, 1") ∷ [];
  cookies = (csrf_cookie_name, bytes "tok") ∷ (bytes "camhub_session", bytes "s1") ∷ [];
  body = [];
  client_ip = invalid;
  principal = none;
}

abbrev accepts : Handler ℕ
accepts r w = (write_status 204, w + 1)

abbrev no_url : Text → Option (Text × Text)
no_url s = none

has_token : HasToken no_url [] request
unfolding header_get cookie_value lookup text_beq
has_token = record { origin = inl refl; cookie = λ e. ground arith; echoed = refl }

require_csrf_passes_example : require_csrf no_url [] accepts request 5 ≡ accepts request 5
unfolding is_safe_method is_bearer_auth text_beq
require_csrf_passes_example = require_csrf_passes no_url [] request accepts 5 refl refl has_token

-- The same request, from another site that cannot read the cookie.
abbrev forged : Request
forged = record request { headers = [] }

forged_lacks_token : ¬ HasToken no_url [] forged
unfolding header_get cookie_value
forged_lacks_token t = let echoed = t.echoed in ground arith

require_csrf_stops_example :
    ((require_csrf no_url [] accepts forged 5).0.status ≡ 403)
    × ((require_csrf no_url [] accepts forged 5).1 ≡ 5)
unfolding is_safe_method is_bearer_auth text_beq
require_csrf_stops_example =
    require_csrf_stops no_url [] forged accepts 5 refl refl forged_lacks_token

abbrev alice : User
alice = record {
  id = 7;
  email = bytes "a@example.org";
  password_hash = [];
  role = viewer;
  created_at = 1;
}

abbrev session : Session
session = record {
  id = bytes "s1";
  user_id = 7;
  created_at = 100;
  expires_at = 115;
  refreshed_at = 100;
  user_agent = [];
  ip = invalid;
}

abbrev db : Database
db = record {
  users = alice ∷ [];
  sessions = session ∷ [];
  tokens = [];
  devices = [];
  dns_records = [];
  user_serial = 8;
  token_serial = 1;
  dns_serial = 1;
  statements = 0;
}

abbrev env : Env
env = record { app_now = 110; db_now = 110; db_up = λ n. true }

abbrev counts : Handler Database
counts r d = (write_status 204, record d { user_serial = d.user_serial + 1 })

session_test : (require_session env counts request db).0.status ≡ 204
unfolding require_session text_beq cookie_value with_session get_active_with_user
session_test = refl

require_session_outcome_example :
    SessionOutcome env counts request db (require_session env counts request db)
require_session_outcome_example = require_session_outcome env counts request db

abbrev signed_in : Request
signed_in = record request {
  principal = some (record {
    user_id = 7;
    email = bytes "a@example.org";
    role = viewer;
    session_id = bytes "s1";
  });
}

role_test : (require_role (admin ∷ operator ∷ []) accepts signed_in 5).0.status ≡ 403
unfolding require_role
role_test = refl

abbrev plain : Unicode
plain = record { lower = λ s. s; trim = λ s. s }

-- Addresses that are written with one digit.
abbrev parse : Text → Addr
parse [] = invalid
parse (c ∷ []) = v4 c
parse (c ∷ d ∷ s) = invalid

-- The proxy has the address that is written "1".
abbrev proxies : List Prefix
proxies = record { addr = v4 0x31; bits = 32 } ∷ []

abbrev forwarded : List Text
forwarded = bytes "9" ∷ bytes "7, 1" ∷ []

walk_test : walk_xff plain parse proxies forwarded ≡ some (v4 0x37)
unfolding walk_xff text_beq
walk_test = refl

walk_xff-IsRightmost_example :
    (walk_xff plain parse proxies forwarded ≡ some (v4 0x37))
    ↔ IsRightmost plain parse proxies (hops_of plain forwarded) (v4 0x37)
walk_xff-IsRightmost_example = walk_xff-IsRightmost plain parse proxies forwarded (v4 0x37)

abbrev from_outside : Request
from_outside = record request { remote_addr = bytes "5:80" }

resolved-forged_example :
    resolved plain parse proxies
      (record request { headers = (bytes "X-Forwarded-For", bytes "9") ∷ request.headers })
    ≡ v4 0x37
unfolding walk_xff header_values text_beq peer_addr
resolved-forged_example =
    resolved-forged plain parse proxies accepts request 5
      ((bytes "X-Forwarded-For", bytes "9") ∷ []) (v4 0x37) refl refl

disabled_test : limiter_of (record { per_ip = pos 0; window_secs = pos 60 }) 100 ≡ none
unfolding limiter_of limiter_with
disabled_test = refl

abbrev from_client : Request
from_client = record request { client_ip = v4 7 }

abbrev logins : List (Request × ℕ)
logins = (from_client, 100) ∷ (request, 101) ∷ (from_client, 102) ∷ (from_client, 103) ∷ []

-- Two a minute.
abbrev limits : RateLimitConfig
limits = record { per_ip = pos 2; window_secs = pos 60 }

sign_ins_test :
    (sign_ins (counted (v4 7) accepts) (new_ip_limiter 2 60000000000 100, (0, 5)) logins).1.0 ≡ 2
unfolding sign_ins counted login_rate_limiter new_ip_limiter allow
sign_ins_test = refl
