-- ===== src/Store/Tokens/Examples.antt =====
-- Enrollment tokens at a concrete table.
use rdoc_cam_hub.Store.Tokens.{revoke}
use rdoc_cam_hub.Store.Tokens.{token_create}
use rdoc_cam_hub.Common.{text_beq}
use rdoc_cam_hub.Common.{ℕ, ◌≤◌, ◌≡◌, refl, none, bytes, true, List, [], ◌∷◌}
use rdoc_cam_hub.Common.Int.{pos}
use rdoc_cam_hub.Store.{admin, EnrollmentToken, Database, Env}
use rdoc_cam_hub.Store.Tokens.{consume}
use rdoc_cam_hub.Store.Tokens.History.{Call, creates, consumes, revokes, enrolments, step, wins}
use rdoc_cam_hub.Store.Tokens.Single.{enrolments-le-one}

abbrev token : EnrollmentToken
token = record {
  id = 1;
  hash = bytes "h1";
  created_by = 7;
  created_at = 100;
  expires_at = 200;
  consumed_at = none;
  consumed_by_device_id = none;
  note = [];
}

abbrev db : Database
db = record {
  users =
      (record { id = 7; email = bytes "a@b"; password_hash = []; role = admin; created_at = 1 })
      ∷ [];
  sessions = [];
  tokens = token ∷ [];
  devices = [];
  dns_records = [];
  user_serial = 8;
  token_serial = 2;
  dns_serial = 1;
  statements = 0;
}

abbrev env_at : ℕ → Env
env_at t = record { app_now = t; db_now = t; db_up = λ n. true }

-- Two devices present the same token, with a mint and a revocation between.
abbrev calls : List (Env × Call)
calls =
    (env_at 110, creates (bytes "h2") 7 (pos 50) [])
    ∷ (env_at 111, consumes (bytes "h1") (bytes "cam-1"))
    ∷ (env_at 112, revokes 1)
    ∷ (env_at 113, consumes (bytes "h1") (bytes "cam-2"))
    ∷ []

enrolments_test : enrolments (bytes "h1") db calls ≡ 1
unfolding enrolments wins text_beq consume step token_create revoke
enrolments_test = refl

enrolments-le-one_example : enrolments (bytes "h1") db calls ≤ 1
enrolments-le-one_example = enrolments-le-one (bytes "h1") db calls (tt, tt)
