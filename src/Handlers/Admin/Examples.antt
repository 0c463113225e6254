-- ===== src/Handlers/Admin/Examples.antt =====
-- Mints at concrete requests.
use rdoc_cam_hub.Handlers.Admin.{mint_ttl}
use rdoc_cam_hub.Store.Tokens.{token_create}
use rdoc_cam_hub.Common.{
  ℕ, ◌≤◌, Text, bytes, true, Option, some, [], ◌∷◌, ◌++◌, ◌≡◌, ◌≢◌, refl, arith,
}
use rdoc_cam_hub.Common.Int.{pos, negsuc}
use rdoc_cam_hub.Netip.{invalid}
use rdoc_cam_hub.Handlers.Admin.Enrols.{mint_then_consume}
use rdoc_cam_hub.Store.Tokens.{consume}
use rdoc_cam_hub.Store.{ok, Database, EnrollmentToken, Env, admin}
use rdoc_cam_hub.Http.{Principal, Request}
use rdoc_cam_hub.Handlers.{Decoded, decoded}
use rdoc_cam_hub.Handlers.Admin.{
  Hours, MintEnrollmentReq, mint_body, mint_decoded, mint_enrollment_token,
}
use rdoc_cam_hub.Handlers.Admin.Minted.{IsAdmitted, mint_enrollment_token-IsAdmitted, mint_expired}

abbrev db : Database
db = record {
  users =
      (record { id = 7; email = bytes "a@b"; password_hash = []; role = admin; created_at = 1 })
      ∷ [];
  sessions = [];
  tokens = [];
  devices = [];
  dns_records = [];
  user_serial = 8;
  token_serial = 2;
  dns_serial = 1;
  statements = 0;
}

abbrev env : Env
env = record { app_now = 1000; db_now = 1000; db_up = λ n. true }

abbrev operator_of : Principal
operator_of = record { user_id = 7; email = bytes "a@b"; role = admin; session_id = bytes "s1" }

abbrev request : Request
request = record {
  method = bytes "POST";
  path = bytes "/v1/admin/enrollment-tokens";
  host = [];
  remote_addr = [];
  user_agent = [];
  content_length = pos 2;
  headers = [];
  cookies = [];
  body = [];
  client_ip = invalid;
  principal = some operator_of;
}

-- Whole hours.
abbrev hours : Hours ℕ
hours = record { is_positive = λ n. true; to_duration = λ n. pos n }

abbrev body : MintEnrollmentReq ℕ
body = record { ttl_hours = some 500; note = bytes "garage" }

abbrev decode : ℕ → Text → Decoded (MintEnrollmentReq ℕ)
decode limit s = decoded body

abbrev random : Option (Text × Text)
random = some (bytes "raw", bytes "hash")

mint_test : (mint_enrollment_token hours decode env random request db).0.status ≡ 201
unfolding mint_enrollment_token token_create
mint_test = refl

mint_enrollment_token-IsAdmitted_example :
    ((mint_enrollment_token hours decode env random request db).0.status ≡ 201
      → IsAdmitted hours env random request.principal
          (mint_body hours decode request)
          db
          (mint_enrollment_token hours decode env random request db))
    × ((mint_enrollment_token hours decode env random request db).0.status ≢ 201
        → (mint_enrollment_token hours decode env random request db).1.tokens ≡ [])
mint_enrollment_token-IsAdmitted_example =
    mint_enrollment_token-IsAdmitted hours env random decode request db

-- A float that overflows the conversion.
abbrev overflowing : Hours ℕ
overflowing = record { is_positive = λ n. true; to_duration = λ n. negsuc 99 }

mint_expired_example :
    (row : EnrollmentToken) × ((mint_decoded overflowing env random operator_of db
        (decoded body)).1.tokens
      ≡ [] ++ row ∷ [])
    × (row.expires_at ≤ 1000)
unfolding mint_decoded token_create
mint_expired_example = mint_expired overflowing env random operator_of body 500 db refl refl refl

abbrev soon_after : Env
soon_after = record { app_now = 1400; db_now = 1400; db_up = λ n. true }

mint_then_consume_example :
    (consume soon_after
      (mint_enrollment_token hours decode env random request db).1
      (bytes "hash")
      (bytes "cam-1")).0
    ≡ ok tt
unfolding mint_body mint_ttl mint_enrollment_token token_create
mint_then_consume_example =
    mint_then_consume hours env (bytes "raw") (bytes "hash") decode request db body (pos 500) refl
      refl refl soon_after (bytes "cam-1") (ground arith) refl
