-- ===== src/Handlers/Examples.antt =====
-- The device handlers at concrete requests.
use rdoc_cam_hub.Store.Devices.{device_create}
use rdoc_cam_hub.Store.Tokens.{consume}
use rdoc_cam_hub.Handlers.{parse_public_ipv6}
use rdoc_cam_hub.Handlers.{parse_public_ip}
use rdoc_cam_hub.Subdomain.{resolve_subdomain}
use rdoc_cam_hub.Subdomain.{validate_subdomain}
use rdoc_cam_hub.Store.Devices.{update_heartbeat}
use rdoc_cam_hub.Store.Devices.{get_by_id}
use rdoc_cam_hub.Handlers.Heartbeat.{heartbeat_bearer}
use rdoc_cam_hub.Common.{text_beq}
use rdoc_cam_hub.Common.{
  ℕ, ◌≡◌, refl, none, some, Text, bytes, true, false, [], ◌∷◌, arith, Unicode, length,
}
use rdoc_cam_hub.Common.Int.{pos}
use rdoc_cam_hub.Netip.{Addr, invalid, v4}
use rdoc_cam_hub.Http.{Request}
use rdoc_cam_hub.Store.{Device, enrolled, EnrollmentToken, Env}
use rdoc_cam_hub.Handlers.{
  DeviceJwtSigner, DnsClient, World, Server, Decoded, decoded, Packages, bearer_token,
}
use rdoc_cam_hub.Handlers.Heartbeat.{HeartbeatReq, heartbeat_max_body, heartbeat_device}
use rdoc_cam_hub.Handlers.Heartbeat.Outcome.{Outcome, claims_of_token, heartbeat-Outcome}
use rdoc_cam_hub.Handlers.Heartbeat.Retry.{heartbeat_not_retried}
use rdoc_cam_hub.Handlers.Register.{RegisterReq, register_max_body, register_device}
use rdoc_cam_hub.Handlers.Register.OpenRecords.{open_records}
use rdoc_cam_hub.Handlers.Register.Cleanup.{register_cleans_up}
use rdoc_cam_hub.Handlers.Register.Enrolment.{Admission, register-Admission}

abbrev plain : Unicode
plain = record { lower = λ s. s; trim = λ s. s }

-- Addresses that are written with one digit.
abbrev parse : Text → Addr
parse [] = invalid
parse (c ∷ []) = v4 c
parse (c ∷ d ∷ s) = invalid

abbrev show : Addr → Text
show (v4 n) = n ∷ []
show _ = []

abbrev packages : Packages
packages = record { unicode = plain; netip_parse = parse; show_addr = show }

abbrev signer : DeviceJwtSigner
signer = record {
  sign = λ c. none;
  verify = λ token. some (record { device_id = token; subdomain = bytes "cam" });
  signing_kid = bytes "k1";
}

-- A client whose updates fail, and which numbers the records.
abbrev client : DnsClient
client = record { created = λ log call. some (length log ∷ []); accepted = λ log call. false }

abbrev good_client : DnsClient
good_client = record { created = λ log call. some (length log ∷ []); accepted = λ log call. true }

abbrev server : Server
server = record {
  device_jwt = some signer;
  cf_client = some client;
  parent_domain = bytes "example.org";
  hub_cert_fingerprint = [];
}

abbrev device : Device
device = record {
  id = bytes "d1";
  name = bytes "cam";
  subdomain = bytes "cam";
  device_jwt_kid = [];
  capabilities = [];
  ports = [];
  public_ip = v4 0x31;
  public_ipv6 = invalid;
  status = enrolled;
  stream_health = [];
  cam_version = [];
  last_seen_at = none;
  enrolled_at = 1;
  updated_at = 1;
}

abbrev token : EnrollmentToken
token = record {
  id = 1;
  hash = bytes "d1";
  created_by = 7;
  created_at = 100;
  expires_at = 200;
  consumed_at = none;
  consumed_by_device_id = none;
  note = [];
}

abbrev world : World
world = record {
  db = record {
    users = [];
    sessions = [];
    tokens = token ∷ [];
    devices = device ∷ [];
    dns_records = [];
    user_serial = 1;
    token_serial = 2;
    dns_serial = 1;
    statements = 0;
  };
  cf_calls = [];
}

abbrev env : Env
env = record { app_now = 110; db_now = 110; db_up = λ n. true }

abbrev request : Request
request = record {
  method = bytes "POST";
  path = bytes "/v1/devices/heartbeat";
  host = [];
  remote_addr = [];
  user_agent = [];
  content_length = pos 0;
  headers = (bytes "Authorization", bytes "Bearer d1") ∷ [];
  cookies = [];
  body = [];
  client_ip = invalid;
  principal = none;
}

-- The body reports a new address.
abbrev decode_beat : ℕ → Text → Decoded HeartbeatReq
decode_beat n body = decoded (record {
  public_ip = bytes "2";
  public_ipv6 = [];
  status = bytes "ok";
  stream_health = [];
  version = bytes "1.0";
})

beat_test : (heartbeat_device packages env decode_beat server request world).0.status ≡ 204
unfolding heartbeat_device text_beq heartbeat_bearer get_by_id update_heartbeat
beat_test = refl

heartbeat-Outcome_example :
    Outcome packages env world
      (decode_beat heartbeat_max_body [])
      (claims_of_token (some signer) (bearer_token plain request))
      (heartbeat_device packages env decode_beat server request world)
heartbeat-Outcome_example = heartbeat-Outcome packages env decode_beat server request world

heartbeat_not_retried_example :
    let w = (heartbeat_device packages env decode_beat server request world).1 in
    (heartbeat_device packages env decode_beat server request w).1.cf_calls ≡ w.cf_calls
unfolding heartbeat_device text_beq heartbeat_bearer get_by_id update_heartbeat
heartbeat_not_retried_example =
    heartbeat_not_retried packages env env decode_beat server request world refl

abbrev same_text : Text → Text
same_text s = s

abbrev decode_register : ℕ → Text → Decoded RegisterReq
decode_register n body = decoded (record {
  device_id = bytes "d2";
  preferred_name = bytes "door";
  public_ip = bytes "2";
  public_ipv6 = [];
  ports = [];
  capabilities = [];
})

-- The record and the row are made, but the token cannot be signed.
register_test :
    (register_device packages same_text env decode_register server request world).0.status ≡ 500
unfolding register_device text_beq bearer_token validate_subdomain parse_public_ip parse_public_ipv6
    consume resolve_subdomain device_create
register_test = refl

register_cleans_up_example :
    open_records client
      (register_device packages same_text env decode_register server request world).1.cf_calls
    ≡ open_records client []
unfolding register_device
register_cleans_up_example =
    register_cleans_up packages same_text env decode_register server request world client
      (λ log call e. ground arith) refl (λ e. let status = register_test in ground arith)

register-Admission_example :
    Admission packages same_text env world
      (bearer_token plain request)
      (decode_register register_max_body [])
      (register_device packages same_text env decode_register server request world)
register-Admission_example =
    register-Admission packages same_text env decode_register server request world
