-- ===== src/Cli/Examples.antt =====
-- The commands on concrete machines.
use rdoc_cam_hub.Config.{config_of}
use rdoc_cam_hub.Common.{text_beq}
use rdoc_cam_hub.Common.{
  ℕ, Text, bytes, true, false, Option, none, some, [], ◌∷◌, ◌==◌, text_eq, ◌≡◌, ◌≢◌, refl, arith,
  if◌then◌else◌, Json,
}
use rdoc_cam_hub.Common.Int.{pos}
use rdoc_cam_hub.Netip.{invalid}
use rdoc_cam_hub.Store.{User, Database, admin}
use rdoc_cam_hub.Http.{Request}
use rdoc_cam_hub.Handlers.{Decoded, decoded}
use rdoc_cam_hub.Handlers.Auth.{LoginReq, Randomness, login}
use rdoc_cam_hub.Samples.{
  lib, net, outside_at, site, env, material, plain, argon, argon-IsSound, same, Files, disk,
  disk-IsFaithful,
}
use rdoc_cam_hub.Config.{Sys}
use rdoc_cam_hub.DeviceJwt.{Ring, current}
use rdoc_cam_hub.DeviceJwt.File.{RingFile, file_of, mirror, load_ring_file}
use rdoc_cam_hub.Router.{Site, router}
use rdoc_cam_hub.Cli.{
  Startup, BootstrapFlags, TokenFlags, Printed, InitFlags, Stat, missing, run_bootstrap_admin,
  run_enrollment_token, run_device_jwt_init,
}
use rdoc_cam_hub.Cli.Accounts.{IsIssued, run_enrollment_token-IsIssued}
use rdoc_cam_hub.Cli.Accounts.Bootstrap.{accepts, bootstrap_signs_in}
use rdoc_cam_hub.Cli.Init.{init_loads}
use rdoc_cam_hub.Cli.Serve.{Machine, run_serve, run_serve-router}

abbrev db : Database
db = record {
  users = [];
  sessions = [];
  tokens = [];
  devices = [];
  dns_records = [];
  user_serial = 7;
  token_serial = 1;
  dns_serial = 1;
  statements = 0;
}

abbrev start : Startup
start = record { configured = true; migrated = true; opened = true }

abbrev flags : BootstrapFlags
flags = record { email = bytes "a@b"; password = bytes "a long password" }

abbrev boss : User
boss = elim (run_bootstrap_admin plain env start argon (some (bytes "salt")) (some flags) db).0 [
  | none ↦ record { id = 0; email = []; password_hash = []; role = admin; created_at = 0 }
  | some user ↦ user
]

abbrev with_boss : Database
with_boss = (run_bootstrap_admin plain env start argon (some (bytes "salt")) (some flags) db).1

abbrev request : Request
request = record {
  method = bytes "POST";
  path = bytes "/v1/auth/login";
  host = [];
  remote_addr = [];
  user_agent = [];
  content_length = pos 2;
  headers = [];
  cookies = [];
  body = [];
  client_ip = invalid;
  principal = none;
}

abbrev rand : Randomness
rand = record { session_id = some (bytes "s1"); csrf_token = some (bytes "c1") }

abbrev decode : ℕ → Text → Decoded LoginReq
decode limit s = decoded (record { email = bytes "a@b"; password = bytes "a long password" })

bootstrap_signs_in_example :
    (login env
      (record { secure = true; domain = [] })
      rand
      (accepts argon)
      plain
      decode
      request
      with_boss).0.status
    ≡ 200
unfolding run_bootstrap_admin text_beq
bootstrap_signs_in_example =
    bootstrap_signs_in plain env start argon argon-IsSound (record { secure = true; domain = [] })
      (bytes "salt") flags db boss refl refl (λ e. ground (arith, e)) (ground arith) (ground arith)
      env rand (bytes "s1") (bytes "c1") decode request refl refl refl (λ n. refl) refl

abbrev token_flags : TokenFlags
token_flags = record { ttl = pos 500; note = []; actor_email = [] }

abbrev minted : Option (Text × Text)
minted = some (bytes "raw", bytes "hash")

abbrev printed_out : Printed
printed_out = elim (run_enrollment_token plain env start minted (some token_flags) with_boss).0 [
  | some out ↦ out
  | none ↦ record {
    raw = [];
    actor = [];
    row = record {
      id = 0;
      hash = [];
      created_by = 0;
      created_at = 0;
      expires_at = 0;
      consumed_at = none;
      consumed_by_device_id = none;
      note = [];
    };
  }
]

run_enrollment_token-IsIssued_example :
    IsIssued plain env start minted token_flags with_boss printed_out
      (run_enrollment_token plain env start minted (some token_flags) with_boss).1
unfolding run_enrollment_token run_bootstrap_admin text_beq
run_enrollment_token-IsIssued_example =
    run_enrollment_token-IsIssued plain env start minted token_flags with_boss printed_out refl

-- The ring that a load of the sample reads.
abbrev ring : Ring
ring = record {
  keys =
      (record {
        kid = bytes "k1";
        private_seed = material;
        private_hex = material;
        public_key = material;
        public_hex = material;
        created_at = 1;
        retired_at = none;
      })
      ∷ [];
  current_kid = bytes "k1";
}

abbrev ring_json : Json RingFile
ring_json = record { marshal = λ f. some (bytes "ring"); unmarshal = λ s. some (file_of ring) }

abbrev empty_disk : Files
empty_disk path = none

abbrev stat : Files → Text → Stat
stat files path = missing

abbrev init_flags : InitFlags
init_flags = record { out = bytes "ring.json"; force = false }

init_loads_example :
    (loaded : Ring) × (load_ring_file disk same ring_json
        (run_device_jwt_init disk stat same ring_json
          (λ public. bytes "k1")
          1
          (some (material, material))
          (some init_flags)
          empty_disk).1
        (bytes "ring.json")
      ≡ some loaded)
    × (current loaded ≢ none)
unfolding mirror text_beq run_device_jwt_init
init_loads_example =
    init_loads disk stat same ring_json (λ public. bytes "k1") 1 disk-IsFaithful (λ s. refl) refl
      material material init_flags empty_disk refl refl (λ e. ground (arith, e)) (λ s e. refl) refl

abbrev getenv : Text → Text
getenv key = if key == bytes "CAMHUB_DB_URL" then bytes "postgres://db" else []

abbrev sys : Sys
sys = record {
  unicode = plain;
  getenv = getenv;
  read_file = λ path. none;
  atoi = λ s. none;
  parse_prefix = λ s. none;
}

abbrev machine : Machine Files
machine = record {
  sys = sys;
  assets = record {
    read_file = λ name. some [];
    read_dir = λ name. some [];
    parse = λ layout page. none;
  };
  os = disk;
  hex = same;
  ring_json = ring_json;
  jwt = lib;
  network = net;
  migrated = true;
  opened = true;
}

abbrev served_site : Site
served_site = elim (run_serve machine empty_disk 0 []) [ some s ↦ s | none ↦ site ]

run_serve-router_example : router (outside_at 0) served_site ≢ none
unfolding run_serve text_beq config_of
run_serve-router_example = run_serve-router machine empty_disk 0 (outside_at 0) [] served_site refl
