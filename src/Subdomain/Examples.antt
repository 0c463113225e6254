-- ===== src/Subdomain/Examples.antt =====
-- Labels at concrete names.
use rdoc_cam_hub.Subdomain.{try_suffixes}
use rdoc_cam_hub.Common.{text_beq}
use rdoc_cam_hub.Common.{
  ◌≡◌, ◌↔◌, refl, none, Text, bytes, true, false, [], ◌∷◌, Unicode, to_lower, trim_space,
}
use rdoc_cam_hub.Netip.{invalid}
use rdoc_cam_hub.Store.{Device, online, Database, Env}
use rdoc_cam_hub.Subdomain.{
  valid, validate_subdomain, is_reserved, resolve_subdomain, subdomain_label, suffixed, assigned,
}
use rdoc_cam_hub.Subdomain.Label.{IsLabel, validate_subdomain_lem}
use rdoc_cam_hub.Subdomain.Free.{Search, resolve_subdomain_first}

abbrev plain : Unicode
plain = record { lower = λ s. s; trim = λ s. s }

name_test : validate_subdomain plain (bytes " Living-Room ") ≡ valid (bytes "living-room")
unfolding validate_subdomain text_beq
name_test = refl

validate_subdomain_lem_example :
    (validate_subdomain plain (bytes " Garage ") ≡ valid (bytes "garage")) ↔ (
      (to_lower plain (trim_space plain (bytes " Garage ")) ≡ bytes "garage")
      × IsLabel (bytes "garage")
      × (is_reserved plain (bytes "garage") ≡ false))
validate_subdomain_lem_example = validate_subdomain_lem plain (bytes " Garage ") (bytes "garage")

abbrev device : Text → Device
device id = record {
  id = id;
  name = id;
  subdomain = id;
  device_jwt_kid = [];
  capabilities = [];
  ports = [];
  public_ip = invalid;
  public_ipv6 = invalid;
  status = online;
  stream_health = [];
  cam_version = [];
  last_seen_at = none;
  enrolled_at = 1;
  updated_at = 1;
}

abbrev db : Database
db = record {
  users = [];
  sessions = [];
  tokens = [];
  devices = device (bytes "cam-2") ∷ device (bytes "cam") ∷ [];
  dns_records = [];
  user_serial = 1;
  token_serial = 1;
  dns_serial = 1;
  statements = 0;
}

abbrev env : Env
env = record { app_now = 110; db_now = 110; db_up = λ n. true }

resolve_test : (resolve_subdomain env db (bytes "cam")).0 ≡ assigned (bytes "cam-3")
unfolding resolve_subdomain text_beq try_suffixes suffixed
resolve_test = refl

-- A name of 62 bytes is a label; with its suffix it is none.
abbrev long_name : Text
long_name = bytes "aaaaaaaaaabbbbbbbbbbccccccccccddddddddddeeeeeeeeeeffffffffffgg"

long_test : subdomain_label long_name ≡ true
unfolding subdomain_label
long_test = refl

suffixed_long_test : subdomain_label (suffixed long_name 2) ≡ false
unfolding subdomain_label suffixed
suffixed_long_test = refl

resolve_subdomain_first_example :
    Search db.devices (bytes "cam") 1 100 (resolve_subdomain env db (bytes "cam")).0
resolve_subdomain_first_example = resolve_subdomain_first env db (bytes "cam")
