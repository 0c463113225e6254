-- ===== src/Store/Devices/Examples.antt =====
-- The sweep at a concrete table.
use rdoc_cam_hub.Common.{ℕ, ◌≡◌, refl, some, Text, bytes, true, ltb, [], ◌∷◌, map}
use rdoc_cam_hub.Netip.{invalid}
use rdoc_cam_hub.Store.{Device, DeviceStatus, online, stale, offline, Database, Env}
use rdoc_cam_hub.Store.Devices.{mark_stale}
use rdoc_cam_hub.Store.Devices.Sweep.{by_silence, mark_stale_statuses}

abbrev device : Text → DeviceStatus → ℕ → Device
device id status seen = record {
  id = id;
  name = id;
  subdomain = id;
  device_jwt_kid = [];
  capabilities = [];
  ports = [];
  public_ip = invalid;
  public_ipv6 = invalid;
  status = status;
  stream_health = [];
  cam_version = [];
  last_seen_at = some seen;
  enrolled_at = 1;
  updated_at = 1;
}

abbrev db : Database
db = record {
  users = [];
  sessions = [];
  tokens = [];
  devices =
      device (bytes "a") online 100
      ∷ device (bytes "b") online 70
      ∷ device (bytes "c") stale 10
      ∷ [];
  dns_records = [];
  user_serial = 1;
  token_serial = 1;
  dns_serial = 1;
  statements = 0;
}

abbrev env : Env
env = record { app_now = 110; db_now = 110; db_up = λ n. true }

-- The COMMIT does not reach the database.
abbrev failing : Env
failing = record { app_now = 110; db_now = 110; db_up = λ n. ltb n 3 }

sweep_test :
    map (λ (dev : Device). dev.status) (mark_stale env db 20 60).1.devices
    ≡ online ∷ stale ∷ offline ∷ []
unfolding mark_stale
sweep_test = refl

mark_stale_statuses_example :
    map (λ (dev : Device). dev.status) (mark_stale env db 20 60).1.devices
    ≡ map (λ (dev : Device). by_silence env 20 60 dev.last_seen_at dev.status) db.devices
unfolding mark_stale
mark_stale_statuses_example = mark_stale_statuses env 20 60 db (1, 1) refl
