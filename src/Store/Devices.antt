-- ===== src/Store/Devices.antt =====
-- internal/db/devices.go
pub mod Sweep
mod Examples
use rdoc_cam_hub.Common.{
  ℕ, ◌+◌, ◌-◌, Text, bytes, Bool, true, false, Option, none, some, List, ◌∷◌, ◌++◌, [], ◌==◌, ◌&&◌,
  ◌||◌, if◌then◌else◌, any, find, text_eq, ltb, update_where, delete_where, count_where,
}
use rdoc_cam_hub.Netip.{Addr, is_valid}
use rdoc_cam_hub.Store.{
  Device, DeviceStatus, enrolled, online, stale, offline, DnsRecord, Database, Env, Result, ok, err,
  failed, not_found, query, row_or_not_found, commit, rolled_back,
}

pub record DeviceRegistration : Type 0 where
  pub id : Text
  pub name : Text
  pub subdomain : Text
  pub device_jwt_kid : Text
  pub capabilities : Text
  pub ports : Text
  pub public_ip : Addr
  pub public_ipv6 : Addr

pub record HeartbeatUpdate : Type 0 where
  pub public_ip : Addr
  pub public_ipv6 : Addr
  pub stream_health : Text
  pub cam_version : Text

-- emptyJSONIfNil
unfoldable pub empty_json_if_nil : Text → Text
empty_json_if_nil [] = bytes "{}"
empty_json_if_nil raw = raw

abbrev pub has_device_id : Text → Device → Bool
has_device_id id dev = dev.id == id

abbrev pub has_subdomain : Text → Device → Bool
has_subdomain sub dev = dev.subdomain == sub

-- DeviceStore.Create; devices.id is the primary key and devices.subdomain is UNIQUE
unfoldable pub device_create : Env → Database → DeviceRegistration → Result Device × Database
unfolding query any empty_json_if_nil
device_create env d reg = query env d λ d.
    let row : Device = record {
      id = reg.id;
      name = reg.name;
      subdomain = reg.subdomain;
      device_jwt_kid = reg.device_jwt_kid;
      capabilities = empty_json_if_nil reg.capabilities;
      ports = empty_json_if_nil reg.ports;
      public_ip = reg.public_ip;
      public_ipv6 = reg.public_ipv6;
      status = enrolled;
      stream_health = [];
      cam_version = [];
      last_seen_at = none;
      enrolled_at = env.db_now;
      updated_at = env.db_now;
    } in
    if any (has_device_id reg.id) d.devices || any (has_subdomain reg.subdomain) d.devices
    then (err failed, d)
    else (ok row, record d { devices = d.devices ++ row ∷ [] })

-- DeviceStore.GetByID
unfoldable pub get_by_id : Env → Database → Text → Result Device × Database
unfolding query row_or_not_found find
get_by_id env d id = query env d λ d. (row_or_not_found (find (has_device_id id) d.devices), d)

-- DeviceStore.BySubdomain
unfoldable pub by_subdomain : Env → Database → Text → Result Device × Database
unfolding query row_or_not_found find
by_subdomain env d sub = query env d λ d. (row_or_not_found (find (has_subdomain sub) d.devices), d)

-- COALESCE($2::inet, public_ip), with ipOrNil
unfoldable pub coalesce_ip : Addr → Addr → Addr
coalesce_ip new old = if is_valid new then new else old

abbrev pub seen : Env → HeartbeatUpdate → Device → Device
seen env h dev = record dev {
  public_ip = coalesce_ip h.public_ip dev.public_ip;
  public_ipv6 = coalesce_ip h.public_ipv6 dev.public_ipv6;
  stream_health = h.stream_health;
  cam_version = h.cam_version;
  status = online;
  last_seen_at = some env.db_now;
  updated_at = env.db_now;
}

-- DeviceStore.UpdateHeartbeat
unfoldable pub update_heartbeat : Env → Database → Text → HeartbeatUpdate → Result ℕ × Database
unfolding query any update_where coalesce_ip
update_heartbeat env d id h = query env d λ d.
    if any (has_device_id id) d.devices
    then (
      ok env.db_now,
      record d { devices = update_where (has_device_id id) (seen env h) d.devices },
    )
    else (err not_found, d)

-- last_seen_at IS NOT NULL AND last_seen_at + after < now, the cutoff being now - after
abbrev pub silent_for : ℕ → ℕ → Device → Bool
silent_for after now dev = elim dev.last_seen_at [
  | none ↦ false
  | some seen ↦ ltb (seen + after) now
]

abbrev pub is_online : DeviceStatus → Bool
is_online online = true
is_online _ = false

abbrev pub is_online_or_stale : DeviceStatus → Bool
is_online_or_stale online = true
is_online_or_stale stale = true
is_online_or_stale _ = false

abbrev pub goes_offline : Env → ℕ → Device → Bool
goes_offline env offline_after dev =
    is_online_or_stale dev.status && silent_for offline_after env.app_now dev

abbrev pub goes_stale : Env → ℕ → Device → Bool
goes_stale env stale_after dev = is_online dev.status && silent_for stale_after env.app_now dev

abbrev pub with_status : Env → DeviceStatus → Device → Device
with_status env status dev = record dev { status = status; updated_at = env.db_now }

-- qOffline and qStale: one UPDATE with the number of rows that it changes.
unfoldable pub mark : Env → Database → (Device → Bool) → DeviceStatus → Result ℕ × Database
unfolding query update_where count_where
mark env d test status = query env d λ d. (
  ok (count_where test d.devices),
  record d { devices = update_where test (with_status env status) d.devices },
)

-- The counts of MarkStale: stale, offline.
abbrev pub Marked : Type 0
Marked = ℕ × ℕ

unfoldable pub mark_stale_second :
    Env → Database → ℕ → Result ℕ × Database → Result Marked × Database
unfolding mark rolled_back commit
mark_stale_second env before stale_after (err e, d) = rolled_back before d
mark_stale_second env before stale_after (ok off, d) =
    let (marked, d') = mark env d (goes_stale env stale_after) stale in
    elim marked [ err e ↦ rolled_back before d' | ok gone ↦ commit env before (ok (gone, off), d') ]

-- DeviceStore.MarkStale: the offline sweep first, then the stale one, in a transaction
unfoldable pub mark_stale : Env → Database → ℕ → ℕ → Result Marked × Database
unfolding query mark mark_stale_second
mark_stale env d stale_after offline_after =
    let (began, d) = query env d (λ d. (ok tt, d)) in
    elim began [
      | err e ↦ (err e, d)
      | ok _ ↦
          mark_stale_second env d stale_after (mark env d (goes_offline env offline_after) offline)
    ]

-- DeviceStore.Delete; dns_records.device_id is ON DELETE CASCADE
unfoldable pub device_delete : Env → Database → Text → Result (Unit {0}) × Database
unfolding query any delete_where
device_delete env d id = query env d λ d.
    if any (has_device_id id) d.devices
    then (
      ok tt,
      record d {
        devices = delete_where (has_device_id id) d.devices;
        dns_records = delete_where (λ (r : DnsRecord). r.device_id == id) d.dns_records;
      },
    )
    else (err not_found, d)
