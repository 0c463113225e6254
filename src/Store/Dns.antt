-- ===== src/Store/Dns.antt =====
-- internal/db/dns_records.go
use rdoc_cam_hub.Common.{
  ◌+◌, Text, Bool, not, List, ◌∷◌, ◌++◌, [], ◌==◌, ◌&&◌, if◌then◌else◌, any, find, text_eq,
  update_where, delete_where, select_where,
}
use rdoc_cam_hub.Store.{
  type_a, type_aaaa, DnsRecord, DnsRecordType, dns_type_eq, Database, Env, Result, ok, err, failed,
  query, row_or_not_found,
}
use rdoc_cam_hub.Store.Devices.{has_device_id}

abbrev pub has_key : Text → DnsRecordType → DnsRecord → Bool
has_key device_id type r = r.device_id == device_id && r.type == type

-- The fields of a db.DNSRecord that the caller of Upsert fills in.
pub record NewRecord : Type 0 where
  pub device_id : Text
  pub fqdn : Text
  pub type : DnsRecordType
  pub value : Text
  pub cloudflare_id : Text

abbrev pub overwritten : Env → NewRecord → DnsRecord → DnsRecord
overwritten env n r = record r {
  fqdn = n.fqdn;
  value = n.value;
  cloudflare_id = n.cloudflare_id;
  updated_at = env.db_now;
}

-- DNSRecordStore.Upsert; (device_id, type) is UNIQUE and device_id references devices
unfoldable pub upsert : Env → Database → NewRecord → Result (Unit {0}) × Database
unfolding query any update_where
upsert env d n = query env d λ d.
    let d' : Database = record d { dns_serial = d.dns_serial + 1 } in
    let row : DnsRecord = record {
      id = d.dns_serial;
      device_id = n.device_id;
      fqdn = n.fqdn;
      type = n.type;
      value = n.value;
      cloudflare_id = n.cloudflare_id;
      created_at = env.db_now;
      updated_at = env.db_now;
    } in
    if not (any (has_device_id n.device_id) d.devices)
    then (err failed, d')
    else if any (has_key n.device_id n.type) d.dns_records
    then (
      ok tt,
      record d' {
        dns_records = update_where (has_key n.device_id n.type) (overwritten env n) d.dns_records;
      },
    )
    else (ok tt, record d' { dns_records = d.dns_records ++ row ∷ [] })

-- DNSRecordStore.ByDevice; 'A' sorts before 'AAAA'
unfoldable pub by_device : Env → Database → Text → Result (List DnsRecord) × Database
unfolding query select_where
by_device env d device_id = query env d λ d. (
  ok (
      select_where (has_key device_id type_a) d.dns_records
      ++ select_where (has_key device_id type_aaaa) d.dns_records),
  d,
)

-- DNSRecordStore.Get
unfoldable pub dns_get : Env → Database → Text → DnsRecordType → Result DnsRecord × Database
unfolding query row_or_not_found find
dns_get env d device_id type =
    query env d λ d. (row_or_not_found (find (has_key device_id type) d.dns_records), d)

-- DNSRecordStore.Delete
unfoldable pub dns_delete : Env → Database → Text → DnsRecordType → Result (Unit {0}) × Database
unfolding query delete_where
dns_delete env d device_id type =
    query env d
      λ d. (ok tt, record d { dns_records = delete_where (has_key device_id type) d.dns_records })
