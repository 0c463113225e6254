-- ===== src/Handlers/Heartbeat/Synced.antt =====
-- The records that a heartbeat synchronises: no device changes with them.
use rdoc_cam_hub.Common.{
  Text, Bool, true, false, Option, none, some, text_eq, ◌≡◌, refl, ◌∙◌, arith,
}
use rdoc_cam_hub.Netip.{Addr, addr_eq}
use rdoc_cam_hub.Subdomain.{fqdn}
use rdoc_cam_hub.Store.{
  type_a, type_aaaa, Device, DnsRecord, DnsRecordType, Env, Result, ok, err, not_found, failed,
  Database,
}
use rdoc_cam_hub.Store.Dns.{NewRecord, upsert, dns_get}
use rdoc_cam_hub.Handlers.{DnsClient, World, Packages, cf_create, cf_send, on_db}
use rdoc_cam_hub.Handlers.Heartbeat.{
  sync_created, sync_updated, sync_found, sync_dns, sync_v4, sync_v6, dns_row,
}

module _ (env : Env) where
  upsert_devices : (d : Database) (n : NewRecord) → (upsert env d n).1.devices ≡ d.devices
  unfolding upsert
  upsert_devices d n = ground arith

  on_upsert_devices :
      (w : World) (n : NewRecord) → (on_db w (λ d. upsert env d n)).1.db.devices ≡ w.db.devices
  unfolding on_db
  on_upsert_devices w n = upsert_devices w.db n

  dns_get_devices :
      (d : Database) (id : Text) (rt : DnsRecordType) → (dns_get env d id rt).1.devices ≡ d.devices
  unfolding dns_get
  dns_get_devices d id rt = ground arith

  module _ (device_id name : Text) (rt : DnsRecordType) (value : Text) where
    sync_created_devices :
        (reply : Option Text × World)
        → (sync_created env device_id name rt value reply).db.devices ≡ reply.1.db.devices
    unfolding sync_created
    sync_created_devices (none, w) = refl
    sync_created_devices (some cf_id, w) =
        on_upsert_devices w (dns_row device_id name rt value cf_id)

    sync_updated_devices :
        (cf_id : Text) (reply : Bool × World)
        → (sync_updated env device_id name rt value cf_id reply).db.devices ≡ reply.1.db.devices
    unfolding sync_updated
    sync_updated_devices cf_id (false, w) = refl
    sync_updated_devices cf_id (true, w) =
        on_upsert_devices w (dns_row device_id name rt value cf_id)

    sync_found_devices :
        (cf : DnsClient) (reply : Result DnsRecord × World)
        → (sync_found env cf device_id name rt value reply).db.devices ≡ reply.1.db.devices
    unfolding sync_found cf_create cf_send
    sync_found_devices cf (err not_found, w) = sync_created_devices _
    sync_found_devices cf (err failed, w) = refl
    sync_found_devices cf (ok row, w) = sync_updated_devices row.cloudflare_id _

    sync_dns_devices :
        (cf : DnsClient) (w : World)
        → (sync_dns env cf w device_id name rt value).db.devices ≡ w.db.devices
    unfolding sync_dns on_db
    sync_dns_devices cf w = sync_found_devices cf _ ∙ dns_get_devices w.db device_id rt

module _ (p : Packages) (env : Env) (cf : DnsClient) (parent : Text) where
  pub sync_v4_devices :
      (w : World) (dev : Device) (ip4 : Addr)
      → (sync_v4 p env cf parent w dev ip4).db.devices ≡ w.db.devices
  unfolding sync_v4
  sync_v4_devices w dev ip4 =
      ground (
        arith,
        sync_dns_devices env dev.id (fqdn dev.subdomain parent) type_a (p.show_addr ip4) cf w,
      )

  pub sync_v6_devices :
      (w : World) (dev : Device) (ip6 : Addr)
      → (sync_v6 p env cf parent w dev ip6).db.devices ≡ w.db.devices
  unfolding sync_v6
  sync_v6_devices w dev ip6 = ground (
    arith,
    sync_dns_devices env dev.id (fqdn dev.subdomain parent) type_aaaa (p.show_addr ip6) cf w,
  )
