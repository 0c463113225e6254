-- ===== src/Handlers/Heartbeat.antt =====
-- internal/httpapi/devices_heartbeat.go
pub mod Synced
pub mod Outcome
pub mod Retry
use rdoc_cam_hub.Common.{
  ℕ, ◌+◌, Text, bytes, Bool, true, false, not, ◌&&◌, ◌||◌, Option, none, some, List, [], ◌∷◌, ◌++◌,
  ◌==◌, text_eq, if◌then◌else◌,
}
use rdoc_cam_hub.Netip.{Addr, is_valid, addr_eq}
use rdoc_cam_hub.Http.{Request, Response, Handler, write_error, write_status}
use rdoc_cam_hub.Store.{
  Device, DnsRecord, DnsRecordType, type_a, type_aaaa, Env, Result, ok, err, not_found, failed,
}
use rdoc_cam_hub.Store.Devices.{HeartbeatUpdate, get_by_id, update_heartbeat}
use rdoc_cam_hub.Store.Dns.{NewRecord, upsert, dns_get}
use rdoc_cam_hub.Subdomain.{fqdn}
use rdoc_cam_hub.Handlers.{
  Claims, DeviceJwtSigner, DnsClient, CfCall, create_record, update_record, World, Server, Decoded,
  body_too_large, bad_json, decoded, Packages, cf_create, cf_send, on_db, bearer_token, Parsed,
  refused, parsed, parse_public_ip, parse_public_ipv6,
}

-- heartbeatReq
pub record HeartbeatReq : Type 0 where
  pub public_ip : Text
  pub public_ipv6 : Text
  pub status : Text
  pub stream_health : Text
  pub version : Text

abbrev pub heartbeat_max_body : ℕ
heartbeat_max_body = 8192

-- " · ", of which the dot is two bytes in UTF-8
abbrev middle_dot : Text
middle_dot = 0x20 ∷ 0xC2 ∷ 0xB7 ∷ 0x20 ∷ []

-- The reported status in front of the health of the stream.
unfoldable pub combined_health : HeartbeatReq → Text
combined_health req =
    if req.status == []
    then req.stream_health
    else if req.stream_health == []
    then req.status
    else req.status ++ (middle_dot ++ req.stream_health)

abbrev pub dns_row : Text → Text → DnsRecordType → Text → Text → NewRecord
dns_row device_id name rt value cf_id = record {
  device_id = device_id;
  fqdn = name;
  type = rt;
  value = value;
  cloudflare_id = cf_id;
}

-- syncDNS behind its CreateRecord
unfoldable pub sync_created : Env → Text → Text → DnsRecordType → Text → Option Text × World → World
unfolding on_db
sync_created env device_id name rt value (none, w) = w
sync_created env device_id name rt value (some cf_id, w) =
    (on_db w (λ d. upsert env d (dns_row device_id name rt value cf_id))).1

-- syncDNS behind its UpdateRecord
unfoldable pub sync_updated : Env → Text → Text → DnsRecordType → Text → Text → Bool × World → World
unfolding on_db
sync_updated env device_id name rt value cf_id (false, w) = w
sync_updated env device_id name rt value cf_id (true, w) =
    (on_db w (λ d. upsert env d (dns_row device_id name rt value cf_id))).1

-- syncDNS behind its lookup
unfoldable pub sync_found :
    Env → DnsClient → Text → Text → DnsRecordType → Text → Result DnsRecord × World → World
unfolding cf_create cf_send sync_created sync_updated
sync_found env cf device_id name rt value (err not_found, w) =
    sync_created env device_id name rt value (cf_create cf w (create_record name rt value))
sync_found env cf device_id name rt value (err failed, w) = w
sync_found env cf device_id name rt value (ok existing, w) =
    sync_updated env device_id name rt value existing.cloudflare_id
      (cf_send cf w (update_record existing.cloudflare_id name rt value))

-- syncDNS
unfoldable pub sync_dns : Env → DnsClient → World → Text → Text → DnsRecordType → Text → World
unfolding on_db sync_found
sync_dns env cf w device_id name rt value =
    sync_found env cf device_id name rt value (on_db w (λ d. dns_get env d device_id rt))

module _ (p : Packages) (env : Env) where
  module _ (cf : DnsClient) (parent_domain : Text) where
    -- The A record follows an IPv4 address that is new or has changed.
    unfoldable pub sync_v4 : World → Device → Addr → World
    unfolding is_valid fqdn
    sync_v4 w dev ip4 =
        if not (is_valid dev.public_ip) || not (dev.public_ip == ip4)
        then sync_dns env cf w dev.id (fqdn dev.subdomain parent_domain) type_a (p.show_addr ip4)
        else w

    -- The AAAA record follows an IPv6 address likewise, and stays where none is reported.
    unfoldable pub sync_v6 : World → Device → Addr → World
    unfolding is_valid fqdn
    sync_v6 w dev ip6 =
        if is_valid ip6 && (not (is_valid dev.public_ipv6) || not (dev.public_ipv6 == ip6))
        then sync_dns env cf w dev.id (fqdn dev.subdomain parent_domain) type_aaaa (p.show_addr ip6)
        else w

    -- heartbeatDevice behind UpdateHeartbeat
    unfoldable pub heartbeat_updated : Device → Addr → Addr → Result ℕ × World → Response × World
    unfolding sync_v4 sync_v6
    heartbeat_updated dev ip4 ip6 (err e, w) =
        (write_error 500 "internal" "heartbeat update failed", w)
    heartbeat_updated dev ip4 ip6 (ok at, w) =
        (write_status 204, sync_v6 (sync_v4 w dev ip4) dev ip6)

    -- heartbeatDevice behind GetByID
    unfoldable pub heartbeat_found :
        Claims → HeartbeatReq → Addr → Addr → Result Device × World → Response × World
    unfolding on_db heartbeat_updated combined_health
    heartbeat_found claims req ip4 ip6 (err not_found, w) =
        (write_error 401 "unauthorized" "device not registered", w)
    heartbeat_found claims req ip4 ip6 (err failed, w) =
        (write_error 500 "internal" "lookup failed", w)
    heartbeat_found claims req ip4 ip6 (ok dev, w) =
        if not (claims.subdomain == dev.subdomain)
        then (write_error 401 "unauthorized" "device token stale", w)
        else heartbeat_updated dev ip4 ip6 (
            on_db w (λ d. update_heartbeat env d dev.id (record {
              public_ip = ip4;
              public_ipv6 = ip6;
              stream_health = combined_health req;
              cam_version = req.version;
            })))

    -- heartbeatDevice behind the checks of the addresses
    unfoldable pub heartbeat_parsed :
        Claims → HeartbeatReq → World → Parsed Addr → Parsed Addr → Response × World
    unfolding on_db heartbeat_found
    heartbeat_parsed claims req w (refused res) ip6 = (res, w)
    heartbeat_parsed claims req w (parsed ip4) (refused res) = (res, w)
    heartbeat_parsed claims req w (parsed ip4) (parsed ip6) =
        heartbeat_found claims req ip4 ip6 (on_db w (λ d. get_by_id env d claims.device_id))

    -- heartbeatDevice behind the decoding
    unfoldable pub heartbeat_decoded : Claims → World → Decoded HeartbeatReq → Response × World
    unfolding heartbeat_parsed parse_public_ip parse_public_ipv6
    heartbeat_decoded claims w body_too_large =
        (write_error 413 "body_too_large" "request body exceeds size limit", w)
    heartbeat_decoded claims w bad_json = (write_error 400 "bad_request" "invalid JSON body", w)
    heartbeat_decoded claims w (decoded req) =
        heartbeat_parsed claims req w (parse_public_ip p req.public_ip)
          (parse_public_ipv6 p req.public_ipv6)

    unfoldable pub heartbeat_claimed :
        World → Decoded HeartbeatReq → Option Claims → Response × World
    unfolding heartbeat_decoded
    heartbeat_claimed w body none = (write_error 401 "unauthorized" "invalid device token", w)
    heartbeat_claimed w body (some claims) = heartbeat_decoded claims w body

    unfoldable pub heartbeat_bearer :
        DeviceJwtSigner → World → Decoded HeartbeatReq → Option Text → Response × World
    unfolding heartbeat_claimed
    heartbeat_bearer jwt w body none = (write_error 401 "unauthorized" "missing bearer token", w)
    heartbeat_bearer jwt w body (some token) = heartbeat_claimed w body (jwt.verify token)

  -- heartbeatDevice behind its configuration guard
  unfoldable pub heartbeat_configured :
      Text
      → World
      → Decoded HeartbeatReq
      → Option Text
      → Option DeviceJwtSigner
      → Option DnsClient
      → Response × World
  heartbeat_configured parent_domain w body token (some jwt) (some cf) =
      if parent_domain == []
      then (write_error 503 "not_configured" "device heartbeat is not enabled on this hub", w)
      else heartbeat_bearer cf parent_domain jwt w body token
  heartbeat_configured parent_domain w body token _ _ =
      (write_error 503 "not_configured" "device heartbeat is not enabled on this hub", w)

  -- heartbeatDevice; `decode` is json.Decoder with DisallowUnknownFields behind MaxBytesReader
  unfoldable pub heartbeat_device : (ℕ → Text → Decoded HeartbeatReq) → Server → Handler World
  unfolding heartbeat_configured bearer_token
  heartbeat_device decode s r w =
      heartbeat_configured s.parent_domain w (decode heartbeat_max_body r.body)
        (bearer_token p.unicode r) s.device_jwt s.cf_client
