-- ===== src/Handlers/Register.antt =====
-- internal/httpapi/devices_register.go
pub mod OpenRecords
pub mod Cleanup
pub mod Enrolment
use rdoc_cam_hub.Common.{
  ℕ, ◌+◌, Text, String, bytes, Bool, true, false, not, ◌&&◌, ◌||◌, Option, none, some, List, [],
  ◌∷◌, ◌++◌, ◌==◌, text_eq, nat_eq, if◌then◌else◌, length, ltb,
}
use rdoc_cam_hub.Netip.{Addr, is_valid}
use rdoc_cam_hub.Http.{Request, Response, Handler, write_error, write_json, JsonValue, text}
use rdoc_cam_hub.Store.{
  Device, DnsRecordType, type_a, type_aaaa, Env, Result, ok, err, not_found, failed, Database,
}
use rdoc_cam_hub.Store.Devices.{DeviceRegistration, device_create, device_delete}
use rdoc_cam_hub.Store.Tokens.{consume}
use rdoc_cam_hub.Store.Dns.{upsert}
use rdoc_cam_hub.Subdomain.{
  fqdn, Validated, valid, subdomain_invalid, subdomain_reserved, validate_subdomain, Resolved,
  assigned, lookup_failed, subdomain_exhausted, resolve_subdomain,
}
use rdoc_cam_hub.Handlers.{
  Claims, DeviceJwtSigner, DnsClient, CfCall, create_record, delete_record, World, Server, Decoded,
  body_too_large, bad_json, decoded, Packages, cf_create, cf_send, on_db, bearer_token, Parsed,
  refused, parsed, parse_public_ip, parse_public_ipv6,
}
use rdoc_cam_hub.Handlers.Heartbeat.{dns_row}

-- registerReq
pub record RegisterReq : Type 0 where
  pub device_id : Text
  pub preferred_name : Text
  pub public_ip : Text
  pub public_ipv6 : Text
  pub ports : Text
  pub capabilities : Text

abbrev pub register_max_body : ℕ
register_max_body = 16384

abbrev pub max_device_id_len : ℕ
max_device_id_len = 128

abbrev pub max_preferred_name_len : ℕ
max_preferred_name_len = 63

abbrev pub device_id_refused : RegisterReq → Bool
device_id_refused req = length req.device_id == 0 || ltb max_device_id_len (length req.device_id)

abbrev pub preferred_name_refused : RegisterReq → Bool
preferred_name_refused req =
    length req.preferred_name == 0 || ltb max_preferred_name_len (length req.preferred_name)

-- The body of registerResp; the fingerprint is left out where it is empty.
unfoldable pub register_resp : Text → Text → Text → List (String × JsonValue)
register_resp sub jwt [] = ("assigned_subdomain", text sub) ∷ ("device_jwt", text jwt) ∷ []
register_resp sub jwt pin =
    ("assigned_subdomain", text sub)
    ∷ ("device_jwt", text jwt)
    ∷ ("hub_cert_fingerprint", text pin)
    ∷ []

-- bestEffortCFDelete
unfoldable pub best_effort_cf_delete : DnsClient → World → Text → World
unfolding cf_send
best_effort_cf_delete cf w record_id =
    if record_id == [] then w else (cf_send cf w (delete_record record_id)).1

-- The removal of both records; '' stands for an AAAA record that was not made.
unfoldable pub cf_rollback : DnsClient → World → Text → Text → World
unfolding best_effort_cf_delete
cf_rollback cf w a_id aaaa_id =
    let w' = best_effort_cf_delete cf w a_id in
    if not (aaaa_id == []) then best_effort_cf_delete cf w' aaaa_id else w'

-- bestEffortDeviceDelete
unfoldable pub best_effort_device_delete : Env → World → Text → World
unfolding on_db
best_effort_device_delete env w device_id =
    if device_id == [] then w else (on_db w (λ d. device_delete env d device_id)).1

module _ (p : Packages) (env : Env) (s : Server) (jwt : DeviceJwtSigner) (cf : DnsClient)
    (req : RegisterReq) (ip4 ip6 : Addr) where
  -- The pointers into Cloudflare; an error is only logged.
  unfoldable pub register_pointers : World → Text → Text → Text → Text → World
  unfolding on_db is_valid
  register_pointers w id name a_id aaaa_id =
      let w' = (on_db w (λ d. upsert env d (dns_row id name type_a (p.show_addr ip4) a_id))).1 in
      if is_valid ip6
      then (on_db w' (λ d. upsert env d (dns_row id name type_aaaa (p.show_addr ip6) aaaa_id))).1
      else w'

  -- registerDevice behind Sign
  unfoldable pub register_signed :
      Text → Text → Text → Text → Text → World → Option Text → Response × World
  unfolding register_pointers cf_rollback best_effort_device_delete
  register_signed id sub name a_id aaaa_id w none = (
    write_error 500 "internal" "jwt sign failed",
    cf_rollback cf (best_effort_device_delete env w id) a_id aaaa_id,
  )
  register_signed id sub name a_id aaaa_id w (some signed) = (
    write_json 201 (register_resp sub signed s.hub_cert_fingerprint),
    register_pointers w id name a_id aaaa_id,
  )

  -- registerDevice behind Devices.Create
  unfoldable pub register_inserted :
      Text → Text → Text → Text → Result Device × World → Response × World
  unfolding register_signed cf_rollback
  register_inserted sub name a_id aaaa_id (err e, w) =
      (write_error 500 "internal" "device insert failed", cf_rollback cf w a_id aaaa_id)
  register_inserted sub name a_id aaaa_id (ok dev, w) =
      register_signed dev.id sub name a_id aaaa_id w
        (jwt.sign (record { device_id = dev.id; subdomain = sub }))

  abbrev pub registration : Text → DeviceRegistration
  registration sub = record {
    id = req.device_id;
    name = req.preferred_name;
    subdomain = sub;
    device_jwt_kid = jwt.signing_kid;
    capabilities = req.capabilities;
    ports = req.ports;
    public_ip = ip4;
    public_ipv6 = ip6;
  }

  unfoldable pub register_insert : Text → Text → Text → Text → World → Response × World
  unfolding register_inserted on_db
  register_insert sub name a_id aaaa_id w =
      register_inserted sub name a_id aaaa_id
        (on_db w (λ d. device_create env d (registration sub)))

  -- registerDevice behind the CreateRecord of the AAAA record
  unfoldable pub register_aaaa : Text → Text → Text → Option Text × World → Response × World
  unfolding register_insert best_effort_cf_delete
  register_aaaa sub name a_id (none, w) =
      (write_error 502 "dns_failed" "failed to create AAAA record", best_effort_cf_delete cf w a_id)
  register_aaaa sub name a_id (some aaaa_id, w) = register_insert sub name a_id aaaa_id w

  -- registerDevice behind the CreateRecord of the A record
  unfoldable pub register_a : Text → Text → Option Text × World → Response × World
  unfolding register_aaaa register_insert cf_create is_valid
  register_a sub name (none, w) = (write_error 502 "dns_failed" "failed to create A record", w)
  register_a sub name (some a_id, w) =
      if is_valid ip6
      then register_aaaa sub name a_id
          (cf_create cf w (create_record name type_aaaa (p.show_addr ip6)))
      else register_insert sub name a_id [] w

  -- registerDevice behind resolveSubdomain
  unfoldable pub register_resolved : Resolved × World → Response × World
  unfolding register_a cf_create fqdn
  register_resolved (subdomain_exhausted, w) = (
    write_error 409 "subdomain_exhausted" "too many collisions; pick a different preferred_name",
    w,
  )
  register_resolved (lookup_failed, w) = (write_error 500 "internal" "lookup failed", w)
  register_resolved (assigned sub, w) =
      let name = fqdn sub s.parent_domain in
      if s.parent_domain == []
      then (write_error 500 "internal" "hub misconfigured", w)
      else register_a sub name (cf_create cf w (create_record name type_a (p.show_addr ip4)))

  -- registerDevice behind EnrollmentTokens.Consume
  unfoldable pub register_consumed : Text → Result (Unit {0}) × World → Response × World
  unfolding register_resolved
  register_consumed base (err not_found, w) =
      (write_error 401 "unauthorized" "enrollment token not usable", w)
  register_consumed base (err failed, w) = (write_error 500 "internal" "token consume failed", w)
  register_consumed base (ok _, w) =
      let (sub, d) = resolve_subdomain env w.db base in register_resolved (sub, record w { db = d })

module _ (p : Packages) (hash : Text → Text) (env : Env) (s : Server) (jwt : DeviceJwtSigner)
    (cf : DnsClient) (token : Text) where
  -- registerDevice behind the checks of the addresses; `hash` is auth.HashEnrollmentToken
  unfoldable pub register_parsed :
      RegisterReq → Text → World → Parsed Addr → Parsed Addr → Response × World
  unfolding register_consumed on_db
  register_parsed req base w (refused res) ip6 = (res, w)
  register_parsed req base w (parsed ip4) (refused res) = (res, w)
  register_parsed req base w (parsed ip4) (parsed ip6) =
      register_consumed p env s jwt cf req ip4 ip6 base
        (on_db w (λ d. consume env d (hash token) req.device_id))

  unfoldable pub register_validated : RegisterReq → World → Validated → Response × World
  unfolding register_parsed
  register_validated req w subdomain_invalid = (
    write_error 400 "bad_request"
        "subdomain: must be 1–63 lowercase LDH characters and not start/end with '-'",
    w,
  )
  register_validated req w subdomain_reserved =
      (write_error 400 "reserved_name" "preferred_name is reserved", w)
  register_validated req w (valid base) =
      register_parsed req base w (parse_public_ip p req.public_ip)
        (parse_public_ipv6 p req.public_ipv6)

  -- registerDevice behind the decoding
  unfoldable pub register_decoded : World → Decoded RegisterReq → Response × World
  unfolding register_validated
  register_decoded w body_too_large =
      (write_error 413 "body_too_large" "request body exceeds size limit", w)
  register_decoded w bad_json = (write_error 400 "bad_request" "invalid JSON body", w)
  register_decoded w (decoded req) =
      if device_id_refused req
      then (write_error 400 "bad_request" "device_id is required and at most 128 chars", w)
      else if preferred_name_refused req
      then (write_error 400 "bad_request" "preferred_name is required and at most 63 chars", w)
      else register_validated req w (validate_subdomain p.unicode req.preferred_name)

module _ (p : Packages) (hash : Text → Text) (env : Env) where
  unfoldable pub register_configured :
      Server
      → World
      → Decoded RegisterReq
      → Option Text
      → Option DeviceJwtSigner
      → Option DnsClient
      → Response × World
  unfolding register_decoded
  register_configured s w body token (some jwt) (some cf) =
      if s.parent_domain == []
      then (write_error 503 "not_configured" "device enrollment is not enabled on this hub", w)
      else elim token [
        | none ↦ (write_error 401 "unauthorized" "missing bearer token", w)
        | some t ↦ register_decoded p hash env s jwt cf t w body
      ]
  register_configured s w body token _ _ =
      (write_error 503 "not_configured" "device enrollment is not enabled on this hub", w)

  -- registerDevice
  unfoldable pub register_device : (ℕ → Text → Decoded RegisterReq) → Server → Handler World
  unfolding register_configured
  register_device decode s r w =
      register_configured s w (decode register_max_body r.body) (bearer_token p.unicode r)
        s.device_jwt s.cf_client
