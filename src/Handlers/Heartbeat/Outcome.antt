-- ===== src/Handlers/Heartbeat/Outcome.antt =====
-- The heartbeat: what it stores, and when it calls Cloudflare.
use rdoc_cam_hub.Common.{
  ℕ, Text, Option, none, some, [], ◌==◌, text_eq, ◌≡◌, ◌≢◌, inl, inr, refl, ap, ◌∙◌, arith,
  Bool-cases, find, any, update_where, text_beq_iff,
}
use rdoc_cam_hub.Netip.{Addr, addr_eq}
use rdoc_cam_hub.Http.{Request, Response}
use rdoc_cam_hub.Store.{Device, Env, Result, ok, err, not_found, failed, Database}
use rdoc_cam_hub.Store.Devices.{HeartbeatUpdate, get_by_id, update_heartbeat, has_device_id, seen}
use rdoc_cam_hub.Handlers.{
  Claims, DeviceJwtSigner, DnsClient, World, Server, Decoded, body_too_large, bad_json, decoded,
  Packages, on_db, bearer_token, Parsed, refused, parsed, parse_public_ip, parse_public_ipv6,
}
use rdoc_cam_hub.Handlers.Heartbeat.{
  HeartbeatReq, combined_health, heartbeat_max_body, heartbeat_updated, heartbeat_found,
  heartbeat_parsed, heartbeat_decoded, heartbeat_claimed, heartbeat_bearer, heartbeat_configured,
  heartbeat_device,
}
use rdoc_cam_hub.Handlers.Heartbeat.Synced.{sync_v4_devices, sync_v6_devices}

-- The tables and the calls are as they were.
pub record IsKept (w w' : World) : Type 0 where
  pub devices : w'.db.devices ≡ w.db.devices
  pub dns_records : w'.db.dns_records ≡ w.db.dns_records
  pub tokens : w'.db.tokens ≡ w.db.tokens
  pub cf_calls : w'.cf_calls ≡ w.cf_calls

IsKept-refl : (w : World) → IsKept w w
IsKept-refl w = record { devices = refl; dns_records = refl; tokens = refl; cf_calls = refl }

-- What a request with these addresses sets.
abbrev pub beat_of : HeartbeatReq → Addr → Addr → HeartbeatUpdate
beat_of req ip4 ip6 = record {
  public_ip = ip4;
  public_ipv6 = ip6;
  stream_health = combined_health req;
  cam_version = req.version;
}

-- The outcomes of a heartbeat from a world: an answer other than 204, and nothing has changed;
-- or a 204 for a device of the table, whose row alone is updated.
pub data Outcome (p : Packages) (env : Env) (w : World) (body : Decoded HeartbeatReq)
    (claims : Option Claims) (out : Response × World) : Type 0 where
  rejected : out.0.status ≢ 204 → IsKept w out.1 → Outcome p env w body claims out
  beaten :
      (c : Claims) (dev : Device) (req : HeartbeatReq) (ip4 ip6 : Addr)
      → claims ≡ some c
      → body ≡ decoded req
      → parse_public_ip p req.public_ip ≡ parsed ip4
      → parse_public_ipv6 p req.public_ipv6 ≡ parsed ip6
      → find (has_device_id c.device_id) w.db.devices ≡ some dev
      → c.subdomain ≡ dev.subdomain
      → out.0.status ≡ 204
      → out.1.db.devices
        ≡ update_where (has_device_id dev.id) (seen env (beat_of req ip4 ip6)) w.db.devices
      → Outcome p env w body claims out

module _ (p : Packages) (env : Env) (cf : DnsClient) (parent : Text) where
  data Updated (d : Database) (id : Text) (h : HeartbeatUpdate) (out : Result ℕ × Database)
      : Type 0 where
    not_updated :
        (e : _)
        → out.0 ≡ err e
        → out.1.devices ≡ d.devices
        → out.1.dns_records ≡ d.dns_records
        → out.1.tokens ≡ d.tokens
        → Updated d id h out
    updated :
        (at : ℕ)
        → out.0 ≡ ok at
        → out.1.devices ≡ update_where (has_device_id id) (seen env h) d.devices
        → Updated d id h out

  update_cases :
      (d : Database) (id : Text) (h : HeartbeatUpdate)
      → Updated d id h (update_heartbeat env d id h)
  unfolding update_heartbeat
  update_cases d id h = elim (Bool-cases (env.db_up d.statements)) [
    | inr down ↦ rw down (not_updated failed refl refl refl refl)
    | inl up ↦ elim (Bool-cases (any (has_device_id id) d.devices)) [
      | inl here ↦ rw (up, here) (updated env.db_now refl refl)
      | inr absent ↦ rw (up, absent) (not_updated not_found refl refl refl refl)
    ]
  ]

  pub get_by_id_sound :
      (w : World) (id : Text) (dev : Device)
      → (on_db w (λ d. get_by_id env d id)).0 ≡ ok dev
      → find (has_device_id id) w.db.devices ≡ some dev
  unfolding on_db get_by_id
  get_by_id_sound w id dev e = ground arith

  get_by_id-IsKept : (w : World) (id : Text) → IsKept w (on_db w (λ d. get_by_id env d id)).1
  unfolding on_db get_by_id
  get_by_id-IsKept w id = record {
    devices = ground arith;
    dns_records = ground arith;
    tokens = ground arith;
    cf_calls = refl;
  }

  module _ (w : World) where
    heartbeat_updated-Outcome :
        (w' : World) (c : Claims) (dev : Device) (req : HeartbeatReq) (ip4 ip6 : Addr)
        → IsKept w w'
        → find (has_device_id c.device_id) w.db.devices ≡ some dev
        → c.subdomain ≡ dev.subdomain
        → parse_public_ip p req.public_ip ≡ parsed ip4
        → parse_public_ipv6 p req.public_ipv6 ≡ parsed ip6
        → Outcome p env w (decoded req) (some c) (
            heartbeat_updated p env cf parent dev ip4 ip6
              (on_db w' (λ d. update_heartbeat env d dev.id (beat_of req ip4 ip6))))
    unfolding heartbeat_updated on_db
    heartbeat_updated-Outcome w' c dev req ip4 ip6 kept here same good4 good6 =
        elim (update_cases w'.db dev.id (beat_of req ip4 ip6)) [
          | not_updated e broke devices dns tokens ↦ rw broke (
              rejected (λ x. ground arith)
                (record {
                  devices = devices ∙ kept.devices;
                  dns_records = dns ∙ kept.dns_records;
                  tokens = tokens ∙ kept.tokens;
                  cf_calls = kept.cf_calls;
                }))
          | updated at fine devices ↦ rw fine (
              beaten c dev req ip4 ip6 refl refl good4 good6 here same refl (
                sync_v6_devices p env cf parent _ dev ip6
                ∙ (sync_v4_devices p env cf parent _ dev ip4
                    ∙ (devices
                        ∙ ap (update_where (has_device_id dev.id) (seen env (beat_of req ip4 ip6)))
                            kept.devices))))
        ]

    heartbeat_found-Outcome :
        (c : Claims) (req : HeartbeatReq) (ip4 ip6 : Addr) (found : Result Device × World)
        → parse_public_ip p req.public_ip ≡ parsed ip4
        → parse_public_ipv6 p req.public_ipv6 ≡ parsed ip6
        → IsKept w found.1
        → ((dev : Device)
            → found.0 ≡ ok dev
            → find (has_device_id c.device_id) w.db.devices ≡ some dev)
        → Outcome p env w
            (decoded req)
            (some c)
            (heartbeat_found p env cf parent c req ip4 ip6 found)
    unfolding heartbeat_found
    heartbeat_found-Outcome c req ip4 ip6 (err not_found, w') good4 good6 kept sound =
        rejected (λ x. ground arith) kept
    heartbeat_found-Outcome c req ip4 ip6 (err failed, w') good4 good6 kept sound =
        rejected (λ x. ground arith) kept
    heartbeat_found-Outcome c req ip4 ip6 (ok dev, w') good4 good6 kept sound =
        elim (Bool-cases (c.subdomain == dev.subdomain)) [
          | inr other ↦ rw other (rejected (λ x. ground arith) kept)
          | inl same ↦ rw same (
              heartbeat_updated-Outcome w' c dev req ip4 ip6 kept (sound dev refl)
                ((text_beq_iff c.subdomain dev.subdomain).0 same) good4 good6)
        ]

    heartbeat_parsed-Outcome :
        (c : Claims) (req : HeartbeatReq) (parsed4 parsed6 : Parsed Addr)
        → parse_public_ip p req.public_ip ≡ parsed4
        → parse_public_ipv6 p req.public_ipv6 ≡ parsed6
        → ((res : Response) → parsed4 ≡ refused res → res.status ≢ 204)
        → ((res : Response) → parsed6 ≡ refused res → res.status ≢ 204)
        → Outcome p env w
            (decoded req)
            (some c)
            (heartbeat_parsed p env cf parent c req w parsed4 parsed6)
    unfolding heartbeat_parsed
    heartbeat_parsed-Outcome c req (refused res) parsed6 is4 is6 bad4 bad6 =
        rejected (bad4 res refl) (IsKept-refl w)
    heartbeat_parsed-Outcome c req (parsed ip4) (refused res) is4 is6 bad4 bad6 =
        rejected (bad6 res refl) (IsKept-refl w)
    heartbeat_parsed-Outcome c req (parsed ip4) (parsed ip6) is4 is6 bad4 bad6 =
        heartbeat_found-Outcome c req ip4 ip6 _ is4 is6 (get_by_id-IsKept w c.device_id)
          (get_by_id_sound w c.device_id)

    refused_ip : (s : Text) (res : Response) → parse_public_ip p s ≡ refused res → res.status ≢ 204
    unfolding parse_public_ip
    refused_ip s res e x = ground arith

    refused_ipv6 :
        (s : Text) (res : Response) → parse_public_ipv6 p s ≡ refused res → res.status ≢ 204
    unfolding parse_public_ipv6
    refused_ipv6 s res e x = ground arith

    heartbeat_claimed-Outcome :
        (body : Decoded HeartbeatReq) (claims : Option Claims)
        → Outcome p env w body claims (heartbeat_claimed p env cf parent w body claims)
    unfolding heartbeat_claimed heartbeat_decoded
    heartbeat_claimed-Outcome body none = rejected (λ x. ground arith) (IsKept-refl w)
    heartbeat_claimed-Outcome body_too_large (some c) = rejected (λ x. ground arith) (IsKept-refl w)
    heartbeat_claimed-Outcome bad_json (some c) = rejected (λ x. ground arith) (IsKept-refl w)
    heartbeat_claimed-Outcome (decoded req) (some c) =
        heartbeat_parsed-Outcome c req _ _ refl refl (refused_ip req.public_ip)
          (refused_ipv6 req.public_ipv6)

-- What the bearer token of a request stands for.
abbrev pub claims_of_token : Option DeviceJwtSigner → Option Text → Option Claims
claims_of_token none token = none
claims_of_token (some jwt) none = none
claims_of_token (some jwt) (some token) = jwt.verify token

heartbeat_configured-Outcome :
    (p : Packages) (env : Env) (parent : Text) (w : World) (body : Decoded HeartbeatReq)
    (token : Option Text) (jwt : Option DeviceJwtSigner) (cf : Option DnsClient)
    → Outcome p env w body
        (claims_of_token jwt token)
        (heartbeat_configured p env parent w body token jwt cf)
unfolding heartbeat_configured heartbeat_bearer
heartbeat_configured-Outcome p env parent w body token none cf =
    rejected (λ x. ground arith) (IsKept-refl w)
heartbeat_configured-Outcome p env parent w body token (some jwt) none =
    rejected (λ x. ground arith) (IsKept-refl w)
heartbeat_configured-Outcome p env parent w body token (some jwt) (some cf) =
    elim (Bool-cases (parent == [])) [
      | inl missing ↦ rw missing (rejected (λ x. ground arith) (IsKept-refl w))
      | inr given ↦ rw given (at token)
    ]
  where
    at :
        (token : Option Text)
        → Outcome p env w body
            (claims_of_token (some jwt) token)
            (heartbeat_bearer p env cf parent jwt w body token)
    at none = rejected (λ x. ground arith) (IsKept-refl w)
    at (some t) = heartbeat_claimed-Outcome p env cf parent w body (jwt.verify t)

-- A heartbeat that is not answered 204 changes no device, record or enrollment token and makes no
-- call to Cloudflare. One that is answered 204 has a token that verifies for a stored device with
-- the token's subdomain and addresses that are valid, and sets these and the rest of the beat in
-- the rows with that device's id, and in no other device.
pub heartbeat-Outcome :
    (p : Packages) (env : Env) (decode : ℕ → Text → Decoded HeartbeatReq) (s : Server) (r : Request)
    (w : World)
    → Outcome p env w
        (decode heartbeat_max_body r.body)
        (claims_of_token s.device_jwt (bearer_token p.unicode r))
        (heartbeat_device p env decode s r w)
unfolding heartbeat_device
heartbeat-Outcome p env decode s r w =
    heartbeat_configured-Outcome p env s.parent_domain w (decode heartbeat_max_body r.body)
      (bearer_token p.unicode r) s.device_jwt s.cf_client
