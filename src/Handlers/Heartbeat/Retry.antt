-- ===== src/Handlers/Heartbeat/Retry.antt =====
-- What a heartbeat does not do: answer by Cloudflare's reply, or call again.
use rdoc_cam_hub.Common.{
  ℕ, Text, true, Option, none, some, List, [], ◌∷◌, ◌==◌, text_eq, ◌≡◌, inl, inr, refl, sym, ap,
  ◌∙◌, subst, arith, Bool-cases, find, find-test, update_where, text_beq_iff, ==-refl,
}
use rdoc_cam_hub.Netip.{Addr, is_valid, addr_eq, addr_beq_iff, is_4}
use rdoc_cam_hub.Http.{Request}
use rdoc_cam_hub.Store.{Device, Env, Result, ok, err, not_found, failed}
use rdoc_cam_hub.Store.Devices.{coalesce_ip, get_by_id, has_device_id, seen}
use rdoc_cam_hub.Handlers.{
  Claims, DeviceJwtSigner, DnsClient, World, Server, Decoded, decoded, Packages, on_db,
  bearer_token, parsed, parse_public_ip, parse_public_ipv6,
}
use rdoc_cam_hub.Handlers.Heartbeat.{
  HeartbeatReq, heartbeat_max_body, sync_v4, sync_v6, heartbeat_updated, heartbeat_found,
  heartbeat_parsed, heartbeat_decoded, heartbeat_claimed, heartbeat_bearer, heartbeat_configured,
  heartbeat_device,
}
use rdoc_cam_hub.Handlers.Heartbeat.Outcome.{
  get_by_id_sound, claims_of_token, rejected, beaten, beat_of, heartbeat-Outcome,
}

module _ (p : Packages) (env : Env) (parent : Text) (w : World) (cf cf' : DnsClient) where
  same_answer :
      (body : Decoded HeartbeatReq) (token : Option Text) (jwt : Option DeviceJwtSigner)
      → (heartbeat_configured p env parent w body token jwt (some cf)).0
        ≡ (heartbeat_configured p env parent w body token jwt (some cf')).0
  unfolding heartbeat_configured heartbeat_bearer heartbeat_claimed heartbeat_decoded
      heartbeat_parsed heartbeat_found heartbeat_updated
  same_answer body token none = refl
  same_answer body token (some jwt) = ground arith

-- The answer to a heartbeat does not depend on what Cloudflare replies.
pub heartbeat_answer :
    (p : Packages) (env : Env) (decode : ℕ → Text → Decoded HeartbeatReq) (s : Server) (r : Request)
    (w : World) (cf cf' : DnsClient)
    → (heartbeat_device p env decode (record s { cf_client = some cf }) r w).0
      ≡ (heartbeat_device p env decode (record s { cf_client = some cf' }) r w).0
unfolding heartbeat_device
heartbeat_answer p env decode s r w cf cf' =
    same_answer p env s.parent_domain w cf cf' (decode heartbeat_max_body r.body)
      (bearer_token p.unicode r) s.device_jwt

found_seen :
    (devices : List Device) (id : Text) (f : Device → Device) (dev : Device)
    → ((x : Device) → (f x).id ≡ x.id)
    → find (has_device_id id) devices ≡ some dev
    → find (has_device_id id) (update_where (has_device_id dev.id) f devices) ≡ some (f dev)
unfolding find update_where
found_seen [] id f dev keeps e = cc
found_seen (x ∷ devices) id f dev keeps e = ground (
  arith,
  keeps x,
  text_beq_iff x.id id,
  text_beq_iff x.id dev.id,
  ==-refl x.id,
  find-test (has_device_id id) (x ∷ devices) dev e,
  text_beq_iff dev.id id,
  found_seen devices id f dev keeps,
)

parsed_ip : (p : Packages) (s : Text) (a : Addr) → parse_public_ip p s ≡ parsed a → is_4 a ≡ true
unfolding parse_public_ip
parsed_ip p s a e = ground arith

module _ (p : Packages) (env : Env) (cf : DnsClient) (parent : Text) where
  -- A row that has the addresses already is not synchronised.
  quiet_updated :
      (dev : Device) (ip4 ip6 : Addr) (out : Result ℕ × World)
      → is_4 ip4 ≡ true
      → dev.public_ip ≡ ip4
      → (is_valid ip6 ≡ true → dev.public_ipv6 ≡ ip6)
      → (heartbeat_updated p env cf parent dev ip4 ip6 out).1.cf_calls ≡ out.1.cf_calls
  unfolding heartbeat_updated sync_v4 sync_v6 is_4 is_valid
  quiet_updated dev ip4 ip6 (err e, w) is4 same4 same6 = refl
  quiet_updated dev ip4 ip6 (ok at, w) is4 same4 same6 = ground (
    arith,
    λ (h : is_valid ip6 ≡ true). same6 h,
    addr_beq_iff dev.public_ip ip4,
    addr_beq_iff dev.public_ipv6 ip6,
  )

  quiet_found :
      (c : Claims) (req : HeartbeatReq) (ip4 ip6 : Addr) (found : Result Device × World)
      → is_4 ip4 ≡ true
      → ((dev : Device) → found.0 ≡ ok dev → dev.public_ip ≡ ip4)
      → ((dev : Device) → found.0 ≡ ok dev → is_valid ip6 ≡ true → dev.public_ipv6 ≡ ip6)
      → (heartbeat_found p env cf parent c req ip4 ip6 found).1.cf_calls ≡ found.1.cf_calls
  unfolding heartbeat_found on_db
  quiet_found c req ip4 ip6 (err not_found, w) is4 same4 same6 = refl
  quiet_found c req ip4 ip6 (err failed, w) is4 same4 same6 = refl
  quiet_found c req ip4 ip6 (ok dev, w) is4 same4 same6 =
      elim (Bool-cases (c.subdomain == dev.subdomain)) [
        | inr other ↦ rw other refl
        | inl same ↦ rw same (quiet_updated dev ip4 ip6 _ is4 (same4 dev refl) (same6 dev refl))
      ]

  -- A beat with the addresses that the row of its device has.
  quiet_claimed :
      (w : World) (c : Claims) (req : HeartbeatReq) (ip4 ip6 : Addr) (dev : Device)
      → parse_public_ip p req.public_ip ≡ parsed ip4
      → parse_public_ipv6 p req.public_ipv6 ≡ parsed ip6
      → find (has_device_id c.device_id) w.db.devices ≡ some dev
      → dev.public_ip ≡ ip4
      → (is_valid ip6 ≡ true → dev.public_ipv6 ≡ ip6)
      → (heartbeat_claimed p env cf parent w (decoded req) (some c)).1.cf_calls ≡ w.cf_calls
  unfolding heartbeat_claimed heartbeat_decoded heartbeat_parsed on_db
  quiet_claimed w c req ip4 ip6 dev good4 good6 here same4 same6 =
      rw (good4, good6)
        (quiet_found c req ip4 ip6 _ (parsed_ip p req.public_ip ip4 good4)
          (λ x e. ap (λ (y : Device). y.public_ip) (row_is x e) ∙ same4)
          (λ x e h. ap (λ (y : Device). y.public_ipv6) (row_is x e) ∙ same6 h))
    where
      row_is : (x : Device) → (on_db w (λ d. get_by_id env d c.device_id)).0 ≡ ok x → x ≡ dev
      row_is x e = let there = get_by_id_sound p env cf parent w c.device_id x e in cc

quiet_configured :
    (p : Packages) (env : Env) (parent : Text) (w : World) (req : HeartbeatReq) (ip4 ip6 : Addr)
    (token : Option Text) (jwt : Option DeviceJwtSigner) (cf : Option DnsClient) (c : Claims)
    (dev : Device)
    → claims_of_token jwt token ≡ some c
    → parse_public_ip p req.public_ip ≡ parsed ip4
    → parse_public_ipv6 p req.public_ipv6 ≡ parsed ip6
    → find (has_device_id c.device_id) w.db.devices ≡ some dev
    → dev.public_ip ≡ ip4
    → (is_valid ip6 ≡ true → dev.public_ipv6 ≡ ip6)
    → (heartbeat_configured p env parent w (decoded req) token jwt cf).1.cf_calls ≡ w.cf_calls
unfolding heartbeat_configured heartbeat_bearer
quiet_configured p env parent w req ip4 ip6 token none cf c dev e good4 good6 here same4 same6 =
    refl
quiet_configured p env parent w req ip4 ip6 token (some jwt) none c dev e good4 good6 here same4
      same6 =
    refl
quiet_configured p env parent w req ip4 ip6 none (some jwt) (some cf) c dev e good4 good6 here same4
      same6 =
    cc
quiet_configured p env parent w req ip4 ip6 (some t) (some jwt) (some cf) c dev e good4 good6 here
      same4 same6 =
    elim (Bool-cases (parent == [])) [
      | inl missing ↦ rw missing refl
      | inr given ↦
          rw (given, e)
            (quiet_claimed p env cf parent w c req ip4 ip6 dev good4 good6 here same4 same6)
    ]

coalesced4 : (new old : Addr) → is_4 new ≡ true → coalesce_ip new old ≡ new
unfolding coalesce_ip is_4 is_valid
coalesced4 new old h = ground arith

coalesced6 : (new old : Addr) → is_valid new ≡ true → coalesce_ip new old ≡ new
unfolding coalesce_ip
coalesced6 new old h = ground arith

-- A heartbeat that was answered 204, sent again in the world that it left, makes no call to
-- Cloudflare, also where the calls of the first one failed.
pub heartbeat_not_retried :
    (p : Packages) (env later : Env) (decode : ℕ → Text → Decoded HeartbeatReq) (s : Server)
    (r : Request) (w : World)
    → (heartbeat_device p env decode s r w).0.status ≡ 204
    → let w' = (heartbeat_device p env decode s r w).1 in
      (heartbeat_device p later decode s r w').1.cf_calls ≡ w'.cf_calls
unfolding heartbeat_device
heartbeat_not_retried p env later decode s r w done = elim (heartbeat-Outcome p env decode s r w) [
  | rejected other kept ↦ absurd (other done)
  | beaten c dev req ip4 ip6 claimed body good4 good6 here same answered table ↦
      let w' = (heartbeat_device p env decode s r w).1 in
      subst
        (λ b.
          (heartbeat_configured p later s.parent_domain w' b (bearer_token p.unicode r) s.device_jwt
            s.cf_client).1.cf_calls
          ≡ w'.cf_calls)
        (sym body)
        (quiet_configured p later s.parent_domain w' req ip4 ip6 (bearer_token p.unicode r)
          s.device_jwt s.cf_client c (seen env (beat_of req ip4 ip6) dev) claimed good4 good6
          (ap (find (has_device_id c.device_id)) table
            ∙ found_seen w.db.devices c.device_id (seen env (beat_of req ip4 ip6)) dev (λ x. refl)
                here)
          (coalesced4 ip4 dev.public_ip (parsed_ip p req.public_ip ip4 good4))
          (coalesced6 ip6 dev.public_ipv6))
]
