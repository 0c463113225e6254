-- ===== src/Handlers/Register/Enrolment.antt =====
-- What a registration needs before it may create anything.
use rdoc_cam_hub.Common.{
  ℕ, Text, true, Option, none, some, [], ◌==◌, text_eq, any, ◌≡◌, ◌≢◌, inl, inr, refl, arith,
  Bool-cases,
}
use rdoc_cam_hub.Netip.{Addr}
use rdoc_cam_hub.Http.{Request, Response, write_error}
use rdoc_cam_hub.Store.{Env, Result, ok, err, not_found, failed, Database}
use rdoc_cam_hub.Store.Tokens.{consume, usable}
use rdoc_cam_hub.Subdomain.{
  Validated, valid, subdomain_invalid, subdomain_reserved, validate_subdomain,
}
use rdoc_cam_hub.Handlers.{
  DeviceJwtSigner, DnsClient, World, Server, Decoded, body_too_large, bad_json, decoded, Packages,
  on_db, bearer_token, Parsed, refused, parsed, parse_public_ip, parse_public_ipv6,
}
use rdoc_cam_hub.Handlers.Register.{
  RegisterReq, register_consumed, register_parsed, register_validated, register_decoded,
  register_configured, register_device, register_max_body, device_id_refused,
  preferred_name_refused,
}

-- A registration has done nothing: the answer is not 201, and tables and calls are as before.
pub record IsRefused (w : World) (out : Response × World) : Type 0 where
  pub status : out.0.status ≢ 201
  pub devices : out.1.db.devices ≡ w.db.devices
  pub tokens : out.1.db.tokens ≡ w.db.tokens
  pub cf_calls : out.1.cf_calls ≡ w.cf_calls

-- Either nothing was done, or the bearer token is usable for an enrolment now and the name is one
-- that validateSubdomain lets through.
pub data Admission (p : Packages) (hash : Text → Text) (env : Env) (w : World) (token : Option Text)
    (body : Decoded RegisterReq) (out : Response × World) : Type 0 where
  not_admitted : IsRefused w out → Admission p hash env w token body out
  admitted :
      (t : Text) (req : RegisterReq) (base : Text)
      → token ≡ some t
      → body ≡ decoded req
      → validate_subdomain p.unicode req.preferred_name ≡ valid base
      → any (usable env.db_now (hash t)) w.db.tokens ≡ true
      → Admission p hash env w token body out

IsRefused-at : (w : World) (res : Response) → res.status ≢ 201 → IsRefused w (res, w)
IsRefused-at w res ne = record { status = ne; devices = refl; tokens = refl; cf_calls = refl }

-- What Consume answers.
data Consumption (env : Env) (d : Database) (h : Text) (out : Result (Unit {0}) × Database)
    : Type 0 where
  spent : any (usable env.db_now h) d.tokens ≡ true → Consumption env d h out
  unspent :
      (e : _)
      → out.0 ≡ err e
      → out.1.devices ≡ d.devices
      → out.1.tokens ≡ d.tokens
      → Consumption env d h out

consume_cases :
    (env : Env) (d : Database) (h device_id : Text)
    → Consumption env d h (consume env d h device_id)
unfolding consume
consume_cases env d h device_id = elim (Bool-cases (env.db_up d.statements)) [
  | inr down ↦ rw down (unspent failed refl refl refl)
  | inl up ↦ elim (Bool-cases (any (usable env.db_now h) d.tokens)) [
    | inl there ↦ spent there
    | inr none_there ↦ rw (up, none_there) (unspent not_found refl refl refl)
  ]
]

module _ (p : Packages) (hash : Text → Text) (env : Env) (s : Server) (jwt : DeviceJwtSigner)
    (cf : DnsClient) (w : World) (t : Text) (req : RegisterReq) where
  consumed-IsRefused :
      (ip4 ip6 : Addr) (base : Text) (e : _) (out : Result (Unit {0}) × World)
      → out.0 ≡ err e
      → out.1.db.devices ≡ w.db.devices
      → out.1.db.tokens ≡ w.db.tokens
      → out.1.cf_calls ≡ w.cf_calls
      → IsRefused w (register_consumed p env s jwt cf req ip4 ip6 base out)
  unfolding register_consumed
  consumed-IsRefused ip4 ip6 base e (err not_found, w') broke devices tokens calls = record {
    status = λ x. ground arith;
    devices = devices;
    tokens = tokens;
    cf_calls = calls;
  }
  consumed-IsRefused ip4 ip6 base e (err failed, w') broke devices tokens calls = record {
    status = λ x. ground arith;
    devices = devices;
    tokens = tokens;
    cf_calls = calls;
  }
  consumed-IsRefused ip4 ip6 base e (ok _, w') broke devices tokens calls = cc

  parsed-Admission :
      (base : Text) (parsed4 parsed6 : Parsed Addr)
      → validate_subdomain p.unicode req.preferred_name ≡ valid base
      → ((res : Response) → parsed4 ≡ refused res → res.status ≢ 201)
      → ((res : Response) → parsed6 ≡ refused res → res.status ≢ 201)
      → Admission p hash env w
          (some t)
          (decoded req)
          (register_parsed p hash env s jwt cf t req base w parsed4 parsed6)
  unfolding register_parsed on_db
  parsed-Admission base (refused res) parsed6 named bad4 bad6 =
      not_admitted (IsRefused-at w res (bad4 res refl))
  parsed-Admission base (parsed ip4) (refused res) named bad4 bad6 =
      not_admitted (IsRefused-at w res (bad6 res refl))
  parsed-Admission base (parsed ip4) (parsed ip6) named bad4 bad6 =
      elim (consume_cases env w.db (hash t) req.device_id) [
        | spent there ↦ admitted t req base refl refl named there
        | unspent e broke devices tokens ↦
            not_admitted (consumed-IsRefused ip4 ip6 base e _ broke devices tokens refl)
      ]

  refused_ip : (x : Text) (res : Response) → parse_public_ip p x ≡ refused res → res.status ≢ 201
  unfolding parse_public_ip
  refused_ip x res e y = ground arith

  refused_ipv6 :
      (x : Text) (res : Response) → parse_public_ipv6 p x ≡ refused res → res.status ≢ 201
  unfolding parse_public_ipv6
  refused_ipv6 x res e y = ground arith

  validated-Admission :
      (name : Validated)
      → validate_subdomain p.unicode req.preferred_name ≡ name
      → Admission p hash env w
          (some t)
          (decoded req)
          (register_validated p hash env s jwt cf t req w name)
  unfolding register_validated
  validated-Admission subdomain_invalid named = not_admitted (IsRefused-at w _ (λ x. ground arith))
  validated-Admission subdomain_reserved named = not_admitted (IsRefused-at w _ (λ x. ground arith))
  validated-Admission (valid base) named =
      parsed-Admission base _ _ named (refused_ip req.public_ip) (refused_ipv6 req.public_ipv6)

module _ (p : Packages) (hash : Text → Text) (env : Env) (s : Server) (w : World) where
  decoded-Admission :
      (jwt : DeviceJwtSigner) (cf : DnsClient) (t : Text) (body : Decoded RegisterReq)
      → Admission p hash env w (some t) body (register_decoded p hash env s jwt cf t w body)
  unfolding register_decoded
  decoded-Admission jwt cf t body_too_large = not_admitted (IsRefused-at w _ (λ x. ground arith))
  decoded-Admission jwt cf t bad_json = not_admitted (IsRefused-at w _ (λ x. ground arith))
  decoded-Admission jwt cf t (decoded req) = elim (Bool-cases (device_id_refused req)) [
    | inl long ↦ rw long (not_admitted (IsRefused-at w _ (λ x. ground arith)))
    | inr id ↦ elim (Bool-cases (preferred_name_refused req)) [
      | inl long ↦ rw (id, long) (not_admitted (IsRefused-at w _ (λ x. ground arith)))
      | inr named ↦ rw (id, named) (validated-Admission p hash env s jwt cf w t req _ refl)
    ]
  ]

  configured-Admission :
      (body : Decoded RegisterReq) (token : Option Text) (jwt : Option DeviceJwtSigner)
      (cf : Option DnsClient)
      → Admission p hash env w token body (register_configured p hash env s w body token jwt cf)
  unfolding register_configured
  configured-Admission body token none cf = not_admitted (IsRefused-at w _ (λ x. ground arith))
  configured-Admission body token (some jwt) none =
      not_admitted (IsRefused-at w _ (λ x. ground arith))
  configured-Admission body token (some jwt) (some cf) = elim (Bool-cases (s.parent_domain == [])) [
    | inl missing ↦ rw missing (not_admitted (IsRefused-at w _ (λ x. ground arith)))
    | inr given ↦ rw given (at token)
  ]
    where
      at :
          (x : Option Text)
          → Admission p hash env w x body (elim x [
            | none ↦ (write_error 401 "unauthorized" "missing bearer token", w)
            | some y ↦ register_decoded p hash env s jwt cf y w body
          ])
      at none = not_admitted (IsRefused-at w _ (λ x. ground arith))
      at (some y) = decoded-Admission jwt cf y body

-- A registration either is not answered 201 and changes no device, enrollment token or record at
-- Cloudflare, or has a bearer token whose hash is stored, open and not expired, and a name that
-- validateSubdomain lets through.
pub register-Admission :
    (p : Packages) (hash : Text → Text) (env : Env) (decode : ℕ → Text → Decoded RegisterReq)
    (s : Server) (r : Request) (w : World)
    → Admission p hash env w
        (bearer_token p.unicode r)
        (decode register_max_body r.body)
        (register_device p hash env decode s r w)
unfolding register_device
register-Admission p hash env decode s r w =
    configured-Admission p hash env s w (decode register_max_body r.body) (bearer_token p.unicode r)
      s.device_jwt s.cf_client
