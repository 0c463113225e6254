-- ===== src/Handlers/Register/Cleanup.antt =====
-- The records at Cloudflare that a registration leaves behind.
use rdoc_cam_hub.Common.{
  ℕ, Text, Option, none, some, List, [], ◌∷◌, ◌==◌, text_eq, ◌≡◌, ◌≢◌, inl, inr, refl, sym, ap, ◌∙◌,
  subst, Bool-cases,
}
use rdoc_cam_hub.Netip.{Addr, is_valid}
use rdoc_cam_hub.Http.{Request, Response, write_error}
use rdoc_cam_hub.Store.{
  Device, DnsRecordType, type_a, type_aaaa, Env, Result, ok, err, not_found, failed,
}
use rdoc_cam_hub.Store.Devices.{device_create}
use rdoc_cam_hub.Subdomain.{
  fqdn, Validated, valid, subdomain_invalid, subdomain_reserved, Resolved, assigned, lookup_failed,
  subdomain_exhausted,
}
use rdoc_cam_hub.Handlers.{
  DeviceJwtSigner, DnsClient, create_record, World, Server, Decoded, body_too_large, bad_json,
  decoded, Packages, cf_create, on_db, bearer_token, Parsed, refused, parsed,
}
use rdoc_cam_hub.Handlers.Register.{
  RegisterReq, register_signed, register_inserted, register_insert, register_aaaa, register_a,
  register_resolved, register_consumed, register_parsed, register_validated, register_decoded,
  register_configured, register_device, register_max_body, device_id_refused,
  preferred_name_refused,
}
use rdoc_cam_hub.Handlers.Register.OpenRecords.{
  remove_first, with_id, open_records, NamesRecords, Opened, only_a, both, deleted_one,
  removed_head, cf_rollback_open, Opened-on_db, Opened-device_delete,
}

module _ (cf : DnsClient) where
  -- Either the answer is 201, or what is open is what was open before.
  abbrev IsClean : List Text → Response × World → Type 0
  IsClean before out = (out.0.status ≢ 201) → open_records cf out.1.cf_calls ≡ before

  module _ (p : Packages) (env : Env) (s : Server) (jwt : DeviceJwtSigner) (req : RegisterReq)
      (ip4 ip6 : Addr) (names : NamesRecords cf) where
    signed-IsClean :
        (id sub name a_id aaaa_id : Text) (w : World) (signed : Option Text) (before : List Text)
        → Opened cf w before a_id aaaa_id
        → IsClean before
            (register_signed p env s jwt cf req ip4 ip6 id sub name a_id aaaa_id w signed)
    unfolding register_signed
    signed-IsClean id sub name a_id aaaa_id w none before o ne =
        cf_rollback_open cf _ before a_id aaaa_id
          (Opened-device_delete cf env w id before a_id aaaa_id o)
    signed-IsClean id sub name a_id aaaa_id w (some t) before o ne = absurd (ne refl)

    inserted-IsClean :
        (sub name a_id aaaa_id : Text) (out : Result Device × World) (before : List Text)
        → Opened cf out.1 before a_id aaaa_id
        → IsClean before (register_inserted p env s jwt cf req ip4 ip6 sub name a_id aaaa_id out)
    unfolding register_inserted
    inserted-IsClean sub name a_id aaaa_id (err e, w) before o =
        λ bad. cf_rollback_open cf w before a_id aaaa_id o
    inserted-IsClean sub name a_id aaaa_id (ok dev, w) before o =
        signed-IsClean dev.id sub name a_id aaaa_id w _ before o

    insert-IsClean :
        (sub name a_id aaaa_id : Text) (w : World) (before : List Text)
        → Opened cf w before a_id aaaa_id
        → IsClean before (register_insert p env s jwt cf req ip4 ip6 sub name a_id aaaa_id w)
    unfolding register_insert
    insert-IsClean sub name a_id aaaa_id w before o =
        inserted-IsClean sub name a_id aaaa_id _ before (
          Opened-on_db cf w
            (λ d. device_create env d (record {
              id = req.device_id;
              name = req.preferred_name;
              subdomain = sub;
              device_jwt_kid = jwt.signing_kid;
              capabilities = req.capabilities;
              ports = req.ports;
              public_ip = ip4;
              public_ipv6 = ip6;
            }))
            before a_id aaaa_id o)

    -- A reply to CreateRecord, and what it makes of the open records.
    abbrev Created : List Text → Option Text × World → Type 0
    Created before out = (open_records cf out.1.cf_calls ≡ with_id out.0 before) × (out.0 ≢ some [])

    create-Created :
        (w : World) (name : Text) (rt : DnsRecordType) (value : Text)
        → Created (open_records cf w.cf_calls) (cf_create cf w (create_record name rt value))
    unfolding cf_create open_records
    create-Created w name rt value = (refl, names w.cf_calls (create_record name rt value))

    aaaa-IsClean :
        (sub name a_id : Text) (out : Option Text × World) (before : List Text)
        → a_id ≢ []
        → Created (a_id ∷ before) out
        → IsClean before (register_aaaa p env s jwt cf req ip4 ip6 sub name a_id out)
    unfolding register_aaaa with_id
    aaaa-IsClean sub name a_id (none, w) before ne (e, named) =
        λ bad. deleted_one cf w a_id ne ∙ (ap (remove_first a_id) e ∙ removed_head cf a_id before)
    aaaa-IsClean sub name a_id (some aaaa_id, w) before ne (e, named) =
        insert-IsClean sub name a_id aaaa_id w before (both ne (λ x. named (ap some x)) e)

    a-IsClean :
        (sub name : Text) (out : Option Text × World) (before : List Text)
        → Created before out
        → IsClean before (register_a p env s jwt cf req ip4 ip6 sub name out)
    unfolding register_a with_id
    a-IsClean sub name (none, w) before (e, named) = λ bad. e
    a-IsClean sub name (some a_id, w) before (e, named) = elim (Bool-cases (is_valid ip6)) [
      | inl given ↦ rw given (
          aaaa-IsClean sub name a_id
            (cf_create cf w (create_record name type_aaaa (p.show_addr ip6))) before
            (λ x. named (ap some x))
            (subst
              (λ l. Created l (cf_create cf w (create_record name type_aaaa (p.show_addr ip6)))) e
              (create-Created w name type_aaaa (p.show_addr ip6))))
      | inr without ↦
          rw without
            (insert-IsClean sub name a_id [] w before (only_a (λ x. named (ap some x)) refl e))
    ]

    resolved-IsClean :
        (out : Resolved × World)
        → IsClean
            (open_records cf out.1.cf_calls)
            (register_resolved p env s jwt cf req ip4 ip6 out)
    unfolding register_resolved
    resolved-IsClean (subdomain_exhausted, w) = λ bad. refl
    resolved-IsClean (lookup_failed, w) = λ bad. refl
    resolved-IsClean (assigned sub, w) = elim (Bool-cases (s.parent_domain == [])) [
      | inl missing ↦ rw missing (λ bad. refl)
      | inr given ↦ rw given (
          a-IsClean sub (fqdn sub s.parent_domain) _ (open_records cf w.cf_calls)
            (create-Created w (fqdn sub s.parent_domain) type_a (p.show_addr ip4)))
    ]

    consumed-IsClean :
        (base : Text) (out : Result (Unit {0}) × World)
        → IsClean
            (open_records cf out.1.cf_calls)
            (register_consumed p env s jwt cf req ip4 ip6 base out)
    unfolding register_consumed
    consumed-IsClean base (err not_found, w) = λ bad. refl
    consumed-IsClean base (err failed, w) = λ bad. refl
    consumed-IsClean base (ok _, w) = resolved-IsClean _

  module _ (p : Packages) (hash : Text → Text) (env : Env) (s : Server) (jwt : DeviceJwtSigner)
      (names : NamesRecords cf) (token : Text) (w : World) where
    parsed-IsClean :
        (req : RegisterReq) (base : Text) (parsed4 parsed6 : Parsed Addr)
        → IsClean
            (open_records cf w.cf_calls)
            (register_parsed p hash env s jwt cf token req base w parsed4 parsed6)
    unfolding register_parsed on_db
    parsed-IsClean req base (refused res) parsed6 = λ bad. refl
    parsed-IsClean req base (parsed ip4) (refused res) = λ bad. refl
    parsed-IsClean req base (parsed ip4) (parsed ip6) =
        consumed-IsClean p env s jwt req ip4 ip6 names base _

    validated-IsClean :
        (req : RegisterReq) (name : Validated)
        → IsClean
            (open_records cf w.cf_calls)
            (register_validated p hash env s jwt cf token req w name)
    unfolding register_validated
    validated-IsClean req subdomain_invalid = λ bad. refl
    validated-IsClean req subdomain_reserved = λ bad. refl
    validated-IsClean req (valid base) = parsed-IsClean req base _ _

    decoded-IsClean :
        (body : Decoded RegisterReq)
        → IsClean (open_records cf w.cf_calls) (register_decoded p hash env s jwt cf token w body)
    unfolding register_decoded
    decoded-IsClean body_too_large = λ bad. refl
    decoded-IsClean bad_json = λ bad. refl
    decoded-IsClean (decoded req) = elim (Bool-cases (device_id_refused req)) [
      | inl long ↦ rw long (λ bad. refl)
      | inr id ↦ elim (Bool-cases (preferred_name_refused req)) [
        | inl long ↦ rw (id, long) (λ bad. refl)
        | inr named ↦ rw (id, named) (validated-IsClean req _)
      ]
    ]

  configured-IsClean :
      (p : Packages) (hash : Text → Text) (env : Env) (s : Server) (w : World)
      (body : Decoded RegisterReq) (token : Option Text) (jwt : Option DeviceJwtSigner)
      → NamesRecords cf
      → IsClean
          (open_records cf w.cf_calls)
          (register_configured p hash env s w body token jwt (some cf))
  unfolding register_configured
  configured-IsClean p hash env s w body token none names = λ bad. refl
  configured-IsClean p hash env s w body token (some jwt) names =
      elim (Bool-cases (s.parent_domain == [])) [
        | inl missing ↦ rw missing (λ bad. refl)
        | inr given ↦ rw given (at token)
      ]
    where
      at :
          (t : Option Text)
          → IsClean (open_records cf w.cf_calls) (elim t [
            | none ↦ (write_error 401 "unauthorized" "missing bearer token", w)
            | some x ↦ register_decoded p hash env s jwt cf x w body
          ])
      at none = λ bad. refl
      at (some x) = decoded-IsClean p hash env s jwt names x w body

-- A registration at a hub with a Cloudflare client that never names a record '' and that is not
-- answered 201 leaves no record open there: for every record that it has created, it has sent the
-- deletion.
pub register_cleans_up :
    (p : Packages) (hash : Text → Text) (env : Env) (decode : ℕ → Text → Decoded RegisterReq)
    (s : Server) (r : Request) (w : World) (cf : DnsClient)
    → NamesRecords cf
    → s.cf_client ≡ some cf
    → (register_device p hash env decode s r w).0.status ≢ 201
    → open_records cf (register_device p hash env decode s r w).1.cf_calls
      ≡ open_records cf w.cf_calls
unfolding register_device
register_cleans_up p hash env decode s r w cf names given bad = at s.cf_client given bad
  where
    at :
        (c : Option DnsClient)
        → c ≡ some cf
        → (register_configured p hash env s w
            (decode register_max_body r.body)
            (bearer_token p.unicode r)
            s.device_jwt
            c).0.status
          ≢ 201
        → open_records cf
            (register_configured p hash env s w
              (decode register_max_body r.body)
              (bearer_token p.unicode r)
              s.device_jwt
              c).1.cf_calls
          ≡ open_records cf w.cf_calls
    at c e =
        subst
          (λ x.
            (register_configured p hash env s w (decode register_max_body r.body)
                (bearer_token p.unicode r) s.device_jwt x).0.status
              ≢ 201
            → open_records cf
                (register_configured p hash env s w (decode register_max_body r.body)
                  (bearer_token p.unicode r) s.device_jwt x).1.cf_calls
              ≡ open_records cf w.cf_calls)
          (sym e)
          (configured-IsClean cf p hash env s w (decode register_max_body r.body)
            (bearer_token p.unicode r) s.device_jwt names)
