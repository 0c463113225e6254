-- ===== src/Cloudflare/Reply.antt =====
-- What the client makes of the replies of Cloudflare.
use rdoc_cam_hub.Common.{
  ℕ, ◌<◌, Text, bytes, true, Option, none, some, List, [], ◌∷◌, ◌≡◌, ◌≢◌, refl, sym, Option-cases,
  inl, inr, arith, ◌>>=◌, text_beq_iff, text_eq,
}
use rdoc_cam_hub.Store.{Env}
use rdoc_cam_hub.Http.{Request}
use rdoc_cam_hub.Handlers.{
  CfCall, create_record, update_record, delete_record, Packages, Decoded, Server, World,
}
use rdoc_cam_hub.Handlers.Register.{RegisterReq, register_device}
use rdoc_cam_hub.Handlers.Register.OpenRecords.{NamesRecords, open_records}
use rdoc_cam_hub.Handlers.Register.Cleanup.{register_cleans_up}
use rdoc_cam_hub.Cloudflare.{
  Network, Client, RecordRequest, RecordResult, HttpResponse, Answer, done, failed_with,
  HttpRequest, path, record_request, request_of, max_reply, do_decoded, do_read, do_replied,
  do_marshalled, do_call, created_id, create, value_of, dns_client,
}

module _ (net : Network) (c : Client) where
  value_nonempty : (a : Answer RecordResult) → value_of (created_id net c a) ≢ some []
  value_nonempty (failed_with e) h = ground arith
  value_nonempty (done out) h = ground (arith, text_beq_iff out.id [])

  -- The client never names a record ''.
  dns_client-NamesRecords : NamesRecords (dns_client net c)
  unfolding dns_client create
  dns_client-NamesRecords log (create_record fqdn rt value) h =
      value_nonempty
        (do_call net c log (bytes "POST")
          (path net c (bytes "/zones/" ∷ c.zone_id ∷ bytes "/dns_records" ∷ []))
          (some (record_request fqdn rt value)))
        h
  dns_client-NamesRecords log (update_record id fqdn rt value) h = ground arith
  dns_client-NamesRecords log (delete_record id) h = ground arith

  -- The request went out, and its reply is a success in status and envelope that was read whole.
  pub record IsDone (past : List CfCall) (request : HttpRequest) (out : RecordResult) : Type 0 where
    pub reply : HttpResponse
    pub delivered : net.round_trip past request ≡ some reply
    pub read_back : (reply.read max_reply >>= net.unmarshal_result) ≡ some out
    pub status_ok : reply.status_code < 400
    pub success : out.success ≡ true

  do_marshalled-IsDone :
      (past : List CfCall) (method url : Text) (body : Option Text) (out : RecordResult)
      → do_marshalled net c past method url body ≡ done out
      → IsDone past (request_of net c method url body) out
  unfolding do_marshalled do_replied do_read do_decoded
  do_marshalled-IsDone past method url body out h =
      elim (Option-cases (net.round_trip past (request_of net c method url body))) [
        | inl lost ↦ absurd (ground arith)
        | inr (reply, sent) ↦ record {
          reply = reply;
          delivered = sent;
          read_back = ground arith;
          status_ok = ground arith;
          success = ground arith;
        }
      ]

  -- The body that goes out with a call is the JSON of its record.
  pub Body : Option RecordRequest → Option Text → Type 0
  Body none sent = sent ≡ none
  Body (some body) sent = (sent ≡ net.marshal_record body) × (sent ≢ none)

  -- A call to Cloudflare that succeeds has sent one request with the token of the client and the
  -- JSON of its record, and the reply was delivered, read, below status 400 and a success by its
  -- envelope.
  pub do_call-IsDone :
      (past : List CfCall) (method url : Text) (body : Option RecordRequest) (out : RecordResult)
      → do_call net c past method url body ≡ done out
      → (sent : Option Text) × Body body sent × IsDone past (request_of net c method url sent) out
  unfolding do_call Body
  do_call-IsDone past method url none out h =
      (none, refl, do_marshalled-IsDone past method url none out h)
  do_call-IsDone past method url (some body) out h = elim (Option-cases (net.marshal_record body)) [
    | inl e ↦ absurd (ground arith)
    | inr (raw, e) ↦ (
      some raw,
      (sym e, ground arith),
      do_marshalled-IsDone past method url (some raw) out (ground arith),
    )
  ]

-- Behind the Cloudflare client, a registration that is not answered 201 leaves no record open.
pub registration_cleans_up :
    (net : Network) (c : Client) (p : Packages) (hash : Text → Text) (env : Env)
    (decode : ℕ → Text → Decoded RegisterReq) (s : Server) (r : Request) (w : World)
    → s.cf_client ≡ some (dns_client net c)
    → (register_device p hash env decode s r w).0.status ≢ 201
    → open_records (dns_client net c) (register_device p hash env decode s r w).1.cf_calls
      ≡ open_records (dns_client net c) w.cf_calls
registration_cleans_up net c p hash env decode s r w given bad =
    register_cleans_up p hash env decode s r w (dns_client net c) (dns_client-NamesRecords net c)
      given bad
