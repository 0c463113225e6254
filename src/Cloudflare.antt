-- ===== src/Cloudflare.antt =====
-- internal/cloudflare/client.go: the HTTP client of Cloudflare's API for DNS records.
--
-- The transport, JSON and net/url are parameters. The transport may answer as it likes after the calls
-- so far; the error of a call is its kind, and its text is for the log.
pub mod Url
pub mod Reply
mod Examples
use rdoc_cam_hub.Common.{
  ℕ, ◌*◌, Text, bytes, Bool, true, false, not, ◌||◌, Option, none, some, List, [], ◌∷◌, ◌++◌, ◌==◌,
  text_eq, if◌then◌else◌, has_prefix, trim_right, leb, nat_eq, take,
}
use rdoc_cam_hub.Store.{DnsRecordType, type_a, type_aaaa}
use rdoc_cam_hub.Handlers.{CfCall, create_record, update_record, delete_record, DnsClient}

abbrev pub default_record_ttl : ℕ
default_record_ttl = 60

abbrev pub max_reply : ℕ
max_reply = 1024 * 1024

-- recordRequest
pub record RecordRequest : Type 0 where
  pub type : Text
  pub name : Text
  pub content : Text
  pub ttl : ℕ
  pub proxied : Bool

-- apiE
pub record ApiE : Type 0 where
  pub code : ℕ
  pub message : Text

-- recordResult, with the id of its result
pub record RecordResult : Type 0 where
  pub success : Bool
  pub errors : List ApiE
  pub id : Text

-- The error of a call. The last is APIError.
pub data CallError : Type 0 where
  marshal_request build_request no_reply read_response empty_id : CallError
  non_json_body : (status : ℕ) (preview : Text) → CallError
  api_error : (status : ℕ) (errors : List ApiE) → CallError

pub data Answer (A : Type 0) : Type 0 where
  done : A → Answer A
  failed_with : CallError → Answer A

-- http.Request
pub record HttpRequest : Type 0 where
  pub method : Text
  pub url : Text
  pub headers : List (Text × Text)
  pub body : Option Text

-- http.Response, with what reading at most so many bytes of its body gives
pub record HttpResponse : Type 0 where
  pub status_code : ℕ
  pub read : ℕ → Option Text

pub record Network : Type 0 where
  pub round_trip : List CfCall → HttpRequest → Option HttpResponse
  pub valid_url : Text → Bool
  pub path_escape : Text → Text
  pub marshal_record : RecordRequest → Option Text
  pub unmarshal_result : Text → Option RecordResult

-- Config, less the optional HTTP client
pub record Config : Type 0 where
  pub api_token : Text
  pub zone_id : Text
  pub base_url : Text

pub record Client : Type 0 where
  pub api_token : Text
  pub zone_id : Text
  pub base_url : Text

abbrev default_base_url : Text
default_base_url = bytes "https://api.cloudflare.com/client/v4"

abbrev is_slash : ℕ → Bool
is_slash c = c == b'/'

-- New
unfoldable pub new : Config → Option Client
unfolding trim_right
new cfg =
    if (cfg.api_token == []) || (cfg.zone_id == [])
    then none
    else some (record {
      api_token = cfg.api_token;
      zone_id = cfg.zone_id;
      base_url =
          trim_right is_slash (if cfg.base_url == [] then default_base_url else cfg.base_url);
    })

abbrev pub record_type : DnsRecordType → Text
record_type type_a = bytes "A"
record_type type_aaaa = bytes "AAAA"

abbrev pub record_request : Text → DnsRecordType → Text → RecordRequest
record_request fqdn rt value = record {
  type = record_type rt;
  name = fqdn;
  content = value;
  ttl = default_record_ttl;
  proxied = false;
}

module _ (net : Network) (c : Client) where
  -- A part of a path: verbatim if it begins with a slash.
  unfoldable pub segment : Text → Text
  unfolding has_prefix
  segment part = if has_prefix part (bytes "/") then part else net.path_escape part

  unfoldable pub segments : List Text → Text
  unfolding segment
  segments [] = []
  segments (p ∷ parts) = segment p ++ segments parts

  -- Client.path
  unfoldable pub path : List Text → Text
  unfolding segments
  path parts = c.base_url ++ segments parts

  abbrev pub request_of : Text → Text → Option Text → HttpRequest
  request_of method url body = record {
    method = method;
    url = url;
    headers =
        (bytes "Authorization", bytes "Bearer " ++ c.api_token)
        ∷ (bytes "Content-Type", bytes "application/json")
        ∷ (bytes "Accept", bytes "application/json")
        ∷ [];
    body = body;
  }

  -- Client.do behind json.Unmarshal
  unfoldable pub do_decoded : ℕ → Text → Option RecordResult → Answer RecordResult
  do_decoded status raw none = failed_with (non_json_body status (take 256 raw))
  do_decoded status raw (some out) =
      if not out.success || leb 400 status
      then failed_with (api_error status out.errors)
      else done out

  -- Client.do behind io.ReadAll
  unfoldable pub do_read : ℕ → Option Text → Answer RecordResult
  unfolding do_decoded
  do_read status none = failed_with read_response
  do_read status (some raw) = do_decoded status raw (net.unmarshal_result raw)

  -- Client.do behind http.Do
  unfoldable pub do_replied : Option HttpResponse → Answer RecordResult
  unfolding do_read
  do_replied none = failed_with no_reply
  do_replied (some resp) = do_read resp.status_code (resp.read max_reply)

  -- Client.do behind json.Marshal
  unfoldable pub do_marshalled : List CfCall → Text → Text → Option Text → Answer RecordResult
  unfolding do_replied
  do_marshalled past method url body =
      if net.valid_url url
      then do_replied (net.round_trip past (request_of method url body))
      else failed_with build_request

  -- Client.do; a call without a body is `none`
  unfoldable pub do_call : List CfCall → Text → Text → Option RecordRequest → Answer RecordResult
  unfolding do_marshalled
  do_call past method url none = do_marshalled past method url none
  do_call past method url (some body) = at (net.marshal_record body)
    where
      at : Option Text → Answer RecordResult
      at none = failed_with marshal_request
      at (some raw) = do_marshalled past method url (some raw)

  abbrev pub created_id : Answer RecordResult → Answer Text
  created_id (failed_with e) = failed_with e
  created_id (done out) = if out.id == [] then failed_with empty_id else done out.id

  abbrev pub record_url : Text → Text
  record_url record_id = path (bytes "/zones/" ∷ c.zone_id ∷ bytes "/dns_records/" ∷ record_id ∷ [])

  -- Client.CreateRecord
  unfoldable pub create : List CfCall → Text → DnsRecordType → Text → Answer Text
  unfolding do_call path
  create past fqdn rt value = created_id (
      do_call past (bytes "POST") (path (bytes "/zones/" ∷ c.zone_id ∷ bytes "/dns_records" ∷ []))
        (some (record_request fqdn rt value)))

  -- Client.UpdateRecord
  unfoldable pub update : List CfCall → Text → Text → DnsRecordType → Text → Answer RecordResult
  unfolding do_call path
  update past record_id fqdn rt value =
      do_call past (bytes "PUT") (record_url record_id) (some (record_request fqdn rt value))

  -- Client.DeleteRecord
  unfoldable pub delete : List CfCall → Text → Answer RecordResult
  unfolding do_call path
  delete past record_id = do_call past (bytes "DELETE") (record_url record_id) none

abbrev pub value_of : {A : Type 0} → Answer A → Option A
value_of (done a) = some a
value_of (failed_with e) = none

abbrev pub succeeds : {A : Type 0} → Answer A → Bool
succeeds (done a) = true
succeeds (failed_with e) = false

-- The client as the DNSClient of the handlers.
unfoldable pub dns_client : Network → Client → DnsClient
unfolding create update delete
dns_client net c = record { created = created; accepted = accepted }
  where
    created : List CfCall → CfCall → Option Text
    created past (create_record fqdn rt value) = value_of (create net c past fqdn rt value)
    created past _ = none

    accepted : List CfCall → CfCall → Bool
    accepted past (update_record id fqdn rt value) = succeeds (update net c past id fqdn rt value)
    accepted past (delete_record id) = succeeds (delete net c past id)
    accepted past _ = false
