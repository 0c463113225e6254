-- ===== src/Handlers.antt =====
-- The handlers, and internal/httpapi/devices_deps.go: what the device handlers work with and share.
--
-- The signer of device tokens and the Cloudflare client are interfaces in the source and parameters
-- here: a reply may depend on all calls made so far. A call is kept in the world whatever its reply.
pub mod Auth
pub mod Heartbeat
pub mod Register
pub mod Admin
mod Examples
use rdoc_cam_hub.Common.{
  ℕ, ◌+◌, Text, bytes, Bool, true, false, not, ◌&&◌, ◌||◌, Option, none, some, List, [], ◌∷◌, ◌++◌,
  ◌==◌, text_eq, nat_eq, if◌then◌else◌, Unicode, trim_space, map,
}
use rdoc_cam_hub.Netip.{Addr, invalid, is_4, is_6, is_4_in_6}
use rdoc_cam_hub.Http.{Request, Response, header_get, write_error}
use rdoc_cam_hub.Store.{Database, DnsRecordType, Result}

-- devicejwt.Claims, less the time of issue
pub record Claims : Type 0 where
  pub device_id : Text
  pub subdomain : Text

-- DeviceJWTSigner
pub record DeviceJwtSigner : Type 0 where
  pub sign : Claims → Option Text
  pub verify : Text → Option Claims
  pub signing_kid : Text

pub data CfCall : Type 0 where
  create_record : (fqdn : Text) (type : DnsRecordType) (value : Text) → CfCall
  update_record : (record_id fqdn : Text) (type : DnsRecordType) (value : Text) → CfCall
  delete_record : (record_id : Text) → CfCall

-- cloudflare.DNSClient: the replies, after the earlier calls. `none` and `false` are errors.
pub record DnsClient : Type 0 where
  pub created : List CfCall → CfCall → Option Text
  pub accepted : List CfCall → CfCall → Bool

-- The database and the calls to Cloudflare, the latest first.
pub record World : Type 0 where
  pub db : Database
  pub cf_calls : List CfCall

-- The fields of Server that the device handlers read.
pub record Server : Type 0 where
  pub device_jwt : Option DeviceJwtSigner
  pub cf_client : Option DnsClient
  pub parent_domain : Text
  pub hub_cert_fingerprint : Text

-- dec.Decode behind http.MaxBytesReader with a limit
pub data Decoded (A : Type 0) : Type 0 where
  body_too_large bad_json : Decoded A
  decoded : A → Decoded A

-- Functions of Go's packages: netip.ParseAddr, with `invalid` for an error, and Addr.String.
pub record Packages : Type 0 where
  pub unicode : Unicode
  pub netip_parse : Text → Addr
  pub show_addr : Addr → Text

-- CreateRecord of the client
unfoldable pub cf_create : DnsClient → World → CfCall → Option Text × World
cf_create cf w call = (cf.created w.cf_calls call, record w { cf_calls = call ∷ w.cf_calls })

-- UpdateRecord and DeleteRecord of the client
unfoldable pub cf_send : DnsClient → World → CfCall → Bool × World
cf_send cf w call = (cf.accepted w.cf_calls call, record w { cf_calls = call ∷ w.cf_calls })

-- A statement on the database of the world.
unfoldable pub on_db : {A : Type 0} → World → (Database → Result A × Database) → Result A × World
on_db w run = let (out, d) = run w.db in (out, record w { db = d })

-- The text behind a prefix, which is given in lower case and matched in any case.
unfoldable pub cut_prefix_fold : Text → Text → Option Text
cut_prefix_fold [] s = some s
cut_prefix_fold (p ∷ ps) [] = none
cut_prefix_fold (p ∷ ps) (c ∷ s) =
    let rest = cut_prefix_fold ps s in
    if (c == p) || ((c + 32 == p) && not (p == 0x20)) then rest else none

unfoldable pub bearer_rest : Unicode → Option Text → Option Text
unfolding trim_space
bearer_rest u none = none
bearer_rest u (some rest) = if trim_space u rest == [] then none else some (trim_space u rest)

-- bearerToken
unfoldable pub bearer_token : Unicode → Request → Option Text
unfolding header_get cut_prefix_fold bearer_rest
bearer_token u r =
    bearer_rest u (cut_prefix_fold (bytes "bearer ") (header_get r (bytes "Authorization")))

pub data Parsed (A : Type 0) : Type 0 where
  refused : Response → Parsed A
  parsed : A → Parsed A

-- The check of public_ip.
unfoldable pub parse_public_ip : Packages → Text → Parsed Addr
unfolding is_4
parse_public_ip p s =
    if is_4 (p.netip_parse s)
    then parsed (p.netip_parse s)
    else refused (write_error 400 "bad_request" "public_ip must be a valid IPv4 address")

-- The check of public_ipv6, which may be left out.
unfoldable pub parse_public_ipv6 : Packages → Text → Parsed Addr
unfolding is_6 is_4_in_6
parse_public_ipv6 p s =
    if s == []
    then parsed invalid
    else if is_6 (p.netip_parse s) && not (is_4_in_6 (p.netip_parse s))
    then parsed (p.netip_parse s)
    else refused (write_error 400 "bad_request" "public_ipv6 must be a valid IPv6 address")
