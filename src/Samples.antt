-- ===== src/Samples.antt =====
-- Concrete libraries for the tests: a codec that shifts bytes, files as a function, and so on.
use rdoc_cam_hub.Common.{
  ℕ, zero, suc, ◌+◌, ◌-◌, ◌&&◌, Text, bytes, true, false, Option, none, some, [], ◌∷◌, ◌==◌,
  text_eq, text_beq_iff, ==-refl, ◌≡◌, ◌≢◌, refl, ap, arith, any, nat_beq, length, Encoding,
  IsInverse, Unicode, if◌then◌else◌,
}
use rdoc_cam_hub.Common.Int.{pos}
use rdoc_cam_hub.Netip.{v4}
use rdoc_cam_hub.Store.{Env}
use rdoc_cam_hub.Http.{write_status}
use rdoc_cam_hub.Handlers.{bad_json, decoded}
use rdoc_cam_hub.Handlers.Admin.{Hours}
use rdoc_cam_hub.Webui.{UiServer}
use rdoc_cam_hub.Cloudflare.{Network, RecordResult}
use rdoc_cam_hub.Router.{Pattern, exactly, mounted, Choice, chosen, no_path, Mux, Site, Outside}
use rdoc_cam_hub.Router.Admin.{pattern_at}
use rdoc_cam_hub.DeviceJwt.{Header, ClaimsWire, Ed25519, Libraries}
use rdoc_cam_hub.DeviceJwt.File.{FileSystem}
use rdoc_cam_hub.DeviceJwt.File.Saved.{IsFaithful}
use rdoc_cam_hub.Password.{Argon2, dollar, cost}
use rdoc_cam_hub.Password.Verified.{IsSound}

abbrev pub plain : Unicode
plain = record { lower = λ s. s; trim = λ s. s }

-- Every byte moved up by 47, beyond '$' and '.'.
abbrev pub up : Text → Text
up [] = []
up (c ∷ s) = (c + 47) ∷ up s

abbrev pub down : Text → Text
down [] = []
down (c ∷ s) = (c - 47) ∷ down s

abbrev pub shift : Encoding
shift = record { encode = up; decode = λ s. some (down s) }

down-up : (s : Text) → down (up s) ≡ s
down-up [] = refl
down-up (c ∷ s) = ground (arith, down-up s)

pub shift-IsInverse : IsInverse shift
shift-IsInverse s = ap (λ t. some t) (down-up s)

pub shift_without : (b : ℕ) → (b + 1 - 47 ≡ 0) → (s : Text) → any (λ c. nat_beq c b) (up s) ≡ false
unfolding any
shift_without b low [] = refl
shift_without b low (c ∷ s) = ground (arith, low, shift_without b low s)

abbrev pub same : Encoding
same = record { encode = λ s. s; decode = λ s. some s }

-- Files as a function, where every operation succeeds.
abbrev pub Files : Type 0
Files = Text → Option Text

abbrev pub put : Files → Text → Option Text → Files
put files path content q = if q == path then content else files q

abbrev pub disk : FileSystem Files
disk = record {
  read = λ files path. files path;
  write = λ files path content mode. (true, put files path (some content));
  rename = λ files source target. (true, put files target (files source));
  remove = λ files path. put files path none;
}

put_same :
    (files : Files) (path : Text) (content : Option Text) → put files path content path ≡ content
put_same files path content = ground (arith, ==-refl path)

put_other :
    (files : Files) (path other : Text) (content : Option Text)
    → path ≢ other
    → put files path content other ≡ files other
put_other files path other content h = ground (arith, h, text_beq_iff other path)

pub disk-IsFaithful : IsFaithful disk
disk-IsFaithful = record {
  written = λ files path content mode done. put_same files path (some content);
  write_other = λ files path content other mode h. put_other files path other (some content) h;
  renamed = λ files source target done. put_same files target (files source);
  rename_failed = λ files source target other failed. absurd (ground (arith, failed));
  remove_other = λ files path other h. put_other files path other none h;
}

-- The first n bytes of a text, filled up with zeros.
abbrev pub pad : ℕ → Text → Text
pad zero s = []
pad (suc n) [] = 0 ∷ pad n []
pad (suc n) (c ∷ s) = c ∷ pad n s

length-pad : (n : ℕ) (s : Text) → length (pad n s) ≡ n
length-pad zero s = refl
length-pad (suc n) [] = ground (arith, length-pad n [])
length-pad (suc n) (c ∷ s) = ground (arith, length-pad n s)

-- A derivation that keeps the password.
abbrev pub argon : Argon2
argon = record {
  version = 19;
  id_key = λ password salt c n. some (pad n password);
  show = λ n. bytes "1";
  scan_version = λ s. some 19;
  scan_cost = λ s. some cost;
  base64 = shift;
}

pub argon-IsSound : IsSound argon
unfolding any
argon-IsSound = record {
  base64_inverse = shift-IsInverse;
  base64_dollarless = shift_without dollar refl;
  version_read = refl;
  version_dollarless = refl;
  cost_read = refl;
  cost_dollarless = refl;
  key_length = λ password salt key c n e. ground (arith, e, length-pad n password);
}

abbrev pub material : Text
material = pad 32 (bytes "material")

-- A signature that is the message itself.
abbrev pub ed25519 : Ed25519
ed25519 = record {
  public_of = λ seed. material;
  sign = λ seed message. message;
  verify = λ public message signature. message == signature;
}

abbrev pub lib : Libraries
lib = record {
  ed25519 = ed25519;
  base64 = shift;
  header_json = record {
    marshal = λ (h : Header). some h.kid;
    unmarshal = λ s. some (record { alg = bytes "EdDSA"; kid = s; typ = bytes "JWT" });
  };
  claims_json = record {
    marshal = λ (w : ClaimsWire). some w.sub;
    unmarshal = λ s. some (record { sub = s; dom = bytes "cam"; iat = pos 5 });
  };
}

abbrev pub result : RecordResult
result = record { success = true; errors = []; id = bytes "r1" }

abbrev pub net : Network
net = record {
  round_trip = λ past request. some (record { status_code = 200; read = λ limit. some [] });
  valid_url = λ url. true;
  path_escape = λ s. s;
  marshal_record = λ body. some body.content;
  unmarshal_result = λ s. some result;
}

-- A multiplexer that knows one index of its table.
abbrev pub choose : ℕ → Text → Text → Option Pattern → Choice
choose n method path none = no_path
choose n method path (some (mounted p)) = no_path
choose n method path (some (exactly m p)) = if m == method && p == path then chosen n else no_path

abbrev pub mux_at : ℕ → Mux
mux_at n = record {
  pick = λ patterns method path. choose n method path (pattern_at n patterns);
  not_found = write_status 404;
  method_not_allowed = write_status 405;
}

abbrev pub hours : Hours ℕ
hours = record { is_positive = λ n. true; to_duration = λ n. pos n }

abbrev pub env : Env
env = record { app_now = 1000; db_now = 1000; db_up = λ n. true }

abbrev pub outside_at : ℕ → Outside ℕ
outside_at n = record {
  packages = record { unicode = plain; netip_parse = λ s. v4 1; show_addr = λ a. [] };
  parse_url = λ s. none;
  mux = mux_at n;
  replies = record {
    redirect = λ target status. write_status status;
    not_found = write_status 404;
    error = λ s status. write_status status;
  };
  file_server = λ r. write_status 404;
  ping_error = [];
  env = env;
  hash_token = λ s. s;
  verify_password = λ password stored. false;
  rand = record { session_id = none; csrf_token = none };
  minted = some (bytes "raw", bytes "hash");
  hours = hours;
  decode_login = λ limit s. bad_json;
  decode_register = λ limit s. bad_json;
  decode_heartbeat = λ limit s. bad_json;
  decode_mint = λ limit s. decoded (record { ttl_hours = some 500; note = [] });
}

abbrev pub ui : UiServer
ui = record { templates = []; api_base = []; app_version = [] }

abbrev pub site : Site
site = record {
  server = record {
    device_jwt = none;
    cf_client = none;
    parent_domain = [];
    hub_cert_fingerprint = [];
  };
  version = [];
  cookies = record { secure = true; domain = [] };
  trusted_proxies = [];
  allowed_origins = [];
  app_host = [];
  api_host = [];
  web_ui = some ui;
  has_login_limiter = false;
}
