-- ===== src/Http.antt =====
-- Requests, responses and cookies as the handlers of internal/httpapi see them (json.go,
-- cookie.go, principal.go), and the constants of internal/auth/session.go.
--
-- Header names are in canonical form. A response is what the handler hands to the writer: status,
-- headers, Set-Cookie headers and the JSON object, less its encoding.
use rdoc_cam_hub.Common.Int.{ℤ, pos, negsuc}
use rdoc_cam_hub.Common.{
  ℕ, ◌+◌, ◌*◌, ◌^◌, Text, String, bytes, Bool, true, false, Option, none, some, List, [], ◌∷◌, ◌++◌,
  ◌==◌, text_eq, if◌then◌else◌,
}
use rdoc_cam_hub.Netip.{Addr}
use rdoc_cam_hub.Store.{Role}

abbrev pub second : ℕ
second = 10 ^ 9

abbrev pub hour : ℕ
hour = 3600 * second

abbrev pub session_access_ttl : ℕ
session_access_ttl = 15 * 60 * second

abbrev pub session_refresh_window : ℕ
session_refresh_window = 7 * 24 * hour

abbrev pub session_cookie_name : Text
session_cookie_name = bytes "camhub_session"

abbrev pub csrf_cookie_name : Text
csrf_cookie_name = bytes "camhub_csrf"

abbrev pub csrf_header_name : Text
csrf_header_name = bytes "X-CSRF-Token"

pub record Principal : Type 0 where
  pub user_id : ℕ
  pub email : Text
  pub role : Role
  pub session_id : Text

-- `client_ip` and `principal` are the values of the request's context.
pub record Request : Type 0 where
  pub method : Text
  pub path : Text
  pub host : Text
  pub remote_addr : Text
  pub user_agent : Text
  pub content_length : ℤ
  pub headers : List (Text × Text)
  pub cookies : List (Text × Text)
  pub body : Text
  pub client_ip : Addr
  pub principal : Option Principal

-- The first value of a name.
unfoldable pub lookup : Text → List (Text × Text) → Option Text
lookup name [] = none
lookup name ((n, v) ∷ rest) = if n == name then some v else lookup name rest

unfoldable pub or_empty : Option Text → Text
or_empty none = []
or_empty (some v) = v

-- r.Header.Get
unfoldable pub header_get : Request → Text → Text
unfolding lookup or_empty
header_get r name = or_empty (lookup name r.headers)

-- r.Header.Values
unfoldable pub header_values : List (Text × Text) → Text → List Text
header_values [] name = []
header_values ((n, v) ∷ rest) name =
    let others = header_values rest name in if n == name then v ∷ others else others

-- r.Cookie, with '' where there is none
unfoldable pub cookie_value : Request → Text → Text
unfolding lookup or_empty
cookie_value r name = or_empty (lookup name r.cookies)

pub data JsonValue : Type 0 where
  word : String → JsonValue
  text : Text → JsonValue
  number : ℕ → JsonValue
  role : Role → JsonValue

pub data Body : Type 0 where
  nothing : Body
  json : List (String × JsonValue) → Body
  html : Text → Body

-- `max_age` is 0 where it is not set; every cookie is SameSite=Lax.
pub record Cookie : Type 0 where
  pub name : Text
  pub value : Text
  pub path : Text
  pub domain : Text
  pub http_only : Bool
  pub secure : Bool
  pub expires : Option ℕ
  pub max_age : ℤ

pub record Response : Type 0 where
  pub status : ℕ
  pub headers : List (Text × Text)
  pub cookies : List Cookie
  pub body : Body

abbrev pub json_type : List (Text × Text)
json_type = (bytes "Content-Type", bytes "application/json; charset=utf-8") ∷ []

-- writeJSON
abbrev pub write_json : ℕ → List (String × JsonValue) → Response
write_json status fields = record {
  status = status;
  headers = json_type;
  cookies = [];
  body = json fields;
}

-- writeError
abbrev pub write_error : ℕ → String → String → Response
write_error status code message =
    write_json status (("error", word code) ∷ ("message", word message) ∷ [])

-- w.WriteHeader alone
abbrev pub write_status : ℕ → Response
write_status status = record { status = status; headers = []; cookies = []; body = nothing }

abbrev pub with_cookies : List Cookie → Response → Response
with_cookies cookies res = record res { cookies = cookies ++ res.cookies }

abbrev pub with_headers : List (Text × Text) → Response → Response
with_headers headers res = record res { headers = headers ++ res.headers }

-- A handler over a state, and the state after it.
abbrev pub Handler : Type 0 → Type 0
Handler S = Request → S → Response × S

pub record SessionCookieConfig : Type 0 where
  pub secure : Bool
  pub domain : Text

abbrev root : Text
root = bytes "/"

-- SessionCookieConfig.New and NewSession
unfoldable pub new_cookie : SessionCookieConfig → Text → Text → ℕ → Cookie
new_cookie c name value expires = record {
  name = name;
  value = value;
  path = root;
  domain = c.domain;
  http_only = true;
  secure = c.secure;
  expires = some expires;
  max_age = pos 0;
}

unfoldable pub new_session : SessionCookieConfig → ℕ → Text → Cookie
unfolding new_cookie
new_session c now value = new_cookie c session_cookie_name value (now + session_access_ttl)

unfoldable pub new_clearing : SessionCookieConfig → Text → Cookie
new_clearing c name = record {
  name = name;
  value = [];
  path = root;
  domain = c.domain;
  http_only = true;
  secure = c.secure;
  expires = none;
  max_age = negsuc 0;
}

unfoldable pub new_csrf : SessionCookieConfig → ℕ → Text → Cookie
new_csrf c now value = record {
  name = csrf_cookie_name;
  value = value;
  path = root;
  domain = c.domain;
  http_only = false;
  secure = c.secure;
  expires = some (now + session_access_ttl);
  max_age = pos 0;
}

unfoldable pub new_clearing_csrf : SessionCookieConfig → Cookie
new_clearing_csrf c = record {
  name = csrf_cookie_name;
  value = [];
  path = root;
  domain = c.domain;
  http_only = false;
  secure = c.secure;
  expires = none;
  max_age = negsuc 0;
}
