-- ===== src/Subdomain.antt =====
-- internal/httpapi/subdomain.go and internal/cloudflare/reserved.go: the label of a device.
pub mod Label
pub mod Free
mod Examples
use rdoc_cam_hub.Common.{
  ℕ, suc, ◌+◌, ◌/◌, ◌%◌, Text, String, bytes, Bool, true, false, not, ◌&&◌, ◌||◌, Option, none,
  some, List, [], ◌∷◌, ◌++◌, ◌==◌, text_eq, nat_eq, zero, any, leb, ltb, if◌then◌else◌, Unicode,
  to_lower, trim_space, map,
}
use rdoc_cam_hub.Store.{Database, Env, Result, ok, err, not_found, failed, Device}
use rdoc_cam_hub.Store.Devices.{by_subdomain}

abbrev pub dot : ℕ
dot = b'.'

abbrev pub reserved_subdomains : List Text
reserved_subdomains =
    bytes "api"
    ∷ bytes "app"
    ∷ bytes "hub"
    ∷ bytes "admin"
    ∷ bytes "camhub"
    ∷ bytes "www"
    ∷ bytes "mail"
    ∷ bytes "ftp"
    ∷ bytes "smtp"
    ∷ bytes "pop"
    ∷ bytes "pop3"
    ∷ bytes "imap"
    ∷ bytes "webmail"
    ∷ bytes "ns"
    ∷ bytes "ns1"
    ∷ bytes "ns2"
    ∷ bytes "ns3"
    ∷ bytes "mx"
    ∷ bytes "mx1"
    ∷ bytes "mx2"
    ∷ bytes "dns"
    ∷ bytes "dkim"
    ∷ bytes "spf"
    ∷ bytes "dmarc"
    ∷ bytes "financial"
    ∷ bytes "webrtc"
    ∷ bytes "stream"
    ∷ bytes "streaming"
    ∷ bytes "auth"
    ∷ bytes "oauth"
    ∷ bytes "sso"
    ∷ bytes "login"
    ∷ bytes "register"
    ∷ bytes "grafana"
    ∷ bytes "prom"
    ∷ bytes "prometheus"
    ∷ bytes "metrics"
    ∷ bytes "status"
    ∷ bytes "health"
    ∷ bytes "healthz"
    ∷ bytes "root"
    ∷ bytes "test"
    ∷ bytes "staging"
    ∷ bytes "dev"
    ∷ bytes "localhost"
    ∷ []

-- strings.TrimSuffix(n, ".")
unfoldable pub trim_suffix_dot : Text → Text
trim_suffix_dot [] = []
trim_suffix_dot (c ∷ []) = if c == dot then [] else c ∷ []
trim_suffix_dot (c ∷ d ∷ rest) = c ∷ trim_suffix_dot (d ∷ rest)

-- IsReserved
unfoldable pub is_reserved : Unicode → Text → Bool
unfolding to_lower trim_space trim_suffix_dot any
is_reserved u name =
    let n = trim_suffix_dot (to_lower u (trim_space u name)) in
    n == [] || any (λ c. c == dot) n || any (λ r. r == n) reserved_subdomains

unfoldable pub is_alnum : ℕ → Bool
is_alnum c = (leb b'a' c && leb c b'z') || (leb b'0' c && leb c b'9')

unfoldable pub is_ldh : ℕ → Bool
unfolding is_alnum
is_ldh c = is_alnum c || c == b'-'

-- [a-z0-9-]{0,k}[a-z0-9]$
unfoldable pub matches_tail : ℕ → Text → Bool
unfolding is_ldh is_alnum
matches_tail k [] = false
matches_tail k (c ∷ []) = is_alnum c
matches_tail zero (c ∷ d ∷ rest) = false
matches_tail (suc k) (c ∷ d ∷ rest) = is_ldh c && matches_tail k (d ∷ rest)

-- subdomainLabel: ^[a-z0-9]([a-z0-9-]{0,61}[a-z0-9])?$
unfoldable pub subdomain_label : Text → Bool
unfolding matches_tail is_alnum
subdomain_label [] = false
subdomain_label (c ∷ []) = is_alnum c
subdomain_label (c ∷ d ∷ rest) = is_alnum c && matches_tail 61 (d ∷ rest)

pub data Validated : Type 0 where
  valid : Text → Validated
  subdomain_invalid subdomain_reserved : Validated

-- validateSubdomain
unfoldable pub validate_subdomain : Unicode → Text → Validated
unfolding to_lower trim_space subdomain_label is_reserved
validate_subdomain u name =
    let n = to_lower u (trim_space u name) in
    if not (subdomain_label n)
    then subdomain_invalid
    else if is_reserved u n
    then subdomain_reserved
    else valid n

-- %d, for a number below 100
unfoldable pub two_digits : ℕ → Text
two_digits n = if ltb n 10 then (b'0' + n) ∷ [] else (b'0' + n / 10) ∷ (b'0' + n % 10) ∷ []

unfoldable pub suffixed : Text → ℕ → Text
unfolding two_digits
suffixed base n = base ++ b'-' ∷ two_digits n

-- Whether a lookup says that its subdomain is free.
unfoldable pub free_of : Result Device → Result Bool
free_of (ok dev) = ok false
free_of (err not_found) = ok true
free_of (err failed) = err failed

-- isSubdomainFree
unfoldable pub is_subdomain_free : Env → Database → Text → Result Bool × Database
unfolding by_subdomain free_of
is_subdomain_free env d sub = let (found, d) = by_subdomain env d sub in (free_of found, d)

pub data Resolved : Type 0 where
  assigned : Text → Resolved
  lookup_failed subdomain_exhausted : Resolved

-- The loop of resolveSubdomain from the suffix n, with k suffixes left to try.
unfoldable pub try_suffixes : Env → Text → ℕ → ℕ → Database → Resolved × Database
unfolding is_subdomain_free
try_suffixes env base zero n d = (subdomain_exhausted, d)
try_suffixes env base (suc k) n d =
    let (free, d') = is_subdomain_free env d (suffixed base n) in
    let rest = try_suffixes env base k (n + 1) d' in
    elim free [
      | err e ↦ (lookup_failed, d')
      | ok is_free ↦ if is_free then (assigned (suffixed base n), d') else rest
    ]

abbrev pub max_subdomain_suffix : ℕ
max_subdomain_suffix = 99

-- resolveSubdomain
unfoldable pub resolve_subdomain : Env → Database → Text → Resolved × Database
unfolding is_subdomain_free
resolve_subdomain env d base =
    let (free, d) = is_subdomain_free env d base in
    elim free [
      | err e ↦ (lookup_failed, d)
      | ok is_free ↦ if is_free then (assigned base, d) else try_suffixes env base 98 2 d
    ]

unfoldable pub fqdn : Text → Text → Text
fqdn subdomain parent = subdomain ++ dot ∷ parent
