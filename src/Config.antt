-- ===== src/Config.antt =====
-- internal/config/config.go
--
-- The environment, the files, strconv.Atoi and netip.ParsePrefix are parameters. An error of a load is
-- `none`; its text is for the operator.
pub mod Loaded
use rdoc_cam_hub.Common.{
  ℕ, Text, bytes, Bool, true, false, not, ◌||◌, Option, none, some, List, [], ◌∷◌, ◌++◌, ◌==◌,
  text_eq, nat_eq, if◌then◌else◌, ◌>>=◌, ◌>>◌, require, differ, Unicode, to_lower, trim_space,
  trim_right, split,
}
use rdoc_cam_hub.Common.Int.{ℤ, pos, ltb_ℤ}
use rdoc_cam_hub.Netip.{Prefix}

pub data Level : Type 0 where
  level_debug level_info level_warn level_error : Level

pub record Config : Type 0 where
  pub listen : Text
  pub db_url : Text
  pub log_level : Level
  pub cookie_secure : Bool
  pub cookie_domain : Text
  pub trusted_proxies : List Prefix
  pub login_rate_limit_per_ip : ℤ
  pub login_rate_limit_window_secs : ℤ
  pub allowed_origins : List Text
  pub app_host : Text
  pub api_host : Text
  pub api_base : Text
  pub parent_domain : Text
  pub cf_api_token : Text
  pub cf_zone_id : Text
  pub device_jwt_ring_file : Text
  pub hub_cert_fingerprint : Text

-- os.Getenv, os.ReadFile, strconv.Atoi and netip.ParsePrefix
pub record Sys : Type 0 where
  pub unicode : Unicode
  pub getenv : Text → Text
  pub read_file : Text → Option Text
  pub atoi : Text → Option ℤ
  pub parse_prefix : Text → Option Prefix

abbrev is_line_end : ℕ → Bool
is_line_end c = c == 13 || c == 10

module _ (sys : Sys) where
  -- envOr
  unfoldable pub env_or : Text → Text → Text
  env_or key default = if sys.getenv key == [] then default else sys.getenv key

  abbrev pub int_of : Option ℤ → Option ℤ
  int_of parsed = do n ← parsed; require (not (ltb_ℤ n (pos 0))); some n

  -- envInt
  unfoldable pub env_int : Text → ℤ → Option ℤ
  unfolding trim_space
  env_int key default =
      let v = trim_space sys.unicode (sys.getenv key) in
      if v == [] then some default else int_of (sys.atoi v)

  -- envBool
  unfoldable pub env_bool : Text → Bool
  unfolding trim_space to_lower
  env_bool key =
      let v = to_lower sys.unicode (trim_space sys.unicode (sys.getenv key)) in
      v == bytes "1" || v == bytes "true" || v == bytes "yes" || v == bytes "on"

  -- The loop of parseCommaList.
  unfoldable pub comma_entries : List Text → List Text
  unfolding trim_space
  comma_entries [] = []
  comma_entries (p ∷ parts) =
      let rest = comma_entries parts in
      let p' = trim_space sys.unicode p in if p' == [] then rest else p' ∷ rest

  -- parseCommaList
  unfoldable pub parse_comma_list : Text → List Text
  unfolding comma_entries split
  parse_comma_list s = comma_entries (split b',' s)

  -- The loop of parseCIDRList.
  unfoldable pub cidr_entries : List Text → Option (List Prefix)
  unfolding trim_space
  cidr_entries [] = some []
  cidr_entries (p ∷ parts) =
      let rest = cidr_entries parts in
      let p' = trim_space sys.unicode p in
      if p' == []
      then rest
      else do prefix ← sys.parse_prefix p'; prefixes ← rest; some (prefix ∷ prefixes)

  -- parseCIDRList
  unfoldable pub parse_cidr_list : Text → Option (List Prefix)
  unfolding cidr_entries split
  parse_cidr_list s = cidr_entries (split b',' s)

  -- parseLevel
  unfoldable pub parse_level : Text → Level
  unfolding to_lower
  parse_level s =
      let v = to_lower sys.unicode s in
      if v == bytes "debug"
      then level_debug
      else if v == bytes "warn" || v == bytes "warning"
      then level_warn
      else if v == bytes "error"
      then level_error
      else level_info

  abbrev pub secret_file : Text → Option Text
  secret_file path = do content ← sys.read_file path; some (trim_right is_line_end content)

  -- readSecret
  unfoldable pub read_secret : Text → Text → Option Text
  unfolding trim_right
  read_secret env_var file_var =
      if not (sys.getenv file_var == [])
      then secret_file (sys.getenv file_var)
      else if not (sys.getenv env_var == [])
      then some (sys.getenv env_var)
      else none

  -- The Cloudflare token, which may be left out.
  unfoldable pub read_cf_token : Option Text
  unfolding trim_right
  read_cf_token =
      if not (sys.getenv (bytes "CAMHUB_CF_API_TOKEN_FILE") == [])
      then secret_file (sys.getenv (bytes "CAMHUB_CF_API_TOKEN_FILE"))
      else some (sys.getenv (bytes "CAMHUB_CF_API_TOKEN"))

  abbrev pub trimmed : Text → Text
  trimmed key = trim_space sys.unicode (sys.getenv key)

  abbrev pub proxies : Text → Option (List Prefix)
  proxies raw = if raw == [] then some [] else parse_cidr_list raw

  abbrev pub origins : Text → List Text
  origins raw = if raw == [] then [] else parse_comma_list raw

  -- The configuration of Load behind its steps that may fail.
  unfoldable pub config_of : List Prefix → ℤ → ℤ → Text → Text → Config
  unfolding env_or env_bool parse_level parse_comma_list trim_space
  config_of trusted per_ip window_secs db_url cf_token = record {
    listen = env_or (bytes "CAMHUB_LISTEN") (bytes ":8080");
    db_url = db_url;
    log_level = parse_level (env_or (bytes "CAMHUB_LOG_LEVEL") (bytes "info"));
    cookie_secure = not (env_bool (bytes "CAMHUB_DEV_INSECURE_COOKIE"));
    cookie_domain = sys.getenv (bytes "CAMHUB_COOKIE_DOMAIN");
    trusted_proxies = trusted;
    login_rate_limit_per_ip = per_ip;
    login_rate_limit_window_secs = window_secs;
    allowed_origins = origins (sys.getenv (bytes "CAMHUB_ALLOWED_ORIGINS"));
    app_host = trimmed (bytes "CAMHUB_APP_HOST");
    api_host = trimmed (bytes "CAMHUB_API_HOST");
    api_base = trimmed (bytes "CAMHUB_API_BASE");
    parent_domain = trimmed (bytes "CAMHUB_PARENT_DOMAIN");
    cf_api_token = cf_token;
    cf_zone_id = trimmed (bytes "CAMHUB_CF_ZONE_ID");
    device_jwt_ring_file = trimmed (bytes "CAMHUB_DEVICE_JWT_RING_FILE");
    hub_cert_fingerprint = trimmed (bytes "CAMHUB_HUB_CERT_FINGERPRINT");
  }

  -- Load
  unfoldable pub load : Option Config
  unfolding env_or env_bool env_int parse_level parse_comma_list parse_cidr_list read_secret
      read_cf_token trim_space
  load = do
    trusted ← proxies (sys.getenv (bytes "CAMHUB_TRUSTED_PROXIES"))
    per_ip ← env_int (bytes "CAMHUB_LOGIN_RATE_PER_IP") (pos 10)
    window_secs ← env_int (bytes "CAMHUB_LOGIN_RATE_WINDOW_SECS") (pos 60)
    require (
        not (
          differ (trimmed (bytes "CAMHUB_APP_HOST") == [])
            (trimmed (bytes "CAMHUB_API_HOST") == [])))
    db_url ← read_secret (bytes "CAMHUB_DB_URL") (bytes "CAMHUB_DB_URL_FILE")
    cf_token ← read_cf_token
    some (config_of trusted per_ip window_secs db_url cf_token)
