-- ===== src/Config/Loaded.antt =====
-- What a configuration that loads has, and the lists in it.
use rdoc_cam_hub.Common.{
  ℕ, Text, bytes, true, false, not, some, List, [], ◌∷◌, ◌++◌, ◌==◌, text_eq, text_beq_iff, ◌≡◌,
  ◌≢◌, ◌↔◌, subst, ap, ◌∙◌, arith, All, any, nat_beq, differ, Unicode, trim_space, split,
  split-append, split-none, chain-some, some_injective, require-some,
}
use rdoc_cam_hub.Common.Int.{ℤ, pos, neg_part}
use rdoc_cam_hub.Netip.{Prefix}
use rdoc_cam_hub.Config.{
  Config, Sys, env_int, comma_entries, parse_comma_list, load, proxies, read_secret, read_cf_token,
  trimmed, env_bool, config_of,
}

-- The entries of a list with a comma between them.
abbrev pub join : List Text → Text
join [] = []
join (e ∷ []) = e
join (e ∷ f ∷ rest) = e ++ b',' ∷ join (f ∷ rest)

-- An entry that stands for itself: not empty, without blanks at its ends and without a comma.
pub record IsEntry (u : Unicode) (e : Text) : Type 0 where
  pub nonempty : e ≢ []
  pub bare : trim_space u e ≡ e
  pub one : any (λ c. nat_beq c b',') e ≡ false

module _ (sys : Sys) where
  comma_entries-cons :
      (e : Text) (parts : List Text)
      → IsEntry sys.unicode e
      → comma_entries sys (e ∷ parts) ≡ e ∷ comma_entries sys parts
  unfolding comma_entries
  comma_entries-cons e parts entry = ground (arith, entry.bare, entry.nonempty, text_beq_iff e [])

  -- A list of origins is read back from its entries with commas between them.
  pub parse_comma_list-join :
      (e : Text) (rest : List Text)
      → All (IsEntry sys.unicode) (e ∷ rest)
      → parse_comma_list sys (join (e ∷ rest)) ≡ e ∷ rest
  unfolding parse_comma_list
  parse_comma_list-join e [] (entry, entries) =
      ap (comma_entries sys) (split-none b',' e entry.one) ∙ comma_entries-cons e [] entry
  parse_comma_list-join e (f ∷ rest) (entry, entries) =
      ap (comma_entries sys) (split-append b',' e (join (f ∷ rest)) entry.one)
      ∙ comma_entries-cons e (split b',' (join (f ∷ rest))) entry
      ∙ ap (λ l. e ∷ l) (parse_comma_list-join f rest entries)

  env_int_nonneg : (key : Text) (n : ℕ) (i : ℤ) → env_int sys key (pos n) ≡ some i → neg_part i ≡ 0
  unfolding env_int
  env_int_nonneg key n i h = ground arith

  -- What the rest of the hub relies on: the hosts are set together, and the limits are not negative.
  pub record IsUsable (c : Config) : Type 0 where
    pub hosts : differ (c.app_host == []) (c.api_host == []) ≡ false
    pub per_ip : neg_part c.login_rate_limit_per_ip ≡ 0
    pub window : neg_part c.login_rate_limit_window_secs ≡ 0
    pub secret :
        read_secret sys (bytes "CAMHUB_DB_URL") (bytes "CAMHUB_DB_URL_FILE") ≡ some c.db_url
    pub proxied : proxies sys (sys.getenv (bytes "CAMHUB_TRUSTED_PROXIES")) ≡ some c.trusted_proxies
    pub secure :
        (c.cookie_secure ≡ false) ↔ (env_bool sys (bytes "CAMHUB_DEV_INSECURE_COOKIE") ≡ true)

  config_of-IsUsable :
      (trusted : List Prefix) (per_ip window : ℤ) (db_url cf_token : Text)
      → proxies sys (sys.getenv (bytes "CAMHUB_TRUSTED_PROXIES")) ≡ some trusted
      → env_int sys (bytes "CAMHUB_LOGIN_RATE_PER_IP") (pos 10) ≡ some per_ip
      → env_int sys (bytes "CAMHUB_LOGIN_RATE_WINDOW_SECS") (pos 60) ≡ some window
      → not (
          differ
            (trimmed sys (bytes "CAMHUB_APP_HOST") == [])
            (trimmed sys (bytes "CAMHUB_API_HOST") == []))
        ≡ true
      → read_secret sys (bytes "CAMHUB_DB_URL") (bytes "CAMHUB_DB_URL_FILE") ≡ some db_url
      → IsUsable (config_of sys trusted per_ip window db_url cf_token)
  unfolding config_of
  config_of-IsUsable trusted per_ip window db_url cf_token proxied rate secs hosts secret = record {
    hosts = ground (arith, hosts);
    per_ip = env_int_nonneg (bytes "CAMHUB_LOGIN_RATE_PER_IP") 10 per_ip rate;
    window = env_int_nonneg (bytes "CAMHUB_LOGIN_RATE_WINDOW_SECS") 60 window secs;
    secret = secret;
    proxied = proxied;
    secure = ground arith;
  }

  -- A configuration that loads has both hosts or neither, limits that are not negative, the proxies
  -- and the database of the environment, and cookies that are insecure only on request.
  pub load-IsUsable : (c : Config) → load sys ≡ some c → IsUsable c
  unfolding load
  load-IsUsable c h =
      let (trusted, proxied, h1) =
        chain-some (proxies sys (sys.getenv (bytes "CAMHUB_TRUSTED_PROXIES"))) _ c h in
      let (per_ip, rate, h2) =
        chain-some (env_int sys (bytes "CAMHUB_LOGIN_RATE_PER_IP") (pos 10)) _ c h1 in
      let (window, secs, h3) =
        chain-some (env_int sys (bytes "CAMHUB_LOGIN_RATE_WINDOW_SECS") (pos 60)) _ c h2 in
      let (hosts, h4) =
        require-some
          (not (
            differ (trimmed sys (bytes "CAMHUB_APP_HOST") == [])
              (trimmed sys (bytes "CAMHUB_API_HOST") == [])))
          _ c h3 in
      let (db_url, secret, h5) =
        chain-some (read_secret sys (bytes "CAMHUB_DB_URL") (bytes "CAMHUB_DB_URL_FILE")) _ c h4 in
      let (cf_token, token, h6) = chain-some (read_cf_token sys) _ c h5 in
      subst IsUsable (some_injective (config_of sys trusted per_ip window db_url cf_token) c h6)
        (config_of-IsUsable trusted per_ip window db_url cf_token proxied rate secs hosts secret)
