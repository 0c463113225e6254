-- ===== src/Cli/Serve.antt =====
-- cmd/camhub/main.go, runServe: from the configuration to the site that is served, and the loops that
-- purge and sweep. The listener and its shutdown are not modelled.
use rdoc_cam_hub.Common.{
  ℕ, ◌*◌, Text, bytes, Bool, true, false, not, ◌&&◌, ◌||◌, Option, none, some, List, [], ◌∷◌, ◌==◌,
  text_eq, ◌≡◌, ◌≢◌, sym, ap, arith, if◌then◌else◌, ◌>>=◌, ◌>>◌, require, chain-some, require-some,
  some_injective, Encoding, Json, differ,
}
use rdoc_cam_hub.Http.{second}
use rdoc_cam_hub.Store.{Database, Env}
use rdoc_cam_hub.Store.Sessions.{purge_expired}
use rdoc_cam_hub.Store.Devices.{mark_stale}
use rdoc_cam_hub.Config.{Config, Sys, load}
use rdoc_cam_hub.Config.Loaded.{load-IsUsable}
use rdoc_cam_hub.Cloudflare.{Client, Network, dns_client}
use rdoc_cam_hub.Cloudflare
use rdoc_cam_hub.DeviceJwt.{Ring, Libraries, sign, verify}
use rdoc_cam_hub.DeviceJwt.File.{FileSystem, RingFile, load_ring_file}
use rdoc_cam_hub.Middleware.LoginLimit.{limiter_of}
use rdoc_cam_hub.Webui.{Assets, UiServer, new_ui}
use rdoc_cam_hub.Handlers.{DeviceJwtSigner, DnsClient}
use rdoc_cam_hub.Router.{Site, Outside, router}

abbrev version : Text
version = bytes "0.1.0-m0.5"

-- A ring as the signer of the handlers, at a time. The time of issue is left to Sign.
unfoldable pub ring_signer : Libraries → ℕ → Ring → DeviceJwtSigner
unfolding sign verify
ring_signer lib now ring = record {
  sign = λ c.
      sign lib ring now
        (record { device_id = c.device_id; subdomain = c.subdomain; issued_at = none; kid = [] });
  verify = λ token. do
    claims ← verify lib ring now token
    some (record { device_id = claims.device_id; subdomain = claims.subdomain });
  signing_kid = ring.current_kid;
}

-- The switch over the Cloudflare token and zone: no client, a client, or an error.
unfoldable pub cf_client_of : Config → Option (Option Client)
unfolding Cloudflare.new
cf_client_of cfg =
    if not (cfg.cf_api_token == []) && not (cfg.cf_zone_id == [])
    then (do
      client ←
          Cloudflare.new
            (record { api_token = cfg.cf_api_token; zone_id = cfg.cf_zone_id; base_url = [] })
      some (some client))
    else if not (cfg.cf_api_token == []) || not (cfg.cf_zone_id == [])
    then none
    else some none

-- What a start of the server finds: the libraries, and whether Migrate and Open succeed.
pub record Machine (S : Type 0) : Type 0 where
  pub sys : Sys
  pub assets : Assets
  pub os : FileSystem S
  pub hex : Encoding
  pub ring_json : Json RingFile
  pub jwt : Libraries
  pub network : Network
  pub migrated : Bool
  pub opened : Bool

module _ {S : Type 0} (m : Machine S) (files : S) (now : ℕ) where
  -- The device-JWT ring, which may be left out.
  unfoldable pub ring_of : Config → Option (Option Ring)
  unfolding load_ring_file
  ring_of cfg = if cfg.device_jwt_ring_file == [] then some none else (do
    ring ← load_ring_file m.os m.hex m.ring_json files cfg.device_jwt_ring_file
    some (some ring))

  abbrev pub signer_of : Option Ring → Option DeviceJwtSigner
  signer_of none = none
  signer_of (some ring) = some (ring_signer m.jwt now ring)

  abbrev pub dns_of : Option Client → Option DnsClient
  dns_of none = none
  dns_of (some client) = some (dns_client m.network client)

  abbrev pub has_limiter : Config → Bool
  has_limiter cfg =
      elim (limiter_of
        (record {
          per_ip = cfg.login_rate_limit_per_ip;
          window_secs = cfg.login_rate_limit_window_secs;
        })
        now) [ none ↦ false | some limiter ↦ true ]

  -- httpapi.New with the options of runServe, and the limiter
  unfoldable pub site_of : Config → UiServer → Option Ring → Option Client → Site
  site_of cfg ui ring client = record {
    server = record {
      device_jwt = signer_of ring;
      cf_client = dns_of client;
      parent_domain = cfg.parent_domain;
      hub_cert_fingerprint = cfg.hub_cert_fingerprint;
    };
    version = version;
    cookies = record { secure = cfg.cookie_secure; domain = cfg.cookie_domain };
    trusted_proxies = cfg.trusted_proxies;
    allowed_origins = cfg.allowed_origins;
    app_host = cfg.app_host;
    api_host = cfg.api_host;
    web_ui = some ui;
    has_login_limiter = has_limiter cfg;
  }

  -- runServe behind config.Load, up to the listener
  unfoldable pub served : Config → Option Site
  unfolding new_ui ring_of cf_client_of site_of
  served cfg = do
    require m.migrated
    require m.opened
    ui ← new_ui m.assets cfg.api_base version
    ring ← ring_of cfg
    client ← cf_client_of cfg
    some (site_of cfg ui ring client)

  -- runServe up to the listener
  unfoldable pub run_serve : List Text → Option Site
  unfolding load served
  run_serve args = do
    require (elim args [ [] ↦ true | a ∷ rest ↦ false ])
    cfg ← load m.sys
    served cfg

-- One pass of the purge, and of the sweep over the devices.
unfoldable pub run_purge : Env → Database → Database
unfolding purge_expired
run_purge env d = (purge_expired env d).1

abbrev pub stale_after : ℕ
stale_after = 5 * 60 * second

abbrev pub offline_after : ℕ
offline_after = 15 * 60 * second

unfoldable pub run_sweep : Env → Database → Database
unfolding mark_stale
run_sweep env d = (mark_stale env d stale_after offline_after).1

module _ {S : Type 0} (m : Machine S) (files : S) (now : ℕ) where
  served-hosts :
      (cfg : Config) (site : Site)
      → served m files now cfg ≡ some site
      → (site.app_host ≡ cfg.app_host) × (site.api_host ≡ cfg.api_host)
  unfolding served site_of
  served-hosts cfg site h =
      let (migrated, h1) = require-some m.migrated _ site h in
      let (opened, h2) = require-some m.opened _ site h1 in
      let (ui, parsed, h3) = chain-some (new_ui m.assets cfg.api_base version) _ site h2 in
      let (ring, loaded, h4) = chain-some (ring_of m files now cfg) _ site h3 in
      let (client, made, h5) = chain-some (cf_client_of cfg) _ site h4 in
      let same = some_injective (site_of m files now cfg ui ring client) site h5 in
      (sym (ap (λ (x : Site). x.app_host) same), sym (ap (λ (x : Site). x.api_host) same))

  router_whole :
      {F : Type 0} (out : Outside F) (site : Site)
      → differ (site.app_host == []) (site.api_host == []) ≡ false
      → router out site ≢ none
  unfolding router
  router_whole out site whole panics = ground (arith, whole, panics)

  -- A server that starts has a router: Router does not panic, whatever the environment.
  pub run_serve-router :
      {F : Type 0} (out : Outside F) (args : List Text) (site : Site)
      → run_serve m files now args ≡ some site
      → router out site ≢ none
  unfolding run_serve
  run_serve-router out args site h =
      let (no_args, h1) = require-some (elim args [ [] ↦ true | a ∷ rest ↦ false ]) _ site h in
      let (cfg, loaded, h2) = chain-some (load m.sys) (served m files now) site h1 in
      let (app, api) = served-hosts cfg site h2 in
      router_whole out site (rw (app, api) (load-IsUsable m.sys cfg loaded).hosts)
