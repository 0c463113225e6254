-- ===== src/Router.antt =====
-- internal/httpapi/router.go and health.go: which handler a request reaches, behind which middleware.
--
-- chi's multiplexer is a parameter: which pattern of a table it picks, and its replies where there is
-- none. RequestID, the request log and Recoverer leave requests and replies as they are, since no
-- modelled handler panics. The state is the database with the calls to Cloudflare, and the limiter.
pub mod Admin
pub mod Split
mod Examples
use rdoc_cam_hub.Common.{
  ℕ, zero, suc, ◌+◌, Text, bytes, Bool, true, false, not, ◌||◌, Option, none, some, List, [], ◌∷◌,
  ◌++◌, ◌==◌, text_eq, if◌then◌else◌, map, differ,
}
use rdoc_cam_hub.Netip.{Prefix}
use rdoc_cam_hub.RateLimit.{IpLimiter}
use rdoc_cam_hub.Store.{Database, Env, Result, ok, err, query, admin}
use rdoc_cam_hub.Http.{Request, Response, Handler, SessionCookieConfig, write_json, word, text}
use rdoc_cam_hub.Middleware.Authz.{require_session, require_role}
use rdoc_cam_hub.Middleware.Csrf.{require_csrf}
use rdoc_cam_hub.Middleware.Cors.{cors}
use rdoc_cam_hub.Middleware.TrustedIp.{trusted_proxy_ip}
use rdoc_cam_hub.Middleware.LoginLimit.{login_rate_limiter}
use rdoc_cam_hub.Handlers.{World, Server, Packages, Decoded}
use rdoc_cam_hub.Handlers.Auth.{LoginReq, Randomness, login, refresh, logout, me}
use rdoc_cam_hub.Handlers.Register.{RegisterReq, register_device}
use rdoc_cam_hub.Handlers.Heartbeat.{HeartbeatReq, heartbeat_device}
use rdoc_cam_hub.Handlers.Admin.{Hours, MintEnrollmentReq, mint_enrollment_token}
use rdoc_cam_hub.Webui.{
  Replies, UiServer, HostRouter, login_page, dashboard, require_session_cookie,
  redirect_if_authenticated, static_handler, serve_host,
}

pub record Hub : Type 0 where
  pub limiter : IpLimiter
  pub world : World

-- A pattern of the multiplexer: one method and path, or all below a path.
pub data Pattern : Type 0 where
  exactly : (method path : Text) → Pattern
  mounted : (path : Text) → Pattern

abbrev pub get : Text → Pattern
get path = exactly (bytes "GET") path

abbrev pub post : Text → Pattern
post path = exactly (bytes "POST") path

pub data Choice : Type 0 where
  chosen : ℕ → Choice
  no_path no_method : Choice

-- chi.Mux: the index of the pattern that it picks for a method and a path.
pub record Mux : Type 0 where
  pub pick : List Pattern → Text → Text → Choice
  pub not_found : Response
  pub method_not_allowed : Response

-- httpapi.Server
pub record Site : Type 0 where
  pub server : Server
  pub version : Text
  pub cookies : SessionCookieConfig
  pub trusted_proxies : List Prefix
  pub allowed_origins : List Text
  pub app_host : Text
  pub api_host : Text
  pub web_ui : Option UiServer
  pub has_login_limiter : Bool

-- What the handlers of one request take from outside: packages, decoders, clocks and random values.
pub record Outside (F : Type 0) : Type 0 where
  pub packages : Packages
  pub parse_url : Text → Option (Text × Text)
  pub mux : Mux
  pub replies : Replies
  pub file_server : Request → Response
  pub ping_error : Text
  pub env : Env
  pub hash_token : Text → Text
  pub verify_password : Text → Text → Bool
  pub rand : Randomness
  pub minted : Option (Text × Text)
  pub hours : Hours F
  pub decode_login : ℕ → Text → Decoded LoginReq
  pub decode_register : ℕ → Text → Decoded RegisterReq
  pub decode_heartbeat : ℕ → Text → Decoded HeartbeatReq
  pub decode_mint : ℕ → Text → Decoded (MintEnrollmentReq F)

-- A handler of the tables alone, or of tables and calls, at the state of the hub.
abbrev pub on_world : Handler World → Handler Hub
on_world next r h = let (res, w) = next r h.world in (res, record h { world = w })

abbrev pub on_tables : Handler Database → Handler World
on_tables next r w = let (res, d) = next r w.db in (res, record w { db = d })

unfoldable pub health_of : Text → Text → Result (Unit {0}) × Database → Response × Database
health_of version error (ok _, d) =
    (write_json 200 (("status", word "ok") ∷ ("db", word "up") ∷ ("version", text version) ∷ []), d)
health_of version error (err e, d) = (
  write_json 503 (
      ("status", word "degraded")
      ∷ ("db", word "down")
      ∷ ("version", text version)
      ∷ ("error", text error)
      ∷ []),
  d,
)

-- healthz; Pool.Ping is a statement that changes nothing
unfoldable pub healthz : Env → Text → Text → Handler Database
unfolding health_of query
healthz env version error r d = health_of version error (query env d (λ d. (ok tt, d)))

unfoldable pub route_at : {S : Type 0} → ℕ → List (Pattern × Handler S) → Option (Handler S)
route_at n [] = none
route_at zero ((p, next) ∷ routes) = some next
route_at (suc n) (route ∷ routes) = route_at n routes

abbrev pub pattern_of : {S : Type 0} → Pattern × Handler S → Pattern
pattern_of (p, next) = p

unfoldable pub run_choice : {S : Type 0} → Mux → List (Pattern × Handler S) → Choice → Handler S
unfolding route_at
run_choice mux routes no_path r w = (mux.not_found, w)
run_choice mux routes no_method r w = (mux.method_not_allowed, w)
run_choice mux routes (chosen n) r w = elim (route_at n routes) [
  | none ↦ (mux.not_found, w)
  | some next ↦ next r w
]

unfoldable pub serve_mux : {S : Type 0} → Mux → List (Pattern × Handler S) → Handler S
unfolding run_choice
serve_mux mux routes r w =
    run_choice mux routes (mux.pick (map pattern_of routes) r.method r.path) r w

module _ {F : Type 0} (out : Outside F) (site : Site) where
  -- The handler of /v1/auth/login, behind the limiter where there is one.
  unfoldable pub limited_login : Handler Hub
  limited_login r h =
      let next : Handler World = on_tables (
        login out.env site.cookies out.rand out.verify_password out.packages.unicode
          out.decode_login) in
      let (res, (l, w)) = login_rate_limiter out.env.app_now next r (h.limiter, h.world) in
      if site.has_login_limiter
      then (res, record h { limiter = l; world = w })
      else on_world next r h

  -- The chain of the group of authenticated routes.
  unfoldable pub authenticated : Handler Database → Handler Hub
  authenticated next =
      on_world
        (on_tables (require_session out.env (require_csrf out.parse_url site.allowed_origins next)))

  -- The chain of the admin group.
  unfoldable pub admin_only : Handler Database → Handler Hub
  admin_only next = on_world (
      on_tables (
        require_session out.env
          (require_role (admin ∷ []) (require_csrf out.parse_url site.allowed_origins next))))

  abbrev pub mint_path : Text
  mint_path = bytes "/v1/admin/enrollment-tokens"

  -- The routes of apiRouter.
  unfoldable pub api_routes : List (Pattern × Handler Hub)
  unfolding limited_login authenticated admin_only healthz refresh logout register_device
      heartbeat_device me mint_enrollment_token
  api_routes =
      (get (bytes "/healthz"), on_world (on_tables (healthz out.env site.version out.ping_error)))
      ∷ (post (bytes "/v1/auth/login"), limited_login)
      ∷ (post (bytes "/v1/auth/logout"), on_world (on_tables (logout out.env site.cookies)))
      ∷ (
        post (bytes "/v1/auth/refresh"),
        on_world (on_tables (refresh out.env site.cookies out.rand)),
      )
      ∷ (
        post (bytes "/v1/devices/register"),
        on_world
            (register_device out.packages out.hash_token out.env out.decode_register site.server),
      )
      ∷ (
        post (bytes "/v1/devices/heartbeat"),
        on_world (heartbeat_device out.packages out.env out.decode_heartbeat site.server),
      )
      ∷ (get (bytes "/v1/auth/me"), authenticated me)
      ∷ (
        post mint_path,
        admin_only (mint_enrollment_token out.hours out.decode_mint out.env out.minted),
      )
      ∷ []

  -- attachWebUIRoutes
  unfoldable pub ui_routes : UiServer → List (Pattern × Handler Hub)
  unfolding static_handler redirect_if_authenticated require_session_cookie login_page dashboard
  ui_routes ui =
      (mounted (bytes "/static"), static_handler out.file_server)
      ∷ (
        get (bytes "/login"),
        redirect_if_authenticated out.replies (bytes "/") (login_page out.replies ui),
      )
      ∷ (get (bytes "/"), require_session_cookie out.replies (dashboard out.replies ui))
      ∷ []

  -- The chain of apiRouter in front of a table.
  unfoldable pub api_chain : List (Pattern × Handler Hub) → Handler Hub
  unfolding trusted_proxy_ip cors serve_mux
  api_chain routes =
      trusted_proxy_ip out.packages.unicode out.packages.netip_parse site.trusted_proxies
        (cors site.allowed_origins (serve_mux out.mux routes))

  -- webuiRouter
  unfoldable pub webui_router : UiServer → Handler Hub
  unfolding trusted_proxy_ip serve_mux ui_routes healthz
  webui_router ui =
      trusted_proxy_ip out.packages.unicode out.packages.netip_parse site.trusted_proxies (
        serve_mux out.mux (
          (
            get (bytes "/healthz"),
            on_world (on_tables (healthz out.env site.version out.ping_error)),
          )
          ∷ ui_routes ui))

  unfoldable pub router_for : Option UiServer → Handler Hub
  unfolding api_chain api_routes ui_routes webui_router serve_host
  router_for none = api_chain api_routes
  router_for (some ui) =
      if site.app_host == []
      then api_chain (api_routes ++ ui_routes ui)
      else serve_host out.packages.unicode out.replies (record {
        app_host = site.app_host;
        api_host = site.api_host;
        ui_handler = webui_router ui;
        api_handler = api_chain api_routes;
      })

  -- Server.Router, with `none` for its panic
  unfoldable pub router : Option (Handler Hub)
  unfolding router_for
  router =
      if differ (site.app_host == []) (site.api_host == [])
      then none
      else some (router_for site.web_ui)
