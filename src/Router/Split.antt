-- ===== src/Router/Split.antt =====
-- The split by host: what the other hosts cannot do.
use rdoc_cam_hub.Common.{
  ◌+◌, Unicode, Text, bytes, false, some, List, [], ◌∷◌, ◌==◌, text_eq, text_beq_iff, ◌≡◌, ◌≢◌, ◌⊎◌,
  inl, inr, refl, sym, ap, ◌∙◌, subst, arith, All,
}
use rdoc_cam_hub.Store.{query}
use rdoc_cam_hub.Http.{Request, Handler}
use rdoc_cam_hub.Middleware.TrustedIp.{trusted_proxy_ip, resolved}
use rdoc_cam_hub.Webui.{
  UiServer, Replies, serve_host, hostname, HostRouter, login_page, dashboard, static_handler,
  redirect_if_authenticated, require_session_cookie,
}
use rdoc_cam_hub.Router.{
  Hub, Pattern, Site, Outside, serve_mux, ui_routes, api_chain, api_routes, pattern_of,
  webui_router, router_for, router, get, on_world, on_tables, healthz, health_of,
}
use rdoc_cam_hub.Router.Admin.{Meets, IsSound, serve_mux-Q}
use rdoc_cam_hub.Router.Admin.Reached.{router_built}

-- The hub behind a ping of the database.
abbrev pub pinged : Hub → Hub
pinged h = record h {
  world = record h.world { db = record h.world.db { statements = h.world.db.statements + 1 } };
}

-- A handler that does at most a ping.
pub IsIdle : Request → Hub → Handler Hub → Type 0
IsIdle r h next = ((next r h).1 ≡ h) ⊎ ((next r h).1 ≡ pinged h)

serve_host_other :
    {S : Type 0} (u : Unicode) (replies : Replies) (hosts : HostRouter S) (r : Request) (w : S)
    → hosts.app_host ≢ []
    → hosts.api_host ≢ []
    → hostname u r.host ≢ hosts.api_host
    → (serve_host u replies hosts r w ≡ hosts.ui_handler r w)
      ⊎ (serve_host u replies hosts r w ≡ (replies.not_found, w))
unfolding serve_host
serve_host_other u replies hosts r w app api other = ground (
  arith,
  text_beq_iff hosts.app_host [],
  text_beq_iff hosts.api_host [],
  text_beq_iff (hostname u r.host) hosts.api_host,
)

module _ {F : Type 0} (out : Outside F) (site : Site) (sound : IsSound out.mux) where
  module _ (r : Request) (h : Hub) where
    healthz-IsIdle : IsIdle r h (on_world (on_tables (healthz out.env site.version out.ping_error)))
    unfolding IsIdle healthz health_of query
    healthz-IsIdle = inr (ground arith)

    page-IsIdle :
        (next : Handler Hub)
        → (next r h).1 ≡ h
        → IsIdle r h (require_session_cookie out.replies next)
    unfolding IsIdle require_session_cookie
    page-IsIdle next kept = inl (ground (arith, kept))

    login_page-IsIdle :
        (target : Text) (next : Handler Hub)
        → (next r h).1 ≡ h
        → IsIdle r h (redirect_if_authenticated out.replies target next)
    unfolding IsIdle redirect_if_authenticated
    login_page-IsIdle target next kept = inl (ground (arith, kept))

    ui-IsIdle :
        (ui : UiServer)
        → All
            (λ (route : Pattern × Handler Hub).
              Meets (pattern_of route) r.method r.path → IsIdle r h route.1)
            ((
              get (bytes "/healthz"),
              on_world (on_tables (healthz out.env site.version out.ping_error)),
            )
              ∷ ui_routes out site ui)
    unfolding ui_routes static_handler login_page dashboard IsIdle
    ui-IsIdle ui = (
      (λ meets. healthz-IsIdle),
      (
        (λ meets. inl refl),
        (
          (λ meets. login_page-IsIdle (bytes "/") (login_page out.replies ui) refl),
          ((λ meets. page-IsIdle (dashboard out.replies ui) refl), tt),
        ),
      ),
    )

    serve_mux-IsIdle :
        (routes : List (Pattern × Handler Hub))
        → All
            (λ (route : Pattern × Handler Hub).
              Meets (pattern_of route) r.method r.path → IsIdle r h route.1)
            routes
        → IsIdle r h (serve_mux out.mux routes)
    unfolding IsIdle
    serve_mux-IsIdle routes all = elim (serve_mux-Q out.mux sound (IsIdle r h) routes r h all) [
      | inl e ↦ inl (ap (λ x. x.1) e)
      | inr (inl e) ↦ inl (ap (λ x. x.1) e)
      | inr (inr (next, inl kept, e)) ↦ inl (ap (λ x. x.1) e ∙ kept)
      | inr (inr (next, inr kept, e)) ↦ inr (ap (λ x. x.1) e ∙ kept)
    ]

  api_host_set :
      (next : Handler Hub) → router out site ≡ some next → site.app_host ≢ [] → site.api_host ≢ []
  unfolding router
  api_host_set next built split =
      ground (arith, built, text_beq_iff site.app_host [], text_beq_iff site.api_host [])

  webui_router-IsIdle :
      (ui : UiServer) (r : Request) (h : Hub) → IsIdle r h (webui_router out site ui)
  unfolding webui_router trusted_proxy_ip IsIdle
  webui_router-IsIdle ui r h =
      let r' = record r {
        client_ip = resolved out.packages.unicode out.packages.netip_parse site.trusted_proxies r;
      } in
      serve_mux-IsIdle r' h
        ((
          get (bytes "/healthz"),
          on_world (on_tables (healthz out.env site.version out.ping_error)),
        )
          ∷ ui_routes out site ui)
        (ui-IsIdle r' h ui)

  router_for-IsIdle :
      (ui : UiServer) (r : Request) (h : Hub)
      → (site.app_host == []) ≡ false
      → site.app_host ≢ []
      → site.api_host ≢ []
      → hostname out.packages.unicode r.host ≢ site.api_host
      → IsIdle r h (router_for out site (some ui))
  unfolding router_for IsIdle
  router_for-IsIdle ui r h set app api other =
      let hosts : HostRouter Hub = record {
        app_host = site.app_host;
        api_host = site.api_host;
        ui_handler = webui_router out site ui;
        api_handler = api_chain out site (api_routes out site);
      } in
      rw set (elim (serve_host_other out.packages.unicode out.replies hosts r h app api other) [
        | inl e ↦
            subst (λ x. (x ≡ h) ⊎ (x ≡ pinged h)) (sym (ap (λ x. x.1) e))
              (webui_router-IsIdle ui r h)
        | inr e ↦ inl (ap (λ x. x.1) e)
      ])

  -- Where the hosts are split and there is a web UI, a request for another host than the API's
  -- does nothing but ping the database, whatever its method, path and cookies, where chi picks
  -- only patterns that are met.
  pub router-IsIdle :
      (ui : UiServer) (next : Handler Hub) (r : Request) (h : Hub)
      → site.web_ui ≡ some ui
      → site.app_host ≢ []
      → router out site ≡ some next
      → hostname out.packages.unicode r.host ≢ site.api_host
      → IsIdle r h next
  unfolding IsIdle
  router-IsIdle ui next r h served split built other =
      subst (λ (n : Handler Hub). ((n r h).1 ≡ h) ⊎ ((n r h).1 ≡ pinged h))
        (ap (router_for out site) (sym served) ∙ router_built out site next built)
        (router_for-IsIdle ui r h (ground (arith, split, text_beq_iff site.app_host [])) split
          (api_host_set next built split) other)
