-- ===== src/Router/Admin/Reached.antt =====
-- The admin endpoint in the routers of every deployment.
use rdoc_cam_hub.Common.{
  Unicode, differ, Text, bytes, false, Option, none, some, List, [], ◌∷◌, ◌++◌, ◌==◌, text_eq, ◌≡◌,
  ◌≢◌, ◌⊎◌, inl, inr, refl, sym, ap, subst, arith, All, All-append, Bool-cases, text_beq,
  text_beq_iff,
}
use rdoc_cam_hub.Store.{Database}
use rdoc_cam_hub.Netip.{Addr}
use rdoc_cam_hub.Http.{Request, Handler, cookie_value, header_get}
use rdoc_cam_hub.Middleware.Csrf.{is_safe_method, is_bearer_auth}
use rdoc_cam_hub.Middleware.Cors.{cors, cors_allowed}
use rdoc_cam_hub.Middleware.TrustedIp.{trusted_proxy_ip, resolved}
use rdoc_cam_hub.Handlers.Admin.{mint_enrollment_token}
use rdoc_cam_hub.Webui.{UiServer, Replies, serve_host, HostRouter}
use rdoc_cam_hub.Router.{
  Hub, Pattern, Site, Outside, serve_mux, admin_only, api_routes, ui_routes, api_chain, mint_path,
  pattern_of, webui_router, router_for, router, get, on_world, on_tables, healthz,
}
use rdoc_cam_hub.Router.Admin.{
  Meets, IsSound, serve_mux-Q, AdminCall, chain-AdminCall, HasToken-request,
}

serve_host_reply :
    {S : Type 0} (u : Unicode) (replies : Replies) (hosts : HostRouter S) (r : Request) (w : S)
    → (serve_host u replies hosts r w ≡ hosts.api_handler r w)
      ⊎ ((serve_host u replies hosts r w ≡ hosts.ui_handler r w)
          ⊎ (serve_host u replies hosts r w ≡ (replies.not_found, w)))
unfolding serve_host
serve_host_reply u replies hosts r w = ground arith

-- The address that TrustedProxyIP finds.
abbrev client : {F : Type 0} → Outside F → Site → Request → Addr
client out site r = resolved out.packages.unicode out.packages.netip_parse site.trusted_proxies r

module _ {F : Type 0} (out : Outside F) (site : Site) where
  handler_or : Handler Hub → Option (Handler Hub) → Handler Hub
  handler_or next none = next
  handler_or next (some other) = other

  pub router_built :
      (next : Handler Hub) → router out site ≡ some next → router_for out site site.web_ui ≡ next
  unfolding router handler_or
  router_built next built = elim (Bool-cases (differ (site.app_host == []) (site.api_host == []))) [
    | inl half ↦ absurd (ground (arith, half, built))
    | inr whole ↦ ap (handler_or next) (rw whole at built)
  ]

module _ {F : Type 0} (out : Outside F) (site : Site) (sound : IsSound out.mux)
    (unknown_path : out.mux.not_found.status ≢ 201)
    (unknown_method : out.mux.method_not_allowed.status ≢ 201) where
  -- A request at this handler gets a 201 only as an admin's call.
  IsGuarded : Request → Hub → Handler Hub → Type 0
  IsGuarded r h next =
      (next r h).0.status ≡ 201 → AdminCall out.env out.parse_url site.allowed_origins r h.world.db

  module _ (r : Request) (h : Hub) (posts : r.method ≡ bytes "POST")
      (path : r.path ≡ mint_path out site) where
    other : (p : Text) → (p == mint_path out site) ≡ false → p ≢ r.path
    other p differs meets =
        absurd (ground (arith, differs, meets, path, text_beq_iff p (mint_path out site)))

    api_routes-IsGuarded :
        All
          (λ (route : Pattern × Handler Hub).
            Meets (pattern_of route) r.method r.path → IsGuarded r h route.1)
          (api_routes out site)
    unfolding api_routes Meets IsGuarded admin_only is_safe_method text_beq
    api_routes-IsGuarded = (
      (λ meets created. absurd (other (bytes "/healthz") refl meets.1)),
      (
        (λ meets created. absurd (other (bytes "/v1/auth/login") refl meets.1)),
        (
          (λ meets created. absurd (other (bytes "/v1/auth/logout") refl meets.1)),
          (
            (λ meets created. absurd (other (bytes "/v1/auth/refresh") refl meets.1)),
            (
              (λ meets created. absurd (other (bytes "/v1/devices/register") refl meets.1)),
              (
                (λ meets created. absurd (other (bytes "/v1/devices/heartbeat") refl meets.1)),
                (
                  (λ meets created. absurd (other (bytes "/v1/auth/me") refl meets.1)),
                  (
                    (λ meets created.
                        chain-AdminCall out.env out.parse_url site.allowed_origins
                          (mint_enrollment_token out.hours out.decode_mint out.env out.minted) r
                          h.world.db (rw posts refl) created),
                    tt,
                  ),
                ),
              ),
            ),
          ),
        ),
      ),
    )

    ui_routes-IsGuarded :
        (ui : UiServer)
        → All
            (λ (route : Pattern × Handler Hub).
              Meets (pattern_of route) r.method r.path → IsGuarded r h route.1)
            (ui_routes out site ui)
    unfolding ui_routes Meets text_beq IsGuarded
    ui_routes-IsGuarded ui = (
      (λ meets created. absurd (ground (arith, meets.1, path))),
      (
        (λ meets created. absurd (other (bytes "/login") refl meets.1)),
        ((λ meets created. absurd (other (bytes "/") refl meets.1)), tt),
      ),
    )

    serve_mux-IsGuarded :
        (routes : List (Pattern × Handler Hub))
        → All
            (λ (route : Pattern × Handler Hub).
              Meets (pattern_of route) r.method r.path → IsGuarded r h route.1)
            routes
        → IsGuarded r h (serve_mux out.mux routes)
    unfolding IsGuarded
    serve_mux-IsGuarded routes all created =
        elim (serve_mux-Q out.mux sound (IsGuarded r h) routes r h all) [
          | inl e ↦ absurd (ground (arith, e, created, unknown_path))
          | inr (inl e) ↦ absurd (ground (arith, e, created, unknown_method))
          | inr (inr (next, guarded, e)) ↦ guarded (ground (arith, e, created))
        ]

  cors_created :
      (next : Handler Hub) (allowed : List Text) (r : Request) (h : Hub)
      → r.method ≡ bytes "POST"
      → (cors allowed next r h).0.status ≡ 201
      → (next r h).0.status ≡ 201
  unfolding cors cors_allowed text_beq
  cors_created next [] r h posts created = created
  cors_created next (o ∷ os) r h posts created = ground (arith, posts, created)

  -- The address of the client is not what an admin's call rests on.
  AdminCall-client_ip :
      (r : Request) (d : Database) (a : Addr)
      → AdminCall out.env out.parse_url site.allowed_origins (record r { client_ip = a }) d
      → AdminCall out.env out.parse_url site.allowed_origins r d
  unfolding cookie_value header_get is_bearer_auth
  AdminCall-client_ip r d a call = record {
    principal = call.principal;
    stands = call.stands;
    is_admin = call.is_admin;
    protected = elim call.protected [
      | inl bearer ↦ inl bearer
      | inr token ↦ inr (
          HasToken-request out.parse_url site.allowed_origins r (record r { client_ip = a }) refl
            refl token)
    ];
  }

  module _ (r : Request) (h : Hub) (posts : r.method ≡ bytes "POST")
      (path : r.path ≡ mint_path out site) where
    api_chain-IsGuarded :
        (routes : List (Pattern × Handler Hub))
        → All
            (λ (route : Pattern × Handler Hub).
              Meets (pattern_of route) r.method r.path
              → IsGuarded (record r { client_ip = client out site r }) h route.1)
            routes
        → IsGuarded r h (api_chain out site routes)
    unfolding api_chain trusted_proxy_ip IsGuarded
    api_chain-IsGuarded routes all created =
        let r' = record r { client_ip = client out site r } in
        AdminCall-client_ip r h.world.db (client out site r) (
          serve_mux-IsGuarded r' h posts path routes all
            (cors_created (serve_mux out.mux routes) site.allowed_origins r' h posts created))

    webui_router-IsGuarded : (ui : UiServer) → IsGuarded r h (webui_router out site ui)
    unfolding webui_router trusted_proxy_ip IsGuarded Meets text_beq
    webui_router-IsGuarded ui created =
        let r' = record r { client_ip = client out site r } in
        AdminCall-client_ip r h.world.db (client out site r) (
          serve_mux-IsGuarded r' h posts path
            ((
              get (bytes "/healthz"),
              on_world (on_tables (healthz out.env site.version out.ping_error)),
            )
              ∷ ui_routes out site ui)
            (
              (λ meets created. absurd (other r h posts path (bytes "/healthz") refl meets.1)),
              ui_routes-IsGuarded r' h posts path ui,
            )
            created)

    router_for-IsGuarded :
        (ui : Option UiServer)
        → out.replies.not_found.status ≢ 201
        → IsGuarded r h (router_for out site ui)
    unfolding router_for IsGuarded
    router_for-IsGuarded none unknown_host created =
        api_chain-IsGuarded (api_routes out site)
          (api_routes-IsGuarded (record r { client_ip = client out site r }) h posts path) created
    router_for-IsGuarded (some ui) unknown_host created =
        let r' = record r { client_ip = client out site r } in
        let hosts : HostRouter Hub = record {
          app_host = site.app_host;
          api_host = site.api_host;
          ui_handler = webui_router out site ui;
          api_handler = api_chain out site (api_routes out site);
        } in
        elim (Bool-cases (site.app_host == [])) [
          | inl dev ↦
              api_chain-IsGuarded (api_routes out site ++ ui_routes out site ui)
                (All-append
                  (λ (route : Pattern × Handler Hub).
                    Meets (pattern_of route) r.method r.path → IsGuarded r' h route.1)
                  (api_routes out site) (ui_routes out site ui)
                  (api_routes-IsGuarded r' h posts path) (ui_routes-IsGuarded r' h posts path ui))
                (rw dev at created)
          | inr split ↦ elim (serve_host_reply out.packages.unicode out.replies hosts r h) [
            | inl api ↦
                api_chain-IsGuarded (api_routes out site)
                  (api_routes-IsGuarded (record r { client_ip = client out site r }) h posts path)
                  (ground (arith, api, split, created))
            | inr (inl app) ↦ webui_router-IsGuarded ui (ground (arith, app, split, created))
            | inr (inr lost) ↦ absurd (ground (arith, lost, split, created, unknown_host))
          ]
        ]

  -- In every deployment, a POST to the path for enrollment tokens that is answered 201 stands
  -- behind the live session of an admin, and carries the double-submit token or a bearer header,
  -- where chi picks only patterns that are met and neither it nor a host that is not known answers
  -- 201.
  pub router-AdminCall :
      (next : Handler Hub) (r : Request) (h : Hub)
      → out.replies.not_found.status ≢ 201
      → router out site ≡ some next
      → r.method ≡ bytes "POST"
      → r.path ≡ mint_path out site
      → (next r h).0.status ≡ 201
      → AdminCall out.env out.parse_url site.allowed_origins r h.world.db
  unfolding IsGuarded
  router-AdminCall next r h unknown_host built posts path created =
      router_for-IsGuarded r h posts path site.web_ui unknown_host (
        subst (λ (n : Handler Hub). (n r h).0.status ≡ 201) (sym (router_built out site next built))
          created)
