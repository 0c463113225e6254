-- ===== src/Router/Admin.antt =====
-- The admin endpoint: which requests reach it.
pub mod Reached
use rdoc_cam_hub.Common.{
  ℕ, ◌+◌, zero, suc, Text, bytes, Bool, true, false, Option, none, some, List, [], ◌∷◌, ◌++◌, ◌==◌,
  text_eq, any, ◌≡◌, ◌≢◌, ◌⊎◌, inl, inr, refl, sym, ap, ◌∙◌, subst, arith, map, All, In, Bool-cases,
  Option-cases, if◌then◌else◌,
}
use rdoc_cam_hub.Store.{Database, Env, Role, admin}
use rdoc_cam_hub.Http.{
  Request, Response, Handler, Principal, cookie_value, header_get, session_cookie_name,
}
use rdoc_cam_hub.Middleware.Authz.{
  require_session, require_role, require_session_outcome, require_role_outcome, SessionOutcome,
  RoleOutcome, IsPrincipal, refused, entered, no_principal, forbidden, permitted,
}
use rdoc_cam_hub.Middleware.Csrf.{
  require_csrf, is_safe_method, is_bearer_auth, csrf_refusal, HasToken, HasToken-of_accepted,
  refusal_status, request_origin,
}
use rdoc_cam_hub.Middleware.Cors.{cors}
use rdoc_cam_hub.Middleware.TrustedIp.{trusted_proxy_ip}
use rdoc_cam_hub.Router.{
  Hub, Pattern, exactly, mounted, Choice, chosen, no_path, no_method, Mux, Site, Outside, route_at,
  pattern_of, run_choice, serve_mux, admin_only, api_routes, api_chain, mint_path,
}

-- What chi promises of its choice: the pattern exists and is met.
unfoldable pub Meets : Pattern → Text → Text → Type 0
Meets (exactly m p) method path = (m ≡ method) × (p ≡ path)
Meets (mounted p) method path = (rest : Text) × (path ≡ p ++ rest)

unfoldable pub pattern_at : ℕ → List Pattern → Option Pattern
pattern_at n [] = none
pattern_at zero (p ∷ ps) = some p
pattern_at (suc n) (p ∷ ps) = pattern_at n ps

unfoldable pub IsSound : Mux → Type 0
IsSound mux =
    (patterns : List Pattern) (method path : Text) (n : ℕ)
    → mux.pick patterns method path ≡ chosen n
    → (p : Pattern) × (pattern_at n patterns ≡ some p) × Meets p method path

-- A property of the handlers that may be picked holds of the one that is.
pub picked {κ} :
    {S : Type 0} (Q : Handler S → Type κ) (method path : Text) (routes : List (Pattern × Handler S))
    (n : ℕ) (p : Pattern)
    → All (λ (route : Pattern × Handler S). Meets (pattern_of route) method path → Q route.1) routes
    → pattern_at n (map pattern_of routes) ≡ some p
    → Meets p method path
    → (next : Handler S) × (route_at n routes ≡ some next) × Q next
unfolding pattern_at route_at
picked Q method path [] n p h e meets = absurd (ground arith)
picked Q method path ((q, next) ∷ routes) zero p (h, hs) e meets =
    (next, refl, h (subst (λ x. Meets x method path) (ground arith) meets))
picked Q method path ((q, next) ∷ routes) (suc n) p (h, hs) e meets =
    picked Q method path routes n p hs e meets

run_choice_at :
    {S : Type 0} (mux : Mux) (routes : List (Pattern × Handler S)) (n : ℕ) (next : Handler S)
    (r : Request) (w : S)
    → route_at n routes ≡ some next
    → run_choice mux routes (chosen n) r w ≡ next r w
unfolding run_choice
run_choice_at mux routes n next r w found = ground (arith, found)

-- What the multiplexer answers is its own reply or that of a handler that may be picked.
pub serve_mux-Q {κ} :
    {S : Type 0} (mux : Mux)
    → IsSound mux
    → (Q : Handler S → Type κ) (routes : List (Pattern × Handler S)) (r : Request) (w : S)
    → All
        (λ (route : Pattern × Handler S). Meets (pattern_of route) r.method r.path → Q route.1)
        routes
    → (serve_mux mux routes r w ≡ (mux.not_found, w))
      ⊎ ((serve_mux mux routes r w ≡ (mux.method_not_allowed, w))
          ⊎ ((next : Handler S) × Q next × (serve_mux mux routes r w ≡ next r w)))
unfolding serve_mux run_choice IsSound
serve_mux-Q mux sound Q routes r w h = at (mux.pick (map pattern_of routes) r.method r.path) refl
  where
    at :
        (choice : Choice)
        → mux.pick (map pattern_of routes) r.method r.path ≡ choice
        → (run_choice mux routes choice r w ≡ (mux.not_found, w))
          ⊎ ((run_choice mux routes choice r w ≡ (mux.method_not_allowed, w))
              ⊎ ((next : _) × Q next × (run_choice mux routes choice r w ≡ next r w)))
    at no_path e = inl refl
    at no_method e = inr (inl refl)
    at (chosen n) e =
        let (p, stands, meets) = sound (map pattern_of routes) r.method r.path n e in
        let (next, found, q) = picked Q r.method r.path routes n p h stands meets in
        inr (inr (next, q, run_choice_at mux routes n next r w found))

-- The session of an admin stands behind the request, and either the token of RequireCSRF or a bearer
-- header.
pub record AdminCall (env : Env) (parse_url : Text → Option (Text × Text)) (allowed : List Text)
    (r : Request) (d : Database) : Type 0 where
  pub principal : Principal
  pub stands : IsPrincipal env d (cookie_value r session_cookie_name) principal
  pub is_admin : principal.role ≡ admin
  pub protected : (is_bearer_auth r ≡ true) ⊎ HasToken parse_url allowed r

csrf_protects :
    {S : Type 0} (parse_url : Text → Option (Text × Text)) (allowed : List Text) (next : Handler S)
    (r : Request) (w : S)
    → is_safe_method r.method ≡ false
    → (require_csrf parse_url allowed next r w).0.status ≢ 403
    → (is_bearer_auth r ≡ true) ⊎ HasToken parse_url allowed r
unfolding require_csrf
csrf_protects parse_url allowed next r w unsafe passed = elim (Bool-cases (is_bearer_auth r)) [
  | inl bearer ↦ inl bearer
  | inr by_cookie ↦ elim (Option-cases (csrf_refusal parse_url allowed r)) [
    | inl accepted ↦ inr (HasToken-of_accepted parse_url allowed r accepted)
    | inr (res, refusal) ↦
        absurd (passed (ground (arith, refusal_status parse_url allowed r res refusal)))
  ]
]

only_admin : (role : Role) → In role (admin ∷ []) → role ≡ admin
only_admin role (inl e) = sym e
only_admin role (inr impossible) = absurd impossible

origin-headers :
    (parse_url : Text → Option (Text × Text)) (r r' : Request)
    → r'.headers ≡ r.headers
    → request_origin parse_url r' ≡ request_origin parse_url r
unfolding request_origin header_get
origin-headers parse_url r r' headers = rw headers refl

-- The token is in the cookies and headers alone.
HasToken-request :
    (parse_url : Text → Option (Text × Text)) (allowed : List Text) (r r' : Request)
    → r'.cookies ≡ r.cookies
    → r'.headers ≡ r.headers
    → HasToken parse_url allowed r'
    → HasToken parse_url allowed r
unfolding cookie_value header_get request_origin
HasToken-request parse_url allowed r r' cookies headers t = record {
  origin =
      subst (λ o. (allowed ≡ []) ⊎ ((o ≢ []) × In o allowed))
        (origin-headers parse_url r r' headers) t.origin;
  cookie = ground (arith, t.cookie, cookies);
  echoed = ground (arith, t.echoed, cookies, headers);
}

module _ (env : Env) (parse_url : Text → Option (Text × Text)) (allowed : List Text)
    (next : Handler Database) where
  role-AdminCall :
      (r : Request) (d d' : Database) (p : Principal)
      → is_safe_method r.method ≡ false
      → IsPrincipal env d (cookie_value r session_cookie_name) p
      → (out : Response × Database)
      → RoleOutcome
          (admin ∷ [])
          (require_csrf parse_url allowed next)
          (record r { principal = some p })
          d'
          out
      → out.0.status ≡ 201
      → AdminCall env parse_url allowed r d
  unfolding is_bearer_auth header_get
  role-AdminCall r d d' p unsafe stands out (no_principal e status kept) created =
      absurd (ground arith)
  role-AdminCall r d d' p unsafe stands out (forbidden q e listed status kept) created =
      absurd (ground arith)
  role-AdminCall r d d' p unsafe stands out (permitted q e listed ran) created = record {
    principal = p;
    stands = stands;
    is_admin = ground (arith, e, only_admin q.role listed);
    protected =
        elim (csrf_protects parse_url allowed next (record r { principal = some p }) d' unsafe
          (λ bad. ground (arith, bad, ran, created))) [
            | inl bearer ↦ inl bearer
            | inr token ↦ inr (
                HasToken-request parse_url allowed r (record r { principal = some p }) refl refl
                  token)
          ];
  }

  -- The admin chain lets a request through to a 201 only for an admin.
  chain-AdminCall :
      (r : Request) (d : Database)
      → is_safe_method r.method ≡ false
      → (require_session env
          (require_role (admin ∷ []) (require_csrf parse_url allowed next))
          r
          d).0.status
        ≡ 201
      → AdminCall env parse_url allowed r d
  chain-AdminCall r d unsafe created =
      elim (require_session_outcome env
        (require_role (admin ∷ []) (require_csrf parse_url allowed next)) r d) [
          | refused status sessions users ↦ absurd (ground (arith, status, created))
          | entered p stands ran ↦
              role-AdminCall r d (record d { statements = d.statements + 1 }) p unsafe stands
                (require_role (admin ∷ []) (require_csrf parse_url allowed next)
                  (record r { principal = some p }) (record d { statements = d.statements + 1 }))
                (require_role_outcome (admin ∷ []) (require_csrf parse_url allowed next)
                  (record r { principal = some p }) (record d { statements = d.statements + 1 }))
                (ground (arith, ran, created))
        ]
