-- ===== src/Router/Examples.antt =====
-- Requests to the routers of two sites.
use rdoc_cam_hub.Store.Tokens.{token_create}
use rdoc_cam_hub.Middleware.Csrf.{csrf_refusal}
use rdoc_cam_hub.Middleware.Csrf.{is_bearer_auth}
use rdoc_cam_hub.Middleware.Csrf.{is_safe_method}
use rdoc_cam_hub.Middleware.Csrf.{require_csrf}
use rdoc_cam_hub.Store.Sessions.{get_active_with_user}
use rdoc_cam_hub.Middleware.Authz.{require_role}
use rdoc_cam_hub.Middleware.Authz.{with_session}
use rdoc_cam_hub.Middleware.Authz.{require_session}
use rdoc_cam_hub.Common.{text_beq}
use rdoc_cam_hub.Common.{
  ℕ, Text, bytes, Option, none, some, [], ◌∷◌, text_eq, text_beq_iff, ◌≡◌, refl, subst, arith,
}
use rdoc_cam_hub.Common.Int.{pos}
use rdoc_cam_hub.Netip.{invalid}
use rdoc_cam_hub.RateLimit.{new_ip_limiter}
use rdoc_cam_hub.Store.{User, Session, admin}
use rdoc_cam_hub.Http.{Request}
use rdoc_cam_hub.Samples.{choose, mux_at, outside_at, ui, site, env}
use rdoc_cam_hub.Router.{Hub, Pattern, exactly, mounted, chosen, Site, router, router_for}
use rdoc_cam_hub.Router.Admin.{Meets, pattern_at, IsSound, AdminCall}
use rdoc_cam_hub.Router.Admin.Reached.{router-AdminCall}
use rdoc_cam_hub.Router.Split.{IsIdle, router-IsIdle}

chosen_only :
    (n k : ℕ) (method path : Text) (o : Option Pattern)
    → choose n method path o ≡ chosen k
    → (p : Pattern) × (o ≡ some p) × Meets p method path × (n ≡ k)
unfolding Meets
chosen_only n k method path none e = absurd (ground arith)
chosen_only n k method path (some (mounted p)) e = absurd (ground arith)
chosen_only n k method path (some (exactly m p)) e = (
  exactly m p,
  refl,
  (ground (arith, e, text_beq_iff m method), ground (arith, e, text_beq_iff p path)),
  ground (arith, e),
)

mux_at-IsSound : (n : ℕ) → IsSound (mux_at n)
unfolding IsSound
mux_at-IsSound n patterns method path k e =
    let (p, stands, meets, same) = chosen_only n k method path (pattern_at n patterns) e in
    (p, subst (λ i. pattern_at i patterns ≡ some p) same stands, meets)

abbrev split_site : Site
split_site = record site { app_host = bytes "app"; api_host = bytes "api" }

abbrev boss : User
boss = record { id = 7; email = bytes "a@b"; password_hash = []; role = admin; created_at = 1 }

abbrev live : Session
live = record {
  id = bytes "s1";
  user_id = 7;
  created_at = 900;
  expires_at = 2000;
  refreshed_at = 900;
  user_agent = [];
  ip = invalid;
}

abbrev hub : Hub
hub = record {
  limiter = new_ip_limiter 5 60 0;
  world = record {
    db = record {
      users = boss ∷ [];
      sessions = live ∷ [];
      tokens = [];
      devices = [];
      dns_records = [];
      user_serial = 8;
      token_serial = 1;
      dns_serial = 1;
      statements = 0;
    };
    cf_calls = [];
  };
}

abbrev request : Request
request = record {
  method = bytes "POST";
  path = bytes "/v1/admin/enrollment-tokens";
  host = bytes "app";
  remote_addr = [];
  user_agent = [];
  content_length = pos 2;
  headers = (bytes "X-CSRF-Token", bytes "c1") ∷ [];
  cookies = (bytes "camhub_session", bytes "s1") ∷ (bytes "camhub_csrf", bytes "c1") ∷ [];
  body = [];
  client_ip = invalid;
  principal = none;
}

minted_test : (router_for (outside_at 7) site (some ui) request hub).0.status ≡ 201
unfolding router_for text_beq pattern_at require_session with_session get_active_with_user
    require_role require_csrf is_safe_method is_bearer_auth csrf_refusal token_create
minted_test = refl

router-AdminCall_example : AdminCall env (λ s. none) [] request hub.world.db
unfolding router text_beq
router-AdminCall_example =
    router-AdminCall (outside_at 7) site (mux_at-IsSound 7) (λ e. ground (arith, e))
      (λ e. ground (arith, e)) (router_for (outside_at 7) site (some ui)) request hub
      (λ e. ground (arith, e)) refl refl refl minted_test

router-IsIdle_example : IsIdle request hub (router_for (outside_at 3) split_site (some ui))
unfolding router text_beq
router-IsIdle_example =
    router-IsIdle (outside_at 3) split_site (mux_at-IsSound 3) ui
      (router_for (outside_at 3) split_site (some ui)) request hub refl (λ e. ground (arith, e))
      refl (λ e. ground (arith, e))
