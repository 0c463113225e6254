-- ===== src/Middleware/LoginLimit/Runs.antt =====
-- How often the handler behind the limiter runs.
use rdoc_cam_hub.Common.{ℕ, ◌+◌, List, [], ◌∷◌, ◌==◌, if◌then◌else◌}
use rdoc_cam_hub.Netip.{Addr, is_valid, addr_eq}
use rdoc_cam_hub.Http.{Request, Handler}
use rdoc_cam_hub.RateLimit.{IpLimiter}
use rdoc_cam_hub.RateLimit.Burst.{Attempt}
use rdoc_cam_hub.Middleware.LoginLimit.{login_rate_limiter}

-- A handler that also counts its runs for one address.
unfoldable pub counted : {S : Type 0} → Addr → Handler S → Handler (ℕ × S)
counted ip next r (n, w) =
    let (res, w') = next r w in (res, ((if r.client_ip == ip then 1 else 0) + n, w'))

-- The state after requests with their times, one behind the other through the middleware.
unfoldable pub sign_ins :
    {S : Type 0} → Handler S → IpLimiter × S → List (Request × ℕ) → IpLimiter × S
sign_ins next s [] = s
sign_ins next s ((r, now) ∷ later) = sign_ins next (login_rate_limiter now next r s).1 later

abbrev pub attempt : Request × ℕ → Attempt
attempt (r, now) = (r.client_ip, now)

-- The requests that reach the limiter's buckets.
known : List (Request × ℕ) → List Attempt
known [] = []
known ((r, now) ∷ later) =
    let rest = known later in if is_valid r.client_ip then (r.client_ip, now) ∷ rest else rest
