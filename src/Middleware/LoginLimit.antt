-- ===== src/Middleware/LoginLimit.antt =====
-- internal/httpapi/rate_limit.go: the limiter in front of the sign-in, with its token buckets as a
-- part of the state.
pub mod Runs
use rdoc_cam_hub.Common.{
  ℕ, suc, ◌*◌, bytes, Bool, true, false, not, Option, none, some, [], ◌∷◌, if◌then◌else◌, ◌≡◌,
  arith, Bool-cases, inl, inr,
}
use rdoc_cam_hub.Common.Int.{ℤ, pos}
use rdoc_cam_hub.Netip.{is_valid}
use rdoc_cam_hub.Http.{Request, Response, Handler, write_error, with_headers, second}
use rdoc_cam_hub.RateLimit.{IpLimiter, new_ip_limiter, allow}

pub record RateLimitConfig : Type 0 where
  pub per_ip : ℤ
  pub window_secs : ℤ

unfoldable pub limiter_with : ℤ → ℤ → ℕ → Option IpLimiter
unfolding new_ip_limiter
limiter_with (pos (suc n)) (pos (suc w)) now = some (new_ip_limiter (suc n) (suc w * second) now)
limiter_with _ _ now = none

-- The limiter of LoginRateLimiter, `none` where it is disabled.
unfoldable pub limiter_of : RateLimitConfig → ℕ → Option IpLimiter
unfolding limiter_with
limiter_of cfg now = limiter_with cfg.per_ip cfg.window_secs now

unfoldable pub login_allowed :
    {S : Type 0} → Handler S → Request → S → Bool × IpLimiter → Response × (IpLimiter × S)
login_allowed next r w (false, l) = (
  with_headers ((bytes "Retry-After", bytes "60") ∷ [])
      (write_error 429 "rate_limited" "too many login attempts, slow down"),
  (l, w),
)
login_allowed next r w (true, l) = let (res, w') = next r w in (res, (l, w'))

-- The middleware that LoginRateLimiter returns, at a time.
unfoldable pub login_rate_limiter : {S : Type 0} → ℕ → Handler S → Handler (IpLimiter × S)
unfolding login_allowed is_valid
login_rate_limiter now next r (l, w) =
    if not (is_valid r.client_ip)
    then (write_error 503 "client_ip_unknown" "cannot identify client", (l, w))
    else login_allowed next r w (allow l r.client_ip now)
