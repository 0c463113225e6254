-- ===== src/RateLimit.antt =====
-- internal/httpapi/rate_limit.go: the token bucket per client address that guards the login.
--
-- Times and durations are nanoseconds. The source keeps `tokens` as a float64; here the unit is
-- 1 / window of a token, so that the refill elapsed / window * max is the integer elapsed * max
-- and a whole token is `window`. Rounding of floats is not modelled: the source's count can differ from
-- the exact one by rounding errors, so that a token may be whole a moment earlier or later. Whole tokens are floats, though, and
-- rounding is monotone, so that a window without a request fills the source's bucket to `max` exactly.
-- Go's map is a function.
pub mod Credit
pub mod Allow
pub mod Burst
pub mod Pause
mod Examples
use rdoc_cam_hub.Common.Int.{ℤ, pos, sub_ℕ, ◌+ℤ◌, ◌-ℤ◌, ◌*ℤ◌, ltb_ℤ}
use rdoc_cam_hub.Common.{
  ℕ, ◌+◌, ◌*◌, Bool, true, false, Option, none, some, ◌==◌, leb, if◌then◌else◌,
}
use rdoc_cam_hub.Netip.{Addr, addr_eq}

pub record Bucket : Type 0 where
  pub tokens : ℤ
  pub last : ℕ

pub record IpLimiter : Type 0 where
  pub max : ℕ
  pub window : ℕ
  pub buckets : Addr → Option Bucket
  pub last_gc : ℕ

-- newIPLimiter
unfoldable pub new_ip_limiter : ℕ → ℕ → ℕ → IpLimiter
new_ip_limiter max window now = record {
  max = max;
  window = window;
  buckets = λ ip. none;
  last_gc = now;
}

-- `now.Sub(b.last) >= l.window` deletes the bucket
unfoldable pub drop_idle : ℕ → ℕ → Option Bucket → Option Bucket
drop_idle window now none = none
drop_idle window now (some b) = if leb (b.last + window) now then none else some b

-- The sweep at the head of `allow`.
unfoldable pub sweep : IpLimiter → ℕ → IpLimiter
unfolding drop_idle
sweep l now =
    if leb (l.last_gc + l.window) now
    then record l { buckets = λ ip. drop_idle l.window now (l.buckets ip); last_gc = now }
    else l

-- The bucket of the address; a new one is full.
unfoldable pub bucket_or_full : IpLimiter → ℕ → Option Bucket → Bucket
bucket_or_full l now none = record { tokens = pos (l.max * l.window); last = now }
bucket_or_full l now (some b) = b

unfoldable pub min_f : ℤ → ℤ → ℤ
min_f a b = if ltb_ℤ a b then a else b

-- `b.tokens` after the linear refill.
unfoldable pub refilled : IpLimiter → ℕ → Bucket → ℤ
unfolding min_f
refilled l now b = min_f (pos (l.max * l.window)) (b.tokens +ℤ sub_ℕ now b.last *ℤ pos l.max)

unfoldable pub put_bucket : IpLimiter → Addr → Bucket → IpLimiter
put_bucket l ip b = record l { buckets = λ other. if ip == other then some b else l.buckets other }

-- Takes one token, if there is one.
unfoldable pub take_token : IpLimiter → Addr → ℕ → ℤ → Bool × IpLimiter
unfolding put_bucket
take_token l ip now tokens =
    if ltb_ℤ tokens (pos l.window)
    then (false, put_bucket l ip (record { tokens = tokens; last = now }))
    else (true, put_bucket l ip (record { tokens = tokens -ℤ pos l.window; last = now }))

-- ipLimiter.allow
unfoldable pub allow : IpLimiter → Addr → ℕ → Bool × IpLimiter
unfolding sweep bucket_or_full refilled take_token
allow l ip now =
    let l = sweep l now in
    let b = bucket_or_full l now (l.buckets ip) in take_token l ip now (refilled l now b)
