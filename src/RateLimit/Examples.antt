-- ===== src/RateLimit/Examples.antt =====
-- The limiter at concrete requests.
use rdoc_cam_hub.Common.{◌+◌, ◌*◌, ◌≤◌, ◌≡◌, refl, List, [], ◌∷◌, arith}
use rdoc_cam_hub.Netip.{Addr, v4, addr_eq}
use rdoc_cam_hub.RateLimit.{IpLimiter, new_ip_limiter, allow}
use rdoc_cam_hub.RateLimit.Credit.{IsValid}
use rdoc_cam_hub.RateLimit.Pause.{attempts, granted_after_pause}
use rdoc_cam_hub.RateLimit.Burst.{
  Attempt, run, granted, granted_bound, allow-run_others, new_ip_limiter-IsValid,
}

abbrev alice : Addr
alice = v4 1

abbrev bob : Addr
bob = v4 2

-- Two tokens for every ten nanoseconds.
abbrev limiter : IpLimiter
limiter = new_ip_limiter 2 10 100

abbrev busy : List Attempt
busy = (alice, 100) ∷ (bob, 101) ∷ (alice, 102) ∷ (alice, 103) ∷ (alice, 108) ∷ []

-- The third request of alice comes too early, the fourth does not.
granted_test : granted alice limiter busy ≡ 3
unfolding granted allow new_ip_limiter
granted_test = refl

limiter-IsValid : IsValid limiter 100
limiter-IsValid = new_ip_limiter-IsValid 2 10 100

granted_bound_example :
    granted alice limiter busy * limiter.window ≤ (limiter.window + 8) * limiter.max
granted_bound_example = granted_bound alice limiter 100 108 busy limiter-IsValid (omega arith)

-- Only bob sends for a window, then alice twice with bob between.
abbrev quiet : List Attempt
quiet = (bob, 103) ∷ (bob, 104) ∷ (bob, 109) ∷ []

abbrev burst : List Attempt
burst = (alice, 110) ∷ (bob, 110) ∷ (alice, 111) ∷ []

granted_after_pause_example :
    granted alice (run (allow limiter alice 100).1 quiet) burst ≡ attempts alice burst
unfolding new_ip_limiter attempts
granted_after_pause_example =
    granted_after_pause alice limiter 100 110 111 quiet burst limiter-IsValid (omega arith)
      (ground arith) (omega arith) (omega arith) (omega arith)

allow-run_others_example : (allow (run limiter quiet) alice 110).0 ≡ (allow limiter alice 110).0
allow-run_others_example =
    allow-run_others alice limiter 100 110 quiet limiter-IsValid (omega arith) (ground arith)
