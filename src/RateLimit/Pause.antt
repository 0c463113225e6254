-- ===== src/RateLimit/Pause.antt =====
-- What an address gets after a pause.
use native.Mathlib.Nat.{mul-le-mul_right, le_trans}
use rdoc_cam_hub.Common.{
  ℕ, ◌+◌, ◌*◌, ◌-◌, ◌≤◌, ◌≡◌, refl, sym, subst, ap₂, ◌∙◌, List, [], ◌∷◌, ◌==◌, ==-refl, ◌&&◌, leb,
  if◌then◌else◌, arith, Bool-cases, inl, inr, ◌≢◌, All,
}
use rdoc_cam_hub.Netip.{Addr, addr_eq, addr_beq_iff}
use rdoc_cam_hub.RateLimit.{IpLimiter, allow}
use rdoc_cam_hub.RateLimit.Credit.{
  IsValid, later-IsValid, credit, credit-le-later, credit-ge, minimum,
}
use rdoc_cam_hub.RateLimit.Allow.{
  allow_verdict, credit-allow, allow-IsValid, max-allow, window-allow, spend,
}
use rdoc_cam_hub.RateLimit.Burst.{Attempt, run, granted, IsOrdered, IsOrdered-le, credit-run_others}

-- How many requests of one address a history has.
unfoldable pub attempts : Addr → List Attempt → ℕ
attempts ip [] = 0
attempts ip ((who, now) ∷ later) = (if who == ip then 1 else 0) + attempts ip later

verdict_covered :
    (ip who : Addr) (l : IpLimiter) (now n : ℕ)
    → IsValid l now
    → ((if who == ip then 1 else 0) + n) * l.window ≤ credit l ip now
    → (◌≡◌ {A = ℕ} (if who == ip && (allow l who now).0 then 1 else 0) (if who == ip then 1 else 0))
      × (n * l.window ≤ credit (allow l who now).1 ip now)
verdict_covered ip who l now n v enough = elim (Bool-cases (who == ip)) [
  | inl same ↦
      rw (same, (addr_beq_iff who ip).0 same, allow_verdict ip v, credit-allow ip v ip, ==-refl ip)
        (spent (rw same at enough))
  | inr differ ↦
      rw (differ, credit-allow who v ip, differ) (refl, omega (arith, rw differ at enough))
]
  where
    spent :
        (1 + n) * l.window ≤ credit l ip now
        → (◌≡◌ {A = ℕ} (if leb l.window (credit l ip now) then 1 else 0) 1)
          × (n * l.window ≤ spend l.window (credit l ip now))
    spent h = (ground arith, ground arith)

granted-covered :
    (ip : Addr) (l : IpLimiter) (start end : ℕ) (history : List Attempt)
    → IsValid l start
    → IsOrdered start history end
    → attempts ip history * l.window ≤ credit l ip start
    → granted ip l history ≡ attempts ip history
unfolding granted attempts
granted-covered ip l start end [] v h enough = refl
granted-covered ip l start end ((who, now) ∷ later) v (le, h) enough =
    let v' = later-IsValid le v in
    let (one, left) =
      verdict_covered ip who l now (attempts ip later) v'
        (le_trans enough (credit-le-later l ip le)) in
    let left' : attempts ip later * (allow l who now).1.window ≤ credit (allow l who now).1 ip now =
      subst (λ w. attempts ip later * w ≤ credit (allow l who now).1 ip now)
        (sym (window-allow l who now)) left in
    ap₂ ◌+◌ one
      (granted-covered ip (allow l who now).1 now end later (allow-IsValid who v') h left')

full_after :
    (max window idle : ℕ) → window ≤ idle → max * window ≤ minimum (max * window) (idle * max)
full_after max window idle h = ground (arith, mul-le-mul_right max h)

-- In a valid limiter, when an address has sent nothing for a whole window after a request,
-- whatever the others have sent meanwhile, then all of its next requests are let through up to
-- `max` of them, again whatever the others send between.
pub granted_after_pause :
    (ip : Addr) (l : IpLimiter) (last start end : ℕ) (quiet burst : List Attempt)
    → IsValid l last
    → IsOrdered last quiet start
    → All (λ a. a.0 ≢ ip) quiet
    → last + l.window ≤ start
    → IsOrdered start burst end
    → attempts ip burst ≤ l.max
    → granted ip (run (allow l ip last).1 quiet) burst ≡ attempts ip burst
granted_after_pause ip l last start end quiet burst v h o paused h' few =
    let l' = (allow l ip last).1 in
    let v' = allow-IsValid ip v in
    let (same, valid, wide) = credit-run_others ip l' last start quiet v' h o in
    let idle : l.window ≤ start - last = omega (arith, paused) in
    let full : l.max * l.window ≤ credit l' ip start =
      le_trans (full_after l.max l.window (start - last) idle) (
        rw (window-allow l ip last, max-allow l ip last) at
          (credit-ge l' ip (IsOrdered-le last start quiet h) v')) in
    granted-covered ip (run l' quiet) start end burst valid h' (
      subst (λ c. attempts ip burst * (run l' quiet).window ≤ c) (sym same)
        (subst (λ w. attempts ip burst * w ≤ credit l' ip start)
          (sym (wide ∙ window-allow l ip last)) (le_trans (mul-le-mul_right l.window few) full)))
