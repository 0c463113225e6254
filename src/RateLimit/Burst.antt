-- ===== src/RateLimit/Burst.antt =====
-- What the limiter promises of a history of requests.
use native.Mathlib.Nat.{add-mul, mul_comm}
use rdoc_cam_hub.Common.{
  ℕ, ◌+◌, ◌*◌, ◌-◌, ◌≤◌, ◌≡◌, refl, ◌∙◌, ap, ap₂, sym, List, [], ◌∷◌, ◌==◌, ==-refl, ◌&&◌, leb,
  if◌then◌else◌, arith, Bool-cases, inl, inr, ◌≢◌, All,
}
use rdoc_cam_hub.Netip.{Addr, addr_eq, addr_beq_iff}
use rdoc_cam_hub.RateLimit.{IpLimiter, allow, new_ip_limiter}
use rdoc_cam_hub.RateLimit.Credit.{IsValid, later-IsValid, credit, credit-later, credit-le-full}
use rdoc_cam_hub.RateLimit.Allow.{
  allow_verdict, credit-allow, credit-allow_other, allow-IsValid, max-allow, window-allow,
}

-- A client's address and the time of its request.
abbrev pub Attempt : Type 0
Attempt = Addr × ℕ

-- The limiter after a history of requests.
unfoldable pub run : IpLimiter → List Attempt → IpLimiter
run l [] = l
run l ((who, now) ∷ later) = run (allow l who now).1 later

-- How many requests of one address a history grants.
unfoldable pub granted : Addr → IpLimiter → List Attempt → ℕ
granted ip l [] = 0
granted ip l ((who, now) ∷ later) =
    (if who == ip && (allow l who now).0 then 1 else 0) + granted ip (allow l who now).1 later

-- The requests reach the limiter in the order of their times, between two times.
abbrev pub IsOrdered : ℕ → List Attempt → ℕ → Type 0
IsOrdered start [] end = start ≤ end
IsOrdered start ((who, now) ∷ later) end = (start ≤ now) × IsOrdered now later end

-- What a request is granted is paid from the credit of its address.
paid :
    (ip who : Addr) (l : IpLimiter) (now : ℕ)
    → IsValid l now
    → (if who == ip && (allow l who now).0 then 1 else 0) * l.window
        + credit (allow l who now).1 ip now
      ≤ credit l ip now
paid ip who l now v = elim (Bool-cases (who == ip)) [
  | inl same ↦
      rw (same, (addr_beq_iff who ip).0 same, allow_verdict ip v, credit-allow ip v ip)
        (ground (arith, ==-refl ip))
  | inr differ ↦ rw (differ, credit-allow who v ip, differ) (omega arith)
]

span :
    (start now end max : ℕ)
    → start ≤ now
    → now ≤ end
    → (end - now) * max + (now - start) * max ≡ (end - start) * max
span start now end max h k =
    let parts : end - now + (now - start) ≡ end - start = omega arith in
    sym (add-mul (end - now) (now - start) max) ∙ ap (λ (n : ℕ). n * max) parts

pub IsOrdered-le :
    (start end : ℕ) (history : List Attempt) → IsOrdered start history end → start ≤ end
IsOrdered-le start end [] h = h
IsOrdered-le start end ((who, now) ∷ later) (le, h) = omega (arith, IsOrdered-le now end later h)

pay_and_rest :
    (c0 c c' a b t i g w : ℕ)
    → g * w ≤ c' + a
    → i * w + c' ≤ c
    → c ≤ c0 + b
    → a + b ≡ t
    → (i + g) * w ≤ c0 + t
pay_and_rest c0 c c' a b t i g w h k m e = omega arith

credit-at_later :
    (l : IpLimiter) (ip : Addr) {start now : ℕ}
    → start ≤ now
    → credit l ip now ≤ credit l ip start + (now - start) * l.max
credit-at_later l ip {start} {now} le =
    let e : start + (now - start) ≡ now = omega arith in
    rw e at (credit-later l ip start (now - start))

granted-le-credit :
    (ip : Addr) (l : IpLimiter) (start end : ℕ) (history : List Attempt)
    → IsValid l start
    → IsOrdered start history end
    → granted ip l history * l.window ≤ credit l ip start + (end - start) * l.max
unfolding granted
granted-le-credit ip l start end [] v h = omega arith
granted-le-credit ip l start end ((who, now) ∷ later) v (le, h) =
    let v' = later-IsValid le v in
    let rest =
      rw (window-allow l who now, max-allow l who now) at
        (granted-le-credit ip (allow l who now).1 now end later (allow-IsValid who v') h) in
    let grown = credit-at_later l ip le in
    let whole = span start now end l.max le (IsOrdered-le now end later h) in
    pay_and_rest _ _ _ _ _ _ (if who == ip && (allow l who now).0 then 1 else 0) _ l.window rest
      (paid ip who l now v') grown whole

-- Over a history in the order of time an address is let through at most max * (window + elapsed) /
-- window times, from a limiter that is valid at its start.
pub granted_bound :
    (ip : Addr) (l : IpLimiter) (start end : ℕ) (history : List Attempt)
    → IsValid l start
    → IsOrdered start history end
    → granted ip l history * l.window ≤ (l.window + (end - start)) * l.max
granted_bound ip l start end history v h = omega (
  arith,
  granted-le-credit ip l start end history v h,
  credit-le-full l ip start,
  add-mul l.window (end - start) l.max,
  mul_comm l.max l.window,
)

-- What the other clients do changes nothing for an address: not its verdict, not its credit.
pub credit-run_others :
    (ip : Addr) (l : IpLimiter) (start end : ℕ) (history : List Attempt)
    → IsValid l start
    → IsOrdered start history end
    → All (λ a. a.0 ≢ ip) history
    → (credit (run l history) ip end ≡ credit l ip end)
      × IsValid (run l history) end
      × ((run l history).window ≡ l.window)
unfolding run
credit-run_others ip l start end [] v h o = (refl, later-IsValid h v, refl)
credit-run_others ip l start end ((who, now) ∷ later) v (le, h) (other, o) =
    let v' = later-IsValid le v in
    let (same, valid, wide) =
      credit-run_others ip (allow l who now).1 now end later (allow-IsValid who v') h o in
    (
      same ∙ credit-allow_other l ip who other (IsOrdered-le now end later h),
      valid,
      wide ∙ window-allow l who now,
    )

-- In a valid limiter the verdict on a request is the same with and without a history of requests
-- of other addresses, in the order of time, before it.
pub allow-run_others :
    (ip : Addr) (l : IpLimiter) (start end : ℕ) (history : List Attempt)
    → IsValid l start
    → IsOrdered start history end
    → All (λ a. a.0 ≢ ip) history
    → (allow (run l history) ip end).0 ≡ (allow l ip end).0
allow-run_others ip l start end history v h o =
    let (same, valid, wide) = credit-run_others ip l start end history v h o in
    let v' = later-IsValid (IsOrdered-le start end history h) v in
    allow_verdict ip valid ∙ ap₂ leb wide same ∙ sym (allow_verdict ip v')

-- A new limiter is valid.
pub new_ip_limiter-IsValid : (max window now : ℕ) → IsValid (new_ip_limiter max window now) now
unfolding new_ip_limiter
new_ip_limiter-IsValid max window now = record { sound = λ ip. tt }
