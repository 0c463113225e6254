-- ===== src/RateLimit/Credit.antt =====
-- The limiter against its specification: each address has a credit that grows linearly up to a
-- full bucket, whatever the sweep removes.
use native.Mathlib.Nat.{mul-le-mul_right}
use rdoc_cam_hub.Common.Int.{pos, pos_part}
use rdoc_cam_hub.Common.{
  ℕ, ◌+◌, ◌*◌, ◌-◌, ◌≤◌, ◌≡◌, refl, Option, none, some, ltb, if◌then◌else◌, arith, Option-cases,
  inl, inr,
}
use rdoc_cam_hub.Netip.{Addr, addr_eq}
use rdoc_cam_hub.RateLimit.{Bucket, IpLimiter, drop_idle, sweep}

-- A bucket as `allow` leaves it: between empty and full, and not from the future.
pub record IsSound (full now : ℕ) (b : Bucket) : Type 0 where
  pub level : ℕ
  pub tokens : b.tokens ≡ pos level
  pub fits : level ≤ full
  pub past : b.last ≤ now

abbrev pub IsSound? : ℕ → ℕ → Option Bucket → Type 0
IsSound? full now none = Unit
IsSound? full now (some b) = IsSound full now b

pub record IsValid (l : IpLimiter) (now : ℕ) : Type 0 where
  pub sound : (ip : Addr) → IsSound? (l.max * l.window) now (l.buckets ip)

abbrev pub minimum : ℕ → ℕ → ℕ
minimum a b = if ltb a b then a else b

abbrev pub credit_of : ℕ → ℕ → ℕ → Option Bucket → ℕ
credit_of max window now none = max * window
credit_of max window now (some b) =
    minimum (max * window) (pos_part b.tokens + (now - b.last) * max)

-- What an address may spend at a time, in 1 / window of a token.
unfoldable pub credit : IpLimiter → Addr → ℕ → ℕ
credit l ip now = credit_of l.max l.window now (l.buckets ip)

enough_idle : (max window last now : ℕ) → last + window ≤ now → max * window ≤ (now - last) * max
enough_idle max window last now h = grind arith

credit_of-drop_idle :
    (max window now later : ℕ) (o : Option Bucket)
    → now ≤ later
    → credit_of max window later (drop_idle window now o) ≡ credit_of max window later o
unfolding drop_idle
credit_of-drop_idle max window now later none le = refl
credit_of-drop_idle max window now later (some b) le =
    ground (arith, enough_idle max window b.last later)

-- A sweep changes the credit of no address, then or later.
pub credit-sweep :
    (l : IpLimiter) (ip : Addr) {now later : ℕ}
    → now ≤ later
    → credit (sweep l now) ip later ≡ credit l ip later
unfolding credit sweep
credit-sweep l ip {now} {later} le =
    ground (arith, credit_of-drop_idle l.max l.window now later (l.buckets ip) le)

later-IsSound? :
    (full : ℕ) {now later : ℕ} (o : Option Bucket)
    → now ≤ later
    → IsSound? full now o
    → IsSound? full later o
later-IsSound? full none le h = tt
later-IsSound? full (some b) le h = record {
  level = h.level;
  tokens = h.tokens;
  fits = h.fits;
  past = omega arith;
}

pub later-IsValid : {l : IpLimiter} {now later : ℕ} → now ≤ later → IsValid l now → IsValid l later
later-IsValid {l} le v = record {
  sound = λ ip. later-IsSound? (l.max * l.window) (l.buckets ip) le (v.sound ip);
}

idle_growth : (now last d max : ℕ) → (now + d - last) * max ≤ (now - last) * max + d * max
idle_growth now last d max =
    let wider : now + d - last ≤ now - last + d = omega arith in
    omega (arith, mul-le-mul_right max wider)

-- Credit grows by at most `max` tokens per window.
pub credit-later :
    (l : IpLimiter) (ip : Addr) (now d : ℕ) → credit l ip (now + d) ≤ credit l ip now + d * l.max
unfolding credit
credit-later l ip now d = elim (Option-cases (l.buckets ip)) [
  | inl absent ↦ rw absent (omega arith)
  | inr (b, found) ↦ rw found (ground (arith, idle_growth now b.last d l.max))
]

-- Time alone takes no credit away.
pub credit-le-later :
    (l : IpLimiter) (ip : Addr) {now later : ℕ} → now ≤ later → credit l ip now ≤ credit l ip later
unfolding credit
credit-le-later l ip {now} {later} le = elim (Option-cases (l.buckets ip)) [
  | inl absent ↦ rw absent (omega arith)
  | inr (b, found) ↦
      let longer : now - b.last ≤ later - b.last = omega arith in
      rw found (ground (arith, mul-le-mul_right l.max longer))
]

-- Each moment adds to the credit, up to a full bucket.
pub credit-ge :
    (l : IpLimiter) (ip : Addr) {now later : ℕ}
    → now ≤ later
    → IsValid l now
    → minimum (l.max * l.window) ((later - now) * l.max) ≤ credit l ip later
unfolding credit
credit-ge l ip {now} {later} le v = at (l.buckets ip) (v.sound ip)
  where
    at :
        (o : Option Bucket)
        → IsSound? (l.max * l.window) now o
        → minimum (l.max * l.window) ((later - now) * l.max) ≤ credit_of l.max l.window later o
    at none h = ground arith
    at (some b) h =
        let past = h.past in
        let longer : later - now ≤ later - b.last = omega arith in
        ground (arith, mul-le-mul_right l.max longer)

pub least_full :
    (max window : ℕ) {inflow : ℕ}
    → window ≤ inflow
    → 1 ≤ max
    → window ≤ minimum (max * window) inflow
least_full max window h k = ground (arith, mul-le-mul_right window k)

-- A full bucket is the most that an address can have.
pub credit-le-full : (l : IpLimiter) (ip : Addr) (now : ℕ) → credit l ip now ≤ l.max * l.window
unfolding credit
credit-le-full l ip now = ground arith
