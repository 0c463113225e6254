-- ===== src/RateLimit/Allow.antt =====
-- What a call of `allow` does to the credit of its own address and of the others.
use native.Mathlib.Nat.{le_refl}
use rdoc_cam_hub.Common.Int.{ℤ, pos, ltb_ℤ}
use rdoc_cam_hub.Common.{
  ℕ, ◌+◌, ◌*◌, ◌-◌, ◌≤◌, ◌≡◌, ◌≢◌, refl, ◌∙◌, ap, Option, none, some, ◌==◌, leb, if◌then◌else◌,
  arith, Bool-cases, inl, inr,
}
use rdoc_cam_hub.Netip.{Addr, addr_eq, addr_beq_iff}
use rdoc_cam_hub.RateLimit.{
  Bucket, IpLimiter, drop_idle, sweep, bucket_or_full, refilled, put_bucket, take_token, allow,
}
use rdoc_cam_hub.RateLimit.Credit.{IsSound, IsSound?, IsValid, credit_of, credit, credit-sweep}

refilled_lem :
    (l : IpLimiter) (now : ℕ) (b : Bucket)
    → IsSound (l.max * l.window) now b
    → refilled l now b ≡ pos (credit_of l.max l.window now (some b))
unfolding refilled
refilled_lem l now b h = ground arith

refilled-bucket_or_full :
    (l : IpLimiter) (now : ℕ) (o : Option Bucket)
    → IsSound? (l.max * l.window) now o
    → refilled l now (bucket_or_full l now o) ≡ pos (credit_of l.max l.window now o)
unfolding bucket_or_full
refilled-bucket_or_full l now none h =
    let full : IsSound (l.max * l.window) now (bucket_or_full l now none) = record {
      level = l.max * l.window;
      tokens = refl;
      fits = omega arith;
      past = omega arith;
    } in
    refilled_lem l now _ full ∙ ground arith
refilled-bucket_or_full l now (some b) h = refilled_lem l now b h

drop_idle-IsSound :
    (full window now : ℕ) (o : Option Bucket)
    → IsSound? full now o
    → IsSound? full now (drop_idle window now o)
unfolding drop_idle
drop_idle-IsSound full window now none h = h
drop_idle-IsSound full window now (some b) h = elim (Bool-cases (leb (b.last + window) now)) [
  | inl idle ↦ rw idle tt
  | inr busy ↦ rw busy h
]

sweep-IsValid : {l : IpLimiter} {now : ℕ} → IsValid l now → IsValid (sweep l now) now
unfolding sweep
sweep-IsValid {l} {now} v = elim (Bool-cases (leb (l.last_gc + l.window) now)) [
  | inl due ↦ rw due (record {
    sound = λ ip. drop_idle-IsSound (l.max * l.window) l.window now (l.buckets ip) (v.sound ip);
  })
  | inr early ↦ rw early v
]

window-sweep : (l : IpLimiter) (now : ℕ) → (sweep l now).window ≡ l.window
unfolding sweep
window-sweep l now = ground arith

abbrev pub spend : ℕ → ℕ → ℕ
spend window c = if leb window c then c - window else c

put_bucket-IsValid :
    (l : IpLimiter) (ip : Addr) (now : ℕ) (b : Bucket)
    → IsSound (l.max * l.window) now b
    → IsValid l now
    → IsValid (put_bucket l ip b) now
unfolding put_bucket
put_bucket-IsValid l ip now b h v = record {
  sound = λ other. elim (Bool-cases (ip == other)) [
    | inl same ↦ rw same h
    | inr differ ↦ rw differ (v.sound other)
  ];
}

module _ (l : IpLimiter) (ip : Addr) (now c : ℕ) (fits : c ≤ l.max * l.window) where
  take_token_verdict : (take_token l ip now (pos c)).0 ≡ leb l.window c
  unfolding take_token
  take_token_verdict = ground arith

  take_token-IsValid : IsValid l now → IsValid (take_token l ip now (pos c)).1 now
  unfolding take_token
  take_token-IsValid v = elim (Bool-cases (ltb_ℤ (pos c) (pos l.window))) [
    | inl short ↦ rw short (
        put_bucket-IsValid l ip now _
          (record { level = c; tokens = refl; fits = fits; past = omega arith }) v)
    | inr covered ↦ rw covered (
        put_bucket-IsValid l ip now _
          (record {
            level = c - l.window;
            tokens = ground arith;
            fits = omega arith;
            past = omega arith;
          })
          v)
  ]

  credit-take_token :
      (other : Addr)
      → credit (take_token l ip now (pos c)).1 other now
        ≡ (if ip == other then spend l.window c else credit l other now)
  unfolding take_token put_bucket credit
  credit-take_token other = ground (arith, addr_beq_iff ip other)

credit-take_token_other :
    (l : IpLimiter) (who : Addr) (now : ℕ) (tokens : ℤ) (ip : Addr) (later : ℕ)
    → who ≢ ip
    → credit (take_token l who now tokens).1 ip later ≡ credit l ip later
unfolding take_token put_bucket credit
credit-take_token_other l who now tokens ip later h = ground (arith, addr_beq_iff who ip)

allow_lem :
    (l : IpLimiter) (ip : Addr) (now : ℕ)
    → let s = sweep l now in
      allow l ip now ≡ take_token s ip now (refilled s now (bucket_or_full s now (s.buckets ip)))
unfolding allow
allow_lem l ip now = refl

pub max-allow : (l : IpLimiter) (ip : Addr) (now : ℕ) → (allow l ip now).1.max ≡ l.max
unfolding allow
max-allow l ip now = ground arith

pub window-allow : (l : IpLimiter) (ip : Addr) (now : ℕ) → (allow l ip now).1.window ≡ l.window
unfolding allow
window-allow l ip now = ground arith

-- A request of one address leaves the credit of the others alone, now and later.
pub credit-allow_other :
    (l : IpLimiter) (ip who : Addr) {now later : ℕ}
    → who ≢ ip
    → now ≤ later
    → credit (allow l who now).1 ip later ≡ credit l ip later
credit-allow_other l ip who {now} {later} h le =
    rw allow_lem (credit-take_token_other (sweep l now) who now _ ip later h ∙ credit-sweep l ip le)

module _ {l : IpLimiter} {now : ℕ} (ip : Addr) (v : IsValid l now) where
  level_in_allow :
      let s = sweep l now in
      refilled s now (bucket_or_full s now (s.buckets ip)) ≡ pos (credit l ip now)
  level_in_allow =
      refilled-bucket_or_full (sweep l now) now ((sweep l now).buckets ip)
        ((sweep-IsValid v).sound ip)
      ∙ ap pos (unfold credit in credit-sweep l ip (le_refl now))

  allow-eq-take_token : allow l ip now ≡ take_token (sweep l now) ip now (pos (credit l ip now))
  allow-eq-take_token = allow_lem l ip now ∙ ap (take_token (sweep l now) ip now) level_in_allow

  credit-le-swept : credit l ip now ≤ (sweep l now).max * (sweep l now).window
  unfolding credit sweep
  credit-le-swept = ground arith

  -- In the exact arithmetic of the model, a request at a valid limiter is let through if and only if
  -- the credit of its address covers a token.
  pub allow_verdict : (allow l ip now).0 ≡ leb l.window (credit l ip now)
  allow_verdict = rw allow-eq-take_token (
      take_token_verdict (sweep l now) ip now (credit l ip now) credit-le-swept
      ∙ ap (λ w. leb w (credit l ip now)) (window-sweep l now))

  pub credit-allow :
      (other : Addr)
      → credit (allow l ip now).1 other now
        ≡ (if ip == other then spend l.window (credit l ip now) else credit l other now)
  credit-allow other = rw allow-eq-take_token (
      credit-take_token (sweep l now) ip now (credit l ip now) credit-le-swept other
      ∙ simp (window-sweep, credit-sweep l other (le_refl now)))

  pub allow-IsValid : IsValid (allow l ip now).1 now
  allow-IsValid =
      rw allow-eq-take_token (
        take_token-IsValid (sweep l now) ip now (credit l ip now) credit-le-swept (sweep-IsValid v))
