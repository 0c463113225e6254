-- ===== src/Subdomain/Label.antt =====
-- The labels that validateSubdomain lets through.
use rdoc_cam_hub.Common.{
  ℕ, zero, suc, ◌≤◌, Text, true, false, [], ◌∷◌, text_eq, nat_eq, All, length, length-append, ltb,
  ◌≡◌, ◌↔◌, inl, inr, refl, arith, Bool-cases, Unicode, to_lower, trim_space,
}
use rdoc_cam_hub.Subdomain.{
  is_alnum, is_ldh, matches_tail, subdomain_label, is_reserved, valid, validate_subdomain, suffixed,
  two_digits,
}

-- The last byte is a letter or a digit.
abbrev pub EndsAlnum : Text → Type 0
EndsAlnum [] = ⊥
EndsAlnum (c ∷ []) = is_alnum c ≡ true
EndsAlnum (c ∷ d ∷ rest) = EndsAlnum (d ∷ rest)

abbrev pub StartsAlnum : Text → Type 0
StartsAlnum [] = ⊥
StartsAlnum (c ∷ rest) = is_alnum c ≡ true

-- A DNS label of lowercase letters, digits and hyphens, with no hyphen at its ends.
pub record IsLabel (s : Text) : Type 0 where
  pub short : length s ≤ 63
  pub starts : StartsAlnum s
  pub ends : EndsAlnum s
  pub ldh : All (λ c. is_ldh c ≡ true) s

ldh_of_alnum : (c : ℕ) → is_alnum c ≡ true → is_ldh c ≡ true
unfolding is_ldh
ldh_of_alnum c h = ground arith

-- What the optional group of the pattern matches.
record IsTail (k : ℕ) (s : Text) : Type 0 where
  short : length s ≤ suc k
  ends : EndsAlnum s
  ldh : All (λ c. is_ldh c ≡ true) s

IsTail-of_matches : (k : ℕ) (s : Text) → matches_tail k s ≡ true → IsTail k s
unfolding matches_tail
IsTail-of_matches k [] h = cc
IsTail-of_matches k (c ∷ []) h = record {
  short = omega arith;
  ends = h;
  ldh = (ldh_of_alnum c h, tt);
}
IsTail-of_matches zero (c ∷ d ∷ rest) h = cc
IsTail-of_matches (suc k) (c ∷ d ∷ rest) h =
    let t = IsTail-of_matches k (d ∷ rest) (ground arith) in
    let short = t.short in
    record { short = omega arith; ends = t.ends; ldh = (ground arith, t.ldh) }

matches-of_IsTail : (k : ℕ) (s : Text) → IsTail k s → matches_tail k s ≡ true
unfolding matches_tail
matches-of_IsTail k [] t = absurd t.ends
matches-of_IsTail k (c ∷ []) t = t.ends
matches-of_IsTail zero (c ∷ d ∷ rest) t = let short = t.short in absurd (omega arith)
matches-of_IsTail (suc k) (c ∷ d ∷ rest) t =
    let short = t.short in
    ground (
      arith,
      t.ldh.0,
      matches-of_IsTail k (d ∷ rest) (record { short = omega arith; ends = t.ends; ldh = t.ldh.1 }),
    )

-- The pattern matches exactly the labels.
pub subdomain_label-IsLabel : (s : Text) → (subdomain_label s ≡ true) ↔ IsLabel s
unfolding subdomain_label
subdomain_label-IsLabel [] = ((λ h. cc), (λ l. absurd l.starts))
subdomain_label-IsLabel (c ∷ []) = (
  (λ h. record { short = omega arith; starts = h; ends = h; ldh = (ldh_of_alnum c h, tt) }),
  (λ l. l.starts),
)
subdomain_label-IsLabel (c ∷ d ∷ rest) = (
  (λ h.
      let first : is_alnum c ≡ true = ground arith in
      let t = IsTail-of_matches 61 (d ∷ rest) (ground arith) in
      let short = t.short in
      record {
        short = omega arith;
        starts = first;
        ends = t.ends;
        ldh = (ldh_of_alnum c first, t.ldh);
      }),
  (λ l.
      let short = l.short in
      ground (
        arith,
        l.starts,
        matches-of_IsTail 61 (d ∷ rest)
            (record { short = omega arith; ends = l.ends; ldh = l.ldh.1 }),
      )),
)

-- A name is let through as a label exactly if, without blanks and in lower case, it is that label:
-- 1 to 63 bytes, lowercase letters, digits and hyphens with no hyphen at its ends, and not
-- reserved.
pub validate_subdomain_lem :
    (u : Unicode) (name n : Text)
    → (validate_subdomain u name ≡ valid n)
      ↔ ((to_lower u (trim_space u name) ≡ n) × IsLabel n × (is_reserved u n ≡ false))
unfolding validate_subdomain
validate_subdomain_lem u name n = (
  (λ e.
      let same : to_lower u (trim_space u name) ≡ n = ground arith in
      (same, (subdomain_label-IsLabel n).0 (ground arith), ground arith)),
  (λ (same, label, free). ground (arith, same, (subdomain_label-IsLabel n).1 label, free)),
)

-- A name of 62 bytes or more has no suffixed form that is a label.
pub suffixed_too_long : (base : Text) (n : ℕ) → 62 ≤ length base → ¬ IsLabel (suffixed base n)
unfolding two_digits suffixed
suffixed_too_long base n long label =
    let short = label.short in
    let whole = length-append base (b'-' ∷ two_digits n) in
    elim (Bool-cases (ltb n 10)) [
      | inl one ↦ let digits : length (two_digits n) ≡ 1 = rw one refl in absurd (omega arith)
      | inr two ↦ let digits : length (two_digits n) ≡ 2 = rw two refl in absurd (omega arith)
    ]
