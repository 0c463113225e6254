-- ===== src/Subdomain/Free.antt =====
-- What resolveSubdomain assigns: the first free one of a hundred less one names.
use rdoc_cam_hub.Common.{
  ℕ, zero, leb, suc, ◌+◌, ◌≤◌, ◌<◌, Text, Bool, true, false, none, some, List, [], ◌∷◌, text_eq,
  find, any, if◌then◌else◌, ◌≡◌, ◌⊎◌, inl, inr, refl, sym, ap, ◌∙◌, arith, Bool-cases, ℕ_discrete,
  subst,
}
use rdoc_cam_hub.Store.{Database, Env, Result, ok, err, failed, Device}
use rdoc_cam_hub.Store.Devices.{by_subdomain, has_subdomain}
use rdoc_cam_hub.Subdomain.{
  Resolved, assigned, lookup_failed, subdomain_exhausted, is_subdomain_free, free_of, suffixed,
  try_suffixes, resolve_subdomain,
}

-- Whether a row of the table has a subdomain.
abbrev pub is_taken : List Device → Text → Bool
is_taken devices sub = any (has_subdomain sub) devices

-- base, base-2, base-3, …
unfoldable pub candidate : Text → ℕ → Text
candidate base n = if leb n 1 then base else suffixed base n

abbrev pub TakenBetween : List Device → Text → ℕ → ℕ → Type 0
TakenBetween devices base n m = (j : ℕ) → n ≤ j → j < m → is_taken devices (candidate base j) ≡ true

-- The outcomes of a search from the n-th name up to the m-th, which is not tried any more.
pub data Search (devices : List Device) (base : Text) (n m : ℕ) (found : Resolved) : Type 0 where
  first_free :
      (k : ℕ)
      → found ≡ assigned (candidate base k)
      → n ≤ k
      → k < m
      → is_taken devices (candidate base k) ≡ false
      → TakenBetween devices base n k
      → Search devices base n m found
  all_taken :
      found ≡ subdomain_exhausted → TakenBetween devices base n m → Search devices base n m found
  no_answer : found ≡ lookup_failed → Search devices base n m found

find_any :
    (sub : Text) (devices : List Device)
    → ((find (has_subdomain sub) devices ≡ none) × (is_taken devices sub ≡ false))
      ⊎ ((dev : Device) × (find (has_subdomain sub) devices ≡ some dev)
          × (is_taken devices sub ≡ true))
unfolding find any
find_any sub [] = inl (refl, refl)
find_any sub (dev ∷ devices) = elim (Bool-cases (has_subdomain sub dev)) [
  | inl hit ↦ inr (dev, ground arith, ground arith)
  | inr miss ↦ elim (find_any sub devices) [
    | inl (a, b) ↦ inl (ground arith, ground arith)
    | inr (x, a, b) ↦ inr (x, ground arith, ground arith)
  ]
]

-- The three answers of a lookup.
data Lookup (devices : List Device) (sub : Text) (out : Result Bool) : Type 0 where
  is_free : out ≡ ok true → is_taken devices sub ≡ false → Lookup devices sub out
  in_use : out ≡ ok false → is_taken devices sub ≡ true → Lookup devices sub out
  broken : (e : _) → out ≡ err e → Lookup devices sub out

module _ (env : Env) where
  Lookup-cases : (d : Database) (sub : Text) → Lookup d.devices sub (is_subdomain_free env d sub).0
  unfolding is_subdomain_free by_subdomain free_of
  Lookup-cases d sub = elim (Bool-cases (env.db_up d.statements)) [
    | inr down ↦ broken failed (ground arith)
    | inl up ↦ elim (find_any sub d.devices) [
      | inl (absent, free) ↦ is_free (ground arith) free
      | inr (dev, here, taken) ↦ in_use (ground arith) taken
    ]
  ]

  devices_kept : (d : Database) (sub : Text) → (is_subdomain_free env d sub).1.devices ≡ d.devices
  unfolding is_subdomain_free by_subdomain free_of
  devices_kept d sub = ground arith

  -- A name that is in use moves the search on by one.
  later :
      (devices : List Device) (base : Text) (n m : ℕ) (found : Resolved)
      → is_taken devices (candidate base n) ≡ true
      → Search devices base (n + 1) m found
      → Search devices base n m found
  later devices base n m found used (first_free k e l r free taken) =
      first_free k e (omega arith) r free (extend k taken)
    where
      extend : (k : ℕ) → TakenBetween devices base (n + 1) k → TakenBetween devices base n k
      extend k t j a b = elim (ℕ_discrete j n) [
        | yes e ↦ ap (λ x. is_taken devices (candidate base x)) e ∙ used
        | no ne ↦ t j (omega (arith, ne)) b
      ]
  later devices base n m found used (all_taken e taken) = all_taken e (extend taken)
    where
      extend : TakenBetween devices base (n + 1) m → TakenBetween devices base n m
      extend t j a b = elim (ℕ_discrete j n) [
        | yes e ↦ ap (λ x. is_taken devices (candidate base x)) e ∙ used
        | no ne ↦ t j (omega (arith, ne)) b
      ]
  later devices base n m found used (no_answer e) = no_answer e

  candidate-suffixed : (base : Text) (n : ℕ) → 2 ≤ n → candidate base n ≡ suffixed base n
  unfolding candidate
  candidate-suffixed base n h = ground arith

  module _ (k n : ℕ) (base : Text) (d : Database) where
    abbrev tried : Resolved × Database
    tried = try_suffixes env base (suc k) n d

    tried_broken :
        (e : _) → (is_subdomain_free env d (suffixed base n)).0 ≡ err e → tried.0 ≡ lookup_failed
    unfolding try_suffixes
    tried_broken e h = ground arith

    tried_free :
        (is_subdomain_free env d (suffixed base n)).0 ≡ ok true
        → tried.0 ≡ assigned (suffixed base n)
    unfolding try_suffixes
    tried_free h = ground arith

    tried_next :
        (is_subdomain_free env d (suffixed base n)).0 ≡ ok false
        → tried.0
          ≡ (try_suffixes env base k (n + 1) (is_subdomain_free env d (suffixed base n)).1).0
    unfolding try_suffixes
    tried_next h = ground arith

  -- A search of the same table, up to the same name, with the same outcome.
  moved :
      (devices devices' : List Device) (base : Text) (n m m' : ℕ) (found found' : Resolved)
      → devices' ≡ devices
      → m' ≡ m
      → found ≡ found'
      → Search devices' base n m' found'
      → Search devices base n m found
  moved devices devices' base n m m' found found' e f g s =
      subst (λ x. Search devices base n m x) (sym g)
        (subst (λ x. Search devices base n x found') f (subst (λ x. Search x base n m' found') e s))

  try_suffixes-Search :
      (k n : ℕ) (base : Text) (d : Database)
      → 2 ≤ n
      → Search d.devices base n (n + k) (try_suffixes env base k n d).0
  unfolding try_suffixes
  try_suffixes-Search zero n base d h = all_taken refl (λ j a b. absurd (omega arith))
  try_suffixes-Search (suc k) n base d h =
      let named : candidate base n ≡ suffixed base n = candidate-suffixed base n h in
      elim (Lookup-cases d (suffixed base n)) [
        | broken e broke ↦ no_answer (tried_broken k n base d e broke)
        | is_free yes_free free ↦
            first_free n (tried_free k n base d yes_free ∙ ap assigned (sym named)) (omega arith)
              (omega arith) (ap (is_taken d.devices) named ∙ free) (λ j a b. absurd (omega arith))
        | in_use not_free used ↦
            later d.devices base n (n + suc k) _ (ap (is_taken d.devices) named ∙ used) (
              moved d.devices (is_subdomain_free env d (suffixed base n)).1.devices base (n + 1)
                (n + suc k) (n + 1 + k) _ _ (devices_kept d (suffixed base n)) (omega arith)
                (tried_next k n base d not_free)
                (try_suffixes-Search k (n + 1) base (is_subdomain_free env d (suffixed base n)).1
                  (omega arith)))
      ]

  module _ (d : Database) (base : Text) where
    resolved_broken :
        (e : _)
        → (is_subdomain_free env d base).0 ≡ err e
        → (resolve_subdomain env d base).0 ≡ lookup_failed
    unfolding resolve_subdomain
    resolved_broken e h = ground arith

    resolved_free :
        (is_subdomain_free env d base).0 ≡ ok true
        → (resolve_subdomain env d base).0 ≡ assigned base
    unfolding resolve_subdomain
    resolved_free h = ground arith

    resolved_next :
        (is_subdomain_free env d base).0 ≡ ok false
        → (resolve_subdomain env d base).0
          ≡ (try_suffixes env base 98 2 (is_subdomain_free env d base).1).0
    unfolding resolve_subdomain
    resolved_next h = ground arith

    -- A search for a subdomain either assigns the first of base, base-2, …, base-99 that no device
    -- has, or is exhausted where all of them are in use, or reports a failed lookup.
    pub resolve_subdomain_first : Search d.devices base 1 100 (resolve_subdomain env d base).0
    unfolding candidate
    resolve_subdomain_first = elim (Lookup-cases d base) [
      | broken e broke ↦ no_answer (resolved_broken e broke)
      | is_free yes_free free ↦
          first_free 1 (resolved_free yes_free) (omega arith) (omega arith) free
            (λ j a b. absurd (omega arith))
      | in_use not_free used ↦ later d.devices base 1 100 _ used (
          moved d.devices (is_subdomain_free env d base).1.devices base 2 100 100 _ _
            (devices_kept d base) refl (resolved_next not_free)
            (try_suffixes-Search 98 2 base (is_subdomain_free env d base).1 (omega arith)))
    ]
