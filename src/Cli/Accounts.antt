-- ===== src/Cli/Accounts.antt =====
-- What the commands for the first admin and for enrollment tokens leave in the tables.
pub mod Bootstrap
use rdoc_cam_hub.Common.{
  ℕ, ◌+◌, ◌≤◌, Text, bytes, Bool, true, false, not, ◌||◌, ◌&&◌, Option, none, some, List, [], ◌∷◌,
  ◌++◌, ◌==◌, text_eq, nat_eq, ==-refl, text_beq_iff, ◌≡◌, ◌≢◌, ◌⊎◌, inl, inr, refl, sym, ap, ◌∙◌,
  arith, Bool-cases, Option-cases, if◌then◌else◌, In, any, find, find-test, Unicode, to_lower,
  trim_space, length, ltb,
}
use rdoc_cam_hub.Common.Int.{ℤ, pos, negsuc, pos_part, ◌+ℤ◌, ltb_ℤ}
use rdoc_cam_hub.Store.{
  Database, Env, Result, ok, err, User, EnrollmentToken, Role, admin, role_beq_iff, role_eq, query,
  row_or_not_found,
}
use rdoc_cam_hub.Store.Users.{user_create, by_email}
use rdoc_cam_hub.Store.Tokens.{token_create, token_refused}
use rdoc_cam_hub.Cli.{
  BootstrapFlags, Startup, result_of, bootstrap_hashed, run_bootstrap_admin, is_admin, earliest,
  filter, as_actor, resolve_actor, TokenFlags, Printed, printed, token_minted, token_for,
  run_enrollment_token,
}

-- The user that a token is attributed to: an admin of the table.
pub record IsActor (d : Database) (email : Text) (id : ℕ) (shown : Text) : Type 0 where
  pub user : User
  pub stored : In user d.users
  pub is_admin : user.role ≡ admin
  pub id_of : user.id ≡ id
  pub email_of : user.email ≡ shown
  pub asked : (email ≡ []) ⊎ (user.email ≡ email)

find-In :
    (p : User → Bool) (users : List User) (user : User) → find p users ≡ some user → In user users
unfolding find
find-In p [] user h = absurd (ground arith)
find-In p (x ∷ users) user h = elim (Bool-cases (p x)) [
  | inl hit ↦ inl (ground (arith, hit, h))
  | inr miss ↦ inr (find-In p users user (ground (arith, miss, h)))
]

earliest-In : (users : List User) (user : User) → earliest users ≡ some user → In user users
unfolding earliest
earliest-In [] user h = absurd (ground arith)
earliest-In (x ∷ users) user h = elim (Option-cases (earliest users)) [
  | inl empty ↦ inl (ground (arith, empty, h))
  | inr (other, e) ↦ elim (Bool-cases (ltb other.created_at x.created_at)) [
    | inl older ↦ inr (earliest-In users user (ground (arith, e, older, h)))
    | inr younger ↦ inl (ground (arith, e, younger, h))
  ]
]

In-cons :
    (x user : User) (xs ys : List User)
    → (In user xs → In user ys)
    → In user (x ∷ xs)
    → In user (x ∷ ys)
In-cons x user xs ys later (inl e) = inl e
In-cons x user xs ys later (inr h) = inr (later h)

filter-In :
    (p : User → Bool) (users : List User) (user : User) → In user (filter p users) → In user users
unfolding filter
filter-In p [] user h = h
filter-In p (x ∷ users) user h = elim (Bool-cases (p x)) [
  | inl kept ↦ In-cons x user (filter p users) users (filter-In p users user) (rw kept at h)
  | inr dropped ↦ inr (filter-In p users user (rw dropped at h))
]

as_actor-admin :
    (reply : Result User × Database) (id : ℕ) (shown : Text)
    → (as_actor reply).0 ≡ some (id, shown)
    → (user : User) × (reply.0 ≡ ok user)
      × (user.role ≡ admin)
      × (user.id ≡ id)
      × (user.email ≡ shown)
as_actor-admin (err e, d) id shown h = absurd (ground arith)
as_actor-admin (ok user, d) id shown h = (
  user,
  refl,
  ground (arith, h, role_beq_iff user.role admin),
  ground (arith, h),
  ground (arith, h),
)

first_admin-In :
    (env : Env) (d : Database) (user : User)
    → (query env d (λ d. (row_or_not_found (earliest (filter is_admin d.users)), d))).0 ≡ ok user
    → In user d.users
unfolding query row_or_not_found
first_admin-In env d user h =
    filter-In is_admin d.users user (earliest-In (filter is_admin d.users) user (ground arith))

by_email-In :
    (env : Env) (d : Database) (email : Text) (user : User)
    → (by_email env d email).0 ≡ ok user
    → In user d.users × (user.email ≡ email)
unfolding by_email query row_or_not_found
by_email-In env d email user h =
    let hit : find (λ (u : User). u.email == email) d.users ≡ some user = ground (arith, h) in
    (
      find-In (λ (u : User). u.email == email) d.users user hit,
      (text_beq_iff user.email email).0
          (find-test (λ (u : User). u.email == email) d.users user hit),
    )

resolve_actor-IsActor :
    (env : Env) (d : Database) (email : Text) (id : ℕ) (shown : Text)
    → (resolve_actor env d email).0 ≡ some (id, shown)
    → IsActor d email id shown
unfolding resolve_actor
resolve_actor-IsActor env d [] id shown h =
    let (user, found, role, same_id, same_email) =
      as_actor-admin (query env d (λ d. (row_or_not_found (earliest (filter is_admin d.users)), d)))
        id shown h in
    record {
      user = user;
      stored = first_admin-In env d user found;
      is_admin = role;
      id_of = same_id;
      email_of = same_email;
      asked = inl refl;
    }
resolve_actor-IsActor env d (c ∷ s) id shown h =
    let (user, found, role, same_id, same_email) =
      as_actor-admin (by_email env d (c ∷ s)) id shown h in
    let (stored, named) = by_email-In env d (c ∷ s) user found in
    record {
      user = user;
      stored = stored;
      is_admin = role;
      id_of = same_id;
      email_of = same_email;
      asked = inr named;
    }

as_actor_tokens : (reply : Result User × Database) → (as_actor reply).1.tokens ≡ reply.1.tokens
as_actor_tokens reply = ground arith

-- The lookup of the actor leaves the tokens alone.
resolve_actor_tokens :
    (env : Env) (d : Database) (email : Text) → (resolve_actor env d email).1.tokens ≡ d.tokens
unfolding resolve_actor query by_email
resolve_actor_tokens env d [] = rw as_actor_tokens (ground arith)
resolve_actor_tokens env d (c ∷ s) = rw as_actor_tokens (ground arith)

module _ (u : Unicode) (env : Env) (start : Startup) (minted : Option (Text × Text)) where
  -- A printed token is a new open row, for an admin of the table, that expires a positive lifetime
  -- after it was minted.
  pub record IsIssued (flags : TokenFlags) (d : Database) (out : Printed) (d' : Database)
      : Type 0 where
    pub lifetime : ℕ
    pub positive : 1 ≤ lifetime
    pub asked_for : flags.ttl ≡ pos lifetime
    pub expires_at : out.row.expires_at ≡ env.app_now + lifetime
    pub is_open : out.row.consumed_at ≡ none
    pub note_kept : out.row.note ≡ flags.note
    pub stored : d'.tokens ≡ d.tokens ++ out.row ∷ []
    pub hash : Text
    pub drawn : minted ≡ some (out.raw, hash)
    pub actor : IsActor d (trim_space u (to_lower u flags.actor_email)) out.row.created_by out.actor
    pub row_hash : out.row.hash ≡ hash

  token_minted-drawn :
      (flags : TokenFlags) (actor : ℕ × Text) (d : Database) (draw : Option (Text × Text))
      (out : Printed)
      → (token_minted u env start minted flags actor d draw).0 ≡ some out
      → ((token_minted u env start minted flags actor d draw).1.tokens ≡ d.tokens ++ out.row ∷ [])
        × (draw ≡ some (out.raw, out.row.hash))
        × (out.row.expires_at ≡ pos_part (pos env.app_now +ℤ flags.ttl))
        × (out.row.consumed_at ≡ none)
        × (out.row.note ≡ flags.note)
        × (out.row.created_by ≡ actor.0)
        × (out.actor ≡ actor.1)
  unfolding token_minted token_create token_refused query
  token_minted-drawn flags actor d none out h = absurd (ground arith)
  token_minted-drawn flags (id, email) d (some (raw, hash)) out h = (
    ground arith,
    ground arith,
    ground arith,
    ground arith,
    ground arith,
    ground arith,
    ground arith,
  )

  lifetime_of :
      (ttl : ℤ)
      → ltb_ℤ (pos 0) ttl ≡ true
      → (n : ℕ) × (1 ≤ n) × (ttl ≡ pos n) × (pos_part (pos env.app_now +ℤ ttl) ≡ env.app_now + n)
  lifetime_of (pos n) h = (n, ground arith, refl, ground arith)
  lifetime_of (negsuc n) h = absurd (ground arith)

  token_for-IsIssued :
      (flags : TokenFlags) (d : Database) (reply : Option (ℕ × Text) × Database) (out : Printed)
      → ltb_ℤ (pos 0) flags.ttl ≡ true
      → reply.1.tokens ≡ d.tokens
      → ((id : ℕ) (shown : Text)
          → reply.0 ≡ some (id, shown)
          → IsActor d (trim_space u (to_lower u flags.actor_email)) id shown)
      → (token_for u env start minted flags reply).0 ≡ some out
      → IsIssued flags d out (token_for u env start minted flags reply).1
  unfolding token_for
  token_for-IsIssued flags d (none, d') out positive kept actors h = absurd (ground arith)
  token_for-IsIssued flags d (some (id, shown), d') out positive kept actors h =
      let (added, drawn, expiry, unspent, noted, by, named) =
        token_minted-drawn flags (id, shown) d' minted out h in
      let (n, some_time, asked, later) = lifetime_of flags.ttl positive in
      record {
        lifetime = n;
        positive = some_time;
        asked_for = asked;
        expires_at = expiry ∙ later;
        is_open = unspent;
        note_kept = noted;
        stored = added ∙ ap (λ rows. rows ++ out.row ∷ []) kept;
        hash = out.row.hash;
        drawn = drawn;
        row_hash = refl;
        actor = rw (by, named) (actors id shown refl);
      }

  -- A token that the command prints is appended to the table, open, with the note and an expiry
  -- that is the lifetime of the flags, which is positive, after the hub's clock, under the hash
  -- that was drawn with it; it is attributed to an admin of the table: the one that was asked for,
  -- or one of them where none was.
  pub run_enrollment_token-IsIssued :
      (flags : TokenFlags) (d : Database) (out : Printed)
      → (run_enrollment_token u env start minted (some flags) d).0 ≡ some out
      → IsIssued flags d out (run_enrollment_token u env start minted (some flags) d).1
  unfolding run_enrollment_token
  run_enrollment_token-IsIssued flags d out h =
      elim (Bool-cases (not (ltb_ℤ (pos 0) flags.ttl) || not (start.configured && start.opened))) [
        | inl refused ↦ absurd (ground (arith, refused, h))
        | inr started ↦ rw started (
            token_for-IsIssued flags d
              (resolve_actor env d (trim_space u (to_lower u flags.actor_email))) out
              (ground (arith, started))
              (resolve_actor_tokens env d (trim_space u (to_lower u flags.actor_email)))
              (λ id shown e.
                resolve_actor-IsActor env d (trim_space u (to_lower u flags.actor_email)) id shown
                  e)
              (rw started at h))
      ]
