-- ===== src/Cli/Accounts/Bootstrap.antt =====
-- The first admin can sign in.
use rdoc_cam_hub.Common.{
  ℕ, ◌+◌, ◌≤◌, Text, Bool, true, false, not, ◌||◌, ◌&&◌, Option, none, some, List, [], ◌∷◌, ◌++◌,
  ◌==◌, text_eq, nat_eq, ==-refl, text_beq_iff, ◌≡◌, ◌≢◌, inl, inr, refl, sym, subst, ap, arith,
  Bool-cases, any, find, Unicode, to_lower, trim_space, length, ltb, ap,
}
use rdoc_cam_hub.Store.{Database, Env, Result, ok, err, User, admin, query, row_or_not_found}
use rdoc_cam_hub.Store.Users.{user_create, by_email}
use rdoc_cam_hub.Store.Sessions.{session_create, session_refused, has_id}
use rdoc_cam_hub.Http.{Request, SessionCookieConfig}
use rdoc_cam_hub.Handlers.{Decoded, decoded}
use rdoc_cam_hub.Handlers.Auth.{
  LoginReq, Randomness, login, login_decoded, login_with, login_found, login_verified,
  login_created, login_max_body, max_email_len, max_password_len,
}
use rdoc_cam_hub.Password.{
  Argon2, Verdict, matched, invalid_hash, mismatch, panicked, hash_password, verify_password,
}
use rdoc_cam_hub.Password.Verified.{IsSound, verify_password-hash}
use rdoc_cam_hub.Cli.{
  BootstrapFlags, Startup, result_of, bootstrap_hashed, run_bootstrap_admin, min_password_len,
}

-- A user is appended who is found by the address, and by its number.
record IsCreated (email hash : Text) (d : Database) (user : User) (d' : Database) : Type 0 where
  by_address : find (λ (x : User). x.email == email) d'.users ≡ some user
  by_number : any (λ (x : User). x.id == user.id) d'.users ≡ true
  password_hash : user.password_hash ≡ hash
  sessions : d'.sessions ≡ d.sessions

find-append :
    (p : User → Bool) (users : List User) (user : User)
    → any p users ≡ false
    → p user ≡ true
    → find p (users ++ user ∷ []) ≡ some user
unfolding find any
find-append p [] user fresh hit = ground arith
find-append p (x ∷ users) user fresh hit = ground (arith, find-append p users user)

any-append :
    (p : User → Bool) (users : List User) (user : User)
    → p user ≡ true
    → any p (users ++ user ∷ []) ≡ true
unfolding any
any-append p [] user hit = ground arith
any-append p (x ∷ users) user hit = ground (arith, any-append p users user)

abbrev row_of : Env → Database → Text → Text → User
row_of env d email hash = record {
  id = d.user_serial;
  email = email;
  password_hash = hash;
  role = admin;
  created_at = env.db_now;
}

ok_injective : (a b : User) → ok a ≡ ok b → a ≡ b
ok_injective a b e = ap (λ (x : Result User). elim x [ ok y ↦ y | err e ↦ a ]) e

result_of-ok : (reply : Result User) (user : User) → result_of reply ≡ some user → reply ≡ ok user
result_of-ok reply user h = ground (arith, h)

≢-beq : (s t : Text) → s ≢ t → (s == t) ≡ false
≢-beq s t h = ground (arith, text_beq_iff s t)

le→not_ltb : (a b : ℕ) → a ≤ b → ltb b a ≡ false
le→not_ltb a b h = ground arith

user_create-IsCreated :
    (env : Env) (d : Database) (email hash : Text) (user : User)
    → (user_create env d email hash admin).0 ≡ ok user
    → IsCreated email hash d user (user_create env d email hash admin).1
unfolding user_create query
user_create-IsCreated env d email hash user h = elim (Bool-cases (env.db_up d.statements)) [
  | inr down ↦ absurd (ground (arith, down, h))
  | inl up ↦ elim (Bool-cases (any (λ (x : User). x.email == email) d.users)) [
    | inl taken ↦ absurd (ground (arith, up, taken, h))
    | inr fresh ↦
        let row = row_of env d email hash in
        rw (up, fresh, ok_injective user row (sym (rw (up, fresh) at h)))
          (record {
            by_address =
                find-append (λ (x : User). x.email == email) d.users row fresh (==-refl email);
            by_number = any-append (λ (x : User). x.id == row.id) d.users row (==-refl row.id);
            password_hash = refl;
            sessions = refl;
          })
  ]
]

abbrev accepted : Verdict → Bool
accepted matched = true
accepted invalid_hash = false
accepted mismatch = false
accepted panicked = false

-- VerifyPassword as the sign-in takes it.
abbrev pub accepts : Argon2 → Text → Text → Bool
accepts argon password stored = accepted (verify_password argon password stored)

module _ (u : Unicode) (env : Env) (start : Startup) (argon : Argon2) (sound : IsSound argon) where
  hashed-IsCreated :
      (email : Text) (d : Database) (hash : Option Text) (user : User)
      → (bootstrap_hashed u env start email d hash).0 ≡ some user
      → (made : Text) × (hash ≡ some made)
        × IsCreated
            (to_lower u (trim_space u email))
            made
            d
            user
            (bootstrap_hashed u env start email d hash).1
  unfolding bootstrap_hashed
  hashed-IsCreated email d none user h = absurd (ground arith)
  hashed-IsCreated email d (some hash) user h = (
    hash,
    refl,
    user_create-IsCreated env d (to_lower u (trim_space u email)) hash user
        (result_of-ok (user_create env d (to_lower u (trim_space u email)) hash admin).0 user h),
  )

  bootstrap_nonempty :
      (salt : Text) (flags : BootstrapFlags) (d : Database) (user : User)
      → (run_bootstrap_admin u env start argon (some salt) (some flags) d).0 ≡ some user
      → flags.password ≢ []
  unfolding run_bootstrap_admin
  bootstrap_nonempty salt flags d user h empty =
      ground (arith, h, empty, text_beq_iff flags.password [])

  run_bootstrap-IsCreated :
      (salt : Text) (flags : BootstrapFlags) (d : Database) (user : User)
      → (run_bootstrap_admin u env start argon (some salt) (some flags) d).0 ≡ some user
      → (hash : Text) × (hash_password argon flags.password (some salt) ≡ some hash)
        × IsCreated
            (to_lower u (trim_space u flags.email))
            hash
            d
            user
            (run_bootstrap_admin u env start argon (some salt) (some flags) d).1
  unfolding run_bootstrap_admin
  run_bootstrap-IsCreated salt flags d user h =
      elim (Bool-cases (
        flags.email == []
        || flags.password == []
        || ltb (length flags.password) min_password_len)) [
          | inl refused ↦ absurd (ground (arith, refused, h))
          | inr given ↦
              elim (Bool-cases (not (start.configured && start.migrated && start.opened))) [
                | inl stopped ↦ absurd (ground (arith, given, stopped, h))
                | inr started ↦
                    rw (given, started)
                      (hashed-IsCreated flags.email d
                        (hash_password argon flags.password (some salt)) user
                        (rw (given, started) at h))
              ]
        ]

-- The sign-in of a stored user with a password that verifies, where nothing fails.
login_succeeds :
    (env : Env) (cookies : SessionCookieConfig) (rand : Randomness) (verify : Text → Text → Bool)
    (r : Request) (email password : Text) (d : Database) (user : User) (sid csrf : Text)
    → email ≢ []
    → password ≢ []
    → length email ≤ max_email_len
    → length password ≤ max_password_len
    → find (λ (x : User). x.email == email) d.users ≡ some user
    → any (λ (x : User). x.id == user.id) d.users ≡ true
    → verify password user.password_hash ≡ true
    → rand.session_id ≡ some sid
    → rand.csrf_token ≡ some csrf
    → any (has_id sid) d.sessions ≡ false
    → env.db_up d.statements ≡ true
    → env.db_up (d.statements + 1) ≡ true
    → (login_with env cookies rand verify r email password d).0.status ≡ 200
unfolding login_with login_found login_verified login_created session_create session_refused
    by_email query row_or_not_found
login_succeeds env cookies rand verify r email password d user sid csrf some_email some_password
      short_email short_password stored known good drawn csrf_drawn fresh up up_again =
    rw
      (
        ≢-beq email [] some_email,
        ≢-beq password [] some_password,
        le→not_ltb (length email) max_email_len short_email,
        le→not_ltb (length password) max_password_len short_password,
        up,
        stored,
        good,
        drawn,
        csrf_drawn,
        up_again,
        fresh,
        known,
      )
      refl

module _ (u : Unicode) (env : Env) (start : Startup) (argon : Argon2) (sound : IsSound argon)
    (cookies : SessionCookieConfig) where
  -- The admin that the command creates can sign in with the address and password that were given,
  -- if these are within the limits of the sign-in, the address reads the same in either order of
  -- trimming and lower case, the libraries are sound, and the sign-in draws its random ids, the
  -- session id a new one, and the database carries its statements out.
  pub bootstrap_signs_in :
      (salt : Text) (flags : BootstrapFlags) (d : Database) (user : User)
      → (run_bootstrap_admin u env start argon (some salt) (some flags) d).0 ≡ some user
      → to_lower u (trim_space u flags.email) ≡ trim_space u (to_lower u flags.email)
      → trim_space u (to_lower u flags.email) ≢ []
      → length (trim_space u (to_lower u flags.email)) ≤ max_email_len
      → length flags.password ≤ max_password_len
      → (later : Env) (rand : Randomness) (sid csrf : Text) (decode : ℕ → Text → Decoded LoginReq)
        (r : Request)
      → rand.session_id ≡ some sid
      → rand.csrf_token ≡ some csrf
      → any (has_id sid) d.sessions ≡ false
      → ((n : ℕ) → later.db_up n ≡ true)
      → decode login_max_body r.body
        ≡ decoded (record { email = flags.email; password = flags.password })
      → (login later cookies rand
          (accepts argon)
          u
          decode
          r
          (run_bootstrap_admin u env start argon (some salt) (some flags) d).1).0.status
        ≡ 200
  unfolding login login_decoded
  bootstrap_signs_in salt flags d user made order given short_email short_password later rand sid
        csrf decode r drawn csrf_drawn fresh up body =
      let d' = (run_bootstrap_admin u env start argon (some salt) (some flags) d).1 in
      let (hash, hashed, created) =
        run_bootstrap-IsCreated u env start argon sound salt flags d user made in
      let verified : accepts argon flags.password user.password_hash ≡ true =
        rw
          (
            created.password_hash,
            (verify_password-hash argon sound flags.password flags.password salt hash hashed).0,
          )
          refl in
      rw body (
        login_succeeds later cookies rand (accepts argon) r (trim_space u (to_lower u flags.email))
          flags.password d' user sid csrf given
          (bootstrap_nonempty u env start argon sound salt flags d user made) short_email
          short_password
          (subst (λ a. find (λ (x : User). x.email == a) d'.users ≡ some user) order
            created.by_address)
          created.by_number verified drawn csrf_drawn
          (subst (λ l. any (has_id sid) l ≡ false) (sym created.sessions) fresh) (up d'.statements)
          (up (d'.statements + 1)))
