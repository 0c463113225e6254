-- ===== src/Cli.antt =====
-- cmd/camhub: the commands.
--
-- The parsers of the package flag are parameters: the flags of a command are a record, `none` where
-- Parse fails. db.Migrate and db.Open are whether they succeed. An error of a command is `none` or
-- `false`; what is printed is not modelled, but for the enrollment token.
pub mod Serve
pub mod Accounts
pub mod Init
mod Examples
use rdoc_cam_hub.Common.{
  ℕ, ◌*◌, Text, bytes, Bool, true, false, not, ◌||◌, ◌&&◌, Option, none, some, List, [], ◌∷◌, ◌==◌,
  text_eq, if◌then◌else◌, ◌>>=◌, ◌>>◌, require, Unicode, to_lower, trim_space, length, ltb, find,
  Encoding, Json,
}
use rdoc_cam_hub.Common.Int.{ℤ, pos, ltb_ℤ}
use rdoc_cam_hub.Store.{
  Database, Env, Result, ok, err, User, EnrollmentToken, Role, role_eq, admin, query,
  row_or_not_found,
}
use rdoc_cam_hub.Store.Users.{user_create, by_email}
use rdoc_cam_hub.Store.Tokens.{token_create}
use rdoc_cam_hub.Password.{Argon2, hash_password}
use rdoc_cam_hub.DeviceJwt.{Ring, new_ring_with_generated_key}
use rdoc_cam_hub.DeviceJwt.File.{FileSystem, RingFile, save_ring_file}

pub data Command : Type 0 where
  serve migrate bootstrap_admin device_jwt enrollment_token : List Text → Command
  print_version print_help : Command
  unknown : Text → Command

-- The switch of main.
unfoldable pub command_of : List Text → Command
command_of [] = serve []
command_of (cmd ∷ rest) =
    if cmd == bytes "serve"
    then serve rest
    else if cmd == bytes "migrate"
    then migrate rest
    else if cmd == bytes "bootstrap-admin"
    then bootstrap_admin rest
    else if cmd == bytes "devicejwt"
    then device_jwt rest
    else if cmd == bytes "enrollment-token"
    then enrollment_token rest
    else if cmd == bytes "version" || cmd == bytes "-v" || cmd == bytes "--version"
    then print_version
    else if cmd == bytes "help" || cmd == bytes "-h" || cmd == bytes "--help"
    then print_help
    else unknown cmd

abbrev pub min_password_len : ℕ
min_password_len = 12

pub record BootstrapFlags : Type 0 where
  pub email : Text
  pub password : Text

-- The command behind its configuration, and whether Migrate and Open succeed.
pub record Startup : Type 0 where
  pub configured : Bool
  pub migrated : Bool
  pub opened : Bool

abbrev pub result_of : {A : Type 0} → Result A → Option A
result_of (ok a) = some a
result_of (err e) = none

module _ (u : Unicode) (env : Env) (start : Startup) where
  -- runBootstrapAdmin behind HashPassword
  unfoldable pub bootstrap_hashed : Text → Database → Option Text → Option User × Database
  unfolding user_create to_lower trim_space
  bootstrap_hashed email d none = (none, d)
  bootstrap_hashed email d (some hash) =
      let (reply, d') = user_create env d (to_lower u (trim_space u email)) hash admin in
      (result_of reply, d')

  -- runBootstrapAdmin
  unfoldable pub run_bootstrap_admin :
      Argon2 → Option Text → Option BootstrapFlags → Database → Option User × Database
  unfolding bootstrap_hashed hash_password
  run_bootstrap_admin argon random none d = (none, d)
  run_bootstrap_admin argon random (some flags) d =
      if flags.email == [] || flags.password == [] || ltb (length flags.password) min_password_len
      then (none, d)
      else if not (start.configured && start.migrated && start.opened)
      then (none, d)
      else bootstrap_hashed flags.email d (hash_password argon flags.password random)

abbrev pub is_admin : User → Bool
is_admin user = user.role == admin

-- The earliest of some users, the first one where two are as old.
unfoldable pub earliest : List User → Option User
earliest [] = none
earliest (user ∷ users) =
    let later = earliest users in
    elim later [
      | none ↦ some user
      | some other ↦ if ltb other.created_at user.created_at then some other else some user
    ]

unfoldable pub filter : (User → Bool) → List User → List User
filter p [] = []
filter p (user ∷ users) = let rest = filter p users in if p user then user ∷ rest else rest

abbrev pub as_actor : Result User × Database → Option (ℕ × Text) × Database
as_actor (err e, d) = (none, d)
as_actor (ok user, d) = (if user.role == admin then some (user.id, user.email) else none, d)

-- resolveActor: the first admin, or the admin of an address
unfoldable pub resolve_actor : Env → Database → Text → Option (ℕ × Text) × Database
unfolding query row_or_not_found earliest filter by_email
resolve_actor env d [] =
    as_actor (query env d (λ d. (row_or_not_found (earliest (filter is_admin d.users)), d)))
resolve_actor env d email = as_actor (by_email env d email)

pub record TokenFlags : Type 0 where
  pub ttl : ℤ
  pub note : Text
  pub actor_email : Text

-- What `camhub enrollment-token` prints: the raw token, and who minted which one.
pub record Printed : Type 0 where
  pub raw : Text
  pub actor : Text
  pub row : EnrollmentToken

module _ (u : Unicode) (env : Env) (start : Startup) (minted : Option (Text × Text)) where
  abbrev pub printed : Text → Text → Result EnrollmentToken → Option Printed
  printed raw actor (ok row) = some (record { raw = raw; actor = actor; row = row })
  printed raw actor (err e) = none

  -- runEnrollmentToken behind NewEnrollmentToken
  unfoldable pub token_minted :
      TokenFlags → ℕ × Text → Database → Option (Text × Text) → Option Printed × Database
  unfolding token_create
  token_minted flags actor d none = (none, d)
  token_minted flags (id, email) d (some (raw, hash)) =
      let (reply, d') = token_create env d hash id flags.ttl flags.note in
      (printed raw email reply, d')

  -- runEnrollmentToken behind resolveActor
  unfoldable pub token_for : TokenFlags → Option (ℕ × Text) × Database → Option Printed × Database
  unfolding token_minted
  token_for flags (none, d) = (none, d)
  token_for flags (some actor, d) = token_minted flags actor d minted

  -- runEnrollmentToken
  unfoldable pub run_enrollment_token : Option TokenFlags → Database → Option Printed × Database
  unfolding token_for resolve_actor to_lower trim_space
  run_enrollment_token none d = (none, d)
  run_enrollment_token (some flags) d =
      if not (ltb_ℤ (pos 0) flags.ttl) || not (start.configured && start.opened)
      then (none, d)
      else token_for flags (resolve_actor env d (trim_space u (to_lower u flags.actor_email)))

pub record InitFlags : Type 0 where
  pub out : Text
  pub force : Bool

-- os.Stat: a file, no file, or another error.
pub data Stat : Type 0 where
  present missing unreadable : Stat

abbrev pub may_write : Bool → Stat → Bool
may_write true s = true
may_write false missing = true
may_write false present = false
may_write false unreadable = false

module _ {S : Type 0} (os : FileSystem S) (stat : S → Text → Stat) (hex : Encoding)
    (json : Json RingFile) where
  -- runDeviceJWTInit behind NewRingWithGeneratedKey
  unfoldable pub init_ring : Text → S → Option Ring → Bool × S
  unfolding save_ring_file
  init_ring out files none = (false, files)
  init_ring out files (some ring) = save_ring_file os hex json files out ring

  -- runDeviceJWTInit
  unfoldable pub run_device_jwt_init :
      (Text → Text) → ℕ → Option (Text × Text) → Option InitFlags → S → Bool × S
  unfolding init_ring new_ring_with_generated_key
  run_device_jwt_init kid_of now random none files = (false, files)
  run_device_jwt_init kid_of now random (some flags) files =
      if flags.out == [] || not (may_write flags.force (stat files flags.out))
      then (false, files)
      else init_ring flags.out files (new_ring_with_generated_key kid_of now random)

  -- runDeviceJWT; `parse` reads the flags of init
  unfoldable pub run_device_jwt :
      (List Text → Option InitFlags)
      → (Text → Text)
      → ℕ
      → Option (Text × Text)
      → List Text
      → S
      → Bool × S
  unfolding run_device_jwt_init
  run_device_jwt parse kid_of now random [] files = (false, files)
  run_device_jwt parse kid_of now random (sub ∷ rest) files =
      if sub == bytes "init"
      then run_device_jwt_init kid_of now random (parse rest) files
      else (false, files)
