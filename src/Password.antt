-- ===== src/Password.antt =====
-- internal/auth/password.go and internal/auth/enrollment_tokens.go: what the hub stores of a secret.
--
-- Argon2id, SHA-256, base64, hex, and the numbers that fmt prints and scans are parameters. A call of
-- rand.Read is its result: `none` where it fails.
pub mod Verified
mod Examples
use rdoc_cam_hub.Common.{
  ℕ, ◌%◌, ◌^◌, ◌*◌, Text, bytes, Bool, true, false, not, Option, none, some, List, [], ◌∷◌, ◌++◌,
  ◌==◌, text_eq, nat_eq, length, split, ◌>>=◌, ◌>>◌, require, Encoding, if◌then◌else◌,
}

abbrev pub argon_time : ℕ
argon_time = 2

abbrev pub argon_memory : ℕ
argon_memory = 64 * 1024

abbrev pub argon_threads : ℕ
argon_threads = 2

abbrev pub argon_key_len : ℕ
argon_key_len = 32

-- The cost of a hash: memory, time and threads.
pub record Cost : Type 0 where
  pub memory : ℕ
  pub time : ℕ
  pub threads : ℕ

-- argon2.IDKey, with `none` for its panic at a cost that it does not take, and what fmt prints and
-- scans: `%d`, "v=%d" and "m=%d,t=%d,p=%d".
pub record Argon2 : Type 0 where
  pub version : ℕ
  pub id_key : (password salt : Text) → Cost → ℕ → Option Text
  pub show : ℕ → Text
  pub scan_version : Text → Option ℕ
  pub scan_cost : Text → Option Cost
  pub base64 : Encoding

-- VerifyPassword: nil, ErrInvalidHash, the error of a mismatch, or a panic.
pub data Verdict : Type 0 where
  matched invalid_hash mismatch panicked : Verdict

abbrev pub cost : Cost
cost = record { memory = argon_memory; time = argon_time; threads = argon_threads }

abbrev pub dollar : ℕ
dollar = b'$'

module _ (a : Argon2) where
  abbrev pub show_version : ℕ → Text
  show_version v = bytes "v=" ++ a.show v

  abbrev pub show_cost : Cost → Text
  show_cost c =
      bytes "m="
      ++ a.show c.memory
      ++ bytes ",t="
      ++ a.show c.time
      ++ bytes ",p="
      ++ a.show c.threads

  -- The Sprintf of HashPassword.
  abbrev pub encoded : Text → Text → Text
  encoded salt key =
      dollar
      ∷ (bytes "argon2id"
          ++ dollar
            ∷ (show_version a.version
                ++ dollar
                  ∷ (show_cost cost
                      ++ dollar ∷ (a.base64.encode salt ++ dollar ∷ a.base64.encode key))))

  -- HashPassword
  unfoldable pub hash_password : Text → Option Text → Option Text
  hash_password password random = do
    salt ← random
    key ← a.id_key password salt cost argon_key_len
    some (encoded salt key)

  -- subtle.ConstantTimeCompare
  unfoldable pub compared : Text → Option Text → Verdict
  compared want none = panicked
  compared want (some got) = if want == got then matched else mismatch

  -- The scans and decodings of VerifyPassword: cost, salt and key of the hash.
  unfoldable pub scanned : List Text → Option (Cost × Text × Text)
  scanned (_ ∷ name ∷ v ∷ c ∷ s ∷ k ∷ []) = do
    require (name == bytes "argon2id")
    version ← a.scan_version v
    require (version == a.version)
    cost ← a.scan_cost c
    salt ← a.base64.decode s
    want ← a.base64.decode k
    some (cost, salt, want)
  scanned _ = none

  -- VerifyPassword behind the scans
  unfoldable pub verify_scanned : Text → Option (Cost × Text × Text) → Verdict
  unfolding compared
  verify_scanned password none = invalid_hash
  verify_scanned password (some (c, salt, want)) =
      compared want (a.id_key password salt c (length want % 2 ^ 32))

  -- VerifyPassword
  unfoldable pub verify_password : Text → Text → Verdict
  unfolding verify_scanned scanned split
  verify_password password stored = verify_scanned password (scanned (split dollar stored))

module _ (sha256 : Text → Text) (hex url_base64 : Encoding) where
  -- HashEnrollmentToken
  unfoldable pub hash_enrollment_token : Text → Text
  hash_enrollment_token raw = hex.encode (sha256 raw)

  -- NewEnrollmentToken
  unfoldable pub new_enrollment_token : Option Text → Option (Text × Text)
  unfolding hash_enrollment_token
  new_enrollment_token random = do
    b ← random
    let raw = url_base64.encode b
    some (raw, hash_enrollment_token raw)
