-- ===== src/Password/Verified.antt =====
-- A stored hash accepts the passwords with its key, and no other.
use rdoc_cam_hub.Common.{
  ℕ, Text, bytes, false, Option, none, some, [], ◌∷◌, ◌++◌, text_eq, nat_eq, text_beq, ==-refl,
  length, split, prepend, Option-cases, inl, inr, ◌↔◌, text_beq_iff, split-append, split-none, ◌≡◌,
  refl, ap, ◌∙◌, arith, IsInverse, any, nat_beq,
}
use rdoc_cam_hub.Password.{
  Cost, Argon2, matched, cost, dollar, show_version, show_cost, encoded, hash_password, compared,
  scanned, verify_scanned, verify_password, argon_key_len,
}

-- What the libraries promise: base64 and fmt read back what they wrote, without a dollar sign in it,
-- and a key has the length that was asked for.
pub record IsSound (a : Argon2) : Type 0 where
  pub base64_inverse : IsInverse a.base64
  pub base64_dollarless : (s : Text) → any (λ c. nat_beq c dollar) (a.base64.encode s) ≡ false
  pub version_read : a.scan_version (show_version a a.version) ≡ some a.version
  pub version_dollarless : any (λ c. nat_beq c dollar) (show_version a a.version) ≡ false
  pub cost_read : a.scan_cost (show_cost a cost) ≡ some cost
  pub cost_dollarless : any (λ c. nat_beq c dollar) (show_cost a cost) ≡ false
  pub key_length :
      (password salt key : Text) (c : Cost) (n : ℕ)
      → a.id_key password salt c n ≡ some key
      → length key ≡ n

-- Four parts behind the name of the function are split where they were joined.
split_parts :
    (v c s k : Text)
    → any (λ x. nat_beq x dollar) v ≡ false
    → any (λ x. nat_beq x dollar) c ≡ false
    → any (λ x. nat_beq x dollar) s ≡ false
    → any (λ x. nat_beq x dollar) k ≡ false
    → split dollar
        (dollar ∷ (bytes "argon2id" ++ dollar ∷ (v ++ dollar ∷ (c ++ dollar ∷ (s ++ dollar ∷ k)))))
      ≡ [] ∷ bytes "argon2id" ∷ v ∷ c ∷ s ∷ k ∷ []
unfolding split prepend
split_parts v c s k hv hc hs hk =
    rw
      (
        split-append dollar v (c ++ dollar ∷ (s ++ dollar ∷ k)) hv,
        split-append dollar c (s ++ dollar ∷ k) hc,
        split-append dollar s k hs,
        split-none dollar k hk,
      )
      refl

module _ (a : Argon2) where
  scanned_encoded :
      (salt key v c s k : Text)
      → a.scan_version v ≡ some a.version
      → a.scan_cost c ≡ some cost
      → a.base64.decode s ≡ some salt
      → a.base64.decode k ≡ some key
      → scanned a ([] ∷ bytes "argon2id" ∷ v ∷ c ∷ s ∷ k ∷ []) ≡ some (cost, salt, key)
  unfolding scanned text_beq
  scanned_encoded salt key v c s k hv hc hs hk = rw (hv, hc, hs, hk, ==-refl a.version) refl

  compared_iff :
      (want : Text) (got : Option Text) → (compared a want got ≡ matched) ↔ (got ≡ some want)
  unfolding compared
  compared_iff want none = ground arith
  compared_iff want (some got) = ground (arith, text_beq_iff want got)

module _ (a : Argon2) (sound : IsSound a) where
  verify_encoded :
      (other salt key : Text)
      → length key ≡ argon_key_len
      → verify_password a other (encoded a salt key)
        ≡ compared a key (a.id_key other salt cost argon_key_len)
  unfolding verify_password verify_scanned
  verify_encoded other salt key size =
      ap (λ parts. verify_scanned a other (scanned a parts))
        (split_parts (show_version a a.version) (show_cost a cost) (a.base64.encode salt)
          (a.base64.encode key) sound.version_dollarless sound.cost_dollarless
          (sound.base64_dollarless salt) (sound.base64_dollarless key))
      ∙ rw
          (
            scanned_encoded a salt key (show_version a a.version) (show_cost a cost)
                (a.base64.encode salt) (a.base64.encode key) sound.version_read sound.cost_read
                (sound.base64_inverse salt) (sound.base64_inverse key),
            size,
          )
          refl

  -- Over sound libraries, a hash that HashPassword makes verifies for its password, and for
  -- another password exactly where Argon2id gives the two the same key under that salt.
  pub verify_password-hash :
      (password other salt stored : Text)
      → hash_password a password (some salt) ≡ some stored
      → (verify_password a password stored ≡ matched)
        × ((verify_password a other stored ≡ matched)
            ↔ (a.id_key other salt cost argon_key_len ≡ a.id_key password salt cost argon_key_len))
  unfolding hash_password
  verify_password-hash password other salt stored made =
      elim (Option-cases (a.id_key password salt cost argon_key_len)) [
        | inl panics ↦ absurd (ground arith)
        | inr (key, derived) ↦
            let size = sound.key_length password salt key cost argon_key_len derived in
            ground (
              arith,
              verify_encoded password salt key size,
              verify_encoded other salt key size,
              compared_iff a key (a.id_key password salt cost argon_key_len),
              compared_iff a key (a.id_key other salt cost argon_key_len),
            )
      ]
