-- ===== src/Password/Examples.antt =====
-- Hashes with a concrete derivation.
use rdoc_cam_hub.Common.{Text, bytes, none, some, [], ◌≡◌, ◌↔◌, refl}
use rdoc_cam_hub.Samples.{argon, argon-IsSound}
use rdoc_cam_hub.Password.{hash_password, verify_password, matched, cost, argon_key_len}
use rdoc_cam_hub.Password.Verified.{verify_password-hash}

abbrev stored : Text
stored = elim (hash_password argon (bytes "secret") (some (bytes "salt"))) [
  | none ↦ []
  | some s ↦ s
]

verify_password-hash_example :
    (verify_password argon (bytes "secret") stored ≡ matched)
    × ((verify_password argon (bytes "other") stored ≡ matched) ↔ (
        argon.id_key (bytes "other") (bytes "salt") cost argon_key_len
        ≡ argon.id_key (bytes "secret") (bytes "salt") cost argon_key_len))
unfolding hash_password
verify_password-hash_example =
    verify_password-hash argon argon-IsSound (bytes "secret") (bytes "other") (bytes "salt") stored
      refl
