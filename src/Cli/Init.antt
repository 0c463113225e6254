-- ===== src/Cli/Init.antt =====
-- The ring that `camhub devicejwt init` leaves on disk.
use rdoc_cam_hub.Common.{
  ℕ, Text, Bool, true, false, not, ◌||◌, Option, none, some, [], ◌∷◌, ◌==◌, text_eq, text_beq_iff,
  ◌≡◌, ◌≢◌, inl, inr, refl, arith, Bool-cases, length, Encoding, IsInverse, Json, IsReadable, find,
  ==-refl, nat_eq,
}
use rdoc_cam_hub.DeviceJwt.{
  Ring, seed_size, public_key_size, new_ring_with_generated_key, generate_keypair, current,
  find_key,
}
use rdoc_cam_hub.DeviceJwt.File.{
  FileSystem, RingFile, load_ring_file, mirror, mirror_key, file_of, has_key,
}
use rdoc_cam_hub.DeviceJwt.File.Saved.{IsFaithful, load_ring_file-save}
use rdoc_cam_hub.Cli.{
  InitFlags, Stat, present, missing, unreadable, may_write, init_ring, run_device_jwt_init,
}

-- The ring of one key.
abbrev ring_of : (Text → Text) → ℕ → Text → Text → Ring
ring_of kid_of now seed public = record {
  keys =
      (record {
        kid = kid_of public;
        private_seed = seed;
        private_hex = [];
        public_key = public;
        public_hex = [];
        created_at = now;
        retired_at = none;
      })
      ∷ [];
  current_kid = kid_of public;
}

not_allowed : (force : Bool) (s : Stat) → force ≡ false → s ≢ missing → may_write force s ≡ false
not_allowed true s careful taken = absurd (ground arith)
not_allowed false missing careful taken = absurd (taken refl)
not_allowed false present careful taken = refl
not_allowed false unreadable careful taken = refl

module _ {S : Type 0} (os : FileSystem S) (stat : S → Text → Stat) (hex : Encoding)
    (json : Json RingFile) (kid_of : Text → Text) (now : ℕ) where
  -- Without --force, a path that is taken or cannot be read keeps all files as they are.
  pub init_refuses :
      (random : Option (Text × Text)) (flags : InitFlags) (files : S)
      → flags.force ≡ false
      → stat files flags.out ≢ missing
      → run_device_jwt_init os stat hex json kid_of now random (some flags) files ≡ (false, files)
  unfolding run_device_jwt_init
  init_refuses random flags files careful taken =
      rw (not_allowed flags.force (stat files flags.out) careful taken) (ground arith)

  found :
      (seed public : Text)
      → has_key (find_key (ring_of kid_of now seed public) (kid_of public)) ≡ true
  unfolding find_key find
  found seed public = ground (arith, ==-refl (kid_of public))

  mirrored-current :
      (seed public : Text)
      → kid_of public ≢ []
      → length seed ≡ seed_size
      → current (mirror hex (ring_of kid_of now seed public)) ≢ none
  unfolding current mirror mirror_key find_key find
  mirrored-current seed public named size = λ e. ground (
    arith,
    e,
    size,
    text_beq_iff (kid_of public) [],
    ==-refl (kid_of public),
    text_beq_iff seed [],
  )

  module _ (faithful : IsFaithful os) (hex_inverse : IsInverse hex)
      (hex_empty : hex.encode [] ≡ []) where
    -- On a faithful file system, a ring that init reports as written loads, and the ring that
    -- loads can sign, where the key pair has the sizes of ed25519, its kid is not empty and JSON
    -- reads the ring back.
    pub init_loads :
        (seed public : Text) (flags : InitFlags) (files : S)
        → length seed ≡ seed_size
        → length public ≡ public_key_size
        → kid_of public ≢ []
        → IsReadable json (file_of (mirror hex (ring_of kid_of now seed public)))
        → (run_device_jwt_init os stat hex json kid_of now
            (some (seed, public))
            (some flags)
            files).0
          ≡ true
        → (ring : Ring) × (load_ring_file os hex json
              (run_device_jwt_init os stat hex json kid_of now
                (some (seed, public))
                (some flags)
                files).1
              flags.out
            ≡ some ring)
          × (current ring ≢ none)
    unfolding run_device_jwt_init init_ring new_ring_with_generated_key generate_keypair
    init_loads seed public flags files seed_len public_len named readable done =
        elim (Bool-cases (flags.out == [] || not (may_write flags.force (stat files flags.out)))) [
          | inl refused ↦ absurd (ground (arith, refused, done))
          | inr free ↦ rw free (
            mirror hex (ring_of kid_of now seed public),
            load_ring_file-save os faithful hex json hex_inverse hex_empty files flags.out
                (ring_of kid_of now seed public) ((public_len, inl seed_len), tt) named
                (found seed public) readable (rw free at done),
            mirrored-current seed public named seed_len,
          )
        ]
