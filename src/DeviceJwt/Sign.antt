-- ===== src/DeviceJwt/Sign.antt =====
-- The round trip of Sign and Verify.
use rdoc_cam_hub.Common.{
  ℕ, Text, bytes, true, false, Option-cases, inl, inr, some, [], ◌∷◌, ◌++◌, ◌==◌, text_eq, ◌≡◌, ◌≢◌,
  text_beq, refl, arith, find-test, split, split-append, split-none, any, length, text_beq_iff,
  IsInverse, IsReadable, nat_beq, append_assoc,
}
use rdoc_cam_hub.DeviceJwt.{
  Claims, Keypair, Ring, Libraries, ClaimsWire, dot, find_key, is_retired, verify_with,
  verify_parts, verify, wire_of, header_of, current, sign, public_key_size, issued_or_now,
}

-- What the libraries promise: base64 is read back and has no dot, and a signature verifies under
-- the public key of its seed.
pub record IsSound (lib : Libraries) : Type 0 where
  pub base64_inverse : IsInverse lib.base64
  pub base64_dotless : (s : Text) → any (λ a. nat_beq a dot) (lib.base64.encode s) ≡ false
  pub signature_verifies :
      (seed message : Text)
      → lib.ed25519.verify (lib.ed25519.public_of seed) message (lib.ed25519.sign seed message)
        ≡ true
  pub public_key_length : (seed : Text) → length (lib.ed25519.public_of seed) ≡ public_key_size

≢-beq : (s t : Text) → s ≢ t → (s == t) ≡ false
≢-beq s t h = ground (arith, text_beq_iff s t)

find_kid : (ring : Ring) (kid : Text) (key : Keypair) → find_key ring kid ≡ some key → key.kid ≡ kid
unfolding find_key
find_kid ring kid key h =
    (text_beq_iff key.kid kid).0 (find-test (λ (k : Keypair). k.kid == kid) ring.keys key h)

module _ (lib : Libraries) (sound : IsSound lib) where
  split_three :
      (a b c : Text)
      → split dot ((lib.base64.encode a ++ dot ∷ lib.base64.encode b) ++ dot ∷ lib.base64.encode c)
        ≡ lib.base64.encode a ∷ lib.base64.encode b ∷ lib.base64.encode c ∷ []
  split_three a b c =
      rw
        (
          append_assoc (lib.base64.encode a) (dot ∷ lib.base64.encode b)
              (dot ∷ lib.base64.encode c),
          split-append dot (lib.base64.encode a) (lib.base64.encode b ++ dot ∷ lib.base64.encode c)
              (sound.base64_dotless a),
          split-append dot (lib.base64.encode b) (lib.base64.encode c) (sound.base64_dotless b),
          split-none dot (lib.base64.encode c) (sound.base64_dotless c),
        )
        refl

  current-kid :
      (ring : Ring) (key : Keypair)
      → current ring ≡ some key
      → (key.kid ≡ ring.current_kid) × (key.kid ≢ [])
  unfolding current
  current-kid ring key h =
      ground (arith, find_kid ring ring.current_kid key, text_beq_iff ring.current_kid [])

  -- What the signer wrote is read back at the key of its public half.
  verify_with_signed :
      (now : ℕ) (kid : Text) (key : Keypair) (seed header raw : Text) (wire : ClaimsWire)
      → is_retired now key.retired_at ≡ false
      → key.public_key ≡ lib.ed25519.public_of seed
      → lib.claims_json.unmarshal raw ≡ some wire
      → wire.sub ≢ []
      → wire.dom ≢ []
      → verify_with lib now kid key header
          (lib.base64.encode raw)
          (lib.base64.encode (lib.ed25519.sign seed (header ++ dot ∷ lib.base64.encode raw)))
        ≡ some (record {
          device_id = wire.sub;
          subdomain = wire.dom;
          issued_at = some wire.iat;
          kid = kid;
        })
  unfolding verify_with
  verify_with_signed now kid key seed header raw wire fresh same reads sub dom =
      let message = header ++ dot ∷ lib.base64.encode raw in
      rw
        (
          fresh,
          same,
          sound.public_key_length seed,
          sound.base64_inverse (lib.ed25519.sign seed message),
          sound.signature_verifies seed message,
          sound.base64_inverse raw,
          reads,
          ≢-beq wire.sub [] sub,
          ≢-beq wire.dom [] dom,
        )
        refl

  -- The same at three parts whose header names a key of the ring.
  verify_parts_signed :
      (ring : Ring) (now : ℕ) (key : Keypair) (seed raw_header kid raw : Text) (wire : ClaimsWire)
      → find_key ring kid ≡ some key
      → kid ≢ []
      → is_retired now key.retired_at ≡ false
      → key.public_key ≡ lib.ed25519.public_of seed
      → lib.header_json.unmarshal raw_header
        ≡ some (record { alg = bytes "EdDSA"; kid = kid; typ = bytes "JWT" })
      → lib.claims_json.unmarshal raw ≡ some wire
      → wire.sub ≢ []
      → wire.dom ≢ []
      → verify_parts lib ring now (
          lib.base64.encode raw_header
          ∷ lib.base64.encode raw
          ∷ lib.base64.encode
              (lib.ed25519.sign seed (lib.base64.encode raw_header ++ dot ∷ lib.base64.encode raw))
          ∷ [])
        ≡ some (record {
          device_id = wire.sub;
          subdomain = wire.dom;
          issued_at = some wire.iat;
          kid = kid;
        })
  unfolding verify_parts text_beq
  verify_parts_signed ring now key seed raw_header kid raw wire found named fresh same reads_header
        reads sub dom =
      rw (sound.base64_inverse raw_header, reads_header, ≢-beq kid [] named, found)
        (verify_with_signed now kid key seed (lib.base64.encode raw_header) raw wire fresh same
          reads sub dom)

  sign-parts :
      (ring : Ring) (now : ℕ) (claims : Claims) (token : Text) (signer : Keypair)
      → current ring ≡ some signer
      → sign lib ring now claims ≡ some token
      → (raw_header : Text) × (raw : Text) × (lib.header_json.marshal (header_of lib signer)
          ≡ some raw_header)
        × (lib.claims_json.marshal (wire_of lib now claims) ≡ some raw)
        × (token
            ≡ (lib.base64.encode raw_header ++ dot ∷ lib.base64.encode raw)
              ++ dot
                ∷ lib.base64.encode (
                    lib.ed25519.sign signer.private_seed
                      (lib.base64.encode raw_header ++ dot ∷ lib.base64.encode raw)))
  unfolding sign
  sign-parts ring now claims token signer cur h =
      elim (Option-cases (lib.header_json.marshal (header_of lib signer))) [
        | inl e ↦ absurd (ground arith)
        | inr (raw_header, made_header) ↦
            elim (Option-cases (lib.claims_json.marshal (wire_of lib now claims))) [
              | inl e ↦ absurd (ground arith)
              | inr (raw, made) ↦ (raw_header, raw, made_header, made, ground arith)
            ]
      ]

  -- Over sound libraries, a token that a ring signs for a device with a name verifies at any later
  -- ring that has the public half of the signing key under the same kid, not retired for longer
  -- than the window: what comes out are the claims that went in, with the time of issue and the
  -- signing kid.
  pub verify-sign :
      (ring later_ring : Ring) (signed_at now : ℕ) (claims : Claims) (token : Text)
      (signer key : Keypair)
      → current ring ≡ some signer
      → IsReadable lib.header_json (header_of lib signer)
      → IsReadable lib.claims_json (wire_of lib signed_at claims)
      → claims.device_id ≢ []
      → claims.subdomain ≢ []
      → find_key later_ring signer.kid ≡ some key
      → key.public_key ≡ lib.ed25519.public_of signer.private_seed
      → is_retired now key.retired_at ≡ false
      → sign lib ring signed_at claims ≡ some token
      → verify lib later_ring now token
        ≡ some (record claims {
          issued_at = some (issued_or_now signed_at claims.issued_at);
          kid = signer.kid;
        })
  unfolding verify
  verify-sign ring later_ring signed_at now claims token signer key cur reads_header reads sub dom
        found same fresh h =
      let (raw_header, raw, made_header, made, whole) =
        sign-parts ring signed_at claims token signer cur h in
      rw
        (
          whole,
          split_three raw_header raw (
              lib.ed25519.sign signer.private_seed
                (lib.base64.encode raw_header ++ dot ∷ lib.base64.encode raw)),
        )
        (verify_parts_signed later_ring now key signer.private_seed raw_header signer.kid raw
          (wire_of lib signed_at claims) found (current-kid ring signer cur).1 fresh same
          (reads_header raw_header made_header) (reads raw made) sub dom)
