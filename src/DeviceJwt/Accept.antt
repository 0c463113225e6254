-- ===== src/DeviceJwt/Accept.antt =====
-- What a token that is accepted shows.
use rdoc_cam_hub.Common.{
  ℕ, ◌+◌, ◌≤◌, Text, some, List, [], ◌∷◌, ◌++◌, text_eq, ◌≡◌, refl, subst, sym, ◌≢◌, arith, split,
  ◌>>=◌, require, chain-some, require-some, text_beq_iff,
}
use rdoc_cam_hub.DeviceJwt.{
  Claims, Keypair, Ring, Libraries, dot, find_key, retirement_window, verify_with, verify_parts,
  verify, wire_of,
}

module _ (lib : Libraries) where
  -- The key signed the header and the payload, and the payload holds the claims.
  pub record IsSigned (now : ℕ) (key : Keypair) (header payload signature : Text) (claims : Claims)
      : Type 0 where
    pub verified :
        (lib.base64.decode signature >>= λ s.
        require (lib.ed25519.verify key.public_key (header ++ dot ∷ payload) s))
        ≡ some tt
    pub payload_read :
        (lib.base64.decode payload >>= lib.claims_json.unmarshal) ≡ some (wire_of lib now claims)
    pub has_device_id : claims.device_id ≢ []
    pub has_subdomain : claims.subdomain ≢ []
    pub in_window : (at : ℕ) → key.retired_at ≡ some at → now ≤ at + retirement_window

  verify_with-IsSigned :
      (now : ℕ) (kid : Text) (key : Keypair) (header payload signature : Text) (claims : Claims)
      → verify_with lib now kid key header payload signature ≡ some claims
      → IsSigned now key header payload signature claims × (claims.kid ≡ kid)
  unfolding verify_with
  verify_with-IsSigned now kid key header payload signature claims h = (
    record {
      verified = ground arith;
      payload_read = ground arith;
      has_device_id = ground (arith, text_beq_iff claims.device_id []);
      has_subdomain = ground (arith, text_beq_iff claims.subdomain []);
      in_window = ground arith;
    },
    ground arith,
  )

  -- A token of three parts that is accepted names a key of the ring, and that key signed it.
  pub record IsAccepted (ring : Ring) (now : ℕ) (claims : Claims) (parts : List Text) : Type 0 where
    pub header : Text
    pub payload : Text
    pub signature : Text
    pub three : parts ≡ header ∷ payload ∷ signature ∷ []
    pub key : Keypair
    pub in_ring : find_key ring claims.kid ≡ some key
    pub signed : IsSigned now key header payload signature claims

  verify_parts-IsAccepted :
      (ring : Ring) (now : ℕ) (parts : List Text) (claims : Claims)
      → verify_parts lib ring now parts ≡ some claims
      → IsAccepted ring now claims parts
  unfolding verify_parts find_key
  verify_parts-IsAccepted ring now [] claims h = ground arith
  verify_parts-IsAccepted ring now (a ∷ []) claims h = ground arith
  verify_parts-IsAccepted ring now (a ∷ b ∷ []) claims h = ground arith
  verify_parts-IsAccepted ring now (a ∷ b ∷ c ∷ d ∷ rest) claims h = ground arith
  verify_parts-IsAccepted ring now (header ∷ payload ∷ signature ∷ []) claims h =
      let (raw, decodes, h1) = chain-some (lib.base64.decode header) _ claims h in
      let (hdr, reads, h2) = chain-some (lib.header_json.unmarshal raw) _ claims h1 in
      let (checked, h3) = require-some _ _ claims h2 in
      let (key, found, h4) =
        chain-some (find_key ring hdr.kid)
          (λ key. verify_with lib now hdr.kid key header payload signature) claims h3 in
      let (signed, same_kid) =
        verify_with-IsSigned now hdr.kid key header payload signature claims h4 in
      record {
        header = header;
        payload = payload;
        signature = signature;
        three = refl;
        key = key;
        in_ring = subst (λ k. find_key ring k ≡ some key) (sym same_kid) found;
        signed = signed;
      }

  -- An accepted token is three parts behind dots: the claims are those of its payload, which name
  -- a device and a subdomain, and the key that the claims name stands in the ring, verifies the
  -- signature over the first two parts, and has not been retired for longer than the window.
  pub verify-IsAccepted :
      (ring : Ring) (now : ℕ) (token : Text) (claims : Claims)
      → verify lib ring now token ≡ some claims
      → IsAccepted ring now claims (split dot token)
  unfolding verify
  verify-IsAccepted ring now token claims h =
      verify_parts-IsAccepted ring now (split dot token) claims h
