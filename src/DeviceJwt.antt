-- ===== src/DeviceJwt.antt =====
-- internal/devicejwt/devicejwt.go: the ring of signing keys and the tokens of the devices.
--
-- Ed25519, base64 and JSON are libraries: they are parameters. `IssuedAt` is in seconds since 1970,
-- and `none` is the zero time. An error of Sign is `none`; its text is for the log.
pub mod Sign
pub mod Accept
pub mod File
mod Examples
use rdoc_cam_hub.Common.{
  ℕ, ◌+◌, ◌*◌, ◌/◌, Text, bytes, Bool, true, false, not, ◌&&◌, ◌||◌, Option, none, some, List, [],
  ◌∷◌, ◌++◌, ◌==◌, text_eq, nat_eq, if◌then◌else◌, find, length, ltb, split, ◌>>=◌, ◌>>◌, require,
  Encoding, Json,
}
use rdoc_cam_hub.Common.Int.{ℤ, pos}
use rdoc_cam_hub.Http.{second, hour}

abbrev pub retirement_window : ℕ
retirement_window = 30 * 24 * hour

pub record Claims : Type 0 where
  pub device_id : Text
  pub subdomain : Text
  pub issued_at : Option ℤ
  pub kid : Text

-- `private_seed` is empty in a retired key. The hex forms are for the file of the ring.
pub record Keypair : Type 0 where
  pub kid : Text
  pub private_seed : Text
  pub private_hex : Text
  pub public_key : Text
  pub public_hex : Text
  pub created_at : ℕ
  pub retired_at : Option ℕ

pub record Ring : Type 0 where
  pub keys : List Keypair
  pub current_kid : Text

-- The header of a token.
pub record Header : Type 0 where
  pub alg : Text
  pub kid : Text
  pub typ : Text

-- claimsWire
pub record ClaimsWire : Type 0 where
  pub sub : Text
  pub dom : Text
  pub iat : ℤ

-- crypto/ed25519
pub record Ed25519 : Type 0 where
  pub public_of : Text → Text
  pub sign : Text → Text → Text
  pub verify : Text → Text → Text → Bool

pub record Libraries : Type 0 where
  pub ed25519 : Ed25519
  pub base64 : Encoding
  pub header_json : Json Header
  pub claims_json : Json ClaimsWire

abbrev pub seed_size : ℕ
seed_size = 32

abbrev pub public_key_size : ℕ
public_key_size = 32

abbrev pub dot : ℕ
dot = b'.'

-- Ring.findKey
unfoldable pub find_key : Ring → Text → Option Keypair
unfolding find
find_key ring kid = find (λ (k : Keypair). k.kid == kid) ring.keys

-- Ring.SigningKID
unfoldable pub signing_kid : Ring → Text
signing_kid ring = ring.current_kid

-- Ring.current
unfoldable pub current : Ring → Option Keypair
unfolding find_key
current ring = do
  require (not (ring.current_kid == []))
  key ← find_key ring ring.current_kid
  require (length key.private_seed == seed_size)
  some key

-- The key that generateKeypair makes of a pair of the library; `kid_of` is the hex form of the first
-- eight bytes of the SHA-256 of the public key.
unfoldable pub generate_keypair : (Text → Text) → ℕ → Option (Text × Text) → Option Keypair
generate_keypair kid_of now none = none
generate_keypair kid_of now (some (seed, public)) = some (record {
  kid = kid_of public;
  private_seed = seed;
  private_hex = [];
  public_key = public;
  public_hex = [];
  created_at = now;
  retired_at = none;
})

-- NewRingWithGeneratedKey
unfoldable pub new_ring_with_generated_key : (Text → Text) → ℕ → Option (Text × Text) → Option Ring
unfolding generate_keypair
new_ring_with_generated_key kid_of now random = do
  key ← generate_keypair kid_of now random
  some (record { keys = key ∷ []; current_kid = key.kid })

abbrev pub issued_or_now : ℕ → Option ℤ → ℤ
issued_or_now now none = pos (now / second)
issued_or_now now (some at) = at

-- time.Since(*kp.RetiredAt) > RetirementWindow
abbrev pub is_retired : ℕ → Option ℕ → Bool
is_retired now none = false
is_retired now (some at) = ltb (at + retirement_window) now

module _ (lib : Libraries) where
  abbrev pub header_of : Keypair → Header
  header_of key = record { alg = bytes "EdDSA"; kid = key.kid; typ = bytes "JWT" }

  abbrev pub wire_of : ℕ → Claims → ClaimsWire
  wire_of now c = record {
    sub = c.device_id;
    dom = c.subdomain;
    iat = issued_or_now now c.issued_at;
  }

  -- Ring.Sign
  unfoldable pub sign : Ring → ℕ → Claims → Option Text
  unfolding current
  sign ring now c = do
    signer ← current ring
    header ← lib.header_json.marshal (header_of signer)
    payload ← lib.claims_json.marshal (wire_of now c)
    let input = lib.base64.encode header ++ dot ∷ lib.base64.encode payload
    require (length signer.private_seed == seed_size)
    some (input ++ dot ∷ lib.base64.encode (lib.ed25519.sign signer.private_seed input))

  -- Verify behind the key: the window, the signature and the claims.
  unfoldable pub verify_with : ℕ → Text → Keypair → Text → Text → Text → Option Claims
  verify_with now kid key header payload signature = do
    require (not (is_retired now key.retired_at))
    require (length key.public_key == public_key_size)
    sig ← lib.base64.decode signature
    require (lib.ed25519.verify key.public_key (header ++ dot ∷ payload) sig)
    raw ← lib.base64.decode payload
    wire ← lib.claims_json.unmarshal raw
    require (not (wire.sub == [] || wire.dom == []))
    some (record {
      device_id = wire.sub;
      subdomain = wire.dom;
      issued_at = some wire.iat;
      kid = kid;
    })

  -- Verify behind the split into parts.
  unfoldable pub verify_parts : Ring → ℕ → List Text → Option Claims
  unfolding verify_with find_key
  verify_parts ring now (header ∷ payload ∷ signature ∷ []) = do
    raw ← lib.base64.decode header
    hdr ← lib.header_json.unmarshal raw
    require (hdr.alg == bytes "EdDSA" && not (hdr.kid == []))
    key ← find_key ring hdr.kid
    verify_with now hdr.kid key header payload signature
  verify_parts ring now _ = none

  -- Ring.Verify; every failure is ErrInvalidToken
  unfoldable pub verify : Ring → ℕ → Text → Option Claims
  unfolding verify_parts split
  verify ring now token = verify_parts ring now (split dot token)
