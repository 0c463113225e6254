-- ===== src/DeviceJwt/File.antt =====
-- internal/devicejwt/file.go: the ring on disk.
--
-- The file system, the hex codec and the JSON of the file are parameters. An error is `none` or
-- `false`; its text is for the operator.
pub mod Saved
use rdoc_cam_hub.Common.{
  ℕ, Text, bytes, Bool, true, false, not, Option, none, some, List, [], ◌∷◌, ◌++◌, ◌==◌, text_eq,
  nat_eq, length, map, ◌>>=◌, ◌>>◌, require, Encoding, Json, if◌then◌else◌,
}
use rdoc_cam_hub.DeviceJwt.{Keypair, Ring, seed_size, public_key_size, find_key}

-- The columns of a key in the file: the fields of Keypair that are marshalled.
pub record KeyColumns : Type 0 where
  pub kid : Text
  pub private : Text
  pub public : Text
  pub created_at : ℕ
  pub retired_at : Option ℕ

pub record RingFile : Type 0 where
  pub keys : List KeyColumns
  pub current : Text

-- os.ReadFile, os.WriteFile, os.Rename and os.Remove on the files of type S
pub record FileSystem (S : Type 0) : Type 0 where
  pub read : S → Text → Option Text
  pub write : (files : S) (path content : Text) (mode : ℕ) → Bool × S
  pub rename : (files : S) (source target : Text) → Bool × S
  pub remove : S → Text → S

abbrev pub has_key : Option Keypair → Bool
has_key none = false
has_key (some key) = true

module _ (hex : Encoding) where
  unfoldable pub decode_seed : Text → Option Text
  decode_seed [] = some []
  decode_seed (c ∷ s) = do seed ← hex.decode (c ∷ s); require (length seed == seed_size); some seed

  -- The loop body of LoadRingFile.
  unfoldable pub decode_key : KeyColumns → Option Keypair
  unfolding decode_seed
  decode_key k = do
    seed ← decode_seed k.private
    public ← hex.decode k.public
    require (length public == public_key_size)
    some (record {
      kid = k.kid;
      private_seed = seed;
      private_hex = k.private;
      public_key = public;
      public_hex = k.public;
      created_at = k.created_at;
      retired_at = k.retired_at;
    })

  unfoldable pub decode_keys : List KeyColumns → Option (List Keypair)
  unfolding decode_key
  decode_keys [] = some []
  decode_keys (k ∷ rest) = do key ← decode_key k; keys ← decode_keys rest; some (key ∷ keys)

  -- LoadRingFile behind json.Unmarshal
  unfoldable pub decode_ring : RingFile → Option Ring
  unfolding decode_keys find_key
  decode_ring file = do
    keys ← decode_keys file.keys
    require (not (file.current == []))
    let ring : Ring = record { keys = keys; current_kid = file.current }
    require (has_key (find_key ring file.current))
    some ring

  -- The loop body of SaveRingFile: the hex columns mirror the bytes, but an empty seed leaves its
  -- column as it is.
  unfoldable pub mirror_key : Keypair → Keypair
  mirror_key k =
      let mirrored = record k { public_hex = hex.encode k.public_key } in
      if k.private_seed == []
      then mirrored
      else record mirrored { private_hex = hex.encode k.private_seed }

  unfoldable pub mirror : Ring → Ring
  unfolding mirror_key
  mirror ring = record ring { keys = map mirror_key ring.keys }

abbrev pub columns_of : Keypair → KeyColumns
columns_of k = record {
  kid = k.kid;
  private = k.private_hex;
  public = k.public_hex;
  created_at = k.created_at;
  retired_at = k.retired_at;
}

abbrev pub file_of : Ring → RingFile
file_of ring = record { keys = map columns_of ring.keys; current = ring.current_kid }

abbrev pub temporary : Text → Text
temporary path = path ++ bytes ".tmp"

module _ {S : Type 0} (os : FileSystem S) (hex : Encoding) (json : Json RingFile) where
  -- LoadRingFile
  unfoldable pub load_ring_file : S → Text → Option Ring
  unfolding decode_ring
  load_ring_file files path = do
    content ← os.read files path
    file ← json.unmarshal content
    decode_ring hex file

  -- SaveRingFile behind os.Rename
  unfoldable pub save_renamed : Text → Bool × S → Bool × S
  save_renamed path (true, files) = (true, files)
  save_renamed path (false, files) = (false, os.remove files (temporary path))

  -- SaveRingFile behind os.WriteFile
  unfoldable pub save_written : Text → Bool × S → Bool × S
  unfolding save_renamed
  save_written path (true, files) = save_renamed path (os.rename files (temporary path) path)
  save_written path (false, files) = (false, files)

  -- SaveRingFile behind json.MarshalIndent; the mode is 0600
  unfoldable pub save_marshalled : S → Text → Option Text → Bool × S
  unfolding save_written
  save_marshalled files path none = (false, files)
  save_marshalled files path (some content) =
      save_written path (os.write files (temporary path) content 384)

  -- SaveRingFile
  unfoldable pub save_ring_file : S → Text → Ring → Bool × S
  unfolding save_marshalled mirror
  save_ring_file files path ring =
      save_marshalled files path (json.marshal (file_of (mirror hex ring)))
