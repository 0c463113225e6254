-- ===== src/DeviceJwt/File/Saved.antt =====
-- A ring that is saved: what is on disk afterwards, and what it loads to.
use rdoc_cam_hub.Common.{
  ℕ, Text, bytes, Bool, true, false, Option, none, some, List, [], ◌∷◌, ◌==◌, text_eq, nat_eq,
  length, map, Encoding, Json, ◌≡◌, ◌≢◌, ◌⊎◌, inl, inr, refl, ◌∙◌, ap, arith, IsInverse, IsReadable,
  All, text_beq_iff, text_beq, find, length-append,
}
use rdoc_cam_hub.DeviceJwt.{Keypair, Ring, seed_size, public_key_size, find_key}
use rdoc_cam_hub.DeviceJwt.File.{
  RingFile, FileSystem, decode_seed, decode_key, decode_keys, has_key, decode_ring, mirror_key,
  mirror, columns_of, file_of, temporary, load_ring_file, save_renamed, save_written,
  save_marshalled, save_ring_file,
}

-- What the operating system promises of the content of files.
pub record IsFaithful {S : Type 0} (os : FileSystem S) : Type 0 where
  pub written :
      (files : S) (path content : Text) (mode : ℕ)
      → (os.write files path content mode).0 ≡ true
      → os.read (os.write files path content mode).1 path ≡ some content
  pub write_other :
      (files : S) (path content other : Text) (mode : ℕ)
      → path ≢ other
      → os.read (os.write files path content mode).1 other ≡ os.read files other
  pub renamed :
      (files : S) (source target : Text)
      → (os.rename files source target).0 ≡ true
      → os.read (os.rename files source target).1 target ≡ os.read files source
  pub rename_failed :
      (files : S) (source target other : Text)
      → (os.rename files source target).0 ≡ false
      → os.read (os.rename files source target).1 other ≡ os.read files other
  pub remove_other :
      (files : S) (path other : Text)
      → path ≢ other
      → os.read (os.remove files path) other ≡ os.read files other

temporary_other : (path : Text) → temporary path ≢ path
temporary_other path e = absurd (ground (arith, length-append path (bytes ".tmp"), ap length e))

-- The new content stands at the path after a success, and the old one after a failure.
abbrev pub IsReplaced : {S : Type 0} → FileSystem S → S → Text → Option Text → Bool × S → Type 0
IsReplaced os files path content (true, after) = (content ≢ none) × (os.read after path ≡ content)
IsReplaced os files path content (false, after) = os.read after path ≡ os.read files path

written_of :
    {S : Type 0} (os : FileSystem S) (files : S) (path : Text) (content : Option Text)
    (reply : Bool × S)
    → IsReplaced os files path content reply
    → reply.0 ≡ true
    → (content ≢ none) × (os.read reply.1 path ≡ content)
written_of os files path content (true, after) h e = h
written_of os files path content (false, after) h e = absurd (ground (arith, e))

module _ {S : Type 0} (os : FileSystem S) (faithful : IsFaithful os) (hex : Encoding)
    (json : Json RingFile) where
  save_renamed-IsReplaced :
      (files : S) (path content : Text) (reply : Bool × S)
      → (reply.0 ≡ true → os.read reply.1 path ≡ some content)
      → (reply.0 ≡ false → os.read reply.1 path ≡ os.read files path)
      → IsReplaced os files path (some content) (save_renamed os hex json path reply)
  unfolding save_renamed
  save_renamed-IsReplaced files path content (true, after) moved failed = (ground arith, moved refl)
  save_renamed-IsReplaced files path content (false, after) moved failed =
      faithful.remove_other after (temporary path) path (temporary_other path) ∙ failed refl

  save_written-IsReplaced :
      (files : S) (path content : Text) (reply : Bool × S)
      → (reply.0 ≡ true → os.read reply.1 (temporary path) ≡ some content)
      → os.read reply.1 path ≡ os.read files path
      → IsReplaced os files path (some content) (save_written os hex json path reply)
  unfolding save_written
  save_written-IsReplaced files path content (false, after) made kept = kept
  save_written-IsReplaced files path content (true, after) made kept =
      save_renamed-IsReplaced files path content (os.rename after (temporary path) path)
        (λ moved. faithful.renamed after (temporary path) path moved ∙ made refl)
        (λ failed. faithful.rename_failed after (temporary path) path path failed ∙ kept)

  save_marshalled-IsReplaced :
      (files : S) (path : Text) (content : Option Text)
      → IsReplaced os files path content (save_marshalled os hex json files path content)
  unfolding save_marshalled
  save_marshalled-IsReplaced files path none = refl
  save_marshalled-IsReplaced files path (some content) =
      save_written-IsReplaced files path content (os.write files (temporary path) content 384)
        (λ up. faithful.written files (temporary path) content 384 up)
        (faithful.write_other files (temporary path) content path 384 (temporary_other path))

  -- On a faithful file system, a save replaces the file as a whole: after a success the path has
  -- the marshalled ring, and after a failure at any step it has what it had before.
  pub save_ring_file-IsReplaced :
      (files : S) (path : Text) (ring : Ring)
      → IsReplaced os files path
          (json.marshal (file_of (mirror hex ring)))
          (save_ring_file os hex json files path ring)
  unfolding save_ring_file
  save_ring_file-IsReplaced files path ring =
      save_marshalled-IsReplaced files path (json.marshal (file_of (mirror hex ring)))

  -- A key whose material has the sizes of ed25519; a retired one keeps no seed in either form.
  abbrev pub IsComplete : Keypair → Type 0
  IsComplete k =
      (length k.public_key ≡ public_key_size)
      × ((length k.private_seed ≡ seed_size) ⊎ ((k.private_seed ≡ []) × (k.private_hex ≡ [])))

  module _ (hex_inverse : IsInverse hex) (hex_empty : hex.encode [] ≡ []) where
    encode_nonempty : (seed : Text) → length seed ≡ seed_size → hex.encode seed ≢ []
    encode_nonempty seed h e = ground (arith, h, e, hex_inverse seed, hex_inverse [], hex_empty)

    decode_seed_nonempty :
        (s seed : Text)
        → s ≢ []
        → length seed ≡ seed_size
        → hex.decode s ≡ some seed
        → decode_seed hex s ≡ some seed
    unfolding decode_seed
    decode_seed_nonempty [] seed some_text size h = absurd (some_text refl)
    decode_seed_nonempty (c ∷ s) seed some_text size h = ground arith

    decode_seed-encode :
        (seed : Text) → length seed ≡ seed_size → decode_seed hex (hex.encode seed) ≡ some seed
    decode_seed-encode seed h =
        decode_seed_nonempty (hex.encode seed) seed (encode_nonempty seed h) h (hex_inverse seed)

    nonempty_seed : (seed : Text) → length seed ≡ seed_size → (seed == []) ≡ false
    nonempty_seed seed h = ground (arith, text_beq_iff seed [])

    decode_key-mirror :
        (k : Keypair)
        → IsComplete k
        → decode_key hex (columns_of (mirror_key hex k)) ≡ some (mirror_key hex k)
    unfolding decode_key mirror_key decode_seed text_beq
    decode_key-mirror k (public, inl seed) =
        rw
          (
            nonempty_seed k.private_seed seed,
            decode_seed-encode k.private_seed seed,
            hex_inverse k.public_key,
            public,
          )
          refl
    decode_key-mirror k (public, inr (seedless, no_hex)) =
        rw (seedless, no_hex, hex_inverse k.public_key, public) refl

    decode_keys-mirror :
        (keys : List Keypair)
        → All IsComplete keys
        → decode_keys hex (map columns_of (map (mirror_key hex) keys))
          ≡ some (map (mirror_key hex) keys)
    unfolding decode_keys
    decode_keys-mirror [] h = refl
    decode_keys-mirror (k ∷ keys) (complete, h) =
        rw (decode_key-mirror k complete, decode_keys-mirror keys h) refl

    find_key-mirror :
        (current kid : Text) (keys : List Keypair)
        → has_key
            (find_key (record { keys = map (mirror_key hex) keys; current_kid = current }) kid)
          ≡ has_key (find_key (record { keys = keys; current_kid = current }) kid)
    unfolding find_key find mirror_key
    find_key-mirror current kid [] = refl
    find_key-mirror current kid (k ∷ keys) = ground (arith, find_key-mirror current kid keys)

    decode_ring-mirror :
        (ring : Ring)
        → All IsComplete ring.keys
        → (ring.current_kid == []) ≡ false
        → has_key (find_key ring ring.current_kid) ≡ true
        → decode_ring hex (file_of (mirror hex ring)) ≡ some (mirror hex ring)
    unfolding decode_ring mirror
    decode_ring-mirror ring complete named found =
        rw
          (
            decode_keys-mirror ring.keys complete,
            named,
            find_key-mirror ring.current_kid ring.current_kid ring.keys,
            found,
          )
          refl

    load_ring_file_read :
        (files : S) (path : Text) (ring : Ring) (content : Option Text)
        → IsReadable json (file_of (mirror hex ring))
        → json.marshal (file_of (mirror hex ring)) ≡ content
        → content ≢ none
        → os.read files path ≡ content
        → load_ring_file os hex json files path ≡ decode_ring hex (file_of (mirror hex ring))
    unfolding load_ring_file
    load_ring_file_read files path ring none readable e some_content r = absurd (some_content refl)
    load_ring_file_read files path ring (some content) readable e some_content r =
        rw (r, readable content e) refl

    -- On a faithful file system, a ring that is saved loads again if its keys have the sizes of
    -- ed25519, its current kid is one of them, and JSON reads it back: the keys come back with
    -- their material, times and order, and with the hex columns filled in.
    pub load_ring_file-save :
        (files : S) (path : Text) (ring : Ring)
        → All IsComplete ring.keys
        → ring.current_kid ≢ []
        → has_key (find_key ring ring.current_kid) ≡ true
        → IsReadable json (file_of (mirror hex ring))
        → (save_ring_file os hex json files path ring).0 ≡ true
        → load_ring_file os hex json (save_ring_file os hex json files path ring).1 path
          ≡ some (mirror hex ring)
    load_ring_file-save files path ring complete named found readable saved =
        let replaced =
          written_of os files path (json.marshal (file_of (mirror hex ring)))
            (save_ring_file os hex json files path ring) (save_ring_file-IsReplaced files path ring)
            saved in
        load_ring_file_read (save_ring_file os hex json files path ring).1 path ring
          (json.marshal (file_of (mirror hex ring))) readable refl replaced.0 replaced.1
        ∙ decode_ring-mirror ring complete (ground (arith, named, text_beq_iff ring.current_kid []))
            found
