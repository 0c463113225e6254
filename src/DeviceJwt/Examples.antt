-- ===== src/DeviceJwt/Examples.antt =====
-- Tokens and ring files at concrete rings.
use rdoc_cam_hub.DeviceJwt.{find_key}
use rdoc_cam_hub.Common.{text_beq}
use rdoc_cam_hub.DeviceJwt.{current}
use rdoc_cam_hub.Common.{
  Text, bytes, none, some, [], ◌∷◌, text_eq, ◌≡◌, refl, sym, ap, arith, Json, some_injective, split,
  ==-refl, inl,
}
use rdoc_cam_hub.Common.Int.{pos}
use rdoc_cam_hub.Samples.{
  material, lib, shift-IsInverse, shift_without, same, disk, disk-IsFaithful,
}
use rdoc_cam_hub.DeviceJwt.{Claims, Keypair, Ring, dot, sign, verify}
use rdoc_cam_hub.DeviceJwt.Sign.{IsSound, verify-sign}
use rdoc_cam_hub.DeviceJwt.Accept.{IsAccepted, verify-IsAccepted}
use rdoc_cam_hub.DeviceJwt.File.{RingFile, mirror, file_of, save_ring_file, load_ring_file}
use rdoc_cam_hub.DeviceJwt.File.Saved.{IsReplaced, save_ring_file-IsReplaced, load_ring_file-save}

abbrev claims : Claims
claims = record {
  device_id = bytes "d1";
  subdomain = bytes "cam";
  issued_at = some (pos 5);
  kid = [];
}

lib-IsSound : IsSound lib
lib-IsSound = record {
  base64_inverse = shift-IsInverse;
  base64_dotless = shift_without dot refl;
  signature_verifies = λ seed message. ==-refl message;
  public_key_length = λ seed. refl;
}

abbrev key : Keypair
key = record {
  kid = bytes "k1";
  private_seed = material;
  private_hex = [];
  public_key = material;
  public_hex = [];
  created_at = 1;
  retired_at = none;
}

abbrev ring : Ring
ring = record { keys = key ∷ []; current_kid = bytes "k1" }

-- The ring after the key was retired and its seed dropped.
abbrev later_ring : Ring
later_ring = record {
  keys = record key { private_seed = []; retired_at = some 100 } ∷ [];
  current_kid = bytes "k2";
}

abbrev token : Text
token = elim (sign lib ring 50 claims) [ none ↦ [] | some t ↦ t ]

verify-sign_example : verify lib later_ring 200 token ≡ some (record claims { kid = bytes "k1" })
unfolding current text_beq sign
verify-sign_example =
    verify-sign lib lib-IsSound ring later_ring 50 200 claims token key
      (record key { private_seed = []; retired_at = some 100 }) refl
      (λ s e.
        ap (λ k. some (record { alg = bytes "EdDSA"; kid = k; typ = bytes "JWT" }))
          (sym (some_injective (bytes "k1") s e)))
      (λ s e.
        ap (λ k. some (record { sub = k; dom = bytes "cam"; iat = pos 5 }))
          (sym (some_injective (bytes "d1") s e)))
      (λ e. ground (arith, e)) (λ e. ground (arith, e)) refl refl refl refl

verify-IsAccepted_example :
    IsAccepted lib later_ring 200 (record claims { kid = bytes "k1" }) (split dot token)
verify-IsAccepted_example =
    verify-IsAccepted lib later_ring 200 token (record claims { kid = bytes "k1" })
      verify-sign_example

abbrev ring_json : Json RingFile
ring_json = record {
  marshal = λ f. some (bytes "ring");
  unmarshal = λ s. some (file_of (mirror same ring));
}

save_ring_file-IsReplaced_example :
    IsReplaced disk
      (λ path. none)
      (bytes "ring.json")
      (some (bytes "ring"))
      (save_ring_file disk same ring_json (λ path. none) (bytes "ring.json") ring)
save_ring_file-IsReplaced_example =
    save_ring_file-IsReplaced disk disk-IsFaithful same ring_json (λ path. none) (bytes "ring.json")
      ring

load_ring_file-save_example :
    load_ring_file disk same ring_json
      (save_ring_file disk same ring_json (λ path. none) (bytes "ring.json") ring).1
      (bytes "ring.json")
    ≡ some (mirror same ring)
unfolding find_key text_beq save_ring_file
load_ring_file-save_example =
    load_ring_file-save disk disk-IsFaithful same ring_json (λ s. refl) refl (λ path. none)
      (bytes "ring.json") ring ((refl, inl refl), tt) (λ e. ground (arith, e)) refl (λ s e. refl)
      refl
