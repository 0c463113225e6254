-- ===== src/Cloudflare/Url.antt =====
-- The URLs of the records: path.
use rdoc_cam_hub.Common.{
  ℕ, Text, bytes, Bool, true, false, List, [], ◌∷◌, ◌++◌, ◌≡◌, ◌≢◌, refl, ap, arith, any, nat_beq,
  split, split-append, split-none, prepend, has_prefix, ◌∙◌, append-nil,
}
use rdoc_cam_hub.Cloudflare.{Network, Client, segment, segments, path, record_url}

abbrev slash : ℕ
slash = b'/'

split_nonempty : (c : ℕ) (s : Text) → split c s ≢ []
unfolding split prepend
split_nonempty c [] = ground arith
split_nonempty c (a ∷ s) = ground (arith, split_nonempty c s)

prepend-append :
    (t : Bool) (a : ℕ) (parts more : List Text)
    → parts ≢ []
    → prepend t a (parts ++ more) ≡ prepend t a parts ++ more
unfolding prepend
prepend-append true a parts more h = refl
prepend-append false a [] more h = absurd (h refl)
prepend-append false a (p ∷ parts) more h = refl

-- A split goes through a text part by part.
split-joined : (c : ℕ) (s rest : Text) → split c (s ++ c ∷ rest) ≡ split c s ++ split c rest
unfolding split prepend
split-joined c [] rest = ground arith
split-joined c (a ∷ s) rest =
    ap (prepend (nat_beq a c) a) (split-joined c s rest)
    ∙ prepend-append (nat_beq a c) a (split c s) (split c rest) (split_nonempty c s)

plain_zones : any (λ x. nat_beq x slash) (bytes "zones") ≡ false
unfolding any
plain_zones = refl

plain_records : any (λ x. nat_beq x slash) (bytes "dns_records") ≡ false
unfolding any
plain_records = refl

four_parts :
    (zone id : Text)
    → any (λ x. nat_beq x slash) zone ≡ false
    → any (λ x. nat_beq x slash) id ≡ false
    → split slash (bytes "zones" ++ slash ∷ (zone ++ slash ∷ (bytes "dns_records" ++ slash ∷ id)))
      ≡ bytes "zones" ∷ zone ∷ bytes "dns_records" ∷ id ∷ []
four_parts zone id hz hi =
    rw
      (
        split-append slash (bytes "zones") (zone ++ slash ∷ (bytes "dns_records" ++ slash ∷ id))
            (plain_zones),
        split-append slash zone (bytes "dns_records" ++ slash ∷ id) hz,
        split-append slash (bytes "dns_records") id plain_records,
        split-none slash id hi,
      )
      refl

module _ (net : Network) (c : Client)
    (slashless : (s : Text) → any (λ x. nat_beq x slash) (net.path_escape s) ≡ false) where
  record_url_text :
      (record_id : Text)
      → has_prefix c.zone_id (bytes "/") ≡ false
      → has_prefix record_id (bytes "/") ≡ false
      → record_url net c record_id
        ≡ c.base_url
          ++ slash
            ∷ (bytes "zones"
                ++ slash
                  ∷ (net.path_escape c.zone_id
                      ++ slash ∷ (bytes "dns_records" ++ slash ∷ net.path_escape record_id)))
  unfolding path segments segment has_prefix
  record_url_text record_id zone id = rw (zone, id, append-nil (net.path_escape record_id)) refl

  -- The URL of a record is the base followed by four segments, of which the second and the last are
  -- the escaped ids of zone and record, whatever characters these have, unless one of them begins
  -- with a slash.
  pub split-record_url :
      (record_id : Text)
      → has_prefix c.zone_id (bytes "/") ≡ false
      → has_prefix record_id (bytes "/") ≡ false
      → split slash (record_url net c record_id)
        ≡ split slash c.base_url
          ++ bytes "zones"
            ∷ net.path_escape c.zone_id
            ∷ bytes "dns_records"
            ∷ net.path_escape record_id
            ∷ []
  split-record_url record_id zone id =
      let e = net.path_escape c.zone_id in
      let last = net.path_escape record_id in
      ap (split slash) (record_url_text record_id zone id)
      ∙ split-joined slash c.base_url
          (bytes "zones" ++ slash ∷ (e ++ slash ∷ (bytes "dns_records" ++ slash ∷ last)))
      ∙ ap (λ parts. split slash c.base_url ++ parts)
          (four_parts e last (slashless c.zone_id) (slashless record_id))
