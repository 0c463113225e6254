-- ===== src/Middleware/TrustedIp/Rightmost.antt =====
-- internal/httpapi/trusted_ip.go: what the walk over X-Forwarded-For finds.
use rdoc_cam_hub.Common.{
  Text, bytes, true, false, some, List, [], ◌∷◌, ◌++◌, text_eq, nat_eq, All, ◌≡◌, ◌↔◌, ◌⊎◌, inl,
  inr, refl, sym, ap, ◌∙◌, arith, split, Unicode, append_assoc,
}
use rdoc_cam_hub.Netip.{Addr, is_valid, Prefix}
use rdoc_cam_hub.Http.{Request, Handler, header_values}
use rdoc_cam_hub.Middleware.TrustedIp.{
  is_trusted, hops_of_value, hops_of, parse_addr, peer_addr, Walk, stopped, found, onward,
  found_addr, walk_hop, walk, walk_xff, resolve_forwarded, resolved, trusted_proxy_ip,
}

module _ (u : Unicode) (netip_parse : Text → Addr) (trusted : List Prefix) where
  -- Every entry is an address of a trusted proxy.
  abbrev pub AllTrusted : List Text → Type 0
  AllTrusted = All (λ h. is_trusted trusted (parse_addr u netip_parse h) ≡ true)

  -- An entry that is the last one which is not a trusted proxy's.
  pub record IsRightmost (hops : List Text) (a : Addr) : Type 0 where
    pub front : List Text
    pub hop : Text
    pub back : List Text
    pub parts : hops ≡ front ++ hop ∷ back
    pub address : parse_addr u netip_parse hop ≡ a
    pub valid : is_valid a ≡ true
    pub outside : is_trusted trusted a ≡ false
    pub behind : AllTrusted back

  valid_of_trusted : (a : Addr) → is_trusted trusted a ≡ true → is_valid a ≡ true
  unfolding is_trusted
  valid_of_trusted a h = ground arith

  walk-AllTrusted :
      (hops : List Text) → AllTrusted hops → (walk u netip_parse trusted) hops ≡ onward
  unfolding walk walk_hop
  walk-AllTrusted [] t = refl
  walk-AllTrusted (h ∷ hops) (t, ts) =
      ground (arith, walk-AllTrusted hops ts, valid_of_trusted (parse_addr u netip_parse h) t)

  AllTrusted-of_onward :
      (hops : List Text) → (walk u netip_parse trusted) hops ≡ onward → AllTrusted hops
  unfolding walk walk_hop
  AllTrusted-of_onward [] e = tt
  AllTrusted-of_onward (h ∷ hops) e = (ground arith, AllTrusted-of_onward hops (ground arith))

  walk-front :
      (front hops : List Text) (a : Addr)
      → (walk u netip_parse trusted) hops ≡ found a
      → (walk u netip_parse trusted) (front ++ hops) ≡ found a
  unfolding walk
  walk-front [] hops a e = e
  walk-front (h ∷ front) hops a e = ground (arith, walk-front front hops a e)

  classify : (x : Walk) → ((b : Addr) × (x ≡ found b)) ⊎ ((x ≡ onward) ⊎ (x ≡ stopped))
  classify (found b) = inl (b, refl)
  classify onward = inr (inl refl)
  classify stopped = inr (inr refl)

  IsRightmost-of_found :
      (hops : List Text) (a : Addr)
      → (walk u netip_parse trusted) hops ≡ found a
      → IsRightmost hops a
  unfolding walk walk_hop
  IsRightmost-of_found [] a e = absurd (ground arith)
  IsRightmost-of_found (h ∷ hops) a e = elim (classify ((walk u netip_parse trusted) hops)) [
    | inl (b, later) ↦
        let r = IsRightmost-of_found hops b later in
        let same : b ≡ a = ground arith in
        record {
          front = h ∷ r.front;
          hop = r.hop;
          back = r.back;
          parts = ap (λ x. h ∷ x) r.parts;
          address = r.address ∙ same;
          valid = ground (arith, r.valid);
          outside = ground (arith, r.outside);
          behind = r.behind;
        }
    | inr (inl here) ↦
        let same : parse_addr u netip_parse h ≡ a = ground arith in
        record {
          front = [];
          hop = h;
          back = hops;
          parts = refl;
          address = same;
          valid = ground arith;
          outside = ground arith;
          behind = AllTrusted-of_onward hops here;
        }
    | inr (inr halted) ↦ absurd (ground arith)
  ]

  found_of_IsRightmost :
      (hops : List Text) (a : Addr)
      → IsRightmost hops a
      → (walk u netip_parse trusted) hops ≡ found a
  unfolding walk walk_hop
  found_of_IsRightmost hops a r =
      ap (walk u netip_parse trusted) r.parts
      ∙ walk-front r.front (r.hop ∷ r.back) a
          (ground (arith, walk-AllTrusted r.back r.behind, r.address, r.valid, r.outside))

  -- walkXFF finds an address exactly if it is valid, that of an entry outside the trusted proxies,
  -- and all entries to the right of it, over all header values, are trusted proxies.
  pub walk_xff-IsRightmost :
      (headers : List Text) (a : Addr)
      → ((walk_xff u netip_parse trusted) headers ≡ some a) ↔ IsRightmost (hops_of u headers) a
  unfolding walk_xff found_addr
  walk_xff-IsRightmost headers a = (
    (λ e.
        IsRightmost-of_found (hops_of u headers) a
          (elim (classify ((walk u netip_parse trusted) (hops_of u headers))) [
            | inl (b, f) ↦ ground arith
            | inr (inl o) ↦ absurd (ground arith)
            | inr (inr o) ↦ absurd (ground arith)
          ])),
    (λ r. rw (found_of_IsRightmost (hops_of u headers) a r) refl),
  )

  hops_of-append : (hs ks : List Text) → hops_of u (hs ++ ks) ≡ hops_of u hs ++ hops_of u ks
  unfolding hops_of
  hops_of-append [] ks = refl
  hops_of-append (h ∷ hs) ks =
      rw (hops_of-append hs ks)
        (sym (append_assoc (hops_of_value u (split 0x2C h)) (hops_of u hs) (hops_of u ks)))

  header_values-append :
      (xs ys : List (Text × Text)) (name : Text)
      → header_values (xs ++ ys) name ≡ header_values xs name ++ header_values ys name
  unfolding header_values
  header_values-append [] ys name = refl
  header_values-append ((n, v) ∷ xs) ys name = ground (arith, header_values-append xs ys name)

  walk_xff-front :
      (hs ks : List Text) (a : Addr)
      → (walk_xff u netip_parse trusted) ks ≡ some a
      → (walk_xff u netip_parse trusted) (hs ++ ks) ≡ some a
  walk_xff-front hs ks a e =
      (walk_xff-IsRightmost (hs ++ ks) a).1 (extended ((walk_xff-IsRightmost ks a).0 e))
    where
      extended : IsRightmost (hops_of u ks) a → IsRightmost (hops_of u (hs ++ ks)) a
      extended x = record {
        front = hops_of u hs ++ x.front;
        hop = x.hop;
        back = x.back;
        parts =
            hops_of-append hs ks
            ∙ (ap (λ y. hops_of u hs ++ y) x.parts
                ∙ sym (append_assoc (hops_of u hs) x.front (x.hop ∷ x.back)));
        address = x.address;
        valid = x.valid;
        outside = x.outside;
        behind = x.behind;
      }

  module _ {S : Type 0} (next : Handler S) (r : Request) (w : S) where
    -- For a peer that is no trusted proxy the next handler sees the peer's own address, whatever
    -- the headers say.
    pub trusted_proxy_ip_direct :
        is_trusted trusted (peer_addr u netip_parse r.remote_addr) ≡ false
        → (trusted_proxy_ip u netip_parse trusted) next r w
          ≡ next (record r { client_ip = peer_addr u netip_parse r.remote_addr }) w
    unfolding trusted_proxy_ip resolved
    trusted_proxy_ip_direct h = ground arith

    -- Where the peer is a trusted proxy and the X-Forwarded-For headers name an address, further
    -- headers in front of them do not change the address that is resolved.
    pub resolved-forged :
        (forged : List (Text × Text)) (a : Addr)
        → (walk_xff u netip_parse trusted) (header_values r.headers (bytes "X-Forwarded-For"))
          ≡ some a
        → is_trusted trusted (peer_addr u netip_parse r.remote_addr) ≡ true
        → (resolved u netip_parse trusted) (record r { headers = forged ++ r.headers }) ≡ a
    unfolding resolved resolve_forwarded
    resolved-forged forged a e t =
        rw
          (
            t,
            header_values-append forged r.headers (bytes "X-Forwarded-For"),
            walk_xff-front (header_values forged (bytes "X-Forwarded-For"))
                (header_values r.headers (bytes "X-Forwarded-For")) a e,
          )
          refl
