-- ===== src/Middleware/TrustedIp.antt =====
-- internal/httpapi/trusted_ip.go: whose address a request counts as.
-- `netip_parse` is netip.ParseAddr, with `invalid` where it fails; `u` is Go's package unicode.
pub mod Rightmost
use rdoc_cam_hub.Common.{
  ℕ, Text, bytes, Bool, true, false, not, ◌&&◌, Option, none, some, List, [], ◌∷◌, ◌++◌, ◌==◌,
  text_eq, nat_eq, any, if◌then◌else◌, split, trim_space, Unicode,
}
use rdoc_cam_hub.Netip.{Addr, invalid, is_valid, Prefix, contains}
use rdoc_cam_hub.Http.{Request, Handler, header_get, header_values}

unfoldable pub is_trusted : List Prefix → Addr → Bool
unfolding any is_valid contains
is_trusted trusted addr = is_valid addr && any (λ p. contains p addr) trusted

-- The text before the last ':', if there is one behind the first byte.
unfoldable pub before_last_colon : Text → Option Text
before_last_colon [] = none
before_last_colon (c ∷ rest) =
    let later = before_last_colon rest in
    elim later [
      | some host ↦ some (c ∷ host)
      | none ↦ elim rest [ [] ↦ none | d ∷ _ ↦ if d == 0x3A then some (c ∷ []) else none ]
    ]

-- strings.TrimPrefix(strings.TrimSuffix(host, "]"), "[")
unfoldable pub trim_suffix_byte : ℕ → Text → Text
trim_suffix_byte b [] = []
trim_suffix_byte b (c ∷ rest) =
    let shorter = trim_suffix_byte b rest in
    elim rest [ [] ↦ if c == b then [] else c ∷ [] | d ∷ _ ↦ c ∷ shorter ]

unfoldable pub trim_prefix_byte : ℕ → Text → Text
trim_prefix_byte b [] = []
trim_prefix_byte b (c ∷ rest) = if c == b then rest else c ∷ rest

-- The entries of a header value that are not blank.
unfoldable pub hops_of_value : Unicode → List Text → List Text
unfolding trim_space
hops_of_value u [] = []
hops_of_value u (part ∷ parts) =
    let hops = hops_of_value u parts in
    let p = trim_space u part in if p == [] then hops else p ∷ hops

unfoldable pub hops_of : Unicode → List Text → List Text
unfolding hops_of_value split
hops_of u [] = []
hops_of u (h ∷ headers) = hops_of_value u (split 0x2C h) ++ hops_of u headers

module _ (u : Unicode) (netip_parse : Text → Addr) where
  -- parseAddr
  unfoldable pub parse_addr : Text → Addr
  unfolding trim_space
  parse_addr s = netip_parse (trim_space u s)

  -- peerAddr
  unfoldable pub peer_addr : Text → Addr
  unfolding before_last_colon trim_suffix_byte trim_prefix_byte parse_addr
  peer_addr [] = invalid
  peer_addr remote = elim (before_last_colon remote) [
    | some host ↦ parse_addr (trim_prefix_byte 0x5B (trim_suffix_byte 0x5D host))
    | none ↦ parse_addr remote
  ]

-- How far the loop of walkXFF has come.
pub data Walk : Type 0 where
  stopped : Walk
  found : Addr → Walk
  onward : Walk

unfoldable pub found_addr : Walk → Option Addr
found_addr (found a) = some a
found_addr stopped = none
found_addr onward = none

module _ (u : Unicode) (netip_parse : Text → Addr) (trusted : List Prefix) where
  -- One turn of the loop.
  unfoldable pub walk_hop : Addr → Walk
  unfolding is_trusted is_valid
  walk_hop addr =
      if not (is_valid addr)
      then stopped
      else if not (is_trusted trusted addr)
      then found addr
      else onward

  -- The loop from the right: an entry is looked at if all to its right were passed.
  unfoldable pub walk : List Text → Walk
  unfolding walk_hop parse_addr
  walk [] = onward
  walk (h ∷ hops) = elim (walk hops) [
    | stopped ↦ stopped
    | found a ↦ found a
    | onward ↦ walk_hop (parse_addr u netip_parse h)
  ]

  -- walkXFF
  unfoldable pub walk_xff : List Text → Option Addr
  unfolding hops_of walk found_addr
  walk_xff headers = found_addr (walk (hops_of u headers))

  unfoldable pub resolve_forwarded : Request → Addr → Option Addr → Addr
  unfolding is_valid header_get parse_addr
  resolve_forwarded r peer (some hop) = hop
  resolve_forwarded r peer none =
      let real = parse_addr u netip_parse (header_get r (bytes "X-Real-IP")) in
      if is_valid real then real else peer

  unfoldable pub resolved : Request → Addr
  unfolding peer_addr is_trusted header_values walk_xff resolve_forwarded
  resolved r =
      let peer = peer_addr u netip_parse r.remote_addr in
      if is_trusted trusted peer
      then resolve_forwarded r peer (walk_xff (header_values r.headers (bytes "X-Forwarded-For")))
      else peer

  -- TrustedProxyIP
  unfoldable pub trusted_proxy_ip : {S : Type 0} → Handler S → Handler S
  unfolding resolved
  trusted_proxy_ip next r w = next (record r { client_ip = resolved r }) w
