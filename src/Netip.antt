-- ===== src/Netip.antt =====
-- The values of Go's package net/netip that the hub handles: addresses and CIDR prefixes.
use rdoc_cam_hub.Common.{
  ℕ, ◌/◌, ◌-◌, ◌^◌, ◌≡◌, ◌↔◌, Bool, true, false, ◌&&◌, Comparable, ◌==◌, nat_eq, text_eq, Text, [],
  leb, arith, text_beq_iff,
}

-- `invalid` is the zero value. An IPv6 address has a zone, mostly empty.
pub data Addr : Type 0 where
  invalid : Addr
  v4 : ℕ → Addr
  v6 : ℕ → Text → Addr

unfoldable pub is_valid : Addr → Bool
is_valid invalid = false
is_valid _ = true

unfoldable pub is_4 : Addr → Bool
is_4 (v4 n) = true
is_4 _ = false

unfoldable pub is_6 : Addr → Bool
is_6 (v6 n z) = true
is_6 _ = false

-- An IPv4 address written as IPv6, ::ffff:a.b.c.d.
unfoldable pub is_4_in_6 : Addr → Bool
is_4_in_6 (v6 n z) = n / 2 ^ 32 == 0xffff
is_4_in_6 _ = false

abbrev pub addr_beq : Addr → Addr → Bool
addr_beq invalid invalid = true
addr_beq (v4 a) (v4 b) = a == b
addr_beq (v6 a z) (v6 b y) = a == b && z == y
addr_beq _ _ = false

pub addr_beq_iff : (a b : Addr) → (addr_beq a b ≡ true) ↔ (a ≡ b)
addr_beq_iff invalid b = ground arith
addr_beq_iff (v4 a) b = ground arith
addr_beq_iff (v6 a z) invalid = ground arith
addr_beq_iff (v6 a z) (v4 b) = ground arith
addr_beq_iff (v6 a z) (v6 b y) = ground (arith, text_beq_iff z y)

instance abbrev pub addr_eq : Comparable Addr
addr_eq = record { same = addr_beq; same_iff = addr_beq_iff }

pub record Prefix : Type 0 where
  pub addr : Addr
  pub bits : ℕ

-- Prefix.Contains: no zone, the same family, and the same leading bits.
unfoldable pub same_network : Addr → ℕ → Addr → Bool
same_network (v4 n) k (v4 m) = leb k 32 && n / 2 ^ (32 - k) == m / 2 ^ (32 - k)
same_network (v6 n z) k (v6 m y) = leb k 128 && y == [] && n / 2 ^ (128 - k) == m / 2 ^ (128 - k)
same_network _ k _ = false

unfoldable pub contains : Prefix → Addr → Bool
unfolding same_network
contains p a = same_network p.addr p.bits a
