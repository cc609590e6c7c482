-- ===== src/Web/Blocks.antt =====
-- src-tauri/src/config/routing_profile.rs: `is_public_ip` against the IPv4 blocks that it refuses,
-- written as blocks.
use kwik_proxy_secure.Firewall.{ipv4_to_u32}
use kwik_proxy_secure.Net.{v4, v6, Ipv4Addr, Ipv6Addr}
use kwik_proxy_secure.Prelude.{
  ℕ, ◌+◌, ◌*◌, ◌-◌, ◌/◌, ◌^◌, ◌<◌, Bool, not, ◌&&◌, ◌||◌, ◌==◌, leb, List, [], ◌∷◌, any, ◌≡◌, arith,
  some,
}
use kwik_proxy_secure.Web.Addresses.{is_public_ip, is_public_v4, to_ipv4}

-- A block of addresses: all that agree with the base on the first bits.
pub record Block : Type 0 where
  pub base : ℕ
  pub bits : ℕ

abbrev pub is_in : ℕ → Block → Bool
is_in n b = n / 2 ^ (32 - b.bits) == b.base / 2 ^ (32 - b.bits)

abbrev pub cidr : ℕ → ℕ → ℕ → ℕ → ℕ → Block
cidr a b c d bits = record { base = a * 2 ^ 24 + b * 2 ^ 16 + c * 2 ^ 8 + d; bits = bits }

-- The blocks that `is_public_ip` refuses, one for each of its tests: this network, private use, shared
-- address space, loopback, link-local, protocol assignments, benchmarking, multicast and future use. The
-- documentation blocks are not among them.
abbrev pub refused_blocks : List Block
refused_blocks =
    cidr 0 0 0 0 8
    ∷ cidr 10 0 0 0 8
    ∷ cidr 100 64 0 0 10
    ∷ cidr 127 0 0 0 8
    ∷ cidr 169 254 0 0 16
    ∷ cidr 172 16 0 0 12
    ∷ cidr 192 0 0 0 24
    ∷ cidr 192 168 0 0 16
    ∷ cidr 198 18 0 0 15
    ∷ cidr 224 0 0 0 4
    ∷ cidr 240 0 0 0 4
    ∷ []

-- Octets are below 256.
pub record IsOctets (i : Ipv4Addr) : Type 0 where
  pub a_lt : i.a < 256
  pub b_lt : i.b < 256
  pub c_lt : i.c < 256
  pub d_lt : i.d < 256

module _ (i : Ipv4Addr) (o : IsOctets i) where
  in_8 : (a : ℕ) → is_in (ipv4_to_u32 i) (cidr a 0 0 0 8) ≡ (i.a == a)
  unfolding ipv4_to_u32
  in_8 a = ground arith

  in_16 : (a b : ℕ) → b < 256 → is_in (ipv4_to_u32 i) (cidr a b 0 0 16) ≡ (i.a == a && i.b == b)
  unfolding ipv4_to_u32
  in_16 a b small = ground arith

  in_shared :
      is_in (ipv4_to_u32 i) (cidr 100 64 0 0 10) ≡ (i.a == 100 && (leb 64 i.b && leb i.b 127))
  unfolding ipv4_to_u32
  in_shared = ground arith

  in_private :
      is_in (ipv4_to_u32 i) (cidr 172 16 0 0 12) ≡ (i.a == 172 && (leb 16 i.b && leb i.b 31))
  unfolding ipv4_to_u32
  in_private = ground arith

  in_protocols : is_in (ipv4_to_u32 i) (cidr 192 0 0 0 24) ≡ (i.a == 192 && i.b == 0 && i.c == 0)
  unfolding ipv4_to_u32
  in_protocols = ground arith

  in_benchmark :
      is_in (ipv4_to_u32 i) (cidr 198 18 0 0 15) ≡ (i.a == 198 && (i.b == 18 || i.b == 19))
  unfolding ipv4_to_u32
  in_benchmark = ground arith

  in_multicast : is_in (ipv4_to_u32 i) (cidr 224 0 0 0 4) ≡ (leb 224 i.a && leb i.a 239)
  unfolding ipv4_to_u32
  in_multicast = ground arith

  in_future : is_in (ipv4_to_u32 i) (cidr 240 0 0 0 4) ≡ leb 240 i.a
  unfolding ipv4_to_u32
  in_future = ground arith

  public_v4_lem : is_public_v4 i ≡ not (any (is_in (ipv4_to_u32 i)) refused_blocks)
  unfolding is_public_v4
  public_v4_lem =
      rw
        (
          in_8 0,
          in_8 10,
          in_8 127,
          in_16 169 254 (omega arith),
          in_16 192 168 (omega arith),
          in_shared,
          in_private,
          in_protocols,
          in_benchmark,
          in_multicast,
          in_future,
        )
        (ground arith)

  abbrev mapped : Ipv6Addr
  mapped = record { bits = 0xffff * 2 ^ 32 + ipv4_to_u32 i }

  to_ipv4-mapped : to_ipv4 mapped ≡ some i
  unfolding to_ipv4 ipv4_to_u32
  to_ipv4-mapped = ground arith

  -- For an address of four octets, `is_public_ip` holds just where it lies in none of 0.0.0.0/8,
  -- 10.0.0.0/8, 100.64.0.0/10, 127.0.0.0/8, 169.254.0.0/16, 172.16.0.0/12, 192.0.0.0/24,
  -- 192.168.0.0/16, 198.18.0.0/15, 224.0.0.0/4 and 240.0.0.0/4, and so too for the IPv6 address into
  -- which it is mapped. The documentation blocks and 192.88.99.0/24 are thus public to it.
  pub is_public_ip-refused :
      (is_public_ip (v4 i) ≡ not (any (is_in (ipv4_to_u32 i)) refused_blocks))
      × (is_public_ip (v6 (record { bits = 0xffff * 2 ^ 32 + ipv4_to_u32 i }))
          ≡ not (any (is_in (ipv4_to_u32 i)) refused_blocks))
  unfolding is_public_ip
  is_public_ip-refused = (public_v4_lem, rw (to_ipv4-mapped, is_public_ip) public_v4_lem)
