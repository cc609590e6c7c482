-- ===== src/Web/Addresses.antt =====
-- src-tauri/src/config/routing_profile.rs: `is_public_ip`, with the predicates of `std::net` that it
-- calls.
use kwik_proxy_secure.Net.{IpAddr, v4, v6, Ipv4Addr, Ipv6Addr}
use kwik_proxy_secure.Prelude.{
  ℕ, ◌/◌, ◌%◌, ◌^◌, Bool, not, ◌&&◌, ◌||◌, ◌==◌, leb, Option, none, some, if◌then◌else◌,
}

-- `Ipv4Addr::is_private` and its like.
abbrev pub is_private : Ipv4Addr → Bool
is_private i = i.a == 10 || (i.a == 172 && (leb 16 i.b && leb i.b 31)) || (i.a == 192 && i.b == 168)

abbrev pub is_link_local : Ipv4Addr → Bool
is_link_local i = i.a == 169 && i.b == 254

abbrev pub is_unspecified : Ipv4Addr → Bool
is_unspecified i = i.a == 0 && i.b == 0 && i.c == 0 && i.d == 0

abbrev pub is_multicast : Ipv4Addr → Bool
is_multicast i = leb 224 i.a && leb i.a 239

abbrev pub is_broadcast : Ipv4Addr → Bool
is_broadcast i = i.a == 255 && i.b == 255 && i.c == 255 && i.d == 255

-- The ranges that the source tests by octet.
abbrev pub is_special : Ipv4Addr → Bool
is_special i =
    i.a == 0
    || (i.a == 100 && (leb 64 i.b && leb i.b 127))
    || (i.a == 192 && i.b == 0 && i.c == 0)
    || (i.a == 198 && (i.b == 18 || i.b == 19))
    || leb 240 i.a

unfoldable pub is_public_v4 : Ipv4Addr → Bool
is_public_v4 i =
    not (is_special i)
    && not (is_private i)
    && not (i.a == 127)
    && not (is_link_local i)
    && not (is_unspecified i)
    && not (is_multicast i)
    && not (is_broadcast i)

abbrev pub octets_of : ℕ → Ipv4Addr
octets_of n = record {
  a = n / 2 ^ 24 % 256;
  b = n / 2 ^ 16 % 256;
  c = n / 2 ^ 8 % 256;
  d = n % 256;
}

-- `to_ipv4`: the addresses `::a.b.c.d` and `::ffff:a.b.c.d`.
unfoldable pub to_ipv4 : Ipv6Addr → Option Ipv4Addr
to_ipv4 i =
    if i.bits / 2 ^ 32 == 0 || i.bits / 2 ^ 32 == 0xffff then some (octets_of i.bits) else none

abbrev pub is_public_plain_v6 : Ipv6Addr → Bool
is_public_plain_v6 i =
    not (i.bits == 1)
    && not (i.bits / 2 ^ 121 == 0x7e)
    && not (i.bits / 2 ^ 118 == 0x3fa)
    && not (i.bits == 0)
    && not (i.bits / 2 ^ 120 == 0xff)

unfoldable pub is_public_ip : IpAddr → Bool
unfolding is_public_v4 to_ipv4
is_public_ip (v4 i) = is_public_v4 i
is_public_ip (v6 i) = elim (to_ipv4 i) [ some a ↦ is_public_v4 a | none ↦ is_public_plain_v6 i ]
