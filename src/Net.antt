-- ===== src/Net.antt =====
-- `std::net` addresses, and the parts of Rust's standard library that are taken as a parameter.
use kwik_proxy_secure.Prelude.{ℕ, Text, List, Option, none, some}

-- `Ipv4Addr`: four octets, the first written first.
pub record Ipv4Addr : Type 0 where
  pub a : ℕ
  pub b : ℕ
  pub c : ℕ
  pub d : ℕ

-- `Ipv6Addr`: the number that its sixteen octets spell, big end first.
pub record Ipv6Addr : Type 0 where
  pub bits : ℕ

pub data IpAddr : Type 0 where
  v4 : Ipv4Addr → IpAddr
  v6 : Ipv6Addr → IpAddr

-- The parsers and the path and case functions of `std` that the source calls.
pub record Std : Type 0 where
  pub ipv4 : Text → Option Ipv4Addr
  pub ipv6 : Text → Option Ipv6Addr
  pub file_name : Text → Option Text
  pub to_lowercase : Text → Text
  pub from_wide_lossy : List ℕ → Text

-- `parse::<IpAddr>()` accepts what either of the two parsers accepts.
abbrev pub ip_addr : Std → Text → Option IpAddr
ip_addr std t = elim (std.ipv4 t) [
  | some a ↦ some (v4 a)
  | none ↦ elim (std.ipv6 t) [ some a ↦ some (v6 a) | none ↦ none ]
]
