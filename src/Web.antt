-- ===== src/Web.antt =====
-- src-tauri/src/config/routing_profile.rs: which addresses, URLs and DNS endpoints are accepted as
-- public remote ones. The URL parser of reqwest is a parameter.
pub mod Addresses
pub mod Blocks
pub mod Hosts
pub mod Endpoints
use kwik_proxy_secure.Net.{Std, ip_addr}
use kwik_proxy_secure.Prelude.{
  ℕ, ◌+◌, ◌*◌, ◌-◌, Text, codes, text_eq, starts_with, len, any, all, is_control,
  is_ascii_alphanumeric, is_ascii_digit, to_ascii_lowercase, trim, trim_end_matches, ends_with,
  strip_prefix, split_once, count, contains, Bool, true, false, not, ◌&&◌, ◌||◌, List, [], ◌∷◌,
  Option, none, some, if◌then◌else◌, ltb, leb, ◌==◌, is_some,
}
use Addresses.{is_public_ip}

-- What the code reads of a parsed URL.
pub record Url : Type 0 where
  pub scheme : Text
  pub username : Text
  pub password : Option Text
  pub host : Option Text
  pub port : Option ℕ

pub record Urls : Type 0 where
  pub parse : Text → Option Url

abbrev pub dot : ℕ → Bool
dot c = c == b'.'

abbrev pub is_local_name : Text → Bool
is_local_name host =
    text_eq host (codes "localhost")
    || ends_with host (codes ".localhost")
    || ends_with host (codes ".local")
    || ends_with host (codes ".internal")

-- The digits of an unsigned number, from the left.
abbrev digits : ℕ → Text → Option ℕ
digits acc [] = some acc
digits acc (c ∷ cs) = if is_ascii_digit c then digits (acc * 10 + (c - b'0')) cs else none

abbrev digits_of : Text → Option ℕ
digits_of [] = none
digits_of (c ∷ cs) = digits 0 (c ∷ cs)

abbrev unsigned : Text → Text
unsigned [] = []
unsigned (c ∷ cs) = if c == b'+' then cs else c ∷ cs

abbrev fits : ℕ → Option ℕ → Option ℕ
fits limit none = none
fits limit (some n) = if leb n limit then some n else none

-- `parse::<u16>()` and `parse::<u8>()`: one `+` may stand first, and the value must fit.
unfoldable pub parse_unsigned : ℕ → Text → Option ℕ
parse_unsigned limit t = fits limit (digits_of (unsigned t))

abbrev pub parse_u16 : Text → Option ℕ
parse_u16 = parse_unsigned 65535

abbrev pub parse_u8 : Text → Option ℕ
parse_u8 = parse_unsigned 255

module _ (std : Std) where
  -- The last test of a host name: an address must be public, and a name is taken as it is.
  unfoldable pub is_public_or : Text → Bool → Bool
  unfolding is_public_ip
  is_public_or host fallback = elim (ip_addr std host) [
    | none ↦ fallback
    | some ip ↦ is_public_ip ip
  ]

  unfoldable pub is_remote_host : Text → Bool
  unfolding trim_end_matches to_ascii_lowercase text_eq ends_with is_public_or
  is_remote_host raw =
      let host = to_ascii_lowercase (trim_end_matches dot raw) in
      if is_local_name host then false else is_public_or host true

  unfoldable pub is_remote_url : Url → Bool
  unfolding text_eq is_remote_host
  is_remote_url url =
      if not (text_eq url.scheme (codes "https"))
        || not (text_eq url.username [])
        || is_some url.password
      then false
      else elim url.host [ none ↦ false | some host ↦ is_remote_host host ]

  unfoldable pub is_https_remote_url : Urls → Text → Bool
  unfolding is_remote_url
  is_https_remote_url urls s = elim (urls.parse s) [ none ↦ false | some url ↦ is_remote_url url ]

  abbrev pub port_is_u16 : Option Text → Bool
  port_is_u16 none = true
  port_is_u16 (some port) = is_some (parse_u16 port)

  -- What may stand after `]`: nothing, or a port.
  abbrev pub suffix_is_port : Text → Bool
  suffix_is_port [] = true
  suffix_is_port (c ∷ cs) = c == b':' && is_some (parse_u16 cs)

  -- The host of `host:port` or `[host]:port`, where these are well formed.
  unfoldable pub authority_host : Text → Option Text
  unfolding strip_prefix split_once parse_unsigned
  authority_host authority = elim (strip_prefix authority (codes "[")) [
    | some bracketed ↦ elim (split_once b']' bracketed) [
      | none ↦ none
      | some (host, suffix) ↦ if suffix_is_port suffix then some host else none
    ]
    | none ↦ if ltb 1 (count b':' authority) then none else elim (split_once b':' authority) [
      | none ↦ some authority
      | some (host, port) ↦ if port_is_u16 (some port) then some host else none
    ]
  ]

  abbrev pub is_name_char : ℕ → Bool
  is_name_char c = is_ascii_alphanumeric c || c == b'.' || c == b'-'

  unfoldable pub is_endpoint_host : Text → Bool
  unfolding trim_end_matches to_ascii_lowercase text_eq ends_with is_public_or
  is_endpoint_host raw =
      let normalized = to_ascii_lowercase (trim_end_matches dot raw) in
      if is_local_name normalized
      then false
      else is_public_or normalized (not (text_eq normalized []) && all is_name_char normalized)

  unfoldable pub is_endpoint_authority : Text → Bool
  unfolding text_eq authority_host is_endpoint_host
  is_endpoint_authority authority =
      if text_eq authority []
        || any (λ c. c == b'/' || c == b'?' || c == b'#' || c == b'@') authority
      then false
      else elim (authority_host authority) [ none ↦ false | some host ↦ is_endpoint_host host ]

  -- The loop over the two schemes.
  unfoldable pub is_scheme_endpoint : Text → Bool
  unfolding strip_prefix is_endpoint_authority
  is_scheme_endpoint value = elim (strip_prefix value (codes "tls://")) [
    | some authority ↦ is_endpoint_authority authority
    | none ↦ elim (strip_prefix value (codes "quic://")) [
      | some authority ↦ is_endpoint_authority authority
      | none ↦ false
    ]
  ]

  unfoldable pub is_valid_dns_endpoint : Urls → Text → Bool
  unfolding trim len is_public_ip starts_with is_https_remote_url is_scheme_endpoint
  is_valid_dns_endpoint urls raw =
      let value = trim raw in
      if ltb 2048 (len value) || any is_control value then false else elim (ip_addr std value) [
        | some ip ↦ is_public_ip ip
        | none ↦
            if starts_with value (codes "https://")
            then is_https_remote_url urls value
            else is_scheme_endpoint value
      ]
