-- ===== src/Profile.antt =====
-- src-tauri/src/config/routing_profile.rs: routing profiles, their entries in the store, and the checks
-- of both. The JSON and base64 parsers and the parser of UUIDs are a parameter. `BTreeMap` is the list of
-- its entries.
pub mod Valid
use kwik_proxy_secure.Net.{Std, ip_addr, IpAddr, v4, v6}
use kwik_proxy_secure.Prelude.{
  ℕ, ◌+◌, ◌*◌, Text, codes, text_eq, starts_with, ends_with, len, length, any, all, is_control,
  is_ascii_alphanumeric, to_ascii_lowercase, trim, split_once, contains, Bool, true, false, not,
  ◌&&◌, ◌||◌, List, [], ◌∷◌, ◌++◌, Option, none, some, Result, ok, err, ◌>>=◌, ◌>>◌, ensure,
  if◌then◌else◌, ltb, leb, ◌==◌, is_some,
}
use kwik_proxy_secure.Web
use kwik_proxy_secure.Web.{Urls, parse_u8}

pub data DomainStrategy : Type 0 where
  as_is ip_if_non_match ip_on_demand : DomainStrategy

pub record RoutingProfile : Type 0 where
  pub name : Text
  pub global_proxy : Bool
  pub last_updated : Text
  pub domain_strategy : DomainStrategy
  pub remote_dns_type : Text
  pub remote_dns_domain : Text
  pub remote_dns_ip : Text
  pub domestic_dns_type : Text
  pub domestic_dns_domain : Text
  pub domestic_dns_ip : Text
  pub dns_hosts : List (Text × Text)
  pub fake_dns : Bool
  pub direct_sites : List Text
  pub direct_ip : List Text
  pub proxy_sites : List Text
  pub proxy_ip : List Text
  pub block_sites : List Text
  pub block_ip : List Text
  pub geoip_url : Text
  pub geosite_url : Text
  pub use_chunk_files : Bool

pub data Error : Type 0 where
  bad_json bad_name bad_geoip_url bad_geosite_url bad_dns_endpoint bad_dns_type : Error
  too_many_hosts bad_host too_many_rules bad_rule bad_ip : Error
  input_too_large json_too_large not_base64 decoded_too_large not_utf8 : Error
  bad_id bad_source bad_interval : Error

pub data ProfileSource : Type 0 where
  static : ProfileSource
  autorouting : Text → ℕ → ProfileSource

pub record RoutingProfileEntry : Type 0 where
  pub id : Text
  pub profile : RoutingProfile
  pub source : ProfileSource
  pub last_fetched_at : ℕ

-- What `BoolString` reads of a JSON value; `number` holds what `as_i64` says.
pub data JsonValue : Type 0 where
  bool : Bool → JsonValue
  string : Text → JsonValue
  number : Option Bool → JsonValue
  other : JsonValue

-- The libraries that the code calls.
pub record Codec : Type 0 where
  pub std : Std
  pub urls : Urls
  pub json : Text → Option RoutingProfile
  pub base64 : Text → Option (List ℕ)
  pub base64_url : Text → Option (List ℕ)
  pub base64_url_no_pad : Text → Option (List ℕ)
  pub utf8 : List ℕ → Option Text
  pub is_uuid : Text → Bool

abbrev pub max_input_bytes : ℕ
max_input_bytes = 1536 * 1024

abbrev pub max_json_bytes : ℕ
max_json_bytes = 1024 * 1024

abbrev pub is_host_char : ℕ → Bool
is_host_char c = is_ascii_alphanumeric c || c == b'.' || c == b'-' || c == b'*' || c == b'+'

unfoldable pub is_valid_host_pattern : Text → Bool
unfolding trim len starts_with ends_with text_eq
is_valid_host_pattern raw =
    let host = trim raw in
    not (text_eq host [])
    && leb (len host) 253
    && not (starts_with host (codes "."))
    && not (ends_with host (codes "."))
    && all is_host_char host

-- What is before the first `/`, and what is between it and the next.
abbrev pub first_part : Text → Text
first_part s = elim (split_once b'/' s) [ none ↦ s | some (before, after) ↦ before ]

abbrev pub second_part : Text → Option Text
second_part s = elim (split_once b'/' s) [
  | none ↦ none
  | some (before, after) ↦ some (first_part after)
]

abbrev pub max_prefix : IpAddr → ℕ
max_prefix (v4 i) = 32
max_prefix (v6 i) = 128

abbrev pub prefix_fits : ℕ → Option Text → Bool
prefix_fits max none = true
prefix_fits max (some p) = elim (parse_u8 p) [ none ↦ false | some n ↦ leb n max ]

unfoldable pub is_ip_or_cidr : Std → Text → Bool
unfolding split_once Web.parse_unsigned
is_ip_or_cidr std s = elim (ip_addr std (first_part s)) [
  | none ↦ false
  | some ip ↦ prefix_fits (max_prefix ip) (second_part s)
]

abbrev pub is_dns_type_char : ℕ → Bool
is_dns_type_char c = is_ascii_alphanumeric c || c == b'-' || c == b'_'

unfoldable pub is_dns_type : Text → Bool
unfolding trim to_ascii_lowercase len
is_dns_type raw =
    let value = to_ascii_lowercase (trim raw) in leb (len value) 16 && all is_dns_type_char value

-- No rule can open a new field or a new line of the generated configuration.
unfoldable pub is_safe_rule : Text → Bool
unfolding text_eq len
is_safe_rule entry =
    not (text_eq entry [])
    && leb (len entry) 4096
    && not (contains b',' entry)
    && not (any is_control entry)

module _ (c : Codec) where
  abbrev pub is_url : Text → Bool
  is_url t = Web.is_https_remote_url c.std c.urls t

  abbrev pub is_empty_or : (Text → Bool) → Text → Bool
  is_empty_or test t = text_eq t [] || test t

  abbrev pub is_endpoint : Text → Bool
  is_endpoint t = Web.is_valid_dns_endpoint c.std c.urls t

  abbrev pub is_host_entry : Text × Text → Bool
  is_host_entry (host, address) = is_valid_host_pattern host && is_some (ip_addr c.std address)

  abbrev pub is_ip_rule : Text → Bool
  is_ip_rule entry = starts_with entry (codes "geoip:") || is_ip_or_cidr c.std entry

  abbrev pub all_rules : RoutingProfile → List Text
  all_rules p =
      p.direct_sites ++ p.proxy_sites ++ p.block_sites ++ p.direct_ip ++ p.proxy_ip ++ p.block_ip

  abbrev pub ip_rules : RoutingProfile → List Text
  ip_rules p = p.direct_ip ++ p.proxy_ip ++ p.block_ip

  abbrev pub dns_endpoints : RoutingProfile → List Text
  dns_endpoints p =
      p.remote_dns_domain ∷ p.remote_dns_ip ∷ p.domestic_dns_domain ∷ p.domestic_dns_ip ∷ []

  abbrev pub dns_types : RoutingProfile → List Text
  dns_types p = p.remote_dns_type ∷ p.domestic_dns_type ∷ []

  unfoldable pub validate : RoutingProfile → Result Error (Unit {0})
  validate p = do
    ensure (leb (len p.name) 256 && not (any is_control p.name)) bad_name
    ensure (is_empty_or is_url p.geoip_url) bad_geoip_url
    ensure (is_empty_or is_url p.geosite_url) bad_geosite_url
    ensure (all (is_empty_or is_endpoint) (dns_endpoints p)) bad_dns_endpoint
    ensure (all is_dns_type (dns_types p)) bad_dns_type
    ensure (leb (length p.dns_hosts) 4096) too_many_hosts
    ensure (all is_host_entry p.dns_hosts) bad_host
    ensure (leb (length (all_rules p)) 100000) too_many_rules
    ensure (all is_safe_rule (all_rules p)) bad_rule
    ensure (all is_ip_rule (ip_rules p)) bad_ip

  -- The context that an error is given is left out.
  abbrev pub or_fail : {A : Type 0} → Error → Option A → Result Error A
  or_fail e none = err e
  or_fail e (some a) = ok a

  unfoldable pub parse_json : Text → Result Error RoutingProfile
  parse_json s = do p ← or_fail bad_json (c.json s); validate p; ok p

  -- The first decoder that accepts.
  unfoldable pub decode : Text → Option (List ℕ)
  decode t = elim (c.base64 t) [
    | some bytes ↦ some bytes
    | none ↦ elim (c.base64_url t) [ some bytes ↦ some bytes | none ↦ c.base64_url_no_pad t ]
  ]

  unfoldable pub parse_encoded : Text → Result Error RoutingProfile
  parse_encoded trimmed = do
    decoded ← or_fail not_base64 (decode trimmed)
    ensure (leb (length decoded) max_json_bytes) decoded_too_large
    s ← or_fail not_utf8 (c.utf8 decoded)
    parse_json s

  unfoldable pub parse_plain : Text → Result Error RoutingProfile
  parse_plain trimmed = do
    ensure (leb (len trimmed) max_json_bytes) json_too_large
    parse_json trimmed

  unfoldable pub parse_profile_input : Text → Result Error RoutingProfile
  parse_profile_input input = do
    ensure (leb (len input) max_input_bytes) input_too_large
    let trimmed = trim input
    if starts_with trimmed (codes "{") then parse_plain trimmed else parse_encoded trimmed

  abbrev pub check_source : ProfileSource → Result Error (Unit {0})
  check_source static = ok tt
  check_source (autorouting url interval_hours) = do
    ensure (is_url url) bad_source
    ensure (leb 1 interval_hours && leb interval_hours 720) bad_interval

  unfoldable pub validate_entry : RoutingProfileEntry → Result Error (Unit {0})
  validate_entry entry = do
    ensure (c.is_uuid entry.id) bad_id
    validate entry.profile
    check_source entry.source

-- `RoutingProfileEntry::new`; the id is a fresh UUID.
unfoldable pub new_entry : Text → RoutingProfile → ProfileSource → RoutingProfileEntry
new_entry id profile source = record {
  id = id;
  profile = profile;
  source = source;
  last_fetched_at = 0;
}

-- `BoolString`, to a JSON value and back.
unfoldable pub bool_to_json : Bool → JsonValue
bool_to_json true = JsonValue.string (codes "true")
bool_to_json false = JsonValue.string (codes "false")

unfoldable pub bool_of_text : Text → Option Bool
unfolding text_eq
bool_of_text s =
    if text_eq s (codes "true") || text_eq s (codes "1") || text_eq s (codes "yes")
    then some true
    else if text_eq s (codes "false")
        || text_eq s (codes "0")
        || text_eq s (codes "no")
        || text_eq s []
    then some false
    else none

unfoldable pub bool_of_json : Std → JsonValue → Option Bool
unfolding bool_of_text
bool_of_json std (JsonValue.bool b) = some b
bool_of_json std (JsonValue.string s) = bool_of_text (std.to_lowercase s)
bool_of_json std (JsonValue.number none) = some false
bool_of_json std (JsonValue.number (some nonzero)) = some nonzero
bool_of_json std JsonValue.other = none

-- The built-in template.
abbrev pub minimal_ru : RoutingProfile
minimal_ru = record {
  name = codes "минимальный RU";
  global_proxy = true;
  last_updated = [];
  domain_strategy = ip_if_non_match;
  remote_dns_type = [];
  remote_dns_domain = [];
  remote_dns_ip = [];
  domestic_dns_type = [];
  domestic_dns_domain = [];
  domestic_dns_ip = [];
  dns_hosts = [];
  fake_dns = false;
  direct_sites = codes "geosite:ru" ∷ [];
  direct_ip =
      codes "geoip:ru" ∷ codes "10.0.0.0/8" ∷ codes "172.16.0.0/12" ∷ codes "192.168.0.0/16" ∷ [];
  proxy_sites = [];
  proxy_ip = [];
  block_sites = codes "geosite:category-ads-all" ∷ [];
  block_ip = [];
  geoip_url =
      codes "https://github.com/Loyalsoldier/v2ray-rules-dat/releases/latest/download/geoip.dat";
  geosite_url =
      codes "https://github.com/Loyalsoldier/v2ray-rules-dat/releases/latest/download/geosite.dat";
  use_chunk_files = false;
}
