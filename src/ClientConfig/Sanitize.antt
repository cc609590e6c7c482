-- ===== src/ClientConfig/Sanitize.antt =====
-- src-tauri/src/config/mihomo_config.rs: the checks of what the user set, and the reduction of a provider's
-- document to what the application supports.

use kwik_proxy_secure.ClientConfig.{
  Error, AppRule, AntiDpiOptions, Libs, or_fail, too_many_app_rules, bad_app_rule, too_many_dns,
  unsafe_dns, unsafe_anti_dpi, no_device, bad_device, tagged_yaml, bad_url, not_https,
  has_credentials, no_host, local_host, local_ip, not_mapping, too_many_providers,
  bad_provider_name, provider_not_mapping, not_http, no_url, not_sequence, too_many_entries,
}
use kwik_proxy_secure.ClientConfig.Rules.{app_rule_to_mihomo}
use kwik_proxy_secure.Mihomo.Config.{
  Value, number, string, sequence, mapping, tagged, Items, nil, cons, Mapping, end, entry, get,
  string_value, as_str, as_mapping, and_then, unwrap_or,
}
use kwik_proxy_secure.Net.{Std, ip_addr}
use kwik_proxy_secure.Web
use kwik_proxy_secure.Web.{Urls, Url, dot, is_local_name}
use kwik_proxy_secure.Web.Addresses.{is_public_ip}
use kwik_proxy_secure.Yaml.{insert, update, entries, as_sequence, as_u64, with_mapping}
use kwik_proxy_secure.Prelude.{
  ℕ, ◌+◌, ◌/◌, ◌%◌, Text, codes, text_eq, starts_with, len, Bool, true, false, not, ◌&&◌, ◌||◌,
  List, [], ◌∷◌, ◌++◌, Option, none, some, Result, ok, ◌>>=◌, ◌>>◌, ensure, if◌then◌else◌, leb, ltb,
  ◌==◌, any, all, trim, length, is_control, to_ascii_lowercase, is_ascii_alphanumeric, is_some,
  is_some_and, min, max, trim_end_matches,
}

abbrev pub owned_prefix : Text
owned_prefix = codes "kwikproxy-secure-"

-- The name that the application takes for its TUN device.
unfoldable pub is_owned_device : Text → Bool
unfolding starts_with len
is_owned_device device =
    starts_with device owned_prefix
    && not (ltb 96 (len device))
    && all (λ c. is_ascii_alphanumeric c || c == b'-') device

unfoldable pub is_safe_resolver : Libs → Option AntiDpiOptions → Bool
unfolding Web.is_https_remote_url is_public_ip
is_safe_resolver libs none = true
is_safe_resolver libs (some options) =
    if options.server_resolve
    then Web.is_https_remote_url libs.codec.std libs.codec.urls options.server_resolve_doh
      && is_some_and is_public_ip (ip_addr libs.codec.std options.server_resolve_bootstrap)
    else true

abbrev pub is_dns_server : Libs → Text → Bool
is_dns_server libs raw =
    text_eq (trim raw) [] || Web.is_valid_dns_endpoint libs.codec.std libs.codec.urls (trim raw)

abbrev pub check_dns : Libs → Option (List Text) → Result Error (Unit {0})
check_dns libs none = ok tt
check_dns libs (some servers) = do
  ensure (leb (length servers) 16) too_many_dns
  ensure (all (is_dns_server libs) servers) unsafe_dns

abbrev pub check_device : Bool → Option Text → Result Error (Unit {0})
check_device false tun_device = ok tt
check_device true tun_device = do
  device ← or_fail no_device tun_device
  ensure (is_owned_device device) bad_device

unfoldable pub validate_runtime_inputs :
    Libs
    → List AppRule
    → Option AntiDpiOptions
    → Option (List Text)
    → Bool
    → Option Text
    → Result Error (Unit {0})
unfolding app_rule_to_mihomo is_safe_resolver is_owned_device Web.is_valid_dns_endpoint trim
validate_runtime_inputs libs app_rules anti_dpi custom_dns use_builtin_tun tun_device = do
  ensure (leb (length app_rules) 4096) too_many_app_rules
  ensure (all (λ r. is_some (app_rule_to_mihomo r (codes "PROXY"))) app_rules) bad_app_rule
  check_dns libs custom_dns
  ensure (is_safe_resolver libs anti_dpi) unsafe_anti_dpi
  check_device use_builtin_tun tun_device

-- Whether the value holds no tag, at any depth.
unfoldable mutual
  pub is_untagged : Value → Bool
  is_untagged (tagged tag v) = false
  is_untagged (sequence vs) = are_untagged vs
  is_untagged (mapping m) = has_no_tag m
  is_untagged _ = true

  pub are_untagged : Items → Bool
  are_untagged nil = true
  are_untagged (cons v vs) = is_untagged v && are_untagged vs

  pub has_no_tag : Mapping → Bool
  has_no_tag end = true
  has_no_tag (entry k v rest) = is_untagged k && is_untagged v && has_no_tag rest

abbrev pub reject_tagged_yaml : Value → Result Error (Unit {0})
reject_tagged_yaml value = ensure (is_untagged value) tagged_yaml

abbrev pub is_public_host : Std → Text → Bool
is_public_host std host = elim (ip_addr std host) [ none ↦ true | some ip ↦ is_public_ip ip ]

unfoldable pub validate_https_remote_url : Std → Urls → Text → Result Error (Unit {0})
unfolding text_eq to_ascii_lowercase trim_end_matches is_public_ip
validate_https_remote_url std urls raw = do
  parsed ← or_fail bad_url (urls.parse raw)
  ensure (text_eq parsed.scheme (codes "https")) not_https
  ensure (text_eq parsed.username [] && not (is_some parsed.password)) has_credentials
  written ← or_fail no_host parsed.host
  let host = to_ascii_lowercase (trim_end_matches dot written)
  ensure (not (is_local_name host)) local_host
  ensure (is_public_host std host) local_ip

abbrev hex_digit : ℕ → ℕ
hex_digit d = if ltb d 10 then b'0' + d else 0x57 + d

abbrev pub hex : List ℕ → Text
hex [] = []
hex (b ∷ bytes) = hex_digit (b / 16) ∷ hex_digit (b % 16) ∷ hex bytes

abbrev pub cache_path : Text → List ℕ → Text
cache_path kind digest = codes "providers/" ++ kind ++ b'/' ∷ hex digest ++ codes ".yaml"

abbrev pub provider_cache_path : Libs → Text → Text → Text → Text
provider_cache_path libs kind name url = cache_path kind (libs.sha256 (kind ++ 0 ∷ name ++ 0 ∷ url))

abbrev pub clamp : ℕ → ℕ → ℕ → ℕ
clamp low high n = max low (min high n)

-- `interval` within bounds, where it is a number.
unfoldable pub clamp_interval : ℕ → ℕ → Mapping → Mapping
unfolding get insert
clamp_interval low high m = elim (and_then as_u64 (get (codes "interval") m)) [
  | none ↦ m
  | some n ↦ insert (codes "interval") (number (clamp low high n)) m
]

abbrev pub app_health_probe_url : Text
app_health_probe_url = codes "https://www.gstatic.com/generate_204"

abbrev pub normalize_health : Mapping → Mapping
normalize_health health =
    clamp_interval 60 86400 (insert (codes "url") (string app_health_probe_url) health)

unfoldable pub is_provider_name : Text → Bool
unfolding text_eq len
is_provider_name name =
    not (text_eq name [])
    && leb (len name) 256
    && not (any (λ c. is_control c || c == b'/' || c == b'\\' || c == b',') name)

-- The edits of one provider, after its checks.
unfoldable pub rewrite_provider : Text → Mapping → Mapping
unfolding insert clamp_interval update
rewrite_provider path provider =
    let placed = insert (codes "path") (string path) provider in
    let typed = insert (codes "type") (string (codes "http")) placed in
    let timed = clamp_interval 300 604800 typed in
    update (codes "health-check") (with_mapping normalize_health) timed

module _ (libs : Libs) where
  unfoldable pub sanitize_provider : Text → Text → Mapping → Result Error Mapping
  unfolding get text_eq validate_https_remote_url rewrite_provider
  sanitize_provider kind name provider = do
    ensure
        (text_eq (unwrap_or (codes "http") (string_value provider (codes "type"))) (codes "http"))
        not_http
    url ← or_fail no_url (string_value provider (codes "url"))
    validate_https_remote_url libs.codec.std libs.codec.urls url
    ok (rewrite_provider (provider_cache_path libs kind name url) provider)

  -- The loop over the providers.
  unfoldable pub sanitize_entries : Text → Mapping → Result Error Mapping
  unfolding is_provider_name sanitize_provider
  sanitize_entries kind end = ok end
  sanitize_entries kind (entry k v rest) = do
    name ← or_fail bad_provider_name (as_str k)
    ensure (is_provider_name name) bad_provider_name
    provider ← or_fail provider_not_mapping (as_mapping v)
    sanitized ← sanitize_provider kind name provider
    others ← sanitize_entries kind rest
    ok (entry k (mapping sanitized) others)

  abbrev pub checked_section : Text → Text → Mapping → Mapping → Result Error Mapping
  checked_section key kind providers root = do
    ensure (leb (entries providers) 256) too_many_providers
    sanitized ← sanitize_entries kind providers
    ok (update key (λ section. mapping sanitized) root)

  unfoldable pub sanitize_providers : Text → Text → Mapping → Result Error Mapping
  unfolding get update sanitize_entries
  sanitize_providers key kind root = elim (get key root) [
    | none ↦ ok root
    | some value ↦ or_fail not_mapping (as_mapping value) >>= λ providers.
        checked_section key kind providers root
  ]

unfoldable pub validate_sequence_bound : Mapping → Text → ℕ → Result Error (Unit {0})
unfolding get
validate_sequence_bound root key bound = elim (get key root) [
  | none ↦ ok tt
  | some value ↦ do
    seq ← or_fail not_sequence (as_sequence value)
    ensure (leb (length seq) bound) too_many_entries
]
