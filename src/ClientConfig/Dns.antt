-- ===== src/ClientConfig/Dns.antt =====
-- src-tauri/src/config/mihomo_config.rs: the `dns:` and `sniffer:` sections that the application writes,
-- and what it adds to those of a provider.
use kwik_proxy_secure.ClientConfig.{AntiDpiOptions, or_else}
use kwik_proxy_secure.Mihomo.Config.{
  Value, Mapping, bool, number, string, sequence, mapping, end, entry, and_then, unwrap_or,
}
use kwik_proxy_secure.Net.{Std, ip_addr}
use kwik_proxy_secure.Profile.{RoutingProfile}
use kwik_proxy_secure.Yaml.{insert, update, or_insert, strings, items, with_mapping}
use kwik_proxy_secure.Prelude.{
  Text, codes, text_eq, starts_with, Bool, true, false, not, List, [], ◌∷◌, ◌++◌, Option, none,
  some, if◌then◌else◌, keep, map, trim, contains, strip_prefix, is_some,
}

abbrev pub is_set : Text → Bool
is_set t = not (text_eq t [])

abbrev pub non_empty : List Text → Option (List Text)
non_empty [] = none
non_empty (t ∷ ts) = some (t ∷ ts)

-- The user's servers, trimmed, without empty ones.
unfoldable pub custom_servers : Option (List Text) → Option (List Text)
unfolding trim keep text_eq
custom_servers custom_dns = and_then (λ d. non_empty (keep is_set (map trim d))) custom_dns

unfoldable pub profile_dns_addr : Text → Text → Option Text
unfolding trim text_eq
profile_dns_addr domain ip =
    if is_set (trim domain)
    then some (trim domain)
    else if is_set (trim ip)
    then some (trim ip)
    else none

-- The key for one trimmed site, if a policy can have it.
unfoldable pub policy_key : Text → List Text
unfolding strip_prefix starts_with
policy_key s = elim (strip_prefix s (codes "geosite:")) [
  | some r ↦ (codes "geosite:" ++ r) ∷ []
  | none ↦ if starts_with s (codes "keyword:") then [] else elim (strip_prefix s (codes "*.")) [
    | some r ↦ (codes "+." ++ r) ∷ []
    | none ↦ elim (strip_prefix s (codes "domain:")) [
      | some r ↦ r ∷ []
      | none ↦ if contains b'.' s then (codes "+." ++ s) ∷ [] else []
    ]
  ]
]

unfoldable pub dns_policy_keys : List Text → List Text
unfolding trim policy_key text_eq
dns_policy_keys [] = []
dns_policy_keys (raw ∷ sites) =
    let s = trim raw in
    let rest = dns_policy_keys sites in if text_eq s [] then rest else policy_key s ++ rest

abbrev pub local_names : List Text
local_names =
    codes "+.lan"
    ∷ codes "+.local"
    ∷ codes "localhost"
    ∷ codes "*.localdomain"
    ∷ codes "time.*.com"
    ∷ []

abbrev pub keys_of : Option RoutingProfile → List Text
keys_of none = []
keys_of (some p) = dns_policy_keys p.direct_sites

-- What `server_resolve` sets, if it is on and the text passes the test.
abbrev if_resolving : (AntiDpiOptions → Text) → (Text → Bool) → Option AntiDpiOptions → Option Text
if_resolving field test none = none
if_resolving field test (some d) =
    if d.server_resolve then if test (field d) then some (field d) else none else none

abbrev one : Option Text → Option (List Text)
one none = none
one (some t) = some (t ∷ [])

-- The general resolver: the user's, the profile's, the one against DPI, or the default.
unfoldable pub remote_servers :
    Option AntiDpiOptions → Option RoutingProfile → Option (List Text) → List Text
unfolding custom_servers profile_dns_addr
remote_servers anti_dpi profile custom_dns =
    unwrap_or
      (codes "https://cloudflare-dns.com/dns-query" ∷ codes "https://dns.google/dns-query" ∷ [])
      (or_else (custom_servers custom_dns) (
        or_else (one (and_then (λ p. profile_dns_addr p.remote_dns_domain p.remote_dns_ip) profile))
          (one (if_resolving (λ d. d.server_resolve_doh) is_set anti_dpi))))

-- The addresses that the resolver's own name is looked up with.
unfoldable pub bootstrap_servers : Std → Option AntiDpiOptions → Option RoutingProfile → List Text
unfolding trim
bootstrap_servers std anti_dpi profile =
    let is_ip : Text → Bool = λ t. is_some (ip_addr std t) in
    unwrap_or (codes "1.1.1.1" ∷ codes "8.8.8.8" ∷ []) (
      or_else
        (one (
          and_then (λ p. if is_ip (trim p.remote_dns_ip) then some (trim p.remote_dns_ip) else none)
            profile))
        (one (if_resolving (λ d. trim d.server_resolve_bootstrap) is_ip anti_dpi)))

abbrev pub fallback_filter : Mapping
fallback_filter = entry (string (codes "geoip")) (bool true) (
    entry (string (codes "geoip-code")) (string (codes "RU")) (
      entry (string (codes "ipcidr")) (strings (codes "240.0.0.0/4" ∷ codes "0.0.0.0/32" ∷ []))
        end))

-- The keys of the policy, each with the server; a key that is there keeps its server if `keeps`.
abbrev pub with_policy : (Text → Value → Mapping → Mapping) → Text → List Text → Mapping → Mapping
with_policy put domestic [] policy = policy
with_policy put domestic (k ∷ keys) policy =
    with_policy put domestic keys (put k (strings (domestic ∷ [])) policy)

abbrev pub with_hosts : List (Text × Text) → Mapping → Mapping
with_hosts [] hosts = hosts
with_hosts ((host, ip) ∷ rest) hosts = with_hosts rest (insert host (string ip) hosts)

abbrev pub domestic_of : RoutingProfile → Option Text
domestic_of p = profile_dns_addr p.domestic_dns_domain p.domestic_dns_ip

unfoldable pub add_enhanced : Option RoutingProfile → Mapping → Mapping
unfolding insert
add_enhanced profile dns =
    if unwrap_or false (and_then (λ p. some p.fake_dns) profile)
    then insert (codes "fake-ip-filter") (strings (local_names ++ keys_of profile)) (
        insert (codes "fake-ip-range") (string (codes "198.18.0.1/16"))
          (insert (codes "enhanced-mode") (string (codes "fake-ip")) dns))
    else insert (codes "enhanced-mode") (string (codes "redir-host")) dns

unfoldable pub add_resolvers : List Text → List Text → Mapping → Mapping
unfolding insert
add_resolvers bootstrap remote dns =
    let d1 = insert (codes "default-nameserver") (strings bootstrap) dns in
    let d2 = insert (codes "nameserver") (strings remote) d1 in
    let d3 = insert (codes "respect-rules") (bool true) d2 in
    let d4 = insert (codes "proxy-server-nameserver") (strings remote) d3 in
    let d5 =
      insert (codes "fallback")
        (strings (codes "https://dns.google/dns-query" ∷ codes "tls://1.1.1.1:853" ∷ [])) d4 in
    insert (codes "fallback-filter") (mapping fallback_filter) d5

unfoldable pub add_policy : Option Text → List Text → Mapping → Mapping
unfolding insert
add_policy none keys dns = dns
add_policy (some domestic) [] dns = dns
add_policy (some domestic) (k ∷ keys) dns =
    insert (codes "nameserver-policy") (mapping (with_policy insert domestic (k ∷ keys) end)) dns

unfoldable pub add_hosts : List (Text × Text) → Mapping → Mapping
unfolding insert
add_hosts [] dns = dns
add_hosts (host ∷ hosts) dns = insert (codes "hosts") (mapping (with_hosts (host ∷ hosts) end)) dns

unfoldable pub add_profile : Option RoutingProfile → Mapping → Mapping
unfolding add_policy add_hosts dns_policy_keys profile_dns_addr
add_profile none dns = dns
add_profile (some p) dns =
    add_hosts p.dns_hosts (add_policy (domestic_of p) (dns_policy_keys p.direct_sites) dns)

unfoldable pub build_dns :
    Std → Option AntiDpiOptions → Option RoutingProfile → Bool → Option (List Text) → Mapping
unfolding insert add_enhanced add_resolvers add_profile remote_servers bootstrap_servers
build_dns std anti_dpi profile ipv6 custom_dns =
    let d1 = insert (codes "enable") (bool true) end in
    let d2 = insert (codes "listen") (string (codes "0.0.0.0:0")) d1 in
    let d3 = insert (codes "ipv6") (bool ipv6) d2 in
    let d4 = add_enhanced profile d3 in
    let d5 =
      add_resolvers (bootstrap_servers std anti_dpi profile)
        (remote_servers anti_dpi profile custom_dns) d4 in
    add_profile profile d5

-- `merge_profile_dns` adds hosts, and policies for keys that have none, to a section that is there.
unfoldable pub merge_hosts : List (Text × Text) → Mapping → Mapping
unfolding update or_insert
merge_hosts [] dns = dns
merge_hosts (host ∷ hosts) dns =
    update (codes "hosts") (with_mapping (with_hosts (host ∷ hosts)))
      (or_insert (codes "hosts") (mapping end) dns)

unfoldable pub merge_policy : Option Text → List Text → Mapping → Mapping
unfolding update or_insert
merge_policy none keys dns = dns
merge_policy (some domestic) [] dns = dns
merge_policy (some domestic) (k ∷ keys) dns =
    update (codes "nameserver-policy") (with_mapping (with_policy or_insert domestic (k ∷ keys)))
      (or_insert (codes "nameserver-policy") (mapping end) dns)

abbrev pub merged : RoutingProfile → Mapping → Mapping
merged p dns =
    merge_policy (domestic_of p) (dns_policy_keys p.direct_sites) (merge_hosts p.dns_hosts dns)

unfoldable pub merge_profile_dns : RoutingProfile → Mapping → Mapping
unfolding update merge_hosts merge_policy dns_policy_keys profile_dns_addr
merge_profile_dns p root = update (codes "dns") (with_mapping (merged p)) root

abbrev ports : List Value → Mapping → Mapping
ports vs rest = entry (string (codes "ports")) (sequence (items vs)) rest

abbrev pub build_sniffer : Mapping
build_sniffer = entry (string (codes "enable")) (bool true) (
    entry (string (codes "override-destination")) (bool true) (
      entry (string (codes "force-dns-mapping")) (bool true) (
        entry (string (codes "parse-pure-ip")) (bool true) (
          entry (string (codes "sniff")) (mapping sniff)
            (entry (string (codes "skip-domain")) (strings (codes "+.push.apple.com" ∷ [])) end)))))
  where
    tls : Mapping
    tls = ports (number 443 ∷ number 8443 ∷ []) end

    http : Mapping
    http =
        ports (number 80 ∷ string (codes "8080-8880") ∷ [])
          (entry (string (codes "override-destination")) (bool false) end)

    quic : Mapping
    quic = ports (number 443 ∷ []) end

    sniff : Mapping
    sniff = entry (string (codes "TLS")) (mapping tls) (
        entry (string (codes "HTTP")) (mapping http)
          (entry (string (codes "QUIC")) (mapping quic) end))
