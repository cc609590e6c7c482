-- ===== src/ClientConfig/Build/Silent.antt =====
-- src-tauri/src/config/mihomo_config.rs: the DNS section that `build_dns` writes opens no listener.
use kwik_proxy_secure.ClientConfig.{AntiDpiOptions}
use kwik_proxy_secure.ClientConfig.Dns.{
  build_dns, add_enhanced, add_resolvers, add_policy, add_hosts, add_profile, remote_servers,
  bootstrap_servers, with_policy, with_hosts, fallback_filter, keys_of, local_names, domestic_of,
  dns_policy_keys,
}
use kwik_proxy_secure.ClientConfig.Patch.Quiet.{KeepsListen}
use kwik_proxy_secure.Mihomo.Config.{
  Value, bool, string, mapping, Mapping, end, get, unwrap_or, and_then,
}
use kwik_proxy_secure.Net.{Std}
use kwik_proxy_secure.Prelude.{
  Text, codes, text_eq, Bool, true, false, List, [], ◌∷◌, ◌++◌, Option, none, some, ◌≡◌, refl, ◌∙◌,
  if◌then◌else◌,
}
use kwik_proxy_secure.Profile.{RoutingProfile}
use kwik_proxy_secure.Yaml.{insert, strings}
use kwik_proxy_secure.Yaml.Laws.{get-insert, get-insert_other}

abbrev pub listen : Text
listen = codes "listen"

enhanced_keeps :
    (fake : Bool) (filter : Value) (dns : Mapping)
    → get listen (
        if fake
        then insert (codes "fake-ip-filter") filter (
            insert
              (codes "fake-ip-range")
              (string (codes "198.18.0.1/16"))
              (insert (codes "enhanced-mode") (string (codes "fake-ip")) dns))
        else insert (codes "enhanced-mode") (string (codes "redir-host")) dns)
      ≡ get listen dns
unfolding text_eq
enhanced_keeps true filter dns =
    let d1 = insert (codes "enhanced-mode") (string (codes "fake-ip")) dns in
    let d2 = insert (codes "fake-ip-range") (string (codes "198.18.0.1/16")) d1 in
    get-insert_other listen (codes "fake-ip-filter") filter d2 refl
    ∙ get-insert_other listen (codes "fake-ip-range") (string (codes "198.18.0.1/16")) d1 refl
    ∙ get-insert_other listen (codes "enhanced-mode") (string (codes "fake-ip")) dns refl
enhanced_keeps false filter dns =
    get-insert_other listen (codes "enhanced-mode") (string (codes "redir-host")) dns refl

add_enhanced-KeepsListen : (profile : Option RoutingProfile) → KeepsListen (add_enhanced profile)
unfolding add_enhanced
add_enhanced-KeepsListen profile dns =
    enhanced_keeps (unwrap_or false (and_then (λ p. some p.fake_dns) profile))
      (strings (local_names ++ keys_of profile)) dns

add_resolvers-KeepsListen :
    (bootstrap remote : List Text) → KeepsListen (add_resolvers bootstrap remote)
unfolding add_resolvers text_eq
add_resolvers-KeepsListen bootstrap remote dns =
    let d1 = insert (codes "default-nameserver") (strings bootstrap) dns in
    let d2 = insert (codes "nameserver") (strings remote) d1 in
    let d3 = insert (codes "respect-rules") (bool true) d2 in
    let d4 = insert (codes "proxy-server-nameserver") (strings remote) d3 in
    let fallback =
      strings (codes "https://dns.google/dns-query" ∷ codes "tls://1.1.1.1:853" ∷ []) in
    let d5 = insert (codes "fallback") fallback d4 in
    get-insert_other listen (codes "fallback-filter") (mapping fallback_filter) d5 refl
    ∙ get-insert_other listen (codes "fallback") fallback d4 refl
    ∙ get-insert_other listen (codes "proxy-server-nameserver") (strings remote) d3 refl
    ∙ get-insert_other listen (codes "respect-rules") (bool true) d2 refl
    ∙ get-insert_other listen (codes "nameserver") (strings remote) d1 refl
    ∙ get-insert_other listen (codes "default-nameserver") (strings bootstrap) dns refl

add_policy-KeepsListen :
    (domestic : Option Text) (keys : List Text) → KeepsListen (add_policy domestic keys)
unfolding add_policy text_eq
add_policy-KeepsListen none keys dns = refl
add_policy-KeepsListen (some d) [] dns = refl
add_policy-KeepsListen (some d) (k ∷ ks) dns =
    get-insert_other listen (codes "nameserver-policy")
      (mapping (with_policy insert d (k ∷ ks) end)) dns refl

add_hosts-KeepsListen : (hosts : List (Text × Text)) → KeepsListen (add_hosts hosts)
unfolding add_hosts text_eq
add_hosts-KeepsListen [] dns = refl
add_hosts-KeepsListen (h ∷ hs) dns =
    get-insert_other listen (codes "hosts") (mapping (with_hosts (h ∷ hs) end)) dns refl

add_profile-KeepsListen : (profile : Option RoutingProfile) → KeepsListen (add_profile profile)
unfolding add_profile
add_profile-KeepsListen none dns = refl
add_profile-KeepsListen (some p) dns =
    add_hosts-KeepsListen p.dns_hosts
      (add_policy (domestic_of p) (dns_policy_keys p.direct_sites) dns)
    ∙ add_policy-KeepsListen (domestic_of p) (dns_policy_keys p.direct_sites) dns

pub build_dns-listen :
    (std : Std) (anti : Option AntiDpiOptions) (profile : Option RoutingProfile) (ipv6 : Bool)
    (custom : Option (List Text))
    → get listen (build_dns std anti profile ipv6 custom) ≡ some (string (codes "0.0.0.0:0"))
unfolding build_dns text_eq
build_dns-listen std anti profile ipv6 custom =
    let d1 = insert (codes "enable") (bool true) end in
    let d2 = insert listen (string (codes "0.0.0.0:0")) d1 in
    let d3 = insert (codes "ipv6") (bool ipv6) d2 in
    let bootstrap = bootstrap_servers std anti profile in
    let remote = remote_servers anti profile custom in
    add_profile-KeepsListen profile (add_resolvers bootstrap remote (add_enhanced profile d3))
    ∙ add_resolvers-KeepsListen bootstrap remote (add_enhanced profile d3)
    ∙ add_enhanced-KeepsListen profile d3
    ∙ get-insert_other listen (codes "ipv6") (bool ipv6) d2 refl
    ∙ get-insert listen (string (codes "0.0.0.0:0")) d1
