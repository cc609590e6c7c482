-- ===== src/ClientConfig/Reduce.antt =====
-- src-tauri/src/config/mihomo_config.rs: `sanitize_full_profile`, which leaves of a provider's document what
-- the application supports. Tags have been rejected before, so that a section is rewritten as a plain value.
use kwik_proxy_secure.ClientConfig.{
  Error, AppRule, Libs, FullYamlPatch, or_fail, proxy_not_mapping, no_proxy_name, unsafe_proxy_name,
  ssh_proxy, group_not_mapping, no_group_name, unsafe_group_name, rule_not_string, unsafe_rule,
  script_rule,
}
use kwik_proxy_secure.ClientConfig.Dns.{build_dns, build_sniffer}
use kwik_proxy_secure.ClientConfig.Rules.{is_safe_rule_token}
use kwik_proxy_secure.ClientConfig.Sanitize.{
  sanitize_providers, validate_sequence_bound, app_health_probe_url,
}
use kwik_proxy_secure.Mihomo.Config.{
  Value, bool, string, sequence, mapping, Mapping, end, entry, get, has_key, string_value, as_str,
  as_mapping, and_then, unwrap_or,
}
use kwik_proxy_secure.Yaml.{insert, remove_key, remove_keys, update, strings, as_sequence, items}
use kwik_proxy_secure.Prelude.{
  Text, codes, text_eq, len, Bool, true, false, not, ◌&&◌, List, [], ◌∷◌, Option, none, some,
  Result, ok, ◌>>=◌, ◌>>◌, ensure, if◌then◌else◌, leb, trim, contains, split, first_of,
  to_ascii_lowercase, is_some_and,
}

abbrev pub removed_keys : List Text
removed_keys =
    codes "listeners"
    ∷ codes "inbounds"
    ∷ codes "tunnels"
    ∷ codes "ss-config"
    ∷ codes "vmess-config"
    ∷ codes "tuic-server"
    ∷ codes "script"
    ∷ codes "script-mode"
    ∷ codes "experimental"
    ∷ codes "external-ui"
    ∷ codes "external-ui-name"
    ∷ codes "external-ui-url"
    ∷ codes "external-controller-tls"
    ∷ codes "external-controller-pipe"
    ∷ codes "external-controller-unix"
    ∷ codes "external-controller-cors"
    ∷ codes "external-doh-server"
    ∷ codes "geox-url"
    ∷ codes "ntp"
    ∷ codes "skip-auth-prefixes"
    ∷ codes "lan-allowed-ips"
    ∷ codes "lan-disallowed-ips"
    ∷ codes "interface-name"
    ∷ codes "routing-mark"
    ∷ codes "tls"
    ∷ codes "hosts"
    ∷ []

abbrev pub flag_of : List AppRule → Text
flag_of [] = codes "off"
flag_of (r ∷ rs) = codes "always"

unfoldable pub set_basics : FullYamlPatch → Mapping → Mapping
unfolding insert
set_basics patch root =
    let r1 = insert (codes "geo-auto-update") (bool false) root in
    let r2 = insert (codes "mode") (string (codes "rule")) r1 in
    let r3 = insert (codes "log-level") (string (codes "warning")) r2 in
    let r4 = insert (codes "ipv6") (bool patch.ipv6) r3 in
    insert (codes "find-process-mode") (string (flag_of patch.app_rules)) r4

abbrev named_ssh : Mapping → Bool
named_ssh map = is_some_and (λ t. text_eq t (codes "ssh")) (string_value map (codes "type"))

unfoldable pub check_proxies : List Value → Result Error (Unit {0})
unfolding get is_safe_rule_token text_eq
check_proxies [] = ok tt
check_proxies (proxy ∷ proxies) = do
  map ← or_fail proxy_not_mapping (as_mapping proxy)
  name ← or_fail no_proxy_name (string_value map (codes "name"))
  ensure (is_safe_rule_token name) unsafe_proxy_name
  ensure (not (named_ssh map)) ssh_proxy
  check_proxies proxies

abbrev with_probe : Mapping → Mapping
with_probe map =
    if has_key map (codes "url")
    then insert (codes "url") (string app_health_probe_url) map
    else map

unfoldable pub rewrite_groups : List Value → Result Error (List Value)
unfolding get insert is_safe_rule_token
rewrite_groups [] = ok []
rewrite_groups (group ∷ groups) = do
  map ← or_fail group_not_mapping (as_mapping group)
  name ← or_fail no_group_name (string_value map (codes "name"))
  ensure (is_safe_rule_token name) unsafe_group_name
  others ← rewrite_groups groups
  ok (mapping (with_probe map) ∷ others)

abbrev pub is_plain_rule : Text → Bool
is_plain_rule text = leb (len text) 4096 && not (contains b'\r' text) && not (contains b'\n' text)

abbrev pub is_script : Text → Bool
is_script text = text_eq (to_ascii_lowercase (trim (first_of (split b',' text)))) (codes "script")

unfoldable pub check_rules : List Value → Result Error (Unit {0})
unfolding len split trim to_ascii_lowercase text_eq
check_rules [] = ok tt
check_rules (rule ∷ rules) = do
  text ← or_fail rule_not_string (as_str rule)
  ensure (is_plain_rule text) unsafe_rule
  ensure (not (is_script text)) script_rule
  check_rules rules

-- The entries of a section; none where there is no sequence.
abbrev pub list_at : Text → Mapping → List Value
list_at key root = unwrap_or [] (and_then as_sequence (get key root))

abbrev pub set_groups : List Value → Mapping → Mapping
set_groups groups = update (codes "proxy-groups") (λ section. sequence (items groups))

abbrev list_of_routes : List Text
list_of_routes =
    codes "10.0.0.0/8"
    ∷ codes "172.16.0.0/12"
    ∷ codes "192.168.0.0/16"
    ∷ codes "169.254.0.0/16"
    ∷ codes "fc00::/7"
    ∷ codes "fe80::/10"
    ∷ []

unfoldable pub builtin_tun_mapping : Option Text → Mapping
unfolding insert
builtin_tun_mapping device =
    let t1 = insert (codes "enable") (bool true) end in
    let t2 = insert (codes "stack") (string (codes "mixed")) t1 in
    let t3 = insert (codes "auto-route") (bool true) t2 in
    let t4 = insert (codes "auto-detect-interface") (bool true) t3 in
    let t5 = insert (codes "strict-route") (bool true) t4 in
    let t6 = insert (codes "route-exclude-address") (strings list_of_routes) t5 in
    let t7 = insert (codes "dns-hijack") (strings (codes "any:53" ∷ [])) t6 in
    elim device [ none ↦ t7 | some dev ↦ insert (codes "device") (string dev) t7 ]

abbrev pub tun_section : FullYamlPatch → Mapping
tun_section patch =
    if patch.use_builtin_tun
    then builtin_tun_mapping patch.tun_device
    else entry (string (codes "enable")) (bool false) end

abbrev pub persisted : Mapping
persisted =
    entry (string (codes "store-selected")) (bool true)
      (entry (string (codes "store-fake-ip")) (bool true) end)

module _ (libs : Libs) where
  abbrev pub internal_dns : FullYamlPatch → Mapping
  internal_dns patch =
      remove_key (codes "listen")
        (build_dns libs.codec.std patch.anti_dpi patch.routing_profile patch.ipv6 patch.custom_dns)

  -- The sections that are written anew.
  unfoldable pub set_sections : FullYamlPatch → Mapping → Mapping
  unfolding insert remove_key builtin_tun_mapping build_dns
  set_sections patch root =
      let r1 = insert (codes "dns") (mapping (internal_dns patch)) root in
      let r2 = insert (codes "tun") (mapping (tun_section patch)) (remove_key (codes "tun") r1) in
      let r3 = insert (codes "profile") (mapping persisted) r2 in
      insert (codes "sniffer") (mapping build_sniffer) r3

  unfoldable pub sanitize_full_profile : FullYamlPatch → Mapping → Result Error Mapping
  unfolding remove_keys set_basics validate_sequence_bound check_proxies rewrite_groups check_rules
      sanitize_providers set_sections update
  sanitize_full_profile patch raw = do
    let root = set_basics patch (remove_keys removed_keys raw)
    validate_sequence_bound root (codes "proxies") 4096
    validate_sequence_bound root (codes "proxy-groups") 512
    validate_sequence_bound root (codes "rules") 200000
    check_proxies (list_at (codes "proxies") root)
    groups ← rewrite_groups (list_at (codes "proxy-groups") root)
    check_rules (list_at (codes "rules") root)
    root1 ←
        sanitize_providers libs (codes "proxy-providers") (codes "proxy") (set_groups groups root)
    root2 ← sanitize_providers libs (codes "rule-providers") (codes "rule") root1
    ok (set_sections patch root2)
