-- ===== src/ClientConfig/Patch.antt =====
-- src-tauri/src/config/mihomo_config.rs: `patch_full_yaml`, which turns a provider's document into the one
-- that is launched. Its stages follow the code's order.
pub mod Kept
pub mod Quiet
pub mod Inbound
pub mod Providers
pub mod Sanitized
pub mod Passing
pub mod Document
pub mod Ordered
pub mod Launched
use kwik_proxy_secure.ClientConfig.{
  Error, Libs, FullYamlPatch, AntiDpiOptions, AppRule, MihomoConfig, DefaultTraffic, auto, vpn,
  direct, or_fail, profile_error, full_yaml_too_large, bad_yaml, root_not_mapping, not_serialized,
  yaml_too_large, max_full_yaml_bytes, decimal,
}
use kwik_proxy_secure.ClientConfig.Dns.{build_sniffer, custom_servers, merge_profile_dns, is_set}
use kwik_proxy_secure.ClientConfig.Reduce.{builtin_tun_mapping, sanitize_full_profile}
use kwik_proxy_secure.ClientConfig.Rules.{
  app_rule_to_mihomo, mihomo_rules_from_profile, detect_proxy_target, normalize_terminal_default,
  rules_entry, opt_list,
}
use kwik_proxy_secure.ClientConfig.Sanitize.{reject_tagged_yaml, validate_runtime_inputs}
use kwik_proxy_secure.Mihomo.Config.{
  Value, bool, number, string, sequence, mapping, Mapping, end, nil, get, has_key, string_value,
  mapping_value, as_mapping, unwrap_or,
}
use kwik_proxy_secure.Profile.{RoutingProfile, validate}
use kwik_proxy_secure.Yaml.{
  insert, remove_key, update, or_insert, strings, with_mapping, with_sequence,
}
use kwik_proxy_secure.Prelude.{
  ℕ, Text, codes, text_eq, len, Bool, true, false, not, ◌&&◌, ◌||◌, List, [], ◌∷◌, ◌++◌, map,
  Option, none, some, Result, ok, err, ◌>>=◌, ◌>>◌, ensure, if◌then◌else◌, leb, is_some,
}

abbrev pub is_lan : Text → Bool
is_lan listen = text_eq listen (codes "0.0.0.0")

abbrev set_auth : Option (Text × Text) → Mapping → Mapping
set_auth none root = remove_key (codes "authentication") root
set_auth (some (user, pass)) root =
    insert (codes "authentication") (strings ((user ++ b':' ∷ pass) ∷ [])) root

abbrev pub controller_of : FullYamlPatch → Text
controller_of patch = codes "127.0.0.1:" ++ decimal patch.external_controller_port

-- The inbound port, its exposure and its credentials, and the controller.
unfoldable pub set_inbound : FullYamlPatch → Mapping → Mapping
unfolding insert remove_key text_eq
set_inbound patch root =
    let r1 = insert (codes "mixed-port") (number patch.mixed_port) root in
    let r2 = remove_key (codes "socks-port") r1 in
    let r3 = remove_key (codes "port") r2 in
    let r4 = remove_key (codes "redir-port") r3 in
    let r5 = remove_key (codes "tproxy-port") r4 in
    let r6 = insert (codes "allow-lan") (bool (is_lan patch.listen)) r5 in
    let r7 = insert (codes "bind-address") (string patch.listen) r6 in
    let r8 = set_auth patch.socks_auth r7 in
    let r9 = insert (codes "external-controller") (string (controller_of patch)) r8 in
    insert (codes "secret") (string patch.external_controller_secret) r9

unfoldable pub set_log_level : Mapping → Mapping
unfolding get insert text_eq
set_log_level root =
    let level = unwrap_or [] (string_value root (codes "log-level")) in
    if text_eq level [] || text_eq level (codes "silent")
    then insert (codes "log-level") (string (codes "warning")) root
    else root

abbrev set_device : Option Text → Mapping → Mapping
set_device none tun = tun
set_device (some dev) tun = insert (codes "device") (string dev) tun

unfoldable pub enabled_tun : Option Text → Mapping → Mapping
unfolding insert or_insert
enabled_tun device tun =
    let t1 = insert (codes "enable") (bool true) tun in
    let t2 = insert (codes "auto-detect-interface") (bool true) t1 in
    let t3 = or_insert (codes "auto-route") (bool true) t2 in
    let t4 = or_insert (codes "strict-route") (bool true) t3 in set_device device t4

abbrev pub patched_tun : FullYamlPatch → Mapping → Mapping
patched_tun patch tun =
    if patch.use_builtin_tun
    then enabled_tun patch.tun_device tun
    else insert (codes "enable") (bool false) tun

unfoldable pub patch_tun : FullYamlPatch → Mapping → Mapping
unfolding get update enabled_tun insert builtin_tun_mapping
patch_tun patch root =
    if is_some (mapping_value root (codes "tun"))
    then update (codes "tun") (with_mapping (patched_tun patch)) root
    else if patch.use_builtin_tun
    then insert (codes "tun") (mapping (builtin_tun_mapping patch.tun_device)) root
    else root

abbrev pub set_process_mode : List AppRule → Mapping → Mapping
set_process_mode [] root = root
set_process_mode (r ∷ rs) root = insert (codes "find-process-mode") (string (codes "always")) root

abbrev pub app_rules_for : Text → List AppRule → List Text
app_rules_for target [] = []
app_rules_for target (r ∷ rs) = opt_list (app_rule_to_mihomo r target) ++ app_rules_for target rs

abbrev pub profile_rules_for : Libs → Text → Option RoutingProfile → List Text
profile_rules_for libs target none = []
profile_rules_for libs target (some p) = mihomo_rules_from_profile libs.codec.std p target

unfoldable pub prefix_rules : Libs → Text → FullYamlPatch → List Text
unfolding app_rule_to_mihomo mihomo_rules_from_profile
prefix_rules libs target patch =
    app_rules_for target patch.app_rules ++ profile_rules_for libs target patch.routing_profile

-- An edit of the `dns` section, which is made if there is none.
abbrev pub edit_dns : (Mapping → Mapping) → Mapping → Mapping
edit_dns change root =
    update (codes "dns") (with_mapping change) (or_insert (codes "dns") (mapping end) root)

abbrev pub with_doh : AntiDpiOptions → Mapping → Mapping
with_doh anti dns =
    let d1 = insert (codes "enable") (bool true) dns in
    let d2 = insert (codes "nameserver") (strings (anti.server_resolve_doh ∷ [])) d1 in
    if is_set anti.server_resolve_bootstrap
    then insert (codes "default-nameserver") (strings (anti.server_resolve_bootstrap ∷ [])) d2
    else d2

unfoldable pub patch_anti_dpi : Option AntiDpiOptions → Mapping → Mapping
unfolding update or_insert insert text_eq
patch_anti_dpi none root = root
patch_anti_dpi (some anti) root =
    if anti.server_resolve && is_set anti.server_resolve_doh
    then edit_dns (with_doh anti) root
    else root

abbrev pub patch_profile_dns : Option RoutingProfile → Mapping → Mapping
patch_profile_dns none root = root
patch_profile_dns (some p) root = merge_profile_dns p root

unfoldable pub prepend_rules : List Text → Mapping → Mapping
unfolding update or_insert
prepend_rules [] root = root
prepend_rules (r ∷ rs) root =
    update (codes "rules") (with_sequence (λ rules. map string (r ∷ rs) ++ rules))
      (rules_entry root)

unfoldable pub set_terminal : FullYamlPatch → Text → Mapping → Result Error Mapping
unfolding normalize_terminal_default
set_terminal patch target root = elim patch.default_traffic [
  | auto ↦ ok root
  | vpn ↦ normalize_terminal_default root vpn target
  | direct ↦ normalize_terminal_default root direct target
]

abbrev set_geodata : Option RoutingProfile → Mapping → Mapping
set_geodata none root = root
set_geodata (some p) root =
    or_insert (codes "geo-auto-update") (bool false)
      (or_insert (codes "geodata-mode") (bool true) root)

abbrev pub with_persistence : Mapping → Mapping
with_persistence profile =
    or_insert (codes "store-fake-ip") (bool true)
      (or_insert (codes "store-selected") (bool true) profile)

-- What is set only where the provider has not.
unfoldable pub set_defaults : FullYamlPatch → Mapping → Mapping
unfolding or_insert update
set_defaults patch root =
    let r1 = or_insert (codes "mode") (string (codes "rule")) root in
    let r2 = set_geodata patch.routing_profile r1 in
    let r3 = or_insert (codes "tcp-concurrent") (bool true) r2 in
    let r4 = or_insert (codes "unified-delay") (bool true) r3 in
    let r5 = or_insert (codes "global-client-fingerprint") (string (codes "chrome")) r4 in
    let r6 = or_insert (codes "sniffer") (mapping build_sniffer) r5 in
    let r7 = or_insert (codes "profile") (mapping end) r6 in
    update (codes "profile") (with_mapping with_persistence) r7

unfoldable pub patch_ipv6 : Bool → Mapping → Mapping
unfolding insert update or_insert
patch_ipv6 false root = root
patch_ipv6 true root =
    edit_dns (insert (codes "ipv6") (bool true)) (insert (codes "ipv6") (bool true) root)

abbrev pub with_servers : List Text → Mapping → Mapping
with_servers servers dns =
    insert (codes "nameserver") (strings servers) (insert (codes "enable") (bool true) dns)

abbrev patch_servers : Option (List Text) → Mapping → Mapping
patch_servers none root = root
patch_servers (some servers) root = edit_dns (with_servers servers) root

unfoldable pub patch_custom_dns : Option (List Text) → Mapping → Mapping
unfolding custom_servers update or_insert insert
patch_custom_dns custom_dns root = patch_servers (custom_servers custom_dns) root

-- Up to the edits of `rules`, and after them.
unfoldable pub before_rules : FullYamlPatch → Mapping → Mapping
unfolding set_inbound set_log_level patch_tun insert
before_rules patch root =
    set_process_mode patch.app_rules (patch_tun patch (set_log_level (set_inbound patch root)))

unfoldable pub after_rules : FullYamlPatch → Mapping → Mapping
unfolding set_defaults patch_ipv6 patch_custom_dns
after_rules patch root =
    patch_custom_dns patch.custom_dns (patch_ipv6 patch.ipv6 (set_defaults patch root))

module _ (libs : Libs) where
  abbrev pub check_profile : Option RoutingProfile → Result Error (Unit {0})
  check_profile none = ok tt
  check_profile (some p) = elim (validate libs.codec p) [
    | ok u ↦ ok tt
    | err e ↦ err (profile_error e)
  ]

  unfoldable pub with_prefix : FullYamlPatch → Text → Mapping → Mapping
  unfolding prefix_rules patch_anti_dpi merge_profile_dns prepend_rules
  with_prefix patch target root =
      prepend_rules (prefix_rules libs target patch)
        (patch_profile_dns patch.routing_profile (patch_anti_dpi patch.anti_dpi root))

  unfoldable pub patch_root : FullYamlPatch → Mapping → Result Error Mapping
  unfolding before_rules with_prefix set_terminal after_rules sanitize_full_profile
      detect_proxy_target
  patch_root patch raw = do
    sanitized ← sanitize_full_profile libs patch raw
    let root = before_rules patch sanitized
    let target = detect_proxy_target libs root
    ruled ← set_terminal patch target (with_prefix patch target root)
    ok (after_rules patch ruled)

  -- The document that `patch_full_yaml` writes.
  unfoldable pub patched_document : Text → FullYamlPatch → Result Error Mapping
  unfolding validate_runtime_inputs patch_root len validate
  patched_document raw_yaml patch = do
    ensure (leb (len raw_yaml) max_full_yaml_bytes) full_yaml_too_large
    check_profile patch.routing_profile
    validate_runtime_inputs libs patch.app_rules patch.anti_dpi patch.custom_dns
        patch.use_builtin_tun patch.tun_device
    value ← or_fail bad_yaml (libs.from_str raw_yaml)
    reject_tagged_yaml value
    raw ← or_fail root_not_mapping (as_mapping value)
    patch_root patch raw

  unfoldable pub patch_full_yaml : Text → FullYamlPatch → Result Error MihomoConfig
  unfolding patched_document len
  patch_full_yaml raw_yaml patch = do
    root ← patched_document raw_yaml patch
    yaml ← or_fail not_serialized (libs.to_string (mapping root))
    ensure (leb (len yaml) max_full_yaml_bytes) yaml_too_large
    ok (record { yaml = yaml; mixed_port = patch.mixed_port })
