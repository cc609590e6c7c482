-- ===== src/ClientConfig/Build.antt =====
-- src-tauri/src/config/mihomo_config.rs: `build`, which writes the configuration for one server. What
-- `proxy_for_entry` makes of the server's entry is an argument.
pub mod Silent
pub mod Written
pub mod Launched
use kwik_proxy_secure.ClientConfig.{
  Error, Libs, AntiDpiOptions, AppRule, MihomoConfig, DefaultTraffic, auto, vpn, direct, or_fail,
  bad_proxy, not_serialized, yaml_too_large, max_full_yaml_bytes, decimal,
}
use kwik_proxy_secure.ClientConfig.Dns.{build_dns, build_sniffer}
use kwik_proxy_secure.ClientConfig.Patch.{check_profile, is_lan}
use kwik_proxy_secure.ClientConfig.Reduce.{builtin_tun_mapping, persisted}
use kwik_proxy_secure.ClientConfig.Rules.{
  app_rule_to_mihomo, mihomo_rules_from_profile, local_direct_rules, opt_list,
}
use kwik_proxy_secure.ClientConfig.Sanitize.{validate_runtime_inputs}
use kwik_proxy_secure.Mihomo.Config.{bool, number, string, sequence, mapping, Mapping, end}
use kwik_proxy_secure.Profile.{RoutingProfile}
use kwik_proxy_secure.Yaml.{insert, strings, items}
use kwik_proxy_secure.Prelude.{
  ℕ, Text, codes, text_eq, len, Bool, true, false, List, [], ◌∷◌, ◌++◌, Option, none, some, Result,
  ok, ◌>>=◌, ◌>>◌, ensure, if◌then◌else◌, leb,
}

-- The arguments of `build`, but for the entry.
pub record Settings : Type 0 where
  pub mixed_port : ℕ
  pub listen : Text
  pub anti_dpi : Option AntiDpiOptions
  pub socks_auth : Option (Text × Text)
  pub app_rules : List AppRule
  pub routing_profile : Option RoutingProfile
  pub default_traffic : DefaultTraffic
  pub use_builtin_tun : Bool
  pub tun_device : Option Text
  pub ipv6 : Bool
  pub custom_dns : Option (List Text)
  pub external_controller_port : ℕ
  pub external_controller_secret : Text

abbrev add_auth : Option (Text × Text) → Mapping → Mapping
add_auth none root = root
add_auth (some (user, pass)) root =
    insert (codes "authentication") (strings ((user ++ b':' ∷ pass) ∷ [])) root

abbrev add_process_mode : List AppRule → Mapping → Mapping
add_process_mode [] root = root
add_process_mode (r ∷ rs) root = insert (codes "find-process-mode") (string (codes "always")) root

unfoldable pub add_inbound : Settings → Mapping → Mapping
unfolding insert text_eq
add_inbound s root =
    let r1 = insert (codes "mixed-port") (number s.mixed_port) root in
    let r2 = insert (codes "allow-lan") (bool (is_lan s.listen)) r1 in
    let r3 = insert (codes "bind-address") (string s.listen) r2 in add_auth s.socks_auth r3

unfoldable pub add_behaviour : Settings → Mapping → Mapping
unfolding insert
add_behaviour s root =
    let r1 = insert (codes "mode") (string (codes "rule")) root in
    let r2 = insert (codes "log-level") (string (codes "info")) r1 in
    let r3 = insert (codes "ipv6") (bool s.ipv6) r2 in
    let r4 = insert (codes "geodata-mode") (bool true) r3 in
    let r5 = insert (codes "geo-auto-update") (bool false) r4 in
    let r6 = insert (codes "tcp-concurrent") (bool true) r5 in
    let r7 = insert (codes "unified-delay") (bool true) r6 in
    let r8 = insert (codes "global-client-fingerprint") (string (codes "chrome")) r7 in
    let r9 = insert (codes "profile") (mapping persisted) r8 in add_process_mode s.app_rules r9

unfoldable pub add_controller : Settings → Mapping → Mapping
unfolding insert
add_controller s root =
    let address = codes "127.0.0.1:" ++ decimal s.external_controller_port in
    let r1 = insert (codes "external-controller") (string address) root in
    insert (codes "secret") (string s.external_controller_secret) r1

abbrev proxy_name : Text
proxy_name = codes "VPN-NODE"

unfoldable pub select_group : Mapping
unfolding insert
select_group =
    let g1 = insert (codes "name") (string (codes "PROXY")) end in
    let g2 = insert (codes "type") (string (codes "select")) g1 in
    insert (codes "proxies") (strings (proxy_name ∷ [])) g2

-- Where traffic goes that no rule matches.
unfoldable pub default_action : DefaultTraffic → Option RoutingProfile → Text
default_action auto none = codes "PROXY"
default_action auto (some profile) = if profile.global_proxy then codes "PROXY" else codes "DIRECT"
default_action vpn profile = codes "PROXY"
default_action direct profile = codes "DIRECT"

abbrev app_rules_of : List AppRule → List Text
app_rules_of [] = []
app_rules_of (r ∷ rs) = opt_list (app_rule_to_mihomo r (codes "PROXY")) ++ app_rules_of rs

abbrev profile_rules_of : Libs → Option RoutingProfile → List Text
profile_rules_of libs none = []
profile_rules_of libs (some p) = mihomo_rules_from_profile libs.codec.std p (codes "PROXY")

unfoldable pub rules_of : Libs → Settings → List Text
unfolding app_rule_to_mihomo mihomo_rules_from_profile default_action
rules_of libs s =
    app_rules_of s.app_rules
    ++ profile_rules_of libs s.routing_profile
    ++ local_direct_rules
    ++ (codes "MATCH," ++ default_action s.default_traffic s.routing_profile) ∷ []

abbrev put_tun : Bool → Option Text → Mapping → Mapping
put_tun false device root = root
put_tun true device root = insert (codes "tun") (mapping (builtin_tun_mapping device)) root

module _ (libs : Libs) where
  -- The mapping that is written, with the server's `proxy`.
  unfoldable pub built_root : Settings → Mapping → Mapping
  unfolding insert add_inbound add_behaviour add_controller select_group rules_of build_dns
      builtin_tun_mapping
  built_root s proxy =
      let named = insert (codes "name") (string proxy_name) proxy in
      let r1 = add_controller s (add_behaviour s (add_inbound s end)) in
      let dns = build_dns libs.codec.std s.anti_dpi s.routing_profile s.ipv6 s.custom_dns in
      let r2 = insert (codes "dns") (mapping dns) r1 in
      let r3 = insert (codes "sniffer") (mapping build_sniffer) r2 in
      let r4 = insert (codes "proxies") (sequence (items (mapping named ∷ []))) r3 in
      let r5 = insert (codes "proxy-groups") (sequence (items (mapping select_group ∷ []))) r4 in
      let r6 = insert (codes "rules") (strings (rules_of libs s)) r5 in
      put_tun s.use_builtin_tun s.tun_device r6

  unfoldable pub build : Option Mapping → Settings → Result Error MihomoConfig
  unfolding validate_runtime_inputs built_root len
  build entry s = do
    validate_runtime_inputs libs s.app_rules s.anti_dpi s.custom_dns s.use_builtin_tun s.tun_device
    check_profile libs s.routing_profile
    proxy ← or_fail bad_proxy entry
    yaml ← or_fail not_serialized (libs.to_string (mapping (built_root s proxy)))
    ensure (leb (len yaml) max_full_yaml_bytes) yaml_too_large
    ok (record { yaml = yaml; mixed_port = s.mixed_port })
