-- ===== src/ClientConfig/Patch/Kept.antt =====
-- src-tauri/src/config/mihomo_config.rs: which sections each stage of `patch_full_yaml` leaves alone.
use kwik_proxy_secure.ClientConfig.{
  Libs, FullYamlPatch, AntiDpiOptions, AppRule, DefaultTraffic, auto, vpn, direct, explicit_target,
  or_fail,
}
use kwik_proxy_secure.ClientConfig.Dns.{merge_profile_dns, build_sniffer, custom_servers}
use kwik_proxy_secure.ClientConfig.Patch.{
  builtin_tun_mapping, set_inbound, set_auth, set_log_level, patch_tun, patched_tun,
  set_process_mode, before_rules, prefix_rules, edit_dns, with_doh, patch_anti_dpi,
  patch_profile_dns, prepend_rules, with_prefix, set_terminal, set_geodata, set_defaults,
  patch_ipv6, patch_servers, patch_custom_dns, after_rules, with_persistence,
}
use kwik_proxy_secure.ClientConfig.Rules.{normalize_terminal_default, rules_entry, with_terminal}
use kwik_proxy_secure.Mihomo.Config.{Value, bool, string, mapping, Mapping, end, get, and_then}
use kwik_proxy_secure.Profile.{RoutingProfile}
use kwik_proxy_secure.Prelude.{
  >>=-eq-ok, Text, codes, text_eq, Bool, true, false, List, [], ◌∷◌, Option, none, some, ok, ◌≡◌,
  refl, ◌∙◌, arith,
}
use kwik_proxy_secure.Yaml.{insert, update, or_insert, as_sequence, with_mapping, with_sequence}
use kwik_proxy_secure.Yaml.Laws.{
  get-insert_other, get-remove_key_other, get-update_other, get-or_insert_other, is_none_of, apart,
}

abbrev pub inbound_keys : List Text
inbound_keys =
    codes "mixed-port"
    ∷ codes "socks-port"
    ∷ codes "port"
    ∷ codes "redir-port"
    ∷ codes "tproxy-port"
    ∷ codes "allow-lan"
    ∷ codes "bind-address"
    ∷ codes "authentication"
    ∷ codes "external-controller"
    ∷ codes "secret"
    ∷ []

abbrev pub default_keys : List Text
default_keys =
    codes "mode"
    ∷ codes "geodata-mode"
    ∷ codes "geo-auto-update"
    ∷ codes "tcp-concurrent"
    ∷ codes "unified-delay"
    ∷ codes "global-client-fingerprint"
    ∷ codes "sniffer"
    ∷ codes "profile"
    ∷ []

pub set_auth-keeps :
    (j : Text) (auth : Option (Text × Text)) (root : Mapping)
    → text_eq (codes "authentication") j ≡ false
    → get j (set_auth auth root) ≡ get j root
set_auth-keeps j none root e = get-remove_key_other j _ root e
set_auth-keeps j (some (user, pass)) root e = get-insert_other j _ _ root e

module _ (j : Text) where
  pub set_inbound-keeps :
      (patch : FullYamlPatch) (root : Mapping)
      → is_none_of inbound_keys j ≡ true
      → get j (set_inbound patch root) ≡ get j root
  unfolding set_inbound
  set_inbound-keeps patch root e =
      let (h0, (h1, (h2, (h3, (h4, (h5, (h6, (h7, (h8, (h9, h)))))))))) = apart inbound_keys j e in
      get-insert_other j _ _ _ h9
      ∙ get-insert_other j _ _ _ h8
      ∙ set_auth-keeps j patch.socks_auth _ h7
      ∙ get-insert_other j _ _ _ h6
      ∙ get-insert_other j _ _ _ h5
      ∙ get-remove_key_other j _ _ h4
      ∙ get-remove_key_other j _ _ h3
      ∙ get-remove_key_other j _ _ h2
      ∙ get-remove_key_other j _ _ h1
      ∙ get-insert_other j _ _ root h0

  pub set_log_level-keeps :
      (root : Mapping)
      → text_eq (codes "log-level") j ≡ false
      → get j (set_log_level root) ≡ get j root
  unfolding set_log_level
  set_log_level-keeps root e =
      ground (arith, get-insert_other j (codes "log-level") (string (codes "warning")) root e)

  pub patch_tun-keeps :
      (patch : FullYamlPatch) (root : Mapping)
      → text_eq (codes "tun") j ≡ false
      → get j (patch_tun patch root) ≡ get j root
  unfolding patch_tun
  patch_tun-keeps patch root e =
      let edited = get-update_other j (codes "tun") (with_mapping (patched_tun patch)) root e in
      let made =
        get-insert_other j (codes "tun") (mapping (builtin_tun_mapping patch.tun_device)) root e in
      ground (arith, edited, made)

  pub set_process_mode-keeps :
      (rules : List AppRule) (root : Mapping)
      → text_eq (codes "find-process-mode") j ≡ false
      → get j (set_process_mode rules root) ≡ get j root
  set_process_mode-keeps [] root e = refl
  set_process_mode-keeps (r ∷ rs) root e = get-insert_other j _ _ root e

  edit_dns-keeps :
      (change : Mapping → Mapping) (root : Mapping)
      → text_eq (codes "dns") j ≡ false
      → get j (edit_dns change root) ≡ get j root
  edit_dns-keeps change root e =
      get-update_other j _ _ (or_insert (codes "dns") (mapping end) root) e
      ∙ get-or_insert_other j _ _ root e

  pub patch_anti_dpi-keeps :
      (anti : Option AntiDpiOptions) (root : Mapping)
      → text_eq (codes "dns") j ≡ false
      → get j (patch_anti_dpi anti root) ≡ get j root
  unfolding patch_anti_dpi
  patch_anti_dpi-keeps none root e = refl
  patch_anti_dpi-keeps (some anti) root e = ground (arith, edit_dns-keeps (with_doh anti) root e)

  pub patch_profile_dns-keeps :
      (profile : Option RoutingProfile) (root : Mapping)
      → text_eq (codes "dns") j ≡ false
      → get j (patch_profile_dns profile root) ≡ get j root
  unfolding merge_profile_dns
  patch_profile_dns-keeps none root e = refl
  patch_profile_dns-keeps (some p) root e = get-update_other j _ _ root e

  rules_entry-keeps :
      (change : Value → Value) (root : Mapping)
      → text_eq (codes "rules") j ≡ false
      → get j (update (codes "rules") change (rules_entry root)) ≡ get j root
  rules_entry-keeps change root e =
      get-update_other j _ _ (rules_entry root) e ∙ get-or_insert_other j _ _ root e

  pub prepend_rules-keeps :
      (rules : List Text) (root : Mapping)
      → text_eq (codes "rules") j ≡ false
      → get j (prepend_rules rules root) ≡ get j root
  unfolding prepend_rules
  prepend_rules-keeps [] root e = refl
  prepend_rules-keeps (r ∷ rs) root e = rules_entry-keeps _ root e

  normalized-keeps :
      (root root' : Mapping) (traffic : DefaultTraffic) (target : Text)
      → normalize_terminal_default root traffic target ≡ ok root'
      → text_eq (codes "rules") j ≡ false
      → get j root' ≡ get j root
  unfolding normalize_terminal_default
  normalized-keeps root root' traffic target h e =
      let (rules, read, h1) =
        >>=-eq-ok (or_fail _ (and_then as_sequence (get (codes "rules") (rules_entry root)))) _ h in
      let (t, chosen, h2) = >>=-eq-ok (or_fail _ (explicit_target traffic target)) _ h1 in
      ground (arith, rules_entry-keeps (with_sequence (with_terminal t)) root e)

  pub set_terminal-keeps :
      (patch : FullYamlPatch) (target : Text) (root root' : Mapping)
      → set_terminal patch target root ≡ ok root'
      → text_eq (codes "rules") j ≡ false
      → get j root' ≡ get j root
  unfolding set_terminal
  set_terminal-keeps patch target root root' h e = by_traffic patch.default_traffic h
    where
      by_traffic :
          (traffic : DefaultTraffic)
          → (elim traffic [
            | auto ↦ ok root
            | vpn ↦ normalize_terminal_default root vpn target
            | direct ↦ normalize_terminal_default root direct target
          ])
            ≡ ok root'
          → get j root' ≡ get j root
      by_traffic auto h = ground arith
      by_traffic vpn h = normalized-keeps root root' vpn target h e
      by_traffic direct h = normalized-keeps root root' direct target h e

  set_geodata-keeps :
      (profile : Option RoutingProfile) (root : Mapping)
      → text_eq (codes "geodata-mode") j ≡ false
      → text_eq (codes "geo-auto-update") j ≡ false
      → get j (set_geodata profile root) ≡ get j root
  set_geodata-keeps none root e e' = refl
  set_geodata-keeps (some p) root e e' =
      get-or_insert_other j _ _ (or_insert (codes "geodata-mode") (bool true) root) e'
      ∙ get-or_insert_other j _ _ root e

  pub set_defaults-keeps :
      (patch : FullYamlPatch) (root : Mapping)
      → is_none_of default_keys j ≡ true
      → get j (set_defaults patch root) ≡ get j root
  unfolding set_defaults
  set_defaults-keeps patch root e =
      let (h0, (h1, (h2, (h3, (h4, (h5, (h6, (h7, h)))))))) = apart default_keys j e in
      let r1 = or_insert (codes "mode") (string (codes "rule")) root in
      let r2 = set_geodata patch.routing_profile r1 in
      let r3 = or_insert (codes "tcp-concurrent") (bool true) r2 in
      let r4 = or_insert (codes "unified-delay") (bool true) r3 in
      let r5 = or_insert (codes "global-client-fingerprint") (string (codes "chrome")) r4 in
      let r6 = or_insert (codes "sniffer") (mapping build_sniffer) r5 in
      let r7 = or_insert (codes "profile") (mapping end) r6 in
      get-update_other j (codes "profile") (with_mapping with_persistence) r7 h7
      ∙ get-or_insert_other j (codes "profile") (mapping end) r6 h7
      ∙ get-or_insert_other j (codes "sniffer") (mapping build_sniffer) r5 h6
      ∙ get-or_insert_other j (codes "global-client-fingerprint") (string (codes "chrome")) r4 h5
      ∙ get-or_insert_other j (codes "unified-delay") (bool true) r3 h4
      ∙ get-or_insert_other j (codes "tcp-concurrent") (bool true) r2 h3
      ∙ set_geodata-keeps patch.routing_profile r1 h1 h2
      ∙ get-or_insert_other j (codes "mode") (string (codes "rule")) root h0

  patch_ipv6-keeps :
      (ipv6 : Bool) (root : Mapping)
      → text_eq (codes "ipv6") j ≡ false
      → text_eq (codes "dns") j ≡ false
      → get j (patch_ipv6 ipv6 root) ≡ get j root
  unfolding patch_ipv6
  patch_ipv6-keeps false root e e' = refl
  patch_ipv6-keeps true root e e' =
      edit_dns-keeps _ (insert (codes "ipv6") (bool true) root) e' ∙ get-insert_other j _ _ root e

  patch_servers-keeps :
      (servers : Option (List Text)) (root : Mapping)
      → text_eq (codes "dns") j ≡ false
      → get j (patch_servers servers root) ≡ get j root
  patch_servers-keeps none root e = refl
  patch_servers-keeps (some servers) root e = edit_dns-keeps _ root e

  pub patch_custom_dns-keeps :
      (servers : Option (List Text)) (root : Mapping)
      → text_eq (codes "dns") j ≡ false
      → get j (patch_custom_dns servers root) ≡ get j root
  unfolding patch_custom_dns
  patch_custom_dns-keeps servers root e = patch_servers-keeps (custom_servers servers) root e

  pub with_prefix-keeps :
      (libs : Libs) (patch : FullYamlPatch) (target : Text) (root : Mapping)
      → text_eq (codes "dns") j ≡ false
      → text_eq (codes "rules") j ≡ false
      → get j (with_prefix libs patch target root) ≡ get j root
  unfolding with_prefix
  with_prefix-keeps libs patch target root e e' =
      let dns = patch_anti_dpi patch.anti_dpi root in
      prepend_rules-keeps (prefix_rules libs target patch)
        (patch_profile_dns patch.routing_profile dns) e'
      ∙ patch_profile_dns-keeps patch.routing_profile dns e
      ∙ patch_anti_dpi-keeps patch.anti_dpi root e

  -- The sections that the last stage may write.
  pub after_rules-keeps :
      (patch : FullYamlPatch) (root : Mapping)
      → is_none_of (codes "ipv6" ∷ codes "dns" ∷ default_keys) j ≡ true
      → get j (after_rules patch root) ≡ get j root
  unfolding after_rules
  after_rules-keeps patch root e =
      let (ipv6, (dns, others)) = apart (codes "ipv6" ∷ codes "dns" ∷ default_keys) j e in
      patch_custom_dns-keeps patch.custom_dns _ dns
      ∙ patch_ipv6-keeps patch.ipv6 (set_defaults patch root) ipv6 dns
      ∙ set_defaults-keeps patch root (ground arith)

  -- What follows `before_rules`.
  pub finished-keeps :
      (libs : Libs) (patch : FullYamlPatch) (target : Text) (root ruled : Mapping)
      → set_terminal patch target (with_prefix libs patch target root) ≡ ok ruled
      → is_none_of (codes "rules" ∷ codes "ipv6" ∷ codes "dns" ∷ default_keys) j ≡ true
      → get j (after_rules patch ruled) ≡ get j root
  finished-keeps libs patch target root ruled h e =
      let (rules, (ipv6, (dns, others))) =
        apart (codes "rules" ∷ codes "ipv6" ∷ codes "dns" ∷ default_keys) j e in
      after_rules-keeps patch ruled (ground arith)
      ∙ set_terminal-keeps patch target (with_prefix libs patch target root) ruled h rules
      ∙ with_prefix-keeps libs patch target root dns rules

  pub before_rules-keeps :
      (patch : FullYamlPatch) (root : Mapping)
      → is_none_of (codes "log-level" ∷ codes "tun" ∷ codes "find-process-mode" ∷ inbound_keys) j
        ≡ true
      → get j (before_rules patch root) ≡ get j root
  unfolding before_rules
  before_rules-keeps patch root e =
      let (level, (tun, (mode, others))) =
        apart (codes "log-level" ∷ codes "tun" ∷ codes "find-process-mode" ∷ inbound_keys) j e in
      set_process_mode-keeps patch.app_rules _ mode
      ∙ patch_tun-keeps patch (set_log_level (set_inbound patch root)) tun
      ∙ set_log_level-keeps (set_inbound patch root) level
      ∙ set_inbound-keeps patch root (ground arith)
