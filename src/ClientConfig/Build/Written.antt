-- ===== src/ClientConfig/Build/Written.antt =====
-- src-tauri/src/config/mihomo_config.rs: the sections of the document that `build` writes.
use kwik_proxy_secure.ClientConfig.{Libs, FullYamlPatch, AppRule}
use kwik_proxy_secure.ClientConfig.Build.{
  Settings, add_auth, add_process_mode, add_inbound, add_behaviour, add_controller, put_tun,
  rules_of, select_group, proxy_name, built_root,
}
use kwik_proxy_secure.ClientConfig.Dns.{build_dns, build_sniffer}
use kwik_proxy_secure.ClientConfig.Patch.{is_lan, controller_of}
use kwik_proxy_secure.ClientConfig.Patch.Inbound.{IsInbound, IsTunnelled}
use kwik_proxy_secure.ClientConfig.Patch.Passing.{absent_keys, bool_eq_refl}
use kwik_proxy_secure.ClientConfig.Reduce.{builtin_tun_mapping}
use kwik_proxy_secure.Mihomo.Config.{
  Parsers, Value, bool, number, string, sequence, mapping, Mapping, end, get, has_key,
  forbidden_keys, is_local_bind, is_private_listen, validate_exposure, validate_provider_paths,
}
use kwik_proxy_secure.Prelude.{
  Text, codes, text_eq, Bool, true, false, ◌&&◌, ◌||◌, List, [], ◌∷◌, any, all-All, All-map, Option,
  none, some, ok, ◌≡◌, refl, ap, ◌∙◌, arith, both,
}
use kwik_proxy_secure.Yaml.{insert, strings, items}
use kwik_proxy_secure.Yaml.Laws.{get-insert, get-insert_other, is_none_of, apart}
use kwik_proxy_secure.ClientConfig.Build.Silent.{build_dns-listen}

abbrev pub behaviour_keys : List Text
behaviour_keys =
    codes "mode"
    ∷ codes "log-level"
    ∷ codes "ipv6"
    ∷ codes "geodata-mode"
    ∷ codes "geo-auto-update"
    ∷ codes "tcp-concurrent"
    ∷ codes "unified-delay"
    ∷ codes "global-client-fingerprint"
    ∷ codes "profile"
    ∷ codes "find-process-mode"
    ∷ []

abbrev pub outer_keys : List Text
outer_keys =
    codes "dns"
    ∷ codes "sniffer"
    ∷ codes "proxies"
    ∷ codes "proxy-groups"
    ∷ codes "rules"
    ∷ codes "tun"
    ∷ []

abbrev pub inner_keys : List Text
inner_keys =
    codes "mixed-port"
    ∷ codes "allow-lan"
    ∷ codes "bind-address"
    ∷ codes "authentication"
    ∷ codes "external-controller"
    ∷ codes "secret"
    ∷ []

add_process_mode-keeps :
    (j : Text) (rules : List AppRule) (root : Mapping)
    → text_eq (codes "find-process-mode") j ≡ false
    → get j (add_process_mode rules root) ≡ get j root
add_process_mode-keeps j [] root e = refl
add_process_mode-keeps j (r ∷ rs) root e = get-insert_other j _ _ root e

add_auth-keeps :
    (j : Text) (auth : Option (Text × Text)) (root : Mapping)
    → text_eq (codes "authentication") j ≡ false
    → get j (add_auth auth root) ≡ get j root
add_auth-keeps j none root e = refl
add_auth-keeps j (some (user, pass)) root e = get-insert_other j _ _ root e

put_tun-keeps :
    (j : Text) (on : Bool) (device : Option Text) (root : Mapping)
    → text_eq (codes "tun") j ≡ false
    → get j (put_tun on device root) ≡ get j root
put_tun-keeps j false device root e = refl
put_tun-keeps j true device root e = get-insert_other j _ _ root e

add_behaviour-keeps :
    (j : Text) (s : Settings) (root : Mapping)
    → is_none_of behaviour_keys j ≡ true
    → get j (add_behaviour s root) ≡ get j root
unfolding add_behaviour
add_behaviour-keeps j s root e =
    let (h0, (h1, (h2, (h3, (h4, (h5, (h6, (h7, (h8, (h9, h)))))))))) = apart behaviour_keys j e in
    add_process_mode-keeps j s.app_rules _ h9
    ∙ get-insert_other j _ _ _ h8
    ∙ get-insert_other j _ _ _ h7
    ∙ get-insert_other j _ _ _ h6
    ∙ get-insert_other j _ _ _ h5
    ∙ get-insert_other j _ _ _ h4
    ∙ get-insert_other j _ _ _ h3
    ∙ get-insert_other j _ _ _ h2
    ∙ get-insert_other j _ _ _ h1
    ∙ get-insert_other j _ _ root h0

module _ (libs : Libs) (s : Settings) (proxy : Mapping) where
  abbrev dns : Mapping
  dns = build_dns libs.codec.std s.anti_dpi s.routing_profile s.ipv6 s.custom_dns

  abbrev inner : Mapping
  inner = add_controller s (add_behaviour s (add_inbound s end))

  abbrev proxies : Value
  proxies = sequence (items (mapping (insert (codes "name") (string proxy_name) proxy) ∷ []))

  abbrev groups : Value
  groups = sequence (items (mapping select_group ∷ []))

  abbrev sniffed : Mapping
  sniffed =
      insert (codes "sniffer") (mapping build_sniffer) (insert (codes "dns") (mapping dns) inner)

  abbrev ruled : Mapping
  ruled =
      insert (codes "rules") (strings (rules_of libs s))
        (insert (codes "proxy-groups") groups (insert (codes "proxies") proxies sniffed))

  sniffed_keeps :
      (j : Text)
      → text_eq (codes "tun") j ≡ false
      → text_eq (codes "rules") j ≡ false
      → text_eq (codes "proxy-groups") j ≡ false
      → text_eq (codes "proxies") j ≡ false
      → get j (built_root libs s proxy) ≡ get j sniffed
  unfolding built_root
  sniffed_keeps j tun rules group proxy_key =
      put_tun-keeps j s.use_builtin_tun s.tun_device ruled tun
      ∙ get-insert_other j (codes "rules") (strings (rules_of libs s))
          (insert (codes "proxy-groups") groups (insert (codes "proxies") proxies sniffed)) rules
      ∙ get-insert_other j (codes "proxy-groups") groups (insert (codes "proxies") proxies sniffed)
          group
      ∙ get-insert_other j (codes "proxies") proxies sniffed proxy_key

  outer_keeps :
      (j : Text) → is_none_of outer_keys j ≡ true → get j (built_root libs s proxy) ≡ get j inner
  outer_keeps j e =
      let (h0, (h1, (h2, (h3, (h4, (h5, h)))))) = apart outer_keys j e in
      sniffed_keeps j h5 h4 h3 h2
      ∙ get-insert_other j (codes "sniffer") (mapping build_sniffer)
          (insert (codes "dns") (mapping dns) inner) h1
      ∙ get-insert_other j (codes "dns") (mapping dns) inner h0

  built-dns : get (codes "dns") (built_root libs s proxy) ≡ some (mapping dns)
  unfolding text_eq
  built-dns =
      sniffed_keeps (codes "dns") refl refl refl refl
      ∙ get-insert_other (codes "dns") (codes "sniffer") (mapping build_sniffer)
          (insert (codes "dns") (mapping dns) inner) refl
      ∙ get-insert (codes "dns") (mapping dns) inner

  -- The settings as the helper's side compares them.
  abbrev pub as_patch : FullYamlPatch
  as_patch = record {
    mixed_port = s.mixed_port;
    listen = s.listen;
    socks_auth = s.socks_auth;
    external_controller_port = s.external_controller_port;
    external_controller_secret = s.external_controller_secret;
    app_rules = s.app_rules;
    anti_dpi = s.anti_dpi;
    use_builtin_tun = s.use_builtin_tun;
    tun_device = s.tun_device;
    routing_profile = s.routing_profile;
    default_traffic = s.default_traffic;
    ipv6 = s.ipv6;
    custom_dns = s.custom_dns;
  }

  abbrev behaved : Mapping
  behaved = add_behaviour s (add_inbound s end)

  abbrev address : Value
  address = string (controller_of as_patch)

  abbrev secret_value : Value
  secret_value = string s.external_controller_secret

  controller_keeps :
      (j : Text)
      → text_eq (codes "external-controller") j ≡ false
      → text_eq (codes "secret") j ≡ false
      → get j inner ≡ get j behaved
  unfolding add_controller
  controller_keeps j controller secret =
      get-insert_other j (codes "secret") secret_value
        (insert (codes "external-controller") address behaved) secret
      ∙ get-insert_other j (codes "external-controller") address behaved controller

  abbrev ported : Mapping
  ported = insert (codes "mixed-port") (number s.mixed_port) end

  abbrev shared : Mapping
  shared = insert (codes "allow-lan") (bool (is_lan s.listen)) ported

  inbound_values :
      (get (codes "allow-lan") (add_inbound s end) ≡ some (bool (is_lan s.listen)))
      × (get (codes "bind-address") (add_inbound s end) ≡ some (string s.listen))
  unfolding add_inbound text_eq
  inbound_values =
      let bound = insert (codes "bind-address") (string s.listen) shared in
      (
        add_auth-keeps (codes "allow-lan") s.socks_auth bound refl
            ∙ get-insert_other (codes "allow-lan") (codes "bind-address") (string s.listen) shared
                refl
            ∙ get-insert (codes "allow-lan") (bool (is_lan s.listen)) ported,
        add_auth-keeps (codes "bind-address") s.socks_auth bound refl
            ∙ get-insert (codes "bind-address") (string s.listen) shared,
      )

  inbound_keeps :
      (j : Text)
      → text_eq (codes "mixed-port") j ≡ false
      → text_eq (codes "allow-lan") j ≡ false
      → text_eq (codes "bind-address") j ≡ false
      → text_eq (codes "authentication") j ≡ false
      → get j (add_inbound s end) ≡ none
  unfolding add_inbound get
  inbound_keeps j port lan bind auth =
      add_auth-keeps j s.socks_auth (insert (codes "bind-address") (string s.listen) shared) auth
      ∙ get-insert_other j (codes "bind-address") (string s.listen) shared bind
      ∙ get-insert_other j (codes "allow-lan") (bool (is_lan s.listen)) ported lan
      ∙ get-insert_other j (codes "mixed-port") (number s.mixed_port) end port

  pub built-IsInbound : IsInbound as_patch (built_root libs s proxy)
  unfolding add_controller text_eq
  built-IsInbound =
      let (lan, bind) = inbound_values in
      let to_inbound =
        λ (j : Text) (outer : is_none_of outer_keys j ≡ true)
            (controller : text_eq (codes "external-controller") j ≡ false)
            (secret : text_eq (codes "secret") j ≡ false)
            (behaviour : is_none_of behaviour_keys j ≡ true).
          outer_keeps j outer
          ∙ controller_keeps j controller secret
          ∙ add_behaviour-keeps j s (add_inbound s end) behaviour in
      record {
        controller =
            outer_keeps (codes "external-controller") refl
            ∙ get-insert_other (codes "external-controller") (codes "secret") secret_value
                (insert (codes "external-controller") address behaved) refl
            ∙ get-insert (codes "external-controller") address behaved;
        secret =
            outer_keeps (codes "secret") refl
            ∙ get-insert (codes "secret") secret_value
                (insert (codes "external-controller") address behaved);
        lan = to_inbound (codes "allow-lan") refl refl refl refl ∙ lan;
        bind = to_inbound (codes "bind-address") refl refl refl refl ∙ bind;
      }

  abbrev pub is_unwritten : Text → Bool
  is_unwritten j =
      is_none_of outer_keys j && (is_none_of inner_keys j && is_none_of behaviour_keys j)

  unwritten : (j : Text) → is_unwritten j ≡ true → get j (built_root libs s proxy) ≡ none
  unwritten j e =
      let (outer, e1) = both _ _ e in
      let (inside, behaviour) = both _ _ e1 in
      let (port, (lan, (bind, (auth, (controller, (secret, h)))))) = apart inner_keys j inside in
      outer_keeps j outer
      ∙ controller_keeps j controller secret
      ∙ add_behaviour-keeps j s (add_inbound s end) behaviour
      ∙ inbound_keeps j port lan bind auth

  pub built-no_forbidden : any (has_key (built_root libs s proxy)) forbidden_keys ≡ false
  unfolding text_eq
  built-no_forbidden =
      absent_keys (built_root libs s proxy) forbidden_keys
        (All-map _ _ forbidden_keys unwritten (all-All is_unwritten forbidden_keys refl))

  pub built-exposure :
      (ps : Parsers)
      → (is_lan s.listen || is_local_bind s.listen) ≡ true
      → validate_exposure ps (built_root libs s proxy) (is_lan s.listen) ≡ ok tt
  unfolding validate_exposure is_private_listen text_eq
  built-exposure ps bind =
      let lan = built-IsInbound.lan in
      let bound = built-IsInbound.bind in
      let section = built-dns in
      let private =
        build_dns-listen libs.codec.std s.anti_dpi s.routing_profile s.ipv6 s.custom_dns in
      let agrees = bool_eq_refl (is_lan s.listen) in ground arith

  pub built-IsTunnelled :
      (device : Text)
      → s.use_builtin_tun ≡ true
      → s.tun_device ≡ some device
      → IsTunnelled device (built_root libs s proxy)
  unfolding built_root builtin_tun_mapping get text_eq
  built-IsTunnelled device on named = record {
    tun = builtin_tun_mapping (some device);
    section =
        ap (λ (b : Bool). get (codes "tun") (put_tun b s.tun_device ruled)) on
        ∙ ap (λ (d : Option Text). get (codes "tun") (put_tun true d ruled)) named
        ∙ get-insert (codes "tun") (mapping (builtin_tun_mapping (some device))) ruled;
    enabled = refl;
    named = refl;
  }

  pub built-providers :
      (ps : Parsers) (section : Text)
      → is_unwritten section ≡ true
      → validate_provider_paths ps (built_root libs s proxy) section ≡ ok tt
  unfolding validate_provider_paths
  built-providers ps section e = let absent = unwritten section e in ground arith
