-- ===== src/ClientConfig/Patch/Inbound.antt =====
-- src-tauri/src/config/mihomo_config.rs: what `patch_full_yaml` writes for the controller, the inbound port
-- and the TUN device, whatever the provider wrote.
use kwik_proxy_secure.ClientConfig.{Libs, FullYamlPatch}
use kwik_proxy_secure.ClientConfig.Patch.{
  set_inbound, set_auth, set_log_level, patch_tun, patched_tun, enabled_tun, before_rules,
  with_prefix, set_terminal, after_rules, controller_of, is_lan,
}
use kwik_proxy_secure.ClientConfig.Patch.Kept.{
  set_auth-keeps, set_inbound-keeps, set_log_level-keeps, patch_tun-keeps, set_process_mode-keeps,
  finished-keeps,
}
use kwik_proxy_secure.Mihomo.Config.{bool, number, string, mapping, Mapping, get}
use kwik_proxy_secure.Prelude.{
  Text, codes, text_eq, true, false, some, ok, ◌≡◌, refl, ap, ◌∙◌, arith,
}
use kwik_proxy_secure.Yaml.{insert, remove_key, or_insert, with_mapping}
use kwik_proxy_secure.Yaml.Laws.{get-insert, get-insert_other, get-or_insert_other, get-update}

abbrev one_port : FullYamlPatch → Mapping → Mapping
one_port patch root = remove_key (codes "tproxy-port") (
    remove_key (codes "redir-port") (
      remove_key (codes "port") (
        remove_key (codes "socks-port")
          (insert (codes "mixed-port") (number patch.mixed_port) root))))

abbrev exposed : FullYamlPatch → Mapping → Mapping
exposed patch root = insert (codes "allow-lan") (bool (is_lan patch.listen)) (one_port patch root)

abbrev bound : FullYamlPatch → Mapping → Mapping
bound patch root = insert (codes "bind-address") (string patch.listen) (exposed patch root)

abbrev controlled : FullYamlPatch → Mapping → Mapping
controlled patch root =
    insert (codes "external-controller") (string (controller_of patch))
      (set_auth patch.socks_auth (bound patch root))

-- The four values that the helper compares with the request.
pub record IsInbound (patch : FullYamlPatch) (root : Mapping) : Type 0 where
  pub controller : get (codes "external-controller") root ≡ some (string (controller_of patch))
  pub secret : get (codes "secret") root ≡ some (string patch.external_controller_secret)
  pub lan : get (codes "allow-lan") root ≡ some (bool (is_lan patch.listen))
  pub bind : get (codes "bind-address") root ≡ some (string patch.listen)

set_inbound-IsInbound :
    (patch : FullYamlPatch) (root : Mapping) → IsInbound patch (set_inbound patch root)
unfolding set_inbound text_eq
set_inbound-IsInbound patch root =
    let secret = string patch.external_controller_secret in
    let address = string (controller_of patch) in
    let authed = set_auth patch.socks_auth (bound patch root) in
    let last = λ (j : Text) (e : text_eq (codes "secret") j ≡ false).
      get-insert_other j (codes "secret") secret (controlled patch root) e in
    let before = λ (j : Text) (e : text_eq (codes "external-controller") j ≡ false).
      get-insert_other j (codes "external-controller") address authed e in
    record {
      controller =
          last (codes "external-controller") refl
          ∙ get-insert (codes "external-controller") address authed;
      secret = get-insert (codes "secret") secret (controlled patch root);
      lan =
          last (codes "allow-lan") refl
          ∙ before (codes "allow-lan") refl
          ∙ set_auth-keeps (codes "allow-lan") patch.socks_auth (bound patch root) refl
          ∙ get-insert_other (codes "allow-lan") (codes "bind-address") (string patch.listen)
              (exposed patch root) refl
          ∙ get-insert (codes "allow-lan") (bool (is_lan patch.listen)) (one_port patch root);
      bind =
          last (codes "bind-address") refl
          ∙ before (codes "bind-address") refl
          ∙ set_auth-keeps (codes "bind-address") patch.socks_auth (bound patch root) refl
          ∙ get-insert (codes "bind-address") (string patch.listen) (exposed patch root);
    }

transported :
    {patch : FullYamlPatch} (root root' : Mapping)
    → (get (codes "external-controller") root' ≡ get (codes "external-controller") root)
    → (get (codes "secret") root' ≡ get (codes "secret") root)
    → (get (codes "allow-lan") root' ≡ get (codes "allow-lan") root)
    → (get (codes "bind-address") root' ≡ get (codes "bind-address") root)
    → IsInbound patch root
    → IsInbound patch root'
transported root root' controller secret lan bind is = record {
  controller = controller ∙ is.controller;
  secret = secret ∙ is.secret;
  lan = lan ∙ is.lan;
  bind = bind ∙ is.bind;
}

-- The stages up to the rules set the four values.
pub before_rules-IsInbound :
    (patch : FullYamlPatch) (root : Mapping) → IsInbound patch (before_rules patch root)
unfolding before_rules text_eq
before_rules-IsInbound patch root =
    let r1 = set_inbound patch root in
    let r2 = set_log_level r1 in
    let r3 = patch_tun patch r2 in
    let keeps =
      λ (j : Text) (level : text_eq (codes "log-level") j ≡ false)
          (tun : text_eq (codes "tun") j ≡ false)
          (mode : text_eq (codes "find-process-mode") j ≡ false).
        set_process_mode-keeps j patch.app_rules r3 mode
        ∙ patch_tun-keeps j patch r2 tun
        ∙ set_log_level-keeps j r1 level in
    transported r1 (before_rules patch root) (keeps (codes "external-controller") refl refl refl)
      (keeps (codes "secret") refl refl refl) (keeps (codes "allow-lan") refl refl refl)
      (keeps (codes "bind-address") refl refl refl) (set_inbound-IsInbound patch root)

-- And the stages after it keep them.
pub finished-IsInbound :
    (libs : Libs) (patch : FullYamlPatch) (target : Text) (root ruled : Mapping)
    → set_terminal patch target (with_prefix libs patch target root) ≡ ok ruled
    → IsInbound patch root
    → IsInbound patch (after_rules patch ruled)
unfolding text_eq
finished-IsInbound libs patch target root ruled h =
    transported root (after_rules patch ruled)
      (finished-keeps (codes "external-controller") libs patch target root ruled h refl)
      (finished-keeps (codes "secret") libs patch target root ruled h refl)
      (finished-keeps (codes "allow-lan") libs patch target root ruled h refl)
      (finished-keeps (codes "bind-address") libs patch target root ruled h refl)

-- The TUN section: on, and with the device of the application.
pub record IsTunnelled (device : Text) (root : Mapping) : Type 0 where
  pub tun : Mapping
  pub section : get (codes "tun") root ≡ some (mapping tun)
  pub enabled : get (codes "enable") tun ≡ some (bool true)
  pub named : get (codes "device") tun ≡ some (string device)

enabled_tun-values :
    (device : Text) (tun : Mapping)
    → (get (codes "enable") (enabled_tun (some device) tun) ≡ some (bool true))
      × (get (codes "device") (enabled_tun (some device) tun) ≡ some (string device))
unfolding enabled_tun text_eq
enabled_tun-values device tun =
    let t1 = insert (codes "enable") (bool true) tun in
    let t2 = insert (codes "auto-detect-interface") (bool true) t1 in
    let t3 = or_insert (codes "auto-route") (bool true) t2 in
    let t4 = or_insert (codes "strict-route") (bool true) t3 in
    let enable = codes "enable" in
    (
      get-insert_other enable (codes "device") (string device) t4 refl
          ∙ get-or_insert_other enable (codes "strict-route") (bool true) t3 refl
          ∙ get-or_insert_other enable (codes "auto-route") (bool true) t2 refl
          ∙ get-insert_other enable (codes "auto-detect-interface") (bool true) t1 refl
          ∙ get-insert enable (bool true) tun,
      get-insert (codes "device") (string device) t4,
    )

pub patch_tun-IsTunnelled :
    (patch : FullYamlPatch) (device : Text) (root tun : Mapping)
    → patch.use_builtin_tun ≡ true
    → patch.tun_device ≡ some device
    → get (codes "tun") root ≡ some (mapping tun)
    → IsTunnelled device (patch_tun patch root)
unfolding patch_tun
patch_tun-IsTunnelled patch device root tun on named there =
    let (enabled, names) = enabled_tun-values device tun in
    let same : patched_tun patch tun ≡ enabled_tun (some device) tun =
      ground (arith, ap (λ d. enabled_tun d tun) named) in
    record {
      tun = enabled_tun (some device) tun;
      section =
          ground
            (arith, there, same, get-update (codes "tun") (with_mapping (patched_tun patch)) root);
      enabled = enabled;
      named = names;
    }

pub same_tun-IsTunnelled :
    (device : Text) (root root' : Mapping)
    → get (codes "tun") root' ≡ get (codes "tun") root
    → IsTunnelled device root
    → IsTunnelled device root'
same_tun-IsTunnelled device root root' same is = record {
  tun = is.tun;
  section = same ∙ is.section;
  enabled = is.enabled;
  named = is.named;
}

-- A document with a TUN section leaves the stages with the application's device.
pub finished-IsTunnelled :
    (libs : Libs) (patch : FullYamlPatch) (target device : Text) (root ruled tun : Mapping)
    → patch.use_builtin_tun ≡ true
    → patch.tun_device ≡ some device
    → get (codes "tun") root ≡ some (mapping tun)
    → set_terminal patch target (with_prefix libs patch target (before_rules patch root)) ≡ ok ruled
    → IsTunnelled device (after_rules patch ruled)
unfolding before_rules text_eq
finished-IsTunnelled libs patch target device root ruled tun on named there h =
    let r2 = set_log_level (set_inbound patch root) in
    let r3 = patch_tun patch r2 in
    let tun_key = codes "tun" in
    let still =
      set_log_level-keeps tun_key (set_inbound patch root) refl
      ∙ set_inbound-keeps tun_key patch root refl
      ∙ there in
    same_tun-IsTunnelled device (before_rules patch root) (after_rules patch ruled)
      (finished-keeps tun_key libs patch target (before_rules patch root) ruled h refl)
      (same_tun-IsTunnelled device r3 (before_rules patch root)
        (set_process_mode-keeps tun_key patch.app_rules r3 refl)
        (patch_tun-IsTunnelled patch device r2 tun on named still))
