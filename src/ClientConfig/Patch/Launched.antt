-- ===== src/ClientConfig/Patch/Launched.antt =====
-- src-tauri/src/config/mihomo_config.rs and src-tauri/src/bin/kwik_helper/mihomo.rs: the application and the
-- helper agree on what is launched.
use mathlib.Core.Path.{subst}
use kwik_proxy_secure.ClientConfig.{
  unsafe_anti_dpi, bad_app_rule, too_many_app_rules, root_not_mapping, bad_device, AntiDpiOptions,
  bad_yaml, AppRule, Libs, FullYamlPatch, MihomoConfig, or_fail, max_full_yaml_bytes,
  full_yaml_too_large,
}
use kwik_proxy_secure.ClientConfig.Patch.{
  app_rule_to_mihomo, patch_full_yaml, patched_document, patch_root, controller_of, is_lan,
  check_profile,
}
use kwik_proxy_secure.ClientConfig.Patch.Providers.{HasPlainUrl}
use kwik_proxy_secure.ClientConfig.Sanitize.{
  is_safe_resolver, cache_path, is_owned_device, validate_runtime_inputs, check_device, check_dns,
  reject_tagged_yaml,
}
use kwik_proxy_secure.Mihomo.Accepted.{InSection}
use kwik_proxy_secure.Mihomo.Config.{
  Parsers, Value, mapping, Mapping, mapping_value, as_mapping, and_then, is_local_bind,
  validate_privileged_config,
}
use kwik_proxy_secure.Prelude.{
  length, ensure-ok, ℕ, Text, codes, len, Bool, true, false, ◌||◌, List, [], all, any, Option, none,
  some, ok, ensure->>-ok, >>=-eq-ok, >>-ok, ltb, leb, ◌≡◌, ◌≢◌, sym, ap, ◌∙◌, arith,
  is_ascii_uppercase, is_some,
}
use kwik_proxy_secure.ClientConfig.Patch.Passing.{
  owned-is_secure, accepted_lem, controller_passes, exposure_passes, tun_passes, local_addr,
}
use kwik_proxy_secure.ClientConfig.Patch.Document.{
  patched-no_forbidden, patched-IsInbound, patched-IsQuiet, patched-IsTunnelled, patched-proxies,
  patched-rules,
}

device_lem :
    (on : Bool) (named : Option Text) (device : Text)
    → check_device on named ≡ ok tt
    → on ≡ true
    → named ≡ some device
    → is_owned_device device ≡ true
device_lem false named device h e e' = cc
device_lem true none device h e e' = cc
device_lem true (some d) device h e e' =
    let same : d ≡ device = ground arith in
    subst (λ d. is_owned_device d ≡ true) same (ensure-ok (is_owned_device d) bad_device h)

pub validate_runtime_inputs-device :
    (libs : Libs) (rules : List AppRule) (anti : Option AntiDpiOptions) (dns : Option (List Text))
    (on : Bool) (named : Option Text) (device : Text)
    → validate_runtime_inputs libs rules anti dns on named ≡ ok tt
    → on ≡ true
    → named ≡ some device
    → is_owned_device device ≡ true
unfolding validate_runtime_inputs
validate_runtime_inputs-device libs rules anti dns on named device h =
    let (few, h1) = ensure->>-ok (leb (length rules) 4096) too_many_app_rules _ h in
    let (good, h2) =
      ensure->>-ok (all (λ r. is_some (app_rule_to_mihomo r (codes "PROXY"))) rules) bad_app_rule _
        h1 in
    let (servers, h3) = >>-ok (check_dns libs dns) _ h2 in
    let (resolver, h4) = ensure->>-ok (is_safe_resolver libs anti) unsafe_anti_dpi _ h3 in
    device_lem on named device h4

same_doc :
    (read : Option Value) (value : Value) (doc raw : Mapping)
    → or_fail bad_yaml read ≡ ok value
    → or_fail root_not_mapping (as_mapping value) ≡ ok raw
    → and_then as_mapping read ≡ some doc
    → raw ≡ doc
same_doc none value doc raw h h' e = cc
same_doc (some v) value doc raw h h' e =
    let same : v ≡ value = ground arith in
    let is_doc : as_mapping value ≡ some doc = ap as_mapping (sym same) ∙ e in ground arith

-- The document of a text that is patched, and the check of its device.
patched_document-parts :
    (libs : Libs) (patch : FullYamlPatch) (raw : Text) (doc out : Mapping) (device : Text)
    → patched_document libs raw patch ≡ ok out
    → and_then as_mapping (libs.from_str raw) ≡ some doc
    → patch.use_builtin_tun ≡ true
    → patch.tun_device ≡ some device
    → (patch_root libs patch doc ≡ ok out) × (is_owned_device device ≡ true)
unfolding patched_document
patched_document-parts libs patch raw doc out device h parsed on named =
    let (short, h1) = ensure->>-ok (leb (len raw) max_full_yaml_bytes) full_yaml_too_large _ h in
    let (valid, h2) = >>-ok (check_profile libs patch.routing_profile) _ h1 in
    let (inputs, h3) =
      >>-ok
        (validate_runtime_inputs libs patch.app_rules patch.anti_dpi patch.custom_dns
          patch.use_builtin_tun patch.tun_device)
        _ h2 in
    let (value, read, h4) = >>=-eq-ok (or_fail bad_yaml (libs.from_str raw)) _ h3 in
    let (untagged, h5) = >>-ok (reject_tagged_yaml value) _ h4 in
    let (found, is_mapping, h6) = >>=-eq-ok (or_fail root_not_mapping (as_mapping value)) _ h5 in
    (
      subst (λ d. patch_root libs patch d ≡ ok out)
          (same_doc (libs.from_str raw) value doc found read is_mapping parsed) h6,
      validate_runtime_inputs-device libs patch.app_rules patch.anti_dpi patch.custom_dns
          patch.use_builtin_tun patch.tun_device device inputs on named,
    )

written_lem :
    (libs : Libs) (patch : FullYamlPatch) (raw : Text) (cfg : MihomoConfig)
    → patch_full_yaml libs raw patch ≡ ok cfg
    → (out : Mapping) × (patched_document libs raw patch ≡ ok out)
unfolding patch_full_yaml
written_lem libs patch raw cfg h =
    let (out, made, rest) = >>=-eq-ok (patched_document libs raw patch) _ h in (out, made)

-- The application and the helper agree. What `patch_full_yaml` writes for the built-in TUN mode, from any
-- document of a provider, is accepted by `validate_privileged_config` with the LAN exposure that was
-- asked for, and is found to name the application's device and the application's controller, if: the
-- helper reads back the document that was written, and the address of the controller; the controller has
-- a port and a secret of at most 256 bytes; the application listens to all addresses or to a loopback
-- one; the device's name has no upper-case letter; paths under `providers/` are relative; and the
-- provider's URLs are written with `https://` in lower case.
pub patch_full_yaml-is_accepted :
    (libs : Libs) (ps : Parsers) (patch : FullYamlPatch) (raw : Text) (cfg : MihomoConfig)
    (doc : Mapping) (device : Text)
    → patch_full_yaml libs raw patch ≡ ok cfg
    → ((out : Mapping)
        → patched_document libs raw patch ≡ ok out
        → ps.yaml cfg.yaml ≡ some (mapping out))
    → ps.socket_addr (controller_of patch) ≡ some (local_addr patch.external_controller_port)
    → patch.external_controller_port ≢ 0
    → patch.external_controller_secret ≢ []
    → ltb 256 (len patch.external_controller_secret) ≡ false
    → (is_lan patch.listen || is_local_bind patch.listen) ≡ true
    → patch.use_builtin_tun ≡ true
    → patch.tun_device ≡ some device
    → any is_ascii_uppercase device ≡ false
    → ((digest : List ℕ)
        → (ps.is_absolute (cache_path (codes "proxy") digest)
            || ps.has_parent_dir (cache_path (codes "proxy") digest))
          ≡ false)
    → ((digest : List ℕ)
        → (ps.is_absolute (cache_path (codes "rule") digest)
            || ps.has_parent_dir (cache_path (codes "rule") digest))
          ≡ false)
    → and_then as_mapping (libs.from_str raw) ≡ some doc
    → InSection HasPlainUrl (mapping_value doc (codes "proxy-providers"))
    → InSection HasPlainUrl (mapping_value doc (codes "rule-providers"))
    → validate_privileged_config ps cfg.yaml (is_lan patch.listen)
      ≡ ok (record {
        tun_device = device;
        controller_addr = local_addr patch.external_controller_port;
      })
patch_full_yaml-is_accepted libs ps patch raw cfg doc device h reads addr port secret short listens
      on named lower proxy_dir rule_dir parsed proxies rules =
    let (out, written) = written_lem libs patch raw cfg h in
    let (patched, owned) =
      patched_document-parts libs patch raw doc out device written parsed on named in
    let inbound = patched-IsInbound libs patch doc out device patched in
    accepted_lem ps cfg.yaml (is_lan patch.listen) out (local_addr patch.external_controller_port)
      device (reads out written) (patched-no_forbidden libs patch doc out device patched)
      (controller_passes ps patch out inbound addr port secret short)
      (exposure_passes ps patch out inbound (patched-IsQuiet libs patch doc out device patched)
        listens)
      (tun_passes ps device out (patched-IsTunnelled libs patch doc out device patched on named)
        (owned-is_secure device owned lower))
      (patched-proxies libs patch doc out device patched ps proxy_dir proxies)
      (patched-rules libs patch doc out device patched ps rule_dir rules)
