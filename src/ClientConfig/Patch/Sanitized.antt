-- ===== src/ClientConfig/Patch/Sanitized.antt =====
-- src-tauri/src/config/mihomo_config.rs: what a provider's document is after `sanitize_full_profile`.
use mathlib.Core.Path.{subst}
use kwik_proxy_secure.ClientConfig.{Libs, FullYamlPatch}
use kwik_proxy_secure.ClientConfig.Dns.{build_dns, build_sniffer}
use kwik_proxy_secure.ClientConfig.Patch.Providers.{
  HasPlainUrl, sanitize_providers-passes, sanitize_providers-keeps, same_section-passes,
}
use kwik_proxy_secure.ClientConfig.Patch.Quiet.{IsQuiet}
use kwik_proxy_secure.ClientConfig.Reduce.{
  removed_keys, set_basics, set_groups, set_sections, tun_section, internal_dns, persisted,
  sanitize_full_profile, check_proxies, rewrite_groups, check_rules, list_at, flag_of,
}
use kwik_proxy_secure.ClientConfig.Sanitize.{
  sanitize_providers, validate_sequence_bound, cache_path,
}
use kwik_proxy_secure.Mihomo.Accepted.{InSection}
use kwik_proxy_secure.Mihomo.Config.{
  Parsers, Value, bool, string, sequence, mapping, Mapping, get, mapping_value, as_mapping,
  and_then, validate_provider_paths,
}
use kwik_proxy_secure.Prelude.{
  ℕ, Text, codes, text_eq, true, false, ◌||◌, List, [], ◌∷◌, none, some, ok, >>=-eq-ok, >>-ok, ◌≡◌,
  refl, sym, ap, ◌∙◌, arith,
}
use kwik_proxy_secure.Yaml.{insert, remove_key, remove_keys, items}
use kwik_proxy_secure.Yaml.Laws.{
  get-insert, get-insert_other, get-remove_key, get-remove_key_other, get-update_other,
  get-remove_keys, get-remove_keys_other, is_none_of, apart,
}

abbrev pub basic_keys : List Text
basic_keys =
    codes "geo-auto-update"
    ∷ codes "mode"
    ∷ codes "log-level"
    ∷ codes "ipv6"
    ∷ codes "find-process-mode"
    ∷ codes "proxy-groups"
    ∷ []

abbrev pub section_keys : List Text
section_keys = codes "dns" ∷ codes "tun" ∷ codes "profile" ∷ codes "sniffer" ∷ []

-- The document before the providers are looked at.
abbrev reduced : FullYamlPatch → List Value → Mapping → Mapping
reduced patch groups raw = set_groups groups (set_basics patch (remove_keys removed_keys raw))

reduced-keeps :
    (j : Text) (patch : FullYamlPatch) (groups : List Value) (raw : Mapping)
    → is_none_of basic_keys j ≡ true
    → get j (reduced patch groups raw) ≡ get j (remove_keys removed_keys raw)
unfolding set_basics
reduced-keeps j patch groups raw e =
    let (h0, (h1, (h2, (h3, (h4, (h5, h)))))) = apart basic_keys j e in
    let r = remove_keys removed_keys raw in
    let r1 = insert (codes "geo-auto-update") (bool false) r in
    let r2 = insert (codes "mode") (string (codes "rule")) r1 in
    let r3 = insert (codes "log-level") (string (codes "warning")) r2 in
    let r4 = insert (codes "ipv6") (bool patch.ipv6) r3 in
    let process = string (flag_of patch.app_rules) in
    let r5 = insert (codes "find-process-mode") process r4 in
    get-update_other j (codes "proxy-groups") (λ section. sequence (items groups)) r5 h5
    ∙ get-insert_other j (codes "find-process-mode") process r4 h4
    ∙ get-insert_other j (codes "ipv6") (bool patch.ipv6) r3 h3
    ∙ get-insert_other j (codes "log-level") (string (codes "warning")) r2 h2
    ∙ get-insert_other j (codes "mode") (string (codes "rule")) r1 h1
    ∙ get-insert_other j (codes "geo-auto-update") (bool false) r h0

module _ (libs : Libs) (patch : FullYamlPatch) where
  abbrev with_dns : Mapping → Mapping
  with_dns root = insert (codes "dns") (mapping (internal_dns libs patch)) root

  abbrev with_tun : Mapping → Mapping
  with_tun root =
      insert (codes "tun") (mapping (tun_section patch)) (remove_key (codes "tun") (with_dns root))

  abbrev with_profile : Mapping → Mapping
  with_profile root = insert (codes "profile") (mapping persisted) (with_tun root)

  set_sections-keeps :
      (j : Text) (root : Mapping)
      → is_none_of section_keys j ≡ true
      → get j (set_sections libs patch root) ≡ get j root
  unfolding set_sections
  set_sections-keeps j root e =
      let (dns, (tun, (profile, (sniffer, h)))) = apart section_keys j e in
      get-insert_other j (codes "sniffer") (mapping build_sniffer) (with_profile root) sniffer
      ∙ get-insert_other j (codes "profile") (mapping persisted) (with_tun root) profile
      ∙ get-insert_other j (codes "tun") (mapping (tun_section patch))
          (remove_key (codes "tun") (with_dns root)) tun
      ∙ get-remove_key_other j (codes "tun") (with_dns root) tun
      ∙ get-insert_other j (codes "dns") (mapping (internal_dns libs patch)) root dns

  set_sections-IsQuiet : (root : Mapping) → IsQuiet (set_sections libs patch root)
  unfolding set_sections text_eq
  set_sections-IsQuiet root =
      let dns = codes "dns" in
      (
        internal_dns libs patch,
        get-insert_other dns (codes "sniffer") (mapping build_sniffer) (with_profile root) refl
            ∙ get-insert_other dns (codes "profile") (mapping persisted) (with_tun root) refl
            ∙ get-insert_other dns (codes "tun") (mapping (tun_section patch))
                (remove_key (codes "tun") (with_dns root)) refl
            ∙ get-remove_key_other dns (codes "tun") (with_dns root) refl
            ∙ get-insert dns (mapping (internal_dns libs patch)) root,
        get-remove_key (codes "listen") (
            build_dns libs.codec.std patch.anti_dpi patch.routing_profile patch.ipv6
              patch.custom_dns),
      )

  set_sections-tun :
      (root : Mapping)
      → get (codes "tun") (set_sections libs patch root) ≡ some (mapping (tun_section patch))
  unfolding set_sections text_eq
  set_sections-tun root =
      let tun = codes "tun" in
      get-insert_other tun (codes "sniffer") (mapping build_sniffer) (with_profile root) refl
      ∙ get-insert_other tun (codes "profile") (mapping persisted) (with_tun root) refl
      ∙ get-insert tun (mapping (tun_section patch)) (remove_key tun (with_dns root))

  -- The stages of a sanitization that succeeds.
  pub record IsReduced (raw out : Mapping) : Type 0 where
    pub groups : List Value
    pub root1 : Mapping
    pub root2 : Mapping
    pub proxies :
        sanitize_providers libs (codes "proxy-providers") (codes "proxy") (reduced patch groups raw)
        ≡ ok root1
    pub rules : sanitize_providers libs (codes "rule-providers") (codes "rule") root1 ≡ ok root2
    pub last : out ≡ set_sections libs patch root2

  pub sanitize_full_profile-IsReduced :
      (raw out : Mapping) → sanitize_full_profile libs patch raw ≡ ok out → IsReduced raw out
  unfolding sanitize_full_profile
  sanitize_full_profile-IsReduced raw out h =
      let root = set_basics patch (remove_keys removed_keys raw) in
      let (b1, h1) = >>-ok (validate_sequence_bound root (codes "proxies") 4096) _ h in
      let (b2, h2) = >>-ok (validate_sequence_bound root (codes "proxy-groups") 512) _ h1 in
      let (b3, h3) = >>-ok (validate_sequence_bound root (codes "rules") 200000) _ h2 in
      let (b4, h4) = >>-ok (check_proxies (list_at (codes "proxies") root)) _ h3 in
      let (groups, b5, h5) =
        >>=-eq-ok (rewrite_groups (list_at (codes "proxy-groups") root)) _ h4 in
      let (b6, h6) = >>-ok (check_rules (list_at (codes "rules") root)) _ h5 in
      let (root1, proxies, h7) =
        >>=-eq-ok
          (sanitize_providers libs (codes "proxy-providers") (codes "proxy")
            (set_groups groups root))
          _ h6 in
      let (root2, rules, h8) =
        >>=-eq-ok (sanitize_providers libs (codes "rule-providers") (codes "rule") root1) _ h7 in
      record {
        groups = groups;
        root1 = root1;
        root2 = root2;
        proxies = proxies;
        rules = rules;
        last = ground arith;
      }

  module _ (raw out : Mapping) (is : IsReduced raw out) where
    pub sanitized-IsQuiet : IsQuiet out
    sanitized-IsQuiet = subst IsQuiet (sym is.last) (set_sections-IsQuiet is.root2)

    pub sanitized-tun : get (codes "tun") out ≡ some (mapping (tun_section patch))
    sanitized-tun = ap (get (codes "tun")) is.last ∙ set_sections-tun is.root2

    sanitized-reduced :
        (j : Text)
        → is_none_of (codes "proxy-providers" ∷ codes "rule-providers" ∷ section_keys) j ≡ true
        → get j out ≡ get j (reduced patch is.groups raw)
    sanitized-reduced j e =
        let (proxies, (rules, others)) =
          apart (codes "proxy-providers" ∷ codes "rule-providers" ∷ section_keys) j e in
        ap (get j) is.last
        ∙ set_sections-keeps j is.root2 (ground arith)
        ∙ sanitize_providers-keeps libs j (codes "rule-providers") (codes "rule") is.root1 is.root2
            rules is.rules
        ∙ sanitize_providers-keeps libs j (codes "proxy-providers") (codes "proxy")
            (reduced patch is.groups raw) is.root1 proxies is.proxies

    -- A key that is removed and not set again is gone.
    pub sanitized-removed :
        (j : Text)
        → is_none_of (codes "proxy-providers" ∷ codes "rule-providers" ∷ section_keys) j ≡ true
        → is_none_of basic_keys j ≡ true
        → is_none_of removed_keys j ≡ false
        → get j out ≡ none
    sanitized-removed j e e' gone =
        sanitized-reduced j e
        ∙ reduced-keeps j patch is.groups raw e'
        ∙ get-remove_keys j removed_keys raw gone

    pub sanitized-rules : get (codes "rules") out ≡ get (codes "rules") raw
    unfolding text_eq
    sanitized-rules =
        sanitized-reduced (codes "rules") refl
        ∙ reduced-keeps (codes "rules") patch is.groups raw refl
        ∙ get-remove_keys_other (codes "rules") removed_keys raw refl

    module _ (ps : Parsers) where
      plain_lem :
          (section : Text) (root : Mapping)
          → get section root ≡ get section raw
          → InSection HasPlainUrl (mapping_value raw section)
          → InSection HasPlainUrl (mapping_value root section)
      plain_lem section root same plain =
          subst (λ o. InSection HasPlainUrl (and_then as_mapping o)) (sym same) plain

      raw_section :
          (section : Text)
          → is_none_of basic_keys section ≡ true
          → is_none_of removed_keys section ≡ true
          → get section (reduced patch is.groups raw) ≡ get section raw
      raw_section section e e' =
          reduced-keeps section patch is.groups raw e
          ∙ get-remove_keys_other section removed_keys raw e'

      pub proxy_providers-pass :
          ((digest : List ℕ)
            → (ps.is_absolute (cache_path (codes "proxy") digest)
                || ps.has_parent_dir (cache_path (codes "proxy") digest))
              ≡ false)
          → InSection HasPlainUrl (mapping_value raw (codes "proxy-providers"))
          → validate_provider_paths ps out (codes "proxy-providers") ≡ ok tt
      unfolding text_eq
      proxy_providers-pass inside plain =
          let key = codes "proxy-providers" in
          let start = reduced patch is.groups raw in
          let passes =
            sanitize_providers-passes libs ps key (codes "proxy") start is.root1 inside is.proxies
              (plain_lem key start (raw_section key refl refl) plain) in
          let same =
            ap (get key) is.last
            ∙ set_sections-keeps key is.root2 refl
            ∙ sanitize_providers-keeps libs key (codes "rule-providers") (codes "rule") is.root1
                is.root2 refl is.rules in
          same_section-passes libs ps is.root1 out key same passes

      pub rule_providers-pass :
          ((digest : List ℕ)
            → (ps.is_absolute (cache_path (codes "rule") digest)
                || ps.has_parent_dir (cache_path (codes "rule") digest))
              ≡ false)
          → InSection HasPlainUrl (mapping_value raw (codes "rule-providers"))
          → validate_provider_paths ps out (codes "rule-providers") ≡ ok tt
      unfolding text_eq
      rule_providers-pass inside plain =
          let key = codes "rule-providers" in
          let start = reduced patch is.groups raw in
          let before =
            sanitize_providers-keeps libs key (codes "proxy-providers") (codes "proxy") start
              is.root1 refl is.proxies in
          let passes =
            sanitize_providers-passes libs ps key (codes "rule") is.root1 is.root2 inside is.rules
              (plain_lem key is.root1 (before ∙ raw_section key refl refl) plain) in
          same_section-passes libs ps is.root2 out key
            (ap (get key) is.last ∙ set_sections-keeps key is.root2 refl) passes
