-- ===== src/ClientConfig/Patch/Document.antt =====
-- src-tauri/src/config/mihomo_config.rs: the document that `patch_full_yaml` writes, section by section.
use mathlib.Core.Path.{subst}
use kwik_proxy_secure.ClientConfig.{Libs, FullYamlPatch}
use kwik_proxy_secure.ClientConfig.Patch.{
  patch_root, before_rules, with_prefix, set_terminal, after_rules,
}
use kwik_proxy_secure.ClientConfig.Patch.Inbound.{
  IsInbound, before_rules-IsInbound, finished-IsInbound, IsTunnelled, finished-IsTunnelled,
}
use kwik_proxy_secure.ClientConfig.Patch.Kept.{
  finished-keeps, before_rules-keeps, inbound_keys, default_keys,
}
use kwik_proxy_secure.ClientConfig.Patch.Providers.{HasPlainUrl, same_section-passes}
use kwik_proxy_secure.ClientConfig.Patch.Quiet.{IsQuiet, same_section-IsQuiet, finished-IsQuiet}
use kwik_proxy_secure.ClientConfig.Patch.Sanitized.{
  IsReduced, sanitize_full_profile-IsReduced, sanitized-IsQuiet, sanitized-tun, sanitized-removed,
  proxy_providers-pass, rule_providers-pass, basic_keys, section_keys,
}
use kwik_proxy_secure.ClientConfig.Reduce.{removed_keys, tun_section, sanitize_full_profile}
use kwik_proxy_secure.ClientConfig.Rules.{detect_proxy_target}
use kwik_proxy_secure.ClientConfig.Sanitize.{cache_path}
use kwik_proxy_secure.Mihomo.Accepted.{InSection}
use kwik_proxy_secure.Mihomo.Config.{
  Parsers, Mapping, get, has_key, mapping_value, forbidden_keys, validate_provider_paths,
}
use kwik_proxy_secure.Prelude.{
  negated, all-All, both, All-map, ℕ, Text, codes, text_eq, Bool, true, false, not, ◌&&◌, ◌||◌,
  List, ◌∷◌, any, none, some, ok, >>=-eq-ok, ◌≡◌, refl, sym, ap, ◌∙◌, arith,
}
use kwik_proxy_secure.Yaml.Laws.{is_none_of}
use kwik_proxy_secure.ClientConfig.Patch.Passing.{absent_keys}

-- The keys that no stage writes and that are removed.
abbrev is_dropped : Text → Bool
is_dropped j =
    is_none_of (codes "proxy-providers" ∷ codes "rule-providers" ∷ section_keys) j
    && (is_none_of basic_keys j
        && (not (is_none_of removed_keys j)
            && (is_none_of
                  (codes "log-level" ∷ codes "tun" ∷ codes "find-process-mode" ∷ inbound_keys) j
                && is_none_of (codes "rules" ∷ codes "ipv6" ∷ codes "dns" ∷ default_keys) j)))

module _ (libs : Libs) (patch : FullYamlPatch) (raw out : Mapping) (device : Text)
    (h : patch_root libs patch raw ≡ ok out) where
  -- The stages of a patch that succeeds.
  pub record IsPatched : Type 0 where
    pub sanitized : Mapping
    pub ruled : Mapping
    pub clean : sanitize_full_profile libs patch raw ≡ ok sanitized
    pub reduced : IsReduced libs patch raw sanitized
    pub terminal :
        set_terminal patch (detect_proxy_target libs (before_rules patch sanitized)) (
          with_prefix libs patch
            (detect_proxy_target libs (before_rules patch sanitized))
            (before_rules patch sanitized))
        ≡ ok ruled
    pub last : out ≡ after_rules patch ruled

  pub patch_root-IsPatched : IsPatched
  unfolding patch_root
  patch_root-IsPatched =
      let (sanitized, clean, h1) = >>=-eq-ok (sanitize_full_profile libs patch raw) _ h in
      let root = before_rules patch sanitized in
      let target = detect_proxy_target libs root in
      let (ruled, terminal, h2) =
        >>=-eq-ok (set_terminal patch target (with_prefix libs patch target root)) _ h1 in
      record {
        sanitized = sanitized;
        ruled = ruled;
        clean = clean;
        reduced = sanitize_full_profile-IsReduced libs patch raw sanitized clean;
        terminal = terminal;
        last = ground arith;
      }

  abbrev is : IsPatched
  is = patch_root-IsPatched

  abbrev root : Mapping
  root = before_rules patch is.sanitized

  abbrev target : Text
  target = detect_proxy_target libs root

  kept :
      (j : Text)
      → is_none_of (codes "log-level" ∷ codes "tun" ∷ codes "find-process-mode" ∷ inbound_keys) j
        ≡ true
      → is_none_of (codes "rules" ∷ codes "ipv6" ∷ codes "dns" ∷ default_keys) j ≡ true
      → get j out ≡ get j is.sanitized
  kept j e e' =
      ap (get j) is.last
      ∙ finished-keeps j libs patch target root is.ruled is.terminal e'
      ∙ before_rules-keeps j patch is.sanitized e

  dropped : (j : Text) → is_dropped j ≡ true → get j out ≡ none
  dropped j e =
      let (no_section, e1) = both _ _ e in
      let (not_basic, e2) = both _ _ e1 in
      let (removed, e3) = both _ _ e2 in
      let (before, after) = both _ _ e3 in
      kept j before after
      ∙ sanitized-removed libs patch raw is.sanitized is.reduced j no_section not_basic
          (negated (is_none_of removed_keys j) removed)

  pub patched-no_forbidden : any (has_key out) forbidden_keys ≡ false
  unfolding text_eq
  patched-no_forbidden =
      absent_keys out forbidden_keys
        (All-map _ _ forbidden_keys dropped (all-All is_dropped forbidden_keys refl))

  pub patched-IsInbound : IsInbound patch out
  patched-IsInbound = subst (IsInbound patch) (sym is.last) (
      finished-IsInbound libs patch target root is.ruled is.terminal
        (before_rules-IsInbound patch is.sanitized))

  pub patched-IsQuiet : IsQuiet out
  unfolding text_eq
  patched-IsQuiet = subst IsQuiet (sym is.last) (
      finished-IsQuiet libs patch target root is.ruled is.terminal (
        same_section-IsQuiet is.sanitized root
          (before_rules-keeps (codes "dns") patch is.sanitized refl)
          (sanitized-IsQuiet libs patch raw is.sanitized is.reduced)))

  pub patched-IsTunnelled :
      patch.use_builtin_tun ≡ true → patch.tun_device ≡ some device → IsTunnelled device out
  patched-IsTunnelled on named = subst (IsTunnelled device) (sym is.last) (
      finished-IsTunnelled libs patch target device is.sanitized is.ruled (tun_section patch) on
        named (sanitized-tun libs patch raw is.sanitized is.reduced) is.terminal)

  pub patched-proxies :
      (ps : Parsers)
      → ((digest : List ℕ)
          → (ps.is_absolute (cache_path (codes "proxy") digest)
              || ps.has_parent_dir (cache_path (codes "proxy") digest))
            ≡ false)
      → InSection HasPlainUrl (mapping_value raw (codes "proxy-providers"))
      → validate_provider_paths ps out (codes "proxy-providers") ≡ ok tt
  unfolding text_eq
  patched-proxies ps inside plain =
      same_section-passes libs ps is.sanitized out (codes "proxy-providers")
        (kept (codes "proxy-providers") refl refl)
        (proxy_providers-pass libs patch raw is.sanitized is.reduced ps inside plain)

  pub patched-rules :
      (ps : Parsers)
      → ((digest : List ℕ)
          → (ps.is_absolute (cache_path (codes "rule") digest)
              || ps.has_parent_dir (cache_path (codes "rule") digest))
            ≡ false)
      → InSection HasPlainUrl (mapping_value raw (codes "rule-providers"))
      → validate_provider_paths ps out (codes "rule-providers") ≡ ok tt
  unfolding text_eq
  patched-rules ps inside plain =
      same_section-passes libs ps is.sanitized out (codes "rule-providers")
        (kept (codes "rule-providers") refl refl)
        (rule_providers-pass libs patch raw is.sanitized is.reduced ps inside plain)
