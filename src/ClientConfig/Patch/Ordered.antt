-- ===== src/ClientConfig/Patch/Ordered.antt =====
-- src-tauri/src/config/mihomo_config.rs: the rules of the document that is launched, and their order.
use kwik_proxy_secure.Profile.{RoutingProfile}
use kwik_proxy_secure.ClientConfig.{
  RoutingProfile, Option, AppRule, Libs, FullYamlPatch, DefaultTraffic, auto, vpn, direct,
}
use kwik_proxy_secure.ClientConfig.Patch.{
  mihomo_rules_from_profile, opt_list, app_rules_for, app_rule_to_mihomo, profile_rules_for,
  sanitize_full_profile, patch_root, before_rules, with_prefix, prefix_rules, prepend_rules,
  patch_profile_dns, patch_anti_dpi, set_terminal, after_rules,
}
use kwik_proxy_secure.ClientConfig.Patch.Document.{patch_root-IsPatched}
use kwik_proxy_secure.ClientConfig.Patch.Kept.{
  after_rules-keeps, before_rules-keeps, patch_anti_dpi-keeps, patch_profile_dns-keeps,
}
use kwik_proxy_secure.ClientConfig.Patch.Sanitized.{sanitized-rules}
use kwik_proxy_secure.ClientConfig.Rules.{
  detect_proxy_target, normalize_terminal_default, mihomo_rules_from_profile, app_rule_to_mihomo,
}
use kwik_proxy_secure.ClientConfig.Rules.Terminal.{
  to_direct, to_proxy, IsChoice, rules_in, ended, edited_rules,
  normalize_terminal_default-IsTerminated,
}
use kwik_proxy_secure.Mihomo.Config.{
  Value, string, sequence, nil, Mapping, get, and_then, unwrap_or,
}
use kwik_proxy_secure.Prelude.{
  sym, Option, none, Text, codes, text_eq, List, [], ◌∷◌, ◌++◌, map, some, ok, ◌≡◌, refl, ap, ◌∙◌,
  arith,
}
use kwik_proxy_secure.Yaml.{as_sequence}

-- The rules for programs that are set up, in their order.
abbrev pub of_programs : Text → List AppRule → List Text
of_programs target [] = []
of_programs target (r ∷ rs) = elim (app_rule_to_mihomo r target) [
  | some rule ↦ rule ∷ of_programs target rs
  | none ↦ of_programs target rs
]

-- The rules of the profile that is chosen, if there is one.
abbrev pub of_profile : Libs → Text → Option RoutingProfile → List Text
of_profile libs target none = []
of_profile libs target (some p) = mihomo_rules_from_profile libs.codec.std p target

one_program :
    (o : Option Text) (rules : List Text)
    → opt_list o ++ rules ≡ elim o [ some rule ↦ rule ∷ rules | none ↦ rules ]
one_program none rules = refl
one_program (some rule) rules = refl

programs_lem : (target : Text) (rs : List AppRule) → app_rules_for target rs ≡ of_programs target rs
programs_lem target [] = refl
programs_lem target (r ∷ rs) =
    one_program (app_rule_to_mihomo r target) (app_rules_for target rs)
    ∙ ap (λ rules. elim (app_rule_to_mihomo r target) [ some rule ↦ rule ∷ rules | none ↦ rules ])
        (programs_lem target rs)

profile_lem :
    (libs : Libs) (target : Text) (o : Option RoutingProfile)
    → profile_rules_for libs target o ≡ of_profile libs target o
profile_lem libs target none = refl
profile_lem libs target (some p) = refl

prefix_rules_lem :
    (libs : Libs) (target : Text) (patch : FullYamlPatch)
    → prefix_rules libs target patch
      ≡ of_programs target patch.app_rules ++ of_profile libs target patch.routing_profile
unfolding prefix_rules
prefix_rules_lem libs target patch =
    ap (λ rules. rules ++ profile_rules_for libs target patch.routing_profile)
      (programs_lem target patch.app_rules)
    ∙ ap (λ rules. of_programs target patch.app_rules ++ rules)
        (profile_lem libs target patch.routing_profile)

-- What the choice for unmatched traffic makes of the rules.
abbrev pub with_ending : DefaultTraffic → Text → List Value → List Value
with_ending auto target rules = rules
with_ending vpn target rules = ended target rules
with_ending direct target rules = ended (codes "DIRECT") rules

same_rules :
    (root root' : Mapping)
    → get (codes "rules") root' ≡ get (codes "rules") root
    → rules_in root' ≡ rules_in root
same_rules root root' = ap (λ o. and_then as_sequence (some (unwrap_or (sequence nil) o)))

prepended :
    (rules : List Text) (root : Mapping) (before : List Value)
    → rules_in root ≡ some before
    → rules_in (prepend_rules rules root) ≡ some (map string rules ++ before)
unfolding prepend_rules
prepended [] root before there = there
prepended (r ∷ rs) root before there =
    edited_rules (λ rules. map string (r ∷ rs) ++ rules) root before there

normalized :
    (root root' : Mapping) (traffic : DefaultTraffic) (proxy_target target : Text)
    (before : List Value)
    → rules_in root ≡ some before
    → IsChoice proxy_target traffic target
    → normalize_terminal_default root traffic proxy_target ≡ ok root'
    → rules_in root' ≡ some (ended target before)
unfolding text_eq
normalized root root' traffic proxy_target target before there chosen h =
    let (made, is_made, (after, found, is), other) =
      normalize_terminal_default-IsTerminated root traffic proxy_target target (codes "dns") before
        there chosen refl in
    let same : made ≡ root' = ground arith in
    let rules : after ≡ ended target before =
      is.split
      ∙ ap (λ specific. specific ++ string (codes "MATCH," ++ target) ∷ []) is.provider_order in
    sym (ap rules_in same) ∙ found ∙ ap some rules

terminated :
    (patch : FullYamlPatch) (target : Text) (root ruled : Mapping) (before : List Value)
    → rules_in root ≡ some before
    → set_terminal patch target root ≡ ok ruled
    → rules_in ruled ≡ some (with_ending patch.default_traffic target before)
unfolding set_terminal
terminated patch target root ruled before there h = by_traffic patch.default_traffic h
  where
    by_traffic :
        (traffic : DefaultTraffic)
        → (elim traffic [
          | auto ↦ ok root
          | vpn ↦ normalize_terminal_default root vpn target
          | direct ↦ normalize_terminal_default root direct target
        ])
          ≡ ok ruled
        → rules_in ruled ≡ some (with_ending traffic target before)
    by_traffic auto h = let same : root ≡ ruled = ground arith in sym (ap rules_in same) ∙ there
    by_traffic vpn h = normalized root ruled vpn target target before there to_proxy h
    by_traffic direct h =
        normalized root ruled direct target (codes "DIRECT") before there to_direct h

prefixed :
    (libs : Libs) (patch : FullYamlPatch) (target : Text) (root : Mapping) (before : List Value)
    → rules_in root ≡ some before
    → rules_in (with_prefix libs patch target root)
      ≡ some (map string (prefix_rules libs target patch) ++ before)
unfolding with_prefix text_eq
prefixed libs patch target root before there =
    let dns = patch_anti_dpi patch.anti_dpi root in
    let resolved = patch_profile_dns patch.routing_profile dns in
    let same =
      patch_profile_dns-keeps (codes "rules") patch.routing_profile dns refl
      ∙ patch_anti_dpi-keeps (codes "rules") patch.anti_dpi root refl in
    prepended (prefix_rules libs target patch) resolved before
      (same_rules root resolved same ∙ there)

-- The rules of a patched document are the application's rules for programs, then those of the profile, both
-- sending to the outbound that is detected in the sanitized document, then those of the provider, in
-- their order; an explicit choice for unmatched traffic then takes the rules out whose first field is MATCH
-- or FINAL and puts a MATCH to its own target, DIRECT or that outbound, at the end, and the automatic one changes none.
pub patch_root-rules :
    (libs : Libs) (patch : FullYamlPatch) (raw out : Mapping) (provider : List Value)
    → patch_root libs patch raw ≡ ok out
    → rules_in raw ≡ some provider
    → (sanitized : Mapping) × (sanitize_full_profile libs patch raw ≡ ok sanitized)
      × (rules_in out
          ≡ some (
              with_ending patch.default_traffic
                (detect_proxy_target libs (before_rules patch sanitized))
                (map string (
                    of_programs
                      (detect_proxy_target libs (before_rules patch sanitized))
                      patch.app_rules
                    ++ of_profile libs
                        (detect_proxy_target libs (before_rules patch sanitized))
                        patch.routing_profile)
                  ++ provider)))
unfolding text_eq
patch_root-rules libs patch raw out provider h there =
    let is = patch_root-IsPatched libs patch raw out [] h in
    let root = before_rules patch is.sanitized in
    let target = detect_proxy_target libs root in
    let kept =
      before_rules-keeps (codes "rules") patch is.sanitized refl
      ∙ sanitized-rules libs patch raw is.sanitized is.reduced in
    (
      is.sanitized,
      is.clean,
      ap rules_in is.last
          ∙ same_rules is.ruled (after_rules patch is.ruled)
              (after_rules-keeps (codes "rules") patch is.ruled refl)
          ∙ terminated patch target (with_prefix libs patch target root) is.ruled
              (map string (prefix_rules libs target patch) ++ provider)
              (prefixed libs patch target root provider (same_rules raw root kept ∙ there))
              is.terminal
          ∙ ap
              (λ rules.
                some (with_ending patch.default_traffic target (map string rules ++ provider)))
              (prefix_rules_lem libs target patch),
    )
