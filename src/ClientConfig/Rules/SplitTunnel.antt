-- ===== src/ClientConfig/Rules/SplitTunnel.antt =====
-- src-tauri/src/config/mihomo_config.rs: the rules of a routing profile, their order and their fields.
use mathlib.Core.List.{append-nil, append_assoc}
use kwik_proxy_secure.ClientConfig.Rules.{
  joined, site_rule, write_site, push_site_rules, ip_rule, write_ip, push_ip_rules,
  mihomo_rules_from_profile,
}
use kwik_proxy_secure.Net.{Std}
use kwik_proxy_secure.Prelude.{
  All-map, ◌≢◌, Bool-cases, text_eq_iff, Text, codes, text_eq, true, false, List, [], ◌∷◌, ◌++◌,
  Option, none, some, All, ◌≡◌, refl, sym, ap, ◌∙◌, arith, inl, inr, trim,
}
use kwik_proxy_secure.Profile.{Codec, RoutingProfile, all_rules}
use kwik_proxy_secure.Profile.Valid.{IsValid, IsOneField}
use kwik_proxy_secure.ClientConfig.Rules.Fields.{
  IsClean, whole-IsRule, joined-IsRule, three_fields, trim-IsClean,
}
use kwik_proxy_secure.ClientConfig.Rules.Kinds.{
  IsSite, IsAddress, IsNoAddress, IsSiteRule, IsAddressRule, Outcome, IsCleanPair, site_rule_lem,
  ip_rule_lem, site_rule-IsSite, ip_rule-Outcome,
}

-- The rules are those of the entries, one for each and in their order; an entry is trimmed first, and
-- left out if it is then blank or none can be written for it.
pub data Each (Rule : Text → Text → Type 0) (Skip : Text → Type 0)
    : List Text → List Text → Type 0 where
  finished : Each Rule Skip [] []
  blank :
      (raw : Text) (xs rules : List Text)
      → trim raw ≡ []
      → Each Rule Skip xs rules
      → Each Rule Skip (raw ∷ xs) rules
  skipped :
      (raw : Text) (xs rules : List Text)
      → Skip (trim raw)
      → Each Rule Skip xs rules
      → Each Rule Skip (raw ∷ xs) rules
  written :
      (raw : Text) (xs : List Text) (rule : Text) (rules : List Text)
      → trim raw ≢ []
      → Rule (trim raw) rule
      → Each Rule Skip xs rules
      → Each Rule Skip (raw ∷ xs) (rule ∷ rules)

site_written :
    (action s : Text) (pair : Text × Text)
    → IsSite s pair.0 pair.1
    → (IsClean pair.0 × IsClean pair.1)
    → IsClean action
    → IsSiteRule action s (write_site pair action)
site_written action s (kind, value) site (k, v) a =
    (kind, value, site, three_fields kind value action k v a)

address_written :
    (std : Std) (action s kind value : Text)
    → IsAddress std s kind value
    → (IsClean kind × IsClean value)
    → IsClean action
    → IsAddressRule std action s (joined kind (joined value (joined action (codes "no-resolve"))))
address_written std action s kind value address (k, v) a = (
  kind,
  value,
  address,
  joined-IsRule kind _ _ k (
      joined-IsRule value _ _ v
        (joined-IsRule action _ _ a (whole-IsRule (codes "no-resolve") (refl, refl)))),
)

-- What comes after the rules that stand already.
abbrev Adds : (Text → Text → Type 0) → (Text → Type 0) → List Text → List Text → List Text → Type 0
Adds Rule Skip xs out after = (rules : List Text) × (after ≡ out ++ rules) × Each Rule Skip xs rules

module _ (action : Text) (a : IsClean action) where
  site_blank :
      (raw : Text) (sites out : List Text)
      → text_eq (trim raw) [] ≡ true
      → push_site_rules out (raw ∷ sites) action ≡ push_site_rules out sites action
  unfolding push_site_rules
  site_blank raw sites out h = ground (arith, h)

  site_pushed :
      (raw : Text) (sites out : List Text)
      → text_eq (trim raw) [] ≡ false
      → push_site_rules out (raw ∷ sites) action
        ≡ push_site_rules (out ++ write_site (site_rule (trim raw)) action ∷ []) sites action
  unfolding push_site_rules
  site_pushed raw sites out h = ground (arith, h)

  filled : (raw : Text) → text_eq (trim raw) [] ≡ false → trim raw ≢ []
  filled raw h same = let empty = (text_eq_iff (trim raw) []).1 same in ground (arith, h, empty)

  sites-Adds :
      (sites out : List Text)
      → All IsClean sites
      → Adds (IsSiteRule action) (λ s. ⊥) sites out (push_site_rules out sites action)
  unfolding push_site_rules
  sites-Adds [] out clean = ([], sym (append-nil out), finished)
  sites-Adds (raw ∷ sites) out clean =
      let w = write_site (site_rule (trim raw)) action in
      elim (Bool-cases (text_eq (trim raw) [])) [
        | inl none_left ↦
            let (rules, same, each) = sites-Adds sites out clean.1 in
            (
              rules,
              site_blank raw sites out none_left ∙ same,
              blank raw sites rules ((text_eq_iff (trim raw) []).0 none_left) each,
            )
        | inr some_left ↦
            let (rules, same, each) = sites-Adds sites (out ++ w ∷ []) clean.1 in
            (
              w ∷ rules,
              site_pushed raw sites out some_left ∙ same ∙ append_assoc out (w ∷ []) rules,
              written raw sites w rules (filled raw some_left)
                  (site_written action (trim raw) (site_rule (trim raw))
                    (site_rule-IsSite (trim raw))
                    (site_rule_lem (trim raw) (trim-IsClean raw clean.0)) a)
                  each,
            )
      ]

  module _ (std : Std) where
    ip_blank :
        (raw : Text) (ips out : List Text)
        → text_eq (trim raw) [] ≡ true
        → push_ip_rules std out (raw ∷ ips) action ≡ push_ip_rules std out ips action
    unfolding push_ip_rules
    ip_blank raw ips out h = ground (arith, h)

    ip_pushed :
        (raw : Text) (ips out : List Text) (pair : Option (Text × Text))
        → text_eq (trim raw) [] ≡ false
        → ip_rule std (trim raw) ≡ pair
        → push_ip_rules std out (raw ∷ ips) action
          ≡ push_ip_rules std (out ++ write_ip pair action) ips action
    unfolding push_ip_rules
    ip_pushed raw ips out pair h is =
        pushed ∙ ap (λ pair. push_ip_rules std (out ++ write_ip pair action) ips action) is
      where
        pushed :
            push_ip_rules std out (raw ∷ ips) action
            ≡ push_ip_rules std (out ++ write_ip (ip_rule std (trim raw)) action) ips action
        pushed = ground (arith, h)

    ips-Adds :
        (ips out : List Text)
        → All IsClean ips
        → Adds
            (IsAddressRule std action)
            (IsNoAddress std)
            ips
            out
            (push_ip_rules std out ips action)
    unfolding push_ip_rules
    ips-Adds [] out clean = ([], sym (append-nil out), finished)
    ips-Adds (raw ∷ ips) out clean = elim (Bool-cases (text_eq (trim raw) [])) [
      | inl none_left ↦
          let (rules, same, each) = ips-Adds ips out clean.1 in
          (
            rules,
            ip_blank raw ips out none_left ∙ same,
            blank raw ips rules ((text_eq_iff (trim raw) []).0 none_left) each,
          )
      | inr some_left ↦
          by_rule some_left (λ out. ips-Adds ips out clean.1) (ip_rule std (trim raw)) refl
            (ip_rule-Outcome std (trim raw)) (ip_rule_lem std (trim raw) (trim-IsClean raw clean.0))
    ]
      where
        by_rule :
            text_eq (trim raw) [] ≡ false
            → ((out : List Text)
                → Adds
                    (IsAddressRule std action)
                    (IsNoAddress std)
                    ips
                    out
                    (push_ip_rules std out ips action))
            → (pair : Option (Text × Text)) → ip_rule std (trim raw) ≡ pair
            → Outcome std (trim raw) pair
            → IsCleanPair pair
            → Adds
                (IsAddressRule std action)
                (IsNoAddress std)
                (raw ∷ ips)
                out
                (push_ip_rules std out (raw ∷ ips) action)
        by_rule some_left later none is outcome clean =
            let (rules, same, each) = later out in
            (
              rules,
              ip_pushed raw ips out none some_left is
                  ∙ ap (λ out. push_ip_rules std out ips action) (append-nil out)
                  ∙ same,
              skipped raw ips rules outcome each,
            )
        by_rule some_left later (some (kind, value)) is outcome clean =
            let w = joined kind (joined value (joined action (codes "no-resolve"))) in
            let (rules, same, each) = later (out ++ w ∷ []) in
            (
              w ∷ rules,
              ip_pushed raw ips out (some (kind, value)) some_left is
                  ∙ same
                  ∙ append_assoc out (w ∷ []) rules,
              written raw ips w rules (filled raw some_left)
                  (address_written std action (trim raw) kind value outcome clean a) each,
            )

-- The rules of the sites and of the addresses of one action.
pub record IsGroup (std : Std) (action : Text) (sites ips rules : List Text) : Type 0 where
  pub of_sites : List Text
  pub of_ips : List Text
  pub split : rules ≡ of_sites ++ of_ips
  pub each_site : Each (IsSiteRule action) (λ s. ⊥) sites of_sites
  pub each_ip : Each (IsAddressRule std action) (IsNoAddress std) ips of_ips

group-IsGroup :
    (std : Std) (before sites ips : List Text) (action : Text)
    → IsClean action
    → All IsClean sites
    → All IsClean ips
    → (rules : List Text) × (push_ip_rules std (push_site_rules before sites action) ips action
        ≡ before ++ rules)
      × IsGroup std action sites ips rules
group-IsGroup std before sites ips action a clean clean' =
    let (of_sites, same, each) = sites-Adds action a sites before clean in
    let (of_ips, same', each') =
      ips-Adds action a std ips (push_site_rules before sites action) clean' in
    (
      of_sites ++ of_ips,
      same' ∙ ap (λ out. out ++ of_ips) same ∙ append_assoc before of_sites of_ips,
      record {
        of_sites = of_sites;
        of_ips = of_ips;
        split = refl;
        each_site = each;
        each_ip = each';
      },
    )

-- The rules of a profile: those that block, then those that go round the proxy, then those that take it.
pub record IsSplitTunnel (std : Std) (p : RoutingProfile) (target : Text) (rules : List Text)
    : Type 0 where
  pub blocked : List Text
  pub direct : List Text
  pub proxied : List Text
  pub in_order : rules ≡ blocked ++ direct ++ proxied
  pub blocks : IsGroup std (codes "REJECT") p.block_sites p.block_ip blocked
  pub directs : IsGroup std (codes "DIRECT") p.direct_sites p.direct_ip direct
  pub proxies : IsGroup std target p.proxy_sites p.proxy_ip proxied

fields-IsClean : (xs : List Text) → All IsOneField xs → All IsClean xs
fields-IsClean xs = All-map IsOneField IsClean xs (λ x h. (h.no_comma, h.no_control))

two_parts : (P : Text → Type 0) (xs ys : List Text) → All P (xs ++ ys) → All P xs × All P ys
two_parts P [] ys h = (tt, h)
two_parts P (x ∷ xs) ys h = let (hx, hy) = two_parts P xs ys h.1 in ((h.0, hx), hy)

-- Where the proxy's name has no comma and no control character, the rules that a profile which passed
-- its checks writes stand in the order block, direct, proxy. In each group they are those of its sites and
-- then of its addresses, one for each entry and in their order, but for entries that are blank once
-- trimmed or are no address; each stays on one line and has as its fields the kind and the value that the
-- entry's prefix or shape calls for, the outbound of the group, and for an address `no-resolve`.
pub mihomo_rules_from_profile-IsSplitTunnel :
    (c : Codec) (p : RoutingProfile) (target : Text)
    → IsValid c p
    → IsClean target
    → IsSplitTunnel c.std p target (mihomo_rules_from_profile c.std p target)
unfolding mihomo_rules_from_profile
mihomo_rules_from_profile-IsSplitTunnel c p target valid clean =
    let clean_rules = fields-IsClean (all_rules c p) valid.rules in
    let sites = p.direct_sites ++ p.proxy_sites ++ p.block_sites in
    let (h1, block_ip) =
      two_parts IsClean (sites ++ p.direct_ip ++ p.proxy_ip) p.block_ip clean_rules in
    let (h2, proxy_ip) = two_parts IsClean (sites ++ p.direct_ip) p.proxy_ip h1 in
    let (h3, direct_ip) = two_parts IsClean sites p.direct_ip h2 in
    let (h4, block_sites) = two_parts IsClean (p.direct_sites ++ p.proxy_sites) p.block_sites h3 in
    let (direct_sites, proxy_sites) = two_parts IsClean p.direct_sites p.proxy_sites h4 in
    let (blocked, same, blocks) =
      group-IsGroup c.std [] p.block_sites p.block_ip (codes "REJECT") (refl, refl) block_sites
        block_ip in
    let (direct, same', directs) =
      group-IsGroup c.std _ p.direct_sites p.direct_ip (codes "DIRECT") (refl, refl) direct_sites
        direct_ip in
    let (proxied, same'', proxies) =
      group-IsGroup c.std _ p.proxy_sites p.proxy_ip target clean proxy_sites proxy_ip in
    record {
      blocked = blocked;
      direct = direct;
      proxied = proxied;
      in_order =
          same'' ∙ ap (λ before. before ++ proxied) (same' ∙ ap (λ before. before ++ direct) same);
      blocks = blocks;
      directs = directs;
      proxies = proxies;
    }
