-- ===== src/ClientConfig/Patch/Quiet.antt =====
-- src-tauri/src/config/mihomo_config.rs: no stage of `patch_full_yaml` opens a DNS listener.
use kwik_proxy_secure.ClientConfig.{Libs, FullYamlPatch, AntiDpiOptions}
use kwik_proxy_secure.ClientConfig.Dns.{
  merge_profile_dns, merge_hosts, merge_policy, merged, with_hosts, with_policy, custom_servers,
  is_set, domestic_of, dns_policy_keys,
}
use kwik_proxy_secure.ClientConfig.Patch.{
  edit_dns, with_doh, patch_anti_dpi, patch_profile_dns, prepend_rules, prefix_rules, with_prefix,
  set_terminal, set_defaults, patch_ipv6, patch_servers, patch_custom_dns, after_rules,
  with_servers,
}
use kwik_proxy_secure.ClientConfig.Patch.Kept.{
  prepend_rules-keeps, set_terminal-keeps, set_defaults-keeps,
}
use kwik_proxy_secure.Mihomo.Config.{Value, bool, mapping, Mapping, end, get}
use kwik_proxy_secure.Profile.{RoutingProfile}
use kwik_proxy_secure.Prelude.{
  Text, codes, text_eq, Bool, true, false, ◌&&◌, List, [], ◌∷◌, Option, none, some, ok, ◌≡◌, refl,
  ◌∙◌, arith, if-holds,
}
use kwik_proxy_secure.Yaml.{insert, update, or_insert, strings, with_mapping}
use kwik_proxy_secure.Yaml.Laws.{
  get-insert_other, get-update, get-update_other, get-or_insert, get-or_insert_other,
}

-- The section is there and names no listener.
abbrev pub IsQuiet : Mapping → Type 0
IsQuiet root =
    (dns : Mapping) × (get (codes "dns") root ≡ some (mapping dns))
    × (get (codes "listen") dns ≡ none)

-- An edit that does not touch `listen`.
abbrev pub KeepsListen : (Mapping → Mapping) → Type 0
KeepsListen change = (dns : Mapping) → get (codes "listen") (change dns) ≡ get (codes "listen") dns

pub same_section-IsQuiet :
    (root root' : Mapping)
    → get (codes "dns") root' ≡ get (codes "dns") root
    → IsQuiet root
    → IsQuiet root'
same_section-IsQuiet root root' same (dns, there, silent) = (dns, same ∙ there, silent)

updated-IsQuiet :
    (change : Mapping → Mapping) (root : Mapping)
    → KeepsListen change
    → IsQuiet root
    → IsQuiet (update (codes "dns") (with_mapping change) root)
updated-IsQuiet change root keeps (dns, there, silent) = (
  change dns,
  ground (arith, get-update (codes "dns") (with_mapping change) root),
  keeps dns ∙ silent,
)

entry-IsQuiet :
    (root : Mapping) → IsQuiet root → IsQuiet (or_insert (codes "dns") (mapping end) root)
entry-IsQuiet root (dns, there, silent) =
    (dns, ground (arith, get-or_insert (codes "dns") (mapping end) root), silent)

pub edit_dns-IsQuiet :
    (change : Mapping → Mapping) (root : Mapping)
    → KeepsListen change
    → IsQuiet root
    → IsQuiet (edit_dns change root)
edit_dns-IsQuiet change root keeps quiet =
    updated-IsQuiet change (or_insert (codes "dns") (mapping end) root) keeps
      (entry-IsQuiet root quiet)

abbrev listen : Text
listen = codes "listen"

with_doh-KeepsListen : (anti : AntiDpiOptions) → KeepsListen (with_doh anti)
unfolding text_eq
with_doh-KeepsListen anti dns =
    let d1 = insert (codes "enable") (bool true) dns in
    let d2 = insert (codes "nameserver") (strings (anti.server_resolve_doh ∷ [])) d1 in
    let bootstrap = strings (anti.server_resolve_bootstrap ∷ []) in
    let base =
      get-insert_other listen (codes "nameserver") (strings (anti.server_resolve_doh ∷ [])) d1 refl
      ∙ get-insert_other listen (codes "enable") (bool true) dns refl in
    if-holds (λ d. get listen d ≡ get listen dns) (is_set anti.server_resolve_bootstrap)
      (insert (codes "default-nameserver") bootstrap d2) d2
      (λ (e : is_set anti.server_resolve_bootstrap ≡ true).
        get-insert_other listen (codes "default-nameserver") bootstrap d2 refl ∙ base)
      (λ (e : is_set anti.server_resolve_bootstrap ≡ false). base)

section-KeepsListen :
    (key : Text) (change : Value → Value) (made : Value) (dns : Mapping)
    → text_eq key listen ≡ false
    → get listen (update key change (or_insert key made dns)) ≡ get listen dns
section-KeepsListen key change made dns e =
    get-update_other listen key change (or_insert key made dns) e
    ∙ get-or_insert_other listen key made dns e

merge_hosts-KeepsListen : (hosts : List (Text × Text)) → KeepsListen (merge_hosts hosts)
unfolding merge_hosts text_eq
merge_hosts-KeepsListen [] dns = refl
merge_hosts-KeepsListen (h ∷ hs) dns =
    section-KeepsListen (codes "hosts") (with_mapping (with_hosts (h ∷ hs))) (mapping end) dns refl

merge_policy-KeepsListen :
    (domestic : Option Text) (keys : List Text) → KeepsListen (merge_policy domestic keys)
unfolding merge_policy text_eq
merge_policy-KeepsListen none keys dns = refl
merge_policy-KeepsListen (some d) [] dns = refl
merge_policy-KeepsListen (some d) (k ∷ ks) dns =
    section-KeepsListen (codes "nameserver-policy")
      (with_mapping (with_policy or_insert d (k ∷ ks))) (mapping end) dns refl

merged-KeepsListen : (p : RoutingProfile) → KeepsListen (merged p)
merged-KeepsListen p dns =
    merge_policy-KeepsListen (domestic_of p) (dns_policy_keys p.direct_sites)
      (merge_hosts p.dns_hosts dns)
    ∙ merge_hosts-KeepsListen p.dns_hosts dns

patch_anti_dpi-IsQuiet :
    (anti : Option AntiDpiOptions) (root : Mapping)
    → IsQuiet root
    → IsQuiet (patch_anti_dpi anti root)
unfolding patch_anti_dpi
patch_anti_dpi-IsQuiet none root quiet = quiet
patch_anti_dpi-IsQuiet (some anti) root quiet =
    if-holds IsQuiet (anti.server_resolve && is_set anti.server_resolve_doh)
      (edit_dns (with_doh anti) root) root
      (λ (e : (anti.server_resolve && is_set anti.server_resolve_doh) ≡ true).
        edit_dns-IsQuiet (with_doh anti) root (with_doh-KeepsListen anti) quiet)
      (λ (e : (anti.server_resolve && is_set anti.server_resolve_doh) ≡ false). quiet)

patch_profile_dns-IsQuiet :
    (profile : Option RoutingProfile) (root : Mapping)
    → IsQuiet root
    → IsQuiet (patch_profile_dns profile root)
unfolding merge_profile_dns
patch_profile_dns-IsQuiet none root quiet = quiet
patch_profile_dns-IsQuiet (some p) root quiet =
    updated-IsQuiet (merged p) root (merged-KeepsListen p) quiet

patch_ipv6-IsQuiet : (ipv6 : Bool) (root : Mapping) → IsQuiet root → IsQuiet (patch_ipv6 ipv6 root)
unfolding patch_ipv6 text_eq
patch_ipv6-IsQuiet false root quiet = quiet
patch_ipv6-IsQuiet true root quiet =
    let six = insert (codes "ipv6") (bool true) root in
    edit_dns-IsQuiet (insert (codes "ipv6") (bool true)) six
      (λ dns. get-insert_other listen (codes "ipv6") (bool true) dns refl)
      (same_section-IsQuiet root six
        (get-insert_other (codes "dns") (codes "ipv6") (bool true) root refl) quiet)

patch_servers-IsQuiet :
    (servers : Option (List Text)) (root : Mapping)
    → IsQuiet root
    → IsQuiet (patch_servers servers root)
unfolding text_eq
patch_servers-IsQuiet none root quiet = quiet
patch_servers-IsQuiet (some servers) root quiet =
    edit_dns-IsQuiet (with_servers servers) root
      (λ dns.
        get-insert_other listen (codes "nameserver") (strings servers)
          (insert (codes "enable") (bool true) dns) refl
        ∙ get-insert_other listen (codes "enable") (bool true) dns refl)
      quiet

-- From the end of `before_rules` on, the DNS section keeps without a listener.
pub finished-IsQuiet :
    (libs : Libs) (patch : FullYamlPatch) (target : Text) (root ruled : Mapping)
    → set_terminal patch target (with_prefix libs patch target root) ≡ ok ruled
    → IsQuiet root
    → IsQuiet (after_rules patch ruled)
unfolding with_prefix after_rules patch_custom_dns text_eq
finished-IsQuiet libs patch target root ruled h quiet =
    let resolved = patch_profile_dns patch.routing_profile (patch_anti_dpi patch.anti_dpi root) in
    let prefixed = prepend_rules (prefix_rules libs target patch) resolved in
    let quiet1 =
      patch_profile_dns-IsQuiet patch.routing_profile _
        (patch_anti_dpi-IsQuiet patch.anti_dpi root quiet) in
    let quiet2 =
      same_section-IsQuiet resolved prefixed
        (prepend_rules-keeps (codes "dns") (prefix_rules libs target patch) resolved refl) quiet1 in
    let quiet3 =
      same_section-IsQuiet prefixed ruled
        (set_terminal-keeps (codes "dns") patch target prefixed ruled h refl) quiet2 in
    let quiet4 =
      same_section-IsQuiet ruled (set_defaults patch ruled)
        (set_defaults-keeps (codes "dns") patch ruled refl) quiet3 in
    patch_servers-IsQuiet (custom_servers patch.custom_dns) _
      (patch_ipv6-IsQuiet patch.ipv6 (set_defaults patch ruled) quiet4)
