-- ===== src/ClientConfig/Rules.antt =====
-- src-tauri/src/config/mihomo_config.rs: the rules that the application adds, the outbound that they send
-- to, and the canonical catch-all rule.
pub mod Fields
pub mod Kinds
pub mod SplitTunnel
pub mod Terminal
use kwik_proxy_secure.ClientConfig.{
  AppRule, DefaultTraffic, Error, Libs, rules_not_sequence, auto_not_normalized, explicit_target,
  or_fail,
}
use kwik_proxy_secure.Mihomo.Config.{
  Value, Mapping, string, sequence, Items, nil, get, as_str, and_then, unwrap_or, is_key,
}
use kwik_proxy_secure.Net.{Std, IpAddr, v4, v6, ip_addr}
use kwik_proxy_secure.Profile.{RoutingProfile}
use kwik_proxy_secure.Yaml.{
  update, or_insert, as_sequence, with_sequence, value_get, listed, insert,
}
use kwik_proxy_secure.Prelude.{
  ℕ, Text, codes, text_eq, starts_with, len, Bool, true, false, not, ◌&&◌, ◌||◌, List, [], ◌∷◌,
  ◌++◌, Option, none, some, Result, ok, err, ◌>>=◌, if◌then◌else◌, leb, ltb, any, keep, trim,
  is_control, contains, strip_prefix, split, first_of, to_ascii_uppercase, is_some, ◌==◌,
}

unfoldable pub is_safe_rule_token : Text → Bool
unfolding trim text_eq len
is_safe_rule_token raw =
    let value = trim raw in
    not (text_eq value [])
    && leb (len value) 256
    && not (contains b',' value)
    && not (any is_control value)

abbrev pub joined : Text → Text → Text
joined first rest = first ++ b',' ∷ rest

-- `PROXY`, `DIRECT` or `REJECT` for an action of an application rule.
abbrev pub target_of : Text → Text → Option Text
target_of action proxy_target =
    if text_eq action (codes "proxy")
    then some proxy_target
    else if text_eq action (codes "direct")
    then some (codes "DIRECT")
    else if text_eq action (codes "block")
    then some (codes "REJECT")
    else none

abbrev pub matcher_of : Text → Text
matcher_of exe =
    if contains b'\\' exe || contains b'/' exe then codes "PROCESS-PATH" else codes "PROCESS-NAME"

unfoldable pub app_rule_to_mihomo : AppRule → Text → Option Text
unfolding trim text_eq len
app_rule_to_mihomo r proxy_target =
    let exe = trim r.exe in
    if text_eq exe []
      || ltb 1024 (len exe)
      || any (λ c. c == b',' || c == b'\r' || c == b'\n' || is_control c) exe
    then none
    else and_then (λ target. some (joined (matcher_of exe) (joined exe target)))
        (target_of r.action proxy_target)

abbrev pub local_direct_rules : List Text
local_direct_rules =
    codes "IP-CIDR,127.0.0.0/8,DIRECT,no-resolve"
    ∷ codes "IP-CIDR,10.0.0.0/8,DIRECT,no-resolve"
    ∷ codes "IP-CIDR,172.16.0.0/12,DIRECT,no-resolve"
    ∷ codes "IP-CIDR,192.168.0.0/16,DIRECT,no-resolve"
    ∷ codes "IP-CIDR,169.254.0.0/16,DIRECT,no-resolve"
    ∷ codes "IP-CIDR,224.0.0.0/4,DIRECT,no-resolve"
    ∷ codes "IP-CIDR6,::1/128,DIRECT,no-resolve"
    ∷ codes "IP-CIDR6,fc00::/7,DIRECT,no-resolve"
    ∷ codes "IP-CIDR6,fe80::/10,DIRECT,no-resolve"
    ∷ []

-- The kind and the value of the rule for a site.
unfoldable pub site_rule : Text → Text × Text
unfolding strip_prefix
site_rule s = elim (strip_prefix s (codes "geosite:")) [
  | some rest ↦ (codes "GEOSITE", rest)
  | none ↦ elim (strip_prefix s (codes "keyword:")) [
    | some rest ↦ (codes "DOMAIN-KEYWORD", rest)
    | none ↦ elim (strip_prefix s (codes "*.")) [
      | some rest ↦ (codes "DOMAIN-SUFFIX", rest)
      | none ↦ elim (strip_prefix s (codes "regex:")) [
        | some rest ↦ (codes "DOMAIN-REGEX", rest)
        | none ↦ elim (strip_prefix s (codes "domain:")) [
          | some rest ↦ (codes "DOMAIN", rest)
          | none ↦
              if contains b'.' s then (codes "DOMAIN-SUFFIX", s) else (codes "DOMAIN-KEYWORD", s)
        ]
      ]
    ]
  ]
]

abbrev pub write_site : Text × Text → Text → Text
write_site (kind, value) action = joined kind (joined value action)

unfoldable pub push_site_rules : List Text → List Text → Text → List Text
unfolding trim site_rule text_eq
push_site_rules out [] action = out
push_site_rules out (raw ∷ sites) action =
    let s = trim raw in
    let rest = push_site_rules (out ++ write_site (site_rule s) action ∷ []) sites action in
    let skipped = push_site_rules out sites action in if text_eq s [] then skipped else rest

-- The kind and the value of the rule for an address; none for what is no address.
unfoldable pub ip_rule : Std → Text → Option (Text × Text)
unfolding strip_prefix
ip_rule std s = elim (strip_prefix s (codes "geoip:")) [
  | some rest ↦ some (codes "GEOIP", rest)
  | none ↦
      if contains b'/' s
      then some (if contains b':' s then codes "IP-CIDR6" else codes "IP-CIDR", s)
      else elim (ip_addr std s) [
        | some (v6 a) ↦ some (codes "IP-CIDR6", s ++ codes "/128")
        | some (v4 a) ↦ some (codes "IP-CIDR", s ++ codes "/32")
        | none ↦ none
      ]
]

abbrev pub write_ip : Option (Text × Text) → Text → List Text
write_ip none action = []
write_ip (some (kind, value)) action =
    joined kind (joined value (joined action (codes "no-resolve"))) ∷ []

unfoldable pub push_ip_rules : Std → List Text → List Text → Text → List Text
unfolding trim ip_rule text_eq
push_ip_rules std out [] action = out
push_ip_rules std out (raw ∷ ips) action =
    let s = trim raw in
    let rest = push_ip_rules std (out ++ write_ip (ip_rule std s) action) ips action in
    let skipped = push_ip_rules std out ips action in if text_eq s [] then skipped else rest

unfoldable pub mihomo_rules_from_profile : Std → RoutingProfile → Text → List Text
unfolding push_site_rules push_ip_rules
mihomo_rules_from_profile std p proxy_target =
    let out1 = push_site_rules [] p.block_sites (codes "REJECT") in
    let out2 = push_ip_rules std out1 p.block_ip (codes "REJECT") in
    let out3 = push_site_rules out2 p.direct_sites (codes "DIRECT") in
    let out4 = push_ip_rules std out3 p.direct_ip (codes "DIRECT") in
    let out5 = push_site_rules out4 p.proxy_sites proxy_target in
    push_ip_rules std out5 p.proxy_ip proxy_target

abbrev pub is_terminal : Text → Bool
is_terminal head = text_eq head (codes "MATCH") || text_eq head (codes "FINAL")

-- The names of the groups that a rule can name.
abbrev pub opt_list : Option Text → List Text
opt_list none = []
opt_list (some t) = t ∷ []

abbrev pub names_of : List Value → List Text
names_of [] = []
names_of (group ∷ groups) =
    keep is_safe_rule_token (opt_list (and_then as_str (value_get (codes "name") group)))
    ++ names_of groups

-- The group that a rule's catch-all sends to, if it is one of them.
unfoldable pub target_in : Libs → List Text → List Text → Option Text
unfolding trim text_eq
target_in libs names [] = none
target_in libs names (head ∷ []) = none
target_in libs names (head ∷ target ∷ rest) =
    if is_terminal (libs.to_uppercase (trim head)) && any (λ n. text_eq n (trim target)) names
    then some (trim target)
    else none

unfoldable pub detected : Libs → List Text → List Value → Option Text
unfolding target_in split
detected libs names [] = none
detected libs names (r ∷ rs) =
    let later = detected libs names rs in
    elim (and_then (λ s. target_in libs names (split b',' s)) (as_str r)) [
      | some t ↦ some t
      | none ↦ later
    ]

-- `if let Some(Value::Sequence(rules))`.
abbrev pub plain_sequence : Option Value → List Value
plain_sequence (some (sequence rules)) = listed rules
plain_sequence _ = []

abbrev pub first_or : Text → List Text → Text
first_or fallback [] = fallback
first_or fallback (name ∷ names) = name

abbrev pub group_names : Mapping → List Text
group_names root = names_of (unwrap_or [] (and_then as_sequence (get (codes "proxy-groups") root)))

unfoldable pub detect_proxy_target : Libs → Mapping → Text
unfolding get value_get is_safe_rule_token detected keep
detect_proxy_target libs root =
    unwrap_or (first_or (codes "GLOBAL") (group_names root))
      (detected libs (group_names root) (plain_sequence (get (codes "rules") root)))

-- What `retain` drops.
unfoldable pub is_catch_all : Value → Bool
unfolding trim text_eq split to_ascii_uppercase
is_catch_all rule = elim (as_str rule) [
  | none ↦ false
  | some raw ↦ is_terminal (to_ascii_uppercase (trim (first_of (split b',' raw))))
]

abbrev pub with_terminal : Text → List Value → List Value
with_terminal target rules =
    keep (λ rule. not (is_catch_all rule)) rules ++ string (codes "MATCH," ++ target) ∷ []

abbrev pub rules_entry : Mapping → Mapping
rules_entry = or_insert (codes "rules") (sequence nil)

unfoldable pub normalize_terminal_default : Mapping → DefaultTraffic → Text → Result Error Mapping
unfolding get update or_insert is_catch_all keep
normalize_terminal_default root default_traffic proxy_target = do
  rules ← or_fail rules_not_sequence (and_then as_sequence (get (codes "rules") (rules_entry root)))
  target ← or_fail auto_not_normalized (explicit_target default_traffic proxy_target)
  ok (update (codes "rules") (with_sequence (with_terminal target)) (rules_entry root))
