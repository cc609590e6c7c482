-- ===== src/Profile/Valid.antt =====
-- src-tauri/src/config/routing_profile.rs: what a profile is that passes the checks, and that no way in
-- goes round them.
use kwik_proxy_secure.Net.{IpAddr, v4, v6, ip_addr}
use kwik_proxy_secure.Web.{parse_u8}
use kwik_proxy_secure.Web.Endpoints.{IsRemoteUrl, IsResolver, is_valid_dns_endpoint-IsResolver}
use kwik_proxy_secure.Web.Hosts.{is_https_remote_url-IsRemote}
use mathlib.Core.Path.{subst}
use kwik_proxy_secure.Prelude.{
  ◌||◌, ◌⊎◌, inl, inr, refl, All-map, Bool-cases, Option-cases, text_eq_iff, ℕ, ◌≤◌, Text, codes,
  text_eq, starts_with, len, length, any, all, is_control, contains, trim, Bool, true, false, List,
  [], ◌∷◌, Option, none, some, ok, ◌>>◌, if◌then◌else◌, leb, ◌≡◌, ◌≢◌, arith, ensure->>-ok,
  ensure-ok, >>-ok, >>=-eq-ok, ◌*◌, All,
}
use kwik_proxy_secure.Profile.{
  is_ip_or_cidr, is_valid_host_pattern, prefix_fits, max_prefix, first_part, second_part, Codec,
  RoutingProfile, Error, validate, parse_json, parse_plain, parse_encoded, parse_profile_input,
  decode, is_safe_rule, is_ip_rule, is_url, is_host_entry, is_endpoint, is_empty_or, all_rules,
  ip_rules, dns_endpoints, or_fail, bad_json, not_base64, not_utf8, json_too_large,
  decoded_too_large, max_json_bytes, max_input_bytes, input_too_large,
}

-- A rule that cannot be read as more than one field of one line.
pub record IsOneField (entry : Text) : Type 0 where
  pub not_empty : entry ≢ []
  pub bounded : len entry ≤ 4096
  pub no_comma : contains b',' entry ≡ false
  pub no_control : any is_control entry ≡ false

all_lem :
    {A : Type 0} (test : A → Bool) (xs : List A) → all test xs ≡ true → All (λ x. test x ≡ true) xs
all_lem test [] h = tt
all_lem test (x ∷ xs) h = (ground arith, all_lem test xs (ground arith))

safe_rule-IsOneField : (entry : Text) → is_safe_rule entry ≡ true → IsOneField entry
unfolding is_safe_rule text_eq
safe_rule-IsOneField [] h = cc
safe_rule-IsOneField (c ∷ cs) h = record {
  not_empty = ground arith;
  bounded = ground arith;
  no_comma = ground arith;
  no_control = ground arith;
}

-- The bits of an address.
abbrev pub width : IpAddr → ℕ
width (v4 i) = 32
width (v6 i) = 128

-- No prefix length, or one in range.
abbrev pub IsPrefix : ℕ → Option Text → Type 0
IsPrefix most prefix =
    (prefix ≡ none)
    ⊎ ((digits : Text) × (n : ℕ) × (prefix ≡ some digits) × (parse_u8 digits ≡ some n) × (n ≤ most))

width_lem : (ip : IpAddr) → max_prefix ip ≡ width ip
width_lem (v4 i) = refl
width_lem (v6 i) = refl

prefix_lem :
    (most : ℕ) (prefix : Option Text) → prefix_fits most prefix ≡ true → IsPrefix most prefix
prefix_lem most none h = inl refl
prefix_lem most (some digits) h = elim (Option-cases (parse_u8 digits)) [
  | inl broken ↦ absurd (ground arith)
  | inr (n, read) ↦ inr (digits, n, refl, read, ground (arith, read))
]

module _ (c : Codec) where
  -- A name of a set of addresses, or an address with at most the prefix length of its kind behind it.
  abbrev pub IsIpRule : Text → Type 0
  IsIpRule entry =
      (starts_with entry (codes "geoip:") ≡ true)
      ⊎ ((ip : IpAddr) × (ip_addr c.std (first_part entry) ≡ some ip)
          × IsPrefix (width ip) (second_part entry))

  -- A valid profile: every rule is one field, every IP rule is a `geoip:` name or an address, and
  -- what it sends the program to is remote.
  pub record IsValid (p : RoutingProfile) : Type 0 where
    pub rules : All IsOneField (all_rules c p)
    pub ips : All IsIpRule (ip_rules c p)
    pub hosts :
        All (λ e. (ip : IpAddr) × (ip_addr c.std e.1 ≡ some ip)) p.dns_hosts
        × All (λ e. is_valid_host_pattern e.0 ≡ true) p.dns_hosts
    pub endpoints : All (λ t. (t ≡ []) ⊎ IsResolver c.std c.urls t) (dns_endpoints c p)
    pub geoip : (p.geoip_url ≡ []) ⊎ IsRemoteUrl c.std c.urls p.geoip_url
    pub geosite : (p.geosite_url ≡ []) ⊎ IsRemoteUrl c.std c.urls p.geosite_url
    pub few_rules : length (all_rules c p) ≤ 100000
    pub few_hosts : length p.dns_hosts ≤ 4096

  ip_rule_lem : (entry : Text) → is_ip_rule c entry ≡ true → IsIpRule entry
  unfolding is_ip_or_cidr
  ip_rule_lem entry h =
      by_kind (starts_with entry (codes "geoip:")) (ip_addr c.std (first_part entry)) refl refl h
    where
      by_kind :
          (b : Bool) (o : Option IpAddr)
          → starts_with entry (codes "geoip:") ≡ b
          → ip_addr c.std (first_part entry) ≡ o
          → (b || elim o [
            | none ↦ false
            | some ip ↦ prefix_fits (max_prefix ip) (second_part entry)
          ])
            ≡ true
          → IsIpRule entry
      by_kind true o named read h = inl named
      by_kind false none named read h = cc
      by_kind false (some ip) named read h = inr (
        ip,
        read,
        prefix_lem (width ip) (second_part entry)
            (subst (λ n. prefix_fits n (second_part entry) ≡ true) (width_lem ip) h),
      )

  empty_or_lem :
      (test : Text → Bool) (P : Text → Type 0) (t : Text)
      → (test t ≡ true → P t)
      → is_empty_or c test t ≡ true
      → (t ≡ []) ⊎ P t
  empty_or_lem test P t good h = elim (Bool-cases (text_eq t [])) [
    | inl empty ↦ inl ((text_eq_iff t []).0 empty)
    | inr other ↦ inr (good (ground (arith, other)))
  ]

  url_lem : (t : Text) → is_empty_or c (is_url c) t ≡ true → (t ≡ []) ⊎ IsRemoteUrl c.std c.urls t
  url_lem t h =
      empty_or_lem (is_url c) (IsRemoteUrl c.std c.urls) t
        (is_https_remote_url-IsRemote c.std c.urls t) h

  endpoint_lem :
      (t : Text) → is_empty_or c (is_endpoint c) t ≡ true → (t ≡ []) ⊎ IsResolver c.std c.urls t
  endpoint_lem t h =
      empty_or_lem (is_endpoint c) (IsResolver c.std c.urls) t
        (is_valid_dns_endpoint-IsResolver c.std c.urls t) h

  address_lem :
      (e : Text × Text) → is_host_entry c e ≡ true → (ip : IpAddr) × (ip_addr c.std e.1 ≡ some ip)
  address_lem (host, address) h = elim (Option-cases (ip_addr c.std address)) [
    | inl name ↦ absurd (ground arith)
    | inr read ↦ read
  ]

  pattern_lem : (e : Text × Text) → is_host_entry c e ≡ true → is_valid_host_pattern e.0 ≡ true
  pattern_lem (host, address) h = ground arith

  fields_lem : (xs : List Text) → All (λ x. is_safe_rule x ≡ true) xs → All IsOneField xs
  fields_lem [] h = tt
  fields_lem (x ∷ xs) h = (safe_rule-IsOneField x h.0, fields_lem xs h.1)

  -- Each test has passed.
  validate_lem :
      (p : RoutingProfile)
      → validate c p ≡ ok tt
      → (all is_safe_rule (all_rules c p) ≡ true)
        × (all (is_ip_rule c) (ip_rules c p) ≡ true)
        × (all (is_host_entry c) p.dns_hosts ≡ true)
        × (all (is_empty_or c (is_endpoint c)) (dns_endpoints c p) ≡ true)
        × (is_empty_or c (is_url c) p.geoip_url ≡ true)
        × (is_empty_or c (is_url c) p.geosite_url ≡ true)
        × (leb (length (all_rules c p)) 100000 ≡ true)
        × (leb (length p.dns_hosts) 4096 ≡ true)
  unfolding validate
  validate_lem p h =
      let (named, h1) = ensure->>-ok _ _ _ h in
      let (geoip, h2) = ensure->>-ok _ _ _ h1 in
      let (geosite, h3) = ensure->>-ok _ _ _ h2 in
      let (endpoints, h4) = ensure->>-ok _ _ _ h3 in
      let (types, h5) = ensure->>-ok _ _ _ h4 in
      let (few_hosts, h6) = ensure->>-ok _ _ _ h5 in
      let (hosts, h7) = ensure->>-ok _ _ _ h6 in
      let (few_rules, h8) = ensure->>-ok _ _ _ h7 in
      let (rules, h9) = ensure->>-ok _ _ _ h8 in
      (rules, ensure-ok _ _ h9, hosts, endpoints, geoip, geosite, few_rules, few_hosts)

  pub validate-IsValid : (p : RoutingProfile) → validate c p ≡ ok tt → IsValid p
  validate-IsValid p h =
      let (rules, ips, hosts, endpoints, geoip, geosite, few_rules, few_hosts) = validate_lem p h in
      record {
        rules = fields_lem (all_rules c p) (all_lem is_safe_rule (all_rules c p) rules);
        ips =
            All-map _ IsIpRule (ip_rules c p) ip_rule_lem
              (all_lem (is_ip_rule c) (ip_rules c p) ips);
        hosts = (
          All-map _ _ p.dns_hosts address_lem (all_lem (is_host_entry c) p.dns_hosts hosts),
          All-map _ _ p.dns_hosts pattern_lem (all_lem (is_host_entry c) p.dns_hosts hosts),
        );
        endpoints =
            All-map _ _ (dns_endpoints c p) endpoint_lem
              (all_lem (is_empty_or c (is_endpoint c)) (dns_endpoints c p) endpoints);
        geoip = url_lem p.geoip_url geoip;
        geosite = url_lem p.geosite_url geosite;
        few_rules = ground (arith, few_rules);
        few_hosts = ground (arith, few_hosts);
      }

  -- Inversion of a checked parse.
  pub parse_json_lem :
      (s : Text) (p : RoutingProfile)
      → parse_json c s ≡ ok p
      → (c.json s ≡ some p) × (validate c p ≡ ok tt)
  unfolding parse_json
  parse_json_lem s p h =
      let (q, read, rest) =
        >>=-eq-ok (or_fail c bad_json (c.json s)) (λ q. validate c q >> ok q) h in
      let (checked, same) = >>-ok (validate c q) (ok q) rest in
      let there : q ≡ p = ground arith in
      (
        subst (λ x. c.json s ≡ some x) there (or_fail-ok (c.json s) q bad_json read),
        subst (λ x. validate c x ≡ ok tt) there checked,
      )
    where
      or_fail-ok :
          (o : Option RoutingProfile) (q : RoutingProfile) (e : Error)
          → or_fail c e o ≡ ok q
          → o ≡ some q
      or_fail-ok none q e h = cc
      or_fail-ok (some r) q e h = ground arith

  plain_lem :
      (t : Text) (p : RoutingProfile)
      → parse_plain c t ≡ ok p
      → (s : Text) × (parse_json c s ≡ ok p)
  unfolding parse_plain
  plain_lem t p e =
      (t, (ensure->>-ok (leb (len t) max_json_bytes) json_too_large (parse_json c t) e).1)

  encoded_lem :
      (t : Text) (p : RoutingProfile)
      → parse_encoded c t ≡ ok p
      → (s : Text) × (parse_json c s ≡ ok p)
  unfolding parse_encoded
  encoded_lem t p e =
      let (bytes, decoded, e1) = >>=-eq-ok (or_fail c not_base64 (decode c t)) _ e in
      let (small, e2) = ensure->>-ok (leb (length bytes) max_json_bytes) decoded_too_large _ e1 in
      let (s, read, e3) = >>=-eq-ok (or_fail c not_utf8 (c.utf8 bytes)) (parse_json c) e2 in (s, e3)

  -- Whether it comes as JSON or as base64, a profile that `parse_profile_input` returns was read by the
  -- JSON parser and is valid: each rule is one non-empty field without commas and control characters,
  -- of at most 4096 bytes; each IP rule begins with `geoip:` or is an address, with a prefix length in
  -- the range of its kind or none, and whatever text after a second slash; each URL that is set is
  -- HTTPS without credentials, to a host that is no local name and is not read as an address that is
  -- not public, brackets and all; each resolver that is set is a public address, such a URL,
  -- or such a host after `tls://` or `quic://`; each DNS host has an address; and there are at most
  -- 100,000 rules and 4,096 DNS hosts.
  pub parse_profile_input-IsValid :
      (input : Text) (p : RoutingProfile)
      → parse_profile_input c input ≡ ok p
      → IsValid p × ((s : Text) × (c.json s ≡ some p)) × (len input ≤ 1536 * 1024)
  unfolding parse_profile_input
  parse_profile_input-IsValid input p h =
      let (small, rest) = ensure->>-ok (leb (len input) max_input_bytes) input_too_large _ h in
      let (s, parsed) = chosen (starts_with (trim input) (codes "{")) (trim input) rest in
      let (read, checked) = parse_json_lem s p parsed in
      (validate-IsValid p checked, (s, read), ground (arith, small))
    where
      chosen :
          (b : Bool) (t : Text)
          → (if b then parse_plain c t else parse_encoded c t) ≡ ok p
          → (s : Text) × (parse_json c s ≡ ok p)
      chosen true t e = plain_lem t p e
      chosen false t e = encoded_lem t p e
