-- ===== src/ClientConfig/Rules/Kinds.antt =====
-- src-tauri/src/config/mihomo_config.rs: the kind and the value of the rule that an entry of a routing
-- profile calls for.
use kwik_proxy_secure.ClientConfig.Rules.{IpAddr, site_rule, ip_rule}
use kwik_proxy_secure.Net.{Std, ip_addr, v4, v6}
use kwik_proxy_secure.Prelude.{
  ◌⊎◌, Member, if-holds, Text, codes, Bool, true, false, List, [], ◌∷◌, ◌++◌, Option, none, some,
  All, ◌≡◌, refl, arith, inl, inr, contains, is_control, strip_prefix, any-concat, ◌==◌,
  if◌then◌else◌,
}
use kwik_proxy_secure.ClientConfig.Rules.Fields.{IsRule, IsClean, strip_prefix-IsClean}

stripped :
    (s prefix kind : Text) (other : Text × Text)
    → IsClean s
    → IsClean kind
    → (IsClean other.0 × IsClean other.1)
    → (o : Option Text) → strip_prefix s prefix ≡ o
    → let made : Text × Text = elim o [ some rest ↦ (kind, rest) | none ↦ other ] in
      IsClean made.0 × IsClean made.1
stripped s prefix kind other clean k rest none e = rest
stripped s prefix kind other clean k rest (some t) e = (k, strip_prefix-IsClean s prefix t clean e)

pub site_rule_lem : (s : Text) → IsClean s → IsClean (site_rule s).0 × IsClean (site_rule s).1
unfolding site_rule
site_rule_lem s clean =
    let plain =
      if-holds (λ (w : Text × Text). IsClean w.0 × IsClean w.1) (contains b'.' s)
        (codes "DOMAIN-SUFFIX", s) (codes "DOMAIN-KEYWORD", s)
        (λ (e : contains b'.' s ≡ true). ((refl, refl), clean))
        (λ (e : contains b'.' s ≡ false). ((refl, refl), clean)) in
    stripped s (codes "geosite:") (codes "GEOSITE") _ clean (refl, refl)
      (stripped s (codes "keyword:") (codes "DOMAIN-KEYWORD") _ clean (refl, refl)
        (stripped s (codes "*.") (codes "DOMAIN-SUFFIX") _ clean (refl, refl)
          (stripped s (codes "regex:") (codes "DOMAIN-REGEX") _ clean (refl, refl)
            (stripped s (codes "domain:") (codes "DOMAIN") _ clean (refl, refl) plain
              (strip_prefix s (codes "domain:")) refl)
            (strip_prefix s (codes "regex:")) refl)
          (strip_prefix s (codes "*.")) refl)
        (strip_prefix s (codes "keyword:")) refl)
      (strip_prefix s (codes "geosite:")) refl

abbrev pub IsCleanPair : Option (Text × Text) → Type 0
IsCleanPair none = Unit
IsCleanPair (some (kind, value)) = IsClean kind × IsClean value

suffix-IsClean : (s suffix : Text) → IsClean s → IsClean suffix → IsClean (s ++ suffix)
suffix-IsClean s suffix clean clean' = (
  ground (arith, any-concat (λ c. c == b',') s suffix),
  ground (arith, any-concat is_control s suffix),
)

plain_ip :
    (std : Std) (s : Text)
    → IsClean s
    → (o : Option IpAddr)
    → IsCleanPair (elim o [
      | some (v6 a) ↦ some (codes "IP-CIDR6", s ++ codes "/128")
      | some (v4 a) ↦ some (codes "IP-CIDR", s ++ codes "/32")
      | none ↦ none
    ])
plain_ip std s clean none = tt
plain_ip std s clean (some (v4 a)) = ((refl, refl), suffix-IsClean s _ clean (refl, refl))
plain_ip std s clean (some (v6 a)) = ((refl, refl), suffix-IsClean s _ clean (refl, refl))

cidr_or :
    (b : Bool) (kind s : Text) (rest : Option (Text × Text))
    → IsClean kind
    → IsClean s
    → IsCleanPair rest
    → IsCleanPair (if b then some (kind, s) else rest)
cidr_or true kind s rest k clean other = (k, clean)
cidr_or false kind s rest k clean other = other

kind_of_two : (b : Bool) (k k' : Text) → IsClean k → IsClean k' → IsClean (if b then k else k')
kind_of_two true k k' h h' = h
kind_of_two false k k' h h' = h'

stripped_ip :
    (s prefix kind : Text) (other : Option (Text × Text))
    → IsClean s
    → IsClean kind
    → IsCleanPair other
    → (o : Option Text) → strip_prefix s prefix ≡ o
    → IsCleanPair (elim o [ some rest ↦ some (kind, rest) | none ↦ other ])
stripped_ip s prefix kind other clean k rest none e = rest
stripped_ip s prefix kind other clean k rest (some t) e =
    (k, strip_prefix-IsClean s prefix t clean e)

pub ip_rule_lem : (std : Std) (s : Text) → IsClean s → IsCleanPair (ip_rule std s)
unfolding ip_rule
ip_rule_lem std s clean =
    let address =
      cidr_or (contains b'/' s) _ s _
        (kind_of_two (contains b':' s) (codes "IP-CIDR6") (codes "IP-CIDR") (refl, refl)
          (refl, refl))
        clean (plain_ip std s clean (ip_addr std s)) in
    stripped_ip s (codes "geoip:") (codes "GEOIP") _ clean (refl, refl) address
      (strip_prefix s (codes "geoip:")) refl

-- What the prefix of a site says of the kind of its rule.
abbrev pub site_prefixes : List (Text × Text)
site_prefixes =
    (codes "geosite:", codes "GEOSITE")
    ∷ (codes "keyword:", codes "DOMAIN-KEYWORD")
    ∷ (codes "*.", codes "DOMAIN-SUFFIX")
    ∷ (codes "regex:", codes "DOMAIN-REGEX")
    ∷ (codes "domain:", codes "DOMAIN")
    ∷ []

-- The kind and the value that a site calls for: those of its prefix, and without one a suffix for a name
-- with a dot and a keyword for another.
abbrev pub IsSite : Text → Text → Text → Type 0
IsSite s kind value =
    ((prefix : Text) × Member (prefix, kind) site_prefixes × (strip_prefix s prefix ≡ some value))
    ⊎ (All (λ row. strip_prefix s row.0 ≡ none) site_prefixes
        × (value ≡ s)
        × (((contains b'.' s ≡ true) × (kind ≡ codes "DOMAIN-SUFFIX"))
            ⊎ ((contains b'.' s ≡ false) × (kind ≡ codes "DOMAIN-KEYWORD"))))

-- The kind and the value of a single address.
abbrev pub IsSingle : IpAddr → Text → Text → Text → Type 0
IsSingle (v4 a) s kind value = (kind ≡ codes "IP-CIDR") × (value ≡ s ++ codes "/32")
IsSingle (v6 a) s kind value = (kind ≡ codes "IP-CIDR6") × (value ≡ s ++ codes "/128")

-- The kind and the value that an entry for addresses calls for: a set by its name, a network as it is
-- written, and a single address as the network of all its bits.
abbrev pub IsAddress : Std → Text → Text → Text → Type 0
IsAddress std s kind value =
    ((strip_prefix s (codes "geoip:") ≡ some value) × (kind ≡ codes "GEOIP"))
    ⊎ ((strip_prefix s (codes "geoip:") ≡ none)
        × (contains b'/' s ≡ true)
        × (value ≡ s)
        × (((contains b':' s ≡ true) × (kind ≡ codes "IP-CIDR6"))
            ⊎ ((contains b':' s ≡ false) × (kind ≡ codes "IP-CIDR"))))
    ⊎ ((strip_prefix s (codes "geoip:") ≡ none)
        × (contains b'/' s ≡ false)
        × ((ip : IpAddr) × (ip_addr std s ≡ some ip) × IsSingle ip s kind value))

-- An entry that no rule can be written for.
abbrev pub IsNoAddress : Std → Text → Type 0
IsNoAddress std s =
    (strip_prefix s (codes "geoip:") ≡ none) × (contains b'/' s ≡ false) × (ip_addr std s ≡ none)

abbrev pub IsSiteRule : Text → Text → Text → Type 0
IsSiteRule action s rule =
    (kind value : Text) × IsSite s kind value × IsRule (kind ∷ value ∷ action ∷ []) rule

abbrev pub IsAddressRule : Std → Text → Text → Text → Type 0
IsAddressRule std action s rule =
    (kind value : Text) × IsAddress std s kind value
    × IsRule (kind ∷ value ∷ action ∷ codes "no-resolve" ∷ []) rule

abbrev chosen_site :
    Text → Option Text → Option Text → Option Text → Option Text → Option Text → Text × Text
chosen_site s o1 o2 o3 o4 o5 = elim o1 [
  | some rest ↦ (codes "GEOSITE", rest)
  | none ↦ elim o2 [
    | some rest ↦ (codes "DOMAIN-KEYWORD", rest)
    | none ↦ elim o3 [
      | some rest ↦ (codes "DOMAIN-SUFFIX", rest)
      | none ↦ elim o4 [
        | some rest ↦ (codes "DOMAIN-REGEX", rest)
        | none ↦ elim o5 [
          | some rest ↦ (codes "DOMAIN", rest)
          | none ↦
              if contains b'.' s then (codes "DOMAIN-SUFFIX", s) else (codes "DOMAIN-KEYWORD", s)
        ]
      ]
    ]
  ]
]

chosen_site-IsSite :
    (s : Text) (o1 o2 o3 o4 o5 : Option Text)
    → strip_prefix s (codes "geosite:") ≡ o1
    → strip_prefix s (codes "keyword:") ≡ o2
    → strip_prefix s (codes "*.") ≡ o3
    → strip_prefix s (codes "regex:") ≡ o4
    → strip_prefix s (codes "domain:") ≡ o5
    → IsSite s (chosen_site s o1 o2 o3 o4 o5).0 (chosen_site s o1 o2 o3 o4 o5).1
chosen_site-IsSite s (some v) o2 o3 o4 o5 e1 e2 e3 e4 e5 = inl (codes "geosite:", inl refl, e1)
chosen_site-IsSite s none (some v) o3 o4 o5 e1 e2 e3 e4 e5 =
    inl (codes "keyword:", inr (inl refl), e2)
chosen_site-IsSite s none none (some v) o4 o5 e1 e2 e3 e4 e5 =
    inl (codes "*.", inr (inr (inl refl)), e3)
chosen_site-IsSite s none none none (some v) o5 e1 e2 e3 e4 e5 =
    inl (codes "regex:", inr (inr (inr (inl refl))), e4)
chosen_site-IsSite s none none none none (some v) e1 e2 e3 e4 e5 =
    inl (codes "domain:", inr (inr (inr (inr (inl refl)))), e5)
chosen_site-IsSite s none none none none none e1 e2 e3 e4 e5 =
    if-holds (λ (w : Text × Text). IsSite s w.0 w.1) (contains b'.' s) (codes "DOMAIN-SUFFIX", s)
      (codes "DOMAIN-KEYWORD", s)
      (λ (e : contains b'.' s ≡ true). inr ((e1, (e2, (e3, (e4, (e5, tt))))), refl, inl (e, refl)))
      (λ (e : contains b'.' s ≡ false). inr ((e1, (e2, (e3, (e4, (e5, tt))))), refl, inr (e, refl)))

pub site_rule-IsSite : (s : Text) → IsSite s (site_rule s).0 (site_rule s).1
unfolding site_rule
site_rule-IsSite s = chosen_site-IsSite s _ _ _ _ _ refl refl refl refl refl

-- What the kind and the value, or their absence, say of an entry for addresses.
abbrev pub Outcome : Std → Text → Option (Text × Text) → Type 0
Outcome std s none = IsNoAddress std s
Outcome std s (some (kind, value)) = IsAddress std s kind value

single_lem :
    (std : Std) (s : Text)
    → strip_prefix s (codes "geoip:") ≡ none
    → contains b'/' s ≡ false
    → (o : Option IpAddr) → ip_addr std s ≡ o
    → Outcome std s (elim o [
      | some (v6 a) ↦ some (codes "IP-CIDR6", s ++ codes "/128")
      | some (v4 a) ↦ some (codes "IP-CIDR", s ++ codes "/32")
      | none ↦ none
    ])
single_lem std s named slash none read = (named, slash, read)
single_lem std s named slash (some (v4 a)) read =
    inr (inr (named, slash, (v4 a, read, (refl, refl))))
single_lem std s named slash (some (v6 a)) read =
    inr (inr (named, slash, (v6 a, read, (refl, refl))))

network_lem :
    (std : Std) (s : Text)
    → strip_prefix s (codes "geoip:") ≡ none
    → contains b'/' s ≡ true
    → (b : Bool) → contains b':' s ≡ b
    → Outcome std s (some (if b then codes "IP-CIDR6" else codes "IP-CIDR", s))
network_lem std s named slash true colon = inr (inl (named, slash, refl, inl (colon, refl)))
network_lem std s named slash false colon = inr (inl (named, slash, refl, inr (colon, refl)))

address_lem :
    (std : Std) (s : Text) (o : Option Text)
    → strip_prefix s (codes "geoip:") ≡ o
    → Outcome std s (elim o [
      | some rest ↦ some (codes "GEOIP", rest)
      | none ↦
          if contains b'/' s
          then some (if contains b':' s then codes "IP-CIDR6" else codes "IP-CIDR", s)
          else elim (ip_addr std s) [
            | some (v6 a) ↦ some (codes "IP-CIDR6", s ++ codes "/128")
            | some (v4 a) ↦ some (codes "IP-CIDR", s ++ codes "/32")
            | none ↦ none
          ]
    ])
address_lem std s (some rest) named = inl (named, refl)
address_lem std s none named =
    if-holds (Outcome std s) (contains b'/' s) _ _
      (λ (e : contains b'/' s ≡ true). network_lem std s named e (contains b':' s) refl)
      (λ (e : contains b'/' s ≡ false). single_lem std s named e (ip_addr std s) refl)

pub ip_rule-Outcome : (std : Std) (s : Text) → Outcome std s (ip_rule std s)
unfolding ip_rule
ip_rule-Outcome std s = address_lem std s (strip_prefix s (codes "geoip:")) refl
