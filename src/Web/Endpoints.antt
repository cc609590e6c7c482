-- ===== src/Web/Endpoints.antt =====
-- src-tauri/src/config/routing_profile.rs: which resolvers `is_valid_dns_endpoint` lets through, and which
-- addresses `is_ip_or_cidr`.
use kwik_proxy_secure.Net.{Std, IpAddr, ip_addr}
use kwik_proxy_secure.Prelude.{
  ℕ, ◌≤◌, Text, codes, to_ascii_lowercase, trim_end_matches, trim, starts_with, strip_prefix, len,
  any, is_control, Bool, true, false, ◌||◌, Option, none, some, ◌≡◌, ◌⊎◌, refl, arith, inl, inr,
  Option-cases, if◌then◌else◌, ltb,
}
use kwik_proxy_secure.Web.{
  Url, Urls, dot, is_local_name, is_valid_dns_endpoint, is_scheme_endpoint, is_endpoint_authority,
  is_endpoint_host, authority_host, is_https_remote_url,
}
use kwik_proxy_secure.Web.Addresses.{is_public_ip}
use kwik_proxy_secure.Web.Hosts.{
  IsRemote, IsNotPrivate, passed, public_or_lem, is_https_remote_url-IsRemote,
}

neither : (most n : ℕ) (b : Bool) → (ltb most n || b) ≡ false → (n ≤ most) × (b ≡ false)
neither most n b h = (ground arith, ground arith)

module _ (std : Std) (urls : Urls) where
  -- A text which the URL parser reads as a remote URL.
  abbrev pub IsRemoteUrl : Text → Type 0
  IsRemoteUrl s = (url : Url) × (urls.parse s ≡ some url) × IsRemote std urls url

  -- `host`, `host:port`, `[host]` or `[host]:port` with a host that is neither a local name nor an
  -- address that is not public.
  pub record IsRemoteAuthority (authority : Text) : Type 0 where
    pub host : Text
    pub has_host : authority_host std authority ≡ some host
    pub not_local : is_local_name (to_ascii_lowercase (trim_end_matches dot host)) ≡ false
    pub not_private : IsNotPrivate std urls (to_ascii_lowercase (trim_end_matches dot host))

  -- A public address, a remote URL, or a remote authority after `tls://` or `quic://`.
  abbrev pub Reaches : Text → Type 0
  Reaches t =
      ((ip : IpAddr) × (ip_addr std t ≡ some ip) × (is_public_ip ip ≡ true))
      ⊎ ((starts_with t (codes "https://") ≡ true) × IsRemoteUrl t)
      ⊎ ((authority : Text) × ((strip_prefix t (codes "tls://") ≡ some authority)
            ⊎ (strip_prefix t (codes "quic://") ≡ some authority))
          × IsRemoteAuthority authority)

  -- A resolver of one line that reaches one of these.
  pub record IsResolver (t : Text) : Type 0 where
    pub short : len (trim t) ≤ 2048
    pub no_control : any is_control (trim t) ≡ false
    pub reaches : Reaches (trim t)

  endpoint_host_lem :
      (authority host : Text)
      → authority_host std authority ≡ some host
      → is_endpoint_host std host ≡ true
      → IsRemoteAuthority authority
  unfolding is_endpoint_host
  endpoint_host_lem authority host there h =
      let (named, public) =
        passed std urls (is_local_name (to_ascii_lowercase (trim_end_matches dot host))) _ h in
      record {
        host = host;
        has_host = there;
        not_local = named;
        not_private =
            public_or_lem std urls (to_ascii_lowercase (trim_end_matches dot host)) _ public;
      }

  authority_lem :
      (authority : Text) → is_endpoint_authority std authority ≡ true → IsRemoteAuthority authority
  unfolding is_endpoint_authority
  authority_lem authority h = elim (Option-cases (authority_host std authority)) [
    | inl broken ↦ absurd (ground (arith, broken))
    | inr (host, there) ↦ endpoint_host_lem authority host there (ground (arith, there))
  ]

  scheme_lem :
      (t : Text)
      → is_scheme_endpoint std t ≡ true
      → (authority : Text) × ((strip_prefix t (codes "tls://") ≡ some authority)
          ⊎ (strip_prefix t (codes "quic://") ≡ some authority))
        × IsRemoteAuthority authority
  unfolding is_scheme_endpoint
  scheme_lem t h = elim (Option-cases (strip_prefix t (codes "tls://"))) [
    | inr (authority, tls) ↦ (authority, inl tls, authority_lem authority (ground (arith, tls)))
    | inl other ↦ elim (Option-cases (strip_prefix t (codes "quic://"))) [
      | inr (authority, quic) ↦
          (authority, inr quic, authority_lem authority (ground (arith, other, quic)))
      | inl neither ↦ absurd (ground (arith, other, neither))
    ]
  ]

  -- What a resolver without an address is sent to.
  by_scheme :
      (t : Text) (b : Bool)
      → starts_with t (codes "https://") ≡ b
      → (if b then is_https_remote_url std urls t else is_scheme_endpoint std t) ≡ true
      → Reaches t
  by_scheme t true web h = inr (inl (web, is_https_remote_url-IsRemote std urls t h))
  by_scheme t false other h = inr (inr (scheme_lem t h))

  by_address :
      (t : Text) (o : Option IpAddr)
      → ip_addr std t ≡ o
      → (elim o [
        | some ip ↦ is_public_ip ip
        | none ↦
            if starts_with t (codes "https://")
            then is_https_remote_url std urls t
            else is_scheme_endpoint std t
      ])
        ≡ true
      → Reaches t
  by_address t none name h = by_scheme t (starts_with t (codes "https://")) refl h
  by_address t (some ip) read h = inl (ip, read, h)

  pub is_valid_dns_endpoint-IsResolver :
      (t : Text) → is_valid_dns_endpoint std urls t ≡ true → IsResolver t
  unfolding is_valid_dns_endpoint
  is_valid_dns_endpoint-IsResolver t h =
      let (plain, rest) =
        passed std urls (ltb 2048 (len (trim t)) || any is_control (trim t)) _ h in
      record {
        short = (neither 2048 (len (trim t)) (any is_control (trim t)) plain).0;
        no_control = (neither 2048 (len (trim t)) (any is_control (trim t)) plain).1;
        reaches = by_address (trim t) (ip_addr std (trim t)) refl rest;
      }
