-- ===== src/Web/Hosts.antt =====
-- src-tauri/src/config/routing_profile.rs: which hosts `is_https_remote_url` lets through. The URL
-- parser writes an IPv6 host between brackets, and the address parser reads none.
use mathlib.Core.List.{reverse, reverse-append, reverse-reverse}
use kwik_proxy_secure.Net.{Std, ip_addr, IpAddr}
use kwik_proxy_secure.Prelude.{
  ℕ, Text, codes, text_eq, to_ascii_lowercase, trim_end_matches, ends_with, Bool, true, false, [],
  ◌∷◌, ◌++◌, Option, none, some, ◌≡◌, sym, ap, ◌∙◌, ◌⊎◌, refl, arith, inl, inr, Option-cases,
  ascii_lower, starts_with, is_some, if◌then◌else◌, drop_while,
}
use kwik_proxy_secure.Web.{
  Url, Urls, is_remote_url, is_https_remote_url, is_remote_host, is_public_or, dot, is_local_name,
}
use kwik_proxy_secure.Web.Addresses.{is_public_ip}

module _ (std : Std) (urls : Urls) where
  -- What an accepted URL is known to be.
  pub record IsRemote (url : Url) : Type 0 where
    pub is_https : text_eq url.scheme (codes "https") ≡ true
    pub no_user : text_eq url.username [] ≡ true
    pub no_password : url.password ≡ none
    pub host : Text
    pub has_host : url.host ≡ some host
    pub not_local : is_local_name (to_ascii_lowercase (trim_end_matches dot host)) ≡ false
    pub not_private :
        (ip_addr std (to_ascii_lowercase (trim_end_matches dot host)) ≡ none)
        ⊎ ((ip : IpAddr) × (ip_addr std (to_ascii_lowercase (trim_end_matches dot host)) ≡ some ip)
            × (is_public_ip ip ≡ true))

  -- A host is no address, or a public one.
  abbrev pub IsNotPrivate : Text → Type 0
  IsNotPrivate host =
      (ip_addr std host ≡ none)
      ⊎ ((ip : IpAddr) × (ip_addr std host ≡ some ip) × (is_public_ip ip ≡ true))

  pub public_or_lem : (host : Text) (b : Bool) → is_public_or std host b ≡ true → IsNotPrivate host
  unfolding is_public_or
  public_or_lem host b h = elim (Option-cases (ip_addr std host)) [
    | inl name ↦ inl name
    | inr (ip, read) ↦ inr (ip, read, ground (arith, read))
  ]

  pub passed : (local r : Bool) → (if local then false else r) ≡ true → (local ≡ false) × (r ≡ true)
  passed true r h = cc
  passed false r h = (refl, h)

  remote_host_lem :
      (raw : Text)
      → is_remote_host std raw ≡ true
      → (is_local_name (to_ascii_lowercase (trim_end_matches dot raw)) ≡ false)
        × IsNotPrivate (to_ascii_lowercase (trim_end_matches dot raw))
  unfolding is_remote_host
  remote_host_lem raw h =
      let (named, public) =
        passed (is_local_name (to_ascii_lowercase (trim_end_matches dot raw))) _ h in
      (named, public_or_lem (to_ascii_lowercase (trim_end_matches dot raw)) true public)

  no_secret : (o : Option Text) → is_some o ≡ false → o ≡ none
  no_secret none h = refl
  no_secret (some t) h = cc

  remote_url_lem : (url : Url) → is_remote_url std url ≡ true → IsRemote url
  unfolding is_remote_url
  remote_url_lem url h = elim (Option-cases url.host) [
    | inl absent ↦ absurd (ground (arith, absent))
    | inr (host, there) ↦
        let remote : is_remote_host std host ≡ true = ground arith in
        let (named, public) = remote_host_lem host remote in
        record {
          is_https = ground arith;
          no_user = ground arith;
          no_password = no_secret url.password (ground arith);
          host = host;
          has_host = there;
          not_local = named;
          not_private = public;
        }
  ]

  -- A URL that is accepted is HTTPS without credentials, and its host is not a local name; an address
  -- that the host is read as is public.
  pub is_https_remote_url-IsRemote :
      (s : Text)
      → is_https_remote_url std urls s ≡ true
      → (url : Url) × (urls.parse s ≡ some url) × IsRemote url
  unfolding is_https_remote_url
  is_https_remote_url-IsRemote s h = elim (Option-cases (urls.parse s)) [
    | inl broken ↦ absurd (ground arith)
    | inr (url, parsed) ↦ (url, parsed, remote_url_lem url (ground arith))
  ]

  abbrev in_brackets : Text → Text
  in_brackets inner = b'[' ∷ (inner ++ b']' ∷ [])

  reverse-in_brackets : (inner : Text) → reverse (in_brackets inner) ≡ b']' ∷ reverse (b'[' ∷ inner)
  reverse-in_brackets inner = reverse-append (b'[' ∷ inner) (b']' ∷ [])

  trimmed : (inner : Text) → trim_end_matches dot (in_brackets inner) ≡ in_brackets inner
  unfolding trim_end_matches drop_while
  trimmed inner =
      rw (reverse-in_brackets inner)
        (ap reverse (sym (reverse-in_brackets inner)) ∙ reverse-reverse (in_brackets inner))

  lower-in_brackets :
      (inner : Text)
      → to_ascii_lowercase (in_brackets inner) ≡ in_brackets (to_ascii_lowercase inner)
  unfolding to_ascii_lowercase
  lower-in_brackets inner = ap (λ t. b'[' ∷ t) (lower_end inner)
    where
      lower_end :
          (t : Text) → to_ascii_lowercase (t ++ b']' ∷ []) ≡ to_ascii_lowercase t ++ b']' ∷ []
      lower_end [] = refl
      lower_end (c ∷ cs) = ap (λ r. ascii_lower c ∷ r) (lower_end cs)

  bracketed_name : (t : Text) → is_local_name (in_brackets t) ≡ false
  unfolding text_eq ends_with starts_with
  bracketed_name t = rw (reverse-in_brackets t) refl

  name_is_public :
      (t : Text) → std.ipv4 t ≡ none → std.ipv6 t ≡ none → is_public_or std t true ≡ true
  unfolding is_public_or
  name_is_public t four six = ground arith

  bracketed_host :
      (inner : Text)
      → ((t : Text) → std.ipv4 (b'[' ∷ t) ≡ none)
      → ((t : Text) → std.ipv6 (b'[' ∷ t) ≡ none)
      → is_remote_host std (in_brackets inner) ≡ true
  unfolding is_remote_host
  bracketed_host inner four six =
      rw (trimmed inner, lower-in_brackets inner, bracketed_name (to_ascii_lowercase inner))
        (name_is_public (in_brackets (to_ascii_lowercase inner)) (four _) (six _))

  -- A URL over HTTPS without credentials, whose host the URL parser writes between brackets, is
  -- accepted as public whatever address the brackets hold, since the address parsers of `std` read no
  -- text that begins with a bracket.
  pub bracketed-is_accepted :
      (s inner : Text) (port : Option ℕ)
      → ((t : Text) → std.ipv4 (b'[' ∷ t) ≡ none)
      → ((t : Text) → std.ipv6 (b'[' ∷ t) ≡ none)
      → urls.parse s
        ≡ some (record {
          scheme = codes "https";
          username = [];
          password = none;
          host = some (b'[' ∷ (inner ++ b']' ∷ []));
          port = port;
        })
      → is_https_remote_url std urls s ≡ true
  unfolding is_https_remote_url is_remote_url text_eq
  bracketed-is_accepted s inner port four six parsed =
      rw (parsed, is_https_remote_url) (bracketed_host inner four six)
