-- ===== src/ClientConfig/Patch/Providers.antt =====
-- src-tauri/src/config/mihomo_config.rs and src-tauri/src/bin/kwik_helper/mihomo.rs: the providers that
-- `sanitize_providers` leaves are ones that `validate_provider_paths` accepts.
use mathlib.Core.Path.{subst}
use kwik_proxy_secure.ClientConfig.{Libs, or_fail, not_mapping}
use kwik_proxy_secure.ClientConfig.Sanitize.{
  clamp_interval, rewrite_provider, sanitize_provider, sanitize_entries, checked_section,
  sanitize_providers, provider_cache_path, cache_path, normalize_health, validate_https_remote_url,
  is_provider_name, clamp,
}
use kwik_proxy_secure.Mihomo.Accepted.{AllProviders, InSection}
use kwik_proxy_secure.Mihomo.Config.{
  Parsers, Value, number, string, mapping, Mapping, end, entry, get, string_value, mapping_value,
  as_str, as_mapping, and_then, all_some, unwrap_or, provider_checks, validate_providers,
  validate_provider_paths,
}
use kwik_proxy_secure.Prelude.{
  ℕ, Text, codes, text_eq, starts_with, leb, true, false, ◌||◌, List, Option, none, some, ok, ◌>>=◌,
  ensure->>-ok, >>=-eq-ok, >>-ok, ◌++◌, ◌∷◌, ◌≡◌, refl, ap, ◌∙◌, arith, ◌⊎◌, inl, inr,
}
use kwik_proxy_secure.Yaml.{insert, update, with_mapping, as_u64, entries}
use kwik_proxy_secure.Yaml.Laws.{get-insert, get-insert_other, get-update, get-update_other}

-- The provider's URL, if it has one, is written with a lower-case scheme.
abbrev pub HasPlainUrl : Value → Type 0
HasPlainUrl v =
    all_some (λ url. starts_with url (codes "https://"))
      (and_then (λ m. string_value m (codes "url")) (as_mapping v))
    ≡ true

clamp_interval-keeps :
    (j : Text) (low high : ℕ) (m : Mapping)
    → text_eq (codes "interval") j ≡ false
    → get j (clamp_interval low high m) ≡ get j m
unfolding clamp_interval
clamp_interval-keeps j low high m e = by_value (and_then as_u64 (get (codes "interval") m))
  where
    by_value :
        (o : Option ℕ)
        → get j
            (elim o [ none ↦ m | some n ↦ insert (codes "interval") (number (clamp low high n)) m ])
          ≡ get j m
    by_value none = refl
    by_value (some n) = get-insert_other j (codes "interval") (number (clamp low high n)) m e

rewrite_provider-values :
    (path : Text) (provider : Mapping)
    → (string_value (rewrite_provider path provider) (codes "path") ≡ some path)
      × (string_value (rewrite_provider path provider) (codes "url")
          ≡ string_value provider (codes "url"))
unfolding rewrite_provider text_eq
rewrite_provider-values path provider =
    let placed = insert (codes "path") (string path) provider in
    let typed = insert (codes "type") (string (codes "http")) placed in
    let timed = clamp_interval 300 604800 typed in
    let later =
      λ (j : Text) (health : text_eq (codes "health-check") j ≡ false)
          (interval : text_eq (codes "interval") j ≡ false)
          (type : text_eq (codes "type") j ≡ false).
        get-update_other j (codes "health-check") (with_mapping normalize_health) timed health
        ∙ clamp_interval-keeps j 300 604800 typed interval
        ∙ get-insert_other j (codes "type") (string (codes "http")) placed type in
    (
      ap (and_then as_str)
          (later (codes "path") refl refl refl ∙ get-insert (codes "path") (string path) provider),
      ap (and_then as_str) (
          later (codes "url") refl refl refl
          ∙ get-insert_other (codes "url") (codes "path") (string path) provider refl),
    )

-- What a sanitized section is: as it was, if there is none, or the mapping of the sanitized providers.
abbrev SanitizedTo : Libs → Text → Text → Mapping → Mapping → Type 0
SanitizedTo libs key kind root out =
    ((get key root ≡ none) × (out ≡ root))
    ⊎ ((value : Value) × (providers sanitized : Mapping) × (get key root ≡ some value)
        × (as_mapping value ≡ some providers)
        × (sanitize_entries libs kind providers ≡ ok sanitized)
        × (out ≡ update key (λ section. mapping sanitized) root))

sanitize_providers-cases :
    (libs : Libs) (key kind : Text) (root out : Mapping)
    → sanitize_providers libs key kind root ≡ ok out
    → SanitizedTo libs key kind root out
unfolding sanitize_providers
sanitize_providers-cases libs key kind root out = by_value (get key root) refl
  where
    by_value :
        (o : Option Value)
        → get key root ≡ o
        → (elim o [
          | none ↦ ok root
          | some value ↦ or_fail not_mapping (as_mapping value) >>= λ providers.
              checked_section libs key kind providers root
        ])
          ≡ ok out
        → SanitizedTo libs key kind root out
    by_value none e h = inl (e, ground arith)
    by_value (some value) e h =
        let (providers, is_mapping, h1) =
          >>=-eq-ok (or_fail not_mapping (as_mapping value))
            (λ providers. checked_section libs key kind providers root) h in
        let (few, h2) = ensure->>-ok (leb (entries providers) 256) _ _ h1 in
        let (sanitized, cleaned, h3) = >>=-eq-ok (sanitize_entries libs kind providers) _ h2 in
        inr (value, providers, sanitized, e, ground arith, cleaned, ground arith)

module _ (libs : Libs) (ps : Parsers) where
  sanitize_provider-passes :
      (kind name : Text) (provider out : Mapping)
      → ((digest : List ℕ)
          → (ps.is_absolute (cache_path kind digest) || ps.has_parent_dir (cache_path kind digest))
            ≡ false)
      → sanitize_provider libs kind name provider ≡ ok out
      → all_some (λ url. starts_with url (codes "https://")) (string_value provider (codes "url"))
        ≡ true
      → provider_checks ps out ≡ ok tt
  unfolding sanitize_provider
  sanitize_provider-passes kind name provider out inside h plain =
      let (http, h1) =
        ensure->>-ok
          (text_eq (unwrap_or (codes "http") (string_value provider (codes "type"))) (codes "http"))
          _ _ h in
      let (url, has_url, h2) = >>=-eq-ok (or_fail _ (string_value provider (codes "url"))) _ h1 in
      let (remote, h3) =
        >>-ok (validate_https_remote_url libs.codec.std libs.codec.urls url) _ h2 in
      let path = provider_cache_path libs kind name url in
      let (has_path, same_url) = rewrite_provider-values path provider in
      let relative = inside (libs.sha256 (kind ++ 0 ∷ name ++ 0 ∷ url)) in
      passes (rewrite_provider path provider) path has_path relative
        (ap (all_some (λ url. starts_with url (codes "https://"))) same_url ∙ plain) (ground arith)
    where
      passes :
          (made : Mapping) (path : Text)
          → string_value made (codes "path") ≡ some path
          → (ps.is_absolute path || ps.has_parent_dir path) ≡ false
          → all_some (λ url. starts_with url (codes "https://")) (string_value made (codes "url"))
            ≡ true
          → made ≡ out
          → provider_checks ps out ≡ ok tt
      passes made path has_path relative plain same = ground arith

  sanitize_entries-passes :
      (kind : Text) (providers out : Mapping)
      → ((digest : List ℕ)
          → (ps.is_absolute (cache_path kind digest) || ps.has_parent_dir (cache_path kind digest))
            ≡ false)
      → sanitize_entries libs kind providers ≡ ok out
      → AllProviders HasPlainUrl providers
      → validate_providers ps out ≡ ok tt
  unfolding sanitize_entries validate_providers
  sanitize_entries-passes kind end out inside h plain = ground arith
  sanitize_entries-passes kind (entry k v rest) out inside h plain =
      let (name, is_name, h1) = >>=-eq-ok (or_fail _ (as_str k)) _ h in
      let (named, h2) = ensure->>-ok (is_provider_name name) _ _ h1 in
      let (provider, is_mapping, h3) = >>=-eq-ok (or_fail _ (as_mapping v)) _ h2 in
      let (sanitized, cleaned, h4) = >>=-eq-ok (sanitize_provider libs kind name provider) _ h3 in
      let (others, rest_cleaned, h5) = >>=-eq-ok (sanitize_entries libs kind rest) _ h4 in
      let first =
        sanitize_provider-passes kind name provider sanitized inside cleaned (ground arith) in
      let later = sanitize_entries-passes kind rest others inside rest_cleaned plain.1 in
      ground arith

  paths_lem :
      (root : Mapping) (section : Text) (providers : Mapping)
      → get section root ≡ some (mapping providers)
      → validate_providers ps providers ≡ ok tt
      → validate_provider_paths ps root section ≡ ok tt
  unfolding validate_provider_paths
  paths_lem root section providers there passes = ground arith

  pub same_section-passes :
      (root root' : Mapping) (section : Text)
      → get section root' ≡ get section root
      → validate_provider_paths ps root section ≡ ok tt
      → validate_provider_paths ps root' section ≡ ok tt
  unfolding validate_provider_paths
  same_section-passes root root' section same passes = ground arith

  -- What `sanitize_providers` returns passes the check of the paths.
  pub sanitize_providers-passes :
      (key kind : Text) (root out : Mapping)
      → ((digest : List ℕ)
          → (ps.is_absolute (cache_path kind digest) || ps.has_parent_dir (cache_path kind digest))
            ≡ false)
      → sanitize_providers libs key kind root ≡ ok out
      → InSection HasPlainUrl (mapping_value root key)
      → validate_provider_paths ps out key ≡ ok tt
  unfolding validate_provider_paths
  sanitize_providers-passes key kind root out inside h plain =
      elim (sanitize_providers-cases libs key kind root out h) [
        | inl (absent, same) ↦ ground arith
        | inr (value, providers, sanitized, there, is_mapping, cleaned, same) ↦
            let section : mapping_value root key ≡ some providers = ground arith in
            let plain' = subst (InSection HasPlainUrl) section plain in
            let passes = sanitize_entries-passes kind providers sanitized inside cleaned plain' in
            let written = get-update key (λ section. mapping sanitized) root in
            paths_lem out key sanitized (ground arith) passes
      ]

pub sanitize_providers-keeps :
    (libs : Libs) (j key kind : Text) (root out : Mapping)
    → text_eq key j ≡ false
    → sanitize_providers libs key kind root ≡ ok out
    → get j out ≡ get j root
sanitize_providers-keeps libs j key kind root out e h =
    elim (sanitize_providers-cases libs key kind root out h) [
      | inl (absent, same) ↦ ap (get j) same
      | inr (value, providers, sanitized, there, is_mapping, cleaned, same) ↦
          ap (get j) same ∙ get-update_other j key (λ section. mapping sanitized) root e
    ]
