-- ===== src/Store/Confined.antt =====
-- src-tauri/src/config/routing_store.rs: where a download goes, and what comes of it.
use kwik_proxy_secure.Web.Endpoints.{IsRemoteUrl}
use kwik_proxy_secure.Web.Hosts.{is_https_remote_url-IsRemote}
use mathlib.Core.Path.{ap, subst}
use kwik_proxy_secure.Prelude.{
  to_ascii_lowercase, codes, text_eq, if-holds, ltb, ℕ, suc, ◌+◌, ◌≤◌, Text, length, true, not,
  List, [], ◌∷◌, Option, none, some, Result, ok, err, ◌≡◌, refl, sym, arith, inl, inr, Bool-cases,
  All, if◌then◌else◌, leb, ensure->>-ok, >>=-eq-ok, is_some_and,
}
use kwik_proxy_secure.Profile
use kwik_proxy_secure.Profile.{Codec, RoutingProfile, parse_json}
use kwik_proxy_secure.Profile.Valid.{IsValid, validate-IsValid, parse_json_lem}
use kwik_proxy_secure.Web
use kwik_proxy_secure.Web.{Url}
use kwik_proxy_secure.Store.Fetching
use kwik_proxy_secure.Store.Fetching.{
  known_port, same_port, host_or_empty, not_public_https, invalid_url, HttpResponse, Requests,
  bad_status, too_large, not_utf8, max_routing_profile_bytes, is_same_origin, requested, follow,
  read_body, or_error, or_bad, read_response, read_last, fetch_profile_from_url,
  canonicalize_github_blob,
}

-- A URL of HTTPS with the host, but for the case of its letters, and the port of another.
pub record IsWithin (origin next : Url) : Type 0 where
  pub is_https : text_eq next.scheme (codes "https") ≡ true
  pub same_host :
      is_some_and
        (λ h.
          text_eq
            (to_ascii_lowercase h)
            (to_ascii_lowercase (to_ascii_lowercase (host_or_empty origin))))
        next.host
      ≡ true
  pub same_ports : same_port (known_port next) (known_port origin) ≡ true

is_same_origin-IsWithin :
    (origin next : Url) → is_same_origin origin next ≡ true → IsWithin origin next
unfolding is_same_origin
is_same_origin-IsWithin origin next h = record {
  is_https = ground arith;
  same_host = ground arith;
  same_ports = ground arith;
}

-- All requests but the first stay within the origin of the first, which is a remote one, and there are
-- at most five.
abbrev pub IsConfined : Codec → (Url → Text) → List Url → Type 0
IsConfined c as_str [] = Unit
IsConfined c as_str (url ∷ urls) =
    IsRemoteUrl c.std c.urls (as_str url) × All (IsWithin url) urls × (length urls ≤ 4)

abbrev pub IsValidIfOk : Codec → Result Fetching.Error RoutingProfile → Type 0
IsValidIfOk c (err e) = Unit
IsValidIfOk c (ok p) = IsValid c p

follow_lem :
    (origin : Url) (n : ℕ) (urls : List Url)
    → n ≤ 5
    → All (IsWithin origin) (follow origin n urls).0 × (length (follow origin n urls).0 + n ≤ 5)
unfolding follow
follow_lem origin n [] h = (tt, ground (arith, h))
follow_lem origin n (next ∷ later) h = elim (Bool-cases (leb 5 n)) [
  | inl many ↦ rw (many) (tt, ground (arith, h))
  | inr few ↦ elim (Bool-cases (is_same_origin origin next)) [
    | inl same ↦
        let (within, short) = follow_lem origin (suc n) later (ground (arith, few)) in
        rw (few, same) ((is_same_origin-IsWithin origin next same, within), ground (arith, short))
    | inr other ↦ rw (few, other) (tt, ground (arith, h))
  ]
]

module _ (c : Codec) (as_str : Url → Text) where
  read_last-urls : (r : Option HttpResponse) (q : Requests) → (read_last c as_str r q).0 ≡ q.0
  read_last-urls r (urls, err e) = refl
  read_last-urls none (urls, ok _) = refl
  read_last-urls (some r) (urls, ok _) = refl

  or_bad-ok :
      (r : Result Profile.Error RoutingProfile) (p : RoutingProfile)
      → or_bad c as_str r ≡ ok p
      → r ≡ ok p
  or_bad-ok (err e) p h = cc
  or_bad-ok (ok q) p h = ap ok (ground (arith, h))

  read_response-IsValid :
      (r : HttpResponse) (p : RoutingProfile) → read_response c as_str r ≡ ok p → IsValid c p
  unfolding read_response
  read_response-IsValid r p h =
      let (success, h1) = ensure->>-ok r.is_success bad_status _ h in
      let (small, h2) =
        ensure->>-ok (not (is_some_and (λ n. ltb max_routing_profile_bytes n) r.content_length))
          too_large _ h1 in
      let (bytes, read, h3) = >>=-eq-ok (read_body [] r.chunks) _ h2 in
      let (text, decoded, h4) = >>=-eq-ok (or_error c as_str not_utf8 (c.utf8 bytes)) _ h3 in
      let (parsed, valid) = parse_json_lem c text p (or_bad-ok (parse_json c text) p h4) in
      validate-IsValid c p valid

  response-IsValidIfOk :
      (r : HttpResponse) (out : Result Fetching.Error RoutingProfile)
      → read_response c as_str r ≡ out
      → IsValidIfOk c out
  response-IsValidIfOk r (err e) h = tt
  response-IsValidIfOk r (ok p) h = read_response-IsValid r p h

  read_last-IsValid :
      (r : Option HttpResponse) (q : Requests) → IsValidIfOk c (read_last c as_str r q).1
  read_last-IsValid r (urls, err e) = tt
  read_last-IsValid none (urls, ok _) = tt
  read_last-IsValid (some r) (urls, ok _) = response-IsValidIfOk r (read_response c as_str r) refl

  -- Wherever the servers redirect to, a download makes at most five requests, all over HTTPS to the host
  -- and the port of the first one, whose URL, as `as_str` writes it, has no credentials and a host that
  -- is no local name and is not read as an address that is not public, brackets and all;
  -- and a profile that it returns is valid.
  pub fetch-IsConfined :
      (raw : Text) (redirects : List Url) (response : Option HttpResponse)
      → IsConfined c as_str (fetch_profile_from_url c as_str raw redirects response).0
        × IsValidIfOk c (fetch_profile_from_url c as_str raw redirects response).1
  unfolding fetch_profile_from_url
  fetch-IsConfined raw redirects response = go (c.urls.parse (canonicalize_github_blob raw))
    where
      Good : List Url × Result Fetching.Error RoutingProfile → Type 0
      Good out = IsConfined c as_str out.0 × IsValidIfOk c out.1

      fetched :
          (origin : Url)
          → Web.is_https_remote_url c.std c.urls (as_str origin) ≡ true
          → Good (read_last c as_str response (requested origin (follow origin 1 redirects)))
      fetched origin public =
          let (within, short) = follow_lem origin 1 redirects (ground arith) in
          (
            subst (IsConfined c as_str)
                (sym (read_last-urls response (requested origin (follow origin 1 redirects))))
                (
                  is_https_remote_url-IsRemote c.std c.urls (as_str origin) public,
                  within,
                  ground (arith, short),
                ),
            read_last-IsValid response (requested origin (follow origin 1 redirects)),
          )

      go :
          (o : Option Url)
          → Good (elim o [
            | none ↦ ([], err invalid_url)
            | some origin ↦
                if Web.is_https_remote_url c.std c.urls (as_str origin)
                then read_last c as_str response (requested origin (follow origin 1 redirects))
                else ([], err not_public_https)
          ])
      go none = (tt, tt)
      go (some origin) =
          if-holds Good (Web.is_https_remote_url c.std c.urls (as_str origin)) _ _ (fetched origin)
            (λ refused. (tt, tt))
