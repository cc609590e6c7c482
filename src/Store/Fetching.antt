-- ===== src/Store/Fetching.antt =====
-- src-tauri/src/config/routing_store.rs: the download of a routing profile. What the servers answer is
-- given: the redirects in turn, and the last response. The requests that are made are kept.
use kwik_proxy_secure.Prelude.{
  ℕ, suc, ◌+◌, ◌*◌, Text, codes, text_eq, to_ascii_lowercase, strip_prefix, length, Bool, true,
  false, not, ◌&&◌, List, [], ◌∷◌, ◌++◌, Option, none, some, Result, ok, err, ◌>>=◌, ◌>>◌, ensure,
  if◌then◌else◌, ltb, leb, ◌==◌, is_some_and,
}
use kwik_proxy_secure.Profile
use kwik_proxy_secure.Profile.{Codec, RoutingProfile, parse_json}
use kwik_proxy_secure.Web
use kwik_proxy_secure.Web.{Url}

-- What is before the first occurrence of a text, and what is after it.
abbrev after_first : ℕ → Option (Text × Text) → Option (Text × Text)
after_first c none = none
after_first c (some (before, after)) = some (c ∷ before, after)

unfoldable pub split_once_at : Text → Text → Option (Text × Text)
unfolding strip_prefix
split_once_at sep [] = none
split_once_at sep (c ∷ cs) =
    let rest = split_once_at sep cs in
    elim (strip_prefix (c ∷ cs) sep) [ some after ↦ some ([], after) | none ↦ after_first c rest ]

unfoldable pub canonicalize_github_blob : Text → Text
unfolding split_once_at
canonicalize_github_blob url = elim (strip_prefix url (codes "https://github.com/")) [
  | none ↦ url
  | some rest ↦ elim (split_once_at (codes "/blob/") rest) [
    | none ↦ url
    | some (repo_path, file_path) ↦
        codes "https://raw.githubusercontent.com/" ++ repo_path ++ codes "/" ++ file_path
  ]
]

pub data Error : Type 0 where
  invalid_url not_public_https too_many_redirects no_response bad_status too_large read_failed
        not_utf8 :
      Error
  bad_profile : Profile.Error → Error

abbrev pub max_routing_profile_bytes : ℕ
max_routing_profile_bytes = 1024 * 1024

-- The last response; a chunk may fail to be read.
pub record HttpResponse : Type 0 where
  pub is_success : Bool
  pub content_length : Option ℕ
  pub chunks : List (Option (List ℕ))

abbrev pub known_port : Url → Option ℕ
known_port url = elim url.port [
  | some p ↦ some p
  | none ↦ if text_eq url.scheme (codes "https") then some 443 else none
]

abbrev pub same_port : Option ℕ → Option ℕ → Bool
same_port none none = true
same_port none (some p) = false
same_port (some p) none = false
same_port (some p) (some q) = p == q

abbrev pub host_or_empty : Url → Text
host_or_empty url = elim url.host [ none ↦ [] | some h ↦ h ]

-- The redirect policy follows within the origin, over HTTPS.
unfoldable pub is_same_origin : Url → Url → Bool
unfolding text_eq to_ascii_lowercase
is_same_origin origin next =
    text_eq next.scheme (codes "https")
    && is_some_and
        (λ h.
          text_eq (to_ascii_lowercase h)
            (to_ascii_lowercase (to_ascii_lowercase (host_or_empty origin))))
        next.host
    && same_port (known_port next) (known_port origin)

-- The requests, the first one first, and whether the last response is one that is not a redirect.
abbrev pub Requests : Type 0
Requests = List Url × Result Error (Unit {0})

abbrev pub requested : Url → Requests → Requests
requested url (urls, result) = (url ∷ urls, result)

-- `previous` counts the URLs so far. A redirect that is not followed is the response, and no success.
unfoldable pub follow : Url → ℕ → List Url → Requests
unfolding is_same_origin
follow origin previous [] = ([], ok tt)
follow origin previous (next ∷ later) =
    let rest = follow origin (suc previous) later in
    if leb 5 previous
    then ([], err too_many_redirects)
    else if is_same_origin origin next
    then requested next rest
    else ([], err bad_status)

-- The body, read chunk by chunk up to its bound.
unfoldable pub read_body : List ℕ → List (Option (List ℕ)) → Result Error (List ℕ)
read_body bytes [] = ok bytes
read_body bytes (none ∷ chunks) = err read_failed
read_body bytes (some chunk ∷ chunks) =
    let rest = read_body (bytes ++ chunk) chunks in
    if ltb max_routing_profile_bytes (length bytes + length chunk) then err too_large else rest

module _ (c : Codec) (as_str : Url → Text) where
  abbrev pub or_error : {A : Type 0} → Error → Option A → Result Error A
  or_error e none = err e
  or_error e (some a) = ok a

  abbrev pub or_bad : Result Profile.Error RoutingProfile → Result Error RoutingProfile
  or_bad (err e) = err (bad_profile e)
  or_bad (ok p) = ok p

  unfoldable pub read_response : HttpResponse → Result Error RoutingProfile
  unfolding read_body parse_json
  read_response r = do
    ensure r.is_success bad_status
    ensure (not (is_some_and (λ n. ltb max_routing_profile_bytes n) r.content_length)) too_large
    bytes ← read_body [] r.chunks
    text ← or_error not_utf8 (c.utf8 bytes)
    or_bad (parse_json c text)

  abbrev pub read_last : Option HttpResponse → Requests → List Url × Result Error RoutingProfile
  read_last response (urls, err e) = (urls, err e)
  read_last none (urls, ok _) = (urls, err no_response)
  read_last (some r) (urls, ok _) = (urls, read_response r)

  unfoldable pub fetch_profile_from_url :
      Text → List Url → Option HttpResponse → List Url × Result Error RoutingProfile
  unfolding canonicalize_github_blob follow read_response
  fetch_profile_from_url raw redirects response =
      elim (c.urls.parse (canonicalize_github_blob raw)) [
        | none ↦ ([], err invalid_url)
        | some origin ↦
            if Web.is_https_remote_url c.std c.urls (as_str origin)
            then read_last response (requested origin (follow origin 1 redirects))
            else ([], err not_public_https)
      ]
