-- ===== src/Tests/Routing.antt =====
-- The theorems of Web, Profile and Store at one profile and a short history of the store.
use mathlib.Core.Path.{subst}
use kwik_proxy_secure.Net.{Ipv4Addr, v4, v6}
use kwik_proxy_secure.Prelude.{
  ℕ, ◌+◌, ◌*◌, ◌^◌, ◌≤◌, Text, codes, text_eq, len, Bool, true, false, not, any, List, [], ◌∷◌,
  Option, none, some, Result, ok, ◌≡◌, refl, arith, All, sym, text_eq_iff,
}
use kwik_proxy_secure.Web.{Url, Urls}
use kwik_proxy_secure.Web.Addresses.{is_public_ip}
use kwik_proxy_secure.Web.Blocks.{IsOctets, is_in, refused_blocks, is_public_ip-refused}
use kwik_proxy_secure.Firewall.{ipv4_to_u32}
use kwik_proxy_secure.Profile.{
  Codec, RoutingProfile, RoutingProfileEntry, static, minimal_ru, parse_profile_input, new_entry,
}
use kwik_proxy_secure.Profile.Valid.{IsValid, parse_profile_input-IsValid}
use kwik_proxy_secure.Store.{RoutingStore, Disk, Os, EntryCodec, written, broken, load}
use kwik_proxy_secure.Store.Effects.{Op, add_op, set_active_op, run_op}
use kwik_proxy_secure.Store.Loading.{IsStore}
use kwik_proxy_secure.Store.Keys.{HasDistinctNames}
use kwik_proxy_secure.Store.Reached.{Reached, started, ran, restarted, Reached-IsStore}
use kwik_proxy_secure.Store.Refinement.{view, meaning, run_op-view}
use kwik_proxy_secure.Store.Restart.{working}
use kwik_proxy_secure.Store.Reload.{Worked, fresh_start, worked, IsPlain, IsReadable, load-Worked}
use kwik_proxy_secure.Store.Fetching.{HttpResponse, fetch_profile_from_url}
use kwik_proxy_secure.Store.Confined.{IsConfined, IsValidIfOk, fetch-IsConfined}
use kwik_proxy_secure.Tests.{std_example}

abbrev home_router : Ipv4Addr
home_router = record { a = 192; b = 168; c = 0; d = 1 }

home_router-IsOctets : IsOctets home_router
home_router-IsOctets = record {
  a_lt = ground arith;
  b_lt = ground arith;
  c_lt = ground arith;
  d_lt = ground arith;
}

is_public_ip-refused_example :
    (is_public_ip (v4 home_router) ≡ not (any (is_in (ipv4_to_u32 home_router)) refused_blocks))
    × (is_public_ip (v6 (record { bits = 0xffff * 2 ^ 32 + ipv4_to_u32 home_router }))
        ≡ not (any (is_in (ipv4_to_u32 home_router)) refused_blocks))
is_public_ip-refused_example = is_public_ip-refused home_router home_router-IsOctets

abbrev github : Url
github = record {
  scheme = codes "https";
  username = [];
  password = none;
  host = some (codes "github.com");
  port = none;
}

abbrev profile_example : RoutingProfile
profile_example = record minimal_ru { name = codes "a"; direct_ip = codes "geoip:ru" ∷ [] }

-- Every URL is one of GitHub, and every JSON text is one profile; the one UUID is `u`.
abbrev codec_example : Codec
codec_example = record {
  std = std_example;
  urls = record { parse = λ t. some github };
  json = λ t. some profile_example;
  base64 = λ t. none;
  base64_url = λ t. none;
  base64_url_no_pad = λ t. none;
  utf8 = λ bytes. some bytes;
  is_uuid = λ t. text_eq t (codes "u");
}

parsed : parse_profile_input codec_example (codes "{}") ≡ ok profile_example
unfolding parse_profile_input len kwik_proxy_secure.Prelude.starts_with
    kwik_proxy_secure.Prelude.trim kwik_proxy_secure.Profile.parse_plain
    kwik_proxy_secure.Profile.parse_json kwik_proxy_secure.Profile.validate text_eq
    kwik_proxy_secure.Web.is_https_remote_url kwik_proxy_secure.Profile.is_dns_type
    kwik_proxy_secure.Profile.is_safe_rule
parsed = refl

parse_profile_input-IsValid_example :
    IsValid codec_example profile_example
    × ((s : Text) × (codec_example.json s ≡ some profile_example))
    × (len (codes "{}") ≤ 1536 * 1024)
parse_profile_input-IsValid_example =
    parse_profile_input-IsValid codec_example (codes "{}") profile_example parsed

abbrev entry_example : RoutingProfileEntry
entry_example = record {
  id = codes "u";
  profile = profile_example;
  source = static;
  last_fetched_at = 0;
}

abbrev entries_example : EntryCodec
entries_example = record {
  codec = codec_example;
  to_json = λ e. codes "{}";
  from_json = λ t. some entry_example;
}

abbrev os_example : Os
os_example = working 9 (codes "u")

-- The same system, with a disk that is full.
abbrev full_example : Os
full_example = record os_example { write = broken (some []) }

abbrev empty_disk : Disk
empty_disk = record { files = []; active = none }

abbrev add_example : Op
add_example = add_op profile_example static

abbrev first_store : RoutingStore
first_store = load entries_example os_example (some empty_disk)

-- A start, an addition, an activation that cannot be written, and a restart.
abbrev after_add : RoutingStore × Disk
after_add = run_op entries_example os_example add_example first_store empty_disk

abbrev after_activation : RoutingStore × Disk
after_activation =
    run_op entries_example full_example (set_active_op (some (codes "u"))) after_add.0 after_add.1

first-Fresh : any (kwik_proxy_secure.Store.has_id (codes "u")) first_store.entries ≡ false
unfolding load kwik_proxy_secure.Store.load_files
first-Fresh = refl

abbrev history_example :
    Reached entries_example
      (load entries_example os_example (some after_activation.1))
      after_activation.1
history_example = restarted os_example (
    ran full_example (set_active_op (some (codes "u"))) tt
      (ran os_example add_example first-Fresh (started os_example empty_disk tt)))

Reached-IsStore_example :
    IsStore entries_example (load entries_example os_example (some after_activation.1))
    × HasDistinctNames after_activation.1.files
Reached-IsStore_example =
    Reached-IsStore entries_example (load entries_example os_example (some after_activation.1))
      after_activation.1 history_example

run_op-view_example :
    view (run_op entries_example full_example add_example first_store empty_disk).0
    ≡ meaning entries_example full_example add_example (view first_store)
run_op-view_example =
    run_op-view entries_example full_example add_example first_store empty_disk first-Fresh

abbrev no_store : RoutingStore
no_store = record { entries = []; active_id = none }

abbrev worked_add : RoutingStore × Disk
worked_add = run_op entries_example os_example add_example no_store empty_disk

abbrev worked_active : RoutingStore × Disk
worked_active =
    run_op entries_example os_example (set_active_op (some (codes "u"))) worked_add.0 worked_add.1

abbrev worked_example : Worked entries_example worked_active.0 worked_active.1
worked_example =
    worked 9 (codes "u") (set_active_op (some (codes "u"))) tt
      (worked 9 (codes "u") add_example refl fresh_start)

worked_entries : worked_active.0.entries ≡ entry_example ∷ []
unfolding run_op kwik_proxy_secure.Store.persist_entry kwik_proxy_secure.Store.add
    kwik_proxy_secure.Store.set_active kwik_proxy_secure.Profile.validate_entry new_entry
    kwik_proxy_secure.Profile.validate text_eq kwik_proxy_secure.Web.is_https_remote_url len
    kwik_proxy_secure.Profile.is_dns_type kwik_proxy_secure.Profile.is_safe_rule
worked_entries = refl

u-IsPlain : IsPlain (codes "u")
unfolding len kwik_proxy_secure.Prelude.trim
u-IsPlain = record { short = ground arith; not_empty = λ e. cc e; trimmed = refl }

readable : All (IsReadable entries_example) worked_active.0.entries
unfolding len
readable =
    subst (All (IsReadable entries_example)) (sym worked_entries)
      (record { read = refl; small = ground arith }, tt)

plain : (t : Text) → text_eq t (codes "u") ≡ true → IsPlain t
plain t h = subst IsPlain (sym ((text_eq_iff t (codes "u")).0 h)) u-IsPlain

load-Worked_example :
    view (load entries_example os_example (some worked_active.1)) ≡ view worked_active.0
load-Worked_example =
    load-Worked entries_example os_example worked_active.0 worked_active.1 worked_example refl
      readable plain

abbrev response_example : HttpResponse
response_example = record {
  is_success = true;
  content_length = none;
  chunks = some (codes "{}") ∷ [];
}

fetch-IsConfined_example :
    IsConfined codec_example
      (λ u. codes "https://github.com/")
      (fetch_profile_from_url codec_example
        (λ u. codes "https://github.com/")
        (codes "https://github.com/a")
        (github ∷ [])
        (some response_example)).0
    × IsValidIfOk codec_example
        (fetch_profile_from_url codec_example
          (λ u. codes "https://github.com/")
          (codes "https://github.com/a")
          (github ∷ [])
          (some response_example)).1
fetch-IsConfined_example =
    fetch-IsConfined codec_example (λ u. codes "https://github.com/") (codes "https://github.com/a")
      (github ∷ []) (some response_example)
