-- ===== src/Tests/Launch.antt =====
-- The theorems of ClientConfig at one document of a provider and one profile.
use kwik_proxy_secure.ClientConfig.{AppRule, FullYamlPatch, Libs, MihomoConfig, auto, vpn, Error}
use kwik_proxy_secure.ClientConfig.Build.{Settings, build, built_root}
use kwik_proxy_secure.ClientConfig.Build.Launched.{build-is_accepted}
use kwik_proxy_secure.ClientConfig.Dns.{dns_policy_keys}
use kwik_proxy_secure.ClientConfig.Patch.Ordered.{
  of_profile, of_programs, with_ending, patch_root-rules,
}
use kwik_proxy_secure.ClientConfig.Reduce.{sanitize_full_profile}
use kwik_proxy_secure.ClientConfig.Patch.{
  patch_root, before_rules, patch_full_yaml, patched_document, is_lan,
}
use kwik_proxy_secure.ClientConfig.Patch.Launched.{patch_full_yaml-is_accepted}
use kwik_proxy_secure.ClientConfig.Patch.Passing.{local_addr}
use kwik_proxy_secure.ClientConfig.Rules.{
  detect_proxy_target, app_rule_to_mihomo, normalize_terminal_default, mihomo_rules_from_profile,
}
use kwik_proxy_secure.ClientConfig.Rules.Fields.{
  IsOutbound, IsMatcher, IsRule, app_rule_to_mihomo-IsRule,
}
use kwik_proxy_secure.ClientConfig.Rules.SplitTunnel.{
  IsSplitTunnel, mihomo_rules_from_profile-IsSplitTunnel,
}
use kwik_proxy_secure.ClientConfig.Rules.Terminal.{
  to_proxy, IsTerminated, rules_in, normalize_terminal_default-IsTerminated,
}
use kwik_proxy_secure.Mihomo.Config.{
  Parsers, Value, nil, cons, Mapping, entry, end, get, validate_privileged_config,
}
use kwik_proxy_secure.Prelude.{
  ◌≤◌, len, text_eq, Bool, ◌++◌, map, arith, ap, Text, codes, trim, List, [], ◌∷◌, Option, none,
  some, Result, ok, err, ◌≡◌, refl, true, false,
}
use kwik_proxy_secure.Profile.{Codec, RoutingProfile, minimal_ru, validate}
use kwik_proxy_secure.Profile.Valid.{validate-IsValid}
use kwik_proxy_secure.Tests.{std_example, device}
use kwik_proxy_secure.Web.{Url}

abbrev rules : List Value
rules = Value.string (codes "DOMAIN,a.b,G") ∷ Value.string (codes "match,G") ∷ []

-- A document with a provider, a listener and a catch-all rule.
abbrev document : Mapping
document = entry (Value.string (codes "listeners")) Value.null (
    entry (Value.string (codes "proxy-providers"))
      (Value.mapping (
        entry (Value.string (codes "p"))
          (Value.mapping
            (entry (Value.string (codes "url")) (Value.string (codes "https://a.b/")) end))
          end))
      (entry (Value.string (codes "rules"))
        (Value.sequence
          (cons (Value.string (codes "DOMAIN,a.b,G")) (cons (Value.string (codes "match,G")) nil)))
        end))

normalize_terminal_default-IsTerminated_example :
    (root' : Mapping) × (normalize_terminal_default document vpn (codes "G") ≡ ok root')
    × ((after : List Value) × (rules_in root' ≡ some after) × IsTerminated (codes "G") rules after)
    × (get (codes "dns") root' ≡ get (codes "dns") document)
unfolding get kwik_proxy_secure.Prelude.text_eq
normalize_terminal_default-IsTerminated_example =
    normalize_terminal_default-IsTerminated document vpn (codes "G") (codes "G") (codes "dns") rules
      refl to_proxy refl

abbrev browser : AppRule
browser = record { exe = codes " C:\\b.exe"; action = codes "proxy"; comment = none }

app_rule_to_mihomo-IsRule_example :
    (matcher t : Text) × IsMatcher (trim browser.exe) matcher
    × IsOutbound (codes "G") browser.action t
    × (text_eq (trim browser.exe) [] ≡ false)
    × (len (trim browser.exe) ≤ 1024)
    × IsRule (matcher ∷ trim browser.exe ∷ t ∷ []) (codes "PROCESS-PATH,C:\\b.exe,G")
unfolding app_rule_to_mihomo
app_rule_to_mihomo-IsRule_example =
    app_rule_to_mihomo-IsRule browser (codes "G") (codes "PROCESS-PATH,C:\\b.exe,G") (refl, refl)
      refl

abbrev provider_url : Url
provider_url = record {
  scheme = codes "https";
  username = [];
  password = none;
  host = some (codes "a.b");
  port = none;
}

abbrev profile : RoutingProfile
profile = record minimal_ru { name = codes "a"; direct_ip = codes "geoip:ru" ∷ [] }

abbrev codec : Codec
codec = record {
  std = std_example;
  urls = record { parse = λ s. some provider_url };
  json = λ s. none;
  base64 = λ s. none;
  base64_url = λ s. none;
  base64_url_no_pad = λ s. none;
  utf8 = λ bytes. none;
  is_uuid = λ s. true;
}

mihomo_rules_from_profile-IsSplitTunnel_example :
    IsSplitTunnel codec.std profile
      (codes "G")
      (mihomo_rules_from_profile codec.std profile (codes "G"))
unfolding validate kwik_proxy_secure.Prelude.len kwik_proxy_secure.Prelude.text_eq
    kwik_proxy_secure.Web.is_https_remote_url kwik_proxy_secure.Profile.is_dns_type
    kwik_proxy_secure.Profile.is_safe_rule
mihomo_rules_from_profile-IsSplitTunnel_example =
    mihomo_rules_from_profile-IsSplitTunnel codec profile (codes "G")
      (validate-IsValid codec profile refl) (refl, refl)

abbrev libs : Libs
libs = record {
  codec = codec;
  to_uppercase = λ t. codes "MATCH";
  from_str = λ t. some (Value.mapping document);
  to_string = λ v. some (codes "y");
  sha256 = λ t. 255 ∷ [];
}

abbrev patch : FullYamlPatch
patch = record {
  mixed_port = 31000;
  listen = codes "127.0.0.1";
  socks_auth = none;
  external_controller_port = 9090;
  external_controller_secret = codes "s";
  app_rules = browser ∷ [];
  anti_dpi = none;
  use_builtin_tun = true;
  tun_device = some device;
  routing_profile = some profile;
  default_traffic = vpn;
  ipv6 = false;
  custom_dns = none;
}

-- It reads back the document that was written.
abbrev parsed_back : Result Error Mapping → Option Value
parsed_back (ok out) = some (Value.mapping out)
parsed_back (err e) = none

abbrev helper_parsers : Parsers
helper_parsers = record {
  yaml = λ t. parsed_back (patched_document libs [] patch);
  socket_addr = λ t. some (local_addr 9090);
  is_absolute = λ t. false;
  has_parent_dir = λ t. false;
}

abbrev written : MihomoConfig
written = record { yaml = codes "y"; mixed_port = 31000 }

patch_full_yaml-is_accepted_example :
    validate_privileged_config helper_parsers (codes "y") (is_lan (codes "127.0.0.1"))
    ≡ ok (record { tun_device = device; controller_addr = local_addr 9090 })
unfolding patch_full_yaml get kwik_proxy_secure.Prelude.starts_with
    kwik_proxy_secure.Profile.is_dns_type kwik_proxy_secure.Profile.is_safe_rule
    kwik_proxy_secure.ClientConfig.Sanitize.is_untagged
    kwik_proxy_secure.Mihomo.Config.is_local_bind
patch_full_yaml-is_accepted_example =
    patch_full_yaml-is_accepted libs helper_parsers patch [] written document device refl
      (λ out e. ap parsed_back e) refl (ground arith) (ground arith) refl refl refl refl refl
      (λ digest. refl) (λ digest. refl) refl (refl, tt) tt

abbrev settings : Settings
settings = record {
  mixed_port = 31000;
  listen = codes "127.0.0.1";
  anti_dpi = none;
  socks_auth = some (codes "u", codes "p");
  app_rules = browser ∷ [];
  routing_profile = some profile;
  default_traffic = auto;
  use_builtin_tun = true;
  tun_device = some device;
  ipv6 = false;
  custom_dns = some (codes " " ∷ []);
  external_controller_port = 9090;
  external_controller_secret = codes "s";
}

abbrev reads_built : Parsers
reads_built = record helper_parsers {
  yaml = λ t. some (Value.mapping (built_root libs settings end));
}

build-is_accepted_example :
    validate_privileged_config reads_built (codes "y") (is_lan (codes "127.0.0.1"))
    ≡ ok (record { tun_device = device; controller_addr = local_addr 9090 })
unfolding build get kwik_proxy_secure.Prelude.starts_with kwik_proxy_secure.Profile.is_dns_type
    kwik_proxy_secure.Profile.is_safe_rule kwik_proxy_secure.Mihomo.Config.is_local_bind validate
build-is_accepted_example =
    build-is_accepted libs reads_built settings end written device refl refl refl (ground arith)
      (ground arith) refl refl refl refl refl

abbrev document_of : Result Error Mapping → Mapping
document_of (ok out) = out
document_of (err e) = end

abbrev succeeded : Result Error Mapping → Bool
succeeded (ok out) = true
succeeded (err e) = false

document_of-ok : (r : Result Error Mapping) → succeeded r ≡ true → r ≡ ok (document_of r)
document_of-ok (ok out) h = refl
document_of-ok (err e) h = cc

patch_root_succeeds : succeeded (patch_root libs patch document) ≡ true
unfolding patch_root get kwik_proxy_secure.Prelude.starts_with kwik_proxy_secure.Profile.is_dns_type
    kwik_proxy_secure.Profile.is_safe_rule kwik_proxy_secure.Prelude.ends_with
patch_root_succeeds = refl

abbrev patched : Mapping
patched = document_of (patch_root libs patch document)

patch_root-rules_example :
    (sanitized : Mapping) × (sanitize_full_profile libs patch document ≡ ok sanitized)
    × (rules_in patched
        ≡ some (
            with_ending vpn (detect_proxy_target libs (before_rules patch sanitized)) (
              map Value.string (
                of_programs
                  (detect_proxy_target libs (before_rules patch sanitized))
                  patch.app_rules
                ++ of_profile libs
                    (detect_proxy_target libs (before_rules patch sanitized))
                    patch.routing_profile)
              ++ rules)))
unfolding get kwik_proxy_secure.Prelude.text_eq
patch_root-rules_example =
    patch_root-rules libs patch document patched rules
      (document_of-ok (patch_root libs patch document) patch_root_succeeds) refl

-- The conversion of direct zones, as the repository's own test has it.
dns_policy_keys_conversion :
    dns_policy_keys (
      codes "geosite:ru"
      ∷ codes "*.example.com"
      ∷ codes "domain:exact.com"
      ∷ codes "plain.org"
      ∷ codes "keyword:vk"
      ∷ codes "ads"
      ∷ [])
    ≡ codes "geosite:ru" ∷ codes "+.example.com" ∷ codes "exact.com" ∷ codes "+.plain.org" ∷ []
unfolding dns_policy_keys
dns_policy_keys_conversion = refl
