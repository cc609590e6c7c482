-- ===== src/ClientConfig.antt =====
-- src-tauri/src/config/mihomo_config.rs: what the application writes for Mihomo. What `std`, the YAML
-- library, the URL parser and SHA-256 say is a parameter. The texts of errors, the contexts that they are
-- given and what is logged are left out.
pub mod Rules
pub mod Dns
pub mod Sanitize
pub mod Reduce
pub mod Patch
pub mod Build
use kwik_proxy_secure.Mihomo.Config.{Value}
use kwik_proxy_secure.Prelude.{
  ◌*◌, ℕ, Text, codes, text_eq, Bool, Option, none, some, Result, ok, err, if◌then◌else◌, List, ltb,
  zero, suc, [], ◌∷◌, ◌+◌, ◌/◌, ◌%◌, ◌++◌,
}
use kwik_proxy_secure.Profile
use kwik_proxy_secure.Profile.{Codec, RoutingProfile}

pub data DefaultTraffic : Type 0 where
  auto vpn direct : DefaultTraffic

pub record AntiDpiOptions : Type 0 where
  pub fragmentation : Bool
  pub fragmentation_packets : Text
  pub fragmentation_length : Text
  pub fragmentation_interval : Text
  pub noises : Bool
  pub noises_type : Text
  pub noises_packet : Text
  pub noises_delay : Text
  pub server_resolve : Bool
  pub server_resolve_doh : Text
  pub server_resolve_bootstrap : Text

pub record AppRule : Type 0 where
  pub exe : Text
  pub action : Text
  pub comment : Option Text

pub record MihomoConfig : Type 0 where
  pub yaml : Text
  pub mixed_port : ℕ

-- The libraries that the code calls.
pub record Libs : Type 0 where
  pub codec : Codec
  pub to_uppercase : Text → Text
  pub from_str : Text → Option Value
  pub to_string : Value → Option Text
  pub sha256 : Text → List ℕ

pub record FullYamlPatch : Type 0 where
  pub mixed_port : ℕ
  pub listen : Text
  pub socks_auth : Option (Text × Text)
  pub external_controller_port : ℕ
  pub external_controller_secret : Text
  pub app_rules : List AppRule
  pub anti_dpi : Option AntiDpiOptions
  pub use_builtin_tun : Bool
  pub tun_device : Option Text
  pub routing_profile : Option RoutingProfile
  pub default_traffic : DefaultTraffic
  pub ipv6 : Bool
  pub custom_dns : Option (List Text)

pub data Error : Type 0 where
  bad_default_traffic rules_not_sequence auto_not_normalized : Error
  too_many_app_rules bad_app_rule too_many_dns unsafe_dns unsafe_anti_dpi no_device bad_device :
      Error
  profile_error : Profile.Error → Error
  tagged_yaml bad_url not_https has_credentials no_host local_host local_ip : Error
  not_mapping too_many_providers bad_provider_name provider_not_mapping not_http no_url : Error
  not_sequence too_many_entries proxy_not_mapping no_proxy_name unsafe_proxy_name ssh_proxy : Error
  group_not_mapping no_group_name unsafe_group_name : Error
  rule_not_string unsafe_rule script_rule : Error
  full_yaml_too_large bad_yaml root_not_mapping not_serialized yaml_too_large bad_proxy : Error

abbrev pub max_full_yaml_bytes : ℕ
max_full_yaml_bytes = 1400 * 1024

abbrev pub or_fail : {A : Type 0} → Error → Option A → Result Error A
or_fail e none = err e
or_fail e (some a) = ok a

-- `DefaultTraffic::parse`.
unfoldable pub parse_default_traffic : Option Text → Result Error DefaultTraffic
unfolding text_eq
parse_default_traffic none = ok auto
parse_default_traffic (some t) =
    if text_eq t (codes "auto")
    then ok auto
    else if text_eq t (codes "vpn")
    then ok vpn
    else if text_eq t (codes "direct")
    then ok direct
    else err bad_default_traffic

abbrev pub explicit_target : DefaultTraffic → Text → Option Text
explicit_target auto proxy_target = none
explicit_target vpn proxy_target = some proxy_target
explicit_target direct proxy_target = some (codes "DIRECT")

-- `{port}`; five digits hold every `u16`.
abbrev pub decimal_up_to : ℕ → ℕ → Text
decimal_up_to zero n = []
decimal_up_to (suc digits) n =
    let before = decimal_up_to digits (n / 10) in
    (if ltb n 10 then [] else before) ++ (b'0' + n % 10) ∷ []

abbrev pub decimal : ℕ → Text
decimal = decimal_up_to 5

abbrev pub or_else {ℓ} : {A : Type ℓ} → Option A → Option A → Option A
or_else none other = other
or_else (some a) other = some a
