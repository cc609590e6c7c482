-- ===== src/Mihomo/Config.antt =====
-- src-tauri/src/bin/kwik_helper/mihomo.rs: the checks that the privileged side makes of a Mihomo
-- configuration. The YAML parser and the parsers of `std` are a parameter; a parsed document is the
-- data type `Value` of serde_yaml, whose `as_` functions look through a tag. Its numbers are those that
-- `as_u64` reads.
use kwik_proxy_secure.Net.{IpAddr, v4, v6}
use kwik_proxy_secure.Prelude.{
  ℕ, Text, codes, text_eq, starts_with, len, is_ascii_lowercase, is_ascii_digit, Bool, true, false,
  not, ◌&&◌, ◌||◌, List, [], ◌∷◌, Option, none, some, Result, ok, err, ◌>>=◌, ◌>>◌, ensure,
  if◌then◌else◌, ◌==◌, ltb, all, any, is_some,
}

mutual
  pub data Value : Type 0 where
    null : Value
    bool : Bool → Value
    number : ℕ → Value
    string : Text → Value
    sequence : Items → Value
    mapping : Mapping → Value
    tagged : Text → Value → Value

  pub data Items : Type 0 where
    nil : Items
    cons : Value → Items → Items

  -- The entries of a mapping, in order.
  pub data Mapping : Type 0 where
    end : Mapping
    entry : Value → Value → Mapping → Mapping

pub record SocketAddr : Type 0 where
  pub ip : IpAddr
  pub port : ℕ

-- What the checks call and this repository does not define.
pub record Parsers : Type 0 where
  pub yaml : Text → Option Value
  pub socket_addr : Text → Option SocketAddr
  pub is_absolute : Text → Bool
  pub has_parent_dir : Text → Bool

pub data Error : Type 0 where
  invalid_yaml root_not_mapping forbidden_key no_controller controller_not_numeric : Error
  controller_exposed bad_secret lan_mismatch listener_exposed dns_exposed no_tun : Error
  tun_disabled no_device foreign_device provider_not_mapping provider_path provider_url : Error

abbrev pub or_fail : {A : Type 0} → Error → Option A → Result Error A
or_fail e none = err e
or_fail e (some a) = ok a

abbrev pub is_key : Text → Value → Bool
is_key name (string s) = text_eq s name
is_key name _ = false

unfoldable pub get : Text → Mapping → Option Value
unfolding text_eq
get name end = none
get name (entry k v rest) = let later = get name rest in if is_key name k then some v else later

abbrev pub has_key : Mapping → Text → Bool
has_key map name = is_some (get name map)

abbrev pub as_str : Value → Option Text
as_str (string s) = some s
as_str (tagged tag v) = as_str v
as_str _ = none

abbrev pub as_bool : Value → Option Bool
as_bool (bool b) = some b
as_bool (tagged tag v) = as_bool v
as_bool _ = none

abbrev pub as_mapping : Value → Option Mapping
as_mapping (mapping m) = some m
as_mapping (tagged tag v) = as_mapping v
as_mapping _ = none

abbrev pub and_then : {A B : Type 0} → (A → Option B) → Option A → Option B
and_then f none = none
and_then f (some a) = f a

abbrev pub unwrap_or : {A : Type 0} → A → Option A → A
unwrap_or d none = d
unwrap_or d (some a) = a

abbrev pub string_value : Mapping → Text → Option Text
string_value map name = and_then as_str (get name map)

abbrev pub bool_value : Mapping → Text → Option Bool
bool_value map name = and_then as_bool (get name map)

abbrev pub mapping_value : Mapping → Text → Option Mapping
mapping_value map name = and_then as_mapping (get name map)

abbrev pub forbidden_keys : List Text
forbidden_keys =
    codes "listeners"
    ∷ codes "inbounds"
    ∷ codes "tunnels"
    ∷ codes "script"
    ∷ codes "external-ui"
    ∷ codes "external-ui-url"
    ∷ codes "external-controller-pipe"
    ∷ codes "external-controller-unix"
    ∷ codes "external-controller-cors"
    ∷ codes "geox-url"
    ∷ codes "ss-config"
    ∷ codes "vmess-config"
    ∷ codes "tuic-server"
    ∷ []

abbrev pub secure_tun_prefix : Text
secure_tun_prefix = codes "kwikproxy-secure-"

unfoldable pub is_loopback : IpAddr → Bool
is_loopback (v4 a) = a.a == 127
is_loopback (v6 a) = a.bits == 1

-- `tun.device` is an exact name under the reserved prefix.
unfoldable pub is_secure_device : Text → Bool
is_secure_device device =
    starts_with device secure_tun_prefix
    && not (ltb 96 (len device))
    && all (λ c. is_ascii_lowercase c || is_ascii_digit c || c == b'-') device

unfoldable pub is_private_listen : Text → Bool
is_private_listen listen =
    text_eq listen []
    || text_eq listen (codes "0.0.0.0:0")
    || starts_with listen (codes "127.0.0.1:")
    || starts_with listen (codes "[::1]:")
    || starts_with listen (codes "198.18.0.1:")

unfoldable pub is_local_bind : Text → Bool
is_local_bind bind =
    text_eq bind (codes "127.0.0.1")
    || text_eq bind (codes "::1")
    || text_eq bind (codes "localhost")

pub record ValidatedConfig : Type 0 where
  pub tun_device : Text
  pub controller_addr : SocketAddr

abbrev pub all_some : {A : Type 0} → (A → Bool) → Option A → Bool
all_some test none = true
all_some test (some a) = test a

abbrev pub bool_eq : Bool → Bool → Bool
bool_eq true b = b
bool_eq false b = not b

module _ (ps : Parsers) where
  abbrev pub provider_checks : Mapping → Result Error (Unit {0})
  provider_checks provider = do
    ensure
        (all_some (λ path. not (ps.is_absolute path || ps.has_parent_dir path))
          (string_value provider (codes "path")))
        provider_path
    ensure
        (all_some (λ url. starts_with url (codes "https://")) (string_value provider (codes "url")))
        provider_url

  -- The loop of `validate_provider_paths`.
  unfoldable pub validate_providers : Mapping → Result Error (Unit {0})
  unfolding get starts_with
  validate_providers end = ok tt
  validate_providers (entry k v rest) = do
    provider ← or_fail provider_not_mapping (as_mapping v)
    provider_checks provider
    validate_providers rest

  unfoldable pub validate_provider_paths : Mapping → Text → Result Error (Unit {0})
  unfolding validate_providers get
  validate_provider_paths root section = elim (mapping_value root section) [
    | none ↦ ok tt
    | some providers ↦ validate_providers providers
  ]

  unfoldable pub validate_controller : Mapping → Result Error SocketAddr
  unfolding get is_loopback len
  validate_controller root = do
    controller ← or_fail no_controller (string_value root (codes "external-controller"))
    addr ← or_fail controller_not_numeric (ps.socket_addr controller)
    ensure (is_loopback addr.ip && not (addr.port == 0)) controller_exposed
    let secret = unwrap_or [] (string_value root (codes "secret"))
    ensure (not (text_eq secret []) && not (ltb 256 (len secret))) bad_secret
    ok addr

  unfoldable pub validate_exposure : Mapping → Bool → Result Error (Unit {0})
  unfolding get is_local_bind is_private_listen
  validate_exposure root allow_lan = do
    let config_allows_lan = unwrap_or false (bool_value root (codes "allow-lan"))
    ensure (bool_eq config_allows_lan allow_lan) lan_mismatch
    let bind = unwrap_or (codes "127.0.0.1") (string_value root (codes "bind-address"))
    ensure (allow_lan || is_local_bind bind) listener_exposed
    let dns = mapping_value root (codes "dns")
    ensure (all_some is_private_listen (and_then (λ m. string_value m (codes "listen")) dns))
        dns_exposed

  unfoldable pub validate_tun : Mapping → Result Error Text
  unfolding get is_secure_device
  validate_tun root = do
    tun ← or_fail no_tun (mapping_value root (codes "tun"))
    ensure (unwrap_or false (bool_value tun (codes "enable"))) tun_disabled
    device ← or_fail no_device (string_value tun (codes "device"))
    ensure (is_secure_device device) foreign_device
    ok device

  unfoldable pub validate_privileged_config : Text → Bool → Result Error ValidatedConfig
  validate_privileged_config text allow_lan = do
    value ← or_fail invalid_yaml (ps.yaml text)
    root ← or_fail root_not_mapping (as_mapping value)
    ensure (not (any (has_key root) forbidden_keys)) forbidden_key
    addr ← validate_controller root
    validate_exposure root allow_lan
    device ← validate_tun root
    validate_provider_paths root (codes "proxy-providers")
    validate_provider_paths root (codes "rule-providers")
    ok (record { tun_device = device; controller_addr = addr })

  unfoldable pub validated_tun_device : Text → Bool → Result Error Text
  unfolding validate_privileged_config
  validated_tun_device text allow_lan = do
    config ← validate_privileged_config text allow_lan
    ok config.tun_device
