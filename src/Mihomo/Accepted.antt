-- ===== src/Mihomo/Accepted.antt =====
-- src-tauri/src/bin/kwik_helper/mihomo.rs: what a configuration is that the privileged side accepts.
use mathlib.Core.Path.{subst}
use kwik_proxy_secure.Mihomo.Config.{
  Error, or_fail, invalid_yaml, root_not_mapping, Parsers, Value, Mapping, end, entry, SocketAddr,
  ValidatedConfig, validate_privileged_config, validated_tun_device, validate_controller,
  validate_exposure, validate_tun, validate_provider_paths, validate_providers, provider_checks,
  forbidden_keys, has_key, is_loopback, is_secure_device, is_private_listen, is_local_bind,
  string_value, bool_value, mapping_value, as_mapping, unwrap_or, and_then, all_some, bool_eq,
  secure_tun_prefix,
}
use kwik_proxy_secure.Net.{v6, v4, IpAddr, Std}
use kwik_proxy_secure.Prelude.{
  ◌≤◌, ◌∷◌, List, Result, ◌>>=◌, ℕ, zero, suc, ◌+◌, Result-cases, Text, codes, text_eq, starts_with,
  len, Bool, true, false, not, ◌&&◌, ◌||◌, [], Option, none, some, ok, err, if◌then◌else◌, ltb, all,
  any, ◌≡◌, ◌≢◌, refl, arith, inl, inr, Option-cases, sym,
}
use kwik_proxy_secure.Tun.{
  Adapters, cleanup_owned_device, invalid_device, await_absence, owned_alias_exists, device_byte,
}

-- A provider whose file stays in the runtime directory and whose source is HTTPS.
abbrev pub IsSafeProvider : Parsers → Value → Type 0
IsSafeProvider ps v =
    (m : Mapping) × (as_mapping v ≡ some m)
    × (all_some (λ path. not (ps.is_absolute path || ps.has_parent_dir path))
          (string_value m (codes "path"))
        ≡ true)
    × (all_some (λ url. starts_with url (codes "https://")) (string_value m (codes "url")) ≡ true)

abbrev pub AllProviders : (Value → Type 0) → Mapping → Type 0
AllProviders P end = Unit
AllProviders P (entry k v rest) = P v × AllProviders P rest

abbrev pub InSection : (Value → Type 0) → Option Mapping → Type 0
InSection P none = Unit
InSection P (some providers) = AllProviders P providers

-- The sections that would open a listener, run a script or load a page as SYSTEM.
abbrev pub server_keys : List Text
server_keys =
    codes "listeners"
    ∷ codes "inbounds"
    ∷ codes "tunnels"
    ∷ codes "script"
    ∷ codes "external-ui"
    ∷ codes "external-ui-url"
    ∷ codes "external-controller-pipe"
    ∷ codes "external-controller-unix"
    ∷ codes "external-controller-cors"
    ∷ codes "geox-url"
    ∷ codes "ss-config"
    ∷ codes "vmess-config"
    ∷ codes "tuic-server"
    ∷ []

-- An address of this machine: 127.0.0.0/8 or ::1.
abbrev pub IsThisMachine : IpAddr → Type 0
IsThisMachine (v4 a) = a.a ≡ 127
IsThisMachine (v6 a) = a.bits ≡ 1

-- A configuration that the service may run as SYSTEM, with the device and the controller it names.
pub record IsAccepted (ps : Parsers) (text : Text) (allow_lan : Bool) (c : ValidatedConfig)
    : Type 0 where
  pub root : Mapping
  pub parsed : and_then as_mapping (ps.yaml text) ≡ some root
  pub no_forbidden : any (has_key root) server_keys ≡ false
  pub controller : Text
  pub has_controller : string_value root (codes "external-controller") ≡ some controller
  pub controller_addr : ps.socket_addr controller ≡ some c.controller_addr
  pub controller_local : IsThisMachine c.controller_addr.ip
  pub controller_port : c.controller_addr.port ≢ 0
  pub secret_set : text_eq (unwrap_or [] (string_value root (codes "secret"))) [] ≡ false
  pub secret_short : len (unwrap_or [] (string_value root (codes "secret"))) ≤ 256
  pub lan_agrees : unwrap_or false (bool_value root (codes "allow-lan")) ≡ allow_lan
  pub bind_local :
      (allow_lan
        || any
            (text_eq (unwrap_or (codes "127.0.0.1") (string_value root (codes "bind-address"))))
            (codes "127.0.0.1" ∷ codes "::1" ∷ codes "localhost" ∷ []))
      ≡ true
  pub dns_private :
      all_some
        (λ listen.
          text_eq listen []
          || text_eq listen (codes "0.0.0.0:0")
          || any
              (starts_with listen)
              (codes "127.0.0.1:" ∷ codes "[::1]:" ∷ codes "198.18.0.1:" ∷ []))
        (and_then (λ m. string_value m (codes "listen")) (mapping_value root (codes "dns")))
      ≡ true
  pub tun : Mapping
  pub has_tun : mapping_value root (codes "tun") ≡ some tun
  pub tun_enabled : bool_value tun (codes "enable") ≡ some true
  pub names_device : string_value tun (codes "device") ≡ some c.tun_device
  pub device_secure : is_secure_device c.tun_device ≡ true
  pub device_prefix : starts_with c.tun_device (codes "kwikproxy-secure-") ≡ true
  pub device_short : len c.tun_device ≤ 96
  pub proxy_providers : InSection (IsSafeProvider ps) (mapping_value root (codes "proxy-providers"))
  pub rule_providers : InSection (IsSafeProvider ps) (mapping_value root (codes "rule-providers"))

bool_eq_sound : (a b : Bool) → bool_eq a b ≡ true → a ≡ b
bool_eq_sound true true e = refl
bool_eq_sound false false e = refl
bool_eq_sound true false e = cc
bool_eq_sound false true e = cc

checks_agree :
    {A : Type 0} (a l c : Bool) (x y : A)
    → (a && not l && c) ≡ true
    → (if not a || l || not c then x else y) ≡ y
checks_agree true false true x y e = refl
checks_agree true false false x y e = absurd (ground arith)
checks_agree true true c x y e = absurd (ground arith)
checks_agree false l c x y e = absurd (ground arith)

alias_await :
    (std : Std) (os : Adapters) (fuel k : ℕ) (device : Text)
    → await_absence std os fuel k (owned_alias_exists std os device) ≢ err invalid_device
unfolding await_absence owned_alias_exists
alias_await std os zero k device = ground arith
alias_await std os (suc fuel) k device =
    let later = alias_await std os fuel (k + 1) device in ground arith

this_machine_lem : (ip : IpAddr) → is_loopback ip ≡ true → IsThisMachine ip
unfolding is_loopback
this_machine_lem (v4 a) h = ground arith
this_machine_lem (v6 a) h = ground arith

local_bind_lem :
    (allow_lan : Bool) (bind : Text)
    → (allow_lan || is_local_bind bind) ≡ true
    → (allow_lan || any (text_eq bind) (codes "127.0.0.1" ∷ codes "::1" ∷ codes "localhost" ∷ []))
      ≡ true
unfolding is_local_bind
local_bind_lem allow_lan bind h = ground arith

private_listen_lem :
    (o : Option Text)
    → all_some is_private_listen o ≡ true
    → all_some
        (λ listen.
          text_eq listen []
          || text_eq listen (codes "0.0.0.0:0")
          || any
              (starts_with listen)
              (codes "127.0.0.1:" ∷ codes "[::1]:" ∷ codes "198.18.0.1:" ∷ []))
        o
      ≡ true
unfolding is_private_listen
private_listen_lem none h = refl
private_listen_lem (some listen) h = ground arith

secure_device_lem :
    (device : Text)
    → is_secure_device device ≡ true
    → (starts_with device (codes "kwikproxy-secure-") ≡ true) × (len device ≤ 96)
unfolding is_secure_device
secure_device_lem device h = (ground arith, ground arith)

module _ (ps : Parsers) where
  provider_checks_lem :
      (v : Value) (m : Mapping)
      → as_mapping v ≡ some m
      → provider_checks ps m ≡ ok tt
      → IsSafeProvider ps v
  provider_checks_lem v m e h = (m, e, ground arith, ground arith)

  validate_providers_lem :
      (providers : Mapping)
      → validate_providers ps providers ≡ ok tt
      → AllProviders (IsSafeProvider ps) providers
  unfolding validate_providers
  validate_providers_lem end e = tt
  validate_providers_lem (entry k v rest) e = elim (Option-cases (as_mapping v)) [
    | inl absent ↦ absurd (ground arith)
    | inr (m, there) ↦
        (provider_checks_lem v m there (ground arith), validate_providers_lem rest (ground arith))
  ]

  section_lem :
      (root : Mapping) (section : Text)
      → validate_provider_paths ps root section ≡ ok tt
      → InSection (IsSafeProvider ps) (mapping_value root section)
  unfolding validate_provider_paths
  section_lem root section e = elim (Option-cases (mapping_value root section)) [
    | inl absent ↦ subst (InSection (IsSafeProvider ps)) (sym absent) tt
    | inr (providers, there) ↦
        subst (InSection (IsSafeProvider ps)) (sym there)
          (validate_providers_lem providers (ground arith))
  ]

  controller_lem :
      (root : Mapping) (addr : SocketAddr)
      → validate_controller ps root ≡ ok addr
      → (controller : Text) × (string_value root (codes "external-controller") ≡ some controller)
        × (ps.socket_addr controller ≡ some addr)
        × (is_loopback addr.ip ≡ true)
        × (addr.port ≢ 0)
        × (text_eq (unwrap_or [] (string_value root (codes "secret"))) [] ≡ false)
        × (len (unwrap_or [] (string_value root (codes "secret"))) ≤ 256)
  unfolding validate_controller
  controller_lem root addr e =
      elim (Option-cases (string_value root (codes "external-controller"))) [
        | inl absent ↦ absurd (ground arith)
        | inr (controller, there) ↦ (
          controller,
          there,
          ground arith,
          ground arith,
          ground arith,
          ground arith,
          ground arith,
        )
      ]

  exposure_lem :
      (root : Mapping) (allow_lan : Bool)
      → validate_exposure ps root allow_lan ≡ ok tt
      → (unwrap_or false (bool_value root (codes "allow-lan")) ≡ allow_lan)
        × ((allow_lan
              || is_local_bind
                  (unwrap_or (codes "127.0.0.1") (string_value root (codes "bind-address"))))
            ≡ true)
        × (all_some is_private_listen
              (and_then (λ m. string_value m (codes "listen")) (mapping_value root (codes "dns")))
            ≡ true)
  unfolding validate_exposure
  exposure_lem root allow_lan e = (
    bool_eq_sound (unwrap_or false (bool_value root (codes "allow-lan"))) allow_lan (ground arith),
    ground arith,
    ground arith,
  )

  tun_lem :
      (root : Mapping) (device : Text)
      → validate_tun ps root ≡ ok device
      → (tun : Mapping) × (mapping_value root (codes "tun") ≡ some tun)
        × (bool_value tun (codes "enable") ≡ some true)
        × (string_value tun (codes "device") ≡ some device)
        × (is_secure_device device ≡ true)
  unfolding validate_tun
  tun_lem root device e = elim (Option-cases (mapping_value root (codes "tun"))) [
    | inl absent ↦ absurd (ground arith)
    | inr (tun, there) ↦ (tun, there, ground arith, ground arith, ground arith)
  ]

  -- The checks, each of which has passed.
  checks_lem :
      (text : Text) (allow_lan : Bool) (c : ValidatedConfig) (root : Mapping)
      → and_then as_mapping (ps.yaml text) ≡ some root
      → validate_privileged_config ps text allow_lan ≡ ok c
      → (any (has_key root) forbidden_keys ≡ false)
        × (validate_controller ps root ≡ ok c.controller_addr)
        × (validate_exposure ps root allow_lan ≡ ok tt)
        × (validate_tun ps root ≡ ok c.tun_device)
        × (validate_provider_paths ps root (codes "proxy-providers") ≡ ok tt)
        × (validate_provider_paths ps root (codes "rule-providers") ≡ ok tt)
  unfolding validate_privileged_config
  checks_lem text allow_lan c root parsed e = elim (Option-cases (ps.yaml text)) [
    | inl absent ↦ absurd (ground arith)
    | inr (v, there) ↦
        (ground arith, ground arith, ground arith, ground arith, ground arith, ground arith)
  ]

  unparsed :
      (o : Option Value) {c : ValidatedConfig} (next : Mapping → Result Error ValidatedConfig)
      → and_then as_mapping o ≡ none
      → (do
        value ← or_fail invalid_yaml o
        root ← or_fail root_not_mapping (as_mapping value)
        next root)
        ≢ ok c
  unparsed none next e = cc
  unparsed (some v) next e = ground arith

  -- A configuration that `validate_privileged_config` accepts is safe to run as SYSTEM: it parses to
  -- a mapping with none of the forbidden keys; its controller is a numeric address of
  -- 127.0.0.0/8 or ::1 with a port and a secret of 1 to 256 bytes; it listens to the LAN only as
  -- asked; its DNS listener is off, on this machine or on the TUN's address; its TUN is on and bears a
  -- name under `kwikproxy-secure-` of at most 96 bytes that `is_secure_device` accepts; its providers
  -- stay in their directory and load over HTTPS.
  pub validate_privileged_config-IsAccepted :
      (text : Text) (allow_lan : Bool) (c : ValidatedConfig)
      → validate_privileged_config ps text allow_lan ≡ ok c
      → IsAccepted ps text allow_lan c
  unfolding validate_privileged_config
  validate_privileged_config-IsAccepted text allow_lan c e =
      elim (Option-cases (and_then as_mapping (ps.yaml text))) [
        | inl absent ↦ absurd (unparsed (ps.yaml text) _ absent e)
        | inr (root, y) ↦
            let (no_forbidden, controls, exposes, tuns, proxies, rules) =
              checks_lem text allow_lan c root y e in
            let (controller, has_controller, addr, is_local, port, secret, short) =
              controller_lem root c.controller_addr controls in
            let (lan, bind, dns) = exposure_lem root allow_lan exposes in
            let (tun, has_tun, on, device, secure) = tun_lem root c.tun_device tuns in
            record {
              root = root;
              parsed = y;
              no_forbidden = no_forbidden;
              controller = controller;
              has_controller = has_controller;
              controller_addr = addr;
              controller_local = this_machine_lem c.controller_addr.ip is_local;
              controller_port = port;
              secret_set = secret;
              secret_short = short;
              lan_agrees = lan;
              bind_local =
                  local_bind_lem allow_lan
                    (unwrap_or (codes "127.0.0.1") (string_value root (codes "bind-address"))) bind;
              dns_private =
                  private_listen_lem
                    (and_then (λ m. string_value m (codes "listen"))
                      (mapping_value root (codes "dns")))
                    dns;
              tun = tun;
              has_tun = has_tun;
              tun_enabled = on;
              names_device = device;
              device_secure = secure;
              device_prefix = (secure_device_lem c.tun_device secure).0;
              device_short = (secure_device_lem c.tun_device secure).1;
              proxy_providers = section_lem root (codes "proxy-providers") proxies;
              rule_providers = section_lem root (codes "rule-providers") rules;
            }
      ]

  validated_lem :
      (text : Text) (allow_lan : Bool) (device : Text)
      → validated_tun_device ps text allow_lan ≡ ok device
      → is_secure_device device ≡ true
  unfolding validated_tun_device
  validated_lem text allow_lan device e =
      elim (Result-cases (validate_privileged_config ps text allow_lan)) [
        | inl (c, accepted) ↦
            let secure =
              (validate_privileged_config-IsAccepted text allow_lan c accepted).device_secure in
            let same : c.tun_device ≡ device = ground arith in
            subst (λ d. is_secure_device d ≡ true) same secure
        | inr (x, failed) ↦ absurd (ground arith)
      ]

  looks_valid :
      (std : Std) (os : Adapters) (fuel : ℕ) (device : Text)
      → is_secure_device device ≡ true
      → cleanup_owned_device std os fuel device
        ≡ await_absence std os fuel 0 (owned_alias_exists std os device)
  unfolding is_secure_device cleanup_owned_device
  looks_valid std os fuel device secure =
      checks_agree (starts_with device secure_tun_prefix) (ltb 96 (len device))
        (all (device_byte std os) device) _ _ secure

  -- The two checks of a device name agree: what the configuration check accepts, the cleanup of the
  -- device never refuses as a name that is not the product's.
  pub validated_device-cleanable :
      (text : Text) (allow_lan : Bool) (device : Text) (std : Std) (os : Adapters) (fuel : ℕ)
      → validated_tun_device ps text allow_lan ≡ ok device
      → cleanup_owned_device std os fuel device ≢ err invalid_device
  validated_device-cleanable text allow_lan device std os fuel e =
      let waits = looks_valid std os fuel device (validated_lem text allow_lan device e) in
      let sees = alias_await std os fuel 0 device in ground arith
