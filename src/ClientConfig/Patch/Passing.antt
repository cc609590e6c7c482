-- ===== src/ClientConfig/Patch/Passing.antt =====
-- src-tauri/src/bin/kwik_helper/mihomo.rs: which documents its checks accept.
use kwik_proxy_secure.ClientConfig.{FullYamlPatch}
use kwik_proxy_secure.ClientConfig.Patch.{controller_of, is_lan}
use kwik_proxy_secure.ClientConfig.Patch.Inbound.{IsInbound, IsTunnelled}
use kwik_proxy_secure.ClientConfig.Patch.Quiet.{IsQuiet}
use kwik_proxy_secure.ClientConfig.Sanitize.{is_owned_device}
use kwik_proxy_secure.Mihomo.Config.{
  Parsers, mapping, Mapping, get, has_key, forbidden_keys, SocketAddr, is_secure_device,
  is_local_bind, validate_controller, validate_exposure, validate_tun, validate_provider_paths,
  validate_privileged_config, bool_eq,
}
use kwik_proxy_secure.Net.{v4}
use kwik_proxy_secure.Prelude.{
  ℕ, Text, codes, text_eq, starts_with, len, Bool, true, false, not, ◌&&◌, ◌||◌, List, [], ◌∷◌, all,
  any, All, none, some, ok, ltb, ◌==◌, ◌≡◌, ◌≢◌, refl, arith, is_ascii_uppercase,
  is_ascii_lowercase, is_ascii_digit, is_ascii_alphanumeric,
}

abbrev pub local_addr : ℕ → SocketAddr
local_addr p = record { ip = v4 (record { a = 127; b = 0; c = 0; d = 1 }); port = p }

device_chars :
    (device : Text)
    → all (λ c. is_ascii_alphanumeric c || c == b'-') device ≡ true
    → any is_ascii_uppercase device ≡ false
    → all (λ c. is_ascii_lowercase c || is_ascii_digit c || c == b'-') device ≡ true
device_chars [] h e = refl
device_chars (c ∷ cs) h e = let rest = device_chars cs (ground arith) (ground arith) in ground arith

last_test :
    (a b c : Bool)
    → (a && b && c) ≡ true
    → ((d : Bool) → d ≡ true → (a && b && d) ≡ true) × (c ≡ true)
last_test true true c h = ((λ d e. e), h)
last_test true false c h = cc
last_test false b c h = absurd (ground arith)

pub owned-is_secure :
    (device : Text)
    → is_owned_device device ≡ true
    → any is_ascii_uppercase device ≡ false
    → is_secure_device device ≡ true
unfolding is_owned_device is_secure_device
owned-is_secure device h e =
    let (start, chars) =
      last_test (starts_with device (codes "kwikproxy-secure-")) (not (ltb 96 (len device))) _ h in
    start _ (device_chars device chars e)

pub absent_keys :
    (root : Mapping) (keys : List Text)
    → All (λ k. get k root ≡ none) keys
    → any (has_key root) keys ≡ false
absent_keys root [] h = refl
absent_keys root (k ∷ keys) h =
    let later = absent_keys root keys h.1 in let here = h.0 in ground arith

-- What the helper's checks ask of a document, and what they then return.
pub accepted_lem :
    (ps : Parsers) (text : Text) (lan : Bool) (root : Mapping) (addr : SocketAddr) (device : Text)
    → ps.yaml text ≡ some (mapping root)
    → any (has_key root) forbidden_keys ≡ false
    → validate_controller ps root ≡ ok addr
    → validate_exposure ps root lan ≡ ok tt
    → validate_tun ps root ≡ ok device
    → validate_provider_paths ps root (codes "proxy-providers") ≡ ok tt
    → validate_provider_paths ps root (codes "rule-providers") ≡ ok tt
    → validate_privileged_config ps text lan
      ≡ ok (record { tun_device = device; controller_addr = addr })
unfolding validate_privileged_config
accepted_lem ps text lan root addr device parsed none_there controls exposes tunnels proxies rules =
    ground arith

not_empty : (t : Text) → t ≢ [] → text_eq t [] ≡ false
unfolding text_eq
not_empty [] e = absurd (e refl)
not_empty (c ∷ cs) e = refl

pub bool_eq_refl : (b : Bool) → bool_eq b b ≡ true
bool_eq_refl true = refl
bool_eq_refl false = refl

pub controller_passes :
    (ps : Parsers) (patch : FullYamlPatch) (root : Mapping)
    → IsInbound patch root
    → ps.socket_addr (controller_of patch) ≡ some (local_addr patch.external_controller_port)
    → patch.external_controller_port ≢ 0
    → patch.external_controller_secret ≢ []
    → ltb 256 (len patch.external_controller_secret) ≡ false
    → validate_controller ps root ≡ ok (local_addr patch.external_controller_port)
unfolding validate_controller
controller_passes ps patch root is parsed port secret short =
    let there = is.controller in
    let secret_there = is.secret in
    let is_set = not_empty patch.external_controller_secret secret in ground arith

pub exposure_passes :
    (ps : Parsers) (patch : FullYamlPatch) (root : Mapping)
    → IsInbound patch root
    → IsQuiet root
    → (is_lan patch.listen || is_local_bind patch.listen) ≡ true
    → validate_exposure ps root (is_lan patch.listen) ≡ ok tt
unfolding validate_exposure
exposure_passes ps patch root is quiet bind =
    let (dns, there, silent) = quiet in
    let lan = is.lan in
    let bound = is.bind in let agrees = bool_eq_refl (is_lan patch.listen) in ground arith

pub tun_passes :
    (ps : Parsers) (device : Text) (root : Mapping)
    → IsTunnelled device root
    → is_secure_device device ≡ true
    → validate_tun ps root ≡ ok device
unfolding validate_tun
tun_passes ps device root is secure =
    let there = is.section in let on = is.enabled in let named = is.named in ground arith
