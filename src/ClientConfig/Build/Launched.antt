-- ===== src/ClientConfig/Build/Launched.antt =====
-- src-tauri/src/config/mihomo_config.rs and src-tauri/src/bin/kwik_helper/mihomo.rs: what `build` writes
-- for one server is what the helper accepts.
use kwik_proxy_secure.ClientConfig.{Libs, MihomoConfig, decimal}
use kwik_proxy_secure.ClientConfig.Build.{Settings, built_root, build}
use kwik_proxy_secure.ClientConfig.Patch.{is_lan}
use kwik_proxy_secure.ClientConfig.Patch.Launched.{validate_runtime_inputs-device}
use kwik_proxy_secure.ClientConfig.Patch.Passing.{
  accepted_lem, controller_passes, local_addr, owned-is_secure, tun_passes,
}
use kwik_proxy_secure.ClientConfig.Sanitize.{validate_runtime_inputs, is_owned_device}
use kwik_proxy_secure.Mihomo.Config.{
  Parsers, mapping, Mapping, is_local_bind, validate_privileged_config,
}
use kwik_proxy_secure.Prelude.{
  Text, codes, text_eq, len, true, false, ◌||◌, [], ◌++◌, any, some, ok, >>-ok, ltb, ◌≡◌, ◌≢◌, refl,
  is_ascii_uppercase,
}
use kwik_proxy_secure.ClientConfig.Build.Written.{
  as_patch, built-IsInbound, built-no_forbidden, built-exposure, built-IsTunnelled, built-providers,
}

built_lem :
    (libs : Libs) (s : Settings) (proxy : Mapping) (cfg : MihomoConfig) (device : Text)
    → build libs (some proxy) s ≡ ok cfg
    → s.use_builtin_tun ≡ true
    → s.tun_device ≡ some device
    → is_owned_device device ≡ true
unfolding build
built_lem libs s proxy cfg device h =
    let (inputs, rest) =
      >>-ok
        (validate_runtime_inputs libs s.app_rules s.anti_dpi s.custom_dns s.use_builtin_tun
          s.tun_device)
        _ h in
    validate_runtime_inputs-device libs s.app_rules s.anti_dpi s.custom_dns s.use_builtin_tun
      s.tun_device device inputs

-- What `build` writes for one server with the built-in TUN mode, whatever mapping stands for the server,
-- is accepted by `validate_privileged_config` with the LAN exposure that was asked for, and is found to
-- name the application's device and the application's controller, if: the helper reads back the document
-- that was written, and the address of the controller; the controller has a port and a secret of at most
-- 256 bytes; the application listens to all addresses or to a loopback one; and the device's name has no
-- upper-case letter.
pub build-is_accepted :
    (libs : Libs) (ps : Parsers) (s : Settings) (proxy : Mapping) (cfg : MihomoConfig)
    (device : Text)
    → build libs (some proxy) s ≡ ok cfg
    → ps.yaml cfg.yaml ≡ some (mapping (built_root libs s proxy))
    → ps.socket_addr (codes "127.0.0.1:" ++ decimal s.external_controller_port)
      ≡ some (local_addr s.external_controller_port)
    → s.external_controller_port ≢ 0
    → s.external_controller_secret ≢ []
    → ltb 256 (len s.external_controller_secret) ≡ false
    → (is_lan s.listen || is_local_bind s.listen) ≡ true
    → s.use_builtin_tun ≡ true
    → s.tun_device ≡ some device
    → any is_ascii_uppercase device ≡ false
    → validate_privileged_config ps cfg.yaml (is_lan s.listen)
      ≡ ok (record { tun_device = device; controller_addr = local_addr s.external_controller_port })
unfolding text_eq
build-is_accepted libs ps s proxy cfg device h reads addr port secret short listens on named lower =
    let root = built_root libs s proxy in
    accepted_lem ps cfg.yaml (is_lan s.listen) root (local_addr s.external_controller_port) device
      reads (built-no_forbidden libs s proxy)
      (controller_passes ps (as_patch libs s proxy) root (built-IsInbound libs s proxy) addr port
        secret short)
      (built-exposure libs s proxy ps listens)
      (tun_passes ps device root (built-IsTunnelled libs s proxy device on named)
        (owned-is_secure device (built_lem libs s proxy cfg device h on named) lower))
      (built-providers libs s proxy ps (codes "proxy-providers") refl)
      (built-providers libs s proxy ps (codes "rule-providers") refl)
