-- ===== src/Tests/Child.antt =====
-- The theorems of Mihomo and Tun at a host on which the tunnel comes up, or its adapter is gone.
use kwik_proxy_secure.Mihomo.{running, start, Tunnel, StartedTunnel, Host}
use kwik_proxy_secure.Mihomo
use kwik_proxy_secure.Mihomo.Accepted.{IsAccepted, validate_privileged_config-IsAccepted}
use kwik_proxy_secure.Mihomo.Config.{
  ValidatedConfig, validated_tun_device, validate_privileged_config,
}
use kwik_proxy_secure.Mihomo.Readiness.{IsReady, start-IsReady}
use kwik_proxy_secure.Net.{v4}
use kwik_proxy_secure.Prelude.{
  All, List, ℕ, ◌*◌, ◌+◌, ◌≤◌, Text, codes, true, false, [], ◌∷◌, Option, none, some, ok, err, ◌≡◌,
  ◌≢◌, refl, arith,
}
use kwik_proxy_secure.Tests.{
  IfRow, std_example, parsers_example, host_with, adapters_up, adapters_down, device, instance,
  tunnel_example,
}
use kwik_proxy_secure.Tun
use kwik_proxy_secure.Tun.{
  wide_z_to_string, Adapters, OwnedTunInterface, cleanup_owned_device, cleanup_orphan_resources,
  owned_alias_exists,
}
use kwik_proxy_secure.Tun.Identity.{IsOwnAdapter, tun_interface-IsOwnAdapter}
use kwik_proxy_secure.Tun.Waiting.{cleanup_owned_device-ends, cleanup_owned_device-absent}

abbrev checked : ValidatedConfig
checked = record {
  tun_device = device;
  controller_addr = record { ip = v4 (record { a = 127; b = 0; c = 0; d = 1 }); port = 9090 };
}

validate_privileged_config-IsAccepted_example : IsAccepted parsers_example [] false checked
unfolding validate_privileged_config kwik_proxy_secure.Mihomo.Config.get
    kwik_proxy_secure.Mihomo.Config.validate_controller
    kwik_proxy_secure.Mihomo.Config.validate_exposure kwik_proxy_secure.Mihomo.Config.validate_tun
    kwik_proxy_secure.Prelude.starts_with kwik_proxy_secure.Mihomo.Config.validate_provider_paths
validate_privileged_config-IsAccepted_example =
    validate_privileged_config-IsAccepted parsers_example [] false checked refl

abbrev fresh : StartedTunnel
fresh = record { tun_device = device; pid = 77; instance_id = instance }

abbrev no_tunnel : Option Tunnel
no_tunnel = none

start-IsReady_example :
    (no_tunnel ≡ none)
    × (validated_tun_device parsers_example [] false ≡ ok device)
    × ((k : ℕ) × IsReady std_example (host_with running) k device)
    × (some tunnel_example ≡ some tunnel_example)
unfolding start Mihomo.after_launch Mihomo.launch kwik_proxy_secure.Prelude.len
    validate_privileged_config kwik_proxy_secure.Mihomo.Config.get
    kwik_proxy_secure.Mihomo.Config.validate_controller
    kwik_proxy_secure.Mihomo.Config.validate_exposure kwik_proxy_secure.Mihomo.Config.validate_tun
    kwik_proxy_secure.Prelude.starts_with kwik_proxy_secure.Mihomo.Config.validate_provider_paths
    Mihomo.wait_for_child_readiness Tun.owned_tun_interface_ready
start-IsReady_example =
    start-IsReady parsers_example std_example (host_with running) 101 1 [] (codes "g") false none
      (some tunnel_example) fresh refl

tun_interface-IsOwnAdapter_example :
    (alias : Text) × (k : ℕ) × (some device ≡ some alias)
    × IsOwnAdapter std_example adapters_up k alias (record { if_index = 7; luid = 42 })
unfolding Tun.current_tun_interface_index
tun_interface-IsOwnAdapter_example =
    tun_interface-IsOwnAdapter std_example adapters_up true (some device)
      (record { if_index = 7; luid = 42 }) refl

cleanup_owned_device-ends_example :
    cleanup_owned_device std_example adapters_up 21 device ≢ err Tun.stalled
cleanup_owned_device-ends_example =
    cleanup_owned_device-ends std_example adapters_up 21 device (λ k. omega arith) (omega arith)

cleanup_owned_device-absent_example :
    (k : ℕ) × ((rows : List IfRow) × (adapters_down.table k ≡ some rows)
      × All (λ row. wide_z_to_string std_example row.alias ≢ device) rows)
unfolding cleanup_owned_device
cleanup_owned_device-absent_example =
    cleanup_owned_device-absent std_example adapters_down 21 device refl
