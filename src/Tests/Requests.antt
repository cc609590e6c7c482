-- ===== src/Tests/Requests.antt =====
-- The theorems of System at a helper that runs one tunnel, and over one history.
use kwik_proxy_secure.Dispatch.{
  Os, Helper, handle, start_tunnel, kill_switch_enable, kill_switch_disable, mihomo_stop,
  kill_switch_heartbeat, tunnel_status, status, done,
}
use kwik_proxy_secure.Firewall.{Firewall, watchdog, heartbeat}
use kwik_proxy_secure.Mihomo
use kwik_proxy_secure.Mihomo.Config
use kwik_proxy_secure.Prelude.{
  starts_with, ◌≤◌, ◌<◌, ◌+◌, ◌%◌, ◌==◌, text_eq, codes, true, false, not, Bool, List, [], ◌∷◌,
  Option, none, some, ok, ◌≡◌, ◌≢◌, ◌⊎◌, refl, arith, is_some_and, is_some,
}
use kwik_proxy_secure.Broker
use kwik_proxy_secure.Dispatch
use kwik_proxy_secure.Firewall
use kwik_proxy_secure.Tun
use kwik_proxy_secure.System
use kwik_proxy_secure.System.{
  System, Event, request, poll, report, watch, shutdown, run, on_tunnel_process_exit,
  shutdown_cleanup,
}
use kwik_proxy_secure.System.Failing.{seen, failed_enable-still_reported}
use kwik_proxy_secure.Mihomo.{running, exited, Tunnel, is_running}
use kwik_proxy_secure.Wfp.{open_failed}
use kwik_proxy_secure.System.Expiry.{expired-still_reported}
use kwik_proxy_secure.System.Foreign.{handle-foreign, stale_exit-changes_nothing}
use kwik_proxy_secure.System.Invariant.{IsSafe, run-IsSafe}
use kwik_proxy_secure.System.Outcomes.{
  IsGuarded, enable_request-IsGuarded, disable_request-Off, IsStopped, stop_request-IsStopped,
}
use kwik_proxy_secure.System.Ownership.{IsOwned, helper}
use kwik_proxy_secure.System.Starting.{IsStarted, start_request-IsStarted}
use kwik_proxy_secure.System.Shutdown.{IsClean, shutdown-IsClean, exit-IsClean}
use kwik_proxy_secure.Ports
use kwik_proxy_secure.Ports.{find_free_port-first, random_high_port-in_range}
use kwik_proxy_secure.Tests.{
  api_example, adapters_up, adapters_down, os_with, host_with, installed, caller, stranger, quiet,
  idle, tunnel_example, owner_example, running_helper, guard, instance,
}

abbrev os_up : Os
os_up = os_with adapters_up running

abbrev os_down : Os
os_down = os_with adapters_down running

-- Start a tunnel, guard it, see it exit, report that, and shut down.
abbrev history : List Event
history =
    request os_up installed caller (start_tunnel [] false)
    ∷ request os_up installed caller (kill_switch_enable guard)
    ∷ watch 6
    ∷ poll (host_with exited) tunnel_example
    ∷ report os_down
    ∷ shutdown os_down
    ∷ []

abbrev at_start : System
at_start = record { helper = idle; exits = [] }

at_start-IsSafe : IsSafe at_start
at_start-IsSafe = record { owned = record { busy = tt; runs = tt; filters = tt }; distinct = tt }

run-IsSafe_example : IsSafe (run history at_start)
unfolding run System.step
run-IsSafe_example =
    run-IsSafe history at_start (tt, (tt, (tt, (tt, (tt, (tt, tt)))))) at_start-IsSafe

running_helper-IsOwned : IsOwned running_helper
running_helper-IsOwned = record {
  busy = refl;
  runs = record {
    marked = refl;
    session = refl;
    generation = refl;
    device = refl;
    pid = refl;
    instance_id = refl;
  };
  filters = tt;
}

enable_request-IsGuarded_example :
    IsGuarded os_up installed caller guard
      (handle os_up installed caller (kill_switch_enable guard) running_helper).0
unfolding Dispatch.handle Dispatch.kill_switch_enable_request Dispatch.reject_if text_eq
    Dispatch.enable_after_bind Broker.bind_or_verify Dispatch.enable_bound Dispatch.enable_on_device
    Dispatch.enable_gated Dispatch.after_gate Tun.current_tun_interface_index
    Firewall.enable_blocking Firewall.install Firewall.add_base Firewall.add_exceptions
    Firewall.add_lan Firewall.for_each Firewall.add_server Firewall.add_app Firewall.add_tun
    Firewall.add_dns Broker.trusted_app_paths
enable_request-IsGuarded_example =
    enable_request-IsGuarded os_up installed caller guard running_helper refl

handle-foreign_example :
    (handle os_up installed stranger mihomo_stop running_helper).0 ≡ running_helper
unfolding handle kwik_proxy_secure.Broker.verify_if_active
handle-foreign_example =
    handle-foreign os_up installed stranger mihomo_stop running_helper running_helper-IsOwned refl

stale_exit-changes_nothing_example :
    on_tunnel_process_exit os_up 1 (codes "g") 77 (codes "i0") running_helper ≡ running_helper
stale_exit-changes_nothing_example =
    stale_exit-changes_nothing os_up 1 (codes "g") 77 (codes "i0") running_helper tunnel_example
      running_helper-IsOwned refl (ground arith)

shutdown-IsClean_example : IsClean (shutdown_cleanup os_down running_helper).0
unfolding shutdown_cleanup kwik_proxy_secure.Mihomo.stop kwik_proxy_secure.Firewall.disable_blocking
    kwik_proxy_secure.Tun.cleanup_owned_device
shutdown-IsClean_example = shutdown-IsClean os_down running_helper refl

exit-IsClean_example : IsClean (
    on_tunnel_process_exit os_down 1
      (codes "g")
      77
      instance
      (helper (some owner_example) quiet none))
unfolding on_tunnel_process_exit kwik_proxy_secure.Broker.owner_matches
    kwik_proxy_secure.Prelude.text_eq kwik_proxy_secure.Tun.cleanup_owned_device
    kwik_proxy_secure.Firewall.disable_blocking
exit-IsClean_example =
    exit-IsClean os_down 1 77 (codes "g") instance (helper (some owner_example) quiet none)
      owner_example (record { busy = refl; runs = tt; filters = tt }) refl refl refl refl refl

disable_request-Off_example :
    ((handle os_up installed caller kill_switch_disable running_helper).0.firewall.engine ≡ none)
    × (is_some_and
          (λ o. o.firewall_active)
          (handle os_up installed caller kill_switch_disable running_helper).0.broker.owner
        ≡ false)
unfolding handle kwik_proxy_secure.Dispatch.kill_switch_disable_request
    kwik_proxy_secure.Dispatch.reject_if kwik_proxy_secure.Broker.verify_if_active
    kwik_proxy_secure.Prelude.text_eq kwik_proxy_secure.Firewall.disable_blocking
disable_request-Off_example = disable_request-Off os_up installed caller running_helper refl

stop_request-IsStopped_example :
    IsStopped os_down installed caller
      (handle os_down installed caller mihomo_stop running_helper).0
unfolding handle kwik_proxy_secure.Dispatch.mihomo_stop_request kwik_proxy_secure.Dispatch.reject_if
    kwik_proxy_secure.Broker.verify_if_active kwik_proxy_secure.Prelude.text_eq
    kwik_proxy_secure.Mihomo.stop_owned kwik_proxy_secure.Tun.cleanup_owned_device
stop_request-IsStopped_example = stop_request-IsStopped os_down installed caller running_helper refl

-- The heartbeat was at 5, and the watchdog looks at 100.
abbrev armed : Firewall
armed = record {
  engine = some (record { dynamic = true; filters = [] });
  last_heartbeat = some 5;
  watchdog_started = true;
}

expired-still_reported_example :
    ((watchdog 100 armed).engine ≡ none)
    × (handle os_up installed caller kill_switch_heartbeat (
          helper (some (record owner_example { firewall_active = true })) (watchdog 100 armed) none)
        ≡ (
          helper
              (some (record owner_example { firewall_active = true }))
              (heartbeat 5 (watchdog 100 armed))
              none,
          done,
        ))
    × ((heartbeat 5 (watchdog 100 armed)).engine ≡ none)
    × ((handle os_up installed caller tunnel_status (
          helper
            (some (record owner_example { firewall_active = true }))
            (watchdog 100 armed)
            none)).1
        ≡ status false true true true)
unfolding heartbeat kwik_proxy_secure.Broker.owner_matches kwik_proxy_secure.Prelude.text_eq
    kwik_proxy_secure.Mihomo.is_running
expired-still_reported_example =
    expired-still_reported os_up installed caller (record owner_example { firewall_active = true })
      armed none 100 5 refl refl (omega arith) refl refl

-- Only port 7 can be bound.
find_free_port-first_example :
    ((Ports.find_free_port (λ p. p == 7) 5 == 7) ≡ true)
    × (5 ≤ Ports.find_free_port (λ p. p == 7) 5)
    × (Ports.find_free_port (λ p. p == 7) 5 ≤ 7)
find_free_port-first_example =
    find_free_port-first (λ p. p == 7) 5 7 (omega arith) (omega arith) refl

start_request-IsStarted_example :
    IsStarted os_up installed caller [] false none
      (handle os_up installed caller (start_tunnel [] false) idle).0
unfolding handle Dispatch.start_tunnel_request Dispatch.start_after_bind Broker.bind_or_verify
    Dispatch.start_bound Dispatch.reject_if Broker.any_active Dispatch.start_on_device
    Config.validated_tun_device Config.get Config.validate_controller Config.validate_exposure
    Config.validate_tun starts_with Config.validate_provider_paths Mihomo.start Mihomo.after_launch
    Mihomo.launch Mihomo.wait_for_child_readiness Tun.owned_tun_interface_ready
start_request-IsStarted_example = start_request-IsStarted os_up installed caller [] false idle refl

-- A host on which the engine of the filters does not open.
abbrev os_closed : Os
os_closed = record os_up { wfp = record api_example { engine_open = λ d. false } }

failed_enable-still_reported_example :
    (fw' : Firewall) × ((handle os_closed installed caller
        (kill_switch_enable guard)
        (helper (some (record owner_example { firewall_active = true })) armed none)).0
      ≡ helper (some (seen caller.pid (record owner_example { firewall_active = true }))) fw' none)
    × (fw'.engine ≡ none)
    × ((handle os_closed installed caller tunnel_status (
          helper
            (some (seen caller.pid (record owner_example { firewall_active = true })))
            fw'
            none)).1
        ≡ status
            (is_running os_closed.std os_closed.host none)
            (not (is_running os_closed.std os_closed.host none))
            true
            (is_some owner_example.tun_device))
unfolding Dispatch.handle Dispatch.kill_switch_enable_request Dispatch.reject_if text_eq
    Dispatch.enable_after_bind Broker.bind_or_verify Dispatch.enable_bound Dispatch.enable_on_device
    Dispatch.enable_gated Dispatch.after_gate Tun.current_tun_interface_index Broker.owner_matches
    Firewall.enable_blocking Broker.release_if_idle
failed_enable-still_reported_example =
    failed_enable-still_reported os_closed installed caller guard
      (record owner_example { firewall_active = true }) armed none open_failed refl refl refl
