-- ===== src/System.antt =====
-- The helper as a whole: the RPC of Dispatch, and what runs beside it in
-- src-tauri/src/bin/kwik_helper: the exit monitor of mihomo.rs with `on_tunnel_process_exit` and
-- `shutdown_cleanup` of dispatch.rs, and the watchdog thread of firewall.rs. A history is a list of
-- events, each taking the locks that the code holds through it.
pub mod Ownership
mod Handlers
pub mod Invariant
mod Exits
pub mod Instances
mod Tunnels
pub mod Expiry
pub mod Failing
pub mod Outcomes
pub mod Starting
pub mod Foreign
pub mod Shutdown
use kwik_proxy_secure.Broker
use kwik_proxy_secure.Broker.{BrokerState, ActiveOwner, Installation}
use kwik_proxy_secure.Dispatch.{
  Os, Client, Request, Response, Helper, handle, release, owner_update, owned_device, set_firewall,
  set_device, clean_device, clean_if_some, start_tunnel,
}
use kwik_proxy_secure.Firewall
use kwik_proxy_secure.Firewall.{Firewall}
use kwik_proxy_secure.Mihomo
use kwik_proxy_secure.Mihomo.{Tunnel, MonitorRound, gone, exit_observed, still_running, Host}
use kwik_proxy_secure.Prelude.{
  ℕ, Text, Bool, true, false, not, ◌&&◌, ◌||◌, List, [], ◌∷◌, Option, none, some, Result, ok, err,
  ◌>>=◌, ◌>>◌, if◌then◌else◌, is_some_and,
}
use kwik_proxy_secure.Tun
use kwik_proxy_secure.Wfp

module _ (os : Os) where
  -- `on_tunnel_process_exit`, for the session and generation of the monitored tunnel.
  abbrev pub after_exit_clean : Helper → Result Tun.Error (Unit {0}) → Helper
  after_exit_clean h (ok _) = owner_update (set_device none) h
  after_exit_clean h (err e) = h

  abbrev pub clean_exit_device : Helper → Option Text → Helper
  clean_exit_device h none = h
  clean_exit_device h (some device) = after_exit_clean h (clean_device os device)

  unfoldable pub exit_device : Helper → Helper
  exit_device h = clean_exit_device h (owned_device h.broker)

  abbrev pub keep_firewall : Helper → Firewall × Result Wfp.Error (Unit {0}) → Helper
  keep_firewall h (fw, ok _) = owner_update (set_firewall false) (record h { firewall = fw })
  keep_firewall h (fw, err e) = record h { firewall = fw }

  unfoldable pub exit_firewall : Helper → Helper
  exit_firewall h =
      if is_some_and (λ o. o.firewall_active) h.broker.owner
      then keep_firewall h (Firewall.disable_blocking os.wfp h.firewall)
      else h

  unfoldable pub on_tunnel_process_exit : ℕ → Text → ℕ → Text → Helper → Helper
  on_tunnel_process_exit session_id generation pid instance_id h =
      let noted = Broker.note_tunnel_exit generation session_id pid instance_id h.broker in
      if not noted.1
      then h
      else release (exit_firewall (exit_device (record h { broker = noted.0 })))

pub data ShutdownError : Type 0 where
  stop_mihomo : Mihomo.Error → ShutdownError
  disable_wfp : Wfp.Error → ShutdownError
  remove_tun : Tun.Error → ShutdownError

-- `if result.is_ok() { … }` on the owner.
abbrev pub on_ok :
    {E : Type 0} → Result E (Unit {0}) → (ActiveOwner → ActiveOwner) → Helper → Helper
on_ok (ok _) f h = owner_update f h
on_ok (err e) f h = h

-- The three results in the order in which `?` reports them; the device is not tried, and so not
-- reported, where Mihomo did not stop.
abbrev pub first_error :
    Result Mihomo.Error (Unit {0})
    → Result Wfp.Error (Unit {0})
    → Result Tun.Error (Unit {0})
    → Result ShutdownError (Unit {0})
first_error (err e) r s = err (stop_mihomo e)
first_error (ok _) (err e) s = err (disable_wfp e)
first_error (ok _) (ok _) (err e) = err (remove_tun e)
first_error (ok _) (ok _) (ok _) = ok tt

module _ (os : Os) where
  abbrev pub shutdown_device : Result Mihomo.Error (Unit {0}) → Option Text → Helper → Helper
  shutdown_device (err e) device h = h
  shutdown_device (ok _) device h = on_ok (clean_if_some os device) (set_device none) h

  -- `disable` comes after the stop, and neither looks at what the other has changed.
  unfoldable pub shutdown_cleanup : Helper → Helper × Result ShutdownError (Unit {0})
  shutdown_cleanup h =
      let device = owned_device h.broker in
      let stopped = Mihomo.stop os.std os.host h.tunnel in
      let disabled = Firewall.disable_blocking os.wfp h.firewall in
      let h1 =
        on_ok stopped.1 Broker.ended (record h { firewall = disabled.0; tunnel = stopped.0 }) in
      let h2 = on_ok disabled.1 (set_firewall false) h1 in
      (
        release (shutdown_device stopped.1 device h2),
        first_error stopped.1 disabled.1 (clean_if_some os device),
      )

-- The helper and the exits that a monitor has seen and not yet handed to the broker.
pub record System : Type 0 where
  pub helper : Helper
  pub open helper use *
  pub exits : List Tunnel

-- `request`: one RPC. `poll`: a round of the exit monitor of a tunnel. `report`: a monitor that
-- saw an exit, the one of the newest that is pending, calls the broker. `watch`: a round of the watchdog. `shutdown`: the service stops.
pub data Event : Type 0 where
  request : Os → Installation → Client → Request → Event
  poll : Host → Tunnel → Event
  report : Os → Event
  watch : ℕ → Event
  shutdown : Os → Event

unfoldable pub after_poll : System → Tunnel → Option Tunnel × MonitorRound → System
after_poll s watched (tunnel, gone) = record s { helper = record (s.helper) { tunnel = tunnel } }
after_poll s watched (tunnel, still_running) = record s {
  helper = record (s.helper) { tunnel = tunnel };
}
after_poll s watched (tunnel, exit_observed) = record {
  helper = record (s.helper) { tunnel = tunnel };
  exits = watched ∷ s.exits;
}

unfoldable pub reported : Os → Helper → List Tunnel → System
reported os h [] = record { helper = h; exits = [] }
reported os h (t ∷ rest) = record {
  helper = on_tunnel_process_exit os t.session_id t.generation t.pid t.instance_id h;
  exits = rest;
}

unfoldable pub step : Event → System → System
step (request os installation client req) s = record s {
  helper = (handle os installation client req s.helper).0;
}
step (poll host watched) s = after_poll s watched (Mihomo.monitor host watched s.tunnel)
step (report os) s = reported os s.helper s.exits
step (watch now) s = record s {
  helper = record (s.helper) { firewall = Firewall.watchdog now s.firewall };
}
step (shutdown os) s = record s { helper = (shutdown_cleanup os s.helper).0 }

unfoldable pub run : List Event → System → System
run [] s = s
run (e ∷ es) s = run es (step e s)
