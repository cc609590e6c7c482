-- ===== src/System/Expiry.antt =====
-- src-tauri/src/bin/kwik_helper: the watchdog of firewall.rs drops the filters on its own, and the
-- broker of dispatch.rs is not told.
use kwik_proxy_secure.Broker.{
  Installation, ActiveOwner, verify_if_active, owner_matches, runtime_status,
}
use kwik_proxy_secure.Dispatch.{
  Os, Client, handle, kill_switch_heartbeat, tunnel_status, done, status, beat,
  kill_switch_heartbeat_request, status_response, reject_if,
}
use kwik_proxy_secure.Firewall.{Firewall, watchdog, expire, heartbeat, watchdog_timeout_secs}
use kwik_proxy_secure.Mihomo.{Tunnel, is_running}
use kwik_proxy_secure.Prelude.{ℕ, ◌-◌, ◌<◌, true, not, Option, none, some, ◌≡◌, arith, is_some}
use kwik_proxy_secure.System.Ownership.{helper}

-- The watchdog's round drops the engine just when a heartbeat was seen and it is more than 60
-- seconds old; else the state is as it was.
pub watchdog_lem :
    (now : ℕ) (fw : Firewall) (last : ℕ)
    → fw.watchdog_started ≡ true
    → fw.last_heartbeat ≡ some last
    → watchdog_timeout_secs < now - last
    → ((watchdog now fw).engine ≡ none) × ((watchdog now fw).last_heartbeat ≡ none)
unfolding watchdog expire
watchdog_lem now fw last on seen late = (ground arith, ground arith)

-- After a round of the watchdog that found the heartbeat more than 60 seconds old no filter is in
-- force, and still a heartbeat of the owner is answered `Ok`, and its status says that the
-- firewall is active: the broker's flag was not cleared.
pub expired-still_reported :
    (os : Os) (installation : Installation) (client : Client) (o : ActiveOwner) (fw : Firewall)
    (t : Option Tunnel) (now last : ℕ)
    → fw.watchdog_started ≡ true
    → fw.last_heartbeat ≡ some last
    → watchdog_timeout_secs < now - last
    → owner_matches installation.generation client.session_id o ≡ true
    → o.firewall_active ≡ true
    → ((watchdog now fw).engine ≡ none)
      × ((handle os installation client kill_switch_heartbeat (helper (some o) (watchdog now fw) t))
          ≡ (helper (some o) (heartbeat os.now (watchdog now fw)) t, done))
      × ((heartbeat os.now (watchdog now fw)).engine ≡ none)
      × ((handle os installation client tunnel_status (helper (some o) (watchdog now fw) t)).1
          ≡ status
              (is_running os.std os.host t)
              (not (is_running os.std os.host t))
              true
              (is_some o.tun_device))
unfolding handle kill_switch_heartbeat_request reject_if beat verify_if_active status_response
    runtime_status heartbeat
expired-still_reported os installation client o fw t now last on seen late mine active =
    (gone, ground arith, gone, ground arith)
  where
    gone : (watchdog now fw).engine ≡ none
    gone = (watchdog_lem now fw last on seen late).0
