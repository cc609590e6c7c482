-- ===== src/System/Failing.antt =====
-- src-tauri/src/bin/kwik_helper: a repeated KillSwitchEnable drops the filters of the first in firewall.rs
-- before it makes its own, and the broker of dispatch.rs is not told where that fails.
use kwik_proxy_secure.Broker.{
  Installation, ActiveOwner, BrokerState, Foreign, owner_matches, bind_or_verify, release_if_idle,
  bind_owner, verify_if_active, runtime_status,
}
use kwik_proxy_secure.Dispatch.{
  Os, Client, Response, Helper, KillSwitch, Failure, handle, error, rejected, firewall_failed,
  enable_args, after_enable, after_gate, enable_gated, enable_on_device, enable_bound,
  enable_after_bind, kill_switch_enable_request, kill_switch_enable, reject_if, owned_device,
  tunnel_status, status, status_response,
}
use kwik_proxy_secure.Firewall.{Firewall, enable_blocking}
use kwik_proxy_secure.Firewall.KillSwitch.{enable-err}
use kwik_proxy_secure.Mihomo.{Tunnel, is_running}
use kwik_proxy_secure.Prelude.{
  ◌≢◌, ℕ, Text, Bool, true, false, not, Option, none, some, Result, ok, err, ◌≡◌, refl, arith,
  is_some, if◌then◌else◌,
}
use kwik_proxy_secure.System.Ownership.{helper}
use kwik_proxy_secure.Tun
use kwik_proxy_secure.Tun.{OwnedTunInterface}
use kwik_proxy_secure.Wfp

-- The owner that a request binds: the one there was, seen from the process that calls.
abbrev pub seen : ℕ → ActiveOwner → ActiveOwner
seen pid o = record o { last_pid = pid }

module _ (os : Os) (installation : Installation) (client : Client) (k : KillSwitch) where
  -- An answer that the filters failed leaves none, and the owner as it is.
  abbrev Unfiltered : ActiveOwner → Option Tunnel → Wfp.Error → Helper × Response → Type 0
  Unfiltered o t e r =
      r.1 ≡ error (rejected (firewall_failed e))
      → (fw : Firewall) × (r.0 ≡ helper (some o) fw t) × (fw.engine ≡ none)

  gate-Unfiltered :
      (o : ActiveOwner) (fw : Firewall) (t : Option Tunnel) (e : Wfp.Error)
      (r : Result Tun.Error (Option OwnedTunInterface))
      → o.firewall_active ≡ true
      → Unfiltered o t e (after_gate os installation client k (helper (some o) fw t) r)
  unfolding after_gate release_if_idle
  gate-Unfiltered o fw t e (err x) on h = absurd (ground arith)
  gate-Unfiltered o fw t e (ok tun) on h =
      shown (enable_blocking os.std os.wfp (enable_args os installation client k tun) os.now fw)
        refl h
    where
      shown :
          (q : Firewall × Result Wfp.Error (Unit {0}))
          → enable_blocking os.std os.wfp (enable_args os installation client k tun) os.now fw ≡ q
          → Unfiltered o t e (after_enable os installation client (helper (some o) fw t) q)
      shown (fw', ok _) same h = absurd (ground arith)
      shown (fw', err x) same h = (
        fw',
        ground (arith, on),
        (enable-err os.std os.wfp (enable_args os installation client k tun) os.now fw fw' x
            same).0,
      )

  gated-Unfiltered :
      (o : ActiveOwner) (fw : Firewall) (t : Option Tunnel) (e : Wfp.Error) (device : Option Text)
      → o.firewall_active ≡ true
      → Unfiltered o t e (enable_gated os installation client k device (helper (some o) fw t))
  unfolding enable_gated
  gated-Unfiltered o fw t e device on =
      gate-Unfiltered o fw t e
        (Tun.current_tun_interface_index os.std os.adapters k.expect_tun device) on

  bound-Unfiltered :
      (o : ActiveOwner) (fw : Firewall) (t : Option Tunnel) (e : Wfp.Error)
      → o.firewall_active ≡ true
      → Unfiltered o t e (enable_bound os installation client k (helper (some o) fw t))
  unfolding enable_bound enable_on_device
  bound-Unfiltered o fw t e on = chosen k.expect_tun (owned_device (record { owner = some o }))
    where
      on_device :
          (d : Option Text)
          → Unfiltered o t e (enable_on_device os installation client k (helper (some o) fw t) d)
      on_device none h = absurd (ground arith)
      on_device (some d) h = gated-Unfiltered o fw t e (some d) on h

      chosen :
          (b : Bool) (d : Option Text)
          → Unfiltered o t e (
              if b
              then enable_on_device os installation client k (helper (some o) fw t) d
              else enable_gated os installation client k none (helper (some o) fw t))
      chosen true d h = on_device d h
      chosen false d h = gated-Unfiltered o fw t e none on h

  rejected-Unfiltered :
      (o : ActiveOwner) (t : Option Tunnel) (e : Wfp.Error) (b : Bool) (f : Failure) (h : Helper)
      (r : Helper × Response)
      → ((x : Failure) → x ≡ f → x ≢ rejected (firewall_failed e))
      → Unfiltered o t e r
      → Unfiltered o t e (reject_if b f h r)
  unfolding reject_if
  rejected-Unfiltered o t e true f h r other good same = absurd (other f refl (ground arith))
  rejected-Unfiltered o t e false f h r other good same = good same

  rebinds :
      (o : ActiveOwner) (fw : Firewall) (t : Option Tunnel)
      → owner_matches installation.generation client.session_id o ≡ true
      → bind_or_verify installation client.session_id client.pid (helper (some o) fw t).broker
        ≡ ok (record { owner = some (seen client.pid o) })
  unfolding bind_or_verify bind_owner
  rebinds o fw t mine = ground (arith, mine)

  bind-Unfiltered :
      (o : ActiveOwner) (fw : Firewall) (t : Option Tunnel) (e : Wfp.Error)
      (r : Result Foreign BrokerState)
      → r ≡ ok (record { owner = some (seen client.pid o) })
      → o.firewall_active ≡ true
      → Unfiltered
          (seen client.pid o)
          t
          e
          (enable_after_bind os installation client k (helper (some o) fw t) r)
  unfolding enable_after_bind
  bind-Unfiltered o fw t e r is on = rw is (bound-Unfiltered (seen client.pid o) fw t e on)

  reports :
      (o : ActiveOwner) (fw' : Firewall) (t : Option Tunnel)
      → owner_matches installation.generation client.session_id o ≡ true
      → o.firewall_active ≡ true
      → (handle os installation client tunnel_status (helper (some o) fw' t)).1
        ≡ status
            (is_running os.std os.host t)
            (not (is_running os.std os.host t))
            true
            (is_some o.tun_device)
  unfolding handle verify_if_active status_response runtime_status
  reports o fw' t mine on = ground arith

  -- A KillSwitchEnable of the owner whose kill switch is on, answered that the filters could not be
  -- made, leaves no filter in force, and still a TunnelStatus afterwards says that the firewall is
  -- active: the broker's flag was not cleared.
  pub failed_enable-still_reported :
      (o : ActiveOwner) (fw : Firewall) (t : Option Tunnel) (e : Wfp.Error)
      → owner_matches installation.generation client.session_id o ≡ true
      → o.firewall_active ≡ true
      → (handle os installation client (kill_switch_enable k) (helper (some o) fw t)).1
        ≡ error (rejected (firewall_failed e))
      → (fw' : Firewall) × ((handle os installation client
            (kill_switch_enable k)
            (helper (some o) fw t)).0
          ≡ helper (some (seen client.pid o)) fw' t)
        × (fw'.engine ≡ none)
        × ((handle os installation client tunnel_status (helper (some (seen client.pid o)) fw' t)).1
            ≡ status
                (is_running os.std os.host t)
                (not (is_running os.std os.host t))
                true
                (is_some o.tun_device))
  unfolding handle kill_switch_enable_request owner_matches
  failed_enable-still_reported o fw t e mine on h =
      let (fw', left, gone) =
        rejected-Unfiltered (seen client.pid o) t e _ _ (helper (some o) fw t) _ (λ x. cc)
          (rejected-Unfiltered (seen client.pid o) t e _ _ (helper (some o) fw t) _ (λ x. cc)
            (bind-Unfiltered o fw t e _ (rebinds o fw t mine) on))
          h in
      (fw', left, gone, reports (seen client.pid o) fw' t mine on)
