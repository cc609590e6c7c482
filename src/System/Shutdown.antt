-- ===== src/System/Shutdown.antt =====
-- src-tauri/src/bin/kwik_helper/dispatch.rs: `shutdown_cleanup` that reports success has undone
-- everything, and so has `on_tunnel_process_exit` where its two cleanups succeed.
use kwik_proxy_secure.Wfp.{WfpEngine}
use kwik_proxy_secure.Broker.{ActiveOwner, release_if_idle, ended, is_exit_of, note_tunnel_exit}
use kwik_proxy_secure.Dispatch.{Os, Helper, release, owned_device, set_firewall, clean_if_some}
use kwik_proxy_secure.Firewall.{Firewall, disable_blocking}
use kwik_proxy_secure.Mihomo
use kwik_proxy_secure.Mihomo.{Tunnel}
use kwik_proxy_secure.Mihomo.Stopping.{stop-Ends}
use kwik_proxy_secure.Prelude.{
  ℕ, Text, true, false, Option, none, some, Result, ok, err, ◌≡◌, refl, sym, arith,
}
use kwik_proxy_secure.System.{
  shutdown_cleanup, shutdown_device, on_ok, first_error, on_tunnel_process_exit, exit_device,
  exit_firewall,
}
use kwik_proxy_secure.System.Ownership.{Filters, IsOwned, helper, at_owner}
use mathlib.Core.Path.{subst}
use kwik_proxy_secure.Wfp

-- Nothing is owned, filtered or running.
pub record IsClean (h : Helper) : Type 0 where
  pub no_owner : h.broker.owner ≡ none
  pub no_engine : h.firewall.engine ≡ none
  pub no_tunnel : h.tunnel ≡ none

module _ (os : Os) where
  shut_owner :
      (o : Option ActiveOwner) (fw : Firewall) (t : Option Tunnel) (d : Option Text)
      (s : Result Mihomo.Error (Unit {0})) (q : Result Wfp.Error (Unit {0}))
      → first_error s q (clean_if_some os d) ≡ ok tt
      → (release (
          shutdown_device os s d
            (on_ok q (set_firewall false) (on_ok s ended (helper o fw t))))).broker.owner
        ≡ none
  unfolding release_if_idle
  shut_owner o fw t d (err x) q e = absurd (ground arith)
  shut_owner o fw t d (ok _) (err x) e = absurd (ground arith)
  shut_owner none fw t none (ok _) (ok _) e = refl
  shut_owner (some o) fw t none (ok _) (ok _) e = refl
  shut_owner none fw t (some d) (ok _) (ok _) e = ground arith
  shut_owner (some o) fw t (some d) (ok _) (ok _) e = ground arith

  -- A shutdown that reports success has stopped the tunnel, dropped the filters and released the
  -- owner, in whatever state it finds the helper.
  pub shutdown-IsClean :
      (h : Helper) → (shutdown_cleanup os h).1 ≡ ok tt → IsClean (shutdown_cleanup os h).0
  unfolding shutdown_cleanup disable_blocking
  shutdown-IsClean h e = record {
    no_owner =
        shut_owner h.broker.owner (disable_blocking os.wfp h.firewall).0
          (Mihomo.stop os.std os.host h.tunnel).0 (owned_device h.broker)
          (Mihomo.stop os.std os.host h.tunnel).1 (disable_blocking os.wfp h.firewall).1 e;
    no_engine = ground arith;
    no_tunnel = ground (arith, stop-Ends os.std os.host h.tunnel);
  }

  reconciled :
      (o : ActiveOwner) (fw : Firewall) (d : Option Text)
      → clean_if_some os d ≡ ok tt
      → (disable_blocking os.wfp fw).1 ≡ ok tt
      → (o.firewall_active ≡ false → fw.engine ≡ none)
      → o.tun_device ≡ d
      → IsClean (release (exit_firewall os (exit_device os (helper (some (ended o)) fw none))))
  unfolding release_if_idle exit_firewall exit_device disable_blocking
  reconciled o fw none cleaned off guarded device = record {
    no_owner = ground arith;
    no_engine = ground arith;
    no_tunnel = ground arith;
  }
  reconciled o fw (some d) cleaned off guarded device = record {
    no_owner = ground arith;
    no_engine = ground arith;
    no_tunnel = ground arith;
  }

  noted-IsClean :
      (session_id pid : ℕ) (generation instance_id : Text) (o : ActiveOwner) (fw : Firewall)
      → is_exit_of generation session_id pid instance_id o ≡ true
      → (o.firewall_active ≡ false → fw.engine ≡ none)
      → clean_if_some os o.tun_device ≡ ok tt
      → (disable_blocking os.wfp fw).1 ≡ ok tt
      → IsClean (
          on_tunnel_process_exit os session_id generation pid instance_id (helper (some o) fw none))
  unfolding on_tunnel_process_exit note_tunnel_exit
  noted-IsClean session_id pid generation instance_id o fw noted guarded cleaned off =
      simp noted (reconciled o fw o.tun_device cleaned off guarded refl)

unguarded :
    (o : ActiveOwner) (e : Option WfpEngine)
    → Filters (some o) e
    → o.firewall_active ≡ false
    → e ≡ none
unguarded o none f off = refl
unguarded o (some e) f off = absurd (ground arith)

-- In a helper that meets the ownership invariant and runs no tunnel: when the monitor reports the exit of the tunnel that the owner started, and its adapter and the
-- filters can be removed, the helper is left clean.
pub exit-IsClean :
    (os : Os) (session_id pid : ℕ) (generation instance_id : Text) (h : Helper) (o : ActiveOwner)
    → IsOwned h
    → h.broker.owner ≡ some o
    → h.tunnel ≡ none
    → is_exit_of generation session_id pid instance_id o ≡ true
    → clean_if_some os o.tun_device ≡ ok tt
    → (disable_blocking os.wfp h.firewall).1 ≡ ok tt
    → IsClean (on_tunnel_process_exit os session_id generation pid instance_id h)
exit-IsClean os session_id pid generation instance_id h o i own away noted cleaned off =
    at_owner (λ g. IsClean (on_tunnel_process_exit os session_id generation pid instance_id g)) h o
      own
      (subst
        (λ t. IsClean (
          on_tunnel_process_exit os session_id generation pid instance_id
            (helper (some o) h.firewall t)))
        (sym away)
        (noted-IsClean os session_id pid generation instance_id o h.firewall noted
          (unguarded o h.firewall.engine (subst (λ x. Filters x h.firewall.engine) own i.filters))
          cleaned off))
