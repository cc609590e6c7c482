-- ===== src/System/Exits.antt =====
-- `on_tunnel_process_exit` and `shutdown_cleanup` of src-tauri/src/bin/kwik_helper/dispatch.rs keep
-- the ownership invariant.
use mathlib.Core.Path.{subst}
use kwik_proxy_secure.Broker.{ActiveOwner, ended, note_tunnel_exit, is_exit_of}
use kwik_proxy_secure.Dispatch.{
  Os, Helper, release, owner_update, owned_device, set_firewall, set_device, clean_device,
  clean_if_some,
}
use kwik_proxy_secure.Firewall
use kwik_proxy_secure.Firewall.{Firewall}
use kwik_proxy_secure.Firewall.KillSwitch.{disable_engine}
use kwik_proxy_secure.Mihomo
use kwik_proxy_secure.Mihomo.{Tunnel}
use kwik_proxy_secure.Mihomo.Stopping.{Ends, stop-Ends}
use kwik_proxy_secure.Prelude.{
  ℕ, Text, text_eq_iff, Bool, true, false, Option, none, some, Result, ok, err, ◌≡◌, ◌≢◌, refl, sym,
  ap, ◌∙◌, ◌⊎◌, arith, Bool-cases, inl, inr, if◌then◌else◌,
}
use kwik_proxy_secure.System.{
  clean_exit_device, after_exit_clean, exit_device, keep_firewall, exit_firewall,
  on_tunnel_process_exit, on_ok, shutdown_device, shutdown_cleanup,
}
use kwik_proxy_secure.System.Ownership.{helper, Runs, Filters, IsCovered, IsOwned, release-IsOwned}
use kwik_proxy_secure.System.Handlers.{no_engine, flagged-Runs}
use kwik_proxy_secure.Tun
use kwik_proxy_secure.Wfp
use kwik_proxy_secure.Wfp.{WfpEngine}

-- With no tunnel, only the firewall's flag matters, and what keeps it keeps the cover.
untouched :
    (o : ActiveOwner) (f : ActiveOwner → ActiveOwner) (e : Option WfpEngine)
    → (f o).firewall_active ≡ o.firewall_active
    → Filters (some o) e
    → Filters (some (f o)) e
untouched o f none same h = tt
untouched o f (some e) same h = ground arith

idle-IsCovered :
    (o : Option ActiveOwner) (fw : Firewall) → Filters o fw.engine → IsCovered (helper o fw none)
idle-IsCovered o fw f = record { runs = tt; filters = f }

noted_instance :
    (generation : Text) (session_id pid : ℕ) (instance_id : Text) (o : ActiveOwner) (u : Text)
    → is_exit_of generation session_id pid instance_id o ≡ true
    → o.tunnel_instance_id ≡ some u
    → u ≡ instance_id
noted_instance generation session_id pid instance_id o u noted e =
    ground (arith, text_eq_iff u instance_id)

module _ (os : Os) where
  clean_exit-Filters :
      (d : Option Text) (o : ActiveOwner) (fw : Firewall)
      → Filters (some o) fw.engine
      → (o' : ActiveOwner) × (clean_exit_device os (helper (some o) fw none) d
          ≡ helper (some o') fw none)
        × Filters (some o') fw.engine
  clean_exit-Filters none o fw f = (o, refl, f)
  clean_exit-Filters (some d) o fw f = cleaned (clean_device os d)
    where
      cleaned :
          (r : Result Tun.Error (Unit {0}))
          → (o' : ActiveOwner) × (after_exit_clean os (helper (some o) fw none) r
              ≡ helper (some o') fw none)
            × Filters (some o') fw.engine
      cleaned (ok _) = (set_device none o, refl, untouched o (set_device none) fw.engine refl f)
      cleaned (err e) = (o, refl, f)

  keep_firewall-IsCovered :
      (o : ActiveOwner) (old fw : Firewall) (r : Result Wfp.Error (Unit {0}))
      → fw.engine ≡ none
      → IsCovered (keep_firewall os (helper (some o) old none) (fw, r))
  keep_firewall-IsCovered o old fw (ok _) e =
      idle-IsCovered (some (set_firewall false o)) fw
        (no_engine (some (set_firewall false o)) fw.engine e)
  keep_firewall-IsCovered o old fw (err x) e =
      idle-IsCovered (some o) fw (no_engine (some o) fw.engine e)

  exit_firewall-IsCovered :
      (o : ActiveOwner) (fw : Firewall)
      → Filters (some o) fw.engine
      → IsCovered (exit_firewall os (helper (some o) fw none))
  unfolding exit_firewall
  exit_firewall-IsCovered o fw f = chosen o.firewall_active
    where
      chosen :
          (b : Bool)
          → IsCovered (
              if b
              then keep_firewall os (helper (some o) fw none) (Firewall.disable_blocking os.wfp fw)
              else helper (some o) fw none)
      chosen true = keep_firewall-IsCovered o fw _ _ (disable_engine os.wfp fw)
      chosen false = idle-IsCovered (some o) fw f

  -- From a noted exit on, with the tunnel gone.
  ended-IsOwned :
      (o : ActiveOwner) (fw : Firewall)
      → Filters (some o) fw.engine
      → IsOwned (release (exit_firewall os (exit_device os (helper (some (ended o)) fw none))))
  unfolding exit_device
  ended-IsOwned o fw f =
      let (o', same, f') =
        clean_exit-Filters o.tun_device (ended o) fw (untouched o ended fw.engine refl f) in
      subst (λ h. IsOwned (release (exit_firewall os h))) (sym same)
        (release-IsOwned _ (exit_firewall-IsCovered o' fw f'))

  exit_at_owner :
      (session_id : ℕ) (generation : Text) (pid : ℕ) (instance_id : Text) (o : Option ActiveOwner)
      (fw : Firewall) (t : Option Tunnel)
      → ((u : Tunnel) → t ≡ some u → instance_id ≢ u.instance_id)
      → IsOwned (helper o fw t)
      → IsOwned (on_tunnel_process_exit os session_id generation pid instance_id (helper o fw t))
  unfolding on_tunnel_process_exit note_tunnel_exit
  exit_at_owner session_id generation pid instance_id none fw t other i = i
  exit_at_owner session_id generation pid instance_id (some o) fw none other i =
      elim (Bool-cases (is_exit_of generation session_id pid instance_id o)) [
        | inl noted ↦ simp noted (ended-IsOwned o fw i.filters)
        | inr missed ↦ simp missed i
      ]
  exit_at_owner session_id generation pid instance_id (some o) fw (some t) other i =
      elim (Bool-cases (is_exit_of generation session_id pid instance_id o)) [
        | inl noted ↦ absurd (
            other t refl (
              sym (
                noted_instance generation session_id pid instance_id o t.instance_id noted
                  i.runs.instance_id)))
        | inr missed ↦ simp missed i
      ]

  -- A report of an exit keeps the invariant if the tunnel that runs now is another instance.
  pub exit-IsOwned :
      (watched : Tunnel) (h : Helper)
      → ((u : Tunnel) → h.tunnel ≡ some u → watched.instance_id ≢ u.instance_id)
      → IsOwned h
      → IsOwned (
          on_tunnel_process_exit os watched.session_id watched.generation watched.pid
            watched.instance_id h)
  exit-IsOwned watched h other i =
      exit_at_owner watched.session_id watched.generation watched.pid watched.instance_id
        h.broker.owner h.firewall h.tunnel other i

  pub exit-tunnel :
      (watched : Tunnel) (h : Helper)
      → (on_tunnel_process_exit os watched.session_id watched.generation watched.pid
          watched.instance_id h).tunnel
        ≡ h.tunnel
  unfolding on_tunnel_process_exit exit_firewall exit_device
  exit-tunnel watched h = ground arith

-- With no tunnel and no engine every owner is covered.
quiet-IsCovered : (h : Helper) → h.tunnel ≡ none → h.firewall.engine ≡ none → IsCovered h
quiet-IsCovered h gone clear = record {
  runs = subst (Runs h.broker.owner) (sym gone) tt;
  filters = no_engine h.broker.owner h.firewall.engine clear;
}

on_ok-tunnel :
    {E : Type 0} (r : Result E (Unit {0})) (f : ActiveOwner → ActiveOwner) (h : Helper)
    → ((on_ok r f h).tunnel ≡ h.tunnel) × ((on_ok r f h).firewall ≡ h.firewall)
on_ok-tunnel (ok _) f h = (refl, refl)
on_ok-tunnel (err e) f h = (refl, refl)

flagged-IsCovered :
    {E : Type 0} (q : Result E (Unit {0})) (o : Option ActiveOwner) (fw : Firewall)
    (t : Option Tunnel)
    → fw.engine ≡ none
    → Runs o t
    → IsCovered (on_ok q (set_firewall false) (helper o fw t))
flagged-IsCovered (ok _) none fw t clear runs = record {
  runs = runs;
  filters = no_engine none fw.engine clear;
}
flagged-IsCovered (ok _) (some o) fw t clear runs = record {
  runs = flagged-Runs o false t runs;
  filters = no_engine (some (set_firewall false o)) fw.engine clear;
}
flagged-IsCovered (err e) o fw t clear runs = record {
  runs = runs;
  filters = no_engine o fw.engine clear;
}

module _ (os : Os) where
  -- Shutdown, by the way in which Mihomo stops.
  shutdown-IsCovered :
      (o : Option ActiveOwner) (fw : Firewall) (t : Option Tunnel)
      (r : Option Tunnel × Result Mihomo.Error (Unit {0})) (q : Result Wfp.Error (Unit {0}))
      (d : Option Text)
      → Ends t r
      → fw.engine ≡ none
      → Runs o t
      → IsCovered (
          shutdown_device os r.1 d
            (on_ok q (set_firewall false) (on_ok r.1 ended (helper o fw r.0))))
  shutdown-IsCovered o fw t r q d (inr (e, kept)) clear runs =
      subst
        (λ x. IsCovered (
          shutdown_device os x.1 d
            (on_ok q (set_firewall false) (on_ok x.1 ended (helper o fw x.0)))))
        (sym kept) (flagged-IsCovered q o fw t clear runs)
  shutdown-IsCovered o fw t r q d (inl gone) clear runs =
      subst
        (λ x. IsCovered (
          shutdown_device os x.1 d
            (on_ok q (set_firewall false) (on_ok x.1 ended (helper o fw x.0)))))
        (sym gone)
        (let mid = on_ok-tunnel q (set_firewall false) (owner_update ended (helper o fw none)) in
          let last =
            on_ok-tunnel (clean_if_some os d) (set_device none)
              (on_ok q (set_firewall false) (owner_update ended (helper o fw none))) in
          quiet-IsCovered _ (last.0 ∙ mid.0)
            (ap (λ (f : Firewall). f.engine) (last.1 ∙ mid.1) ∙ clear))

  pub shutdown-IsOwned : (h : Helper) → IsOwned h → IsOwned (shutdown_cleanup os h).0
  unfolding shutdown_cleanup
  shutdown-IsOwned h i = release-IsOwned _ (
      shutdown-IsCovered h.broker.owner (Firewall.disable_blocking os.wfp h.firewall).0 h.tunnel
        (Mihomo.stop os.std os.host h.tunnel) (Firewall.disable_blocking os.wfp h.firewall).1
        (owned_device h.broker) (stop-Ends os.std os.host h.tunnel)
        (disable_engine os.wfp h.firewall) i.runs)

  pub shutdown-tunnel :
      (h : Helper)
      → ((shutdown_cleanup os h).0.tunnel ≡ h.tunnel) ⊎ ((shutdown_cleanup os h).0.tunnel ≡ none)
  unfolding shutdown_cleanup
  shutdown-tunnel h = ground (arith, stop-Ends os.std os.host h.tunnel)
