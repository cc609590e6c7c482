-- ===== src/System/Tunnels.antt =====
-- src-tauri/src/bin/kwik_helper/dispatch.rs with mihomo.rs: starting and stopping the tunnel keeps
-- the ownership invariant on every branch.
use mathlib.Core.Path.{subst}
use kwik_proxy_secure.Broker
use kwik_proxy_secure.Broker.{
  BrokerState, ActiveOwner, Installation, ended, bind_or_verify, any_active, owner_active,
}
use kwik_proxy_secure.Dispatch.{
  Os, Client, Helper, release, set_device, set_started, undo_start, after_start, start_on_device,
  start_bound, start_after_bind, start_tunnel_request, after_clean, after_stop, mihomo_stop_request,
  clean_device, clean_if_some,
}
use kwik_proxy_secure.Firewall.{Firewall}
use kwik_proxy_secure.Mihomo
use kwik_proxy_secure.Mihomo.{Tunnel, StartedTunnel, Host, after_launch}
use kwik_proxy_secure.Mihomo.Config
use kwik_proxy_secure.Mihomo.Stopping.{Ends, stop_owned-Ends}
use kwik_proxy_secure.Prelude.{
  Text, Bool, true, false, Option, none, some, Result, ok, err, ◌≡◌, refl, sym, arith, is_some, inl,
  inr,
}
use kwik_proxy_secure.System.Ownership.{
  helper, at_owner, Runs, Filters, IsCovered, IsOwned, IsOwned-IsCovered, release-IsOwned, Binds,
  bind-Binds,
}
use kwik_proxy_secure.System.Handlers.{rejected-IsOwned, no_engine}
use kwik_proxy_secure.Tun
use kwik_proxy_secure.Wfp.{WfpEngine}

-- An owner that holds nothing has no tunnel and no engine.
idle_tunnel :
    (o : ActiveOwner) (t : Option Tunnel) → owner_active o ≡ false → Runs (some o) t → t ≡ none
idle_tunnel o none idle r = refl
idle_tunnel o (some t) idle r = absurd (ground arith)

idle_engine :
    (o : ActiveOwner) (e : Option WfpEngine)
    → owner_active o ≡ false
    → Filters (some o) e
    → e ≡ none
idle_engine o none idle f = refl
idle_engine o (some e) idle f = absurd (ground arith)

module _ (os : Os) (installation : Installation) (client : Client) where
  abbrev Calls : ActiveOwner → Type 0
  Calls o = (o.session_id ≡ client.session_id) × (o.generation ≡ installation.generation)

  undo-IsOwned :
      (e : Mihomo.Error) (r : Result Tun.Error (Unit {0})) (o : ActiveOwner) (fw : Firewall)
      → fw.engine ≡ none
      → IsOwned (undo_start os installation client e r (helper (some o) fw none)).0
  undo-IsOwned e (ok _) o fw clear =
      release-IsOwned (release (helper (some (set_device none o)) fw none)) (
        IsOwned-IsCovered (release (helper (some (set_device none o)) fw none)) (
          release-IsOwned (helper (some (set_device none o)) fw none)
            (record { runs = tt; filters = no_engine (some (set_device none o)) fw.engine clear })))
  undo-IsOwned e (err c) o fw clear =
      release-IsOwned (helper (some o) fw none)
        (record { runs = tt; filters = no_engine (some o) fw.engine clear })

  Binds-IsCovered :
      (h : Helper) (b : BrokerState)
      (x : Binds h.broker.owner b.owner installation.generation client.session_id)
      → IsOwned h
      → IsCovered (helper (some x.owner) h.firewall h.tunnel)
  Binds-IsCovered h b x i = record {
    runs = subst (λ o. Runs o h.tunnel) x.is_owner (x.keeps_runs h.tunnel i.runs);
    filters =
        subst (λ o. Filters o h.firewall.engine) x.is_owner
          (x.keeps_filters h.firewall.engine i.filters);
  }

  launched-IsOwned :
      (device : Text) (o : ActiveOwner) (fw : Firewall) (r : Result Mihomo.Error StartedTunnel)
      → Calls o
      → fw.engine ≡ none
      → IsOwned
          (after_start os installation client device
            (helper (some (set_device (some device) o)) fw none)
            (after_launch client.session_id installation.generation none r)).0
  unfolding after_launch
  launched-IsOwned device o fw (ok s) calls clear = record {
    busy = refl;
    runs = record {
      marked = refl;
      session = calls.0;
      generation = calls.1;
      device = refl;
      pid = refl;
      instance_id = refl;
    };
    filters = no_engine (some (set_started s (set_device (some device) o))) fw.engine clear;
  }
  launched-IsOwned device o fw (err e) calls clear =
      undo-IsOwned e (clean_device os device) (set_device (some device) o) fw clear

  start_on_device-IsOwned :
      (text : Text) (lan : Bool) (o : ActiveOwner) (fw : Firewall) (r : Result Config.Error Text)
      → Calls o
      → fw.engine ≡ none
      → IsOwned (start_on_device os installation client text lan (helper (some o) fw none) r).0
  unfolding start_on_device Mihomo.start
  start_on_device-IsOwned text lan o fw (err e) calls clear =
      release-IsOwned (helper (some o) fw none)
        (record { runs = tt; filters = no_engine (some o) fw.engine clear })
  start_on_device-IsOwned text lan o fw (ok device) calls clear =
      launched-IsOwned device o fw _ calls clear

  start_bound-IsOwned :
      (text : Text) (lan : Bool) (o : ActiveOwner) (fw : Firewall) (t : Option Tunnel)
      → Calls o
      → IsCovered (helper (some o) fw t)
      → IsOwned (start_bound os installation client text lan (helper (some o) fw t)).0
  unfolding start_bound any_active
  start_bound-IsOwned text lan o fw t calls c =
      rejected-IsOwned os installation client (owner_active o) _ (helper (some o) fw t) _
        (λ active. record { busy = active; runs = c.runs; filters = c.filters })
        λ idle.
          subst
            (λ x.
              IsOwned
                (start_on_device os installation client text lan (helper (some o) fw x)
                  (Config.validated_tun_device os.parsers text lan)).0)
            (sym (idle_tunnel o t idle c.runs))
            (start_on_device-IsOwned text lan o fw _ calls (idle_engine o fw.engine idle c.filters))

  start_after_bind-IsOwned :
      (text : Text) (lan : Bool) (h : Helper) (r : Result Broker.Foreign BrokerState)
      → bind_or_verify installation client.session_id client.pid h.broker ≡ r
      → IsOwned h
      → IsOwned (start_after_bind os installation client text lan h r).0
  unfolding start_after_bind
  start_after_bind-IsOwned text lan h (err e) bound i = i
  start_after_bind-IsOwned text lan h (ok b) bound i =
      let x = bind-Binds installation client.session_id client.pid h.broker b bound in
      let mine = x.is_owner in
      at_owner (λ g. IsOwned (start_bound os installation client text lan g).0)
        (record h { broker = b }) x.owner mine
        (start_bound-IsOwned text lan x.owner h.firewall h.tunnel (x.session, x.same_generation)
          (Binds-IsCovered h b x i))

  pub start-IsOwned :
      (text : Text) (lan : Bool) (h : Helper)
      → IsOwned h
      → IsOwned (start_tunnel_request os installation client text lan h).0
  unfolding start_tunnel_request
  start-IsOwned text lan h i = start_after_bind-IsOwned text lan h _ refl i

  -- Stopping: the child is gone, or nothing changed.
  stopped-Filters :
      (o : ActiveOwner) (e : Option WfpEngine)
      → Filters (some o) e
      → Filters (some (set_device none (ended o))) e
  stopped-Filters o none f = tt
  stopped-Filters o (some e) f = f

  cleaned-IsOwned :
      (r : Result Tun.Error (Unit {0})) (o : ActiveOwner) (fw : Firewall)
      → is_some o.tun_device ≡ true
      → Filters (some o) fw.engine
      → IsOwned (after_clean os installation client (helper (some (ended o)) fw none) r).0
  cleaned-IsOwned (ok _) o fw has f =
      release-IsOwned (helper (some (set_device none (ended o))) fw none)
        (record { runs = tt; filters = stopped-Filters o fw.engine f })
  cleaned-IsOwned (err x) o fw has f = record {
    busy = ground arith;
    runs = tt;
    filters = ended_filters fw.engine f;
  }
    where
      ended_filters : (e : Option WfpEngine) → Filters (some o) e → Filters (some (ended o)) e
      ended_filters none f = tt
      ended_filters (some e) f = f

  after_clean-IsOwned :
      (d : Option Text) (o : ActiveOwner) (fw : Firewall)
      → o.tun_device ≡ d
      → Filters (some o) fw.engine
      → IsOwned
          (after_clean os installation client
            (helper (some (ended o)) fw none)
            (clean_if_some os d)).0
  after_clean-IsOwned none o fw same f =
      release-IsOwned (helper (some (set_device none (ended o))) fw none)
        (record { runs = tt; filters = stopped-Filters o fw.engine f })
  after_clean-IsOwned (some d) o fw same f =
      cleaned-IsOwned (clean_device os d) o fw (ground arith) f

  after_stop-IsOwned :
      (o : Option ActiveOwner) (fw : Firewall) (t : Option Tunnel)
      (r : Option Tunnel × Result Mihomo.Error (Unit {0}))
      → Ends t r
      → IsOwned (helper o fw t)
      → IsOwned (after_stop os installation client (helper o fw t) r).0
  after_stop-IsOwned o fw t r (inr (e, kept)) i =
      subst (λ x. IsOwned (after_stop os installation client (helper o fw t) x).0) (sym kept)
        (release-IsOwned (helper o fw t) (IsOwned-IsCovered (helper o fw t) i))
  after_stop-IsOwned none fw t r (inl gone) i =
      subst (λ x. IsOwned (after_stop os installation client (helper none fw t) x).0) (sym gone)
        (release-IsOwned (helper none fw none) (record { runs = tt; filters = i.filters }))
  after_stop-IsOwned (some o) fw t r (inl gone) i =
      subst (λ x. IsOwned (after_stop os installation client (helper (some o) fw t) x).0) (sym gone)
        (after_clean-IsOwned o.tun_device o fw refl i.filters)

  pub stop-IsOwned :
      (h : Helper) → IsOwned h → IsOwned (mihomo_stop_request os installation client h).0
  unfolding mihomo_stop_request
  stop-IsOwned h i =
      rejected-IsOwned os installation client _ _ h _ (λ _. i)
        λ mine.
          after_stop-IsOwned h.broker.owner h.firewall h.tunnel _
            (stop_owned-Ends os.std os.host client.session_id installation.generation h.tunnel) i
