-- ===== src/System/Invariant.antt =====
-- The ownership invariant over every history of the helper (src-tauri/src/bin/kwik_helper): requests
-- of any clients, monitors that report late, the watchdog and a shutdown, in any order.
use mathlib.Core.Path.{subst}
use kwik_proxy_secure.Broker.{Installation, ActiveOwner}
use kwik_proxy_secure.Dispatch.{
  Os, Client, Request, Helper, handle, ping, version, wfp_query_orphan, read_diagnostics,
  tunnel_status, kill_switch_enable, kill_switch_disable, kill_switch_force_cleanup,
  kill_switch_heartbeat, orphan_cleanup, start_tunnel, mihomo_stop,
}
use kwik_proxy_secure.Firewall.{Firewall, watchdog}
use kwik_proxy_secure.Mihomo.{
  Tunnel, Host, MonitorRound, gone, exit_observed, still_running, monitor,
}
use kwik_proxy_secure.Prelude.{
  ℕ, List, [], ◌∷◌, Option, none, some, ◌≡◌, ◌≢◌, ◌⊎◌, refl, sym, arith, All, inl, inr,
}
use kwik_proxy_secure.System.{
  System, Event, request, poll, report, watch, shutdown, step, run, after_poll, reported,
}
use kwik_proxy_secure.System.Ownership.{IsOwned, Runs, Filters}
use kwik_proxy_secure.System.Handlers.{
  no_engine, enable-IsOwned, disable-IsOwned, heartbeat-IsOwned, orphan-IsOwned,
}
use kwik_proxy_secure.System.Tunnels.{start-IsOwned, stop-IsOwned}
use kwik_proxy_secure.System.Instances.{handle-Follows, Follows}
use kwik_proxy_secure.System.Exits.{exit-IsOwned, exit-tunnel, shutdown-IsOwned, shutdown-tunnel}
use kwik_proxy_secure.Wfp.{WfpEngine}

-- No exit that waits to be reported is that of the tunnel that runs.
abbrev pub Distinct : Option Tunnel → List Tunnel → Type 0
Distinct none exits = Unit
Distinct (some t) exits = All (λ (x : Tunnel). x.instance_id ≢ t.instance_id) exits

pub record IsSafe (s : System) : Type 0 where
  pub owned : IsOwned s.helper
  pub distinct : Distinct s.tunnel s.exits

-- A request draws an instance id that no exit waiting to be reported bears (a UUID).
abbrev pub IsFresh : Event → System → Type 0
IsFresh (request os installation client req) s =
    All (λ (x : Tunnel). x.instance_id ≢ os.host.instance_id) s.exits
IsFresh _ s = Unit

module _ (os : Os) (installation : Installation) (client : Client) where
  pub handle-IsOwned :
      (req : Request) (h : Helper) → IsOwned h → IsOwned (handle os installation client req h).0
  unfolding handle
  handle-IsOwned ping h i = i
  handle-IsOwned version h i = i
  handle-IsOwned wfp_query_orphan h i = i
  handle-IsOwned read_diagnostics h i = i
  handle-IsOwned tunnel_status h i = i
  handle-IsOwned (kill_switch_enable k) h i = enable-IsOwned os installation client k h i
  handle-IsOwned kill_switch_disable h i = disable-IsOwned os installation client h i
  handle-IsOwned kill_switch_force_cleanup h i = disable-IsOwned os installation client h i
  handle-IsOwned kill_switch_heartbeat h i = heartbeat-IsOwned os installation client h i
  handle-IsOwned orphan_cleanup h i = orphan-IsOwned os installation client h i
  handle-IsOwned (start_tunnel text lan) h i = start-IsOwned os installation client text lan h i
  handle-IsOwned mihomo_stop h i = stop-IsOwned os installation client h i

  followed-Distinct :
      (t t' : Option Tunnel) (exits : List Tunnel)
      → Follows os installation client t t'
      → All (λ (x : Tunnel). x.instance_id ≢ os.host.instance_id) exits
      → Distinct t exits
      → Distinct t' exits
  followed-Distinct t t' exits (inl same) fresh d = subst (λ x. Distinct x exits) (sym same) d
  followed-Distinct t t' exits (inr (inl away)) fresh d =
      subst (λ x. Distinct x exits) (sym away) tt
  followed-Distinct t t' exits (inr (inr (u, made, new))) fresh d =
      subst (λ x. Distinct x exits) (sym made)
        (subst (λ i. All (λ (x : Tunnel). x.instance_id ≢ i) exits) (sym new) fresh)

-- A round of the monitor leaves the tunnel, or takes it away.
monitor_cases :
    (host : Host) (watched : Tunnel) (t : Option Tunnel)
    → ((monitor host watched t).0 ≡ none)
      ⊎ (((monitor host watched t).0 ≡ t) × ((monitor host watched t).1 ≢ exit_observed))
unfolding monitor
monitor_cases host watched none = inl refl
monitor_cases host watched (some t) = ground arith

unmoved :
    (s : System) (t : Option Tunnel)
    → t ≡ s.tunnel
    → IsSafe s
    → IsSafe (record s { helper = record (s.helper) { tunnel = t } })
unmoved s t same i = record {
  owned = record {
    busy = i.owned.busy;
    runs = subst (Runs s.broker.owner) (sym same) i.owned.runs;
    filters = i.owned.filters;
  };
  distinct = subst (λ x. Distinct x s.exits) (sym same) i.distinct;
}

without :
    (s : System) (t : Option Tunnel) (exits : List Tunnel)
    → t ≡ none
    → IsSafe s
    → IsSafe (record { helper = record (s.helper) { tunnel = t }; exits = exits })
without s t exits away i = record {
  owned = record {
    busy = i.owned.busy;
    runs = subst (Runs s.broker.owner) (sym away) tt;
    filters = i.owned.filters;
  };
  distinct = subst (λ x. Distinct x exits) (sym away) tt;
}

polled-IsSafe :
    (s : System) (watched : Tunnel) (r : Option Tunnel × MonitorRound)
    → (r.0 ≡ none) ⊎ ((r.0 ≡ s.tunnel) × (r.1 ≢ exit_observed))
    → IsSafe s
    → IsSafe (after_poll s watched r)
unfolding after_poll
polled-IsSafe s watched (t, gone) (inl away) i = without s t s.exits away i
polled-IsSafe s watched (t, gone) (inr (same, _)) i = unmoved s t same i
polled-IsSafe s watched (t, still_running) (inl away) i = without s t s.exits away i
polled-IsSafe s watched (t, still_running) (inr (same, _)) i = unmoved s t same i
polled-IsSafe s watched (t, exit_observed) (inl away) i = without s t (watched ∷ s.exits) away i
polled-IsSafe s watched (t, exit_observed) (inr (_, other)) i = absurd (other refl)

-- The watchdog leaves the engine, or takes it away.
watchdog_cases :
    (now : ℕ) (fw : Firewall)
    → ((watchdog now fw).engine ≡ none) ⊎ ((watchdog now fw).engine ≡ fw.engine)
unfolding watchdog
watchdog_cases now fw = ground arith

watched-Filters :
    (o : Option ActiveOwner) (e e' : Option WfpEngine)
    → (e' ≡ none) ⊎ (e' ≡ e)
    → Filters o e
    → Filters o e'
watched-Filters o e e' (inl away) f = no_engine o e' away
watched-Filters o e e' (inr same) f = subst (Filters o) (sym same) f

reported-IsSafe :
    (os : Os) (h : Helper) (exits : List Tunnel)
    → IsOwned h
    → Distinct h.tunnel exits
    → IsSafe (reported os h exits)
unfolding reported
reported-IsSafe os h [] i d = record { owned = i; distinct = d }
reported-IsSafe os h (t ∷ rest) i d = record {
  owned = exit-IsOwned os t h (λ u e. (distinct_head u e d)) i;
  distinct = subst (λ x. Distinct x rest) (sym (exit-tunnel os t h)) (distinct_tail h.tunnel d);
}
  where
    distinct_head :
        (u : Tunnel)
        → h.tunnel ≡ some u
        → Distinct h.tunnel (t ∷ rest)
        → t.instance_id ≢ u.instance_id
    distinct_head u e d = (subst (λ x. Distinct x (t ∷ rest)) e d).0

    distinct_tail : (x : Option Tunnel) → Distinct x (t ∷ rest) → Distinct x rest
    distinct_tail none d = tt
    distinct_tail (some u) d = d.1

-- Every event keeps the invariant: a recorded owner holds something, a running tunnel is the one
-- that its owner started, filters in force belong to an owner that knows of them, and no late
-- report is about the running tunnel. A request is to draw a fresh instance id.
pub step-IsSafe : (e : Event) (s : System) → IsFresh e s → IsSafe s → IsSafe (step e s)
unfolding step
step-IsSafe (request os installation client req) s fresh i = record {
  owned = handle-IsOwned os installation client req s.helper i.owned;
  distinct =
      followed-Distinct os installation client s.tunnel _ s.exits
        (handle-Follows os installation client req s.helper) fresh i.distinct;
}
step-IsSafe (poll host watched) s fresh i =
    polled-IsSafe s watched (monitor host watched s.tunnel) (monitor_cases host watched s.tunnel) i
step-IsSafe (report os) s fresh i = reported-IsSafe os s.helper s.exits i.owned i.distinct
step-IsSafe (watch now) s fresh i = record {
  owned = record {
    busy = i.owned.busy;
    runs = i.owned.runs;
    filters =
        watched-Filters s.broker.owner s.firewall.engine _ (watchdog_cases now s.firewall)
          i.owned.filters;
  };
  distinct = i.distinct;
}
step-IsSafe (shutdown os) s fresh i = record {
  owned = shutdown-IsOwned os s.helper i.owned;
  distinct = stopped (shutdown-tunnel os s.helper);
}
  where
    stopped : {t : Option Tunnel} → (t ≡ s.tunnel) ⊎ (t ≡ none) → Distinct t s.exits
    stopped (inl same) = subst (λ x. Distinct x s.exits) (sym same) i.distinct
    stopped (inr away) = subst (λ x. Distinct x s.exits) (sym away) tt

abbrev pub AllFresh : List Event → System → Type 0
AllFresh [] s = Unit
AllFresh (e ∷ es) s = IsFresh e s × AllFresh es (step e s)

-- From a state in which the invariant holds, it holds after every history of events in which each
-- request draws a fresh instance id: a recorded owner holds something, a running tunnel is the one
-- that its owner started, filters in force belong to an owner that knows of them, and no late report
-- is about the running tunnel.
pub run-IsSafe : (es : List Event) (s : System) → AllFresh es s → IsSafe s → IsSafe (run es s)
unfolding run
run-IsSafe [] s fresh i = i
run-IsSafe (e ∷ es) s fresh i = run-IsSafe es (step e s) fresh.1 (step-IsSafe e s fresh.0 i)
