-- ===== src/System/Handlers.antt =====
-- src-tauri/src/bin/kwik_helper/dispatch.rs: every branch of every request keeps the ownership
-- invariant.
use mathlib.Core.Path.{subst}
use kwik_proxy_secure.Broker
use kwik_proxy_secure.Broker.{BrokerState, ActiveOwner, Installation, ended, bind_or_verify}
use kwik_proxy_secure.Dispatch.{
  Failure, reject_if, beat, enable_on_device, enable_after_bind, Os, Client, Response, Helper,
  KillSwitch, finish, set_firewall, enable_args, after_enable, after_gate, enable_gated,
  enable_bound, kill_switch_enable_request, after_disable, kill_switch_disable_request,
  kill_switch_heartbeat_request, orphan_cleanup_request, Cause,
}
use kwik_proxy_secure.Firewall.{Firewall}
use kwik_proxy_secure.Firewall.KillSwitch.{heartbeat_engine, disable_engine, enable_err_engine}
use kwik_proxy_secure.Mihomo.{Tunnel}
use kwik_proxy_secure.Prelude.{
  sym, Text, Bool, true, false, Option, none, some, Result, ok, err, ◌≡◌, refl, arith, Bool-cases,
  inl, inr,
}
use kwik_proxy_secure.System.Ownership.{
  helper, at_owner, Busy, Runs, Filters, IsCovered, IsOwned, IsOwned-IsCovered, release-IsOwned,
  bind-Binds,
}
use kwik_proxy_secure.Tun
use kwik_proxy_secure.Tun.{OwnedTunInterface}
use kwik_proxy_secure.Wfp
use kwik_proxy_secure.Wfp.{WfpEngine}

-- An owner's flag for the firewall, over a tunnel that is as it was.
pub flagged-Runs :
    (o : ActiveOwner) (b : Bool) (t : Option Tunnel)
    → Runs (some o) t
    → Runs (some (set_firewall b o)) t
flagged-Runs o b none r = tt
flagged-Runs o b (some t) r = record {
  marked = r.marked;
  session = r.session;
  generation = r.generation;
  device = r.device;
  pid = r.pid;
  instance_id = r.instance_id;
}

flagged-IsCovered :
    (o : ActiveOwner) (b : Bool) (fw : Firewall) (t : Option Tunnel)
    → Runs (some o) t
    → Filters (some (set_firewall b o)) fw.engine
    → IsCovered (helper (some (set_firewall b o)) fw t)
flagged-IsCovered o b fw t r f = record { runs = flagged-Runs o b t r; filters = f }

flag_on : (o : ActiveOwner) (e : Option WfpEngine) → Filters (some (set_firewall true o)) e
flag_on o none = tt
flag_on o (some e) = refl

pub no_engine : (o : Option ActiveOwner) (e : Option WfpEngine) → e ≡ none → Filters o e
no_engine o none h = tt
no_engine o (some e) h = absurd (ground arith)

Busy-flag : (o : ActiveOwner) → Busy (some (set_firewall true o))
Busy-flag o = ground arith

module _ (os : Os) (installation : Installation) (client : Client) where
  enabled-IsOwned :
      (o : ActiveOwner) (t : Option Tunnel) (old fw : Firewall) (r : Result Wfp.Error (Unit {0}))
      → Runs (some o) t
      → ((e : Wfp.Error) → r ≡ err e → fw.engine ≡ none)
      → IsOwned (after_enable os installation client (helper (some o) old t) (fw, r)).0
  enabled-IsOwned o t old fw (ok _) runs failed = record {
    busy = Busy-flag o;
    runs = flagged-Runs o true t runs;
    filters = flag_on o fw.engine;
  }
  enabled-IsOwned o t old fw (err e) runs failed =
      release-IsOwned (helper (some o) fw t)
        (record { runs = runs; filters = no_engine (some o) fw.engine (failed e refl) })

  after_gate-IsOwned :
      (k : KillSwitch) (o : ActiveOwner) (fw : Firewall) (t : Option Tunnel)
      (r : Result Tun.Error (Option OwnedTunInterface))
      → IsCovered (helper (some o) fw t)
      → IsOwned (after_gate os installation client k (helper (some o) fw t) r).0
  unfolding after_gate
  after_gate-IsOwned k o fw t (err e) c = release-IsOwned (helper (some o) fw t) c
  after_gate-IsOwned k o fw t (ok i) c =
      enabled-IsOwned o t fw _ _ c.runs
        (enable_err_engine os.std os.wfp (enable_args os installation client k i) os.now fw)

  enable_gated-IsOwned :
      (k : KillSwitch) (d : Option Text) (o : ActiveOwner) (fw : Firewall) (t : Option Tunnel)
      → IsCovered (helper (some o) fw t)
      → IsOwned (enable_gated os installation client k d (helper (some o) fw t)).0
  unfolding enable_gated
  enable_gated-IsOwned k d o fw t c = after_gate-IsOwned k o fw t _ c

  enable_on_device-IsOwned :
      (k : KillSwitch) (d : Option Text) (o : ActiveOwner) (fw : Firewall) (t : Option Tunnel)
      → IsCovered (helper (some o) fw t)
      → IsOwned (enable_on_device os installation client k (helper (some o) fw t) d).0
  unfolding enable_on_device
  enable_on_device-IsOwned k none o fw t c = release-IsOwned (helper (some o) fw t) c
  enable_on_device-IsOwned k (some d) o fw t c = enable_gated-IsOwned k (some d) o fw t c

  pub rejected-IsOwned :
      (b : Bool) (f : Failure) (h : Helper) (next : Helper × Response)
      → (b ≡ true → IsOwned h)
      → (b ≡ false → IsOwned next.0)
      → IsOwned (reject_if b f h next).0
  unfolding reject_if
  rejected-IsOwned true f h next i k = i refl
  rejected-IsOwned false f h next i k = k refl

  enable_bound-IsOwned :
      (k : KillSwitch) (o : ActiveOwner) (fw : Firewall) (t : Option Tunnel)
      → IsCovered (helper (some o) fw t)
      → IsOwned (enable_bound os installation client k (helper (some o) fw t)).0
  unfolding enable_bound
  enable_bound-IsOwned k o fw t c = elim (Bool-cases k.expect_tun) [
    | inl on ↦ simp on (enable_on_device-IsOwned k o.tun_device o fw t c)
    | inr off ↦ simp off (enable_gated-IsOwned k none o fw t c)
  ]

  enable_after_bind-IsOwned :
      (k : KillSwitch) (h : Helper) (r : Result Broker.Foreign BrokerState)
      → bind_or_verify installation client.session_id client.pid h.broker ≡ r
      → IsOwned h
      → IsOwned (enable_after_bind os installation client k h r).0
  unfolding enable_after_bind
  enable_after_bind-IsOwned k h (err e) bound i = i
  enable_after_bind-IsOwned k h (ok b) bound i =
      let x = bind-Binds installation client.session_id client.pid h.broker b bound in
      let mine = x.is_owner in
      at_owner (λ g. IsOwned (enable_bound os installation client k g).0) (record h { broker = b })
        x.owner mine
        (enable_bound-IsOwned k x.owner h.firewall h.tunnel (record {
          runs = subst (λ o. Runs o h.tunnel) mine (x.keeps_runs h.tunnel i.runs);
          filters =
              subst (λ o. Filters o h.firewall.engine) mine
                (x.keeps_filters h.firewall.engine i.filters);
        }))

  pub enable-IsOwned :
      (k : KillSwitch) (h : Helper)
      → IsOwned h
      → IsOwned (kill_switch_enable_request os installation client k h).0
  unfolding kill_switch_enable_request
  enable-IsOwned k h i =
      rejected-IsOwned _ _ h _ (λ _. i)
        λ few. rejected-IsOwned _ _ h _ (λ _. i) λ literal. enable_after_bind-IsOwned k h _ refl i

  disabled-IsOwned :
      (o : Option ActiveOwner) (t : Option Tunnel) (old fw : Firewall)
      (r : Result Wfp.Error (Unit {0}))
      → Busy o
      → Runs o t
      → fw.engine ≡ none
      → IsOwned (after_disable os installation client (helper o old t) (fw, r)).0
  disabled-IsOwned none t old fw (ok _) busy runs e =
      release-IsOwned (helper none fw t)
        (record { runs = runs; filters = no_engine none fw.engine e })
  disabled-IsOwned (some o) t old fw (ok _) busy runs e =
      release-IsOwned (helper (some (set_firewall false o)) fw t)
        (flagged-IsCovered o false fw t runs (no_engine (some (set_firewall false o)) fw.engine e))
  disabled-IsOwned o t old fw (err x) busy runs e =
      release-IsOwned (helper o fw t) (record { runs = runs; filters = no_engine o fw.engine e })

  pub disable-IsOwned :
      (h : Helper) → IsOwned h → IsOwned (kill_switch_disable_request os installation client h).0
  unfolding kill_switch_disable_request
  disable-IsOwned h i =
      rejected-IsOwned _ _ h _ (λ _. i)
        λ mine.
          disabled-IsOwned h.broker.owner h.tunnel h.firewall _ _ i.busy i.runs
            (disable_engine os.wfp h.firewall)

  beat-IsOwned : (b : Bool) (h : Helper) → IsOwned h → IsOwned (beat os installation client b h).0
  unfolding beat
  beat-IsOwned false h i = release-IsOwned h (IsOwned-IsCovered h i)
  beat-IsOwned true h i = record {
    busy = i.busy;
    runs = i.runs;
    filters = subst (Filters h.broker.owner) (sym (heartbeat_engine os.now h.firewall)) i.filters;
  }

  pub heartbeat-IsOwned :
      (h : Helper) → IsOwned h → IsOwned (kill_switch_heartbeat_request os installation client h).0
  unfolding kill_switch_heartbeat_request
  heartbeat-IsOwned h i = rejected-IsOwned _ _ h _ (λ _. i) λ mine. beat-IsOwned _ h i

  finish-IsOwned : (h : Helper) (r : Result Cause (Unit {0})) → IsOwned h → IsOwned (finish h r).0
  finish-IsOwned h (ok _) i = i
  finish-IsOwned h (err e) i = release-IsOwned h (IsOwned-IsCovered h i)

  pub orphan-IsOwned :
      (h : Helper) → IsOwned h → IsOwned (orphan_cleanup_request os installation client h).0
  unfolding orphan_cleanup_request
  orphan-IsOwned h i = finish-IsOwned h _ i
