-- ===== src/System/Outcomes.antt =====
-- src-tauri/src/bin/kwik_helper/dispatch.rs: what a request has done when it is answered `Ok`.
use kwik_proxy_secure.Broker
use kwik_proxy_secure.Firewall.Expected.{rule, DnsProtocol}
use kwik_proxy_secure.Firewall.Presence.{dns_block-Member, tun-Member}
use kwik_proxy_secure.Broker.{
  Installation, ActiveOwner, BrokerState, Foreign, release_if_idle, ended, bind_or_verify,
  verify_if_active,
}
use kwik_proxy_secure.Dispatch.{
  Os, Client, Response, Helper, KillSwitch, Failure, foreign, handle, done, enable_args,
  after_enable, after_gate, enable_gated, enable_on_device, enable_bound, enable_after_bind,
  kill_switch_enable_request, after_disable, kill_switch_disable_request, after_clean, after_stop,
  mihomo_stop_request, kill_switch_enable, kill_switch_disable, mihomo_stop, reject_if,
  owner_update, set_firewall, owned_device, clean_if_some,
}
use kwik_proxy_secure.Firewall.{
  w_tun_interface, w_dns_block, install, EnableArgs, Firewall, disable_blocking, enable_blocking,
}
use kwik_proxy_secure.Firewall.KillSwitch.{
  new_engine_lem, new_engine-IsKillSwitch, enable_blocking-made, IsKillSwitch, enable_beats,
  disable_engine,
}
use kwik_proxy_secure.Mihomo
use kwik_proxy_secure.Mihomo.{Tunnel}
use kwik_proxy_secure.Mihomo.Stopping.{Ends, stop_owned-Ends}
use kwik_proxy_secure.Prelude.{
  Member, ℕ, [], ◌∷◌, Text, Bool, true, false, not, ◌||◌, Option, none, some, Result, ok, err, ◌≡◌,
  refl, arith, is_some, is_some_and, if◌then◌else◌,
}
use kwik_proxy_secure.Tun
use kwik_proxy_secure.Tun.{OwnedTunInterface}
use kwik_proxy_secure.Tun.Identity.{tun_interface-expected}
use kwik_proxy_secure.System.Ownership.{bind-Binds, helper}
use kwik_proxy_secure.Wfp
use kwik_proxy_secure.Wfp.{
  protocol, remote_port, block, Layer, connect_v4, permit, local_interface, WfpEngine,
}

module _ (os : Os) (installation : Installation) (client : Client) where
  -- Arguments that are the request's, with the three programs of the installation.
  pub record IsAsked (k : KillSwitch) (tun : Option OwnedTunInterface) (args : EnableArgs)
      : Type 0 where
    pub servers : args.server_ips ≡ k.server_ips
    pub lan : args.allow_lan ≡ k.allow_lan
    pub programs :
        args.allow_app_paths
        ≡ installation.ui_path ∷ installation.helper_path ∷ installation.mihomo_path ∷ []
    pub dns_blocked : args.block_dns ≡ k.block_dns
    pub resolvers : args.allow_dns_ips ≡ k.allow_dns_ips
    pub interface : args.tun_interface ≡ tun
    pub strict : args.strict_mode ≡ k.strict_mode
    pub ipv6_off : args.force_disable_ipv6 ≡ k.force_disable_ipv6

  enable_args-IsAsked :
      (k : KillSwitch) (tun : Option OwnedTunInterface)
      → IsAsked k tun (enable_args os installation client k tun)
  unfolding Broker.trusted_app_paths
  enable_args-IsAsked k tun = record {
    servers = refl;
    lan = refl;
    programs = refl;
    dns_blocked = refl;
    resolvers = refl;
    interface = refl;
    strict = refl;
    ipv6_off = refl;
  }

  -- What an accepted KillSwitchEnable leaves.
  pub record IsGuarded (k : KillSwitch) (h : Helper) : Type 0 where
    pub tun : Option OwnedTunInterface
    pub engine : WfpEngine
    pub in_force : h.firewall.engine ≡ some engine
    pub args : EnableArgs
    pub asked : IsAsked k tun args
    pub shape : IsKillSwitch os.std os.wfp args engine
    pub made : install os.std os.wfp args [] ≡ ok engine.filters
    pub dns_sealed :
        k.block_dns ≡ true
        → (l : Layer) (proto : ℕ) → DnsProtocol proto
        → Member (rule l w_dns_block block (remote_port 53 ∷ protocol proto ∷ [])) engine.filters
    pub tunnel_open :
        (i : OwnedTunInterface)
        → tun ≡ some i
        → Member
            (rule connect_v4 w_tun_interface permit (local_interface i.luid ∷ []))
            engine.filters
    pub beating : h.firewall.last_heartbeat ≡ some os.now
    pub has_tun : k.expect_tun ≡ is_some tun
    pub owner : ActiveOwner
    pub owned : h.broker.owner ≡ some owner
    pub flagged : owner.firewall_active ≡ true

  enabled-IsGuarded :
      (k : KillSwitch) (tun : Option OwnedTunInterface) (o : ActiveOwner) (h : Helper)
      → h.broker.owner ≡ some o
      → k.expect_tun ≡ is_some tun
      → (after_gate os installation client k h (ok tun)).1 ≡ done
      → IsGuarded k (after_gate os installation client k h (ok tun)).0
  unfolding after_gate
  enabled-IsGuarded k tun o h own expects e =
      shown
        (enable_blocking os.std os.wfp (enable_args os installation client k tun) os.now h.firewall)
        refl e
    where
      shown :
          (r : Firewall × Result Wfp.Error (Unit {0}))
          → enable_blocking os.std os.wfp
              (enable_args os installation client k tun)
              os.now
              h.firewall
            ≡ r
          → (after_enable os installation client h r).1 ≡ done
          → IsGuarded k (after_enable os installation client h r).0
      shown (fw, err x) same e = absurd (ground arith)
      shown (fw, ok _) same e =
          let args = enable_args os installation client k tun in
          let (engine, there, made) =
            enable_blocking-made os.std os.wfp args os.now h.firewall fw same in
          record {
            tun = tun;
            engine = engine;
            in_force = there;
            args = args;
            asked = enable_args-IsAsked k tun;
            shape = new_engine-IsKillSwitch os.std os.wfp args engine made;
            made = (new_engine_lem os.std os.wfp args engine made).0;
            dns_sealed = dns_block-Member os.std os.wfp args engine made;
            tunnel_open = λ i here. tun-Member os.std os.wfp args engine i made here;
            beating =
                (enable_beats os.std os.wfp (enable_args os installation client k tun) os.now
                  h.firewall fw same).0;
            has_tun = expects;
            owner = set_firewall true o;
            owned = ground arith;
            flagged = refl;
          }

  gated-IsGuarded :
      (k : KillSwitch) (device : Option Text) (o : ActiveOwner) (h : Helper)
      → h.broker.owner ≡ some o
      → (enable_gated os installation client k device h).1 ≡ done
      → IsGuarded k (enable_gated os installation client k device h).0
  unfolding enable_gated after_gate
  gated-IsGuarded k device o h own e =
      passed (Tun.current_tun_interface_index os.std os.adapters k.expect_tun device) refl e
    where
      passed :
          (r : Result Tun.Error (Option OwnedTunInterface))
          → Tun.current_tun_interface_index os.std os.adapters k.expect_tun device ≡ r
          → (after_gate os installation client k h r).1 ≡ done
          → IsGuarded k (after_gate os installation client k h r).0
      passed (err x) same e = absurd (ground arith)
      passed (ok tun) same e =
          enabled-IsGuarded k tun o h own
            (tun_interface-expected os.std os.adapters k.expect_tun device tun same) e

  bound-IsGuarded :
      (k : KillSwitch) (o : ActiveOwner) (h : Helper)
      → h.broker.owner ≡ some o
      → (enable_bound os installation client k h).1 ≡ done
      → IsGuarded k (enable_bound os installation client k h).0
  unfolding enable_bound enable_on_device
  bound-IsGuarded k o h own e = chosen k.expect_tun (owned_device h.broker) e
    where
      on_device :
          (d : Option Text)
          → (enable_on_device os installation client k h d).1 ≡ done
          → IsGuarded k (enable_on_device os installation client k h d).0
      on_device none e = absurd (ground arith)
      on_device (some d) e = gated-IsGuarded k (some d) o h own e

      chosen :
          (b : Bool) (d : Option Text)
          → (if b
              then enable_on_device os installation client k h d
              else enable_gated os installation client k none h).1
            ≡ done
          → IsGuarded k
              (if b
                then enable_on_device os installation client k h d
                else enable_gated os installation client k none h).0
      chosen true d e = on_device d e
      chosen false d e = gated-IsGuarded k none o h own e

  after_bind-IsGuarded :
      (k : KillSwitch) (h : Helper) (r : Result Foreign BrokerState)
      → Broker.bind_or_verify installation client.session_id client.pid h.broker ≡ r
      → (enable_after_bind os installation client k h r).1 ≡ done
      → IsGuarded k (enable_after_bind os installation client k h r).0
  unfolding enable_after_bind
  after_bind-IsGuarded k h (err x) same e = absurd (ground arith)
  after_bind-IsGuarded k h (ok bound) same e =
      let binds = bind-Binds installation client.session_id client.pid h.broker bound same in
      bound-IsGuarded k binds.owner (record h { broker = bound }) binds.is_owner e

  rejected_or :
      (b : Bool) (h : Helper) (r : Helper × Response) (k : KillSwitch) (f : Failure)
      → (r.1 ≡ done → IsGuarded k r.0)
      → (reject_if b f h r).1 ≡ done
      → IsGuarded k (reject_if b f h r).0
  unfolding reject_if
  rejected_or true h r k f good e = absurd (ground arith)
  rejected_or false h r k f good e = good e

  -- KillSwitchEnable answered `Ok`: the filters in force are those that `install` makes of arguments
  -- with the request's servers, LAN, DNS, strict and IPv6 settings and the three installed programs, and
  -- no others; with DNS to be blocked, all four blocks of port 53 are among them, and with a TUN, which
  -- there is just if one was asked for, its IPv4 permit; the heartbeat is that of now; and the recorded
  -- owner knows that the firewall is on.
  pub enable_request-IsGuarded :
      (k : KillSwitch) (h : Helper)
      → (handle os installation client (kill_switch_enable k) h).1 ≡ done
      → IsGuarded k (handle os installation client (kill_switch_enable k) h).0
  unfolding handle kill_switch_enable_request
  enable_request-IsGuarded k h e =
      rejected_or _ h _ k _ (rejected_or _ h _ k _ (after_bind-IsGuarded k h _ refl)) e

  lifted_disable :
      (h : Helper) (r : Firewall × Result Wfp.Error (Unit {0}))
      → r.0.engine ≡ none
      → (after_disable os installation client h r).1 ≡ done
      → ((after_disable os installation client h r).0.firewall.engine ≡ none)
        × (is_some_and
              (λ o. o.firewall_active)
              (after_disable os installation client h r).0.broker.owner
            ≡ false)
  unfolding release_if_idle
  lifted_disable h (fw, err x) off e = absurd (ground arith)
  lifted_disable h (fw, ok _) off e = (off, ground arith)

  -- KillSwitchDisable answered `Ok`: no filters are in force, and no owner is recorded for any.
  pub disable_request-Off :
      (h : Helper)
      → (handle os installation client kill_switch_disable h).1 ≡ done
      → ((handle os installation client kill_switch_disable h).0.firewall.engine ≡ none)
        × (is_some_and
              (λ o. o.firewall_active)
              (handle os installation client kill_switch_disable h).0.broker.owner
            ≡ false)
  unfolding handle kill_switch_disable_request reject_if
  disable_request-Off h e =
      allowed (not (verify_if_active installation client.session_id h.broker)) e
    where
      answer : Helper × Response
      answer = after_disable os installation client h (disable_blocking os.wfp h.firewall)

      allowed :
          (b : Bool)
          → (reject_if b foreign h answer).1 ≡ done
          → ((reject_if b foreign h answer).0.firewall.engine ≡ none)
            × (is_some_and (λ o. o.firewall_active) (reject_if b foreign h answer).0.broker.owner
                ≡ false)
      allowed true e = absurd (ground arith)
      allowed false e = lifted_disable h _ (disable_engine os.wfp h.firewall) e

  -- Nothing runs, and no owner is recorded for a tunnel or an adapter.
  abbrev pub IsStopped : Helper → Type 0
  IsStopped g =
      (g.tunnel ≡ none)
      × (is_some_and (λ o. o.tunnel_active || is_some o.tun_device) g.broker.owner ≡ false)

  cleaned_ok :
      (o : Option ActiveOwner) (fw : Firewall) (r : Result Tun.Error (Unit {0}))
      → (after_clean os installation client (owner_update ended (helper o fw none)) r).1 ≡ done
      → IsStopped (after_clean os installation client (owner_update ended (helper o fw none)) r).0
  unfolding release_if_idle
  cleaned_ok o fw (err x) e = absurd (ground arith)
  cleaned_ok none fw (ok _) e = (refl, refl)
  cleaned_ok (some o) fw (ok _) e = (ground arith, ground arith)

  IsStopped-ok :
      (h : Helper) (r : Option Tunnel × Result Mihomo.Error (Unit {0}))
      → Ends h.tunnel r
      → (after_stop os installation client h r).1 ≡ done
      → IsStopped (after_stop os installation client h r).0
  IsStopped-ok h (t, err x) ends e = absurd (ground arith)
  IsStopped-ok h (none, ok _) ends e =
      cleaned_ok h.broker.owner h.firewall (clean_if_some os (owned_device h.broker)) e
  IsStopped-ok h (some t, ok _) ends e = absurd (ground arith)

  -- MihomoStop answered `Ok`: no tunnel is in `STATE`, and no owner is recorded for a tunnel or for an
  -- adapter.
  pub stop_request-IsStopped :
      (h : Helper)
      → (handle os installation client mihomo_stop h).1 ≡ done
      → IsStopped (handle os installation client mihomo_stop h).0
  unfolding handle mihomo_stop_request reject_if
  stop_request-IsStopped h e =
      allowed (not (verify_if_active installation client.session_id h.broker)) e
    where
      answer : Helper × Response
      answer =
          after_stop os installation client h
            (Mihomo.stop_owned os.std os.host client.session_id installation.generation h.tunnel)

      allowed :
          (b : Bool)
          → (reject_if b foreign h answer).1 ≡ done
          → IsStopped (reject_if b foreign h answer).0
      allowed true e = absurd (ground arith)
      allowed false e =
          IsStopped-ok h _
            (stop_owned-Ends os.std os.host client.session_id installation.generation h.tunnel) e
