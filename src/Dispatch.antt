-- ===== src/Dispatch.antt =====
-- src-tauri/src/bin/kwik_helper/dispatch.rs and protocol.rs: the RPC of the privileged helper. The
-- state `Helper` joins the broker with the globals of firewall.rs and mihomo.rs; `Os` holds what
-- Windows answers during one request. The broker's lock is held through a request that changes
-- state, so such a request is one step.
use kwik_proxy_secure.Broker
use kwik_proxy_secure.Broker.{BrokerState, ActiveOwner, Installation}
use kwik_proxy_secure.Firewall
use kwik_proxy_secure.Firewall.{Firewall, EnableArgs}
use kwik_proxy_secure.Mihomo
use kwik_proxy_secure.Mihomo.{Tunnel, StartedTunnel, Host}
use kwik_proxy_secure.Mihomo.Config
use kwik_proxy_secure.Net.{Std, ip_addr}
use kwik_proxy_secure.Prelude.{
  ℕ, Text, Bool, true, false, not, ◌||◌, List, ◌++◌, Option, none, some, Result, ok, err,
  if◌then◌else◌, ltb, length, any, is_some, is_some_and,
}
use kwik_proxy_secure.Tun
use kwik_proxy_secure.Tun.{Adapters, OwnedTunInterface}
use kwik_proxy_secure.Wfp

-- The fields of `Request::KillSwitchEnable`.
pub record KillSwitch : Type 0 where
  pub server_ips : List Text
  pub allow_lan : Bool
  pub block_dns : Bool
  pub allow_dns_ips : List Text
  pub strict_mode : Bool
  pub expect_tun : Bool
  pub force_disable_ipv6 : Bool

pub data Request : Type 0 where
  ping version wfp_query_orphan read_diagnostics tunnel_status : Request
  kill_switch_enable : KillSwitch → Request
  kill_switch_disable kill_switch_force_cleanup kill_switch_heartbeat orphan_cleanup : Request
  start_tunnel : Text → Bool → Request
  mihomo_stop : Request

-- An error that the tail of `handle_mutating` reports.
pub data Cause : Type 0 where
  firewall_failed : Wfp.Error → Cause
  no_kill_switch state_active : Cause
  tun_failed : Tun.Error → Cause
  start_failed : Mihomo.Error → Cause
  start_and_cleanup_failed : Mihomo.Error → Tun.Error → Cause
  stop_failed : Mihomo.Error → Cause

pub data Failure : Type 0 where
  orphan_query : Wfp.Error → Failure
  foreign too_many_addresses not_an_address no_owned_tunnel not_reconciled : Failure
  ownership_gate : Tun.Error → Failure
  config_rejected : Config.Error → Failure
  device_cleanup : Tun.Error → Failure
  rejected : Cause → Failure

pub data Response : Type 0 where
  pong done : Response
  versions : Text → ℕ → Response
  wfp_orphan : Bool → Response
  diagnostics : Text → Response
  status : (running cleanup_pending firewall_active device_owned : Bool) → Response
  error : Failure → Response

pub record Helper : Type 0 where
  pub broker : BrokerState
  pub firewall : Firewall
  pub tunnel : Option Tunnel

-- The authenticated caller.
pub record Client : Type 0 where
  pub session_id : ℕ
  pub pid : ℕ

-- What the host answers during one request; `cleanup_rounds` and `readiness_rounds` are the fuel of
-- the two waiting loops.
pub record Os : Type 0 where
  pub std : Std
  pub parsers : Config.Parsers
  pub wfp : Wfp.Api
  pub host : Host
  pub adapters : Adapters
  pub now : ℕ
  pub helper_version : Text
  pub log_tail : Text
  pub cleanup_rounds : ℕ
  pub readiness_rounds : ℕ

abbrev pub protocol_version : ℕ
protocol_version = 15

abbrev pub owned_device : BrokerState → Option Text
owned_device state = elim state.owner [ none ↦ none | some owner ↦ owner.tun_device ]

abbrev pub release : Helper → Helper
release h = record h { broker = Broker.release_if_idle h.broker }

abbrev pub owner_update : (ActiveOwner → ActiveOwner) → Helper → Helper
owner_update f h = record h { broker = Broker.with_owner f h.broker }

-- The tail of `handle_mutating`: a failed request releases an idle owner.
abbrev pub finish : Helper → Result Cause (Unit {0}) → Helper × Response
finish h (ok _) = (h, done)
finish h (err e) = (release h, error (rejected e))

-- An early `return Response::err(…)`, which leaves the state alone.
unfoldable pub reject_if : Bool → Failure → Helper → Helper × Response → Helper × Response
reject_if true failure h next = (h, error failure)
reject_if false failure h next = next

abbrev pub set_firewall : Bool → ActiveOwner → ActiveOwner
set_firewall b owner = record owner { firewall_active = b }

abbrev pub set_device : Option Text → ActiveOwner → ActiveOwner
set_device d owner = record owner { tun_device = d }

abbrev pub set_started : StartedTunnel → ActiveOwner → ActiveOwner
set_started s owner = record owner {
  tunnel_active = true;
  tun_device = some s.tun_device;
  tunnel_pid = some s.pid;
  tunnel_instance_id = some s.instance_id;
}

abbrev pub clean_device : Os → Text → Result Tun.Error (Unit {0})
clean_device os = Tun.cleanup_owned_device os.std os.adapters os.cleanup_rounds

abbrev pub clean_if_some : Os → Option Text → Result Tun.Error (Unit {0})
clean_if_some os none = ok tt
clean_if_some os (some device) = clean_device os device

module _ (os : Os) (installation : Installation) (client : Client) where
  open os use {std}

  -- KillSwitchEnable.
  abbrev pub enable_args : KillSwitch → Option OwnedTunInterface → EnableArgs
  enable_args k tun_if = record {
    server_ips = k.server_ips;
    allow_lan = k.allow_lan;
    allow_app_paths = Broker.trusted_app_paths installation;
    block_dns = k.block_dns;
    allow_dns_ips = k.allow_dns_ips;
    tun_interface = tun_if;
    strict_mode = k.strict_mode;
    force_disable_ipv6 = k.force_disable_ipv6;
  }

  abbrev pub after_enable : Helper → Firewall × Result Wfp.Error (Unit {0}) → Helper × Response
  after_enable h (fw, ok _) =
      finish (owner_update (set_firewall true) (record h { firewall = fw })) (ok tt)
  after_enable h (fw, err e) = finish (record h { firewall = fw }) (err (firewall_failed e))

  unfoldable pub after_gate :
      KillSwitch → Helper → Result Tun.Error (Option OwnedTunInterface) → Helper × Response
  after_gate k h (err e) = (release h, error (ownership_gate e))
  after_gate k h (ok tun_if) =
      after_enable h (Firewall.enable_blocking std os.wfp (enable_args k tun_if) os.now h.firewall)

  unfoldable pub enable_gated : KillSwitch → Option Text → Helper → Helper × Response
  enable_gated k device h =
      after_gate k h (Tun.current_tun_interface_index std os.adapters k.expect_tun device)

  unfoldable pub enable_on_device : KillSwitch → Helper → Option Text → Helper × Response
  enable_on_device k h none = (release h, error no_owned_tunnel)
  enable_on_device k h (some device) = enable_gated k (some device) h

  unfoldable pub enable_bound : KillSwitch → Helper → Helper × Response
  enable_bound k h =
      if k.expect_tun then enable_on_device k h (owned_device h.broker) else enable_gated k none h

  unfoldable pub enable_after_bind :
      KillSwitch → Helper → Result Broker.Foreign BrokerState → Helper × Response
  enable_after_bind k h (err e) = (h, error foreign)
  enable_after_bind k h (ok bound) = enable_bound k (record h { broker = bound })

  unfoldable pub kill_switch_enable_request : KillSwitch → Helper → Helper × Response
  kill_switch_enable_request k h =
      reject_if (ltb 128 (length k.server_ips) || ltb 16 (length k.allow_dns_ips))
        too_many_addresses h
        (reject_if
          (any (λ value. not (is_some (ip_addr std value))) (k.server_ips ++ k.allow_dns_ips))
          not_an_address h
          (enable_after_bind k h
            (Broker.bind_or_verify installation client.session_id client.pid h.broker)))

  -- KillSwitchDisable and KillSwitchForceCleanup.
  abbrev pub after_disable : Helper → Firewall × Result Wfp.Error (Unit {0}) → Helper × Response
  after_disable h (fw, ok _) =
      finish (release (owner_update (set_firewall false) (record h { firewall = fw }))) (ok tt)
  after_disable h (fw, err e) = finish (record h { firewall = fw }) (err (firewall_failed e))

  -- The ownership check that opens the other requests.
  abbrev pub is_foreign : Helper → Bool
  is_foreign h = not (Broker.verify_if_active installation client.session_id h.broker)

  unfoldable pub kill_switch_disable_request : Helper → Helper × Response
  kill_switch_disable_request h =
      reject_if (is_foreign h) foreign h
        (after_disable h (Firewall.disable_blocking os.wfp h.firewall))

  unfoldable pub beat : Bool → Helper → Helper × Response
  beat false h = finish h (err no_kill_switch)
  beat true h = finish (record h { firewall = Firewall.heartbeat os.now h.firewall }) (ok tt)

  unfoldable pub kill_switch_heartbeat_request : Helper → Helper × Response
  kill_switch_heartbeat_request h =
      reject_if (is_foreign h) foreign h
        (beat (is_some_and (λ o. o.firewall_active) h.broker.owner) h)

  abbrev pub lift_tun : Result Tun.Error (Unit {0}) → Result Cause (Unit {0})
  lift_tun (ok _) = ok tt
  lift_tun (err e) = err (tun_failed e)

  unfoldable pub orphan_cleanup_request : Helper → Helper × Response
  orphan_cleanup_request h = finish h (
      if Broker.any_active h.broker
      then err state_active
      else lift_tun (Tun.cleanup_orphan_resources std os.adapters os.cleanup_rounds))

  -- StartTunnel. A start that failed is undone if its device is gone.
  abbrev pub undo_start : Mihomo.Error → Result Tun.Error (Unit {0}) → Helper → Helper × Response
  undo_start e (ok _) h = finish (release (owner_update (set_device none) h)) (err (start_failed e))
  undo_start e (err c) h = finish h (err (start_and_cleanup_failed e c))

  abbrev pub after_start :
      Text → Helper → Option Tunnel × Result Mihomo.Error StartedTunnel → Helper × Response
  after_start device h (tunnel, ok started) =
      finish (owner_update (set_started started) (record h { tunnel = tunnel })) (ok tt)
  after_start device h (tunnel, err e) =
      undo_start e (clean_device os device) (record h { tunnel = tunnel })

  unfoldable pub start_on_device :
      Text → Bool → Helper → Result Config.Error Text → Helper × Response
  start_on_device config_yaml allow_lan h (err e) = (release h, error (config_rejected e))
  start_on_device config_yaml allow_lan h (ok device) =
      after_start device (owner_update (set_device (some device)) h) (
        Mihomo.start std os.host os.parsers os.readiness_rounds config_yaml allow_lan
          client.session_id installation.generation h.tunnel)

  unfoldable pub start_bound : Text → Bool → Helper → Helper × Response
  start_bound config_yaml allow_lan h = reject_if (Broker.any_active h.broker) not_reconciled h (
      start_on_device config_yaml allow_lan h
        (Config.validated_tun_device os.parsers config_yaml allow_lan))

  unfoldable pub start_after_bind :
      Text → Bool → Helper → Result Broker.Foreign BrokerState → Helper × Response
  start_after_bind config_yaml allow_lan h (err e) = (h, error foreign)
  start_after_bind config_yaml allow_lan h (ok bound) =
      start_bound config_yaml allow_lan (record h { broker = bound })

  unfoldable pub start_tunnel_request : Text → Bool → Helper → Helper × Response
  start_tunnel_request config_yaml allow_lan h =
      start_after_bind config_yaml allow_lan h
        (Broker.bind_or_verify installation client.session_id client.pid h.broker)

  -- MihomoStop.
  abbrev pub after_clean : Helper → Result Tun.Error (Unit {0}) → Helper × Response
  after_clean h (err e) = (h, error (device_cleanup e))
  after_clean h (ok _) = finish (release (owner_update (set_device none) h)) (ok tt)

  abbrev pub after_stop :
      Helper → Option Tunnel × Result Mihomo.Error (Unit {0}) → Helper × Response
  after_stop h (tunnel, err e) = finish (record h { tunnel = tunnel }) (err (stop_failed e))
  after_stop h (tunnel, ok _) =
      after_clean (owner_update Broker.ended (record h { tunnel = tunnel }))
        (clean_if_some os (owned_device h.broker))

  unfoldable pub mihomo_stop_request : Helper → Helper × Response
  mihomo_stop_request h = reject_if (is_foreign h) foreign h (
      after_stop h
        (Mihomo.stop_owned std os.host client.session_id installation.generation h.tunnel))

  abbrev pub orphan_response : Result Wfp.Error Bool → Response
  orphan_response (ok has_orphan) = wfp_orphan has_orphan
  orphan_response (err e) = error (orphan_query e)

  unfoldable pub status_response : Helper → Response
  status_response h =
      if not (Broker.verify_if_active installation client.session_id h.broker)
      then error foreign
      else (let running = Mihomo.is_running std os.host h.tunnel in
          let parts = Broker.runtime_status running h.broker in
          status running parts.0 parts.1 parts.2)

  unfoldable pub handle : Request → Helper → Helper × Response
  handle ping h = (h, pong)
  handle version h = (h, versions os.helper_version protocol_version)
  handle wfp_query_orphan h = (h, orphan_response (Wfp.has_orphan_filters os.wfp))
  handle read_diagnostics h = (h, diagnostics os.log_tail)
  handle tunnel_status h = (h, status_response h)
  handle (kill_switch_enable k) h = kill_switch_enable_request k h
  handle kill_switch_disable h = kill_switch_disable_request h
  handle kill_switch_force_cleanup h = kill_switch_disable_request h
  handle kill_switch_heartbeat h = kill_switch_heartbeat_request h
  handle orphan_cleanup h = orphan_cleanup_request h
  handle (start_tunnel config_yaml allow_lan) h = start_tunnel_request config_yaml allow_lan h
  handle mihomo_stop h = mihomo_stop_request h
