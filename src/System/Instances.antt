-- ===== src/System/Instances.antt =====
-- src-tauri/src/bin/kwik_helper/dispatch.rs: which requests change the running tunnel, and to what.
use kwik_proxy_secure.Broker.{Installation}
use kwik_proxy_secure.Dispatch.{
  Os, Client, Request, Helper, KillSwitch, handle, kill_switch_enable_request, enable_after_bind,
  enable_bound, enable_on_device, enable_gated, after_gate, kill_switch_disable_request, beat,
  kill_switch_heartbeat_request, orphan_cleanup_request, start_tunnel_request, start_after_bind,
  start_bound, start_on_device, mihomo_stop_request, reject_if, ping, version, wfp_query_orphan,
  read_diagnostics, tunnel_status, kill_switch_enable, kill_switch_disable,
  kill_switch_force_cleanup, kill_switch_heartbeat, orphan_cleanup, start_tunnel, mihomo_stop,
}
use mathlib.Core.Path.{subst}
use kwik_proxy_secure.Mihomo
use kwik_proxy_secure.Mihomo.Stopping.{stop_owned-Ends}
use kwik_proxy_secure.Mihomo.{Tunnel, StartedTunnel, after_launch}
use kwik_proxy_secure.Prelude.{
  ℕ, ◌⊎◌, inl, inr, sym, Text, Bool, Option, none, some, Result, ok, err, ◌≡◌, refl, arith,
}

module _ (os : Os) (installation : Installation) (client : Client) where
  enable-tunnel :
      (k : KillSwitch) (h : Helper)
      → (kill_switch_enable_request os installation client k h).0.tunnel ≡ h.tunnel
  unfolding kill_switch_enable_request enable_after_bind enable_bound enable_on_device enable_gated
      after_gate reject_if
  enable-tunnel k h = ground arith

  disable-tunnel :
      (h : Helper) → (kill_switch_disable_request os installation client h).0.tunnel ≡ h.tunnel
  unfolding kill_switch_disable_request reject_if
  disable-tunnel h = ground arith

  heartbeat-tunnel :
      (h : Helper) → (kill_switch_heartbeat_request os installation client h).0.tunnel ≡ h.tunnel
  unfolding kill_switch_heartbeat_request reject_if beat
  heartbeat-tunnel h = ground arith

  orphan-tunnel :
      (h : Helper) → (orphan_cleanup_request os installation client h).0.tunnel ≡ h.tunnel
  unfolding orphan_cleanup_request
  orphan-tunnel h = ground arith

  -- Either the tunnel is as it was, or there is none, or it is the instance made by this request.
  abbrev pub Follows : Option Tunnel → Option Tunnel → Type 0
  Follows t t' =
      (t' ≡ t)
      ⊎ (t' ≡ none)
      ⊎ ((u : Tunnel) × (t' ≡ some u) × (u.instance_id ≡ os.host.instance_id))

  launch-instance :
      (text : Text) (lan : Bool) (t : Option Tunnel) (s : StartedTunnel)
      → Mihomo.launch os.std os.host os.parsers os.readiness_rounds text lan t ≡ ok s
      → s.instance_id ≡ os.host.instance_id
  unfolding Mihomo.launch
  launch-instance text lan t s e = ground arith

  after_launch-Follows :
      (session_id : ℕ) (generation : Text) (t : Option Tunnel)
      (r : Result Mihomo.Error StartedTunnel)
      → ((s : StartedTunnel) → r ≡ ok s → s.instance_id ≡ os.host.instance_id)
      → Follows t (after_launch session_id generation t r).0
  unfolding after_launch
  after_launch-Follows session_id generation t (err e) h = inl refl
  after_launch-Follows session_id generation t (ok s) h = inr (inr (_, refl, h s refl))

  start-Follows :
      (session_id : ℕ) (generation : Text) (text : Text) (lan : Bool) (t : Option Tunnel)
      → Follows t
          (Mihomo.start os.std os.host os.parsers os.readiness_rounds text lan session_id generation
            t).0
  unfolding Mihomo.start
  start-Follows session_id generation text lan t =
      after_launch-Follows session_id generation t _ (launch-instance text lan t)

  start_tunnel-tunnel :
      (text : Text) (lan : Bool) (h : Helper)
      → ((start_tunnel_request os installation client text lan h).0.tunnel ≡ h.tunnel)
        ⊎ ((start_tunnel_request os installation client text lan h).0.tunnel
            ≡ (Mihomo.start os.std os.host os.parsers os.readiness_rounds text lan client.session_id
                installation.generation h.tunnel).0)
  unfolding start_tunnel_request start_after_bind start_bound start_on_device reject_if
  start_tunnel-tunnel text lan h = ground arith

  stop-tunnel :
      (h : Helper)
      → ((mihomo_stop_request os installation client h).0.tunnel ≡ h.tunnel)
        ⊎ ((mihomo_stop_request os installation client h).0.tunnel ≡ none)
  unfolding mihomo_stop_request reject_if
  stop-tunnel h =
      ground
        (arith, stop_owned-Ends os.std os.host client.session_id installation.generation h.tunnel)

  start_tunnel-Follows :
      (text : Text) (lan : Bool) (h : Helper)
      → Follows h.tunnel (start_tunnel_request os installation client text lan h).0.tunnel
  start_tunnel-Follows text lan h = elim (start_tunnel-tunnel text lan h) [
    | inl same ↦ inl same
    | inr made ↦
        subst (Follows h.tunnel) (sym made)
          (start-Follows client.session_id installation.generation text lan h.tunnel)
  ]

  -- After a request the tunnel is as it was, or there is none, or it is the instance that the host
  -- named for this request.
  pub handle-Follows :
      (req : Request) (h : Helper) → Follows h.tunnel (handle os installation client req h).0.tunnel
  unfolding handle
  handle-Follows ping h = inl refl
  handle-Follows version h = inl refl
  handle-Follows wfp_query_orphan h = inl refl
  handle-Follows read_diagnostics h = inl refl
  handle-Follows tunnel_status h = inl refl
  handle-Follows (kill_switch_enable k) h = inl (enable-tunnel k h)
  handle-Follows kill_switch_disable h = inl (disable-tunnel h)
  handle-Follows kill_switch_force_cleanup h = inl (disable-tunnel h)
  handle-Follows kill_switch_heartbeat h = inl (heartbeat-tunnel h)
  handle-Follows orphan_cleanup h = inl (orphan-tunnel h)
  handle-Follows (start_tunnel text lan) h = start_tunnel-Follows text lan h
  handle-Follows mihomo_stop h = elim (stop-tunnel h) [
    | inl same ↦ inl same
    | inr gone ↦ inr (inl gone)
  ]
