-- ===== src/System/Foreign.antt =====
-- src-tauri/src/bin/kwik_helper/dispatch.rs: what a caller of another session, a late report and a
-- shutdown can do to the helper.
use mathlib.Core.Path.{subst}
use kwik_proxy_secure.Broker.{
  Installation, ActiveOwner, verify_if_active, owner_matches, bind_or_verify, bind_owner,
  any_active, owner_active, release_if_idle, note_tunnel_exit, is_exit_of,
}
use kwik_proxy_secure.Dispatch.{
  release, Os, Client, Request, Helper, handle, ping, version, wfp_query_orphan, read_diagnostics,
  tunnel_status, kill_switch_enable, kill_switch_disable, kill_switch_force_cleanup,
  kill_switch_heartbeat, orphan_cleanup, start_tunnel, mihomo_stop, kill_switch_enable_request,
  enable_after_bind, kill_switch_disable_request, kill_switch_heartbeat_request,
  orphan_cleanup_request, start_tunnel_request, start_after_bind, mihomo_stop_request, reject_if,
}
use kwik_proxy_secure.Firewall.{Firewall}
use kwik_proxy_secure.Mihomo.{Tunnel}
use kwik_proxy_secure.Prelude.{
  text_eq_iff, ℕ, Text, Bool, true, false, Option, none, some, ◌≡◌, ◌≢◌, refl, arith, is_some_and,
}
use kwik_proxy_secure.System.{on_tunnel_process_exit}
use kwik_proxy_secure.System.Ownership.{helper, IsOwned, Busy, Runs}

module _ (os : Os) (installation : Installation) (client : Client) where
  abbrev Rejects : Request → Type 0
  Rejects req =
      (o : ActiveOwner) (fw : Firewall) (t : Option Tunnel)
      → owner_matches installation.generation client.session_id o ≡ false
      → owner_active o ≡ true
      → (handle os installation client req (helper (some o) fw t)).0 ≡ helper (some o) fw t

  enable-Rejects : (k : _) → Rejects (kill_switch_enable k)
  unfolding handle kill_switch_enable_request reject_if enable_after_bind bind_or_verify bind_owner
  enable-Rejects k o fw t foreign busy = ground arith

  disable-Rejects : Rejects kill_switch_disable
  unfolding handle kill_switch_disable_request reject_if verify_if_active
  disable-Rejects o fw t foreign busy = ground arith

  heartbeat-Rejects : Rejects kill_switch_heartbeat
  unfolding handle kill_switch_heartbeat_request reject_if verify_if_active
  heartbeat-Rejects o fw t foreign busy = ground arith

  orphan-Rejects : Rejects orphan_cleanup
  unfolding handle orphan_cleanup_request any_active release_if_idle
  orphan-Rejects o fw t foreign busy = ground arith

  start-Rejects : (text : Text) (lan : Bool) → Rejects (start_tunnel text lan)
  unfolding handle start_tunnel_request start_after_bind bind_or_verify bind_owner
  start-Rejects text lan o fw t foreign busy = ground arith

  stop-Rejects : Rejects mihomo_stop
  unfolding handle mihomo_stop_request reject_if verify_if_active
  stop-Rejects o fw t foreign busy = ground arith

  rejects : (req : Request) → Rejects req
  unfolding handle
  rejects ping o fw t f b = refl
  rejects version o fw t f b = refl
  rejects wfp_query_orphan o fw t f b = refl
  rejects read_diagnostics o fw t f b = refl
  rejects tunnel_status o fw t f b = refl
  rejects (kill_switch_enable k) o fw t f b = enable-Rejects k o fw t f b
  rejects kill_switch_disable o fw t f b = disable-Rejects o fw t f b
  rejects kill_switch_force_cleanup o fw t f b = disable-Rejects o fw t f b
  rejects kill_switch_heartbeat o fw t f b = heartbeat-Rejects o fw t f b
  rejects orphan_cleanup o fw t f b = orphan-Rejects o fw t f b
  rejects (start_tunnel text lan) o fw t f b = start-Rejects text lan o fw t f b
  rejects mihomo_stop o fw t f b = stop-Rejects o fw t f b

  rejects_at :
      (req : Request) (o : Option ActiveOwner) (fw : Firewall) (t : Option Tunnel)
      → verify_if_active installation client.session_id (record { owner = o }) ≡ false
      → Busy o
      → (handle os installation client req (helper o fw t)).0 ≡ helper o fw t
  unfolding verify_if_active
  rejects_at req none fw t foreign busy = absurd (ground arith)
  rejects_at req (some o) fw t foreign busy = rejects req o fw t (ground arith) busy

  -- In a helper that meets the ownership invariant, and that another session or installation owns,
  -- no request of any kind
  -- changes anything: not the owner, not the filters or their heartbeat, not the tunnel.
  pub handle-foreign :
      (req : Request) (h : Helper)
      → IsOwned h
      → verify_if_active installation client.session_id h.broker ≡ false
      → (handle os installation client req h).0 ≡ h
  handle-foreign req h i foreign = rejects_at req h.broker.owner h.firewall h.tunnel foreign i.busy

missed_exit :
    (os : Os) (session_id : ℕ) (generation : Text) (pid : ℕ) (instance_id : Text) (h : Helper)
    → is_some_and (is_exit_of generation session_id pid instance_id) h.broker.owner ≡ false
    → on_tunnel_process_exit os session_id generation pid instance_id h ≡ h
unfolding on_tunnel_process_exit note_tunnel_exit
missed_exit os session_id generation pid instance_id h missed = simp missed refl

other_instance :
    (o : Option ActiveOwner) (t : Tunnel) (session_id pid : ℕ) (generation instance_id : Text)
    → Runs o (some t)
    → instance_id ≢ t.instance_id
    → is_some_and (is_exit_of generation session_id pid instance_id) o ≡ false
other_instance none t session_id pid generation instance_id r other = refl
other_instance (some o) t session_id pid generation instance_id r other =
    let same = r.instance_id in ground (arith, text_eq_iff t.instance_id instance_id)

-- In a helper that meets the ownership invariant, a late report of an exit, of another instance than
-- the tunnel that runs, changes nothing: neither
-- the replacement nor its filters or adapter are touched.
pub stale_exit-changes_nothing :
    (os : Os) (session_id : ℕ) (generation : Text) (pid : ℕ) (instance_id : Text) (h : Helper)
    (t : Tunnel)
    → IsOwned h
    → h.tunnel ≡ some t
    → instance_id ≢ t.instance_id
    → on_tunnel_process_exit os session_id generation pid instance_id h ≡ h
stale_exit-changes_nothing os session_id generation pid instance_id h t i runs other =
    missed_exit os session_id generation pid instance_id h (
      other_instance h.broker.owner t session_id pid generation instance_id
        (subst (Runs h.broker.owner) runs i.runs) other)

released_of :
    (h : Helper) (o : Option ActiveOwner)
    → h.broker.owner ≡ o
    → is_some_and owner_active o ≡ false
    → (release h).broker.owner ≡ none
unfolding release_if_idle
released_of h none own idle = ground arith
released_of h (some o) own idle = ground arith
