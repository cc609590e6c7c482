-- ===== src/Mihomo/Stopping.antt =====
-- src-tauri/src/bin/kwik_helper/mihomo.rs: the two ways in which a stop can end.
use kwik_proxy_secure.Mihomo.{
  Tunnel, Host, Error, stop, stop_owned, owned_by, WaitStatus, reaped, wait_failed, wait_timeout,
  ChildStatus, running, exited, unknown, status_unknown, kill_failed, wait_error, stop_timeout,
  foreign_tunnel, after_kill, after_status,
}
use kwik_proxy_secure.Net.{Std}
use kwik_proxy_secure.Prelude.{
  ℕ, if◌then◌else◌, Text, Bool, true, false, Option, none, some, Result, ok, err, ◌≡◌, ◌⊎◌, refl,
  inl, inr,
}

-- Either the child is known to be gone and `STATE` is empty, or `STATE` is as it was.
abbrev pub Ends : Option Tunnel → Option Tunnel × Result Error (Unit {0}) → Type 0
Ends t r = (r ≡ (none, ok tt)) ⊎ ((e : Error) × (r ≡ (t, err e)))

module _ (std : Std) (host : Host) where
  after_kill-Ends : (w : WaitStatus) (b : Bool) (t : Tunnel) → Ends (some t) (after_kill b w t)
  unfolding after_kill
  after_kill-Ends w false t = inr (kill_failed, refl)
  after_kill-Ends reaped true t = inl refl
  after_kill-Ends wait_failed true t = inr (wait_error, refl)
  after_kill-Ends wait_timeout true t = inr (stop_timeout, refl)

  after_status-Ends : (s : ChildStatus) (t : Tunnel) → Ends (some t) (after_status host s t)
  unfolding after_status
  after_status-Ends unknown t = inr (status_unknown, refl)
  after_status-Ends exited t = inl refl
  after_status-Ends running t = after_kill-Ends host.wait host.kill t

  pub stop-Ends : (t : Option Tunnel) → Ends t (stop std host t)
  unfolding stop
  stop-Ends none = inl refl
  stop-Ends (some t) = after_status-Ends (host.status 0) t

  pub stop_owned-Ends :
      (session_id : ℕ) (generation : Text) (t : Option Tunnel)
      → Ends t (stop_owned std host session_id generation t)
  unfolding stop_owned
  stop_owned-Ends session_id generation none = stop-Ends none
  stop_owned-Ends session_id generation (some t) = allowed (owned_by session_id generation t)
    where
      allowed :
          (b : Bool)
          → Ends (some t) (if b then stop std host (some t) else (some t, err foreign_tunnel))
      allowed true = stop-Ends (some t)
      allowed false = inr (foreign_tunnel, refl)
