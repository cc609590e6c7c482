-- ===== src/System/Starting.antt =====
-- src-tauri/src/bin/kwik_helper/dispatch.rs: what a StartTunnel has done when it is answered `Ok`.
use kwik_proxy_secure.Broker
use kwik_proxy_secure.Broker.{Installation, BrokerState, Foreign}
use kwik_proxy_secure.Dispatch.{
  Os, Client, Response, Helper, Failure, handle, done, start_tunnel, start_tunnel_request,
  start_after_bind, start_bound, start_on_device, after_start, reject_if, clean_device, undo_start,
  owner_update, set_device,
}
use kwik_proxy_secure.Mihomo
use kwik_proxy_secure.Mihomo.{Tunnel, StartedTunnel}
use kwik_proxy_secure.Mihomo.Config
use kwik_proxy_secure.Mihomo.Readiness.{IsReady, start-IsReady}
use kwik_proxy_secure.Prelude.{
  ℕ, Text, Bool, true, false, Option, none, some, Result, ok, err, ◌≡◌, refl, arith,
}
use kwik_proxy_secure.Tun

module _ (os : Os) (installation : Installation) (client : Client) (text : Text) (lan : Bool) where
  -- The tunnel that an accepted start leaves, from the state it found.
  pub record IsStarted (before : Option Tunnel) (h : Helper) : Type 0 where
    pub was_free : before ≡ none
    pub tunnel : Tunnel
    pub runs : h.tunnel ≡ some tunnel
    pub accepted : Config.validated_tun_device os.parsers text lan ≡ ok tunnel.tun_device
    pub poll : ℕ
    pub ready : IsReady os.std os.host poll tunnel.tun_device
    pub session : tunnel.session_id ≡ client.session_id
    pub same_generation : tunnel.generation ≡ installation.generation

  undone_answer :
      (e : Mihomo.Error) (r : Result Tun.Error (Unit {0})) (h : Helper)
      → (undo_start os installation client e r h).1 ≡ done
      → ⊥
  undone_answer e (ok _) h answer = ground arith
  undone_answer e (err c) h answer = ground arith

  after_start-IsStarted :
      (device : Text) (h : Helper) (r : Option Tunnel × Result Mihomo.Error StartedTunnel)
      → Mihomo.start os.std os.host os.parsers os.readiness_rounds text lan client.session_id
          installation.generation h.tunnel
        ≡ r
      → (after_start os installation client device h r).1 ≡ done
      → IsStarted h.tunnel (after_start os installation client device h r).0
  after_start-IsStarted device h (t, err e) same answer =
      absurd (undone_answer e (clean_device os device) (record h { tunnel = t }) answer)
  after_start-IsStarted device h (t, ok started) same answer =
      let (free, accepted, (k, ready), stored) =
        start-IsReady os.parsers os.std os.host os.readiness_rounds client.session_id text
          installation.generation lan h.tunnel t started same in
      record {
        was_free = free;
        tunnel = _;
        runs = stored;
        accepted = accepted;
        poll = k;
        ready = ready;
        session = refl;
        same_generation = refl;
      }

  on_device-IsStarted :
      (h : Helper) (r : Result Config.Error Text)
      → (start_on_device os installation client text lan h r).1 ≡ done
      → IsStarted h.tunnel (start_on_device os installation client text lan h r).0
  unfolding start_on_device
  on_device-IsStarted h (err e) answer = absurd (ground arith)
  on_device-IsStarted h (ok device) answer =
      after_start-IsStarted device (owner_update (set_device (some device)) h) _ refl answer

  unblocked :
      (b : Bool) (h : Helper) (f : Failure) (before : Option Tunnel) (next : Helper × Response)
      → (next.1 ≡ done → IsStarted before next.0)
      → (reject_if b f h next).1 ≡ done
      → IsStarted before (reject_if b f h next).0
  unfolding reject_if
  unblocked true h f before next good answer = absurd (ground arith)
  unblocked false h f before next good answer = good answer

  bound-IsStarted :
      (h : Helper) (r : Result Foreign BrokerState)
      → (start_after_bind os installation client text lan h r).1 ≡ done
      → IsStarted h.tunnel (start_after_bind os installation client text lan h r).0
  unfolding start_after_bind start_bound
  bound-IsStarted h (err e) answer = absurd (ground arith)
  bound-IsStarted h (ok bound) answer =
      unblocked (Broker.any_active bound) _ _ h.tunnel _
        (on_device-IsStarted (record h { broker = bound })
          (Config.validated_tun_device os.parsers text lan))
        answer

  -- StartTunnel answered `Ok`: no tunnel ran before, and now one runs on the device of the accepted
  -- configuration, seen ready at one poll, under the caller's session and generation.
  pub start_request-IsStarted :
      (h : Helper)
      → (handle os installation client (start_tunnel text lan) h).1 ≡ done
      → IsStarted h.tunnel (handle os installation client (start_tunnel text lan) h).0
  unfolding handle start_tunnel_request
  start_request-IsStarted h answer =
      bound-IsStarted h (Broker.bind_or_verify installation client.session_id client.pid h.broker)
        answer
