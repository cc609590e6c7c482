-- ===== src/Security/Clients.antt =====
-- src-tauri/src/bin/kwik_helper/security.rs: who is let in by `authenticate_client`, and with pipe.rs, whose
-- requests are dispatched. What Windows says of the client's process is given.
use mathlib.Core.Path.{ap, subst}
use kwik_proxy_secure.Dispatch.{Client}
use kwik_proxy_secure.Prelude.{
  ℕ, Text, text_eq, to_ascii_lowercase, any, Bool, true, false, not, ◌&&◌, List, Option, none, some,
  Result, ok, err, ◌>>=◌, ◌>>◌, ensure, ◌==◌, ◌≡◌, arith, ensure->>-ok, >>=-eq-ok,
}
use kwik_proxy_secure.Pipe
use kwik_proxy_secure.Pipe.{received}
use kwik_proxy_secure.Pipe.Framing.{Asks, received_iff}
use kwik_proxy_secure.Security.{Machine, Loaded, same_path}

-- The process at the other end of the pipe; a session comes with whether it is active.
pub record Process : Type 0 where
  pub pid : Option ℕ
  pub is_opened : Bool
  pub sid : Option Text
  pub session_id : Option ℕ
  pub sessions : Option (List (ℕ × Bool))
  pub image : Option Text

pub data Refusal : Type 0 where
  no_pid no_process no_sid wrong_sid no_session not_interactive no_image wrong_image : Refusal

abbrev pub or_refuse : {A : Type 0} → Refusal → Option A → Result Refusal A
or_refuse e none = err e
or_refuse e (some a) = ok a

abbrev ok_or : {A : Type 0} → A → Result Refusal A → A
ok_or b (err x) = b
ok_or b (ok x) = x

-- A result seen as an option, the other way.
abbrev some_or : {A : Type 0} → A → Result Refusal A → Option A
some_or b (err x) = some b
some_or b (ok x) = some x

abbrev some_client : Client → Option Client → Result Refusal Client
some_client d none = ok d
some_client d (some c) = ok c

abbrev pub is_active_at : ℕ → ℕ × Bool → Bool
is_active_at id (session, active) = session == id && active

module _ (m : Machine) (i : Loaded) where
  unfoldable pub authenticate_client : Process → Result Refusal Client
  unfolding same_path text_eq to_ascii_lowercase
  authenticate_client p = do
    pid ← or_refuse no_pid p.pid
    ensure (not (pid == 0)) no_pid
    ensure p.is_opened no_process
    sid ← or_refuse no_sid p.sid
    ensure (text_eq (to_ascii_lowercase sid) (to_ascii_lowercase i.manifest.owner_sid)) wrong_sid
    session ← or_refuse no_session p.session_id
    ensure (not (session == 0)) not_interactive
    sessions ← or_refuse no_session p.sessions
    ensure (any (is_active_at session) sessions) not_interactive
    image ← or_refuse no_image p.image
    ensure (same_path m image i.ui_path) wrong_image
    ok (record { session_id = session; pid = pid })

  abbrev pub let_in : Result Refusal Client → Option Client
  let_in (err e) = none
  let_in (ok c) = some c

  -- `handle_client` up to the dispatch, with the authentication.
  abbrev pub request_of :
      {Request : Type 0}
      → (List ℕ → Option Request)
      → Process
      → Option (List ℕ)
      → Result Pipe.Error (Client × Request)
  request_of json p sent = received json (let_in (authenticate_client p)) sent

  -- The process is the protected user interface, run by the owner in an active session that is not the
  -- services'.
  pub record IsOwnersUi (p : Process) (c : Client) : Type 0 where
    pub same_pid : p.pid ≡ some c.pid
    pub sid : Text
    pub has_sid : p.sid ≡ some sid
    pub is_owner : text_eq (to_ascii_lowercase sid) (to_ascii_lowercase i.manifest.owner_sid) ≡ true
    pub same_session : p.session_id ≡ some c.session_id
    pub not_services : (c.session_id == 0) ≡ false
    pub sessions : List (ℕ × Bool)
    pub all_sessions : p.sessions ≡ some sessions
    pub is_active : any (is_active_at c.session_id) sessions ≡ true
    pub image : Text
    pub has_image : p.image ≡ some image
    pub is_ui : same_path m image i.ui_path ≡ true

  or_refuse-ok :
      {A : Type 0} (e : Refusal) (o : Option A) (a : A) → or_refuse e o ≡ ok a → o ≡ some a
  or_refuse-ok e none a h = cc
  or_refuse-ok e (some b) a h = ap (some_or b) h

  authenticated_lem : (p : Process) (c : Client) → authenticate_client p ≡ ok c → IsOwnersUi p c
  unfolding authenticate_client
  authenticated_lem p c h =
      let (pid, has_pid, h1) = >>=-eq-ok (or_refuse no_pid p.pid) _ h in
      let (nonzero, h2) = ensure->>-ok (not (pid == 0)) no_pid _ h1 in
      let (running, h3) = ensure->>-ok p.is_opened no_process _ h2 in
      let (sid, has_sid, h4) = >>=-eq-ok (or_refuse no_sid p.sid) _ h3 in
      let (owner, h5) =
        ensure->>-ok (text_eq (to_ascii_lowercase sid) (to_ascii_lowercase i.manifest.owner_sid))
          wrong_sid _ h4 in
      let (session, has_session, h6) = >>=-eq-ok (or_refuse no_session p.session_id) _ h5 in
      let (user, h7) = ensure->>-ok (not (session == 0)) not_interactive _ h6 in
      let (sessions, listed, h8) = >>=-eq-ok (or_refuse no_session p.sessions) _ h7 in
      let (active, h9) = ensure->>-ok (any (is_active_at session) sessions) not_interactive _ h8 in
      let (image, has_image, h10) = >>=-eq-ok (or_refuse no_image p.image) _ h9 in
      let (ui, h11) = ensure->>-ok (same_path m image i.ui_path) wrong_image _ h10 in
      subst (IsOwnersUi p) (ap (ok_or (record { session_id = session; pid = pid })) h11) (record {
        same_pid = or_refuse-ok no_pid p.pid pid has_pid;
        sid = sid;
        has_sid = or_refuse-ok no_sid p.sid sid has_sid;
        is_owner = owner;
        same_session = or_refuse-ok no_session p.session_id session has_session;
        not_services = ground (arith, user);
        sessions = sessions;
        all_sessions = or_refuse-ok no_session p.sessions sessions listed;
        is_active = active;
        image = image;
        has_image = or_refuse-ok no_image p.image image has_image;
        is_ui = ui;
      })

  let_in-some : (r : Result Refusal Client) (c : Client) → let_in r ≡ some c → r ≡ ok c
  let_in-some (err e) c h = cc
  let_in-some (ok d) c h = ap (some_client d) h

  -- A request that reaches the dispatch was asked for, in one bounded line, by the protected user
  -- interface that the owner of the installation runs in an active session other than that of the
  -- services, and it is dispatched with the session and the process of that client.
  pub request_of-IsOwnersUi :
      {Request : Type 0} (json : List ℕ → Option Request) (p : Process) (sent : Option (List ℕ))
      (c : Client) (request : Request)
      → request_of json p sent ≡ ok (c, request)
      → IsOwnersUi p c × ((bytes : List ℕ) × (sent ≡ some bytes) × Asks json request bytes)
  request_of-IsOwnersUi json p sent c request h =
      let (known, asks) = (received_iff json c request (let_in (authenticate_client p)) sent).0 h in
      (authenticated_lem p c (let_in-some (authenticate_client p) c known), asks)
