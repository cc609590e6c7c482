-- ===== src/Mihomo/Readiness.antt =====
-- src-tauri/src/bin/kwik_helper/mihomo.rs: the readiness loop, and what a start that succeeds has
-- seen.
use mathlib.Core.Path.{subst}
use kwik_proxy_secure.Mihomo.{
  Host, Tunnel, StartedTunnel, ChildStatus, running, exited, unknown, Error, stalled,
  status_unknown, exited_early, not_ready, readiness_timeout, wait_for_child_readiness, launch,
  after_launch, start,
}
use kwik_proxy_secure.Mihomo.Config
use kwik_proxy_secure.Mihomo.Config.{Parsers}
use kwik_proxy_secure.Net.{Std}
use kwik_proxy_secure.Prelude.{
  Result-cases, inr, ◌∙◌, inl, ◌⊎◌, sym, Bool-cases, ℕ, zero, suc, ◌+◌, ◌*◌, ◌≤◌, ◌<◌, Text, Bool,
  true, false, ◌&&◌, Option, none, some, Result, ok, err, if◌then◌else◌, leb, ◌≡◌, ◌≢◌, refl, arith,
  is_some,
}
use kwik_proxy_secure.Tun.{owned_tun_interface_ready}
use kwik_proxy_secure.Tun.Waiting.{Sleeps}

module _ (std : Std) (host : Host) where
  abbrev is_ready : ℕ → Text → Bool
  is_ready k tun = host.controller k && owned_tun_interface_ready std host.adapters k tun

  -- One poll of the loop, by the status of the child.
  polled : ChildStatus → ℕ → Text → Result Error (Unit {0}) → Result Error (Unit {0})
  polled unknown k tun later = err status_unknown
  polled exited k tun later = err exited_early
  polled running k tun later =
      if is_ready k tun
      then ok tt
      else if leb readiness_timeout (host.adapters.elapsed k)
      then err not_ready
      else later

  wait_suc :
      (fuel k : ℕ) (tun : Text)
      → wait_for_child_readiness std host (suc fuel) k tun
        ≡ polled (host.status k) k tun (wait_for_child_readiness std host fuel (k + 1) tun)
  unfolding wait_for_child_readiness polled
  wait_suc fuel k tun = ground arith

  wait_zero : (k : ℕ) (tun : Text) → wait_for_child_readiness std host 0 k tun ≡ err stalled
  unfolding wait_for_child_readiness
  wait_zero k tun = refl

  -- At the poll the child ran, the controller answered and the adapter was up.
  pub record IsReady (k : ℕ) (tun : Text) : Type 0 where
    pub runs : host.status k ≡ running
    pub answers : host.controller k ≡ true
    pub has_adapter : owned_tun_interface_ready std host.adapters k tun ≡ true

  polled-IsReady :
      (s : ChildStatus) (k : ℕ) (tun : Text) (later : Result Error (Unit {0}))
      → host.status k ≡ s
      → polled s k tun later ≡ ok tt
      → (later ≡ ok tt → (j : ℕ) × IsReady j tun)
      → (j : ℕ) × IsReady j tun
  unfolding polled
  polled-IsReady unknown k tun later s e deeper = absurd (ground arith)
  polled-IsReady exited k tun later s e deeper = absurd (ground arith)
  polled-IsReady running k tun later s e deeper = elim (Bool-cases (is_ready k tun)) [
    | inl good ↦ (k, record { runs = s; answers = ground arith; has_adapter = ground arith })
    | inr bad ↦ deeper (ground arith)
  ]

  wait-IsReady :
      (fuel k : ℕ) (tun : Text)
      → wait_for_child_readiness std host fuel k tun ≡ ok tt
      → (j : ℕ) × IsReady j tun
  wait-IsReady zero k tun e = absurd (ground (arith, wait_zero k tun))
  wait-IsReady (suc fuel) k tun e =
      polled-IsReady (host.status k) k tun _ refl (sym (wait_suc fuel k tun) ∙ e)
        (wait-IsReady fuel (k + 1) tun)

  polled_ends :
      (s : ChildStatus) (k : ℕ) (tun : Text) (later : Result Error (Unit {0}))
      → (readiness_timeout ≤ host.adapters.elapsed k) ⊎ (later ≢ err stalled)
      → polled s k tun later ≢ err stalled
  unfolding polled
  polled_ends unknown k tun later e = ground arith
  polled_ends exited k tun later e = ground arith
  polled_ends running k tun later (inl late) = ground arith
  polled_ends running k tun later (inr deeper) = ground arith

  wait-ends :
      (left k : ℕ) (tun : Text)
      → Sleeps host.adapters
      → readiness_timeout ≤ host.adapters.elapsed k + left * 100
      → wait_for_child_readiness std host (suc left) k tun ≢ err stalled
  wait-ends zero k tun sleeps enough =
      subst (λ r. r ≢ err stalled) (sym (wait_suc zero k tun))
        (polled_ends (host.status k) k tun _ (inl (omega arith)))
  wait-ends (suc left) k tun sleeps enough =
      let pause = sleeps k in
      let later = wait-ends left (k + 1) tun sleeps (omega arith) in
      subst (λ r. r ≢ err stalled) (sym (wait_suc (suc left) k tun))
        (polled_ends (host.status k) k tun _ (inr later))

module _ (ps : Parsers) (std : Std) (host : Host) where
  launch-ends :
      (fuel : ℕ) (text : Text) (lan : Bool) (state : Option Tunnel)
      → ((tun : Text) → wait_for_child_readiness std host fuel 0 tun ≢ err stalled)
      → launch std host ps fuel text lan state ≢ err stalled
  unfolding launch
  launch-ends fuel text lan state waits =
      elim (Result-cases (Config.validate_privileged_config ps text lan)) [
        | inl (c, accepted) ↦ let ends = waits c.tun_device in ground arith
        | inr (x, failed) ↦ ground arith
      ]

  launch_lem :
      (fuel : ℕ) (text : Text) (lan : Bool) (state : Option Tunnel) (started : StartedTunnel)
      → launch std host ps fuel text lan state ≡ ok started
      → (state ≡ none)
        × (Config.validated_tun_device ps text lan ≡ ok started.tun_device)
        × (wait_for_child_readiness std host fuel 0 started.tun_device ≡ ok tt)
  unfolding launch Config.validated_tun_device
  launch_lem fuel text lan state started e =
      elim (Result-cases (Config.validate_privileged_config ps text lan)) [
        | inl (c, accepted) ↦
            let device : c.tun_device ≡ started.tun_device = ground arith in
            let waited : wait_for_child_readiness std host fuel 0 c.tun_device ≡ ok tt =
              ground arith in
            (
              no_state state (ground arith),
              ground arith,
              subst (λ t. wait_for_child_readiness std host fuel 0 t ≡ ok tt) device waited,
            )
        | inr (x, failed) ↦ absurd (ground arith)
      ]
    where
      no_state : (o : Option Tunnel) → is_some o ≡ false → o ≡ none
      no_state none e = refl
      no_state (some t) e = absurd (ground arith)

  after_launch_err :
      (session_id : ℕ) (generation : Text) (state : Option Tunnel) (r : Result Error StartedTunnel)
      → r ≢ err stalled
      → (after_launch session_id generation state r).1 ≢ err stalled
  unfolding after_launch
  after_launch_err session_id generation state (err x) h = h
  after_launch_err session_id generation state (ok s) h = h

  abbrev recorded : ℕ → Text → StartedTunnel → Tunnel
  recorded session_id generation started = record {
    pid = started.pid;
    session_id = session_id;
    generation = generation;
    tun_device = started.tun_device;
    instance_id = started.instance_id;
  }

  after_launch_ok :
      (session_id : ℕ) (generation : Text) (state state' : Option Tunnel)
      (r : Result Error StartedTunnel) (started : StartedTunnel)
      → after_launch session_id generation state r ≡ (state', ok started)
      → (r ≡ ok started) × (state' ≡ some (recorded session_id generation started))
  unfolding after_launch
  after_launch_ok session_id generation state state' (err x) started e = absurd (ground arith)
  after_launch_ok session_id generation state state' (ok s) started e = (ground arith, ground arith)

  -- With 101 polls or more, which the pauses of 100 ms make enough for the ten seconds of the
  -- deadline, a start never runs out of fuel, whatever the child and Windows do.
  pub start-ends :
      (fuel session_id : ℕ) (text generation : Text) (lan : Bool) (state : Option Tunnel)
      → Sleeps host.adapters
      → 100 < fuel
      → (start std host ps fuel text lan session_id generation state).1 ≢ err stalled
  unfolding start
  start-ends fuel session_id text generation lan state sleeps enough =
      after_launch_err session_id generation state (launch std host ps fuel text lan state)
        (launch-ends fuel text lan state (λ tun. waits fuel tun enough))
    where
      waits :
          (n : ℕ) (tun : Text) → 100 < n → wait_for_child_readiness std host n 0 tun ≢ err stalled
      waits zero tun more = absurd (omega arith)
      waits (suc left) tun more = wait-ends std host left 0 tun sleeps (omega arith)

  -- A start that succeeds found no tunnel, and at one poll saw the child run, its controller answer
  -- and the adapter of the accepted configuration up; it records the tunnel under the caller's
  -- session and generation.
  pub start-IsReady :
      (fuel session_id : ℕ) (text generation : Text) (lan : Bool) (state state' : Option Tunnel)
      (started : StartedTunnel)
      → start std host ps fuel text lan session_id generation state ≡ (state', ok started)
      → (state ≡ none)
        × (Config.validated_tun_device ps text lan ≡ ok started.tun_device)
        × ((k : ℕ) × IsReady std host k started.tun_device)
        × (state' ≡ some (recorded session_id generation started))
  unfolding start
  start-IsReady fuel session_id text generation lan state state' started e =
      let (launched, stored) =
        after_launch_ok session_id generation state state' (launch std host ps fuel text lan state)
          started e in
      let (idle, device, waited) = launch_lem fuel text lan state started launched in
      (idle, device, wait-IsReady std host fuel 0 started.tun_device waited, stored)
