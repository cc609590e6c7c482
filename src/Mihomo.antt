-- ===== src/Mihomo.antt =====
-- src-tauri/src/bin/kwik_helper/mihomo.rs: the lifecycle of the SYSTEM Mihomo child. The global
-- `STATE` is an `Option Tunnel`; what the files, the process and the clock answer during one call
-- is the record `Host`. A call is one step: the code holds the lock of `STATE` through it, but for the check of
-- `stop_owned`, after which only the exit monitor may come in between.
pub mod Config
pub mod Stopping
pub mod Accepted
pub mod Readiness
use kwik_proxy_secure.Net.{Std}
use kwik_proxy_secure.Prelude.{
  ℕ, zero, suc, ◌+◌, ◌*◌, Text, text_eq, len, Bool, true, false, not, ◌&&◌, ◌||◌, List, [], ◌∷◌,
  Option, none, some, Result, ok, err, ◌>>=◌, ◌>>◌, ensure, if◌then◌else◌, ◌==◌, leb, ltb, any,
  is_some,
}
use kwik_proxy_secure.Tun
use kwik_proxy_secure.Tun.{Adapters}
use Config
use Config.{Parsers, ValidatedConfig}

abbrev pub max_config_bytes : ℕ
max_config_bytes = 1400 * 1024

-- `READINESS_TIMEOUT`, in milliseconds.
abbrev pub readiness_timeout : ℕ
readiness_timeout = 10000

pub record Tunnel : Type 0 where
  pub pid : ℕ
  pub session_id : ℕ
  pub generation : Text
  pub tun_device : Text
  pub instance_id : Text

pub record StartedTunnel : Type 0 where
  pub tun_device : Text
  pub pid : ℕ
  pub instance_id : Text

-- What `try_wait` reports of the child.
pub data ChildStatus : Type 0 where
  running exited unknown : ChildStatus

-- How `child.wait()` ends under its three-second timeout.
pub data WaitStatus : Type 0 where
  reaped wait_failed wait_timeout : WaitStatus

pub data Error : Type 0 where
  config_too_large config_has_nul already_running no_runtime_dir geofiles_failed : Error
  config_write_failed log_failed job_failed spawn_failed no_process_handle assign_failed : Error
  status_unknown exited_early not_ready stalled foreign_tunnel kill_failed wait_error : Error
  stop_timeout : Error
  bad_config : Config.Error → Error

-- `status k`, `controller k` and the clock of `adapters` are those of the k-th readiness poll.
pub record Host : Type 0 where
  pub runtime_dir : Bool
  pub geofiles : Bool
  pub config_written : Bool
  pub log_opened : Bool
  pub job_created : Bool
  pub spawned : Option ℕ
  pub process_handle : Bool
  pub job_assigned : Bool
  pub status : ℕ → ChildStatus
  pub controller : ℕ → Bool
  pub adapters : Adapters
  pub instance_id : Text
  pub kill : Bool
  pub wait : WaitStatus

abbrev pub lift_config : {A : Type 0} → Result Config.Error A → Result Error A
lift_config (ok a) = ok a
lift_config (err e) = err (bad_config e)

abbrev pub or_fail : {A : Type 0} → Error → Option A → Result Error A
or_fail e none = err e
or_fail e (some a) = ok a

abbrev pub is_alive : ChildStatus → Bool
is_alive running = true
is_alive exited = false
is_alive unknown = false

-- A start that fails has killed its child and leaves `STATE` as it was.
unfoldable pub after_launch :
    ℕ
    → Text
    → Option Tunnel
    → Result Error StartedTunnel
    → Option Tunnel × Result Error StartedTunnel
after_launch session_id generation state (err e) = (state, err e)
after_launch session_id generation state (ok started) = (
  some (record {
    pid = started.pid;
    session_id = session_id;
    generation = generation;
    tun_device = started.tun_device;
    instance_id = started.instance_id;
  }),
  ok started,
)

-- `kill().await`, then `wait()` under a timeout.
unfoldable pub after_kill : Bool → WaitStatus → Tunnel → Option Tunnel × Result Error (Unit {0})
after_kill false w active = (some active, err kill_failed)
after_kill true reaped active = (none, ok tt)
after_kill true wait_failed active = (some active, err wait_error)
after_kill true wait_timeout active = (some active, err stop_timeout)

abbrev pub owned_by : ℕ → Text → Tunnel → Bool
owned_by session_id generation active =
    active.session_id == session_id && text_eq active.generation generation

unfoldable pub after_status : Host → ChildStatus → Tunnel → Option Tunnel × Result Error (Unit {0})
unfolding after_kill
after_status host unknown active = (some active, err status_unknown)
after_status host exited active = (none, ok tt)
after_status host running active = after_kill host.kill host.wait active

module _ (std : Std) (host : Host) where
  -- The readiness loop; `stalled` stands for running out of fuel.
  unfoldable pub wait_for_child_readiness : ℕ → ℕ → Text → Result Error (Unit {0})
  wait_for_child_readiness zero k tun = err stalled
  wait_for_child_readiness (suc fuel) k tun =
      let later = wait_for_child_readiness fuel (k + 1) tun in
      elim (host.status k) [
        | unknown ↦ err status_unknown
        | exited ↦ err exited_early
        | running ↦
            if host.controller k && Tun.owned_tun_interface_ready std host.adapters k tun
            then ok tt
            else if leb readiness_timeout (host.adapters.elapsed k)
            then err not_ready
            else later
      ]

  -- From the checks of the configuration to the process in its job.
  unfoldable pub launch : Parsers → ℕ → Text → Bool → Option Tunnel → Result Error StartedTunnel
  launch ps fuel config_yaml allow_lan state = do
    ensure (not (ltb max_config_bytes (len config_yaml))) config_too_large
    ensure (not (any (λ c. c == 0) config_yaml)) config_has_nul
    validated ← lift_config (Config.validate_privileged_config ps config_yaml allow_lan)
    ensure (not (is_some state)) already_running
    ensure host.runtime_dir no_runtime_dir
    ensure host.geofiles geofiles_failed
    ensure host.config_written config_write_failed
    ensure host.log_opened log_failed
    ensure host.job_created job_failed
    pid ← or_fail spawn_failed host.spawned
    ensure host.process_handle no_process_handle
    ensure host.job_assigned assign_failed
    wait_for_child_readiness fuel 0 validated.tun_device
    ok (record { tun_device = validated.tun_device; pid = pid; instance_id = host.instance_id })

  unfoldable pub start :
      Parsers
      → ℕ
      → Text
      → Bool
      → ℕ
      → Text
      → Option Tunnel
      → Option Tunnel × Result Error StartedTunnel
  start ps fuel config_yaml allow_lan session_id generation state =
      after_launch session_id generation state (launch ps fuel config_yaml allow_lan state)

  unfoldable pub stop : Option Tunnel → Option Tunnel × Result Error (Unit {0})
  unfolding after_status
  stop none = (none, ok tt)
  stop (some active) = after_status host (host.status 0) active

  unfoldable pub stop_owned : ℕ → Text → Option Tunnel → Option Tunnel × Result Error (Unit {0})
  unfolding stop
  stop_owned session_id generation none = stop none
  stop_owned session_id generation (some active) =
      if owned_by session_id generation active
      then stop (some active)
      else (some active, err foreign_tunnel)

  unfoldable pub is_running : Option Tunnel → Bool
  is_running none = false
  is_running (some active) = is_alive (host.status 0)

-- One round of the exit monitor of a tunnel: whether the thread ends, and whether it saw the exit.
pub data MonitorRound : Type 0 where
  gone : MonitorRound
  exit_observed : MonitorRound
  still_running : MonitorRound

abbrev pub is_same : Tunnel → Tunnel → Bool
is_same a b =
    a.pid == b.pid
    && a.session_id == b.session_id
    && text_eq a.generation b.generation
    && text_eq a.instance_id b.instance_id

unfoldable pub monitor : Host → Tunnel → Option Tunnel → Option Tunnel × MonitorRound
monitor host watched none = (none, gone)
monitor host watched (some active) =
    if not (is_same active watched)
    then (some active, gone)
    else if is_alive (host.status 0)
    then (some active, still_running)
    else (none, exit_observed)
