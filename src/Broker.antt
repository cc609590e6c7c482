-- ===== src/Broker.antt =====
-- src-tauri/src/bin/kwik_helper/dispatch.rs: `ActiveOwner` and `BrokerState`, the record of which
-- session owns the privileged resources, and `Installation` of security.rs as far as it is used.
use kwik_proxy_secure.Prelude.{
  ℕ, Text, text_eq, Bool, true, false, not, ◌&&◌, ◌||◌, List, [], ◌∷◌, Option, none, some, Result,
  ok, err, if◌then◌else◌, ◌==◌, is_some, is_some_and,
}

pub record Installation : Type 0 where
  pub generation : Text
  pub ui_path : Text
  pub helper_path : Text
  pub mihomo_path : Text

unfoldable pub trusted_app_paths : Installation → List Text
trusted_app_paths i = i.ui_path ∷ i.helper_path ∷ i.mihomo_path ∷ []

pub record ActiveOwner : Type 0 where
  pub generation : Text
  pub session_id : ℕ
  pub last_pid : ℕ
  pub tunnel_active : Bool
  pub firewall_active : Bool
  pub tun_device : Option Text
  pub tunnel_pid : Option ℕ
  pub tunnel_instance_id : Option Text

pub record BrokerState : Type 0 where
  pub owner : Option ActiveOwner

-- The one error of the ownership checks.
pub data Foreign : Type 0 where
  foreign_owner : Foreign

unfoldable pub owner_matches : Text → ℕ → ActiveOwner → Bool
owner_matches generation session_id owner =
    owner.session_id == session_id && text_eq owner.generation generation

abbrev pub new_owner : Text → ℕ → ℕ → ActiveOwner
new_owner generation session_id pid = record {
  generation = generation;
  session_id = session_id;
  last_pid = pid;
  tunnel_active = false;
  firewall_active = false;
  tun_device = none;
  tunnel_pid = none;
  tunnel_instance_id = none;
}

-- `if let Some(owner) = state.owner.as_mut() { … }`.
abbrev pub map_owner : (ActiveOwner → ActiveOwner) → Option ActiveOwner → Option ActiveOwner
map_owner f none = none
map_owner f (some owner) = some (f owner)

abbrev pub with_owner : (ActiveOwner → ActiveOwner) → BrokerState → BrokerState
with_owner f state = record { owner = map_owner f state.owner }

unfoldable pub bind_owner : Text → ℕ → ℕ → Option ActiveOwner → Result Foreign (Option ActiveOwner)
unfolding owner_matches
bind_owner generation session_id pid none = ok (some (new_owner generation session_id pid))
bind_owner generation session_id pid (some owner) =
    if owner_matches generation session_id owner
    then ok (some (record owner { last_pid = pid }))
    else err foreign_owner

abbrev pub as_state : Result Foreign (Option ActiveOwner) → Result Foreign BrokerState
as_state (ok owner) = ok (record { owner = owner })
as_state (err e) = err e

unfoldable pub bind_or_verify : Installation → ℕ → ℕ → BrokerState → Result Foreign BrokerState
unfolding bind_owner
bind_or_verify installation session_id pid state =
    as_state (bind_owner installation.generation session_id pid state.owner)

unfoldable pub verify_if_active : Installation → ℕ → BrokerState → Bool
unfolding owner_matches
verify_if_active installation session_id state =
    not (is_some_and (λ o. not (owner_matches installation.generation session_id o)) state.owner)

abbrev pub owner_active : ActiveOwner → Bool
owner_active owner = owner.tunnel_active || owner.firewall_active || is_some owner.tun_device

unfoldable pub any_active : BrokerState → Bool
any_active state = is_some_and owner_active state.owner

unfoldable pub release_if_idle : BrokerState → BrokerState
release_if_idle state =
    if is_some_and (λ o. not o.tunnel_active && not o.firewall_active && not (is_some o.tun_device))
      state.owner
    then record { owner = none }
    else state

abbrev pub is_number : ℕ → Option ℕ → Bool
is_number n = is_some_and (λ m. m == n)

abbrev pub is_text : Text → Option Text → Bool
is_text t = is_some_and (λ s. text_eq s t)

abbrev pub ended : ActiveOwner → ActiveOwner
ended owner = record owner { tunnel_active = false; tunnel_pid = none; tunnel_instance_id = none }

abbrev pub is_exit_of : Text → ℕ → ℕ → Text → ActiveOwner → Bool
is_exit_of generation session_id pid instance_id owner =
    owner_matches generation session_id owner
    && is_number pid owner.tunnel_pid
    && is_text instance_id owner.tunnel_instance_id

unfoldable pub note_tunnel_exit : Text → ℕ → ℕ → Text → BrokerState → BrokerState × Bool
unfolding owner_matches
note_tunnel_exit generation session_id pid instance_id state =
    if is_some_and (is_exit_of generation session_id pid instance_id) state.owner
    then (with_owner ended state, true)
    else (state, false)

-- `cleanup_pending`, `firewall_active` and `device_owned`.
unfoldable pub runtime_status : Bool → BrokerState → Bool × Bool × Bool
runtime_status running state =
    let firewall_active = is_some_and (λ o. o.firewall_active) state.owner in
    let device_owned = is_some_and (λ o. is_some o.tun_device) state.owner in
    let tunnel_marked = is_some_and (λ o. o.tunnel_active) state.owner in
    (
      not running && (tunnel_marked || firewall_active || device_owned),
      firewall_active,
      device_owned,
    )
