-- ===== src/Tun.antt =====
-- src-tauri/src/bin/kwik_helper/tun.rs and `luid_from_index` of routing.rs: finding the TUN adapter
-- that this product owns, and waiting for it to go. Each look at the adapter table is numbered, and
-- `Adapters` says what it shows; a `spawn_blocking` task is taken not to panic.
pub mod Waiting
pub mod Identity
use kwik_proxy_secure.Net.{Std}
use kwik_proxy_secure.Prelude.{
  ℕ, zero, suc, ◌+◌, Text, codes, text_eq, starts_with, len, is_ascii_lowercase, is_ascii_digit,
  Bool, true, false, not, ◌&&◌, ◌||◌, List, [], ◌∷◌, Option, none, some, Result, ok, err, ◌>>=◌,
  ◌>>◌, ensure, if◌then◌else◌, ◌==◌, leb, ltb, all, any, keep, is_some, ◌≡◌,
}

abbrev pub tun_name_prefix : Text
tun_name_prefix = codes "kwikproxy-secure-"

-- `IF_OPER_STATUS_UP`, the attempts of the readiness search, and the wait of a cleanup in ms.
abbrev pub if_oper_status_up : ℕ
if_oper_status_up = 1

abbrev pub max_attempts : ℕ
max_attempts = 50

abbrev pub removal_wait : ℕ
removal_wait = 2000

-- A row of `GetIfTable2`; the alias is the UTF-16 buffer.
pub record IfRow : Type 0 where
  pub if_index : ℕ
  pub luid : ℕ
  pub oper_status : ℕ
  pub alias : List ℕ

-- What Windows answers at the k-th look: the table, the LUID of an index, and the milliseconds
-- since the operation began.
pub record Adapters : Type 0 where
  pub table : ℕ → Option (List IfRow)
  pub luid_of_index : ℕ → ℕ → Option ℕ
  pub elapsed : ℕ → ℕ

pub data Error : Type 0 where
  table_failed luid_failed no_alias wrong_prefix ambiguous_alias identity_changed : Error
  did_not_appear invalid_device still_present stalled : Error

pub record TunCandidate : Type 0 where
  pub if_index : ℕ
  pub luid : ℕ
  pub alias : Text

pub record OwnedTunInterface : Type 0 where
  pub if_index : ℕ
  pub luid : ℕ

-- `buf[..len]`, up to the first NUL.
unfoldable pub until_nul : List ℕ → List ℕ
until_nul [] = []
until_nul (c ∷ cs) = let rest = until_nul cs in if c == 0 then [] else c ∷ rest

abbrev pub or_fail : {A : Type 0} → Error → Option A → Result Error A
or_fail e none = err e
or_fail e (some a) = ok a

module _ (std : Std) where
  unfoldable pub wide_z_to_string : List ℕ → Text
  unfolding until_nul
  wide_z_to_string buf = std.from_wide_lossy (until_nul buf)

  -- The loop of `scan_owned_interfaces`.
  unfoldable pub owned_rows : List IfRow → List TunCandidate
  unfolding wide_z_to_string starts_with
  owned_rows [] = []
  owned_rows (entry ∷ entries) =
      let rest = owned_rows entries in
      let alias = wide_z_to_string entry.alias in
      if (entry.oper_status == if_oper_status_up) && starts_with alias tun_name_prefix
      then record { if_index = entry.if_index; luid = entry.luid; alias = alias } ∷ rest
      else rest

  module _ (os : Adapters) where
    unfoldable pub scan_owned_interfaces : ℕ → Result Error (List TunCandidate)
    unfolding owned_rows
    scan_owned_interfaces k = do
      entries ← or_fail table_failed (os.table k)
      ok (owned_rows entries)

    unfoldable pub luid_from_index : ℕ → ℕ → Result Error ℕ
    luid_from_index k if_index = or_fail luid_failed (os.luid_of_index k if_index)

    unfoldable pub verify_candidate_identity : TunCandidate → ℕ → Result Error OwnedTunInterface
    verify_candidate_identity candidate converted_luid =
        if candidate.if_index == 0 || candidate.luid == 0 || not (converted_luid == candidate.luid)
        then err identity_changed
        else ok (record { if_index = candidate.if_index; luid = candidate.luid })

    -- The two calls of `matches.next()`.
    unfoldable pub single_match : ℕ → List TunCandidate → Result Error (Option OwnedTunInterface)
    unfolding luid_from_index verify_candidate_identity
    single_match k [] = ok none
    single_match k (candidate ∷ []) = do
      converted_luid ← luid_from_index k candidate.if_index
      identity ← verify_candidate_identity candidate converted_luid
      ok (some identity)
    single_match k (candidate ∷ other ∷ rest) = err ambiguous_alias

    unfoldable pub find_owned_tun_interface : ℕ → Text → Result Error (Option OwnedTunInterface)
    unfolding scan_owned_interfaces single_match keep text_eq
    find_owned_tun_interface k expected_alias = do
      candidates ← scan_owned_interfaces k
      single_match k (keep (λ candidate. text_eq candidate.alias expected_alias) candidates)

    -- The retry loop of `current_tun_interface_index`, by the attempts that are left.
    unfoldable pub search_attempts : ℕ → ℕ → Text → Result Error (Option OwnedTunInterface)
    unfolding find_owned_tun_interface
    search_attempts zero attempt alias = err did_not_appear
    search_attempts (suc left) attempt alias =
        let later = search_attempts left (attempt + 1) alias in
        find_owned_tun_interface attempt alias >>= λ found. elim found [
          | some interface ↦ ok (some interface)
          | none ↦ later
        ]

    unfoldable pub current_tun_interface_index :
        Bool → Option Text → Result Error (Option OwnedTunInterface)
    unfolding search_attempts
    current_tun_interface_index false expected_alias = ok none
    current_tun_interface_index true expected_alias = do
      alias ← or_fail no_alias expected_alias
      ensure (starts_with alias tun_name_prefix) wrong_prefix
      search_attempts max_attempts 0 alias

    unfoldable pub owned_tun_interface_ready : ℕ → Text → Bool
    unfolding find_owned_tun_interface starts_with
    owned_tun_interface_ready k alias =
        if starts_with alias tun_name_prefix
        then elim (find_owned_tun_interface k alias) [ err e ↦ false | ok found ↦ is_some found ]
        else false

    unfoldable pub owned_alias_exists : Text → ℕ → Result Error Bool
    unfolding wide_z_to_string text_eq
    owned_alias_exists expected_alias k = do
      entries ← or_fail table_failed (os.table k)
      ok (any (λ entry. text_eq (wide_z_to_string entry.alias) expected_alias) entries)

    unfoldable pub owned_prefix_exists : ℕ → Result Error Bool
    unfolding wide_z_to_string starts_with
    owned_prefix_exists k = do
      entries ← or_fail table_failed (os.table k)
      ok (any (λ entry. starts_with (wide_z_to_string entry.alias) tun_name_prefix) entries)

    abbrev pub cleanup_if_present :
        Result Error Bool → Result Error (Unit {0}) → Result Error (Unit {0})
    cleanup_if_present presence_check backend = do
      present ← presence_check
      if present then backend else ok tt

    -- The loop that both cleanups share: look, return, give up at the deadline, or sleep 100 ms.
    -- `stalled` stands for running out of fuel.
    unfoldable pub await_absence : ℕ → ℕ → (ℕ → Result Error Bool) → Result Error (Unit {0})
    await_absence zero k look = err stalled
    await_absence (suc fuel) k look =
        let later = await_absence fuel (k + 1) look in
        look k >>= λ present.
        if not present
        then ok tt
        else if leb removal_wait (os.elapsed k)
        then cleanup_if_present (ok true) (err still_present)
        else later

    unfoldable pub cleanup_orphan_resources : ℕ → Result Error (Unit {0})
    unfolding await_absence owned_prefix_exists
    cleanup_orphan_resources fuel = await_absence fuel 0 owned_prefix_exists

    abbrev pub device_byte : ℕ → Bool
    device_byte c = is_ascii_lowercase c || is_ascii_digit c || c == b'-'

    unfoldable pub cleanup_owned_device : ℕ → Text → Result Error (Unit {0})
    unfolding await_absence owned_alias_exists starts_with len
    cleanup_owned_device fuel name =
        if not (starts_with name tun_name_prefix) || ltb 96 (len name) || not (all device_byte name)
        then err invalid_device
        else await_absence fuel 0 (owned_alias_exists name)
