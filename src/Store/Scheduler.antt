-- ===== src/Store/Scheduler.antt =====
-- src-tauri/src/config/routing_store.rs: one tick of the scheduler that refreshes the profiles that come
-- from a URL. The lock is not held while a profile is downloaded, so other operations may come in
-- between; the update of the geofiles touches neither the store nor its directory.
use kwik_proxy_secure.Prelude.{
  min, max, ℕ, ◌+◌, ◌-◌, ◌*◌, ◌^◌, Text, List, [], ◌∷◌, Option, none, some, if◌then◌else◌, ltb,
}
use kwik_proxy_secure.Profile.{
  RoutingProfile, RoutingProfileEntry, ProfileSource, static, autorouting,
}
use kwik_proxy_secure.Store.{RoutingStore, Disk, Os, EntryCodec}
use kwik_proxy_secure.Store.Effects.{Op, update_op, run_op}

-- `saturating_add` on `u64`.
abbrev pub saturating_add : ℕ → ℕ → ℕ
saturating_add a b = min (a + b) (2 ^ 64 - 1)

abbrev pub interval_secs : ℕ → ℕ
interval_secs hours = max hours 1 * 3600

-- The seconds until an entry is due again; 0 when it is.
unfoldable pub next_due : ℕ → ℕ → RoutingProfileEntry → ℕ
next_due now hours e = saturating_add e.last_fetched_at (interval_secs hours) - now

-- What happens around one download: the profile if it comes, what others do before the lock is taken
-- again, and the system during the update.
pub record Refresh : Type 0 where
  pub fetched : Option RoutingProfile
  pub others : List (Os × Op)
  pub os : Os

abbrev pub State : Type 0
State = RoutingStore × Disk

unfoldable pub run_ops : EntryCodec → List (Os × Op) → State → State
unfolding run_op
run_ops c [] s = s
run_ops c ((os, op) ∷ ops) s = run_ops c ops (run_op c os op s.0 s.1)

-- The store, the directory and `min_next` after a refresh.
abbrev pub refresh : EntryCodec → Text → ℕ → Refresh → State × ℕ → State × ℕ
refresh c id hours r (s, next) =
    let s' = run_ops c r.others s in
    elim r.fetched [
      | none ↦ (s', min next 3600)
      | some p ↦ (run_op c r.os (update_op id p) s'.0 s'.1, min next (interval_secs hours))
    ]

-- One entry of the snapshot; one that is not due only bounds `min_next`.
abbrev pub tick_entry :
    EntryCodec → ℕ → Refresh → RoutingProfileEntry → ProfileSource → State × ℕ → State × ℕ
tick_entry c now around e static st = st
tick_entry c now around e (autorouting url hours) st =
    if ltb 0 (next_due now hours e)
    then (st.0, min st.1 (next_due now hours e))
    else refresh c e.id hours around st

-- The loop over the snapshot, with what happens around the download of each entry.
unfoldable pub refresh_entries :
    EntryCodec
    → ℕ
    → (RoutingProfileEntry → Refresh)
    → List RoutingProfileEntry
    → State × ℕ
    → State × ℕ
unfolding next_due run_ops
refresh_entries c now around [] st = st
refresh_entries c now around (e ∷ es) st =
    refresh_entries c now around es (tick_entry c now (around e) e e.source st)

unfoldable pub run_tick : EntryCodec → ℕ → (RoutingProfileEntry → Refresh) → State → State × ℕ
unfolding refresh_entries
run_tick c now around s = refresh_entries c now around s.0.entries (s, 3600)

-- `next_sleep.clamp(300, 3600)`.
abbrev pub sleep_secs : ℕ → ℕ
sleep_secs next = if ltb next 300 then 300 else if ltb 3600 next then 3600 else next
