-- ===== src/Store/Refreshing.antt =====
-- src-tauri/src/config/routing_store.rs: a tick of the scheduler is a history of operations of the store,
-- so that the store stays well formed; and what a tick does to each entry.
use mathlib.Core.Path.{subst}
use kwik_proxy_secure.Prelude.{
  ℕ, ◌≤◌, Text, List, [], ◌∷◌, Option, none, some, arith, inl, inr, Bool-cases, if◌then◌else◌, ltb,
}
use kwik_proxy_secure.Profile.{
  RoutingProfile, RoutingProfileEntry, ProfileSource, static, autorouting,
}
use kwik_proxy_secure.Store.{RoutingStore, Disk, Os, EntryCodec}
use kwik_proxy_secure.Store.Keys.{HasDistinctNames}
use kwik_proxy_secure.Store.Effects.{Op, update_op, run_op}
use kwik_proxy_secure.Store.Invariant.{IsUnused}
use kwik_proxy_secure.Store.Loading.{IsStore}
use kwik_proxy_secure.Store.Reached.{Reached, ran, Reached-IsStore}
use kwik_proxy_secure.Store.Scheduler.{
  next_due, Refresh, State, run_ops, refresh, tick_entry, refresh_entries, run_tick,
}

-- The fresh UUIDs of what others do are not in use.
abbrev pub AreUnused : EntryCodec → List (Os × Op) → State → Type 0
AreUnused c [] s = Unit
AreUnused c ((os, op) ∷ ops) s = IsUnused os op s.0 × AreUnused c ops (run_op c os op s.0 s.1)

module _ (c : EntryCodec) where
  abbrev Is : State → Type 0
  Is s = Reached c s.0 s.1

  run_ops-Reached :
      (ops : List (Os × Op)) (s : State) → AreUnused c ops s → Is s → Is (run_ops c ops s)
  unfolding run_ops
  run_ops-Reached [] s unused h = h
  run_ops-Reached ((os, op) ∷ ops) s unused h =
      run_ops-Reached ops (run_op c os op s.0 s.1) unused.1 (ran os op unused.0 h)

  -- After a refresh the store is one that operations reach, and `min_next` has not grown.
  refresh_lem :
      (id : Text) (hours : ℕ) (r : Refresh) (st : State × ℕ)
      → AreUnused c r.others st.0
      → Is st.0
      → Is (refresh c id hours r st).0 × ((refresh c id hours r st).1 ≤ st.1)
  refresh_lem id hours r (s, next) unused h = go r.fetched
    where
      reached : Is (run_ops c r.others s)
      reached = run_ops-Reached r.others s unused h

      go :
          (o : Option RoutingProfile)
          → Is (refresh c id hours (record r { fetched = o }) (s, next)).0
            × ((refresh c id hours (record r { fetched = o }) (s, next)).1 ≤ next)
      go none = (reached, ground arith)
      go (some p) = (ran r.os (update_op id p) tt reached, ground arith)

  -- What a tick needs of the others.
  abbrev pub IsQuiet : ℕ → Refresh → RoutingProfileEntry → ProfileSource → State × ℕ → Type 0
  IsQuiet now around e static st = Unit
  IsQuiet now around e (autorouting url hours) st =
      if ltb 0 (next_due now hours e) then Unit else AreUnused c around.others st.0

  abbrev pub AreQuiet :
      ℕ → (RoutingProfileEntry → Refresh) → List RoutingProfileEntry → State × ℕ → Type 0
  AreQuiet now around [] st = Unit
  AreQuiet now around (e ∷ es) st =
      IsQuiet now (around e) e e.source st
      × AreQuiet now around es (tick_entry c now (around e) e e.source st)

  tick_entry_lem :
      (now : ℕ) (around : Refresh) (e : RoutingProfileEntry) (src : ProfileSource) (st : State × ℕ)
      → IsQuiet now around e src st
      → Is st.0
      → Is (tick_entry c now around e src st).0 × ((tick_entry c now around e src st).1 ≤ st.1)
  tick_entry_lem now around e static st quiet h = (h, ground arith)
  tick_entry_lem now around e (autorouting url hours) st quiet h =
      elim (Bool-cases (ltb 0 (next_due now hours e))) [
        | inl waits ↦ rw (waits) (h, ground arith)
        | inr due ↦ rw (due) (
            refresh_lem e.id hours around st
              (subst (λ b. if b then Unit else AreUnused c around.others st.0) due quiet) h)
      ]

  refresh_entries_lem :
      (now : ℕ) (around : RoutingProfileEntry → Refresh) (es : List RoutingProfileEntry)
      (st : State × ℕ)
      → AreQuiet now around es st
      → Is st.0
      → Is (refresh_entries c now around es st).0 × ((refresh_entries c now around es st).1 ≤ st.1)
  unfolding refresh_entries
  refresh_entries_lem now around [] st quiet h = (h, ground arith)
  refresh_entries_lem now around (e ∷ es) st quiet h =
      let (reached, less) = tick_entry_lem now (around e) e e.source st quiet.0 h in
      let (reached', less') =
        refresh_entries_lem now around es (tick_entry c now (around e) e e.source st) quiet.1
          reached in
      (reached', ground (arith, less, less'))

  -- A tick, whatever each download gives, whatever each write does and whatever others do to the store
  -- while the lock is free, leaves a well-formed store and directory with distinct names, and asks to be
  -- woken within the hour.
  pub run_tick-IsStore :
      (now : ℕ) (around : RoutingProfileEntry → Refresh) (s : RoutingStore) (d : Disk)
      → Reached c s d
      → AreQuiet now around s.entries ((s, d), 3600)
      → IsStore c (run_tick c now around (s, d)).0.0
        × HasDistinctNames (run_tick c now around (s, d)).0.1.files
        × ((run_tick c now around (s, d)).1 ≤ 3600)
  unfolding run_tick
  run_tick-IsStore now around s d h quiet =
      let (reached, less) = refresh_entries_lem now around s.entries ((s, d), 3600) quiet h in
      let (good, names) = Reached-IsStore c _ _ reached in (good, names, less)
