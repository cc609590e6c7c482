-- ===== src/Store/Names.antt =====
-- src-tauri/src/config/routing_store.rs: that each operation keeps the names of the files distinct.
use kwik_proxy_secure.Store.Changes.{delete_file-HasDistinctNames, put_file-HasDistinctNames}
use mathlib.Core.Path.{subst}
use kwik_proxy_secure.Prelude.{
  if-holds, Text, any, not, Option, none, some, Result, ok, err, ◌≡◌, refl, sym, arith, length,
  ◌==◌,
}
use kwik_proxy_secure.Profile
use kwik_proxy_secure.Profile.{
  Codec, RoutingProfile, RoutingProfileEntry, ProfileSource, static, autorouting, validate,
  validate_entry, new_entry, check_source, bad_id,
}
use kwik_proxy_secure.Store
use kwik_proxy_secure.Store.{
  without_active, activated, remove_entry_file, after_deactivate, RoutingStore, Disk, Os,
  EntryCodec, After, Written, written, broken, has_id, retain_others, change_entry, stamp,
  refreshed, load, persist_entry, persist_active, add, add_checked, remove, set_active,
  update_profile, update_checked, write_entry, write_file, write_active, pushed, retained,
  is_active, changed, put_file, delete_file, left_file, find_entry, after_persist,
}
use kwik_proxy_secure.Store.Keys.{HasDistinctNames}
use kwik_proxy_secure.Store.Effects.{Op, add_op, remove_op, set_active_op, update_op, run_op}

module _ (c : EntryCodec) where
  abbrev Named : Disk × Result Store.Error (Unit {0}) → Type 0
  Named w = HasDistinctNames w.0.files

  written-names :
      (w : Written) (name text : Text) (d : Disk)
      → HasDistinctNames d.files
      → HasDistinctNames (write_file c w name text d).0.files
  written-names written name text d h = put_file-HasDistinctNames name text d.files h
  written-names (broken none) name text d h = h
  written-names (broken (some t)) name text d h = put_file-HasDistinctNames name t d.files h

  persist_entry-names :
      (os : Os) (id : Text) (s : RoutingStore) (d : Disk)
      → HasDistinctNames d.files
      → HasDistinctNames (persist_entry c os id s d).0.files
  unfolding persist_entry
  persist_entry-names os id s d h =
      if-holds Named (not os.has_dir) _ _ (λ e. h)
        (λ e.
          if-holds Named (not os.dir_created) _ _ (λ e'. h) (λ e'. go (find_entry id s.entries)))
    where
      go : (o : Option RoutingProfileEntry) → Named (write_entry c os id o d)
      go none = h
      go (some e) = written-names os.write id (c.to_json e) d h

  write_active-files :
      (os : Os) (o : Option Text) (d : Disk) → (write_active c os o d).0.files ≡ d.files
  write_active-files os none d = ground arith
  write_active-files os (some id) d = go os.write
    where
      go :
          (w : Written)
          → (elim w as (λ w. Disk × Result Store.Error (Unit {0})) [
            | written ↦ (record d { active = some id }, ok tt)
            | broken left ↦ (record d { active = left }, err Store.write_failed)
          ]).0.files
            ≡ d.files
      go written = refl
      go (broken left) = refl

  pub persist_active-files :
      (os : Os) (s : RoutingStore) (d : Disk) → (persist_active c os s d).0.files ≡ d.files
  unfolding persist_active
  persist_active-files os s d =
      if-holds (λ (w : Disk × Result Store.Error (Unit {0})). w.0.files ≡ d.files) (not os.has_dir)
        _ _ (λ e. refl)
        (λ e.
          if-holds (λ (w : Disk × Result Store.Error (Unit {0})). w.0.files ≡ d.files)
            (not os.dir_created) _ _ (λ e'. refl) (λ e'. write_active-files os s.active_id d))

module _ (c : EntryCodec) (os : Os) where
  after_persist-disk :
      {A : Type 0} (a : A) (s : RoutingStore) (w : Disk × Result Store.Error (Unit {0}))
      → (after_persist a s w).disk ≡ w.0
  after_persist-disk a s (d, ok _) = refl
  after_persist-disk a s (d, err e) = refl

  remove_entry_file-names :
      (id : Text) (s : RoutingStore) (d : Disk)
      → HasDistinctNames d.files
      → HasDistinctNames (remove_entry_file c os id s d).disk.files
  remove_entry_file-names id s d h =
      if-holds (λ (a : After (Unit {0})). HasDistinctNames a.disk.files) (not os.has_dir) _ _
        (λ e. h)
        (λ e.
          if-holds (λ (x : Disk). HasDistinctNames x.files) os.removed _ _
            (λ e'. delete_file-HasDistinctNames id d.files h) (λ e'. h))

  deactivated-names :
      (id : Text) (s : RoutingStore) (w : Disk × Result Store.Error (Unit {0}))
      → HasDistinctNames w.0.files
      → HasDistinctNames (after_deactivate c os id s w).disk.files
  deactivated-names id s (d, err e) h = h
  deactivated-names id s (d, ok _) h = remove_entry_file-names id s d h

  persisted-names :
      {A : Type 0} (a : A) (s : RoutingStore) (w : Disk × Result Store.Error (Unit {0}))
      → HasDistinctNames w.0.files
      → HasDistinctNames (after_persist a s w).disk.files
  persisted-names a s w h = subst (λ x. HasDistinctNames x.files) (sym (after_persist-disk a s w)) h

  activating-names :
      (s : RoutingStore) (d : Disk)
      → HasDistinctNames d.files
      → HasDistinctNames (persist_active c os s d).0.files
  activating-names s d h = subst HasDistinctNames (sym (persist_active-files c os s d)) h

  added-names :
      (e : RoutingProfileEntry) (r : Result Profile.Error (Unit {0})) (s : RoutingStore) (d : Disk)
      → HasDistinctNames d.files
      → HasDistinctNames (add_checked c os e r s d).disk.files
  added-names e (err x) s d h = h
  added-names e (ok _) s d h = persisted-names _ _ _ (persist_entry-names c os _ _ d h)

  updated-names :
      (id : Text) (p : RoutingProfile) (r : Result Profile.Error (Unit {0})) (s : RoutingStore)
      (d : Disk)
      → HasDistinctNames d.files
      → HasDistinctNames (update_checked c os id p r s d).disk.files
  updated-names id p (err x) s d h = h
  updated-names id p (ok _) s d h =
      if-holds (λ (a : After (Unit {0})). HasDistinctNames a.disk.files)
        (not (any (has_id id) s.entries)) _ _ (λ e. h)
        (λ e. persisted-names _ _ _ (persist_entry-names c os _ _ d h))

  activated-names :
      (id : Option Text) (s : RoutingStore) (d : Disk)
      → HasDistinctNames d.files
      → HasDistinctNames
          (after_persist tt
            (activated c os id s)
            (persist_active c os (activated c os id s) d)).disk.files
  activated-names id s d h =
      persisted-names tt (activated c os id s) (persist_active c os (activated c os id s) d)
        (activating-names (activated c os id s) d h)

  pub run_op-HasDistinctNames :
      (op : Op) (s : RoutingStore) (d : Disk)
      → HasDistinctNames d.files
      → HasDistinctNames (run_op c os op s d).1.files
  unfolding run_op add remove set_active update_profile
  run_op-HasDistinctNames (add_op p src) s d h = added-names _ (validate_entry c.codec _) s d h
  run_op-HasDistinctNames (remove_op id) s d h =
      if-holds (λ (a : After (Unit {0})). HasDistinctNames a.disk.files)
        (length (retain_others id s.entries) == length s.entries) _ _ (λ e. h)
        (λ e.
          if-holds (λ (a : After (Unit {0})). HasDistinctNames a.disk.files) (is_active c os id s) _
            _
            (λ e'.
              deactivated-names id (without_active c os (retained c os id s))
                (persist_active c os (without_active c os (retained c os id s)) d)
                (activating-names (without_active c os (retained c os id s)) d h))
            (λ e'. remove_entry_file-names id _ d h))
  run_op-HasDistinctNames (set_active_op none) s d h = activated-names none s d h
  run_op-HasDistinctNames (set_active_op (some id)) s d h =
      if-holds (λ (a : After (Unit {0})). HasDistinctNames a.disk.files)
        (not (any (has_id id) s.entries)) _ _ (λ e. h) (λ e. activated-names (some id) s d h)
  run_op-HasDistinctNames (update_op id p) s d h = updated-names id p (validate c.codec p) s d h
