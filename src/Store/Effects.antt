-- ===== src/Store/Effects.antt =====
-- src-tauri/src/config/routing_store.rs: the operations as one type, and what each does to the entries in
-- memory, whatever happens to the directory.
use kwik_proxy_secure.Prelude.{
  length, Text, ◌==◌, any, Bool, true, false, not, Option, none, some, Result, ok, err, ◌≡◌, refl,
  arith, if◌then◌else◌,
}
use kwik_proxy_secure.Profile
use kwik_proxy_secure.Profile.{
  Error, Codec, RoutingProfile, RoutingProfileEntry, ProfileSource, static, autorouting, validate,
  validate_entry, new_entry, check_source, bad_id,
}
use kwik_proxy_secure.Store
use kwik_proxy_secure.Store.{
  activated, without_active, not_found, after_deactivate, remove_entry_file, refuse, RoutingStore,
  Disk, Os, EntryCodec, After, Written, written, broken, has_id, retain_others, change_entry, stamp,
  refreshed, load, persist_entry, persist_active, add, add_checked, remove, set_active,
  update_profile, update_checked, write_entry, write_file, write_active, pushed, retained,
  is_active, changed, put_file, delete_file, left_file, find_entry, after_persist,
}

-- An operation of the store.
pub data Op : Type 0 where
  add_op : RoutingProfile → ProfileSource → Op
  remove_op : Text → Op
  set_active_op : Option Text → Op
  update_op : Text → RoutingProfile → Op

abbrev pub kept : {A : Type 0} → After A → RoutingStore × Disk
kept a = (a.store, a.disk)

unfoldable pub run_op : EntryCodec → Os → Op → RoutingStore → Disk → RoutingStore × Disk
run_op c os (add_op p src) s disk = kept (add c os p src s disk)
run_op c os (remove_op id) s disk = kept (remove c os id s disk)
run_op c os (set_active_op id) s disk = kept (set_active c os id s disk)
run_op c os (update_op id p) s disk = kept (update_profile c os id p s disk)

-- What an operation does to the entries in memory.
abbrev pub if_valid : Result Profile.Error (Unit {0}) → RoutingStore → RoutingStore → RoutingStore
if_valid (err e) s t = s
if_valid (ok _) s t = t

module _ (c : EntryCodec) (os : Os) where
  abbrev pub new_of : RoutingProfile → ProfileSource → RoutingProfileEntry
  new_of p src = new_entry os.uuid p src

  abbrev pub effect : Op → RoutingStore → RoutingStore
  effect (add_op p src) s =
      if_valid (validate_entry c.codec (new_of p src)) s
        (pushed c os s (stamp os.now (new_of p src)))
  effect (remove_op id) s =
      if length (retain_others id s.entries) == length s.entries
      then retained c os id s
      else if is_active c os id s
      then without_active c os (retained c os id s)
      else retained c os id s
  effect (set_active_op none) s = activated c os none s
  effect (set_active_op (some id)) s =
      if not (any (has_id id) s.entries) then s else activated c os (some id) s
  effect (update_op id p) s =
      if_valid (validate c.codec p) s
        (if not (any (has_id id) s.entries) then s else changed c os id p s)

  if-store :
      {A : Type 0} (b : Bool) (x y : After A) (s t : RoutingStore)
      → x.store ≡ s
      → y.store ≡ t
      → (if b then x else y).store ≡ (if b then s else t)
  if-store true x y s t h h' = h
  if-store false x y s t h h' = h'

  after_persist-store :
      {A : Type 0} (a : A) (s : RoutingStore) (w : Disk × Result Store.Error (Unit {0}))
      → (after_persist a s w).store ≡ s
  after_persist-store a s (d, ok _) = refl
  after_persist-store a s (d, err e) = refl

  remove_entry_file-store :
      (id : Text) (s : RoutingStore) (d : Disk) → (remove_entry_file c os id s d).store ≡ s
  remove_entry_file-store id s d = ground arith

  after_deactivate-store :
      (id : Text) (s : RoutingStore) (w : Disk × Result Store.Error (Unit {0}))
      → (after_deactivate c os id s w).store ≡ s
  after_deactivate-store id s (d, ok _) = remove_entry_file-store id s d
  after_deactivate-store id s (d, err e) = refl

  add_checked-store :
      (e : RoutingProfileEntry) (r : Result Profile.Error (Unit {0})) (s : RoutingStore) (d : Disk)
      → (add_checked c os e r s d).store ≡ if_valid r s (pushed c os s (stamp os.now e))
  add_checked-store e (err x) s d = refl
  add_checked-store e (ok _) s d = after_persist-store _ _ _

  update_checked-store :
      (id : Text) (p : RoutingProfile) (r : Result Profile.Error (Unit {0})) (s : RoutingStore)
      (d : Disk)
      → (update_checked c os id p r s d).store
        ≡ if_valid r s (if not (any (has_id id) s.entries) then s else changed c os id p s)
  update_checked-store id p (err x) s d = refl
  update_checked-store id p (ok _) s d =
      if-store (not (any (has_id id) s.entries)) _ _ _ _ refl (after_persist-store _ _ _)

  -- Memory does not depend on the directory nor on what fails there.
  pub run_op-effect : (op : Op) (s : RoutingStore) (d : Disk) → (run_op c os op s d).0 ≡ effect op s
  unfolding run_op add remove set_active update_profile
  run_op-effect (add_op p src) s d = add_checked-store _ (validate_entry c.codec (new_of p src)) s d
  run_op-effect (remove_op id) s d =
      if-store (length (retain_others id s.entries) == length s.entries) _ _ _ _ refl (
        if-store (is_active c os id s) _ _ _ _ (after_deactivate-store id _ _)
          (remove_entry_file-store id _ d))
  run_op-effect (set_active_op none) s d = after_persist-store _ _ _
  run_op-effect (set_active_op (some id)) s d =
      if-store (not (any (has_id id) s.entries)) _ _ _ _ refl (after_persist-store _ _ _)
  run_op-effect (update_op id p) s d = update_checked-store id p (validate c.codec p) s d
