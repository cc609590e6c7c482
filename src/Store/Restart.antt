-- ===== src/Store/Restart.antt =====
-- src-tauri/src/config/routing_store.rs: what a restart finds after operations whose writes all went well.
use kwik_proxy_secure.Store.Refinement.{unchanged_get}
use mathlib.Core.Path.{subst, ap}
use kwik_proxy_secure.Prelude.{
  ℕ, Text, text_eq, length, any, true, not, Option, none, some, Result, ok, err, ◌≡◌, inl, inr,
  refl, sym, ◌∙◌, arith, Bool-cases, Option-cases, if◌then◌else◌, ◌==◌, if-holds, text_eq_refl,
}
use kwik_proxy_secure.Profile
use kwik_proxy_secure.Profile.{
  RoutingProfile, RoutingProfileEntry, ProfileSource, validate, validate_entry, new_entry,
}
use kwik_proxy_secure.Store.{
  change_entry, after_persist, RoutingStore, Disk, Os, EntryCodec, After, written, has_id,
  find_entry, retain_others, stamp, refreshed, pushed, retained, is_active, changed, put_file,
  delete_file, add, add_checked, remove, set_active, update_profile, update_checked, persist_entry,
  persist_active, write_entry,
}
use kwik_proxy_secure.Store.Keys.{
  is_some-find_entry, text_eq-true, find_entry-append, IsFresh, lookup,
}
use kwik_proxy_secure.Store.Changes.{
  find_entry-retain_others, find_entry-change_entry, retain_others-IsFresh, lookup-put_file,
  lookup-delete_file,
}
use kwik_proxy_secure.Store.Effects.{kept, Op, add_op, remove_op, set_active_op, update_op, run_op}
use kwik_proxy_secure.Store.Invariant.{IsUnused}

-- A system on which every step goes well.
abbrev pub working : ℕ → Text → Os
working now uuid = record {
  has_dir = true;
  dir_created = true;
  write = written;
  active_removed = true;
  removed = true;
  now = now;
  uuid = uuid;
}

abbrev pub json_of : EntryCodec → Option RoutingProfileEntry → Option Text
json_of c none = none
json_of c (some e) = some (c.to_json e)

-- The directory holds what the store holds.
pub record IsSynced (c : EntryCodec) (s : RoutingStore) (d : Disk) : Type 0 where
  pub files : (k : Text) → lookup k d.files ≡ json_of c (find_entry k s.entries)
  pub active : d.active ≡ s.active_id

module _ (c : EntryCodec) where
  put-IsSynced :
      (s t : RoutingStore) (d : Disk) (id : Text) (e : RoutingProfileEntry)
      → ((k : Text)
          → find_entry k t.entries ≡ (if text_eq id k then some e else find_entry k s.entries))
      → s.active_id ≡ t.active_id
      → IsSynced c s d
      → IsSynced c t (record d { files = put_file id (c.to_json e) d.files })
  put-IsSynced s t d id e h h' hs = record { files = at; active = hs.active ∙ h' }
    where
      at :
          (k : Text)
          → lookup k (put_file id (c.to_json e) d.files) ≡ json_of c (find_entry k t.entries)
      at k = elim (Bool-cases (text_eq id k)) [
        | inl same ↦ rw (lookup-put_file k id (c.to_json e) d.files, h k, same) refl
        | inr other ↦ rw (lookup-put_file k id (c.to_json e) d.files, h k, other, hs.files k) refl
      ]

  delete-IsSynced :
      (s : RoutingStore) (d : Disk) (id : Text) (o : Option Text)
      → IsSynced c s d
      → IsSynced c
          (record { entries = retain_others id s.entries; active_id = o })
          (record { files = delete_file id d.files; active = o })
  delete-IsSynced s d id o hs = record { files = at; active = refl }
    where
      at :
          (k : Text)
          → lookup k (delete_file id d.files)
            ≡ json_of c (find_entry k (retain_others id s.entries))
      at k = elim (Bool-cases (text_eq id k)) [
        | inl same ↦
            rw (lookup-delete_file k id d.files, find_entry-retain_others k id s.entries, same) refl
        | inr other ↦
            rw
              (
                lookup-delete_file k id d.files,
                find_entry-retain_others k id s.entries,
                other,
                hs.files k,
              )
              refl
      ]

module _ (c : EntryCodec) (now : ℕ) (uuid : Text) where
  abbrev Kept : RoutingStore × Disk → Type 0
  Kept after = IsSynced c after.0 after.1

  abbrev Synced : {A : Type 0} → After A → Type 0
  Synced a = IsSynced c a.store a.disk

  -- Writing the one entry in which the two stores differ.
  persist-IsSynced :
      {A : Type 0} (a : A) (s t : RoutingStore) (d : Disk) (id : Text) (e : RoutingProfileEntry)
      → ((k : Text)
          → find_entry k t.entries ≡ (if text_eq id k then some e else find_entry k s.entries))
      → s.active_id ≡ t.active_id
      → IsSynced c s d
      → Kept (kept (after_persist a t (persist_entry c (working now uuid) id t d)))
  unfolding persist_entry
  persist-IsSynced a s t d id e h h' hs =
      let found : find_entry id t.entries ≡ some e = h id ∙ rw (text_eq_refl id) refl in
      subst (λ o. Kept (kept (after_persist a t (write_entry c (working now uuid) id o d))))
        (sym found) (put-IsSynced c s t d id e h h' hs)

  added-IsSynced :
      (p : RoutingProfile) (src : ProfileSource) (r : Result Profile.Error (Unit {0}))
      (s : RoutingStore) (d : Disk)
      → IsFresh uuid s.entries
      → IsSynced c s d
      → Kept (kept (add_checked c (working now uuid) (new_entry uuid p src) r s d))
  unfolding new_entry
  added-IsSynced p src (err x) s d fresh hs = hs
  added-IsSynced p src (ok _) s d fresh hs =
      let e : RoutingProfileEntry = stamp now (new_entry uuid p src) in
      persist-IsSynced uuid s (pushed c (working now uuid) s e) d uuid e
        (λ k. find_entry-append k s.entries e fresh) refl hs

  removed-IsSynced :
      (id : Text) (s : RoutingStore) (d : Disk)
      → IsSynced c s d
      → Kept (kept (remove c (working now uuid) id s d))
  unfolding remove persist_active
  removed-IsSynced id s d hs =
      if-holds Synced (length (retain_others id s.entries) == length s.entries) _ _
        (λ same. record { files = unchanged same; active = hs.active })
        (λ shorter.
          if-holds Synced (is_active c (working now uuid) id s) _ _
            (λ was. delete-IsSynced c s d id none hs)
            (λ was.
              subst
                (λ o.
                  IsSynced c (retained c (working now uuid) id s)
                    (record { files = delete_file id d.files; active = o }))
                (sym hs.active) (delete-IsSynced c s d id s.active_id hs)))
    where
      unchanged :
          length (retain_others id s.entries) == length s.entries ≡ true
          → (k : Text) → lookup k d.files ≡ json_of c (find_entry k (retain_others id s.entries))
      unchanged same k =
          let fresh : IsFresh id s.entries =
            ground (arith, same, retain_others-IsFresh id s.entries) in
          hs.files k ∙ sym (ap (json_of c) (unchanged_get c (working now uuid) id s fresh k))

  updated-IsSynced :
      (id : Text) (p : RoutingProfile) (r : Result Profile.Error (Unit {0})) (s : RoutingStore)
      (d : Disk)
      → IsSynced c s d
      → Kept (kept (update_checked c (working now uuid) id p r s d))
  updated-IsSynced id p (err x) s d hs = hs
  updated-IsSynced id p (ok _) s d hs =
      if-holds Synced (not (any (has_id id) s.entries)) _ _ (λ gone. hs)
        (λ there. elim (Option-cases (find_entry id s.entries)) [
          | inl absent ↦ ground (arith, there, absent, is_some-find_entry id s.entries)
          | inr (e, found) ↦
              persist-IsSynced tt s (changed c (working now uuid) id p s) d id (refreshed now p e)
                (changed_get e found) refl hs
        ])
    where
      changed_get :
          (e : RoutingProfileEntry)
          → find_entry id s.entries ≡ some e
          → (k : Text)
          → find_entry k (change_entry (refreshed now p) id s.entries)
            ≡ (if text_eq id k then some (refreshed now p e) else find_entry k s.entries)
      changed_get e found k = elim (Bool-cases (text_eq id k)) [
        | inl same ↦
            let found_k : find_entry k s.entries ≡ some e =
              ap (λ x. find_entry x s.entries) (sym (text_eq-true id k same)) ∙ found in
            find_entry-change_entry (refreshed now p) (λ x. refl) k id s.entries
            ∙ rw (same, found_k) refl
        | inr other ↦
            find_entry-change_entry (refreshed now p) (λ x. refl) k id s.entries ∙ rw (other) refl
      ]

  pub run_op-IsSynced :
      (op : Op) (s : RoutingStore) (d : Disk)
      → IsUnused (working now uuid) op s
      → IsSynced c s d
      → Kept (run_op c (working now uuid) op s d)
  unfolding run_op set_active persist_active add update_profile
  run_op-IsSynced (add_op p src) s d unused hs = added-IsSynced p src _ s d unused hs
  run_op-IsSynced (remove_op id) s d unused hs = removed-IsSynced id s d hs
  run_op-IsSynced (set_active_op none) s d unused hs = record { files = hs.files; active = refl }
  run_op-IsSynced (set_active_op (some id)) s d unused hs =
      if-holds Synced (not (any (has_id id) s.entries)) _ _ (λ gone. hs)
        (λ there. record { files = hs.files; active = refl })
  run_op-IsSynced (update_op id p) s d unused hs = updated-IsSynced id p _ s d hs
