-- ===== src/Store/Reload.antt =====
-- src-tauri/src/config/routing_store.rs: a restart gives back the store that its directory holds.
use mathlib.Core.Path.{subst, ap}
use kwik_proxy_secure.Prelude.{
  ensure->>-ok, ℕ, ◌*◌, Text, text_eq, text_eq_refl, any, true, List, [], ◌∷◌, Option, none, some,
  ◌≡◌, inl, inr, refl, ◌∙◌, arith, Option-cases, if◌then◌else◌, is_some, All, len, leb, trim, ◌≤◌,
  ◌≢◌,
}
use kwik_proxy_secure.Profile.{RoutingProfileEntry, validate_entry, bad_id}
use kwik_proxy_secure.Store.{
  load_from, RoutingStore, Disk, Os, EntryCodec, has_id, find_entry, max_file_bytes, load,
  load_file, load_files, load_active,
}
use kwik_proxy_secure.Store.Keys.{
  is_some-find_entry, find_entry-id, find_entry-All, HasDistinctNames,
}
use kwik_proxy_secure.Store.Loading.{
  any-load_files, IsStore, IsAccepted, IsKnown, loaded, find_entry-load_files,
}
use kwik_proxy_secure.Store.Effects.{Op, run_op}
use kwik_proxy_secure.Store.Invariant.{IsUnused, run_op-IsStore}
use kwik_proxy_secure.Store.Names.{run_op-HasDistinctNames}
use kwik_proxy_secure.Store.Refinement.{view, Profiles-ext}
use kwik_proxy_secure.Store.Restart.{working, json_of, IsSynced, run_op-IsSynced}

-- Operations on a working system, from an empty directory on.
pub data Worked (c : EntryCodec) : RoutingStore → Disk → Type 0 where
  fresh_start :
      Worked c (record { entries = []; active_id = none }) (record { files = []; active = none })
  worked :
      {s : RoutingStore} {d : Disk} (now : ℕ) (uuid : Text) (op : Op)
      → IsUnused (working now uuid) op s
      → Worked c s d
      → Worked c (run_op c (working now uuid) op s d).0 (run_op c (working now uuid) op s d).1

-- A text that UUIDs are written as: short and with no white space around it.
pub record IsPlain (id : Text) : Type 0 where
  pub short : len id ≤ 128
  pub not_empty : id ≢ []
  pub trimmed : trim id ≡ id

-- The JSON text of the entry is read back as the entry, and `load` does not find it too large.
pub record IsReadable (c : EntryCodec) (e : RoutingProfileEntry) : Type 0 where
  pub read : c.from_json (c.to_json e) ≡ some e
  pub small : len (c.to_json e) ≤ 1024 * 1024

pub Worked-IsSynced :
    (c : EntryCodec) (s : RoutingStore) (d : Disk)
    → Worked c s d
    → IsSynced c s d × IsStore c s × HasDistinctNames d.files
Worked-IsSynced c s d fresh_start = (
  record { files = λ k. refl; active = refl },
  record { valid = tt; distinct = tt; known = tt },
  tt,
)
Worked-IsSynced c s d (worked {s = s'} {d = d'} now uuid op unused before) =
    let (synced, was, names) = Worked-IsSynced c s' d' before in
    (
      run_op-IsSynced c now uuid op s' d' unused synced,
      run_op-IsStore c (working now uuid) op s' d' unused was,
      run_op-HasDistinctNames c (working now uuid) op s' d' names,
    )

module _ (c : EntryCodec) (s : RoutingStore) (d : Disk) where
  loaded_entry :
      (k : Text) (e : RoutingProfileEntry)
      → IsAccepted c e
      → IsReadable c e
      → e.id ≡ k
      → load_file c k (c.to_json e) ≡ some e
  unfolding load_file
  loaded_entry k e valid readable same =
      let small : leb (len (c.to_json e)) max_file_bytes ≡ true = ground (arith, readable.small) in
      let here : text_eq e.id k ≡ true =
        subst (λ x. text_eq e.id x ≡ true) same (text_eq_refl e.id) in
      rw (small, readable.read, valid, here) refl

  reloaded_entry :
      (k : Text)
      → IsStore c s
      → All (IsReadable c) s.entries
      → loaded c k (json_of c (find_entry k s.entries)) ≡ find_entry k s.entries
  reloaded_entry k hs readable = go (find_entry k s.entries) refl
    where
      go :
          (o : Option RoutingProfileEntry)
          → find_entry k s.entries ≡ o
          → loaded c k (json_of c o) ≡ o
      go none h = refl
      go (some e) h =
          loaded_entry k e (find_entry-All (IsAccepted c) k s.entries e hs.valid h)
            (find_entry-All (IsReadable c) k s.entries e readable h) (find_entry-id k s.entries e h)

  reloaded_any :
      (k : Text)
      → IsSynced c s d
      → IsStore c s
      → HasDistinctNames d.files
      → All (IsReadable c) s.entries
      → any (has_id k) (load_files c d.files) ≡ any (has_id k) s.entries
  reloaded_any k synced hs names readable =
      any-load_files c k d.files names
      ∙ ap (λ o. is_some (loaded c k o)) (synced.files k)
      ∙ ap is_some (reloaded_entry k hs readable)
      ∙ is_some-find_entry k s.entries

  active-IsPlain :
      (id : Text)
      → ((t : Text) → c.codec.is_uuid t ≡ true → IsPlain t)
      → IsStore c s
      → any (has_id id) s.entries ≡ true
      → IsPlain id
  unfolding validate_entry
  active-IsPlain id plain hs there = elim (Option-cases (find_entry id s.entries)) [
    | inl absent ↦ ground (arith, there, absent, is_some-find_entry id s.entries)
    | inr (e, found) ↦
        let valid = find_entry-All (IsAccepted c) id s.entries e hs.valid found in
        subst IsPlain (find_entry-id id s.entries e found)
          (plain e.id (ensure->>-ok (c.codec.is_uuid e.id) bad_id _ valid).0)
  ]

  reloaded_active :
      (es : List RoutingProfileEntry) (id : Text)
      → any (has_id id) es ≡ true
      → IsPlain id
      → load_active c es (some id) ≡ some id
  unfolding load_active text_eq
  reloaded_active es [] there plain = elim (plain.not_empty refl) [ ]
  reloaded_active es (x ∷ id) there plain =
      let short : leb (len (x ∷ id)) 128 ≡ true = ground (arith, plain.short) in
      rw (plain.trimmed, short, there) refl

  active_kept :
      (o : Option Text)
      → IsSynced c s d
      → IsStore c s
      → HasDistinctNames d.files
      → All (IsReadable c) s.entries
      → ((t : Text) → c.codec.is_uuid t ≡ true → IsPlain t)
      → IsKnown s.entries o
      → load_active c (load_files c d.files) o ≡ o
  unfolding load_active
  active_kept none synced hs names readable plain h = refl
  active_kept (some id) synced hs names readable plain h =
      reloaded_active (load_files c d.files) id (reloaded_any id synced hs names readable ∙ h)
        (active-IsPlain id plain hs h)

  reload-view :
      IsSynced c s d
      → IsStore c s
      → HasDistinctNames d.files
      → All (IsReadable c) s.entries
      → ((t : Text) → c.codec.is_uuid t ≡ true → IsPlain t)
      → view (load_from c d) ≡ view s
  reload-view synced hs names readable plain =
      Profiles-ext _ _
        (λ k.
          find_entry-load_files c k d.files names
          ∙ ap (loaded c k) (synced.files k)
          ∙ reloaded_entry k hs readable)
        (ap (load_active c (load_files c d.files)) synced.active
          ∙ active_kept s.active_id synced hs names readable plain hs.known)

-- After any operations from an empty directory on whose writes went well, a restart finds the same
-- entry under every id and the same active id, provided that the JSON text of each entry is read back
-- and is not larger than 1 MiB, and that UUIDs are short texts without white space around them.
pub load-Worked :
    (c : EntryCodec) (os : Os) (s : RoutingStore) (d : Disk)
    → Worked c s d
    → os.has_dir ≡ true
    → All (IsReadable c) s.entries
    → ((t : Text) → c.codec.is_uuid t ≡ true → IsPlain t)
    → view (load c os (some d)) ≡ view s
unfolding load
load-Worked c os s d history there readable plain =
    let (synced, hs, names) = Worked-IsSynced c s d history in
    ap (λ b. view (if b then load_from c d else record { entries = []; active_id = none })) there
    ∙ reload-view c s d synced hs names readable plain
