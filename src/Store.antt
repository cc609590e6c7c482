-- ===== src/Store.antt =====
-- src-tauri/src/config/routing_store.rs: the store of routing profiles and its copy on disk. The mutex is
-- held through each operation, so an operation is one step from the store and the directory to the new
-- ones. The order in which a directory is listed is that of `files`; a file that cannot be read stands
-- for none.
pub mod Fetching
pub mod Confined
pub mod Scheduler
pub mod Refreshing
pub mod Keys
pub mod Changes
pub mod Loading
pub mod Effects
pub mod Invariant
pub mod Names
pub mod Reached
pub mod Refinement
pub mod Restart
pub mod Reload
use kwik_proxy_secure.Prelude.{
  ℕ, ◌*◌, Text, text_eq, len, length, any, trim, Bool, true, false, not, ◌&&◌, ◌||◌, List, [], ◌∷◌,
  ◌++◌, Option, none, some, Result, ok, err, ◌>>=◌, ◌>>◌, ensure, if◌then◌else◌, leb, ◌==◌, is_some,
  is_some_and,
}
use kwik_proxy_secure.Profile
use kwik_proxy_secure.Profile.{
  Codec, RoutingProfile, RoutingProfileEntry, ProfileSource, static, autorouting, validate,
  validate_entry, new_entry,
}

pub record RoutingStore : Type 0 where
  pub entries : List RoutingProfileEntry
  pub active_id : Option Text

-- The directory: the text of `<name>.json` under each name, and of `active.txt`.
pub record Disk : Type 0 where
  pub files : List (Text × Text)
  pub active : Option Text

-- How a write ends: done, or broken off with what it leaves.
pub data Written : Type 0 where
  written : Written
  broken : Option Text → Written

-- What the system answers during one operation, and the fresh UUID.
pub record Os : Type 0 where
  pub has_dir : Bool
  pub dir_created : Bool
  pub write : Written
  pub active_removed : Bool
  pub removed : Bool
  pub now : ℕ
  pub uuid : Text

-- The JSON form of an entry, both ways.
pub record EntryCodec : Type 0 where
  pub codec : Codec
  pub to_json : RoutingProfileEntry → Text
  pub from_json : Text → Option RoutingProfileEntry

pub data Error : Type 0 where
  rejected : Profile.Error → Error
  not_found no_path no_store_dir write_failed : Error

abbrev pub max_file_bytes : ℕ
max_file_bytes = 1024 * 1024

abbrev pub has_id : Text → RoutingProfileEntry → Bool
has_id id e = text_eq e.id id

-- `entries.iter().find(|e| e.id == id)`.
abbrev pub find_entry : Text → List RoutingProfileEntry → Option RoutingProfileEntry
find_entry id [] = none
find_entry id (e ∷ es) = if has_id id e then some e else find_entry id es

-- `entries.retain(|e| e.id != id)`.
unfoldable pub retain_others : Text → List RoutingProfileEntry → List RoutingProfileEntry
unfolding text_eq
retain_others id [] = []
retain_others id (e ∷ es) = let rest = retain_others id es in if has_id id e then rest else e ∷ rest

-- The first entry with the id, changed.
unfoldable pub change_entry :
    (RoutingProfileEntry → RoutingProfileEntry)
    → Text
    → List RoutingProfileEntry
    → List RoutingProfileEntry
unfolding text_eq
change_entry f id [] = []
change_entry f id (e ∷ es) =
    let rest = change_entry f id es in if has_id id e then f e ∷ es else e ∷ rest

-- The directory with one file written anew, or taken away.
abbrev pub put_file : Text → Text → List (Text × Text) → List (Text × Text)
put_file name text [] = (name, text) ∷ []
put_file name text ((n, t) ∷ fs) =
    if text_eq n name then (name, text) ∷ fs else (n, t) ∷ put_file name text fs

unfoldable pub delete_file : Text → List (Text × Text) → List (Text × Text)
unfolding text_eq
delete_file name [] = []
delete_file name ((n, t) ∷ fs) =
    let rest = delete_file name fs in if text_eq n name then rest else (n, t) ∷ rest

-- A file after a write that broke off.
abbrev pub left_file : Text → Option Text → List (Text × Text) → List (Text × Text)
left_file name none fs = fs
left_file name (some text) fs = put_file name text fs

abbrev pub fetched_at : ℕ → ProfileSource → ℕ → ℕ
fetched_at now static before = before
fetched_at now (autorouting url hours) before = now

-- An entry that comes from a URL has just been fetched.
abbrev pub stamp : ℕ → RoutingProfileEntry → RoutingProfileEntry
stamp now e = record e { last_fetched_at = fetched_at now e.source e.last_fetched_at }

abbrev pub refreshed : ℕ → RoutingProfile → RoutingProfileEntry → RoutingProfileEntry
refreshed now profile e = record e { profile = profile; last_fetched_at = now }

module _ (c : EntryCodec) where
  -- `load`: a file counts that is bounded, parses, is valid and bears its id.
  abbrev pub load_checked :
      Text → RoutingProfileEntry → Result Profile.Error (Unit {0}) → Option RoutingProfileEntry
  load_checked stem e (err x) = none
  load_checked stem e (ok _) = if text_eq e.id stem then some e else none

  abbrev pub load_parsed : Text → Option RoutingProfileEntry → Option RoutingProfileEntry
  load_parsed stem none = none
  load_parsed stem (some e) = load_checked stem e (validate_entry c.codec e)

  unfoldable pub load_file : Text → Text → Option RoutingProfileEntry
  unfolding len text_eq
  load_file stem text =
      if leb (len text) max_file_bytes then load_parsed stem (c.from_json text) else none

  abbrev pub push_some :
      Option RoutingProfileEntry → List RoutingProfileEntry → List RoutingProfileEntry
  push_some none es = es
  push_some (some e) es = e ∷ es

  unfoldable pub load_files : List (Text × Text) → List RoutingProfileEntry
  load_files [] = []
  load_files ((stem, text) ∷ fs) = push_some (load_file stem text) (load_files fs)

  abbrev pub known : List RoutingProfileEntry → Text → Option Text
  known es id = if any (has_id id) es then some id else none

  unfoldable pub load_active : List RoutingProfileEntry → Option Text → Option Text
  unfolding len trim text_eq
  load_active es none = none
  load_active es (some content) =
      if leb (len content) 128 && not (text_eq (trim content) [])
      then known es (trim content)
      else none

  abbrev pub load_from : Disk → RoutingStore
  load_from disk =
      let entries = load_files disk.files in
      record { entries = entries; active_id = load_active entries disk.active }

  unfoldable pub load : Os → Option Disk → RoutingStore
  load os none = record { entries = []; active_id = none }
  load os (some disk) =
      if os.has_dir then load_from disk else record { entries = []; active_id = none }

  unfoldable pub active : RoutingStore → Option RoutingProfileEntry
  active s = elim s.active_id [ none ↦ none | some id ↦ find_entry id s.entries ]

  abbrev pub write_file : Written → Text → Text → Disk → Disk × Result Error (Unit {0})
  write_file written name text disk = (record disk { files = put_file name text disk.files }, ok tt)
  write_file (broken left) name text disk =
      (record disk { files = left_file name left disk.files }, err write_failed)

  abbrev pub write_entry :
      Os → Text → Option RoutingProfileEntry → Disk → Disk × Result Error (Unit {0})
  write_entry os id none disk = (disk, err not_found)
  write_entry os id (some e) disk = write_file os.write id (c.to_json e) disk

  unfoldable pub persist_entry : Os → Text → RoutingStore → Disk → Disk × Result Error (Unit {0})
  persist_entry os id s disk =
      if not os.has_dir
      then (disk, err no_path)
      else if not os.dir_created
      then (disk, err no_store_dir)
      else write_entry os id (find_entry id s.entries) disk

  abbrev pub write_active : Os → Option Text → Disk → Disk × Result Error (Unit {0})
  write_active os none disk =
      (if os.active_removed then record disk { active = none } else disk, ok tt)
  write_active os (some id) disk = elim os.write [
    | written ↦ (record disk { active = some id }, ok tt)
    | broken left ↦ (record disk { active = left }, err write_failed)
  ]

  unfoldable pub persist_active : Os → RoutingStore → Disk → Disk × Result Error (Unit {0})
  persist_active os s disk =
      if not os.has_dir
      then (disk, err no_path)
      else if not os.dir_created
      then (disk, err no_store_dir)
      else write_active os s.active_id disk

-- The store and the directory after an operation, and its result.
pub record After (A : Type 0) : Type 0 where
  pub store : RoutingStore
  pub disk : Disk
  pub result : Result Error A

-- `…?; Ok(a)` after a write.
abbrev pub after_persist :
    {A : Type 0} → A → RoutingStore → Disk × Result Error (Unit {0}) → After A
after_persist a s (disk, ok _) = record { store = s; disk = disk; result = ok a }
after_persist a s (disk, err e) = record { store = s; disk = disk; result = err e }

abbrev pub refuse : {A : Type 0} → Error → RoutingStore → Disk → After A
refuse e s disk = record { store = s; disk = disk; result = err e }

module _ (c : EntryCodec) (os : Os) where
  abbrev pub pushed : RoutingStore → RoutingProfileEntry → RoutingStore
  pushed s e = record s { entries = s.entries ++ e ∷ [] }

  abbrev pub add_entry : RoutingProfileEntry → RoutingStore → Disk → After Text
  add_entry e s disk =
      after_persist e.id (pushed s (stamp os.now e))
        (persist_entry c os e.id (pushed s (stamp os.now e)) disk)

  abbrev pub add_checked :
      RoutingProfileEntry → Result Profile.Error (Unit {0}) → RoutingStore → Disk → After Text
  add_checked e (err x) s disk = refuse (rejected x) s disk
  add_checked e (ok _) s disk = add_entry e s disk

  -- The entry stays in memory where it could not be written.
  unfoldable pub add : RoutingProfile → ProfileSource → RoutingStore → Disk → After Text
  unfolding new_entry
  add profile source s disk =
      add_checked (new_entry os.uuid profile source)
        (validate_entry c.codec (new_entry os.uuid profile source)) s disk

  -- The last part of `remove`; whether the file is gone is not looked at.
  abbrev pub remove_entry_file : Text → RoutingStore → Disk → After (Unit {0})
  remove_entry_file id s disk = if not os.has_dir then refuse no_path s disk else record {
    store = s;
    disk = if os.removed then record disk { files = delete_file id disk.files } else disk;
    result = ok tt;
  }

  abbrev pub after_deactivate :
      Text → RoutingStore → Disk × Result Error (Unit {0}) → After (Unit {0})
  after_deactivate id s (disk, err e) = refuse e s disk
  after_deactivate id s (disk, ok _) = remove_entry_file id s disk

  abbrev pub is_active : Text → RoutingStore → Bool
  is_active id s = is_some_and (λ a. text_eq a id) s.active_id

  abbrev pub without_active : RoutingStore → RoutingStore
  without_active s = record s { active_id = none }

  abbrev pub retained : Text → RoutingStore → RoutingStore
  retained id s = record s { entries = retain_others id s.entries }

  unfoldable pub remove : Text → RoutingStore → Disk → After (Unit {0})
  unfolding retain_others persist_active delete_file
  remove id s disk =
      if length (retain_others id s.entries) == length s.entries
      then refuse not_found (retained id s) disk
      else if is_active id s
      then after_deactivate id (without_active (retained id s))
          (persist_active c os (without_active (retained id s)) disk)
      else remove_entry_file id (retained id s) disk

  abbrev pub activated : Option Text → RoutingStore → RoutingStore
  activated id s = record s { active_id = id }

  unfoldable pub set_active : Option Text → RoutingStore → Disk → After (Unit {0})
  unfolding persist_active text_eq
  set_active none s disk =
      after_persist tt (activated none s) (persist_active c os (activated none s) disk)
  set_active (some id) s disk =
      if not (any (has_id id) s.entries)
      then refuse not_found s disk
      else after_persist tt (activated (some id) s)
          (persist_active c os (activated (some id) s) disk)

  abbrev pub changed : Text → RoutingProfile → RoutingStore → RoutingStore
  changed id p s = record s { entries = change_entry (refreshed os.now p) id s.entries }

  abbrev pub update_checked :
      Text
      → RoutingProfile
      → Result Profile.Error (Unit {0})
      → RoutingStore
      → Disk
      → After (Unit {0})
  update_checked id p (err x) s disk = refuse (rejected x) s disk
  update_checked id p (ok _) s disk =
      if not (any (has_id id) s.entries)
      then refuse not_found s disk
      else after_persist tt (changed id p s) (persist_entry c os id (changed id p s) disk)

  unfoldable pub update_profile : Text → RoutingProfile → RoutingStore → Disk → After (Unit {0})
  unfolding change_entry persist_entry text_eq
  update_profile id p s disk = update_checked id p (validate c.codec p) s disk
