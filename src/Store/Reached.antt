-- ===== src/Store/Reached.antt =====
-- src-tauri/src/config/routing_store.rs: histories of the store, from a start of the program on, through
-- operations and restarts.
use kwik_proxy_secure.Prelude.{some}
use kwik_proxy_secure.Store.{RoutingStore, Disk, Os, EntryCodec, load}
use kwik_proxy_secure.Store.Keys.{HasDistinctNames}
use kwik_proxy_secure.Store.Loading.{IsStore, load-IsStore}
use kwik_proxy_secure.Store.Invariant.{IsUnused, run_op-IsStore}
use kwik_proxy_secure.Store.Names.{run_op-HasDistinctNames}
use kwik_proxy_secure.Store.Effects.{Op, run_op}

-- A start from a directory, then operations, whatever each write does, and restarts.
pub data Reached (c : EntryCodec) : RoutingStore → Disk → Type 0 where
  started : (os : Os) (d : Disk) → HasDistinctNames d.files → Reached c (load c os (some d)) d
  ran :
      {s : RoutingStore} {d : Disk} (os : Os) (op : Op)
      → IsUnused os op s
      → Reached c s d
      → Reached c (run_op c os op s d).0 (run_op c os op s d).1
  restarted :
      {s : RoutingStore} {d : Disk} (os : Os) → Reached c s d → Reached c (load c os (some d)) d

-- In every history of operations and restarts, in which each write may succeed, break off or leave a
-- damaged file, and in which the fresh UUIDs are new, the store stays well formed: every entry passes
-- `validate_entry`, the ids are distinct, the active id is that of an entry, and the names of the files
-- are distinct.
pub Reached-IsStore :
    (c : EntryCodec) (s : RoutingStore) (d : Disk)
    → Reached c s d
    → IsStore c s × HasDistinctNames d.files
Reached-IsStore c s d (started os d' h) = (load-IsStore c os d' h, h)
Reached-IsStore c s d (restarted os before) =
    let (was, names) = Reached-IsStore c _ d before in (load-IsStore c os d names, names)
Reached-IsStore c s d (ran {s = s'} {d = d'} os op unused before) =
    let (was, names) = Reached-IsStore c s' d' before in
    (run_op-IsStore c os op s' d' unused was, run_op-HasDistinctNames c os op s' d' names)
