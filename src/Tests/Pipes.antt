-- ===== src/Tests/Pipes.antt =====
-- The theorems of Cleanup and Pipe at a small tree, a short history of the server, and one request.
use kwik_proxy_secure.Prelude.{
  text_eq, if◌then◌else◌, All, ℕ, ◌-◌, ◌≤◌, ◌++◌, ◌↔◌, true, false, List, [], ◌∷◌, Option, none,
  some, ok, codes, length, all, ◌≡◌, refl, arith,
}
use kwik_proxy_secure.Cleanup.{
  Node, Nodes, Listing, Deletion, absent, reparse_point, plain_file, directory, no_more, node_then,
  listed, deleted, not_found, Entries, Held, remove_tree, cleanup_install_tree, is_left,
  validate_sid_text,
}
use kwik_proxy_secure.Cleanup.Bounds.{IsRemoved, remove_tree-IsRemoved, size, height}
use kwik_proxy_secure.Cleanup.Complete.{IsRemovable, remove_tree-IsRemovable}
use kwik_proxy_secure.Cleanup.Install.{is_uninstallers, kept_of, cleanup_install_tree-keeps}
use kwik_proxy_secure.Pipe.{
  Round, Server, connected, transient_error, created, short_of_capacity, going_on, prepared, serve,
  received, newline,
}
use kwik_proxy_secure.Pipe.Serving.{
  IsBearableRound, IsServing, IsSound, IsBearable, IsCreated, serve-IsSound, serve-going_on,
}
use kwik_proxy_secure.Pipe.Framing.{Asks, received_iff}

-- A directory with a file, a junction and an empty directory in it.
abbrev tree : Node
tree = directory listed deleted (
    node_then (plain_file not_found) (
      node_then (reparse_point true deleted)
        (node_then (directory listed deleted no_more) no_more)))

removed : (remove_tree 8 8192 tree).1 ≡ ok 8188
unfolding remove_tree
removed = refl

remove_tree-IsRemoved_example : IsRemoved 8 8192 tree (remove_tree 8 8192 tree) 8188
remove_tree-IsRemoved_example = remove_tree-IsRemoved 8 8192 tree 8188 removed

let_go : IsRemovable tree
unfolding IsRemovable
let_go = (refl, (λ e. cc e), ((λ e. cc e), (refl, ((refl, (λ e. cc e), tt), tt))))

small : size tree ≤ 8192
unfolding size
small = ground arith

low : height tree ≤ 8
unfolding height
low = ground arith

remove_tree-IsRemovable_example : remove_tree 8 8192 tree ≡ (absent, ok (8192 - size tree))
remove_tree-IsRemovable_example = remove_tree-IsRemovable 8 8192 tree let_go small low

abbrev installed_files : Entries
installed_files =
    (codes "Uninstall.EXE", plain_file deleted)
    ∷ (codes "resources", tree)
    ∷ (codes "kwik-helper-x86_64-pc-windows-msvc.exe", plain_file deleted)
    ∷ []

abbrev held : Held
held = record {
  owner_sid = codes "S-1-5-21-1000";
  same_program_files = true;
  same_install = true;
  acl_verified = true;
  added = [];
}

cleaned : (cleanup_install_tree held installed_files).1 ≡ ok tt
unfolding cleanup_install_tree kwik_proxy_secure.Cleanup.remove_install
cleaned = refl

cleanup_install_tree-keeps_example :
    ((cleanup_install_tree held installed_files).0 ≡ kept_of installed_files ++ held.added)
    × (all (λ e. is_uninstallers e.0) (kept_of installed_files ++ held.added) ≡ true)
    × (length installed_files ≤ 256)
    × (validate_sid_text held.owner_sid ≡ true)
    × (held.same_program_files ≡ true)
    × (held.same_install ≡ true)
    × (held.acl_verified ≡ true)
cleanup_install_tree-keeps_example = cleanup_install_tree-keeps held installed_files cleaned

-- Two clients, an error, and a shortage.
abbrev rounds : List Round
rounds =
    record { joined = 0; shutdown = false; accepted = connected (created ∷ []) }
    ∷ record { joined = 0; shutdown = false; accepted = transient_error (created ∷ []) }
    ∷ record {
      joined = 1;
      shutdown = false;
      accepted = connected (short_of_capacity false ∷ created ∷ []);
    }
    ∷ []

serve-IsSound_example : IsSound (serve rounds prepared)
serve-IsSound_example = serve-IsSound rounds prepared (refl, ground arith)

bearable : All IsBearableRound rounds
unfolding IsBearable IsCreated
bearable = ((refl, tt), ((refl, tt), ((refl, tt), tt)))

serve-going_on_example : (s : Server) × (serve rounds prepared ≡ going_on s) × IsServing s
serve-going_on_example = serve-going_on rounds prepared (refl, ground arith) bearable

-- A parser that knows one request, `{}`.
abbrev one : ℕ
one = 1

abbrev seven : ℕ
seven = 7

abbrev parser : List ℕ → Option ℕ
parser bytes = if text_eq bytes (codes "{}") then some seven else none

received_iff_example :
    (received parser (some one) (some (codes "{}" ++ 13 ∷ newline ∷ [])) ≡ ok (one, seven)) ↔ (
      (some one ≡ some one)
      × ((bytes : List ℕ) × (some (codes "{}" ++ 13 ∷ newline ∷ []) ≡ some bytes)
          × Asks parser seven bytes))
received_iff_example =
    received_iff parser one seven (some one) (some (codes "{}" ++ 13 ∷ newline ∷ []))
