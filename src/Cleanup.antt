-- ===== src/Cleanup.antt =====
-- src-tauri/src/bin/kwik_helper/security.rs: the bounded removal of directory trees at uninstallation.
-- An entry of a directory carries what the system answers for it, so that every failure is a case. Each
-- function gives what it leaves, and its result.
pub mod Bounds
pub mod Complete
pub mod Install
use kwik_proxy_secure.Prelude.{
  ◌++◌, ℕ, zero, suc, ◌+◌, ◌-◌, Text, codes, text_eq, starts_with, len, length, all, is_ascii_digit,
  to_ascii_lowercase, Bool, true, false, not, ◌&&◌, ◌||◌, List, [], ◌∷◌, Option, none, some, Result,
  ok, err, if◌then◌else◌, ltb, leb, ◌==◌,
}

-- What a deletion answers.
pub data Deletion : Type 0 where
  deleted not_found refused : Deletion

-- What is found at a path. A reparse point, which may be to a directory, leads out of the tree.
mutual
  pub data Node : Type 0 where
    absent unreadable : Node
    reparse_point : Bool → Deletion → Node
    plain_file : Deletion → Node
    directory : Listing → Deletion → Nodes → Node

  -- The entries of a directory, in the order in which they are read.
  pub data Nodes : Type 0 where
    no_more : Nodes
    node_then : Node → Nodes → Nodes

  -- Whether a directory is opened and whether all its entries are read.
  pub data Listing : Type 0 where
    listed not_opened not_listed : Listing

pub data Error : Type 0 where
  bound_exceeded entry_bound_exceeded no_metadata not_unlinked not_deleted : Error
  no_directory no_entries not_removed : Error
  rejected_sid changed_identity rejected_acl payload_remains : Error

-- What is left at a path, and the budget that is left.
abbrev pub Removal : Type 0
Removal = Node × Result Error ℕ

abbrev pub Removals : Type 0
Removals = Nodes × Result Error ℕ

abbrev pub count_nodes : Nodes → ℕ
count_nodes no_more = 0
count_nodes (node_then n ns) = suc (count_nodes ns)

abbrev pub fail : Node → Error → Removal
fail n e = (n, err e)

abbrev pub gone : ℕ → Removal
gone budget = (absent, ok budget)

-- `delete_runtime_plain_file`; its file is gone when the system does not find it.
abbrev pub delete_plain_file : ℕ → Deletion → Removal
delete_plain_file budget deleted = gone budget
delete_plain_file budget not_found = gone budget
delete_plain_file budget refused = fail (plain_file refused) not_deleted

-- The unlinking of a reparse point fails also when it is not found.
abbrev pub unlink : ℕ → Bool → Deletion → Removal
unlink budget is_directory deleted = gone budget
unlink budget is_directory not_found = fail absent not_unlinked
unlink budget is_directory refused = fail (reparse_point is_directory refused) not_unlinked

-- The end of a directory, after its entries.
abbrev pub remove_directory : Deletion → Removals → Removal
remove_directory answer (left, err e) = fail (directory listed answer left) e
remove_directory deleted (left, ok b) = gone b
remove_directory not_found (left, ok b) = gone b
remove_directory refused (left, ok b) = fail (directory listed refused left) not_removed

abbrev pub put_back : Node → Removals → Removals
put_back absent rest = rest
put_back n (left, result) = (node_then n left, result)

-- The loop goes on with the budget that is left, and stops at the first failure.
abbrev pub go_on : Nodes → (ℕ → Removals) → Removal → Removals
go_on ns next (left, err e) = (node_then left ns, err e)
go_on ns next (left, ok b) = put_back left (next b)

-- `remove_bounded_tree_no_follow`, and its loop over the entries of a directory.
unfoldable mutual
  pub remove_tree : ℕ → ℕ → Node → Removal
  remove_tree zero budget n = fail n bound_exceeded
  remove_tree (suc depth) zero n = fail n bound_exceeded
  remove_tree (suc depth) (suc budget) absent = gone budget
  remove_tree (suc depth) (suc budget) unreadable = fail unreadable no_metadata
  remove_tree (suc depth) (suc budget) (reparse_point is_directory answer) =
      unlink budget is_directory answer
  remove_tree (suc depth) (suc budget) (plain_file answer) = delete_plain_file budget answer
  remove_tree (suc depth) (suc budget) (directory not_opened answer ns) =
      fail (directory not_opened answer ns) no_directory
  remove_tree (suc depth) (suc budget) (directory not_listed answer ns) =
      fail (directory not_listed answer ns) no_entries
  remove_tree (suc depth) (suc budget) (directory listed answer ns) =
      let entries = remove_entries depth budget ns in
      if ltb budget (count_nodes ns)
      then fail (directory listed answer ns) entry_bound_exceeded
      else remove_directory answer entries

  pub remove_entries : ℕ → ℕ → Nodes → Removals
  remove_entries depth budget no_more = (no_more, ok budget)
  remove_entries depth budget (node_then n ns) =
      go_on ns (λ b. remove_entries depth b ns) (remove_tree depth budget n)

abbrev pub eq_ignore_ascii_case : Text → Text → Bool
eq_ignore_ascii_case a b = text_eq (to_ascii_lowercase a) (to_ascii_lowercase b)

-- The names that the uninstaller itself deletes.
unfoldable pub keep_for_nsis_uninstaller : Text → Bool
unfolding to_ascii_lowercase text_eq
keep_for_nsis_uninstaller name =
    eq_ignore_ascii_case name (codes "kwik-helper-x86_64-pc-windows-msvc.exe")
    || eq_ignore_ascii_case name (codes "uninstall.exe")

abbrev pub is_sid_char : ℕ → Bool
is_sid_char c = is_ascii_digit c || c == b'-' || c == b'S'

unfoldable pub validate_sid_text : Text → Bool
unfolding len starts_with
validate_sid_text sid =
    not (ltb (len sid) 5)
    && not (ltb 184 (len sid))
    && starts_with sid (codes "S-1-")
    && all is_sid_char sid

-- The entries at the top, with their names, and a removal that goes through them.
abbrev pub Entries : Type 0
Entries = List (Text × Node)

abbrev pub put_back_entry : Text → Node → Entries × Result Error ℕ → Entries × Result Error ℕ
put_back_entry name absent rest = rest
put_back_entry name n (left, result) = ((name, n) ∷ left, result)

abbrev pub go_on_entries :
    Text → Entries → (ℕ → Entries × Result Error ℕ) → Removal → Entries × Result Error ℕ
go_on_entries name es next (left, err e) = ((name, left) ∷ es, err e)
go_on_entries name es next (left, ok b) = put_back_entry name left (next b)

abbrev pub keep_entry : Text × Node → Entries × Result Error ℕ → Entries × Result Error ℕ
keep_entry e (left, result) = (e ∷ left, result)

-- The loop of `cleanup_install_tree_for_uninstaller`.
unfoldable pub remove_install : ℕ → Entries → Entries × Result Error ℕ
unfolding remove_tree keep_for_nsis_uninstaller
remove_install budget [] = ([], ok budget)
remove_install budget ((name, n) ∷ es) =
    if keep_for_nsis_uninstaller name
    then keep_entry (name, n) (remove_install budget es)
    else go_on_entries name es (λ b. remove_install b es) (remove_tree 12 budget n)

-- What the uninstaller finds of the two directories that it holds open, and the entries that others
-- make while it works.
pub record Held : Type 0 where
  pub owner_sid : Text
  pub same_program_files : Bool
  pub same_install : Bool
  pub acl_verified : Bool
  pub added : Entries

abbrev pub is_left : Text × Node → Bool
is_left (name, n) = keep_for_nsis_uninstaller name

-- The last reading of the directory.
abbrev pub check_left : Entries → Entries × Result Error ℕ → Entries × Result Error (Unit {0})
check_left added (left, err e) = (left ++ added, err e)
check_left added (left, ok b) =
    (left ++ added, if all is_left (left ++ added) then ok tt else err payload_remains)

unfoldable pub cleanup_install_tree : Held → Entries → Entries × Result Error (Unit {0})
unfolding validate_sid_text
cleanup_install_tree held entries =
    if not (validate_sid_text held.owner_sid)
    then (entries, err rejected_sid)
    else if not held.same_program_files || not held.same_install
    then (entries, err changed_identity)
    else if not held.acl_verified
    then (entries, err rejected_acl)
    else if ltb 256 (length entries)
    then (entries, err entry_bound_exceeded)
    else check_left held.added (remove_install 32768 entries)
