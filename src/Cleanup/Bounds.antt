-- ===== src/Cleanup/Bounds.antt =====
-- src-tauri/src/bin/kwik_helper/security.rs: what a removal that succeeds has done, and which trees it
-- removes.
use mathlib.Core.Path.{ap}
use kwik_proxy_secure.Prelude.{
  max, ℕ, zero, suc, ◌+◌, ◌≤◌, Bool, true, false, ok, err, if◌then◌else◌, ltb, ◌≡◌, ◌∙◌, refl, sym,
  arith,
}
use kwik_proxy_secure.Cleanup.{
  entry_bound_exceeded, Deletion, deleted, not_found, refused, Node, absent, unreadable,
  reparse_point, plain_file, directory, Nodes, no_more, node_then, listed, not_opened, not_listed,
  Removal, Removals, count_nodes, remove_tree, remove_entries, remove_directory, delete_plain_file,
  unlink, go_on, put_back, fail,
}

-- How many paths there are under a path, and how deep they go.
unfoldable mutual
  pub size : Node → ℕ
  size absent = 1
  size unreadable = 1
  size (reparse_point d a) = 1
  size (plain_file a) = 1
  size (directory l a ns) = suc (size_all ns)

  pub size_all : Nodes → ℕ
  size_all no_more = 0
  size_all (node_then n ns) = size n + size_all ns

unfoldable mutual
  pub height : Node → ℕ
  height absent = 1
  height unreadable = 1
  height (reparse_point d a) = 1
  height (plain_file a) = 1
  height (directory l a ns) = suc (height_all ns)

  pub height_all : Nodes → ℕ
  height_all no_more = 0
  height_all (node_then n ns) = max (height n) (height_all ns)

-- A removal that used up its budget for exactly the paths of a tree that is within the bounds.
pub record IsRemoved (depth budget : ℕ) (n : Node) (r : Removal) (b : ℕ) : Type 0 where
  pub nothing_left : r.0 ≡ absent
  pub spent : b + size n ≡ budget
  pub deep : height n ≤ depth

pub record AreRemoved (depth budget : ℕ) (ns : Nodes) (r : Removals) (b : ℕ) : Type 0 where
  pub nothing_left : r.0 ≡ no_more
  pub spent : b + size_all ns ≡ budget
  pub deep : height_all ns ≤ depth

unlink_lem :
    (depth budget : ℕ) (d : Bool) (a : Deletion) (b : ℕ)
    → (unlink budget d a).1 ≡ ok b
    → IsRemoved (suc depth) (suc budget) (reparse_point d a) (unlink budget d a) b
unfolding size height
unlink_lem depth budget d deleted b h = record {
  nothing_left = refl;
  spent = ground (arith, h);
  deep = ground arith;
}
unlink_lem depth budget d not_found b h = cc
unlink_lem depth budget d refused b h = cc

delete_lem :
    (depth budget : ℕ) (a : Deletion) (b : ℕ)
    → (delete_plain_file budget a).1 ≡ ok b
    → IsRemoved (suc depth) (suc budget) (plain_file a) (delete_plain_file budget a) b
unfolding size height
delete_lem depth budget deleted b h = record {
  nothing_left = refl;
  spent = ground (arith, h);
  deep = ground arith;
}
delete_lem depth budget not_found b h = record {
  nothing_left = refl;
  spent = ground (arith, h);
  deep = ground arith;
}
delete_lem depth budget refused b h = cc

suc_le : {a b : ℕ} → a ≤ b → suc a ≤ suc b
suc_le h = ground (arith, h)

directory_lem :
    (depth budget : ℕ) (a : Deletion) (ns : Nodes) (r : Removals) (b : ℕ)
    → ((b' : ℕ) → r.1 ≡ ok b' → AreRemoved depth budget ns r b')
    → (remove_directory a r).1 ≡ ok b
    → IsRemoved (suc depth) (suc budget) (directory listed a ns) (remove_directory a r) b
unfolding size height
directory_lem depth budget a ns (left, err e) b ih h = cc
directory_lem depth budget refused ns (left, ok b') b ih h = cc
directory_lem depth budget deleted ns (left, ok b') b ih h =
    let inside = ih b' refl in
    record {
      nothing_left = refl;
      spent = ground (arith, h, inside.spent);
      deep = suc_le (inside.deep);
    }
directory_lem depth budget not_found ns (left, ok b') b ih h =
    let inside = ih b' refl in
    record {
      nothing_left = refl;
      spent = ground (arith, h, inside.spent);
      deep = suc_le (inside.deep);
    }

max_le : (a b c : ℕ) → a ≤ c → b ≤ c → max a b ≤ c
max_le a b c h h' = ground (arith, h, h')

bounded_lem :
    (depth budget : ℕ) (a : Deletion) (ns : Nodes) (r : Removals) (over : Bool) (b : ℕ)
    → ((b' : ℕ) → r.1 ≡ ok b' → AreRemoved depth budget ns r b')
    → (if over then fail (directory listed a ns) entry_bound_exceeded else remove_directory a r).1
      ≡ ok b
    → IsRemoved
        (suc depth)
        (suc budget)
        (directory listed a ns)
        (if over then fail (directory listed a ns) entry_bound_exceeded else remove_directory a r)
        b
bounded_lem depth budget a ns r true b ih h = cc
bounded_lem depth budget a ns r false b ih h = directory_lem depth budget a ns r b ih h

go_on_lem :
    (depth budget : ℕ) (n : Node) (ns : Nodes) (r : Removal) (next : ℕ → Removals) (b : ℕ)
    → ((b' : ℕ) → r.1 ≡ ok b' → IsRemoved depth budget n r b')
    → ((b' b'' : ℕ) → (next b').1 ≡ ok b'' → AreRemoved depth b' ns (next b') b'')
    → (go_on ns next r).1 ≡ ok b
    → AreRemoved depth budget (node_then n ns) (go_on ns next r) b
unfolding size height
go_on_lem depth budget n ns (left, err e) next b ih ihs h = cc
go_on_lem depth budget n ns (left, ok b') next b ih ihs h =
    let first = ih b' refl in
    let same : put_back left (next b') ≡ next b' =
      ap (λ l. put_back l (next b')) first.nothing_left in
    let rest = ihs b' b (sym (ap (λ (r : Removals). r.1) same) ∙ h) in
    record {
      nothing_left = ap (λ (r : Removals). r.0) same ∙ rest.nothing_left;
      spent = ground (arith, first.spent, rest.spent);
      deep = max_le (height n) (height_all ns) depth first.deep rest.deep;
    }

mutual
  unfolding remove_tree size height

  remove_tree_lem :
      (depth budget : ℕ) (n : Node) (b : ℕ)
      → (remove_tree depth budget n).1 ≡ ok b
      → IsRemoved depth budget n (remove_tree depth budget n) b
  remove_tree_lem zero budget n b h = cc
  remove_tree_lem (suc depth) zero n b h = cc
  remove_tree_lem (suc depth) (suc budget) absent b h = record {
    nothing_left = refl;
    spent = ground (arith, h);
    deep = ground arith;
  }
  remove_tree_lem (suc depth) (suc budget) unreadable b h = cc
  remove_tree_lem (suc depth) (suc budget) (reparse_point d a) b h = unlink_lem depth budget d a b h
  remove_tree_lem (suc depth) (suc budget) (plain_file a) b h = delete_lem depth budget a b h
  remove_tree_lem (suc depth) (suc budget) (directory not_opened a ns) b h = cc
  remove_tree_lem (suc depth) (suc budget) (directory not_listed a ns) b h = cc
  remove_tree_lem (suc depth) (suc budget) (directory listed a ns) b h =
      bounded_lem depth budget a ns (remove_entries depth budget ns) (ltb budget (count_nodes ns)) b
        (λ b'. remove_entries_lem depth budget ns b') h

  remove_entries_lem :
      (depth budget : ℕ) (ns : Nodes) (b : ℕ)
      → (remove_entries depth budget ns).1 ≡ ok b
      → AreRemoved depth budget ns (remove_entries depth budget ns) b
  remove_entries_lem depth budget no_more b h = record {
    nothing_left = refl;
    spent = ground (arith, h);
    deep = ground arith;
  }
  remove_entries_lem depth budget (node_then n ns) b h =
      go_on_lem depth budget n ns (remove_tree depth budget n) (λ b'. remove_entries depth b' ns) b
        (λ b'. remove_tree_lem depth budget n b') (λ b' b''. remove_entries_lem depth b' ns b'') h

-- A removal that succeeds leaves nothing at the path, has met every path of the tree once and taken it
-- off the budget, and the tree was not deeper than the depth allowed.
pub remove_tree-IsRemoved :
    (depth budget : ℕ) (n : Node) (b : ℕ)
    → (remove_tree depth budget n).1 ≡ ok b
    → IsRemoved depth budget n (remove_tree depth budget n) b
remove_tree-IsRemoved = remove_tree_lem
