-- ===== src/Cleanup/Complete.antt =====
-- src-tauri/src/bin/kwik_helper/security.rs: that a removal succeeds on every tree within its bounds that
-- the system lets go.
use mathlib.Core.Path.{ap}
use kwik_proxy_secure.Prelude.{
  max, ℕ, zero, suc, ◌+◌, ◌-◌, ◌≤◌, Bool, true, false, ok, if◌then◌else◌, ltb, ◌≡◌, ◌≢◌, ◌∙◌, refl,
  arith,
}
use kwik_proxy_secure.Cleanup.{
  entry_bound_exceeded, Deletion, deleted, not_found, refused, Node, absent, unreadable,
  reparse_point, plain_file, directory, Nodes, no_more, node_then, listed, not_opened, not_listed,
  Removals, count_nodes, remove_tree, remove_entries, remove_directory, delete_plain_file, unlink,
  go_on, fail, gone,
}
use kwik_proxy_secure.Cleanup.Bounds.{size, size_all, height, height_all}

-- A tree in which every entry is read and deleted or is gone by then.
unfoldable mutual
  pub IsRemovable : Node → Type 0
  IsRemovable absent = Unit
  IsRemovable unreadable = ⊥
  IsRemovable (reparse_point d a) = a ≡ deleted
  IsRemovable (plain_file a) = a ≢ refused
  IsRemovable (directory l a ns) = (l ≡ listed) × (a ≢ refused) × AreRemovable ns

  pub AreRemovable : Nodes → Type 0
  AreRemovable no_more = Unit
  AreRemovable (node_then n ns) = IsRemovable n × AreRemovable ns

size_positive : (n : Node) → 1 ≤ size n
unfolding size
size_positive absent = ground arith
size_positive unreadable = ground arith
size_positive (reparse_point d a) = ground arith
size_positive (plain_file a) = ground arith
size_positive (directory l a ns) = ground arith

count_nodes-size_all : (ns : Nodes) → count_nodes ns ≤ size_all ns
unfolding size
count_nodes-size_all no_more = ground arith
count_nodes-size_all (node_then n ns) = ground (arith, size_positive n, count_nodes-size_all ns)

max_left : (a b c : ℕ) → max a b ≤ c → a ≤ c
max_left a b c h = ground (arith, h)

max_right : (a b c : ℕ) → max a b ≤ c → b ≤ c
max_right a b c h = ground (arith, h)

less_one : (b n budget : ℕ) → b + suc n ≡ suc budget → b + n ≡ budget
less_one b n budget h = ground (arith, h)

first_part : (b m n : ℕ) {c : ℕ} → b + (m + n) ≡ c → (b + n) + m ≡ c
first_part b m n h = ground (arith, h)

plain_lem : (budget : ℕ) (a : Deletion) → a ≢ refused → delete_plain_file budget a ≡ gone budget
plain_lem budget deleted h = refl
plain_lem budget not_found h = refl
plain_lem budget refused h = elim (h refl) [ ]

unlink_lem : (budget : ℕ) (d : Bool) (a : Deletion) → a ≡ deleted → unlink budget d a ≡ gone budget
unlink_lem budget d a h = ap (unlink budget d) h

end_lem :
    (b : ℕ) (a : Deletion) (r : Removals)
    → a ≢ refused
    → r ≡ (no_more, ok b)
    → remove_directory a r ≡ gone b
end_lem b deleted r h e = ap (remove_directory deleted) e
end_lem b not_found r h e = ap (remove_directory not_found) e
end_lem b refused r h e = elim (h refl) [ ]

height_positive : (n : Node) → 1 ≤ height n
unfolding height
height_positive absent = ground arith
height_positive unreadable = ground arith
height_positive (reparse_point d a) = ground arith
height_positive (plain_file a) = ground arith
height_positive (directory l a ns) = ground arith

le_of_suc : {a b : ℕ} → suc a ≤ suc b → a ≤ b
le_of_suc h = ground (arith, h)

fits : (b budget : ℕ) (ns : Nodes) → b + size_all ns ≡ budget → ltb budget (count_nodes ns) ≡ false
fits b budget ns h = ground (arith, h, count_nodes-size_all ns)

directory_lem :
    (a : Deletion) (over : Bool) (n : Node) (b : ℕ) (r : Removals)
    → over ≡ false
    → a ≢ refused
    → r ≡ (no_more, ok b)
    → (if over then fail n entry_bound_exceeded else remove_directory a r) ≡ gone b
directory_lem a true n b r o h e = cc
directory_lem a false n b r o h e = end_lem b a r h e

-- Leaves: one path is spent.
one_spent : {b budget : ℕ} → b + 1 ≡ suc budget → gone budget ≡ (absent, ok b)
one_spent h = ap (λ x. (absent, ok x)) (ground (arith, h))

mutual
  unfolding IsRemovable remove_tree size height

  removable_lem :
      (depth budget : ℕ) (n : Node) (b : ℕ)
      → IsRemovable n
      → b + size n ≡ budget
      → height n ≤ depth
      → remove_tree depth budget n ≡ (absent, ok b)
  removable_lem zero budget n b h s d = absurd (ground (arith, d, height_positive n))
  removable_lem (suc depth) zero n b h s d = absurd (ground (arith, s, size_positive n))
  removable_lem (suc depth) (suc budget) absent b h s d = one_spent s
  removable_lem (suc depth) (suc budget) unreadable b h s d = elim h [ ]
  removable_lem (suc depth) (suc budget) (reparse_point x a) b h s d =
      unlink_lem budget x a h ∙ one_spent s
  removable_lem (suc depth) (suc budget) (plain_file a) b h s d = plain_lem budget a h ∙ one_spent s
  removable_lem (suc depth) (suc budget) (directory not_opened a ns) b h s d = absurd (cc (h.0))
  removable_lem (suc depth) (suc budget) (directory not_listed a ns) b h s d = absurd (cc (h.0))
  removable_lem (suc depth) (suc budget) (directory listed a ns) b h s d =
      directory_lem a (ltb budget (count_nodes ns)) (directory listed a ns) b
        (remove_entries depth budget ns) (fits b budget ns (less_one b (size_all ns) budget s)) h.1
        (all_removable_lem depth budget ns b h.2 (less_one b (size_all ns) budget s) (le_of_suc d))

  all_removable_lem :
      (depth budget : ℕ) (ns : Nodes) (b : ℕ)
      → AreRemovable ns
      → b + size_all ns ≡ budget
      → height_all ns ≤ depth
      → remove_entries depth budget ns ≡ (no_more, ok b)
  all_removable_lem depth budget no_more b h s d = ap (λ x. (no_more, ok x)) (ground (arith, s))
  all_removable_lem depth budget (node_then n ns) b h s d =
      ap (go_on ns (λ x. remove_entries depth x ns)) (
        removable_lem depth budget n (b + size_all ns) h.0 (first_part b (size n) (size_all ns) s)
          (max_left (height n) (height_all ns) depth d))
      ∙ all_removable_lem depth (b + size_all ns) ns b h.1 refl
          (max_right (height n) (height_all ns) depth d)

-- A tree that is within the bounds on depth and number of paths, and that the system lets go, is removed
-- and its paths are counted, however its entries are ordered.
pub remove_tree-IsRemovable :
    (depth budget : ℕ) (n : Node)
    → IsRemovable n
    → size n ≤ budget
    → height n ≤ depth
    → remove_tree depth budget n ≡ (absent, ok (budget - size n))
remove_tree-IsRemovable depth budget n h s d =
    removable_lem depth budget n (budget - size n) h (omega arith) d
