-- ===== src/Cleanup/Install.antt =====
-- src-tauri/src/bin/kwik_helper/security.rs: what the cleanup of the install directory leaves.
use mathlib.Core.Path.{ap, subst}
use kwik_proxy_secure.Prelude.{
  ◌≤◌, ℕ, Text, length, all, Bool, true, false, not, ◌||◌, [], ◌∷◌, ◌++◌, Result, ok, err,
  if◌then◌else◌, ltb, ◌≡◌, ◌∙◌, refl, sym, arith,
}
use kwik_proxy_secure.Cleanup.{
  codes, eq_ignore_ascii_case, entry_bound_exceeded, rejected_acl, changed_identity, rejected_sid,
  validate_sid_text, payload_remains, absent, Error, Entries, Held, keep_for_nsis_uninstaller,
  is_left, remove_install, keep_entry, go_on_entries, put_back_entry, check_left,
  cleanup_install_tree, remove_tree, Removal,
}
use kwik_proxy_secure.Cleanup.Bounds.{remove_tree-IsRemoved}

-- The helper's file and the uninstaller's, whatever the case of their letters.
abbrev pub is_uninstallers : Text → Bool
is_uninstallers name =
    eq_ignore_ascii_case name (codes "kwik-helper-x86_64-pc-windows-msvc.exe")
    || eq_ignore_ascii_case name (codes "uninstall.exe")

-- The entries that are kept, in their order.
abbrev pub kept_of : Entries → Entries
kept_of [] = []
kept_of ((name, n) ∷ es) = if is_uninstallers name then (name, n) ∷ kept_of es else kept_of es

removed_entry_lem :
    (name : Text) (es : Entries) (next : ℕ → Entries × Result Error ℕ) (r : Removal) (b : ℕ)
    → ((b' : ℕ) → r.1 ≡ ok b' → r.0 ≡ absent)
    → ((b' b'' : ℕ) → (next b').1 ≡ ok b'' → (next b').0 ≡ kept_of es)
    → (go_on_entries name es next r).1 ≡ ok b
    → (go_on_entries name es next r).0 ≡ kept_of es
removed_entry_lem name es next (left, err e) b h ih e' = cc
removed_entry_lem name es next (left, ok b') b h ih e' =
    let same : put_back_entry name left (next b') ≡ next b' =
      ap (λ l. put_back_entry name l (next b')) (h b' refl) in
    ap (λ (r : Entries × Result Error ℕ). r.0) same
    ∙ ih b' b (sym (ap (λ (r : Entries × Result Error ℕ). r.1) same) ∙ e')

remove_install_lem :
    (budget : ℕ) (es : Entries) (b : ℕ)
    → (remove_install budget es).1 ≡ ok b
    → (remove_install budget es).0 ≡ kept_of es
unfolding remove_install keep_for_nsis_uninstaller
remove_install_lem budget [] b h = refl
remove_install_lem budget ((name, n) ∷ es) b h =
    chosen (is_uninstallers name) (λ b' b''. remove_install_lem b' es b'') h
  where
    chosen :
        (k : Bool)
        → ((b' b'' : ℕ) → (remove_install b' es).1 ≡ ok b'' → (remove_install b' es).0 ≡ kept_of es)
        → (if k
            then keep_entry (name, n) (remove_install budget es)
            else go_on_entries name es (λ b. remove_install b es) (remove_tree 12 budget n)).1
          ≡ ok b
        → (if k
            then keep_entry (name, n) (remove_install budget es)
            else go_on_entries name es (λ b. remove_install b es) (remove_tree 12 budget n)).0
          ≡ (if k then (name, n) ∷ kept_of es else kept_of es)
    chosen true ih e = ap (λ l. (name, n) ∷ l) (ih budget b e)
    chosen false ih e =
        removed_entry_lem name es (λ b. remove_install b es) (remove_tree 12 budget n) b
          (λ b' e'. (remove_tree-IsRemoved 12 budget n b' e').nothing_left) ih e

check_left_lem :
    (added es : Entries) (r : Entries × Result Error ℕ)
    → ((b : ℕ) → r.1 ≡ ok b → r.0 ≡ kept_of es)
    → (check_left added r).1 ≡ ok tt
    → ((check_left added r).0 ≡ kept_of es ++ added) × (all is_left (kept_of es ++ added) ≡ true)
check_left_lem added es (left, err e) ih h = cc
check_left_lem added es (left, ok b) ih h =
    let same = ih b refl in
    (
      ap (λ l. l ++ added) same,
      passed (all is_left (kept_of es ++ added)) (
          subst (λ l. (if all is_left (l ++ added) then ok tt else err payload_remains) ≡ ok tt)
            same h),
    )
  where
    passed : (t : Bool) → (if t then ok tt else err payload_remains) ≡ ok tt → t ≡ true
    passed true e = refl
    passed false e = cc

left_lem : (es : Entries) → all is_left es ≡ true → all (λ e. is_uninstallers e.0) es ≡ true
unfolding keep_for_nsis_uninstaller
left_lem [] h = refl
left_lem ((name, n) ∷ es) h = let rest = left_lem es in ground arith

-- A guard that did not end the function was false, and the rest stands for it.
guard_lem :
    {A E : Type 0} (test : Bool) (a : A) (e : E) (rest : A × Result E (Unit {0}))
    → (if test then (a, err e) else rest).1 ≡ ok tt
    → (test ≡ false) × (rest.1 ≡ ok tt) × ((if test then (a, err e) else rest) ≡ rest)
guard_lem true a e rest h = cc
guard_lem false a e rest h = (refl, h, refl)

-- A cleanup of the install directory that succeeds leaves the helper's file and `uninstall.exe`, whatever the
-- case of their letters, untouched and in their order, and of what others have made meanwhile only such names; it was
-- given at most 256 entries, a well-formed owner, a Program Files directory and an install directory of the
-- identities that were recorded, and the verified ACL.
pub cleanup_install_tree-keeps :
    (held : Held) (es : Entries)
    → (cleanup_install_tree held es).1 ≡ ok tt
    → ((cleanup_install_tree held es).0 ≡ kept_of es ++ held.added)
      × (all (λ e. is_uninstallers e.0) (kept_of es ++ held.added) ≡ true)
      × (length es ≤ 256)
      × (validate_sid_text held.owner_sid ≡ true)
      × (held.same_program_files ≡ true)
      × (held.same_install ≡ true)
      × (held.acl_verified ≡ true)
unfolding cleanup_install_tree
cleanup_install_tree-keeps held es h =
    let (sid, h1, same1) = guard_lem (not (validate_sid_text held.owner_sid)) es rejected_sid _ h in
    let (paths, h2, same2) =
      guard_lem (not held.same_program_files || not held.same_install) es changed_identity _ h1 in
    let (acl, h3, same3) = guard_lem (not held.acl_verified) es rejected_acl _ h2 in
    let (few, h4, same4) = guard_lem (ltb 256 (length es)) es entry_bound_exceeded _ h3 in
    let (left, checked) =
      check_left_lem held.added es (remove_install 32768 es) (remove_install_lem 32768 es) h4 in
    (
      ap (λ (r : Entries × Result Error (Unit {0})). r.0) (same1 ∙ same2 ∙ same3 ∙ same4) ∙ left,
      left_lem (kept_of es ++ held.added) checked,
      ground (arith, few),
      ground (arith, sid),
      ground (arith, paths),
      ground (arith, paths),
      ground (arith, acl),
    )
