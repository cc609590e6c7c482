-- ===== src/Security/Paths.antt =====
-- src-tauri/src/bin/kwik_helper/security.rs: what is known of a file that the checks of a path let through.
use mathlib.Core.Path.{ap, subst}
use kwik_proxy_secure.Prelude.{
  Text, text_eq, text_eq_iff, starts_with, trim_end_matches, true, ◌&&◌, [], ◌∷◌, ◌++◌, Option,
  none, some, Result, ok, err, ◌≡◌, ◌⊎◌, ◌∙◌, refl, arith, inl, inr, Bool-cases, ensure->>-ok,
  >>=-eq-ok,
}
use kwik_proxy_secure.Security.{
  file_acl_rejected, escapes_root, bad_digest, path_mismatch, no_final_path, not_plain,
  digest_mismatch, not_hashed, cannot_open, Opened, Machine, Error, validate_sha256_text, backslash,
  is_backslash, normalized, same_path, require_descendant, is_plain, open_verified_plain_file,
  verify_protected_file, or_bail,
}

abbrev pub value_or : {A : Type 0} → A → Result Error A → A
value_or b (err x) = b
value_or b (ok x) = x

pub ok_inj : {A : Type 0} (a b : A) → ◌≡◌ {A = Result Error A} (ok a) (ok b) → a ≡ b
ok_inj a b h = ap (value_or a) h

pub or_bail-ok : {A : Type 0} (e : Error) (o : Option A) (a : A) → or_bail e o ≡ ok a → o ≡ some a
or_bail-ok e none a h = cc
or_bail-ok e (some b) a h = ap some (ok_inj b a h)

-- A text that begins with another goes on after it.
starts_with_lem :
    (s prefix : Text) → starts_with s prefix ≡ true → (rest : Text) × (s ≡ prefix ++ rest)
unfolding starts_with
starts_with_lem s [] h = (s, refl)
starts_with_lem [] (d ∷ t) h = cc
starts_with_lem (c ∷ s) (d ∷ t) h =
    let same : c ≡ d = ground (arith, h) in
    let (rest, e) = starts_with_lem s t (ground (arith, h)) in
    (rest, ap (λ x. x ∷ s) same ∙ ap (λ l. d ∷ l) e)

module _ (m : Machine) where
  -- A path is the root, or is the root, a separator and a rest.
  abbrev pub IsInside : Text → Text → Type 0
  IsInside path root =
      (normalized m path ≡ normalized m root)
      ⊎ ((rest : Text) × (normalized m path
            ≡ (trim_end_matches is_backslash (normalized m root) ++ backslash ∷ []) ++ rest))

  pub require_descendant-IsInside :
      (path root : Text) → require_descendant m path root ≡ true → IsInside path root
  unfolding require_descendant
  require_descendant-IsInside path root h =
      elim (Bool-cases (text_eq (normalized m path) (normalized m root))) [
        | inl same ↦ inl ((text_eq_iff _ _).0 same)
        | inr other ↦ inr (starts_with_lem _ _ (ground (arith, h, other)))
      ]

  -- A file that was opened: inside the root, plain and with one name, its path neither redirected nor
  -- relative, and its ACL exact.
  pub record IsOpened (path root : Text) (file : Opened) (final : Text) : Type 0 where
    pub inside : IsInside path root
    pub opened : m.open_file path ≡ some file
    pub plain : is_plain m file ≡ true
    pub final_path : file.final_path ≡ some final
    pub canonical : Text
    pub canonical_path : file.canonical_path ≡ some canonical
    pub not_redirected : (same_path m final canonical && same_path m path canonical) ≡ true
    pub acl_verified : file.acl_verified ≡ true

  -- Such a file whose content is that of the digest.
  abbrev pub IsProtected : Text → Text → Text → Text → Type 0
  IsProtected path root expected final =
      (file : Opened) × IsOpened path root file final × (file.sha256 ≡ some expected)

  opened_lem :
      (path root : Text) (found : Opened × Text)
      → open_verified_plain_file m path root ≡ ok found
      → IsOpened path root found.0 found.1
  unfolding open_verified_plain_file
  opened_lem path root found h =
      let (inside, h1) = ensure->>-ok (require_descendant m path root) escapes_root _ h in
      let (f, opening, h2) = >>=-eq-ok (or_bail cannot_open (m.open_file path)) _ h1 in
      let (plain, h3) = ensure->>-ok (is_plain m f) not_plain _ h2 in
      let (actual, finally, h4) = >>=-eq-ok (or_bail no_final_path f.final_path) _ h3 in
      let (expected, canonically, h5) = >>=-eq-ok (or_bail no_final_path f.canonical_path) _ h4 in
      let (same, h6) =
        ensure->>-ok (same_path m actual expected && same_path m path expected) path_mismatch _
          h5 in
      let (acl, h7) = ensure->>-ok f.acl_verified file_acl_rejected (ok (f, actual)) h6 in
      subst (λ (x : Opened × Text). IsOpened path root x.0 x.1) (ok_inj (f, actual) found h7)
        (record {
          inside = require_descendant-IsInside path root inside;
          opened = or_bail-ok cannot_open (m.open_file path) f opening;
          plain = plain;
          final_path = or_bail-ok no_final_path f.final_path actual finally;
          canonical = expected;
          canonical_path = or_bail-ok no_final_path f.canonical_path expected canonically;
          not_redirected = same;
          acl_verified = acl;
        })

  pub verify_protected_file-IsProtected :
      (path root expected final : Text)
      → verify_protected_file m path root expected ≡ ok final
      → IsProtected path root expected final
  unfolding verify_protected_file
  verify_protected_file-IsProtected path root expected final h =
      let (digest, h1) = ensure->>-ok (validate_sha256_text expected) bad_digest _ h in
      let (found, opening, h2) = >>=-eq-ok (open_verified_plain_file m path root) _ h1 in
      let (actual, hashed, h3) = >>=-eq-ok (or_bail not_hashed found.0.sha256) _ h2 in
      let (same, h4) = ensure->>-ok (text_eq actual expected) digest_mismatch (ok found.1) h3 in
      (
        found.0,
        subst (IsOpened path root found.0) (ok_inj found.1 final h4)
            (opened_lem path root found opening),
        or_bail-ok not_hashed found.0.sha256 actual hashed
            ∙ ap some ((text_eq_iff actual expected).0 same),
      )
