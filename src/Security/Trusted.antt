-- ===== src/Security/Trusted.antt =====
-- src-tauri/src/bin/kwik_helper/security.rs: what an installation that loads is known to be.
use mathlib.Core.Path.{subst}
use kwik_proxy_secure.Cleanup.{validate_sid_text}
use kwik_proxy_secure.Prelude.{
  Text, codes, text_eq, text_eq_iff, true, some, ok, ◌≡◌, refl, ensure->>-ok, ensure-ok, >>-ok,
  >>=-eq-ok,
}
use kwik_proxy_secure.Security.{
  registry_acl_rejected, bad_install_id, missing_directory, no_manifest, manifest_changed,
  bad_manifest, bad_generation, bad_sid, version_mismatch, escapes_root, directory_acl_rejected,
  bad_digest, unreviewed_artifact, wrong_helper, ManifestV1, Machine, Loaded,
  mihomo_artifact_sha256, wintun_artifact_sha256, geoip_artifact_sha256, geosite_artifact_sha256,
  validate_sha256_text, require_artifact_hash, same_path, require_descendant, verify_protected_file,
  load_manifest, load_install_dir, load_digests, load_protected_files, load_installation, or_bail,
}
use kwik_proxy_secure.Security.Paths.{
  ok_inj, or_bail-ok, IsInside, IsProtected, require_descendant-IsInside,
  verify_protected_file-IsProtected,
}

module _ (m : Machine) where
  manifest_lem :
      (manifest : ManifestV1)
      → load_manifest m ≡ ok manifest
      → (validate_sid_text manifest.owner_sid ≡ true)
        × (m.registry_acl manifest.owner_sid ≡ true)
        × (manifest.version ≡ m.package_version)
  unfolding load_manifest
  manifest_lem manifest h =
      let (values, read, h1) = >>=-eq-ok (or_bail no_manifest m.values) _ h in
      let (unchanged, h2) = ensure->>-ok (text_eq values.0 values.1) manifest_changed _ h1 in
      let (x, parsed, h3) = >>=-eq-ok (or_bail bad_manifest (m.parse values.0)) _ h2 in
      let (generation, h4) = ensure->>-ok (m.is_uuid x.generation) bad_generation _ h3 in
      let (sid, h5) = ensure->>-ok (validate_sid_text x.owner_sid) bad_sid _ h4 in
      let (acl, h6) = ensure->>-ok (m.registry_acl x.owner_sid) registry_acl_rejected _ h5 in
      let (id, h7) = ensure->>-ok (m.is_uuid x.install_id) bad_install_id _ h6 in
      let (version, h8) =
        ensure->>-ok (text_eq x.version m.package_version) version_mismatch (ok x) h7 in
      subst
        (λ (y : ManifestV1).
          (validate_sid_text y.owner_sid ≡ true)
          × (m.registry_acl y.owner_sid ≡ true)
          × (y.version ≡ m.package_version))
        (ok_inj x manifest h8) (sid, acl, (text_eq_iff x.version m.package_version).0 version)

  install_dir_lem :
      (manifest : ManifestV1) (install_dir : Text)
      → load_install_dir m manifest ≡ ok install_dir
      → (m.canonical_dir manifest.install_dir ≡ some install_dir)
        × ((known program_files : Text) × (m.program_files ≡ some known)
            × (m.canonical_dir known ≡ some program_files)
            × IsInside m install_dir program_files)
        × (m.directory_verified install_dir manifest.owner_sid ≡ true)
  unfolding load_install_dir
  install_dir_lem manifest install_dir h =
      let (known, there, h1) = >>=-eq-ok (or_bail missing_directory m.program_files) _ h in
      let (root, canonical, h2) =
        >>=-eq-ok (or_bail missing_directory (m.canonical_dir known)) _ h1 in
      let (x, found, h3) =
        >>=-eq-ok (or_bail missing_directory (m.canonical_dir manifest.install_dir)) _ h2 in
      let (inside, h4) = ensure->>-ok (require_descendant m x root) escapes_root _ h3 in
      let (acl, h5) =
        ensure->>-ok (m.directory_verified x manifest.owner_sid) directory_acl_rejected _ h4 in
      let (resources, found', h6) =
        >>=-eq-ok (or_bail missing_directory (m.canonical_dir (m.join x (codes "resources")))) _
          h5 in
      let (inside', h7) = ensure->>-ok (require_descendant m resources x) escapes_root _ h6 in
      let (acl', h8) =
        ensure->>-ok (m.directory_verified resources manifest.owner_sid) directory_acl_rejected
          (ok x) h7 in
      subst
        (λ (y : Text).
          (m.canonical_dir manifest.install_dir ≡ some y)
          × ((known program_files : Text) × (m.program_files ≡ some known)
              × (m.canonical_dir known ≡ some program_files)
              × IsInside m y program_files)
          × (m.directory_verified y manifest.owner_sid ≡ true))
        (ok_inj x install_dir h8)
        (
          or_bail-ok missing_directory (m.canonical_dir manifest.install_dir) x found,
          (
            known,
            root,
            or_bail-ok missing_directory m.program_files known there,
            or_bail-ok missing_directory (m.canonical_dir known) root canonical,
            require_descendant-IsInside m x root inside,
          ),
          acl,
        )

  artifact_lem :
      (actual expected : Text) → require_artifact_hash actual expected ≡ ok tt → actual ≡ expected
  unfolding require_artifact_hash
  artifact_lem actual expected h =
      let (digest, h1) = ensure->>-ok (validate_sha256_text actual) bad_digest _ h in
      (text_eq_iff actual expected).0 (ensure-ok (text_eq actual expected) unreviewed_artifact h1)

  digests_lem :
      (x : ManifestV1)
      → load_digests m x ≡ ok tt
      → (x.mihomo_sha256 ≡ mihomo_artifact_sha256)
        × (x.wintun_sha256 ≡ wintun_artifact_sha256)
        × (x.geoip_sha256 ≡ geoip_artifact_sha256)
        × (x.geosite_sha256 ≡ geosite_artifact_sha256)
  unfolding load_digests
  digests_lem x h =
      let (ui, h1) = ensure->>-ok (validate_sha256_text x.ui_sha256) bad_digest _ h in
      let (helper, h2) = ensure->>-ok (validate_sha256_text x.helper_sha256) bad_digest _ h1 in
      let (mihomo, h3) = ensure->>-ok (validate_sha256_text x.mihomo_sha256) bad_digest _ h2 in
      let (wintun, h4) = ensure->>-ok (validate_sha256_text x.wintun_sha256) bad_digest _ h3 in
      let (geoip, h5) = ensure->>-ok (validate_sha256_text x.geoip_sha256) bad_digest _ h4 in
      let (geosite, h6) = ensure->>-ok (validate_sha256_text x.geosite_sha256) bad_digest _ h5 in
      let (first, h7) = >>-ok (require_artifact_hash x.mihomo_sha256 mihomo_artifact_sha256) _ h6 in
      let (second, h8) =
        >>-ok (require_artifact_hash x.wintun_sha256 wintun_artifact_sha256) _ h7 in
      let (third, fourth) =
        >>-ok (require_artifact_hash x.geoip_sha256 geoip_artifact_sha256) _ h8 in
      (
        artifact_lem x.mihomo_sha256 mihomo_artifact_sha256 first,
        artifact_lem x.wintun_sha256 wintun_artifact_sha256 second,
        artifact_lem x.geoip_sha256 geoip_artifact_sha256 third,
        artifact_lem x.geosite_sha256 geosite_artifact_sha256 fourth,
      )

  -- The files of an installation, each with the digest of the manifest.
  pub record AreProtected (x : ManifestV1) (install_dir : Text) (i : Loaded) : Type 0 where
    pub of_manifest : i.manifest ≡ x
    pub of_dir : i.install_dir ≡ install_dir
    pub ui : IsProtected m x.ui_path install_dir x.ui_sha256 i.ui_path
    pub helper : IsProtected m x.helper_path install_dir x.helper_sha256 i.helper_path
    pub mihomo : IsProtected m x.mihomo_path install_dir x.mihomo_sha256 i.mihomo_path
    pub wintun : IsProtected m x.wintun_path install_dir x.wintun_sha256 i.wintun_path
    pub geoip : IsProtected m x.geoip_path install_dir x.geoip_sha256 i.geoip_path
    pub geosite : IsProtected m x.geosite_path install_dir x.geosite_sha256 i.geosite_path
    pub current : Text
    pub runs : m.current_helper ≡ some current
    pub same_helper : same_path m current i.helper_path ≡ true

  -- An installation that the helper may trust.
  pub record IsTrusted (i : Loaded) : Type 0 where
    pub manifest : ManifestV1
    pub dir : Text
    pub files : AreProtected manifest dir i
    pub owner : validate_sid_text manifest.owner_sid ≡ true
    pub registry_acl : m.registry_acl manifest.owner_sid ≡ true
    pub version : manifest.version ≡ m.package_version
    pub canonical : m.canonical_dir manifest.install_dir ≡ some dir
    pub known : Text
    pub is_known : m.program_files ≡ some known
    pub program_files : Text
    pub is_program_files : m.canonical_dir known ≡ some program_files
    pub inside : IsInside m dir program_files
    pub verified : m.directory_verified dir manifest.owner_sid ≡ true
    pub mihomo_reviewed : manifest.mihomo_sha256 ≡ mihomo_artifact_sha256
    pub wintun_reviewed : manifest.wintun_sha256 ≡ wintun_artifact_sha256
    pub geoip_reviewed : manifest.geoip_sha256 ≡ geoip_artifact_sha256
    pub geosite_reviewed : manifest.geosite_sha256 ≡ geosite_artifact_sha256

  files_lem :
      (x : ManifestV1) (dir : Text) (i : Loaded)
      → load_protected_files m x dir ≡ ok i
      → AreProtected x dir i
  unfolding load_protected_files
  files_lem x dir i h =
      let (ui, ui_ok, h1) = >>=-eq-ok (verify_protected_file m x.ui_path dir x.ui_sha256) _ h in
      let (helper, helper_ok, h2) =
        >>=-eq-ok (verify_protected_file m x.helper_path dir x.helper_sha256) _ h1 in
      let (mihomo, mihomo_ok, h3) =
        >>=-eq-ok (verify_protected_file m x.mihomo_path dir x.mihomo_sha256) _ h2 in
      let (wintun, wintun_ok, h4) =
        >>=-eq-ok (verify_protected_file m x.wintun_path dir x.wintun_sha256) _ h3 in
      let (geoip, geoip_ok, h5) =
        >>=-eq-ok (verify_protected_file m x.geoip_path dir x.geoip_sha256) _ h4 in
      let (geosite, geosite_ok, h6) =
        >>=-eq-ok (verify_protected_file m x.geosite_path dir x.geosite_sha256) _ h5 in
      let (current, runs, h7) = >>=-eq-ok (or_bail wrong_helper m.current_helper) _ h6 in
      let (same, h8) = ensure->>-ok (same_path m current helper) wrong_helper _ h7 in
      let (program_data, known, h9) = >>=-eq-ok (or_bail missing_directory m.program_data) _ h8 in
      subst (AreProtected x dir) (ok_inj _ i h9) (record {
        of_manifest = refl;
        of_dir = refl;
        ui = verify_protected_file-IsProtected m x.ui_path dir x.ui_sha256 ui ui_ok;
        helper =
            verify_protected_file-IsProtected m x.helper_path dir x.helper_sha256 helper helper_ok;
        mihomo =
            verify_protected_file-IsProtected m x.mihomo_path dir x.mihomo_sha256 mihomo mihomo_ok;
        wintun =
            verify_protected_file-IsProtected m x.wintun_path dir x.wintun_sha256 wintun wintun_ok;
        geoip = verify_protected_file-IsProtected m x.geoip_path dir x.geoip_sha256 geoip geoip_ok;
        geosite =
            verify_protected_file-IsProtected m x.geosite_path dir x.geosite_sha256 geosite
              geosite_ok;
        current = current;
        runs = or_bail-ok wrong_helper m.current_helper current runs;
        same_helper = same;
      })

  -- An installation that loads is one to trust: a well-formed owner for whom the registry's ACL is
  -- exact, the version of the helper, a verified directory inside the one that
  -- the system names for Program Files, six plain files inside
  -- it whose paths are not redirected, whose ACLs are exact and whose contents have the manifest's
  -- digests, which for the four that run or are read as SYSTEM are the reviewed ones, and the helper
  -- that runs is the one of the manifest. Inside means to be the root or to go on after a separator.
  pub load_installation-IsTrusted : (i : Loaded) → load_installation m ≡ ok i → IsTrusted i
  unfolding load_installation
  load_installation-IsTrusted i h =
      let (x, manifest_ok, h1) = >>=-eq-ok (load_manifest m) _ h in
      let (dir, dir_ok, h2) = >>=-eq-ok (load_install_dir m x) _ h1 in
      let (digests, files) = >>-ok (load_digests m x) (load_protected_files m x dir) h2 in
      let (owner, acl, version) = manifest_lem x manifest_ok in
      let (canonical, (known, program_files, is_known, is_program_files, inside), verified) =
        install_dir_lem x dir dir_ok in
      let (mihomo, wintun, geoip, geosite) = digests_lem x digests in
      record {
        manifest = x;
        dir = dir;
        files = files_lem x dir i files;
        owner = owner;
        registry_acl = acl;
        version = version;
        canonical = canonical;
        known = known;
        is_known = is_known;
        program_files = program_files;
        is_program_files = is_program_files;
        inside = inside;
        verified = verified;
        mihomo_reviewed = mihomo;
        wintun_reviewed = wintun;
        geoip_reviewed = geoip;
        geosite_reviewed = geosite;
      }
