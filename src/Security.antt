-- ===== src/Security.antt =====
-- src-tauri/src/bin/kwik_helper/security.rs: what `Installation::load` checks before the helper trusts an
-- installation, and the comparisons of paths that it makes. The registry, the file system, the ACLs, the
-- hashes and the JSON and UUID parsers are a parameter.
pub mod Paths
pub mod Trusted
pub mod Clients
use kwik_proxy_secure.Cleanup.{validate_sid_text}
use kwik_proxy_secure.Net.{Std}
use kwik_proxy_secure.Prelude.{
  ℕ, ◌*◌, Text, codes, text_eq, len, starts_with, strip_prefix, trim_end_matches, all,
  is_ascii_digit, Bool, true, false, not, ◌&&◌, ◌||◌, List, [], ◌∷◌, ◌++◌, Option, none, some,
  Result, ok, err, ◌>>=◌, ◌>>◌, ensure, if◌then◌else◌, leb, ◌==◌,
}

pub data Error : Type 0 where
  no_manifest manifest_changed bad_manifest bad_generation bad_sid registry_acl_rejected : Error
  bad_install_id version_mismatch missing_directory escapes_root directory_acl_rejected : Error
  bad_digest unreviewed_artifact cannot_open not_plain no_final_path path_mismatch : Error
  file_acl_rejected not_hashed digest_mismatch wrong_helper : Error

pub record ManifestV1 : Type 0 where
  pub generation : Text
  pub owner_sid : Text
  pub install_id : Text
  pub version : Text
  pub install_dir : Text
  pub ui_path : Text
  pub helper_path : Text
  pub mihomo_path : Text
  pub wintun_path : Text
  pub geoip_path : Text
  pub geosite_path : Text
  pub ui_sha256 : Text
  pub helper_sha256 : Text
  pub mihomo_sha256 : Text
  pub wintun_sha256 : Text
  pub geoip_sha256 : Text
  pub geosite_sha256 : Text

-- What is found when a path is opened without following a reparse point.
pub record Opened : Type 0 where
  pub is_directory : Bool
  pub is_reparse_point : Bool
  pub links : ℕ
  pub size : ℕ
  pub final_path : Option Text
  pub canonical_path : Option Text
  pub acl_verified : Bool
  pub sha256 : Option Text

-- The answers of the system; `values` are the two readings of the manifest.
pub record Machine : Type 0 where
  pub std : Std
  pub values : Option (Text × Text)
  pub parse : Text → Option ManifestV1
  pub is_uuid : Text → Bool
  pub registry_acl : Text → Bool
  pub package_version : Text
  pub program_files : Option Text
  pub program_data : Option Text
  pub current_helper : Option Text
  pub canonical_dir : Text → Option Text
  pub directory_verified : Text → Text → Bool
  pub join : Text → Text → Text
  pub open_file : Text → Option Opened

pub record Loaded : Type 0 where
  pub manifest : ManifestV1
  pub install_dir : Text
  pub ui_path : Text
  pub helper_path : Text
  pub mihomo_path : Text
  pub wintun_path : Text
  pub geoip_path : Text
  pub geosite_path : Text
  pub runtime_dir : Text

abbrev pub mihomo_artifact_sha256 : Text
mihomo_artifact_sha256 = codes "fcc641d58094f3129c2fc3be411c506946d3a5ddbb459ff42d34dd9bfa0864fd"

abbrev pub wintun_artifact_sha256 : Text
wintun_artifact_sha256 = codes "e5da8447dc2c320edc0fc52fa01885c103de8c118481f683643cacc3220dafce"

abbrev pub geoip_artifact_sha256 : Text
geoip_artifact_sha256 = codes "744c97b74c52bae2ac8664fef6ac481d7765cb8432a0df54f0368a88b9b4a354"

abbrev pub geosite_artifact_sha256 : Text
geosite_artifact_sha256 = codes "adf92de0cfc70e458b399f04c5f912bf42d115ed7e37281b30e2f1c68605e4e9"

abbrev pub is_digest_char : ℕ → Bool
is_digest_char c = is_ascii_digit c || (leb b'a' c && leb c b'f')

unfoldable pub validate_sha256_text : Text → Bool
unfolding len
validate_sha256_text value = len value == 64 && all is_digest_char value

unfoldable pub require_artifact_hash : Text → Text → Result Error (Unit {0})
unfolding validate_sha256_text text_eq
require_artifact_hash actual expected = do
  ensure (validate_sha256_text actual) bad_digest
  ensure (text_eq actual expected) unreviewed_artifact

abbrev pub backslash : ℕ
backslash = 92

abbrev pub back : ℕ → ℕ
back c = if c == b'/' then backslash else c

abbrev pub replace_slashes : Text → Text
replace_slashes [] = []
replace_slashes (c ∷ cs) = back c ∷ replace_slashes cs

-- `\\?\unc\` and `\\?\`.
abbrev pub unc_prefix : Text
unc_prefix = backslash ∷ backslash ∷ b'?' ∷ backslash ∷ b'u' ∷ b'n' ∷ b'c' ∷ backslash ∷ []

abbrev pub long_prefix : Text
long_prefix = backslash ∷ backslash ∷ b'?' ∷ backslash ∷ []

abbrev pub without_prefix : Text → Text
without_prefix value = elim (strip_prefix value unc_prefix) [
  | some unc ↦ backslash ∷ backslash ∷ unc
  | none ↦ elim (strip_prefix value long_prefix) [ some rest ↦ rest | none ↦ value ]
]

abbrev pub or_bail : {A : Type 0} → Error → Option A → Result Error A
or_bail e none = err e
or_bail e (some a) = ok a

abbrev pub is_backslash : ℕ → Bool
is_backslash c = c == backslash

module _ (m : Machine) where
  unfoldable pub normalized : Text → Text
  unfolding strip_prefix
  normalized path = without_prefix (m.std.to_lowercase (replace_slashes path))

  unfoldable pub same_path : Text → Text → Bool
  unfolding normalized text_eq
  same_path a b = text_eq (normalized a) (normalized b)

  -- The path is the root, or goes on after a separator.
  unfoldable pub require_descendant : Text → Text → Bool
  unfolding normalized text_eq starts_with trim_end_matches
  require_descendant path root =
      text_eq (normalized path) (normalized root)
      || starts_with (normalized path)
          (trim_end_matches is_backslash (normalized root) ++ backslash ∷ [])

  abbrev pub is_plain : Opened → Bool
  is_plain f =
      not f.is_directory && not f.is_reparse_point && f.links == 1 && leb f.size (512 * 1024 * 1024)

  -- `open_verified_plain_file`, without writing.
  unfoldable pub open_verified_plain_file : Text → Text → Result Error (Opened × Text)
  unfolding require_descendant same_path
  open_verified_plain_file path root = do
    ensure (require_descendant path root) escapes_root
    f ← or_bail cannot_open (m.open_file path)
    ensure (is_plain f) not_plain
    actual ← or_bail no_final_path f.final_path
    expected ← or_bail no_final_path f.canonical_path
    ensure (same_path actual expected && same_path path expected) path_mismatch
    ensure f.acl_verified file_acl_rejected
    ok (f, actual)

  unfoldable pub verify_protected_file : Text → Text → Text → Result Error Text
  unfolding validate_sha256_text open_verified_plain_file text_eq
  verify_protected_file path root expected = do
    ensure (validate_sha256_text expected) bad_digest
    found ← open_verified_plain_file path root
    actual ← or_bail not_hashed found.0.sha256
    ensure (text_eq actual expected) digest_mismatch
    ok found.1

  -- `load`, in its parts: the manifest,
  unfoldable pub load_manifest : Result Error ManifestV1
  unfolding text_eq validate_sid_text
  load_manifest = do
    values ← or_bail no_manifest m.values
    ensure (text_eq values.0 values.1) manifest_changed
    manifest ← or_bail bad_manifest (m.parse values.0)
    ensure (m.is_uuid manifest.generation) bad_generation
    ensure (validate_sid_text manifest.owner_sid) bad_sid
    ensure (m.registry_acl manifest.owner_sid) registry_acl_rejected
    ensure (m.is_uuid manifest.install_id) bad_install_id
    ensure (text_eq manifest.version m.package_version) version_mismatch
    ok manifest

  -- the directories,
  unfoldable pub load_install_dir : ManifestV1 → Result Error Text
  unfolding require_descendant
  load_install_dir manifest = do
    known ← or_bail missing_directory m.program_files
    program_files ← or_bail missing_directory (m.canonical_dir known)
    install_dir ← or_bail missing_directory (m.canonical_dir manifest.install_dir)
    ensure (require_descendant install_dir program_files) escapes_root
    ensure (m.directory_verified install_dir manifest.owner_sid) directory_acl_rejected
    resources ← or_bail missing_directory (m.canonical_dir (m.join install_dir (codes "resources")))
    ensure (require_descendant resources install_dir) escapes_root
    ensure (m.directory_verified resources manifest.owner_sid) directory_acl_rejected
    ok install_dir

  -- the digests,
  unfoldable pub load_digests : ManifestV1 → Result Error (Unit {0})
  unfolding require_artifact_hash validate_sha256_text
  load_digests manifest = do
    ensure (validate_sha256_text manifest.ui_sha256) bad_digest
    ensure (validate_sha256_text manifest.helper_sha256) bad_digest
    ensure (validate_sha256_text manifest.mihomo_sha256) bad_digest
    ensure (validate_sha256_text manifest.wintun_sha256) bad_digest
    ensure (validate_sha256_text manifest.geoip_sha256) bad_digest
    ensure (validate_sha256_text manifest.geosite_sha256) bad_digest
    require_artifact_hash manifest.mihomo_sha256 mihomo_artifact_sha256
    require_artifact_hash manifest.wintun_sha256 wintun_artifact_sha256
    require_artifact_hash manifest.geoip_sha256 geoip_artifact_sha256
    require_artifact_hash manifest.geosite_sha256 geosite_artifact_sha256

  abbrev pub runtime_dir_of : Text → ManifestV1 → Text
  runtime_dir_of program_data manifest =
      m.join
        (m.join (m.join (m.join program_data (codes "KwikProxy Secure")) (codes "runtime"))
          manifest.owner_sid)
        manifest.install_id

  -- and the files.
  unfoldable pub load_protected_files : ManifestV1 → Text → Result Error Loaded
  unfolding verify_protected_file same_path
  load_protected_files manifest install_dir = do
    ui_path ← verify_protected_file manifest.ui_path install_dir manifest.ui_sha256
    helper_path ← verify_protected_file manifest.helper_path install_dir manifest.helper_sha256
    mihomo_path ← verify_protected_file manifest.mihomo_path install_dir manifest.mihomo_sha256
    wintun_path ← verify_protected_file manifest.wintun_path install_dir manifest.wintun_sha256
    geoip_path ← verify_protected_file manifest.geoip_path install_dir manifest.geoip_sha256
    geosite_path ← verify_protected_file manifest.geosite_path install_dir manifest.geosite_sha256
    current ← or_bail wrong_helper m.current_helper
    ensure (same_path current helper_path) wrong_helper
    program_data ← or_bail missing_directory m.program_data
    ok (record {
      manifest = manifest;
      install_dir = install_dir;
      ui_path = ui_path;
      helper_path = helper_path;
      mihomo_path = mihomo_path;
      wintun_path = wintun_path;
      geoip_path = geoip_path;
      geosite_path = geosite_path;
      runtime_dir = runtime_dir_of program_data manifest;
    })

  unfoldable pub load_installation : Result Error Loaded
  unfolding load_manifest load_install_dir load_digests load_protected_files
  load_installation = do
    manifest ← load_manifest
    install_dir ← load_install_dir manifest
    load_digests manifest
    load_protected_files manifest install_dir
