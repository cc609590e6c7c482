-- ===== src/Tests/Loading.antt =====
-- The theorems of Security at an installation whose every check holds, and a client of it.
use kwik_proxy_secure.Prelude.{
  List, ℕ, Text, codes, text_eq, true, false, [], ◌∷◌, ◌++◌, Option, none, some, ok, if◌then◌else◌,
  ◌≡◌, refl,
}
use kwik_proxy_secure.Security.{
  bad_install_id, ManifestV1, Opened, Machine, Loaded, backslash, load_installation,
  mihomo_artifact_sha256, wintun_artifact_sha256, geoip_artifact_sha256, geosite_artifact_sha256,
  runtime_dir_of,
}
use kwik_proxy_secure.Security.Trusted.{IsTrusted, load_installation-IsTrusted}
use kwik_proxy_secure.Dispatch.{Client}
use kwik_proxy_secure.Pipe.{newline}
use kwik_proxy_secure.Pipe.Framing.{Asks}
use kwik_proxy_secure.Security.Clients.{
  Process, IsOwnersUi, authenticate_client, request_of, request_of-IsOwnersUi,
}
use kwik_proxy_secure.Tests.{std_example}

abbrev joined : Text → Text → Text
joined path name = path ++ backslash ∷ name

abbrev install_dir : Text
install_dir = codes "p" ++ backslash ∷ codes "k"

abbrev in_dir : Text → Text
in_dir name = joined install_dir name

abbrev manifest_example : ManifestV1
manifest_example = record {
  generation = codes "g";
  owner_sid = codes "S-1-5";
  install_id = codes "i";
  version = codes "1";
  install_dir = install_dir;
  ui_path = in_dir (codes "u");
  helper_path = in_dir (codes "h");
  mihomo_path = in_dir (codes "m");
  wintun_path = in_dir (codes "w");
  geoip_path = in_dir (codes "i");
  geosite_path = in_dir (codes "s");
  ui_sha256 = mihomo_artifact_sha256;
  helper_sha256 = mihomo_artifact_sha256;
  mihomo_sha256 = mihomo_artifact_sha256;
  wintun_sha256 = wintun_artifact_sha256;
  geoip_sha256 = geoip_artifact_sha256;
  geosite_sha256 = geosite_artifact_sha256;
}

abbrev content : Text → Text
content path =
    if text_eq path (in_dir (codes "w"))
    then wintun_artifact_sha256
    else if text_eq path (in_dir (codes "i"))
    then geoip_artifact_sha256
    else if text_eq path (in_dir (codes "s"))
    then geosite_artifact_sha256
    else mihomo_artifact_sha256

abbrev opened : Text → Opened
opened path = record {
  is_directory = false;
  is_reparse_point = false;
  links = 1;
  size = 9;
  final_path = some path;
  canonical_path = some path;
  acl_verified = true;
  sha256 = some (content path);
}

abbrev machine_example : Machine
machine_example = record {
  std = std_example;
  values = some (codes "{}", codes "{}");
  parse = λ t. some manifest_example;
  is_uuid = λ t. true;
  registry_acl = λ sid. true;
  package_version = codes "1";
  program_files = some (codes "p");
  program_data = some (codes "d");
  current_helper = some (in_dir (codes "h"));
  canonical_dir = λ path. some path;
  directory_verified = λ path sid. true;
  join = joined;
  open_file = λ path. some (opened path);
}

abbrev loaded_example : Loaded
loaded_example = record {
  manifest = manifest_example;
  install_dir = install_dir;
  ui_path = in_dir (codes "u");
  helper_path = in_dir (codes "h");
  mihomo_path = in_dir (codes "m");
  wintun_path = in_dir (codes "w");
  geoip_path = in_dir (codes "i");
  geosite_path = in_dir (codes "s");
  runtime_dir = runtime_dir_of machine_example (codes "d") manifest_example;
}

loads : load_installation machine_example ≡ ok loaded_example
unfolding load_installation kwik_proxy_secure.Security.load_manifest
    kwik_proxy_secure.Security.load_install_dir kwik_proxy_secure.Security.load_digests
    kwik_proxy_secure.Security.load_protected_files kwik_proxy_secure.Security.verify_protected_file
    kwik_proxy_secure.Security.open_verified_plain_file
    kwik_proxy_secure.Security.require_artifact_hash kwik_proxy_secure.Security.validate_sha256_text
    kwik_proxy_secure.Security.same_path kwik_proxy_secure.Security.require_descendant
    kwik_proxy_secure.Security.normalized text_eq kwik_proxy_secure.Cleanup.validate_sid_text
    kwik_proxy_secure.Prelude.len kwik_proxy_secure.Prelude.starts_with
    kwik_proxy_secure.Prelude.strip_prefix kwik_proxy_secure.Prelude.trim_end_matches
loads = refl

load_installation-IsTrusted_example : IsTrusted machine_example loaded_example
load_installation-IsTrusted_example =
    load_installation-IsTrusted machine_example loaded_example loads

-- The protected user interface, run by the owner in session 1.
abbrev process_example : Process
process_example = record {
  pid = some 7;
  is_opened = true;
  sid = some (codes "s-1-5");
  session_id = some 1;
  sessions = some ((0, false) ∷ (1, true) ∷ []);
  image = some (in_dir (codes "u"));
}

abbrev client_example : Client
client_example = record { session_id = 1; pid = 7 }

abbrev request_example : ℕ
request_example = 3

abbrev json_example : List ℕ → Option ℕ
json_example bytes = if text_eq bytes (codes "{}") then some request_example else none

abbrev sent_example : Option (List ℕ)
sent_example = some (codes "{}" ++ newline ∷ [])

comes_in :
    request_of machine_example loaded_example json_example process_example sent_example
    ≡ ok (client_example, request_example)
unfolding authenticate_client kwik_proxy_secure.Security.same_path
    kwik_proxy_secure.Security.normalized text_eq kwik_proxy_secure.Prelude.to_ascii_lowercase
    kwik_proxy_secure.Prelude.strip_prefix kwik_proxy_secure.Pipe.received
    kwik_proxy_secure.Pipe.checked_payload kwik_proxy_secure.Pipe.read_until_newline
    kwik_proxy_secure.Pipe.pop_carriage_return
comes_in = refl

request_of-IsOwnersUi_example :
    IsOwnersUi machine_example loaded_example process_example client_example
    × ((bytes : List ℕ) × (sent_example ≡ some bytes) × Asks json_example request_example bytes)
request_of-IsOwnersUi_example =
    request_of-IsOwnersUi machine_example loaded_example json_example process_example sent_example
      client_example request_example comes_in
