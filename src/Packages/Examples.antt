-- ===== src/Packages/Examples.antt =====
-- The package manager's theorems at concrete inputs.
use tinox.Prelude.{
  Text, codes, none, some, [], ◌∷◌, true, false, not, ◌||◌, if◌then◌else◌, length, ◌≡◌, ◌↔◌, refl,
  arith,
}
use tinox.Packages.Types.{Repository, TinoxManifest, Dependency, LockEntry, TinoxLock, done}
use tinox.Packages.Strings.{lines, eq_ignore_ascii_case}
use tinox.Packages.Manifest.{parse_manifest}
use tinox.Packages.Render.{format_dependencies}
use tinox.Packages.RoundTrip.{Plain}
use tinox.Packages.Tables.{Writable, parse_manifest-format}
use tinox.Packages.Resolve.{
  effective_download_url, same_coordinates, dep_coordinates, lock_entry_for, upsert_lock_entry,
  verify_checksum, dep_install_dir,
}
use tinox.Packages.Addresses.{effective_download_url-repository}
use tinox.Packages.Base64.{base64_decode}
use tinox.Packages.Pinning.{
  Distinct, lock_entry_for-upsert, upsert_lock_entry-Distinct, verify_checksum-upsert,
}
use tinox.Packages.Sections.{count_headers, parse_manifest-tables}
use tinox.Packages.Locations.{IsPlain, deps_dir, dep_install_dir_iff, dep_install_dir-injective}
use tinox.Packages.Envelope.{extract_json_string_field}
use tinox.Packages.Fields.{extract_json_string_field-escaped}
use tinox.Packages.Decoding.{base64_decode-encode}

abbrev json : Dependency
json = record {
  group = codes "org";
  artifact_id = codes "json";
  version = codes "1.0";
  url = none;
  repository = none;
  sha256 = none;
}

abbrev locked : LockEntry
locked = record {
  group = codes "org";
  artifact_id = codes "json";
  version = codes "1.0";
  url = codes "http://a";
  sha256 = codes "0a";
}

abbrev lock : TinoxLock
lock = record { dependencies = locked ∷ [] }

abbrev root : Text
root = codes "/home/x"

lock_entry_for-upsert_example : lock_entry_for (upsert_lock_entry lock locked) json ≡ (
    if same_coordinates (dep_coordinates json) locked
    then some locked
    else lock_entry_for lock json)
lock_entry_for-upsert_example = lock_entry_for-upsert lock locked json

upsert_lock_entry-Distinct_example : Distinct (upsert_lock_entry lock locked).dependencies
upsert_lock_entry-Distinct_example = upsert_lock_entry-Distinct lock locked (tt, tt)

verify_checksum-upsert_example :
    (verify_checksum json (codes "http://a") (upsert_lock_entry lock locked) false (codes "0A")
      ≡ done tt)
    ↔ ((eq_ignore_ascii_case (codes "0a") (codes "0A") || not true) ≡ true)
verify_checksum-upsert_example =
    verify_checksum-upsert lock json (codes "http://a") (codes "http://a") (codes "0a") (codes "0A")
      refl

abbrev manifest_text : Text
manifest_text =
    codes "[package]\nname = \"x\"\n [[dependencies]]\r\ngroup = \"org\"\n[[repositories]]"

parse_manifest-tables_example :
    (length (parse_manifest manifest_text).dependencies
      ≡ count_headers (codes "[[dependencies]]") (lines manifest_text))
    × (length (parse_manifest manifest_text).repositories
        ≡ count_headers (codes "[[repositories]]") (lines manifest_text))
parse_manifest-tables_example = parse_manifest-tables manifest_text

-- One table of each kind stands in the example.
one_table : count_headers (codes "[[dependencies]]") (lines manifest_text) ≡ 1
one_table = refl

dep_install_dir_iff_example :
    (dep_install_dir root json ≡ done (deps_dir root (codes "org") (codes "json") (codes "1.0")))
    ↔ (IsPlain (codes "org")
        × IsPlain (codes "json")
        × IsPlain (codes "1.0")
        × (deps_dir root (codes "org") (codes "json") (codes "1.0")
            ≡ deps_dir root (codes "org") (codes "json") (codes "1.0")))
dep_install_dir_iff_example =
    dep_install_dir_iff root json (deps_dir root (codes "org") (codes "json") (codes "1.0"))

base64_decode-encode_example : base64_decode (codes "TW\nE=") ≡ some (77 ∷ 97 ∷ [])
base64_decode-encode_example =
    base64_decode-encode (77 ∷ 97 ∷ []) (codes "TW\nE=") (omega arith, (omega arith, tt)) refl

abbrev mirror : Repository
mirror = record { id = codes "mirror"; url = codes "http://m//" }

abbrev mirrored : Dependency
mirrored = record json { repository = some (codes "mirror") }

dep_install_dir-injective_example : dep_coordinates json ≡ dep_coordinates mirrored
unfolding dep_install_dir
dep_install_dir-injective_example =
    dep_install_dir-injective root json mirrored (codes "/home/x/.tinox/deps/org/json/1.0") refl
      refl

abbrev mirrors : TinoxManifest
mirrors = record {
  package_ = none;
  dependencies = mirrored ∷ [];
  repositories = record { id = codes "other"; url = codes "http://o" } ∷ mirror ∷ [];
}

effective_download_url-repository_example :
    effective_download_url mirrored mirrors ≡ done (codes "http://m/api/v1/org/json/1.0")
effective_download_url-repository_example =
    effective_download_url-repository mirrored mirrors
      (record { id = codes "other"; url = codes "http://o" } ∷ []) [] mirror (codes "http://m") 2
      refl refl refl (refl, tt) refl refl

extract_json_string_field-escaped_example :
    extract_json_string_field (codes "{\"filename\": \"a\\\"b.zip\",\"n\":1}") (codes "filename")
    ≡ some (codes "a\"b.zip")
extract_json_string_field-escaped_example =
    extract_json_string_field-escaped (codes "filename") (codes "a\"b.zip") (codes " ")
      (codes ",\"n\":1}") (refl, tt)

plain : Plain (codes "org")
plain = record { no_quote = refl; no_feed = refl; no_return = refl }

abbrev pinned : Dependency
pinned = record {
  group = codes "org";
  artifact_id = codes "org";
  version = codes "org";
  url = none;
  repository = some (codes "org");
  sha256 = none;
}

pinned-Writable : Writable pinned
pinned-Writable = record {
  group_plain = plain;
  artifact_plain = plain;
  version_plain = plain;
  url_plain = tt;
  repository_plain = plain;
  sha256_plain = tt;
}

parse_manifest-format_example :
    parse_manifest (format_dependencies (pinned ∷ pinned ∷ []))
    ≡ record { package_ = none; dependencies = pinned ∷ pinned ∷ []; repositories = [] }
parse_manifest-format_example =
    parse_manifest-format (pinned ∷ pinned ∷ []) (pinned-Writable, (pinned-Writable, tt))
