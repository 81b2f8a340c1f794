-- ===== src/Packages/Resolve.antt =====
-- crates/tinox/src/pm.rs: download addresses, lock entries, pinned checksums and install directories.
use tinox.Prelude.{
  Bool, true, false, not, ◌&&◌, ◌||◌, ◌==◌, if◌then◌else◌, Option, none, some, List, [], ◌∷◌, ◌++◌,
  Text, codes, text_eq, keep,
}
use tinox.Packages.Types.{
  Dependency, TinoxManifest, LockEntry, TinoxLock, PmError, Result, done, failed, ◌>>=◌,
}
use tinox.Packages.Strings.{trim_end, contains, eq_ignore_ascii_case}

abbrev pub default_repository_url : Text
default_repository_url = codes "https://central.tinox-lang.de"

abbrev pub find_first {ℓ} : {A : Type ℓ} → (A → Bool) → List A → Option A
find_first p [] = none
find_first p (x ∷ xs) = elim (p x) [ true ↦ some x | false ↦ find_first p xs ]

-- The base address of a dependency without an `url` of its own.
unfoldable pub base_url : Dependency → TinoxManifest → Result Text
base_url dep manifest = elim dep.repository [
  | none ↦ done default_repository_url
  | some id ↦ elim (find_first (λ r. text_eq r.id id) manifest.repositories) [
    | some r ↦ done r.url
    | none ↦ failed (PmError.unknown_repository dep id)
  ]
]

-- `{base}/api/v1/{group}/{artifactId}/{version}`
unfoldable pub coordinate_url : Text → Dependency → Text
coordinate_url base dep =
    trim_end (λ c. c == b'/') base
    ++ codes "/api/v1/"
    ++ dep.group
    ++ codes "/"
    ++ dep.artifact_id
    ++ codes "/"
    ++ dep.version

-- `effective_download_url`
unfoldable pub effective_download_url : Dependency → TinoxManifest → Result Text
unfolding base_url coordinate_url
effective_download_url dep manifest = elim dep.url [
  | some url ↦ elim dep.repository [
    | some _ ↦ failed (PmError.url_and_repository dep)
    | none ↦ done url
  ]
  | none ↦ base_url dep manifest >>= λ base. done (coordinate_url base dep)
]

-- Equal coordinates.
abbrev pub same_coordinates : Text × Text × Text → LockEntry → Bool
same_coordinates (group, artifact_id, version) e =
    text_eq e.group group && text_eq e.artifact_id artifact_id && text_eq e.version version

abbrev pub dep_coordinates : Dependency → Text × Text × Text
dep_coordinates dep = (dep.group, dep.artifact_id, dep.version)

abbrev pub entry_coordinates : LockEntry → Text × Text × Text
entry_coordinates e = (e.group, e.artifact_id, e.version)

-- `lock_entry_for`
unfoldable pub lock_entry_for : TinoxLock → Dependency → Option LockEntry
lock_entry_for lock dep = find_first (same_coordinates (dep_coordinates dep)) lock.dependencies

-- `upsert_lock_entry`
unfoldable pub upsert_lock_entry : TinoxLock → LockEntry → TinoxLock
upsert_lock_entry lock entry = record {
  dependencies =
      keep (λ e. not (same_coordinates (entry_coordinates entry) e)) lock.dependencies
      ++ (entry ∷ []);
}

-- The checksum of the lock's entry for the same address.
unfoldable pub locked_checksum : TinoxLock → Dependency → Text → Option Text
unfolding lock_entry_for
locked_checksum lock dep effective_url = elim (lock_entry_for lock dep) [
  | none ↦ none
  | some e ↦ if text_eq e.url effective_url then some e.sha256 else none
]

-- `expected_checksum`
unfoldable pub expected_checksum : Dependency → Text → TinoxLock → Bool → Option Text
unfolding locked_checksum
expected_checksum dep effective_url lock update = elim dep.sha256 [
  | some sha256 ↦ some sha256
  | none ↦ if update then none else locked_checksum lock dep effective_url
]

-- `verify_checksum`
unfoldable pub verify_checksum : Dependency → Text → TinoxLock → Bool → Text → Result (Unit {0})
unfolding expected_checksum
verify_checksum dep effective_url lock update actual =
    elim (expected_checksum dep effective_url lock update) [
      | none ↦ done tt
      | some expected ↦
          if not (eq_ignore_ascii_case expected actual)
          then failed (PmError.checksum_mismatch dep effective_url expected actual)
          else done tt
    ]

-- `sanitize_path_component`
unfoldable pub sanitize_path_component : Text → Text → Result (Unit {0})
sanitize_path_component value field =
    if text_eq value []
      || text_eq value (codes ".")
      || text_eq value (codes "..")
      || contains b'/' value
      || contains b'\\' value
      || contains 0 value
    then failed (PmError.invalid_segment field value)
    else done tt

-- No separator is missing behind the path: it is empty or ends with one.
abbrev pub ends_open : Text → Bool
ends_open [] = true
ends_open (c ∷ []) = c == b'/'
ends_open (_ ∷ d ∷ path) = ends_open (d ∷ path)

abbrev pub starts_with_slash : Text → Bool
starts_with_slash [] = false
starts_with_slash (c ∷ _) = c == b'/'

-- `Path::join` on Unix: an absolute segment replaces the path, any other is appended as it is, behind
-- a separator where one is missing.
abbrev pub join : Text → Text → Text
join path segment =
    if starts_with_slash segment
    then segment
    else if ends_open path
    then path ++ segment
    else path ++ b'/' ∷ segment

-- `dep_install_dir`
unfoldable pub dep_install_dir : Text → Dependency → Result Text
unfolding sanitize_path_component
dep_install_dir root dep = sanitize_path_component dep.group (codes "group") >>= λ _.
    sanitize_path_component dep.artifact_id (codes "artifactId") >>= λ _.
    sanitize_path_component dep.version (codes "version") >>= λ _. done (
      join
        (join (join (join (join root (codes ".tinox")) (codes "deps")) dep.group) dep.artifact_id)
        dep.version)
