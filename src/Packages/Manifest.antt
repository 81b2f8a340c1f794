-- ===== src/Packages/Manifest.antt =====
-- crates/tinox/src/pm.rs: reading the sections of tinox.toml.
use tinox.Prelude.{
  Bool, true, false, not, ◌&&◌, ◌==◌, if◌then◌else◌, Option, none, some, List, [], ◌∷◌, ◌++◌, Text,
  codes, text_eq,
}
use tinox.Packages.Types.{Repository, Dependency, TinoxManifest}
use tinox.Packages.Strings.{trim, trim_matches, split_once, lines}

pub data ManifestSection : Type 0 where
  outside package_ dependency repository other : ManifestSection

-- `manifest_section_for`
unfoldable pub manifest_section_for : Text → ManifestSection
manifest_section_for header =
    if text_eq header (codes "[[dependencies]]")
    then ManifestSection.dependency
    else if text_eq header (codes "[[repositories]]")
    then ManifestSection.repository
    else if text_eq header (codes "[package]")
    then ManifestSection.package_
    else ManifestSection.other

-- `parse_toml_kv`
unfoldable pub parse_toml_kv : Text → Option (Text × Text)
parse_toml_kv line = elim (split_once b'=' line) [
  | none ↦ none
  | some (key, value) ↦ some (trim key, trim_matches (λ c. c == b'"') (trim value))
]

-- `empty_dep` and `empty_repo`
abbrev pub empty_dep : Dependency
empty_dep = record {
  group = [];
  artifact_id = [];
  version = [];
  url = none;
  repository = none;
  sha256 = none;
}

abbrev pub empty_repo : Repository
empty_repo = record { id = []; url = [] }

-- The local variables of `parse_manifest`.
pub record Reader : Type 0 where
  pub section : ManifestSection
  pub pkg_name : Text
  pub pkg_version : Text
  pub pkg_description : Text
  pub have_package : Bool
  pub dependencies : List Dependency
  pub cur : Dependency
  pub have_cur : Bool
  pub repositories : List Repository
  pub cur_repo : Repository
  pub have_cur_repo : Bool

abbrev pub reader_start : Reader
reader_start = record {
  section = ManifestSection.outside;
  pkg_name = [];
  pkg_version = [];
  pkg_description = [];
  have_package = false;
  dependencies = [];
  cur = empty_dep;
  have_cur = false;
  repositories = [];
  cur_repo = empty_repo;
  have_cur_repo = false;
}

-- The open `[[dependencies]]` table is pushed.
unfoldable pub flush_dep : Reader → Reader
flush_dep r =
    if r.have_cur
    then record r {
      dependencies = r.dependencies ++ (r.cur ∷ []);
      cur = empty_dep;
      have_cur = false;
    }
    else r

-- The open `[[repositories]]` table is pushed.
unfoldable pub flush_repo : Reader → Reader
flush_repo r =
    if r.have_cur_repo
    then record r {
      repositories = r.repositories ++ (r.cur_repo ∷ []);
      cur_repo = empty_repo;
      have_cur_repo = false;
    }
    else r

-- The section that a header opens.
unfoldable pub enter : ManifestSection → Reader → Reader
enter ManifestSection.dependency r = record r {
  section = ManifestSection.dependency;
  have_cur = true;
}
enter ManifestSection.repository r = record r {
  section = ManifestSection.repository;
  have_cur_repo = true;
}
enter ManifestSection.package_ r = record r {
  section = ManifestSection.package_;
  have_package = true;
}
enter s r = record r { section = s }

unfoldable pub package_key : Text → Text → Reader → Reader
package_key key value r =
    if text_eq key (codes "name")
    then record r { pkg_name = value }
    else if text_eq key (codes "version")
    then record r { pkg_version = value }
    else if text_eq key (codes "description")
    then record r { pkg_description = value }
    else r

empty_text : Text → Bool
empty_text [] = true
empty_text (_ ∷ _) = false

unfoldable pub dependency_key : Text → Text → Dependency → Dependency
unfolding empty_text
dependency_key key value d =
    if text_eq key (codes "group")
    then record d { group = value }
    else if text_eq key (codes "artifactId")
    then record d { artifact_id = value }
    else if text_eq key (codes "version")
    then record d { version = value }
    else if text_eq key (codes "url") && not (empty_text value)
    then record d { url = some value }
    else if text_eq key (codes "repository") && not (empty_text value)
    then record d { repository = some value }
    else if text_eq key (codes "sha256") && not (empty_text value)
    then record d { sha256 = some value }
    else d

unfoldable pub repository_key : Text → Text → Repository → Repository
repository_key key value d =
    if text_eq key (codes "id")
    then record d { id = value }
    else if text_eq key (codes "url")
    then record d { url = value }
    else d

-- `key = value` in the current section.
unfoldable pub set_key : ManifestSection → Text → Text → Reader → Reader
unfolding package_key dependency_key repository_key
set_key ManifestSection.package_ key value r = package_key key value r
set_key ManifestSection.dependency key value r = record r { cur = dependency_key key value r.cur }
set_key ManifestSection.repository key value r = record r {
  cur_repo = repository_key key value r.cur_repo;
}
set_key _ key value r = r

abbrev pub is_header : Text → Bool
is_header [] = false
is_header (c ∷ _) = c == b'['

-- One line of `parse_manifest`.
unfoldable pub read_line : Text → Reader → Reader
unfolding manifest_section_for parse_toml_kv flush_dep flush_repo enter set_key
read_line raw r =
    let line = trim raw in
    if is_header line
    then enter (manifest_section_for line) (flush_repo (flush_dep r))
    else elim (parse_toml_kv line) [ none ↦ r | some (key, value) ↦ set_key r.section key value r ]

abbrev pub read_lines : List Text → Reader → Reader
read_lines [] r = r
read_lines (line ∷ rest) r = read_lines rest (read_line line r)

-- What `parse_manifest` returns at the end of the file.
unfoldable pub finish_manifest : Reader → TinoxManifest
unfolding flush_dep flush_repo
finish_manifest r =
    let e = flush_repo (flush_dep r) in
    record {
      package_ =
          if r.have_package
          then some (record {
            name = r.pkg_name;
            version = r.pkg_version;
            description = r.pkg_description;
          })
          else none;
      dependencies = e.dependencies;
      repositories = e.repositories;
    }

-- `parse_manifest`
unfoldable pub parse_manifest : Text → TinoxManifest
unfolding read_line finish_manifest
parse_manifest content = finish_manifest (read_lines (lines content) reader_start)
