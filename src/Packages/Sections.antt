-- ===== src/Packages/Sections.antt =====
-- crates/tinox/src/pm.rs: the headers of tinox.toml and the tables that are read.
use tinox.Prelude.{
  ℕ, ◌+◌, Bool, false, if◌then◌else◌, List, [], ◌∷◌, Text, codes, text_eq, text_eq→≡, length,
  length-append, ◌≡◌, refl, arith, inl, inr, Bool-cases,
}
use tinox.Packages.Strings.{trim, lines}
use tinox.Packages.Manifest.{
  ManifestSection, manifest_section_for, Reader, reader_start, flush_dep, flush_repo, enter,
  package_key, set_key, is_header, read_line, read_lines, finish_manifest, parse_manifest,
}

-- The lines that are the header `text`, up to the white space around it.
abbrev pub count_headers : Text → List Text → ℕ
count_headers text [] = 0
count_headers text (line ∷ rest) =
    (if text_eq (trim line) text then 1 else 0) + count_headers text rest

abbrev one_if : Bool → ℕ
one_if b = if b then 1 else 0

-- The tables that are read, with the one that is still open.
abbrev dep_count : Reader → ℕ
dep_count r = length r.dependencies + one_if r.have_cur

abbrev repo_count : Reader → ℕ
repo_count r = length r.repositories + one_if r.have_cur_repo

flush-counts :
    (r : Reader)
    → (dep_count (flush_repo (flush_dep r)) ≡ dep_count r)
      × (repo_count (flush_repo (flush_dep r)) ≡ repo_count r)
      × ((flush_repo (flush_dep r)).have_cur ≡ false)
      × ((flush_repo (flush_dep r)).have_cur_repo ≡ false)
unfolding flush_dep flush_repo
flush-counts r = ground (
  arith,
  length-append r.dependencies (r.cur ∷ []),
  length-append r.repositories (r.cur_repo ∷ []),
)

enter-counts :
    (line : Text) (r : Reader)
    → r.have_cur ≡ false
    → r.have_cur_repo ≡ false
    → (dep_count (enter (manifest_section_for line) r)
        ≡ dep_count r + one_if (text_eq line (codes "[[dependencies]]")))
      × (repo_count (enter (manifest_section_for line) r)
          ≡ repo_count r + one_if (text_eq line (codes "[[repositories]]")))
unfolding enter manifest_section_for
enter-counts line r hd hr = elim (Bool-cases (text_eq line (codes "[[dependencies]]"))) [
  | inl e ↦ let same = text_eq→≡ line (codes "[[dependencies]]") e in rw same (ground arith)
  | inr n ↦ ground arith
]

set_key-counts :
    (s : ManifestSection) (key value : Text) (r : Reader)
    → (dep_count (set_key s key value r) ≡ dep_count r)
      × (repo_count (set_key s key value r) ≡ repo_count r)
unfolding set_key package_key
set_key-counts ManifestSection.outside key value r = (refl, refl)
set_key-counts ManifestSection.package_ key value r = ground arith
set_key-counts ManifestSection.dependency key value r = (refl, refl)
set_key-counts ManifestSection.repository key value r = (refl, refl)
set_key-counts ManifestSection.other key value r = (refl, refl)

not_header :
    (line : Text)
    → is_header line ≡ false
    → (text_eq line (codes "[[dependencies]]") ≡ false)
      × (text_eq line (codes "[[repositories]]") ≡ false)
not_header [] h = (refl, refl)
not_header (c ∷ line) h = ground arith

read_line-counts :
    (raw : Text) (r : Reader)
    → (dep_count (read_line raw r)
        ≡ dep_count r + one_if (text_eq (trim raw) (codes "[[dependencies]]")))
      × (repo_count (read_line raw r)
          ≡ repo_count r + one_if (text_eq (trim raw) (codes "[[repositories]]")))
unfolding read_line
read_line-counts raw r =
    let line = trim raw in
    let f = flush-counts r in
    elim (Bool-cases (is_header line)) [
      | inl h ↦
          let e = enter-counts line (flush_repo (flush_dep r)) f.2 f.3 in rw h (ground (arith, e))
      | inr h ↦ let n = not_header line h in ground (arith, set_key-counts r.section)
    ]

read_lines-counts :
    (ls : List Text) (r : Reader)
    → (dep_count (read_lines ls r) ≡ dep_count r + count_headers (codes "[[dependencies]]") ls)
      × (repo_count (read_lines ls r) ≡ repo_count r + count_headers (codes "[[repositories]]") ls)
read_lines-counts [] r = (omega arith, omega arith)
read_lines-counts (line ∷ ls) r =
    let ih = read_lines-counts ls (read_line line r) in
    let step = read_line-counts line r in (omega arith, omega arith)

-- `parse_manifest` reads one dependency for each line `[[dependencies]]` of the file and one
-- repository for each line `[[repositories]]`, up to white space around them: no table is lost,
-- merged with another or read twice, whatever stands between the headers.
pub parse_manifest-tables :
    (content : Text)
    → (length (parse_manifest content).dependencies
        ≡ count_headers (codes "[[dependencies]]") (lines content))
      × (length (parse_manifest content).repositories
          ≡ count_headers (codes "[[repositories]]") (lines content))
unfolding parse_manifest finish_manifest
parse_manifest-tables content =
    let e = read_lines (lines content) reader_start in
    let f = flush-counts e in
    let c = read_lines-counts (lines content) reader_start in ground (arith, f, c)
