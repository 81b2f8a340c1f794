-- ===== src/Packages/Tables.antt =====
-- crates/tinox/src/pm.rs: `parse_manifest` on the tables that `write_manifest` writes.
use tinox.Prelude.{
  ℕ, true, Option, none, some, List, [], ◌∷◌, ◌++◌, append_assoc, All, Text, codes, ◌≡◌, refl, ap,
  ◌∙◌,
}
use tinox.Packages.Types.{Dependency}
use tinox.Packages.Strings.{lines}
use tinox.Packages.Manifest.{
  ManifestSection, empty_dep, Reader, reader_start, dependency_key, set_key, read_line, read_lines,
  finish_manifest, parse_manifest,
}
use tinox.Packages.Render.{field, optional_field, format_dependency, format_dependencies}
use tinox.Packages.RoundTrip.{Plain, IsKey, read_field}

-- A value that is left out, or is not empty and plain.
abbrev pub PlainOption : Option Text → Type 0
PlainOption none = Unit
PlainOption (some []) = ⊥
PlainOption (some (c ∷ v)) = Plain (c ∷ v)

-- A dependency that the format of the manifest can hold.
pub record Writable (d : Dependency) : Type 0 where
  pub group_plain : Plain d.group
  pub artifact_plain : Plain d.artifact_id
  pub version_plain : Plain d.version
  pub url_plain : PlainOption d.url
  pub repository_plain : PlainOption d.repository
  pub sha256_plain : PlainOption d.sha256

-- The reader in the table of `d`, behind the tables `past`.
abbrev opened : List Dependency → Dependency → Reader
opened past d = record reader_start {
  section = ManifestSection.dependency;
  dependencies = past;
  cur = d;
  have_cur = true;
}

abbrev optional_key : Text → Option Text → Dependency → Dependency
optional_key key none d = d
optional_key key (some value) d = dependency_key key value d

module _ (past : List Dependency) where
  step_field :
      (c : ℕ) (k v more rest : Text) (d : Dependency)
      → IsKey c k
      → Plain v
      → read_lines (lines ((field (c ∷ k) v ++ more) ++ rest)) (opened past d)
        ≡ read_lines (lines (more ++ rest)) (opened past (dependency_key (c ∷ k) v d))
  unfolding set_key
  step_field c k v more rest d i p =
      ap (λ t. read_lines (lines t) (opened past d)) (append_assoc (field (c ∷ k) v) more rest)
      ∙ read_field c k v (more ++ rest) (opened past d) i p

  last_optional :
      (c : ℕ) (k : Text) (o : Option Text) (rest : Text) (d : Dependency)
      → IsKey c k
      → PlainOption o
      → read_lines (lines (optional_field (c ∷ k) o ++ rest)) (opened past d)
        ≡ read_lines (lines rest) (opened past (optional_key (c ∷ k) o d))
  unfolding set_key
  last_optional c k none rest d i p = refl
  last_optional c k (some []) rest d i p = absurd p
  last_optional c k (some (e ∷ v)) rest d i p = read_field c k (e ∷ v) rest (opened past d) i p

  step_optional :
      (c : ℕ) (k : Text) (o : Option Text) (more rest : Text) (d : Dependency)
      → IsKey c k
      → PlainOption o
      → read_lines (lines ((optional_field (c ∷ k) o ++ more) ++ rest)) (opened past d)
        ≡ read_lines (lines (more ++ rest)) (opened past (optional_key (c ∷ k) o d))
  step_optional c k o more rest d i p =
      ap (λ t. read_lines (lines t) (opened past d))
        (append_assoc (optional_field (c ∷ k) o) more rest)
      ∙ last_optional c k o (more ++ rest) d i p

group_key : IsKey b'g' (codes "roup")
group_key = record {
  visible = refl;
  no_bracket = refl;
  no_equals = refl;
  trimmed = refl;
  key_feed = refl;
  key_return = refl;
}

artifact_key : IsKey b'a' (codes "rtifactId")
artifact_key = record {
  visible = refl;
  no_bracket = refl;
  no_equals = refl;
  trimmed = refl;
  key_feed = refl;
  key_return = refl;
}

version_key : IsKey b'v' (codes "ersion")
version_key = record {
  visible = refl;
  no_bracket = refl;
  no_equals = refl;
  trimmed = refl;
  key_feed = refl;
  key_return = refl;
}

url_key : IsKey b'u' (codes "rl")
url_key = record {
  visible = refl;
  no_bracket = refl;
  no_equals = refl;
  trimmed = refl;
  key_feed = refl;
  key_return = refl;
}

repository_key : IsKey b'r' (codes "epository")
repository_key = record {
  visible = refl;
  no_bracket = refl;
  no_equals = refl;
  trimmed = refl;
  key_feed = refl;
  key_return = refl;
}

sha256_key : IsKey b's' (codes "ha256")
sha256_key = record {
  visible = refl;
  no_bracket = refl;
  no_equals = refl;
  trimmed = refl;
  key_feed = refl;
  key_return = refl;
}

-- The table of `d`, as far as its fields are read.
abbrev partial : Dependency → Option Text → Option Text → Option Text → Dependency
partial d url repository sha256 = record {
  group = d.group;
  artifact_id = d.artifact_id;
  version = d.version;
  url = url;
  repository = repository;
  sha256 = sha256;
}

set_url :
    (d : Dependency) (o : Option Text)
    → PlainOption o
    → optional_key (codes "url") o (partial d none none none) ≡ partial d o none none
unfolding dependency_key
set_url d none p = refl
set_url d (some []) p = absurd p
set_url d (some (c ∷ v)) p = refl

set_repository :
    (d : Dependency) (u o : Option Text)
    → PlainOption o
    → optional_key (codes "repository") o (partial d u none none) ≡ partial d u o none
unfolding dependency_key
set_repository d u none p = refl
set_repository d u (some []) p = absurd p
set_repository d u (some (c ∷ v)) p = refl

set_sha256 :
    (d : Dependency) (u r o : Option Text)
    → PlainOption o
    → optional_key (codes "sha256") o (partial d u r none) ≡ partial d u r o
unfolding dependency_key
set_sha256 d u r none p = refl
set_sha256 d u r (some []) p = absurd p
set_sha256 d u r (some (c ∷ v)) p = refl

blank_line : (r : Reader) → read_line [] r ≡ r
unfolding read_line
blank_line r = refl

module _ (past : List Dependency) (d : Dependency) (w : Writable d) where
  abbrev at_table : Dependency → Reader
  at_table = opened past

  abbrev optional_part : Text
  optional_part =
      optional_field (codes "url") d.url
      ++ (optional_field (codes "repository") d.repository
          ++ optional_field (codes "sha256") d.sha256)

  read_optional :
      (rest : Text)
      → read_lines (lines (optional_part ++ rest)) (at_table (partial d none none none))
        ≡ read_lines (lines rest) (at_table d)
  read_optional rest =
      step_optional past b'u' (codes "rl") d.url
        (optional_field (codes "repository") d.repository
          ++ optional_field (codes "sha256") d.sha256)
        rest (partial d none none none) url_key w.url_plain
      ∙ (ap
            (λ e.
              read_lines
                (lines (
                  (optional_field (codes "repository") d.repository
                    ++ optional_field (codes "sha256") d.sha256)
                  ++ rest))
                (at_table e))
            (set_url d d.url w.url_plain)
          ∙ (step_optional past b'r' (codes "epository") d.repository
                (optional_field (codes "sha256") d.sha256) rest (partial d d.url none none)
                repository_key w.repository_plain
              ∙ (ap
                    (λ e.
                      read_lines (lines (optional_field (codes "sha256") d.sha256 ++ rest))
                        (at_table e))
                    (set_repository d d.url d.repository w.repository_plain)
                  ∙ (last_optional past b's' (codes "ha256") d.sha256 rest
                        (partial d d.url d.repository none) sha256_key w.sha256_plain
                      ∙ ap (λ e. read_lines (lines rest) (at_table e))
                          (set_sha256 d d.url d.repository d.sha256 w.sha256_plain)))))

  abbrev version_part : Text
  version_part = field (codes "version") d.version ++ optional_part

  abbrev artifact_part : Text
  artifact_part = field (codes "artifactId") d.artifact_id ++ version_part

  -- The fields of a table that has just been opened.
  read_fields :
      (rest : Text)
      → read_lines
          (lines ((field (codes "group") d.group ++ artifact_part) ++ rest))
          (at_table empty_dep)
        ≡ read_lines (lines rest) (at_table d)
  unfolding dependency_key
  read_fields rest =
      step_field past b'g' (codes "roup") d.group artifact_part rest empty_dep group_key
        w.group_plain
      ∙ (step_field past b'a' (codes "rtifactId") d.artifact_id version_part rest _ artifact_key
            w.artifact_plain
          ∙ (step_field past b'v' (codes "ersion") d.version optional_part rest _ version_key
                w.version_plain
              ∙ read_optional rest))

  -- The table of a dependency, read in a state in which its header opens a table.
  read_table :
      (r : Reader) (rest : Text)
      → read_line (codes "[[dependencies]]") r ≡ at_table empty_dep
      → read_lines (lines (format_dependency d ++ (b'\n' ∷ rest))) r
        ≡ read_lines (lines rest) (at_table d)
  unfolding format_dependency
  read_table r rest h =
      ap (read_lines (lines ((field (codes "group") d.group ++ artifact_part) ++ (b'\n' ∷ rest)))) h
      ∙ (read_fields (b'\n' ∷ rest) ∙ ap (read_lines (lines rest)) (blank_line (at_table d)))

header_first : read_line (codes "[[dependencies]]") reader_start ≡ opened [] empty_dep
unfolding read_line
header_first = refl

header_next :
    (past : List Dependency) (d : Dependency)
    → read_line (codes "[[dependencies]]") (opened past d) ≡ opened (past ++ d ∷ []) empty_dep
unfolding read_line
header_next past d = refl

read_tables :
    (past : List Dependency) (d : Dependency) (ds : List Dependency)
    → All Writable ds
    → finish_manifest (read_lines (lines (format_dependencies ds)) (opened past d))
      ≡ record { package_ = none; dependencies = past ++ d ∷ ds; repositories = [] }
unfolding finish_manifest format_dependencies
read_tables past d [] w = refl
read_tables past d (e ∷ es) w =
    ap finish_manifest (
      read_table (past ++ d ∷ []) e w.0 (opened past d) (format_dependencies es)
        (header_next past d))
    ∙ (read_tables (past ++ d ∷ []) e es w.1
        ∙ ap (λ deps. record { package_ = none; dependencies = deps; repositories = [] })
            (append_assoc past (d ∷ []) (e ∷ es)))

-- `parse_manifest` reads back the tables that `write_manifest` writes of a list of dependencies: their
-- values hold no quote, line feed or carriage return, and an optional value that is present is not
-- empty. It gives these dependencies, in order, and no package and no repository.
pub parse_manifest-format :
    (deps : List Dependency)
    → All Writable deps
    → parse_manifest (format_dependencies deps)
      ≡ record { package_ = none; dependencies = deps; repositories = [] }
unfolding parse_manifest format_dependencies
parse_manifest-format [] w = refl
parse_manifest-format (d ∷ ds) w =
    ap finish_manifest (read_table [] d w.0 reader_start (format_dependencies ds) header_first)
    ∙ read_tables [] d ds w.1
