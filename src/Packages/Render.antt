-- ===== src/Packages/Render.antt =====
-- crates/tinox/src/pm.rs: the tables that `write_manifest` writes.
use tinox.Prelude.{List, [], ◌∷◌, ◌++◌, Option, none, some, Text, codes}
use tinox.Packages.Types.{Repository, Dependency}

-- `format!("key = \"{}\"\n", value)`
abbrev pub field : Text → Text → Text
field key value = key ++ (codes " = \"" ++ (value ++ codes "\"\n"))

-- `if let Some(value) = .. { s.push_str(..) }`
abbrev pub optional_field : Text → Option Text → Text
optional_field key none = []
optional_field key (some value) = field key value

-- `format_dependency`
unfoldable pub format_dependency : Dependency → Text
format_dependency dep =
    codes "[[dependencies]]\n"
    ++ (field (codes "group") dep.group
        ++ (field (codes "artifactId") dep.artifact_id
            ++ (field (codes "version") dep.version
                ++ (optional_field (codes "url") dep.url
                    ++ (optional_field (codes "repository") dep.repository
                        ++ optional_field (codes "sha256") dep.sha256)))))

-- `format_repository`
unfoldable pub format_repository : Repository → Text
format_repository repo =
    codes "[[repositories]]\n" ++ (field (codes "id") repo.id ++ field (codes "url") repo.url)

-- The loop of `write_manifest` over the dependencies: a blank line behind each table.
unfoldable pub format_dependencies : List Dependency → Text
unfolding format_dependency
format_dependencies [] = []
format_dependencies (dep ∷ deps) = format_dependency dep ++ (b'\n' ∷ format_dependencies deps)
