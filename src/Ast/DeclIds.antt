-- ===== src/Ast/DeclIds.antt =====
-- The expressions of the declarations of a source file, and the declarations without ids.
use tinox.Prelude.{ℕ, List, [], ◌∷◌, ◌++◌}
use tinox.Ast.Decl.{Function, Method, DeclKind, Decl, Decls}
use tinox.Ast.Numbering.{Tree}
use tinox.Ast.Ids.{ids_stmt}
use tinox.Ast.Bare.{bare_stmt}

unfoldable pub ids_functions : {F : Type 0} → List (Function F) → List ℕ
unfolding ids_stmt
ids_functions [] = []
ids_functions (f ∷ fs) = ids_stmt f.body ++ ids_functions fs

unfoldable pub ids_methods : {F : Type 0} → List (Method F) → List ℕ
unfolding ids_stmt
ids_methods [] = []
ids_methods (m ∷ ms) = ids_stmt m.body ++ ids_methods ms

unfoldable pub bare_functions : {F : Type 0} → List (Function F) → List (Function F)
unfolding bare_stmt
bare_functions [] = []
bare_functions (f ∷ fs) = record f { body = bare_stmt f.body } ∷ bare_functions fs

unfoldable pub bare_methods : {F : Type 0} → List (Method F) → List (Method F)
unfolding bare_stmt
bare_methods [] = []
bare_methods (m ∷ ms) = record m { body = bare_stmt m.body } ∷ bare_methods ms

-- Enums, imports, modules and immutable declarations hold no expressions.
unfoldable mutual
  unfolding ids_functions ids_methods

  pub ids_decl_kind : {F : Type 0} → DeclKind F → List ℕ
  ids_decl_kind (DeclKind.function f) = ids_stmt f.body
  ids_decl_kind (DeclKind.class c) = ids_methods c.methods
  ids_decl_kind (DeclKind.interface i) = ids_functions i.methods
  ids_decl_kind (DeclKind.trait t) = ids_functions t.methods
  ids_decl_kind (DeclKind.namespace x ds y z) = ids_decls ds
  ids_decl_kind (DeclKind.enum e) = []
  ids_decl_kind (DeclKind.import i) = []
  ids_decl_kind (DeclKind.module_ x) = []
  ids_decl_kind (DeclKind.immutable i) = []

  pub ids_decl : {F : Type 0} → Decl F → List ℕ
  ids_decl (Decl.decl kind span id) = ids_decl_kind kind

  pub ids_decls : {F : Type 0} → Decls F → List ℕ
  ids_decls Decls.no_decls = []
  ids_decls (Decls.more_decls d ds) = ids_decl d ++ ids_decls ds

unfoldable mutual
  unfolding bare_functions bare_methods

  pub bare_decl_kind : {F : Type 0} → DeclKind F → DeclKind F
  bare_decl_kind (DeclKind.function f) = DeclKind.function (record f { body = bare_stmt f.body })
  bare_decl_kind (DeclKind.class c) = DeclKind.class (record c { methods = bare_methods c.methods })
  bare_decl_kind (DeclKind.interface i) =
      DeclKind.interface (record i { methods = bare_functions i.methods })
  bare_decl_kind (DeclKind.trait t) =
      DeclKind.trait (record t { methods = bare_functions t.methods })
  bare_decl_kind (DeclKind.namespace x ds y z) = DeclKind.namespace x (bare_decls ds) y z
  bare_decl_kind (DeclKind.enum e) = DeclKind.enum e
  bare_decl_kind (DeclKind.import i) = DeclKind.import i
  bare_decl_kind (DeclKind.module_ x) = DeclKind.module_ x
  bare_decl_kind (DeclKind.immutable i) = DeclKind.immutable i

  pub bare_decl : {F : Type 0} → Decl F → Decl F
  bare_decl (Decl.decl kind span id) = Decl.decl (bare_decl_kind kind) span id

  pub bare_decls : {F : Type 0} → Decls F → Decls F
  bare_decls Decls.no_decls = Decls.no_decls
  bare_decls (Decls.more_decls d ds) = Decls.more_decls (bare_decl d) (bare_decls ds)

module _ {F : Type 0} where
  instance abbrev pub functions_tree : Tree (List (Function F))
  functions_tree = record { ids = ids_functions; bare = bare_functions }

  instance abbrev pub methods_tree : Tree (List (Method F))
  methods_tree = record { ids = ids_methods; bare = bare_methods }

  instance abbrev pub decl_kind_tree : Tree (DeclKind F)
  decl_kind_tree = record { ids = ids_decl_kind; bare = bare_decl_kind }

  instance abbrev pub decl_tree : Tree (Decl F)
  decl_tree = record { ids = ids_decl; bare = bare_decl }

  instance abbrev pub decls_tree : Tree (Decls F)
  decls_tree = record { ids = ids_decls; bare = bare_decls }
