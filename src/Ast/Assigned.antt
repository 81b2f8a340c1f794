-- ===== src/Ast/Assigned.antt =====
-- crates/tinox-parser/src/node_ids.rs: `assign_node_ids` on a whole source file.
use tinox.Prelude.{
  ℕ, zero, suc, ◌+◌, ◌<◌, some, List, [], ◌∷◌, length, get_elem?, ◌≡◌, refl, ap, sym, ◌∙◌, arith,
}
use tinox.Lexer.Cursor.{u32_mod}
use tinox.Ast.Decl.{Function, Method, DeclKind, Decl, Decls, SourceFile}
use tinox.Ast.NodeIds.{
  number_functions, number_methods, number_decl_kind, number_decl, number_decls, assign_node_ids,
}
use tinox.Ast.Numbering.{consecutive, Numbers, Numbers-leaf, Numbers-one, Numbers-pair, pair_tree}
use tinox.Ast.Ids.{stmt_tree}
use tinox.Ast.DeclIds.{
  ids_functions, ids_methods, ids_decls, bare_functions, bare_methods, bare_decls, functions_tree,
  methods_tree, decl_kind_tree, decl_tree, decls_tree,
}
use tinox.Ast.Numbered.{stmt-Numbers}

functions-Numbers : {F : Type 0} (fs : List (Function F)) → Numbers fs (number_functions fs)
unfolding number_functions ids_functions bare_functions
functions-Numbers [] = Numbers-leaf _ refl
functions-Numbers (f ∷ fs) =
    Numbers-one (f.body, fs) (λ r. record f { body = r.0 } ∷ r.1) _ (λ _. refl) (λ _. refl)
      (Numbers-pair f.body fs _ _ (stmt-Numbers f.body) (functions-Numbers fs))

methods-Numbers : {F : Type 0} (ms : List (Method F)) → Numbers ms (number_methods ms)
unfolding number_methods ids_methods bare_methods
methods-Numbers [] = Numbers-leaf _ refl
methods-Numbers (m ∷ ms) =
    Numbers-one (m.body, ms) (λ r. record m { body = r.0 } ∷ r.1) _ (λ _. refl) (λ _. refl)
      (Numbers-pair m.body ms _ _ (stmt-Numbers m.body) (methods-Numbers ms))

mutual
  unfolding number_decls ids_decls bare_decls

  decl_kind-Numbers : {F : Type 0} (k : DeclKind F) → Numbers k (number_decl_kind k)
  decl_kind-Numbers (DeclKind.function f) =
      Numbers-one f.body (λ r. DeclKind.function (record f { body = r })) _ (λ _. refl) (λ _. refl)
        (stmt-Numbers f.body)
  decl_kind-Numbers (DeclKind.class c) =
      Numbers-one c.methods (λ r. DeclKind.class (record c { methods = r })) _ (λ _. refl)
        (λ _. refl) (methods-Numbers c.methods)
  decl_kind-Numbers (DeclKind.interface i) =
      Numbers-one i.methods (λ r. DeclKind.interface (record i { methods = r })) _ (λ _. refl)
        (λ _. refl) (functions-Numbers i.methods)
  decl_kind-Numbers (DeclKind.trait t) =
      Numbers-one t.methods (λ r. DeclKind.trait (record t { methods = r })) _ (λ _. refl)
        (λ _. refl) (functions-Numbers t.methods)
  decl_kind-Numbers (DeclKind.namespace x ds y z) =
      Numbers-one ds (λ r. DeclKind.namespace x r y z) _ (λ _. refl) (λ _. refl) (decls-Numbers ds)
  decl_kind-Numbers (DeclKind.enum e) = Numbers-leaf _ refl
  decl_kind-Numbers (DeclKind.import i) = Numbers-leaf _ refl
  decl_kind-Numbers (DeclKind.module_ x) = Numbers-leaf _ refl
  decl_kind-Numbers (DeclKind.immutable i) = Numbers-leaf _ refl

  decl-Numbers : {F : Type 0} (d : Decl F) → Numbers d (number_decl d)
  decl-Numbers (Decl.decl kind span id) =
      Numbers-one kind (λ r. Decl.decl r span id) _ (λ _. refl) (λ _. refl) (decl_kind-Numbers kind)

  decls-Numbers : {F : Type 0} (ds : Decls F) → Numbers ds (number_decls ds)
  decls-Numbers Decls.no_decls = Numbers-leaf _ refl
  decls-Numbers (Decls.more_decls d ds) =
      Numbers-one (d, ds) (λ r. Decls.more_decls r.0 r.1) _ (λ _. refl) (λ _. refl)
        (Numbers-pair d ds _ _ (decl-Numbers d) (decls-Numbers ds))

-- How many expressions a source file holds.
abbrev pub expr_count : {F : Type 0} → SourceFile F → ℕ
expr_count file = length (ids_decls file.decls)

-- `assign_node_ids` on a file with fewer than 2^32 - 1 expressions: read from left to right, the
-- expressions of the numbered file carry the numbers 1, 2, 3 and so on, no expression left out; the
-- next free number is returned; and nothing else of the file is changed.
pub assign_node_ids-consecutive :
    {F : Type 0} (file : SourceFile F)
    → 1 + expr_count file < u32_mod
    → (ids_decls (assign_node_ids file).0.decls ≡ consecutive 1 (expr_count file))
      × ((assign_node_ids file).1 ≡ 1 + expr_count file)
      × (bare_decls (assign_node_ids file).0.decls ≡ bare_decls file.decls)
      × ((assign_node_ids file).0.span ≡ file.span)
unfolding assign_node_ids
assign_node_ids-consecutive file small =
    let r = decls-Numbers file.decls 1 small in (r.numbers, r.next, r.same, refl)

get_elem?-consecutive : (n k i : ℕ) {x : ℕ} → get_elem? (consecutive n k) i ≡ some x → x ≡ n + i
get_elem?-consecutive n zero i h = cc
get_elem?-consecutive n (suc k) zero h = ground arith
get_elem?-consecutive n (suc k) (suc i) h = omega (arith, get_elem?-consecutive (suc n) k i h)

-- After `assign_node_ids`, no two expressions of the file have the same id, and none has id 0.
pub assign_node_ids_unique :
    {F : Type 0} (file : SourceFile F) (i j x : ℕ)
    → 1 + expr_count file < u32_mod
    → get_elem? (ids_decls (assign_node_ids file).0.decls) i ≡ some x
    → get_elem? (ids_decls (assign_node_ids file).0.decls) j ≡ some x
    → (i ≡ j) × (0 < x)
assign_node_ids_unique file i j x small hi hj =
    let numbered = (assign_node_ids-consecutive file small).0 in
    let at_i =
      get_elem?-consecutive 1 (expr_count file) i (ap (λ ns. get_elem? ns i) (sym numbered) ∙ hi) in
    let at_j =
      get_elem?-consecutive 1 (expr_count file) j (ap (λ ns. get_elem? ns j) (sym numbered) ∙ hj) in
    omega arith
