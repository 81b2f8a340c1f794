-- ===== src/Ast/Ids.antt =====
-- crates/tinox-parser/src/ast.rs: the ids of a syntax tree, and its view for the numbering.
use tinox.Prelude.{ℕ, true, List}
use tinox.Ast.Expr.{
  ExprKind, Expr, OptExpr, Exprs, Entries, FieldInits, MatchCases, CatchClauses, StmtKind, Stmt,
  OptStmt, Stmts, SelectArms,
}
use tinox.Ast.Numbering.{Tree}
use tinox.Ast.Collect.{
  collect_catch_clauses, collect_entries, collect_expr, collect_exprs, collect_field_inits,
  collect_kind, collect_match_cases, collect_opt_expr, collect_opt_stmt, collect_select_arms,
  collect_stmt, collect_stmt_kind, collect_stmts,
}
use tinox.Ast.Bare.{
  bare_catch_clauses, bare_entries, bare_expr, bare_exprs, bare_field_inits, bare_kind,
  bare_match_cases, bare_opt_expr, bare_opt_stmt, bare_select_arms, bare_stmt, bare_stmt_kind,
  bare_stmts,
}

-- The ids of all expressions.
module _ {F : Type 0} where
  unfoldable pub ids_kind : ExprKind F → List ℕ
  unfolding collect_kind
  ids_kind = collect_kind (λ _ id. id) true

  unfoldable pub ids_expr : Expr F → List ℕ
  unfolding collect_expr
  ids_expr = collect_expr (λ _ id. id) true

  unfoldable pub ids_opt_expr : OptExpr F → List ℕ
  unfolding collect_opt_expr
  ids_opt_expr = collect_opt_expr (λ _ id. id) true

  unfoldable pub ids_exprs : Exprs F → List ℕ
  unfolding collect_exprs
  ids_exprs = collect_exprs (λ _ id. id) true

  unfoldable pub ids_entries : Entries F → List ℕ
  unfolding collect_entries
  ids_entries = collect_entries (λ _ id. id) true

  unfoldable pub ids_field_inits : FieldInits F → List ℕ
  unfolding collect_field_inits
  ids_field_inits = collect_field_inits (λ _ id. id) true

  unfoldable pub ids_match_cases : MatchCases F → List ℕ
  unfolding collect_match_cases
  ids_match_cases = collect_match_cases (λ _ id. id) true

  unfoldable pub ids_catch_clauses : CatchClauses F → List ℕ
  unfolding collect_catch_clauses
  ids_catch_clauses = collect_catch_clauses (λ _ id. id) true

  unfoldable pub ids_stmt_kind : StmtKind F → List ℕ
  unfolding collect_stmt_kind
  ids_stmt_kind = collect_stmt_kind (λ _ id. id) true

  unfoldable pub ids_stmt : Stmt F → List ℕ
  unfolding collect_stmt
  ids_stmt = collect_stmt (λ _ id. id) true

  unfoldable pub ids_opt_stmt : OptStmt F → List ℕ
  unfolding collect_opt_stmt
  ids_opt_stmt = collect_opt_stmt (λ _ id. id) true

  unfoldable pub ids_stmts : Stmts F → List ℕ
  unfolding collect_stmts
  ids_stmts = collect_stmts (λ _ id. id) true

  unfoldable pub ids_select_arms : SelectArms F → List ℕ
  unfolding collect_select_arms
  ids_select_arms = collect_select_arms (λ _ id. id) true

  instance abbrev pub kind_tree : Tree (ExprKind F)
  kind_tree = record { ids = ids_kind; bare = bare_kind }

  instance abbrev pub expr_tree : Tree (Expr F)
  expr_tree = record { ids = ids_expr; bare = bare_expr }

  instance abbrev pub opt_expr_tree : Tree (OptExpr F)
  opt_expr_tree = record { ids = ids_opt_expr; bare = bare_opt_expr }

  instance abbrev pub exprs_tree : Tree (Exprs F)
  exprs_tree = record { ids = ids_exprs; bare = bare_exprs }

  instance abbrev pub entries_tree : Tree (Entries F)
  entries_tree = record { ids = ids_entries; bare = bare_entries }

  instance abbrev pub field_inits_tree : Tree (FieldInits F)
  field_inits_tree = record { ids = ids_field_inits; bare = bare_field_inits }

  instance abbrev pub match_cases_tree : Tree (MatchCases F)
  match_cases_tree = record { ids = ids_match_cases; bare = bare_match_cases }

  instance abbrev pub catch_clauses_tree : Tree (CatchClauses F)
  catch_clauses_tree = record { ids = ids_catch_clauses; bare = bare_catch_clauses }

  instance abbrev pub stmt_kind_tree : Tree (StmtKind F)
  stmt_kind_tree = record { ids = ids_stmt_kind; bare = bare_stmt_kind }

  instance abbrev pub stmt_tree : Tree (Stmt F)
  stmt_tree = record { ids = ids_stmt; bare = bare_stmt }

  instance abbrev pub opt_stmt_tree : Tree (OptStmt F)
  opt_stmt_tree = record { ids = ids_opt_stmt; bare = bare_opt_stmt }

  instance abbrev pub stmts_tree : Tree (Stmts F)
  stmts_tree = record { ids = ids_stmts; bare = bare_stmts }

  instance abbrev pub select_arms_tree : Tree (SelectArms F)
  select_arms_tree = record { ids = ids_select_arms; bare = bare_select_arms }
