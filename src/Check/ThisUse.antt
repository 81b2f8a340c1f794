-- ===== src/Check/ThisUse.antt =====
-- crates/tinox-typecheck/src/lib.rs: `stmt_uses_this` and `expr_uses_this`.
pub mod Exact
use tinox.Prelude.{Bool, true, false, ◌||◌}
use tinox.Ast.Expr.{
  ExprKind, Expr, OptExpr, Exprs, Entries, FieldInits, MatchCases, CatchClauses, StmtKind, Stmt,
  OptStmt, Stmts, SelectArms,
}

unfoldable mutual
  pub uses_this_kind : {F : Type 0} → ExprKind F → Bool
  uses_this_kind (ExprKind.literal x) = false
  uses_this_kind (ExprKind.array_literal es) = uses_this_exprs es
  uses_this_kind (ExprKind.map_literal es) = uses_this_entries es
  uses_this_kind (ExprKind.ident x) = false
  uses_this_kind (ExprKind.binary x e e') = uses_this_expr e || uses_this_expr e'
  uses_this_kind (ExprKind.unary x e) = uses_this_expr e
  uses_this_kind (ExprKind.call e es) = uses_this_expr e || uses_this_exprs es
  uses_this_kind (ExprKind.method_call e x es) = uses_this_expr e || uses_this_exprs es
  uses_this_kind (ExprKind.index e e') = uses_this_expr e || uses_this_expr e'
  uses_this_kind (ExprKind.field_access e x) = uses_this_expr e
  uses_this_kind ExprKind.this = true
  uses_this_kind (ExprKind.super_call x es) = uses_this_exprs es
  uses_this_kind (ExprKind.new x y es) = uses_this_exprs es
  uses_this_kind (ExprKind.struct_literal x fs) = uses_this_field_inits fs
  uses_this_kind (ExprKind.block ss) = uses_this_stmts ss
  uses_this_kind (ExprKind.if_ e e' o) =
      uses_this_expr e || (uses_this_expr e' || uses_this_opt_expr o)
  uses_this_kind (ExprKind.while e e') = uses_this_expr e || uses_this_expr e'
  uses_this_kind (ExprKind.for x e e') = uses_this_expr e || uses_this_expr e'
  uses_this_kind (ExprKind.loop e) = uses_this_expr e
  uses_this_kind (ExprKind.match e cs) = uses_this_expr e || uses_this_match_cases cs
  uses_this_kind (ExprKind.return o) = uses_this_opt_expr o
  uses_this_kind ExprKind.break = false
  uses_this_kind ExprKind.continue = false
  uses_this_kind (ExprKind.throw e) = uses_this_expr e
  uses_this_kind (ExprKind.try e cs o) =
      uses_this_expr e || (uses_this_catch_clauses cs || uses_this_opt_expr o)
  uses_this_kind (ExprKind.assign e e') = uses_this_expr e || uses_this_expr e'
  uses_this_kind (ExprKind.compound_assign x e e') = uses_this_expr e || uses_this_expr e'
  uses_this_kind (ExprKind.lambda x y e) = uses_this_expr e
  uses_this_kind (ExprKind.spawn e) = uses_this_expr e
  uses_this_kind (ExprKind.await e) = uses_this_expr e
  uses_this_kind ExprKind.channel = false
  uses_this_kind (ExprKind.send e e') = uses_this_expr e || uses_this_expr e'
  uses_this_kind (ExprKind.recv e) = uses_this_expr e
  uses_this_kind (ExprKind.cast e x) = uses_this_expr e
  uses_this_kind (ExprKind.is_ e x) = uses_this_expr e
  uses_this_kind (ExprKind.range e e' x) = uses_this_expr e || uses_this_expr e'
  uses_this_kind (ExprKind.tuple es) = uses_this_exprs es
  uses_this_kind (ExprKind.tuple_index e x) = uses_this_expr e
  uses_this_kind (ExprKind.enum_value x y z es) = uses_this_exprs es

  pub uses_this_expr : {F : Type 0} → Expr F → Bool
  uses_this_expr (Expr.expr kind span id) = uses_this_kind kind

  pub uses_this_opt_expr : {F : Type 0} → OptExpr F → Bool
  uses_this_opt_expr OptExpr.no_expr = false
  uses_this_opt_expr (OptExpr.some_expr e) = uses_this_expr e

  pub uses_this_exprs : {F : Type 0} → Exprs F → Bool
  uses_this_exprs Exprs.no_exprs = false
  uses_this_exprs (Exprs.more_exprs e es) = uses_this_expr e || uses_this_exprs es

  pub uses_this_entries : {F : Type 0} → Entries F → Bool
  uses_this_entries Entries.no_entries = false
  uses_this_entries (Entries.more_entries e e' es) =
      uses_this_expr e || (uses_this_expr e' || uses_this_entries es)

  pub uses_this_field_inits : {F : Type 0} → FieldInits F → Bool
  uses_this_field_inits FieldInits.no_fields = false
  uses_this_field_inits (FieldInits.more_fields x e fs) =
      uses_this_expr e || uses_this_field_inits fs

  pub uses_this_match_cases : {F : Type 0} → MatchCases F → Bool
  uses_this_match_cases MatchCases.no_cases = false
  uses_this_match_cases (MatchCases.more_cases x o e y cs) =
      (uses_this_expr e || uses_this_opt_expr o) || uses_this_match_cases cs

  pub uses_this_catch_clauses : {F : Type 0} → CatchClauses F → Bool
  uses_this_catch_clauses CatchClauses.no_catches = false
  uses_this_catch_clauses (CatchClauses.more_catches x y s z cs) =
      uses_this_stmt s || uses_this_catch_clauses cs

  pub uses_this_stmt_kind : {F : Type 0} → StmtKind F → Bool
  uses_this_stmt_kind (StmtKind.expr_stmt e) = uses_this_expr e
  uses_this_stmt_kind (StmtKind.let_ x y o) = uses_this_opt_expr o
  uses_this_stmt_kind (StmtKind.var x y o z) = uses_this_opt_expr o
  uses_this_stmt_kind (StmtKind.assignment e e') = uses_this_expr e || uses_this_expr e'
  uses_this_stmt_kind (StmtKind.if_stmt e s o) =
      uses_this_expr e || (uses_this_stmt s || uses_this_opt_stmt o)
  uses_this_stmt_kind (StmtKind.while_stmt e s) = uses_this_expr e || uses_this_stmt s
  uses_this_stmt_kind (StmtKind.for_stmt x e s) = uses_this_expr e || uses_this_stmt s
  uses_this_stmt_kind (StmtKind.for_c o o' o'' s) =
      uses_this_opt_stmt o
      || (uses_this_opt_expr o' || (uses_this_opt_expr o'' || uses_this_stmt s))
  uses_this_stmt_kind (StmtKind.loop_stmt s) = uses_this_stmt s
  uses_this_stmt_kind (StmtKind.return_stmt o) = uses_this_opt_expr o
  uses_this_stmt_kind StmtKind.break_stmt = false
  uses_this_stmt_kind StmtKind.continue_stmt = false
  uses_this_stmt_kind (StmtKind.throw_stmt e) = uses_this_expr e
  uses_this_stmt_kind (StmtKind.try_stmt s cs o) =
      uses_this_stmt s || (uses_this_catch_clauses cs || uses_this_opt_stmt o)
  uses_this_stmt_kind (StmtKind.defer s) = uses_this_stmt s
  uses_this_stmt_kind (StmtKind.block_stmt ss) = uses_this_stmts ss
  uses_this_stmt_kind (StmtKind.select arms o) = uses_this_select_arms arms || uses_this_opt_stmt o
  uses_this_stmt_kind StmtKind.empty = false

  pub uses_this_stmt : {F : Type 0} → Stmt F → Bool
  uses_this_stmt (Stmt.stmt k x y) = uses_this_stmt_kind k

  pub uses_this_opt_stmt : {F : Type 0} → OptStmt F → Bool
  uses_this_opt_stmt OptStmt.no_stmt = false
  uses_this_opt_stmt (OptStmt.some_stmt s) = uses_this_stmt s

  pub uses_this_stmts : {F : Type 0} → Stmts F → Bool
  uses_this_stmts Stmts.no_stmts = false
  uses_this_stmts (Stmts.more_stmts s ss) = uses_this_stmt s || uses_this_stmts ss

  pub uses_this_select_arms : {F : Type 0} → SelectArms F → Bool
  uses_this_select_arms SelectArms.no_arms = false
  uses_this_select_arms (SelectArms.more_arms e x s y arms) =
      uses_this_stmt s || uses_this_select_arms arms
