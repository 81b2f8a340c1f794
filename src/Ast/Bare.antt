-- ===== src/Ast/Bare.antt =====
-- crates/tinox-parser/src/ast.rs: a syntax tree without its ids.

use tinox.Ast.Expr.{
  ExprKind, Expr, OptExpr, Exprs, Entries, FieldInits, MatchCases, CatchClauses, StmtKind, Stmt,
  OptStmt, Stmts, SelectArms,
}

unfoldable mutual
  pub bare_kind : {F : Type 0} → ExprKind F → ExprKind F
  bare_kind (ExprKind.literal x) = ExprKind.literal x
  bare_kind (ExprKind.array_literal es) = ExprKind.array_literal (bare_exprs es)
  bare_kind (ExprKind.map_literal es) = ExprKind.map_literal (bare_entries es)
  bare_kind (ExprKind.ident x) = ExprKind.ident x
  bare_kind (ExprKind.binary x e e') = ExprKind.binary x (bare_expr e) (bare_expr e')
  bare_kind (ExprKind.unary x e) = ExprKind.unary x (bare_expr e)
  bare_kind (ExprKind.call e es) = ExprKind.call (bare_expr e) (bare_exprs es)
  bare_kind (ExprKind.method_call e x es) = ExprKind.method_call (bare_expr e) x (bare_exprs es)
  bare_kind (ExprKind.index e e') = ExprKind.index (bare_expr e) (bare_expr e')
  bare_kind (ExprKind.field_access e x) = ExprKind.field_access (bare_expr e) x
  bare_kind ExprKind.this = ExprKind.this
  bare_kind (ExprKind.super_call x es) = ExprKind.super_call x (bare_exprs es)
  bare_kind (ExprKind.new x y es) = ExprKind.new x y (bare_exprs es)
  bare_kind (ExprKind.struct_literal x fs) = ExprKind.struct_literal x (bare_field_inits fs)
  bare_kind (ExprKind.block ss) = ExprKind.block (bare_stmts ss)
  bare_kind (ExprKind.if_ e e' o) = ExprKind.if_ (bare_expr e) (bare_expr e') (bare_opt_expr o)
  bare_kind (ExprKind.while e e') = ExprKind.while (bare_expr e) (bare_expr e')
  bare_kind (ExprKind.for x e e') = ExprKind.for x (bare_expr e) (bare_expr e')
  bare_kind (ExprKind.loop e) = ExprKind.loop (bare_expr e)
  bare_kind (ExprKind.match e cs) = ExprKind.match (bare_expr e) (bare_match_cases cs)
  bare_kind (ExprKind.return o) = ExprKind.return (bare_opt_expr o)
  bare_kind ExprKind.break = ExprKind.break
  bare_kind ExprKind.continue = ExprKind.continue
  bare_kind (ExprKind.throw e) = ExprKind.throw (bare_expr e)
  bare_kind (ExprKind.try e cs o) =
      ExprKind.try (bare_expr e) (bare_catch_clauses cs) (bare_opt_expr o)
  bare_kind (ExprKind.assign e e') = ExprKind.assign (bare_expr e) (bare_expr e')
  bare_kind (ExprKind.compound_assign x e e') =
      ExprKind.compound_assign x (bare_expr e) (bare_expr e')
  bare_kind (ExprKind.lambda x y e) = ExprKind.lambda x y (bare_expr e)
  bare_kind (ExprKind.spawn e) = ExprKind.spawn (bare_expr e)
  bare_kind (ExprKind.await e) = ExprKind.await (bare_expr e)
  bare_kind ExprKind.channel = ExprKind.channel
  bare_kind (ExprKind.send e e') = ExprKind.send (bare_expr e) (bare_expr e')
  bare_kind (ExprKind.recv e) = ExprKind.recv (bare_expr e)
  bare_kind (ExprKind.cast e x) = ExprKind.cast (bare_expr e) x
  bare_kind (ExprKind.is_ e x) = ExprKind.is_ (bare_expr e) x
  bare_kind (ExprKind.range e e' x) = ExprKind.range (bare_expr e) (bare_expr e') x
  bare_kind (ExprKind.tuple es) = ExprKind.tuple (bare_exprs es)
  bare_kind (ExprKind.tuple_index e x) = ExprKind.tuple_index (bare_expr e) x
  bare_kind (ExprKind.enum_value x y z es) = ExprKind.enum_value x y z (bare_exprs es)

  pub bare_expr : {F : Type 0} → Expr F → Expr F
  bare_expr (Expr.expr kind span _) = Expr.expr (bare_kind kind) span 0

  pub bare_opt_expr : {F : Type 0} → OptExpr F → OptExpr F
  bare_opt_expr OptExpr.no_expr = OptExpr.no_expr
  bare_opt_expr (OptExpr.some_expr e) = OptExpr.some_expr (bare_expr e)

  pub bare_exprs : {F : Type 0} → Exprs F → Exprs F
  bare_exprs Exprs.no_exprs = Exprs.no_exprs
  bare_exprs (Exprs.more_exprs e es) = Exprs.more_exprs (bare_expr e) (bare_exprs es)

  pub bare_entries : {F : Type 0} → Entries F → Entries F
  bare_entries Entries.no_entries = Entries.no_entries
  bare_entries (Entries.more_entries e e' es) =
      Entries.more_entries (bare_expr e) (bare_expr e') (bare_entries es)

  pub bare_field_inits : {F : Type 0} → FieldInits F → FieldInits F
  bare_field_inits FieldInits.no_fields = FieldInits.no_fields
  bare_field_inits (FieldInits.more_fields x e fs) =
      FieldInits.more_fields x (bare_expr e) (bare_field_inits fs)

  pub bare_match_cases : {F : Type 0} → MatchCases F → MatchCases F
  bare_match_cases MatchCases.no_cases = MatchCases.no_cases
  bare_match_cases (MatchCases.more_cases x o e y cs) =
      MatchCases.more_cases x (bare_opt_expr o) (bare_expr e) y (bare_match_cases cs)

  pub bare_catch_clauses : {F : Type 0} → CatchClauses F → CatchClauses F
  bare_catch_clauses CatchClauses.no_catches = CatchClauses.no_catches
  bare_catch_clauses (CatchClauses.more_catches x y s z cs) =
      CatchClauses.more_catches x y (bare_stmt s) z (bare_catch_clauses cs)

  pub bare_stmt_kind : {F : Type 0} → StmtKind F → StmtKind F
  bare_stmt_kind (StmtKind.expr_stmt e) = StmtKind.expr_stmt (bare_expr e)
  bare_stmt_kind (StmtKind.let_ x y o) = StmtKind.let_ x y (bare_opt_expr o)
  bare_stmt_kind (StmtKind.var x y o z) = StmtKind.var x y (bare_opt_expr o) z
  bare_stmt_kind (StmtKind.assignment e e') = StmtKind.assignment (bare_expr e) (bare_expr e')
  bare_stmt_kind (StmtKind.if_stmt e s o) =
      StmtKind.if_stmt (bare_expr e) (bare_stmt s) (bare_opt_stmt o)
  bare_stmt_kind (StmtKind.while_stmt e s) = StmtKind.while_stmt (bare_expr e) (bare_stmt s)
  bare_stmt_kind (StmtKind.for_stmt x e s) = StmtKind.for_stmt x (bare_expr e) (bare_stmt s)
  bare_stmt_kind (StmtKind.for_c o o' o'' s) =
      StmtKind.for_c (bare_opt_stmt o) (bare_opt_expr o') (bare_opt_expr o'') (bare_stmt s)
  bare_stmt_kind (StmtKind.loop_stmt s) = StmtKind.loop_stmt (bare_stmt s)
  bare_stmt_kind (StmtKind.return_stmt o) = StmtKind.return_stmt (bare_opt_expr o)
  bare_stmt_kind StmtKind.break_stmt = StmtKind.break_stmt
  bare_stmt_kind StmtKind.continue_stmt = StmtKind.continue_stmt
  bare_stmt_kind (StmtKind.throw_stmt e) = StmtKind.throw_stmt (bare_expr e)
  bare_stmt_kind (StmtKind.try_stmt s cs o) =
      StmtKind.try_stmt (bare_stmt s) (bare_catch_clauses cs) (bare_opt_stmt o)
  bare_stmt_kind (StmtKind.defer s) = StmtKind.defer (bare_stmt s)
  bare_stmt_kind (StmtKind.block_stmt ss) = StmtKind.block_stmt (bare_stmts ss)
  bare_stmt_kind (StmtKind.select arms o) =
      StmtKind.select (bare_select_arms arms) (bare_opt_stmt o)
  bare_stmt_kind StmtKind.empty = StmtKind.empty

  pub bare_stmt : {F : Type 0} → Stmt F → Stmt F
  bare_stmt (Stmt.stmt k x y) = Stmt.stmt (bare_stmt_kind k) x y

  pub bare_opt_stmt : {F : Type 0} → OptStmt F → OptStmt F
  bare_opt_stmt OptStmt.no_stmt = OptStmt.no_stmt
  bare_opt_stmt (OptStmt.some_stmt s) = OptStmt.some_stmt (bare_stmt s)

  pub bare_stmts : {F : Type 0} → Stmts F → Stmts F
  bare_stmts Stmts.no_stmts = Stmts.no_stmts
  bare_stmts (Stmts.more_stmts s ss) = Stmts.more_stmts (bare_stmt s) (bare_stmts ss)

  pub bare_select_arms : {F : Type 0} → SelectArms F → SelectArms F
  bare_select_arms SelectArms.no_arms = SelectArms.no_arms
  bare_select_arms (SelectArms.more_arms e x s y arms) =
      SelectArms.more_arms (bare_expr e) x (bare_stmt s) y (bare_select_arms arms)
