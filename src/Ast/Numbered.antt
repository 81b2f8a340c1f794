-- ===== src/Ast/Numbered.antt =====
-- crates/tinox-parser/src/node_ids.rs: `Numberer::expr` and `Numberer::stmt` number every expression.
use tinox.Prelude.{ℕ, suc, ◌+◌, ◌%◌, length, ◌∷◌, ◌≡◌, refl, ap, ◌∙◌, arith}
use tinox.Diag.{Span}
use tinox.Lexer.Cursor.{wrap32, u32_mod}
use tinox.Ast.Expr.{
  ExprKind, Expr, OptExpr, Exprs, Entries, FieldInits, MatchCases, CatchClauses, StmtKind, Stmt,
  OptStmt, Stmts, SelectArms,
}
use tinox.Ast.NodeIds.{
  Numberer, ◌>>=◌, pure, fresh, number_kind, number_expr, number_opt_expr, number_exprs,
  number_entries, number_field_inits, number_match_cases, number_catch_clauses, number_stmt_kind,
  number_stmt, number_opt_stmt, number_stmts, number_select_arms,
}
use tinox.Ast.Numbering.{consecutive, Numbers, Numbers-leaf, Numbers-one, Numbers-pair, pair_tree}
use tinox.Ast.Ids.{
  ids_kind, kind_tree, ids_expr, expr_tree, ids_opt_expr, opt_expr_tree, ids_exprs, exprs_tree,
  ids_entries, entries_tree, ids_field_inits, field_inits_tree, ids_match_cases, match_cases_tree,
  ids_catch_clauses, catch_clauses_tree, ids_stmt_kind, stmt_kind_tree, ids_stmt, stmt_tree,
  ids_opt_stmt, opt_stmt_tree, ids_stmts, stmts_tree, ids_select_arms, select_arms_tree,
}
use tinox.Ast.Bare.{bare_expr}

-- A node of its own: it takes the next number, and its parts the numbers behind it.
Numbers-node :
    {F : Type 0} (kind : ExprKind F) (span : Span) (id : ℕ) (m : Numberer (ExprKind F))
    → Numbers kind m
    → Numbers
        (Expr.expr kind span id)
        (fresh >>= λ id'. m >>= λ kind'. pure (Expr.expr kind' span id'))
unfolding fresh wrap32 ids_kind ids_expr bare_expr
Numbers-node kind span id m h n small =
    let c = (n + 1) % u32_mod in
    let counted : c ≡ suc n = omega arith in
    let r = h c (omega arith) in
    record {
      next = omega (arith, r.next);
      numbers =
          ap (λ ns. n ∷ ns) (r.numbers ∙ ap (λ s. consecutive s (length (ids_kind kind))) counted);
      same = ap (λ k. Expr.expr k span 0) r.same;
    }

mutual
  unfolding number_expr ids_kind ids_expr ids_opt_expr ids_exprs ids_entries ids_field_inits
      ids_match_cases ids_catch_clauses ids_stmt_kind ids_stmt ids_opt_stmt ids_stmts
      ids_select_arms bare_expr

  kind-Numbers : {F : Type 0} (k : ExprKind F) → Numbers k (number_kind k)
  kind-Numbers (ExprKind.literal x) = Numbers-leaf _ refl
  kind-Numbers (ExprKind.array_literal es) =
      Numbers-one es (λ r. ExprKind.array_literal r) _ (λ _. refl) (λ _. refl) (exprs-Numbers es)
  kind-Numbers (ExprKind.map_literal es) =
      Numbers-one es (λ r. ExprKind.map_literal r) _ (λ _. refl) (λ _. refl) (entries-Numbers es)
  kind-Numbers (ExprKind.ident x) = Numbers-leaf _ refl
  kind-Numbers (ExprKind.binary x e e') =
      Numbers-one (e, e') (λ r. ExprKind.binary x r.0 r.1) _ (λ _. refl) (λ _. refl)
        (Numbers-pair e _ _ _ (expr-Numbers e) (expr-Numbers e'))
  kind-Numbers (ExprKind.unary x e) =
      Numbers-one e (λ r. ExprKind.unary x r) _ (λ _. refl) (λ _. refl) (expr-Numbers e)
  kind-Numbers (ExprKind.call e es) =
      Numbers-one (e, es) (λ r. ExprKind.call r.0 r.1) _ (λ _. refl) (λ _. refl)
        (Numbers-pair e _ _ _ (expr-Numbers e) (exprs-Numbers es))
  kind-Numbers (ExprKind.method_call e x es) =
      Numbers-one (e, es) (λ r. ExprKind.method_call r.0 x r.1) _ (λ _. refl) (λ _. refl)
        (Numbers-pair e _ _ _ (expr-Numbers e) (exprs-Numbers es))
  kind-Numbers (ExprKind.index e e') =
      Numbers-one (e, e') (λ r. ExprKind.index r.0 r.1) _ (λ _. refl) (λ _. refl)
        (Numbers-pair e _ _ _ (expr-Numbers e) (expr-Numbers e'))
  kind-Numbers (ExprKind.field_access e x) =
      Numbers-one e (λ r. ExprKind.field_access r x) _ (λ _. refl) (λ _. refl) (expr-Numbers e)
  kind-Numbers ExprKind.this = Numbers-leaf _ refl
  kind-Numbers (ExprKind.super_call x es) =
      Numbers-one es (λ r. ExprKind.super_call x r) _ (λ _. refl) (λ _. refl) (exprs-Numbers es)
  kind-Numbers (ExprKind.new x y es) =
      Numbers-one es (λ r. ExprKind.new x y r) _ (λ _. refl) (λ _. refl) (exprs-Numbers es)
  kind-Numbers (ExprKind.struct_literal x fs) =
      Numbers-one fs (λ r. ExprKind.struct_literal x r) _ (λ _. refl) (λ _. refl)
        (field_inits-Numbers fs)
  kind-Numbers (ExprKind.block ss) =
      Numbers-one ss (λ r. ExprKind.block r) _ (λ _. refl) (λ _. refl) (stmts-Numbers ss)
  kind-Numbers (ExprKind.if_ e e' o) =
      Numbers-one (e, (e', o)) (λ r. ExprKind.if_ r.0 r.1.0 r.1.1) _ (λ _. refl) (λ _. refl)
        (Numbers-pair e _ _ _ (expr-Numbers e)
          (Numbers-pair e' _ _ _ (expr-Numbers e') (opt_expr-Numbers o)))
  kind-Numbers (ExprKind.while e e') =
      Numbers-one (e, e') (λ r. ExprKind.while r.0 r.1) _ (λ _. refl) (λ _. refl)
        (Numbers-pair e _ _ _ (expr-Numbers e) (expr-Numbers e'))
  kind-Numbers (ExprKind.for x e e') =
      Numbers-one (e, e') (λ r. ExprKind.for x r.0 r.1) _ (λ _. refl) (λ _. refl)
        (Numbers-pair e _ _ _ (expr-Numbers e) (expr-Numbers e'))
  kind-Numbers (ExprKind.loop e) =
      Numbers-one e (λ r. ExprKind.loop r) _ (λ _. refl) (λ _. refl) (expr-Numbers e)
  kind-Numbers (ExprKind.match e cs) =
      Numbers-one (e, cs) (λ r. ExprKind.match r.0 r.1) _ (λ _. refl) (λ _. refl)
        (Numbers-pair e _ _ _ (expr-Numbers e) (match_cases-Numbers cs))
  kind-Numbers (ExprKind.return o) =
      Numbers-one o (λ r. ExprKind.return r) _ (λ _. refl) (λ _. refl) (opt_expr-Numbers o)
  kind-Numbers ExprKind.break = Numbers-leaf _ refl
  kind-Numbers ExprKind.continue = Numbers-leaf _ refl
  kind-Numbers (ExprKind.throw e) =
      Numbers-one e (λ r. ExprKind.throw r) _ (λ _. refl) (λ _. refl) (expr-Numbers e)
  kind-Numbers (ExprKind.try e cs o) =
      Numbers-one (e, (cs, o)) (λ r. ExprKind.try r.0 r.1.0 r.1.1) _ (λ _. refl) (λ _. refl)
        (Numbers-pair e _ _ _ (expr-Numbers e)
          (Numbers-pair cs _ _ _ (catch_clauses-Numbers cs) (opt_expr-Numbers o)))
  kind-Numbers (ExprKind.assign e e') =
      Numbers-one (e, e') (λ r. ExprKind.assign r.0 r.1) _ (λ _. refl) (λ _. refl)
        (Numbers-pair e _ _ _ (expr-Numbers e) (expr-Numbers e'))
  kind-Numbers (ExprKind.compound_assign x e e') =
      Numbers-one (e, e') (λ r. ExprKind.compound_assign x r.0 r.1) _ (λ _. refl) (λ _. refl)
        (Numbers-pair e _ _ _ (expr-Numbers e) (expr-Numbers e'))
  kind-Numbers (ExprKind.lambda x y e) =
      Numbers-one e (λ r. ExprKind.lambda x y r) _ (λ _. refl) (λ _. refl) (expr-Numbers e)
  kind-Numbers (ExprKind.spawn e) =
      Numbers-one e (λ r. ExprKind.spawn r) _ (λ _. refl) (λ _. refl) (expr-Numbers e)
  kind-Numbers (ExprKind.await e) =
      Numbers-one e (λ r. ExprKind.await r) _ (λ _. refl) (λ _. refl) (expr-Numbers e)
  kind-Numbers ExprKind.channel = Numbers-leaf _ refl
  kind-Numbers (ExprKind.send e e') =
      Numbers-one (e, e') (λ r. ExprKind.send r.0 r.1) _ (λ _. refl) (λ _. refl)
        (Numbers-pair e _ _ _ (expr-Numbers e) (expr-Numbers e'))
  kind-Numbers (ExprKind.recv e) =
      Numbers-one e (λ r. ExprKind.recv r) _ (λ _. refl) (λ _. refl) (expr-Numbers e)
  kind-Numbers (ExprKind.cast e x) =
      Numbers-one e (λ r. ExprKind.cast r x) _ (λ _. refl) (λ _. refl) (expr-Numbers e)
  kind-Numbers (ExprKind.is_ e x) =
      Numbers-one e (λ r. ExprKind.is_ r x) _ (λ _. refl) (λ _. refl) (expr-Numbers e)
  kind-Numbers (ExprKind.range e e' x) =
      Numbers-one (e, e') (λ r. ExprKind.range r.0 r.1 x) _ (λ _. refl) (λ _. refl)
        (Numbers-pair e _ _ _ (expr-Numbers e) (expr-Numbers e'))
  kind-Numbers (ExprKind.tuple es) =
      Numbers-one es (λ r. ExprKind.tuple r) _ (λ _. refl) (λ _. refl) (exprs-Numbers es)
  kind-Numbers (ExprKind.tuple_index e x) =
      Numbers-one e (λ r. ExprKind.tuple_index r x) _ (λ _. refl) (λ _. refl) (expr-Numbers e)
  kind-Numbers (ExprKind.enum_value x y z es) =
      Numbers-one es (λ r. ExprKind.enum_value x y z r) _ (λ _. refl) (λ _. refl) (exprs-Numbers es)

  expr-Numbers : {F : Type 0} (a : Expr F) → Numbers a (number_expr a)
  expr-Numbers (Expr.expr kind span id) =
      Numbers-node kind span id (number_kind kind) (kind-Numbers kind)

  opt_expr-Numbers : {F : Type 0} (a : OptExpr F) → Numbers a (number_opt_expr a)
  opt_expr-Numbers OptExpr.no_expr = Numbers-leaf _ refl
  opt_expr-Numbers (OptExpr.some_expr e) =
      Numbers-one e (λ r. OptExpr.some_expr r) _ (λ _. refl) (λ _. refl) (expr-Numbers e)

  exprs-Numbers : {F : Type 0} (a : Exprs F) → Numbers a (number_exprs a)
  exprs-Numbers Exprs.no_exprs = Numbers-leaf _ refl
  exprs-Numbers (Exprs.more_exprs e es) =
      Numbers-one (e, es) (λ r. Exprs.more_exprs r.0 r.1) _ (λ _. refl) (λ _. refl)
        (Numbers-pair e _ _ _ (expr-Numbers e) (exprs-Numbers es))

  entries-Numbers : {F : Type 0} (a : Entries F) → Numbers a (number_entries a)
  entries-Numbers Entries.no_entries = Numbers-leaf _ refl
  entries-Numbers (Entries.more_entries e e' es) =
      Numbers-one (e, (e', es)) (λ r. Entries.more_entries r.0 r.1.0 r.1.1) _ (λ _. refl)
        (λ _. refl)
        (Numbers-pair e _ _ _ (expr-Numbers e)
          (Numbers-pair e' _ _ _ (expr-Numbers e') (entries-Numbers es)))

  field_inits-Numbers : {F : Type 0} (a : FieldInits F) → Numbers a (number_field_inits a)
  field_inits-Numbers FieldInits.no_fields = Numbers-leaf _ refl
  field_inits-Numbers (FieldInits.more_fields x e fs) =
      Numbers-one (e, fs) (λ r. FieldInits.more_fields x r.0 r.1) _ (λ _. refl) (λ _. refl)
        (Numbers-pair e _ _ _ (expr-Numbers e) (field_inits-Numbers fs))

  match_cases-Numbers : {F : Type 0} (a : MatchCases F) → Numbers a (number_match_cases a)
  match_cases-Numbers MatchCases.no_cases = Numbers-leaf _ refl
  match_cases-Numbers (MatchCases.more_cases x o e y cs) =
      Numbers-one (o, (e, cs)) (λ r. MatchCases.more_cases x r.0 r.1.0 y r.1.1) _ (λ _. refl)
        (λ _. refl)
        (Numbers-pair o _ _ _ (opt_expr-Numbers o)
          (Numbers-pair e _ _ _ (expr-Numbers e) (match_cases-Numbers cs)))

  catch_clauses-Numbers : {F : Type 0} (a : CatchClauses F) → Numbers a (number_catch_clauses a)
  catch_clauses-Numbers CatchClauses.no_catches = Numbers-leaf _ refl
  catch_clauses-Numbers (CatchClauses.more_catches x y s z cs) =
      Numbers-one (s, cs) (λ r. CatchClauses.more_catches x y r.0 z r.1) _ (λ _. refl) (λ _. refl)
        (Numbers-pair s _ _ _ (stmt-Numbers s) (catch_clauses-Numbers cs))

  stmt_kind-Numbers : {F : Type 0} (k : StmtKind F) → Numbers k (number_stmt_kind k)
  stmt_kind-Numbers (StmtKind.expr_stmt e) =
      Numbers-one e (λ r. StmtKind.expr_stmt r) _ (λ _. refl) (λ _. refl) (expr-Numbers e)
  stmt_kind-Numbers (StmtKind.let_ x y o) =
      Numbers-one o (λ r. StmtKind.let_ x y r) _ (λ _. refl) (λ _. refl) (opt_expr-Numbers o)
  stmt_kind-Numbers (StmtKind.var x y o z) =
      Numbers-one o (λ r. StmtKind.var x y r z) _ (λ _. refl) (λ _. refl) (opt_expr-Numbers o)
  stmt_kind-Numbers (StmtKind.assignment e e') =
      Numbers-one (e, e') (λ r. StmtKind.assignment r.0 r.1) _ (λ _. refl) (λ _. refl)
        (Numbers-pair e _ _ _ (expr-Numbers e) (expr-Numbers e'))
  stmt_kind-Numbers (StmtKind.if_stmt e s o) =
      Numbers-one (e, (s, o)) (λ r. StmtKind.if_stmt r.0 r.1.0 r.1.1) _ (λ _. refl) (λ _. refl)
        (Numbers-pair e _ _ _ (expr-Numbers e)
          (Numbers-pair s _ _ _ (stmt-Numbers s) (opt_stmt-Numbers o)))
  stmt_kind-Numbers (StmtKind.while_stmt e s) =
      Numbers-one (e, s) (λ r. StmtKind.while_stmt r.0 r.1) _ (λ _. refl) (λ _. refl)
        (Numbers-pair e _ _ _ (expr-Numbers e) (stmt-Numbers s))
  stmt_kind-Numbers (StmtKind.for_stmt x e s) =
      Numbers-one (e, s) (λ r. StmtKind.for_stmt x r.0 r.1) _ (λ _. refl) (λ _. refl)
        (Numbers-pair e _ _ _ (expr-Numbers e) (stmt-Numbers s))
  stmt_kind-Numbers (StmtKind.for_c o o' o'' s) =
      Numbers-one (o, (o', (o'', s))) (λ r. StmtKind.for_c r.0 r.1.0 r.1.1.0 r.1.1.1) _ (λ _. refl)
        (λ _. refl)
        (Numbers-pair o _ _ _ (opt_stmt-Numbers o) (
          Numbers-pair o' _ _ _ (opt_expr-Numbers o')
            (Numbers-pair o'' _ _ _ (opt_expr-Numbers o'') (stmt-Numbers s))))
  stmt_kind-Numbers (StmtKind.loop_stmt s) =
      Numbers-one s (λ r. StmtKind.loop_stmt r) _ (λ _. refl) (λ _. refl) (stmt-Numbers s)
  stmt_kind-Numbers (StmtKind.return_stmt o) =
      Numbers-one o (λ r. StmtKind.return_stmt r) _ (λ _. refl) (λ _. refl) (opt_expr-Numbers o)
  stmt_kind-Numbers StmtKind.break_stmt = Numbers-leaf _ refl
  stmt_kind-Numbers StmtKind.continue_stmt = Numbers-leaf _ refl
  stmt_kind-Numbers (StmtKind.throw_stmt e) =
      Numbers-one e (λ r. StmtKind.throw_stmt r) _ (λ _. refl) (λ _. refl) (expr-Numbers e)
  stmt_kind-Numbers (StmtKind.try_stmt s cs o) =
      Numbers-one (s, (cs, o)) (λ r. StmtKind.try_stmt r.0 r.1.0 r.1.1) _ (λ _. refl) (λ _. refl)
        (Numbers-pair s _ _ _ (stmt-Numbers s)
          (Numbers-pair cs _ _ _ (catch_clauses-Numbers cs) (opt_stmt-Numbers o)))
  stmt_kind-Numbers (StmtKind.defer s) =
      Numbers-one s (λ r. StmtKind.defer r) _ (λ _. refl) (λ _. refl) (stmt-Numbers s)
  stmt_kind-Numbers (StmtKind.block_stmt ss) =
      Numbers-one ss (λ r. StmtKind.block_stmt r) _ (λ _. refl) (λ _. refl) (stmts-Numbers ss)
  stmt_kind-Numbers (StmtKind.select arms o) =
      Numbers-one (arms, o) (λ r. StmtKind.select r.0 r.1) _ (λ _. refl) (λ _. refl)
        (Numbers-pair arms _ _ _ (select_arms-Numbers arms) (opt_stmt-Numbers o))
  stmt_kind-Numbers StmtKind.empty = Numbers-leaf _ refl

  pub stmt-Numbers : {F : Type 0} (a : Stmt F) → Numbers a (number_stmt a)
  stmt-Numbers (Stmt.stmt k x y) =
      Numbers-one k (λ r. Stmt.stmt r x y) _ (λ _. refl) (λ _. refl) (stmt_kind-Numbers k)

  opt_stmt-Numbers : {F : Type 0} (a : OptStmt F) → Numbers a (number_opt_stmt a)
  opt_stmt-Numbers OptStmt.no_stmt = Numbers-leaf _ refl
  opt_stmt-Numbers (OptStmt.some_stmt s) =
      Numbers-one s (λ r. OptStmt.some_stmt r) _ (λ _. refl) (λ _. refl) (stmt-Numbers s)

  stmts-Numbers : {F : Type 0} (a : Stmts F) → Numbers a (number_stmts a)
  stmts-Numbers Stmts.no_stmts = Numbers-leaf _ refl
  stmts-Numbers (Stmts.more_stmts s ss) =
      Numbers-one (s, ss) (λ r. Stmts.more_stmts r.0 r.1) _ (λ _. refl) (λ _. refl)
        (Numbers-pair s _ _ _ (stmt-Numbers s) (stmts-Numbers ss))

  select_arms-Numbers : {F : Type 0} (a : SelectArms F) → Numbers a (number_select_arms a)
  select_arms-Numbers SelectArms.no_arms = Numbers-leaf _ refl
  select_arms-Numbers (SelectArms.more_arms e x s y arms) =
      Numbers-one (e, (s, arms)) (λ r. SelectArms.more_arms r.0 x r.1.0 y r.1.1) _ (λ _. refl)
        (λ _. refl)
        (Numbers-pair e _ _ _ (expr-Numbers e)
          (Numbers-pair s _ _ _ (stmt-Numbers s) (select_arms-Numbers arms)))
