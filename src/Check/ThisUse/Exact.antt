-- ===== src/Check/ThisUse/Exact.antt =====
-- crates/tinox-typecheck/src/lib.rs: what `stmt_uses_this` and `expr_uses_this` look at.
use tinox.Prelude.{ℕ, Bool, true, false, ◌||◌, List, [], ◌∷◌, ◌++◌, ◌≡◌, refl, sym, ◌∙◌}
use tinox.Ast.Expr.{
  ExprKind, Expr, OptExpr, Exprs, Entries, FieldInits, MatchCases, CatchClauses, StmtKind, Stmt,
  OptStmt, Stmts, SelectArms,
}
use tinox.Ast.Collect.{
  collect_kind, collect_expr, collect_opt_expr, collect_exprs, collect_entries, collect_field_inits,
  collect_match_cases, collect_catch_clauses, collect_stmt_kind, collect_stmt, collect_opt_stmt,
  collect_stmts, collect_select_arms,
}
use tinox.Check.ThisUse.{
  uses_this_kind, uses_this_expr, uses_this_opt_expr, uses_this_exprs, uses_this_entries,
  uses_this_field_inits, uses_this_match_cases, uses_this_catch_clauses, uses_this_stmt_kind,
  uses_this_stmt, uses_this_opt_stmt, uses_this_stmts, uses_this_select_arms,
}

abbrev pub any : List Bool → Bool
any [] = false
any (b ∷ bs) = b || any bs

abbrev pub is_this : {F : Type 0} → ExprKind F → ℕ → Bool
is_this ExprKind.this _ = true
is_this _ _ = false

any-append : (bs cs : List Bool) → any (bs ++ cs) ≡ any bs || any cs
any-append [] cs = refl
any-append (true ∷ bs) cs = refl
any-append (false ∷ bs) cs = any-append bs cs

-- `b` says whether one of the tests `bs` holds.
record Decides (bs : List Bool) (b : Bool) : Type 0 where
  decided : any bs ≡ b

any-both :
    {bs cs : List Bool} {b c : Bool} → Decides bs b → Decides cs c → Decides (bs ++ cs) (b || c)
any-both {bs} {cs} h k = record { decided = any-append bs cs ∙ λ i. h.decided i || k.decided i }

or_regroup : (a b c : Bool) → a || (b || c) ≡ (b || a) || c
or_regroup true true c = refl
or_regroup true false c = refl
or_regroup false true c = refl
or_regroup false false c = refl

regrouped :
    {F : Type 0} {bs : List Bool} (o : OptExpr F) (e : Expr F) (cs : MatchCases F)
    → Decides bs (uses_this_opt_expr o || (uses_this_expr e || uses_this_match_cases cs))
    → Decides bs ((uses_this_expr e || uses_this_opt_expr o) || uses_this_match_cases cs)
regrouped o e cs h = record {
  decided =
      h.decided ∙ or_regroup (uses_this_opt_expr o) (uses_this_expr e) (uses_this_match_cases cs);
}

-- A node that is not `this` is decided by its parts.
passed_on : {bs : List Bool} {b : Bool} → Decides bs b → Decides (false ∷ bs) b
passed_on h = record { decided = h.decided }

mutual
  unfolding collect_expr uses_this_expr

  kind-any :
      {F : Type 0} (k : ExprKind F) (id : ℕ)
      → Decides (is_this k id ∷ collect_kind is_this false k) (uses_this_kind k)
  kind-any (ExprKind.literal x) id = record { decided = refl }
  kind-any (ExprKind.array_literal es) id = passed_on (exprs-any es)
  kind-any (ExprKind.map_literal es) id = passed_on (entries-any es)
  kind-any (ExprKind.ident x) id = record { decided = refl }
  kind-any (ExprKind.binary x e e') id = passed_on (any-both (expr-any e) (expr-any e'))
  kind-any (ExprKind.unary x e) id = passed_on (expr-any e)
  kind-any (ExprKind.call e es) id = passed_on (any-both (expr-any e) (exprs-any es))
  kind-any (ExprKind.method_call e x es) id = passed_on (any-both (expr-any e) (exprs-any es))
  kind-any (ExprKind.index e e') id = passed_on (any-both (expr-any e) (expr-any e'))
  kind-any (ExprKind.field_access e x) id = passed_on (expr-any e)
  kind-any ExprKind.this id = record { decided = refl }
  kind-any (ExprKind.super_call x es) id = passed_on (exprs-any es)
  kind-any (ExprKind.new x y es) id = passed_on (exprs-any es)
  kind-any (ExprKind.struct_literal x fs) id = passed_on (field_inits-any fs)
  kind-any (ExprKind.block ss) id = passed_on (stmts-any ss)
  kind-any (ExprKind.if_ e e' o) id =
      passed_on (any-both (expr-any e) (any-both (expr-any e') (opt_expr-any o)))
  kind-any (ExprKind.while e e') id = passed_on (any-both (expr-any e) (expr-any e'))
  kind-any (ExprKind.for x e e') id = passed_on (any-both (expr-any e) (expr-any e'))
  kind-any (ExprKind.loop e) id = passed_on (expr-any e)
  kind-any (ExprKind.match e cs) id = passed_on (any-both (expr-any e) (match_cases-any cs))
  kind-any (ExprKind.return o) id = passed_on (opt_expr-any o)
  kind-any ExprKind.break id = record { decided = refl }
  kind-any ExprKind.continue id = record { decided = refl }
  kind-any (ExprKind.throw e) id = passed_on (expr-any e)
  kind-any (ExprKind.try e cs o) id =
      passed_on (any-both (expr-any e) (any-both (catch_clauses-any cs) (opt_expr-any o)))
  kind-any (ExprKind.assign e e') id = passed_on (any-both (expr-any e) (expr-any e'))
  kind-any (ExprKind.compound_assign x e e') id = passed_on (any-both (expr-any e) (expr-any e'))
  kind-any (ExprKind.lambda x y e) id = passed_on (expr-any e)
  kind-any (ExprKind.spawn e) id = passed_on (expr-any e)
  kind-any (ExprKind.await e) id = passed_on (expr-any e)
  kind-any ExprKind.channel id = record { decided = refl }
  kind-any (ExprKind.send e e') id = passed_on (any-both (expr-any e) (expr-any e'))
  kind-any (ExprKind.recv e) id = passed_on (expr-any e)
  kind-any (ExprKind.cast e x) id = passed_on (expr-any e)
  kind-any (ExprKind.is_ e x) id = passed_on (expr-any e)
  kind-any (ExprKind.range e e' x) id = passed_on (any-both (expr-any e) (expr-any e'))
  kind-any (ExprKind.tuple es) id = passed_on (exprs-any es)
  kind-any (ExprKind.tuple_index e x) id = passed_on (expr-any e)
  kind-any (ExprKind.enum_value x y z es) id = passed_on (exprs-any es)

  expr-any : {F : Type 0} (a : Expr F) → Decides (collect_expr is_this false a) (uses_this_expr a)
  expr-any (Expr.expr kind span id) = kind-any kind id

  opt_expr-any :
      {F : Type 0} (a : OptExpr F)
      → Decides (collect_opt_expr is_this false a) (uses_this_opt_expr a)
  opt_expr-any OptExpr.no_expr = record { decided = refl }
  opt_expr-any (OptExpr.some_expr e) = expr-any e

  exprs-any :
      {F : Type 0} (a : Exprs F) → Decides (collect_exprs is_this false a) (uses_this_exprs a)
  exprs-any Exprs.no_exprs = record { decided = refl }
  exprs-any (Exprs.more_exprs e es) = any-both (expr-any e) (exprs-any es)

  entries-any :
      {F : Type 0} (a : Entries F) → Decides (collect_entries is_this false a) (uses_this_entries a)
  entries-any Entries.no_entries = record { decided = refl }
  entries-any (Entries.more_entries e e' es) =
      any-both (expr-any e) (any-both (expr-any e') (entries-any es))

  field_inits-any :
      {F : Type 0} (a : FieldInits F)
      → Decides (collect_field_inits is_this false a) (uses_this_field_inits a)
  field_inits-any FieldInits.no_fields = record { decided = refl }
  field_inits-any (FieldInits.more_fields x e fs) = any-both (expr-any e) (field_inits-any fs)

  match_cases-any :
      {F : Type 0} (a : MatchCases F)
      → Decides (collect_match_cases is_this false a) (uses_this_match_cases a)
  match_cases-any MatchCases.no_cases = record { decided = refl }
  match_cases-any (MatchCases.more_cases x o e y cs) =
      regrouped o e cs (any-both (opt_expr-any o) (any-both (expr-any e) (match_cases-any cs)))

  catch_clauses-any :
      {F : Type 0} (a : CatchClauses F)
      → Decides (collect_catch_clauses is_this false a) (uses_this_catch_clauses a)
  catch_clauses-any CatchClauses.no_catches = record { decided = refl }
  catch_clauses-any (CatchClauses.more_catches x y s z cs) =
      any-both (stmt-any s) (catch_clauses-any cs)

  stmt_kind-any :
      {F : Type 0} (k : StmtKind F)
      → Decides (collect_stmt_kind is_this false k) (uses_this_stmt_kind k)
  stmt_kind-any (StmtKind.expr_stmt e) = expr-any e
  stmt_kind-any (StmtKind.let_ x y o) = opt_expr-any o
  stmt_kind-any (StmtKind.var x y o z) = opt_expr-any o
  stmt_kind-any (StmtKind.assignment e e') = any-both (expr-any e) (expr-any e')
  stmt_kind-any (StmtKind.if_stmt e s o) =
      any-both (expr-any e) (any-both (stmt-any s) (opt_stmt-any o))
  stmt_kind-any (StmtKind.while_stmt e s) = any-both (expr-any e) (stmt-any s)
  stmt_kind-any (StmtKind.for_stmt x e s) = any-both (expr-any e) (stmt-any s)
  stmt_kind-any (StmtKind.for_c o o' o'' s) =
      any-both (opt_stmt-any o)
        (any-both (opt_expr-any o') (any-both (opt_expr-any o'') (stmt-any s)))
  stmt_kind-any (StmtKind.loop_stmt s) = stmt-any s
  stmt_kind-any (StmtKind.return_stmt o) = opt_expr-any o
  stmt_kind-any StmtKind.break_stmt = record { decided = refl }
  stmt_kind-any StmtKind.continue_stmt = record { decided = refl }
  stmt_kind-any (StmtKind.throw_stmt e) = expr-any e
  stmt_kind-any (StmtKind.try_stmt s cs o) =
      any-both (stmt-any s) (any-both (catch_clauses-any cs) (opt_stmt-any o))
  stmt_kind-any (StmtKind.defer s) = stmt-any s
  stmt_kind-any (StmtKind.block_stmt ss) = stmts-any ss
  stmt_kind-any (StmtKind.select arms o) = any-both (select_arms-any arms) (opt_stmt-any o)
  stmt_kind-any StmtKind.empty = record { decided = refl }

  stmt-any : {F : Type 0} (a : Stmt F) → Decides (collect_stmt is_this false a) (uses_this_stmt a)
  stmt-any (Stmt.stmt k x y) = stmt_kind-any k

  opt_stmt-any :
      {F : Type 0} (a : OptStmt F)
      → Decides (collect_opt_stmt is_this false a) (uses_this_opt_stmt a)
  opt_stmt-any OptStmt.no_stmt = record { decided = refl }
  opt_stmt-any (OptStmt.some_stmt s) = stmt-any s

  stmts-any :
      {F : Type 0} (a : Stmts F) → Decides (collect_stmts is_this false a) (uses_this_stmts a)
  stmts-any Stmts.no_stmts = record { decided = refl }
  stmts-any (Stmts.more_stmts s ss) = any-both (stmt-any s) (stmts-any ss)

  select_arms-any :
      {F : Type 0} (a : SelectArms F)
      → Decides (collect_select_arms is_this false a) (uses_this_select_arms a)
  select_arms-any SelectArms.no_arms = record { decided = refl }
  select_arms-any (SelectArms.more_arms e x s y arms) = any-both (stmt-any s) (select_arms-any arms)

-- `stmt_uses_this` says exactly whether `this` stands among the expressions of the statement, at any
-- depth, those aside that are the channel of a `select` arm.
pub stmt_uses_this-exact :
    {F : Type 0} (s : Stmt F) → uses_this_stmt s ≡ any (collect_stmt is_this false s)
stmt_uses_this-exact s = sym (stmt-any s).decided
