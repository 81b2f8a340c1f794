-- ===== src/Ast/Collect.antt =====
-- crates/tinox-parser/src/ast.rs: what a visit of the expressions of a tree collects, from left to right.
use tinox.Prelude.{ℕ, Bool, if◌then◌else◌, List, [], ◌∷◌, ◌++◌}
use tinox.Ast.Expr.{
  ExprKind, Expr, OptExpr, Exprs, Entries, FieldInits, MatchCases, CatchClauses, StmtKind, Stmt,
  OptStmt, Stmts, SelectArms,
}

-- What `visit` makes of each expression of a tree, from left to right; without `channels` the channels
-- of the arms of a `select` are passed over.
module _ {F A : Type 0} (visit : ExprKind F → ℕ → A) (channels : Bool) where
  unfoldable mutual
    pub collect_kind : ExprKind F → List A
    collect_kind (ExprKind.literal x) = []
    collect_kind (ExprKind.array_literal es) = collect_exprs es
    collect_kind (ExprKind.map_literal es) = collect_entries es
    collect_kind (ExprKind.ident x) = []
    collect_kind (ExprKind.binary x e e') = collect_expr e ++ collect_expr e'
    collect_kind (ExprKind.unary x e) = collect_expr e
    collect_kind (ExprKind.call e es) = collect_expr e ++ collect_exprs es
    collect_kind (ExprKind.method_call e x es) = collect_expr e ++ collect_exprs es
    collect_kind (ExprKind.index e e') = collect_expr e ++ collect_expr e'
    collect_kind (ExprKind.field_access e x) = collect_expr e
    collect_kind ExprKind.this = []
    collect_kind (ExprKind.super_call x es) = collect_exprs es
    collect_kind (ExprKind.new x y es) = collect_exprs es
    collect_kind (ExprKind.struct_literal x fs) = collect_field_inits fs
    collect_kind (ExprKind.block ss) = collect_stmts ss
    collect_kind (ExprKind.if_ e e' o) = collect_expr e ++ (collect_expr e' ++ collect_opt_expr o)
    collect_kind (ExprKind.while e e') = collect_expr e ++ collect_expr e'
    collect_kind (ExprKind.for x e e') = collect_expr e ++ collect_expr e'
    collect_kind (ExprKind.loop e) = collect_expr e
    collect_kind (ExprKind.match e cs) = collect_expr e ++ collect_match_cases cs
    collect_kind (ExprKind.return o) = collect_opt_expr o
    collect_kind ExprKind.break = []
    collect_kind ExprKind.continue = []
    collect_kind (ExprKind.throw e) = collect_expr e
    collect_kind (ExprKind.try e cs o) =
        collect_expr e ++ (collect_catch_clauses cs ++ collect_opt_expr o)
    collect_kind (ExprKind.assign e e') = collect_expr e ++ collect_expr e'
    collect_kind (ExprKind.compound_assign x e e') = collect_expr e ++ collect_expr e'
    collect_kind (ExprKind.lambda x y e) = collect_expr e
    collect_kind (ExprKind.spawn e) = collect_expr e
    collect_kind (ExprKind.await e) = collect_expr e
    collect_kind ExprKind.channel = []
    collect_kind (ExprKind.send e e') = collect_expr e ++ collect_expr e'
    collect_kind (ExprKind.recv e) = collect_expr e
    collect_kind (ExprKind.cast e x) = collect_expr e
    collect_kind (ExprKind.is_ e x) = collect_expr e
    collect_kind (ExprKind.range e e' x) = collect_expr e ++ collect_expr e'
    collect_kind (ExprKind.tuple es) = collect_exprs es
    collect_kind (ExprKind.tuple_index e x) = collect_expr e
    collect_kind (ExprKind.enum_value x y z es) = collect_exprs es

    pub collect_expr : Expr F → List A
    collect_expr (Expr.expr kind span id) = visit kind id ∷ collect_kind kind

    pub collect_opt_expr : OptExpr F → List A
    collect_opt_expr OptExpr.no_expr = []
    collect_opt_expr (OptExpr.some_expr e) = collect_expr e

    pub collect_exprs : Exprs F → List A
    collect_exprs Exprs.no_exprs = []
    collect_exprs (Exprs.more_exprs e es) = collect_expr e ++ collect_exprs es

    pub collect_entries : Entries F → List A
    collect_entries Entries.no_entries = []
    collect_entries (Entries.more_entries e e' es) =
        collect_expr e ++ (collect_expr e' ++ collect_entries es)

    pub collect_field_inits : FieldInits F → List A
    collect_field_inits FieldInits.no_fields = []
    collect_field_inits (FieldInits.more_fields x e fs) = collect_expr e ++ collect_field_inits fs

    pub collect_match_cases : MatchCases F → List A
    collect_match_cases MatchCases.no_cases = []
    collect_match_cases (MatchCases.more_cases x o e y cs) =
        collect_opt_expr o ++ (collect_expr e ++ collect_match_cases cs)

    pub collect_catch_clauses : CatchClauses F → List A
    collect_catch_clauses CatchClauses.no_catches = []
    collect_catch_clauses (CatchClauses.more_catches x y s z cs) =
        collect_stmt s ++ collect_catch_clauses cs

    pub collect_stmt_kind : StmtKind F → List A
    collect_stmt_kind (StmtKind.expr_stmt e) = collect_expr e
    collect_stmt_kind (StmtKind.let_ x y o) = collect_opt_expr o
    collect_stmt_kind (StmtKind.var x y o z) = collect_opt_expr o
    collect_stmt_kind (StmtKind.assignment e e') = collect_expr e ++ collect_expr e'
    collect_stmt_kind (StmtKind.if_stmt e s o) =
        collect_expr e ++ (collect_stmt s ++ collect_opt_stmt o)
    collect_stmt_kind (StmtKind.while_stmt e s) = collect_expr e ++ collect_stmt s
    collect_stmt_kind (StmtKind.for_stmt x e s) = collect_expr e ++ collect_stmt s
    collect_stmt_kind (StmtKind.for_c o o' o'' s) =
        collect_opt_stmt o ++ (collect_opt_expr o' ++ (collect_opt_expr o'' ++ collect_stmt s))
    collect_stmt_kind (StmtKind.loop_stmt s) = collect_stmt s
    collect_stmt_kind (StmtKind.return_stmt o) = collect_opt_expr o
    collect_stmt_kind StmtKind.break_stmt = []
    collect_stmt_kind StmtKind.continue_stmt = []
    collect_stmt_kind (StmtKind.throw_stmt e) = collect_expr e
    collect_stmt_kind (StmtKind.try_stmt s cs o) =
        collect_stmt s ++ (collect_catch_clauses cs ++ collect_opt_stmt o)
    collect_stmt_kind (StmtKind.defer s) = collect_stmt s
    collect_stmt_kind (StmtKind.block_stmt ss) = collect_stmts ss
    collect_stmt_kind (StmtKind.select arms o) = collect_select_arms arms ++ collect_opt_stmt o
    collect_stmt_kind StmtKind.empty = []

    pub collect_stmt : Stmt F → List A
    collect_stmt (Stmt.stmt k x y) = collect_stmt_kind k

    pub collect_opt_stmt : OptStmt F → List A
    collect_opt_stmt OptStmt.no_stmt = []
    collect_opt_stmt (OptStmt.some_stmt s) = collect_stmt s

    pub collect_stmts : Stmts F → List A
    collect_stmts Stmts.no_stmts = []
    collect_stmts (Stmts.more_stmts s ss) = collect_stmt s ++ collect_stmts ss

    pub collect_select_arms : SelectArms F → List A
    collect_select_arms SelectArms.no_arms = []
    collect_select_arms (SelectArms.more_arms e x s y arms) =
        (if channels then collect_expr e else []) ++ (collect_stmt s ++ collect_select_arms arms)
