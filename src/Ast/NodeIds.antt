-- ===== src/Ast/NodeIds.antt =====
-- crates/tinox-parser/src/node_ids.rs: the numbering of the expressions of a source file.
use tinox.Prelude.{ℕ, ◌+◌, List, [], ◌∷◌}
use tinox.Lexer.Cursor.{wrap32}
use tinox.Ast.Expr.{
  ExprKind, Expr, OptExpr, Exprs, Entries, FieldInits, MatchCases, CatchClauses, StmtKind, Stmt,
  OptStmt, Stmts, SelectArms,
}
use tinox.Ast.Decl.{Function, Method, DeclKind, Decl, Decls, SourceFile}

-- `Numberer` is its field `next`; a method returns what it has numbered and the field behind it.
abbrev pub Numberer : Type 0 → Type 0
Numberer A = ℕ → A × ℕ

infixl 5 ◌>>=◌
abbrev pub ◌>>=◌ : {A B : Type 0} → Numberer A → (A → Numberer B) → Numberer B
◌>>=◌ m f n = f (m n).0 (m n).1

abbrev pub pure : {A : Type 0} → A → Numberer A
pure a n = (a, n)

-- `e.id = self.next; self.next += 1`
unfoldable pub fresh : Numberer ℕ
unfolding wrap32
fresh n = (n, wrap32 (n + 1))

unfoldable mutual
  unfolding fresh

  pub number_kind : {F : Type 0} → ExprKind F → Numberer (ExprKind F)
  number_kind (ExprKind.literal x) = pure (ExprKind.literal x)
  number_kind (ExprKind.array_literal es) = do
    r1 ← number_exprs es
    pure (ExprKind.array_literal r1)
  number_kind (ExprKind.map_literal es) = do r1 ← number_entries es; pure (ExprKind.map_literal r1)
  number_kind (ExprKind.ident x) = pure (ExprKind.ident x)
  number_kind (ExprKind.binary x e e') = do
    r1 ← number_expr e
    r2 ← number_expr e'
    pure (ExprKind.binary x r1 r2)
  number_kind (ExprKind.unary x e) = do r1 ← number_expr e; pure (ExprKind.unary x r1)
  number_kind (ExprKind.call e es) = do
    r1 ← number_expr e
    r2 ← number_exprs es
    pure (ExprKind.call r1 r2)
  number_kind (ExprKind.method_call e x es) = do
    r1 ← number_expr e
    r2 ← number_exprs es
    pure (ExprKind.method_call r1 x r2)
  number_kind (ExprKind.index e e') = do
    r1 ← number_expr e
    r2 ← number_expr e'
    pure (ExprKind.index r1 r2)
  number_kind (ExprKind.field_access e x) = do r1 ← number_expr e; pure (ExprKind.field_access r1 x)
  number_kind ExprKind.this = pure ExprKind.this
  number_kind (ExprKind.super_call x es) = do r1 ← number_exprs es; pure (ExprKind.super_call x r1)
  number_kind (ExprKind.new x y es) = do r1 ← number_exprs es; pure (ExprKind.new x y r1)
  number_kind (ExprKind.struct_literal x fs) = do
    r1 ← number_field_inits fs
    pure (ExprKind.struct_literal x r1)
  number_kind (ExprKind.block ss) = do r1 ← number_stmts ss; pure (ExprKind.block r1)
  number_kind (ExprKind.if_ e e' o) = do
    r1 ← number_expr e
    r2 ← number_expr e'
    r3 ← number_opt_expr o
    pure (ExprKind.if_ r1 r2 r3)
  number_kind (ExprKind.while e e') = do
    r1 ← number_expr e
    r2 ← number_expr e'
    pure (ExprKind.while r1 r2)
  number_kind (ExprKind.for x e e') = do
    r1 ← number_expr e
    r2 ← number_expr e'
    pure (ExprKind.for x r1 r2)
  number_kind (ExprKind.loop e) = do r1 ← number_expr e; pure (ExprKind.loop r1)
  number_kind (ExprKind.match e cs) = do
    r1 ← number_expr e
    r2 ← number_match_cases cs
    pure (ExprKind.match r1 r2)
  number_kind (ExprKind.return o) = do r1 ← number_opt_expr o; pure (ExprKind.return r1)
  number_kind ExprKind.break = pure ExprKind.break
  number_kind ExprKind.continue = pure ExprKind.continue
  number_kind (ExprKind.throw e) = do r1 ← number_expr e; pure (ExprKind.throw r1)
  number_kind (ExprKind.try e cs o) = do
    r1 ← number_expr e
    r2 ← number_catch_clauses cs
    r3 ← number_opt_expr o
    pure (ExprKind.try r1 r2 r3)
  number_kind (ExprKind.assign e e') = do
    r1 ← number_expr e
    r2 ← number_expr e'
    pure (ExprKind.assign r1 r2)
  number_kind (ExprKind.compound_assign x e e') = do
    r1 ← number_expr e
    r2 ← number_expr e'
    pure (ExprKind.compound_assign x r1 r2)
  number_kind (ExprKind.lambda x y e) = do r1 ← number_expr e; pure (ExprKind.lambda x y r1)
  number_kind (ExprKind.spawn e) = do r1 ← number_expr e; pure (ExprKind.spawn r1)
  number_kind (ExprKind.await e) = do r1 ← number_expr e; pure (ExprKind.await r1)
  number_kind ExprKind.channel = pure ExprKind.channel
  number_kind (ExprKind.send e e') = do
    r1 ← number_expr e
    r2 ← number_expr e'
    pure (ExprKind.send r1 r2)
  number_kind (ExprKind.recv e) = do r1 ← number_expr e; pure (ExprKind.recv r1)
  number_kind (ExprKind.cast e x) = do r1 ← number_expr e; pure (ExprKind.cast r1 x)
  number_kind (ExprKind.is_ e x) = do r1 ← number_expr e; pure (ExprKind.is_ r1 x)
  number_kind (ExprKind.range e e' x) = do
    r1 ← number_expr e
    r2 ← number_expr e'
    pure (ExprKind.range r1 r2 x)
  number_kind (ExprKind.tuple es) = do r1 ← number_exprs es; pure (ExprKind.tuple r1)
  number_kind (ExprKind.tuple_index e x) = do r1 ← number_expr e; pure (ExprKind.tuple_index r1 x)
  number_kind (ExprKind.enum_value x y z es) = do
    r1 ← number_exprs es
    pure (ExprKind.enum_value x y z r1)

  pub number_expr : {F : Type 0} → Expr F → Numberer (Expr F)
  number_expr (Expr.expr kind span _) = do
    id ← fresh
    kind' ← number_kind kind
    pure (Expr.expr kind' span id)

  pub number_opt_expr : {F : Type 0} → OptExpr F → Numberer (OptExpr F)
  number_opt_expr OptExpr.no_expr = pure OptExpr.no_expr
  number_opt_expr (OptExpr.some_expr e) = do r1 ← number_expr e; pure (OptExpr.some_expr r1)

  pub number_exprs : {F : Type 0} → Exprs F → Numberer (Exprs F)
  number_exprs Exprs.no_exprs = pure Exprs.no_exprs
  number_exprs (Exprs.more_exprs e es) = do
    r1 ← number_expr e
    r2 ← number_exprs es
    pure (Exprs.more_exprs r1 r2)

  pub number_entries : {F : Type 0} → Entries F → Numberer (Entries F)
  number_entries Entries.no_entries = pure Entries.no_entries
  number_entries (Entries.more_entries e e' es) = do
    r1 ← number_expr e
    r2 ← number_expr e'
    r3 ← number_entries es
    pure (Entries.more_entries r1 r2 r3)

  pub number_field_inits : {F : Type 0} → FieldInits F → Numberer (FieldInits F)
  number_field_inits FieldInits.no_fields = pure FieldInits.no_fields
  number_field_inits (FieldInits.more_fields x e fs) = do
    r1 ← number_expr e
    r2 ← number_field_inits fs
    pure (FieldInits.more_fields x r1 r2)

  pub number_match_cases : {F : Type 0} → MatchCases F → Numberer (MatchCases F)
  number_match_cases MatchCases.no_cases = pure MatchCases.no_cases
  number_match_cases (MatchCases.more_cases x o e y cs) = do
    r1 ← number_opt_expr o
    r2 ← number_expr e
    r3 ← number_match_cases cs
    pure (MatchCases.more_cases x r1 r2 y r3)

  pub number_catch_clauses : {F : Type 0} → CatchClauses F → Numberer (CatchClauses F)
  number_catch_clauses CatchClauses.no_catches = pure CatchClauses.no_catches
  number_catch_clauses (CatchClauses.more_catches x y s z cs) = do
    r1 ← number_stmt s
    r2 ← number_catch_clauses cs
    pure (CatchClauses.more_catches x y r1 z r2)

  pub number_stmt_kind : {F : Type 0} → StmtKind F → Numberer (StmtKind F)
  number_stmt_kind (StmtKind.expr_stmt e) = do r1 ← number_expr e; pure (StmtKind.expr_stmt r1)
  number_stmt_kind (StmtKind.let_ x y o) = do r1 ← number_opt_expr o; pure (StmtKind.let_ x y r1)
  number_stmt_kind (StmtKind.var x y o z) = do r1 ← number_opt_expr o; pure (StmtKind.var x y r1 z)
  number_stmt_kind (StmtKind.assignment e e') = do
    r1 ← number_expr e
    r2 ← number_expr e'
    pure (StmtKind.assignment r1 r2)
  number_stmt_kind (StmtKind.if_stmt e s o) = do
    r1 ← number_expr e
    r2 ← number_stmt s
    r3 ← number_opt_stmt o
    pure (StmtKind.if_stmt r1 r2 r3)
  number_stmt_kind (StmtKind.while_stmt e s) = do
    r1 ← number_expr e
    r2 ← number_stmt s
    pure (StmtKind.while_stmt r1 r2)
  number_stmt_kind (StmtKind.for_stmt x e s) = do
    r1 ← number_expr e
    r2 ← number_stmt s
    pure (StmtKind.for_stmt x r1 r2)
  number_stmt_kind (StmtKind.for_c o o' o'' s) = do
    r1 ← number_opt_stmt o
    r2 ← number_opt_expr o'
    r3 ← number_opt_expr o''
    r4 ← number_stmt s
    pure (StmtKind.for_c r1 r2 r3 r4)
  number_stmt_kind (StmtKind.loop_stmt s) = do r1 ← number_stmt s; pure (StmtKind.loop_stmt r1)
  number_stmt_kind (StmtKind.return_stmt o) = do
    r1 ← number_opt_expr o
    pure (StmtKind.return_stmt r1)
  number_stmt_kind StmtKind.break_stmt = pure StmtKind.break_stmt
  number_stmt_kind StmtKind.continue_stmt = pure StmtKind.continue_stmt
  number_stmt_kind (StmtKind.throw_stmt e) = do r1 ← number_expr e; pure (StmtKind.throw_stmt r1)
  number_stmt_kind (StmtKind.try_stmt s cs o) = do
    r1 ← number_stmt s
    r2 ← number_catch_clauses cs
    r3 ← number_opt_stmt o
    pure (StmtKind.try_stmt r1 r2 r3)
  number_stmt_kind (StmtKind.defer s) = do r1 ← number_stmt s; pure (StmtKind.defer r1)
  number_stmt_kind (StmtKind.block_stmt ss) = do r1 ← number_stmts ss; pure (StmtKind.block_stmt r1)
  number_stmt_kind (StmtKind.select arms o) = do
    r1 ← number_select_arms arms
    r2 ← number_opt_stmt o
    pure (StmtKind.select r1 r2)
  number_stmt_kind StmtKind.empty = pure StmtKind.empty

  pub number_stmt : {F : Type 0} → Stmt F → Numberer (Stmt F)
  number_stmt (Stmt.stmt k x y) = do r1 ← number_stmt_kind k; pure (Stmt.stmt r1 x y)

  pub number_opt_stmt : {F : Type 0} → OptStmt F → Numberer (OptStmt F)
  number_opt_stmt OptStmt.no_stmt = pure OptStmt.no_stmt
  number_opt_stmt (OptStmt.some_stmt s) = do r1 ← number_stmt s; pure (OptStmt.some_stmt r1)

  pub number_stmts : {F : Type 0} → Stmts F → Numberer (Stmts F)
  number_stmts Stmts.no_stmts = pure Stmts.no_stmts
  number_stmts (Stmts.more_stmts s ss) = do
    r1 ← number_stmt s
    r2 ← number_stmts ss
    pure (Stmts.more_stmts r1 r2)

  pub number_select_arms : {F : Type 0} → SelectArms F → Numberer (SelectArms F)
  number_select_arms SelectArms.no_arms = pure SelectArms.no_arms
  number_select_arms (SelectArms.more_arms e x s y arms) = do
    r1 ← number_expr e
    r2 ← number_stmt s
    r3 ← number_select_arms arms
    pure (SelectArms.more_arms r1 x r2 y r3)

-- `for f in &mut i.methods { self.stmt(&mut f.body) }`, on functions and on methods.
unfoldable pub number_functions : {F : Type 0} → List (Function F) → Numberer (List (Function F))
unfolding number_stmt
number_functions [] = pure []
number_functions (f ∷ fs) = do
  body ← number_stmt f.body
  rest ← number_functions fs
  pure (record f { body = body } ∷ rest)

unfoldable pub number_methods : {F : Type 0} → List (Method F) → Numberer (List (Method F))
unfolding number_stmt
number_methods [] = pure []
number_methods (m ∷ ms) = do
  body ← number_stmt m.body
  rest ← number_methods ms
  pure (record m { body = body } ∷ rest)

unfoldable mutual
  unfolding number_functions number_methods

  pub number_decl_kind : {F : Type 0} → DeclKind F → Numberer (DeclKind F)
  number_decl_kind (DeclKind.function f) = do
    body ← number_stmt f.body
    pure (DeclKind.function (record f { body = body }))
  number_decl_kind (DeclKind.class c) = do
    methods ← number_methods c.methods
    pure (DeclKind.class (record c { methods = methods }))
  number_decl_kind (DeclKind.interface i) = do
    methods ← number_functions i.methods
    pure (DeclKind.interface (record i { methods = methods }))
  number_decl_kind (DeclKind.trait t) = do
    methods ← number_functions t.methods
    pure (DeclKind.trait (record t { methods = methods }))
  number_decl_kind (DeclKind.namespace name ds span annotations) = do
    ds' ← number_decls ds
    pure (DeclKind.namespace name ds' span annotations)
  number_decl_kind (DeclKind.enum e) = pure (DeclKind.enum e)
  number_decl_kind (DeclKind.import i) = pure (DeclKind.import i)
  number_decl_kind (DeclKind.module_ name) = pure (DeclKind.module_ name)
  number_decl_kind (DeclKind.immutable i) = pure (DeclKind.immutable i)

  pub number_decl : {F : Type 0} → Decl F → Numberer (Decl F)
  number_decl (Decl.decl kind span id) = do
    kind' ← number_decl_kind kind
    pure (Decl.decl kind' span id)

  pub number_decls : {F : Type 0} → Decls F → Numberer (Decls F)
  number_decls Decls.no_decls = pure Decls.no_decls
  number_decls (Decls.more_decls d ds) = do
    d' ← number_decl d
    rest ← number_decls ds
    pure (Decls.more_decls d' rest)

-- `assign_node_ids`: the numbered file, and the next free number.
unfoldable pub assign_node_ids : {F : Type 0} → SourceFile F → SourceFile F × ℕ
unfolding number_decls
assign_node_ids file =
    let (decls, next) = number_decls file.decls 1 in (record file { decls = decls }, next)
