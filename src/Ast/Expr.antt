-- ===== src/Ast/Expr.antt =====
-- crates/tinox-parser/src/ast.rs: expressions and statements. `Spanned<ExprKind>` is `Expr`, with
-- the node, its span and its id; a list or an option of a type of the block is a type of the block.
use tinox.Prelude.{ℕ, Bool, List, Option}
use tinox.Diag.{Span}
use tinox.Ast.Types.{Ident, Ty, Literal, Pattern, BinaryOp, CompoundOp, UnaryOp, Param}

mutual
  pub data ExprKind (F : Type 0) : Type 0 where
    literal : Literal F → ExprKind F
    array_literal : Exprs F → ExprKind F
    map_literal : Entries F → ExprKind F
    ident : Ident → ExprKind F
    binary : BinaryOp → Expr F → Expr F → ExprKind F
    unary : UnaryOp → Expr F → ExprKind F
    call : Expr F → Exprs F → ExprKind F
    method_call : Expr F → Ident → Exprs F → ExprKind F
    index : Expr F → Expr F → ExprKind F
    field_access : Expr F → Ident → ExprKind F
    this : ExprKind F
    super_call : Ident → Exprs F → ExprKind F
    new : Ident → List Ty → Exprs F → ExprKind F
    struct_literal : Ident → FieldInits F → ExprKind F
    block : Stmts F → ExprKind F
    if_ : Expr F → Expr F → OptExpr F → ExprKind F
    while : Expr F → Expr F → ExprKind F
    for : Ident → Expr F → Expr F → ExprKind F
    loop : Expr F → ExprKind F
    match : Expr F → MatchCases F → ExprKind F
    return : OptExpr F → ExprKind F
    break continue : ExprKind F
    throw : Expr F → ExprKind F
    try : Expr F → CatchClauses F → OptExpr F → ExprKind F
    assign : Expr F → Expr F → ExprKind F
    compound_assign : CompoundOp → Expr F → Expr F → ExprKind F
    lambda : List (Param F) → Option Ty → Expr F → ExprKind F
    spawn : Expr F → ExprKind F
    await : Expr F → ExprKind F
    channel : ExprKind F
    send : Expr F → Expr F → ExprKind F
    recv : Expr F → ExprKind F
    cast : Expr F → Ty → ExprKind F
    is_ : Expr F → Ty → ExprKind F
    range : Expr F → Expr F → Bool → ExprKind F
    tuple : Exprs F → ExprKind F
    tuple_index : Expr F → ℕ → ExprKind F
    enum_value : Ident → Ident → List Ty → Exprs F → ExprKind F

  pub data Expr (F : Type 0) : Type 0 where
    expr : ExprKind F → Span → ℕ → Expr F

  pub data OptExpr (F : Type 0) : Type 0 where
    no_expr : OptExpr F
    some_expr : Expr F → OptExpr F

  pub data Exprs (F : Type 0) : Type 0 where
    no_exprs : Exprs F
    more_exprs : Expr F → Exprs F → Exprs F

  -- The entries of a map literal.
  pub data Entries (F : Type 0) : Type 0 where
    no_entries : Entries F
    more_entries : Expr F → Expr F → Entries F → Entries F

  -- The fields of a struct literal.
  pub data FieldInits (F : Type 0) : Type 0 where
    no_fields : FieldInits F
    more_fields : Ident → Expr F → FieldInits F → FieldInits F

  -- `Vec<MatchCase>`: pattern, guard, body and span.
  pub data MatchCases (F : Type 0) : Type 0 where
    no_cases : MatchCases F
    more_cases : Pattern F → OptExpr F → Expr F → Span → MatchCases F → MatchCases F

  -- `Vec<CatchClause>`: parameter, type, body and span.
  pub data CatchClauses (F : Type 0) : Type 0 where
    no_catches : CatchClauses F
    more_catches : Ident → Ty → Stmt F → Span → CatchClauses F → CatchClauses F

  pub data StmtKind (F : Type 0) : Type 0 where
    expr_stmt : Expr F → StmtKind F
    let_ : Ident → Option Ty → OptExpr F → StmtKind F
    var : Ident → Option Ty → OptExpr F → Bool → StmtKind F
    assignment : Expr F → Expr F → StmtKind F
    if_stmt : Expr F → Stmt F → OptStmt F → StmtKind F
    while_stmt : Expr F → Stmt F → StmtKind F
    for_stmt : Ident → Expr F → Stmt F → StmtKind F
    for_c : OptStmt F → OptExpr F → OptExpr F → Stmt F → StmtKind F
    loop_stmt : Stmt F → StmtKind F
    return_stmt : OptExpr F → StmtKind F
    break_stmt continue_stmt : StmtKind F
    throw_stmt : Expr F → StmtKind F
    try_stmt : Stmt F → CatchClauses F → OptStmt F → StmtKind F
    defer : Stmt F → StmtKind F
    block_stmt : Stmts F → StmtKind F
    select : SelectArms F → OptStmt F → StmtKind F
    empty : StmtKind F

  pub data Stmt (F : Type 0) : Type 0 where
    stmt : StmtKind F → Span → ℕ → Stmt F

  pub data OptStmt (F : Type 0) : Type 0 where
    no_stmt : OptStmt F
    some_stmt : Stmt F → OptStmt F

  pub data Stmts (F : Type 0) : Type 0 where
    no_stmts : Stmts F
    more_stmts : Stmt F → Stmts F → Stmts F

  -- `Vec<SelectArm>`: channel, variable, body and span.
  pub data SelectArms (F : Type 0) : Type 0 where
    no_arms : SelectArms F
    more_arms : Expr F → Ident → Stmt F → Span → SelectArms F → SelectArms F
