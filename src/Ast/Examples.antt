-- ===== src/Ast/Examples.antt =====
-- crates/tinox-parser/src/node_ids.rs: the numbering of a small file.
use tinox.Prelude.{ℕ, ◌+◌, ◌<◌, [], Text, codes, none, false, ◌≡◌, refl, arith}
use tinox.Diag.{Span}
use tinox.Ast.Types.{Ty, Literal, BinaryOp}
use tinox.Ast.Expr.{ExprKind, Expr, StmtKind, Stmt, Stmts}
use tinox.Ast.Decl.{DeclKind, Decl, Decls, SourceFile}
use tinox.Ast.NodeIds.{assign_node_ids}
use tinox.Ast.Numbering.{consecutive}
use tinox.Ast.DeclIds.{ids_decls, bare_decls}
use tinox.Ast.Assigned.{expr_count, assign_node_ids-consecutive, assign_node_ids_unique}

abbrev at_start : Span
at_start = record {
  start = record { offset = 0; line = 1; column = 1 };
  end = record { offset = 0; line = 1; column = 1 };
}

abbrev number : ℕ → Expr Text
number n = Expr.expr (ExprKind.literal (Literal.integer n)) at_start 0

-- `{ 1 + 2; }`
abbrev body : Stmt Text
body =
    Stmt.stmt
      (StmtKind.block_stmt (
        Stmts.more_stmts
          (Stmt.stmt
            (StmtKind.expr_stmt
              (Expr.expr (ExprKind.binary BinaryOp.add (number 1) (number 2)) at_start 0))
            at_start 0)
          Stmts.no_stmts))
      at_start 0

-- `fn main() { 1 + 2; }`
abbrev main_file : SourceFile Text
main_file = record {
  decls =
      Decls.more_decls
        (Decl.decl
          (DeclKind.function (record {
            name = codes "main";
            type_params = [];
            params = [];
            ret_type = Ty.nothing;
            body = body;
            span = at_start;
            is_async = false;
            doc = none;
            annotations = [];
            file = [];
          }))
          at_start 0)
        Decls.no_decls;
  span = at_start;
}

assign_node_ids-consecutive_example :
    (ids_decls (assign_node_ids main_file).0.decls ≡ consecutive 1 (expr_count main_file))
    × ((assign_node_ids main_file).1 ≡ 1 + expr_count main_file)
    × (bare_decls (assign_node_ids main_file).0.decls ≡ bare_decls main_file.decls)
    × ((assign_node_ids main_file).0.span ≡ main_file.span)
unfolding ids_decls
assign_node_ids-consecutive_example = assign_node_ids-consecutive main_file (omega arith)

assign_node_ids_unique_example : (◌≡◌ {A = ℕ} 2 2) × (0 < 3)
unfolding assign_node_ids ids_decls
assign_node_ids_unique_example = assign_node_ids_unique main_file 2 2 3 (omega arith) refl refl
