-- ===== src/Parse/Examples.antt =====
-- crates/tinox-parser/src/parser.rs: the levels of binary operators over operands of one literal.
use tinox.Prelude.{
  ℕ, not, if◌then◌else◌, false, Bool, true, Option, none, some, List, [], ◌∷◌, ◌++◌, Text, codes,
  ◌≡◌, refl, arith, ap,
}
use tinox.Diag.{Span}
use tinox.Lexer.Token.{TokenKind, Token}
use tinox.Ast.Types.{BinaryOp, Literal}
use tinox.Ast.Expr.{ExprKind, Expr}
use tinox.Parse.{Parser, Parsed, peek, bump, unread}
use tinox.Parse.Ladder.{parse_or_expr}
use tinox.Parse.Grammar.{Tree, Operands, tree_tokens, tree_expr, Fits, Followed, Reads}
use tinox.Parse.Operand.{operand_goes_on}
use tinox.Parse.Unread.{peek-unread, unread-bump}
use tinox.Parse.Reading.{parse_or_expr-Reads}
use tinox.Ast.Decl.{Decl, DeclKind}
use tinox.Parse.Recovery.{is_at_end, ParsedDecl, parse}
use tinox.Parse.Finish.{Advances, After, Finishes, bump_lt, parse-Finishes}

abbrev at_start : Span
at_start = record {
  start = record { offset = 0; line = 1; column = 1 };
  end = record { offset = 0; line = 1; column = 1 };
}

abbrev tok : TokenKind Text → Token Text
tok k = record { kind = k; span = at_start }

-- An operand is a name.
abbrev name_of : TokenKind Text → Option Text
name_of (TokenKind.ident n) = some n
name_of _ = none

abbrev name_expr : Text → Expr Text
name_expr n = Expr.expr (ExprKind.ident n) at_start 0

abbrev name_result : Option Text → Parser Text → Parsed Text
unfolding bump
name_result (some n) s = Parsed.ok (name_expr n) (bump s)
name_result none s = Parsed.err (record { span = at_start; message = codes "expected a name" }) s

abbrev read_name : Parser Text → Parsed Text
unfolding peek
read_name s = name_result (name_of (peek s).kind) s

-- The literal arm of `parse_primary_expr`.
abbrev integer_of : TokenKind Text → Option ℕ
integer_of (TokenKind.integer n) = some n
integer_of _ = none

abbrev integer_result : Option ℕ → Token Text → Parser Text → Parsed Text
unfolding bump
integer_result (some n) t s =
    Parsed.ok (Expr.expr (ExprKind.literal (Literal.integer n)) t.span 0) (bump s)
integer_result none t s =
    Parsed.err (record { span = at_start; message = codes "expected a literal" }) s

-- `parse_as_expr` on an integer literal, but an error where the loops of `parse_postfix_expr` or of
-- `parse_as_expr` go on behind the literal.
abbrev read_integer : Parser Text → Parsed Text
unfolding peek bump
read_integer s =
    if operand_goes_on (unread (bump s))
    then Parsed.err (record { span = at_start; message = codes "expected a literal alone" })
        (bump s)
    else integer_result (integer_of (peek s).kind) (peek s) s

abbrev integers : Operands Text ℕ
integers = record {
  written = λ n. tok (TokenKind.integer n) ∷ [];
  meant = λ n. Expr.expr (ExprKind.literal (Literal.integer n)) at_start 0;
}

abbrev literal_ends : List (Token Text) → Bool
literal_ends rest = not (operand_goes_on rest)

not-true : (b : Bool) → not b ≡ true → b ≡ false
not-true b h = ground arith

integers-Reads :
    (n : ℕ) (s : Parser Text) (rest : List (Token Text))
    → literal_ends rest ≡ true
    → unread s ≡ integers.written n ++ rest
    → Reads (read_integer s) (integers.meant n) rest
unfolding read_integer integer_result
integers-Reads n s rest e h = record {
  state = bump s;
  ran =
      rw (unread-bump s h, not-true _ e)
        (ap (λ t. integer_result (integer_of t.kind) t s) (peek-unread s h));
  left = unread-bump s h;
}

-- `1 < 2 || 3 + 4 * 5 - 6`
abbrev sample : Tree Text ℕ
sample =
    Tree.binary (tok TokenKind.bar_bar) BinaryOp.or
      (Tree.binary (tok TokenKind.less) BinaryOp.lt (Tree.operand 1) (Tree.operand 2))
      (Tree.binary (tok TokenKind.minus) BinaryOp.sub
        (Tree.binary (tok TokenKind.plus) BinaryOp.add (Tree.operand 3)
          (Tree.binary (tok TokenKind.star) BinaryOp.mul (Tree.operand 4) (Tree.operand 5)))
        (Tree.operand 6))

-- `1 < T > :: x` is no comparison: the literal goes on with the type arguments.
static_call_behind :
    operand_goes_on (
      tok TokenKind.less
      ∷ tok (TokenKind.ident (codes "T"))
      ∷ tok TokenKind.greater
      ∷ tok TokenKind.colon_colon
      ∷ [])
    ≡ true
static_call_behind = refl

abbrev behind : List (Token Text)
behind = tok TokenKind.semicolon ∷ []

abbrev start : Parser Text
start = record { tokens = tree_tokens integers sample ++ behind; pos = 0; errors = []; depth = 0 }

sample-Fits : Fits 1 sample
sample-Fits = (
  omega arith,
  refl,
  (omega arith, refl, tt, tt),
  (omega arith, refl, (omega arith, refl, tt, (omega arith, refl, tt, tt)), tt),
)

sample-Followed : Followed integers literal_ends sample behind
sample-Followed = ((refl, refl), ((refl, (refl, refl)), refl))

parse_or_expr-Reads_example :
    Reads (parse_or_expr read_integer start) (tree_expr integers sample) behind
parse_or_expr-Reads_example =
    parse_or_expr-Reads read_integer integers literal_ends sample start behind integers-Reads
      sample-Fits refl sample-Followed refl

-- A declaration is a name: `module` of it.
abbrev decl_result : Option Text → Parser Text → ParsedDecl Text
unfolding bump
decl_result (some n) s = ParsedDecl.ok (Decl.decl (DeclKind.module_ n) at_start 0) (bump s)
decl_result none s =
    ParsedDecl.err (record { span = at_start; message = codes "expected a name" }) s

abbrev read_decl : Parser Text → ParsedDecl Text
unfolding peek
read_decl s = decl_result (name_of (peek s).kind) s

decl_result-After :
    (x : Option Text) (s : Parser Text) → is_at_end s ≡ false → After s (decl_result x s)
unfolding decl_result
decl_result-After (some n) s h = bump_lt s h
decl_result-After none s h = omega arith

read_decl-Advances : Advances read_decl
unfolding read_decl decl_result
read_decl-Advances s h = decl_result-After (name_of (peek s).kind) s h

parse-Finishes_example : Finishes (parse read_decl start)
parse-Finishes_example = parse-Finishes read_decl read_decl-Advances start
