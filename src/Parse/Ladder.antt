-- ===== src/Parse/Ladder.antt =====
-- crates/tinox-parser/src/parser.rs: `parse_or_expr` down to `parse_multiplicative_expr`.
use tinox.Prelude.{ℕ, zero, suc, Option, none, some, length}
use tinox.Diag.{Span}
use tinox.Lexer.Token.{TokenKind}
use tinox.Ast.Types.{BinaryOp}
use tinox.Ast.Expr.{ExprKind, Expr}
use tinox.Parse.{Parser, Parsed, peek, bump, unread}

abbrev pub expr_span : {F : Type 0} → Expr F → Span
expr_span (Expr.expr _ span _) = span

-- `Spanned::new(ExprKind::Binary { op, lhs, rhs }, lhs.span)`
abbrev pub binary_expr : {F : Type 0} → BinaryOp → Expr F → Expr F → Expr F
binary_expr op lhs rhs = Expr.expr (ExprKind.binary op lhs rhs) (expr_span lhs) 0

module _ {F : Type 0} where
  -- The loop that the ten functions share: while the next token is an operator of the level, read it
  -- and an operand of the level `next`. `rounds` bounds the loop.
  unfoldable pub level_loop :
      (TokenKind F → Option BinaryOp) → (Parser F → Parsed F) → ℕ → Expr F → Parser F → Parsed F
  unfolding peek bump
  level_loop ops next zero lhs s = Parsed.stuck
  level_loop ops next (suc rounds) lhs s = elim (ops (peek s).kind) [
    | none ↦ Parsed.ok lhs s
    | some op ↦ elim (next (bump s)) [
      | Parsed.ok rhs s' ↦ level_loop ops next rounds (binary_expr op lhs rhs) s'
      | Parsed.err e s' ↦ Parsed.err e s'
      | Parsed.stuck ↦ Parsed.stuck
    ]
  ]

  -- One of the ten functions, with one round for each unread token and one for the end.
  unfoldable pub parse_level :
      (TokenKind F → Option BinaryOp) → (Parser F → Parsed F) → Parser F → Parsed F
  unfolding level_loop
  parse_level ops next s = elim (next s) [
    | Parsed.ok lhs s' ↦ level_loop ops next (suc (length (unread s'))) lhs s'
    | Parsed.err e s' ↦ Parsed.err e s'
    | Parsed.stuck ↦ Parsed.stuck
  ]

  unfoldable pub multiplicative_op : TokenKind F → Option BinaryOp
  multiplicative_op TokenKind.star = some BinaryOp.mul
  multiplicative_op TokenKind.slash = some BinaryOp.div
  multiplicative_op TokenKind.percent = some BinaryOp.mod_
  multiplicative_op _ = none

  unfoldable pub additive_op : TokenKind F → Option BinaryOp
  additive_op TokenKind.plus = some BinaryOp.add
  additive_op TokenKind.minus = some BinaryOp.sub
  additive_op _ = none

  unfoldable pub shift_op : TokenKind F → Option BinaryOp
  shift_op TokenKind.less_less = some BinaryOp.shl
  shift_op TokenKind.greater_greater = some BinaryOp.shr
  shift_op TokenKind.greater_greater_greater = some BinaryOp.shr_arith
  shift_op _ = none

  unfoldable pub relational_op : TokenKind F → Option BinaryOp
  relational_op TokenKind.less = some BinaryOp.lt
  relational_op TokenKind.less_equals = some BinaryOp.le
  relational_op TokenKind.greater = some BinaryOp.gt
  relational_op TokenKind.greater_equals = some BinaryOp.ge
  relational_op _ = none

  unfoldable pub equality_op : TokenKind F → Option BinaryOp
  equality_op TokenKind.equals_equals = some BinaryOp.eq
  equality_op TokenKind.bang_equals = some BinaryOp.ne
  equality_op _ = none

  unfoldable pub bitwise_and_op : TokenKind F → Option BinaryOp
  bitwise_and_op TokenKind.ampersand = some BinaryOp.bit_and
  bitwise_and_op _ = none

  unfoldable pub bitwise_xor_op : TokenKind F → Option BinaryOp
  bitwise_xor_op TokenKind.caret = some BinaryOp.xor
  bitwise_xor_op _ = none

  unfoldable pub bitwise_or_op : TokenKind F → Option BinaryOp
  bitwise_or_op TokenKind.bar = some BinaryOp.bit_or
  bitwise_or_op _ = none

  unfoldable pub and_op : TokenKind F → Option BinaryOp
  and_op TokenKind.amp_amp = some BinaryOp.and
  and_op _ = none

  unfoldable pub or_op : TokenKind F → Option BinaryOp
  or_op TokenKind.bar_bar = some BinaryOp.or
  or_op _ = none

  -- `operand` stands for `parse_as_expr`, the level below.
  module _ (operand : Parser F → Parsed F) where
    -- `Parser::parse_multiplicative_expr`
    unfoldable pub parse_multiplicative_expr : Parser F → Parsed F
    unfolding parse_level multiplicative_op
    parse_multiplicative_expr = parse_level multiplicative_op operand

    -- `Parser::parse_additive_expr`
    unfoldable pub parse_additive_expr : Parser F → Parsed F
    unfolding parse_multiplicative_expr additive_op
    parse_additive_expr = parse_level additive_op parse_multiplicative_expr

    -- `Parser::parse_shift_expr`
    unfoldable pub parse_shift_expr : Parser F → Parsed F
    unfolding parse_additive_expr shift_op
    parse_shift_expr = parse_level shift_op parse_additive_expr

    -- `Parser::parse_relational_expr`
    unfoldable pub parse_relational_expr : Parser F → Parsed F
    unfolding parse_shift_expr relational_op
    parse_relational_expr = parse_level relational_op parse_shift_expr

    -- `Parser::parse_equality_expr`
    unfoldable pub parse_equality_expr : Parser F → Parsed F
    unfolding parse_relational_expr equality_op
    parse_equality_expr = parse_level equality_op parse_relational_expr

    -- `Parser::parse_bitwise_and_expr`
    unfoldable pub parse_bitwise_and_expr : Parser F → Parsed F
    unfolding parse_equality_expr bitwise_and_op
    parse_bitwise_and_expr = parse_level bitwise_and_op parse_equality_expr

    -- `Parser::parse_bitwise_xor_expr`
    unfoldable pub parse_bitwise_xor_expr : Parser F → Parsed F
    unfolding parse_bitwise_and_expr bitwise_xor_op
    parse_bitwise_xor_expr = parse_level bitwise_xor_op parse_bitwise_and_expr

    -- `Parser::parse_bitwise_or_expr`
    unfoldable pub parse_bitwise_or_expr : Parser F → Parsed F
    unfolding parse_bitwise_xor_expr bitwise_or_op
    parse_bitwise_or_expr = parse_level bitwise_or_op parse_bitwise_xor_expr

    -- `Parser::parse_and_expr`
    unfoldable pub parse_and_expr : Parser F → Parsed F
    unfolding parse_bitwise_or_expr and_op
    parse_and_expr = parse_level and_op parse_bitwise_or_expr

    -- `Parser::parse_or_expr`
    unfoldable pub parse_or_expr : Parser F → Parsed F
    unfolding parse_and_expr or_op
    parse_or_expr = parse_level or_op parse_and_expr
