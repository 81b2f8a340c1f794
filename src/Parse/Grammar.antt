-- ===== src/Parse/Grammar.antt =====
-- crates/tinox-parser/src/parser.rs: the grammar of binary operators that the levels implement.
use tinox.Prelude.{
  ℕ, suc, ◌≤◌, Bool, true, ltb, ◌==◌, if◌then◌else◌, Option, none, some, List, [], ◌∷◌, ◌++◌, ◌≡◌,
  refl,
}
use tinox.Lexer.Token.{TokenKind, Token}
use tinox.Ast.Types.{BinaryOp}
use tinox.Ast.Expr.{Expr}
use tinox.Parse.{Parser, Parsed, unread}
use tinox.Parse.Ladder.{
  binary_expr, multiplicative_op, additive_op, shift_op, relational_op, equality_op, bitwise_and_op,
  bitwise_xor_op, bitwise_or_op, and_op, or_op,
}

-- The precedence of an operator: a higher level binds tighter.
abbrev pub precedence : BinaryOp → ℕ
precedence BinaryOp.or = 1
precedence BinaryOp.and = 2
precedence BinaryOp.bit_or = 3
precedence BinaryOp.xor = 4
precedence BinaryOp.bit_and = 5
precedence BinaryOp.eq = 6
precedence BinaryOp.ne = 6
precedence BinaryOp.lt = 7
precedence BinaryOp.le = 7
precedence BinaryOp.gt = 7
precedence BinaryOp.ge = 7
precedence BinaryOp.shl = 8
precedence BinaryOp.shr = 8
precedence BinaryOp.shr_arith = 8
precedence BinaryOp.add = 9
precedence BinaryOp.sub = 9
precedence BinaryOp.mul = 10
precedence BinaryOp.div = 10
precedence BinaryOp.mod_ = 10

-- The operator that a token stands for.
abbrev pub operator_of : {F : Type 0} → TokenKind F → Option BinaryOp
operator_of TokenKind.bar_bar = some BinaryOp.or
operator_of TokenKind.amp_amp = some BinaryOp.and
operator_of TokenKind.bar = some BinaryOp.bit_or
operator_of TokenKind.caret = some BinaryOp.xor
operator_of TokenKind.ampersand = some BinaryOp.bit_and
operator_of TokenKind.equals_equals = some BinaryOp.eq
operator_of TokenKind.bang_equals = some BinaryOp.ne
operator_of TokenKind.less = some BinaryOp.lt
operator_of TokenKind.less_equals = some BinaryOp.le
operator_of TokenKind.greater = some BinaryOp.gt
operator_of TokenKind.greater_equals = some BinaryOp.ge
operator_of TokenKind.less_less = some BinaryOp.shl
operator_of TokenKind.greater_greater = some BinaryOp.shr
operator_of TokenKind.greater_greater_greater = some BinaryOp.shr_arith
operator_of TokenKind.plus = some BinaryOp.add
operator_of TokenKind.minus = some BinaryOp.sub
operator_of TokenKind.star = some BinaryOp.mul
operator_of TokenKind.slash = some BinaryOp.div
operator_of TokenKind.percent = some BinaryOp.mod_
operator_of _ = none

-- The operator, if it is one of the level `n`.
abbrev pub at_level : ℕ → Option BinaryOp → Option BinaryOp
at_level n none = none
at_level n (some op) = if precedence op == n then some op else none

-- An expression of operands `A` and binary operators, each with the token that stands for it.
pub data Tree (F : Type 0) (A : Type 0) : Type 0 where
  operand : A → Tree F A
  binary : Token F → BinaryOp → Tree F A → Tree F A → Tree F A

-- How `A` is written as tokens, and which expression it means.
pub record Operands (F : Type 0) (A : Type 0) : Type 0 where
  pub written : A → List (Token F)
  pub meant : A → Expr F

module _ {F : Type 0} {A : Type 0} where
  abbrev pub tree_tokens : Operands F A → Tree F A → List (Token F)
  tree_tokens o (Tree.operand a) = o.written a
  tree_tokens o (Tree.binary t op l r) = tree_tokens o l ++ t ∷ tree_tokens o r

  abbrev pub tree_expr : Operands F A → Tree F A → Expr F
  tree_expr o (Tree.operand a) = o.meant a
  tree_expr o (Tree.binary t op l r) = binary_expr op (tree_expr o l) (tree_expr o r)

  -- The tree needs no parentheses at the level `n`: operators of one level lean to the left.
  abbrev pub Fits : ℕ → Tree F A → Type 0
  Fits n (Tree.operand a) = Unit
  Fits n (Tree.binary t op l r) =
      (n ≤ precedence op)
      × (operator_of t.kind ≡ some op)
      × Fits (precedence op) l
      × Fits (suc (precedence op)) r

abbrev pub binds_below : ℕ → Option BinaryOp → Bool
binds_below n none = true
binds_below n (some op) = ltb (precedence op) n

-- Behind every operand of the tree stand tokens of which `ends` holds, where `rest` follows the tree.
module _ {F : Type 0} {A : Type 0} (o : Operands F A) (ends : List (Token F) → Bool) where
  abbrev pub Followed : Tree F A → List (Token F) → Type 0
  Followed (Tree.operand a) rest = ends rest ≡ true
  Followed (Tree.binary t op l r) rest = Followed l (t ∷ tree_tokens o r ++ rest) × Followed r rest

-- The next token, if there is one, is no operator of the level `n` or of a higher one.
abbrev pub is_below : {F : Type 0} → ℕ → List (Token F) → Bool
is_below n [] = true
is_below n (t ∷ _) = binds_below n (operator_of t.kind)

-- `result` is the expression `e`, with the tokens `rest` unread.
pub record Reads {F : Type 0} (result : Parsed F) (e : Expr F) (rest : List (Token F))
    : Type 0 where
  pub state : Parser F
  pub ran : result ≡ Parsed.ok e state
  pub left : unread state ≡ rest

pub or_op_lem : {F : Type 0} (k : TokenKind F) → or_op k ≡ at_level 1 (operator_of k)
unfolding or_op
or_op_lem TokenKind.bar_bar = refl
or_op_lem _ = refl

pub and_op_lem : {F : Type 0} (k : TokenKind F) → and_op k ≡ at_level 2 (operator_of k)
unfolding and_op
and_op_lem TokenKind.amp_amp = refl
and_op_lem _ = refl

pub bitwise_or_op_lem :
    {F : Type 0} (k : TokenKind F) → bitwise_or_op k ≡ at_level 3 (operator_of k)
unfolding bitwise_or_op
bitwise_or_op_lem TokenKind.bar = refl
bitwise_or_op_lem _ = refl

pub bitwise_xor_op_lem :
    {F : Type 0} (k : TokenKind F) → bitwise_xor_op k ≡ at_level 4 (operator_of k)
unfolding bitwise_xor_op
bitwise_xor_op_lem TokenKind.caret = refl
bitwise_xor_op_lem _ = refl

pub bitwise_and_op_lem :
    {F : Type 0} (k : TokenKind F) → bitwise_and_op k ≡ at_level 5 (operator_of k)
unfolding bitwise_and_op
bitwise_and_op_lem TokenKind.ampersand = refl
bitwise_and_op_lem _ = refl

pub equality_op_lem : {F : Type 0} (k : TokenKind F) → equality_op k ≡ at_level 6 (operator_of k)
unfolding equality_op
equality_op_lem TokenKind.equals_equals = refl
equality_op_lem _ = refl

pub relational_op_lem :
    {F : Type 0} (k : TokenKind F) → relational_op k ≡ at_level 7 (operator_of k)
unfolding relational_op
relational_op_lem TokenKind.less = refl
relational_op_lem _ = refl

pub shift_op_lem : {F : Type 0} (k : TokenKind F) → shift_op k ≡ at_level 8 (operator_of k)
unfolding shift_op
shift_op_lem TokenKind.less_less = refl
shift_op_lem _ = refl

pub additive_op_lem : {F : Type 0} (k : TokenKind F) → additive_op k ≡ at_level 9 (operator_of k)
unfolding additive_op
additive_op_lem TokenKind.plus = refl
additive_op_lem _ = refl

pub multiplicative_op_lem :
    {F : Type 0} (k : TokenKind F) → multiplicative_op k ≡ at_level 10 (operator_of k)
unfolding multiplicative_op
multiplicative_op_lem TokenKind.star = refl
multiplicative_op_lem _ = refl
