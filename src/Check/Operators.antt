-- ===== src/Check/Operators.antt =====
-- crates/tinox-typecheck/src/lib.rs: the checks and the result types of operators, and the types of
-- literals.
pub mod Results
use tinox.Prelude.{
  Bool, true, false, not, ◌&&◌, ◌||◌, if◌then◌else◌, List, [], ◌∷◌, ◌++◌, Text, codes,
}
use tinox.Diag.{Span, Error}
use tinox.Ast.Types.{Literal, BinaryOp, UnaryOp}
use tinox.Check.ValueType.{ValueType, ValueTypes, same_type, to_text}
use tinox.Check.TypeError.{TypeError, to_error}

-- `matches!(t, ValueType::Any | ValueType::Named(_, _))`
abbrev pub is_wildcard : ValueType → Bool
is_wildcard ValueType.any = true
is_wildcard (ValueType.named _ _) = true
is_wildcard _ = false

abbrev pub is_number : ValueType → Bool
is_number ValueType.int = true
is_number ValueType.float = true
is_number _ = false

abbrev pub is_int : ValueType → Bool
is_int ValueType.int = true
is_int _ = false

abbrev pub is_string : ValueType → Bool
is_string ValueType.string = true
is_string _ = false

abbrev pub is_bool : ValueType → Bool
is_bool ValueType.bool = true
is_bool _ = false

abbrev pub is_null : ValueType → Bool
is_null ValueType.null = true
is_null _ = false

-- `TypeChecker::is_nullable_ref`
unfoldable pub is_nullable_ref : ValueType → Bool
is_nullable_ref (ValueType.array _) = true
is_nullable_ref (ValueType.map _) = true
is_nullable_ref (ValueType.named _ _) = true
is_nullable_ref ValueType.string = true
is_nullable_ref (ValueType.nullable _) = true
is_nullable_ref ValueType.null = true
is_nullable_ref ValueType.fn = true
is_nullable_ref ValueType.ref = true
is_nullable_ref _ = false

abbrev pub both : (ValueType → Bool) → ValueType → ValueType → Bool
both test lhs rhs = test lhs && test rhs

abbrev pub comparable : ValueType → ValueType → Bool
comparable lhs rhs = both is_number lhs rhs || both is_string lhs rhs

-- `valid` in `check_binary_op`.
unfoldable pub valid_binary : BinaryOp → ValueType → ValueType → Bool
unfolding is_nullable_ref same_type
valid_binary BinaryOp.add lhs rhs = comparable lhs rhs
valid_binary BinaryOp.sub lhs rhs = both is_number lhs rhs
valid_binary BinaryOp.mul lhs rhs = both is_number lhs rhs
valid_binary BinaryOp.div lhs rhs = both is_number lhs rhs
valid_binary BinaryOp.mod_ lhs rhs = both is_number lhs rhs
valid_binary BinaryOp.shl lhs rhs = both is_number lhs rhs
valid_binary BinaryOp.shr lhs rhs = both is_number lhs rhs
valid_binary BinaryOp.shr_arith lhs rhs = both is_number lhs rhs
valid_binary BinaryOp.and lhs rhs = both is_bool lhs rhs
valid_binary BinaryOp.or lhs rhs = both is_bool lhs rhs
valid_binary BinaryOp.bit_and lhs rhs = both is_int lhs rhs
valid_binary BinaryOp.bit_or lhs rhs = both is_int lhs rhs
valid_binary BinaryOp.xor lhs rhs = both is_int lhs rhs
valid_binary BinaryOp.eq lhs rhs =
    same_type lhs rhs
    || (is_null lhs && is_nullable_ref rhs)
    || (is_null rhs && is_nullable_ref lhs)
valid_binary BinaryOp.ne lhs rhs =
    same_type lhs rhs
    || (is_null lhs && is_nullable_ref rhs)
    || (is_null rhs && is_nullable_ref lhs)
valid_binary BinaryOp.lt lhs rhs = comparable lhs rhs
valid_binary BinaryOp.le lhs rhs = comparable lhs rhs
valid_binary BinaryOp.gt lhs rhs = comparable lhs rhs
valid_binary BinaryOp.ge lhs rhs = comparable lhs rhs

-- `format!("{:?}", op).to_lowercase()`
unfoldable pub binary_op_name : BinaryOp → Text
binary_op_name BinaryOp.add = codes "add"
binary_op_name BinaryOp.sub = codes "sub"
binary_op_name BinaryOp.mul = codes "mul"
binary_op_name BinaryOp.div = codes "div"
binary_op_name BinaryOp.mod_ = codes "mod"
binary_op_name BinaryOp.and = codes "and"
binary_op_name BinaryOp.or = codes "or"
binary_op_name BinaryOp.bit_and = codes "bitand"
binary_op_name BinaryOp.bit_or = codes "bitor"
binary_op_name BinaryOp.xor = codes "xor"
binary_op_name BinaryOp.shl = codes "shl"
binary_op_name BinaryOp.shr = codes "shr"
binary_op_name BinaryOp.shr_arith = codes "shrarith"
binary_op_name BinaryOp.eq = codes "eq"
binary_op_name BinaryOp.ne = codes "ne"
binary_op_name BinaryOp.lt = codes "lt"
binary_op_name BinaryOp.le = codes "le"
binary_op_name BinaryOp.gt = codes "gt"
binary_op_name BinaryOp.ge = codes "ge"

-- `TypeChecker::check_binary_op`: the checker's errors behind the check.
unfoldable pub check_binary_op : BinaryOp → ValueType → ValueType → Span → List Error → List Error
unfolding valid_binary binary_op_name to_text to_error
check_binary_op op lhs rhs span errors =
    if is_wildcard lhs || is_wildcard rhs
    then errors
    else if not (valid_binary op lhs rhs)
    then errors
      ++ (to_error
            (TypeError.binary_op_type_mismatch (binary_op_name op) (to_text lhs) (to_text rhs) span)
          ∷ [])
    else errors

unfoldable pub valid_unary : UnaryOp → ValueType → Bool
valid_unary UnaryOp.neg operand = is_number operand
valid_unary UnaryOp.not operand = is_bool operand
valid_unary UnaryOp.bit_not operand = is_int operand

unfoldable pub unary_op_name : UnaryOp → Text
unary_op_name UnaryOp.neg = codes "neg"
unary_op_name UnaryOp.not = codes "not"
unary_op_name UnaryOp.bit_not = codes "bitnot"

-- `TypeChecker::check_unary_op`
unfoldable pub check_unary_op : UnaryOp → ValueType → Span → List Error → List Error
unfolding valid_unary unary_op_name to_text to_error
check_unary_op op operand span errors =
    if is_wildcard operand
    then errors
    else if not (valid_unary op operand)
    then errors
      ++ (to_error (TypeError.unary_op_type_mismatch (unary_op_name op) (to_text operand) span)
          ∷ [])
    else errors

-- The last arm of `binary_result_type`.
unfoldable pub arithmetic_result : ValueType → ValueType → ValueType
unfolding same_type
arithmetic_result lhs rhs =
    if is_wildcard lhs || is_wildcard rhs
    then ValueType.any
    else if same_type lhs ValueType.float || same_type rhs ValueType.float
    then ValueType.float
    else ValueType.int

-- `TypeChecker::binary_result_type`
unfoldable pub binary_result_type : BinaryOp → ValueType → ValueType → ValueType
unfolding arithmetic_result
binary_result_type BinaryOp.eq lhs rhs = ValueType.bool
binary_result_type BinaryOp.ne lhs rhs = ValueType.bool
binary_result_type BinaryOp.lt lhs rhs = ValueType.bool
binary_result_type BinaryOp.le lhs rhs = ValueType.bool
binary_result_type BinaryOp.gt lhs rhs = ValueType.bool
binary_result_type BinaryOp.ge lhs rhs = ValueType.bool
binary_result_type BinaryOp.and lhs rhs = ValueType.bool
binary_result_type BinaryOp.or lhs rhs = ValueType.bool
binary_result_type BinaryOp.add lhs rhs =
    if same_type lhs ValueType.string || same_type rhs ValueType.string
    then ValueType.string
    else arithmetic_result lhs rhs
binary_result_type _ lhs rhs = arithmetic_result lhs rhs

-- `TypeChecker::unary_result_type`
unfoldable pub unary_result_type : UnaryOp → ValueType → ValueType
unary_result_type UnaryOp.neg operand = operand
unary_result_type UnaryOp.not operand = ValueType.bool
unary_result_type UnaryOp.bit_not operand = ValueType.int

-- `TypeChecker::literal_type`
unfoldable pub literal_type : {F : Type 0} → Literal F → ValueType
literal_type (Literal.integer _) = ValueType.int
literal_type (Literal.float _) = ValueType.float
literal_type (Literal.string _) = ValueType.string
literal_type (Literal.char _) = ValueType.char
literal_type (Literal.byte _) = ValueType.int
literal_type (Literal.bool _) = ValueType.bool
literal_type Literal.null = ValueType.null
