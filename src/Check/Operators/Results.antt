-- ===== src/Check/Operators/Results.antt =====
-- crates/tinox-typecheck/src/lib.rs: the check of an operator against its result type.
use tinox.Prelude.{
  Bool, true, false, not, ◌||◌, if◌then◌else◌, List, [], ◌∷◌, ◌++◌, length, length-append, ◌≡◌, ◌≢◌,
  refl, ap, arith,
}
use tinox.Diag.{Span, Error}
use tinox.Ast.Types.{BinaryOp}
use tinox.Check.ValueType.{ValueType, same_type}
use tinox.Check.Compatible.{lub}
use tinox.Check.Operators.{
  is_wildcard, valid_binary, check_binary_op, binary_result_type, arithmetic_result,
}

abbrev pub is_arithmetic : BinaryOp → Bool
is_arithmetic BinaryOp.eq = false
is_arithmetic BinaryOp.ne = false
is_arithmetic BinaryOp.lt = false
is_arithmetic BinaryOp.le = false
is_arithmetic BinaryOp.gt = false
is_arithmetic BinaryOp.ge = false
is_arithmetic BinaryOp.and = false
is_arithmetic BinaryOp.or = false
is_arithmetic _ = true

valid-result :
    (op : BinaryOp) (lhs rhs : ValueType)
    → is_wildcard lhs || is_wildcard rhs ≡ false
    → valid_binary op lhs rhs ≡ true
    → binary_result_type op lhs rhs ≡ (if is_arithmetic op then lub lhs rhs else ValueType.bool)
unfolding valid_binary binary_result_type arithmetic_result lub same_type
valid-result BinaryOp.eq lhs rhs w h = refl
valid-result BinaryOp.add ValueType.int ValueType.float w h = refl
valid-result BinaryOp.add ValueType.float ValueType.int w h = refl
valid-result BinaryOp.add ValueType.string ValueType.string w h = refl
valid-result _ _ _ w h = ground arith

longer : {A : Type 0} (xs : List A) (x : A) → xs ++ x ∷ [] ≢ xs
longer xs x h = absurd (omega (arith, length-append xs (x ∷ []), ap length h))

-- The shape of a check that reports one error.
unreported :
    {A : Type 0} (w v : Bool) (xs : List A) (x : A)
    → w ≡ false
    → (if w then xs else if not v then xs ++ x ∷ [] else xs) ≡ xs
    → v ≡ true
unreported true v xs x w h = cc
unreported false true xs x w h = refl
unreported false false xs x w h = absurd (longer xs x h)

-- `check_binary_op` reports an error unless the operator is valid for the operands' types.
unreported-valid :
    (op : BinaryOp) (lhs rhs : ValueType) (span : Span) (errors : List Error)
    → is_wildcard lhs || is_wildcard rhs ≡ false
    → check_binary_op op lhs rhs span errors ≡ errors
    → valid_binary op lhs rhs ≡ true
unfolding check_binary_op
unreported-valid op lhs rhs span errors w h =
    unreported (is_wildcard lhs || is_wildcard rhs) (valid_binary op lhs rhs) errors _ w h

-- `check_binary_op` against `binary_result_type`, on operands of which neither has the type `Any` or
-- a named type: where no error is reported, the result's type is the `lub` of the operands' types for
-- an arithmetic, a shift or a bitwise operator, and `Bool` for the others.
pub check_binary_op-result :
    (op : BinaryOp) (lhs rhs : ValueType) (span : Span) (errors : List Error)
    → is_wildcard lhs || is_wildcard rhs ≡ false
    → check_binary_op op lhs rhs span errors ≡ errors
    → binary_result_type op lhs rhs ≡ (if is_arithmetic op then lub lhs rhs else ValueType.bool)
check_binary_op-result op lhs rhs span errors w h =
    valid-result op lhs rhs w (unreported-valid op lhs rhs span errors w h)
