-- ===== src/Check/TypeError.antt =====
-- crates/tinox-typecheck/src/lib.rs: `TypeError` and its messages.
use tinox.Prelude.{
  ℕ, zero, suc, ◌+◌, ◌/◌, ◌%◌, ltb, if◌then◌else◌, List, [], ◌∷◌, ◌++◌, Text, codes,
}
use tinox.Diag.{Span, Error, error_at}

pub data TypeError : Type 0 where
  undefined_variable undefined_function : Text → Span → TypeError
  type_mismatch : Text → Text → Span → TypeError
  binary_op_type_mismatch : Text → Text → Text → Span → TypeError
  unary_op_type_mismatch : Text → Text → Span → TypeError
  invalid_argument_count : ℕ → ℕ → Span → TypeError
  invalid_field_access : Text → Span → TypeError
  index_not_integer : Span → TypeError
  field_not_found : Text → Text → Span → TypeError
  cannot_assign_to_immutable : Text → Span → TypeError
  mutable_expected : Span → TypeError
  return_type_mismatch : Text → Text → Span → TypeError
  missing_return break_outside_loop continue_outside_loop : Span → TypeError
  catch_parameter_type_mismatch : Text → Text → Span → TypeError
  throw_type_mismatch : Text → Span → TypeError
  invalid_cast : Text → Text → Span → TypeError
  invalid_match_arm : Text → Span → TypeError
  non_exhaustive_match : Span → TypeError
  invalid_range_type : Text → Span → TypeError
  division_by_zero cannot_infer_type : Span → TypeError
  duplicate_definition undefined_interface : Text → Span → TypeError
  interface_method_conflict : Text → Text → Text → Span → TypeError
  private_access protected_access : Text → Text → Span → TypeError
  unresolved_static_path unknown_static_method unknown_enum_variant : Text → Text → Span → TypeError

-- `{}` of a `usize`; a number has no more digits than its successor counts.
digits : ℕ → ℕ → Text
digits zero n = []
digits (suc fuel) n =
    let front = digits fuel (n / 10) in
    if ltb n 10 then (n + b'0') ∷ [] else front ++ (n % 10 + b'0') ∷ []

unfoldable pub decimal : ℕ → Text
unfolding digits
decimal n = digits (suc n) n

-- The arguments of a `format!` in turn.
abbrev pub concat : List Text → Text
concat [] = []
concat (s ∷ ss) = s ++ concat ss

-- `TypeError::to_error`
unfoldable pub to_error : TypeError → Error
unfolding decimal
to_error (TypeError.undefined_variable name span) =
    error_at span (codes "undefined variable: " ++ name)
to_error (TypeError.undefined_function name span) =
    error_at span (codes "undefined function: " ++ name)
to_error (TypeError.type_mismatch expected found span) =
    error_at span (concat (codes "expected " ∷ expected ∷ codes ", found " ∷ found ∷ []))
to_error (TypeError.binary_op_type_mismatch op lhs rhs span) = error_at span (
    concat
      (codes "binary op '" ∷ op ∷ codes "' cannot be applied to " ∷ lhs ∷ codes " and " ∷ rhs ∷ []))
to_error (TypeError.unary_op_type_mismatch op operand span) =
    error_at span
      (concat (codes "unary op '" ∷ op ∷ codes "' cannot be applied to " ∷ operand ∷ []))
to_error (TypeError.invalid_argument_count expected found span) = error_at span (
    concat (codes "expected " ∷ decimal expected ∷ codes " arguments, found " ∷ decimal found ∷ []))
to_error (TypeError.invalid_field_access typename span) =
    error_at span (codes "cannot access field on type: " ++ typename)
to_error (TypeError.index_not_integer span) =
    error_at span (codes "array index must be an integer type")
to_error (TypeError.field_not_found typename field span) =
    error_at span
      (concat (codes "type " ∷ typename ∷ codes " has no field '" ∷ field ∷ codes "'" ∷ []))
to_error (TypeError.cannot_assign_to_immutable name span) =
    error_at span (codes "cannot assign to immutable variable: " ++ name)
to_error (TypeError.mutable_expected span) =
    error_at span (codes "mutable variable expected for compound assignment")
to_error (TypeError.return_type_mismatch expected found span) = error_at span (
    concat
      (codes "function return type mismatch: expected " ∷ expected ∷ codes ", found " ∷ found ∷ []))
to_error (TypeError.missing_return span) =
    error_at span (codes "missing return statement in function")
to_error (TypeError.break_outside_loop span) =
    error_at span (codes "break statement outside of loop")
to_error (TypeError.continue_outside_loop span) =
    error_at span (codes "continue statement outside of loop")
to_error (TypeError.catch_parameter_type_mismatch expected found span) = error_at span (
    concat
      (codes "catch parameter type mismatch: expected " ∷ expected ∷ codes ", found " ∷ found ∷ []))
to_error (TypeError.throw_type_mismatch ty span) =
    error_at span (codes "throw requires a string or error type, found: " ++ ty)
to_error (TypeError.invalid_cast from to span) =
    error_at span (concat (codes "cannot cast from " ∷ from ∷ codes " to " ∷ to ∷ []))
to_error (TypeError.invalid_match_arm ty span) =
    error_at span (codes "invalid match arm for type: " ++ ty)
to_error (TypeError.non_exhaustive_match span) =
    error_at span (codes "non-exhaustive match patterns")
to_error (TypeError.invalid_range_type ty span) =
    error_at span (codes "range requires integer operands, found: " ++ ty)
to_error (TypeError.division_by_zero span) = error_at span (codes "division by zero")
to_error (TypeError.cannot_infer_type span) = error_at span (codes "cannot infer type")
to_error (TypeError.duplicate_definition name span) =
    error_at span (codes "duplicate definition of: " ++ name)
to_error (TypeError.undefined_interface name span) =
    error_at span (codes "undefined interface: " ++ name)
to_error (TypeError.interface_method_conflict interface parent method span) = error_at span (
    concat (
      codes "interface '"
      ∷ interface
      ∷ codes "' extends '"
      ∷ parent
      ∷ codes "' but both define method '"
      ∷ method
      ∷ codes "' with conflicting signatures"
      ∷ []))
to_error (TypeError.private_access class member span) =
    error_at span
      (concat (codes "'" ∷ member ∷ codes "' is private to class '" ∷ class ∷ codes "'" ∷ []))
to_error (TypeError.protected_access class member span) = error_at span (
    concat (
      codes "'"
      ∷ member
      ∷ codes "' is protected in class '"
      ∷ class
      ∷ codes "' and not accessible here"
      ∷ []))
to_error (TypeError.unresolved_static_path name member span) = error_at span (
    concat (
      codes "unresolved '"
      ∷ name
      ∷ codes "::"
      ∷ member
      ∷ codes "': no type, enum, or static method named '"
      ∷ name
      ∷ codes "' in scope (missing import?)"
      ∷ []))
to_error (TypeError.unknown_static_method class method span) =
    error_at span
      (concat (codes "type '" ∷ class ∷ codes "' has no method '" ∷ method ∷ codes "'" ∷ []))
to_error (TypeError.unknown_enum_variant enum_name variant span) =
    error_at span
      (concat (codes "enum '" ∷ enum_name ∷ codes "' has no variant '" ∷ variant ∷ codes "'" ∷ []))
