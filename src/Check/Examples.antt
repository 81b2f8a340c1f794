-- ===== src/Check/Examples.antt =====
-- crates/tinox-typecheck/src/lib.rs: the theorems at concrete types, classes and statements.
use tinox.Prelude.{
  ℕ, Bool, true, false, Option, none, some, List, [], ◌∷◌, Text, codes, text_eq, if◌then◌else◌, ◌≡◌,
  ◌↔◌, refl, sym, arith, inl, inr, Bool-cases, text_eq→≡, Bool-cases,
}
use mathlib.Core.Option.{some-injective}
use tinox.Diag.{Span}
use tinox.Ast.Types.{Ty, Tys, BinaryOp}
use tinox.Ast.Expr.{ExprKind, Expr, StmtKind, Stmt}
use tinox.Ast.Decl.{Visibility}
use tinox.Ast.Collect.{collect_stmt}
use tinox.Check.ValueType.{ValueType, ValueTypes, same_type}
use tinox.Check.ValueType.Equality.{forget, same_type_iff}
use tinox.Check.Compatible.{types_compatible, lub}
use tinox.Check.Compatible.Bounds.{lub_upper}
use tinox.Check.Operators.{check_binary_op, binary_result_type}
use tinox.Check.Operators.Results.{check_binary_op-result}
use tinox.Check.ThisUse.{uses_this_stmt}
use tinox.Check.ThisUse.Exact.{any, is_this, stmt_uses_this-exact}
use tinox.Check.Inheritance.{Parents, is_subclass_or_equal, check_member_visibility}
use tinox.Check.Inheritance.Chain.{
  Inherits, Acyclic, Loops, is_subclass_or_equal_correct, is_subclass_or_equal-reaches,
  is_subclass_or_equal-cycle,
}
use tinox.Check.Inheritance.Access.{MayUse, Outcome, denied, check_member_visibility_correct}
use tinox.Check.Generics.{
  Bindings, unify_param, substitute_bindings, contains_type_param, type_to_value_erasing,
}
use tinox.Check.Generics.Inference.{Solves, unify_param-Extends}
use tinox.Check.Generics.Solution.{unify_param-recovers}
use tinox.Check.Generics.Erasure.{type_to_value_erasing-plain}

abbrev at_start : Span
at_start = record {
  start = record { offset = 0; line = 1; column = 1 };
  end = record { offset = 0; line = 1; column = 1 };
}

abbrev box : ValueType → ValueType
box t = ValueType.named (codes "Box") (ValueTypes.cons t ValueTypes.nil)

same_type_iff_example :
    (same_type (box ValueType.int) (box ValueType.bool) ≡ true)
    ↔ (forget (box ValueType.int) ≡ forget (box ValueType.bool))
same_type_iff_example = same_type_iff (box ValueType.int) (box ValueType.bool)

abbrev no_interfaces : Text → Option (List Text)
no_interfaces _ = none

lub_upper_example :
    (types_compatible no_interfaces
        (lub (ValueType.array ValueType.int) (ValueType.array ValueType.float))
        (ValueType.array ValueType.int)
      ≡ true)
    × (types_compatible no_interfaces
          (lub (ValueType.array ValueType.int) (ValueType.array ValueType.float))
          (ValueType.array ValueType.float)
        ≡ true)
lub_upper_example =
    lub_upper no_interfaces (ValueType.array ValueType.int) (ValueType.array ValueType.float)

check_binary_op-result_example :
    binary_result_type BinaryOp.add ValueType.int ValueType.float
    ≡ lub ValueType.int ValueType.float
unfolding check_binary_op
check_binary_op-result_example =
    check_binary_op-result BinaryOp.add ValueType.int ValueType.float at_start [] refl refl

-- `this;`
abbrev this_stmt : Stmt Text
this_stmt = Stmt.stmt (StmtKind.expr_stmt (Expr.expr ExprKind.this at_start 0)) at_start 0

stmt_uses_this-exact_example : uses_this_stmt this_stmt ≡ any (collect_stmt is_this false this_stmt)
stmt_uses_this-exact_example = stmt_uses_this-exact this_stmt

-- `class Dog extends Animal`
abbrev animals : Parents
animals class = if text_eq class (codes "Dog") then some (codes "Animal") else none

abbrev animal_rank : Text → ℕ
animal_rank class = if text_eq class (codes "Dog") then 1 else 0

parent_of_dog :
    (b : Bool) (p : Text)
    → (if b then some (codes "Animal") else none) ≡ some p
    → (b ≡ true) × (codes "Animal" ≡ p)
parent_of_dog true p h = (refl, some-injective _ _ h)
parent_of_dog false p h = cc

animals-Acyclic : Acyclic animals animal_rank
animals-Acyclic c p h =
    let known = parent_of_dog (text_eq c (codes "Dog")) p h in
    rw (sym known.1) (rw known.0 (omega arith))

dog-Inherits : Inherits animals (codes "Animal") (codes "Dog")
dog-Inherits = Inherits.above (codes "Animal") refl (Inherits.itself refl)

is_subclass_or_equal_correct_example :
    (b : Bool) × (is_subclass_or_equal 2 animals (codes "Dog") (codes "Animal") ≡ some b)
    × ((b ≡ true) ↔ Inherits animals (codes "Animal") (codes "Dog"))
is_subclass_or_equal_correct_example =
    is_subclass_or_equal_correct animals (codes "Animal") animal_rank 2 (codes "Dog")
      animals-Acyclic (omega arith)

is_subclass_or_equal-reaches_example :
    (fuel : ℕ) × (is_subclass_or_equal fuel animals (codes "Dog") (codes "Animal") ≡ some true)
is_subclass_or_equal-reaches_example =
    is_subclass_or_equal-reaches animals (codes "Animal") (codes "Dog") dog-Inherits

-- `class A extends A`
abbrev self_parent : Parents
self_parent class = some class

abbrev not_base : Text → Bool
not_base class = text_eq class (codes "A")

self-Loops : Loops self_parent (codes "B") not_base
self-Loops c h = (c, refl, h, rw (text_eq→≡ c (codes "A") h) refl)

is_subclass_or_equal-cycle_example :
    is_subclass_or_equal 9 self_parent (codes "A") (codes "B") ≡ none
is_subclass_or_equal-cycle_example =
    is_subclass_or_equal-cycle self_parent (codes "B") not_base (codes "A") 9 self-Loops refl

check_member_visibility_correct_example :
    Outcome
      (MayUse animals (some (codes "Dog")) (codes "Animal") Visibility.protected)
      (denied (codes "Animal") (codes "age") Visibility.protected at_start)
      []
      (check_member_visibility 2 animals
        (some (codes "Dog"))
        (codes "Animal")
        (codes "age")
        Visibility.protected
        at_start
        [])
check_member_visibility_correct_example =
    check_member_visibility_correct animals animal_rank 2 (some (codes "Dog")) (codes "Animal")
      (codes "age") Visibility.protected at_start [] animals-Acyclic (omega arith)

abbrev tparams : List Text
tparams = codes "T" ∷ []

-- `T` is `Int64`.
abbrev solution : Bindings
solution name = if text_eq (codes "T") name then some ValueType.int else none

solution-Solves : Solves tparams solution
solution-Solves n = elim (Bool-cases (text_eq (codes "T") n)) [
  | inl e ↦ inl (rw e refl, (ValueType.int, rw e refl, refl))
  | inr e ↦ inr (rw e refl, rw e refl)
]

abbrev param : ValueType
param = box (ValueType.array (ValueType.named (codes "T") ValueTypes.nil))

unify_param-recovers_example :
    substitute_bindings param
      (unify_param param (substitute_bindings param solution) tparams (λ _. none))
    ≡ substitute_bindings param solution
unify_param-recovers_example = unify_param-recovers tparams solution param solution-Solves

unify_param-Extends_example :
    unify_param param (box (ValueType.array ValueType.bool)) tparams solution (codes "T")
    ≡ some ValueType.int
unify_param-Extends_example =
    unify_param-Extends param (box (ValueType.array ValueType.bool)) tparams solution (codes "T")
      ValueType.int refl

abbrev nested : Ty
nested = Ty.generic (codes "Map") (
    Tys.cons Ty.string
      (Tys.cons (Ty.generic (codes "List") (Tys.cons (Ty.named (codes "T")) Tys.nil)) Tys.nil))

type_to_value_erasing-plain_example :
    contains_type_param (type_to_value_erasing nested tparams) tparams ≡ false
type_to_value_erasing-plain_example = type_to_value_erasing-plain nested tparams refl
