-- ===== src/Check/Inheritance.antt =====
-- crates/tinox-typecheck/src/lib.rs: `is_subclass_or_equal` and `check_member_visibility`.
pub mod Chain
pub mod Access
use tinox.Prelude.{
  ℕ, zero, suc, Bool, true, false, if◌then◌else◌, Option, none, some, List, [], ◌∷◌, ◌++◌, Text,
  text_eq,
}
use tinox.Diag.{Span, Error}
use tinox.Ast.Decl.{Visibility}
use tinox.Check.TypeError.{TypeError, to_error}

-- The map `class_parents` from a class to the class it extends.
abbrev pub Parents : Type 0
Parents = Text → Option Text

-- The loop of `is_subclass_or_equal` from the class `current`. The source has no bound: `none` says
-- that the fuel ended first.
unfoldable pub climb : ℕ → Parents → Text → Text → Option Bool
climb zero parents current base = none
climb (suc fuel) parents current base = elim (parents current) [
  | none ↦ some false
  | some parent ↦
      let rest = climb fuel parents parent base in if text_eq parent base then some true else rest
]

-- `TypeChecker::is_subclass_or_equal`
unfoldable pub is_subclass_or_equal : ℕ → Parents → Text → Text → Option Bool
unfolding climb
is_subclass_or_equal fuel parents candidate base =
    if text_eq candidate base then some true else climb fuel parents candidate base

-- `current_class.map(..).unwrap_or(false)` for the two tests of `check_member_visibility`.
abbrev pub inside : Option Text → Text → Bool
inside none class = false
inside (some c) class = text_eq c class

abbrev pub inside_subclass : ℕ → Parents → Option Text → Text → Option Bool
inside_subclass fuel parents none class = some false
inside_subclass fuel parents (some c) class = is_subclass_or_equal fuel parents c class

-- `if !allowed { self.errors.push(..) }`, where the test can run out of fuel.
abbrev pub report : Option Bool → Error → List Error → Option (List Error)
report none e errors = none
report (some true) e errors = some errors
report (some false) e errors = some (errors ++ e ∷ [])

-- `TypeChecker::check_member_visibility`: the errors after it, from those before it.
unfoldable pub check_member_visibility :
    ℕ → Parents → Option Text → Text → Text → Visibility → Span → List Error → Option (List Error)
unfolding is_subclass_or_equal to_error
check_member_visibility fuel parents current class member Visibility.public span errors =
    some errors
check_member_visibility fuel parents current class member Visibility.package_ span errors =
    some errors
check_member_visibility fuel parents current class member Visibility.private span errors =
    report (some (inside current class)) (to_error (TypeError.private_access class member span))
      errors
check_member_visibility fuel parents current class member Visibility.protected span errors =
    report (inside_subclass fuel parents current class)
      (to_error (TypeError.protected_access class member span)) errors
