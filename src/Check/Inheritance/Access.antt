-- ===== src/Check/Inheritance/Access.antt =====
-- crates/tinox-typecheck/src/lib.rs: who may use a member, by `check_member_visibility`.
use tinox.Prelude.{
  ℕ, ◌<◌, ◌⊎◌, Bool, true, false, Option, none, some, List, [], ◌∷◌, ◌++◌, Text, text_eq, text_eq→≡,
  ◌≡◌, refl, sym, ◌∙◌, ap, inl, inr, Bool-cases,
}
use mathlib.Core.Option.{some-injective}
use tinox.Diag.{Span, Error}
use tinox.Ast.Decl.{Visibility}
use tinox.Check.TypeError.{TypeError, to_error}
use tinox.Check.Inheritance.{Parents, is_subclass_or_equal, inside, report, check_member_visibility}
use tinox.Check.Inheritance.Chain.{
  Inherits, Acyclic, Answers, answered, subclass-Answers, same→text_eq, true≢false,
}

-- The rule of the language: code of the class `current`, or of no class, may use a member of `class`.
abbrev pub MayUse : Parents → Option Text → Text → Visibility → Type 0
MayUse parents current class Visibility.public = Unit
MayUse parents current class Visibility.package_ = Unit
MayUse parents current class Visibility.private = current ≡ some class
MayUse parents none class Visibility.protected = ⊥
MayUse parents (some c) class Visibility.protected = Inherits parents class c

-- The error on a member that may not be used.
abbrev pub denied : Text → Text → Visibility → Span → TypeError
denied class member Visibility.protected span = TypeError.protected_access class member span
denied class member _ span = TypeError.private_access class member span

abbrev pub rank_of : (Text → ℕ) → Option Text → ℕ
rank_of rank none = 0
rank_of rank (some c) = rank c

-- The outcome of the check, by whether the use is allowed.
abbrev pub Outcome : Type 0 → TypeError → List Error → Option (List Error) → Type 0
Outcome Allowed e errors result =
    (Allowed × (result ≡ some errors)) ⊎ ((¬ Allowed) × (result ≡ some (errors ++ to_error e ∷ [])))

decided_private :
    (current : Option Text) (class : Text) (e : TypeError) (errors : List Error)
    → Outcome
        (current ≡ some class)
        e
        errors
        (report (some (inside current class)) (to_error e) errors)
decided_private none class e errors = inr (λ h. absurd (cc h), refl)
decided_private (some c) class e errors = elim (Bool-cases (text_eq c class)) [
  | inl s ↦ inl (ap some (text_eq→≡ c class s), rw s refl)
  | inr n ↦ inr (λ h. true≢false (sym (same→text_eq (some-injective _ _ h)) ∙ n), rw n refl)
]

decided_answer :
    (parents : Parents) (class c : Text) (e : TypeError) (errors : List Error) (b : Bool)
    → Answers parents class c b
    → Outcome (Inherits parents class c) e errors (report (some b) (to_error e) errors)
decided_answer parents class c e errors true h = inl (h, refl)
decided_answer parents class c e errors false h = inr (h, refl)

decided_protected :
    (parents : Parents) (rank : Text → ℕ) (fuel : ℕ) (class c : Text) (e : TypeError)
    (errors : List Error)
    → Acyclic parents rank
    → rank c < fuel
    → Outcome
        (Inherits parents class c)
        e
        errors
        (report (is_subclass_or_equal fuel parents c class) (to_error e) errors)
decided_protected parents rank fuel class c e errors acyclic enough =
    let (b, h) = answered parents class rank acyclic fuel c enough in
    rw h (decided_answer parents class c e errors b (subclass-Answers parents class fuel c b h))

-- `check_member_visibility` on classes without a cycle, with enough fuel for the classes above the
-- current one: where the current class may use the member, no error is added; else exactly one is,
-- of the member's visibility.
pub check_member_visibility_correct :
    (parents : Parents) (rank : Text → ℕ) (fuel : ℕ) (current : Option Text) (class member : Text)
    (visibility : Visibility) (span : Span) (errors : List Error)
    → Acyclic parents rank
    → rank_of rank current < fuel
    → Outcome
        (MayUse parents current class visibility)
        (denied class member visibility span)
        errors
        (check_member_visibility fuel parents current class member visibility span errors)
unfolding check_member_visibility
check_member_visibility_correct parents rank fuel c class m Visibility.public s es acyclic enough =
    inl (tt, refl)
check_member_visibility_correct parents rank fuel c class m Visibility.package_ s es acyclic
      enough =
    inl (tt, refl)
check_member_visibility_correct parents rank fuel c class m Visibility.private s es acyclic enough =
    decided_private c class (TypeError.private_access class m s) es
check_member_visibility_correct parents rank fuel none class m Visibility.protected s es acyclic
      enough =
    inr (λ h. h, refl)
check_member_visibility_correct parents rank fuel (some c) class m Visibility.protected s es acyclic
      enough =
    decided_protected parents rank fuel class c (TypeError.protected_access class m s) es acyclic
      enough
