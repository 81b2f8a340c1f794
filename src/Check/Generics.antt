-- ===== src/Check/Generics.antt =====
-- crates/tinox-typecheck/src/lib.rs: type parameters, their inference at a call, their substitution
-- and their erasure.
pub mod Inference
pub mod Solution
pub mod Erasure
use tinox.Prelude.{
  ℕ, zero, suc, Bool, true, false, not, ◌||◌, ◌&&◌, if◌then◌else◌, Option, none, some, List, [],
  ◌∷◌, Text, codes, text_eq, get_elem?,
}
use tinox.Ast.Types.{Ty, Tys}
use tinox.Check.ValueType.{ValueType, ValueTypes, from_parser_type, is_array_name}
use tinox.Check.Compatible.{mentions}

-- The map `bindings` from a type parameter to the type inferred for it.
abbrev pub Bindings : Type 0
Bindings = Text → Option ValueType

-- `bindings.entry(name).or_insert_with(..)`
abbrev pub or_insert : Text → ValueType → Bindings → Bindings
or_insert name value bindings other = elim (bindings other) [
  | some bound ↦ some bound
  | none ↦ if text_eq name other then some value else none
]

abbrev pub is_any : ValueType → Bool
is_any ValueType.any = true
is_any _ = false

-- The first arm of `unify_param`.
abbrev pub bind : Text → ValueType → Bindings → Bindings
bind name arg bindings = if is_any arg then bindings else or_insert name arg bindings

-- `TypeChecker::unify_param`: the bindings after it, from those before it.
unfoldable mutual
  pub unify_param : ValueType → ValueType → List Text → Bindings → Bindings
  unify_param (ValueType.named pn pargs) (ValueType.named an aargs) tparams bindings =
      let rest = unify_params pargs aargs tparams bindings in
      if mentions tparams pn
      then bind pn (ValueType.named an aargs) bindings
      else if text_eq pn an
      then rest
      else bindings
  unify_param (ValueType.named n _) arg tparams bindings =
      if mentions tparams n then bind n arg bindings else bindings
  unify_param (ValueType.array p) (ValueType.array a) tparams bindings =
      unify_param p a tparams bindings
  unify_param (ValueType.map p) (ValueType.map a) tparams bindings =
      unify_param p a tparams bindings
  unify_param (ValueType.nullable p) (ValueType.nullable a) tparams bindings =
      unify_param p a tparams bindings
  unify_param (ValueType.nullable p) a tparams bindings = unify_param p a tparams bindings
  unify_param _ _ tparams bindings = bindings

  pub unify_params : ValueTypes → ValueTypes → List Text → Bindings → Bindings
  unify_params (ValueTypes.cons p ps) (ValueTypes.cons a args) tparams bindings =
      unify_params ps args tparams (unify_param p a tparams bindings)
  unify_params _ _ tparams bindings = bindings

-- `TypeChecker::substitute_bindings`
unfoldable mutual
  pub substitute_bindings : ValueType → Bindings → ValueType
  substitute_bindings (ValueType.named n args) bindings =
      let rest = substitute_all args bindings in
      elim (bindings n) [ some bound ↦ bound | none ↦ ValueType.named n rest ]
  substitute_bindings (ValueType.array inner) bindings =
      ValueType.array (substitute_bindings inner bindings)
  substitute_bindings (ValueType.map v) bindings = ValueType.map (substitute_bindings v bindings)
  substitute_bindings (ValueType.nullable inner) bindings =
      ValueType.nullable (substitute_bindings inner bindings)
  substitute_bindings ty bindings = ty

  pub substitute_all : ValueTypes → Bindings → ValueTypes
  substitute_all ValueTypes.nil bindings = ValueTypes.nil
  substitute_all (ValueTypes.cons t ts) bindings =
      ValueTypes.cons (substitute_bindings t bindings) (substitute_all ts bindings)

-- `TypeChecker::contains_type_param`
unfoldable mutual
  pub contains_type_param : ValueType → List Text → Bool
  contains_type_param (ValueType.named n args) tparams =
      mentions tparams n || contains_any_param args tparams
  contains_type_param (ValueType.array inner) tparams = contains_type_param inner tparams
  contains_type_param (ValueType.map inner) tparams = contains_type_param inner tparams
  contains_type_param (ValueType.nullable inner) tparams = contains_type_param inner tparams
  contains_type_param _ tparams = false

  pub contains_any_param : ValueTypes → List Text → Bool
  contains_any_param ValueTypes.nil tparams = false
  contains_any_param (ValueTypes.cons t ts) tparams =
      contains_type_param t tparams || contains_any_param ts tparams

-- `tparams.iter().position(|p| p == n)`
abbrev pub position : List Text → Text → Option ℕ
position [] name = none
position (p ∷ ps) name =
    let rest = position ps name in
    if text_eq p name then some 0 else elim rest [ some i ↦ some (suc i) | none ↦ none ]

-- The arm of `substitute_type_params` on a named type.
abbrev pub parameter_or : ValueType → Option ℕ → List ValueType → ValueType
parameter_or ty none targs = ty
parameter_or ty (some i) targs = elim (get_elem? targs i) [ some t ↦ t | none ↦ ty ]

-- The recursion of `substitute_type_params`, for a class with the parameters `tparams`.
unfoldable pub substitute_params : ValueType → List Text → List ValueType → ValueType
substitute_params (ValueType.named n args) tparams targs =
    parameter_or (ValueType.named n args) (position tparams n) targs
substitute_params (ValueType.array inner) tparams targs =
    ValueType.array (substitute_params inner tparams targs)
substitute_params (ValueType.map v) tparams targs =
    ValueType.map (substitute_params v tparams targs)
substitute_params (ValueType.nullable inner) tparams targs =
    ValueType.nullable (substitute_params inner tparams targs)
substitute_params ty tparams targs = ty

-- `TypeChecker::substitute_type_params`; the first argument is the map `class_type_params`.
unfoldable pub substitute_type_params :
    (Text → Option (List Text)) → ValueType → Text → List ValueType → ValueType
unfolding substitute_params
substitute_type_params class_type_params ty class_name [] = ty
substitute_type_params class_type_params ty class_name (t ∷ ts) =
    elim (class_type_params class_name) [
      | none ↦ ty
      | some tparams ↦ substitute_params ty tparams (t ∷ ts)
    ]

-- `TypeChecker::resolve_type` in the scope `type_param_scope`.
unfoldable pub resolve_type : (Text → Bool) → Ty → ValueType
unfolding from_parser_type
resolve_type scope (Ty.named name) =
    if scope name then ValueType.any else from_parser_type (Ty.named name)
resolve_type scope (Ty.generic name args) =
    if scope name then ValueType.any else from_parser_type (Ty.generic name args)
resolve_type scope ty = from_parser_type ty

-- `TypeChecker::contains_scoped_type_param` in the scope `type_param_scope`.
unfoldable mutual
  pub contains_scoped_type_param : (Text → Bool) → ValueType → Bool
  contains_scoped_type_param scope (ValueType.named n args) =
      scope n || contains_any_scoped scope args
  contains_scoped_type_param scope (ValueType.array inner) = contains_scoped_type_param scope inner
  contains_scoped_type_param scope (ValueType.map inner) = contains_scoped_type_param scope inner
  contains_scoped_type_param scope (ValueType.nullable inner) =
      contains_scoped_type_param scope inner
  contains_scoped_type_param scope _ = false

  pub contains_any_scoped : (Text → Bool) → ValueTypes → Bool
  contains_any_scoped scope ValueTypes.nil = false
  contains_any_scoped scope (ValueTypes.cons t ts) =
      contains_scoped_type_param scope t || contains_any_scoped scope ts

-- `TypeChecker::type_to_value_erasing`: `only` and `second_of_two` are the arms on a container with
-- as many arguments as it needs, and `other` is what the rest of the arms give.
unfoldable mutual
  unfolding from_parser_type

  pub type_to_value_erasing : Ty → List Text → ValueType
  type_to_value_erasing (Ty.named name) tparams =
      if mentions tparams name then ValueType.any else from_parser_type (Ty.named name)
  type_to_value_erasing (Ty.generic name args) tparams =
      let other = from_parser_type (Ty.generic name args) in
      let only = erase_only args tparams other in
      let second = erase_second_of_two args tparams other in
      if mentions tparams name
      then ValueType.any
      else if is_array_name name
      then only
      else if text_eq name (codes "Map")
      then second
      else other
  type_to_value_erasing (Ty.array inner) tparams =
      ValueType.array (type_to_value_erasing inner tparams)
  type_to_value_erasing (Ty.map _ v) tparams = ValueType.map (type_to_value_erasing v tparams)
  type_to_value_erasing ty tparams = from_parser_type ty

  pub erase_only : Tys → List Text → ValueType → ValueType
  erase_only (Tys.cons t Tys.nil) tparams other = ValueType.array (type_to_value_erasing t tparams)
  erase_only _ tparams other = other

  pub erase_second_of_two : Tys → List Text → ValueType → ValueType
  erase_second_of_two (Tys.cons k (Tys.cons v Tys.nil)) tparams other =
      ValueType.map (type_to_value_erasing v tparams)
  erase_second_of_two _ tparams other = other

-- `TypeChecker::type_references_param`
unfoldable mutual
  pub type_references_param : Ty → List Text → Bool
  type_references_param (Ty.named n) tparams = mentions tparams n
  type_references_param (Ty.generic name args) tparams =
      mentions tparams name || any_references_param args tparams
  type_references_param (Ty.array inner) tparams = type_references_param inner tparams
  type_references_param (Ty.ref inner) tparams = type_references_param inner tparams
  type_references_param (Ty.mutable inner) tparams = type_references_param inner tparams
  type_references_param (Ty.nullable inner) tparams = type_references_param inner tparams
  type_references_param (Ty.map k v) tparams =
      type_references_param k tparams || type_references_param v tparams
  type_references_param (Ty.fn params ret) tparams =
      any_references_param params tparams || type_references_param ret tparams
  type_references_param (Ty.tuple ts) tparams = any_references_param ts tparams
  type_references_param _ tparams = false

  pub any_references_param : Tys → List Text → Bool
  any_references_param Tys.nil tparams = false
  any_references_param (Tys.cons t ts) tparams =
      type_references_param t tparams || any_references_param ts tparams

abbrev pub is_generic : Ty → Bool
is_generic (Ty.generic _ _) = true
is_generic _ = false

abbrev pub is_nil : List Text → Bool
is_nil [] = true
is_nil (_ ∷ _) = false

-- `TypeChecker::erase_method_return_type`
unfoldable pub erase_method_return_type : Ty → List Text → List Text → ValueType
unfolding type_references_param type_to_value_erasing
erase_method_return_type ret_type method_own_params erase_params =
    if not (is_nil method_own_params)
      && is_generic ret_type
      && type_references_param ret_type method_own_params
    then ValueType.any
    else type_to_value_erasing ret_type erase_params
