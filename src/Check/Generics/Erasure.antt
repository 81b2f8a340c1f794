-- ===== src/Check/Generics/Erasure.antt =====
-- crates/tinox-typecheck/src/lib.rs: which type parameters substitution and erasure leave.
use tinox.Prelude.{
  Bool, true, false, ◌||◌, ◌&&◌, some, List, Text, codes, text_eq, ◌≡◌, refl, ap, arith, inl, inr,
  Bool-cases, text_eq→≡,
}
use tinox.Ast.Types.{Ty, Tys}
use tinox.Check.ValueType.{
  ValueType, ValueTypes, from_parser_type, first_argument, second_argument, is_array_name,
}
use tinox.Check.Compatible.{mentions}
use tinox.Check.Generics.{
  Bindings, substitute_bindings, substitute_all, contains_type_param, contains_any_param,
  type_to_value_erasing, erase_only, erase_second_of_two, type_references_param,
  any_references_param,
}
use tinox.Check.Generics.Inference.{Solves}
use tinox.Check.Generics.Solution.{substitute-bound, substitute-free}

-- The types of a solution name no type parameter.
abbrev pub Concrete : List Text → Bindings → Type 0
Concrete tparams solution =
    (n : Text) (v : ValueType) → solution n ≡ some v → contains_type_param v tparams ≡ false

mutual
  unfolding substitute_bindings contains_type_param

  resolved :
      (tparams : List Text) (solution : Bindings) (ty : ValueType)
      → Solves tparams solution
      → Concrete tparams solution
      → contains_type_param (substitute_bindings ty solution) tparams ≡ false
  resolved tparams solution (ValueType.named n args) s c = elim (s n) [
    | inl k ↦ rw (substitute-bound solution n args k.1.0 k.1.1) (c n k.1.0 k.1.1)
    | inr k ↦
        rw (substitute-free solution n args k.1) (rw k.0 (resolved_all tparams solution args s c))
  ]
  resolved tparams solution (ValueType.array t) s c = resolved tparams solution t s c
  resolved tparams solution (ValueType.map t) s c = resolved tparams solution t s c
  resolved tparams solution (ValueType.nullable t) s c = resolved tparams solution t s c
  resolved tparams solution _ s c = refl

  resolved_all :
      (tparams : List Text) (solution : Bindings) (ts : ValueTypes)
      → Solves tparams solution
      → Concrete tparams solution
      → contains_any_param (substitute_all ts solution) tparams ≡ false
  resolved_all tparams solution ValueTypes.nil s c = refl
  resolved_all tparams solution (ValueTypes.cons t ts) s c =
      rw (resolved tparams solution t s c) (resolved_all tparams solution ts s c)

or-left : (a b : Bool) → a || b ≡ false → a ≡ false
or-left false b h = refl
or-left true b h = cc

or-right : (a b : Bool) → a || b ≡ false → b ≡ false
or-right false b h = h
or-right true b h = cc

mutual
  unfolding type_to_value_erasing type_references_param from_parser_type

  unreferenced :
      (ty : Ty) (tparams : List Text)
      → type_references_param ty tparams ≡ false
      → type_to_value_erasing ty tparams ≡ from_parser_type ty
  unreferenced (Ty.named name) tparams h = rw h refl
  unreferenced (Ty.generic name args) tparams h =
      let unnamed = or-left (mentions tparams name) _ h in
      let parts = or-right (mentions tparams name) _ h in
      elim (Bool-cases (is_array_name name)) [
        | inl a ↦ rw unnamed (rw a (only_unreferenced args tparams parts))
        | inr a ↦ elim (Bool-cases (text_eq name (codes "Map"))) [
          | inl m ↦ rw unnamed (rw a (rw m (second_unreferenced args tparams parts)))
          | inr m ↦ rw unnamed (rw a (rw m refl))
        ]
      ]
  unreferenced (Ty.array t) tparams h = ap ValueType.array (unreferenced t tparams h)
  unreferenced (Ty.map k v) tparams h =
      ap ValueType.map (unreferenced v tparams (or-right (type_references_param k tparams) _ h))
  unreferenced _ tparams h = refl

  only_unreferenced :
      (args : Tys) (tparams : List Text)
      → any_references_param args tparams ≡ false
      → erase_only args tparams (ValueType.array (first_argument args))
        ≡ ValueType.array (first_argument args)
  only_unreferenced (Tys.cons t Tys.nil) tparams h =
      ap ValueType.array (unreferenced t tparams (or-left (type_references_param t tparams) _ h))
  only_unreferenced _ tparams h = refl

  second_unreferenced :
      (args : Tys) (tparams : List Text)
      → any_references_param args tparams ≡ false
      → erase_second_of_two args tparams (ValueType.map (second_argument args))
        ≡ ValueType.map (second_argument args)
  second_unreferenced (Tys.cons k (Tys.cons v Tys.nil)) tparams h = ap ValueType.map (
      unreferenced v tparams (
        or-left (type_references_param v tparams) _
          (or-right (type_references_param k tparams) _ h)))
  second_unreferenced _ tparams h = refl

-- `type_to_value_erasing` changes nothing of a type that names no type parameter: it gives what
-- `from_parser_type` gives.
pub type_to_value_erasing-unreferenced :
    (ty : Ty) (tparams : List Text)
    → type_references_param ty tparams ≡ false
    → type_to_value_erasing ty tparams ≡ from_parser_type ty
type_to_value_erasing-unreferenced = unreferenced

-- The types that are made of base types, names and the built-in containers.
abbrev pub is_plain : Ty → Bool
is_plain (Ty.generic name (Tys.cons t Tys.nil)) = is_array_name name && is_plain t
is_plain (Ty.generic name (Tys.cons k (Tys.cons v Tys.nil))) =
    text_eq name (codes "Map") && is_plain v
is_plain (Ty.generic _ _) = false
is_plain (Ty.array t) = is_plain t
is_plain (Ty.map _ v) = is_plain v
is_plain (Ty.nullable _) = false
is_plain _ = true

and-left : (a b : Bool) → a && b ≡ true → a ≡ true
and-left true b h = refl
and-left false b h = cc

and-right : (a b : Bool) → a && b ≡ true → b ≡ true
and-right true b h = h
and-right false b h = cc

map-not-array : (name : Text) → text_eq name (codes "Map") ≡ true → is_array_name name ≡ false
map-not-array name h = rw (text_eq→≡ name (codes "Map") h) refl

-- `type_to_value_erasing` of a type made of base types, names and the built-in containers: at every
-- depth, no type parameter is left in the result.
pub type_to_value_erasing-plain :
    (ty : Ty) (tparams : List Text)
    → is_plain ty ≡ true
    → contains_type_param (type_to_value_erasing ty tparams) tparams ≡ false
unfolding type_to_value_erasing from_parser_type contains_type_param
type_to_value_erasing-plain (Ty.named name) tparams h = elim (Bool-cases (mentions tparams name)) [
  | inl m ↦ rw m refl
  | inr m ↦ rw m (rw m refl)
]
type_to_value_erasing-plain (Ty.generic name (Tys.cons t Tys.nil)) tparams h =
    elim (Bool-cases (mentions tparams name)) [
      | inl m ↦ rw m refl
      | inr m ↦ rw m (
          rw (and-left (is_array_name name) _ h)
            (type_to_value_erasing-plain t tparams (and-right (is_array_name name) _ h)))
    ]
type_to_value_erasing-plain (Ty.generic name (Tys.cons k (Tys.cons v Tys.nil))) tparams h =
    let is_map = and-left (text_eq name (codes "Map")) _ h in
    elim (Bool-cases (mentions tparams name)) [
      | inl m ↦ rw m refl
      | inr m ↦ rw m (
          rw (map-not-array name is_map) (
            rw is_map
              (type_to_value_erasing-plain v tparams (and-right (text_eq name (codes "Map")) _ h))))
    ]
type_to_value_erasing-plain (Ty.array t) tparams h = type_to_value_erasing-plain t tparams h
type_to_value_erasing-plain (Ty.map _ v) tparams h = type_to_value_erasing-plain v tparams h
type_to_value_erasing-plain _ tparams h = ground arith
