-- ===== src/Check/Compatible/Bounds.antt =====
-- crates/tinox-typecheck/src/lib.rs: `lub` as an upper bound, and its laws.
use tinox.Prelude.{
  Bool, true, false, if◌then◌else◌, Option, List, Text, text_eq_refl, ◌≡◌, refl, sym, ◌∙◌, arith,
  inl, inr, Bool-cases,
}
use tinox.Check.ValueType.{ValueType, same_type}
use tinox.Check.ValueType.Equality.{same_type_refl, same_type_sym}
use tinox.Check.Compatible.{types_compatible, lub}

module _ (implementations : Text → Option (List Text)) where
  -- A type is compatible with the types that equal it.
  pub types_compatible-same :
      (a b : ValueType) → same_type a b ≡ true → types_compatible implementations a b ≡ true
  unfolding types_compatible
  types_compatible-same ValueType.int ValueType.float h = refl
  types_compatible-same (ValueType.nullable a) (ValueType.nullable b) h = ground arith
  types_compatible-same (ValueType.array a) (ValueType.array b) h = ground arith
  types_compatible-same (ValueType.map a) (ValueType.map b) h = ground arith
  types_compatible-same (ValueType.named n x) (ValueType.named m y) h = ground arith
  types_compatible-same _ _ h = ground arith

  compatible_self : (a : ValueType) → types_compatible implementations a a ≡ true
  compatible_self a = types_compatible-same a a (same_type_refl a)

  -- `Any` is compatible with every type.
  compatible_any : (a : ValueType) → types_compatible implementations ValueType.any a ≡ true
  unfolding types_compatible
  compatible_any ValueType.int = refl
  compatible_any _ = refl

  compatible_either :
      (b : Bool) (a c : ValueType)
      → (b ≡ true → types_compatible implementations a c ≡ true)
      → types_compatible implementations (if b then a else ValueType.any) c ≡ true
  compatible_either true a c h = h refl
  compatible_either false a c h = compatible_any c

  lub-left : (a b : ValueType) → types_compatible implementations (lub a b) a ≡ true
  unfolding types_compatible lub
  lub-left ValueType.int ValueType.float = refl
  lub-left ValueType.float ValueType.int = refl
  lub-left (ValueType.array a) (ValueType.array b) = ground (arith, lub-left a b, same_type_refl a)
  lub-left (ValueType.map a) (ValueType.map b) = ground (arith, lub-left a b, same_type_refl a)
  lub-left a b = compatible_either (same_type a b) a a (λ _. compatible_self a)

  lub-right : (a b : ValueType) → types_compatible implementations (lub a b) b ≡ true
  unfolding types_compatible lub
  lub-right ValueType.int ValueType.float = refl
  lub-right ValueType.float ValueType.int = refl
  lub-right (ValueType.array a) (ValueType.array b) = elim (Bool-cases (same_type a b)) [
    | inl h ↦ rw h (ground (arith, types_compatible-same a b h))
    | inr h ↦ rw h (ground (arith, lub-right a b))
  ]
  lub-right (ValueType.map a) (ValueType.map b) = elim (Bool-cases (same_type a b)) [
    | inl h ↦ rw h (ground (arith, types_compatible-same a b h))
    | inr h ↦ rw h (ground (arith, lub-right a b))
  ]
  lub-right a b = compatible_either (same_type a b) a b (types_compatible-same a b)

  -- `lub` is an upper bound: where a value of the type `lub a b` is expected, a value of the type `a`
  -- and one of the type `b` are accepted.
  pub lub_upper :
      (a b : ValueType)
      → (types_compatible implementations (lub a b) a ≡ true)
        × (types_compatible implementations (lub a b) b ≡ true)
  lub_upper a b = (lub-left a b, lub-right a b)

same_type-swap : (a b : ValueType) → same_type a b ≡ same_type b a
same_type-swap a b = elim (Bool-cases (same_type a b)) [
  | inl h ↦ h ∙ sym (same_type_sym a b h)
  | inr h ↦ elim (Bool-cases (same_type b a)) [
    | inl k ↦ same_type_sym b a k ∙ sym k
    | inr k ↦ h ∙ sym k
  ]
]

same_either :
    (a b : ValueType) (s t : Bool)
    → s ≡ same_type a b
    → t ≡ s
    → same_type (if s then a else ValueType.any) (if t then b else ValueType.any) ≡ true
unfolding same_type
same_either a b true true h e = sym h
same_either a b false false h e = refl
same_either a b true false h e = cc
same_either a b false true h e = cc

-- The order of its arguments does not matter to `lub`, up to the equality of types.
pub lub_comm : (a b : ValueType) → same_type (lub a b) (lub b a) ≡ true
unfolding lub
lub_comm ValueType.int ValueType.float = refl
lub_comm ValueType.float ValueType.int = refl
lub_comm (ValueType.array a) (ValueType.array b) = ground (arith, lub_comm a b, same_type-swap a b)
lub_comm (ValueType.map a) (ValueType.map b) = ground (arith, lub_comm a b, same_type-swap a b)
lub_comm a ValueType.bool =
    same_either a ValueType.bool (same_type a ValueType.bool) (same_type ValueType.bool a) refl
      (same_type-swap ValueType.bool a)
lub_comm a b = same_either a b (same_type a b) (same_type b a) refl (same_type-swap b a)

pub lub_self : (a : ValueType) → lub a a ≡ a
unfolding lub same_type
lub_self (ValueType.array a) = rw (same_type_refl a) refl
lub_self (ValueType.map a) = rw (same_type_refl a) refl
lub_self (ValueType.nullable a) = rw (same_type_refl a) refl
lub_self (ValueType.named n _) = rw (text_eq_refl n) refl
lub_self _ = refl
