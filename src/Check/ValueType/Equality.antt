-- ===== src/Check/ValueType/Equality.antt =====
-- crates/tinox-typecheck/src/lib.rs: the laws of the equality of `ValueType`.
use tinox.Prelude.{true, text_eq_refl, text_eq→≡, ◌≡◌, ◌↔◌, refl, sym, ap, ◌∙◌}
use tinox.Check.ValueType.{ValueType, ValueTypes, same_type}

-- A type without the arguments of named types, at any depth of the containers.
unfoldable pub forget : ValueType → ValueType
forget (ValueType.array a) = ValueType.array (forget a)
forget (ValueType.map a) = ValueType.map (forget a)
forget (ValueType.nullable a) = ValueType.nullable (forget a)
forget (ValueType.named n _) = ValueType.named n ValueTypes.nil
forget a = a

pub same_type_refl : (a : ValueType) → same_type a a ≡ true
unfolding same_type
same_type_refl (ValueType.array a) = same_type_refl a
same_type_refl (ValueType.map a) = same_type_refl a
same_type_refl (ValueType.nullable a) = same_type_refl a
same_type_refl (ValueType.named n _) = text_eq_refl n
same_type_refl _ = refl

same_type-forget : (a b : ValueType) → same_type a b ≡ true → forget a ≡ forget b
unfolding same_type forget
same_type-forget (ValueType.array a) (ValueType.array b) h =
    ap ValueType.array (same_type-forget a b h)
same_type-forget (ValueType.map a) (ValueType.map b) h = ap ValueType.map (same_type-forget a b h)
same_type-forget (ValueType.nullable a) (ValueType.nullable b) h =
    ap ValueType.nullable (same_type-forget a b h)
same_type-forget (ValueType.named n x) (ValueType.named m y) h =
    ap (λ k. ValueType.named k ValueTypes.nil) (text_eq→≡ n m h)
same_type-forget ValueType.int ValueType.int h = refl
same_type-forget ValueType.float ValueType.float h = refl
same_type-forget ValueType.bool ValueType.bool h = refl
same_type-forget ValueType.char ValueType.char h = refl
same_type-forget ValueType.string ValueType.string h = refl
same_type-forget ValueType.nothing ValueType.nothing h = refl
same_type-forget ValueType.never ValueType.never h = refl
same_type-forget ValueType.any ValueType.any h = refl
same_type-forget ValueType.ref ValueType.ref h = refl
same_type-forget ValueType.fn ValueType.fn h = refl
same_type-forget ValueType.tuple ValueType.tuple h = refl
same_type-forget ValueType.range ValueType.range h = refl
same_type-forget ValueType.null ValueType.null h = refl
same_type-forget _ _ h = cc

-- What a container holds, and the name of a named type.
abbrev inside : ValueType → ValueType
inside (ValueType.array a) = a
inside (ValueType.map a) = a
inside (ValueType.nullable a) = a
inside a = a

forget-same_type : (a b : ValueType) → forget a ≡ forget b → same_type a b ≡ true
unfolding same_type forget
forget-same_type (ValueType.array a) (ValueType.array b) h = forget-same_type a b (ap inside h)
forget-same_type (ValueType.map a) (ValueType.map b) h = forget-same_type a b (ap inside h)
forget-same_type (ValueType.nullable a) (ValueType.nullable b) h =
    forget-same_type a b (ap inside h)
forget-same_type (ValueType.named n x) (ValueType.named m y) h =
    let same : n ≡ m = cc in rw same (text_eq_refl m)
forget-same_type ValueType.int ValueType.int h = refl
forget-same_type ValueType.float ValueType.float h = refl
forget-same_type ValueType.bool ValueType.bool h = refl
forget-same_type ValueType.char ValueType.char h = refl
forget-same_type ValueType.string ValueType.string h = refl
forget-same_type ValueType.nothing ValueType.nothing h = refl
forget-same_type ValueType.never ValueType.never h = refl
forget-same_type ValueType.any ValueType.any h = refl
forget-same_type ValueType.ref ValueType.ref h = refl
forget-same_type ValueType.fn ValueType.fn h = refl
forget-same_type ValueType.tuple ValueType.tuple h = refl
forget-same_type ValueType.range ValueType.range h = refl
forget-same_type ValueType.null ValueType.null h = refl
forget-same_type _ _ h = cc

-- The equality of `ValueType` is equality of the types without the arguments of named types.
pub same_type_iff : (a b : ValueType) → (same_type a b ≡ true) ↔ (forget a ≡ forget b)
same_type_iff a b = (same_type-forget a b, forget-same_type a b)

pub same_type_sym : (a b : ValueType) → same_type a b ≡ true → same_type b a ≡ true
same_type_sym a b h = forget-same_type b a (sym (same_type-forget a b h))

pub same_type_trans :
    (a b c : ValueType) → same_type a b ≡ true → same_type b c ≡ true → same_type a c ≡ true
same_type_trans a b c h k = forget-same_type a c (same_type-forget a b h ∙ same_type-forget b c k)
