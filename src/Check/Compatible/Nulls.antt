-- ===== src/Check/Compatible/Nulls.antt =====
-- crates/tinox-typecheck/src/lib.rs: which types accept `null`.
use tinox.Prelude.{Bool, true, false, Option, List, Text, ◌≡◌, refl}
use tinox.Check.ValueType.{ValueType, same_type}
use tinox.Check.Compatible.{types_compatible}

abbrev pub accepts_null : ValueType → Bool
accepts_null ValueType.any = true
accepts_null ValueType.null = true
accepts_null (ValueType.nullable _) = true
accepts_null _ = false

-- `types_compatible` accepts `null` for a nullable type, for `null` itself and for `Any`, and for
-- no other type.
pub types_compatible-null :
    (implementations : Text → Option (List Text)) (a : ValueType)
    → types_compatible implementations a ValueType.null ≡ accepts_null a
unfolding types_compatible same_type
types_compatible-null implementations ValueType.any = refl
types_compatible-null implementations (ValueType.nullable a) = refl
types_compatible-null implementations _ = refl
