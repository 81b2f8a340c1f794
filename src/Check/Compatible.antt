-- ===== src/Check/Compatible.antt =====
-- crates/tinox-typecheck/src/lib.rs: `types_compatible` and `lub`.
pub mod Bounds
pub mod Nulls
use tinox.Prelude.{
  ℕ, zero, suc, Bool, true, false, ◌||◌, if◌then◌else◌, Option, none, some, List, [], ◌∷◌, Text,
  codes, text_eq,
}
use tinox.Check.ValueType.{ValueType, same_type}

-- `names.iter().any(|i| i == name)` and `names.contains(name)`
abbrev pub mentions : List Text → Text → Bool
mentions [] name = false
mentions (n ∷ names) name = text_eq n name || mentions names name

-- `TypeChecker::types_compatible` of an expected and a found type. `implementations` is the map
-- `interface_implementations` from a class to its interfaces. Each arm stands behind the test
-- `a == b`, which is written out where the arm does not cover it.
unfoldable pub types_compatible : (Text → Option (List Text)) → ValueType → ValueType → Bool
unfolding same_type
types_compatible implementations ValueType.int ValueType.float = true
types_compatible implementations ValueType.float ValueType.int = true
types_compatible implementations ValueType.any b = true
types_compatible implementations a ValueType.any = true
types_compatible implementations (ValueType.array a) (ValueType.array b) =
    same_type (ValueType.array a) (ValueType.array b) || types_compatible implementations a b
types_compatible implementations (ValueType.map a) (ValueType.map b) =
    same_type (ValueType.map a) (ValueType.map b) || types_compatible implementations a b
types_compatible implementations (ValueType.nullable a) ValueType.null = true
types_compatible implementations a ValueType.null = same_type a ValueType.null
types_compatible implementations (ValueType.nullable inner) b =
    same_type (ValueType.nullable inner) b || types_compatible implementations inner b
types_compatible implementations (ValueType.named iface x) (ValueType.named class y) =
    same_type (ValueType.named iface x) (ValueType.named class y)
    || elim (implementations class) [ some ifaces ↦ mentions ifaces iface | none ↦ false ]
types_compatible implementations (ValueType.named name _) ValueType.int =
    text_eq name (codes "Channel")
types_compatible implementations a b = same_type a b

-- `TypeChecker::lub`
unfoldable pub lub : ValueType → ValueType → ValueType
unfolding same_type
lub ValueType.int ValueType.float = ValueType.float
lub ValueType.float ValueType.int = ValueType.float
lub (ValueType.array x) (ValueType.array y) =
    let bound = ValueType.array (lub x y) in
    if same_type (ValueType.array x) (ValueType.array y) then ValueType.array x else bound
lub (ValueType.map x) (ValueType.map y) =
    let bound = ValueType.map (lub x y) in
    if same_type (ValueType.map x) (ValueType.map y) then ValueType.map x else bound
lub a b = if same_type a b then a else ValueType.any
