-- ===== src/Check/ValueType.antt =====
-- crates/tinox-typecheck/src/lib.rs: `ValueType`, its equality, its display and its conversion from
-- a parsed type.
pub mod Equality
use tinox.Prelude.{
  ℕ, Bool, true, false, not, ◌&&◌, ◌||◌, if◌then◌else◌, List, [], ◌∷◌, ◌++◌, Text, codes, text_eq,
}
use tinox.Ast.Types.{Ty, Tys}

mutual
  pub data ValueType : Type 0 where
    int float bool char string nothing never any : ValueType
    array : ValueType → ValueType
    map : ValueType → ValueType
    ref fn : ValueType
    named : Text → ValueTypes → ValueType
    tuple range : ValueType
    nullable : ValueType → ValueType
    null : ValueType

  pub data ValueTypes : Type 0 where
    nil : ValueTypes
    cons : ValueType → ValueTypes → ValueTypes

-- `PartialEq for ValueType`: the arguments of a named type are passed over.
unfoldable pub same_type : ValueType → ValueType → Bool
same_type ValueType.int ValueType.int = true
same_type ValueType.float ValueType.float = true
same_type ValueType.bool ValueType.bool = true
same_type ValueType.char ValueType.char = true
same_type ValueType.string ValueType.string = true
same_type ValueType.nothing ValueType.nothing = true
same_type ValueType.never ValueType.never = true
same_type ValueType.any ValueType.any = true
same_type ValueType.ref ValueType.ref = true
same_type ValueType.fn ValueType.fn = true
same_type ValueType.tuple ValueType.tuple = true
same_type ValueType.range ValueType.range = true
same_type ValueType.null ValueType.null = true
same_type (ValueType.array a) (ValueType.array b) = same_type a b
same_type (ValueType.map a) (ValueType.map b) = same_type a b
same_type (ValueType.nullable a) (ValueType.nullable b) = same_type a b
same_type (ValueType.named a _) (ValueType.named b _) = text_eq a b
same_type _ _ = false

-- `ValueType::any_array` and `ValueType::any_map`
abbrev pub any_array : ValueType
any_array = ValueType.array ValueType.any

abbrev pub any_map : ValueType
any_map = ValueType.map ValueType.any

-- The type constructors of containers.
abbrev pub is_array_name : Text → Bool
is_array_name name = text_eq name (codes "Array") || text_eq name (codes "List")

-- `ValueType::from_parser_type`; a missing argument of a container is `Any`.
unfoldable mutual
  pub from_parser_type : Ty → ValueType
  from_parser_type Ty.int8 = ValueType.int
  from_parser_type Ty.int16 = ValueType.int
  from_parser_type Ty.int32 = ValueType.int
  from_parser_type Ty.int64 = ValueType.int
  from_parser_type Ty.uint8 = ValueType.int
  from_parser_type Ty.uint16 = ValueType.int
  from_parser_type Ty.uint32 = ValueType.int
  from_parser_type Ty.uint64 = ValueType.int
  from_parser_type Ty.float32 = ValueType.float
  from_parser_type Ty.float64 = ValueType.float
  from_parser_type Ty.bool = ValueType.bool
  from_parser_type Ty.char = ValueType.char
  from_parser_type Ty.string = ValueType.string
  from_parser_type Ty.nothing = ValueType.nothing
  from_parser_type Ty.never = ValueType.never
  from_parser_type Ty.any = ValueType.any
  from_parser_type Ty.infer = ValueType.any
  from_parser_type (Ty.named name) = ValueType.named name ValueTypes.nil
  from_parser_type (Ty.generic name args) =
      let element = first_argument args in
      let value = second_argument args in
      let converted = from_parser_types args in
      if is_array_name name
      then ValueType.array element
      else if text_eq name (codes "Map")
      then ValueType.map value
      else ValueType.named name converted
  from_parser_type (Ty.array inner) = ValueType.array (from_parser_type inner)
  from_parser_type (Ty.map _ v) = ValueType.map (from_parser_type v)
  from_parser_type (Ty.tuple _) = ValueType.tuple
  from_parser_type (Ty.mutable _) = ValueType.ref
  from_parser_type (Ty.ref _) = ValueType.ref
  from_parser_type (Ty.fn _ _) = ValueType.fn
  from_parser_type (Ty.nullable inner) = ValueType.nullable (from_parser_type inner)

  pub from_parser_types : Tys → ValueTypes
  from_parser_types Tys.nil = ValueTypes.nil
  from_parser_types (Tys.cons t ts) = ValueTypes.cons (from_parser_type t) (from_parser_types ts)

  pub first_argument : Tys → ValueType
  first_argument Tys.nil = ValueType.any
  first_argument (Tys.cons t _) = from_parser_type t

  pub second_argument : Tys → ValueType
  second_argument Tys.nil = ValueType.any
  second_argument (Tys.cons _ ts) = first_argument ts

-- `Display for ValueType`: the dispatch key.
unfoldable pub to_text : ValueType → Text
to_text ValueType.int = codes "Int64"
to_text ValueType.float = codes "Float64"
to_text ValueType.bool = codes "Bool"
to_text ValueType.char = codes "Char"
to_text ValueType.string = codes "String"
to_text ValueType.nothing = codes "Nothing"
to_text ValueType.never = codes "Never"
to_text ValueType.any = codes "Any"
to_text (ValueType.array _) = codes "Array"
to_text (ValueType.map _) = codes "Map"
to_text ValueType.ref = codes "Ref"
to_text ValueType.fn = codes "Fn"
to_text (ValueType.named name _) = name
to_text ValueType.tuple = codes "Tuple"
to_text ValueType.range = codes "Range"
to_text (ValueType.nullable inner) = to_text inner ++ codes "?"
to_text ValueType.null = codes "null"

-- `ValueType::display`
unfoldable pub display : ValueType → Text
unfolding to_text same_type
display (ValueType.array e) =
    let shown = display e in
    if not (same_type e ValueType.any) then codes "List<" ++ (shown ++ codes ">") else codes "Array"
display (ValueType.map v) =
    let shown = display v in
    if not (same_type v ValueType.any)
    then codes "Map<String, " ++ (shown ++ codes ">")
    else codes "Map"
display (ValueType.nullable inner) = display inner ++ codes "?"
display other = to_text other
