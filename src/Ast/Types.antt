-- ===== src/Ast/Types.antt =====
-- crates/tinox-parser/src/ast.rs: types, literals, patterns, operators and annotations. The payload
-- of a float literal is the parameter `F`.
use tinox.Prelude.{ℕ, Bool, List, Text, codes}
use tinox.Diag.{Span}

abbrev pub Ident : Type 0
Ident = Text

-- `Type`
mutual
  pub data Ty : Type 0 where
    int8 int16 int32 int64 uint8 uint16 uint32 uint64 float32 float64 : Ty
    bool char string nothing never any infer : Ty
    named : Ident → Ty
    generic : Ident → Tys → Ty
    array : Ty → Ty
    map : Ty → Ty → Ty
    mutable : Ty → Ty
    ref : Ty → Ty
    fn : Tys → Ty → Ty
    tuple : Tys → Ty
    nullable : Ty → Ty

  pub data Tys : Type 0 where
    nil : Tys
    cons : Ty → Tys → Tys

-- `Type::unit`
abbrev pub unit : Ty
unit = Ty.nothing

pub record Field : Type 0 where
  pub name : Ident
  pub field_type : Ty
  pub span : Span

pub data Literal (F : Type 0) : Type 0 where
  integer : ℕ → Literal F
  float : F → Literal F
  string : Text → Literal F
  char : ℕ → Literal F
  byte : ℕ → Literal F
  bool : Bool → Literal F
  null : Literal F

-- `Literal::ty`
unfoldable pub literal_ty : {F : Type 0} → Literal F → Ty
literal_ty (Literal.integer _) = Ty.int64
literal_ty (Literal.float _) = Ty.float64
literal_ty (Literal.string _) = Ty.string
literal_ty (Literal.char _) = Ty.char
literal_ty (Literal.byte _) = Ty.uint8
literal_ty (Literal.bool _) = Ty.bool
literal_ty Literal.null = Ty.named (codes "Null")

mutual
  pub data Pattern (F : Type 0) : Type 0 where
    wildcard : Span → Pattern F
    ident : Ident → OptPattern F → Span → Pattern F
    literal : Literal F → Span → Pattern F
    tuple : Patterns F → Span → Pattern F
    enum_variant : Ident → Ident → Patterns F → Span → Pattern F

  pub data OptPattern (F : Type 0) : Type 0 where
    absent : OptPattern F
    present : Pattern F → OptPattern F

  pub data Patterns (F : Type 0) : Type 0 where
    nil : Patterns F
    cons : Pattern F → Patterns F → Patterns F

pub data BinaryOp : Type 0 where
  add sub mul div mod_ and or bit_and bit_or xor shl shr shr_arith eq ne lt le gt ge : BinaryOp

pub data CompoundOp : Type 0 where
  add sub mul div mod_ bit_and bit_or bit_xor shl shr shr_arith : CompoundOp

pub data UnaryOp : Type 0 where
  neg not bit_not : UnaryOp

mutual
  pub data AnnotationArg (F : Type 0) : Type 0 where
    literal : Literal F → AnnotationArg F
    enum_value : Text → Text → AnnotationArg F
    array : AnnotationArgs F → AnnotationArg F

  pub data AnnotationArgs (F : Type 0) : Type 0 where
    nil : AnnotationArgs F
    cons : AnnotationArg F → AnnotationArgs F → AnnotationArgs F

pub record Annotation (F : Type 0) : Type 0 where
  pub name : Ident
  pub args : AnnotationArgs F
  pub span : Span

pub record Param (F : Type 0) : Type 0 where
  pub name : Ident
  pub param_type : Ty
  pub span : Span
  pub annotations : List (Annotation F)
