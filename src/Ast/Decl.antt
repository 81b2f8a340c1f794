-- ===== src/Ast/Decl.antt =====
-- crates/tinox-parser/src/ast.rs: declarations and source files. `Spanned<DeclKind>` is `Decl`.
use tinox.Prelude.{ℕ, Bool, List, Option, Text}
use tinox.Diag.{Span, dummy_span}
use tinox.Ast.Types.{Ident, Ty, Annotation, Param}
use tinox.Ast.Expr.{Stmt}

pub data Visibility : Type 0 where
  public private protected package_ : Visibility

pub record Function (F : Type 0) : Type 0 where
  pub name : Ident
  pub type_params : List Text
  pub params : List (Param F)
  pub ret_type : Ty
  pub body : Stmt F
  pub span : Span
  pub is_async : Bool
  pub doc : Option Text
  pub annotations : List (Annotation F)
  pub file : Text

pub record Method (F : Type 0) : Type 0 where
  pub name : Ident
  pub type_params : List Text
  pub params : List (Param F)
  pub ret_type : Ty
  pub body : Stmt F
  pub is_static : Bool
  pub visibility : Visibility
  pub span : Span
  pub is_async : Bool
  pub doc : Option Text
  pub annotations : List (Annotation F)
  pub file : Text

pub record FieldDef (F : Type 0) : Type 0 where
  pub name : Ident
  pub field_type : Ty
  pub visibility : Visibility
  pub is_mutable : Bool
  pub span : Span
  pub doc : Option Text
  pub annotations : List (Annotation F)

pub record Class (F : Type 0) : Type 0 where
  pub name : Ident
  pub type_params : List Text
  pub extends : Option Ident
  pub implements : List Ident
  pub fields : List (FieldDef F)
  pub methods : List (Method F)
  pub span : Span
  pub doc : Option Text
  pub annotations : List (Annotation F)

pub record Interface (F : Type 0) : Type 0 where
  pub name : Ident
  pub extends : List Ident
  pub methods : List (Function F)
  pub span : Span
  pub doc : Option Text
  pub annotations : List (Annotation F)

pub record EnumVariant : Type 0 where
  pub name : Ident
  pub args : List Ty
  pub span : Span
  pub doc : Option Text

pub record Enum (F : Type 0) : Type 0 where
  pub name : Ident
  pub variants : List EnumVariant
  pub span : Span
  pub doc : Option Text
  pub annotations : List (Annotation F)

pub record Trait (F : Type 0) : Type 0 where
  pub name : Ident
  pub methods : List (Function F)
  pub span : Span
  pub doc : Option Text
  pub annotations : List (Annotation F)

pub record ImmutableDecl (F : Type 0) : Type 0 where
  pub name : Ident
  pub fields : List (Param F)
  pub span : Span
  pub doc : Option Text
  pub annotations : List (Annotation F)

pub record Import : Type 0 where
  pub path : List Ident
  pub alias : Option Ident
  pub span : Span

mutual
  pub data DeclKind (F : Type 0) : Type 0 where
    function : Function F → DeclKind F
    class : Class F → DeclKind F
    interface : Interface F → DeclKind F
    enum : Enum F → DeclKind F
    trait : Trait F → DeclKind F
    import : Import → DeclKind F
    module_ : Ident → DeclKind F
    -- `Namespace`: name, declarations, span and annotations.
    namespace : List Ident → Decls F → Span → List (Annotation F) → DeclKind F
    immutable : ImmutableDecl F → DeclKind F

  pub data Decl (F : Type 0) : Type 0 where
    decl : DeclKind F → Span → ℕ → Decl F

  pub data Decls (F : Type 0) : Type 0 where
    no_decls : Decls F
    more_decls : Decl F → Decls F → Decls F

pub record SourceFile (F : Type 0) : Type 0 where
  pub decls : Decls F
  pub span : Span

-- `SourceFile::new`
unfoldable pub source_file : {F : Type 0} → Decls F → SourceFile F
unfolding dummy_span
source_file decls = record { decls = decls; span = dummy_span }
