-- ===== src/Parse/Recovery.antt =====
-- crates/tinox-parser/src/parser.rs: `Parser::parse` and its recovery from errors, `synchronize`.
use tinox.Prelude.{
  ℕ, zero, suc, leb, ltb, Bool, ◌||◌, if◌then◌else◌, Option, none, some, List, [], ◌∷◌, ◌++◌,
  length,
}
use tinox.Diag.{Error, ErrorBag}
use tinox.Lexer.Keyword.{Keyword}
use tinox.Lexer.Token.{TokenKind, is_eof}
use tinox.Ast.Decl.{Decl, Decls, SourceFile, source_file}
use tinox.Parse.{Parser, peek, bump, unread}

-- `Parser::is_at_end`
unfoldable pub is_at_end : {F : Type 0} → Parser F → Bool
unfolding peek
is_at_end s = leb (length s.tokens) s.pos || is_eof (peek s).kind

-- What `synchronize` does at a token.
pub data Recovery : Type 0 where
  past_semicolon at_item skip : Recovery

abbrev pub recovery_of : {F : Type 0} → TokenKind F → Recovery
recovery_of TokenKind.semicolon = Recovery.past_semicolon
recovery_of (TokenKind.keyword Keyword.fn) = Recovery.at_item
recovery_of (TokenKind.keyword Keyword.fnc) = Recovery.at_item
recovery_of (TokenKind.keyword Keyword.class) = Recovery.at_item
recovery_of (TokenKind.keyword Keyword.interface) = Recovery.at_item
recovery_of (TokenKind.keyword Keyword.enum) = Recovery.at_item
recovery_of (TokenKind.keyword Keyword.trait) = Recovery.at_item
recovery_of (TokenKind.keyword Keyword.namespace) = Recovery.at_item
recovery_of (TokenKind.keyword Keyword.if_) = Recovery.at_item
recovery_of (TokenKind.keyword Keyword.while) = Recovery.at_item
recovery_of (TokenKind.keyword Keyword.for) = Recovery.at_item
recovery_of (TokenKind.keyword Keyword.loop) = Recovery.at_item
recovery_of (TokenKind.keyword Keyword.return) = Recovery.at_item
recovery_of _ = Recovery.skip

-- The loop of `synchronize`; `rounds` bounds it, and `none` says that the bound was too small.
unfoldable pub sync_loop : {F : Type 0} → ℕ → ℕ → Parser F → Option (Parser F)
unfolding is_at_end bump
sync_loop zero start s = none
sync_loop (suc rounds) start s =
    let again = sync_loop rounds start (bump s) in
    if is_at_end s then some s else elim (recovery_of (peek s).kind) [
      | Recovery.past_semicolon ↦ some (bump s)
      | Recovery.at_item ↦ if ltb start s.pos then some s else again
      | Recovery.skip ↦ again
    ]

-- `Parser::synchronize`
unfoldable pub synchronize : {F : Type 0} → Parser F → Option (Parser F)
unfolding sync_loop
synchronize s = sync_loop (suc (length (unread s))) s.pos s

-- The result of `parse_decl`, with the parser behind it.
pub data ParsedDecl (F : Type 0) : Type 0 where
  ok : Decl F → Parser F → ParsedDecl F
  err : Error → Parser F → ParsedDecl F

-- The result of `parse`; `stuck` says that the bound on a loop's rounds was too small.
pub data ParsedFile (F : Type 0) : Type 0 where
  file : SourceFile F → ParsedFile F
  failed : ErrorBag → ParsedFile F
  stuck : ParsedFile F

-- `SourceFile::new(decls)` of the list that `parse` has pushed to.
abbrev pub decls_of : {F : Type 0} → List (Decl F) → Decls F
decls_of [] = Decls.no_decls
decls_of (d ∷ ds) = Decls.more_decls d (decls_of ds)

unfoldable pub finish : {F : Type 0} → List (Decl F) → List Error → ParsedFile F
unfolding source_file
finish decls [] = ParsedFile.file (source_file (decls_of decls))
finish decls (e ∷ es) = ParsedFile.failed (record { errors = e ∷ es })

-- The loop of `parse`; `parse_decl` is an argument, and `rounds` bounds the loop.
unfoldable pub parse_loop :
    {F : Type 0} → (Parser F → ParsedDecl F) → ℕ → List (Decl F) → Parser F → ParsedFile F
unfolding is_at_end synchronize finish
parse_loop parse_decl zero decls s = ParsedFile.stuck
parse_loop parse_decl (suc rounds) decls s =
    if is_at_end s then finish decls s.errors else elim (parse_decl s) [
      | ParsedDecl.ok d s' ↦ parse_loop parse_decl rounds (decls ++ d ∷ []) s'
      | ParsedDecl.err e s' ↦ elim (synchronize (record s' { errors = s'.errors ++ e ∷ [] })) [
        | some s'' ↦ parse_loop parse_decl rounds decls s''
        | none ↦ ParsedFile.stuck
      ]
    ]

-- `Parser::parse`
unfoldable pub parse : {F : Type 0} → (Parser F → ParsedDecl F) → Parser F → ParsedFile F
unfolding parse_loop
parse parse_decl s = parse_loop parse_decl (suc (length (unread s))) [] s
