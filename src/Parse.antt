-- ===== src/Parse.antt =====
-- crates/tinox-parser/src/parser.rs: the state of `Parser` and the levels of binary operators.
pub mod Ladder
pub mod Operand
pub mod Grammar
pub mod Unread
pub mod Reading
pub mod Progress
pub mod Recovery
pub mod Finish
mod Examples
use tinox.Prelude.{
  ℕ, suc, ◌+◌, ltb, Bool, true, false, if◌then◌else◌, Option, none, some, List, [], ◌∷◌, get_elem?,
  drop, length,
}
use tinox.Diag.{Error, dummy_span}
use tinox.Lexer.Token.{TokenKind, Token}
use tinox.Ast.Expr.{Expr}

-- `Parser`
pub record Parser (F : Type 0) : Type 0 where
  pub tokens : List (Token F)
  pub pos : ℕ
  pub errors : List Error
  pub depth : ℕ

-- `Parser::new`
unfoldable pub parser_new : {F : Type 0} → List (Token F) → Parser F
parser_new ts = record { tokens = ts; pos = 0; errors = []; depth = 0 }

-- A `Result<Expr, Error>` and the parser's state behind the call. `stuck` says that the bound on a
-- loop's rounds was too small, which the source does not have.
pub data Parsed (F : Type 0) : Type 0 where
  ok : Expr F → Parser F → Parsed F
  err : Error → Parser F → Parsed F
  stuck : Parsed F

-- `Token::dummy(TokenKind::Eof)`
abbrev pub end_token : {F : Type 0} → Token F
end_token = record { kind = TokenKind.eof; span = dummy_span }

-- `Parser::peek`
unfoldable pub peek : {F : Type 0} → Parser F → Token F
peek s = elim (get_elem? s.tokens s.pos) [ some t ↦ t | none ↦ end_token ]

-- `Parser::bump`
unfoldable pub bump : {F : Type 0} → Parser F → Parser F
bump s = if ltb s.pos (length s.tokens) then record s { pos = s.pos + 1 } else s

-- The tokens that are not read yet.
abbrev pub unread : {F : Type 0} → Parser F → List (Token F)
unread s = drop s.pos s.tokens
