-- ===== src/Parse/Progress.antt =====
-- crates/tinox-parser/src/parser.rs: the loops of the levels end, and do not read backwards.
use tinox.Prelude.{ℕ, ◌≤◌, Option, none, length, ◌≡◌}
use tinox.Lexer.Token.{TokenKind, Token}
use tinox.Ast.Types.{BinaryOp}
use tinox.Ast.Expr.{Expr}
use tinox.Parse.{Parser, Parsed, unread}
use tinox.Parse.Ladder.{level_loop}

-- A call that was made with `n` tokens unread has returned, and has not un-read a token.
abbrev pub Settles : {F : Type 0} → ℕ → Parsed F → Type 0
Settles n (Parsed.ok e s) = length (unread s) ≤ n
Settles n (Parsed.err e s) = Unit
Settles n Parsed.stuck = ⊥

abbrev pub Steady : {F : Type 0} → (Parser F → Parsed F) → Type 0
Steady p = (s : Parser _) → Settles (length (unread s)) (p s)

module _ {F : Type 0} (ops : TokenKind F → Option BinaryOp) (next : Parser F → Parsed F)
    (at_end : ops TokenKind.eof ≡ none) (steady : Steady next) where
  abbrev Ends : ℕ → Parser F → Expr F → Type 0
  Ends k s lhs = Settles (length (unread s)) (level_loop ops next k lhs s)
