-- ===== src/Parse/Operand.antt =====
-- crates/tinox-parser/src/parser.rs: where an operand goes on, by the tests of `parse_postfix_expr` and
-- `parse_as_expr`.
use tinox.Prelude.{
  ℕ, zero, suc, ◌+◌, ◌-◌, Bool, true, false, ◌&&◌, ◌||◌, Option, none, some, List, [], ◌∷◌,
}
use tinox.Lexer.Keyword.{Keyword}
use tinox.Lexer.Token.{TokenKind, Token}
use tinox.Parse.{Parser, unread}

module _ {F : Type 0} where
  abbrev pub is_less : TokenKind F → Bool
  is_less TokenKind.less = true
  is_less _ = false

  abbrev pub is_ident : TokenKind F → Bool
  is_ident (TokenKind.ident _) = true
  is_ident _ = false

  -- `depth` behind a token. The scan ends where it is not positive, so that 0 stands for what is less.
  abbrev pub depth_after : TokenKind F → ℕ → ℕ
  depth_after TokenKind.less depth = depth + 1
  depth_after TokenKind.greater depth = depth - 1
  depth_after TokenKind.greater_greater depth = depth - 2
  depth_after _ depth = depth

  -- The loop `while depth > 0`: the tokens behind the one that closes the brackets.
  abbrev pub close_angles : List (Token F) → ℕ → Option (List (Token F))
  close_angles [] zero = some []
  close_angles [] (suc depth) = none
  close_angles (t ∷ ts) zero = some (t ∷ ts)
  close_angles (t ∷ ts) (suc depth) = close_angles ts (depth_after t.kind (suc depth))

  abbrev pub starts_colon_colon : Option (List (Token F)) → Bool
  starts_colon_colon (some (t ∷ _)) = elim t.kind [ TokenKind.colon_colon ↦ true | _ ↦ false ]
  starts_colon_colon _ = false

  abbrev pub static_call_at : List (Token F) → Bool
  static_call_at (a ∷ b ∷ ts) =
      is_less a.kind && is_ident b.kind && starts_colon_colon (close_angles ts 1)
  static_call_at _ = false

  -- `Parser::is_generic_type_static_call`
  unfoldable pub is_generic_type_static_call : Parser F → Bool
  is_generic_type_static_call s = static_call_at (unread s)

  -- A token that takes the loop of `parse_postfix_expr` or of `parse_as_expr` on by itself.
  abbrev pub goes_on : TokenKind F → Bool
  goes_on TokenKind.dot = true
  goes_on TokenKind.colon_colon = true
  goes_on TokenKind.l_bracket = true
  goes_on TokenKind.dot_dot = true
  goes_on TokenKind.dot_dot_dot = true
  goes_on TokenKind.l_paren = true
  goes_on (TokenKind.keyword Keyword.as_) = true
  goes_on _ = false

  abbrev pub head_goes_on : List (Token F) → Bool
  head_goes_on [] = false
  head_goes_on (t ∷ _) = goes_on t.kind

  -- The operand goes on with the tokens.
  abbrev pub operand_goes_on : List (Token F) → Bool
  operand_goes_on ts = head_goes_on ts || static_call_at ts
