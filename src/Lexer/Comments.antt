-- ===== src/Lexer/Comments.antt =====
-- `read_line_comment` and `read_block_comment`.
use tinox.Prelude.{ℕ, zero, suc, Bool, true, false, not, ◌&&◌, ◌==◌, ltb, if◌then◌else◌, length}
use tinox.Lexer.Token.{TokenKind, Token}
use tinox.Lexer.Cursor.{
  Lexer, M, out_of_fuel, ◌>>=◌, ◌>>◌, pure, get, bump, bumped, peek, peek_next, new_line, token,
  slice, rounds,
}

-- `while self.pos < self.chars.len() && self.peek() != '\n' { self.bump() }`
unfoldable pub skip_line : ℕ → M (Unit {0})
skip_line zero l = (out_of_fuel, l)
skip_line (suc fuel) l = elim (ltb l.pos (length l.chars) && not (peek l == b'\n')) [
  | true ↦ skip_line fuel (bumped l)
  | false ↦ pure tt l
]

-- What one round of the block comment's loop does to the lexer where no `*/` stands.
unfoldable pub comment_char : Lexer → Lexer
comment_char l = bumped (if peek l == b'\n' then new_line 0 l else l)

-- The loop of `read_block_comment`: it stops at the first `*/` or at the end of the input.
unfoldable pub skip_block : ℕ → M (Unit {0})
unfolding comment_char
skip_block zero l = (out_of_fuel, l)
skip_block (suc fuel) l = elim (ltb l.pos (length l.chars)) [
  | true ↦ elim (peek l == b'*' && peek_next l == b'/') [
    | true ↦ pure tt l
    | false ↦ skip_block fuel (comment_char l)
  ]
  | false ↦ pure tt l
]

module _ {F : Type 0} where
  unfoldable pub read_line_comment : M (Token F)
  unfolding skip_line
  read_line_comment = do
    bump
    bump
    l ← get
    skip_line (rounds l)
    e ← get
    text ← slice l.pos e.pos
    token (TokenKind.comment text)

  -- The token of a comment's text: `is_doc` is the third character's test.
  abbrev pub comment_token : Bool → M (Token F)
  comment_token is_doc = do
    l ← get
    skip_block (rounds l)
    e ← get
    (if ltb e.pos (length e.chars) then (bump >> bump) else pure tt)
    text ← slice l.pos e.pos
    token (if is_doc then TokenKind.doc_comment text else TokenKind.comment text)

  unfoldable pub read_block_comment : M (Token F)
  unfolding skip_block
  read_block_comment = do
    bump
    bump
    l ← get
    (if peek l == b'*' then (bump >> comment_token true) else comment_token false)
