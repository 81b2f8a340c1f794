-- ===== src/Lexer/Next.antt =====
-- `read_ident_or_keyword`, `next_token` and `tokenize`.
use tinox.Prelude.{
  ℕ, zero, suc, ◌+◌, Bool, true, false, ◌&&◌, ◌||◌, ◌==◌, ltb, within, if◌then◌else◌, is_some_of,
  Option, none, some, List, [], ◌∷◌, ◌++◌, Text, codes, text_eq, length,
}
use tinox.Diag.{Error, error_at}
use tinox.Lexer.Keyword.{Keyword, lookup}
use tinox.Lexer.Token.{TokenKind, Token, is_trivia, is_eof}
use tinox.Lexer.Cursor.{
  Lexer, new, Outcome, ok, err, panic, out_of_fuel, M, ◌>>=◌, ◌>>◌, pure, get, bump, bumped, peek,
  peek_next, char_at, mk_pos, mk_span, new_line, token, slice, rounds, skip_while,
}
use tinox.Lexer.Operators.{
  read_operator, read_plus, read_minus, read_star, read_percent, read_equals, read_bang, read_less,
  read_greater, read_ampersand, read_bar, read_caret, read_dot, read_colon, read_question,
}
use tinox.Lexer.Comments.{read_line_comment, read_block_comment}
use tinox.Lexer.Quoted.{read_string, read_raw_string, read_char, read_byte_literal}
use tinox.Lexer.Numbers.{FloatParser, is_digit, read_number}

abbrev pub is_letter : ℕ → Bool
is_letter c = within b'a' b'z' c || within b'A' b'Z' c || c == b'_'

abbrev pub word_char : ℕ → Bool
word_char c = is_letter c || is_digit c

-- `self.start = self.pos; self.start_column = self.column`
abbrev pub mark : Lexer → Lexer
mark l = record l { start = l.pos; start_column = l.column }

module _ {F : Type 0} where
  -- The test of the keyword table.
  abbrev pub keyword_or_ident : Text → Option Keyword → TokenKind F
  keyword_or_ident text (some k) = TokenKind.keyword k
  keyword_or_ident text none = TokenKind.ident text

  -- The kind of a word: the tests at the end of `read_ident_or_keyword`.
  unfoldable pub word_kind : Text → TokenKind F
  unfolding lookup
  word_kind text =
      if text_eq text (codes "_")
      then TokenKind.underscore
      else if text_eq text (codes "true")
      then TokenKind.bool true
      else if text_eq text (codes "false")
      then TokenKind.bool false
      else keyword_or_ident text (lookup text)

  unfoldable pub read_ident_or_keyword : M (Token F)
  unfolding word_kind
  read_ident_or_keyword = do
    l ← get
    skip_while word_char (rounds l)
    e ← get
    text ← slice l.pos e.pos
    token (word_kind text)

  -- An arm of `next_token` that takes one character.
  abbrev pub single : TokenKind F → M (Token F)
  single k = bump >> token k

  -- The arm of a line feed.
  abbrev pub read_newline : M (Token F)
  read_newline = do bump; (λ l. (ok tt, new_line 1 l)); token TokenKind.newline

  -- The last arm: the span is that of the text before the character.
  abbrev pub unexpected : M (Token F)
  unexpected l =
      (err (error_at (mk_span l) (codes "unexpected character: " ++ peek l ∷ [])), bumped l)

  -- The arms of `next_token` from `'~'` on.
  unfoldable pub punctuation_arm : ℕ → M (Token F)
  punctuation_arm ch =
      if ch == b'~'
      then single TokenKind.tilde
      else if ch == b'\\'
      then single TokenKind.backslash
      else if ch == b'.'
      then read_dot
      else if ch == b':'
      then read_colon
      else if ch == b';'
      then single TokenKind.semicolon
      else if ch == b','
      then single TokenKind.comma
      else if ch == b'@'
      then single TokenKind.at_
      else if ch == b'?'
      then read_question
      else if ch == b'('
      then single TokenKind.l_paren
      else if ch == b')'
      then single TokenKind.r_paren
      else if ch == b'{'
      then single TokenKind.l_brace
      else if ch == b'}'
      then single TokenKind.r_brace
      else if ch == b'['
      then single TokenKind.l_bracket
      else if ch == b']'
      then single TokenKind.r_bracket
      else unexpected

  -- The arms of `next_token` from `'+'` on.
  unfoldable pub operator_arm : ℕ → M (Token F)
  unfolding punctuation_arm
  operator_arm ch =
      if ch == b'+'
      then read_plus
      else if ch == b'-'
      then read_minus
      else if ch == b'*'
      then read_star
      else if ch == b'%'
      then read_percent
      else if ch == b'='
      then read_equals
      else if ch == b'!'
      then read_bang
      else if ch == b'<'
      then read_less
      else if ch == b'>'
      then read_greater
      else if ch == b'&'
      then read_ampersand
      else if ch == b'|'
      then read_bar
      else if ch == b'^'
      then read_caret
      else punctuation_arm ch

  -- The arm of a slash.
  unfoldable pub read_slash : M (Token F)
  read_slash l =
      (if peek_next l == b'/'
          then read_line_comment
          else if peek_next l == b'*'
          then read_block_comment
          else read_operator)
        l

  -- The arm of `'r'`: a raw string, or a word.
  unfoldable pub read_r : M (Token F)
  read_r l =
      (if peek_next l == b'"' || (peek_next l == b'#' && is_some_of (char_at 2 l) b'"')
          then read_raw_string
          else read_ident_or_keyword)
        l

  -- The arm of the other letters: a byte literal behind its `b`, or a word.
  unfoldable pub read_word : M (Token F)
  read_word l =
      (if peek l == b'b' && peek_next l == b'\''
          then (bump >> read_byte_literal)
          else read_ident_or_keyword)
        l

  -- The whole `match` of `next_token`, on the character at the cursor.
  unfoldable pub token_arm : FloatParser F → ℕ → M (Token F)
  unfolding operator_arm read_slash read_r read_word
  token_arm floats ch =
      if ch == b'\n'
      then read_newline
      else if ch == b' ' || ch == b'\t' || ch == b'\r'
      then single TokenKind.whitespace
      else if ch == b'/'
      then read_slash
      else if ch == b'"'
      then read_string
      else if ch == b'r'
      then read_r
      else if ch == b'\''
      then read_char
      else if is_digit ch
      then read_number floats
      else if is_letter ch
      then read_word
      else operator_arm ch

  -- The token at the end of the input.
  abbrev pub eof_token : Lexer → Token F
  eof_token l = record { kind = TokenKind.eof; span = record { start = mk_pos l; end = mk_pos l } }

  unfoldable pub next_token : FloatParser F → M (Token F)
  unfolding token_arm
  next_token floats l =
      if ltb l.pos (length l.chars)
      then token_arm floats (peek (mark l)) (mark l)
      else (ok (eof_token (mark l)), mark l)

  -- What one round of `tokenize` does with the answer of `next_token`; `again` is the rest of the
  -- loop. Behind an error one more character is skipped.
  unfoldable pub on_token :
      {R : Type 0}
      → Outcome (Token F) × Lexer
      → List (Token F)
      → List Error
      → (List (Token F) → List Error → M R)
      → (List (Token F) → List Error → M R)
      → Outcome R × Lexer
  on_token (ok t, l) tokens errors again done =
      if is_eof t.kind
      then done (tokens ++ t ∷ []) errors l
      else if is_trivia t.kind
      then again tokens errors l
      else again (tokens ++ t ∷ []) errors l
  on_token (err e, l) tokens errors again done =
      again tokens (errors ++ e ∷ []) (record l { pos = l.pos + 1 })
  on_token (panic, l) tokens errors again done = (panic, l)
  on_token (out_of_fuel, l) tokens errors again done = (out_of_fuel, l)

  -- The loop of `tokenize`.
  unfoldable pub token_loop :
      FloatParser F → ℕ → List (Token F) → List Error → M (List (Token F) × List Error)
  unfolding on_token
  token_loop floats zero tokens errors l = (out_of_fuel, l)
  token_loop floats (suc fuel) tokens errors l =
      on_token (next_token floats l) tokens errors (token_loop floats fuel) (λ ts es. pure (ts, es))

-- `Result<Vec<Token>, Vec<Error>>`
pub data Lexed (F : Type 0) : Type 0 where
  tokens : List (Token F) → Lexed F
  errors : List Error → Lexed F

-- `if errors.is_empty() { Ok(tokens) } else { Err(errors) }`
abbrev pub lexed : {F : Type 0} → List (Token F) × List Error → Lexed F
lexed (ts, []) = Lexed.tokens ts
lexed (ts, e ∷ es) = Lexed.errors (e ∷ es)

module _ {F : Type 0} where
  unfoldable pub tokenize : FloatParser F → M (Lexed F)
  unfolding token_loop
  tokenize floats l = (do r ← token_loop floats (suc (rounds l)) [] []; pure (lexed r)) l

  -- `Lexer::new(input).tokenize()`
  unfoldable pub lex : FloatParser F → Text → Outcome (Lexed F)
  unfolding tokenize
  lex floats input = (tokenize floats (new input)).0
