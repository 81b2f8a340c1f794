-- ===== src/Lexer/Quoted.antt =====
-- String, raw string, character and byte literals: `read_string`, `read_raw_string`, `read_char`,
-- `read_byte_literal`.
use tinox.Prelude.{
  ℕ, zero, suc, ◌+◌, ◌%◌, Bool, true, false, not, ◌&&◌, ◌==◌, ltb, if◌then◌else◌, is_some_of, List,
  [], ◌∷◌, ◌++◌, Text, codes, length, get_elem?,
}
use tinox.Lexer.Token.{InterpPart, TokenKind, Token}
use tinox.Lexer.Cursor.{
  Lexer, M, out_of_fuel, ◌>>=◌, ◌>>◌, pure, get, bump, bumped, peek, char_at, new_line, token, fail,
  slice, rounds, wrap32, ok,
}
use tinox.Lexer.Escapes.{read_escape}

-- `depth` behind the character `c` of an interpolated expression.
abbrev pub brace_depth : ℕ → ℕ → ℕ
brace_depth c depth = if c == b'{' then suc depth else depth

-- The inner loop of `read_string`: the source of an expression up to its closing brace, which is
-- consumed, or up to the end of the input. The loop runs with `suc depth` braces open.
unfoldable pub read_expr : ℕ → ℕ → Text → M Text
read_expr zero depth src l = (out_of_fuel, l)
read_expr (suc fuel) depth src l = elim (ltb l.pos (length l.chars)) [
  | false ↦ pure src l
  | true ↦ elim (peek l == b'}') [
    | true ↦ elim depth [
      | zero ↦ pure src (bumped l)
      | suc d ↦ read_expr fuel d (src ++ peek l ∷ []) (bumped l)
    ]
    | false ↦ read_expr fuel (brace_depth (peek l) depth) (src ++ peek l ∷ []) (bumped l)
  ]
]

-- The variables of `read_string`'s loop.
pub record Pieces : Type 0 where
  pub current_str : Text
  pub parts : List InterpPart
  pub has_interp : Bool

abbrev pub no_pieces : Pieces
no_pieces = record { current_str = []; parts = []; has_interp = false }

abbrev pub push_char : Pieces → ℕ → Pieces
push_char p c = record p { current_str = p.current_str ++ c ∷ [] }

abbrev pub push_expr : Pieces → Text → Pieces
push_expr p src = record {
  current_str = [];
  parts = p.parts ++ InterpPart.str p.current_str ∷ InterpPart.expr src ∷ [];
  has_interp = true;
}

-- `${`: an interpolated expression, from its dollar sign.
abbrev pub read_interp : Pieces → M Pieces
read_interp p = do bump; bump; l ← get; src ← read_expr (rounds l) 0 []; pure (push_expr p src)

-- An escape in a string, from its backslash.
abbrev pub read_string_escape : Pieces → M Pieces
read_string_escape p = do
  bump
  l ← get
  (if ltb l.pos (length l.chars) then pure tt else fail (codes "unterminated escape sequence"))
  c ← read_escape
  pure (push_char p c)

-- One round of the loop, on a character that is no closing quote.
unfoldable pub string_round : Pieces → M Pieces
unfolding read_expr read_escape
string_round p l =
    (if peek l == b'\n'
        then fail (codes "unterminated string literal")
        else if peek l == b'$' && ltb (suc l.pos) (length l.chars) && is_some_of (char_at 1 l) b'{'
        then read_interp p
        else if peek l == b'\\'
        then read_string_escape p
        else (bump >> pure (push_char p (peek l))))
      l

unfoldable pub string_loop : ℕ → Pieces → M Pieces
unfolding string_round
string_loop zero p l = (out_of_fuel, l)
string_loop (suc fuel) p l = elim (ltb l.pos (length l.chars) && not (peek l == b'"')) [
  | true ↦ (string_round p >>= string_loop fuel) l
  | false ↦ pure p l
]

-- `while h < hashes && check_pos < len && chars[check_pos] == '#'`: the hashes found from position
-- `at_pos` on, of the `left` that are still wanted.
unfoldable pub count_hashes : ℕ → List ℕ → ℕ → ℕ
count_hashes zero cs at_pos = 0
count_hashes (suc left) cs at_pos = elim (is_some_of (get_elem? cs at_pos) b'#') [
  | true ↦ suc (count_hashes left cs (suc at_pos))
  | false ↦ 0
]

-- `while self.peek() == '#' { self.bump(); hashes += 1 }`
unfoldable pub open_hashes : ℕ → ℕ → M ℕ
open_hashes zero hashes l = (out_of_fuel, l)
open_hashes (suc fuel) hashes l = elim (peek l == b'#') [
  | true ↦ open_hashes fuel (suc hashes) (bumped l)
  | false ↦ pure hashes l
]

-- The closing delimiter stands at the cursor: a quote with `hashes` hashes behind it.
abbrev pub closes : ℕ → Lexer → Bool
closes hashes l = peek l == b'"' && count_hashes hashes l.chars (suc l.pos) == hashes

-- The lexer behind the closing delimiter.
abbrev pub past_close : ℕ → Lexer → Lexer
past_close hashes l = record l { pos = suc l.pos + hashes; column = wrap32 (l.column + hashes + 1) }

-- One character of the body.
unfoldable pub raw_char : Lexer → Lexer
raw_char l = bumped (if peek l == b'\n' then new_line 0 l else l)

module _ {F : Type 0} where
  -- The loop of `read_raw_string`; `body` is where the text starts.
  unfoldable pub raw_loop : ℕ → ℕ → ℕ → M (Token F)
  unfolding count_hashes raw_char
  raw_loop zero hashes body l = (out_of_fuel, l)
  raw_loop (suc fuel) hashes body l = elim (ltb l.pos (length l.chars)) [
    | false ↦ fail (codes "unterminated raw string literal") l
    | true ↦ elim (closes hashes l) [
      | true ↦
          (do
            text ← slice body l.pos
            (λ e. (ok tt, past_close hashes e))
            token (TokenKind.raw_string text))
            l
      | false ↦ raw_loop fuel hashes body (raw_char l)
    ]
  ]

  unfoldable pub read_raw_string : M (Token F)
  unfolding open_hashes raw_loop
  read_raw_string = do
    l ← get
    (if peek l == b'r' then bump else pure tt)
    hashes ← open_hashes (rounds l) 0
    q ← get
    (if peek q == b'"' then pure tt else fail (codes "expected opening \" for raw string"))
    bump
    s ← get
    raw_loop (rounds s) hashes s.pos

  -- The token of a string, once its pieces are read.
  abbrev pub string_token : Pieces → TokenKind F
  string_token p =
      if p.has_interp
      then TokenKind.interp_string (p.parts ++ InterpPart.str p.current_str ∷ [])
      else TokenKind.string p.current_str

  unfoldable pub read_string : M (Token F)
  unfolding string_loop
  read_string = do
    bump
    l ← get
    p ← string_loop (rounds l) no_pieces
    e ← get
    (if ltb e.pos (length e.chars) then pure tt else fail (codes "unterminated string literal"))
    bump
    token (string_token p)

  unfoldable pub read_char : M (Token F)
  unfolding read_escape
  read_char = do
    bump
    l ← get
    c ←
        (if peek l == b'\\'
          then (bump >> read_escape)
          else if peek l == b'\''
          then fail (codes "empty character literal")
          else (bump >> pure (peek l)))
    e ← get
    (if peek e == b'\'' then bump else fail (codes "unterminated char literal"))
    token (TokenKind.char c)

  unfoldable pub read_byte_literal : M (Token F)
  unfolding read_escape
  read_byte_literal = do
    bump
    l ← get
    c ←
        (if peek l == b'\\'
          then (do bump; escaped ← read_escape; pure (escaped % 256))
          else if peek l == b'\''
          then fail (codes "empty byte literal")
          else if ltb 127 (peek l)
          then fail (codes "byte literal must be in range 0-127")
          else (bump >> pure (peek l)))
    e ← get
    (if peek e == b'\'' then bump else fail (codes "unterminated byte literal"))
    token (TokenKind.byte c)
