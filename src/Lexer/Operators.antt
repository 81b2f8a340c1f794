-- ===== src/Lexer/Operators.antt =====
-- The operator readers `read_operator` and `read_plus` to `read_question`: each is called at its first
-- character.
use tinox.Prelude.{◌==◌, if◌then◌else◌}
use tinox.Lexer.Token.{TokenKind, Token}
use tinox.Lexer.Cursor.{M, ◌>>=◌, ◌>>◌, get, bump, peek, token}

module _ {F : Type 0} where
  unfoldable pub read_operator : M (Token F)
  read_operator = do
    bump
    l ← get
    if peek l == b'=' then (bump >> token TokenKind.slash_equals) else token TokenKind.slash

  unfoldable pub read_plus : M (Token F)
  read_plus = do
    bump
    l ← get
    if peek l == b'+'
        then (bump >> token TokenKind.plus_plus)
        else if peek l == b'='
        then (bump >> token TokenKind.plus_equals)
        else token TokenKind.plus

  unfoldable pub read_minus : M (Token F)
  read_minus = do
    bump
    l ← get
    if peek l == b'-'
        then (bump >> token TokenKind.minus_minus)
        else if peek l == b'='
        then (bump >> token TokenKind.minus_equals)
        else if peek l == b'>'
        then (bump >> token TokenKind.thin_arrow)
        else token TokenKind.minus

  unfoldable pub read_star : M (Token F)
  read_star = do
    bump
    l ← get
    if peek l == b'=' then (bump >> token TokenKind.star_equals) else token TokenKind.star

  unfoldable pub read_percent : M (Token F)
  read_percent = do
    bump
    l ← get
    if peek l == b'=' then (bump >> token TokenKind.percent_equals) else token TokenKind.percent

  unfoldable pub read_equals : M (Token F)
  read_equals = do
    bump
    l ← get
    if peek l == b'='
        then (bump >> token TokenKind.equals_equals)
        else if peek l == b'>'
        then (bump >> token TokenKind.fat_arrow)
        else token TokenKind.equals

  unfoldable pub read_bang : M (Token F)
  read_bang = do
    bump
    l ← get
    if peek l == b'='
        then (bump >> token TokenKind.bang_equals)
        else if peek l == b'?'
        then (bump >> token TokenKind.question_question)
        else token TokenKind.bang

  -- the inner test of `read_less`, behind the first `<`
  unfoldable pub read_shift_left : M (Token F)
  read_shift_left = do
    bump
    l ← get
    if peek l == b'=' then (bump >> token TokenKind.less_less_equals) else token TokenKind.less_less

  unfoldable pub read_less : M (Token F)
  unfolding read_shift_left
  read_less = do
    bump
    l ← get
    if peek l == b'='
        then (bump >> token TokenKind.less_equals)
        else if peek l == b'<'
        then (read_shift_left)
        else token TokenKind.less

  -- the innermost test of `read_greater`
  unfoldable pub read_shift_right_zero : M (Token F)
  read_shift_right_zero = do
    bump
    l ← get
    if peek l == b'='
        then (bump >> token TokenKind.greater_greater_greater_equals)
        else token TokenKind.greater_greater_greater

  -- the inner test of `read_greater`
  unfoldable pub read_shift_right : M (Token F)
  unfolding read_shift_right_zero
  read_shift_right = do
    bump
    l ← get
    if peek l == b'>'
        then (read_shift_right_zero)
        else if peek l == b'='
        then (bump >> token TokenKind.greater_greater_equals)
        else token TokenKind.greater_greater

  unfoldable pub read_greater : M (Token F)
  unfolding read_shift_right
  read_greater = do
    bump
    l ← get
    if peek l == b'='
        then (bump >> token TokenKind.greater_equals)
        else if peek l == b'>'
        then (read_shift_right)
        else token TokenKind.greater

  unfoldable pub read_ampersand : M (Token F)
  read_ampersand = do
    bump
    l ← get
    if peek l == b'&'
        then (bump >> token TokenKind.amp_amp)
        else if peek l == b'='
        then (bump >> token TokenKind.ampersand_equals)
        else token TokenKind.ampersand

  unfoldable pub read_bar : M (Token F)
  read_bar = do
    bump
    l ← get
    if peek l == b'|'
        then (bump >> token TokenKind.bar_bar)
        else if peek l == b'='
        then (bump >> token TokenKind.bar_equals)
        else token TokenKind.bar

  unfoldable pub read_caret : M (Token F)
  read_caret = do
    bump
    l ← get
    if peek l == b'=' then (bump >> token TokenKind.caret_equals) else token TokenKind.caret

  -- the inner test of `read_dot`
  unfoldable pub read_dots : M (Token F)
  read_dots = do
    bump
    l ← get
    if peek l == b'.' then (bump >> token TokenKind.dot_dot_dot) else token TokenKind.dot_dot

  unfoldable pub read_dot : M (Token F)
  unfolding read_dots
  read_dot = do bump; l ← get; if peek l == b'.' then (read_dots) else token TokenKind.dot

  unfoldable pub read_colon : M (Token F)
  read_colon = do
    bump
    l ← get
    if peek l == b':'
        then (bump >> token TokenKind.colon_colon)
        else if peek l == b'='
        then (bump >> token TokenKind.fat_arrow)
        else token TokenKind.colon

  unfoldable pub read_question : M (Token F)
  read_question = do
    bump
    l ← get
    if peek l == b'?'
        then (bump >> token TokenKind.question_question)
        else if peek l == b':'
        then (bump >> token TokenKind.question_colon)
        else token TokenKind.question
