-- ===== src/Lexer/Token.antt =====
-- Tokens: `InterpPart`, `TokenKind`, `Token`, `IntSuffix`, `FloatType`. The payload type of a float
-- literal is a parameter `F`, since the lexer only passes on what `str::parse::<f64>` returns.
-- The lexer's integer literals have no sign, so an `i64` payload is a natural number here.
use tinox.Prelude.{ℕ, Bool, true, false, List, Text}
use tinox.Diag.{Span}
use tinox.Lexer.Keyword.{Keyword}

pub data InterpPart : Type 0 where
  str : Text → InterpPart
  expr : Text → InterpPart

pub data IntSuffix : Type 0 where
  unsigned8 unsigned16 unsigned32 unsigned64 : IntSuffix
  signed8 signed16 signed32 signed64 : IntSuffix
  size usize : IntSuffix

pub data FloatType : Type 0 where
  float32 float64 : FloatType

pub data TokenKind (F : Type 0) : Type 0 where
  integer : ℕ → TokenKind F
  integer_suffix : IntSuffix → TokenKind F
  float : F → TokenKind F
  float_suffix : FloatType → TokenKind F
  string : Text → TokenKind F
  raw_string : Text → TokenKind F
  interp_string : List InterpPart → TokenKind F
  char : ℕ → TokenKind F
  byte : ℕ → TokenKind F
  bool : Bool → TokenKind F
  ident : Text → TokenKind F
  keyword : Keyword → TokenKind F
  plus minus star slash percent equals equals_equals bang bang_equals : TokenKind F
  less less_equals greater greater_equals amp_amp bar_bar caret tilde : TokenKind F
  ampersand bar less_less greater_greater greater_greater_greater : TokenKind F
  plus_plus minus_minus plus_equals minus_equals star_equals slash_equals : TokenKind F
  percent_equals ampersand_equals bar_equals caret_equals : TokenKind F
  less_less_equals greater_greater_equals greater_greater_greater_equals : TokenKind F
  dot dot_dot dot_dot_dot colon colon_colon semicolon comma at_ question : TokenKind F
  question_question question_colon fat_arrow thin_arrow pipe backslash : TokenKind F
  l_paren r_paren l_brace r_brace l_bracket r_bracket : TokenKind F
  comment : Text → TokenKind F
  doc_comment : Text → TokenKind F
  whitespace newline underscore eof : TokenKind F
  error : Text → TokenKind F

-- `TokenKind::is_trivia`
abbrev pub is_trivia : {F : Type 0} → TokenKind F → Bool
is_trivia TokenKind.whitespace = true
is_trivia TokenKind.newline = true
is_trivia (TokenKind.comment _) = true
is_trivia _ = false

-- `kind == TokenKind::Eof`
abbrev pub is_eof : {F : Type 0} → TokenKind F → Bool
is_eof TokenKind.eof = true
is_eof _ = false

pub record Token (F : Type 0) : Type 0 where
  pub kind : TokenKind F
  pub span : Span
