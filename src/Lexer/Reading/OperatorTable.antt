-- ===== src/Lexer/Reading/OperatorTable.antt =====
-- The operators and delimiters of the language by their spelling, independently of the lexer's
-- readers, and what it means that the longest of them is taken.
use tinox.Prelude.{
  Bool, true, false, ◌&&◌, ◌||◌, ◌==◌, ltb, List, [], ◌∷◌, ◌++◌, Text, codes, length, ◌≡◌,
}
use tinox.Lexer.Token.{TokenKind}
use tinox.Lexer.Reading.At.{first, tail}

abbrev pub plus_table : {F : Type 0} → List (Text × TokenKind F)
plus_table =
    (codes "+", TokenKind.plus)
    ∷ (codes "++", TokenKind.plus_plus)
    ∷ (codes "+=", TokenKind.plus_equals)
    ∷ []

abbrev pub minus_table : {F : Type 0} → List (Text × TokenKind F)
minus_table =
    (codes "-", TokenKind.minus)
    ∷ (codes "--", TokenKind.minus_minus)
    ∷ (codes "-=", TokenKind.minus_equals)
    ∷ (codes "->", TokenKind.thin_arrow)
    ∷ []

abbrev pub star_table : {F : Type 0} → List (Text × TokenKind F)
star_table = (codes "*", TokenKind.star) ∷ (codes "*=", TokenKind.star_equals) ∷ []

abbrev pub slash_table : {F : Type 0} → List (Text × TokenKind F)
slash_table = (codes "/", TokenKind.slash) ∷ (codes "/=", TokenKind.slash_equals) ∷ []

abbrev pub percent_table : {F : Type 0} → List (Text × TokenKind F)
percent_table = (codes "%", TokenKind.percent) ∷ (codes "%=", TokenKind.percent_equals) ∷ []

abbrev pub equals_table : {F : Type 0} → List (Text × TokenKind F)
equals_table =
    (codes "=", TokenKind.equals)
    ∷ (codes "==", TokenKind.equals_equals)
    ∷ (codes "=>", TokenKind.fat_arrow)
    ∷ []

abbrev pub bang_table : {F : Type 0} → List (Text × TokenKind F)
bang_table =
    (codes "!", TokenKind.bang)
    ∷ (codes "!=", TokenKind.bang_equals)
    ∷ (codes "!?", TokenKind.question_question)
    ∷ []

abbrev pub less_table : {F : Type 0} → List (Text × TokenKind F)
less_table =
    (codes "<", TokenKind.less)
    ∷ (codes "<=", TokenKind.less_equals)
    ∷ (codes "<<", TokenKind.less_less)
    ∷ (codes "<<=", TokenKind.less_less_equals)
    ∷ []

abbrev pub greater_table : {F : Type 0} → List (Text × TokenKind F)
greater_table =
    (codes ">", TokenKind.greater)
    ∷ (codes ">=", TokenKind.greater_equals)
    ∷ (codes ">>", TokenKind.greater_greater)
    ∷ (codes ">>=", TokenKind.greater_greater_equals)
    ∷ (codes ">>>", TokenKind.greater_greater_greater)
    ∷ (codes ">>>=", TokenKind.greater_greater_greater_equals)
    ∷ []

abbrev pub ampersand_table : {F : Type 0} → List (Text × TokenKind F)
ampersand_table =
    (codes "&", TokenKind.ampersand)
    ∷ (codes "&&", TokenKind.amp_amp)
    ∷ (codes "&=", TokenKind.ampersand_equals)
    ∷ []

abbrev pub bar_table : {F : Type 0} → List (Text × TokenKind F)
bar_table =
    (codes "|", TokenKind.bar)
    ∷ (codes "||", TokenKind.bar_bar)
    ∷ (codes "|=", TokenKind.bar_equals)
    ∷ []

abbrev pub caret_table : {F : Type 0} → List (Text × TokenKind F)
caret_table = (codes "^", TokenKind.caret) ∷ (codes "^=", TokenKind.caret_equals) ∷ []

abbrev pub dot_table : {F : Type 0} → List (Text × TokenKind F)
dot_table =
    (codes ".", TokenKind.dot)
    ∷ (codes "..", TokenKind.dot_dot)
    ∷ (codes "...", TokenKind.dot_dot_dot)
    ∷ []

abbrev pub colon_table : {F : Type 0} → List (Text × TokenKind F)
colon_table =
    (codes ":", TokenKind.colon)
    ∷ (codes "::", TokenKind.colon_colon)
    ∷ (codes ":=", TokenKind.fat_arrow)
    ∷ []

abbrev pub question_table : {F : Type 0} → List (Text × TokenKind F)
question_table =
    (codes "?", TokenKind.question)
    ∷ (codes "??", TokenKind.question_question)
    ∷ (codes "?:", TokenKind.question_colon)
    ∷ []

abbrev pub single_table : {F : Type 0} → List (Text × TokenKind F)
single_table =
    (codes "~", TokenKind.tilde)
    ∷ (codes "\\", TokenKind.backslash)
    ∷ (codes ";", TokenKind.semicolon)
    ∷ (codes ",", TokenKind.comma)
    ∷ (codes "@", TokenKind.at_)
    ∷ (codes "(", TokenKind.l_paren)
    ∷ (codes ")", TokenKind.r_paren)
    ∷ (codes "{", TokenKind.l_brace)
    ∷ (codes "}", TokenKind.r_brace)
    ∷ (codes "[", TokenKind.l_bracket)
    ∷ (codes "]", TokenKind.r_bracket)
    ∷ []

abbrev pub flat {ℓ} : {A : Type ℓ} → List (List A) → List A
flat [] = []
flat (xs ∷ xss) = xs ++ flat xss

abbrev pub tables : {F : Type 0} → List (List (Text × TokenKind F))
tables =
    plus_table ∷ minus_table ∷ star_table ∷ slash_table ∷ percent_table ∷ equals_table ∷ bang_table
    ∷ less_table ∷ greater_table ∷ ampersand_table ∷ bar_table ∷ caret_table ∷ dot_table
    ∷ colon_table ∷ question_table ∷ single_table ∷ []

-- Every operator and delimiter, with its token.
abbrev pub operator_table : {F : Type 0} → List (Text × TokenKind F)
operator_table = flat tables

-- `text` stands at the front of `input`.
abbrev pub starts : Text → Text → Bool
starts [] input = true
starts (c ∷ cs) input = first input == c && starts cs (tail input)

-- An entry longer than `text` stands at the front of `input`.
abbrev pub longer : {F : Type 0} → List (Text × TokenKind F) → Text → Text → Bool
longer [] text input = false
longer ((t, _) ∷ table) text input =
    (ltb (length text) (length t) && starts t input) || longer table text input

-- Nothing longer than `text` begins here: no operator of the table and no comment.
abbrev pub IsLongest : (F : Type 0) → Text → Text → Type 0
IsLongest F text rest =
    (longer {F = F} operator_table text (text ++ rest) ≡ false)
    × (starts (codes "//") (text ++ rest) ≡ false)
    × (starts (codes "/*") (text ++ rest) ≡ false)
