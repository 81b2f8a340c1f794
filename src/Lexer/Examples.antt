-- ===== src/Lexer/Examples.antt =====
-- The lexer's theorems at concrete inputs.
use tinox.Prelude.{List, [], ◌∷◌, Text, codes, arith, none, some, ◌≡◌, refl, ◌↔◌, ◌≢◌}
use tinox.Diag.{Error}
use tinox.Lexer.Token.{Token, TokenKind}
use tinox.Lexer.Keyword.{Keyword, lookup}
use tinox.Lexer.Cursor.{M, pure, Lexer, new, bumped, token, ok}
use tinox.Lexer.Numbers.{read_int_suffix}
use tinox.Lexer.Next.{on_token, tokenize, next_token, token_arm, mark}
use tinox.Lexer.Reading.At.{At, bumps}
use tinox.Lexer.Reading.Comments.{
  past, next_token-comment, next_token-doc, next_token-empty_comment,
}
use tinox.Lexer.Reading.Integers.{integer_result, next_token-integer}
use tinox.Lexer.Reading.Operators.{token_arm-longest}
use tinox.Lexer.Reading.Positions.{read_int_suffix-drift}
use tinox.Lexer.Reading.Recovery.{on_token-skips}
use tinox.Lexer.Reading.Spelling.{spelling, lookup_iff}
use tinox.Lexer.Reading.Strings.{next_token-string}
use tinox.Lexer.Reading.Words.{Means, next_token-word}
use tinox.Lexer.Safety.Next.{Answers, Recovers, next_token-Answers}
use tinox.Lexer.Safety.Rules.{Sat}
use tinox.Lexer.Safety.Tokenize.{Returns, tokenize_total}
use tinox.Lexer.Tests.{text_floats}

abbrev program : Text
program = codes "let x = \"a${y}\"; // end"

tokenize_total_example :
    Sat (tokenize text_floats (new program)) (λ r _. Returns program r) (λ _. ⊥)
tokenize_total_example = tokenize_total text_floats program (omega arith)

next_token-Answers_example :
    Sat (next_token text_floats (new program)) (Answers (new program)) (Recovers (new program))
next_token-Answers_example = next_token-Answers text_floats (new program)

new-At : (text : Text) → At (new text) text
unfolding new
new-At text = record { rest_is = refl; in_bounds = omega arith }

token_arm-longest_example :
    token_arm text_floats b'>' (new (codes ">>=1"))
    ≡ token TokenKind.greater_greater_equals (bumps 3 (new (codes ">>=1")))
token_arm-longest_example =
    token_arm-longest text_floats (new (codes ">>=1")) 26 (codes "1") refl (new-At (codes ">>=1"))
      (refl, refl, refl)

next_token-word_example :
    (k : TokenKind Text) × (next_token text_floats (new (codes "while x"))
      ≡ token k (bumps 5 (mark (new (codes "while x")))))
    × Means (codes "while") k
next_token-word_example =
    next_token-word text_floats (new (codes "while x")) b'w' (codes "hile") (codes " x") refl
      (refl, (refl, (refl, (refl, tt)))) refl refl (new-At (codes "while x"))

lookup_iff_example :
    (lookup (codes "self") ≡ some Keyword.self_)
    ↔ ((codes "self" ≡ spelling Keyword.self_) × (Keyword.self_ ≢ Keyword.as_reserved))
lookup_iff_example = lookup_iff (codes "self") Keyword.self_

next_token-integer_example :
    next_token text_floats (new (codes "1_024;"))
    ≡ integer_result Text (codes "1_024") (bumps 5 (mark (new (codes "1_024;"))))
next_token-integer_example =
    next_token-integer text_floats (new (codes "1_024;")) b'1' (codes "_024") (codes ";") refl
      (refl, (refl, (refl, (refl, tt)))) refl refl refl refl (new-At (codes "1_024;"))

next_token-string_example :
    next_token text_floats (new (codes "\"a\\\"b\";"))
    ≡ token
        (TokenKind.string (codes "a\"b"))
        (bumped (bumps 4 (bumped (mark (new (codes "\"a\\\"b\";"))))))
next_token-string_example =
    next_token-string text_floats (new (codes "\"a\\\"b\";")) (codes "a\"b") (codes ";")
      (new-At (codes "\"a\\\"b\";"))

next_token-comment_example :
    next_token text_floats (new (codes "/* a */;"))
    ≡ token
        (TokenKind.comment (codes " a "))
        (bumped (bumped (past (codes " a ") (bumps 2 (mark (new (codes "/* a */;")))))))
next_token-comment_example =
    next_token-comment text_floats (new (codes "/* a */;")) b' ' (codes "a ") (codes ";") refl refl
      (new-At (codes "/* a */;"))

next_token-doc_example :
    next_token text_floats (new (codes "/** a */;"))
    ≡ token
        (TokenKind.doc_comment (codes " a "))
        (bumped (bumped (past (codes " a ") (bumps 3 (mark (new (codes "/** a */;")))))))
next_token-doc_example =
    next_token-doc text_floats (new (codes "/** a */;")) (codes " a ") (codes ";") refl
      (new-At (codes "/** a */;"))

next_token-empty_comment_example :
    (next_token text_floats (new (codes "/**/ x"))
      ≡ token
          (TokenKind.doc_comment (codes "/ x"))
          (past (codes "/ x") (bumps 3 (mark (new (codes "/**/ x"))))))
    × ((past (codes "/ x") (bumps 3 (mark (new (codes "/**/ x"))))).pos ≡ 6)
unfolding new
next_token-empty_comment_example =
    next_token-empty_comment text_floats (new (codes "/**/ x")) (codes " x") refl
      (new-At (codes "/**/ x"))

read_int_suffix-drift_example :
    read_int_suffix (new (codes "i32;"))
    ≡ (ok none, record (new (codes "i32;")) { column = (bumps 3 (new (codes "i32;"))).column })
read_int_suffix-drift_example =
    read_int_suffix-drift (new (codes "i32;")) 6 (codes ";") refl (new-At (codes "i32;"))

-- The loop's continuation that returns what it is given.
abbrev collect : List (Token Text) → List Error → M (List (Token Text) × List Error)
collect ts es = pure (ts, es)

on_token-skips_example :
    (e : Error) × (l' : Lexer) × (on_token
        (next_token text_floats (new (codes "#x;")))
        []
        []
        collect
        collect
      ≡ collect [] (e ∷ []) l')
    × At l' (codes ";")
    × (l'.line ≡ (new (codes "#x;")).line)
on_token-skips_example =
    on_token-skips text_floats (new (codes "#x;")) b'#' b'x' (codes ";") [] [] collect collect refl
      (new-At (codes "#x;"))
