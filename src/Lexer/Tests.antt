-- ===== src/Lexer/Tests.antt =====
-- The lexer on concrete texts.
use tinox.Prelude.{true, List, [], some, Text, map}
use tinox.Lexer.Token.{TokenKind}
use tinox.Lexer.Cursor.{Outcome, ok}
use tinox.Lexer.Numbers.{FloatParser}
use tinox.Lexer.Next.{Lexed}

-- Floats kept as their texts.
abbrev pub text_floats : FloatParser Text
text_floats = record { parse_f64 = some; is_finite = λ _. true }

abbrev pub kinds : Outcome (Lexed Text) → List (TokenKind Text)
kinds (ok (Lexed.tokens ts)) = map (λ t. t.kind) ts
kinds _ = []
