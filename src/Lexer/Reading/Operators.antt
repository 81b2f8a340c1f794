-- ===== src/Lexer/Reading/Operators.antt =====
-- Maximal munch: the operator readers and the operator table.
use tinox.Prelude.{
  ℕ, get_elem?, some, List, [], ◌∷◌, ◌++◌, Text, length, All, All-append, All-get_elem?, ◌≡◌, refl,
  arith,
}
use tinox.Lexer.Token.{TokenKind}
use tinox.Lexer.Cursor.{Lexer, token}
use tinox.Lexer.Operators.{
  read_operator, read_plus, read_minus, read_star, read_percent, read_equals, read_bang, read_less,
  read_greater, read_ampersand, read_bar, read_caret, read_dot, read_colon, read_question,
}
use tinox.Lexer.Numbers.{FloatParser}
use tinox.Lexer.Next.{token_arm, read_slash}
use tinox.Lexer.Reading.OperatorTable.{
  plus_table, minus_table, star_table, slash_table, percent_table, equals_table, bang_table,
  less_table, greater_table, ampersand_table, bar_table, caret_table, dot_table, colon_table,
  question_table, single_table, flat, tables, operator_table, IsLongest,
}
use tinox.Lexer.Reading.At.{At, first, bumps, looks}

-- `next_token`'s arm for the first character reads exactly `text` and gives `kind`.
abbrev pub Munches : {F : Type 0} → FloatParser F → Lexer → Text → Text × TokenKind F → Type 0
Munches {F} floats l rest (text, kind) =
    At l (text ++ rest)
    → IsLongest F text rest
    → token_arm floats (first (text ++ rest)) l ≡ token kind (bumps (length text) l)

All-flat {ℓ κ} :
    {A : Type ℓ} (P : A → Type κ) (xss : List (List A)) → All (All P) xss → All P (flat xss)
All-flat P [] h = tt
All-flat P (xs ∷ xss) h = All-append P xs (flat xss) h.0 (All-flat P xss h.1)

module _ {F : Type 0} (floats : FloatParser F) (l : Lexer) (rest : Text) where
  plus-Munches : All (Munches floats l rest) plus_table
  unfolding token_arm read_plus
  plus-Munches = (
    (λ a e. ground (arith, looks _ a)),
    ((λ a e. ground (arith, looks _ a)), ((λ a e. ground (arith, looks _ a)), tt)),
  )

  minus-Munches : All (Munches floats l rest) minus_table
  unfolding token_arm read_minus
  minus-Munches = (
    (λ a e. ground (arith, looks _ a)),
    (
      (λ a e. ground (arith, looks _ a)),
      ((λ a e. ground (arith, looks _ a)), ((λ a e. ground (arith, looks _ a)), tt)),
    ),
  )

  star-Munches : All (Munches floats l rest) star_table
  unfolding token_arm read_star
  star-Munches = ((λ a e. ground (arith, looks _ a)), ((λ a e. ground (arith, looks _ a)), tt))

  slash-Munches : All (Munches floats l rest) slash_table
  unfolding token_arm read_operator read_slash
  slash-Munches = ((λ a e. ground (arith, looks _ a)), ((λ a e. ground (arith, looks _ a)), tt))

  percent-Munches : All (Munches floats l rest) percent_table
  unfolding token_arm read_percent
  percent-Munches = ((λ a e. ground (arith, looks _ a)), ((λ a e. ground (arith, looks _ a)), tt))

  equals-Munches : All (Munches floats l rest) equals_table
  unfolding token_arm read_equals
  equals-Munches = (
    (λ a e. ground (arith, looks _ a)),
    ((λ a e. ground (arith, looks _ a)), ((λ a e. ground (arith, looks _ a)), tt)),
  )

  bang-Munches : All (Munches floats l rest) bang_table
  unfolding token_arm read_bang
  bang-Munches = (
    (λ a e. ground (arith, looks _ a)),
    ((λ a e. ground (arith, looks _ a)), ((λ a e. ground (arith, looks _ a)), tt)),
  )

  less-Munches : All (Munches floats l rest) less_table
  unfolding token_arm read_less
  less-Munches = (
    (λ a e. ground (arith, looks _ a)),
    (
      (λ a e. ground (arith, looks _ a)),
      ((λ a e. ground (arith, looks _ a)), ((λ a e. ground (arith, looks _ a)), tt)),
    ),
  )

  greater-Munches : All (Munches floats l rest) greater_table
  unfolding token_arm read_greater
  greater-Munches = (
    (λ a e. ground (arith, looks _ a)),
    (
      (λ a e. ground (arith, looks _ a)),
      (
        (λ a e. ground (arith, looks _ a)),
        (
          (λ a e. ground (arith, looks _ a)),
          ((λ a e. ground (arith, looks _ a)), ((λ a e. ground (arith, looks _ a)), tt)),
        ),
      ),
    ),
  )

  ampersand-Munches : All (Munches floats l rest) ampersand_table
  unfolding token_arm read_ampersand
  ampersand-Munches = (
    (λ a e. ground (arith, looks _ a)),
    ((λ a e. ground (arith, looks _ a)), ((λ a e. ground (arith, looks _ a)), tt)),
  )

  bar-Munches : All (Munches floats l rest) bar_table
  unfolding token_arm read_bar
  bar-Munches = (
    (λ a e. ground (arith, looks _ a)),
    ((λ a e. ground (arith, looks _ a)), ((λ a e. ground (arith, looks _ a)), tt)),
  )

  caret-Munches : All (Munches floats l rest) caret_table
  unfolding token_arm read_caret
  caret-Munches = ((λ a e. ground (arith, looks _ a)), ((λ a e. ground (arith, looks _ a)), tt))

  dot-Munches : All (Munches floats l rest) dot_table
  unfolding token_arm read_dot
  dot-Munches = (
    (λ a e. ground (arith, looks _ a)),
    ((λ a e. ground (arith, looks _ a)), ((λ a e. ground (arith, looks _ a)), tt)),
  )

  colon-Munches : All (Munches floats l rest) colon_table
  unfolding token_arm read_colon
  colon-Munches = (
    (λ a e. ground (arith, looks _ a)),
    ((λ a e. ground (arith, looks _ a)), ((λ a e. ground (arith, looks _ a)), tt)),
  )

  question-Munches : All (Munches floats l rest) question_table
  unfolding token_arm read_question
  question-Munches = (
    (λ a e. ground (arith, looks _ a)),
    ((λ a e. ground (arith, looks _ a)), ((λ a e. ground (arith, looks _ a)), tt)),
  )

  single-Munches : All (Munches floats l rest) single_table
  unfolding token_arm
  single-Munches = (
    (λ a e. refl),
    (
      (λ a e. refl),
      (
        (λ a e. refl),
        (
          (λ a e. refl),
          (
            (λ a e. refl),
            (
              (λ a e. refl),
              (
                (λ a e. refl),
                ((λ a e. refl), ((λ a e. refl), ((λ a e. refl), ((λ a e. refl), tt)))),
              ),
            ),
          ),
        ),
      ),
    ),
  )

  operators-Munch : All (Munches floats l rest) operator_table
  operators-Munch = All-flat (Munches floats l rest) tables (
    plus-Munches,
    (
      minus-Munches,
      (
        star-Munches,
        (
          slash-Munches,
          (
            percent-Munches,
            (
              equals-Munches,
              (
                bang-Munches,
                (
                  less-Munches,
                  (
                    greater-Munches,
                    (
                      ampersand-Munches,
                      (
                        bar-Munches,
                        (
                          caret-Munches,
                          (dot-Munches, (colon-Munches, (question-Munches, (single-Munches, tt)))),
                        ),
                      ),
                    ),
                  ),
                ),
              ),
            ),
          ),
        ),
      ),
    ),
  )

-- Maximal munch. Take any entry `text`, `kind` of the operator table. If `text` stands at the cursor
-- with `rest` behind it, and neither a longer operator of the table nor a comment begins there,
-- then `next_token`'s arm for the first character consumes exactly `text` and gives `kind`.
pub token_arm-longest :
    {F : Type 0} (floats : FloatParser F) (l : Lexer) (i : ℕ) {text : Text} {kind : TokenKind F}
    (rest : Text)
    → get_elem? operator_table i ≡ some (text, kind)
    → At l (text ++ rest)
    → IsLongest F text rest
    → token_arm floats (first (text ++ rest)) l ≡ token kind (bumps (length text) l)
token_arm-longest floats l i rest e =
    All-get_elem? (Munches floats l rest) operator_table i (operators-Munch floats l rest) e
