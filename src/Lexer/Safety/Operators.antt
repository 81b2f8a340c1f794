-- ===== src/Lexer/Safety/Operators.antt =====
-- crates/tinox-lexer/src/lib.rs, the operator readers: outcomes.
use tinox.Prelude.{arith, length, ◌<◌}
use tinox.Lexer.Cursor.{Lexer, bumped, mk_span}
use tinox.Lexer.Operators.{
  read_operator, read_plus, read_minus, read_star, read_percent, read_equals, read_bang, read_less,
  read_greater, read_ampersand, read_bar, read_caret, read_dot, read_colon, read_question,
}
use tinox.Lexer.Safety.Rules.{ReadsToken, peek-lt}

module _ {F : Type 0} (l : Lexer) (inside : l.pos < length l.chars) where
  pub read_operator-Reads : ReadsToken {F = F} l (read_operator l)
  unfolding read_operator bumped mk_span
  read_operator-Reads = ground (arith, peek-lt (bumped l))

  pub read_plus-Reads : ReadsToken {F = F} l (read_plus l)
  unfolding read_plus bumped mk_span
  read_plus-Reads = ground (arith, peek-lt (bumped l))

  pub read_minus-Reads : ReadsToken {F = F} l (read_minus l)
  unfolding read_minus bumped mk_span
  read_minus-Reads = ground (arith, peek-lt (bumped l))

  pub read_star-Reads : ReadsToken {F = F} l (read_star l)
  unfolding read_star bumped mk_span
  read_star-Reads = ground (arith, peek-lt (bumped l))

  pub read_percent-Reads : ReadsToken {F = F} l (read_percent l)
  unfolding read_percent bumped mk_span
  read_percent-Reads = ground (arith, peek-lt (bumped l))

  pub read_equals-Reads : ReadsToken {F = F} l (read_equals l)
  unfolding read_equals bumped mk_span
  read_equals-Reads = ground (arith, peek-lt (bumped l))

  pub read_bang-Reads : ReadsToken {F = F} l (read_bang l)
  unfolding read_bang bumped mk_span
  read_bang-Reads = ground (arith, peek-lt (bumped l))

  pub read_ampersand-Reads : ReadsToken {F = F} l (read_ampersand l)
  unfolding read_ampersand bumped mk_span
  read_ampersand-Reads = ground (arith, peek-lt (bumped l))

  pub read_bar-Reads : ReadsToken {F = F} l (read_bar l)
  unfolding read_bar bumped mk_span
  read_bar-Reads = ground (arith, peek-lt (bumped l))

  pub read_caret-Reads : ReadsToken {F = F} l (read_caret l)
  unfolding read_caret bumped mk_span
  read_caret-Reads = ground (arith, peek-lt (bumped l))

  pub read_colon-Reads : ReadsToken {F = F} l (read_colon l)
  unfolding read_colon bumped mk_span
  read_colon-Reads = ground (arith, peek-lt (bumped l))

  pub read_question-Reads : ReadsToken {F = F} l (read_question l)
  unfolding read_question bumped mk_span
  read_question-Reads = ground (arith, peek-lt (bumped l))

  pub read_less-Reads : ReadsToken {F = F} l (read_less l)
  unfolding read_less bumped mk_span
  read_less-Reads = ground (arith, peek-lt (bumped l), peek-lt (bumped (bumped l)))

  pub read_dot-Reads : ReadsToken {F = F} l (read_dot l)
  unfolding read_dot bumped mk_span
  read_dot-Reads = ground (arith, peek-lt (bumped l), peek-lt (bumped (bumped l)))

  pub read_greater-Reads : ReadsToken {F = F} l (read_greater l)
  unfolding read_greater bumped mk_span
  read_greater-Reads =
      ground (
        arith,
        peek-lt (bumped l),
        peek-lt (bumped (bumped l)),
        peek-lt (bumped (bumped (bumped l))),
      )
