-- ===== src/Lexer/Safety/Next.antt =====
-- crates/tinox-lexer/src/lib.rs, next_token: its outcomes, and where the token and the cursor are.
use tinox.Prelude.{
  ℕ, ◌-◌, ◌≤◌, ◌<◌, true, false, ◌&&◌, ◌||◌, ◌==◌, ltb, ltb→lt, is_some_of, ◌≡◌, refl, length, take,
  drop, arith, inl, inr, Bool-cases,
}
use tinox.Lexer.Token.{TokenKind, Token, is_eof}
use tinox.Lexer.Cursor.{
  Lexer, bumped, peek, peek_next, char_at, rounds, skip_while, new_line, mk_pos, wrap32,
}
use tinox.Lexer.Numbers.{FloatParser, is_digit}
use tinox.Lexer.Next.{
  is_letter, word_char, read_ident_or_keyword, single, read_newline, punctuation_arm, operator_arm,
  read_slash, read_r, read_word, token_arm, mark, next_token,
}
use tinox.Lexer.Safety.Comments.{read_line_comment-Reads, read_block_comment-Reads}
use tinox.Lexer.Safety.Operators.{
  read_operator-Reads, read_plus-Reads, read_minus-Reads, read_star-Reads, read_percent-Reads,
  read_equals-Reads, read_bang-Reads, read_less-Reads, read_greater-Reads, read_ampersand-Reads,
  read_bar-Reads, read_caret-Reads, read_dot-Reads, read_colon-Reads, read_question-Reads,
}
use tinox.Lexer.Safety.Quoted.{read_string-Reads, read_char-Reads, read_byte_literal-Reads}
use tinox.Lexer.Safety.RawStrings.{read_raw_string-Reads}
use tinox.Lexer.Safety.Numbers.{read_number-Reads}
use tinox.Lexer.Safety.Kinds.{word_kind-not_eof}
use tinox.Lexer.Safety.Rules.{
  Sat, Sat-bind, Sat-if, Sat-weaken, Ahead-trans, bumped-Ahead, ReadsToken, peek_next-lt, slice-ok,
  token-Reads, skip_while-Steps,
}

module _ {F : Type 0} (l : Lexer) where
  read_ident_or_keyword-Reads :
      word_char (peek l) ≡ true → ReadsToken {F = F} l (read_ident_or_keyword l)
  unfolding read_ident_or_keyword
  read_ident_or_keyword-Reads w =
      Sat-bind (skip_while word_char (rounds l) l) _ (skip_while-Steps word_char l refl w)
        (λ _ h. absurd h)
        λ _ e h. rw (slice-ok l.pos e.pos e (h.0).forward h.1) (
          token-Reads _ (word_kind-not_eof F (take (e.pos - l.pos) (drop l.pos e.chars))) h.0 h.2
            h.1)

module _ {F : Type 0} (l : Lexer) (inside : l.pos < length l.chars) where
  single-Reads : (k : TokenKind F) → is_eof k ≡ false → ReadsToken l (single k l)
  unfolding bumped
  single-Reads k z = token-Reads k z (bumped-Ahead l) (omega arith) inside

  newline-Reads : ReadsToken {F = F} l (read_newline l)
  unfolding bumped new_line
  newline-Reads = token-Reads _ refl (ground arith) (omega arith) inside

  slash-Reads : ReadsToken {F = F} l (read_slash l)
  unfolding read_slash
  slash-Reads =
      Sat-if (peek_next l == b'/') _ _ l (λ e. read_line_comment-Reads l (λ n. ground arith))
        λ _.
          Sat-if (peek_next l == b'*') _ _ l (λ e. read_block_comment-Reads l (λ n. ground arith))
            λ _. read_operator-Reads l inside

  r-Reads : peek l ≡ b'r' → ReadsToken {F = F} l (read_r l)
  unfolding read_r
  r-Reads e =
      Sat-if (peek_next l == b'"' || (peek_next l == b'#' && is_some_of (char_at 2 l) b'"')) _ _ l
        (λ _. read_raw_string-Reads l e) (λ _. read_ident_or_keyword-Reads l (ground arith))

  word-Reads : is_letter (peek l) ≡ true → ReadsToken {F = F} l (read_word l)
  unfolding read_word bumped
  word-Reads e =
      Sat-if (peek l == b'b' && peek_next l == b'\'') _ _ l
        (λ q.
          let two = peek_next-lt l (λ n. ground arith) in
          Sat-weaken _ (read_byte_literal-Reads (bumped l) two) (λ t d r. ground arith)
            (λ d a. Ahead-trans (bumped-Ahead l) a))
        (λ _. read_ident_or_keyword-Reads l (ground arith))

  -- The last arm is an error; the character is consumed.
  punctuation_arm-Reads : (ch : ℕ) → ReadsToken {F = F} l (punctuation_arm ch l)
  unfolding punctuation_arm
  punctuation_arm-Reads ch =
      Sat-if (ch == b'~') _ _ l (λ e. single-Reads _ refl)
        λ _.
          Sat-if (ch == b'\\') _ _ l (λ e. single-Reads _ refl)
            λ _.
              Sat-if (ch == b'.') _ _ l (λ e. read_dot-Reads l inside)
                λ _.
                  Sat-if (ch == b':') _ _ l (λ e. read_colon-Reads l inside)
                    λ _.
                      Sat-if (ch == b';') _ _ l (λ e. single-Reads _ refl)
                        λ _.
                          Sat-if (ch == b',') _ _ l (λ e. single-Reads _ refl)
                            λ _.
                              Sat-if (ch == b'@') _ _ l (λ e. single-Reads _ refl)
                                λ _.
                                  Sat-if (ch == b'?') _ _ l (λ e. read_question-Reads l inside)
                                    λ _.
                                      Sat-if (ch == b'(') _ _ l (λ e. single-Reads _ refl)
                                        λ _.
                                          Sat-if (ch == b')') _ _ l (λ e. single-Reads _ refl)
                                            λ _.
                                              Sat-if (ch == b'{') _ _ l (λ e. single-Reads _ refl)
                                                λ _.
                                                  Sat-if (ch == b'}') _ _ l
                                                    (λ e. single-Reads _ refl)
                                                    λ _.
                                                      Sat-if (ch == b'[') _ _ l
                                                        (λ e. single-Reads _ refl)
                                                        λ _.
                                                          Sat-if (ch == b']') _ _ l
                                                            (λ e. single-Reads _ refl)
                                                            λ _. record { holds = bumped-Ahead l }

  operator_arm-Reads : (ch : ℕ) → ReadsToken {F = F} l (operator_arm ch l)
  unfolding operator_arm
  operator_arm-Reads ch =
      Sat-if (ch == b'+') _ _ l (λ e. read_plus-Reads l inside)
        λ _.
          Sat-if (ch == b'-') _ _ l (λ e. read_minus-Reads l inside)
            λ _.
              Sat-if (ch == b'*') _ _ l (λ e. read_star-Reads l inside)
                λ _.
                  Sat-if (ch == b'%') _ _ l (λ e. read_percent-Reads l inside)
                    λ _.
                      Sat-if (ch == b'=') _ _ l (λ e. read_equals-Reads l inside)
                        λ _.
                          Sat-if (ch == b'!') _ _ l (λ e. read_bang-Reads l inside)
                            λ _.
                              Sat-if (ch == b'<') _ _ l (λ e. read_less-Reads l inside)
                                λ _.
                                  Sat-if (ch == b'>') _ _ l (λ e. read_greater-Reads l inside)
                                    λ _.
                                      Sat-if (ch == b'&') _ _ l (λ e. read_ampersand-Reads l inside)
                                        λ _.
                                          Sat-if (ch == b'|') _ _ l (λ e. read_bar-Reads l inside)
                                            λ _.
                                              Sat-if (ch == b'^') _ _ l
                                                (λ e. read_caret-Reads l inside)
                                                λ _. punctuation_arm-Reads ch

  token_arm-Reads :
      (floats : FloatParser F) (ch : ℕ) → peek l ≡ ch → ReadsToken l (token_arm floats ch l)
  unfolding token_arm
  token_arm-Reads floats ch at_ch =
      Sat-if (ch == b'\n') _ _ l (λ e. newline-Reads)
        λ _.
          Sat-if (ch == b' ' || ch == b'\t' || ch == b'\r') _ _ l (λ e. single-Reads _ refl)
            λ _.
              Sat-if (ch == b'/') _ _ l (λ e. slash-Reads)
                λ _.
                  Sat-if (ch == b'"') _ _ l (λ e. read_string-Reads l inside)
                    λ _.
                      Sat-if (ch == b'r') _ _ l (λ e. r-Reads (ground arith))
                        λ _.
                          Sat-if (ch == b'\'') _ _ l (λ e. read_char-Reads l inside)
                            λ _.
                              Sat-if (is_digit ch) _ _ l
                                (λ e. read_number-Reads floats l (rw at_ch e))
                                λ _.
                                  Sat-if (is_letter ch) _ _ l (λ e. word-Reads (rw at_ch e))
                                    λ _. operator_arm-Reads ch

-- What `next_token` answers: inside the input a token from the cursor on, or an error; at its end
-- the token `Eof`, with the cursor left in place.
pub record Answers {F : Type 0} (l : Lexer) (t : Token F) (l' : Lexer) : Type 0 where
  pub same_chars : l'.chars ≡ l.chars
  pub at_end : is_eof t.kind ≡ true → (length l.chars ≤ l.pos) × (l'.pos ≡ l.pos)
  pub token_forward : is_eof t.kind ≡ false → (l.pos < l'.pos) × (l'.pos ≤ length l.chars)
  pub from_pos : t.span.start.offset ≡ wrap32 l.pos
  pub to_pos : t.span.end.offset ≡ wrap32 l'.pos

-- Behind an error the input is unchanged, and the cursor has not moved back.
pub record Recovers (l l' : Lexer) : Type 0 where
  pub same_chars : l'.chars ≡ l.chars
  pub forward : l.pos ≤ l'.pos
  pub inside : l.pos < length l.chars

-- `next_token` neither panics nor runs out of rounds, whatever the state of the lexer is. Inside
-- the input it gives a token, or an error; at the end of the input, or behind it, it gives `Eof`
-- and stays. Any other token covers one character at least, ends inside the input, and its span
-- runs (cut to 32 bits) from the old position to the new one. The input is never changed.
pub next_token-Answers :
    {F : Type 0} (floats : FloatParser F) (l : Lexer)
    → Sat (next_token floats l) (Answers l) (Recovers l)
unfolding next_token mk_pos
next_token-Answers floats l = elim (Bool-cases (ltb l.pos (length l.chars))) [
  | inr o ↦ rw o (record { holds = ground arith })
  | inl c ↦
      let h = ltb→lt _ _ c in
      rw c (
        Sat-weaken (token_arm floats (peek (mark l)) (mark l))
          (token_arm-Reads (mark l) h floats (peek (mark l)) refl) (λ t e r. ground arith)
          (λ e r. ground arith))
]
