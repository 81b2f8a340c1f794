-- ===== src/Lexer/Safety/Escapes.antt =====
-- crates/tinox-lexer/src/lib.rs, read_escape: its outcomes, and where the cursor is.
use tinox.Prelude.{
  ℕ, zero, suc, ◌==◌, Option, none, some, ◌≡◌, ◌≢◌, refl, Text, arith, inl, inr, Bool-cases,
}
use tinox.Lexer.Cursor.{Lexer, Outcome, M, and_then, pure, peek, bumped}
use tinox.Lexer.Escapes.{
  hex_value, escape_x, escape_u, escape_U, ok_or, read_hex_digit, expect_char, hex_digits_to_brace,
  hex_digits, escape_arm, read_escape,
}
use tinox.Lexer.Safety.Rules.{
  Sat-bind, Sat-if, Sat-weaken, Ahead, Ahead-refl, Ahead-trans, bumped-Ahead, InBounds, Moves,
  peek-lt,
}

-- A value out of an option, at a cursor in bounds.
ok_or-Moves :
    {A : Type 0} (o : Option A) (m : Text) {l e : Lexer}
    → Ahead l e
    → InBounds e
    → Moves l (ok_or o m e)
ok_or-Moves (some a) m h b = record { holds = (h, b) }
ok_or-Moves none m h b = record { holds = h }

-- The second part of a `do` block starts where the first one stopped.
pub Moves-bind :
    {A B : Type 0} {l : Lexer} (r : Outcome A × Lexer) (f : A → M B)
    → Moves l r
    → ((a : A) (e : Lexer) → Ahead l e → InBounds e → Moves l (f a e))
    → Moves l (and_then r f)
Moves-bind r f h k = Sat-bind r f h (λ _ e. e) (λ a e p. k a e p.0 p.1)

pub Moves-from :
    {A : Type 0} {l m : Lexer} (r : Outcome A × Lexer) → Ahead l m → Moves m r → Moves l r
Moves-from r a h = Sat-weaken r h (λ _ _ p. (Ahead-trans a p.0, p.1)) (λ _ p. Ahead-trans a p)

hex_value-real : hex_value 0 ≡ none
unfolding hex_value
hex_value-real = refl

read_hex_digit-Moves : (l : Lexer) → Moves l (read_hex_digit l)
unfolding read_hex_digit bumped hex_value
read_hex_digit-Moves l = ground (arith, peek-lt l)

expect_char-Moves : (c : ℕ) (l : Lexer) → c ≢ 0 → Moves l (expect_char c l)
unfolding expect_char bumped
expect_char-Moves c l n = ground (arith, peek-lt l)

hex_digits_to_brace-Moves :
    (left value : ℕ) (l : Lexer) → InBounds l → Moves l (hex_digits_to_brace left value l)
unfolding hex_digits_to_brace
hex_digits_to_brace-Moves zero value l b = record { holds = (Ahead-refl l, b) }
hex_digits_to_brace-Moves (suc left) value l b = elim (Bool-cases (peek l == b'}')) [
  | inl e ↦ rw (e, hex_digits_to_brace) (record { holds = (Ahead-refl l, b) })
  | inr e ↦
      rw (e, hex_digits_to_brace)
        (Moves-bind (read_hex_digit l) _ (read_hex_digit-Moves l)
          (λ d m a i. Moves-from _ a (hex_digits_to_brace-Moves left _ m i)))
]

hex_digits-Moves : (left value : ℕ) (l : Lexer) → InBounds l → Moves l (hex_digits left value l)
unfolding hex_digits
hex_digits-Moves zero value l b = record { holds = (Ahead-refl l, b) }
hex_digits-Moves (suc left) value l b =
    Moves-bind (read_hex_digit l) _ (read_hex_digit-Moves l)
      (λ d m a i. Moves-from _ a (hex_digits-Moves left _ m i))

escape_x-Moves : (l : Lexer) → Moves l (escape_x l)
escape_x-Moves l = Moves-bind (read_hex_digit l) _ (read_hex_digit-Moves l) λ d1 m a i.
    Moves-bind (read_hex_digit m) _ (Moves-from _ a (read_hex_digit-Moves m))
      λ d2 e a' i'. ok_or-Moves _ _ a' i'

escape_u-Moves : (l : Lexer) → Moves l (escape_u l)
escape_u-Moves l =
    Moves-bind (expect_char b'{' l) _ (expect_char-Moves b'{' l (omega arith)) λ _ m a i.
      Moves-bind (hex_digits_to_brace 6 0 m) _ (Moves-from _ a (hex_digits_to_brace-Moves 6 0 m i))
        λ value e a' i'.
          Moves-bind (expect_char b'}' e) _
            (Moves-from _ a' (expect_char-Moves b'}' e (omega arith)))
            λ _ q a'' i''. ok_or-Moves _ _ a'' i''

escape_U-Moves : (l : Lexer) → InBounds l → Moves l (escape_U l)
escape_U-Moves l i =
    Moves-bind (hex_digits 8 0 l) _ (hex_digits-Moves 8 0 l i)
      λ value e a' i'. ok_or-Moves _ _ a' i'

pure-Moves : (c : ℕ) (l : Lexer) → InBounds l → Moves l (pure c l)
pure-Moves c l i = record { holds = (Ahead-refl l, i) }

-- The character behind the backslash is consumed, and NUL if there is none.
escape_arm-Moves : (c : ℕ) (l : Lexer) → (c ≢ 0 → InBounds l) → Moves l (escape_arm c l)
unfolding escape_arm
escape_arm-Moves c l i =
    Sat-if (c == b'n') _ _ l (λ e. pure-Moves _ l (i (ground arith)))
      λ _.
        Sat-if (c == b't') _ _ l (λ e. pure-Moves _ l (i (ground arith)))
          λ _.
            Sat-if (c == b'r') _ _ l (λ e. pure-Moves _ l (i (ground arith)))
              λ _.
                Sat-if (c == b'\\') _ _ l (λ e. pure-Moves _ l (i (ground arith)))
                  λ _.
                    Sat-if (c == b'"') _ _ l (λ e. pure-Moves _ l (i (ground arith)))
                      λ _.
                        Sat-if (c == b'\'') _ _ l (λ e. pure-Moves _ l (i (ground arith)))
                          λ _.
                            Sat-if (c == b'0') _ _ l (λ e. pure-Moves _ l (i (ground arith)))
                              λ _.
                                Sat-if (c == b'x') _ _ l (λ e. escape_x-Moves l)
                                  λ _.
                                    Sat-if (c == b'u') _ _ l (λ e. escape_u-Moves l)
                                      λ _.
                                        Sat-if (c == b'U') _ _ l
                                          (λ e. escape_U-Moves l (i (ground arith)))
                                          λ _. record { holds = Ahead-refl l }

pub read_escape-Moves : (l : Lexer) → Moves l (read_escape l)
unfolding read_escape bumped
read_escape-Moves l =
    Moves-from _ (bumped-Ahead l) (escape_arm-Moves (peek l) (bumped l) (λ n. peek-lt l n))
