-- ===== src/Lexer/Reading/Integers.antt =====
-- Decimal integer literals: their value, the bound of `i64`, and `next_token` on one.
use tinox.Prelude.{
  ℕ, suc, ◌+◌, ◌-◌, ◌*◌, ◌≤◌, ◌<◌, Bool, true, false, not, ◌&&◌, ◌||◌, ◌==◌, ==→≡, subst, leb,
  leb→le, if◌then◌else◌, is_some_of, Option, none, some, List, [], ◌∷◌, ◌++◌, Text, codes, length,
  length-append, keep, get_elem?, All, ◌≡◌, ◌≢◌, refl, ap, ◌∙◌, arith, inl, inr, Bool-cases,
}
use tinox.Lexer.Token.{TokenKind, Token}
use tinox.Lexer.Cursor.{Lexer, M, ◌>>=◌, ok, or_nul, peek, peek_next, char_at, fail, rounds, token}
use tinox.Lexer.Escapes.{hex_value, ok_or}
use tinox.Lexer.Numbers.{
  FloatParser, i64_max, to_digit, add_digits, from_str_radix, is_digit, decimal_char, stands_at,
  take_arm, int_suffixes, read_int_suffix, finish_integer, integer_kind, read_decimal, read_number,
  preceded_by_dot,
}
use tinox.Lexer.Next.{token_arm, mark, next_token}
use tinox.Lexer.Reading.At.{
  At, first, bumps, bumps-pos, bumps-At, peek-At, peek_next-At, slice-At, skip_while-At,
}
use tinox.Lexer.Reading.Words.{next_token-At, mark-At}

-- The number that a literal's characters spell behind `n`; an underscore separates digits.
abbrev pub decimal_value : ℕ → Text → ℕ
decimal_value n [] = n
decimal_value n (c ∷ cs) = decimal_value (if c == b'_' then n else n * 10 + (c - b'0')) cs

le-decimal_value : (w : Text) (n : ℕ) → n ≤ decimal_value n w
le-decimal_value [] n = omega arith
le-decimal_value (c ∷ w) n =
    ground (arith, le-decimal_value w n, le-decimal_value w (n * 10 + (c - b'0')))

abbrev digits_of : Text → Text
digits_of = keep (λ c. not (c == b'_'))

to_digit-decimal :
    (c : ℕ) → decimal_char c ≡ true → (c == b'_') ≡ false → to_digit 10 c ≡ some (c - b'0')
unfolding to_digit hex_value
to_digit-decimal c h n = ground arith

-- The digits are read up to the bound of `i64`, and refused above it.
add_digits-value :
    (w : Text) (n : ℕ)
    → All (λ c. decimal_char c ≡ true) w
    → n ≤ i64_max
    → add_digits 10 n (digits_of w)
      ≡ (if leb (decimal_value n w) i64_max then some (decimal_value n w) else none)
unfolding add_digits
add_digits-value [] n h b = ground arith
add_digits-value (c ∷ w) n h b = elim (Bool-cases (c == b'_')) [
  | inl sep ↦ rw (sep, keep) (add_digits-value w n h.1 b)
  | inr digit ↦
      let d = to_digit-decimal c h.0 digit in
      let m = n * 10 + (c - b'0') in
      elim (Bool-cases (leb m i64_max)) [
        | inl fits ↦
            rw (digit, keep) (rw (d, fits, add_digits) (add_digits-value w m h.1 (leb→le _ _ fits)))
        | inr over ↦
            rw (digit, keep) (rw (d, over, add_digits) (ground (arith, le-decimal_value w m)))
      ]
]

-- `finish_integer` finds no suffix where the next character begins none.
abbrev pub begins_suffix : ℕ → Bool
begins_suffix c = c == b'u' || c == b'i' || c == b'_'

char_at-At : (l : Lexer) (rest : Text) → At l rest → or_nul (char_at 0 l) ≡ first rest
unfolding peek
char_at-At l rest a = ap (λ i. or_nul (get_elem? l.chars i)) (omega arith) ∙ peek-At rest a

no_char : (o : Option ℕ) (c : ℕ) → c ≢ 0 → (or_nul o == c) ≡ false → is_some_of o c ≡ false
no_char none c n h = refl
no_char (some d) c n h = h

take_arm-skip :
    {A : Type 0} (arms : List (Text × A)) (l : Lexer)
    → All (λ arm. stands_at arm.0 0 l ≡ false) arms
    → take_arm arms l ≡ (ok none, l)
take_arm-skip [] l h = refl
take_arm-skip ((text, a) ∷ arms) l h = rw h.0 (take_arm-skip arms l h.1)

take_arm-none :
    (l : Lexer)
    → is_some_of (char_at 0 l) b'u' ≡ false
    → is_some_of (char_at 0 l) b'i' ≡ false
    → take_arm int_suffixes l ≡ (ok none, l)
take_arm-none l u i =
    take_arm-skip int_suffixes l
      (rw u, (rw u, (rw u, (rw u, (rw i, (rw i, (rw i, (rw i, (rw u, (rw i, tt))))))))))

read_int_suffix-At :
    (l : Lexer) (rest : Text)
    → At l rest
    → begins_suffix (first rest) ≡ false
    → read_int_suffix l ≡ (ok none, l)
unfolding read_int_suffix
read_int_suffix-At l rest a n =
    let here = char_at-At l rest a in
    let u = no_char (char_at 0 l) b'u' (omega arith) (ground arith) in
    let i = no_char (char_at 0 l) b'i' (omega arith) (ground arith) in
    let sep : (peek l == b'_') ≡ false = ground (arith, peek-At rest a) in
    rw sep (rw (take_arm-none l u i))

-- What an integer literal `w` comes to, at the lexer behind it.
abbrev pub integer_result : (F : Type 0) → Text → M (Token F)
integer_result F w =
    if leb (decimal_value 0 w) i64_max
    then token (TokenKind.integer (decimal_value 0 w))
    else fail (codes "integer literal out of range for Int64: " ++ digits_of w)

ok_or-integer :
    {F : Type 0} (b : Bool) (v : ℕ) (m : Text) (e : Lexer)
    → (ok_or (if b then some v else none) m >>= λ n. token {F = F} (integer_kind none n)) e
      ≡ (if b then token (TokenKind.integer v) else fail m) e
ok_or-integer true v m e = refl
ok_or-integer false v m e = refl

from_str_radix-cons :
    (c : ℕ) (w : Text)
    → is_digit c ≡ true
    → from_str_radix 10 (digits_of (c ∷ w)) ≡ add_digits 10 0 (digits_of (c ∷ w))
unfolding from_str_radix
from_str_radix-cons c w h = let n : (c == b'_') ≡ false = ground arith in rw (n, keep)

and_mid : (p r : Bool) {q : Bool} → q ≡ false → (p && q && r) ≡ false
and_mid true r h = ground arith
and_mid false r h = refl

-- The letters that turn a `0` before them into a radix prefix.
abbrev pub is_radix_letter : ℕ → Bool
is_radix_letter c =
    (c == b'x' || c == b'X') || ((c == b'o' || c == b'O') || (c == b'b' || c == b'B'))

module _ {F : Type 0} (l : Lexer) (c : ℕ) (w rest : Text) where
  finish_integer-At :
      is_digit c ≡ true
      → All (λ d. decimal_char d ≡ true) w
      → begins_suffix (first rest) ≡ false
      → At l (c ∷ w ++ rest)
      → finish_integer {F = F} l.pos (bumps (suc (length w)) l)
        ≡ integer_result F (c ∷ w) (bumps (suc (length w)) l)
  unfolding finish_integer
  finish_integer-At digit h n a =
      let e = bumps (suc (length w)) l in
      let moved = bumps-pos (suc (length w)) l in
      let text = slice-At (c ∷ w) rest l e l.pos e.pos a moved.1 refl moved.0 in
      let value =
        from_str_radix-cons c w digit
        ∙ add_digits-value (c ∷ w) 0 ((ground arith), h) (omega arith) in
      rw (read_int_suffix-At e rest (bumps-At (c ∷ w) rest l a) n)
        (rw text (rw value (ok_or-integer _ _ _ e)))

  read_decimal-At :
      (floats : FloatParser F)
      → is_digit c ≡ true
      → All (λ d. decimal_char d ≡ true) w
      → begins_suffix (first rest) ≡ false
      → decimal_char (first rest) ≡ false
      → (first rest == b'.') ≡ false
      → At l (c ∷ w ++ rest)
      → read_decimal floats l.pos l ≡ integer_result F (c ∷ w) (bumps (suc (length w)) l)
  unfolding read_decimal
  read_decimal-At floats digit h n z dot a =
      let e = bumps (suc (length w)) l in
      let fuel : suc (length w) < rounds l = omega (arith, a.in_bounds, length-append w rest) in
      let behind = peek-At rest (bumps-At (c ∷ w) rest l a) in
      let no_dot : (peek e == b'.') ≡ false = ap (λ d. d == b'.') behind ∙ dot in
      rw (skip_while-At decimal_char (c ∷ w) rest (rounds l) l ((ground arith), h) z fuel a) (
        rw (and_mid (not (preceded_by_dot l.pos e)) (decimal_char (peek_next e)) no_dot)
          (finish_integer-At digit h n a))

-- `0` alone is taken by a branch of its own.
zero-At :
    {F : Type 0} (floats : FloatParser F) (l : Lexer) (w rest : Text)
    → All (λ d. decimal_char d ≡ true) w
    → begins_suffix (first rest) ≡ false
    → decimal_char (first rest) ≡ false
    → (first rest == b'.') ≡ false
    → is_radix_letter (first (w ++ rest)) ≡ false
    → At l (b'0' ∷ w ++ rest)
    → read_number floats l ≡ integer_result F (b'0' ∷ w) (bumps (suc (length w)) l)
unfolding read_number
zero-At floats l [] rest h n z dot x a =
    ground (arith, peek-At (b'0' ∷ rest) a, peek_next-At b'0' rest a)
zero-At floats l (d ∷ w) rest h n z dot x a = ground (
  arith,
  peek-At (b'0' ∷ d ∷ w ++ rest) a,
  peek_next-At b'0' (d ∷ w ++ rest) a,
  read_decimal-At l b'0' (d ∷ w) rest floats refl h n z dot a,
)

read_number-At :
    {F : Type 0} (floats : FloatParser F) (l : Lexer) (c : ℕ) (w rest : Text)
    → is_digit c ≡ true
    → All (λ d. decimal_char d ≡ true) w
    → begins_suffix (first rest) ≡ false
    → decimal_char (first rest) ≡ false
    → (first rest == b'.') ≡ false
    → (c == b'0' && is_radix_letter (first (w ++ rest))) ≡ false
    → At l (c ∷ w ++ rest)
    → read_number floats l ≡ integer_result F (c ∷ w) (bumps (suc (length w)) l)
unfolding read_number
read_number-At {F} floats l c w rest digit h n z dot x a = elim (Bool-cases (c == b'0')) [
  | inl e ↦
      let same : c ≡ b'0' = ==→≡ c b'0' e in
      rw same (
        zero-At floats l w rest h n z dot (ground arith) (subst (λ d. At l (d ∷ w ++ rest)) same a))
  | inr e ↦
      let other : (peek l == b'0') ≡ false = ap (λ d. d == b'0') (peek-At (c ∷ w ++ rest) a) ∙ e in
      rw other (read_decimal-At l c w rest floats digit h n z dot a)
]

token_arm-digit :
    {F : Type 0} (floats : FloatParser F) (c : ℕ)
    → is_digit c ≡ true
    → token_arm floats c ≡ read_number floats
unfolding token_arm
token_arm-digit floats c h = ground arith

-- A decimal integer literal `c ∷ w` (a digit, then digits and underscores) stands at the cursor, and
-- what follows it neither continues it nor begins a fraction or a width suffix, nor makes a leading
-- `0` a radix prefix. Then `next_token` consumes exactly the literal. The token is the number that
-- the digits spell if that is at most 2^63 - 1, and otherwise the answer is the range error.
pub next_token-integer :
    {F : Type 0} (floats : FloatParser F) (l : Lexer) (c : ℕ) (w rest : Text)
    → is_digit c ≡ true
    → All (λ d. decimal_char d ≡ true) w
    → begins_suffix (first rest) ≡ false
    → decimal_char (first rest) ≡ false
    → (first rest == b'.') ≡ false
    → (c == b'0' && is_radix_letter (first (w ++ rest))) ≡ false
    → At l (c ∷ w ++ rest)
    → next_token floats l ≡ integer_result F (c ∷ w) (bumps (suc (length w)) (mark l))
next_token-integer floats l c w rest digit h n z dot x a =
    next_token-At floats l c (w ++ rest) a
    ∙ ap (λ f. f (mark l)) (token_arm-digit floats c digit)
    ∙ read_number-At floats (mark l) c w rest digit h n z dot x (mark-At a)
