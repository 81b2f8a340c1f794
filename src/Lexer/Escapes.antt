-- ===== src/Lexer/Escapes.antt =====
-- `read_escape`, `read_hex_digit` and `expect_char`. `char::from_u32` accepts the Unicode scalar
-- values: up to 0x10FFFF, without the surrogates.
use tinox.Prelude.{
  ℕ, zero, suc, ◌+◌, ◌-◌, ◌*◌, true, false, not, ◌&&◌, ◌==◌, ltb, within, if◌then◌else◌, Option,
  none, some, [], ◌∷◌, ◌++◌, Text, codes,
}
use tinox.Lexer.Cursor.{M, ◌>>=◌, ◌>>◌, pure, get, bump, peek, fail, wrap32}

unfoldable pub from_u32 : ℕ → Option ℕ
from_u32 n = if ltb n 0x110000 && not (within 0xD800 0xDFFF n) then some n else none

-- The value of a hexadecimal digit, as the arms of `read_hex_digit` compute it.
unfoldable pub hex_value : ℕ → Option ℕ
hex_value c =
    if within b'0' b'9' c
    then some (c - b'0')
    else if within b'a' b'f' c
    then some (c - b'a' + 10)
    else if within b'A' b'F' c
    then some (c - b'A' + 10)
    else none

-- `ok_or_else(|| Error::new(self.mk_span(), message))`
abbrev pub ok_or : {A : Type 0} → Option A → Text → M A
ok_or (some a) m = pure a
ok_or none m = fail m

unfoldable pub read_hex_digit : M ℕ
read_hex_digit = do
  l ← get
  bump
  ok_or (hex_value (peek l)) (codes "expected hex digit, found: " ++ peek l ∷ [])

unfoldable pub expect_char : ℕ → M (Unit {0})
expect_char c = do
  l ← get
  (if peek l == c then bump else fail (codes "expected '" ++ c ∷ codes "'"))

-- `\u{`: up to six digits, while no `}` stands there. `left` counts the rounds left, from 6.
unfoldable pub hex_digits_to_brace : ℕ → ℕ → M ℕ
unfolding read_hex_digit
hex_digits_to_brace zero value l = pure value l
hex_digits_to_brace (suc left) value l = elim (peek l == b'}') [
  | true ↦ pure value l
  | false ↦ (do d ← read_hex_digit; hex_digits_to_brace left (wrap32 (value * 16 + d))) l
]

-- `\U`: `left` digits more.
unfoldable pub hex_digits : ℕ → ℕ → M ℕ
unfolding read_hex_digit
hex_digits zero value = pure value
hex_digits (suc left) value = do d ← read_hex_digit; hex_digits left (wrap32 (value * 16 + d))

abbrev pub escape_x : M ℕ
escape_x = do
  d1 ← read_hex_digit
  d2 ← read_hex_digit
  ok_or (from_u32 (d1 * 16 + d2)) (codes "invalid hex escape")

abbrev pub escape_u : M ℕ
escape_u = do
  expect_char b'{'
  value ← hex_digits_to_brace 6 0
  expect_char b'}'
  ok_or (from_u32 value) (codes "invalid unicode escape")

abbrev pub escape_U : M ℕ
escape_U = do value ← hex_digits 8 0; ok_or (from_u32 value) (codes "invalid unicode escape")

-- The arms of `read_escape` on the character `c` behind the backslash, which is consumed.
unfoldable pub escape_arm : ℕ → M ℕ
unfolding read_hex_digit expect_char hex_digits_to_brace hex_digits
escape_arm c =
    if c == b'n'
    then pure b'\n'
    else if c == b't'
    then pure b'\t'
    else if c == b'r'
    then pure b'\r'
    else if c == b'\\'
    then pure b'\\'
    else if c == b'"'
    then pure b'"'
    else if c == b'\''
    then pure b'\''
    else if c == b'0'
    then pure 0
    else if c == b'x'
    then escape_x
    else if c == b'u'
    then escape_u
    else if c == b'U'
    then escape_U
    else fail (codes "unknown escape sequence: \\" ++ c ∷ [])

unfoldable pub read_escape : M ℕ
unfolding escape_arm
read_escape = do l ← get; bump; escape_arm (peek l)
