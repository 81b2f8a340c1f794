-- ===== src/Lexer/Numbers.antt =====
-- Number literals: `read_number`, the suffix readers and the radix readers. `i64::from_str_radix`
-- and `str::parse::<i64>` are modelled on what reaches them, texts without a sign (a leading `+`
-- or `-`, which Rust also takes, is no digit here). `str::parse::<f64>` and `f64::is_finite` are
-- the parameter `FloatParser`.
use tinox.Prelude.{
  ℕ, zero, suc, ◌+◌, ◌-◌, ◌*◌, ◌^◌, Bool, true, false, not, ◌&&◌, ◌||◌, ◌==◌, ltb, leb, within,
  if◌then◌else◌, is_some_of, Option, none, some, List, [], ◌∷◌, ◌++◌, Text, codes, get_elem?, drop,
  keep,
}
use tinox.Lexer.Token.{IntSuffix, FloatType, TokenKind, Token}
use tinox.Lexer.Cursor.{
  Lexer, M, ◌>>=◌, ◌>>◌, pure, get, bump, peek, peek_next, char_at, token, fail, slice, rounds,
  skip_while, ok,
}
use tinox.Lexer.Escapes.{hex_value, ok_or}

pub record FloatParser (F : Type 0) : Type 0 where
  pub parse_f64 : Text → Option F
  pub is_finite : F → Bool

abbrev pub i64_max : ℕ
i64_max = 2 ^ 63 - 1

-- `char::to_digit(radix)`, for a radix up to 16.
unfoldable pub to_digit : ℕ → ℕ → Option ℕ
unfolding hex_value
to_digit radix c = elim (hex_value c) [
  | none ↦ none
  | some d ↦ if ltb d radix then some d else none
]

-- The digits read so far stand for `value`; a value beyond `i64::MAX` is an overflow error.
unfoldable pub add_digits : ℕ → ℕ → Text → Option ℕ
unfolding to_digit
add_digits radix value [] = some value
add_digits radix value (c ∷ cs) = elim (to_digit radix c) [
  | none ↦ none
  | some d ↦ elim (leb (value * radix + d) i64_max) [
    | true ↦ add_digits radix (value * radix + d) cs
    | false ↦ none
  ]
]

-- `i64::from_str_radix(text, radix).ok()`
unfoldable pub from_str_radix : ℕ → Text → Option ℕ
unfolding add_digits
from_str_radix radix [] = none
from_str_radix radix (c ∷ cs) = add_digits radix 0 (c ∷ cs)

abbrev pub is_digit : ℕ → Bool
is_digit = within b'0' b'9'

-- The tests of the loops over digits.
abbrev pub decimal_char : ℕ → Bool
decimal_char c = is_digit c || c == b'_'

abbrev pub hex_char : ℕ → Bool
hex_char c = is_digit c || within b'a' b'f' c || within b'A' b'F' c || c == b'_'

abbrev pub octal_char : ℕ → Bool
octal_char c = (is_digit c && not (c == b'8') && not (c == b'9')) || c == b'_'

abbrev pub binary_char : ℕ → Bool
binary_char c = c == b'0' || c == b'1' || c == b'_'

-- `self.chars[a..b].iter().filter(|c| **c != '_').collect()`
abbrev pub number_text : ℕ → ℕ → M Text
number_text a b = do text ← slice a b; pure (keep (λ c. not (c == b'_')) text)

-- The characters of `text` stand at the cursor.
abbrev pub stands_at : Text → ℕ → Lexer → Bool
stands_at [] k l = true
stands_at (c ∷ cs) k l = is_some_of (char_at k l) c && stands_at cs (suc k) l

-- `self.bump()`, as often as `text` has characters.
abbrev pub bump_over : Text → M (Unit {0})
bump_over [] = pure tt
bump_over (_ ∷ cs) = bump >> bump_over cs

-- The first arm that stands at the cursor is consumed.
abbrev pub take_arm : {A : Type 0} → List (Text × A) → M (Option A)
take_arm [] l = pure none l
take_arm ((text, a) ∷ arms) l =
    (if stands_at text 0 l then (bump_over text >> pure (some a)) else take_arm arms) l

-- The arms of `read_int_suffix` in their order; the last two test four characters only.
abbrev pub int_suffixes : List (Text × IntSuffix)
int_suffixes =
    (codes "u8", IntSuffix.unsigned8)
    ∷ (codes "u16", IntSuffix.unsigned16)
    ∷ (codes "u32", IntSuffix.unsigned32)
    ∷ (codes "u64", IntSuffix.unsigned64)
    ∷ (codes "i8", IntSuffix.signed8)
    ∷ (codes "i16", IntSuffix.signed16)
    ∷ (codes "i32", IntSuffix.signed32)
    ∷ (codes "i64", IntSuffix.signed64)
    ∷ (codes "usiz", IntSuffix.usize)
    ∷ (codes "isiz", IntSuffix.size)
    ∷ []

-- `self.pos = p`
abbrev pub set_pos : ℕ → M (Unit {0})
set_pos p l = (ok tt, record l { pos = p })

-- The end of `read_int_suffix`: a suffix that is found is given up, and the reader returns none.
abbrev pub give_up : ℕ → Option IntSuffix → M (Option IntSuffix)
give_up p (some _) = set_pos p >> pure none
give_up p none = pure none

-- The position goes back to where it was; the column does not.
unfoldable pub read_int_suffix : M (Option IntSuffix)
read_int_suffix = do
  s ← get
  (if peek s == b'_' then bump else pure tt)
  suffix ← take_arm int_suffixes
  give_up s.pos suffix

-- The default type is `Float64`.
abbrev pub float_type : Option FloatType → FloatType
float_type (some t) = t
float_type none = FloatType.float64

abbrev pub float_suffixes : List (Text × FloatType)
float_suffixes = (codes "f32", FloatType.float32) ∷ (codes "f64", FloatType.float64) ∷ []

unfoldable pub read_float_suffix : M FloatType
read_float_suffix = do
  s ← get
  (if peek s == b'_' then bump else pure tt)
  suffix ← take_arm float_suffixes
  pure (float_type suffix)

-- The exponent of a float, if there is one.
abbrev pub skip_exponent : M (Unit {0})
skip_exponent = do
  l ← get
  (if peek l == b'e' || peek l == b'E'
      then (do
        bump
        s ← get
        (if peek s == b'+' || peek s == b'-' then bump else pure tt)
        skip_while decimal_char (rounds l))
      else pure tt)

-- `start > 0 && self.chars[start - 1] == '.'`
abbrev pub preceded_by_dot : ℕ → Lexer → Bool
preceded_by_dot zero l = false
preceded_by_dot (suc before) l = is_some_of (get_elem? l.chars before) b'.'

module _ {F : Type 0} where
  -- `read_hex_int`, `read_octal_int` and `read_binary_int` differ in these three arguments.
  unfoldable pub read_radix_int : ℕ → (ℕ → Bool) → Text → ℕ → M (Token F)
  unfolding from_str_radix
  read_radix_int radix test message start = do
    bump
    bump
    l ← get
    skip_while test (rounds l)
    e ← get
    text ← number_text start e.pos
    value ← ok_or (from_str_radix radix (drop 2 text)) (message ++ text)
    token (TokenKind.integer value)

  abbrev pub read_hex_int : ℕ → M (Token F)
  read_hex_int = read_radix_int 16 hex_char (codes "invalid or out-of-range hex integer literal: ")

  abbrev pub read_octal_int : ℕ → M (Token F)
  read_octal_int =
      read_radix_int 8 octal_char (codes "invalid or out-of-range octal integer literal: ")

  abbrev pub read_binary_int : ℕ → M (Token F)
  read_binary_int =
      read_radix_int 2 binary_char (codes "invalid or out-of-range binary integer literal: ")

  -- The float branch of `read_number`, from the dot.
  unfoldable pub read_float : FloatParser F → ℕ → M (Token F)
  unfolding read_float_suffix
  read_float floats start = do
    bump
    l ← get
    skip_while decimal_char (rounds l)
    skip_exponent
    e ← get
    suffix ← read_float_suffix
    text ← number_text start e.pos
    value ← ok_or (floats.parse_f64 text) (codes "invalid float literal: " ++ text)
    (if floats.is_finite value
        then token (TokenKind.float value)
        else fail (codes "float literal out of range for Float64: " ++ text))

  abbrev pub integer_kind : Option IntSuffix → ℕ → TokenKind F
  integer_kind (some s) value = TokenKind.integer_suffix s
  integer_kind none value = TokenKind.integer value

  -- The end of `read_number`: an integer whose digits are consumed.
  unfoldable pub finish_integer : ℕ → M (Token F)
  unfolding read_int_suffix from_str_radix
  finish_integer start = do
    e ← get
    suffix ← read_int_suffix
    text ← number_text start e.pos
    value ←
        ok_or (from_str_radix 10 text) (codes "integer literal out of range for Int64: " ++ text)
    token (integer_kind suffix value)

  -- `read_number` behind the test for a leading `0`.
  unfoldable pub read_decimal : FloatParser F → ℕ → M (Token F)
  unfolding read_float finish_integer
  read_decimal floats start = do
    l ← get
    skip_while decimal_char (rounds l)
    e ← get
    (if not (preceded_by_dot start e) && peek e == b'.' && decimal_char (peek_next e)
        then read_float floats start
        else finish_integer start)

  unfoldable pub read_number : FloatParser F → M (Token F)
  unfolding read_radix_int read_decimal
  read_number floats l =
      (if peek l == b'0'
          then (if peek_next l == b'x' || peek_next l == b'X'
              then read_hex_int l.pos
              else if peek_next l == b'o' || peek_next l == b'O'
              then read_octal_int l.pos
              else if peek_next l == b'b' || peek_next l == b'B'
              then read_binary_int l.pos
              else if is_digit (peek_next l) || peek_next l == b'.' || peek_next l == b'_'
              then read_decimal floats l.pos
              else (bump >> token (TokenKind.integer 0)))
          else read_decimal floats l.pos)
        l
