-- ===== src/Lexer/Cursor.antt =====
-- The `Lexer` struct and its character access: `new`, `peek`, `peek_next`, `bump`, `mk_pos`,
-- `mk_span`. The `u32` fields wrap as in a release build, and `as u32` cuts to 32 bits. A method
-- with `&mut self` is a function of type `M A`: it gives the outcome and the lexer that it leaves,
-- also behind an error, since `tokenize` goes on with that lexer.
use tinox.Prelude.{
  ℕ, zero, suc, ◌+◌, ◌-◌, ◌%◌, ◌^◌, Bool, true, false, ◌&&◌, leb, if◌then◌else◌, Option, none, some,
  List, Text, length, get_elem?, take, drop,
}
use tinox.Diag.{Pos, Span, Error, error_at}
use tinox.Lexer.Token.{TokenKind, Token}

pub record Lexer : Type 0 where
  pub chars : List ℕ
  pub pos : ℕ
  pub start : ℕ
  pub line : ℕ
  pub column : ℕ
  pub start_column : ℕ

-- `Lexer::new`
unfoldable pub new : Text → Lexer
new input = record { chars = input; pos = 0; start = 0; line = 1; column = 1; start_column = 1 }

-- What a method comes to. `panic` is a slice out of bounds; `out_of_fuel` is a loop of the model
-- that was given too few rounds.
pub data Outcome (A : Type 0) : Type 0 where
  ok : A → Outcome A
  err : Error → Outcome A
  panic : Outcome A
  out_of_fuel : Outcome A

abbrev pub M : Type 0 → Type 0
M A = Lexer → Outcome A × Lexer

abbrev pub pure : {A : Type 0} → A → M A
pure a l = (ok a, l)

-- What `?` and `;` do with the outcome so far.
abbrev pub and_then : {A B : Type 0} → Outcome A × Lexer → (A → M B) → Outcome B × Lexer
and_then (ok a, l) f = f a l
and_then (err e, l) f = (err e, l)
and_then (panic, l) f = (panic, l)
and_then (out_of_fuel, l) f = (out_of_fuel, l)

infixl 5 ◌>>=◌ ◌>>◌
abbrev pub ◌>>=◌ : {A B : Type 0} → M A → (A → M B) → M B
◌>>=◌ m f l = and_then (m l) f

abbrev pub ◌>>◌ : {B : Type 0} → M (Unit {0}) → M B → M B
m >> k = m >>= λ _. k

-- The lexer as it stands.
abbrev pub get : M Lexer
get l = (ok l, l)

abbrev pub u32_mod : ℕ
u32_mod = 2 ^ 32

-- Arithmetic on a `u32`, and the cast `as u32`.
unfoldable pub wrap32 : ℕ → ℕ
wrap32 n = n % u32_mod

abbrev pub or_nul : Option ℕ → ℕ
or_nul none = 0
or_nul (some c) = c

-- `self.chars.get(self.pos + k)`
abbrev pub char_at : ℕ → Lexer → Option ℕ
char_at k l = get_elem? l.chars (l.pos + k)

-- `Lexer::peek`
unfoldable pub peek : Lexer → ℕ
peek l = or_nul (get_elem? l.chars l.pos)

-- `Lexer::peek_next`
unfoldable pub peek_next : Lexer → ℕ
peek_next l = or_nul (char_at 1 l)

-- `Lexer::bump` on the state, and as a step.
unfoldable pub bumped : Lexer → Lexer
bumped l = record l { pos = suc l.pos; column = wrap32 (l.column + 1) }

abbrev pub bump : M (Unit {0})
bump l = (ok tt, bumped l)

-- `self.line += 1; self.column = c`
unfoldable pub new_line : ℕ → Lexer → Lexer
new_line c l = record l { line = wrap32 (l.line + 1); column = c }

-- `Lexer::mk_pos`
unfoldable pub mk_pos : Lexer → Pos
mk_pos l = record { offset = wrap32 l.pos; line = l.line; column = l.start_column }

-- `Lexer::mk_span`
unfoldable pub mk_span : Lexer → Span
mk_span l = record {
  start = record { offset = wrap32 l.start; line = l.line; column = l.start_column };
  end = record { offset = wrap32 l.pos; line = l.line; column = l.column };
}

-- `Ok(Token::new(kind, self.mk_span()))`
abbrev pub token : {F : Type 0} → TokenKind F → M (Token F)
token k l = (ok (record { kind = k; span = mk_span l }), l)

-- `Err(Error::new(self.mk_span(), message))`
abbrev pub fail : {A : Type 0} → Text → M A
fail m l = (err (error_at (mk_span l) m), l)

-- `self.chars[a..b].iter().collect()`, which panics unless a <= b <= len.
unfoldable pub slice : ℕ → ℕ → M Text
slice a b l =
    if leb a b && leb b (length l.chars)
    then (ok (take (b - a) (drop a l.chars)), l)
    else (panic, l)

-- `while test(self.peek()) { self.bump() }`
unfoldable pub skip_while : (ℕ → Bool) → ℕ → M (Unit {0})
skip_while test zero l = (out_of_fuel, l)
skip_while test (suc fuel) l = elim (test (peek l)) [
  | true ↦ skip_while test fuel (bumped l)
  | false ↦ (ok tt, l)
]

-- Rounds that are enough for every loop over the input.
abbrev pub rounds : Lexer → ℕ
rounds l = suc (length l.chars)
