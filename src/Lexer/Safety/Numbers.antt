-- ===== src/Lexer/Safety/Numbers.antt =====
-- crates/tinox-lexer/src/lib.rs, read_number: its outcomes, and the bounds of its slices, where the integer
-- suffix reader moves the position back.
use tinox.Prelude.{
  ℕ, suc, ◌+◌, ◌≤◌, ◌<◌, Bool, true, false, not, ◌&&◌, ◌||◌, ◌==◌, if◌then◌else◌, Option, none,
  some, List, [], ◌∷◌, ◌≡◌, ◌≢◌, refl, length, drop, Text, codes, ◌++◌, arith, inl, inr, Bool-cases,
}
use tinox.Lexer.Token.{IntSuffix, TokenKind, Token}
use tinox.Lexer.Cursor.{
  Lexer, Outcome, M, ◌>>=◌, pure, bump, fail, token, peek, peek_next, bumped, rounds, skip_while,
}
use tinox.Lexer.Escapes.{ok_or}
use tinox.Lexer.Numbers.{
  FloatParser, from_str_radix, is_digit, decimal_char, hex_char, octal_char, binary_char, stands_at,
  bump_over, take_arm, int_suffixes, read_int_suffix, read_float_suffix, skip_exponent,
  read_radix_int, read_float, finish_integer, read_decimal, read_number, preceded_by_dot,
  number_text, give_up, float_suffixes, integer_kind,
}
use tinox.Lexer.Safety.Escapes.{Moves-bind, Moves-from}
use tinox.Lexer.Safety.RawStrings.{is_some_of-lt}
use tinox.Lexer.Safety.Kinds.{integer_kind-not_eof}
use tinox.Lexer.Safety.Rules.{
  Sat, Sat-bind, Sat-if, Sat-weaken, Ahead, Ahead-refl, Ahead-trans, bumped-Ahead, InBounds, Moves,
  ReadsToken, peek-lt, peek_next-lt, slice-ok, token-Reads, skip_while-Moves, skip_while-Steps,
}

digits-Moves :
    (test : ℕ → Bool) (l : Lexer)
    → test 0 ≡ false
    → InBounds l
    → Moves l (skip_while test (rounds l) l)
digits-Moves test l z b =
    Sat-weaken (skip_while test (rounds l) l) (skip_while-Moves test (rounds l) l z b (omega arith))
      (λ _ _ h. (h.0, h.1)) (λ _ h. absurd h)

optional_bump-Moves :
    (b : Bool) (l : Lexer)
    → InBounds l
    → (b ≡ true → peek l ≢ 0)
    → Moves l ((if b then bump else pure tt) l)
unfolding bumped
optional_bump-Moves true l i h =
    let inside = peek-lt l (h refl) in record { holds = (bumped-Ahead l, inside) }
optional_bump-Moves false l i h = record { holds = (Ahead-refl l, i) }

-- The characters that are tested for are there, so bumping over them stays in bounds.
bump_over-Moves :
    (text : Text) (k : ℕ) (l e : Lexer)
    → Ahead l e
    → e.pos ≡ l.pos + k
    → InBounds e
    → stands_at text k l ≡ true
    → Moves e (bump_over text e)
bump_over-Moves [] k l e a p b h = record { holds = (Ahead-refl e, b) }
bump_over-Moves (c ∷ cs) k l e a p b h =
    let inside = is_some_of-lt l.chars (l.pos + k) c (ground arith) in
    Moves-from _ (bumped-Ahead e) (
      bump_over-Moves cs (suc k) l (bumped e) (Ahead-trans a (bumped-Ahead e))
        (unfold bumped in omega arith) (unfold bumped in ground arith) (ground arith))

take_arm-Moves :
    {A : Type 0} (arms : List (Text × A)) (l : Lexer) → InBounds l → Moves l (take_arm arms l)
take_arm-Moves [] l b = record { holds = (Ahead-refl l, b) }
take_arm-Moves ((text, a) ∷ arms) l b =
    Sat-if (stands_at text 0 l) _ _ l
      (λ e.
        Moves-bind (bump_over text l) _
          (bump_over-Moves text 0 l l (Ahead-refl l) (omega arith) b e)
          λ _ m h i. record { holds = (h, i) })
      λ _. take_arm-Moves arms l b

read_float_suffix-Moves : (l : Lexer) → InBounds l → Moves l (read_float_suffix l)
unfolding read_float_suffix
read_float_suffix-Moves l b =
    Moves-bind ((if peek l == b'_' then bump else pure tt) l) _
      (optional_bump-Moves _ l b (λ e. ground arith))
      λ _ m a i.
        Moves-bind (take_arm float_suffixes m) _
          (Moves-from _ a (take_arm-Moves float_suffixes m i)) λ s e h j. record { holds = (h, j) }

give_up-Moves :
    (s : Option IntSuffix) (l e : Lexer)
    → Ahead l e
    → InBounds l
    → InBounds e
    → Moves l (give_up l.pos s e)
give_up-Moves (some s) l e a b i = record { holds = (ground arith, ground arith) }
give_up-Moves none l e a b i = record { holds = (a, i) }

read_int_suffix-Moves : (l : Lexer) → InBounds l → Moves l (read_int_suffix l)
unfolding read_int_suffix
read_int_suffix-Moves l b =
    Moves-bind ((if peek l == b'_' then bump else pure tt) l) _
      (optional_bump-Moves _ l b (λ e. ground arith))
      λ _ m a i.
        Moves-bind (take_arm int_suffixes m) _ (Moves-from _ a (take_arm-Moves int_suffixes m i))
          λ s e h j. give_up-Moves s l e h b j

-- The rounds are counted at the exponent's start.
skip_digits-Moves :
    (e m : Lexer) → Ahead m e → InBounds e → Moves e (skip_while decimal_char (rounds m) e)
skip_digits-Moves e m a b =
    Sat-weaken (skip_while decimal_char (rounds m) e)
      (skip_while-Moves decimal_char (rounds m) e refl b (ground arith)) (λ _ _ h. (h.0, h.1))
      (λ _ h. absurd h)

skip_exponent-Moves : (l : Lexer) → InBounds l → Moves l (skip_exponent l)
unfolding bumped
skip_exponent-Moves l b = elim (Bool-cases (peek l == b'e' || peek l == b'E')) [
  | inr o ↦ rw o (record { holds = (Ahead-refl l, b) })
  | inl c ↦
      let m = bumped l in
      let inside : l.pos < length l.chars = peek-lt l (λ n. ground arith) in
      rw c (
        Moves-from _ (bumped-Ahead l) (
          Moves-bind ((if peek m == b'+' || peek m == b'-' then bump else pure tt) m) _
            (optional_bump-Moves _ m inside (λ e. ground arith))
            λ _ e a i. Moves-from _ a (skip_digits-Moves e m a i)))
]

-- A method that leaves the cursor where it is.
abbrev Stays : {A : Type 0} → Lexer → Outcome A × Lexer → Type 0
Stays l r = Sat r (λ _ e. Ahead l e × (e.pos ≡ l.pos)) (Ahead l)

number_text-Stays : (a b : ℕ) (l : Lexer) → a ≤ b → b ≤ length l.chars → Stays l (number_text a b l)
number_text-Stays a b l h k = rw (slice-ok a b l h k) (record { holds = (Ahead-refl l, refl) })

ok_or-Stays : {A : Type 0} (o : Option A) (m : Text) (l : Lexer) → Stays l (ok_or o m l)
ok_or-Stays (some a) m l = record { holds = (Ahead-refl l, refl) }
ok_or-Stays none m l = record { holds = Ahead-refl l }

module _ {F : Type 0} {l : Lexer} where
  -- The end of every number reader: the digits' text at `q`, a value from it, and a token.
  parsed-Reads :
      {A : Type 0} (a b : ℕ) (parse : Text → Option A) (message : Text → Text)
      (finish : Text → A → M (Token F)) {q : Lexer}
      → a ≤ b
      → b ≤ length q.chars
      → Ahead l q
      → l.pos < q.pos
      → InBounds q
      → ((text : Text) (v : A) (r : Lexer)
          → Ahead l r
          → l.pos < r.pos
          → InBounds r
          → ReadsToken l (finish text v r))
      → ReadsToken l
          ((number_text a b >>= λ text. ok_or (parse text) (message text) >>= finish text) q)
  parsed-Reads a b parse message finish {q} o h k lt i done =
      Sat-bind (number_text a b q) _ (number_text-Stays a b q o h) (λ _ e. Ahead-trans k e)
        λ text m s.
          Sat-bind (ok_or (parse text) (message text) m) _ (ok_or-Stays _ _ m)
            (λ _ e. Ahead-trans k (Ahead-trans s.0 e))
            λ v r p.
              let k' = Ahead-trans k (Ahead-trans s.0 p.0) in
              done text v r k' (omega arith) (ground arith)

module _ {F : Type 0} where
  read_radix_int-Reads :
      (radix : ℕ) (test : ℕ → Bool) (message : Text) (l : Lexer)
      → test 0 ≡ false
      → peek_next l ≢ 0
      → ReadsToken {F = F} l (read_radix_int radix test message l.pos l)
  unfolding read_radix_int bumped
  read_radix_int-Reads radix test message l z n =
      let m = bumped (bumped l) in
      let two = peek_next-lt l n in
      let a : Ahead l m = ground arith in
      Sat-bind (skip_while test (rounds m) m) _ (digits-Moves test m z two) (λ _ h. Ahead-trans a h)
        λ _ e h.
          parsed-Reads l.pos e.pos (λ text. from_str_radix radix (drop 2 text))
            (λ text. message ++ text) (λ _ v. token (TokenKind.integer v)) (ground arith) h.1
            (Ahead-trans a h.0) (ground arith) h.1 (λ text v r b lt i. token-Reads _ refl b lt i)

  finish_integer-Reads :
      (l e : Lexer)
      → Ahead l e
      → l.pos < e.pos
      → InBounds e
      → ReadsToken {F = F} l (finish_integer l.pos e)
  unfolding finish_integer
  finish_integer-Reads l e a lt i =
      Sat-bind (read_int_suffix e) _ (read_int_suffix-Moves e i) (λ _ h. Ahead-trans a h)
        λ suffix q h.
          parsed-Reads l.pos e.pos (from_str_radix 10)
            (λ text. codes "integer literal out of range for Int64: " ++ text)
            (λ _ v. token (integer_kind suffix v)) (omega arith) (ground arith) (Ahead-trans a h.0)
            (ground arith) h.1
            (λ text v r b k j. token-Reads _ (integer_kind-not_eof F suffix v) b k j)

  finite_token-Reads :
      (finite : Bool) (v : F) (text : Text) {l r : Lexer}
      → Ahead l r
      → l.pos < r.pos
      → InBounds r
      → ReadsToken l (
          (if finite
              then token (TokenKind.float v)
              else fail (codes "float literal out of range for Float64: " ++ text))
            r)
  finite_token-Reads true v text a lt i = token-Reads _ refl a lt i
  finite_token-Reads false v text a lt i = record { holds = a }

  read_float-Reads :
      (floats : FloatParser F) (l e : Lexer)
      → Ahead l e
      → l.pos ≤ e.pos
      → peek e ≢ 0
      → ReadsToken l (read_float floats l.pos e)
  unfolding read_float bumped
  read_float-Reads floats l e a lt n =
      let m = bumped e in
      let inside = peek-lt e n in
      let b = Ahead-trans a (bumped-Ahead e) in
      Sat-bind (skip_while decimal_char (rounds m) m) _ (digits-Moves decimal_char m refl inside)
        (λ _ h. Ahead-trans b h)
        λ _ d h.
          Sat-bind (skip_exponent d) _ (skip_exponent-Moves d h.1)
            (λ _ k. Ahead-trans b (Ahead-trans h.0 k))
            λ _ x k.
              Sat-bind (read_float_suffix x) _ (read_float_suffix-Moves x k.1)
                (λ _ s. Ahead-trans b (Ahead-trans h.0 (Ahead-trans k.0 s)))
                λ _ q s.
                  let c = Ahead-trans b (Ahead-trans h.0 (Ahead-trans k.0 s.0)) in
                  parsed-Reads l.pos x.pos floats.parse_f64
                    (λ text. codes "invalid float literal: " ++ text) _ (ground arith)
                    (ground arith) c (ground arith) s.1
                    (λ text v r p pos i. finite_token-Reads (floats.is_finite v) v text p pos i)

  read_decimal-Reads :
      (floats : FloatParser F) (l : Lexer)
      → is_digit (peek l) ≡ true
      → ReadsToken l (read_decimal floats l.pos l)
  unfolding read_decimal
  read_decimal-Reads floats l d =
      Sat-bind (skip_while decimal_char (rounds l) l) _
        (skip_while-Steps decimal_char l refl (ground arith)) (λ _ h. absurd h)
        λ _ e h.
          Sat-if (not (preceded_by_dot l.pos e) && peek e == b'.' && decimal_char (peek_next e)) _ _
            e (λ dot. read_float-Reads floats l e h.0 (h.0).forward (λ n. ground arith))
            (λ _. finish_integer-Reads l e h.0 h.2 h.1)

  pub read_number-Reads :
      (floats : FloatParser F) (l : Lexer)
      → is_digit (peek l) ≡ true
      → ReadsToken l (read_number floats l)
  unfolding read_number
  read_number-Reads floats l d =
      Sat-if (peek l == b'0') _ _ l
        (λ zero_first.
          Sat-if (peek_next l == b'x' || peek_next l == b'X') _ _ l
            (λ x.
              read_radix_int-Reads 16 hex_char
                (codes "invalid or out-of-range hex integer literal: ") l refl (λ n. ground arith))
            λ _.
              Sat-if (peek_next l == b'o' || peek_next l == b'O') _ _ l
                (λ x.
                  read_radix_int-Reads 8 octal_char
                    (codes "invalid or out-of-range octal integer literal: ") l refl
                    (λ n. ground arith))
                λ _.
                  Sat-if (peek_next l == b'b' || peek_next l == b'B') _ _ l
                    (λ x.
                      read_radix_int-Reads 2 binary_char
                        (codes "invalid or out-of-range binary integer literal: ") l refl
                        (λ n. ground arith))
                    λ _.
                      Sat-if (is_digit (peek_next l) || peek_next l == b'.' || peek_next l == b'_')
                        _ _ l (λ _. read_decimal-Reads floats l d)
                        λ _.
                          token-Reads _ refl (bumped-Ahead l) (unfold bumped in omega arith)
                            (unfold bumped in peek-lt l (λ n. ground arith)))
        λ _. read_decimal-Reads floats l d
