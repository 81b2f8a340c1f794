-- ===== src/Lexer/Reading/Strings.antt =====
-- String literals: `next_token` on a text that is escaped character by character.
use tinox.Prelude.{
  ℕ, zero, suc, ◌+◌, ◌≤◌, ◌<◌, Bool, true, false, ◌==◌, ==→≡, ltb, lt→ltb, if◌then◌else◌, some, [],
  ◌∷◌, ◌++◌, append-nil, append_assoc, Text, codes, length, length-append, ◌≡◌, refl, sym, ap, ◌∙◌,
  subst, arith,
}
use tinox.Lexer.Token.{TokenKind}
use tinox.Lexer.Cursor.{Lexer, ok, peek, bumped, rounds, token}
use tinox.Lexer.Escapes.{from_u32, hex_value, read_hex_digit, escape_arm, read_escape}
use tinox.Lexer.Numbers.{FloatParser}
use tinox.Lexer.Quoted.{
  Pieces, no_pieces, push_char, read_string_escape, string_round, string_loop, read_string,
}
use tinox.Lexer.Next.{token_arm, mark, next_token}
use tinox.Lexer.Reading.At.{At, first, bumps, bumps-At, bumped-At, peek-At}
use tinox.Lexer.Reading.Words.{next_token-At, mark-At}

-- How a character is written inside a literal. A dollar sign has no escape of its own; written as
-- `\x24` it cannot begin an interpolation.
abbrev pub escaped : ℕ → Text
escaped c =
    if c == b'"'
    then codes "\\\""
    else if c == b'\\'
    then codes "\\\\"
    else if c == b'\n'
    then codes "\\n"
    else if c == b'$'
    then codes "\\x24"
    else c ∷ []

abbrev pub all_escaped : Text → Text
all_escaped [] = []
all_escaped (c ∷ s) = escaped c ++ all_escaped s

-- An escape of two characters: the backslash, and one that stands for `d`.
simple_escape-At :
    (p : Pieces) (l : Lexer) (c d : ℕ) (rest : Text)
    → ((e : Lexer) → escape_arm c e ≡ (ok d, e))
    → At l (b'\\' ∷ c ∷ rest)
    → read_string_escape p l ≡ (ok (push_char p d), bumped (bumped l))
unfolding read_escape
simple_escape-At p l c d rest arm a =
    let b = bumped-At b'\\' (c ∷ rest) a in
    let inside : ltb (bumped l).pos (length (bumped l).chars) ≡ true =
      lt→ltb _ _ (omega (arith, b.in_bounds)) in
    rw inside (rw (peek-At (c ∷ rest) b, arm (bumped (bumped l))))

read_hex_digit-At :
    (l : Lexer) (c d : ℕ) (rest : Text)
    → hex_value c ≡ some d
    → At l (c ∷ rest)
    → read_hex_digit l ≡ (ok d, bumped l)
unfolding read_hex_digit
read_hex_digit-At l c d rest h a = rw (peek-At (c ∷ rest) a, h)

-- `\x24`
dollar-At :
    (p : Pieces) (l : Lexer) (rest : Text)
    → At l (codes "\\x24" ++ rest)
    → read_string_escape p l ≡ (ok (push_char p b'$'), bumps 4 l)
unfolding read_escape escape_arm hex_value from_u32
dollar-At p l rest a =
    let b = bumped-At b'\\' (codes "x24" ++ rest) a in
    let c = bumped-At b'x' (codes "24" ++ rest) b in
    let d = bumped-At b'2' (b'4' ∷ rest) c in
    let inside : ltb (bumped l).pos (length (bumped l).chars) ≡ true =
      lt→ltb _ _ (omega (arith, b.in_bounds)) in
    rw inside (
      rw (peek-At (codes "x24" ++ rest) b) (
        rw (read_hex_digit-At (bumps 2 l) b'2' 2 (b'4' ∷ rest) refl c)
          (rw (read_hex_digit-At (bumps 3 l) b'4' 4 rest refl d))))

-- The loop's round on a character that is not escaped, and on a backslash.
plain_round-At :
    (p : Pieces) (l : Lexer) (c : ℕ) (rest : Text)
    → (c == b'"') ≡ false
    → (c == b'\\') ≡ false
    → (c == b'\n') ≡ false
    → (c == b'$') ≡ false
    → At l (c ∷ rest)
    → string_round p l ≡ (ok (push_char p c), bumped l)
unfolding string_round
plain_round-At p l c rest q b n d a = rw (peek-At (c ∷ rest) a) (rw (n, d, b))

escape_round-At :
    (p : Pieces) (l : Lexer) (rest : Text)
    → At l (b'\\' ∷ rest)
    → string_round p l ≡ read_string_escape p l
unfolding string_round
escape_round-At p l rest a = rw (peek-At (b'\\' ∷ rest) a)

module _ (p : Pieces) (l : Lexer) (rest : Text) where
  -- One round on the text `t` gives the character `c`.
  abbrev RoundGives : ℕ → Text → Type 0
  RoundGives c t = At l (t ++ rest) → string_round p l ≡ (ok (push_char p c), bumps (length t) l)

  RoundGives-if :
      (c : ℕ) (b : Bool) (t u : Text)
      → (b ≡ true → RoundGives c t)
      → (b ≡ false → RoundGives c u)
      → RoundGives c (if b then t else u)
  RoundGives-if c true t u h k = h refl
  RoundGives-if c false t u h k = k refl

  simple_round-At :
      (c d : ℕ) → ((e : Lexer) → escape_arm c e ≡ (ok d, e)) → RoundGives d (b'\\' ∷ c ∷ [])
  simple_round-At c d arm a = escape_round-At p l _ a ∙ simple_escape-At p l c d rest arm a

  dollar_round-At : RoundGives b'$' (codes "\\x24")
  dollar_round-At a = escape_round-At p l _ a ∙ dollar-At p l rest a

  -- At a character that is known by a test, the round gives that character.
  known : (c d : ℕ) (t : Text) → (c == d) ≡ true → RoundGives d t → RoundGives c t
  known c d t e h = subst (λ x. RoundGives x t) (sym (==→≡ c d e)) h

  -- One escaped character is read back in one round.
  round-At : (c : ℕ) → RoundGives c (escaped c)
  unfolding escape_arm
  round-At c =
      RoundGives-if c (c == b'"') _ _
        (λ e. known c b'"' (codes "\\\"") e (simple_round-At b'"' b'"' (λ _. refl)))
        λ q.
          RoundGives-if c (c == b'\\') _ _
            (λ e. known c b'\\' (codes "\\\\") e (simple_round-At b'\\' b'\\' (λ _. refl)))
            λ b.
              RoundGives-if c (c == b'\n') _ _
                (λ e. known c b'\n' (codes "\\n") e (simple_round-At b'n' b'\n' (λ _. refl)))
                λ n.
                  RoundGives-if c (c == b'$') _ _
                    (λ e. known c b'$' (codes "\\x24") e dollar_round-At)
                    λ d a. plain_round-At p l c rest q b n d a

-- A character that begins an escaped one is no closing quote.
escaped-open : (c : ℕ) (rest : Text) → (first (escaped c ++ rest) == b'"') ≡ false
escaped-open c rest = ground arith

bumps-bumps : (m n k : ℕ) (l : Lexer) → m + n ≡ k → bumps n (bumps m l) ≡ bumps k l
bumps-bumps zero n k l e = let same : n ≡ k = omega arith in rw same
bumps-bumps (suc m) n zero l e = absurd (omega arith)
bumps-bumps (suc m) n (suc k) l e = bumps-bumps m n k (bumped l) (omega arith)

abbrev push_all : Pieces → Text → Pieces
push_all p s = record p { current_str = p.current_str ++ s }

push_all-push_char :
    (p : Pieces) (c : ℕ) (s : Text) → push_all (push_char p c) s ≡ push_all p (c ∷ s)
push_all-push_char p c s =
    ap (λ (t : Text). record p { current_str = t }) (append_assoc p.current_str (c ∷ []) s)

length-escaped : (c : ℕ) → 0 < length (escaped c)
length-escaped c = ground arith

string_loop-At :
    (s rest : Text) (fuel : ℕ) (p : Pieces) (l : Lexer)
    → length s < fuel
    → At l (all_escaped s ++ b'"' ∷ rest)
    → string_loop fuel p l ≡ (ok (push_all p s), bumps (length (all_escaped s)) l)
unfolding string_loop
string_loop-At s rest zero p l f a = absurd (omega arith)
string_loop-At [] rest (suc fuel) p l f a =
    let inside : ltb l.pos (length l.chars) ≡ true = lt→ltb _ _ (omega (arith, a.in_bounds)) in
    rw (inside, peek-At (b'"' ∷ rest) a, string_loop) (rw append-nil)
string_loop-At (c ∷ s) rest (suc fuel) p l f a =
    let more = all_escaped s ++ b'"' ∷ rest in
    let b : At l (escaped c ++ more) =
      subst (At l) (append_assoc (escaped c) (all_escaped s) (b'"' ∷ rest)) a in
    let inside : ltb l.pos (length l.chars) ≡ true =
      lt→ltb _ _ (omega (arith, b.in_bounds, length-append (escaped c) more, length-escaped c)) in
    let open_ : (peek l == b'"') ≡ false =
      ap (λ d. d == b'"') (peek-At (escaped c ++ more) b) ∙ escaped-open c more in
    let ih =
      string_loop-At s rest fuel (push_char p c) (bumps (length (escaped c)) l) (omega arith)
        (bumps-At (escaped c) more l b) in
    rw (inside, open_, string_loop)
      (rw (round-At p l more c b) (
        ih
        ∙ rw (push_all-push_char p c s) (
            rw (
              bumps-bumps (length (escaped c)) (length (all_escaped s)) _ l
                (sym (length-append (escaped c) (all_escaped s)))))))

-- The length of the literal's body bounds the number of rounds.
length-all_escaped : (s : Text) → length s ≤ length (all_escaped s)
length-all_escaped [] = omega arith
length-all_escaped (c ∷ s) =
    omega (arith, length-append (escaped c) (all_escaped s), length-all_escaped s, length-escaped c)

read_string-At :
    {F : Type 0} (l : Lexer) (s rest : Text)
    → At l (b'"' ∷ all_escaped s ++ b'"' ∷ rest)
    → read_string {F = F} l
      ≡ token (TokenKind.string s) (bumped (bumps (length (all_escaped s)) (bumped l)))
unfolding read_string
read_string-At l s rest a =
    let b = bumped-At b'"' (all_escaped s ++ b'"' ∷ rest) a in
    let e = bumps (length (all_escaped s)) (bumped l) in
    let c = bumps-At (all_escaped s) (b'"' ∷ rest) (bumped l) b in
    let fuel : length s < rounds (bumped l) =
      omega
        (arith, b.in_bounds, length-append (all_escaped s) (b'"' ∷ rest), length-all_escaped s) in
    let inside : ltb e.pos (length e.chars) ≡ true = lt→ltb _ _ (omega (arith, c.in_bounds)) in
    rw (string_loop-At s rest (rounds (bumped l)) no_pieces (bumped l) fuel b) (rw inside)

-- Any text `s`, written as a string literal with its quotes, backslashes, line feeds and dollar
-- signs escaped, is read back by `next_token` as the string token of `s`, whatever follows the
-- literal; the cursor is then behind the closing quote.
pub next_token-string :
    {F : Type 0} (floats : FloatParser F) (l : Lexer) (s rest : Text)
    → At l (b'"' ∷ all_escaped s ++ b'"' ∷ rest)
    → next_token floats l
      ≡ token (TokenKind.string s) (bumped (bumps (length (all_escaped s)) (bumped (mark l))))
unfolding token_arm
next_token-string floats l s rest a =
    next_token-At floats l b'"' (all_escaped s ++ b'"' ∷ rest) a
    ∙ read_string-At (mark l) s rest (mark-At a)
