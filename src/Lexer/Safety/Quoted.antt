-- ===== src/Lexer/Safety/Quoted.antt =====
-- crates/tinox-lexer/src/lib.rs, the readers of quoted literals: outcomes, and the bounds of slices.
use tinox.Prelude.{
  ℕ, zero, suc, ◌+◌, ◌<◌, true, false, not, ◌&&◌, ◌==◌, ltb, ltb→lt, lt→ltb, is_some_of,
  if◌then◌else◌, ◌≡◌, ◌≢◌, refl, length, [], Text, arith, inl, inr, Bool-cases,
}
use tinox.Lexer.Token.{TokenKind, is_eof}
use tinox.Lexer.Cursor.{
  Lexer, Outcome, get, and_then, peek_next, ◌>>=◌, ◌>>◌, bump, fail, peek, char_at, bumped, rounds,
  token,
}
use tinox.Lexer.Escapes.{read_escape}
use tinox.Lexer.Quoted.{
  read_expr, Pieces, read_interp, read_string_escape, string_round, string_loop, no_pieces,
  read_string, read_char, read_byte_literal,
}
use tinox.Lexer.Safety.Escapes.{Moves-bind, Moves-from, read_escape-Moves}
use tinox.Lexer.Safety.Kinds.{string_token-not_eof}
use tinox.Lexer.Safety.Rules.{
  Sat, Sat-bind, Sat-if, Sat-weaken, Ahead, Ahead-refl, Ahead-trans, bumped-Ahead, InBounds, Moves,
  ReadsToken, peek-lt, peek_next-lt, token-Reads,
}

-- A round inside the input, by the rounds behind it; `depth` is matched where a brace closes.
expr_round-Moves :
    (fuel depth : ℕ) (src : Text) (l : Lexer)
    → l.pos < length l.chars
    → ((d : ℕ) (s : Text) → Moves l (read_expr fuel d s (bumped l)))
    → Moves l (read_expr (suc fuel) depth src l)
unfolding read_expr bumped
expr_round-Moves fuel zero src l h again = elim (Bool-cases (peek l == b'}')) [
  | inr o ↦ rw (lt→ltb _ _ h, o, read_expr) (again _ _)
  | inl c ↦ rw (lt→ltb _ _ h, c, read_expr) (record { holds = (bumped-Ahead l, omega arith) })
]
expr_round-Moves fuel (suc d) src l h again = elim (Bool-cases (peek l == b'}')) [
  | inr o ↦ rw (lt→ltb _ _ h, o, read_expr) (again _ _)
  | inl c ↦ rw (lt→ltb _ _ h, c, read_expr) (again _ _)
]

read_expr-Moves :
    (fuel depth : ℕ) (src : Text) (l : Lexer)
    → InBounds l
    → length l.chars < l.pos + fuel
    → Moves l (read_expr fuel depth src l)
unfolding read_expr
read_expr-Moves zero depth src l b f = absurd (omega arith)
read_expr-Moves (suc fuel) depth src l b f = elim (Bool-cases (ltb l.pos (length l.chars))) [
  | inr e ↦ rw (e, read_expr) (record { holds = (Ahead-refl l, b) })
  | inl e ↦
      let h = ltb→lt _ _ e in
      expr_round-Moves fuel depth src l h λ d s. Moves-from _ (bumped-Ahead l) (
        read_expr-Moves fuel d s (bumped l) (unfold bumped in omega arith)
          (unfold bumped in omega arith))
]

-- A method that consumes a character at least.
abbrev Steps : {A : Type 0} → Lexer → Outcome A × Lexer → Type 0
Steps l r = Sat r (λ _ e. Ahead l e × InBounds e × (l.pos < e.pos)) (Ahead l)

Steps-bumped : {A : Type 0} (l : Lexer) (r : Outcome A × Lexer) → Moves (bumped l) r → Steps l r
unfolding bumped
Steps-bumped l r h =
    Sat-weaken r h (λ _ e p. (Ahead-trans (bumped-Ahead l) p.0, p.1, ground arith))
      (λ _ p. Ahead-trans (bumped-Ahead l) p)

module _ (p : Pieces) (l : Lexer) (inside : l.pos < length l.chars) where
  read_interp-Steps : peek_next l ≢ 0 → Steps l (read_interp p l)
  unfolding bumped
  read_interp-Steps n =
      let m = bumped (bumped l) in
      let two = peek_next-lt l n in
      Steps-bumped l _ (
        Moves-from _ (bumped-Ahead (bumped l)) (
          Moves-bind (read_expr (rounds m) 0 [] m) _
            (read_expr-Moves (rounds m) 0 [] m (omega arith) (omega arith))
            λ src e a i. record { holds = (a, i) }))

  read_string_escape-Steps : Steps l (read_string_escape p l)
  unfolding bumped
  read_string_escape-Steps =
      Steps-bumped l _ (elim (Bool-cases (ltb (suc l.pos) (length l.chars))) [
        | inl c ↦ rw c (
            Moves-bind (read_escape (bumped l)) _ (read_escape-Moves (bumped l))
              λ ch e a i. record { holds = (a, i) })
        | inr c ↦ rw c (record { holds = Ahead-refl (bumped l) })
      ])

  interp_next :
      (peek l == b'$' && ltb (suc l.pos) (length l.chars) && is_some_of (char_at 1 l) b'{') ≡ true
      → peek_next l ≢ 0
  unfolding peek_next
  interp_next e = ground arith

  string_round-Steps : Steps l (string_round p l)
  unfolding string_round
  string_round-Steps =
      Sat-if (peek l == b'\n') _ _ l (λ _. record { holds = Ahead-refl l })
        λ _.
          Sat-if
            (peek l == b'$' && ltb (suc l.pos) (length l.chars) && is_some_of (char_at 1 l) b'{') _
            _ l (λ e. read_interp-Steps (interp_next e))
            λ _.
              Sat-if (peek l == b'\\') _ _ l (λ _. read_string_escape-Steps)
                λ _. unfold bumped in record { holds = (bumped-Ahead l, omega arith, omega arith) }

string_loop-Moves :
    (fuel : ℕ) (p : Pieces) (l : Lexer)
    → InBounds l
    → length l.chars < l.pos + fuel
    → Moves l (string_loop fuel p l)
unfolding string_loop
string_loop-Moves zero p l b f = absurd (omega arith)
string_loop-Moves (suc fuel) p l b f =
    elim (Bool-cases (ltb l.pos (length l.chars) && not (peek l == b'"'))) [
      | inr e ↦ rw (e, string_loop) (record { holds = (Ahead-refl l, b) })
      | inl e ↦
          rw (e, string_loop)
            (Sat-bind (string_round p l) _ (string_round-Steps p l (ground arith)) (λ _ h. h)
              λ q m s.
                Moves-from _ s.0
                  (string_loop-Moves fuel q m s.1 (ground (arith, (s.0).same_chars))))
    ]

-- The escape behind a backslash at `m`.
escape-Ahead : (m : Lexer) → Sat (read_escape (bumped m)) (λ _ e. Ahead m e) (Ahead m)
escape-Ahead m =
    Sat-weaken (read_escape (bumped m)) (read_escape-Moves (bumped m))
      (λ _ _ h. Ahead-trans (bumped-Ahead m) h.0) (λ _ h. Ahead-trans (bumped-Ahead m) h)

module _ {F : Type 0} (l : Lexer) (inside : l.pos < length l.chars) where
  pub read_string-Reads : ReadsToken {F = F} l (read_string l)
  unfolding read_string bumped
  read_string-Reads =
      let m = bumped l in
      Sat-bind (string_loop (rounds m) no_pieces m) _
        (string_loop-Moves (rounds m) no_pieces m inside (omega arith))
        (λ _ h. Ahead-trans (bumped-Ahead l) h)
        λ p e h. elim (Bool-cases (ltb e.pos (length e.chars))) [
          | inr o ↦ rw o (record { holds = Ahead-trans (bumped-Ahead l) h.0 })
          | inl c ↦ rw c (
              token-Reads _ (string_token-not_eof F p)
                (Ahead-trans (bumped-Ahead l) (Ahead-trans h.0 (bumped-Ahead e))) (ground arith)
                (ltb→lt _ _ c))
        ]

  -- The closing quote of a character or byte literal, behind its character.
  close_quote-Reads :
      (k : TokenKind F) (m : Text) (e : Lexer)
      → is_eof k ≡ false
      → Ahead (bumped l) e
      → ReadsToken {F = F} l (((if peek e == b'\'' then bump else fail m) >> token k) e)
  unfolding bumped
  close_quote-Reads k m e z a = elim (Bool-cases (peek e == b'\'')) [
    | inr o ↦ rw o (record { holds = Ahead-trans (bumped-Ahead l) a })
    | inl c ↦ rw c (
        token-Reads _ z (Ahead-trans (bumped-Ahead l) (Ahead-trans a (bumped-Ahead e)))
          (ground arith) (peek-lt e (λ n. ground arith)))
  ]

  -- One character and a closing quote, whatever the character's reader is.
  quoted-Reads :
      (r : Outcome ℕ × Lexer) (k : ℕ → TokenKind F) (m : Text)
      → ((c : ℕ) → is_eof (k c) ≡ false)
      → Sat r (λ _ e. Ahead (bumped l) e) (Ahead (bumped l))
      → ReadsToken {F = F} l
          (and_then r λ c. get >>= λ e. (if peek e == b'\'' then bump else fail m) >> token (k c))
  quoted-Reads r k m z h =
      Sat-bind r _ h (λ _ a. Ahead-trans (bumped-Ahead l) a)
        λ c e a. close_quote-Reads (k c) m e (z c) a

  pub read_char-Reads : ReadsToken {F = F} l (read_char l)
  unfolding read_char
  read_char-Reads =
      let m = bumped l in
      quoted-Reads _ _ _ (λ _. refl)
        (Sat-if (peek m == b'\\') _ _ m (λ _. escape-Ahead m)
          λ _.
            Sat-if (peek m == b'\'') _ _ m (λ _. record { holds = Ahead-refl m })
              λ _. record { holds = bumped-Ahead m })

  pub read_byte_literal-Reads : ReadsToken {F = F} l (read_byte_literal l)
  unfolding read_byte_literal
  read_byte_literal-Reads =
      let m = bumped l in
      quoted-Reads _ _ _ (λ _. refl)
        (Sat-if (peek m == b'\\') _ _ m
          (λ _.
            Sat-bind (read_escape (bumped m)) _ (escape-Ahead m) (λ _ h. h)
              λ c e h. record { holds = h })
          λ _.
            Sat-if (peek m == b'\'') _ _ m (λ _. record { holds = Ahead-refl m })
              λ _.
                Sat-if (ltb 127 (peek m)) _ _ m (λ _. record { holds = Ahead-refl m })
                  λ _. record { holds = bumped-Ahead m })
