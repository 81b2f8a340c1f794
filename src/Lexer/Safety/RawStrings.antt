-- ===== src/Lexer/Safety/RawStrings.antt =====
-- crates/tinox-lexer/src/lib.rs, read_raw_string: its outcomes, its loops, and the bounds of its slice.
use tinox.Prelude.{
  ℕ, zero, suc, ◌+◌, ◌≤◌, ◌<◌, true, ◌==◌, ltb, ltb→lt, is_some_of, ◌≡◌, refl, length, get_elem?,
  List, [], ◌∷◌, arith, inl, inr, Bool-cases,
}
use tinox.Lexer.Token.{TokenKind}
use tinox.Lexer.Cursor.{Lexer, ok, ◌>>=◌, ◌>>◌, token, peek, bumped, new_line, rounds, slice}
use tinox.Lexer.Quoted.{
  count_hashes, open_hashes, closes, past_close, raw_char, raw_loop, read_raw_string,
}
use tinox.Lexer.Safety.Escapes.{Moves-from}
use tinox.Lexer.Safety.Rules.{
  Sat-bind, Ahead, Ahead-refl, Ahead-trans, bumped-Ahead, InBounds, Moves, ReadsToken, peek-lt,
  slice-ok, token-Reads,
}

pub is_some_of-lt : (cs : List ℕ) (i c : ℕ) → is_some_of (get_elem? cs i) c ≡ true → i < length cs
is_some_of-lt [] i c h = absurd (ground arith)
is_some_of-lt (x ∷ cs) zero c h = omega arith
is_some_of-lt (x ∷ cs) (suc i) c h = omega (arith, is_some_of-lt cs i c h)

-- The hashes that are counted stand in the input.
count_hashes-le :
    (left : ℕ) (cs : List ℕ) (i : ℕ) → i ≤ length cs → i + count_hashes left cs i ≤ length cs
unfolding count_hashes
count_hashes-le zero cs i h = omega arith
count_hashes-le (suc left) cs i h = elim (Bool-cases (is_some_of (get_elem? cs i) b'#')) [
  | inl e ↦
      let k = is_some_of-lt cs i b'#' e in
      rw (e, count_hashes) (omega (arith, count_hashes-le left cs (suc i) k))
  | inr e ↦ rw (e, count_hashes) (omega arith)
]

open_hashes-Moves :
    (fuel hashes : ℕ) (l : Lexer)
    → InBounds l
    → length l.chars < l.pos + fuel
    → Moves l (open_hashes fuel hashes l)
unfolding open_hashes
open_hashes-Moves zero hashes l b f = absurd (omega arith)
open_hashes-Moves (suc fuel) hashes l b f = elim (Bool-cases (peek l == b'#')) [
  | inl e ↦
      let h : l.pos < length l.chars = peek-lt l (λ n. ground arith) in
      rw (e, open_hashes)
        (Moves-from _ (bumped-Ahead l) (
          open_hashes-Moves fuel (suc hashes) (bumped l) (unfold bumped in omega arith)
            (unfold bumped in omega arith)))
  | inr e ↦ rw (e, open_hashes) (record { holds = (Ahead-refl l, b) })
]

raw_char-Ahead : (l : Lexer) → Ahead l (raw_char l) × ((raw_char l).pos ≡ suc l.pos)
unfolding raw_char bumped new_line
raw_char-Ahead l = ground arith

module _ {F : Type 0} (start : Lexer) (body : ℕ) (late : start.pos < body) where
  -- At the closing delimiter: the text is sliced, and the cursor goes behind the last hash.
  raw_close-Reads :
      (hashes : ℕ) (l : Lexer)
      → Ahead start l
      → body ≤ l.pos
      → l.pos < length l.chars
      → closes hashes l ≡ true
      → ReadsToken {F = F} start (
          (slice body l.pos >>= λ text.
          (λ e. (ok tt, past_close hashes e)) >> token (TokenKind.raw_string text))
            l)
  raw_close-Reads hashes l a m h c =
      let fits : suc l.pos + hashes ≤ length l.chars =
        ground (arith, count_hashes-le hashes l.chars (suc l.pos)) in
      rw (slice-ok body l.pos l m (omega arith))
        (token-Reads _ refl (ground arith) (omega arith) fits)

  raw_loop-Reads :
      (fuel hashes : ℕ) (l : Lexer)
      → Ahead start l
      → body ≤ l.pos
      → InBounds l
      → length l.chars < l.pos + fuel
      → ReadsToken {F = F} start (raw_loop fuel hashes body l)
  unfolding raw_loop
  raw_loop-Reads zero hashes l a m b f = absurd (omega arith)
  raw_loop-Reads (suc fuel) hashes l a m b f = elim (Bool-cases (ltb l.pos (length l.chars))) [
    | inr e ↦ rw (e, raw_loop) (record { holds = a })
    | inl e ↦ elim (Bool-cases (closes hashes l)) [
      | inl c ↦ rw (e, c, raw_loop) (raw_close-Reads hashes l a m (ltb→lt _ _ e) c)
      | inr o ↦
          let step = raw_char-Ahead l in
          let h = ltb→lt _ _ e in
          rw (e, o, raw_loop)
            (raw_loop-Reads fuel hashes (raw_char l) (Ahead-trans a step.0) (omega arith)
              (ground arith) (ground arith))
    ]
  ]

module _ {F : Type 0} (l : Lexer) (at_r : peek l ≡ b'r') where
  pub read_raw_string-Reads : ReadsToken {F = F} l (read_raw_string l)
  unfolding read_raw_string bumped
  read_raw_string-Reads =
      let inside : l.pos < length l.chars = peek-lt l (λ n. ground arith) in
      let m = bumped l in
      rw at_r (
        Sat-bind (open_hashes (rounds m) 0 m) _
          (open_hashes-Moves (rounds m) 0 m inside (omega arith))
          (λ _ h. Ahead-trans (bumped-Ahead l) h)
          λ hashes q p. elim (Bool-cases (peek q == b'"')) [
            | inr o ↦ rw o (record { holds = Ahead-trans (bumped-Ahead l) p.0 })
            | inl c ↦
                let s = bumped q in
                let h : q.pos < length q.chars = peek-lt q (λ n. ground arith) in
                rw c (
                  raw_loop-Reads l s.pos (ground arith) (rounds s) hashes s
                    (Ahead-trans (bumped-Ahead l) (Ahead-trans p.0 (bumped-Ahead q))) (omega arith)
                    h (omega arith))
          ])
