-- ===== src/Lexer/Safety/Comments.antt =====
-- crates/tinox-lexer/src/lib.rs, the comment readers: outcomes, loops, and the bounds of the text.
use tinox.Prelude.{
  ℕ, zero, suc, ◌+◌, ◌<◌, Bool, true, false, not, ◌&&◌, ◌==◌, ltb, ltb→lt, if◌then◌else◌, ◌≡◌, ◌≢◌,
  refl, length, arith, inl, inr, Bool-cases,
}
use tinox.Lexer.Token.{TokenKind}
use tinox.Lexer.Cursor.{
  Lexer, ◌>>=◌, ◌>>◌, pure, bump, peek, peek_next, bumped, new_line, rounds, slice, token,
}
use tinox.Lexer.Comments.{
  skip_line, comment_char, skip_block, read_line_comment, comment_token, read_block_comment,
}
use tinox.Lexer.Safety.Kinds.{if-not_eof}
use tinox.Lexer.Safety.Rules.{
  Sat, Sat-bind, Sat-if, Sat-weaken, Ahead, Ahead-refl, Ahead-trans, bumped-Ahead, InBounds,
  ReadsToken, peek-lt, peek_next-lt, slice-ok, token-Reads,
}

skip_line-Moves :
    (fuel : ℕ) (l : Lexer)
    → InBounds l
    → length l.chars < l.pos + fuel
    → Sat (skip_line fuel l) (λ _ e. Ahead l e × InBounds e) (λ _. ⊥)
unfolding skip_line
skip_line-Moves zero l b f = absurd (omega arith)
skip_line-Moves (suc fuel) l b f =
    elim (Bool-cases (ltb l.pos (length l.chars) && not (peek l == b'\n'))) [
      | inl e ↦
          let inside : l.pos < length l.chars = ground arith in
          rw (e, skip_line)
            (Sat-weaken (skip_line fuel (bumped l))
              (skip_line-Moves fuel (bumped l) (unfold bumped in omega arith)
                (unfold bumped in omega arith))
              (λ _ e' h. (Ahead-trans (bumped-Ahead l) h.0, h.1)) (λ _ h. h))
      | inr e ↦ rw (e, skip_line) (record { holds = (Ahead-refl l, b) })
    ]

comment_char-Ahead : (l : Lexer) → Ahead l (comment_char l) × ((comment_char l).pos ≡ suc l.pos)
unfolding comment_char bumped new_line
comment_char-Ahead l = ground arith

-- Where the loop stops inside the input, two characters are there to be consumed.
skip_block-Moves :
    (fuel : ℕ) (l : Lexer)
    → InBounds l
    → length l.chars < l.pos + fuel
    → Sat
        (skip_block fuel l)
        (λ _ e. Ahead l e × InBounds e × (e.pos < length e.chars → suc e.pos < length e.chars))
        (λ _. ⊥)
unfolding skip_block
skip_block-Moves zero l b f = absurd (omega arith)
skip_block-Moves (suc fuel) l b f = elim (Bool-cases (ltb l.pos (length l.chars))) [
  | inr e ↦ rw (e, skip_block) (record { holds = (Ahead-refl l, b, λ h. absurd (ground arith)) })
  | inl e ↦ elim (Bool-cases (peek l == b'*' && peek_next l == b'/')) [
    | inl s ↦
        rw (e, s, skip_block)
          (record { holds = (Ahead-refl l, b, λ _. ground (arith, peek_next-lt l)) })
    | inr s ↦
        let step = comment_char-Ahead l in
        let inside = ltb→lt _ _ e in
        rw (e, s, skip_block)
          (Sat-weaken (skip_block fuel (comment_char l))
            (skip_block-Moves fuel (comment_char l) (ground arith) (ground arith))
            (λ _ e' h. (Ahead-trans step.0 h.0, h.1, h.2)) (λ _ h. h))
  ]
]

module _ {F : Type 0} (l : Lexer) where
  pub read_line_comment-Reads : peek_next l ≢ 0 → ReadsToken {F = F} l (read_line_comment l)
  unfolding read_line_comment bumped
  read_line_comment-Reads n =
      let m = bumped (bumped l) in
      let inside = peek_next-lt l n in
      Sat-bind (skip_line (rounds m) m) _ (skip_line-Moves (rounds m) m (omega arith) (omega arith))
        (λ _ h. absurd h)
        (λ _ e h.
          rw (slice-ok m.pos e.pos e (h.0).forward h.1)
            (token-Reads _ refl (ground arith) (ground arith) h.1))

  -- Behind the loop: the `*/` is consumed where there is one, and the text is sliced.
  after_block-Reads :
      (is_doc : Bool) (m e : Lexer)
      → Ahead l m
      → l.pos < m.pos
      → Ahead m e
      → InBounds e
      → (e.pos < length e.chars → suc e.pos < length e.chars)
      → ReadsToken {F = F} l (
          ((if ltb e.pos (length e.chars) then (bump >> bump) else pure tt)
              >> (slice m.pos e.pos >>= λ text.
                  token (if is_doc then TokenKind.doc_comment text else TokenKind.comment text)))
            e)
  unfolding bumped
  after_block-Reads is_doc m e a lt ae be close = elim (Bool-cases (ltb e.pos (length e.chars))) [
    | inl c ↦
        let two = close (ltb→lt _ _ c) in
        rw (c, slice-ok m.pos e.pos (bumped (bumped e)) ae.forward be)
          (token-Reads _ (if-not_eof F is_doc _ _ refl refl) (ground arith) (ground arith)
            (omega arith))
    | inr c ↦
        rw (c, slice-ok m.pos e.pos e ae.forward be)
          (token-Reads _ (if-not_eof F is_doc _ _ refl refl) (Ahead-trans a ae) (ground arith) be)
  ]

  comment_token-Reads :
      (is_doc : Bool) (m : Lexer)
      → Ahead l m
      → l.pos < m.pos
      → InBounds m
      → ReadsToken {F = F} l (comment_token is_doc m)
  comment_token-Reads is_doc m a lt b =
      Sat-bind (skip_block (rounds m) m) _ (skip_block-Moves (rounds m) m b (omega arith))
        (λ _ h. absurd h) (λ _ e h. after_block-Reads is_doc m e a lt h.0 h.1 h.2)

  pub read_block_comment-Reads : peek_next l ≢ 0 → ReadsToken {F = F} l (read_block_comment l)
  unfolding read_block_comment bumped
  read_block_comment-Reads n =
      let m = bumped (bumped l) in
      let inside = peek_next-lt l n in
      Sat-if (peek m == b'*') _ _ m
        (λ star.
          comment_token-Reads true (bumped m) (ground arith) (ground arith)
            (ground (arith, peek-lt m)))
        (λ _. comment_token-Reads false m (ground arith) (ground arith) (omega arith))
