-- ===== src/Lexer/Reading/Comments.antt =====
-- Block comments: what `next_token` takes for one, and the line counter.
use tinox.Prelude.{
  ℕ, zero, suc, ◌+◌, ◌<◌, Bool, true, false, ◌&&◌, ◌||◌, ◌==◌, ltb, lt→ltb, le→ltb, if◌then◌else◌,
  [], ◌∷◌, ◌++◌, append-nil, Text, length, length-append, ◌≡◌, ◌⊎◌, refl, sym, ap, ◌∙◌, subst,
  arith, inl, inr,
}
use tinox.Lexer.Token.{TokenKind}
use tinox.Lexer.Cursor.{
  Lexer, ok, peek, peek_next, bumped, new_line, wrap32, u32_mod, rounds, token,
}
use tinox.Lexer.Comments.{comment_char, skip_block, comment_token, read_block_comment}
use tinox.Lexer.Numbers.{FloatParser}
use tinox.Lexer.Next.{token_arm, read_slash, mark, next_token}
use tinox.Lexer.Reading.At.{At, first, bumps, bumps-pos, bumped-At, peek-At, peek_next-At, slice-At}
use tinox.Lexer.Reading.Words.{next_token-At, mark-At}

-- The lexer behind the characters of a comment.
abbrev pub past : Text → Lexer → Lexer
past [] l = l
past (_ ∷ w) l = past w (comment_char l)

abbrev pub newlines : Text → ℕ
newlines [] = 0
newlines (c ∷ w) = (if c == b'\n' then 1 else 0) + newlines w

-- `*/` stands in the text.
abbrev pub has_close : Text → Bool
has_close [] = false
has_close (c ∷ []) = false
has_close (c ∷ d ∷ w) = (c == b'*' && d == b'/') || has_close (d ∷ w)

-- Where the loop stops: at the end of the input, or at `*/`.
abbrev pub Stops : Text → Type 0
Stops s = (s ≡ []) ⊎ ((rest : Text) × (s ≡ b'*' ∷ b'/' ∷ rest))

comment_char-fields :
    (l : Lexer)
    → ((comment_char l).pos ≡ suc l.pos)
      × ((comment_char l).chars ≡ l.chars)
      × ((comment_char l).start ≡ l.start)
unfolding comment_char bumped new_line
comment_char-fields l = ground arith

comment_char-At : {l : Lexer} (c : ℕ) (cs : Text) → At l (c ∷ cs) → At (comment_char l) cs
unfolding comment_char bumped new_line
comment_char-At {l} c cs a = let b = bumped-At c cs a in ground arith

past-fields :
    (w : Text) (l : Lexer)
    → ((past w l).pos ≡ l.pos + length w)
      × ((past w l).chars ≡ l.chars)
      × ((past w l).start ≡ l.start)
past-fields [] l = ground arith
past-fields (c ∷ w) l = ground (arith, past-fields w (comment_char l), comment_char-fields l)

past-At : (w rest : Text) (l : Lexer) → At l (w ++ rest) → At (past w l) rest
past-At [] rest l a = a
past-At (c ∷ w) rest l a = past-At w rest (comment_char l) (comment_char-At c (w ++ rest) a)

comment_char-line :
    (l : Lexer) (c : ℕ) (cs : Text)
    → At l (c ∷ cs)
    → l.line + 1 < u32_mod
    → (comment_char l).line ≡ l.line + (if c == b'\n' then 1 else 0)
unfolding comment_char bumped new_line wrap32
comment_char-line l c cs a h = ground (arith, peek-At (c ∷ cs) a)

-- The line counter counts the line feeds of a comment.
past-line :
    (w rest : Text) (l : Lexer)
    → At l (w ++ rest)
    → l.line + length w < u32_mod
    → (past w l).line ≡ l.line + newlines w
past-line [] rest l a h = omega arith
past-line (c ∷ w) rest l a h =
    let step = comment_char-line l c (w ++ rest) a (omega arith) in
    ground (arith, past-line w rest (comment_char l) (comment_char-At c (w ++ rest) a))

no_close-head :
    (c : ℕ) (w s : Text)
    → has_close (c ∷ w) ≡ false
    → Stops s
    → (c == b'*' && first (w ++ s) == b'/') ≡ false
no_close-head c [] s h (inl e) = rw e (ground arith)
no_close-head c [] s h (inr (rest, e)) = rw e (ground arith)
no_close-head c (d ∷ w) s h t = ground arith

no_close-tail : (c : ℕ) (w : Text) → has_close (c ∷ w) ≡ false → has_close w ≡ false
no_close-tail c [] h = refl
no_close-tail c (d ∷ w) h = ground arith

-- The loop runs over a text without `*/`, up to where it stops.
skip_block-At :
    (w s : Text) (fuel : ℕ) (l : Lexer)
    → has_close w ≡ false
    → Stops s
    → length w < fuel
    → At l (w ++ s)
    → skip_block fuel l ≡ (ok tt, past w l)
unfolding skip_block
skip_block-At w s zero l h t f a = absurd (omega arith)
skip_block-At [] s (suc fuel) l h (inl e) f a =
    let done : ltb l.pos (length l.chars) ≡ false =
      le→ltb _ _ (omega (arith, a.in_bounds, ap length e)) in
    rw (done, skip_block)
skip_block-At [] s (suc fuel) l h (inr (rest, e)) f a =
    let b : At l (b'*' ∷ b'/' ∷ rest) = subst (At l) e a in
    let inside : ltb l.pos (length l.chars) ≡ true = lt→ltb _ _ (omega (arith, b.in_bounds)) in
    rw (inside, peek-At _ b, peek_next-At _ _ b, skip_block)
skip_block-At (c ∷ w) s (suc fuel) l h t f a =
    let inside : ltb l.pos (length l.chars) ≡ true = lt→ltb _ _ (omega (arith, a.in_bounds)) in
    let stop : (peek l == b'*' && peek_next l == b'/') ≡ false =
      rw (peek-At _ a, peek_next-At c (w ++ s) a) (no_close-head c w s h t) in
    rw (inside, stop, skip_block)
      (skip_block-At w s fuel (comment_char l) (no_close-tail c w h) t (omega arith)
        (comment_char-At c (w ++ s) a))

module _ {F : Type 0} (l : Lexer) (w : Text) (clean : has_close w ≡ false) where
  comment_token-closed :
      (is_doc : Bool) (rest : Text)
      → At l (w ++ b'*' ∷ b'/' ∷ rest)
      → comment_token {F = F} is_doc l
        ≡ token
            (if is_doc then TokenKind.doc_comment w else TokenKind.comment w)
            (bumped (bumped (past w l)))
  unfolding bumped
  comment_token-closed is_doc rest a =
      let s = b'*' ∷ b'/' ∷ rest in
      let e = past w l in
      let moved = past-fields w l in
      let b = past-At w s l a in
      let fuel : length w < rounds l = omega (arith, a.in_bounds, length-append w s) in
      let inside : ltb e.pos (length e.chars) ≡ true = lt→ltb _ _ (omega (arith, b.in_bounds)) in
      let text = slice-At w s l (bumped (bumped e)) l.pos e.pos a moved.1 refl moved.0 in
      rw (skip_block-At w s (rounds l) l clean (inr (rest, refl)) fuel a) (rw inside (rw text))

  comment_token-open :
      (is_doc : Bool)
      → At l w
      → comment_token {F = F} is_doc l
        ≡ token (if is_doc then TokenKind.doc_comment w else TokenKind.comment w) (past w l)
  comment_token-open is_doc a =
      let e = past w l in
      let moved = past-fields w l in
      let a' : At l (w ++ []) = subst (At l) (sym (append-nil w)) a in
      let b = past-At w [] l a' in
      let done : ltb e.pos (length e.chars) ≡ false = le→ltb _ _ (omega (arith, b.in_bounds)) in
      let text = slice-At w [] l e l.pos e.pos a' moved.1 refl moved.0 in
      rw (skip_block-At w [] (rounds l) l clean (inl refl) (omega (arith, a.in_bounds)) a')
        (rw done (rw text))

module _ {F : Type 0} (floats : FloatParser F) (l : Lexer) where
  -- The arm of a slash, where a star follows it.
  block-At : (s : Text) → At l (b'/' ∷ b'*' ∷ s) → next_token floats l ≡ read_block_comment (mark l)
  unfolding token_arm read_slash
  block-At s a =
      next_token-At floats l b'/' (b'*' ∷ s) a ∙ rw (peek_next-At b'/' (b'*' ∷ s) (mark-At a))

  doc-At :
      (s : Text)
      → At l (b'/' ∷ b'*' ∷ b'*' ∷ s)
      → next_token floats l ≡ comment_token true (bumps 3 (mark l))
  unfolding read_block_comment
  doc-At s a =
      let b = bumped-At b'*' (b'*' ∷ s) (bumped-At b'/' (b'*' ∷ b'*' ∷ s) (mark-At a)) in
      block-At (b'*' ∷ s) a ∙ rw (peek-At (b'*' ∷ s) b)

  -- A comment `/*`, `c ∷ w`, `*/`, where `c` is no star and no `*/` stands inside: `next_token` gives
  -- the comment token of exactly that text and is then behind the closing `*/`.
  pub next_token-comment :
      (c : ℕ) (w rest : Text)
      → (c == b'*') ≡ false
      → has_close (c ∷ w) ≡ false
      → At l (b'/' ∷ b'*' ∷ c ∷ w ++ b'*' ∷ b'/' ∷ rest)
      → next_token floats l
        ≡ token (TokenKind.comment (c ∷ w)) (bumped (bumped (past (c ∷ w) (bumps 2 (mark l)))))
  unfolding read_block_comment
  next_token-comment c w rest n h a =
      let s = c ∷ w ++ b'*' ∷ b'/' ∷ rest in
      let b = bumped-At b'*' s (bumped-At b'/' (b'*' ∷ s) (mark-At a)) in
      let plain : (peek (bumps 2 (mark l)) == b'*') ≡ false = rw (peek-At s b) n in
      block-At s a ∙ rw plain (comment_token-closed (bumps 2 (mark l)) (c ∷ w) h false rest b)

  -- A documentation comment `/**`, `w`, `*/`, where no `*/` stands in `w`: `next_token` gives the
  -- documentation comment's token of exactly `w` and is then behind the closing `*/`.
  pub next_token-doc :
      (w rest : Text)
      → has_close w ≡ false
      → At l (b'/' ∷ b'*' ∷ b'*' ∷ w ++ b'*' ∷ b'/' ∷ rest)
      → next_token floats l
        ≡ token (TokenKind.doc_comment w) (bumped (bumped (past w (bumps 3 (mark l)))))
  next_token-doc w rest h a =
      let s = w ++ b'*' ∷ b'/' ∷ rest in
      let b =
        bumped-At b'*' s
          (bumped-At b'*' (b'*' ∷ s) (bumped-At b'/' (b'*' ∷ b'*' ∷ s) (mark-At a))) in
      doc-At s a ∙ comment_token-closed (bumps 3 (mark l)) w h true rest b

  -- The empty comment `/**/` is not closed: its second star opens a documentation comment, whose
  -- text is the slash and, where no `*/` stands in it, all the rest of the input; the cursor is then
  -- at the end of the input.
  pub next_token-empty_comment :
      (rest : Text)
      → has_close (b'/' ∷ rest) ≡ false
      → At l (b'/' ∷ b'*' ∷ b'*' ∷ b'/' ∷ rest)
      → (next_token floats l
          ≡ token (TokenKind.doc_comment (b'/' ∷ rest)) (past (b'/' ∷ rest) (bumps 3 (mark l))))
        × ((past (b'/' ∷ rest) (bumps 3 (mark l))).pos ≡ length l.chars)
  next_token-empty_comment rest h a =
      let s = b'/' ∷ rest in
      let b =
        bumped-At b'*' s
          (bumped-At b'*' (b'*' ∷ s) (bumped-At b'/' (b'*' ∷ b'*' ∷ s) (mark-At a))) in
      let moved = past-fields s (bumps 3 (mark l)) in
      let start = bumps-pos 3 (mark l) in
      (doc-At s a ∙ comment_token-open (bumps 3 (mark l)) s h true b, omega (arith, a.in_bounds))
