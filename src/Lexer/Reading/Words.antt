-- ===== src/Lexer/Reading/Words.antt =====
-- Words: `next_token` on a word.
use tinox.Prelude.{
  ℕ, suc, ◌<◌, Bool, true, false, ◌||◌, ◌==◌, lt→ltb, [], ◌∷◌, ◌++◌, Text, length, length-append,
  All, Option, none, some, codes, text_eq, text_eq→≡, text_eq→≢, ◌⊎◌, ◌≡◌, ◌≢◌, refl, ap, ◌∙◌,
  arith, inl, inr, Bool-cases,
}
use tinox.Lexer.Cursor.{Lexer, peek_next, rounds, token}
use tinox.Lexer.Numbers.{FloatParser}
use tinox.Lexer.Token.{TokenKind}
use tinox.Lexer.Keyword.{Keyword, lookup}
use tinox.Lexer.Reading.Spelling.{spelling, lookup_iff}
use tinox.Lexer.Next.{
  is_letter, word_char, keyword_or_ident, word_kind, read_ident_or_keyword, read_r, read_word,
  token_arm, mark, next_token,
}
use tinox.Lexer.Reading.At.{
  At, first, bumps, bumps-pos, peek-At, peek_next-At, slice-At, skip_while-At,
}

-- At a character, `next_token` marks the token's start and takes that character's arm.
pub next_token-At :
    {F : Type 0} (floats : FloatParser F) (l : Lexer) (c : ℕ) (cs : Text)
    → At l (c ∷ cs)
    → next_token floats l ≡ token_arm floats c (mark l)
unfolding next_token
next_token-At floats l c cs a =
    let inside : l.pos < length l.chars = omega (arith, a.in_bounds) in
    let here : At (mark l) (c ∷ cs) = record { rest_is = a.rest_is; in_bounds = a.in_bounds } in
    rw (lt→ltb _ _ inside, peek-At (c ∷ cs) here)

pub mark-At : {l : Lexer} {rest : Text} → At l rest → At (mark l) rest
mark-At a = record { rest_is = a.rest_is; in_bounds = a.in_bounds }

module _ {F : Type 0} (l : Lexer) where
  read_ident_or_keyword-At :
      (w rest : Text)
      → All (λ c. word_char c ≡ true) w
      → word_char (first rest) ≡ false
      → At l (w ++ rest)
      → read_ident_or_keyword {F = F} l ≡ token (word_kind w) (bumps (length w) l)
  unfolding read_ident_or_keyword
  read_ident_or_keyword-At w rest h z a =
      let moved = bumps-pos (length w) l in
      let fuel : length w < rounds l = omega (arith, a.in_bounds, length-append w rest) in
      rw (skip_while-At word_char w rest (rounds l) l h z fuel a) (
        rw (
          slice-At w rest l (bumps (length w) l) l.pos (bumps (length w) l).pos a moved.1 refl
            moved.0))

-- Characters that turn `r` or `b` before them into a literal's prefix.
abbrev pub is_literal_mark : ℕ → Bool
is_literal_mark c = c == b'"' || c == b'#' || c == b'\''

letter_word : (c : ℕ) → is_letter c ≡ true → word_char c ≡ true
letter_word c h = ground arith

word_char-mark : (c : ℕ) → word_char c ≡ true → is_literal_mark c ≡ false
word_char-mark c h = ground arith

next-mark :
    (w rest : Text)
    → All (λ d. word_char d ≡ true) w
    → is_literal_mark (first rest) ≡ false
    → is_literal_mark (first (w ++ rest)) ≡ false
next-mark [] rest h m = m
next-mark (d ∷ w) rest h m = word_char-mark d h.0

module _ {F : Type 0} (l : Lexer) (marked : is_literal_mark (peek_next l) ≡ false) where
  read_r-word : read_r {F = F} l ≡ read_ident_or_keyword l
  unfolding read_r
  read_r-word = ground arith

  read_word-word : read_word {F = F} l ≡ read_ident_or_keyword l
  unfolding read_word
  read_word-word = ground arith

  token_arm-word :
      (floats : FloatParser F) (c : ℕ)
      → is_letter c ≡ true
      → token_arm floats c l ≡ read_ident_or_keyword l
  unfolding token_arm
  token_arm-word floats c h = elim (Bool-cases (c == b'r')) [
    | inl e ↦ ground (arith, read_r-word)
    | inr e ↦ ground (arith, read_word-word)
  ]

-- What a word means, by the spellings of the keywords: the kinds `underscore`, `bool`, `keyword` and
-- `ident` say what is written, and a word has no other kind. No word is the reserved keyword, and
-- `true` and `false` are Booleans, not keywords.
abbrev pub Means : {F : Type 0} → Text → TokenKind F → Type 0
Means w TokenKind.underscore = w ≡ codes "_"
Means w (TokenKind.bool true) = w ≡ codes "true"
Means w (TokenKind.bool false) = w ≡ codes "false"
Means w (TokenKind.keyword k) =
    (w ≡ spelling k) × (k ≢ Keyword.as_reserved) × (k ≢ Keyword.true_) × (k ≢ Keyword.false_)
Means w (TokenKind.ident name) =
    (name ≡ w) × (w ≢ codes "_") × ((k : Keyword) → k ≢ Keyword.as_reserved → w ≢ spelling k)
Means w _ = ⊥

Option-cases : {A : Type 0} (o : Option A) → (o ≡ none) ⊎ ((x : A) × (o ≡ some x))
Option-cases none = inl refl
Option-cases (some x) = inr (x, refl)

module _ (F : Type 0) (w : Text) (not_underscore : text_eq w (codes "_") ≡ false) where
  keyword_or_ident-Means :
      text_eq w (codes "true") ≡ false
      → text_eq w (codes "false") ≡ false
      → Means w (keyword_or_ident {F = F} w (lookup w))
  keyword_or_ident-Means t f = elim (Option-cases (lookup w)) [
    | inl e ↦ rw e (
      refl,
      text_eq→≢ w (codes "_") not_underscore,
      λ k n s. let found = (lookup_iff w k).1 (s, n) in cc,
    )
    | inr (k, e) ↦
        let spelled = (lookup_iff w k).0 e in
        rw e (
          spelled.0,
          spelled.1,
          λ h. text_eq→≢ w (codes "true") t (spelled.0 ∙ ap spelling h),
          λ h. text_eq→≢ w (codes "false") f (spelled.0 ∙ ap spelling h),
        )
  ]

word_kind-Means : (F : Type 0) (w : Text) → Means w (word_kind {F = F} w)
unfolding word_kind
word_kind-Means F w = elim (Bool-cases (text_eq w (codes "_"))) [
  | inl e ↦ rw e (text_eq→≡ w (codes "_") e)
  | inr e ↦ rw e (elim (Bool-cases (text_eq w (codes "true"))) [
    | inl t ↦ rw t (text_eq→≡ w (codes "true") t)
    | inr t ↦ rw t (elim (Bool-cases (text_eq w (codes "false"))) [
      | inl f ↦ rw f (text_eq→≡ w (codes "false") f)
      | inr f ↦ rw f (keyword_or_ident-Means F w e t f)
    ])
  ])
]

-- A word `c ∷ w`, of a letter or underscore and then letters, digits and underscores, stands at the
-- cursor, and what follows it neither continues it nor is a quote or a hash. Then `next_token`
-- consumes exactly the word, and the token's kind is what the word means by the spellings of the
-- keywords: underscore, Boolean, keyword, or the identifier itself where it is none of these.
pub next_token-word :
    {F : Type 0} (floats : FloatParser F) (l : Lexer) (c : ℕ) (w rest : Text)
    → is_letter c ≡ true
    → All (λ d. word_char d ≡ true) w
    → word_char (first rest) ≡ false
    → is_literal_mark (first rest) ≡ false
    → At l (c ∷ w ++ rest)
    → (k : TokenKind F) × (next_token floats l ≡ token k (bumps (suc (length w)) (mark l)))
      × Means (c ∷ w) k
next_token-word {F} floats l c w rest letter h z m a =
    let b : At (mark l) (c ∷ (w ++ rest)) = mark-At a in
    let next : is_literal_mark (peek_next (mark l)) ≡ false =
      ap is_literal_mark (peek_next-At c (w ++ rest) b) ∙ next-mark w rest h m in
    (
      word_kind (c ∷ w),
      next_token-At floats l c (w ++ rest) a
          ∙ token_arm-word (mark l) next floats c letter
          ∙ read_ident_or_keyword-At (mark l) (c ∷ w) rest (letter_word c letter, h) z b,
      word_kind-Means F (c ∷ w),
    )
