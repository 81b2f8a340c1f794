-- ===== src/Parse/Unread.antt =====
-- crates/tinox-parser/src/parser.rs: `peek` and `bump` on the tokens that are not read yet.
use tinox.Prelude.{
  ℕ, zero, suc, ◌+◌, ◌≤◌, ◌<◌, lt→ltb, ltb, none, some, List, [], ◌∷◌, get_elem?, drop, length, ◌≡◌,
  refl, subst, ap, ◌∙◌, arith, inl, inr, Bool-cases,
}
use tinox.Lexer.Token.{Token}
use tinox.Parse.{Parser, peek, bump, unread, end_token}

module _ {ℓ} {A : Type ℓ} where
  get_elem?-drop :
      (xs : List A) (i : ℕ) {x : A} {ys : List A} → drop i xs ≡ x ∷ ys → get_elem? xs i ≡ some x
  get_elem?-drop [] zero h = cc
  get_elem?-drop [] (suc i) h = cc
  get_elem?-drop (y ∷ xs) zero h = cc
  get_elem?-drop (y ∷ xs) (suc i) h = get_elem?-drop xs i h

  get_elem?-drop_end : (xs : List A) (i : ℕ) → drop i xs ≡ [] → get_elem? xs i ≡ none
  get_elem?-drop_end [] zero h = refl
  get_elem?-drop_end [] (suc i) h = refl
  get_elem?-drop_end (y ∷ xs) zero h = cc
  get_elem?-drop_end (y ∷ xs) (suc i) h = get_elem?-drop_end xs i h

  lt-drop : (xs : List A) (i : ℕ) {x : A} {ys : List A} → drop i xs ≡ x ∷ ys → i < length xs
  lt-drop [] zero h = cc
  lt-drop [] (suc i) h = cc
  lt-drop (y ∷ xs) zero h = omega arith
  lt-drop (y ∷ xs) (suc i) h = omega (arith, lt-drop xs i h)

  drop-suc : (xs : List A) (i : ℕ) {x : A} {ys : List A} → drop i xs ≡ x ∷ ys → drop (suc i) xs ≡ ys
  drop-suc [] zero h = cc
  drop-suc [] (suc i) h = cc
  drop-suc (y ∷ xs) zero h = cc
  drop-suc (y ∷ xs) (suc i) h = drop-suc xs i h

  drop_next :
      (xs : List A) (i : ℕ) {x : A} {ys : List A} → drop i xs ≡ x ∷ ys → drop (i + 1) xs ≡ ys
  drop_next xs i h = ap (λ j. drop j xs) {y = suc i} (omega arith) ∙ drop-suc xs i h

  drop_le : (xs : List A) (i : ℕ) → length (drop (suc i) xs) ≤ length (drop i xs)
  drop_le [] zero = omega arith
  drop_le [] (suc i) = omega arith
  drop_le (x ∷ xs) zero = omega arith
  drop_le (x ∷ xs) (suc i) = drop_le xs i

  drop_next_le : (xs : List A) (i : ℕ) → length (drop (i + 1) xs) ≤ length (drop i xs)
  drop_next_le xs i =
      subst (λ j. length (drop j xs) ≤ length (drop i xs)) {x = suc i} (omega arith) (drop_le xs i)

module _ {F : Type 0} where
  pub peek-unread :
      (s : Parser F) {t : Token F} {ts : List (Token F)} → unread s ≡ t ∷ ts → peek s ≡ t
  unfolding peek
  peek-unread s h = rw (get_elem?-drop s.tokens s.pos h, peek) refl

  pub peek_end : (s : Parser F) → unread s ≡ [] → peek s ≡ end_token
  unfolding peek
  peek_end s h = rw (get_elem?-drop_end s.tokens s.pos h, peek) refl

  pub unread-bump :
      (s : Parser F) {t : Token F} {ts : List (Token F)} → unread s ≡ t ∷ ts → unread (bump s) ≡ ts
  unfolding bump
  unread-bump s h =
      rw (lt→ltb s.pos (length s.tokens) (lt-drop s.tokens s.pos h)) (drop_next s.tokens s.pos h)

  pub bump_le : (s : Parser F) → length (unread (bump s)) ≤ length (unread s)
  unfolding bump
  bump_le s = elim (Bool-cases (ltb s.pos (length s.tokens))) [
    | inl h ↦ rw h (drop_next_le s.tokens s.pos)
    | inr h ↦ rw h (omega arith)
  ]
