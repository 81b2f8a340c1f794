-- ===== src/Lexer/Safety/Rules.antt =====
-- What a method promises, and the rules for the cursor's own operations.
use tinox.Prelude.{
  ℕ, zero, suc, ◌+◌, ◌-◌, ◌≤◌, ◌<◌, Bool, true, false, if◌then◌else◌, List, [], ◌∷◌, ◌≡◌, ◌≢◌, refl,
  ap, length, get_elem?, take, drop, arith, inl, inr, Bool-cases,
}
use tinox.Lexer.Token.{TokenKind, Token, is_eof}
use tinox.Lexer.Cursor.{
  Lexer, Outcome, ok, err, panic, out_of_fuel, M, and_then, or_nul, peek, peek_next, bumped, token,
  mk_span, slice, skip_while, wrap32, rounds,
}

abbrev pub Holds :
    {A : Type 0} → Outcome A × Lexer → (A → Lexer → Type 0) → (Lexer → Type 0) → Type 0
Holds (ok a, l) Q E = Q a l
Holds (err e, l) Q E = E l
Holds (panic, l) Q E = ⊥
Holds (out_of_fuel, l) Q E = ⊥

-- The method ends with `ok` and `Q`, or with `err` and `E`: never by a panic or out of fuel.
pub record Sat {A : Type 0} (r : Outcome A × Lexer) (Q : A → Lexer → Type 0) (E : Lexer → Type 0)
    : Type 0 where
  pub holds : Holds r Q E

module _ {A B : Type 0} {Q : A → Lexer → Type 0} {R : B → Lexer → Type 0}
    {E G : Lexer → Type 0} where
  -- The rule for `do`: an error of the first part is the error of the whole.
  pub Sat-bind :
      (r : Outcome A × Lexer) (f : A → M B)
      → Sat r Q E
      → ((l : Lexer) → E l → G l)
      → ((a : A) (l : Lexer) → Q a l → Sat (f a l) R G)
      → Sat (and_then r f) R G
  Sat-bind (ok a, l) f h e k = k a l h.holds
  Sat-bind (err _, l) f h e k = record { holds = e l h.holds }
  Sat-bind (panic, l) f h e k = absurd h.holds
  Sat-bind (out_of_fuel, l) f h e k = absurd h.holds

module _ {A : Type 0} {Q R : A → Lexer → Type 0} {E G : Lexer → Type 0} where
  pub Sat-weaken :
      (r : Outcome A × Lexer)
      → Sat r Q E
      → ((a : A) (l : Lexer) → Q a l → R a l)
      → ((l : Lexer) → E l → G l)
      → Sat r R G
  Sat-weaken (ok a, l) h q e = record { holds = q a l h.holds }
  Sat-weaken (err _, l) h q e = record { holds = e l h.holds }
  Sat-weaken (panic, l) h q e = absurd h.holds
  Sat-weaken (out_of_fuel, l) h q e = absurd h.holds

-- A split on a test, in front of a method.
module _ {A : Type 0} {Q : A → Lexer → Type 0} {E : Lexer → Type 0} where
  pub Sat-if :
      (b : Bool) (m n : M A) (l : Lexer)
      → (b ≡ true → Sat (m l) Q E)
      → (b ≡ false → Sat (n l) Q E)
      → Sat ((if b then m else n) l) Q E
  Sat-if true m n l t f = t refl
  Sat-if false m n l t f = f refl

-- The input and the token's start are kept, and the cursor does not move back.
pub record Ahead (l l' : Lexer) : Type 0 where
  pub same_chars : l'.chars ≡ l.chars
  pub same_start : l'.start ≡ l.start
  pub forward : l.pos ≤ l'.pos

-- The cursor stands in the input or at its end.
abbrev pub InBounds : Lexer → Type 0
InBounds l = l.pos ≤ length l.chars

-- A method that is no token reader: any value, ahead of `l` and in bounds.
abbrev pub Moves : {A : Type 0} → Lexer → Outcome A × Lexer → Type 0
Moves l r = Sat r (λ _ l'. Ahead l l' × InBounds l') (Ahead l)

-- The token read from `l` ends where the lexer now stands, one character on at least.
pub record Reads {F : Type 0} (l : Lexer) (t : Token F) (l' : Lexer) : Type 0 where
  pub same_chars : l'.chars ≡ l.chars
  pub forward : l.pos < l'.pos
  pub in_bounds : l'.pos ≤ length l'.chars
  pub not_eof : is_eof t.kind ≡ false
  pub from_start : t.span.start.offset ≡ wrap32 l.start
  pub to_pos : t.span.end.offset ≡ wrap32 l'.pos

abbrev pub ReadsToken : {F : Type 0} → Lexer → Outcome (Token F) × Lexer → Type 0
ReadsToken l r = Sat r (Reads l) (Ahead l)

pub get_elem?-lt : (xs : List ℕ) (i : ℕ) → or_nul (get_elem? xs i) ≢ 0 → i < length xs
get_elem?-lt [] i h = absurd (h refl)
get_elem?-lt (x ∷ xs) zero h = omega arith
get_elem?-lt (x ∷ xs) (suc i) h = omega (arith, get_elem?-lt xs i h)

-- A character other than NUL stands at the cursor only inside the input.
pub peek-lt : (l : Lexer) → peek l ≢ 0 → l.pos < length l.chars
unfolding peek
peek-lt l h = get_elem?-lt l.chars l.pos h

pub Ahead-refl : (l : Lexer) → Ahead l l
Ahead-refl l = ground arith

pub Ahead-trans : {l m n : Lexer} → Ahead l m → Ahead m n → Ahead l n
Ahead-trans h k = ground arith

pub bumped-Ahead : (l : Lexer) → Ahead l (bumped l)
unfolding bumped
bumped-Ahead l = ground arith

-- The same for the character behind it.
pub peek_next-lt : (l : Lexer) → peek_next l ≢ 0 → suc l.pos < length l.chars
unfolding peek_next
peek_next-lt l h = omega (arith, get_elem?-lt l.chars (l.pos + 1) h)

-- A slice between two positions in their order, the later one in bounds, does not panic.
pub slice-ok :
    (a b : ℕ) (l : Lexer)
    → a ≤ b
    → b ≤ length l.chars
    → slice a b l ≡ (ok (take (b - a) (drop a l.chars)), l)
unfolding slice
slice-ok a b l h k = ground arith

-- A token given out at the cursor, which has moved on from `l`.
pub token-Reads :
    {F : Type 0} (k : TokenKind F) {l e : Lexer}
    → is_eof k ≡ false
    → Ahead l e
    → l.pos < e.pos
    → InBounds e
    → ReadsToken l (token k e)
unfolding mk_span
token-Reads k {l} {e} z h lt b = ground (arith, ap wrap32 h.same_start)

-- With rounds for the characters that are left, the loop ends where its test fails.
pub skip_while-Moves :
    (test : ℕ → Bool) (fuel : ℕ) (l : Lexer)
    → test 0 ≡ false
    → InBounds l
    → length l.chars < l.pos + fuel
    → Sat
        (skip_while test fuel l)
        (λ _ l'. Ahead l l' × InBounds l' × (test (peek l') ≡ false))
        (λ _. ⊥)
unfolding skip_while
skip_while-Moves test zero l z b f = absurd (omega arith)
skip_while-Moves test (suc fuel) l z b f = elim (Bool-cases (test (peek l))) [
  | inl e ↦
      let inside : l.pos < length l.chars = peek-lt l (λ n. cc (e, z, ap test n)) in
      rw (e, skip_while)
        (Sat-weaken (skip_while test fuel (bumped l))
          (skip_while-Moves test fuel (bumped l) z (unfold bumped in omega arith)
            (unfold bumped in omega arith))
          (λ _ l' h. (Ahead-trans (bumped-Ahead l) h.0, h.1, h.2)) (λ _ h. h))
  | inr e ↦ rw (e, skip_while) (record { holds = (Ahead-refl l, b, e) })
]

-- If the test holds at the cursor, a character at least is consumed.
pub skip_while-Steps :
    (test : ℕ → Bool) (l : Lexer)
    → test 0 ≡ false
    → test (peek l) ≡ true
    → Sat (skip_while test (rounds l) l) (λ _ e. Ahead l e × InBounds e × (l.pos < e.pos)) (λ _. ⊥)
unfolding skip_while
skip_while-Steps test l z e =
    let inside : l.pos < length l.chars = peek-lt l (λ n. cc (e, z, ap test n)) in
    rw (e, skip_while)
      (Sat-weaken (skip_while test (length l.chars) (bumped l))
        (skip_while-Moves test (length l.chars) (bumped l) z (unfold bumped in omega arith)
          (unfold bumped in omega arith))
        (λ _ d h.
          (Ahead-trans (bumped-Ahead l) h.0, h.1, unfold bumped in omega (arith, (h.0).forward)))
        (λ _ h. h))
