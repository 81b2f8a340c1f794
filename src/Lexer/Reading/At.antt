-- ===== src/Lexer/Reading/At.antt =====
-- The text at the cursor, as a list, and how the cursor's operations read it.
use tinox.Prelude.{
  ℕ, zero, suc, ◌+◌, ◌-◌, ◌≤◌, ◌<◌, Bool, true, false, List, [], ◌∷◌, ◌++◌, Text, length, get_elem?,
  take, drop, length-append, All, ◌≡◌, refl, ap, ◌∙◌, arith,
}
use tinox.Lexer.Cursor.{Lexer, ok, or_nul, peek, peek_next, char_at, bumped, slice, skip_while}

-- `rest` is the input from the cursor on.
pub record At (l : Lexer) (rest : Text) : Type 0 where
  pub rest_is : drop l.pos l.chars ≡ rest
  pub in_bounds : l.pos + length rest ≡ length l.chars

abbrev pub first : Text → ℕ
first [] = 0
first (c ∷ _) = c

get_elem?-drop : (xs : List ℕ) (i : ℕ) → or_nul (get_elem? xs i) ≡ first (drop i xs)
get_elem?-drop [] zero = refl
get_elem?-drop [] (suc i) = refl
get_elem?-drop (x ∷ xs) zero = refl
get_elem?-drop (x ∷ xs) (suc i) = get_elem?-drop xs i

drop-suc : (xs : List ℕ) (i c : ℕ) (cs : Text) → drop i xs ≡ c ∷ cs → drop (suc i) xs ≡ cs
drop-suc [] zero c cs h = cc
drop-suc [] (suc i) c cs h = cc
drop-suc (x ∷ xs) zero c cs h = cc
drop-suc (x ∷ xs) (suc i) c cs h = drop-suc xs i c cs h

get_elem?-suc :
    (xs : List ℕ) (i c : ℕ) (cs : Text)
    → drop i xs ≡ c ∷ cs
    → or_nul (get_elem? xs (suc i)) ≡ first cs
get_elem?-suc xs i c cs h = get_elem?-drop xs (suc i) ∙ ap first (drop-suc xs i c cs h)

pub peek-At : {l : Lexer} (rest : Text) → At l rest → peek l ≡ first rest
unfolding peek
peek-At {l} rest a = get_elem?-drop l.chars l.pos ∙ ap first a.rest_is

pub peek_next-At : {l : Lexer} (c : ℕ) (cs : Text) → At l (c ∷ cs) → peek_next l ≡ first cs
unfolding peek_next
peek_next-At {l} c cs a =
    ap (λ i. or_nul (get_elem? l.chars i)) (omega arith)
    ∙ get_elem?-suc l.chars l.pos c cs a.rest_is

pub bumped-At : {l : Lexer} (c : ℕ) (cs : Text) → At l (c ∷ cs) → At (bumped l) cs
unfolding bumped
bumped-At {l} c cs a = record {
  rest_is = drop-suc l.chars l.pos c cs a.rest_is;
  in_bounds = omega (arith, a.in_bounds);
}

-- `self.bump()`, `n` times.
abbrev pub bumps : ℕ → Lexer → Lexer
bumps zero l = l
bumps (suc n) l = bumps n (bumped l)

pub bumps-pos :
    (n : ℕ) (l : Lexer)
    → ((bumps n l).pos ≡ l.pos + n)
      × ((bumps n l).chars ≡ l.chars)
      × ((bumps n l).start ≡ l.start)
      × ((bumps n l).line ≡ l.line)
unfolding bumped
bumps-pos zero l = ground arith
bumps-pos (suc n) l = ground (arith, bumps-pos n (bumped l))

pub bumps-At : (w rest : Text) (l : Lexer) → At l (w ++ rest) → At (bumps (length w) l) rest
bumps-At [] rest l a = a
bumps-At (c ∷ w) rest l a = bumps-At w rest (bumped l) (bumped-At c (w ++ rest) a)

take-append : (w rest : Text) (n : ℕ) → n ≡ length w → take n (w ++ rest) ≡ w
take-append [] rest zero e = refl
take-append [] rest (suc n) e = absurd (omega arith)
take-append (c ∷ w) rest zero e = absurd (omega arith)
take-append (c ∷ w) rest (suc n) e = ap (◌∷◌ c) (take-append w rest n (omega arith))

-- A slice from where `w` stood to where it ends is `w`.
pub slice-At :
    (w rest : Text) (l e : Lexer) (a b : ℕ)
    → At l (w ++ rest)
    → e.chars ≡ l.chars
    → a ≡ l.pos
    → b ≡ l.pos + length w
    → slice a b e ≡ (ok w, e)
unfolding slice
slice-At w rest l e a b at same from to =
    let text : take (b - a) (drop a e.chars) ≡ w =
      ap (λ (cs : Text). take (b - a) (drop a cs)) same
      ∙ ap (λ i. take (b - a) (drop i l.chars)) from
      ∙ ap (take (b - a)) at.rest_is
      ∙ take-append w rest (b - a) (omega arith) in
    let fits : b ≤ length e.chars =
      omega (arith, at.in_bounds, length-append w rest, ap length same) in
    ground arith

-- A loop over the characters of `w`, which pass the test, where the next one does not.
pub skip_while-At :
    (test : ℕ → Bool) (w rest : Text) (fuel : ℕ) (l : Lexer)
    → All (λ c. test c ≡ true) w
    → test (first rest) ≡ false
    → length w < fuel
    → At l (w ++ rest)
    → skip_while test fuel l ≡ (ok tt, bumps (length w) l)
unfolding skip_while
skip_while-At test w rest zero l h z f a = absurd (omega arith)
skip_while-At test [] rest (suc fuel) l h z f a = rw (peek-At rest a, z, skip_while)
skip_while-At test (c ∷ w) rest (suc fuel) l h z f a =
    rw (peek-At (c ∷ w ++ rest) a, h.0, skip_while)
      (skip_while-At test w rest fuel (bumped l) h.1 z (omega arith) (bumped-At c (w ++ rest) a))

abbrev pub tail : Text → Text
tail [] = []
tail (_ ∷ cs) = cs

drop-tail : (xs : List ℕ) (i : ℕ) → drop (suc i) xs ≡ tail (drop i xs)
drop-tail [] zero = refl
drop-tail [] (suc i) = refl
drop-tail (x ∷ xs) zero = refl
drop-tail (x ∷ xs) (suc i) = drop-tail xs i

drop-drop : (xs : List ℕ) (i k n : ℕ) → n ≡ i + k → drop n xs ≡ drop k (drop i xs)
drop-drop xs zero k n e = let same : n ≡ k = omega arith in rw same
drop-drop [] (suc i) zero zero e = refl
drop-drop [] (suc i) zero (suc n) e = refl
drop-drop [] (suc i) (suc k) zero e = refl
drop-drop [] (suc i) (suc k) (suc n) e = refl
drop-drop (x ∷ xs) (suc i) k zero e = absurd (omega arith)
drop-drop (x ∷ xs) (suc i) k (suc n) e = drop-drop xs i k n (omega arith)

-- `self.chars.get(self.pos + k)`, with NUL for no character.
pub char_at-At :
    (k : ℕ) {l : Lexer} (rest : Text) → At l rest → or_nul (char_at k l) ≡ first (drop k rest)
char_at-At k {l} rest a =
    get_elem?-drop l.chars (l.pos + k)
    ∙ ap first (drop-drop l.chars l.pos k _ refl ∙ ap (drop k) a.rest_is)

-- The characters at the cursor and behind it that an operator's reader looks at.
abbrev pub Looks : Lexer → Text → Type 0
Looks l s =
    (peek_next l ≡ first (tail s))
    × (peek (bumped l) ≡ first (tail s))
    × (peek (bumped (bumped l)) ≡ first (tail (tail s)))
    × (peek (bumped (bumped (bumped l))) ≡ first (tail (tail (tail s))))

pub looks : {l : Lexer} (rest : Text) → At l rest → Looks l rest
unfolding peek peek_next bumped
looks {l} rest a =
    let step = drop-tail l.chars l.pos ∙ ap tail a.rest_is in
    let step2 = drop-tail l.chars (suc l.pos) ∙ ap tail step in
    let step3 = drop-tail l.chars (suc (suc l.pos)) ∙ ap tail step2 in
    let next : l.pos + 1 ≡ suc l.pos = omega arith in
    (
      ap (λ i. or_nul (get_elem? l.chars i)) next
          ∙ get_elem?-drop l.chars (suc l.pos)
          ∙ ap first step,
      get_elem?-drop l.chars (suc l.pos) ∙ ap first step,
      get_elem?-drop l.chars (suc (suc l.pos)) ∙ ap first step2,
      get_elem?-drop l.chars (suc (suc (suc l.pos))) ∙ ap first step3,
    )

-- The characters at the cursor that the readers of suffixes look at.
abbrev pub Suffix : Lexer → Text → Type 0
Suffix l s =
    (peek l ≡ first s)
    × (or_nul (char_at 0 l) ≡ first s)
    × (or_nul (char_at 1 l) ≡ first (drop 1 s))
    × (or_nul (char_at 2 l) ≡ first (drop 2 s))
    × (or_nul (char_at 3 l) ≡ first (drop 3 s))

pub suffix_looks : {l : Lexer} (s : Text) → At l s → Suffix l s
suffix_looks s a =
    (peek-At s a, char_at-At 0 s a, char_at-At 1 s a, char_at-At 2 s a, char_at-At 3 s a)
