-- ===== src/Lexer/Reading/Recovery.antt =====
-- crates/tinox-lexer/src/lib.rs, tokenize: the error path of its loop.
use tinox.Prelude.{
  ℕ, suc, ◌+◌, Bool, true, false, ◌||◌, ◌==◌, All, List, [], ◌∷◌, ◌++◌, Text, drop, codes, ◌≡◌,
  refl, ap, ◌∙◌, arith,
}
use tinox.Diag.{Error}
use tinox.Lexer.Token.{Token}
use tinox.Lexer.Cursor.{Lexer, M, bumped}
use tinox.Lexer.Numbers.{FloatParser, is_digit}
use tinox.Lexer.Next.{
  is_letter, unexpected, punctuation_arm, operator_arm, token_arm, mark, next_token, on_token,
}
use tinox.Lexer.Reading.At.{At, bumped-At}
use tinox.Lexer.Reading.Words.{next_token-At, mark-At}

abbrev pub member : ℕ → Text → Bool
member c [] = false
member c (d ∷ s) = c == d || member c s

abbrev blanks : Text
blanks = codes "\n \t\r/\"r'"

abbrev operators : Text
operators = codes "+-*%=!<>&|^"

abbrev punctuation : Text
punctuation = codes "~.:;,?@\\(){}[]"

-- A token of the language begins with this character, or white space.
abbrev pub begins_token : ℕ → Bool
begins_token c =
    (is_letter c || is_digit c) || member c blanks || member c operators || member c punctuation

or-false : (a b : Bool) → (a || b) ≡ false → (a ≡ false) × (b ≡ false)
or-false true b h = cc
or-false false b h = (refl, h)

member-differs : (c : ℕ) (s : Text) → member c s ≡ false → All (λ d. (c == d) ≡ false) s
member-differs c [] h = tt
member-differs c (d ∷ s) h =
    let here : (c == d) ≡ false = ground arith in
    let there : member c s ≡ false = ground arith in (here, member-differs c s there)

punctuation_arm-unexpected :
    {F : Type 0} (c : ℕ)
    → All (λ d. (c == d) ≡ false) punctuation
    → punctuation_arm {F = F} c ≡ unexpected
unfolding punctuation_arm
punctuation_arm-unexpected c h =
    rw
      (
        h.0, h.1.0, h.1.1.0, h.1.1.1.0, h.1.1.1.1.0, h.1.1.1.1.1.0, h.1.1.1.1.1.1.0,
        h.1.1.1.1.1.1.1.0, h.1.1.1.1.1.1.1.1.0, h.1.1.1.1.1.1.1.1.1.0, h.1.1.1.1.1.1.1.1.1.1.0,
        h.1.1.1.1.1.1.1.1.1.1.1.0, h.1.1.1.1.1.1.1.1.1.1.1.1.0, h.1.1.1.1.1.1.1.1.1.1.1.1.1.0,
      )
      refl

operator_arm-unexpected :
    {F : Type 0} (c : ℕ)
    → All (λ d. (c == d) ≡ false) operators
    → punctuation_arm {F = F} c ≡ unexpected
    → operator_arm {F = F} c ≡ unexpected
unfolding operator_arm
operator_arm-unexpected c h e =
    rw
      (
        h.0, h.1.0, h.1.1.0, h.1.1.1.0, h.1.1.1.1.0, h.1.1.1.1.1.0, h.1.1.1.1.1.1.0,
        h.1.1.1.1.1.1.1.0, h.1.1.1.1.1.1.1.1.0, h.1.1.1.1.1.1.1.1.1.0, h.1.1.1.1.1.1.1.1.1.1.0,
      )
      e

token_arm-unexpected :
    {F : Type 0} (floats : FloatParser F) (c : ℕ)
    → (is_letter c || is_digit c) ≡ false
    → All (λ d. (c == d) ≡ false) blanks
    → operator_arm {F = F} c ≡ unexpected
    → token_arm floats c ≡ unexpected
unfolding token_arm
token_arm-unexpected floats c w h e =
    let letter : is_letter c ≡ false = ground arith in
    let digit : is_digit c ≡ false = ground arith in
    rw
      (
        h.0, h.1.0, h.1.1.0, h.1.1.1.0, h.1.1.1.1.0, h.1.1.1.1.1.0, h.1.1.1.1.1.1.0,
        h.1.1.1.1.1.1.1.0, letter, digit,
      )
      e

-- A character `c` with which no token begins stands at the cursor, and some character `d` behind it.
-- Then the round of `tokenize` records an error and goes on behind `d`: the character after the
-- unexpected one is skipped too, whatever it is, and even a line feed leaves the line as it is.
pub on_token-skips :
    {F R : Type 0} (floats : FloatParser F) (l : Lexer) (c d : ℕ) (rest : Text)
    (ts : List (Token F)) (es : List Error) (again done : List (Token F) → List Error → M R)
    → begins_token c ≡ false
    → At l (c ∷ d ∷ rest)
    → (e : Error) × (l' : Lexer) × (on_token (next_token floats l) ts es again done
        ≡ again ts (es ++ e ∷ []) l')
      × At l' rest
      × (l'.line ≡ l.line)
unfolding on_token bumped
on_token-skips floats l c d rest ts es again done h a =
    let word = is_letter c || is_digit c in
    let p = or-false (word || member c blanks || member c operators) (member c punctuation) h in
    let o = or-false (word || member c blanks) (member c operators) p.0 in
    let b = or-false word (member c blanks) o.0 in
    let arm = token_arm-unexpected floats c b.0 (member-differs c blanks b.1) (
      operator_arm-unexpected c (member-differs c operators o.1)
        (punctuation_arm-unexpected c (member-differs c punctuation p.1))) in
    let answer = next_token-At floats l c (d ∷ rest) a ∙ ap (λ m. m (mark l)) arm in
    let at = bumped-At d rest (bumped-At c (d ∷ rest) (mark-At a)) in
    let moved : suc l.pos + 1 ≡ suc (suc l.pos) = omega arith in
    (
      _,
      _,
      ap (λ r. on_token r ts es again done) answer,
      (record {
        rest_is = ap (λ i. drop i l.chars) moved ∙ at.rest_is;
        in_bounds = omega (arith, at.in_bounds);
      }),
      refl,
    )
