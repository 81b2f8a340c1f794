-- ===== src/Lexer/Reading/Positions.antt =====
-- crates/tinox-lexer/src/lib.rs, read_int_suffix: the column behind an integer's width suffix.
use tinox.Prelude.{
  ℕ, none, some, List, [], ◌∷◌, ◌++◌, Text, codes, get_elem?, All, All-get_elem?, ◌≡◌, arith,
}
use tinox.Lexer.Cursor.{Lexer, ok, bumped}
use tinox.Lexer.Numbers.{read_int_suffix}
use tinox.Lexer.Reading.At.{At, bumps, suffix_looks}

-- The suffixes that name a width, and how many of their characters `read_int_suffix` steps over.
abbrev pub width_suffixes : List (Text × ℕ)
width_suffixes =
    (codes "u8", 2)
    ∷ (codes "u16", 3)
    ∷ (codes "u32", 3)
    ∷ (codes "u64", 3)
    ∷ (codes "i8", 2)
    ∷ (codes "i16", 3)
    ∷ (codes "i32", 3)
    ∷ (codes "i64", 3)
    ∷ (codes "usize", 4)
    ∷ (codes "isize", 4)
    ∷ []

-- `text` is given back by `read_int_suffix`, with the column left `n` characters behind its start.
abbrev Drifts : Lexer → Text → Text × ℕ → Type 0
Drifts l rest (text, n) =
    At l (text ++ rest) → read_int_suffix l ≡ (ok none, record l { column = (bumps n l).column })

suffixes-Drift : (l : Lexer) (rest : Text) → All (Drifts l rest) width_suffixes
unfolding read_int_suffix bumped
suffixes-Drift l rest = (
  (λ a. ground (arith, suffix_looks _ a)),
  (
    (λ a. ground (arith, suffix_looks _ a)),
    (
      (λ a. ground (arith, suffix_looks _ a)),
      (
        (λ a. ground (arith, suffix_looks _ a)),
        (
          (λ a. ground (arith, suffix_looks _ a)),
          (
            (λ a. ground (arith, suffix_looks _ a)),
            (
              (λ a. ground (arith, suffix_looks _ a)),
              (
                (λ a. ground (arith, suffix_looks _ a)),
                (
                  (λ a. ground (arith, suffix_looks _ a)),
                  ((λ a. ground (arith, suffix_looks _ a)), tt),
                ),
              ),
            ),
          ),
        ),
      ),
    ),
  ),
)

-- A width suffix, spelled out in full, stands at the cursor. Then `read_int_suffix` gives it up: no
-- suffix is returned and the position stays. But the column is that of a lexer which has consumed the
-- suffix, or the first four characters of `usize` and `isize`.
pub read_int_suffix-drift :
    (l : Lexer) (i : ℕ) {text : Text} {n : ℕ} (rest : Text)
    → get_elem? width_suffixes i ≡ some (text, n)
    → At l (text ++ rest)
    → read_int_suffix l ≡ (ok none, record l { column = (bumps n l).column })
read_int_suffix-drift l i rest e =
    All-get_elem? (Drifts l rest) width_suffixes i (suffixes-Drift l rest) e
