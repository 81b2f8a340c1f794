-- ===== src/Packages/Strings.antt =====
-- The operations of Rust's `str` that crates/tinox/src/pm.rs uses.
use tinox.Prelude.{
  ℕ, ◌+◌, Bool, true, false, ◌&&◌, ◌||◌, ◌==◌, within, if◌then◌else◌, Option, none, some, List, [],
  ◌∷◌, Text,
}

-- `char::is_whitespace`: the code points with the property White_Space.
abbrev pub is_whitespace : ℕ → Bool
is_whitespace c =
    within 9 13 c
    || c == 32
    || c == 133
    || c == 160
    || c == 5760
    || within 8192 8202 c
    || c == 8232
    || c == 8233
    || c == 8239
    || c == 8287
    || c == 12288

abbrev pub drop_while : (ℕ → Bool) → Text → Text
drop_while p [] = []
drop_while p (c ∷ s) = elim (p c) [ true ↦ drop_while p s | false ↦ c ∷ s ]

-- `trim_end_matches`.
abbrev pub trim_end : (ℕ → Bool) → Text → Text
trim_end p [] = []
trim_end p (c ∷ s) =
    let rest = trim_end p s in elim rest [ [] ↦ if p c then [] else c ∷ [] | d ∷ t ↦ c ∷ d ∷ t ]

-- `trim_matches`.
abbrev pub trim_matches : (ℕ → Bool) → Text → Text
trim_matches p s = trim_end p (drop_while p s)

abbrev pub trim : Text → Text
trim = trim_matches is_whitespace

-- `split_once` at a character.
abbrev pub split_once : ℕ → Text → Option (Text × Text)
split_once d [] = none
split_once d (c ∷ s) =
    let rest = split_once d s in
    if c == d then some ([], s) else elim rest [ some (a, b) ↦ some (c ∷ a, b) | none ↦ none ]

abbrev pub onto_first : ℕ → List Text → List Text
onto_first c [] = (c ∷ []) ∷ []
onto_first c (line ∷ lines) = (c ∷ line) ∷ lines

-- The next character is a line feed.
abbrev pub at_line_end : Text → Bool
at_line_end [] = false
at_line_end (c ∷ _) = c == b'\n'

-- `str::lines`: a line ends with a line feed, with a carriage return before it or not.
abbrev pub lines : Text → List Text
lines [] = []
lines (c ∷ s) =
    let rest = lines s in
    if c == b'\n'
    then [] ∷ rest
    else if c == b'\r' && at_line_end s
    then rest
    else onto_first c rest

-- `contains` of a character.
abbrev pub contains : ℕ → Text → Bool
contains d [] = false
contains d (c ∷ s) = c == d || contains d s

-- `u8::to_ascii_lowercase` on a character.
abbrev pub ascii_lower : ℕ → ℕ
ascii_lower c = if within b'A' b'Z' c then c + 32 else c

abbrev pub eq_ignore_ascii_case : Text → Text → Bool
eq_ignore_ascii_case [] [] = true
eq_ignore_ascii_case (a ∷ s) (b ∷ t) = ascii_lower a == ascii_lower b && eq_ignore_ascii_case s t
eq_ignore_ascii_case _ _ = false
