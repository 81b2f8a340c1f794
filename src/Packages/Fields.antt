-- ===== src/Packages/Fields.antt =====
-- crates/tinox/src/pm.rs: `extract_json_string_field` on a serialised object.
use tinox.Prelude.{
  ℕ, true, false, ◌||◌, ◌==◌, ==_refl, if◌then◌else◌, some, [], ◌∷◌, ◌++◌, Text, All, ◌≡◌, refl,
  arith, inl, inr, Bool-cases,
}
use tinox.Packages.Strings.{is_whitespace, drop_while}
use tinox.Packages.Envelope.{strip_prefix, unescape, string_value, extract_json_string_field}

-- A serialiser's escapes: a backslash before each quote and each backslash.
abbrev pub json_escaped : Text → Text
json_escaped [] = []
json_escaped (c ∷ s) =
    if c == b'"' || c == b'\\' then b'\\' ∷ c ∷ json_escaped s else c ∷ json_escaped s

strip_prefix-append : (p s : Text) → strip_prefix p (p ++ s) ≡ some s
strip_prefix-append [] s = refl
strip_prefix-append (c ∷ p) s = rw (==_refl c, strip_prefix) (strip_prefix-append p s)

unescape-escaped : (s rest : Text) → unescape false (json_escaped s ++ b'"' ∷ rest) ≡ some s
unfolding unescape
unescape-escaped [] rest = refl
unescape-escaped (c ∷ s) rest =
    let ih = unescape-escaped s rest in
    elim (Bool-cases (c == b'"' || c == b'\\')) [
      | inl e ↦ rw e (rw ih refl)
      | inr n ↦
          let quote : (c == b'"') ≡ false = ground arith in
          let backslash : (c == b'\\') ≡ false = ground arith in
          rw n (rw (backslash, quote, ih) refl)
    ]

blanks-dropped :
    (blanks : Text) (c : ℕ) (s : Text)
    → All (λ b. is_whitespace b ≡ true) blanks
    → is_whitespace c ≡ false
    → drop_while is_whitespace (blanks ++ c ∷ s) ≡ c ∷ s
blanks-dropped [] c s h n = rw (n, drop_while) refl
blanks-dropped (b ∷ blanks) c s h n = rw (h.0, drop_while) (blanks-dropped blanks c s h.1 n)

-- The first field of a serialised object, `{`, its quoted name, a colon, white space or none, and
-- its quoted value with quotes and backslashes escaped, is read back by
-- `extract_json_string_field`, whatever the value is and whatever follows it.
pub extract_json_string_field-escaped :
    (field value blanks rest : Text)
    → All (λ b. is_whitespace b ≡ true) blanks
    → extract_json_string_field
        (b'{'
          ∷ ((b'"' ∷ (field ++ b'"' ∷ []))
              ++ (b':' ∷ (blanks ++ (b'"' ∷ (json_escaped value ++ b'"' ∷ rest))))))
        field
      ≡ some value
unfolding extract_json_string_field string_value
extract_json_string_field-escaped field value blanks rest h =
    let text : Text = b'"' ∷ (json_escaped value ++ b'"' ∷ rest) in
    let key : Text = b'"' ∷ (field ++ b'"' ∷ []) in
    let found = strip_prefix-append key (b':' ∷ (blanks ++ text)) in
    let value_at = blanks-dropped blanks b'"' (json_escaped value ++ b'"' ∷ rest) h refl in
    rw found (rw value_at (unescape-escaped value rest))
