-- ===== src/Packages/Envelope.antt =====
-- crates/tinox/src/pm.rs: the JSON envelope around an artifact that a registry sends.
use tinox.Prelude.{
  ℕ, Bool, true, false, ◌==◌, if◌then◌else◌, Option, none, some, List, [], ◌∷◌, ◌++◌, Text, codes,
}
use tinox.Packages.Strings.{is_whitespace, drop_while}
use tinox.Packages.Base64.{given, base64_decode}

-- `strip_prefix`: the text behind a prefix.
abbrev pub strip_prefix : Text → Text → Option Text
strip_prefix [] s = some s
strip_prefix (c ∷ p) [] = none
strip_prefix (c ∷ p) (d ∷ s) = let rest = strip_prefix p s in if c == d then rest else none

-- `&s[s.find(p)? + p.len()..]`: the text behind the first occurrence of `p`.
abbrev pub behind_first : Text → Text → Option Text
behind_first p [] = strip_prefix p []
behind_first p (c ∷ s) =
    let later = behind_first p s in
    elim (strip_prefix p (c ∷ s)) [ some rest ↦ some rest | none ↦ later ]

-- The loop of `extract_json_string_field`: the text up to the closing quote.
unfoldable pub unescape : Bool → Text → Option Text
unescape escaped [] = none
unescape true (c ∷ s) = given (unescape false s) λ text. some (c ∷ text)
unescape false (c ∷ s) =
    let escape = unescape true s in
    let text = unescape false s in
    if c == b'\\' then escape else if c == b'"' then some [] else given text λ t. some (c ∷ t)

-- A value begins with its quote.
unfoldable pub string_value : Text → Option Text
unfolding unescape
string_value [] = none
string_value (c ∷ s) = if c == b'"' then unescape false s else none

-- `extract_json_string_field`
unfoldable pub extract_json_string_field : Text → Text → Option Text
unfolding string_value
extract_json_string_field json field =
    given (behind_first (b'"' ∷ field ++ b'"' ∷ []) json) λ after_key.
      given (behind_first (b':' ∷ []) after_key)
        λ after_colon. string_value (drop_while is_whitespace after_colon)

-- `parse_registry_envelope`, on what `str::from_utf8` gives for the bytes of the answer.
unfoldable pub parse_registry_envelope : Option Text → Option (Text × List ℕ)
unfolding extract_json_string_field base64_decode
parse_registry_envelope utf8 = given utf8 λ text.
    let trimmed = drop_while is_whitespace text in
    given (strip_prefix (b'{' ∷ []) trimmed) λ _.
      given (extract_json_string_field trimmed (codes "filename")) λ filename.
        given (extract_json_string_field trimmed (codes "contentBase64"))
          λ content_base64. given (base64_decode content_base64) λ decoded. some (filename, decoded)
