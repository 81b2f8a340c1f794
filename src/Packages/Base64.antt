-- ===== src/Packages/Base64.antt =====
-- crates/tinox/src/pm.rs: the base64 decoder of a registry's answers.
use tinox.Prelude.{
  ℕ, zero, suc, ◌+◌, ◌-◌, ◌*◌, ◌/◌, ◌%◌, ◌^◌, Bool, not, ◌&&◌, ◌||◌, ◌==◌, within, if◌then◌else◌,
  Option, none, some, List, [], ◌∷◌, Text, keep,
}

-- `a | b` on `n` bits.
abbrev pub bit_or : ℕ → ℕ → ℕ → ℕ
bit_or zero a b = 0
bit_or (suc n) a b = (if a % 2 == 0 && b % 2 == 0 then 0 else 1) + 2 * bit_or n (a / 2) (b / 2)

-- `|` on `u8`, and `<<`, which drops the bits that leave the byte.
abbrev pub or8 : ℕ → ℕ → ℕ
or8 = bit_or 8

abbrev pub shl8 : ℕ → ℕ → ℕ
shl8 a k = a * 2 ^ k % 256

-- `?` on an `Option`.
abbrev pub given {ℓ κ} : {A : Type ℓ} {B : Type κ} → Option A → (A → Option B) → Option B
given none f = none
given (some a) f = f a

-- `val`: the value of a base64 digit.
unfoldable pub val : ℕ → Option ℕ
val c =
    if within b'A' b'Z' c
    then some (c - b'A')
    else if within b'a' b'z' c
    then some (c - b'a' + 26)
    else if within b'0' b'9' c
    then some (c - b'0' + 52)
    else if c == b'+'
    then some 62
    else if c == b'/'
    then some 63
    else none

-- The loop over groups of four digits; the bytes that it pushes from here on.
unfoldable pub decode_groups : Text → Option (List ℕ)
unfolding val
decode_groups [] = some []
decode_groups (b0 ∷ []) = none
decode_groups (b0 ∷ b1 ∷ []) =
    given (val b0) λ c0. given (val b1) λ c1. some (or8 (shl8 c0 2) (c1 / 16) ∷ [])
decode_groups (b0 ∷ b1 ∷ b2 ∷ []) = given (val b0) λ c0. given (val b1) λ c1.
    let x = or8 (shl8 c0 2) (c1 / 16) in
    if b2 == b'='
    then some (x ∷ [])
    else given (val b2) λ c2. some (x ∷ or8 (shl8 c1 4) (c2 / 4) ∷ [])
decode_groups (b0 ∷ b1 ∷ b2 ∷ b3 ∷ rest) =
    let more = decode_groups rest in
    given (val b0) λ c0. given (val b1) λ c1.
      let x = or8 (shl8 c0 2) (c1 / 16) in
      if b2 == b'='
      then some (x ∷ [])
      else given (val b2) λ c2.
        let y = or8 (shl8 c1 4) (c2 / 4) in
        if b3 == b'='
        then some (x ∷ y ∷ [])
        else given (val b3) λ c3. given more λ bytes. some (x ∷ y ∷ or8 (shl8 c2 6) c3 ∷ bytes)

-- `is_ascii_whitespace`
abbrev pub is_ascii_whitespace : ℕ → Bool
is_ascii_whitespace c = c == 32 || c == 9 || c == 10 || c == 12 || c == 13

-- `base64_decode`, on the bytes of its argument.
unfoldable pub base64_decode : Text → Option (List ℕ)
unfolding decode_groups
base64_decode input = decode_groups (keep (λ b. not (is_ascii_whitespace b)) input)
