-- ===== src/Packages/Decoding.antt =====
-- crates/tinox/src/pm.rs: `base64_decode` and the encoding of RFC 4648.
use tinox.Prelude.{
  ℕ, zero, suc, ◌+◌, ◌-◌, ◌*◌, ◌/◌, ◌%◌, ◌^◌, ◌<◌, false, not, ◌==◌, ltb, if◌then◌else◌, some, List,
  [], ◌∷◌, Text, keep, All, ◌≡◌, refl, ◌∙◌, arith,
}
use tinox.Packages.Base64.{
  bit_or, or8, shl8, val, decode_groups, is_ascii_whitespace, base64_decode,
}

-- The digit of a value below 64.
abbrev pub digit : ℕ → ℕ
digit n =
    if ltb n 26
    then n + b'A'
    else if ltb n 52
    then n - 26 + b'a'
    else if ltb n 62
    then n - 52 + b'0'
    else if n == 62
    then b'+'
    else b'/'

-- The encoding of RFC 4648, with padding.
abbrev pub base64_encode : List ℕ → Text
base64_encode [] = []
base64_encode (x ∷ []) = digit (x / 4) ∷ digit (x % 4 * 16) ∷ b'=' ∷ b'=' ∷ []
base64_encode (x ∷ y ∷ []) =
    digit (x / 4) ∷ digit (x % 4 * 16 + y / 16) ∷ digit (y % 16 * 4) ∷ b'=' ∷ []
base64_encode (x ∷ y ∷ z ∷ bytes) =
    digit (x / 4)
    ∷ digit (x % 4 * 16 + y / 16)
    ∷ digit (y % 16 * 4 + z / 64)
    ∷ digit (z % 64)
    ∷ base64_encode bytes

val-digit : (n : ℕ) → n < 64 → val (digit n) ≡ some n
unfolding val
val-digit n h = ground arith

digit-padding : (n : ℕ) → n < 64 → (digit n == b'=') ≡ false
digit-padding n h = ground arith

bit_or-zero : (n a : ℕ) → a < 2 ^ n → bit_or n a 0 ≡ a
bit_or-zero zero a h = omega arith
bit_or-zero (suc n) a h = ground (arith, bit_or-zero n (a / 2) (omega arith))

bit_or-even : (n a b : ℕ) → bit_or (suc n) (2 * a) b ≡ b % 2 + 2 * bit_or n a (b / 2)
bit_or-even n a b =
    let even : (2 * a) % 2 ≡ 0 = omega arith in
    let half : (2 * a) / 2 ≡ a = omega arith in rw (even, half) (ground arith)

-- `a` behind `k` more bits, and a width of `k` more bits.
abbrev doubled : ℕ → ℕ → ℕ
doubled zero a = a
doubled (suc k) a = 2 * doubled k a

abbrev wider : ℕ → ℕ → ℕ
wider zero n = n
wider (suc k) n = suc (wider k n)

-- Bits that are shifted past those of `b` do not meet them.
bit_or-doubled :
    (k n a b : ℕ)
    → a < 2 ^ n
    → b < doubled k 1
    → bit_or (wider k n) (doubled k a) b ≡ doubled k a + b
bit_or-doubled zero n a b ha hb =
    let none_left : b ≡ 0 = omega arith in rw none_left (bit_or-zero n a ha ∙ omega arith)
bit_or-doubled (suc k) n a b ha hb =
    let ih = bit_or-doubled k n a (b / 2) ha (omega arith) in
    bit_or-even (wider k n) (doubled k a) b ∙ rw ih (omega arith)

or8-shift2 : (a b : ℕ) → a < 64 → b < 4 → or8 (shl8 a 2) b ≡ a * 4 + b
or8-shift2 a b ha hb =
    let shifted : shl8 a 2 ≡ doubled 2 a = omega arith in
    rw shifted (bit_or-doubled 2 6 a b ha hb ∙ omega arith)

or8-shift4 : (a b : ℕ) → a < 64 → b < 16 → or8 (shl8 a 4) b ≡ a % 16 * 16 + b
or8-shift4 a b ha hb =
    let shifted : shl8 a 4 ≡ doubled 4 (a % 16) = omega arith in
    rw shifted (bit_or-doubled 4 4 (a % 16) b (omega arith) hb ∙ omega arith)

or8-shift6 : (a b : ℕ) → a < 64 → b < 64 → or8 (shl8 a 6) b ≡ a % 4 * 64 + b
or8-shift6 a b ha hb =
    let shifted : shl8 a 6 ≡ doubled 6 (a % 4) = omega arith in
    rw shifted (bit_or-doubled 6 2 (a % 4) b (omega arith) hb ∙ omega arith)

decode_groups-encode :
    (bytes : List ℕ) → All (λ b. b < 256) bytes → decode_groups (base64_encode bytes) ≡ some bytes
unfolding decode_groups
decode_groups-encode [] h = refl
decode_groups-encode (x ∷ []) h =
    let h0 = h.0 in
    let x0 : or8 (shl8 (x / 4) 2) (x % 4 * 16 / 16) ≡ x =
      or8-shift2 (x / 4) (x % 4 * 16 / 16) (omega arith) (omega arith) ∙ omega arith in
    rw (val-digit (x / 4) (omega arith), val-digit (x % 4 * 16) (omega arith), x0) refl
decode_groups-encode (x ∷ y ∷ []) h =
    let h0 = h.0 in
    let h1 = h.1.0 in
    let m = x % 4 * 16 + y / 16 in
    let n = y % 16 * 4 in
    let x0 : or8 (shl8 (x / 4) 2) (m / 16) ≡ x =
      or8-shift2 (x / 4) (m / 16) (omega arith) (omega arith) ∙ omega arith in
    let y0 : or8 (shl8 m 4) (n / 4) ≡ y =
      or8-shift4 m (n / 4) (omega arith) (omega arith) ∙ omega arith in
    rw (val-digit (x / 4) (omega arith), val-digit m (omega arith))
      (rw (digit-padding n (omega arith), val-digit n (omega arith)) (rw (x0, y0) refl))
decode_groups-encode (x ∷ y ∷ z ∷ bytes) h =
    let h0 = h.0 in
    let h1 = h.1.0 in
    let h2 = h.1.1.0 in
    let m = x % 4 * 16 + y / 16 in
    let n = y % 16 * 4 + z / 64 in
    let x0 : or8 (shl8 (x / 4) 2) (m / 16) ≡ x =
      or8-shift2 (x / 4) (m / 16) (omega arith) (omega arith) ∙ omega arith in
    let y0 : or8 (shl8 m 4) (n / 4) ≡ y =
      or8-shift4 m (n / 4) (omega arith) (omega arith) ∙ omega arith in
    let z0 : or8 (shl8 n 6) (z % 64) ≡ z =
      or8-shift6 n (z % 64) (omega arith) (omega arith) ∙ omega arith in
    rw (val-digit (x / 4) (omega arith), val-digit m (omega arith))
      (rw (digit-padding n (omega arith), val-digit n (omega arith))
        (rw (digit-padding (z % 64) (omega arith), val-digit (z % 64) (omega arith))
          (rw (decode_groups-encode bytes h.1.1.1, x0, y0, z0) refl)))

-- `base64_decode` reads back the bytes from their encoding by RFC 4648, with ASCII white space
-- anywhere in it.
pub base64_decode-encode :
    (bytes : List ℕ) (input : Text)
    → All (λ b. b < 256) bytes
    → keep (λ c. not (is_ascii_whitespace c)) input ≡ base64_encode bytes
    → base64_decode input ≡ some bytes
unfolding base64_decode
base64_decode-encode bytes input h e = rw e (decode_groups-encode bytes h)
