-- ===== src/Archive/HexLaws.antt =====
-- Writing and reading the pieces of the format of crates/database/src/archive.rs.
use hostlet_app.Base.{
  ℕ, ◌+◌, ◌*◌, ◌/◌, ◌%◌, ◌<◌, ◌≡◌, refl, ap, ◌∙◌, false, some, [], ◌∷◌, ◌++◌, ◌==◌, length, All,
  arith,
}
use hostlet_app.Base.Text.{Text, bytes, len, utf8}
use hostlet_app.Archive.Format.{
  Bytes, done, u32_bytes, read_u32, read_exact, hex_digit, hex, digit_value, hex_pair, continues,
  ends_inside, decode_pairs, decode_hex_16,
}

-- Four bytes give back a number that they hold.
pub u32_value :
    (n : ℕ)
    → n < 4294967296
    → 16777216 * (n / 16777216 % 256) + 65536 * (n / 65536 % 256) + 256 * (n / 256 % 256) + n % 256
      ≡ n
u32_value n h = omega arith

pub read_u32-u32_bytes :
    (n : ℕ) (rest : Bytes) → n < 4294967296 → read_u32 (u32_bytes n ++ rest) ≡ some (n, rest)
unfolding read_u32 u32_bytes
read_u32-u32_bytes n rest h = ap (λ k. some (k, rest)) (u32_value n h)

pub read_exact-append : (xs rest : Bytes) → read_exact (length xs) (xs ++ rest) ≡ some (xs, rest)
unfolding read_exact
read_exact-append [] rest = refl
read_exact-append (x ∷ xs) rest = rw (read_exact-append xs rest) refl

-- Digits.
digit_value-hex_digit : (n : ℕ) → n < 16 → digit_value (hex_digit n) ≡ some n
unfolding digit_value hex_digit
digit_value-hex_digit n h = ground arith

hex_digit_ascii : (n : ℕ) → n < 16 → (hex_digit n < 128) × ((hex_digit n == 43) ≡ false)
unfolding hex_digit
hex_digit_ascii n h = ground arith

utf8_ascii : (c : ℕ) → c < 128 → utf8 c ≡ c ∷ []
utf8_ascii c h = ground arith

bytes_ascii : (c : ℕ) (s : Text) → c < 128 → bytes (c ∷ s) ≡ c ∷ bytes s
unfolding bytes
bytes_ascii c s h = rw (utf8_ascii c h) refl

bytes-hex :
    (b : ℕ) (bs : Bytes)
    → b < 256
    → bytes (hex (b ∷ bs)) ≡ hex_digit (b / 16) ∷ hex_digit (b % 16) ∷ bytes (hex bs)
unfolding hex
bytes-hex b bs h =
    bytes_ascii (hex_digit (b / 16)) (hex_digit (b % 16) ∷ hex bs)
      ((hex_digit_ascii (b / 16) (omega (arith, h))).0)
    ∙ ap (λ t. hex_digit (b / 16) ∷ t)
        (bytes_ascii (hex_digit (b % 16)) (hex bs) ((hex_digit_ascii (b % 16) (omega arith)).0))

ends_inside-hex : (bs : Bytes) → All (λ b. b < 256) bs → ends_inside (bytes (hex bs)) ≡ false
unfolding hex bytes
ends_inside-hex [] h = refl
ends_inside-hex (b ∷ bs) h =
    let small = (hex_digit_ascii (b / 16) (omega (arith, h.0))).0 in
    rw (bytes-hex b bs h.0) (ground (arith, small))

hex_pair-hex_digit : (b : ℕ) → b < 256 → hex_pair (hex_digit (b / 16)) (hex_digit (b % 16)) ≡ some b
unfolding hex_pair
hex_pair-hex_digit b h =
    rw
      (
        hex_pair,
        digit_value-hex_digit (b % 16) (omega arith),
        (hex_digit_ascii (b / 16) (omega (arith, h))).1,
        digit_value-hex_digit (b / 16) (omega (arith, h)),
      )
      (ap some (whole b))
  where
    whole : (n : ℕ) → 16 * (n / 16) + n % 16 ≡ n
    whole n = omega arith

decode_pairs-hex : (bs : Bytes) → All (λ b. b < 256) bs → decode_pairs (bytes (hex bs)) ≡ done bs
unfolding decode_pairs bytes hex
decode_pairs-hex [] h = refl
decode_pairs-hex (b ∷ bs) h =
    let small = (hex_digit_ascii (b / 16) (omega (arith, h.0))).0 in
    rw
      (
        bytes-hex b bs h.0,
        decode_pairs,
        not_continued (hex_digit (b / 16)) small,
        ends_inside-hex bs h.1,
        hex_pair-hex_digit b h.0,
        decode_pairs-hex bs h.1,
      )
      refl
  where
    not_continued : (c : ℕ) → c < 128 → continues c ≡ false
    not_continued c small = ground arith

len-hex : (bs : Bytes) → All (λ b. b < 256) bs → len (hex bs) ≡ 2 * length bs
unfolding len hex bytes
len-hex [] h = refl
len-hex (b ∷ bs) h = rw (bytes-hex b bs h.0) (omega (arith, len-hex bs h.1))

-- Sixteen bytes come back from their hexadecimal text.
pub decode_hex_16-hex :
    (bs : Bytes) → length bs ≡ 16 → All (λ b. b < 256) bs → decode_hex_16 (hex bs) ≡ done bs
unfolding decode_hex_16
decode_hex_16-hex bs size h = rw (len-hex bs h, size, decode_pairs-hex bs h) refl
