-- ===== src/Archive/Format.antt =====
-- The pieces of the backup format of crates/database/src/archive.rs: numbers in big-endian bytes,
-- hexadecimal text, nonces and associated data. A byte is a number below 256.
use hostlet_app.Base.{
  ℕ, zero, suc, ◌+◌, ◌-◌, ◌*◌, ◌/◌, ◌%◌, ◌||◌, ◌&&◌, not, Bool, true, false, Option, none, some,
  List, [], ◌∷◌, ◌++◌, all, leb, ltb, ◌==◌, if◌then◌else◌,
}
use hostlet_app.Base.Text.{Text, codes, text_eq, bytes, len, is_empty, is_ascii_digit}
use Prim.Native.String.{String}

abbrev pub Bytes : Type 0
Bytes = List ℕ

-- What a function returns: a value or a `Failure::Archive` with its code. A slice that cuts a
-- character in two panics. A loop that runs out of its fuel is unfinished.
pub data ArchiveResult (A : Type 0) : Type 0 where
  done : A → ArchiveResult A
  fails : String → ArchiveResult A
  panics unfinished : ArchiveResult A

abbrev pub and_then : {A B : Type 0} → ArchiveResult A → (A → ArchiveResult B) → ArchiveResult B
and_then (done a) k = k a
and_then (fails e) k = fails e
and_then panics k = panics
and_then unfinished k = unfinished

-- `.ok_or(Failure::Archive(code))`.
abbrev pub ok_or : {A : Type 0} → Option A → String → ArchiveResult A
ok_or none e = fails e
ok_or (some a) e = done a

abbrev pub magic : Bytes
magic = codes "hostlet.tenant-backup" ++ 0 ∷ 1 ∷ []

abbrev pub chunk_size_limit : ℕ
chunk_size_limit = 1048576

abbrev pub max_manifest_bytes : ℕ
max_manifest_bytes = 65536

-- `(n as u32).to_be_bytes()`.
unfoldable pub u32_bytes : ℕ → Bytes
u32_bytes n = n / 16777216 % 256 ∷ n / 65536 % 256 ∷ n / 256 % 256 ∷ n % 256 ∷ []

-- `n.to_be_bytes()` of a `u64`.
unfoldable pub u64_bytes : ℕ → Bytes
unfolding u32_bytes
u64_bytes n = u32_bytes (n / 4294967296) ++ u32_bytes (n % 4294967296)

-- The number and what is left of the input.
unfoldable pub read_u32 : Bytes → Option (ℕ × Bytes)
read_u32 (a ∷ b ∷ c ∷ d ∷ rest) = some (16777216 * a + 65536 * b + 256 * c + d, rest)
read_u32 _ = none

unfoldable pub read_exact : ℕ → Bytes → Option (Bytes × Bytes)
read_exact zero input = some ([], input)
read_exact (suc n) [] = none
read_exact (suc n) (b ∷ input) = elim (read_exact n input) [
  | none ↦ none
  | some (taken, rest) ↦ some (b ∷ taken, rest)
]

unfoldable pub nonce : Bytes → ℕ → Bytes
unfolding u64_bytes
nonce prefix index = prefix ++ u64_bytes index

-- `u8::from(final_chunk)`.
abbrev flag : Bool → ℕ
flag true = 1
flag false = 0

unfoldable pub aad : Bytes → ℕ → Bool → Bytes
unfolding u64_bytes
aad manifest index final_chunk = manifest ++ (u64_bytes index ++ flag final_chunk ∷ [])

-- A hexadecimal digit, in lower case.
unfoldable pub hex_digit : ℕ → ℕ
hex_digit n = if ltb n 10 then b'0' + n else b'a' + (n - 10)

unfoldable pub hex : Bytes → Text
unfolding hex_digit
hex [] = []
hex (b ∷ bs) = hex_digit (b / 16) ∷ hex_digit (b % 16) ∷ hex bs

-- `char::to_digit(16)` of an ASCII byte.
unfoldable pub digit_value : ℕ → Option ℕ
digit_value b =
    if leb b'0' b && leb b b'9'
    then some (b - b'0')
    else if leb b'a' b && leb b b'f'
    then some (b - b'a' + 10)
    else if leb b'A' b && leb b b'F'
    then some (b - b'A' + 10)
    else none

-- `u8::from_str_radix(…, 16)` on two bytes: a plus sign may stand before a digit.
unfoldable pub hex_pair : ℕ → ℕ → Option ℕ
unfolding digit_value
hex_pair b c = elim (digit_value c) [
  | none ↦ none
  | some low ↦
      if b == b'+'
      then some low
      else (elim (digit_value b) [ none ↦ none | some high ↦ some (16 * high + low) ])
]

-- A byte that continues a character: no slice of a `str` may begin or end before it.
abbrev pub continues : ℕ → Bool
continues b = leb 0x80 b && ltb b 0xC0

abbrev pub ends_inside : Bytes → Bool
ends_inside [] = false
ends_inside (b ∷ _) = continues b

-- The loop over the slices of two bytes.
unfoldable pub decode_pairs : Bytes → ArchiveResult Bytes
unfolding hex_pair
decode_pairs [] = done []
decode_pairs (_ ∷ []) = done []
decode_pairs (b ∷ c ∷ rest) =
    let later = decode_pairs rest in
    if continues b || ends_inside rest then panics else (elim (hex_pair b c) [
      | none ↦ fails "archive_manifest_invalid"
      | some n ↦ and_then later (λ ns. done (n ∷ ns))
    ])

-- With the error that its caller makes of `None`.
unfoldable pub decode_hex_16 : Text → ArchiveResult Bytes
unfolding decode_pairs bytes len
decode_hex_16 value =
    if not (len value == 32) then fails "archive_manifest_invalid" else decode_pairs (bytes value)

unfoldable pub valid_sha256 : Text → Bool
unfolding bytes len
valid_sha256 value =
    len value == 64 && all (λ b. is_ascii_digit b || (leb b'a' b && leb b b'f')) (bytes value)

unfoldable pub safe_component : Text → Bool
unfolding text_eq bytes len
safe_component value =
    not (is_empty value)
    && (leb (len value) 128
        && (not (text_eq value (codes "."))
            && (not (text_eq value (codes ".."))
                && all
                    (λ b.
                      (leb b'a' b && leb b b'z') || (is_ascii_digit b || (b == b'-' || b == b'_')))
                    (bytes value))))
