-- ===== src/Jobs/CommitLaws.antt =====
-- The commits that `valid_source_commit` of crates/control/src/jobs.rs accepts, against the CHECK of
-- the table.
use hostlet_app.Base.{
  &&_left, &&_right, ℕ, suc, ◌≡◌, refl, ap, ◌⊎◌, Bool, true, ◌&&◌, ◌||◌, List, [], ◌∷◌, ◌++◌, all,
  leb, ◌==◌, length, All, arith,
}
use hostlet_app.Base.Text.{Text, bytes, len, utf8, is_ascii_digit}
use hostlet_app.Jobs.Checks.{valid_source_commit}
use hostlet_app.Jobs.Steps.{IsHex, IsCommit}

abbrev hex_byte : ℕ → Bool
hex_byte b = is_ascii_digit b || (leb b'a' b && leb b b'f')

hex_byte-IsHex : (b : ℕ) → hex_byte b ≡ true → IsHex b
hex_byte-IsHex b h = ground arith

-- The bytes of a character are digits only if it is one.
utf8-hex : (c : ℕ) (rest : List ℕ) → all hex_byte (utf8 c ++ rest) ≡ true → utf8 c ≡ c ∷ []
utf8-hex c rest h = ground arith

bytes-IsHex :
    (t : Text) → all hex_byte (bytes t) ≡ true → All IsHex t × (length (bytes t) ≡ length t)
unfolding bytes
bytes-IsHex [] h = (tt, refl)
bytes-IsHex (c ∷ t) h =
    let ascii = utf8-hex c (bytes t) h in
    let now = rw ascii at h in
    let (digits, size) = bytes-IsHex t (&&_right (hex_byte c) (all hex_byte (bytes t)) now) in
    (
      (hex_byte-IsHex c (&&_left (hex_byte c) (all hex_byte (bytes t)) now), digits),
      rw ascii (ap suc size),
    )

pub valid_source_commit-IsCommit : (t : Text) → valid_source_commit t ≡ true → IsCommit t
unfolding valid_source_commit len
valid_source_commit-IsCommit t h =
    let sizes = length (bytes t) == 40 || length (bytes t) == 64 in
    let sized = &&_left sizes (all hex_byte (bytes t)) h in
    let (digits, size) = bytes-IsHex t (&&_right sizes (all hex_byte (bytes t)) h) in
    record { size = either (length (bytes t)) (length t) size sized; digits = digits }
  where
    either : (n m : ℕ) → n ≡ m → (n == 40 || n == 64) ≡ true → (m ≡ 40) ⊎ (m ≡ 64)
    either n m e h = ground (arith, e)
