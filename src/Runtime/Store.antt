-- ===== src/Runtime/Store.antt =====
-- The evidence store of crates/control/src/runtime_policy.rs: files under the digest of what they
-- hold.
use hostlet_app.Base.{
  ℕ, not, ◌||◌, ◌&&◌, Bool, Option, none, some, List, all, leb, ltb, ◌==◌, length, if◌then◌else◌,
}
use hostlet_app.Base.Integers.{ℤ}
use hostlet_app.Base.Text.{Text, codes, text_eq, bytes, len, is_ascii_digit}
use hostlet_app.Api.{ApiError, Result, ok, err, ◌>>=◌, conflict, unprocessable}
use hostlet_app.Runtime.Receipt.{ExecutorReceipt, without_prefix}

-- A file does not change while it is read. `in_place` says that it is a regular file at its own
-- canonical path, `private` that no one but its owner may use it.
pub record EvidenceFile : Type 0 where
  pub in_place : Bool
  pub private : Bool
  pub content : List ℕ

-- What the file system and third-party code give: the file of a digest, SHA-256 in lower-case
-- hexadecimal, serde_json of a receipt, and the way in which times are read (in milliseconds; `none`
-- outside of the calendar's range).
pub record RuntimeEnv : Type 0 where
  pub evidence_file : Text → Option EvidenceFile
  pub sha256_hex : List ℕ → Text
  pub parse_receipt : List ℕ → Option ExecutorReceipt
  pub receipt_time : ℤ → Option ℕ

abbrev pub max_receipt_bytes : ℕ
max_receipt_bytes = 524288

abbrev pub evidence_missing : ApiError
evidence_missing = unprocessable "runtime_evidence_missing"

abbrev pub evidence_invalid : ApiError
evidence_invalid = unprocessable "runtime_evidence_invalid"

unfoldable pub digest_hex : Text → Result Text
unfolding without_prefix bytes len
digest_hex value = elim (without_prefix (codes "sha256:") value) [
  | none ↦ err evidence_invalid
  | some hex ↦
      if not (len hex == 64)
        || not (all (λ b. is_ascii_digit b || (leb b'a' b && leb b b'f')) (bytes hex))
      then err evidence_invalid
      else ok hex
]

-- The digest is compared as text, which for lower-case hexadecimal is to compare its bytes.
unfoldable pub read_file : RuntimeEnv → Text → Option EvidenceFile → Result (List ℕ)
unfolding text_eq
read_file env hex none = err evidence_missing
read_file env hex (some file) =
    if not file.in_place || (ltb max_receipt_bytes (length file.content) || not file.private)
    then err evidence_invalid
    else if text_eq (env.sha256_hex file.content) hex
    then ok file.content
    else err (conflict "runtime_evidence_digest_mismatch")

unfoldable pub read_cas_receipt : RuntimeEnv → Text → Result (List ℕ)
unfolding digest_hex read_file
read_cas_receipt env digest = digest_hex digest >>= λ hex. read_file env hex (env.evidence_file hex)

-- With what serde_json makes of it.
unfoldable pub read_receipt : RuntimeEnv → Text → Result (Option ExecutorReceipt)
unfolding read_cas_receipt
read_receipt env digest = read_cas_receipt env digest >>= λ content. ok (env.parse_receipt content)
