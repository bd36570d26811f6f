-- ===== src/Archive/Open.antt =====
-- The file that `authenticate_to` of crates/database/src/archive.rs reads, and what it refuses.
use hostlet_app.Base.{
  ℕ, zero, suc, ◌+◌, not, ◌||◌, ◌&&◌, Bool, false, Option, none, some, [], ◌∷◌, ◌++◌, leb, ltb,
  ◌==◌, length, if◌then◌else◌,
}
use hostlet_app.Base.Text.{Text, text_eq}
use hostlet_app.Archive.Format.{
  Bytes, ArchiveResult, done, fails, unfinished, and_then, ok_or, magic, chunk_size_limit,
  max_manifest_bytes, read_u32, read_exact, nonce, aad, decode_hex_16, valid_sha256,
}
use hostlet_app.Archive.Seal.{
  Manifest, ExpectedArchive, ArchiveEnv, archive_format, u64_end, sha256_text, hash_file,
}

-- One chunk of the input: what it holds, and what follows it. Only the last one holds nothing.
unfoldable pub open_chunk : ArchiveEnv → Bytes → Bytes → ℕ → Bytes → ArchiveResult (Bytes × Bytes)
unfolding read_u32 read_exact nonce aad
open_chunk env prefix manifest index input =
    and_then (ok_or (read_u32 input) "archive_truncated") (λ p.
      and_then (ok_or (read_u32 p.1) "archive_truncated") (λ s.
        if ltb chunk_size_limit p.0 || not (s.0 == p.0 + 16)
        then fails "archive_chunk_invalid"
        else and_then (ok_or (read_exact s.0 s.1) "archive_truncated") (λ c.
          and_then
            (ok_or (env.decrypt (nonce prefix index) (aad manifest index (p.0 == 0)) c.0)
              "archive_authentication_failed")
            (λ opened.
              if not (length opened == p.0)
              then fails "archive_chunk_invalid"
              else done (opened, c.1)))))

-- The loop over the chunks. Counting bytes and chunks must not overflow.
unfoldable pub open_chunks : ℕ → ArchiveEnv → Bytes → Bytes → ℕ → ℕ → Bytes → ArchiveResult Bytes
unfolding open_chunk
open_chunks zero env prefix manifest index total input = unfinished
open_chunks (suc fuel) env prefix manifest index total input =
    and_then (open_chunk env prefix manifest index input) (λ chunk. elim chunk.0 [
      | [] ↦ elim chunk.1 [ [] ↦ done [] | _ ∷ _ ↦ fails "archive_trailing_data" ]
      | b ∷ bs ↦
          let more =
            open_chunks fuel env prefix manifest (index + 1) (total + length (b ∷ bs)) chunk.1 in
          if ltb (total + length (b ∷ bs)) u64_end && ltb (index + 1) u64_end
          then and_then more (λ rest. done ((b ∷ bs) ++ rest))
          else fails "archive_too_large"
    ])

abbrev pub not_at : ℕ → Option ℕ → Bool
not_at snapshot none = false
not_at snapshot (some exact) = not (snapshot == exact)

-- The manifest is of the archive that is expected.
unfoldable pub matches_target : Text → ExpectedArchive → Manifest → Bool
unfolding text_eq
matches_target key_id expected m =
    text_eq m.format archive_format
    && (m.archive_id == expected.archive_id
        && (m.tenant_database_id == expected.tenant_database_id
            && (m.database_generation == expected.database_generation
                && (text_eq m.key_id key_id
                    && (m.chunk_size == chunk_size_limit
                        && (leb m.snapshot_at expected.policy_time
                            && (not (not_at m.snapshot_at expected.exact_snapshot_at)
                                && ltb m.snapshot_at m.expires_at)))))))

-- The digest that is expected of the file, if one is.
unfoldable pub check_digest : ArchiveEnv → Bytes → Option Text → ArchiveResult Unit
unfolding hash_file valid_sha256 text_eq
check_digest env file none = done tt
check_digest env file (some digest) =
    if not (valid_sha256 digest)
    then fails "archive_digest_mismatch"
    else and_then (hash_file env file)
        (λ found. if text_eq found.1 digest then done tt else fails "archive_digest_mismatch")

-- The chunks, and the digest of all that they hold. A chunk takes some bytes of the file, so the
-- file's length and one is enough fuel.
unfoldable pub open_body : ArchiveEnv → Manifest → Bytes → Bytes → ArchiveResult (Manifest × Bytes)
unfolding decode_hex_16 open_chunks sha256_text text_eq
open_body env manifest written input = and_then (decode_hex_16 manifest.nonce_prefix) (λ prefix.
    and_then (open_chunks (suc (length input)) env prefix written 0 0 input) (λ plain.
      if length plain == manifest.plaintext_bytes
        && text_eq (sha256_text env plain) manifest.plaintext_sha256
      then done (manifest, plain)
      else fails "archive_plaintext_digest_mismatch"))

-- The head: magic bytes, and a manifest of the expected archive.
unfoldable pub open_head :
    ArchiveEnv → Text → ExpectedArchive → Bytes → ArchiveResult (Manifest × Bytes × Bytes)
unfolding matches_target read_exact read_u32 text_eq
open_head env key_id expected file =
    and_then (ok_or (read_exact 23 file) "archive_truncated") (λ head.
      if not (text_eq head.0 magic)
      then fails "archive_format_invalid"
      else and_then (ok_or (read_u32 head.1) "archive_truncated") (λ size.
        if size.0 == 0 || ltb max_manifest_bytes size.0
        then fails "archive_manifest_invalid"
        else and_then (ok_or (read_exact size.0 size.1) "archive_truncated") (λ body.
          and_then (ok_or (env.parse body.0) "archive_manifest_invalid") (λ manifest.
            if matches_target key_id expected manifest
            then done (manifest, body.0, body.1)
            else fails "archive_target_mismatch"))))

-- The manifest, and the plaintext that is written to the destination.
unfoldable pub authenticate_to :
    ArchiveEnv → Text → ExpectedArchive → Bytes → ArchiveResult (Manifest × Bytes)
unfolding check_digest open_head open_body
authenticate_to env key_id expected file =
    and_then (check_digest env file expected.encrypted_sha256) (λ _.
      and_then (open_head env key_id expected file) (λ head. open_body env head.0 head.1 head.2))
