-- ===== src/Archive/Seal.antt =====
-- The file that `seal` of crates/database/src/archive.rs writes: a manifest, and chunks under one
-- key.
use hostlet_app.Base.{
  ℕ, ◌+◌, Bool, true, false, Option, none, some, List, [], ◌∷◌, ◌++◌, ltb, length, if◌then◌else◌,
}
use hostlet_app.Base.Text.{Text, codes}
use hostlet_app.Archive.Format.{
  Bytes, ArchiveResult, done, fails, and_then, magic, chunk_size_limit, max_manifest_bytes,
  u32_bytes, nonce, aad, hex,
}

pub record Manifest : Type 0 where
  pub format : Text
  pub archive_id : ℕ
  pub archive_kind : Text
  pub tenant_database_id : ℕ
  pub database_generation : ℕ
  pub source_data_generation : ℕ
  pub snapshot_at : ℕ
  pub expires_at : ℕ
  pub postgres_server_major : ℕ
  pub pg_dump_major : ℕ
  pub no_owner : Bool
  pub no_privileges : Bool
  pub cluster_roles_included : Bool
  pub key_id : Text
  pub nonce_prefix : Text
  pub chunk_size : ℕ
  pub plaintext_bytes : ℕ
  pub plaintext_sha256 : Text
  pub source_fingerprint : Text
  pub portable : Bool

pub record ExpectedArchive : Type 0 where
  pub archive_id : ℕ
  pub tenant_database_id : ℕ
  pub database_generation : ℕ
  pub encrypted_sha256 : Option Text
  pub policy_time : ℕ
  pub exact_snapshot_at : Option ℕ

-- Third-party code: XChaCha20-Poly1305 under the repository's key (nonce, associated data,
-- message), SHA-256, and serde_json of a manifest.
pub record ArchiveEnv : Type 0 where
  pub encrypt : Bytes → Bytes → Bytes → Option Bytes
  pub decrypt : Bytes → Bytes → Bytes → Option Bytes
  pub sha256 : Bytes → Bytes
  pub print : Manifest → Bytes
  pub parse : Bytes → Option Manifest

abbrev pub archive_format : Text
archive_format = codes "hostlet.tenant-backup/v1"

-- 2 ^ 64, which a `u64` does not reach.
abbrev pub u64_end : ℕ
u64_end = 18446744073709551616

-- All that was read from the source: each `read` gives a part of at most the buffer's size, and one
-- of no bytes ends the loop.
abbrev pub joined : List Bytes → Bytes
joined [] = []
joined (r ∷ rs) = r ++ joined rs

-- `sha256`, and `hash_file`: a file's size, which a `u64` must hold, and its digest.
unfoldable pub sha256_text : ArchiveEnv → Bytes → Text
unfolding hex
sha256_text env content = hex (env.sha256 content)

unfoldable pub hash_file : ArchiveEnv → Bytes → ArchiveResult (ℕ × Text)
unfolding sha256_text
hash_file env file =
    if ltb (length file) u64_end
    then done (length file, sha256_text env file)
    else fails "archive_too_large"

-- The fields that `seal` sets.
unfoldable pub complete_manifest : ArchiveEnv → Text → Bytes → Bytes → Manifest → Manifest
unfolding sha256_text hex
complete_manifest env key_id prefix plain manifest = record manifest {
  format = archive_format;
  key_id = key_id;
  nonce_prefix = hex prefix;
  chunk_size = chunk_size_limit;
  plaintext_bytes = length plain;
  plaintext_sha256 = sha256_text env plain;
}

abbrev pub chunk_bytes : ℕ → Bytes → Bytes
chunk_bytes count sealed = u32_bytes count ++ (u32_bytes (length sealed) ++ sealed)

-- One turn of the loop: the chunk, while the counter does not overflow.
unfoldable pub seal_chunk : ArchiveEnv → Bytes → Bytes → ℕ → Bool → Bytes → ArchiveResult Bytes
unfolding nonce aad u32_bytes
seal_chunk env prefix manifest index final_chunk plain =
    elim (env.encrypt (nonce prefix index) (aad manifest index final_chunk) plain) [
      | none ↦ fails "archive_encrypt_failed"
      | some sealed ↦
          if ltb (index + 1) u64_end
          then done (chunk_bytes (length plain) sealed)
          else fails "archive_too_large"
    ]

unfoldable pub seal_chunks : ArchiveEnv → Bytes → Bytes → ℕ → List Bytes → ArchiveResult Bytes
unfolding seal_chunk
seal_chunks env prefix manifest index [] = seal_chunk env prefix manifest index true []
seal_chunks env prefix manifest index (r ∷ rs) =
    and_then (seal_chunk env prefix manifest index false r) (λ first.
      and_then (seal_chunks env prefix manifest (index + 1) rs) (λ rest. done (first ++ rest)))

-- The file, for the parts that were read from the source.
unfoldable pub seal_file : ArchiveEnv → Text → Bytes → List Bytes → Manifest → ArchiveResult Bytes
unfolding seal_chunks hash_file u32_bytes complete_manifest
seal_file env key_id prefix reads manifest = and_then (hash_file env (joined reads)) (λ _.
    let written = env.print (complete_manifest env key_id prefix (joined reads) manifest) in
    if ltb max_manifest_bytes (length written)
    then fails "archive_manifest_invalid"
    else and_then (seal_chunks env prefix written 0 reads)
        (λ chunks. done (magic ++ (u32_bytes (length written) ++ (written ++ chunks)))))
