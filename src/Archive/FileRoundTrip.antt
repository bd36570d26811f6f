-- ===== src/Archive/FileRoundTrip.antt =====
-- A whole file of crates/database/src/archive.rs, sealed and opened.
use hostlet_app.Base.{
  ℕ, suc, ◌+◌, ◌≤◌, ◌<◌, ◌≡◌, inl, inr, refl, sym, ap, ◌∙◌, true, false, ◌||◌, some, List, ◌++◌,
  ltb, ◌==◌, length, All, Bool-cases, arith,
}
use hostlet_app.Base.Text.{Text, text_eq_refl}
use hostlet_app.Archive.Format.{
  Bytes, done, and_then, magic, chunk_size_limit, max_manifest_bytes, u32_bytes, decode_hex_16,
}
use hostlet_app.Archive.HexLaws.{read_u32-u32_bytes, read_exact-append, decode_hex_16-hex}
use hostlet_app.Archive.Seal.{
  Manifest, ExpectedArchive, ArchiveEnv, u64_end, joined, sha256_text, hash_file, complete_manifest,
  seal_chunks, seal_file,
}
use hostlet_app.Archive.Open.{
  open_chunks, open_head, open_body, check_digest, matches_target, authenticate_to,
}
use hostlet_app.Archive.RoundTrip.{
  same_number, fails-done, done-injective, and_then-done, seal_chunks-length,
  open_chunks-seal_chunks,
}

-- The file of a manifest, as it is written, and its chunks.
abbrev file_of : Bytes → Bytes → Bytes
file_of written chunks = magic ++ (u32_bytes (length written) ++ (written ++ chunks))

seal_file-done :
    (env : ArchiveEnv) (key_id : Text) (prefix : Bytes) (reads : List Bytes) (manifest : Manifest)
    (file : Bytes)
    → seal_file env key_id prefix reads manifest ≡ done file
    → let written = env.print (complete_manifest env key_id prefix (joined reads) manifest) in
      (length (joined reads) < u64_end)
      × (length written ≤ max_manifest_bytes)
      × (chunks : Bytes) × (seal_chunks env prefix written 0 reads ≡ done chunks)
      × (file ≡ file_of written chunks)
unfolding seal_file hash_file
seal_file-done env key_id prefix reads manifest file h =
    let written = env.print (complete_manifest env key_id prefix (joined reads) manifest) in
    elim (Bool-cases (ltb (length (joined reads)) u64_end)) [
      | inl fits ↦ elim (Bool-cases (ltb max_manifest_bytes (length written))) [
        | inl long ↦ absurd (fails-done (rw (fits, long) at h))
        | inr short ↦
            let (chunks, sealed, whole) =
              and_then-done (seal_chunks env prefix written 0 reads) _ file
                (rw (fits, short) at h) in
            (
              ground (arith, fits),
              ground (arith, short),
              chunks,
              sealed,
              sym (done-injective _ file whole),
            )
      ]
      | inr long ↦ absurd (fails-done (rw long at h))
    ]

within : (n : ℕ) → 0 < n → n ≤ max_manifest_bytes → (n == 0 || ltb max_manifest_bytes n) ≡ false
within n h k = ground arith

open_head-file_of :
    (env : ArchiveEnv) (key_id : Text) (expected : ExpectedArchive) (m : Manifest)
    (written chunks : Bytes)
    → env.parse written ≡ some m
    → 0 < length written
    → length written ≤ max_manifest_bytes
    → matches_target key_id expected m ≡ true
    → open_head env key_id expected (file_of written chunks) ≡ done (m, written, chunks)
unfolding open_head
open_head-file_of env key_id expected m written chunks parsed some_bytes small target =
    rw
      (
        open_head,
        read_u32-u32_bytes (length written) (written ++ chunks) (omega (arith, small)),
        within (length written) some_bytes small,
        read_exact-append written chunks,
        parsed,
        target,
      )
      refl

open_body-file_of :
    (env : ArchiveEnv) (m : Manifest) (prefix plain written chunks : Bytes)
    → decode_hex_16 m.nonce_prefix ≡ done prefix
    → m.plaintext_bytes ≡ length plain
    → m.plaintext_sha256 ≡ sha256_text env plain
    → open_chunks (suc (length chunks)) env prefix written 0 0 chunks ≡ done plain
    → open_body env m written chunks ≡ done (m, plain)
unfolding open_body
open_body-file_of env m prefix plain written chunks decoded size digest opened =
    rw
      (
        open_body,
        decoded,
        opened,
        size,
        digest,
        same_number (length plain),
        text_eq_refl (sha256_text env plain),
      )
      refl

module _ (env : ArchiveEnv)
    (opens : (n a m c : Bytes) → env.encrypt n a m ≡ some c → env.decrypt n a c ≡ some m)
    (grows : (n a m c : Bytes) → env.encrypt n a m ≡ some c → length c ≡ length m + 16)
    (parses : (m : Manifest) → env.parse (env.print m) ≡ some m)
    (prints : (m : Manifest) → 0 < length (env.print m)) where
  -- Whoever opens a sealed file under the key gets its manifest and all that was read from the
  -- source, when decryption undoes encryption and adds 16 bytes, a printed manifest is not empty
  -- and parses back, the nonce's prefix is 16 bytes, each part that was read is of 1 to 1048576
  -- bytes, the expected digest is the file's, and the manifest is of the archive that is expected.
  pub authenticate_to-seal_file :
      (key_id : Text) (expected : ExpectedArchive) (prefix : Bytes) (reads : List Bytes)
      (manifest : Manifest) (file : Bytes)
      → length prefix ≡ 16
      → All (λ b. b < 256) prefix
      → All (λ r. (0 < length r) × (length r ≤ chunk_size_limit)) reads
      → seal_file env key_id prefix reads manifest ≡ done file
      → check_digest env file expected.encrypted_sha256 ≡ done tt
      → matches_target key_id expected (complete_manifest env key_id prefix (joined reads) manifest)
        ≡ true
      → authenticate_to env key_id expected file
        ≡ done (complete_manifest env key_id prefix (joined reads) manifest, joined reads)
  unfolding authenticate_to complete_manifest
  authenticate_to-seal_file key_id expected prefix reads manifest file size bytes_prefix parts
        sealed digest target =
      let m = complete_manifest env key_id prefix (joined reads) manifest in
      let (fits, short, chunks, sealed_chunks, shape) =
        seal_file-done env key_id prefix reads manifest file sealed in
      let enough =
        seal_chunks-length env opens grows prefix (env.print m) 0 reads chunks sealed_chunks in
      let opened =
        open_chunks-seal_chunks env opens grows (suc (length chunks)) prefix (env.print m) 0 0 reads
          chunks sealed_chunks parts (omega (arith, fits)) (omega (arith, enough)) in
      let body =
        open_body-file_of env m prefix (joined reads) (env.print m) chunks
          (decode_hex_16-hex prefix size bytes_prefix) refl refl opened in
      let head =
        open_head-file_of env key_id expected m (env.print m) chunks (parses m) (prints m) short
          target in
      ap
        (λ r.
          and_then r
            (λ _. and_then (open_head env key_id expected file) (λ h. open_body env h.0 h.1 h.2)))
        digest
      ∙ ap (λ f. and_then (open_head env key_id expected f) (λ h. open_body env h.0 h.1 h.2)) shape
      ∙ ap (λ r. and_then r (λ h. open_body env h.0 h.1 h.2)) head
      ∙ body
