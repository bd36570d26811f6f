-- ===== src/Archive/SealLaws.antt =====
-- What `seal` of crates/database/src/archive.rs answers for a new archive, and for one that it
-- sealed before.
use hostlet_app.Base.{
  ◌+◌, ◌≤◌, ◌<◌, ◌≡◌, inl, inr, refl, sym, ap, subst, ◌∙◌, true, none, some, List, any, length, All,
  Bool-cases,
}
use hostlet_app.Base.Text.{Text, text_eq}
use hostlet_app.Archive.Format.{Bytes, done, chunk_size_limit, safe_component}
use hostlet_app.Archive.Seal.{Manifest, ArchiveEnv, u64_end, joined, complete_manifest, seal_file}
use hostlet_app.Archive.Open.{check_digest}
use hostlet_app.Archive.Repository.{
  Repository, object_at, authenticate, own_archive, receipt_of, publish, seal_in, seal,
}
use hostlet_app.Archive.FileRoundTrip.{authenticate_to-seal_file}
use hostlet_app.Archive.RepositoryLaws.{
  with_directory, with_object, namespace-with_directory, has_directory, namespace_there,
  object_at-with_object, matches_target-own_archive, authenticate_there, read_back-done,
  replay_archive-done,
}

objects-with_directory :
    (name : Text) (r : Repository) → (with_directory name r).objects ≡ r.objects
objects-with_directory name r = elim (Bool-cases (any (text_eq name) r.directories)) [
  | inl here ↦ rw here refl
  | inr absent ↦ rw absent refl
]

key_id-with_directory : (name : Text) (r : Repository) → (with_directory name r).key_id ≡ r.key_id
key_id-with_directory name r = elim (Bool-cases (any (text_eq name) r.directories)) [
  | inl here ↦ rw here refl
  | inr absent ↦ rw absent refl
]

module _ (env : ArchiveEnv)
    (opens : (n a m c : Bytes) → env.encrypt n a m ≡ some c → env.decrypt n a c ≡ some m)
    (grows : (n a m c : Bytes) → env.encrypt n a m ≡ some c → length c ≡ length m + 16)
    (parses : (m : Manifest) → env.parse (env.print m) ≡ some m)
    (prints : (m : Manifest) → 0 < length (env.print m)) (name : Text) (prefix : Bytes)
    (reads : List Bytes) (manifest : Manifest) (file : Bytes) (safe : safe_component name ≡ true)
    (size : length prefix ≡ 16) (bytes_prefix : All (λ b. b < 256) prefix)
    (parts : All (λ r. (0 < length r) × (length r ≤ chunk_size_limit)) reads)
    (lasts : manifest.snapshot_at < manifest.expires_at) (fits : length file < u64_end) where
  module _ (r : Repository) (here : any (text_eq name) r.directories ≡ true)
      (sealed : seal_file env r.key_id prefix reads manifest ≡ done file) where
    authenticate_sealed :
        object_at name manifest.archive_id r.objects ≡ some file
        → authenticate env name (own_archive manifest) r
          ≡ done (complete_manifest env r.key_id prefix (joined reads) manifest, joined reads)
    unfolding complete_manifest check_digest
    authenticate_sealed found =
        authenticate_there env name (own_archive manifest) r file safe here found
        ∙ authenticate_to-seal_file env opens grows parses prints r.key_id (own_archive manifest)
            prefix reads manifest file size bytes_prefix parts sealed refl
            (matches_target-own_archive env r.key_id prefix (joined reads) manifest lasts)

    seal_in_again :
        (other : Bytes) (parts_read : List Bytes)
        → object_at name manifest.archive_id r.objects ≡ some file
        → seal_in env name other parts_read manifest r ≡ (
          done
              (receipt_of env (complete_manifest env r.key_id prefix (joined reads) manifest) file),
          r,
        )
    unfolding seal_in complete_manifest
    seal_in_again other parts_read found =
        rw (seal_in, found, authenticate_sealed found)
          (ap (λ o. (o, r))
            (replay_archive-done env manifest
              (complete_manifest env r.key_id prefix (joined reads) manifest) file (joined reads)
              fits refl refl refl))

  module _ (r : Repository) (here : any (text_eq name) r.directories ≡ true)
      (sealed : seal_file env r.key_id prefix reads manifest ≡ done file)
      (absent : object_at name manifest.archive_id r.objects ≡ none) where
    seal_in_new : seal_in env name prefix reads manifest r ≡ (
      done (receipt_of env (complete_manifest env r.key_id prefix (joined reads) manifest) file),
      with_object name manifest.archive_id file r,
    )
    unfolding seal_in complete_manifest publish
    seal_in_new =
        let after = with_object name manifest.archive_id file r in
        rw
          (
            seal_in,
            absent,
            sealed,
            authenticate_sealed after here sealed
                (object_at-with_object name manifest.archive_id file r),
          )
          (read_back-done env (complete_manifest env r.key_id prefix (joined reads) manifest) file
            (joined reads) r after fits)

  module _ (repository : Repository)
      (sealed : seal_file env repository.key_id prefix reads manifest ≡ done file)
      (absent : object_at name manifest.archive_id repository.objects ≡ none) where
    -- Sealing an archive that is not there, from reads that make a file, publishes the file and
    -- answers with the receipt of what was written: reading the file back does not refuse it. This
    -- is under a cipher that opens what it sealed and adds 16 bytes, a printed manifest that is not
    -- empty and parses back, a safe name of the namespace, 16 bytes as the nonce's prefix, parts of 1
    -- to 1048576 bytes, a snapshot before its expiry, and a file whose size is below 2 ^ 64.
    pub seal-receipt_of : seal env name prefix reads manifest repository ≡ (
      done (
          receipt_of env
            (complete_manifest env repository.key_id prefix (joined reads) manifest)
            file),
      with_object name manifest.archive_id file (with_directory name repository),
    )
    unfolding seal
    seal-receipt_of =
        let made = with_directory name repository in
        let same_key = key_id-with_directory name repository in
        rw (seal, namespace-with_directory name repository safe)
          (seal_in_new made (has_directory name repository)
              (subst (λ k. seal_file env k prefix reads manifest ≡ done file) (sym same_key) sealed)
              (subst (λ os. object_at name manifest.archive_id os ≡ none)
                (sym (objects-with_directory name repository)) absent)
            ∙ ap
                (λ k. (
                  done (
                      receipt_of env (complete_manifest env k prefix (joined reads) manifest) file),
                  with_object name manifest.archive_id file made,
                ))
                same_key)

    -- Under the same conditions, sealing the archive again, whatever the nonce and the source are by
    -- then, gives the first receipt and leaves the repository as it was.
    pub seal-again :
        (other : Bytes) (parts_read : List Bytes)
        → seal env name other parts_read manifest (seal env name prefix reads manifest repository).1
          ≡ seal env name prefix reads manifest repository
    unfolding seal receipt_of
    seal-again other parts_read =
        ap (λ s. seal env name other parts_read manifest s.1) seal-receipt_of
        ∙ seal_there
        ∙ sym seal-receipt_of
      where
        after : Repository
        after = with_object name manifest.archive_id file (with_directory name repository)

        seal_there : seal env name other parts_read manifest after ≡ (
          done (
              receipt_of env
                (complete_manifest env repository.key_id prefix (joined reads) manifest)
                file),
          after,
        )
        seal_there =
            let same_key = key_id-with_directory name repository in
            rw (seal, namespace_there name true after safe (has_directory name repository))
              (seal_in_again after (has_directory name repository)
                  (subst (λ k. seal_file env k prefix reads manifest ≡ done file) (sym same_key)
                    sealed)
                  other parts_read
                  (object_at-with_object name manifest.archive_id file
                    (with_directory name repository))
                ∙ ap
                    (λ k. (
                      done (
                          receipt_of env (complete_manifest env k prefix (joined reads) manifest)
                            file),
                      after,
                    ))
                    same_key)
