-- ===== src/Archive/RepositoryLaws.antt =====
-- Sealing in the repository of crates/database/src/archive.rs, once and again.
use hostlet_app.Base.{
  ℕ, ◌<◌, ◌≡◌, inl, inr, refl, Bool, true, false, some, ◌∷◌, any, leb, length, if◌then◌else◌,
  Bool-cases, arith,
}
use hostlet_app.Base.Text.{Text, text_eq, text_eq_refl}
use hostlet_app.Archive.Format.{Bytes, done, safe_component}
use hostlet_app.Archive.Seal.{
  Manifest, ExpectedArchive, ArchiveEnv, archive_format, u64_end, sha256_text, hash_file,
  complete_manifest,
}
use hostlet_app.Archive.Open.{matches_target, authenticate_to}
use hostlet_app.Archive.Repository.{
  Repository, object_at, namespace, authenticate, own_archive, receipt_of, replay_archive,
  read_back,
}
use hostlet_app.Archive.RoundTrip.{same_number, below}

-- The repository once the directory of a namespace is there.
abbrev pub with_directory : Text → Repository → Repository
with_directory name repository =
    if any (text_eq name) repository.directories
    then repository
    else record repository { directories = name ∷ repository.directories }

-- And once the file of an archive is in it.
abbrev pub with_object : Text → ℕ → Bytes → Repository → Repository
with_object name archive_id file repository = record repository {
  objects = record { namespace = name; archive_id = archive_id; file = file } ∷ repository.objects;
}

pub namespace-with_directory :
    (name : Text) (repository : Repository)
    → safe_component name ≡ true
    → namespace name true repository ≡ done (with_directory name repository)
unfolding namespace
namespace-with_directory name repository safe =
    elim (Bool-cases (any (text_eq name) repository.directories)) [
      | inl here ↦ rw (namespace, safe, here) refl
      | inr absent ↦ rw (namespace, safe, absent) refl
    ]

pub has_directory :
    (name : Text) (r : Repository) → any (text_eq name) ((with_directory name r).directories) ≡ true
has_directory name r = elim (Bool-cases (any (text_eq name) r.directories)) [
  | inl here ↦ rw (here, here) refl
  | inr absent ↦ rw (absent, text_eq_refl name) refl
]

pub namespace_there :
    (name : Text) (create : Bool) (r : Repository)
    → safe_component name ≡ true
    → any (text_eq name) r.directories ≡ true
    → namespace name create r ≡ done r
unfolding namespace
namespace_there name create r safe here = rw (namespace, safe, here) refl

pub object_at-with_object :
    (name : Text) (archive_id : ℕ) (file : Bytes) (r : Repository)
    → object_at name archive_id ((with_object name archive_id file r).objects) ≡ some file
unfolding object_at
object_at-with_object name archive_id file r = rw (text_eq_refl name, same_number archive_id) refl

not_late : (n : ℕ) → leb n n ≡ true
not_late n = ground arith

pub matches_target-own_archive :
    (env : ArchiveEnv) (key_id : Text) (prefix plain : Bytes) (manifest : Manifest)
    → manifest.snapshot_at < manifest.expires_at
    → let m = complete_manifest env key_id prefix plain manifest in
      matches_target key_id (own_archive m) m ≡ true
unfolding matches_target complete_manifest
matches_target-own_archive env key_id prefix plain manifest lasts =
    rw
      (
        matches_target,
        text_eq_refl archive_format,
        same_number manifest.archive_id,
        same_number manifest.tenant_database_id,
        same_number manifest.database_generation,
        text_eq_refl key_id,
        not_late manifest.snapshot_at,
        same_number manifest.snapshot_at,
        below manifest.snapshot_at manifest.expires_at lasts,
      )
      refl

pub authenticate_there :
    (env : ArchiveEnv) (name : Text) (expected : ExpectedArchive) (r : Repository) (file : Bytes)
    → safe_component name ≡ true
    → any (text_eq name) r.directories ≡ true
    → object_at name expected.archive_id r.objects ≡ some file
    → authenticate env name expected r ≡ authenticate_to env r.key_id expected file
unfolding authenticate
authenticate_there env name expected r file safe here found =
    rw (authenticate, namespace_there name false r safe here, found) refl

hash_file-below :
    (env : ArchiveEnv) (file : Bytes)
    → length file < u64_end
    → hash_file env file ≡ done (length file, sha256_text env file)
unfolding hash_file
hash_file-below env file fits = rw (hash_file, below (length file) u64_end fits) refl

pub read_back-done :
    (env : ArchiveEnv) (m : Manifest) (file plain : Bytes) (before after : Repository)
    → length file < u64_end
    → read_back env m file before after (done (m, plain)) ≡ (done (receipt_of env m file), after)
unfolding read_back
read_back-done env m file plain before after fits =
    rw
      (
        text_eq_refl m.plaintext_sha256,
        same_number m.plaintext_bytes,
        hash_file-below env file fits,
      )
      refl

pub replay_archive-done :
    (env : ArchiveEnv) (manifest m : Manifest) (file plain : Bytes)
    → length file < u64_end
    → m.archive_kind ≡ manifest.archive_kind
    → m.source_data_generation ≡ manifest.source_data_generation
    → m.expires_at ≡ manifest.expires_at
    → replay_archive env manifest file (done (m, plain)) ≡ done (receipt_of env m file)
unfolding replay_archive
replay_archive-done env manifest m file plain fits kind generation expires =
    rw
      (
        replay_archive,
        kind,
        generation,
        expires,
        text_eq_refl manifest.archive_kind,
        same_number manifest.source_data_generation,
        same_number manifest.expires_at,
        hash_file-below env file fits,
      )
      refl
