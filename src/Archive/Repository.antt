-- ===== src/Archive/Repository.antt =====
-- The repository of crates/database/src/archive.rs: its directories, one for a namespace, and the
-- sealed files in them. Permissions, links and failures of the file system are not modelled.
use hostlet_app.Base.{
  ℕ, not, ◌||◌, ◌&&◌, Bool, true, false, Option, none, some, List, [], ◌∷◌, any, ◌==◌, length,
  if◌then◌else◌,
}
use hostlet_app.Base.Text.{Text, text_eq}
use hostlet_app.Archive.Format.{
  Bytes, ArchiveResult, done, fails, panics, unfinished, and_then, ok_or, safe_component,
}
use hostlet_app.Archive.Seal.{
  Manifest, ExpectedArchive, ArchiveEnv, archive_format, joined, sha256_text, hash_file,
  complete_manifest, seal_file,
}
use hostlet_app.Archive.Open.{authenticate_to}

-- Without `object_ref`, a path.
pub record Receipt : Type 0 where
  pub format : Text
  pub key_id : Text
  pub plaintext_sha256 : Text
  pub encrypted_sha256 : Text
  pub plaintext_bytes : ℕ
  pub encrypted_bytes : ℕ
  pub snapshot_at : ℕ
  pub manifest_sha256 : Text
  pub manifest : Manifest

pub record Object : Type 0 where
  pub namespace : Text
  pub archive_id : ℕ
  pub file : Bytes

pub record Repository : Type 0 where
  pub key_id : Text
  pub directories : List Text
  pub objects : List Object

abbrev pub is_object : Text → ℕ → Object → Bool
is_object name archive_id object = text_eq object.namespace name && object.archive_id == archive_id

unfoldable pub object_at : Text → ℕ → List Object → Option Bytes
unfolding text_eq
object_at name archive_id [] = none
object_at name archive_id (object ∷ rest) =
    if is_object name archive_id object then some object.file else object_at name archive_id rest

unfoldable pub without_object : Text → ℕ → List Object → List Object
unfolding text_eq
without_object name archive_id [] = []
without_object name archive_id (object ∷ rest) =
    let kept = without_object name archive_id rest in
    if is_object name archive_id object then kept else object ∷ kept

-- The directory of a namespace, which is made if the caller asks for it.
unfoldable pub namespace : Text → Bool → Repository → ArchiveResult Repository
unfolding safe_component text_eq
namespace name create repository =
    if not (safe_component name)
    then fails "archive_namespace_invalid"
    else if any (text_eq name) repository.directories
    then done repository
    else if create
    then done (record repository { directories = name ∷ repository.directories })
    else fails "archive_namespace_invalid"

unfoldable pub authenticate :
    ArchiveEnv → Text → ExpectedArchive → Repository → ArchiveResult (Manifest × Bytes)
unfolding namespace object_at authenticate_to
authenticate env name expected repository = and_then (namespace name false repository) (λ r.
    and_then (ok_or (object_at name expected.archive_id r.objects) "archive_unavailable")
      (λ file. authenticate_to env r.key_id expected file))

-- The archive that a manifest describes, at its own snapshot.
abbrev pub own_archive : Manifest → ExpectedArchive
own_archive m = record {
  archive_id = m.archive_id;
  tenant_database_id = m.tenant_database_id;
  database_generation = m.database_generation;
  encrypted_sha256 = none;
  policy_time = m.snapshot_at;
  exact_snapshot_at = some m.snapshot_at;
}

unfoldable pub receipt_of : ArchiveEnv → Manifest → Bytes → Receipt
unfolding sha256_text
receipt_of env m file = record {
  format = archive_format;
  key_id = m.key_id;
  plaintext_sha256 = m.plaintext_sha256;
  encrypted_sha256 = sha256_text env file;
  plaintext_bytes = m.plaintext_bytes;
  encrypted_bytes = length file;
  snapshot_at = m.snapshot_at;
  manifest_sha256 = sha256_text env (env.print m);
  manifest = m;
}

-- The archive is there already: it is opened, and answers for the same backup only.
unfoldable pub replay_archive :
    ArchiveEnv → Manifest → Bytes → ArchiveResult (Manifest × Bytes) → ArchiveResult Receipt
unfolding receipt_of hash_file text_eq
replay_archive env manifest file opened = and_then opened (λ recovered.
    if not (text_eq recovered.0.archive_kind manifest.archive_kind)
      || (not (recovered.0.source_data_generation == manifest.source_data_generation)
          || not (recovered.0.expires_at == manifest.expires_at))
    then fails "archive_replay_mismatch"
    else and_then (hash_file env file) (λ _. done (receipt_of env recovered.0 file)))

-- The file was published: it is read back, and removed if that fails.
unfoldable pub read_back :
    ArchiveEnv
    → Manifest
    → Bytes
    → Repository
    → Repository
    → ArchiveResult (Manifest × Bytes)
    → ArchiveResult Receipt × Repository
unfolding receipt_of hash_file text_eq
read_back env m file before after (done verified) =
    if not (text_eq verified.0.plaintext_sha256 m.plaintext_sha256)
      || not (verified.0.plaintext_bytes == m.plaintext_bytes)
    then (fails "archive_readback_failed", after)
    else (and_then (hash_file env file) (λ _. done (receipt_of env m file)), after)
read_back env m file before after (fails e) = (fails e, before)
read_back env m file before after panics = (panics, after)
read_back env m file before after unfinished = (unfinished, after)

unfoldable pub publish :
    ArchiveEnv
    → Text
    → Manifest
    → Repository
    → ArchiveResult Bytes
    → ArchiveResult Receipt × Repository
unfolding read_back authenticate
publish env name m repository (done file) =
    let after = record repository {
      objects =
          record { namespace = name; archive_id = m.archive_id; file = file } ∷ repository.objects;
    } in
    read_back env m file repository after (authenticate env name (own_archive m) after)
publish env name m repository (fails e) = (fails e, repository)
publish env name m repository panics = (panics, repository)
publish env name m repository unfinished = (unfinished, repository)

-- `seal` in a directory that is there.
unfoldable pub seal_in :
    ArchiveEnv
    → Text
    → Bytes
    → List Bytes
    → Manifest
    → Repository
    → ArchiveResult Receipt × Repository
unfolding publish replay_archive authenticate object_at seal_file complete_manifest
seal_in env name prefix reads manifest repository =
    elim (object_at name manifest.archive_id repository.objects) [
      | some file ↦ (
        replay_archive env manifest file (authenticate env name (own_archive manifest) repository),
        repository,
      )
      | none ↦
          publish env name (complete_manifest env repository.key_id prefix (joined reads) manifest)
            repository (seal_file env repository.key_id prefix reads manifest)
    ]

unfoldable pub seal :
    ArchiveEnv
    → Text
    → Bytes
    → List Bytes
    → Manifest
    → Repository
    → ArchiveResult Receipt × Repository
unfolding namespace seal_in
seal env name prefix reads manifest repository = elim (namespace name true repository) [
  | done made ↦ seal_in env name prefix reads manifest made
  | fails e ↦ (fails e, repository)
  | panics ↦ (panics, repository)
  | unfinished ↦ (unfinished, repository)
]

unfoldable pub expire :
    ArchiveEnv → Text → ExpectedArchive → Repository → ArchiveResult Unit × Repository
unfolding authenticate without_object
expire env name expected repository = elim (authenticate env name expected repository) [
  | done _ ↦ (
    done tt,
    record repository { objects = without_object name expected.archive_id repository.objects },
  )
  | fails e ↦ (fails e, repository)
  | panics ↦ (panics, repository)
  | unfinished ↦ (unfinished, repository)
]
