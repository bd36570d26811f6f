-- ===== src/Archive/Samples.antt =====
-- A cipher and a way to print manifests to run crates/database/src/archive.rs with: the cipher puts
-- sixteen bytes in front, and a manifest is its numbers and then its texts.
use hostlet_app.Base.{
  ℕ, ◌+◌, ◌<◌, ◌≡◌, refl, subst, Bool, true, false, Option, none, some, [], ◌∷◌, ◌++◌, ◌==◌, length,
  if◌then◌else◌, arith,
}
use mathlib.Core.Option.{some-injective}
use hostlet_app.Base.Text.{Text, text_eq}
use hostlet_app.Archive.Format.{Bytes, read_exact}
use hostlet_app.Archive.HexLaws.{read_exact-append}
use hostlet_app.Archive.Seal.{Manifest, ArchiveEnv}

abbrev pub tag : Bytes
tag = 7 ∷ 0 ∷ 0 ∷ 0 ∷ 0 ∷ 0 ∷ 0 ∷ 0 ∷ 0 ∷ 0 ∷ 0 ∷ 0 ∷ 0 ∷ 0 ∷ 0 ∷ 0 ∷ []

unfoldable pub behind_tag : Bytes → Option Bytes
unfolding read_exact text_eq
behind_tag c = elim (read_exact 16 c) [
  | none ↦ none
  | some p ↦ if text_eq p.0 tag then some p.1 else none
]

abbrev bit : Bool → ℕ
bit true = 1
bit false = 0

abbrev with_size : Text → Bytes → Bytes
with_size t rest = length t ∷ (t ++ rest)

abbrev pub printed : Manifest → Bytes
printed m =
    m.archive_id
    ∷ m.tenant_database_id
    ∷ m.database_generation
    ∷ m.source_data_generation
    ∷ m.snapshot_at
    ∷ m.expires_at
    ∷ m.postgres_server_major
    ∷ m.pg_dump_major
    ∷ bit m.no_owner
    ∷ bit m.no_privileges
    ∷ bit m.cluster_roles_included
    ∷ bit m.portable
    ∷ m.chunk_size
    ∷ m.plaintext_bytes
    ∷ with_size m.format (
        with_size m.archive_kind (
          with_size m.key_id (
            with_size m.nonce_prefix
              (with_size m.plaintext_sha256 (with_size m.source_fingerprint [])))))

unfoldable read_text : {A : Type 0} → Bytes → (Text → Bytes → Option A) → Option A
unfolding read_exact
read_text [] k = none
read_text (n ∷ input) k = elim (read_exact n input) [ none ↦ none | some p ↦ k p.0 p.1 ]

read_text-with_size :
    {A : Type 0} (t : Text) (rest : Bytes) (k : Text → Bytes → Option A)
    → read_text (with_size t rest) k ≡ k t rest
unfolding read_text
read_text-with_size t rest k = rw (read_text, read_exact-append t rest) refl

unfoldable pub parsed : Bytes → Option Manifest
unfolding read_text
parsed
      (archive_id ∷ tenant ∷ generation ∷ source ∷ snapshot ∷ expires ∷ server ∷ dump ∷ owner
        ∷ privileges ∷ roles ∷ portable ∷ chunk ∷ size ∷ texts) =
    read_text texts λ format rest. read_text rest λ kind rest1. read_text rest1 λ key rest2.
      read_text rest2 λ nonce_text rest3. read_text rest3 λ digest rest4.
        read_text rest4 λ fingerprint _. some (record {
          format = format;
          archive_id = archive_id;
          archive_kind = kind;
          tenant_database_id = tenant;
          database_generation = generation;
          source_data_generation = source;
          snapshot_at = snapshot;
          expires_at = expires;
          postgres_server_major = server;
          pg_dump_major = dump;
          no_owner = owner == 1;
          no_privileges = privileges == 1;
          cluster_roles_included = roles == 1;
          key_id = key;
          nonce_prefix = nonce_text;
          chunk_size = chunk;
          plaintext_bytes = size;
          plaintext_sha256 = digest;
          source_fingerprint = fingerprint;
          portable = portable == 1;
        })
parsed _ = none

bit_back : (b : Bool) → (bit b == 1) ≡ b
bit_back true = refl
bit_back false = refl

pub parsed-printed : (m : Manifest) → parsed (printed m) ≡ some m
unfolding parsed
parsed-printed m =
    rw
      (
        parsed,
        read_text-with_size m.format (
            with_size m.archive_kind (
              with_size m.key_id (
                with_size m.nonce_prefix
                  (with_size m.plaintext_sha256 (with_size m.source_fingerprint []))))),
        read_text-with_size m.archive_kind (
            with_size m.key_id (
              with_size m.nonce_prefix
                (with_size m.plaintext_sha256 (with_size m.source_fingerprint [])))),
        read_text-with_size m.key_id (
            with_size m.nonce_prefix
              (with_size m.plaintext_sha256 (with_size m.source_fingerprint []))),
        read_text-with_size m.nonce_prefix
            (with_size m.plaintext_sha256 (with_size m.source_fingerprint [])),
        read_text-with_size m.plaintext_sha256 (with_size m.source_fingerprint []),
        read_text-with_size m.source_fingerprint [],
        bit_back m.no_owner,
        bit_back m.no_privileges,
        bit_back m.cluster_roles_included,
        bit_back m.portable,
      )
      refl

unfoldable pub small_env : ArchiveEnv
unfolding behind_tag parsed
small_env = record {
  encrypt = λ _ _ m. some (tag ++ m);
  decrypt = λ _ _ c. behind_tag c;
  sha256 = λ content. length content ∷ [];
  print = printed;
  parse = parsed;
}

pub small_env_opens :
    (n a m c : Bytes) → small_env.encrypt n a m ≡ some c → small_env.decrypt n a c ≡ some m
unfolding small_env
small_env_opens n a m c h = subst (λ d. behind_tag d ≡ some m) (some-injective _ c h) refl

pub small_env_grows :
    (n a m c : Bytes) → small_env.encrypt n a m ≡ some c → length c ≡ length m + 16
unfolding small_env
small_env_grows n a m c h =
    subst (λ d. length d ≡ length m + 16) (some-injective _ c h) (omega arith)

pub small_env_prints : (m : Manifest) → 0 < length (small_env.print m)
unfolding small_env
small_env_prints m = omega arith
