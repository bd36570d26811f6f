-- ===== src/Archive/Tests.antt =====
-- A small archive of crates/database/src/archive.rs: sealed, opened, and sealed again.
use hostlet_app.Base.{◌≡◌, ◌≢◌, refl, true, false, List, [], ◌∷◌, arith}
use hostlet_app.Base.Text.{Text, codes}
use hostlet_app.Archive.Format.{
  Bytes, done, fails, panics, unfinished, decode_hex_16, safe_component,
}
use hostlet_app.Archive.Seal.{Manifest, complete_manifest, seal_file}
use hostlet_app.Archive.Open.{authenticate_to, check_digest, matches_target}
use hostlet_app.Archive.Repository.{expire, Repository, own_archive, seal, receipt_of, object_at}
use hostlet_app.Archive.ExpireLaws.{HasExpired, expire-HasExpired}
use hostlet_app.Archive.OpenLaws.{authenticate_to-unfinished}
use hostlet_app.Archive.FileRoundTrip.{authenticate_to-seal_file}
use hostlet_app.Archive.RepositoryLaws.{with_directory, with_object}
use hostlet_app.Archive.SealLaws.{seal-receipt_of, seal-again}
use hostlet_app.Archive.Samples.{
  small_env, parsed-printed, small_env_opens, small_env_grows, small_env_prints,
}

abbrev one_to_sixteen : Bytes
one_to_sixteen = 1 ∷ 2 ∷ 3 ∷ 4 ∷ 5 ∷ 6 ∷ 7 ∷ 8 ∷ 9 ∷ 10 ∷ 11 ∷ 12 ∷ 13 ∷ 14 ∷ 15 ∷ 255 ∷ []

abbrev two_reads : List Bytes
two_reads = codes "abc" ∷ codes "de" ∷ []

abbrev nightly : Manifest
nightly = record {
  format = [];
  archive_id = 5;
  archive_kind = codes "scheduled";
  tenant_database_id = 6;
  database_generation = 7;
  source_data_generation = 1;
  snapshot_at = 100;
  expires_at = 200;
  postgres_server_major = 17;
  pg_dump_major = 17;
  no_owner = true;
  no_privileges = true;
  cluster_roles_included = false;
  key_id = [];
  nonce_prefix = [];
  chunk_size = 0;
  plaintext_bytes = 0;
  plaintext_sha256 = [];
  source_fingerprint = codes "f";
  portable = true;
}

abbrev key_name : Text
key_name = codes "fixture-v1"

abbrev nightly_file : Bytes
unfolding seal_file small_env
nightly_file = elim (seal_file small_env key_name one_to_sixteen two_reads nightly) [
  | done file ↦ file
  | fails _ ↦ []
  | panics ↦ []
  | unfinished ↦ []
]

abbrev empty_repository : Repository
empty_repository = record { key_id = key_name; directories = []; objects = [] }

-- A prefix that is not ASCII cuts a character in two.
decode_cut_character :
    decode_hex_16 (
      0x20AC
      ∷ 0x20AC
      ∷ 0x20AC
      ∷ 0x20AC
      ∷ 0x20AC
      ∷ 0x20AC
      ∷ 0x20AC
      ∷ 0x20AC
      ∷ 0x20AC
      ∷ 0x20AC
      ∷ codes "00")
    ≡ panics
unfolding decode_hex_16
decode_cut_character = refl

decode_not_hexadecimal :
    decode_hex_16 (codes "0123456789abcdefghijklmnopqrstuv") ≡ fails "archive_manifest_invalid"
unfolding decode_hex_16
decode_not_hexadecimal = refl

authenticate_to-unfinished_example :
    authenticate_to small_env key_name (own_archive nightly) nightly_file ≢ unfinished
authenticate_to-unfinished_example =
    authenticate_to-unfinished small_env key_name (own_archive nightly) nightly_file

authenticate_to-seal_file_example :
    authenticate_to small_env key_name (own_archive nightly) nightly_file
    ≡ done
        (complete_manifest small_env key_name one_to_sixteen (codes "abcde") nightly, codes "abcde")
unfolding seal_file small_env matches_target check_digest
authenticate_to-seal_file_example =
    authenticate_to-seal_file small_env small_env_opens small_env_grows parsed-printed
      small_env_prints key_name (own_archive nightly) one_to_sixteen two_reads nightly nightly_file
      refl (omega arith) (omega arith) refl refl refl

seal-receipt_of_example :
    seal small_env (codes "ns") one_to_sixteen two_reads nightly empty_repository ≡ (
      done (
          receipt_of small_env
            (complete_manifest small_env key_name one_to_sixteen (codes "abcde") nightly)
            nightly_file),
      with_object (codes "ns") 5 nightly_file (with_directory (codes "ns") empty_repository),
    )
unfolding seal_file small_env object_at safe_component
seal-receipt_of_example =
    seal-receipt_of small_env small_env_opens small_env_grows parsed-printed small_env_prints
      (codes "ns") one_to_sixteen two_reads nightly nightly_file refl refl (omega arith)
      (omega arith) (omega arith) (omega arith) empty_repository refl refl

seal-again_example :
    seal small_env
      (codes "ns")
      []
      (codes "zz" ∷ [])
      nightly
      (seal small_env (codes "ns") one_to_sixteen two_reads nightly empty_repository).1
    ≡ seal small_env (codes "ns") one_to_sixteen two_reads nightly empty_repository
unfolding seal_file small_env object_at safe_component
seal-again_example =
    seal-again small_env small_env_opens small_env_grows parsed-printed small_env_prints
      (codes "ns") one_to_sixteen two_reads nightly nightly_file refl refl (omega arith)
      (omega arith) (omega arith) (omega arith) empty_repository refl refl [] (codes "zz" ∷ [])

abbrev one_object : Repository
one_object = record {
  key_id = key_name;
  directories = codes "ns" ∷ [];
  objects = record { namespace = codes "ns"; archive_id = 5; file = nightly_file } ∷ [];
}

expire-HasExpired_example :
    HasExpired small_env
      (codes "ns")
      (own_archive nightly)
      one_object
      (record one_object { objects = [] })
unfolding expire small_env seal_file
expire-HasExpired_example =
    expire-HasExpired small_env (codes "ns") (own_archive nightly) one_object
      (record one_object { objects = [] }) refl
