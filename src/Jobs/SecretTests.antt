-- ===== src/Jobs/SecretTests.antt =====
-- A worker of crates/control/src/jobs.rs reads the one secret that its job binds.
use hostlet_app.Base.{ℕ, ◌≡◌, refl, ap, some, List, [], ◌∷◌}
use hostlet_app.Base.Text.{codes, text_eq}
use hostlet_app.Base.Table.{select, select_all}
use hostlet_app.Api.{ok}
use hostlet_app.Base.Integers.{pos}
use hostlet_app.Jobs.Messages.{ResolveCredentialsRequest, ResolvedCredential, Env}
use hostlet_app.Jobs.Checks.{Tx, valid_worker_id}
use hostlet_app.Jobs.Store.{live_attempt}
use hostlet_app.Jobs.Credentials.{
  distinct, join_ref, join_refs, resolve_rows, resolve_row, add_resolved, decrypt_rows,
  in_request_order, resolve_scope, resolve_locked, resolve_for_locked_live_job, resolve_answer,
  resolve_checked, resolve_credentials,
}
use hostlet_app.Jobs.ReleaseLaws.{IsServed, resolve_credentials-IsServed}
use hostlet_app.Jobs.Samples.{held_queue, env}

-- Decryption that gives the text as it stands.
abbrev open_env : Env
open_env = record env { key_version = some (codes "v1"); decrypt = λ _ v. some v.ciphertext }

abbrev asking : ResolveCredentialsRequest
asking = record {
  worker_id = codes "w";
  attempt_id = b'a';
  fence = pos 1;
  secret_version_ids = 31 ∷ [];
}

abbrev reading : Tx (List ResolvedCredential)
reading = resolve_credentials open_env 20 (codes "j") asking held_queue

abbrev read : List ResolvedCredential
read = record { secret_version_id = 31; name = codes "TOKEN"; value = codes "hidden" } ∷ []

reading_answers : reading.1 ≡ ok read
unfolding distinct join_ref join_refs resolve_rows resolve_row add_resolved decrypt_rows
    in_request_order resolve_scope resolve_locked resolve_for_locked_live_job resolve_answer
    resolve_checked resolve_credentials live_attempt select select_all text_eq valid_worker_id
reading_answers = refl

resolve_credentials-IsServed_example :
    (id : ℕ) × (open_env.parse_uuid (codes "j") ≡ some id)
    × IsServed open_env 20 held_queue id asking read
resolve_credentials-IsServed_example =
    resolve_credentials-IsServed open_env 20 (codes "j") asking held_queue reading.0 read
      (ap (λ x. (reading.0, x)) reading_answers)
