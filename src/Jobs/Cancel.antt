-- ===== src/Jobs/Cancel.antt =====
-- `cancel_job` of crates/control/src/jobs.rs: an owner cancels a job at the revision it has seen.
use hostlet_app.Base.{ℕ, ◌+◌, not, ◌&&◌, none, some, ◌++◌, ◌==◌, if◌then◌else◌}
use hostlet_app.Base.Text.{Text, codes}
use hostlet_app.Base.Table.{select, update_rows}
use hostlet_app.Api.{
  ok, err, bad_request, conflict, not_found, stale_revision, database_unavailable,
}
use hostlet_app.Jobs.Model.{JobState, AttemptState, JobRow, AttemptRow, Database}
use hostlet_app.Jobs.Messages.{JobRecord, Env}
use hostlet_app.Api.Transactions.{try_ok, found_or}
use hostlet_app.Jobs.Checks.{Tx}
use hostlet_app.Jobs.Intent.{
  Header, idempotency_key, if_match_revision, replay, Replay, miss, matched, changed, store_replay,
}
use hostlet_app.Jobs.Store.{is_terminal, attempt_runs, is_job, is_attempt, load_job, owner_audit}

unfoldable pub cancel_attempt : ℕ → AttemptRow → AttemptRow
cancel_attempt now a = record a {
  state = AttemptState.canceled;
  finished_at = some now;
  terminal_code = some (codes "owner_canceled");
}

-- The fence moves on, so that the worker that held the job is shut out.
unfoldable pub cancel_row : ℕ → JobRow → JobRow
cancel_row now j = record j {
  state = JobState.canceled;
  revision = j.revision + 1;
  current_attempt_id = none;
  current_fence = j.current_fence + 1;
  lease_expires_at = none;
  updated_at = now;
}

-- The attempt of the job, if it has one, is canceled where it still runs.
abbrev pub cancel_attempts : ℕ → JobRow → Database → Database
cancel_attempts now j db = elim j.current_attempt_id [
  | none ↦ db
  | some attempt ↦ record db {
    attempts =
        update_rows
          (λ a. is_attempt j.account_id j.project_id j.id attempt a && attempt_runs a.state)
          (cancel_attempt now) db.attempts;
  }
]

-- The identity, key and headers of an owner's request.
pub record Owner : Type 0 where
  pub account_id : ℕ
  pub session_id : ℕ

abbrev pub cancel_operation : Env → ℕ → ℕ → Text
cancel_operation env project id =
    codes "job.cancel/" ++ (env.uuid_text project ++ (codes "/" ++ env.uuid_text id))

-- The updates, the answer, its audit and its record under the key.
unfoldable pub cancel_found : Env → (ℕ → ℕ) → Owner → Text → JobRow → Database → Tx JobRecord
unfolding cancel_attempt cancel_row load_job store_replay
cancel_found env clock o key j db =
    let stopped = cancel_attempts (clock 0) j db in
    let db' = record stopped {
      jobs =
          update_rows (is_job j.id o.account_id j.project_id) (cancel_row (clock 1)) stopped.jobs;
    } in
    try_ok (load_job db' o.account_id j.project_id j.id) db (λ job.
      found_or
        (store_replay
          (owner_audit o.account_id o.session_id "job.cancel" "job" (some j.id) "succeeded" db')
          o.account_id (cancel_operation env j.project_id j.id) key env.hash_cancel 200
          (env.json_job job))
        database_unavailable db (λ stored. (stored, ok job)))

-- The checks on the row, in the code's order. A refusal is audited, and the audit is committed.
unfoldable pub cancel_checked : Env → (ℕ → ℕ) → Owner → Text → ℕ → ℕ → ℕ → Database → Tx JobRecord
unfolding cancel_found
cancel_checked env clock o key expected project id db =
    found_or (select (is_job id o.account_id project) db.jobs) not_found db (λ j.
      if not (j.revision == expected)
      then (
        owner_audit o.account_id o.session_id "job.cancel" "job" (some id) "stale_revision" db,
        err stale_revision,
      )
      else if is_terminal j.state
      then (
        owner_audit o.account_id o.session_id "job.cancel" "job" (some id) "terminal" db,
        err (conflict "job_terminal"),
      )
      else cancel_found env clock o key j db)

-- The answer by what is stored under the key.
unfoldable pub cancel_replayed :
    Env → (ℕ → ℕ) → Owner → Text → ℕ → ℕ → ℕ → Database → Replay JobRecord → Tx JobRecord
unfolding cancel_checked
cancel_replayed env clock o key expected project id db (matched job) = (db, ok job)
cancel_replayed env clock o key expected project id db changed = (
  owner_audit o.account_id o.session_id "job.cancel" "job" (some id) "idempotency_conflict" db,
  err (conflict "idempotency_payload_changed"),
)
cancel_replayed env clock o key expected project id db miss =
    cancel_checked env clock o key expected project id db

unfoldable pub cancel_job :
    Env → (ℕ → ℕ) → Owner → Text → Text → Header → Header → Database → Tx JobRecord
unfolding cancel_replayed replay
cancel_job env clock o project_path job_path key_header match_header db =
    found_or (env.parse_uuid project_path) (bad_request "invalid_id") db (λ project.
      found_or (env.parse_uuid job_path) (bad_request "invalid_id") db (λ id.
        try_ok (idempotency_key key_header) db (λ key.
          try_ok (if_match_revision match_header) db (λ expected.
            try_ok
              (replay env.parse_job db o.account_id (cancel_operation env project id) key
                env.hash_cancel)
              db (cancel_replayed env clock o key expected project id db)))))
