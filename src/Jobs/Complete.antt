-- ===== src/Jobs/Complete.antt =====
-- `complete_job` of crates/control/src/jobs.rs: a worker reports the outcome of its attempt, once;
-- the same report again is answered from what was stored.
use hostlet_app.Base.{
  ℕ, ◌+◌, Bool, true, false, not, ◌&&◌, ◌||◌, Option, none, some, leb, ◌==◌, if◌then◌else◌,
  is_some_of,
}
use hostlet_app.Base.Text.{Text, codes, text_eq}
use hostlet_app.Base.Table.{select, update_rows}
use hostlet_app.Api.{ok, err, bad_request, conflict, database_unavailable, internal}
use hostlet_app.Jobs.Model.{JobState, AttemptState, JobRow, AttemptRow, EffectRow, Database}
use hostlet_app.Base.Integers.{not_positive, to_nat}
use hostlet_app.Jobs.Messages.{JobEffectResponse, CompleteRequest, CompleteResponse, Env}
use hostlet_app.Api.Transactions.{found_or}
use hostlet_app.Jobs.Checks.{Tx, fenced, Outcome, valid_worker_id, valid_outcome}
use hostlet_app.Jobs.Store.{
  is_finished, attempt_runs, attempt_retriable, is_job, is_attempt, load_job, worker_audit,
  live_attempt, lease_live,
}
use hostlet_app.Jobs.Reap.{insert_effect}
use Prim.Native.String.{String}

abbrev pub is_retriable : JobState → Bool
is_retriable JobState.retriable = true
is_retriable _ = false

abbrev pub retries : Outcome → Bool
retries Outcome.retriable = true
retries _ = false

-- `request.outcome.state == "retriable" && attempt_count >= 3`.
abbrev pub exhausted : Outcome → JobRow → Bool
exhausted o j = retries o && leb 3 j.attempt_count

unfoldable pub effective : Outcome → JobRow → Outcome
effective o j = if exhausted o j then Outcome.failed else o

abbrev pub effective_code : CompleteRequest → Outcome → JobRow → Text
effective_code request o j =
    if exhausted o j then codes "attempts_exhausted" else request.outcome.code

abbrev pub outcome_state : Outcome → JobState
outcome_state Outcome.succeeded = JobState.succeeded
outcome_state Outcome.failed = JobState.failed
outcome_state Outcome.retriable = JobState.retriable

abbrev attempt_state : Outcome → AttemptState
attempt_state Outcome.succeeded = AttemptState.succeeded
attempt_state Outcome.failed = AttemptState.failed
attempt_state Outcome.retriable = AttemptState.retriable

abbrev outcome_text : Outcome → String
outcome_text Outcome.succeeded = "succeeded"
outcome_text Outcome.failed = "failed"
outcome_text Outcome.retriable = "retriable"

unfoldable pub finish_attempt : Outcome → Text → Text → ℕ → AttemptRow → AttemptRow
finish_attempt o code hash now a = record a {
  state = attempt_state o;
  finished_at = some now;
  terminal_code = some code;
  completion_hash = some hash;
}

-- The current attempt is kept on a terminal job, and the lease is given up.
unfoldable pub finish_job : Outcome → ℕ → JobRow → JobRow
finish_job o now j = record j {
  state = outcome_state o;
  revision = j.revision + 1;
  current_attempt_id = if retries o then none else j.current_attempt_id;
  lease_expires_at = none;
  updated_at = now;
}

abbrev reported_by : JobRow → CompleteRequest → AttemptRow → Bool
reported_by j request a =
    is_attempt j.account_id j.project_id j.id request.attempt_id a
    && a.fence == to_nat request.fence

abbrev hash_is : Option Text → Text → Bool
hash_is none hash = false
hash_is (some stored) hash = text_eq stored hash

-- The job is already back in the queue under this fence. `load_job` reads it again.
unfoldable pub replay_retriable : Env → CompleteRequest → JobRow → Database → Tx CompleteResponse
unfolding load_job
replay_retriable env request j db =
    elim (select (λ a. reported_by j request a && attempt_retriable a.state) db.attempts) [
      | none ↦ (db, err fenced)
      | some a ↦
          if not (text_eq a.worker_id request.worker_id)
            || not (hash_is a.completion_hash (env.hash_complete request))
          then (db, err (conflict "completion_conflict"))
          else (elim (load_job db j.account_id j.project_id j.id) [
            | err e ↦ (db, err e)
            | ok job ↦ (db, ok (record { job = job; effect = none }))
          ])
    ]

abbrev effect_of : JobRow → CompleteRequest → EffectRow → Bool
effect_of j request e =
    e.account_id == j.account_id
    && (e.project_id == j.project_id
        && (e.job_id == j.id
            && (e.attempt_id == request.attempt_id && e.fence == to_nat request.fence)))

-- The stored answer of a terminal job.
unfoldable pub stored_answer :
    Env → CompleteRequest → AttemptRow → EffectRow → Database → Tx CompleteResponse
stored_answer env request a e db =
    if not (text_eq a.worker_id request.worker_id)
      || not (text_eq e.completion_hash (env.hash_complete request))
    then (db, err (conflict "completion_conflict"))
    else (elim (env.parse_complete e.response_body) [
      | none ↦ (db, err internal)
      | some response ↦ (db, ok response)
    ])

unfoldable pub replay_terminal : Env → CompleteRequest → JobRow → Database → Tx CompleteResponse
unfolding stored_answer
replay_terminal env request j db = elim (select (reported_by j request) db.attempts) [
  | none ↦ (db, err fenced)
  | some a ↦ elim (select (effect_of j request) db.effects) [
    | none ↦ (db, err fenced)
    | some e ↦ stored_answer env request a e db
  ]
]

abbrev pub new_effect :
    Env → JobRow → CompleteRequest → JobEffectResponse → CompleteResponse → EffectRow
new_effect env j request effect response = record {
  id = effect.id;
  account_id = j.account_id;
  project_id = j.project_id;
  job_id = j.id;
  attempt_id = request.attempt_id;
  fence = to_nat request.fence;
  outcome_state = effect.outcome_state;
  outcome_code = effect.outcome_code;
  response_body = env.json_complete response;
  completion_hash = env.hash_complete request;
}

-- The answer, and its effect row if the job is now terminal. `before` is the database to roll
-- back to, `j` the row as it was locked, `db` the database with job and attempt updated.
unfoldable pub record_answer :
    Env → ℕ → CompleteRequest → Outcome → JobRow → Database → Database → Tx CompleteResponse
unfolding load_job
record_answer env id request o j before db =
    let audited =
      worker_audit j.account_id "job.complete"
        (record {
          job_id = j.id;
          worker_id = request.worker_id;
          attempt_id = request.attempt_id;
          fence = to_nat request.fence;
        })
        (outcome_text (effective o j)) in
    elim (load_job db j.account_id j.project_id j.id) [
      | err e ↦ (before, err e)
      | ok job ↦
          if retries (effective o j)
          then (audited db, ok (record { job = job; effect = none }))
          else (let effect : JobEffectResponse = record {
            id = id;
            outcome_state = outcome_state (effective o j);
            outcome_code = effective_code request o j;
          } in
              let response : CompleteResponse = record { job = job; effect = some effect } in
              elim (insert_effect (new_effect env j request effect response) db.effects) [
                | none ↦ (before, err database_unavailable)
                | some effects ↦ (audited (record db { effects = effects }), ok response)
              ])
    ]

-- The lease is live: the attempt and the job take the outcome.
unfoldable pub complete_live :
    Env → (ℕ → ℕ) → ℕ → CompleteRequest → Outcome → JobRow → Database → Tx CompleteResponse
unfolding record_answer effective finish_attempt finish_job
complete_live env clock id request o j db =
    let attempts =
      update_rows (λ a. reported_by j request a && attempt_runs a.state)
        (finish_attempt (effective o j) (effective_code request o j) (env.hash_complete request)
          (clock 1))
        db.attempts in
    let jobs =
      update_rows (is_job j.id j.account_id j.project_id) (finish_job (effective o j) (clock 2))
        db.jobs in
    record_answer env id request o j db (record db { jobs = jobs; attempts = attempts })

-- What follows the query that locks the attempt.
unfoldable pub complete_locked :
    Env
    → (ℕ → ℕ)
    → ℕ
    → CompleteRequest
    → Outcome
    → JobRow
    → Database
    → Option (JobRow × AttemptRow)
    → Tx CompleteResponse
unfolding complete_live
complete_locked env clock id request o j db none = (db, err fenced)
complete_locked env clock id request o j db (some (k, a)) =
    if lease_live (clock 0) k a then complete_live env clock id request o j db else (db, err fenced)

-- The three ways of a report on a job that was found.
unfoldable pub complete_found :
    Env → (ℕ → ℕ) → ℕ → CompleteRequest → Outcome → JobRow → Database → Tx CompleteResponse
unfolding replay_retriable replay_terminal complete_locked
complete_found env clock id request o j db =
    let fence = to_nat request.fence in
    if is_retriable j.state && j.current_fence == fence
    then replay_retriable env request j db
    else if is_finished j.state
        && (is_some_of j.current_attempt_id request.attempt_id && j.current_fence == fence)
    then replay_terminal env request j db
    else complete_locked env clock id request o j db
        (live_attempt db j.id request.attempt_id fence request.worker_id)

-- The job is locked by its identifier alone.
unfoldable pub complete_row :
    Env → (ℕ → ℕ) → ℕ → CompleteRequest → Database → ℕ → Outcome → Tx CompleteResponse
unfolding complete_found
complete_row env clock id request db job o =
    found_or (select (λ j. j.id == job) db.jobs) fenced db
      (λ j. complete_found env clock id request o j db)

unfoldable pub complete_checked :
    Env → (ℕ → ℕ) → ℕ → CompleteRequest → Database → ℕ → Tx CompleteResponse
unfolding complete_row
complete_checked env clock id request db job =
    if not (valid_worker_id request.worker_id) || not_positive request.fence
    then (db, err (bad_request "invalid_completion"))
    else found_or (valid_outcome request.outcome) (bad_request "invalid_completion") db
        (complete_row env clock id request db job)

unfoldable pub complete_job :
    Env → (ℕ → ℕ) → ℕ → Text → CompleteRequest → Database → Tx CompleteResponse
unfolding complete_checked
complete_job env clock id path request db =
    found_or (env.parse_uuid path) (bad_request "invalid_id") db
      (complete_checked env clock id request db)
