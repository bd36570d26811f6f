-- ===== src/Jobs/Reap.antt =====
-- `reap_expired` of crates/control/src/jobs.rs: jobs whose lease has run out go back to the queue.
-- A transaction reads the database's clock afresh in each statement: `clock n` is its n-th reading.
use hostlet_app.Base.{
  ℕ, zero, suc, ◌+◌, Bool, true, false, ◌&&◌, ◌||◌, Option, none, some, List, [], ◌∷◌, ◌++◌, any,
  ltb, leb, ◌==◌, if◌then◌else◌,
}
use hostlet_app.Base.Text.{codes}
use hostlet_app.Base.Table.{select, select_first, update_rows}
use hostlet_app.Api.{ApiError, ok, err, database_unavailable}
use hostlet_app.Jobs.Model.{JobState, AttemptState, JobRow, AttemptRow, EffectRow, Database}
use hostlet_app.Jobs.Messages.{Env}
use hostlet_app.Jobs.Checks.{Tx}
use hostlet_app.Jobs.Store.{is_running, attempt_runs, is_job, is_attempt, worker_audit}

-- A running job whose lease has run out at `now`.
abbrev pub is_expired : ℕ → JobRow → Bool
is_expired now j =
    is_running j.state && elim j.lease_expires_at [ none ↦ false | some expires ↦ leb expires now ]

-- ORDER BY lease_expires_at, id.
abbrev pub expires_first : JobRow → JobRow → Bool
expires_first j k = elim j.lease_expires_at [
  | none ↦ false
  | some a ↦ elim k.lease_expires_at [ none ↦ true | some b ↦ ltb a b || (a == b && ltb j.id k.id) ]
]

unfoldable pub expire_attempt : ℕ → AttemptRow → AttemptRow
expire_attempt now a = record a {
  state = AttemptState.expired;
  finished_at = some now;
  terminal_code = some (codes "lease_expired");
}

-- The job goes back to the queue, or fails for good at its third attempt.
unfoldable pub expire_job : ℕ → JobRow → JobRow
expire_job now j = record j {
  state = if leb 3 j.attempt_count then JobState.failed else JobState.retriable;
  revision = j.revision + 1;
  current_attempt_id = none;
  lease_expires_at = none;
  updated_at = now;
}

abbrev same_attempt : JobRow → ℕ → AttemptRow → Bool
same_attempt j id a =
    is_attempt j.account_id j.project_id j.id id a
    && (a.fence == j.current_fence && attempt_runs a.state)

-- INSERT INTO job_effects with its primary key and UNIQUE (job_id).
unfoldable pub insert_effect : EffectRow → List EffectRow → Option (List EffectRow)
insert_effect e es =
    if any (λ f. f.id == e.id || f.job_id == e.job_id) es then none else some (es ++ e ∷ [])

-- The same with ON CONFLICT (job_id) DO NOTHING.
unfoldable pub insert_effect_once : EffectRow → List EffectRow → Option (List EffectRow)
insert_effect_once e es =
    if any (λ f. f.job_id == e.job_id) es
    then some es
    else (if any (λ f. f.id == e.id) es then none else some (es ++ e ∷ []))

abbrev pub exhausted_effect : Env → ℕ → JobRow → ℕ → EffectRow
exhausted_effect env id j attempt = record {
  id = id;
  account_id = j.account_id;
  project_id = j.project_id;
  job_id = j.id;
  attempt_id = attempt;
  fence = j.current_fence;
  outcome_state = JobState.failed;
  outcome_code = codes "attempts_exhausted";
  response_body = env.json_exhausted;
  completion_hash = env.hash_exhausted;
}

-- One round of the reaper: nothing to do, a committed transaction, or a database error.
pub data Reap : Type 0 where
  idle : Reap
  reaped : Database → Reap
  failed : ApiError → Reap

-- The last two statements: the worker of the attempt is read for the audit row.
unfoldable pub reap_audit : JobRow → ℕ → Database → Reap
reap_audit j attempt db =
    elim (select (λ a. a.job_id == j.id && (a.id == attempt && a.fence == j.current_fence))
      db.attempts) [
        | none ↦ failed database_unavailable
        | some a ↦ reaped (
            worker_audit j.account_id "job.lease_expired"
              (record {
                job_id = j.id;
                worker_id = a.worker_id;
                attempt_id = attempt;
                fence = j.current_fence;
              })
              (if leb 3 j.attempt_count then "failed" else "retriable") db)
      ]

unfoldable pub reap_job : Env → (ℕ → ℕ) → ℕ → JobRow → ℕ → Database → Reap
unfolding reap_audit expire_attempt expire_job
reap_job env clock effect j attempt db =
    let attempts = update_rows (same_attempt j attempt) (expire_attempt (clock 1)) db.attempts in
    let jobs = update_rows (is_job j.id j.account_id j.project_id) (expire_job (clock 2)) db.jobs in
    let db' = record db { jobs = jobs; attempts = attempts } in
    if leb 3 j.attempt_count
    then elim (insert_effect_once (exhausted_effect env effect j attempt) db.effects) [
      | none ↦ failed database_unavailable
      | some effects ↦ reap_audit j attempt (record db' { effects = effects })
    ]
    else reap_audit j attempt db'

-- A row of the query has an attempt by the table's CHECK; a NULL would fail to decode.
unfoldable pub reap_one : Env → (ℕ → ℕ) → ℕ → Database → Reap
unfolding reap_job
reap_one env clock effect db = elim (select_first expires_first (is_expired (clock 0)) db.jobs) [
  | none ↦ idle
  | some j ↦ elim j.current_attempt_id [
    | none ↦ failed database_unavailable
    | some attempt ↦ reap_job env clock effect j attempt db
  ]
]

-- At most `rounds` transactions; the i-th has its own clock and its own fresh identifier.
unfoldable pub reap_rounds : Env → (ℕ → ℕ → ℕ) → (ℕ → ℕ) → ℕ → ℕ → Database → Tx (Unit {0})
reap_rounds env clock ids zero i db = (db, ok tt)
reap_rounds env clock ids (suc rounds) i db = elim (reap_one env (clock i) (ids i) db) [
  | idle ↦ (db, ok tt)
  | reaped db' ↦ reap_rounds env clock ids rounds (i + 1) db'
  | failed e ↦ (db, err e)
]

unfoldable pub reap_expired : Env → (ℕ → ℕ → ℕ) → (ℕ → ℕ) → Database → Tx (Unit {0})
unfolding reap_rounds
reap_expired env clock ids db = reap_rounds env clock ids 64 0 db
