-- ===== src/Jobs/Store.antt =====
-- The SQL statements of crates/control/src/jobs.rs as tests and updates of rows.
use hostlet_app.Base.{
  ℕ, Bool, true, false, ◌&&◌, Option, none, some, List, [], ◌∷◌, ◌++◌, ltb, leb, ◌==◌,
  if◌then◌else◌, is_some_of,
}
use hostlet_app.Base.Text.{Text, text_eq}
use hostlet_app.Base.Table.{select, select_all}
use hostlet_app.Api.{Result, ok, err, not_found}
use hostlet_app.Jobs.Model.{
  JobState, AttemptState, JobRow, AttemptRow, SecretRefRow, Actor, AuditRow, WorkerAuditContext,
  Database,
}
use hostlet_app.Jobs.Messages.{JobRecord}
use Prim.Native.String.{String}

abbrev pub is_running : JobState → Bool
is_running JobState.running = true
is_running _ = false

abbrev pub is_waiting : JobState → Bool
is_waiting JobState.queued = true
is_waiting JobState.retriable = true
is_waiting _ = false

-- `matches!(state, "succeeded" | "failed" | "canceled")`.
abbrev pub is_terminal : JobState → Bool
is_terminal JobState.succeeded = true
is_terminal JobState.failed = true
is_terminal JobState.canceled = true
is_terminal _ = false

-- `matches!(state, "succeeded" | "failed")`.
abbrev pub is_finished : JobState → Bool
is_finished JobState.succeeded = true
is_finished JobState.failed = true
is_finished _ = false

abbrev pub attempt_runs : AttemptState → Bool
attempt_runs AttemptState.running = true
attempt_runs _ = false

abbrev pub attempt_retriable : AttemptState → Bool
attempt_retriable AttemptState.retriable = true
attempt_retriable _ = false

-- WHERE id = … AND account_id = … AND project_id = …
abbrev pub is_job : ℕ → ℕ → ℕ → JobRow → Bool
is_job id account project j = j.id == id && (j.account_id == account && j.project_id == project)

-- WHERE account_id = … AND project_id = … AND job_id = … AND id = …
abbrev pub is_attempt : ℕ → ℕ → ℕ → ℕ → AttemptRow → Bool
is_attempt account project job id a =
    a.account_id == account && (a.project_id == project && (a.job_id == job && a.id == id))

-- The references of a job, ORDER BY secret_version_id.
insert_ref : ℕ × ℕ → List (ℕ × ℕ) → List (ℕ × ℕ)
insert_ref r [] = r ∷ []
insert_ref (s, v) ((t, w) ∷ rest) =
    if leb v w then (s, v) ∷ (t, w) ∷ rest else (t, w) ∷ insert_ref (s, v) rest

sorted_refs : ℕ → List SecretRefRow → List (ℕ × ℕ)
unfolding insert_ref
sorted_refs service [] = []
sorted_refs service (r ∷ rest) =
    insert_ref (service, r.secret_version_id) (sorted_refs service rest)

unfoldable pub job_record : Database → JobRow → JobRecord
unfolding sorted_refs
job_record db j = record {
  id = j.id;
  project_id = j.project_id;
  service_id = j.service_id;
  kind = j.kind;
  operation = j.operation;
  source_commit = j.source_commit;
  state = j.state;
  revision = j.revision;
  attempt_count = j.attempt_count;
  current_attempt_id = j.current_attempt_id;
  current_fence = j.current_fence;
  lease_expires_at = j.lease_expires_at;
  secret_version_refs = sorted_refs j.service_id (select_all of_job db.secret_refs);
  created_at = j.created_at;
  updated_at = j.updated_at;
}
  where
    of_job : SecretRefRow → Bool
    of_job r = r.account_id == j.account_id && (r.project_id == j.project_id && r.job_id == j.id)

unfoldable pub load_job : Database → ℕ → ℕ → ℕ → Result JobRecord
load_job db account project id = elim (select (is_job id account project) db.jobs) [
  | none ↦ err not_found
  | some j ↦ ok (job_record db j)
]

abbrev pub add_audit : AuditRow → Database → Database
add_audit a db = record db { audit_events = db.audit_events ++ a ∷ [] }

-- An event of a worker. The audit row's own identifier is not modelled.
abbrev pub worker_audit : ℕ → String → WorkerAuditContext → String → Database → Database
worker_audit account event context outcome = add_audit (record {
  account_id = account;
  actor = Actor.worker context;
  event_type = event;
  target_type = "job";
  target_id = some context.job_id;
  outcome = outcome;
})

abbrev pub owner_audit : ℕ → ℕ → String → String → Option ℕ → String → Database → Database
owner_audit account session event target id outcome = add_audit (record {
  account_id = account;
  actor = Actor.owner session;
  event_type = event;
  target_type = target;
  target_id = id;
  outcome = outcome;
})

-- The attempt that still holds a job: the join of `jobs` and `job_attempts` by which `renew_job`
-- and `complete_job` lock it.
abbrev pub holds : ℕ → ℕ → ℕ → JobRow → Bool
holds id attempt fence j =
    j.id == id
    && (is_running j.state && (is_some_of j.current_attempt_id attempt && j.current_fence == fence))

abbrev pub held_by : JobRow → ℕ → Text → AttemptRow → Bool
held_by j attempt worker a =
    is_attempt j.account_id j.project_id j.id attempt a
    && (text_eq a.worker_id worker && attempt_runs a.state)

unfoldable pub live_attempt : Database → ℕ → ℕ → ℕ → Text → Option (JobRow × AttemptRow)
live_attempt db id attempt fence worker = elim (select (holds id attempt fence) db.jobs) [
  | none ↦ none
  | some j ↦ elim (select (held_by j attempt worker) db.attempts) [
    | none ↦ none
    | some a ↦ some (j, a)
  ]
]

-- COALESCE(j.lease_expires_at > now AND a.lease_expires_at > now, false).
abbrev pub lease_live : ℕ → JobRow → AttemptRow → Bool
lease_live now j a = elim j.lease_expires_at [
  | none ↦ false
  | some expires ↦ ltb now expires && ltb now a.lease_expires_at
]
