-- ===== src/Jobs/Lease.antt =====
-- `lease_job` and `renew_job` of crates/control/src/jobs.rs: a worker takes the oldest waiting job
-- under a new fence, and keeps its lease alive.
use hostlet_app.Base.{
  ℕ, ◌+◌, Bool, false, not, ◌&&◌, ◌||◌, Option, none, some, List, [], ◌∷◌, ◌++◌, any, ltb, ◌==◌,
  if◌then◌else◌, is_some_of,
}
use hostlet_app.Base.Text.{Text, text_eq}
use hostlet_app.Base.Table.{select_first, update_rows}
use hostlet_app.Api.{ok, err, bad_request, unprocessable, database_unavailable}
use hostlet_app.Jobs.Model.{JobState, AttemptState, JobRow, AttemptRow, Database}
use hostlet_app.Base.Integers.{not_positive, to_nat}
use hostlet_app.Jobs.Messages.{
  LeaseRequest, LeaseResponse, LeaseIdentityRequest, RenewResponse, Env,
}
use hostlet_app.Jobs.Store.{is_waiting, is_job, load_job, worker_audit, live_attempt, lease_live}
use hostlet_app.Api.Transactions.{found_or}
use hostlet_app.Jobs.Checks.{Tx, job_kind, valid_worker_id, fenced}
use hostlet_app.Jobs.Reap.{reap_expired}

-- `request.kinds.as_slice() != [JOB_KIND]`, negated.
unfoldable pub supported_kinds : List Text → Bool
unfolding text_eq
supported_kinds [] = false
supported_kinds (kind ∷ []) = text_eq kind job_kind
supported_kinds (_ ∷ _ ∷ _) = false

abbrev pub is_claimable : JobRow → Bool
is_claimable j =
    is_waiting j.state && (ltb j.attempt_count j.max_attempts && text_eq j.kind job_kind)

-- ORDER BY created_at, id.
abbrev pub created_first : JobRow → JobRow → Bool
created_first j k = ltb j.created_at k.created_at || (j.created_at == k.created_at && ltb j.id k.id)

unfoldable pub claim_job : ℕ → ℕ → ℕ → ℕ → ℕ → JobRow → JobRow
claim_job number attempt fence expires now j = record j {
  state = JobState.running;
  revision = j.revision + 1;
  attempt_count = number;
  current_attempt_id = some attempt;
  current_fence = fence;
  lease_expires_at = some expires;
  updated_at = now;
}

-- INSERT INTO job_attempts with its primary key, UNIQUE (job_id, attempt_number) and
-- UNIQUE (job_id, fence).
abbrev pub clashes : AttemptRow → AttemptRow → Bool
clashes a b =
    b.id == a.id
    || (b.job_id == a.job_id && (b.attempt_number == a.attempt_number || b.fence == a.fence))

unfoldable pub insert_attempt : AttemptRow → List AttemptRow → Option (List AttemptRow)
insert_attempt a xs = if any (clashes a) xs then none else some (xs ++ a ∷ [])

abbrev pub new_attempt : JobRow → ℕ → Text → ℕ → ℕ → AttemptRow
new_attempt j attempt worker started expires = record {
  id = attempt;
  account_id = j.account_id;
  project_id = j.project_id;
  job_id = j.id;
  attempt_number = j.attempt_count + 1;
  fence = j.current_fence + 1;
  worker_id = worker;
  state = AttemptState.running;
  lease_started_at = started;
  lease_expires_at = expires;
  finished_at = none;
  terminal_code = none;
  completion_hash = none;
}

-- The job is answered as it reads after the update; `before` is the database to roll back to.
unfoldable pub lease_answer :
    Database → JobRow → ℕ → Text → ℕ → Database → Tx (Option LeaseResponse)
lease_answer before j attempt worker expires db =
    elim (load_job db j.account_id j.project_id j.id) [
      | err e ↦ (before, err e)
      | ok job ↦ (
        worker_audit j.account_id "job.lease"
            (record {
              job_id = j.id;
              worker_id = worker;
              attempt_id = attempt;
              fence = j.current_fence + 1;
            })
            "succeeded" db,
        ok (
            some (record {
              job = job;
              attempt = record {
                id = attempt;
                attempt_number = j.attempt_count + 1;
                fence = j.current_fence + 1;
                worker_id = worker;
                lease_expires_at = expires;
              };
            })),
      )
    ]

-- The transaction on the candidate. The clock is read for the expiry, for `updated_at` and for
-- the attempt's start.
unfoldable pub lease_row : Env → (ℕ → ℕ) → ℕ → Text → JobRow → Database → Tx (Option LeaseResponse)
unfolding lease_answer claim_job
lease_row env clock attempt worker j db =
    let expires = clock 0 + env.worker_lease_seconds in
    let jobs =
      update_rows (is_job j.id j.account_id j.project_id)
        (claim_job (j.attempt_count + 1) attempt (j.current_fence + 1) expires (clock 1)) db.jobs in
    elim (insert_attempt (new_attempt j attempt worker (clock 2) expires) db.attempts) [
      | none ↦ (db, err database_unavailable)
      | some attempts ↦
          lease_answer db j attempt worker expires (record db { jobs = jobs; attempts = attempts })
    ]

-- `none` is the answer 204, no content.
unfoldable pub lease_next : Env → (ℕ → ℕ) → ℕ → Text → Database → Tx (Option LeaseResponse)
unfolding lease_row
lease_next env clock attempt worker db = elim (select_first created_first is_claimable db.jobs) [
  | none ↦ (db, ok none)
  | some j ↦ lease_row env clock attempt worker j db
]

-- The reaper's transactions are committed before the lease's own begins.
unfoldable pub after_reap : Env → (ℕ → ℕ) → ℕ → Text → Tx (Unit {0}) → Tx (Option LeaseResponse)
after_reap env clock attempt worker (db, err e) = (db, err e)
after_reap env clock attempt worker (db, ok _) = lease_next env clock attempt worker db

unfoldable pub lease_job :
    Env → (ℕ → ℕ → ℕ) → (ℕ → ℕ) → ℕ → LeaseRequest → Database → Tx (Option LeaseResponse)
unfolding supported_kinds
lease_job env clock ids attempt request db =
    if not (valid_worker_id request.worker_id)
    then (db, err (bad_request "invalid_worker_id"))
    else if not (supported_kinds request.kinds)
    then (db, err (unprocessable "unsupported_job_kind"))
    else after_reap env (clock 64) attempt request.worker_id (reap_expired env clock ids db)

unfoldable pub renew_row : ℕ → ℕ → JobRow → JobRow
renew_row expires now j = record j { lease_expires_at = some expires; updated_at = now }

abbrev extend_attempt : ℕ → AttemptRow → AttemptRow
extend_attempt expires a = record a { lease_expires_at = expires }

abbrev pub still_held : ℕ → ℕ → ℕ → JobRow → Bool
still_held id attempt fence j =
    j.id == id && (is_some_of j.current_attempt_id attempt && j.current_fence == fence)

abbrev attempt_of : ℕ → ℕ → ℕ → AttemptRow → Bool
attempt_of job id fence a = a.job_id == job && (a.id == id && a.fence == fence)

-- What is written once the lease is known to be live.
renew_live : Env → (ℕ → ℕ) → ℕ → LeaseIdentityRequest → JobRow → Database → Database × RenewResponse
unfolding renew_row
renew_live env clock id request j db =
    let fence = to_nat request.fence in
    let expires = clock 1 + env.worker_lease_seconds in
    let jobs =
      update_rows (still_held id request.attempt_id fence) (renew_row expires (clock 2)) db.jobs in
    let attempts =
      update_rows (attempt_of id request.attempt_id fence) (extend_attempt expires) db.attempts in
    (
      worker_audit j.account_id "job.renew"
          (record {
            job_id = id;
            worker_id = request.worker_id;
            attempt_id = request.attempt_id;
            fence = fence;
          })
          "succeeded" (record db { jobs = jobs; attempts = attempts }),
      record {
        job_id = id;
        attempt_id = request.attempt_id;
        fence = fence;
        lease_expires_at = expires;
      },
    )

-- What follows the query that locks the job and its attempt.
unfoldable pub renew_locked :
    Env
    → (ℕ → ℕ)
    → ℕ
    → LeaseIdentityRequest
    → Database
    → Option (JobRow × AttemptRow)
    → Tx RenewResponse
unfolding renew_live
renew_locked env clock id request db none = (db, err fenced)
renew_locked env clock id request db (some (j, a)) =
    if lease_live (clock 0) j a
    then (let (db', response) = renew_live env clock id request j db in (db', ok response))
    else (db, err fenced)

unfoldable pub renew_found : Env → (ℕ → ℕ) → LeaseIdentityRequest → Database → ℕ → Tx RenewResponse
unfolding renew_locked
renew_found env clock request db id =
    if not (valid_worker_id request.worker_id) || not_positive request.fence
    then (db, err fenced)
    else renew_locked env clock id request db
        (live_attempt db id request.attempt_id (to_nat request.fence) request.worker_id)

unfoldable pub renew_job : Env → (ℕ → ℕ) → Text → LeaseIdentityRequest → Database → Tx RenewResponse
unfolding renew_found
renew_job env clock path request db =
    found_or (env.parse_uuid path) (bad_request "invalid_id") db (renew_found env clock request db)
