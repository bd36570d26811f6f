-- ===== src/Jobs/LeaseLaws.antt =====
-- Which job `lease_job` of crates/control/src/jobs.rs gives out.
use hostlet_app.Base.{
  ℕ, ◌+◌, ◌≡◌, ◌⊎◌, inl, inr, refl, subst, true, false, not, Option, none, some, List, All,
  Option-cases, arith,
}
use hostlet_app.Base.Text.{Text}
use hostlet_app.Base.Table.{
  In, select, select_first, select_first-In, select_first-least, select_first-none, select-some,
}
use hostlet_app.Api.{ok, err, Result-cases}
use hostlet_app.Jobs.Model.{JobRow, Database}
use hostlet_app.Jobs.Messages.{LeaseRequest, LeaseResponse, JobRecord, Env}
use hostlet_app.Jobs.Checks.{Tx, valid_worker_id}
use hostlet_app.Jobs.Store.{is_job, load_job, job_record}
use hostlet_app.Jobs.Reap.{reap_expired}
use hostlet_app.Jobs.Lease.{
  is_claimable, created_first, insert_attempt, new_attempt, lease_answer, lease_row, lease_next,
  after_reap, supported_kinds, lease_job,
}
use hostlet_app.Api.Answers.{Answers, Answers-err, Answers-ok, Answers-if, Answers-map, ok_answer}
use hostlet_app.Jobs.Advance.{is_job-id}

created_first_irrefl : (j : JobRow) → created_first j j ≡ false
created_first_irrefl j = ground arith

created_first_asym : (j k : JobRow) → created_first j k ≡ true → created_first k j ≡ false
created_first_asym j k h = ground arith

created_first_negtrans :
    (j k l : JobRow)
    → created_first j k ≡ false
    → created_first k l ≡ false
    → created_first j l ≡ false
created_first_negtrans j k l h g = ground arith

-- The answer is a lease of a job: a new attempt under the next fence.
pub record IsLeaseOf (j : JobRow) (response : LeaseResponse) : Type 0 where
  pub same_job : response.job.id ≡ j.id
  pub next_number : response.attempt.attempt_number ≡ j.attempt_count + 1
  pub next_fence : response.attempt.fence ≡ j.current_fence + 1

-- What is answered about a queue.
pub record IsOldest (js : List JobRow) (response : LeaseResponse) : Type 0 where
  pub leased : JobRow
  pub queued : In leased js
  pub claimable : is_claimable leased ≡ true
  pub lease : IsLeaseOf leased response
  pub oldest : All (λ k. (is_claimable k ≡ false) ⊎ (created_first k leased ≡ false)) js

abbrev pub Serves : List JobRow → Option LeaseResponse → Type 0
Serves js none = All (λ k. is_claimable k ≡ false) js
Serves js (some response) = IsOldest js response

abbrev Leases : JobRow → Database → Option LeaseResponse → Type 0
Leases j db none = ⊥
Leases j db (some response) = IsLeaseOf j response

load_job-id :
    (db : Database) (account project id : ℕ) (job : JobRecord)
    → load_job db account project id ≡ ok job
    → job.id ≡ id
unfolding load_job job_record
load_job-id db account project id job h =
    elim (Option-cases (select (is_job id account project) db.jobs)) [
      | inl never ↦ let failed = rw (load_job, never) at h in cc
      | inr (j, found) ↦
          let read = rw (load_job, found) at h in
          subst (λ r. r.id ≡ id) (ok_answer (job_record db j) job read)
            (is_job-id id account project j (select-some _ db.jobs j found))
    ]

lease_answer-Leases :
    (before : Database) (j : JobRow) (attempt : ℕ) (worker : Text) (expires : ℕ) (db : Database)
    → Answers (Leases j) (lease_answer before j attempt worker expires db)
unfolding lease_answer
lease_answer-Leases before j attempt worker expires db =
    elim (Result-cases (load_job db j.account_id j.project_id j.id)) [
      | inl (e, missing) ↦ rw (lease_answer, missing) (Answers-err _ _ _)
      | inr (job, found) ↦
          rw (lease_answer, found)
            (Answers-ok (Leases j) _ _ (record {
              same_job = load_job-id db j.account_id j.project_id j.id job found;
              next_number = refl;
              next_fence = refl;
            }))
    ]

lease_row-Leases :
    (env : Env) (clock : ℕ → ℕ) (attempt : ℕ) (worker : Text) (j : JobRow) (db : Database)
    → Answers (Leases j) (lease_row env clock attempt worker j db)
unfolding lease_row
lease_row-Leases env clock attempt worker j db =
    elim (Option-cases (
      insert_attempt (new_attempt j attempt worker (clock 2) (clock 0 + env.worker_lease_seconds))
        db.attempts)) [
          | inl clash ↦ rw (lease_row, clash) (Answers-err _ _ _)
          | inr (attempts, e) ↦ rw (lease_row, e) (lease_answer-Leases _ j attempt worker _ _)
        ]

leased-Serves :
    (js : List JobRow) (j : JobRow)
    → select_first created_first is_claimable js ≡ some j
    → (db : Database) (r : Option LeaseResponse) → Leases j db r
    → Serves js r
leased-Serves js j e db none never = absurd never
leased-Serves js j e db (some response) lease =
    let (queued, claimable) = select_first-In created_first is_claimable js j e in
    record {
      leased = j;
      queued = queued;
      claimable = claimable;
      lease = lease;
      oldest =
          select_first-least created_first is_claimable js created_first_irrefl created_first_asym
            created_first_negtrans j e;
    }

lease_next-Serves :
    (env : Env) (clock : ℕ → ℕ) (attempt : ℕ) (worker : Text) (db : Database)
    → Answers (λ _. Serves db.jobs) (lease_next env clock attempt worker db)
unfolding lease_next
lease_next-Serves env clock attempt worker db =
    elim (Option-cases (select_first created_first is_claimable db.jobs)) [
      | inl idle ↦
          rw (lease_next, idle)
            (Answers-ok _ db none (select_first-none created_first is_claimable db.jobs idle))
      | inr (j, e) ↦
          rw (lease_next, e)
            (Answers-map (Leases j) _ _ (leased-Serves db.jobs j e)
              (lease_row-Leases env clock attempt worker j db))
    ]

after_reap-Serves :
    (env : Env) (clock : ℕ → ℕ) (attempt : ℕ) (worker : Text) (t : Tx (Unit {0}))
    → Answers (λ _. Serves t.0.jobs) (after_reap env clock attempt worker t)
unfolding after_reap
after_reap-Serves env clock attempt worker (db, err e) = Answers-err _ db e
after_reap-Serves env clock attempt worker (db, ok done) =
    lease_next-Serves env clock attempt worker db

lease_job-answered :
    (env : Env) (clock : ℕ → ℕ → ℕ) (ids : ℕ → ℕ) (attempt : ℕ) (request : LeaseRequest)
    (db : Database)
    → Answers
        (λ _. Serves (reap_expired env clock ids db).0.jobs)
        (lease_job env clock ids attempt request db)
unfolding lease_job
lease_job-answered env clock ids attempt request db =
    Answers-if _ (not (valid_worker_id request.worker_id)) _ _ (λ _. Answers-err _ _ _)
      λ _.
        Answers-if _ (not (supported_kinds request.kinds)) _ _ (λ _. Answers-err _ _ _)
          λ _.
            after_reap-Serves env (clock 64) attempt request.worker_id
              (reap_expired env clock ids db)

-- When a worker asks for a job and is answered, then of the queue as the reaper has left it: with no
-- content, no job is claimable; with a lease, the job is a claimable one with no claimable job
-- created before it, and the attempt has the job's next number and next fence.
pub lease_job-Serves :
    (env : Env) (clock : ℕ → ℕ → ℕ) (ids : ℕ → ℕ) (attempt : ℕ) (request : LeaseRequest)
    (db db' : Database) (r : Option LeaseResponse)
    → lease_job env clock ids attempt request db ≡ (db', ok r)
    → Serves (reap_expired env clock ids db).0.jobs r
lease_job-Serves env clock ids attempt request db db' r h =
    (lease_job-answered env clock ids attempt request db).answers db' r h
