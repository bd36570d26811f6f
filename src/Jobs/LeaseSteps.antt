-- ===== src/Jobs/LeaseSteps.antt =====
-- Every handler of crates/control/src/jobs.rs moves jobs by the transitions of the specification.
use hostlet_app.Base.{
  ℕ, zero, suc, ◌+◌, ◌≡◌, refl, ◌⊎◌, inl, inr, Bool, true, Option, none, some, List, arith,
  Bool-cases, Option-cases,
}
use hostlet_app.Base.Text.{Text}
use hostlet_app.Base.Table.{In, update_rows, select_first, select_first-In}
use hostlet_app.Api.{ok, err, database_unavailable}
use hostlet_app.Jobs.Model.{JobRow, Database}
use hostlet_app.Jobs.Messages.{Env, LeaseRequest, LeaseResponse}
use hostlet_app.Jobs.Store.{is_job}
use hostlet_app.Jobs.Steps.{JobStep, claims, expires}
use hostlet_app.Jobs.Advance.{Advance, Advance-refl, Advance-trans, update-Advance, is_job-id}
use hostlet_app.Jobs.Reap.{
  expires_first, reap_job, Reap, idle, reaped, failed, reap_one, reap_rounds, reap_expired,
  is_expired, expire_job,
}
use hostlet_app.Jobs.Lease.{
  supported_kinds, after_reap, created_first, lease_job, lease_next, lease_row, is_claimable,
  claim_job,
}
use hostlet_app.Jobs.Checks.{Tx, valid_worker_id}

expire_job-JobStep :
    (read now : ℕ) (j : JobRow) → is_expired read j ≡ true → JobStep j (expire_job now j)
unfolding expire_job
expire_job-JobStep read now j h = elim (Option-cases j.lease_expires_at) [
  | inl e ↦ absurd (ground arith)
  | inr (until, e) ↦ expires until read now (ground arith) e (ground arith) refl
]

claim_job-JobStep :
    (attempt until now : ℕ) (j : JobRow)
    → is_claimable j ≡ true
    → JobStep j (claim_job (j.attempt_count + 1) attempt (j.current_fence + 1) until now j)
unfolding claim_job
claim_job-JobStep attempt until now j h =
    claims attempt until now (ground arith) (ground arith) refl

-- A handler whose table of jobs is the old one, or the update of a row that was read.
pub Advance-cases :
    (js ks : List JobRow) (f : JobRow → JobRow) (q : JobRow → Bool) (j : JobRow)
    → (ks ≡ js) ⊎ (ks ≡ update_rows q f js)
    → In j js
    → ((k : JobRow) → q k ≡ true → k.id ≡ j.id)
    → ((k : JobRow) → (f k).id ≡ k.id)
    → JobStep j (f j)
    → Advance js ks
Advance-cases js ks f q j (inl e) there fits same step = rw e (Advance-refl js)
Advance-cases js ks f q j (inr e) there fits same step =
    rw e (update-Advance q f js j there fits same step)

lease_row-jobs :
    (env : Env) (clock : ℕ → ℕ) (attempt : ℕ) (worker : Text) (j : JobRow) (db : Database)
    → ((lease_row env clock attempt worker j db).0.jobs ≡ db.jobs)
      ⊎ ((lease_row env clock attempt worker j db).0.jobs
          ≡ update_rows
              (is_job j.id j.account_id j.project_id)
              (claim_job
                (j.attempt_count + 1)
                attempt
                (j.current_fence + 1)
                (clock 0 + env.worker_lease_seconds)
                (clock 1))
              db.jobs)
unfolding lease_row
lease_row-jobs env clock attempt worker j db = ground arith

lease_next-Advance :
    (env : Env) (clock : ℕ → ℕ) (attempt : ℕ) (worker : Text) (db : Database)
    → Advance db.jobs (lease_next env clock attempt worker db).0.jobs
unfolding lease_next claim_job
lease_next-Advance env clock attempt worker db =
    go (select_first created_first is_claimable db.jobs)
      (select_first-In created_first is_claimable db.jobs)
  where
    go :
        (r : Option JobRow)
        → ((j : JobRow) → r ≡ some j → In j db.jobs × (is_claimable j ≡ true))
        → Advance db.jobs
            (elim r as (λ _. Tx (Option LeaseResponse)) [
              | none ↦ (db, ok none)
              | some j ↦ lease_row env clock attempt worker j db
            ]).0.jobs
    go none found = Advance-refl db.jobs
    go (some j) found =
        Advance-cases db.jobs _ _ _ j (lease_row-jobs env clock attempt worker j db)
          (found j refl).0 (is_job-id j.id j.account_id j.project_id) (λ k. refl)
          (claim_job-JobStep attempt (clock 0 + env.worker_lease_seconds) (clock 1) j
            (found j refl).1)

-- What a round of the reaper does to the jobs.
abbrev ReapAdvance : List JobRow → Reap → Type 0
ReapAdvance js idle = Unit
ReapAdvance js (failed _) = Unit
ReapAdvance js (reaped db) = Advance js db.jobs

abbrev pub ReapCases : List JobRow → List JobRow → Reap → Type 0
ReapCases js ks idle = ⊥
ReapCases js ks (failed _) = Unit
ReapCases js ks (reaped db) = db.jobs ≡ ks

pub reap_job-jobs :
    (env : Env) (clock : ℕ → ℕ) (effect : ℕ) (j : JobRow) (attempt : ℕ) (db : Database)
    → ReapCases db.jobs
        (update_rows (is_job j.id j.account_id j.project_id) (expire_job (clock 2)) db.jobs)
        (reap_job env clock effect j attempt db)
unfolding reap_job
reap_job-jobs env clock effect j attempt db = ground arith

reap_job-Advance :
    (env : Env) (clock : ℕ → ℕ) (effect : ℕ) (j : JobRow) (attempt : ℕ) (db : Database)
    → In j db.jobs
    → is_expired (clock 0) j ≡ true
    → ReapAdvance db.jobs (reap_job env clock effect j attempt db)
unfolding expire_job
reap_job-Advance env clock effect j attempt db there out =
    go (reap_job env clock effect j attempt db) (reap_job-jobs env clock effect j attempt db)
  where
    go :
        (r : Reap)
        → ReapCases db.jobs
            (update_rows (is_job j.id j.account_id j.project_id) (expire_job (clock 2)) db.jobs)
            r
        → ReapAdvance db.jobs r
    go idle e = tt
    go (failed x) e = tt
    go (reaped db') e =
        Advance-cases db.jobs db'.jobs (expire_job (clock 2)) _ j (inr e) there
          (is_job-id j.id j.account_id j.project_id) (λ k. refl)
          (expire_job-JobStep (clock 0) (clock 2) j out)

reap_one-Advance :
    (env : Env) (clock : ℕ → ℕ) (effect : ℕ) (db : Database)
    → ReapAdvance db.jobs (reap_one env clock effect db)
unfolding reap_one
reap_one-Advance env clock effect db =
    go (select_first expires_first (is_expired (clock 0)) db.jobs)
      (select_first-In expires_first (is_expired (clock 0)) db.jobs)
  where
    held :
        (j : JobRow) (a : Option ℕ)
        → In j db.jobs × (is_expired (clock 0) j ≡ true)
        → ReapAdvance db.jobs (elim a as (λ _. Reap) [
          | none ↦ failed database_unavailable
          | some attempt ↦ reap_job env clock effect j attempt db
        ])
    held j none found = tt
    held j (some attempt) found = reap_job-Advance env clock effect j attempt db found.0 found.1

    go :
        (r : Option JobRow)
        → ((j : JobRow) → r ≡ some j → In j db.jobs × (is_expired (clock 0) j ≡ true))
        → ReapAdvance db.jobs (elim r as (λ _. Reap) [
          | none ↦ idle
          | some j ↦ elim j.current_attempt_id [
            | none ↦ failed database_unavailable
            | some attempt ↦ reap_job env clock effect j attempt db
          ]
        ])
    go none found = tt
    go (some j) found = held j j.current_attempt_id (found j refl)

-- The reaper's loop, however many rounds it has left.
pub reap_rounds-Advance :
    (env : Env) (clock : ℕ → ℕ → ℕ) (ids : ℕ → ℕ) (rounds i : ℕ) (db : Database)
    → Advance db.jobs (reap_rounds env clock ids rounds i db).0.jobs
unfolding reap_rounds
reap_rounds-Advance env clock ids zero i db = Advance-refl db.jobs
reap_rounds-Advance env clock ids (suc rounds) i db =
    go (reap_one env (clock i) (ids i) db) (reap_one-Advance env (clock i) (ids i) db)
      (λ db'. reap_rounds-Advance env clock ids rounds (i + 1) db')
  where
    go :
        (r : Reap)
        → ReapAdvance db.jobs r
        → ((db' : Database)
            → Advance db'.jobs (reap_rounds env clock ids rounds (i + 1) db').0.jobs)
        → Advance db.jobs
            (elim r as (λ _. Tx (Unit {0})) [
              | idle ↦ (db, ok tt)
              | reaped db' ↦ reap_rounds env clock ids rounds (i + 1) db'
              | failed e ↦ (db, err e)
            ]).0.jobs
    go idle step rest = Advance-refl db.jobs
    go (failed e) step rest = Advance-refl db.jobs
    go (reaped db') step rest = Advance-trans db.jobs db'.jobs _ step (rest db')

pub reap_expired-Advance :
    (env : Env) (clock : ℕ → ℕ → ℕ) (ids : ℕ → ℕ) (db : Database)
    → Advance db.jobs (reap_expired env clock ids db).0.jobs
unfolding reap_expired
reap_expired-Advance env clock ids db = reap_rounds-Advance env clock ids 64 0 db

after_reap-Advance :
    (env : Env) (clock : ℕ → ℕ) (attempt : ℕ) (worker : Text) (db : Database) (r : Tx (Unit {0}))
    → Advance db.jobs r.0.jobs
    → Advance db.jobs (after_reap env clock attempt worker r).0.jobs
unfolding after_reap
after_reap-Advance env clock attempt worker db (db', err e) step = step
after_reap-Advance env clock attempt worker db (db', ok u) step =
    Advance-trans db.jobs db'.jobs _ step (lease_next-Advance env clock attempt worker db')

lease_job-jobs :
    (env : Env) (clock : ℕ → ℕ → ℕ) (ids : ℕ → ℕ) (attempt : ℕ) (request : LeaseRequest)
    (db : Database)
    → ((lease_job env clock ids attempt request db).0.jobs ≡ db.jobs)
      ⊎ ((lease_job env clock ids attempt request db).0.jobs
          ≡ (after_reap env
              (clock 64)
              attempt
              request.worker_id
              (reap_expired env clock ids db)).0.jobs)
unfolding lease_job
lease_job-jobs env clock ids attempt request db =
    elim (Bool-cases (valid_worker_id request.worker_id)) [
      | inl good ↦ elim (Bool-cases (supported_kinds request.kinds)) [
        | inl known ↦ inr (rw (good, known) refl)
        | inr other ↦ inl (rw (good, other) refl)
      ]
      | inr bad ↦ inl (rw bad refl)
    ]

pub lease_job-Advance :
    (env : Env) (clock : ℕ → ℕ → ℕ) (ids : ℕ → ℕ) (attempt : ℕ) (request : LeaseRequest)
    (db : Database)
    → Advance db.jobs (lease_job env clock ids attempt request db).0.jobs
lease_job-Advance env clock ids attempt request db =
    elim (lease_job-jobs env clock ids attempt request db) [
      | inl e ↦ rw e (Advance-refl db.jobs)
      | inr e ↦ rw e (
          after_reap-Advance env (clock 64) attempt request.worker_id db
            (reap_expired env clock ids db) (reap_expired-Advance env clock ids db))
    ]
