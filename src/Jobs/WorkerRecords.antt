-- ===== src/Jobs/WorkerRecords.antt =====
-- Workers' requests to crates/control/src/jobs.rs and the answers stored under idempotency keys.
use hostlet_app.Base.{
  ℕ, zero, suc, ◌+◌, ◌≡◌, ◌∙◌, inl, inr, refl, Option, none, some, arith, Option-cases,
}
use hostlet_app.Base.Table.{select_first}
use hostlet_app.Base.Text.{Text}
use hostlet_app.Api.{ok, err}
use hostlet_app.Jobs.Model.{JobRow, AttemptRow, Database}
use hostlet_app.Jobs.Messages.{
  LeaseRequest, LeaseIdentityRequest, ResolveCredentialsRequest, CompleteRequest, Env,
}
use hostlet_app.Jobs.Checks.{Tx, Outcome}
use hostlet_app.Jobs.Reap.{
  reap_one, reap_job, reap_rounds, reap_expired, Reap, idle, reaped, failed, is_expired,
  expires_first,
}
use hostlet_app.Jobs.Lease.{
  lease_job, lease_next, lease_row, after_reap, renew_job, renew_found, renew_locked,
}
use hostlet_app.Jobs.Complete.{
  complete_job, complete_checked, complete_row, complete_found, complete_locked, complete_live,
}
use hostlet_app.Jobs.Credentials.{resolve_credentials}

renew_locked-records :
    (env : Env) (clock : ℕ → ℕ) (id : ℕ) (request : LeaseIdentityRequest) (db : Database)
    (r : Option (JobRow × AttemptRow))
    → (renew_locked env clock id request db r).0.idempotency_records ≡ db.idempotency_records
unfolding renew_locked
renew_locked-records env clock id request db none = refl
renew_locked-records env clock id request db (some (j, a)) = ground arith

pub renew_job-records :
    (env : Env) (clock : ℕ → ℕ) (path : Text) (request : LeaseIdentityRequest) (db : Database)
    → (renew_job env clock path request db).0.idempotency_records ≡ db.idempotency_records
unfolding renew_job renew_found
renew_job-records env clock path request db = ground (arith, renew_locked-records env clock)

complete_live-records :
    (env : Env) (clock : ℕ → ℕ) (id : ℕ) (request : CompleteRequest) (o : Outcome) (j : JobRow)
    (db : Database)
    → (complete_live env clock id request o j db).0.idempotency_records ≡ db.idempotency_records
unfolding complete_live
complete_live-records env clock id request o j db = ground arith

complete_found-records :
    (env : Env) (clock : ℕ → ℕ) (id : ℕ) (request : CompleteRequest) (o : Outcome) (j : JobRow)
    (db : Database)
    → (complete_found env clock id request o j db).0.idempotency_records ≡ db.idempotency_records
unfolding complete_found complete_locked
complete_found-records env clock id request o j db =
    ground (arith, complete_live-records env clock id request o j db)

pub complete_job-records :
    (env : Env) (clock : ℕ → ℕ) (id : ℕ) (path : Text) (request : CompleteRequest) (db : Database)
    → (complete_job env clock id path request db).0.idempotency_records ≡ db.idempotency_records
unfolding complete_job complete_checked complete_row
complete_job-records env clock id path request db =
    ground (arith, complete_found-records env clock id request)

pub resolve_credentials-records :
    (env : Env) (now : ℕ) (path : Text) (request : ResolveCredentialsRequest) (db : Database)
    → (resolve_credentials env now path request db).0.idempotency_records ≡ db.idempotency_records
unfolding resolve_credentials
resolve_credentials-records env now path request db = ground arith

lease_next-records :
    (env : Env) (clock : ℕ → ℕ) (attempt : ℕ) (worker : Text) (db : Database)
    → (lease_next env clock attempt worker db).0.idempotency_records ≡ db.idempotency_records
unfolding lease_next lease_row
lease_next-records env clock attempt worker db = ground arith

-- What a round of the reaper leaves of the answers.
Same : Database → Reap → Type 0
Same db idle = Unit
Same db (reaped db') = db'.idempotency_records ≡ db.idempotency_records
Same db (failed e) = Unit

reap_job-Same :
    (env : Env) (clock : ℕ → ℕ) (effect : ℕ) (j : JobRow) (attempt : ℕ) (db : Database)
    → Same db (reap_job env clock effect j attempt db)
unfolding Same reap_job
reap_job-Same env clock effect j attempt db = ground arith

reap_one-Same :
    (env : Env) (clock : ℕ → ℕ) (effect : ℕ) (db : Database)
    → Same db (reap_one env clock effect db)
unfolding reap_one Same
reap_one-Same env clock effect db =
    elim (Option-cases (select_first expires_first (is_expired (clock 0)) db.jobs)) [
      | inl none_due ↦ rw (reap_one, none_due) tt
      | inr (j, due) ↦ elim (Option-cases j.current_attempt_id) [
        | inl unheld ↦ rw (reap_one, due, unheld) tt
        | inr (attempt, held) ↦
            rw (reap_one, due, held) (reap_job-Same env clock effect j attempt db)
      ]
    ]

reap_rounds-records :
    (env : Env) (clock : ℕ → ℕ → ℕ) (ids : ℕ → ℕ) (rounds i : ℕ) (db : Database)
    → (reap_rounds env clock ids rounds i db).0.idempotency_records ≡ db.idempotency_records
unfolding reap_rounds Same
reap_rounds-records env clock ids zero i db = refl
reap_rounds-records env clock ids (suc rounds) i db =
    go (reap_one env (clock i) (ids i) db) (reap_one-Same env (clock i) (ids i) db)
      (λ db'. reap_rounds-records env clock ids rounds (i + 1) db')
  where
    go :
        (r : Reap)
        → Same db r
        → ((db' : Database)
            → (reap_rounds env clock ids rounds (i + 1) db').0.idempotency_records
              ≡ db'.idempotency_records)
        → (elim r as (λ _. Tx (Unit {0})) [
          | idle ↦ (db, ok tt)
          | reaped db' ↦ reap_rounds env clock ids rounds (i + 1) db'
          | failed e ↦ (db, err e)
        ]).0.idempotency_records
          ≡ db.idempotency_records
    go idle e later = refl
    go (failed x) e later = refl
    go (reaped db') e later = later db' ∙ e

pub reap_expired-records :
    (env : Env) (clock : ℕ → ℕ → ℕ) (ids : ℕ → ℕ) (db : Database)
    → (reap_expired env clock ids db).0.idempotency_records ≡ db.idempotency_records
unfolding reap_expired
reap_expired-records env clock ids db = reap_rounds-records env clock ids 64 0 db

after_reap-records :
    (env : Env) (clock : ℕ → ℕ) (attempt : ℕ) (worker : Text) (t : Tx (Unit {0}))
    → (after_reap env clock attempt worker t).0.idempotency_records ≡ t.0.idempotency_records
unfolding after_reap
after_reap-records env clock attempt worker (db, err e) = refl
after_reap-records env clock attempt worker (db, ok done) =
    lease_next-records env clock attempt worker db

pub lease_job-records :
    (env : Env) (clock : ℕ → ℕ → ℕ) (ids : ℕ → ℕ) (attempt : ℕ) (request : LeaseRequest)
    (db : Database)
    → (lease_job env clock ids attempt request db).0.idempotency_records ≡ db.idempotency_records
unfolding lease_job
lease_job-records env clock ids attempt request db = ground (
  arith,
  reap_expired-records env clock ids db,
  after_reap-records env (clock 64) attempt request.worker_id (reap_expired env clock ids db),
)
