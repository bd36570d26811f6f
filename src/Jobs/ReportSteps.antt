-- ===== src/Jobs/ReportSteps.antt =====
-- The rest of the handlers of crates/control/src/jobs.rs that change jobs: renewal, completion,
-- cancellation and creation.
use hostlet_app.Base.{
  ℕ, ◌+◌, ◌≡◌, refl, ap, subst, ◌⊎◌, inl, inr, true, Option, none, some, not, ◌&&◌, ◌||◌,
  is_some_of, ◌==◌, leb, arith, Bool-cases,
}
use hostlet_app.Base.Text.{Text}
use hostlet_app.Base.Table.{In, update_rows, select, select-In, select-some}
use hostlet_app.Base.Growth.{Unique-In}
use hostlet_app.Api.{err, bad_request}
use hostlet_app.Jobs.Model.{JobState, JobRow, AttemptRow, Database}
use hostlet_app.Base.Integers.{not_positive, to_nat}
use hostlet_app.Jobs.Messages.{LeaseIdentityRequest, CompleteRequest, Env}
use hostlet_app.Api.Transactions.{found_or}
use hostlet_app.Jobs.Checks.{Outcome, valid_outcome, valid_worker_id, fenced}
use hostlet_app.Jobs.Store.{is_job, is_running, is_finished, holds, live_attempt, lease_live}
use hostlet_app.Jobs.Steps.{JobStep, renews, ends, hands_back}
use hostlet_app.Jobs.Advance.{
  UniqueIds, Moves, Moves-stay, Moves-if, Moves-refuse, Moves-found, is_job-id,
}
use hostlet_app.Jobs.LeaseSteps.{Advance-cases}
use hostlet_app.Jobs.Lease.{renew_job, renew_found, renew_locked, renew_row, still_held}
use hostlet_app.Jobs.Complete.{
  is_retriable, complete_job, complete_checked, complete_row, complete_found, complete_locked,
  complete_live, finish_job, effective, replay_retriable, replay_terminal,
}

-- The job that a join for a live attempt finds is a running row of the table.
pub live_attempt-holds :
    (db : Database) (id attempt fence : ℕ) (worker : Text) (j : JobRow) (a : AttemptRow)
    → live_attempt db id attempt fence worker ≡ some (j, a)
    → select (holds id attempt fence) db.jobs ≡ some j
unfolding live_attempt
live_attempt-holds db id attempt fence worker j a h = ground arith

holds-running :
    (id attempt fence : ℕ) (j : JobRow)
    → holds id attempt fence j ≡ true
    → is_running j.state ≡ true
holds-running id attempt fence j h = ground arith

still_held-id :
    (id attempt fence : ℕ) (j k : JobRow)
    → holds id attempt fence j ≡ true
    → still_held id attempt fence k ≡ true
    → k.id ≡ j.id
still_held-id id attempt fence j k h g = ground arith

-- What the join finds is a row of the table that the attempt holds.
live_attempt-In :
    (db : Database) (id attempt fence : ℕ) (worker : Text) (j : JobRow) (a : AttemptRow)
    → live_attempt db id attempt fence worker ≡ some (j, a)
    → In j db.jobs × (holds id attempt fence j ≡ true)
live_attempt-In db id attempt fence worker j a h =
    let e = live_attempt-holds db id attempt fence worker j a h in
    (
      select-In (holds id attempt fence) db.jobs j e,
      select-some (holds id attempt fence) db.jobs j e,
    )

pub holds-id : (id attempt fence : ℕ) (j : JobRow) → holds id attempt fence j ≡ true → j.id ≡ id
holds-id id attempt fence j h = ground arith

renew_locked-jobs :
    (env : Env) (clock : ℕ → ℕ) (id : ℕ) (request : LeaseIdentityRequest) (db : Database)
    (r : Option (JobRow × AttemptRow))
    → ((renew_locked env clock id request db r).0.jobs ≡ db.jobs)
      ⊎ ((renew_locked env clock id request db r).0.jobs
          ≡ update_rows
              (still_held id request.attempt_id (to_nat request.fence))
              (renew_row (clock 1 + env.worker_lease_seconds) (clock 2))
              db.jobs)
unfolding renew_locked
renew_locked-jobs env clock id request db none = inl refl
renew_locked-jobs env clock id request db (some (j, a)) = ground arith

renew_locked-Moves :
    (env : Env) (clock : ℕ → ℕ) (id : ℕ) (request : LeaseIdentityRequest) (db : Database)
    (r : Option (JobRow × AttemptRow))
    → ((j : JobRow) (a : AttemptRow)
        → r ≡ some (j, a)
        → In j db.jobs × (holds id request.attempt_id (to_nat request.fence) j ≡ true))
    → Moves db (renew_locked env clock id request db r)
unfolding renew_locked renew_row
renew_locked-Moves env clock id request db none found = Moves-stay db _ refl
renew_locked-Moves env clock id request db (some (j, a)) found = record {
  moves =
      let (there, held) = found j a refl in
      Advance-cases db.jobs _ _ _ j (renew_locked-jobs env clock id request db (some (j, a))) there
        (λ k h. still_held-id id request.attempt_id (to_nat request.fence) j k held h) (λ k. refl)
        (renews (clock 1 + env.worker_lease_seconds) (clock 2)
          (holds-running id request.attempt_id (to_nat request.fence) j held) refl);
}

pub renew_job-Moves :
    (env : Env) (clock : ℕ → ℕ) (path : Text) (request : LeaseIdentityRequest) (db : Database)
    → Moves db (renew_job env clock path request db)
unfolding renew_job renew_found
renew_job-Moves env clock path request db = Moves-found db (env.parse_uuid path) _ _ λ id _.
    Moves-refuse db (not (valid_worker_id request.worker_id) || not_positive request.fence) fenced
      (renew_locked env clock id request db
        (live_attempt db id request.attempt_id (to_nat request.fence) request.worker_id))
      λ _.
        renew_locked-Moves env clock id request db
          (live_attempt db id request.attempt_id (to_nat request.fence) request.worker_id)
          (live_attempt-In db id request.attempt_id (to_nat request.fence) request.worker_id)

complete_live-jobs :
    (env : Env) (clock : ℕ → ℕ) (id : ℕ) (request : CompleteRequest) (o : Outcome) (j : JobRow)
    (db : Database)
    → ((complete_live env clock id request o j db).0.jobs ≡ db.jobs)
      ⊎ ((complete_live env clock id request o j db).0.jobs
          ≡ update_rows
              (is_job j.id j.account_id j.project_id)
              (finish_job (effective o j) (clock 2))
              db.jobs)
unfolding complete_live
complete_live-jobs env clock id request o j db = ground arith

finish_job-JobStep :
    (o : Outcome) (now : ℕ) (j : JobRow)
    → is_running j.state ≡ true
    → JobStep j (finish_job (effective o j) now j)
unfolding finish_job effective
finish_job-JobStep Outcome.succeeded now j r = ends JobState.succeeded now r (inl refl) refl
finish_job-JobStep Outcome.failed now j r = ends JobState.failed now r (inr refl) refl
finish_job-JobStep Outcome.retriable now j r = elim (Bool-cases (leb 3 j.attempt_count)) [
  | inl last ↦ ends JobState.failed now r (inr refl) (rw last refl)
  | inr more ↦ hands_back now r (ground arith) (rw more refl)
]

complete_locked-Moves :
    (env : Env) (clock : ℕ → ℕ) (id : ℕ) (request : CompleteRequest) (o : Outcome) (j : JobRow)
    (db : Database) (r : Option (JobRow × AttemptRow))
    → In j db.jobs
    → ((k : JobRow) (a : AttemptRow) → r ≡ some (k, a) → is_running j.state ≡ true)
    → Moves db (complete_locked env clock id request o j db r)
unfolding complete_locked finish_job
complete_locked-Moves env clock id request o j db none there runs = Moves-stay db _ refl
complete_locked-Moves env clock id request o j db (some (k, a)) there runs =
    Moves-if db (lease_live (clock 0) k a) (complete_live env clock id request o j db)
      (db, err fenced)
      (λ _. record {
        moves =
            Advance-cases db.jobs _ _ _ j (complete_live-jobs env clock id request o j db) there
              (is_job-id j.id j.account_id j.project_id) (λ l. refl)
              (finish_job-JobStep o (clock 2) j (runs k a refl));
      })
      (λ _. Moves-stay db (db, err fenced) refl)

replay_retriable-unchanged :
    (env : Env) (request : CompleteRequest) (j : JobRow) (db : Database)
    → (replay_retriable env request j db).0 ≡ db
unfolding replay_retriable
replay_retriable-unchanged env request j db = ground arith

replay_terminal-unchanged :
    (env : Env) (request : CompleteRequest) (j : JobRow) (db : Database)
    → (replay_terminal env request j db).0 ≡ db
unfolding replay_terminal
replay_terminal-unchanged env request j db = ground arith

module _ (db : Database) (unique : UniqueIds db.jobs) where
  -- The job that was locked is the one that the join finds, by the primary key.
  locked-running :
      (j k : JobRow) (a : AttemptRow) (attempt fence : ℕ) (worker : Text)
      → In j db.jobs
      → live_attempt db j.id attempt fence worker ≡ some (k, a)
      → is_running j.state ≡ true
  locked-running j k a attempt fence worker there e =
      let (in_table, held) = live_attempt-In db j.id attempt fence worker k a e in
      let same =
        Unique-In (λ l. l.id) db.jobs j k unique there in_table
          (holds-id j.id attempt fence k held) in
      subst (λ l. is_running l.state ≡ true) same (holds-running j.id attempt fence k held)

  complete_found-Moves :
      (env : Env) (clock : ℕ → ℕ) (id : ℕ) (request : CompleteRequest) (o : Outcome) (j : JobRow)
      → In j db.jobs
      → Moves db (complete_found env clock id request o j db)
  unfolding complete_found
  complete_found-Moves env clock id request o j there =
      elim (Bool-cases (is_retriable j.state && j.current_fence == to_nat request.fence)) [
        | inl again ↦ rw again (
            Moves-stay db (replay_retriable env request j db)
              (ap (λ (d : Database). d.jobs) (replay_retriable-unchanged env request j db)))
        | inr first ↦
            elim (Bool-cases (
              is_finished j.state
              && (is_some_of j.current_attempt_id request.attempt_id
                  && j.current_fence == to_nat request.fence))) [
                    | inl done ↦
                        rw (first, done)
                          (Moves-stay db (replay_terminal env request j db) (
                            ap (λ (d : Database). d.jobs)
                              (replay_terminal-unchanged env request j db)))
                    | inr open_job ↦
                        rw (first, open_job)
                          (complete_locked-Moves env clock id request o j db
                            (live_attempt db j.id request.attempt_id (to_nat request.fence)
                              request.worker_id)
                            there
                            (λ k a.
                              locked-running j k a request.attempt_id (to_nat request.fence)
                                request.worker_id there))
                  ]
      ]

  pub complete_job-Moves :
      (env : Env) (clock : ℕ → ℕ) (id : ℕ) (path : Text) (request : CompleteRequest)
      → Moves db (complete_job env clock id path request db)
  unfolding complete_job complete_checked complete_row
  complete_job-Moves env clock id path request = Moves-found db (env.parse_uuid path) _ _ λ job _.
      Moves-refuse db (not (valid_worker_id request.worker_id) || not_positive request.fence)
        (bad_request "invalid_completion")
        (found_or (valid_outcome request.outcome) (bad_request "invalid_completion") db
          (complete_row env clock id request db job))
        λ _. Moves-found db (valid_outcome request.outcome) _ _ λ o _.
          Moves-found db (select (λ j. j.id == job) db.jobs) _ _ λ j e.
            complete_found-Moves env clock id request o j (select-In (λ j. j.id == job) db.jobs j e)
