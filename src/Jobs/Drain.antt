-- ===== src/Jobs/Drain.antt =====
-- How far `reap_expired` of crates/control/src/jobs.rs gets with the jobs whose lease has run out.
use hostlet_app.Base.{
  ℕ, zero, suc, ◌+◌, ◌-◌, ◌≡◌, inl, inr, refl, true, false, List, Option-cases, arith,
}
use hostlet_app.Base.Table.{In, select_first, select_first-In, select_first-none, update_rows}
use hostlet_app.Base.Growth.{update_rows-Unique}
use hostlet_app.Base.Counts.{number_of, number_of-none, update_rows-number_of}
use hostlet_app.Api.{ok, err}
use hostlet_app.Jobs.Model.{JobRow, Database}
use hostlet_app.Jobs.Messages.{Env}
use hostlet_app.Jobs.Checks.{Tx}
use hostlet_app.Jobs.Store.{is_job}
use hostlet_app.Jobs.Reap.{
  Reap, idle, reaped, failed, is_expired, expires_first, expire_job, reap_job, reap_one,
  reap_rounds, reap_expired,
}
use hostlet_app.Jobs.Advance.{UniqueIds, is_job-id}
use hostlet_app.Api.Answers.{Answers, Answers-ok, Answers-err, Answers-map}
use hostlet_app.Jobs.LeaseSteps.{ReapCases, reap_job-jobs}

expire_job-expired : (now : ℕ) (j : JobRow) → is_expired now (expire_job now j) ≡ false
unfolding expire_job
expire_job-expired now j = ground arith

expire_job-id : (now : ℕ) (j : JobRow) → (expire_job now j).id ≡ j.id
unfolding expire_job
expire_job-id now j = refl

is_job_self : (j : JobRow) → is_job j.id j.account_id j.project_id j ≡ true
is_job_self j = ground arith

-- A round: nothing was due, or one job less is due.
abbrev Drained : ℕ → List JobRow → Reap → Type 0
Drained now js idle = number_of (is_expired now) js ≡ 0
Drained now js (reaped db') =
    UniqueIds db'.jobs × (number_of (is_expired now) db'.jobs + 1 ≡ number_of (is_expired now) js)
Drained now js (failed e) = Unit

reap_job-Drained :
    (env : Env) (now effect : ℕ) (j : JobRow) (attempt : ℕ) (db : Database)
    → UniqueIds db.jobs
    → In j db.jobs
    → is_expired now j ≡ true
    → Drained now db.jobs (reap_job env (λ n. now) effect j attempt db)
reap_job-Drained env now effect j attempt db u there due =
    go (reap_job env (λ n. now) effect j attempt db)
      (reap_job-jobs env (λ n. now) effect j attempt db)
  where
    one_less :
        number_of
            (is_expired now)
            (update_rows (is_job j.id j.account_id j.project_id) (expire_job now) db.jobs)
          + 1
        ≡ number_of (is_expired now) db.jobs
    one_less =
        let counted =
          update_rows-number_of (λ k. k.id) (is_expired now) (is_job j.id j.account_id j.project_id)
            (expire_job now) j db.jobs u there (is_job-id j.id j.account_id j.project_id)
            (is_job_self j) in
        let counted' = rw (due, expire_job-expired now j) at counted in omega (arith, counted')

    go :
        (r : Reap)
        → ReapCases db.jobs
            (update_rows (is_job j.id j.account_id j.project_id) (expire_job now) db.jobs)
            r
        → Drained now db.jobs r
    go idle e = absurd e
    go (failed x) e = tt
    go (reaped db') e = (
      rw e (
          update_rows-Unique (λ k. k.id) (is_job j.id j.account_id j.project_id) (expire_job now)
            db.jobs (λ k. expire_job-id now k) u),
      rw e one_less,
    )

reap_one-Drained :
    (env : Env) (now effect : ℕ) (db : Database)
    → UniqueIds db.jobs
    → Drained now db.jobs (reap_one env (λ n. now) effect db)
unfolding reap_one
reap_one-Drained env now effect db u =
    elim (Option-cases (select_first expires_first (is_expired now) db.jobs)) [
      | inl none_due ↦
          rw (reap_one, none_due)
            (number_of-none (is_expired now) db.jobs
              (select_first-none expires_first (is_expired now) db.jobs none_due))
      | inr (j, found) ↦
          let (there, due) = select_first-In expires_first (is_expired now) db.jobs j found in
          elim (Option-cases j.current_attempt_id) [
            | inl unheld ↦ rw (reap_one, found, unheld) tt
            | inr (attempt, held) ↦
                rw (reap_one, found, held)
                  (reap_job-Drained env now effect j attempt db u there due)
          ]
    ]

reap_rounds-number_of :
    (env : Env) (now : ℕ) (ids : ℕ → ℕ) (rounds i : ℕ) (db : Database)
    → UniqueIds db.jobs
    → Answers
        (λ db' _. number_of (is_expired now) db'.jobs ≡ number_of (is_expired now) db.jobs - rounds)
        (reap_rounds env (λ i n. now) ids rounds i db)
unfolding reap_rounds
reap_rounds-number_of env now ids zero i db u = Answers-ok _ db tt (omega arith)
reap_rounds-number_of env now ids (suc rounds) i db u =
    go (reap_one env (λ n. now) (ids i) db) (reap_one-Drained env now (ids i) db u)
      (λ db' v. reap_rounds-number_of env now ids rounds (i + 1) db' v)
  where
    go :
        (r : Reap)
        → Drained now db.jobs r
        → ((db' : Database)
            → UniqueIds db'.jobs
            → Answers
                (λ db'' _.
                  number_of (is_expired now) db''.jobs
                  ≡ number_of (is_expired now) db'.jobs - rounds)
                (reap_rounds env (λ i n. now) ids rounds (i + 1) db'))
        → Answers
            (λ db'' _.
              number_of (is_expired now) db''.jobs
              ≡ number_of (is_expired now) db.jobs - suc rounds)
            (elim r as (λ _. Tx (Unit {0})) [
              | idle ↦ (db, ok tt)
              | reaped db' ↦ reap_rounds env (λ i n. now) ids rounds (i + 1) db'
              | failed e ↦ (db, err e)
            ])
    go idle empty later = Answers-ok _ db tt (omega (arith, empty))
    go (failed x) any_way later = Answers-err _ db x
    go (reaped db') step later =
        Answers-map _ _ _ (λ db'' done h. omega (arith, h, step.1)) (later db' step.0)

-- While the clock stands still, a reaper that returns has taken its bound of 64 of the jobs whose
-- lease had run out off the list, and has left none where there were no more than that.
pub reap_expired-number_of :
    (env : Env) (now : ℕ) (ids : ℕ → ℕ) (db db' : Database)
    → UniqueIds db.jobs
    → reap_expired env (λ i n. now) ids db ≡ (db', ok tt)
    → number_of (is_expired now) db'.jobs ≡ number_of (is_expired now) db.jobs - 64
unfolding reap_expired
reap_expired-number_of env now ids db db' u h =
    (reap_rounds-number_of env now ids 64 0 db u).answers db' tt h
