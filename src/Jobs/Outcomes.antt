-- ===== src/Jobs/Outcomes.antt =====
-- Every request to crates/control/src/jobs.rs and the effects of jobs.
use hostlet_app.Base.{
  ℕ, zero, suc, ◌+◌, ◌≡◌, ◌⊎◌, inl, inr, refl, subst, not, ◌||◌, ◌==◌, some, List, [], ◌∷◌,
  Bool-cases, Option-cases, arith,
}
use hostlet_app.Base.Text.{Text}
use hostlet_app.Base.Table.{In, select, select_first}
use hostlet_app.Api.{Result-cases, ok, err}
use hostlet_app.Jobs.Model.{JobRow, EffectRow, Database}
use hostlet_app.Base.Integers.{not_positive}
use hostlet_app.Jobs.Messages.{
  LeaseRequest, CompleteRequest, CompleteResponse, JobEffectResponse, Env,
}
use hostlet_app.Jobs.Checks.{Tx, Outcome, valid_worker_id, valid_outcome}
use hostlet_app.Api.Transactions.{found_or-either, if-either}
use hostlet_app.Jobs.Store.{load_job}
use hostlet_app.Jobs.Reap.{
  insert_effect, Reap, idle, reaped, failed, reap_one, reap_rounds, reap_expired, is_expired,
  expires_first,
}
use hostlet_app.Jobs.Lease.{lease_job, lease_next, lease_row, after_reap}
use hostlet_app.Jobs.Complete.{
  complete_job, complete_checked, complete_row, complete_found, complete_locked, complete_live,
  record_answer, new_effect, effective, effective_code, outcome_state, retries, replay_retriable,
  replay_terminal,
}
use hostlet_app.Jobs.Machine.{
  Command, create, cancel, reap, lease, renew, resolve, complete, step, run,
}
use hostlet_app.Jobs.EffectLaws.{
  EffectsGrow, EffectsGrow-same, EffectsGrow-trans, UniqueEffects, insert_effect-EffectsGrow,
  ReapGrows, reap_job-ReapGrows,
}
use hostlet_app.Jobs.EffectsSame.{
  renew_job-effects, resolve_credentials-effects, create_job-effects, cancel_job-effects,
}

reap_one-ReapGrows :
    (env : Env) (clock : ℕ → ℕ) (effect : ℕ) (db : Database)
    → ReapGrows db (reap_one env clock effect db)
unfolding reap_one
reap_one-ReapGrows env clock effect db =
    elim (Option-cases (select_first expires_first (is_expired (clock 0)) db.jobs)) [
      | inl none_due ↦ rw (reap_one, none_due) tt
      | inr (j, due) ↦ elim (Option-cases j.current_attempt_id) [
        | inl unheld ↦ rw (reap_one, due, unheld) tt
        | inr (attempt, held) ↦
            rw (reap_one, due, held) (reap_job-ReapGrows env clock effect j attempt db)
      ]
    ]

reap_rounds-EffectsGrow :
    (env : Env) (clock : ℕ → ℕ → ℕ) (ids : ℕ → ℕ) (rounds i : ℕ) (db : Database)
    → EffectsGrow db.effects (reap_rounds env clock ids rounds i db).0.effects
unfolding reap_rounds
reap_rounds-EffectsGrow env clock ids zero i db = EffectsGrow-same db.effects _ refl
reap_rounds-EffectsGrow env clock ids (suc rounds) i db =
    go (reap_one env (clock i) (ids i) db) (reap_one-ReapGrows env (clock i) (ids i) db)
      (λ db'. reap_rounds-EffectsGrow env clock ids rounds (i + 1) db')
  where
    go :
        (r : Reap)
        → ReapGrows db r
        → ((db' : Database)
            → EffectsGrow db'.effects (reap_rounds env clock ids rounds (i + 1) db').0.effects)
        → EffectsGrow db.effects
            (elim r as (λ _. Tx (Unit {0})) [
              | idle ↦ (db, ok tt)
              | reaped db' ↦ reap_rounds env clock ids rounds (i + 1) db'
              | failed e ↦ (db, err e)
            ]).0.effects
    go idle g later = EffectsGrow-same db.effects _ refl
    go (failed x) g later = EffectsGrow-same db.effects _ refl
    go (reaped db') g later = EffectsGrow-trans db.effects db'.effects _ g (later db')

reap_expired-EffectsGrow :
    (env : Env) (clock : ℕ → ℕ → ℕ) (ids : ℕ → ℕ) (db : Database)
    → EffectsGrow db.effects (reap_expired env clock ids db).0.effects
unfolding reap_expired
reap_expired-EffectsGrow env clock ids db = reap_rounds-EffectsGrow env clock ids 64 0 db

lease_next-effects :
    (env : Env) (clock : ℕ → ℕ) (attempt : ℕ) (worker : Text) (db : Database)
    → (lease_next env clock attempt worker db).0.effects ≡ db.effects
unfolding lease_next lease_row
lease_next-effects env clock attempt worker db = ground arith

after_reap-effects :
    (env : Env) (clock : ℕ → ℕ) (attempt : ℕ) (worker : Text) (t : Tx (Unit {0}))
    → (after_reap env clock attempt worker t).0.effects ≡ t.0.effects
unfolding after_reap
after_reap-effects env clock attempt worker (db, err e) = refl
after_reap-effects env clock attempt worker (db, ok done) =
    lease_next-effects env clock attempt worker db

-- Nothing, or what the reaper has done.
lease_job-effects :
    (env : Env) (clock : ℕ → ℕ → ℕ) (ids : ℕ → ℕ) (attempt : ℕ) (request : LeaseRequest)
    (db : Database)
    → ((lease_job env clock ids attempt request db).0.effects ≡ db.effects)
      ⊎ ((lease_job env clock ids attempt request db).0.effects
          ≡ (reap_expired env clock ids db).0.effects)
unfolding lease_job
lease_job-effects env clock ids attempt request db = ground (
  arith,
  after_reap-effects env (clock 64) attempt request.worker_id (reap_expired env clock ids db),
)

record_answer-EffectsGrow :
    (env : Env) (id : ℕ) (request : CompleteRequest) (o : Outcome) (j : JobRow)
    (before db : Database)
    → db.effects ≡ before.effects
    → EffectsGrow before.effects (record_answer env id request o j before db).0.effects
unfolding record_answer
record_answer-EffectsGrow env id request o j before db same =
    elim (Result-cases (load_job db j.account_id j.project_id j.id)) [
      | inl (e, missing) ↦ rw (record_answer, missing) (EffectsGrow-same before.effects _ refl)
      | inr (job, found) ↦ elim (Bool-cases (retries (effective o j))) [
        | inl again ↦ rw (record_answer, found, again) (EffectsGrow-same before.effects _ same)
        | inr over ↦
            let effect : JobEffectResponse = record {
              id = id;
              outcome_state = outcome_state (effective o j);
              outcome_code = effective_code request o j;
            } in
            let row =
              new_effect env j request effect (record { job = job; effect = some effect }) in
            elim (Option-cases (insert_effect row db.effects)) [
              | inl clash ↦
                  rw (record_answer, found, over, clash) (EffectsGrow-same before.effects _ refl)
              | inr (effects, e) ↦
                  rw (record_answer, found, over, e)
                    (insert_effect-EffectsGrow row before.effects effects
                      (subst (λ es. insert_effect row es ≡ some effects) same e))
            ]
      ]
    ]

complete_live-EffectsGrow :
    (env : Env) (clock : ℕ → ℕ) (id : ℕ) (request : CompleteRequest) (o : Outcome) (j : JobRow)
    (db : Database)
    → EffectsGrow db.effects (complete_live env clock id request o j db).0.effects
unfolding complete_live
complete_live-EffectsGrow env clock id request o j db =
    record_answer-EffectsGrow env id request o j db _ refl

-- What follows the row of the job: no effect, or the one of a live completion.
complete_found-effects :
    (env : Env) (clock : ℕ → ℕ) (id : ℕ) (request : CompleteRequest) (o : Outcome) (j : JobRow)
    (db : Database)
    → ((complete_found env clock id request o j db).0.effects ≡ db.effects)
      ⊎ ((complete_found env clock id request o j db).0.effects
          ≡ (complete_live env clock id request o j db).0.effects)
unfolding complete_found complete_locked replay_retriable replay_terminal
complete_found-effects env clock id request o j db = ground arith

complete_found-EffectsGrow :
    (env : Env) (clock : ℕ → ℕ) (id : ℕ) (request : CompleteRequest) (o : Outcome) (j : JobRow)
    (db : Database)
    → EffectsGrow db.effects (complete_found env clock id request o j db).0.effects
complete_found-EffectsGrow env clock id request o j db =
    elim (complete_found-effects env clock id request o j db) [
      | inl same ↦ EffectsGrow-same db.effects _ same
      | inr live ↦ rw live (complete_live-EffectsGrow env clock id request o j db)
    ]

complete_job-EffectsGrow :
    (env : Env) (clock : ℕ → ℕ) (id : ℕ) (path : Text) (request : CompleteRequest) (db : Database)
    → EffectsGrow db.effects (complete_job env clock id path request db).0.effects
unfolding complete_job complete_checked complete_row
complete_job-EffectsGrow env clock id path request db =
    found_or-either Grown (env.parse_uuid path) _ db _ unchanged λ job.
      if-either Grown (not (valid_worker_id request.worker_id) || not_positive request.fence) _ _
        unchanged
        (found_or-either Grown (valid_outcome request.outcome) _ db _ unchanged λ o.
          found_or-either Grown (select (λ j. j.id == job) db.jobs) _ db _ unchanged
            λ j. complete_found-EffectsGrow env clock id request o j db)
  where
    Grown : Tx CompleteResponse → Type 0
    Grown t = EffectsGrow db.effects t.0.effects

    unchanged : EffectsGrow db.effects db.effects
    unchanged = EffectsGrow-same db.effects db.effects refl

step-EffectsGrow :
    (env : Env) (c : Command) (db : Database) → EffectsGrow db.effects (step env c db).effects
unfolding step
step-EffectsGrow env (create now id o path key request) db =
    EffectsGrow-same db.effects _ (create_job-effects env now id o path key request db)
step-EffectsGrow env (cancel clock o project job key revision) db =
    EffectsGrow-same db.effects _ (cancel_job-effects env clock o project job key revision db)
step-EffectsGrow env (reap clock ids) db = reap_expired-EffectsGrow env clock ids db
step-EffectsGrow env (lease clock ids attempt request) db =
    elim (lease_job-effects env clock ids attempt request db) [
      | inl same ↦ EffectsGrow-same db.effects _ same
      | inr reaped_only ↦ rw reaped_only (reap_expired-EffectsGrow env clock ids db)
    ]
step-EffectsGrow env (renew clock path request) db =
    EffectsGrow-same db.effects _ (renew_job-effects env clock path request db)
step-EffectsGrow env (resolve now path request) db =
    EffectsGrow-same db.effects _ (resolve_credentials-effects env now path request db)
step-EffectsGrow env (complete clock id path request) db =
    complete_job-EffectsGrow env clock id path request db

run-EffectsGrow :
    (env : Env) (cs : List Command) (db : Database) → EffectsGrow db.effects (run env cs db).effects
unfolding run
run-EffectsGrow env [] db = EffectsGrow-same db.effects _ refl
run-EffectsGrow env (c ∷ cs) db =
    EffectsGrow-trans db.effects (step env c db).effects _ (step-EffectsGrow env c db)
      (run-EffectsGrow env cs (step env c db))

-- Through any requests the effect of a job, with its outcome and its answer, is never removed nor
-- changed, and no job comes to have two effects.
pub run-UniqueEffects :
    (env : Env) (cs : List Command) (db : Database) (e : EffectRow)
    → UniqueEffects db.effects
    → In e db.effects
    → UniqueEffects (run env cs db).effects × In e (run env cs db).effects
run-UniqueEffects env cs db e u there =
    let grown = run-EffectsGrow env cs db in (grown.unique u, grown.kept e there)
