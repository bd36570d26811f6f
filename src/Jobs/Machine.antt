-- ===== src/Jobs/Machine.antt =====
-- The job queue as one machine: any interleaving of the requests of owners and workers to
-- crates/control/src/jobs.rs. Each request locks the rows that it works on, so that transactions
-- on one job come one after another; a list of commands is such an order.
use hostlet_app.Base.{ℕ, ◌≡◌, subst, true, List, [], ◌∷◌, All, arith, All-map}
use hostlet_app.Base.Text.{Text}
use hostlet_app.Base.Table.{In}
use hostlet_app.Base.Growth.{Grows-In, Grows}
use hostlet_app.Jobs.Model.{JobRow, Database}
use hostlet_app.Jobs.Messages.{
  CreateJobRequest, LeaseRequest, LeaseIdentityRequest, ResolveCredentialsRequest, CompleteRequest,
  Env,
}
use hostlet_app.Jobs.Intent.{Header}
use hostlet_app.Jobs.Store.{is_terminal}
use hostlet_app.Jobs.Reap.{reap_expired}
use hostlet_app.Jobs.Lease.{lease_job, renew_job}
use hostlet_app.Jobs.Complete.{complete_job}
use hostlet_app.Jobs.Credentials.{resolve_credentials}
use hostlet_app.Jobs.Cancel.{Owner, cancel_job}
use hostlet_app.Jobs.Create.{create_job}
use hostlet_app.Jobs.Steps.{JobSteps, Born, SameJob, NoLess, IsSound}
use hostlet_app.Jobs.StepLaws.{JobSteps-SameJob, JobSteps-NoLess, JobSteps-terminal, Born-IsSound}
use hostlet_app.Jobs.Advance.{UniqueIds, Advance, Advance-refl, Advance-trans}
use hostlet_app.Jobs.LeaseSteps.{reap_expired-Advance, lease_job-Advance}
use hostlet_app.Jobs.ReportSteps.{renew_job-Moves, complete_job-Moves}
use hostlet_app.Jobs.OwnerSteps.{cancel_job-Moves, create_job-Moves}

-- A request, with the clock and the fresh identifiers that its transactions see.
pub data Command : Type 0 where
  create : ℕ → ℕ → Owner → Text → Header → CreateJobRequest → Command
  cancel : (ℕ → ℕ) → Owner → Text → Text → Header → Header → Command
  reap : (ℕ → ℕ → ℕ) → (ℕ → ℕ) → Command
  lease : (ℕ → ℕ → ℕ) → (ℕ → ℕ) → ℕ → LeaseRequest → Command
  renew : (ℕ → ℕ) → Text → LeaseIdentityRequest → Command
  resolve : ℕ → Text → ResolveCredentialsRequest → Command
  complete : (ℕ → ℕ) → ℕ → Text → CompleteRequest → Command

unfoldable pub step : Env → Command → Database → Database
step env (create now id o path key request) db = (create_job env now id o path key request db).0
step env (cancel clock o project job key revision) db =
    (cancel_job env clock o project job key revision db).0
step env (reap clock ids) db = (reap_expired env clock ids db).0
step env (lease clock ids attempt request) db = (lease_job env clock ids attempt request db).0
step env (renew clock path request) db = (renew_job env clock path request db).0
step env (resolve now path request) db = (resolve_credentials env now path request db).0
step env (complete clock id path request) db = (complete_job env clock id path request db).0

unfoldable pub run : Env → List Command → Database → Database
unfolding step
run env [] db = db
run env (c ∷ cs) db = run env cs (step env c db)

resolve_credentials-jobs :
    (env : Env) (now : ℕ) (path : Text) (request : ResolveCredentialsRequest) (db : Database)
    → (resolve_credentials env now path request db).0.jobs ≡ db.jobs
unfolding resolve_credentials
resolve_credentials-jobs env now path request db = ground arith

step-Advance : (env : Env) (c : Command) (db : Database) → Advance db.jobs (step env c db).jobs
unfolding step
step-Advance env (create now id o path key request) db =
    (create_job-Moves env now id o path key request db).moves
step-Advance env (cancel clock o project job key revision) db =
    (cancel_job-Moves env clock o project job key revision db).moves
step-Advance env (reap clock ids) db = reap_expired-Advance env clock ids db
step-Advance env (lease clock ids attempt request) db =
    lease_job-Advance env clock ids attempt request db
step-Advance env (renew clock path request) db = (renew_job-Moves env clock path request db).moves
step-Advance env (resolve now path request) db =
    rw (resolve_credentials-jobs env now path request db) (Advance-refl db.jobs)
step-Advance env (complete clock id path request) db =
    λ u. (complete_job-Moves db u env clock id path request).moves u

pub run-Advance :
    (env : Env) (cs : List Command) (db : Database) → Advance db.jobs (run env cs db).jobs
unfolding run
run-Advance env [] db = Advance-refl db.jobs
run-Advance env (c ∷ cs) db =
    Advance-trans db.jobs (step env c db).jobs _ (step-Advance env c db)
      (run-Advance env cs (step env c db))

-- The handlers implement the specification: through any requests in any order, with any clocks and
-- identifiers, from a table whose identifiers are distinct, every job goes on by transitions of
-- `JobStep` alone, no job is lost, every further one comes from an INSERT by such transitions, and
-- identifiers stay distinct.
pub run-refines :
    (env : Env) (cs : List Command) (db : Database)
    → UniqueIds db.jobs
    → UniqueIds (run env cs db).jobs × Grows JobSteps Born db.jobs (run env cs db).jobs
run-refines env cs db u = run-Advance env cs db u

-- From a queue with no job, after any requests, identifiers are distinct and every job satisfies
-- the CHECKs of its table (on its kind, operation, source commit, revision, attempts, fence and
-- lease), has a lease and an attempt while it runs and no lease otherwise, and whenever it waits is
-- one that the query of `lease_job` takes.
pub run-IsSound :
    (env : Env) (cs : List Command) (db : Database)
    → db.jobs ≡ []
    → UniqueIds (run env cs db).jobs × All IsSound (run env cs db).jobs
run-IsSound env cs db empty =
    let (unique, grown) = start in (unique, All-map Born IsSound _ Born-IsSound grown)
  where
    start : UniqueIds (run env cs db).jobs × All Born (run env cs db).jobs
    start = subst (λ js. Advance js (run env cs db).jobs) empty (run-Advance env cs db) tt

-- What becomes of one job.
abbrev pub Later : JobRow → List JobRow → Type 0
Later j ks = (k : JobRow) × In k ks × JobSteps j k

pub run-Later :
    (env : Env) (cs : List Command) (db : Database) (j : JobRow)
    → UniqueIds db.jobs
    → In j db.jobs
    → Later j (run env cs db).jobs
run-Later env cs db j u there =
    Grows-In JobSteps Born db.jobs (run env cs db).jobs j (run-Advance env cs db u).1 there

-- Through any requests a job keeps its identity, scope and source, and its revision, attempts and
-- fence never go back; each new attempt has a new fence.
pub run-monotone :
    (env : Env) (cs : List Command) (db : Database) (j : JobRow)
    → UniqueIds db.jobs
    → In j db.jobs
    → (k : JobRow) × In k (run env cs db).jobs × SameJob j k × NoLess j k
run-monotone env cs db j u there =
    let (k, found, steps) = run-Later env cs db j u there in
    (k, found, JobSteps-SameJob j k steps, JobSteps-NoLess j k steps)

-- A succeeded, failed or canceled job is never changed again by any request.
pub run-terminal :
    (env : Env) (cs : List Command) (db : Database) (j : JobRow)
    → UniqueIds db.jobs
    → In j db.jobs
    → is_terminal j.state ≡ true
    → In j (run env cs db).jobs
run-terminal env cs db j u there over =
    let (k, found, steps) = run-Later env cs db j u there in
    subst (λ l. In l (run env cs db).jobs) (JobSteps-terminal j k over steps) found
