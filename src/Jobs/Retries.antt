-- ===== src/Jobs/Retries.antt =====
-- Owners' requests to crates/control/src/jobs.rs that are sent again later, under the same key.
use hostlet_app.Base.{ℕ, ◌≡◌, refl, some, List, [], ◌∷◌}
use hostlet_app.Base.Text.{Text}
use hostlet_app.Api.{ok}
use hostlet_app.Jobs.Model.{Database}
use hostlet_app.Jobs.Messages.{CreateJobRequest, JobRecord, Env}
use hostlet_app.Jobs.Intent.{Header}
use hostlet_app.Jobs.Create.{create_job}
use hostlet_app.Jobs.Cancel.{Owner, cancel_job}
use hostlet_app.Jobs.Machine.{
  Command, create, cancel, reap, lease, renew, resolve, complete, step, run,
}
use hostlet_app.Jobs.RecordLaws.{KeepsRecords, same-KeepsRecords, KeepsRecords-trans}
use hostlet_app.Jobs.WorkerRecords.{
  renew_job-records, complete_job-records, resolve_credentials-records, reap_expired-records,
  lease_job-records,
}
use hostlet_app.Jobs.OwnerRecords.{create_job-Keeps, cancel_job-Keeps}
use hostlet_app.Jobs.CreateLaws.{create_job-CreateAgain}
use hostlet_app.Jobs.CancelLaws.{cancel_job-CancelAgain}

step-KeepsRecords : (env : Env) (c : Command) (db : Database) → KeepsRecords db (step env c db)
unfolding step
step-KeepsRecords env (create now id o path key request) db =
    (create_job-Keeps env now id o path key request db).keeps
step-KeepsRecords env (cancel clock o project job key revision) db =
    (cancel_job-Keeps env clock o project job key revision db).keeps
step-KeepsRecords env (reap clock ids) db =
    same-KeepsRecords db _ (reap_expired-records env clock ids db)
step-KeepsRecords env (lease clock ids attempt request) db =
    same-KeepsRecords db _ (lease_job-records env clock ids attempt request db)
step-KeepsRecords env (renew clock path request) db =
    same-KeepsRecords db _ (renew_job-records env clock path request db)
step-KeepsRecords env (resolve now path request) db =
    same-KeepsRecords db _ (resolve_credentials-records env now path request db)
step-KeepsRecords env (complete clock id path request) db =
    same-KeepsRecords db _ (complete_job-records env clock id path request db)

pub run-KeepsRecords :
    (env : Env) (cs : List Command) (db : Database) → KeepsRecords db (run env cs db)
unfolding run
run-KeepsRecords env [] db = same-KeepsRecords db db refl
run-KeepsRecords env (c ∷ cs) db =
    KeepsRecords-trans db (step env c db) (run env cs (step env c db)) (step-KeepsRecords env c db)
      (run-KeepsRecords env cs (step env c db))

-- Where the answer's JSON is read back as it was: a request to create a job that was answered and
-- that is sent again with the same key, path and body, after any further requests of anybody and
-- whatever the clock and the fresh identifier, has the same answer and changes nothing.
pub create_job-run :
    (env : Env) (cs : List Command) (now id now' id' : ℕ) (o : Owner) (path : Text)
    (key_header : Header) (request : CreateJobRequest) (db db' : Database) (job : JobRecord)
    → env.parse_job (env.json_job job) ≡ some job
    → create_job env now id o path key_header request db ≡ (db', ok job)
    → create_job env now' id' o path key_header request (run env cs db') ≡ (run env cs db', ok job)
create_job-run env cs now id now' id' o path key_header request db db' job readable answered =
    (create_job-CreateAgain env now id o path key_header request db).answers db' job answered
      readable now' id' (run env cs db') (run-KeepsRecords env cs db')

-- Where the answer's JSON is read back as it was: a cancellation that was answered and that is sent
-- again with the same key and If-Match, after any further requests of anybody and whatever the clock,
-- has the same answer and changes nothing.
pub cancel_job-run :
    (env : Env) (cs : List Command) (clock clock' : ℕ → ℕ) (o : Owner)
    (project_path job_path : Text) (key_header match_header : Header) (db db' : Database)
    (job : JobRecord)
    → env.parse_job (env.json_job job) ≡ some job
    → cancel_job env clock o project_path job_path key_header match_header db ≡ (db', ok job)
    → cancel_job env clock' o project_path job_path key_header match_header (run env cs db')
      ≡ (run env cs db', ok job)
cancel_job-run env cs clock clock' o project_path job_path key_header match_header db db' job
      readable answered =
    (cancel_job-CancelAgain env clock o project_path job_path key_header match_header db).answers
      db' job answered readable clock' (run env cs db') (run-KeepsRecords env cs db')
