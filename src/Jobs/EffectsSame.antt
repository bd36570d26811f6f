-- ===== src/Jobs/EffectsSame.antt =====
-- The requests to crates/control/src/jobs.rs that do not touch the effects of jobs.
use hostlet_app.Base.{ℕ, ◌≡◌, refl, Option, none, some, List, arith}
use hostlet_app.Base.Text.{Text}
use hostlet_app.Jobs.Model.{JobRow, AttemptRow, Database}
use hostlet_app.Jobs.Messages.{
  LeaseIdentityRequest, ResolveCredentialsRequest, CreateJobRequest, Env,
}
use hostlet_app.Jobs.Intent.{Header, store_replay}
use hostlet_app.Jobs.Lease.{renew_job, renew_found, renew_locked}
use hostlet_app.Jobs.Credentials.{resolve_credentials}
use hostlet_app.Jobs.Create.{ResolvedRef, create_row, create_checked, create_replayed, create_job}
use hostlet_app.Jobs.Cancel.{Owner, cancel_found, cancel_checked, cancel_replayed, cancel_job}

renew_locked-effects :
    (env : Env) (clock : ℕ → ℕ) (id : ℕ) (request : LeaseIdentityRequest) (db : Database)
    (r : Option (JobRow × AttemptRow))
    → (renew_locked env clock id request db r).0.effects ≡ db.effects
unfolding renew_locked
renew_locked-effects env clock id request db none = refl
renew_locked-effects env clock id request db (some (j, a)) = ground arith

pub renew_job-effects :
    (env : Env) (clock : ℕ → ℕ) (path : Text) (request : LeaseIdentityRequest) (db : Database)
    → (renew_job env clock path request db).0.effects ≡ db.effects
unfolding renew_job renew_found
renew_job-effects env clock path request db = ground (arith, renew_locked-effects env clock)

pub resolve_credentials-effects :
    (env : Env) (now : ℕ) (path : Text) (request : ResolveCredentialsRequest) (db : Database)
    → (resolve_credentials env now path request db).0.effects ≡ db.effects
unfolding resolve_credentials
resolve_credentials-effects env now path request db = ground arith

create_row-effects :
    (env : Env) (o : Owner) (key : Text) (request : CreateJobRequest) (j : JobRow)
    (refs : List ResolvedRef) (db : Database)
    → (create_row env o key request j refs db).0.effects ≡ db.effects
unfolding create_row store_replay
create_row-effects env o key request j refs db = ground arith

pub create_job-effects :
    (env : Env) (now id : ℕ) (o : Owner) (path : Text) (key_header : Header)
    (request : CreateJobRequest) (db : Database)
    → (create_job env now id o path key_header request db).0.effects ≡ db.effects
unfolding create_job create_replayed create_checked
create_job-effects env now id o path key_header request db =
    ground (arith, create_row-effects env o)

cancel_found-effects :
    (env : Env) (clock : ℕ → ℕ) (o : Owner) (key : Text) (j : JobRow) (db : Database)
    → (cancel_found env clock o key j db).0.effects ≡ db.effects
unfolding cancel_found store_replay
cancel_found-effects env clock o key j db = ground arith

pub cancel_job-effects :
    (env : Env) (clock : ℕ → ℕ) (o : Owner) (project_path job_path : Text)
    (key_header match_header : Header) (db : Database)
    → (cancel_job env clock o project_path job_path key_header match_header db).0.effects
      ≡ db.effects
unfolding cancel_job cancel_replayed cancel_checked
cancel_job-effects env clock o project_path job_path key_header match_header db =
    ground (arith, cancel_found-effects env clock o)
