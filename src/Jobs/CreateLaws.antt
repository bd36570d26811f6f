-- ===== src/Jobs/CreateLaws.antt =====
-- `create_job` of crates/control/src/jobs.rs sent twice under one idempotency key.
use hostlet_app.Base.{ℕ, ◌≡◌, refl, not, some, List, [], ◌++◌, map, any}
use hostlet_app.Base.Text.{Text}
use hostlet_app.Api.{ok}
use hostlet_app.Jobs.Store.{load_job, owner_audit}
use hostlet_app.Jobs.Model.{JobRow, Database}
use hostlet_app.Jobs.Create.{
  insert_job, ResolvedRef, ref_row, new_job, is_service, resolve_refs, create_operation, create_row,
  create_checked, create_replayed, create_inputs, create_job,
}
use hostlet_app.Jobs.Messages.{CreateJobRequest, JobRecord, Env}
use hostlet_app.Jobs.Intent.{Header, Replay, miss, matched, changed, replay}
use hostlet_app.Jobs.Cancel.{Owner}
use hostlet_app.Jobs.RecordLaws.{KeepsRecords}
use hostlet_app.Api.Answers.{
  Answers, Answers-err, Answers-ok, Answers-if, Answers-found, Answers-try, Answers-map,
}
use hostlet_app.Jobs.IntentLaws.{replay-KeepsRecords, KeepsAnswer, stored-KeepsAnswer}

module _ (env : Env) where
  create_row-KeepsAnswer :
      (o : Owner) (key : Text) (request : CreateJobRequest) (j : JobRow) (refs : List ResolvedRef)
      (db : Database)
      → Answers
          (KeepsAnswer env o.account_id
            (create_operation env j.project_id)
            key
            (env.hash_create request))
          (create_row env o key request j refs db)
  unfolding create_row
  create_row-KeepsAnswer o key request j refs db =
      Answers-found _ (insert_job j db.jobs) _ _ _ λ jobs _.
        let db' = record db { jobs = jobs; secret_refs = db.secret_refs ++ map (ref_row j) refs } in
        Answers-try _ (load_job db' j.account_id j.project_id j.id) db _ λ job _.
          stored-KeepsAnswer env
            (owner_audit o.account_id o.session_id "job.create" "job" (some j.id) "succeeded" db')
            db o.account_id (create_operation env j.project_id) key (env.hash_create request) 201
            job

  create_checked-KeepsAnswer :
      (now id : ℕ) (o : Owner) (key : Text) (request : CreateJobRequest) (project service : ℕ)
      (db : Database)
      → Answers
          (KeepsAnswer env o.account_id
            (create_operation env project)
            key
            (env.hash_create request))
          (create_checked env now id o key request project service db)
  unfolding create_checked new_job
  create_checked-KeepsAnswer now id o key request project service db =
      Answers-if _ (not (any (is_service o.account_id project service) db.services)) _ _
        (λ _. Answers-err _ _ _)
        (λ _.
          Answers-try _
            (resolve_refs env db o.account_id project service [] request.secret_version_refs) _ _
            λ refs _.
              create_row-KeepsAnswer o key request
                (new_job id o.account_id project service request.source_commit now) refs db)

  create_replayed-KeepsAnswer :
      (now id : ℕ) (o : Owner) (key : Text) (request : CreateJobRequest) (project service : ℕ)
      (db : Database) (r : Replay JobRecord)
      → replay env.parse_job db o.account_id
          (create_operation env project)
          key
          (env.hash_create request)
        ≡ ok r
      → Answers
          (KeepsAnswer env o.account_id
            (create_operation env project)
            key
            (env.hash_create request))
          (create_replayed env now id o key request project service db r)
  unfolding create_replayed
  create_replayed-KeepsAnswer now id o key request project service db (matched job) e =
      Answers-ok _ db job (λ _. e)
  create_replayed-KeepsAnswer now id o key request project service db changed e = Answers-err _ _ _
  create_replayed-KeepsAnswer now id o key request project service db miss e =
      create_checked-KeepsAnswer now id o key request project service db

  -- The same request again, with any clock and any fresh identifier, on a later database.
  abbrev pub CreateAgain : Owner → Text → Header → CreateJobRequest → Database → JobRecord → Type 0
  CreateAgain o path key_header request db job =
      env.parse_job (env.json_job job) ≡ some job
      → (now id : ℕ) (later : Database) → KeepsRecords db later
      → create_job env now id o path key_header request later ≡ (later, ok job)

  pub create_job-CreateAgain :
      (now id : ℕ) (o : Owner) (path : Text) (key_header : Header) (request : CreateJobRequest)
      (db : Database)
      → Answers
          (CreateAgain o path key_header request)
          (create_job env now id o path key_header request db)
  unfolding create_job
  create_job-CreateAgain now id o path key_header request db =
      Answers-try _ (create_inputs env path key_header request) _ _ λ inputs e.
        let (project, service, key) = inputs in
        Answers-map
          (KeepsAnswer env o.account_id (create_operation env project) key
            (env.hash_create request))
          _ _
          (λ db' job kept readable now' id' later keeps.
            rw
              (
                create_job,
                e,
                replay-KeepsRecords env.parse_job db' later o.account_id
                    (create_operation env project) key (env.hash_create request) job keeps
                    (kept readable),
              )
              refl)
          (Answers-try _
            (replay env.parse_job db o.account_id (create_operation env project) key
              (env.hash_create request))
            _ _
            λ r replayed.
              create_replayed-KeepsAnswer now id o key request project service db r replayed)
