-- ===== src/Jobs/OwnerRecords.antt =====
-- Owners' requests to crates/control/src/jobs.rs and the answers stored under idempotency keys.
use hostlet_app.Base.{ℕ, ◌≡◌, refl, not, some, List, [], ◌++◌, map, any, ◌==◌, arith}
use hostlet_app.Base.Text.{Text}
use hostlet_app.Base.Table.{select, update_rows}
use hostlet_app.Api.{ok, database_unavailable}
use hostlet_app.Jobs.Model.{JobRow, Database}
use hostlet_app.Jobs.Messages.{CreateJobRequest, JobRecord, Env}
use hostlet_app.Api.Transactions.{found_or}
use hostlet_app.Jobs.Intent.{
  Header, Replay, miss, matched, changed, replay, store_replay, idempotency_key, if_match_revision,
}
use hostlet_app.Jobs.Store.{is_job, is_terminal, load_job, owner_audit}
use hostlet_app.Jobs.Create.{
  ResolvedRef, ref_row, new_job, is_service, resolve_refs, insert_job, create_operation, create_row,
  create_checked, create_replayed, create_inputs, create_job,
}
use hostlet_app.Jobs.Cancel.{
  Owner, cancel_row, cancel_attempts, cancel_operation, cancel_found, cancel_checked,
  cancel_replayed, cancel_job,
}
use hostlet_app.Jobs.RecordLaws.{
  store_replay-KeepsRecords, Keeps, Keeps-stay, Keeps-if, Keeps-found, Keeps-try,
}

-- The end of both handlers: the answer is stored.
stored-Keeps :
    (audited db : Database) (account : ℕ) (operation key hash : Text) (n : ℕ) (body : Text)
    (job : JobRecord)
    → audited.idempotency_records ≡ db.idempotency_records
    → Keeps db (
        found_or
          (store_replay audited account operation key hash n body)
          database_unavailable
          db
          (λ stored. (stored, ok job)))
stored-Keeps audited db account operation key hash n body job same =
    Keeps-found db (store_replay audited account operation key hash n body) _ _ λ stored e. record {
      keeps = store_replay-KeepsRecords audited db stored account operation key hash n body same e;
    }

create_row-Keeps :
    (env : Env) (o : Owner) (key : Text) (request : CreateJobRequest) (j : JobRow)
    (refs : List ResolvedRef) (db : Database)
    → Keeps db (create_row env o key request j refs db)
unfolding create_row
create_row-Keeps env o key request j refs db = Keeps-found db (insert_job j db.jobs) _ _ λ jobs _.
    let db' = record db { jobs = jobs; secret_refs = db.secret_refs ++ map (ref_row j) refs } in
    Keeps-try db (load_job db' j.account_id j.project_id j.id) _ λ job.
      stored-Keeps
        (owner_audit o.account_id o.session_id "job.create" "job" (some j.id) "succeeded" db') db
        o.account_id (create_operation env j.project_id) key (env.hash_create request) 201
        (env.json_job job) job refl

create_replayed-Keeps :
    (env : Env) (now id : ℕ) (o : Owner) (key : Text) (request : CreateJobRequest)
    (project service : ℕ) (db : Database) (r : Replay JobRecord)
    → Keeps db (create_replayed env now id o key request project service db r)
unfolding create_replayed create_checked
create_replayed-Keeps env now id o key request project service db (matched job) =
    Keeps-stay db _ refl
create_replayed-Keeps env now id o key request project service db changed = Keeps-stay db _ refl
create_replayed-Keeps env now id o key request project service db miss =
    Keeps-if db (not (any (is_service o.account_id project service) db.services)) _ _
      (Keeps-stay db _ refl)
      (Keeps-try db
        (resolve_refs env db o.account_id project service [] request.secret_version_refs) _
        λ refs.
          create_row-Keeps env o key request
            (new_job id o.account_id project service request.source_commit now) refs db)

pub create_job-Keeps :
    (env : Env) (now id : ℕ) (o : Owner) (path : Text) (key_header : Header)
    (request : CreateJobRequest) (db : Database)
    → Keeps db (create_job env now id o path key_header request db)
unfolding create_job
create_job-Keeps env now id o path key_header request db =
    Keeps-try db (create_inputs env path key_header request) _ λ inputs.
      let (project, service, key) = inputs in
      Keeps-try db
        (replay env.parse_job db o.account_id (create_operation env project) key
          (env.hash_create request))
        _ λ r. create_replayed-Keeps env now id o key request project service db r

cancel_attempts-records :
    (now : ℕ) (j : JobRow) (db : Database)
    → (cancel_attempts now j db).idempotency_records ≡ db.idempotency_records
cancel_attempts-records now j db = ground arith

cancel_found-Keeps :
    (env : Env) (clock : ℕ → ℕ) (o : Owner) (key : Text) (j : JobRow) (db : Database)
    → Keeps db (cancel_found env clock o key j db)
unfolding cancel_found
cancel_found-Keeps env clock o key j db =
    let stopped = cancel_attempts (clock 0) j db in
    let db' = record stopped {
      jobs =
          update_rows (is_job j.id o.account_id j.project_id) (cancel_row (clock 1)) stopped.jobs;
    } in
    Keeps-try db (load_job db' o.account_id j.project_id j.id) _ λ job.
      stored-Keeps
        (owner_audit o.account_id o.session_id "job.cancel" "job" (some j.id) "succeeded" db') db
        o.account_id (cancel_operation env j.project_id j.id) key env.hash_cancel 200
        (env.json_job job) job (cancel_attempts-records (clock 0) j db)

cancel_replayed-Keeps :
    (env : Env) (clock : ℕ → ℕ) (o : Owner) (key : Text) (expected project id : ℕ) (db : Database)
    (r : Replay JobRecord)
    → Keeps db (cancel_replayed env clock o key expected project id db r)
unfolding cancel_replayed cancel_checked
cancel_replayed-Keeps env clock o key expected project id db (matched job) = Keeps-stay db _ refl
cancel_replayed-Keeps env clock o key expected project id db changed = Keeps-stay db _ refl
cancel_replayed-Keeps env clock o key expected project id db miss =
    Keeps-found db (select (is_job id o.account_id project) db.jobs) _ _ λ j _.
      Keeps-if db (not (j.revision == expected)) _ _ (Keeps-stay db _ refl) (
        Keeps-if db (is_terminal j.state) _ _ (Keeps-stay db _ refl)
          (cancel_found-Keeps env clock o key j db))

pub cancel_job-Keeps :
    (env : Env) (clock : ℕ → ℕ) (o : Owner) (project_path job_path : Text)
    (key_header match_header : Header) (db : Database)
    → Keeps db (cancel_job env clock o project_path job_path key_header match_header db)
unfolding cancel_job
cancel_job-Keeps env clock o project_path job_path key_header match_header db =
    Keeps-found db (env.parse_uuid project_path) _ _ λ project _.
      Keeps-found db (env.parse_uuid job_path) _ _ λ id _.
        Keeps-try db (idempotency_key key_header) _ λ key.
          Keeps-try db (if_match_revision match_header) _ λ expected.
            Keeps-try db
              (replay env.parse_job db o.account_id (cancel_operation env project id) key
                env.hash_cancel)
              _ λ r. cancel_replayed-Keeps env clock o key expected project id db r
