-- ===== src/Jobs/CancelLaws.antt =====
-- `cancel_job` of crates/control/src/jobs.rs sent twice under one idempotency key.
use hostlet_app.Base.{ℕ, ◌≡◌, refl, true, not, some, ◌==◌, subst, arith}
use hostlet_app.Base.Text.{Text}
use hostlet_app.Base.Table.{select, select-some, update_rows}
use hostlet_app.Api.{ok}
use hostlet_app.Jobs.Model.{JobRow, Database}
use hostlet_app.Jobs.Messages.{JobRecord, Env}
use hostlet_app.Jobs.Store.{is_job, is_terminal, load_job, owner_audit}
use hostlet_app.Jobs.Intent.{
  Header, Replay, miss, matched, changed, replay, idempotency_key, if_match_revision,
}
use hostlet_app.Jobs.Cancel.{
  Owner, cancel_row, cancel_attempts, cancel_operation, cancel_found, cancel_checked,
  cancel_replayed, cancel_job,
}
use hostlet_app.Api.Answers.{
  Answers, Answers-err, Answers-ok, Answers-if, Answers-found, Answers-try, Answers-map,
}
use hostlet_app.Jobs.RecordLaws.{KeepsRecords}
use hostlet_app.Jobs.IntentLaws.{replay-KeepsRecords, KeepsAnswer, stored-KeepsAnswer}

is_job-same :
    (id account project : ℕ) (j : JobRow)
    → is_job id account project j ≡ true
    → (j.id ≡ id) × (j.project_id ≡ project)
is_job-same id account project j h = ground arith

module _ (env : Env) where
  cancel_found-KeepsAnswer :
      (clock : ℕ → ℕ) (o : Owner) (key : Text) (j : JobRow) (db : Database)
      → Answers
          (KeepsAnswer env o.account_id
            (cancel_operation env j.project_id j.id)
            key
            env.hash_cancel)
          (cancel_found env clock o key j db)
  unfolding cancel_found
  cancel_found-KeepsAnswer clock o key j db =
      let stopped = cancel_attempts (clock 0) j db in
      let db' = record stopped {
        jobs =
            update_rows (is_job j.id o.account_id j.project_id) (cancel_row (clock 1)) stopped.jobs;
      } in
      Answers-try _ (load_job db' o.account_id j.project_id j.id) db _ λ job _.
        stored-KeepsAnswer env
          (owner_audit o.account_id o.session_id "job.cancel" "job" (some j.id) "succeeded" db') db
          o.account_id (cancel_operation env j.project_id j.id) key env.hash_cancel 200 job

  cancel_checked-KeepsAnswer :
      (clock : ℕ → ℕ) (o : Owner) (key : Text) (expected project id : ℕ) (db : Database)
      → Answers
          (KeepsAnswer env o.account_id (cancel_operation env project id) key env.hash_cancel)
          (cancel_checked env clock o key expected project id db)
  unfolding cancel_checked
  cancel_checked-KeepsAnswer clock o key expected project id db =
      Answers-found _ (select (is_job id o.account_id project) db.jobs) _ _ _ λ j found.
        Answers-if _ (not (j.revision == expected)) _ _ (λ _. Answers-err _ _ _)
          (λ _.
            Answers-if _ (is_terminal j.state) _ _ (λ _. Answers-err _ _ _)
              (λ _.
                let (same_id, same_project) =
                  is_job-same id o.account_id project j (select-some _ db.jobs j found) in
                subst
                  (λ i.
                    Answers
                      (KeepsAnswer env o.account_id (cancel_operation env project i) key
                        env.hash_cancel)
                      (cancel_found env clock o key j db))
                  same_id
                  (subst
                    (λ p.
                      Answers
                        (KeepsAnswer env o.account_id (cancel_operation env p j.id) key
                          env.hash_cancel)
                        (cancel_found env clock o key j db))
                    same_project (cancel_found-KeepsAnswer clock o key j db))))

  cancel_replayed-KeepsAnswer :
      (clock : ℕ → ℕ) (o : Owner) (key : Text) (expected project id : ℕ) (db : Database)
      (r : Replay JobRecord)
      → replay env.parse_job db o.account_id (cancel_operation env project id) key env.hash_cancel
        ≡ ok r
      → Answers
          (KeepsAnswer env o.account_id (cancel_operation env project id) key env.hash_cancel)
          (cancel_replayed env clock o key expected project id db r)
  unfolding cancel_replayed
  cancel_replayed-KeepsAnswer clock o key expected project id db (matched job) e =
      Answers-ok _ db job (λ _. e)
  cancel_replayed-KeepsAnswer clock o key expected project id db changed e = Answers-err _ _ _
  cancel_replayed-KeepsAnswer clock o key expected project id db miss e =
      cancel_checked-KeepsAnswer clock o key expected project id db

  -- The same request again, with any clock, on a later database.
  abbrev pub CancelAgain : Owner → Text → Text → Header → Header → Database → JobRecord → Type 0
  CancelAgain o project_path job_path key_header match_header db job =
      env.parse_job (env.json_job job) ≡ some job
      → (clock : ℕ → ℕ) (later : Database) → KeepsRecords db later
      → cancel_job env clock o project_path job_path key_header match_header later ≡ (later, ok job)

  pub cancel_job-CancelAgain :
      (clock : ℕ → ℕ) (o : Owner) (project_path job_path : Text) (key_header match_header : Header)
      (db : Database)
      → Answers
          (CancelAgain o project_path job_path key_header match_header)
          (cancel_job env clock o project_path job_path key_header match_header db)
  unfolding cancel_job
  cancel_job-CancelAgain clock o project_path job_path key_header match_header db =
      Answers-found _ (env.parse_uuid project_path) _ _ _ λ project a.
        Answers-found _ (env.parse_uuid job_path) _ _ _ λ id b.
          Answers-try _ (idempotency_key key_header) _ _ λ key c.
            Answers-try _ (if_match_revision match_header) _ _ λ expected d.
              Answers-map
                (KeepsAnswer env o.account_id (cancel_operation env project id) key env.hash_cancel)
                _ _
                (λ db' job kept readable clock' later keeps.
                  rw
                    (
                      cancel_job,
                      a,
                      b,
                      c,
                      d,
                      replay-KeepsRecords env.parse_job db' later o.account_id
                          (cancel_operation env project id) key env.hash_cancel job keeps
                          (kept readable),
                    )
                    refl)
                (Answers-try _
                  (replay env.parse_job db o.account_id (cancel_operation env project id) key
                    env.hash_cancel)
                  _ _
                  λ r replayed.
                    cancel_replayed-KeepsAnswer clock o key expected project id db r replayed)
