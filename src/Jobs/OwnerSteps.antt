-- ===== src/Jobs/OwnerSteps.antt =====
-- The owner's handlers of crates/control/src/jobs.rs, cancellation and creation, move jobs by the
-- transitions of the specification.
use hostlet_app.Base.{
  ℕ, ◌≡◌, refl, ◌⊎◌, inl, inr, false, some, List, ◌∷◌, [], ◌++◌, any, ◌==◌, arith, Bool-cases,
}
use hostlet_app.Base.Text.{Text}
use hostlet_app.Base.Table.{update_rows, select, select-In}
use hostlet_app.Jobs.Model.{JobRow, Database}
use hostlet_app.Jobs.Messages.{JobRecord, CreateJobRequest, Env}
use hostlet_app.Jobs.Intent.{
  replay, idempotency_key, if_match_revision, Header, Replay, miss, matched, changed,
}
use hostlet_app.Jobs.Store.{is_job, is_terminal}
use hostlet_app.Jobs.Steps.{cancels, IsNew, IsCommit}
use hostlet_app.Jobs.CommitLaws.{valid_source_commit-IsCommit}
use hostlet_app.Api.{ApiError, Result, ok, err, ◌>>=◌, ◌>>◌, guard}
use hostlet_app.Base.{Bool, true}
use hostlet_app.Base.Text.{text_eq}
use hostlet_app.Jobs.Checks.{job_kind, job_operation, valid_source_commit}
use hostlet_app.Jobs.Advance.{Moves, Moves-stay, Moves-found, Moves-try, is_job-id, insert-Advance}
use hostlet_app.Jobs.LeaseSteps.{Advance-cases}
use hostlet_app.Jobs.Cancel.{
  Owner, cancel_job, cancel_replayed, cancel_checked, cancel_found, cancel_row,
}
use hostlet_app.Jobs.Create.{
  check_request, create_inputs, create_operation, is_service, resolve_refs, ResolvedRef, create_job,
  create_replayed, create_checked, create_row, insert_job, new_job,
}

cancel_found-jobs :
    (env : Env) (clock : ℕ → ℕ) (o : Owner) (key : Text) (j : JobRow) (db : Database)
    → ((cancel_found env clock o key j db).0.jobs ≡ db.jobs)
      ⊎ ((cancel_found env clock o key j db).0.jobs
          ≡ update_rows (is_job j.id o.account_id j.project_id) (cancel_row (clock 1)) db.jobs)
unfolding cancel_found
cancel_found-jobs env clock o key j db = ground arith

cancel_checked-Moves :
    (env : Env) (clock : ℕ → ℕ) (o : Owner) (key : Text) (expected project id : ℕ) (db : Database)
    → Moves db (cancel_checked env clock o key expected project id db)
unfolding cancel_checked cancel_row
cancel_checked-Moves env clock o key expected project id db =
    Moves-found db (select (is_job id o.account_id project) db.jobs) _ _ λ j e.
      elim (Bool-cases (j.revision == expected)) [
        | inr stale ↦ rw stale (Moves-stay db _ refl)
        | inl current ↦ elim (Bool-cases (is_terminal j.state)) [
          | inl over ↦ rw (current, over) (Moves-stay db _ refl)
          | inr alive ↦
              rw (current, alive)
                (record {
                  moves =
                      Advance-cases db.jobs _ _ _ j (cancel_found-jobs env clock o key j db)
                        (select-In (is_job id o.account_id project) db.jobs j e)
                        (is_job-id j.id o.account_id j.project_id) (λ k. refl)
                        (cancels (clock 1) alive refl);
                })
        ]
      ]

cancel_replayed-Moves :
    (env : Env) (clock : ℕ → ℕ) (o : Owner) (key : Text) (expected project id : ℕ) (db : Database)
    (r : Replay JobRecord)
    → Moves db (cancel_replayed env clock o key expected project id db r)
unfolding cancel_replayed
cancel_replayed-Moves env clock o key expected project id db (matched job) = Moves-stay db _ refl
cancel_replayed-Moves env clock o key expected project id db changed = Moves-stay db _ refl
cancel_replayed-Moves env clock o key expected project id db miss =
    cancel_checked-Moves env clock o key expected project id db

pub cancel_job-Moves :
    (env : Env) (clock : ℕ → ℕ) (o : Owner) (project_path job_path : Text)
    (key_header match_header : Header) (db : Database)
    → Moves db (cancel_job env clock o project_path job_path key_header match_header db)
unfolding cancel_job
cancel_job-Moves env clock o project_path job_path key_header match_header db =
    Moves-found db (env.parse_uuid project_path) _ _ λ project _.
      Moves-found db (env.parse_uuid job_path) _ _ λ id _.
        Moves-try db (idempotency_key key_header) _ λ key _.
          Moves-try db (if_match_revision match_header) _ λ expected _.
            Moves-try db _ _ λ r _. cancel_replayed-Moves env clock o key expected project id db r

-- An INSERT that is accepted adds the one job, whose identifier is new.
insert_job-append :
    (j : JobRow) (js ks : List JobRow)
    → insert_job j js ≡ some ks
    → (ks ≡ js ++ j ∷ []) × (any (λ k. k.id == j.id) js ≡ false)
unfolding insert_job
insert_job-append j js ks h = ground arith

new_job-IsNew :
    (id account project service : ℕ) (commit : Text) (now : ℕ)
    → IsCommit commit
    → IsNew (new_job id account project service commit now)
unfolding new_job
new_job-IsNew id account project service commit now valid = record {
  queued = refl;
  first_revision = refl;
  no_attempt = refl;
  three_attempts = refl;
  no_holder = refl;
  no_fence = refl;
  no_lease = refl;
  bookkeeping = refl;
  building = refl;
  commit = valid;
}

guard-passed :
    {X : Type 0} (c : Bool) (e : ApiError) (k : Result X) (x : X)
    → (guard c e >> k) ≡ ok x
    → (c ≡ true) × (k ≡ ok x)
guard-passed true e k x h = (refl, h)
guard-passed false e k x h = cc

first-passed :
    {X Y : Type 0} (r : Result X) (k : X → Result Y) (y : Y)
    → (r >>= k) ≡ ok y
    → (x : X) × (r ≡ ok x)
first-passed (ok x) k y h = (x, refl)
first-passed (err e) k y h = absurd (refused h)
  where
    refused : {Y : Type 0} {e : ApiError} {y : Y} → ◌≡◌ {A = Result Y} (err e) (ok y) → ⊥
    refused h = cc

-- A request that is let through has a commit that the table accepts.
check_request-IsCommit :
    (r : CreateJobRequest) (u : Unit {0}) → check_request r ≡ ok u → IsCommit r.source_commit
unfolding check_request
check_request-IsCommit r u h =
    let (_, after_kind) = guard-passed (text_eq r.kind job_kind) _ _ u h in
    let (_, after_operation) = guard-passed (text_eq r.operation job_operation) _ _ u after_kind in
    let (valid, _) = guard-passed (valid_source_commit r.source_commit) _ _ u after_operation in
    valid_source_commit-IsCommit r.source_commit valid

create_inputs-IsCommit :
    (env : Env) (project_path : Text) (key_header : Header) (request : CreateJobRequest)
    (inputs : ℕ × ℕ × Text)
    → create_inputs env project_path key_header request ≡ ok inputs
    → IsCommit request.source_commit
unfolding create_inputs
create_inputs-IsCommit env project_path key_header request inputs h =
    let (u, passed) = first-passed (check_request request) _ inputs h in
    check_request-IsCommit request u passed

create_row-jobs :
    (env : Env) (o : Owner) (key : Text) (request : CreateJobRequest) (j : JobRow)
    (refs : List ResolvedRef) (db : Database)
    → ((create_row env o key request j refs db).0.jobs ≡ db.jobs)
      ⊎ (insert_job j db.jobs ≡ some ((create_row env o key request j refs db).0.jobs))
unfolding create_row
create_row-jobs env o key request j refs db = ground arith

create_row-Moves :
    (env : Env) (o : Owner) (key : Text) (request : CreateJobRequest) (j : JobRow)
    (refs : List ResolvedRef) (db : Database)
    → IsNew j
    → Moves db (create_row env o key request j refs db)
create_row-Moves env o key request j refs db new =
    elim (create_row-jobs env o key request j refs db) [
      | inl e ↦ Moves-stay db _ e
      | inr e ↦
          let (added, fresh) =
            insert_job-append j db.jobs (create_row env o key request j refs db).0.jobs e in
          record { moves = rw added (insert-Advance db.jobs j new fresh) }
    ]

create_checked-Moves :
    (env : Env) (now id : ℕ) (o : Owner) (key : Text) (request : CreateJobRequest)
    (project service : ℕ) (db : Database)
    → IsCommit request.source_commit
    → Moves db (create_checked env now id o key request project service db)
unfolding create_checked
create_checked-Moves env now id o key request project service db valid =
    elim (Bool-cases (any (is_service o.account_id project service) db.services)) [
      | inr denied ↦ rw denied (Moves-stay db _ refl)
      | inl owned ↦ rw owned (
          Moves-try db
            (resolve_refs env db o.account_id project service [] request.secret_version_refs) _
            (λ refs _.
              create_row-Moves env o key request
                (new_job id o.account_id project service request.source_commit now) refs db
                (new_job-IsNew id o.account_id project service request.source_commit now valid)))
    ]

create_replayed-Moves :
    (env : Env) (now id : ℕ) (o : Owner) (key : Text) (request : CreateJobRequest)
    (project service : ℕ) (db : Database) (r : Replay JobRecord)
    → IsCommit request.source_commit
    → Moves db (create_replayed env now id o key request project service db r)
unfolding create_replayed
create_replayed-Moves env now id o key request project service db (matched job) valid =
    Moves-stay db _ refl
create_replayed-Moves env now id o key request project service db changed valid =
    Moves-stay db _ refl
create_replayed-Moves env now id o key request project service db miss valid =
    create_checked-Moves env now id o key request project service db valid

pub create_job-Moves :
    (env : Env) (now id : ℕ) (o : Owner) (project_path : Text) (key_header : Header)
    (request : CreateJobRequest) (db : Database)
    → Moves db (create_job env now id o project_path key_header request db)
unfolding create_job
create_job-Moves env now id o project_path key_header request db =
    Moves-try db (create_inputs env project_path key_header request) _ λ inputs passed.
      let (project, service, key) = inputs in
      Moves-try db
        (replay env.parse_job db o.account_id (create_operation env project) key
          (env.hash_create request))
        _
        λ r _.
          create_replayed-Moves env now id o key request project service db r
            (create_inputs-IsCommit env project_path key_header request inputs passed)
