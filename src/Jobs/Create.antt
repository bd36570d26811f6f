-- ===== src/Jobs/Create.antt =====
-- `create_job` of crates/control/src/jobs.rs: an owner queues a job that binds secret versions.
use hostlet_app.Base.{
  ℕ, Bool, not, ◌&&◌, ◌||◌, Option, none, some, List, [], ◌∷◌, ◌++◌, any, map, ltb, ◌==◌,
  if◌then◌else◌, length,
}
use hostlet_app.Base.Text.{Text, codes, text_eq}
use hostlet_app.Base.Table.{select}
use hostlet_app.Api.{
  Result, ok, err, ◌>>=◌, ◌>>◌, guard, bad_request, conflict, unprocessable, not_found,
  database_unavailable,
}
use hostlet_app.Jobs.Model.{
  JobState, JobRow, SecretRefRow, SecretRow, SecretVersionRow, ServiceRow, Database,
}
use hostlet_app.Jobs.Messages.{SecretVersionReference, JobRecord, CreateJobRequest, Env}
use hostlet_app.Api.Transactions.{try_ok, found_or}
use hostlet_app.Jobs.Checks.{Tx, job_kind, job_operation, max_secret_refs, valid_source_commit}
use hostlet_app.Jobs.Intent.{
  Header, idempotency_key, replay, Replay, miss, matched, changed, store_replay,
}
use hostlet_app.Jobs.Cancel.{Owner}
use hostlet_app.Jobs.Store.{load_job, owner_audit}

unfoldable pub check_request : CreateJobRequest → Result (Unit {0})
unfolding text_eq
check_request r = do
  guard (text_eq r.kind job_kind) (unprocessable "unsupported_job_kind")
  guard (text_eq r.operation job_operation) (unprocessable "unsupported_job_operation")
  guard (valid_source_commit r.source_commit) (unprocessable "invalid_source_commit")
  guard (not (ltb max_secret_refs (length r.secret_version_refs)))
      (unprocessable "too_many_secret_references")

abbrev parse : Env → Text → Result ℕ
parse env path = elim (env.parse_uuid path) [
  | none ↦ err (bad_request "invalid_id")
  | some id ↦ ok id
]

-- A secret version that a job will bind.
pub record ResolvedRef : Type 0 where
  pub secret_id : ℕ
  pub version_id : ℕ
  pub credential_kind : Text

abbrev member : ℕ → List ℕ → Bool
member n ns = any (λ m. m == n) ns

abbrev in_scope_version : ℕ → ℕ → ℕ → ℕ → SecretVersionRow → Bool
in_scope_version account project service version v =
    v.account_id == account
    && (v.project_id == project && (v.service_id == service && v.id == version))

abbrev secret_of : SecretVersionRow → SecretRow → Bool
secret_of v s =
    s.account_id == v.account_id
    && (s.project_id == v.project_id
        && (s.service_id == v.service_id && (s.id == v.secret_id && s.active)))

-- The active secret of a version, by the join of the two tables.
unfoldable pub secret_metadata : Database → ℕ → ℕ → ℕ → ℕ → Option SecretRow
secret_metadata db account project service version =
    elim (select (in_scope_version account project service version) db.secret_versions) [
      | none ↦ none
      | some v ↦ select (secret_of v) db.secrets
    ]

abbrev pub build_credential : Text → Bool
build_credential kind =
    text_eq kind (codes "source_repository_read") || text_eq kind (codes "build_environment")

check_secret : Option SecretRow → List ℕ → ℕ → Result ResolvedRef
check_secret none seen version = err not_found
check_secret (some s) seen version = do
  guard (not (member s.id seen)) (unprocessable "duplicate_secret_definition")
  guard (text_eq s.operation job_operation) (unprocessable "secret_operation_mismatch")
  guard (build_credential s.credential_kind) (unprocessable "credential_kind_not_allowed")
  ok (record { secret_id = s.id; version_id = version; credential_kind = s.credential_kind })

resolve_ref :
    Env → Database → ℕ → ℕ → ℕ → List ResolvedRef → SecretVersionReference → Result ResolvedRef
unfolding check_secret secret_metadata
resolve_ref env db account project service done r = do
  owner ← parse env r.service_id
  version ← parse env r.secret_version_id
  guard (owner == service && not (member version (map (λ d. d.version_id) done)))
      (unprocessable "invalid_secret_reference")
  check_secret (secret_metadata db account project service version) (map (λ d. d.secret_id) done)
      version

-- The loop over the references. `done` holds those that passed, in order: its versions are the
-- code's `seen_versions`, its secrets `seen_secrets`.
unfoldable pub resolve_refs :
    Env
    → Database
    → ℕ
    → ℕ
    → ℕ
    → List ResolvedRef
    → List SecretVersionReference
    → Result (List ResolvedRef)
unfolding resolve_ref
resolve_refs env db account project service done [] = ok done
resolve_refs env db account project service done (r ∷ rs) =
    elim (resolve_ref env db account project service done r) [
      | err e ↦ err e
      | ok d ↦ resolve_refs env db account project service (done ++ d ∷ []) rs
    ]

-- INSERT INTO jobs, with the table's defaults; `now` is the transaction's time.
unfoldable pub new_job : ℕ → ℕ → ℕ → ℕ → Text → ℕ → JobRow
new_job id account project service commit now = record {
  id = id;
  account_id = account;
  project_id = project;
  service_id = service;
  kind = job_kind;
  operation = job_operation;
  source_commit = commit;
  state = JobState.queued;
  revision = 1;
  attempt_count = 0;
  max_attempts = 3;
  current_attempt_id = none;
  current_fence = 0;
  lease_expires_at = none;
  created_at = now;
  updated_at = now;
}

abbrev pub ref_row : JobRow → ResolvedRef → SecretRefRow
ref_row j r = record {
  account_id = j.account_id;
  project_id = j.project_id;
  service_id = j.service_id;
  job_id = j.id;
  secret_id = r.secret_id;
  secret_version_id = r.version_id;
  operation = job_operation;
  credential_kind = r.credential_kind;
}

unfoldable pub insert_job : JobRow → List JobRow → Option (List JobRow)
insert_job j js = if any (λ k. k.id == j.id) js then none else some (js ++ j ∷ [])

abbrev pub create_operation : Env → ℕ → Text
create_operation env project = codes "job.create/" ++ env.uuid_text project

-- The inserts, the answer, its audit and its record under the key.
unfoldable pub create_row :
    Env → Owner → Text → CreateJobRequest → JobRow → List ResolvedRef → Database → Tx JobRecord
unfolding insert_job load_job store_replay
create_row env o key request j refs db =
    found_or (insert_job j db.jobs) database_unavailable db (λ jobs.
      let db' = record db { jobs = jobs; secret_refs = db.secret_refs ++ map (ref_row j) refs } in
      try_ok (load_job db' j.account_id j.project_id j.id) db (λ job.
        found_or
          (store_replay
            (owner_audit o.account_id o.session_id "job.create" "job" (some j.id) "succeeded" db')
            o.account_id (create_operation env j.project_id) key (env.hash_create request) 201
            (env.json_job job))
          database_unavailable db (λ stored. (stored, ok job))))

abbrev pub is_service : ℕ → ℕ → ℕ → ServiceRow → Bool
is_service account project id s = s.account_id == account && (s.project_id == project && s.id == id)

-- A service of somebody else is reported as not found, and the refusal is audited.
unfoldable pub create_checked :
    Env → ℕ → ℕ → Owner → Text → CreateJobRequest → ℕ → ℕ → Database → Tx JobRecord
unfolding create_row new_job
create_checked env now id o key request project service db =
    if not (any (is_service o.account_id project service) db.services)
    then (
      owner_audit o.account_id o.session_id "job.create" "service" (some service) "denied" db,
      err not_found,
    )
    else try_ok (resolve_refs env db o.account_id project service [] request.secret_version_refs) db
        (λ refs.
          create_row env o key request
            (new_job id o.account_id project service request.source_commit now) refs db)

unfoldable pub create_replayed :
    Env
    → ℕ
    → ℕ
    → Owner
    → Text
    → CreateJobRequest
    → ℕ
    → ℕ
    → Database
    → Replay JobRecord
    → Tx JobRecord
unfolding create_checked
create_replayed env now id o key request project service db (matched job) = (db, ok job)
create_replayed env now id o key request project service db changed = (
  owner_audit o.account_id o.session_id "job.create" "job" none "idempotency_conflict" db,
  err (conflict "idempotency_payload_changed"),
)
create_replayed env now id o key request project service db miss =
    create_checked env now id o key request project service db

-- What is read from the request before the transaction begins.
unfoldable pub create_inputs : Env → Text → Header → CreateJobRequest → Result (ℕ × ℕ × Text)
create_inputs env project_path key_header request = do
  check_request request
  project ← parse env project_path
  service ← parse env request.service_id
  key ← idempotency_key key_header
  ok (project, service, key)

unfoldable pub create_job :
    Env → ℕ → ℕ → Owner → Text → Header → CreateJobRequest → Database → Tx JobRecord
unfolding create_inputs create_replayed replay
create_job env now id o project_path key_header request db =
    try_ok (create_inputs env project_path key_header request) db (λ inputs.
      let (project, service, key) = inputs in
      try_ok
        (replay env.parse_job db o.account_id (create_operation env project) key
          (env.hash_create request))
        db (create_replayed env now id o key request project service db))
