-- ===== src/Jobs/Credentials.antt =====
-- `resolve_credentials` of crates/control/src/jobs.rs and `resolve_for_locked_live_job` of
-- crates/control/src/secrets.rs: a worker with a live lease reads the secrets that its job binds.
use hostlet_app.Base.{
  ℕ, Bool, true, not, ◌&&◌, ◌||◌, Option, none, some, List, [], ◌∷◌, ◌++◌, any, ltb, ◌==◌,
  if◌then◌else◌, length,
}
use hostlet_app.Base.Text.{Text, text_eq}
use hostlet_app.Base.Table.{select, select_all}
use hostlet_app.Api.{
  ApiError, ok, err, bad_request, conflict, unprocessable, not_found, foundation_unavailable,
}
use hostlet_app.Jobs.Model.{JobRow, AttemptRow, SecretRefRow, SecretRow, SecretVersionRow, Database}
use hostlet_app.Base.Integers.{not_positive, to_nat}
use hostlet_app.Jobs.Messages.{ResolveCredentialsRequest, ResolvedCredential, Env}
use hostlet_app.Api.Transactions.{found_or}
use hostlet_app.Jobs.Checks.{Tx, fenced, job_operation, max_secret_refs, valid_worker_id}
use hostlet_app.Jobs.Create.{build_credential}
use hostlet_app.Jobs.Store.{lease_live, live_attempt, worker_audit}

-- `iter().collect::<HashSet<_>>().len() != len()`, negated.
unfoldable pub distinct : List ℕ → Bool
distinct [] = true
distinct (v ∷ vs) = not (any (λ w. w == v) vs) && distinct vs

pub data SecretResolveError : Type 0 where
  fenced_job scope_denied credential_kind_not_allowed unavailable : SecretResolveError

abbrev into_api_error : SecretResolveError → ApiError
into_api_error fenced_job = conflict "job_fenced"
into_api_error scope_denied = not_found
into_api_error credential_kind_not_allowed = unprocessable "credential_kind_not_allowed"
into_api_error unavailable = foundation_unavailable

-- A row of the join of references, secrets and versions.
pub record ResolveRow : Type 0 where
  pub secret : SecretRow
  pub version : SecretVersionRow

abbrev pub ref_in_scope : JobRow → SecretRefRow → Bool
ref_in_scope j r =
    r.job_id == j.id
    && (r.account_id == j.account_id
        && (r.project_id == j.project_id
            && (r.service_id == j.service_id && text_eq r.operation j.operation)))

abbrev pub secret_of_ref : SecretRefRow → SecretRow → Bool
secret_of_ref r s =
    s.account_id == r.account_id
    && (s.project_id == r.project_id
        && (s.service_id == r.service_id
            && (s.id == r.secret_id
                && (text_eq s.operation r.operation
                    && (text_eq s.credential_kind r.credential_kind && s.active)))))

abbrev pub version_of_ref : SecretRefRow → SecretVersionRow → Bool
version_of_ref r v =
    v.account_id == r.account_id
    && (v.project_id == r.project_id
        && (v.service_id == r.service_id
            && (v.secret_id == r.secret_id && v.id == r.secret_version_id)))

-- The row that one reference joins to; secrets and versions have primary keys.
unfoldable pub join_ref : Database → SecretRefRow → List ResolveRow
join_ref db r = elim (select (secret_of_ref r) db.secrets) [
  | none ↦ []
  | some s ↦ elim (select (version_of_ref r) db.secret_versions) [
    | none ↦ []
    | some v ↦ record { secret = s; version = v } ∷ []
  ]
]

unfoldable pub join_refs : Database → List SecretRefRow → List ResolveRow
unfolding join_ref
join_refs db [] = []
join_refs db (r ∷ rs) = join_ref db r ++ join_refs db rs

-- secret_version_id = ANY(requested).
abbrev pub requested_ref : JobRow → List ℕ → SecretRefRow → Bool
requested_ref j ids r = ref_in_scope j r && any (λ id. id == r.secret_version_id) ids

unfoldable pub resolve_rows : Database → JobRow → List ℕ → List ResolveRow
unfolding join_refs
resolve_rows db j ids = join_refs db (select_all (requested_ref j ids) db.secret_refs)

pub data Resolved (A : Type 0) : Type 0 where
  resolved : A → Resolved A
  refused : SecretResolveError → Resolved A

-- One turn of the loop over the rows.
unfoldable pub resolve_row : Env → Text → JobRow → ResolveRow → Resolved ResolvedCredential
resolve_row env key j r =
    if not (text_eq r.secret.operation job_operation) || not (text_eq j.operation job_operation)
    then refused credential_kind_not_allowed
    else if not (build_credential r.secret.credential_kind)
    then refused credential_kind_not_allowed
    else if not (text_eq r.version.key_version key)
    then refused unavailable
    else (elim (env.decrypt r.secret r.version) [
      | none ↦ refused unavailable
      | some value ↦
          resolved
            (record { secret_version_id = r.version.id; name = r.secret.name; value = value })
    ])

unfoldable pub add_resolved :
    Resolved ResolvedCredential
    → Resolved (List ResolvedCredential)
    → Resolved (List ResolvedCredential)
add_resolved (refused e) rest = refused e
add_resolved (resolved c) (refused e) = refused e
add_resolved (resolved c) (resolved cs) = resolved (c ∷ cs)

unfoldable pub decrypt_rows :
    Env → Text → JobRow → List ResolveRow → Resolved (List ResolvedCredential)
unfolding add_resolved resolve_row
decrypt_rows env key j [] = resolved []
decrypt_rows env key j (r ∷ rs) = add_resolved (resolve_row env key j r) (decrypt_rows env key j rs)

-- The answers in the order of the request: each is taken out of the map of what was decrypted.
unfoldable pub in_request_order :
    List ResolvedCredential → List ℕ → Resolved (List ResolvedCredential)
unfolding add_resolved
in_request_order cs [] = resolved []
in_request_order cs (id ∷ ids) =
    add_resolved
      (elim (select (λ c. c.secret_version_id == id) cs) [
        | none ↦ refused scope_denied
        | some c ↦ resolved c
      ])
      (in_request_order cs ids)

abbrev pub order_resolved :
    Resolved (List ResolvedCredential) → List ℕ → Resolved (List ResolvedCredential)
order_resolved (refused e) ids = refused e
order_resolved (resolved cs) ids = in_request_order cs ids

unfoldable pub resolve_scope :
    Env → Text → Database → JobRow → List ℕ → Resolved (List ResolvedCredential)
unfolding in_request_order decrypt_rows resolve_rows
resolve_scope env key db j [] = resolved []
resolve_scope env key db j (id ∷ ids) =
    let rows = resolve_rows db j (id ∷ ids) in
    if not (length rows == length (id ∷ ids))
    then refused scope_denied
    else order_resolved (decrypt_rows env key j rows) (id ∷ ids)

-- What follows the query that checks the lease; it compares the attempt's own fence as well.
unfoldable pub resolve_locked :
    Env
    → Text
    → ℕ
    → ResolveCredentialsRequest
    → Database
    → Option (JobRow × AttemptRow)
    → Resolved (JobRow × List ResolvedCredential)
resolve_locked env key now r db none = refused fenced_job
resolve_locked env key now r db (some (j, a)) =
    if lease_live now j a && a.fence == to_nat r.fence
    then (elim (resolve_scope env key db j r.secret_version_ids) [
      | refused e ↦ refused e
      | resolved cs ↦ resolved (j, cs)
    ])
    else refused fenced_job

unfoldable pub resolve_for_locked_live_job :
    Env
    → Text
    → ℕ
    → ℕ
    → ResolveCredentialsRequest
    → Database
    → Resolved (JobRow × List ResolvedCredential)
unfolding resolve_locked
resolve_for_locked_live_job env key now id r db =
    if ltb max_secret_refs (length r.secret_version_ids) || not (distinct r.secret_version_ids)
    then refused scope_denied
    else resolve_locked env key now r db
        (live_attempt db id r.attempt_id (to_nat r.fence) r.worker_id)

unfoldable pub resolve_answer :
    ℕ
    → ResolveCredentialsRequest
    → Database
    → Resolved (JobRow × List ResolvedCredential)
    → Tx (List ResolvedCredential)
resolve_answer id r db (refused e) = (db, err (into_api_error e))
resolve_answer id r db (resolved (j, cs)) = (
  worker_audit j.account_id "job.credentials_resolve"
      (record {
        job_id = id;
        worker_id = r.worker_id;
        attempt_id = r.attempt_id;
        fence = to_nat r.fence;
      })
      "succeeded" db,
  ok cs,
)

unfoldable pub resolve_checked :
    Env → ℕ → ResolveCredentialsRequest → Database → ℕ → Tx (List ResolvedCredential)
unfolding resolve_answer distinct
resolve_checked env now r db id =
    if not (valid_worker_id r.worker_id)
      || (not_positive r.fence
          || (ltb max_secret_refs (length r.secret_version_ids)
              || not (distinct r.secret_version_ids)))
    then (db, err fenced)
    else found_or env.key_version foundation_unavailable db
        (λ key. resolve_answer id r db (resolve_for_locked_live_job env key now id r db))

unfoldable pub resolve_credentials :
    Env → ℕ → Text → ResolveCredentialsRequest → Database → Tx (List ResolvedCredential)
unfolding resolve_checked
resolve_credentials env now path r db =
    found_or (env.parse_uuid path) (bad_request "invalid_id") db (resolve_checked env now r db)
