-- ===== src/Jobs/Fencing.antt =====
-- What a worker that has lost its lease can still do to a job of crates/control/src/jobs.rs:
-- nothing.
use hostlet_app.Base.{
  ℕ, ◌<◌, ◌≡◌, refl, ap, sym, ◌∙◌, subst, inl, inr, Bool, true, not, ◌||◌, ltb, length, ◌==◌,
  ==_iff, none, some, List, arith, Bool-cases, Option-cases,
}
use hostlet_app.Base.Text.{Text}
use hostlet_app.Base.Table.{In, select, select-In, select-some}
use hostlet_app.Base.Growth.{Unique-In}
use hostlet_app.Api.{ApiError, err, bad_request, conflict, foundation_unavailable, not_found}
use hostlet_app.Jobs.Model.{JobRow, Database}
use hostlet_app.Base.Integers.{not_positive, to_nat}
use hostlet_app.Jobs.Messages.{
  LeaseIdentityRequest, ResolveCredentialsRequest, CompleteRequest, Env,
}
use hostlet_app.Jobs.Checks.{Tx, max_secret_refs, fenced, valid_worker_id, valid_outcome, Outcome}
use hostlet_app.Jobs.Store.{holds, live_attempt}
use hostlet_app.Jobs.Lease.{renew_job, renew_found, renew_locked}
use hostlet_app.Jobs.Complete.{
  complete_job, complete_checked, complete_row, complete_found, complete_locked,
}
use hostlet_app.Jobs.Credentials.{
  distinct, resolve_credentials, resolve_checked, resolve_for_locked_live_job,
}
use hostlet_app.Jobs.ReportSteps.{holds-id}
use hostlet_app.Jobs.Advance.{UniqueIds}
use hostlet_app.Jobs.Machine.{Command, run, run-Advance, run-monotone}

holds-fence :
    (id attempt fence : ℕ) (j : JobRow) → holds id attempt fence j ≡ true → j.current_fence ≡ fence
holds-fence id attempt fence j h = ground arith

-- A job whose fence has moved past a request's.
record IsPast (db : Database) (id fence : ℕ) : Type 0 where
  job : JobRow
  unique : UniqueIds db.jobs
  there : In job db.jobs
  named : job.id ≡ id
  past : fence < job.current_fence

module _ (db : Database) (id fence : ℕ) (p : IsPast db id fence) where
  not_held : (attempt : ℕ) (worker : Text) → live_attempt db id attempt fence worker ≡ none
  unfolding live_attempt
  not_held attempt worker = elim (Option-cases (select (holds id attempt fence) db.jobs)) [
    | inl absent ↦ rw (absent, live_attempt) refl
    | inr (k, found) ↦
        let passed = select-some (holds id attempt fence) db.jobs k found in
        let same : k ≡ p.job =
          Unique-In (λ (l : JobRow). l.id) db.jobs p.job k p.unique p.there
            (select-In (holds id attempt fence) db.jobs k found)
            (holds-id id attempt fence k passed ∙ sym p.named) in
        let equal = ap (λ (l : JobRow). l.current_fence) same in
        absurd (omega (arith, equal, holds-fence id attempt fence k passed, p.past))
  ]

-- Refused without a change to the database.
abbrev pub IsRefused : {X : Type 0} → Database → Tx X → Type 0
IsRefused db t = (e : ApiError) × (t ≡ (db, err e))

renew_found-refused :
    (env : Env) (clock : ℕ → ℕ) (request : LeaseIdentityRequest) (db : Database) (id : ℕ)
    → IsPast db id (to_nat request.fence)
    → renew_found env clock request db id ≡ (db, err fenced)
unfolding renew_found renew_locked
renew_found-refused env clock request db id p =
    ground (arith, not_held db id (to_nat request.fence) p request.attempt_id request.worker_id)

renew_job-IsRefused :
    (env : Env) (clock : ℕ → ℕ) (path : Text) (request : LeaseIdentityRequest) (db : Database)
    (id : ℕ)
    → env.parse_uuid path ≡ some id
    → IsPast db id (to_nat request.fence)
    → IsRefused db (renew_job env clock path request db)
unfolding renew_job
renew_job-IsRefused env clock path request db id parsed p =
    (fenced, rw parsed (renew_found-refused env clock request db id p))

complete_found-refused :
    (env : Env) (clock : ℕ → ℕ) (id : ℕ) (request : CompleteRequest) (o : Outcome) (j : JobRow)
    (db : Database)
    → to_nat request.fence < j.current_fence
    → live_attempt db j.id request.attempt_id (to_nat request.fence) request.worker_id ≡ none
    → complete_found env clock id request o j db ≡ (db, err fenced)
unfolding complete_found complete_locked
complete_found-refused env clock id request o j db stale absent = ground arith

complete_row-refused :
    (env : Env) (clock : ℕ → ℕ) (id : ℕ) (request : CompleteRequest) (db : Database) (job : ℕ)
    (o : Outcome)
    → IsPast db job (to_nat request.fence)
    → complete_row env clock id request db job o ≡ (db, err fenced)
unfolding complete_row
complete_row-refused env clock id request db job o p =
    elim (Option-cases (select (λ (j : JobRow). j.id == job) db.jobs)) [
      | inl absent ↦ rw absent refl
      | inr (k, found) ↦
          let same : k ≡ p.job =
            Unique-In (λ (l : JobRow). l.id) db.jobs p.job k p.unique p.there
              (select-In (λ j. j.id == job) db.jobs k found)
              ((==_iff k.id job).0 (select-some (λ j. j.id == job) db.jobs k found)
                ∙ sym p.named) in
          let named : k.id ≡ job =
            (==_iff k.id job).0 (select-some (λ j. j.id == job) db.jobs k found) in
          let later : to_nat request.fence < k.current_fence =
            subst (λ (l : JobRow). to_nat request.fence < l.current_fence) (sym same) p.past in
          let absent : live_attempt db k.id request.attempt_id (to_nat request.fence)
                request.worker_id
              ≡ none =
            rw named
              (not_held db job (to_nat request.fence) p request.attempt_id request.worker_id) in
          rw found (complete_found-refused env clock id request o k db later absent)
    ]

complete_job-IsRefused :
    (env : Env) (clock : ℕ → ℕ) (id : ℕ) (path : Text) (request : CompleteRequest) (db : Database)
    (job : ℕ)
    → env.parse_uuid path ≡ some job
    → IsPast db job (to_nat request.fence)
    → IsRefused db (complete_job env clock id path request db)
unfolding complete_job complete_checked
complete_job-IsRefused env clock id path request db job parsed p =
    rw parsed
      (elim (Bool-cases (not (valid_worker_id request.worker_id) || not_positive request.fence)) [
        | inl bad ↦ rw bad (bad_request "invalid_completion", refl)
        | inr fine ↦ rw fine (elim (Option-cases (valid_outcome request.outcome)) [
          | inl unknown ↦ rw unknown (bad_request "invalid_completion", refl)
          | inr (o, known) ↦ rw known (fenced, complete_row-refused env clock id request db job o p)
        ])
      ])

resolve_checked-IsRefused :
    (env : Env) (now : ℕ) (request : ResolveCredentialsRequest) (db : Database) (job : ℕ)
    → live_attempt db job request.attempt_id (to_nat request.fence) request.worker_id ≡ none
    → IsRefused db (resolve_checked env now request db job)
unfolding resolve_checked resolve_for_locked_live_job
resolve_checked-IsRefused env now request db job absent = elim (Bool-cases unfit) [
  | inl bad ↦ (fenced, ground arith)
  | inr fine ↦ elim (Option-cases env.key_version) [
    | inl no_key ↦ (foundation_unavailable, ground arith)
    | inr (key, has_key) ↦ elim (Bool-cases twice) [
      | inl bad ↦ (not_found, ground arith)
      | inr distinct_ids ↦ (conflict "job_fenced", ground arith)
    ]
  ]
]
  where
    twice : Bool
    twice =
        ltb max_secret_refs (length request.secret_version_ids)
        || not (distinct request.secret_version_ids)

    unfit : Bool
    unfit = not (valid_worker_id request.worker_id) || (not_positive request.fence || twice)

resolve_credentials-IsRefused :
    (env : Env) (now : ℕ) (path : Text) (request : ResolveCredentialsRequest) (db : Database)
    (job : ℕ)
    → env.parse_uuid path ≡ some job
    → IsPast db job (to_nat request.fence)
    → IsRefused db (resolve_credentials env now path request db)
unfolding resolve_credentials
resolve_credentials-IsRefused env now path request db job parsed p = rw parsed (
    resolve_checked-IsRefused env now request db job
      (not_held db job (to_nat request.fence) p request.attempt_id request.worker_id))

-- A job that any requests have been made on since.
run-IsPast :
    (env : Env) (cs : List Command) (db : Database) (j : JobRow) (fence : ℕ)
    → UniqueIds db.jobs
    → In j db.jobs
    → fence < j.current_fence
    → IsPast (run env cs db) j.id fence
run-IsPast env cs db j fence u there stale =
    let (k, found, same, more) = run-monotone env cs db j u there in
    record {
      job = k;
      unique = (run-Advance env cs db u).0;
      there = found;
      named = same.id;
      past = omega (arith, more.current_fence, stale);
    }

-- Once the fence of a job has passed the one that a worker holds, then after any further requests
-- by anybody, and whatever the clock says, the worker's renewal, its report and its reading of
-- secrets are each refused and leave the database as it is.
pub stale_worker-IsRefused :
    (env : Env) (cs : List Command) (db : Database) (j : JobRow) (path : Text) (clock : ℕ → ℕ)
    (id now : ℕ) (renewal : LeaseIdentityRequest) (report : CompleteRequest)
    (reading : ResolveCredentialsRequest)
    → UniqueIds db.jobs
    → In j db.jobs
    → env.parse_uuid path ≡ some j.id
    → to_nat renewal.fence < j.current_fence
    → to_nat report.fence < j.current_fence
    → to_nat reading.fence < j.current_fence
    → IsRefused (run env cs db) (renew_job env clock path renewal (run env cs db))
      × IsRefused (run env cs db) (complete_job env clock id path report (run env cs db))
      × IsRefused (run env cs db) (resolve_credentials env now path reading (run env cs db))
stale_worker-IsRefused env cs db j path clock id now renewal report reading u there parsed s t v = (
  renew_job-IsRefused env clock path renewal (run env cs db) j.id parsed
      (run-IsPast env cs db j (to_nat renewal.fence) u there s),
  complete_job-IsRefused env clock id path report (run env cs db) j.id parsed
      (run-IsPast env cs db j (to_nat report.fence) u there t),
  resolve_credentials-IsRefused env now path reading (run env cs db) j.id parsed
      (run-IsPast env cs db j (to_nat reading.fence) u there v),
)
