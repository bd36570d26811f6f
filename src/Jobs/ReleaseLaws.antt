-- ===== src/Jobs/ReleaseLaws.antt =====
-- To whom `resolve_credentials` of crates/control/src/jobs.rs gives secrets.
use hostlet_app.Base.{
  ℕ, ◌≡◌, inl, inr, refl, subst, true, not, ◌||◌, Option, none, some, List, length, ltb, Bool-cases,
  Option-cases, arith,
}
use hostlet_app.Base.Text.{Text}
use hostlet_app.Base.Table.{In, select, select-In, select-some}
use hostlet_app.Jobs.Model.{JobRow, AttemptRow, Database}
use hostlet_app.Base.Integers.{to_nat, not_positive}
use hostlet_app.Jobs.Messages.{ResolveCredentialsRequest, ResolvedCredential, Env}
use hostlet_app.Jobs.Checks.{max_secret_refs, valid_worker_id}
use hostlet_app.Jobs.Store.{holds, held_by, live_attempt, lease_live}
use hostlet_app.Jobs.Credentials.{
  Resolved, resolved, refused, distinct, resolve_scope, resolve_locked, resolve_for_locked_live_job,
  resolve_answer, resolve_checked, resolve_credentials,
}
use hostlet_app.Api.Answers.{
  Answers, Answers-err, Answers-ok, Answers-if, Answers-found, Answers-map,
}
use hostlet_app.Api.{ok}
use mathlib.Core.Option.{some-injective}
use hostlet_app.Jobs.SecretLaws.{IsGiven, resolve_scope-IsGiven}

-- A worker whose lease on the job is live, and what it is given.
pub record IsServed (env : Env) (now : ℕ) (db : Database) (id : ℕ)
    (request : ResolveCredentialsRequest) (cs : List ResolvedCredential) : Type 0 where
  pub job : JobRow
  pub attempt : AttemptRow
  pub job_stored : In job db.jobs
  pub attempt_stored : In attempt db.attempts
  pub job_held : holds id request.attempt_id (to_nat request.fence) job ≡ true
  pub attempt_runs_on : held_by job request.attempt_id request.worker_id attempt ≡ true
  pub live : lease_live now job attempt ≡ true
  pub given : IsGiven env db job request.secret_version_ids cs

live_attempt-found :
    (db : Database) (id attempt fence : ℕ) (worker : Text) (j : JobRow) (a : AttemptRow)
    → live_attempt db id attempt fence worker ≡ some (j, a)
    → (select (holds id attempt fence) db.jobs ≡ some j)
      × (select (held_by j attempt worker) db.attempts ≡ some a)
unfolding live_attempt
live_attempt-found db id attempt fence worker j a h =
    elim (Option-cases (select (holds id attempt fence) db.jobs)) [
      | inl never ↦ let failed = rw (live_attempt, never) at h in cc
      | inr (k, found) ↦ elim (Option-cases (select (held_by k attempt worker) db.attempts)) [
        | inl never ↦ let failed = rw (live_attempt, found, never) at h in cc
        | inr (b, found') ↦
            subst
              (λ p.
                (select (holds id attempt fence) db.jobs ≡ some p.0)
                × (select (held_by p.0 attempt worker) db.attempts ≡ some p.1))
              (some-injective (k, b) (j, a) (rw (live_attempt, found, found') at h)) (found, found')
      ]
    ]

resolve_locked-live :
    (env : Env) (key : Text) (now : ℕ) (r : ResolveCredentialsRequest) (db : Database)
    (j k : JobRow) (a : AttemptRow) (cs : List ResolvedCredential)
    → resolve_locked env key now r db (some (j, a)) ≡ resolved (k, cs)
    → (lease_live now j a ≡ true) × (resolve_scope env key db j r.secret_version_ids ≡ resolved cs)
unfolding resolve_locked
resolve_locked-live env key now r db j k a cs h = ground arith

resolve_locked-IsServed :
    (env : Env) (key : Text) (now id : ℕ) (r : ResolveCredentialsRequest) (db : Database)
    (o : Option (JobRow × AttemptRow)) (k : JobRow) (cs : List ResolvedCredential)
    → live_attempt db id r.attempt_id (to_nat r.fence) r.worker_id ≡ o
    → resolve_locked env key now r db o ≡ resolved (k, cs)
    → IsServed env now db id r cs
unfolding resolve_locked
resolve_locked-IsServed env key now id r db none k cs e h = cc
resolve_locked-IsServed env key now id r db (some (j, a)) k cs e h =
    let (job_found, attempt_found) =
      live_attempt-found db id r.attempt_id (to_nat r.fence) r.worker_id j a e in
    let (live, scope) = resolve_locked-live env key now r db j k a cs h in
    record {
      job = j;
      attempt = a;
      job_stored = select-In _ db.jobs j job_found;
      attempt_stored = select-In _ db.attempts a attempt_found;
      job_held = select-some _ db.jobs j job_found;
      attempt_runs_on = select-some _ db.attempts a attempt_found;
      live = live;
      given = resolve_scope-IsGiven env key db j r.secret_version_ids cs scope;
    }

resolve_answer-IsServed :
    (env : Env) (key : Text) (now id : ℕ) (r : ResolveCredentialsRequest) (db : Database)
    (o : Resolved (JobRow × List ResolvedCredential))
    → resolve_for_locked_live_job env key now id r db ≡ o
    → Answers (λ _. IsServed env now db id r) (resolve_answer id r db o)
unfolding resolve_answer resolve_for_locked_live_job
resolve_answer-IsServed env key now id r db (refused e) h = Answers-err _ _ _
resolve_answer-IsServed env key now id r db (resolved (k, cs)) h =
    Answers-ok _ _ cs
      (elim (Bool-cases (
        ltb max_secret_refs (length r.secret_version_ids) || not (distinct r.secret_version_ids))) [
          | inl many ↦ let denied = rw (many) at h in cc
          | inr few ↦ resolve_locked-IsServed env key now id r db _ k cs refl (rw (few) at h)
        ])

resolve_checked-IsServed :
    (env : Env) (now id : ℕ) (r : ResolveCredentialsRequest) (db : Database)
    → Answers (λ _. IsServed env now db id r) (resolve_checked env now r db id)
unfolding resolve_checked
resolve_checked-IsServed env now id r db =
    Answers-if _
      (not (valid_worker_id r.worker_id)
        || (not_positive r.fence
            || (ltb max_secret_refs (length r.secret_version_ids)
                || not (distinct r.secret_version_ids))))
      _ _ (λ _. Answers-err _ _ _)
      λ _.
        Answers-found _ env.key_version _ _ _
          λ key _. resolve_answer-IsServed env key now id r db _ refl

resolve_credentials-answered :
    (env : Env) (now : ℕ) (path : Text) (request : ResolveCredentialsRequest) (db : Database)
    → Answers
        (λ _ cs. (id : ℕ) × (env.parse_uuid path ≡ some id) × IsServed env now db id request cs)
        (resolve_credentials env now path request db)
unfolding resolve_credentials
resolve_credentials-answered env now path request db =
    Answers-found _ (env.parse_uuid path) _ _ _ λ id e.
      Answers-map (λ _. IsServed env now db id request) _ _ (λ _ cs served. (id, e, served))
        (resolve_checked-IsServed env now id request db)

-- When a worker that asks for the secrets of a job is answered, the job is stored, running and held
-- by that worker's attempt under its fence, with a lease that is live, and the answer has exactly
-- the versions that were requested, in that order: each is the decrypted version of an active secret
-- of the job's own account, project and service, which the job binds, of a kind that builds may read.
pub resolve_credentials-IsServed :
    (env : Env) (now : ℕ) (path : Text) (request : ResolveCredentialsRequest) (db db' : Database)
    (cs : List ResolvedCredential)
    → resolve_credentials env now path request db ≡ (db', ok cs)
    → (id : ℕ) × (env.parse_uuid path ≡ some id) × IsServed env now db id request cs
resolve_credentials-IsServed env now path request db db' cs h =
    (resolve_credentials-answered env now path request db).answers db' cs h
