-- ===== src/Jobs/Model.antt =====
-- The rows of the tables that crates/control/src/jobs.rs works on (migrations/0003_jobs_secrets.sql)
-- and its requests and responses. Identifiers are UUIDs, read as numbers; times are numbers of
-- seconds; counters are unbounded.
use Prim.Native.String.{String}
use hostlet_app.Base.{ℕ, Bool, List, Option}
use hostlet_app.Base.Text.{Text}

-- The `CHECK` on `jobs.state`.
pub data JobState : Type 0 where
  queued running succeeded failed canceled retriable : JobState

-- The `CHECK` on `job_attempts.state`.
pub data AttemptState : Type 0 where
  running succeeded failed retriable expired canceled : AttemptState

pub record JobRow : Type 0 where
  pub id : ℕ
  pub account_id : ℕ
  pub project_id : ℕ
  pub service_id : ℕ
  pub kind : Text
  pub operation : Text
  pub source_commit : Text
  pub state : JobState
  pub revision : ℕ
  pub attempt_count : ℕ
  pub max_attempts : ℕ
  pub current_attempt_id : Option ℕ
  pub current_fence : ℕ
  pub lease_expires_at : Option ℕ
  pub created_at : ℕ
  pub updated_at : ℕ

pub record AttemptRow : Type 0 where
  pub id : ℕ
  pub account_id : ℕ
  pub project_id : ℕ
  pub job_id : ℕ
  pub attempt_number : ℕ
  pub fence : ℕ
  pub worker_id : Text
  pub state : AttemptState
  pub lease_started_at : ℕ
  pub lease_expires_at : ℕ
  pub finished_at : Option ℕ
  pub terminal_code : Option Text
  pub completion_hash : Option Text

pub record EffectRow : Type 0 where
  pub id : ℕ
  pub account_id : ℕ
  pub project_id : ℕ
  pub job_id : ℕ
  pub attempt_id : ℕ
  pub fence : ℕ
  pub outcome_state : JobState
  pub outcome_code : Text
  pub response_body : Text
  pub completion_hash : Text

pub record SecretRefRow : Type 0 where
  pub account_id : ℕ
  pub project_id : ℕ
  pub service_id : ℕ
  pub job_id : ℕ
  pub secret_id : ℕ
  pub secret_version_id : ℕ
  pub operation : Text
  pub credential_kind : Text

-- `secrets`, as far as the job handlers read it.
pub record SecretRow : Type 0 where
  pub id : ℕ
  pub account_id : ℕ
  pub project_id : ℕ
  pub service_id : ℕ
  pub name : Text
  pub operation : Text
  pub credential_kind : Text
  pub active : Bool

pub record SecretVersionRow : Type 0 where
  pub id : ℕ
  pub account_id : ℕ
  pub project_id : ℕ
  pub service_id : ℕ
  pub secret_id : ℕ
  pub key_version : Text
  pub nonce : Text
  pub ciphertext : Text
  pub auth_tag : Text

pub record ServiceRow : Type 0 where
  pub account_id : ℕ
  pub project_id : ℕ
  pub id : ℕ

pub record WorkerAuditContext : Type 0 where
  pub job_id : ℕ
  pub worker_id : Text
  pub attempt_id : ℕ
  pub fence : ℕ

-- `audit_events`: who acted is an owner's session or a worker.
pub data Actor : Type 0 where
  owner : ℕ → Actor
  worker : WorkerAuditContext → Actor

pub record AuditRow : Type 0 where
  pub account_id : ℕ
  pub actor : Actor
  pub event_type : String
  pub target_type : String
  pub target_id : Option ℕ
  pub outcome : String

pub record IdempotencyRow : Type 0 where
  pub actor_account_id : ℕ
  pub operation : Text
  pub key : Text
  pub request_hash : Text
  pub response_status : ℕ
  pub response_body : Text

pub record Database : Type 0 where
  pub jobs : List JobRow
  pub attempts : List AttemptRow
  pub effects : List EffectRow
  pub secret_refs : List SecretRefRow
  pub secrets : List SecretRow
  pub secret_versions : List SecretVersionRow
  pub services : List ServiceRow
  pub idempotency_records : List IdempotencyRow
  pub audit_events : List AuditRow
