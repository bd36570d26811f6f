-- ===== src/Jobs/Messages.antt =====
-- The requests and responses of crates/control/src/jobs.rs, and what it takes from third-party
-- code: UUID text, SHA-256 of JSON, JSON of responses, decryption.
use Prim.Native.Nat.{ℕ}
use hostlet_app.Base.{List, Option}
use hostlet_app.Base.Integers.{ℤ}
use hostlet_app.Base.Text.{Text}
use hostlet_app.Jobs.Model.{JobState, SecretRow, SecretVersionRow}

pub record SecretVersionReference : Type 0 where
  pub service_id : Text
  pub secret_version_id : Text

pub record JobRecord : Type 0 where
  pub id : ℕ
  pub project_id : ℕ
  pub service_id : ℕ
  pub kind : Text
  pub operation : Text
  pub source_commit : Text
  pub state : JobState
  pub revision : ℕ
  pub attempt_count : ℕ
  pub current_attempt_id : Option ℕ
  pub current_fence : ℕ
  pub lease_expires_at : Option ℕ
  pub secret_version_refs : List (ℕ × ℕ)
  pub created_at : ℕ
  pub updated_at : ℕ

pub record CreateJobRequest : Type 0 where
  pub kind : Text
  pub operation : Text
  pub service_id : Text
  pub source_commit : Text
  pub secret_version_refs : List SecretVersionReference

pub record LeaseRequest : Type 0 where
  pub worker_id : Text
  pub kinds : List Text

pub record AttemptLease : Type 0 where
  pub id : ℕ
  pub attempt_number : ℕ
  pub fence : ℕ
  pub worker_id : Text
  pub lease_expires_at : ℕ

pub record LeaseResponse : Type 0 where
  pub job : JobRecord
  pub attempt : AttemptLease

pub record LeaseIdentityRequest : Type 0 where
  pub worker_id : Text
  pub attempt_id : ℕ
  pub fence : ℤ

pub record RenewResponse : Type 0 where
  pub job_id : ℕ
  pub attempt_id : ℕ
  pub fence : ℕ
  pub lease_expires_at : ℕ

pub record ResolveCredentialsRequest : Type 0 where
  pub worker_id : Text
  pub attempt_id : ℕ
  pub fence : ℤ
  pub secret_version_ids : List ℕ

pub record ResolvedCredential : Type 0 where
  pub secret_version_id : ℕ
  pub name : Text
  pub value : Text

pub record CompletionOutcome : Type 0 where
  pub state : Text
  pub code : Text

pub record CompleteRequest : Type 0 where
  pub worker_id : Text
  pub attempt_id : ℕ
  pub fence : ℤ
  pub outcome : CompletionOutcome

pub record JobEffectResponse : Type 0 where
  pub id : ℕ
  pub outcome_state : JobState
  pub outcome_code : Text

pub record CompleteResponse : Type 0 where
  pub job : JobRecord
  pub effect : Option JobEffectResponse

-- Third-party code and configuration, as the handlers call it: `uuid` (text of a UUID and its
-- parser), `sha2` over `serde_json` (the hash of a request), `serde_json` (responses as stored
-- JSON), AES-GCM (`decrypt`), and the service's settings.
pub record Env : Type 0 where
  pub worker_lease_seconds : ℕ
  pub uuid_text : ℕ → Text
  pub parse_uuid : Text → Option ℕ
  pub hash_create : CreateJobRequest → Text
  pub hash_cancel : Text
  pub hash_complete : CompleteRequest → Text
  pub hash_exhausted : Text
  pub json_job : JobRecord → Text
  pub parse_job : Text → Option JobRecord
  pub json_complete : CompleteResponse → Text
  pub parse_complete : Text → Option CompleteResponse
  pub json_exhausted : Text
  pub key_version : Option Text
  pub decrypt : SecretRow → SecretVersionRow → Option Text
