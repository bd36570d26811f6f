-- ===== src/Jobs/Samples.antt =====
-- A small queue of crates/control/src/jobs.rs for the tests: its owner, one job and the requests
-- that create, lease, cancel and finish it.
use hostlet_app.Base.{true, ℕ, ◌+◌, Option, none, some, List, [], ◌∷◌}
use hostlet_app.Base.Text.{Text, codes}
use hostlet_app.Jobs.Model.{JobState, AttemptState, JobRow, Database}
use hostlet_app.Base.Integers.{pos}
use hostlet_app.Jobs.Messages.{CompleteRequest, Env}
use hostlet_app.Jobs.Checks.{job_kind, job_operation}
use hostlet_app.Jobs.Intent.{text}
use hostlet_app.Jobs.Cancel.{Owner}
use hostlet_app.Jobs.Machine.{Command, create, cancel, lease, complete}

-- One letter stands for a UUID's text.
abbrev pub parse_letter : Text → Option ℕ
parse_letter [] = none
parse_letter (c ∷ _) = some c

abbrev pub env : Env
env = record {
  worker_lease_seconds = 30;
  uuid_text = λ id. id ∷ [];
  parse_uuid = parse_letter;
  hash_create = λ r. r.source_commit;
  hash_cancel = codes "cancel";
  hash_complete = λ r. r.outcome.state;
  hash_exhausted = codes "exhausted";
  json_job = λ _. [];
  parse_job = λ _. none;
  json_complete = λ _. [];
  parse_complete = λ _. none;
  json_exhausted = [];
  key_version = none;
  decrypt = λ _ _. none;
}

abbrev pub empty_queue : Database
empty_queue = record {
  jobs = [];
  attempts = [];
  effects = [];
  secret_refs = [];
  secrets = [];
  secret_versions = [];
  services = record { account_id = 1; project_id = b'p'; id = b's' } ∷ [];
  idempotency_records = [];
  audit_events = [];
}

abbrev pub owner : Owner
owner = record { account_id = 1; session_id = 2 }

abbrev pub commit : Text
commit = codes "0123456789abcdef0123456789abcdef01234567"

abbrev pub first_job : Command
first_job = create 5 b'j' owner (codes "p") (text (codes "key")) (record {
  kind = job_kind;
  operation = job_operation;
  service_id = codes "s";
  source_commit = commit;
  secret_version_refs = [];
})

abbrev pub lease_first : Command
lease_first =
    lease (λ i n. 10) (λ i. 900 + i) b'a' (record { worker_id = codes "w"; kinds = job_kind ∷ [] })

abbrev pub done_report : CompleteRequest
done_report = record {
  worker_id = codes "w";
  attempt_id = b'a';
  fence = pos 1;
  outcome = record { state = codes "succeeded"; code = codes "bookkeeping_complete" };
}

abbrev pub complete_first : Command
complete_first = complete (λ n. 15) 77 (codes "j") done_report

abbrev pub cancel_leased : Command
cancel_leased =
    cancel (λ n. 20 + n) owner (codes "p") (codes "j") (text (codes "key2")) (text (codes "\"2\""))

abbrev pub queued_job : JobRow
queued_job = record {
  id = b'j';
  account_id = 1;
  project_id = b'p';
  service_id = b's';
  kind = job_kind;
  operation = job_operation;
  source_commit = commit;
  state = JobState.queued;
  revision = 1;
  attempt_count = 0;
  max_attempts = 3;
  current_attempt_id = none;
  current_fence = 0;
  lease_expires_at = none;
  created_at = 5;
  updated_at = 5;
}

-- A worker held the job when its owner canceled it.
abbrev pub canceled_job : JobRow
canceled_job = record queued_job {
  state = JobState.canceled;
  revision = 3;
  attempt_count = 1;
  current_fence = 2;
  updated_at = 21;
}

abbrev pub finished_job : JobRow
finished_job = record queued_job {
  state = JobState.succeeded;
  revision = 3;
  attempt_count = 1;
  current_attempt_id = some b'a';
  current_fence = 1;
  updated_at = 15;
}

-- A queue that holds the one job.
abbrev pub holding : JobRow → Database
holding j = record empty_queue { jobs = j ∷ [] }

-- A later attempt to go on with it.
abbrev pub later : List Command
later = lease_first ∷ complete_first ∷ cancel_leased ∷ []

-- A job that a worker holds, with one secret.
abbrev pub build_kind : Text
build_kind = codes "build_environment"

abbrev pub running_job : JobRow
running_job = record queued_job {
  state = JobState.running;
  revision = 2;
  attempt_count = 1;
  current_attempt_id = some b'a';
  current_fence = 1;
  lease_expires_at = some 40;
}

abbrev pub held_queue : Database
held_queue = record empty_queue {
  jobs = running_job ∷ [];
  attempts =
      record {
        id = b'a';
        account_id = 1;
        project_id = b'p';
        job_id = b'j';
        attempt_number = 1;
        fence = 1;
        worker_id = codes "w";
        state = AttemptState.running;
        lease_started_at = 10;
        lease_expires_at = 40;
        finished_at = none;
        terminal_code = none;
        completion_hash = none;
      }
      ∷ [];
  secrets =
      record {
        id = 30;
        account_id = 1;
        project_id = b'p';
        service_id = b's';
        name = codes "TOKEN";
        operation = job_operation;
        credential_kind = build_kind;
        active = true;
      }
      ∷ [];
  secret_versions =
      record {
        id = 31;
        account_id = 1;
        project_id = b'p';
        service_id = b's';
        secret_id = 30;
        key_version = codes "v1";
        nonce = [];
        ciphertext = codes "hidden";
        auth_tag = [];
      }
      ∷ [];
  secret_refs =
      record {
        account_id = 1;
        project_id = b'p';
        service_id = b's';
        job_id = b'j';
        secret_id = 30;
        secret_version_id = 31;
        operation = job_operation;
        credential_kind = build_kind;
      }
      ∷ [];
}
