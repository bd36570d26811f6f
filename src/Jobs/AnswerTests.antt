-- ===== src/Jobs/AnswerTests.antt =====
-- Owners' requests of crates/control/src/jobs.rs sent twice.
use hostlet_app.Base.{List, ◌+◌, ◌≡◌, refl, ap, Option, some, [], ◌∷◌}
use hostlet_app.Base.Text.{codes, text_eq}
use hostlet_app.Base.Table.{select, select_all, select_first, update_rows}
use hostlet_app.Api.{Result, ok}
use hostlet_app.Jobs.Model.{JobState, JobRow, Database}
use hostlet_app.Jobs.Messages.{CreateJobRequest, JobRecord, LeaseRequest, LeaseResponse, Env}
use hostlet_app.Jobs.Checks.{Tx, job_kind, job_operation, valid_source_commit, valid_worker_id}
use hostlet_app.Jobs.Reap.{reap_expired, reap_one}
use hostlet_app.Jobs.Lease.{
  lease_job, lease_next, lease_row, lease_answer, claim_job, insert_attempt, supported_kinds,
  after_reap,
}
use hostlet_app.Jobs.LeaseLaws.{Serves, lease_job-Serves}
use hostlet_app.Jobs.Intent.{
  text, replay, store_replay, idempotency_key, if_match_revision, read_digits,
}
use hostlet_app.Jobs.Store.{load_job, job_record}
use hostlet_app.Jobs.Create.{create_job, check_request, insert_job, new_job, resolve_refs}
use hostlet_app.Jobs.Cancel.{cancel_job, cancel_found, cancel_row}
use hostlet_app.Jobs.Retries.{create_job-run, cancel_job-run}
use hostlet_app.Jobs.Machine.{Command, run}
use hostlet_app.Jobs.Samples.{
  lease_first, complete_first, env, owner, empty_queue, commit, queued_job, holding,
}

abbrev creation : CreateJobRequest
creation = record {
  kind = job_kind;
  operation = job_operation;
  service_id = codes "s";
  source_commit = commit;
  secret_version_refs = [];
}

-- The answer about a job without secrets.
abbrev answer_of : JobRow → JobRecord
answer_of j = record {
  id = j.id;
  project_id = j.project_id;
  service_id = j.service_id;
  kind = j.kind;
  operation = j.operation;
  source_commit = j.source_commit;
  state = j.state;
  revision = j.revision;
  attempt_count = j.attempt_count;
  current_attempt_id = j.current_attempt_id;
  current_fence = j.current_fence;
  lease_expires_at = j.lease_expires_at;
  secret_version_refs = [];
  created_at = j.created_at;
  updated_at = j.updated_at;
}

abbrev canceled_job : JobRow
canceled_job = record queued_job {
  state = JobState.canceled;
  revision = 2;
  current_fence = 1;
  updated_at = 21;
}

-- JSON that stands for one answer.
abbrev env_of : JobRow → Env
env_of j = record env { parse_job = λ _. some (answer_of j) }

abbrev creating : Env → Database → Tx JobRecord
creating e db = create_job e 5 b'j' owner (codes "p") (text (codes "key")) creation db

abbrev canceling : Env → Database → Tx JobRecord
canceling e db =
    cancel_job e (λ n. 20 + n) owner (codes "p") (codes "j") (text (codes "key2"))
      (text (codes "\"1\"")) db

creating_answers : (creating (env_of queued_job) empty_queue).1 ≡ ok (answer_of queued_job)
unfolding create_job check_request valid_source_commit replay store_replay select select_all
    load_job text_eq insert_job new_job idempotency_key resolve_refs job_record
creating_answers = refl

canceling_answers :
    (canceling (env_of canceled_job) (holding queued_job)).1 ≡ ok (answer_of canceled_job)
unfolding cancel_job cancel_found cancel_row replay store_replay select select_all update_rows
    load_job text_eq idempotency_key if_match_revision read_digits job_record
canceling_answers = refl

-- A pair by its second part.
by_answer : (t : Tx JobRecord) (r : Result JobRecord) → t.1 ≡ r → t ≡ (t.0, r)
by_answer t r h = ap (λ x. (t.0, x)) h

-- What comes between a request and its repetition.
abbrev between : List Command
between = lease_first ∷ complete_first ∷ []

create_job-run_example :
    let db = run (env_of queued_job) between (creating (env_of queued_job) empty_queue).0 in
    create_job (env_of queued_job) 8 b'k' owner (codes "p") (text (codes "key")) creation db
    ≡ (db, ok (answer_of queued_job))
create_job-run_example =
    create_job-run (env_of queued_job) between 5 b'j' 8 b'k' owner (codes "p") (text (codes "key"))
      creation empty_queue (creating (env_of queued_job) empty_queue).0 (answer_of queued_job) refl
      (by_answer (creating (env_of queued_job) empty_queue) (ok (answer_of queued_job))
        creating_answers)

cancel_job-run_example :
    let db =
      run (env_of canceled_job) between (canceling (env_of canceled_job) (holding queued_job)).0 in
    cancel_job
      (env_of canceled_job)
      (λ n. 90)
      owner
      (codes "p")
      (codes "j")
      (text (codes "key2"))
      (text (codes "\"1\""))
      db
    ≡ (db, ok (answer_of canceled_job))
cancel_job-run_example =
    cancel_job-run (env_of canceled_job) between (λ n. 20 + n) (λ n. 90) owner (codes "p")
      (codes "j") (text (codes "key2")) (text (codes "\"1\"")) (holding queued_job)
      (canceling (env_of canceled_job) (holding queued_job)).0 (answer_of canceled_job) refl
      (by_answer (canceling (env_of canceled_job) (holding queued_job))
        (ok (answer_of canceled_job)) canceling_answers)

abbrev asking : LeaseRequest
asking = record { worker_id = codes "w"; kinds = job_kind ∷ [] }

-- Two jobs wait; the second was created first.
abbrev two_waiting : Database
two_waiting = record empty_queue {
  jobs = queued_job ∷ record queued_job { id = b'i'; created_at = 3 } ∷ [];
}

abbrev leasing : Tx (Option LeaseResponse)
leasing = lease_job env (λ i n. 10) (λ i. 900 + i) b'a' asking two_waiting

abbrev leased_job : JobRow
leased_job = record queued_job {
  id = b'i';
  created_at = 3;
  state = JobState.running;
  revision = 2;
  attempt_count = 1;
  current_attempt_id = some b'a';
  current_fence = 1;
  lease_expires_at = some 40;
  updated_at = 10;
}

abbrev lease_given : LeaseResponse
lease_given = record {
  job = answer_of leased_job;
  attempt = record {
    id = b'a';
    attempt_number = 1;
    fence = 1;
    worker_id = codes "w";
    lease_expires_at = 40;
  };
}

leasing_answers : leasing.1 ≡ ok (some lease_given)
unfolding lease_job lease_next lease_row lease_answer claim_job insert_attempt supported_kinds
    after_reap reap_expired reap_one valid_worker_id select select_all select_first update_rows
    load_job text_eq job_record
leasing_answers = refl

lease_job-Serves_example :
    Serves (reap_expired env (λ i n. 10) (λ i. 900 + i) two_waiting).0.jobs (some lease_given)
lease_job-Serves_example =
    lease_job-Serves env (λ i n. 10) (λ i. 900 + i) b'a' asking two_waiting leasing.0
      (some lease_given) (ap (λ x. (leasing.0, x)) leasing_answers)
