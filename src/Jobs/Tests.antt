-- ===== src/Jobs/Tests.antt =====
-- A small queue: a job is created, leased and reported on.
use hostlet_app.Base.{◌+◌, ap, ◌-◌, ◌≡◌, refl, inl, List, [], ◌∷◌, All, arith}
use hostlet_app.Base.Text.{codes, text_eq, split}
use hostlet_app.Base.Table.{In, select, select_all, select_first, update_rows}
use hostlet_app.Jobs.Model.{JobState, JobRow, EffectRow, Database}
use hostlet_app.Base.Integers.{pos}
use hostlet_app.Jobs.Messages.{LeaseIdentityRequest, ResolveCredentialsRequest}
use hostlet_app.Jobs.Checks.{valid_source_commit, valid_worker_id, valid_outcome, Tx}
use hostlet_app.Jobs.Intent.{replay, store_replay, idempotency_key, if_match_revision, read_digits}
use hostlet_app.Jobs.Create.{create_job, check_request, insert_job, new_job, resolve_refs}
use hostlet_app.Jobs.Reap.{reap_expired, reap_one, insert_effect, is_expired, reap_job, reap_audit}
use hostlet_app.Jobs.Store.{load_job, job_record, live_attempt}
use hostlet_app.Jobs.Cancel.{cancel_job, cancel_found, cancel_row}
use hostlet_app.Jobs.Lease.{
  renew_job, lease_job, lease_next, insert_attempt, supported_kinds, claim_job, after_reap,
}
use hostlet_app.Jobs.Complete.{complete_job, effective, finish_job}
use hostlet_app.Jobs.Credentials.{resolve_credentials}
use hostlet_app.Base.Growth.{Grows}
use hostlet_app.Jobs.Steps.{JobSteps, Born, SameJob, NoLess, IsSound}
use hostlet_app.Jobs.Advance.{UniqueIds}
use hostlet_app.Jobs.Machine.{Command, run, run-refines, run-IsSound, run-monotone, run-terminal}
use hostlet_app.Jobs.EffectLaws.{UniqueEffects}
use hostlet_app.Jobs.Outcomes.{run-UniqueEffects}
use hostlet_app.Api.{ok}
use hostlet_app.Base.Counts.{number_of}
use hostlet_app.Jobs.Drain.{reap_expired-number_of}
use hostlet_app.Jobs.Fencing.{IsRefused, stale_worker-IsRefused}
use hostlet_app.Jobs.Samples.{
  held_queue, env, empty_queue, first_job, lease_first, done_report, complete_first, cancel_leased,
  queued_job, canceled_job, finished_job, holding, later,
}

-- The jobs after some requests on an empty queue.
jobs_after : List Command → List JobRow
unfolding run create_job cancel_job lease_job complete_job check_request valid_source_commit replay
    store_replay select select_first update_rows load_job text_eq reap_expired reap_one lease_next
    insert_attempt insert_job new_job idempotency_key if_match_revision read_digits split
    valid_worker_id supported_kinds cancel_found cancel_row effective finish_job claim_job
    after_reap live_attempt valid_outcome insert_effect job_record select_all resolve_refs
jobs_after cs = (run env cs empty_queue).jobs

created_queue : (run env (first_job ∷ []) empty_queue).jobs ≡ queued_job ∷ []
unfolding jobs_after
created_queue = refl

canceled_queue :
    (run env (first_job ∷ lease_first ∷ cancel_leased ∷ []) empty_queue).jobs ≡ canceled_job ∷ []
unfolding jobs_after
canceled_queue = refl

finished_queue :
    (run env (first_job ∷ lease_first ∷ complete_first ∷ []) empty_queue).jobs ≡ finished_job ∷ []
unfolding jobs_after
finished_queue = refl

run-refines_example :
    UniqueIds (run env later (holding queued_job)).jobs
    × Grows JobSteps Born (queued_job ∷ []) (run env later (holding queued_job)).jobs
run-refines_example = run-refines env later (holding queued_job) (tt, tt)

run-IsSound_example :
    UniqueIds (run env (first_job ∷ later) empty_queue).jobs
    × All IsSound (run env (first_job ∷ later) empty_queue).jobs
run-IsSound_example = run-IsSound env (first_job ∷ later) empty_queue refl

run-monotone_example :
    (k : JobRow) × In k (run env later (holding queued_job)).jobs
    × SameJob queued_job k
    × NoLess queued_job k
run-monotone_example = run-monotone env later (holding queued_job) queued_job (tt, tt) (inl refl)

run-terminal_example : In finished_job (run env later (holding finished_job)).jobs
run-terminal_example =
    run-terminal env later (holding finished_job) finished_job (tt, tt) (inl refl) refl

abbrev renewal : LeaseIdentityRequest
renewal = record { worker_id = codes "w"; attempt_id = b'a'; fence = pos 1 }

abbrev reading : ResolveCredentialsRequest
reading = record {
  worker_id = codes "w";
  attempt_id = b'a';
  fence = pos 1;
  secret_version_ids = [];
}

stale_worker-IsRefused_example :
    let db = run env later (holding canceled_job) in
    IsRefused db (renew_job env (λ n. 16) (codes "j") renewal db)
    × IsRefused db (complete_job env (λ n. 16) 78 (codes "j") done_report db)
    × IsRefused db (resolve_credentials env 16 (codes "j") reading db)
stale_worker-IsRefused_example =
    stale_worker-IsRefused env later (holding canceled_job) canceled_job (codes "j") (λ n. 16) 78 16
      renewal done_report reading (tt, tt) (inl refl) refl (omega arith) (omega arith) (omega arith)

abbrev finished_effect : EffectRow
finished_effect = record {
  id = 77;
  account_id = 1;
  project_id = b'p';
  job_id = b'j';
  attempt_id = b'a';
  fence = 1;
  outcome_state = JobState.succeeded;
  outcome_code = codes "bookkeeping_complete";
  response_body = [];
  completion_hash = codes "succeeded";
}

abbrev finished_database : Database
finished_database = record (holding finished_job) { effects = finished_effect ∷ [] }

run-UniqueEffects_example :
    UniqueEffects (run env later finished_database).effects
    × In finished_effect (run env later finished_database).effects
run-UniqueEffects_example =
    run-UniqueEffects env later finished_database finished_effect (tt, tt) (inl refl)

abbrev reaping : Tx (Unit {0})
reaping = reap_expired env (λ i n. 50) (λ i. 900 + i) held_queue

reaping_answers : reaping.1 ≡ ok tt
unfolding reap_expired reap_one reap_job reap_audit select select_first update_rows
reaping_answers = refl

reap_expired-number_of_example :
    number_of (is_expired 50) reaping.0.jobs ≡ number_of (is_expired 50) held_queue.jobs - 64
reap_expired-number_of_example =
    reap_expired-number_of env 50 (λ i. 900 + i) held_queue reaping.0 (tt, tt)
      (ap (λ x. (reaping.0, x)) reaping_answers)
