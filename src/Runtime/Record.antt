-- ===== src/Runtime/Record.antt =====
-- The handler `record_observation` of crates/control/src/runtime_policy.rs.
use hostlet_app.Base.{
  ℕ, ◌+◌, not, ◌&&◌, ◌||◌, Bool, true, false, none, some, List, [], ◌∷◌, ◌++◌, any, ltb, ◌==◌,
  if◌then◌else◌,
}
use hostlet_app.Base.Text.{Text, codes, text_eq}
use hostlet_app.Base.Table.{select, update_rows}
use hostlet_app.Api.{Result, ok, err, conflict, unprocessable, not_found, database_unavailable}
use hostlet_app.Api.Transactions.{try_ok, found_or}
use hostlet_app.Runtime.Receipt.{
  AllocationState, ExecutorReceipt, is_some_and, one_of, validate_executor_receipt,
}
use hostlet_app.Runtime.Observe.{
  AllocationRow, RuntimeObservationRow, Runtimes, RecordObservationRequest, ObservationResponse,
  state_text, transition_allowed, validate_state_receipt,
}
use hostlet_app.Runtime.Store.{RuntimeEnv, read_receipt, evidence_invalid}

abbrev pub Observing : Type 0
Observing = Runtimes × Result ObservationResponse

abbrev pub is_allocation : ℕ → AllocationRow → Bool
is_allocation id a = a.id == id

abbrev pub of_allocation : ℕ → RuntimeObservationRow → Bool
of_allocation id o = o.allocation_id == id

unfoldable pub is_prior : Text → ℕ → RuntimeObservationRow → Bool
unfolding text_eq
is_prior digest id o = text_eq o.receipt_digest digest && of_allocation id o

-- The allocation is the one that the request and the receipt are about, under the same fence.
unfoldable pub fence_matches : RecordObservationRequest → ExecutorReceipt → AllocationRow → Bool
unfolding text_eq
fence_matches request receipt a =
    request.generation == a.generation
    && (request.fence == a.fence
        && (receipt.allocation_id == a.id
            && (receipt.generation == a.generation
                && (receipt.fence == a.fence
                    && (text_eq receipt.artifact_digest a.artifact_digest
                        && (text_eq receipt.runtime_binary_digest a.runtime_binary_digest
                            && (text_eq receipt.policy_digest a.policy_digest
                                && (is_some_and (λ d. text_eq d a.capability_digest)
                                      receipt.capability_digest
                                    && text_eq receipt.platform a.platform))))))))

-- `COALESCE(max(sequence), 0)` over the observations of an allocation.
unfoldable pub last_sequence : ℕ → List RuntimeObservationRow → ℕ
last_sequence id [] = 0
last_sequence id (o ∷ rest) =
    let later = last_sequence id rest in
    if of_allocation id o then (if ltb later o.sequence then o.sequence else later) else later

-- The CHECK on the reasons of runtime_observations.
abbrev pub stored_reasons : List Text
stored_reasons =
    codes "runtime_prepared"
    ∷ codes "runtime_started"
    ∷ codes "runtime_stopped"
    ∷ codes "runtime_cleaned"
    ∷ codes "runtime_exit"
    ∷ codes "runtime_oom"
    ∷ codes "cpu_throttled"
    ∷ codes "process_limit_exceeded"
    ∷ codes "scratch_limit_exceeded"
    ∷ codes "network_connection_limit"
    ∷ codes "health_failed"
    ∷ codes "crash_loop_backoff"
    ∷ codes "runtime_isolation_unverified"
    ∷ codes "runtime_internal_failure"
    ∷ []

unfoldable pub runtime_observation_row :
    ℕ
    → RecordObservationRequest
    → ExecutorReceipt
    → ℕ
    → AllocationRow
    → AllocationState
    → List RuntimeObservationRow
    → RuntimeObservationRow
unfolding last_sequence
runtime_observation_row id request receipt observed_at a state observations = record {
  id = id;
  allocation_id = a.id;
  account_id = a.account_id;
  project_id = a.project_id;
  deployment_id = a.deployment_id;
  service_id = a.service_id;
  generation = a.generation;
  fence = a.fence;
  sequence = last_sequence a.id observations + 1;
  state = state;
  reason_code = receipt.reason_code;
  receipt_digest = request.receipt_digest;
  observed_at = observed_at;
}

unfoldable pub observation_response :
    Bool → AllocationRow → RuntimeObservationRow → ObservationResponse
unfolding state_text
observation_response created a o = record {
  created = created;
  id = o.id;
  allocation_id = a.id;
  generation = a.generation;
  fence = a.fence;
  sequence = o.sequence;
  state = state_text o.state;
  reason_code = o.reason_code;
  observed_at = o.observed_at;
}

abbrev pub set_state : AllocationState → Text → AllocationRow → AllocationRow
set_state state reason a = record a { state = state; reason_code = some reason }

-- The observation and the new state of its allocation.
unfoldable pub add_observation : RuntimeObservationRow → Runtimes → Runtimes
add_observation o db = record {
  allocations =
      update_rows (is_allocation o.allocation_id) (set_state o.state o.reason_code) db.allocations;
  observations = db.observations ++ o ∷ [];
}

-- The table's other keys: the identifier, and a number used once for an allocation.
abbrev pub observation_clashes : RuntimeObservationRow → RuntimeObservationRow → Bool
observation_clashes o p =
    p.id == o.id || (p.allocation_id == o.allocation_id && p.sequence == o.sequence)

-- INSERT … ON CONFLICT (receipt_digest) DO NOTHING, and what follows it.
unfoldable pub insert_runtime_observation :
    AllocationRow → RuntimeObservationRow → Runtimes → Observing
unfolding one_of is_prior observation_response add_observation text_eq
insert_runtime_observation a o db =
    if not (one_of stored_reasons o.reason_code)
    then (db, err database_unavailable)
    else if any (λ p. text_eq p.receipt_digest o.receipt_digest) db.observations
    then found_or (select (is_prior o.receipt_digest a.id) db.observations)
        (conflict "runtime_receipt_reused") db (λ p. (db, ok (observation_response true a p)))
    else if any (observation_clashes o) db.observations
    then (db, err database_unavailable)
    else (add_observation o db, ok (observation_response true a o))

unfoldable pub record_new :
    RecordObservationRequest → ExecutorReceipt → ℕ → ℕ → AllocationRow → Runtimes → Observing
unfolding validate_state_receipt transition_allowed insert_runtime_observation
    runtime_observation_row
record_new request receipt observed_at new_id a db =
    try_ok (validate_state_receipt request.state receipt) db (λ state.
      if not (transition_allowed a.state state)
      then (db, err (conflict "runtime_transition_forbidden"))
      else insert_runtime_observation a
          (runtime_observation_row new_id request receipt observed_at a state db.observations) db)

-- An observation that the receipt has already is answered again.
unfoldable pub answer_prior :
    RecordObservationRequest → AllocationRow → Runtimes → RuntimeObservationRow → Observing
unfolding observation_response state_text text_eq
answer_prior request a db o =
    if text_eq (state_text o.state) request.state
    then (db, ok (observation_response false a o))
    else (db, err (conflict "runtime_receipt_reused"))

unfoldable pub record_for :
    RecordObservationRequest → ExecutorReceipt → ℕ → ℕ → Runtimes → AllocationRow → Observing
unfolding fence_matches is_prior record_new answer_prior
record_for request receipt observed_at new_id db a =
    if not (fence_matches request receipt a)
    then (db, err (conflict "runtime_fence_stale"))
    else (elim (select (is_prior request.receipt_digest a.id) db.observations) [
      | some o ↦ answer_prior request a db o
      | none ↦ record_new request receipt observed_at new_id a db
    ])

-- With the time of the call and the UUID that is drawn for the observation.
unfoldable pub record_observation :
    RuntimeEnv → RecordObservationRequest → ℕ → ℕ → Runtimes → Observing
unfolding read_receipt validate_executor_receipt record_for
record_observation env request now new_id db =
    try_ok (read_receipt env request.receipt_digest) db (λ parsed.
      found_or parsed (unprocessable "runtime_receipt_invalid") db (λ receipt.
        try_ok (validate_executor_receipt receipt) db (λ _.
          found_or (env.receipt_time receipt.observed_at_unix_ms) evidence_invalid db
            (λ observed_at.
              if ltb (now + 300000) observed_at
              then (db, err (unprocessable "runtime_receipt_invalid"))
              else found_or (select (is_allocation request.allocation_id) db.allocations) not_found
                  db (record_for request receipt observed_at new_id db)))))
