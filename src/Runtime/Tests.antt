-- ===== src/Runtime/Tests.antt =====
-- One runtime of crates/control/src/runtime_policy.rs, observed as it starts and stops.
use hostlet_app.Base.{
  Option, ℕ, ◌≡◌, refl, sym, ap, inl, inr, ◌==◌, Bool-cases, true, false, none, some, List, [], ◌∷◌,
  if◌then◌else◌, ltb, length, All, arith,
}
use mathlib.Core.Option.{some-injective}
use hostlet_app.Base.Integers.{pos}
use hostlet_app.Base.Text.{Text, codes, text_eq}
use hostlet_app.Base.Table.{none-some, select, update_rows}
use hostlet_app.Base.Counts.{number_of}
use hostlet_app.Api.{ok, err, conflict}
use hostlet_app.Runtime.Receipt.{AllocationState, ExecutorReceipt, ObservedLimits, HealthReceipt}
use hostlet_app.Runtime.Observe.{
  AllocationRow, Runtimes, RecordObservationRequest, ObservationResponse,
}
use hostlet_app.Runtime.Store.{RuntimeEnv, EvidenceFile, read_receipt}
use hostlet_app.Runtime.Record.{is_allocation, last_sequence, record_observation}
use hostlet_app.Runtime.Lives.{
  ObservationCall, ComesFrom, run_observations, run_observations-ComesFrom,
}
use hostlet_app.Runtime.History.{sequences, IsHistory, last_state, run_observations-IsHistory}
use hostlet_app.Runtime.Again.{repeated}
use hostlet_app.Runtime.Healthy.{record_observation-healthy}
use hostlet_app.Runtime.Retries.{record_observation-run_observations}

abbrev digest_a : Text
digest_a = codes "sha256:aaaaaaaaaaaaaaaaaaaaaaaaaaaaaaaaaaaaaaaaaaaaaaaaaaaaaaaaaaaaaaaa"

abbrev digest_b : Text
digest_b = codes "sha256:bbbbbbbbbbbbbbbbbbbbbbbbbbbbbbbbbbbbbbbbbbbbbbbbbbbbbbbbbbbbbbbb"

abbrev adopted_limits : ObservedLimits
adopted_limits = record {
  cgroup_path = codes "/c";
  cpu_max = codes "25000 100000";
  memory_max_bytes = 536870912;
  memory_swap_max_bytes = 0;
  pids_max = 128;
  memory_current_bytes = 0;
  memory_peak_bytes = 0;
  pids_current = 1;
  cpu_usage_usec = 0;
  cpu_nr_throttled = 0;
  cpu_throttled_usec = 0;
  memory_events = record { low = 0; high = 0; max = 0; oom = 0; oom_kill = 0 };
  pids_events = record { max = 0 };
}

abbrev started : ExecutorReceipt
started = record {
  schema = codes "hostlet.runtime.executor-receipt/v1";
  allocation_id = 1;
  generation = 1;
  fence = 1;
  operation = codes "start";
  result = codes "passed";
  status = codes "running";
  reason_code = codes "runtime_started";
  artifact_digest = digest_a;
  runtime_binary_digest = digest_a;
  policy_digest = digest_a;
  capability_digest = some digest_a;
  platform = codes "kvm";
  profile = codes "evidence_gated_owned_fixture";
  sandbox_id = none;
  oci_config_digest = none;
  runsc_status = some (codes "running");
  namespace_inodes = 1 ∷ 2 ∷ [];
  observed_limits = some adopted_limits;
  scratch_observation = none;
  network = some (record {
    rules_digest = some digest_a;
    application_namespace_inode = some 1;
    gateway_namespace_inode = some 2;
    counters = [];
  });
  health = none;
  cleanup = none;
  observed_at_unix_ms = pos 1000;
  has_evaluation = false;
}

abbrev ended : ExecutorReceipt
ended = record started {
  operation = codes "stop";
  status = codes "stopped";
  reason_code = codes "runtime_stopped";
}

abbrev answers_well : ExecutorReceipt
answers_well = record started {
  operation = codes "inspect";
  health = some (record {
    passing = true;
    checks =
        record {
          kind = codes "http";
          address = codes "10.0.0.2";
          port = 3000;
          path = codes "/health";
          status_code = some 200;
          passed = true;
          elapsed_ms = 5;
          reason_code = codes "ok";
        }
        ∷ [];
  });
}

abbrev digest_c : Text
digest_c = codes "sha256:cccccccccccccccccccccccccccccccccccccccccccccccccccccccccccccccc"

-- A store of three receipts, whose files hold 1, 2 and 3 and have the digests above.
abbrev parsed : List ℕ → Option ExecutorReceipt
parsed [] = none
parsed (n ∷ _) = if n == 1 then some started else if n == 2 then some ended else some answers_well

abbrev hex_of : ℕ → Text
hex_of n =
    if n == 1
    then codes "aaaaaaaaaaaaaaaaaaaaaaaaaaaaaaaaaaaaaaaaaaaaaaaaaaaaaaaaaaaaaaaa"
    else if n == 2
    then codes "bbbbbbbbbbbbbbbbbbbbbbbbbbbbbbbbbbbbbbbbbbbbbbbbbbbbbbbbbbbbbbbb"
    else codes "cccccccccccccccccccccccccccccccccccccccccccccccccccccccccccccccc"

abbrev stored : ℕ → Option EvidenceFile
stored n = some (record { in_place = true; private = true; content = n ∷ [] })

unfoldable evidence : RuntimeEnv
unfolding text_eq
evidence = record {
  evidence_file = λ hex.
      if text_eq hex (hex_of 1)
      then stored 1
      else if text_eq hex (hex_of 2)
      then stored 2
      else if text_eq hex (hex_of 3)
      then stored 3
      else none;
  sha256_hex = λ content. elim content [ [] ↦ [] | n ∷ _ ↦ hex_of n ];
  parse_receipt = parsed;
  receipt_time = λ t. elim t [ pos n ↦ some n | _ ↦ none ];
}

abbrev fresh : AllocationRow
fresh = record {
  id = 1;
  account_id = 2;
  project_id = 3;
  deployment_id = 4;
  service_id = 5;
  generation = 1;
  fence = 1;
  state = AllocationState.allocated;
  reason_code = none;
  artifact_digest = digest_a;
  runtime_binary_digest = digest_a;
  policy_digest = digest_a;
  capability_digest = digest_a;
  platform = codes "kvm";
}

abbrev one_allocation : Runtimes
one_allocation = record { allocations = fresh ∷ []; observations = [] }

abbrev runs : RecordObservationRequest
runs = record {
  allocation_id = 1;
  generation = 1;
  fence = 1;
  state = codes "running";
  receipt_digest = digest_a;
}

abbrev stops : RecordObservationRequest
stops = record runs { state = codes "stopped"; receipt_digest = digest_b }

abbrev start_and_stop : List ObservationCall
start_and_stop =
    record { request = runs; now = 2000; new_id = 10 }
    ∷ record { request = stops; now = 3000; new_id = 11 }
    ∷ []

abbrev first_answer : ObservationResponse
first_answer = record {
  created = true;
  id = 10;
  allocation_id = 1;
  generation = 1;
  fence = 1;
  sequence = 1;
  state = codes "running";
  reason_code = codes "runtime_started";
  observed_at = 1000;
}

abbrev states : List AllocationRow → List AllocationState
states [] = []
states (a ∷ rest) = a.state ∷ states rest

stopped_state :
    states (run_observations evidence start_and_stop one_allocation).allocations
    ≡ AllocationState.stopped ∷ []
unfolding run_observations evidence select update_rows
stopped_state = refl

run_observations-ComesFrom_example :
    (b : AllocationRow) × (select
        (is_allocation 1)
        (run_observations evidence start_and_stop one_allocation).allocations
      ≡ some b)
    × ComesFrom fresh b
unfolding select
run_observations-ComesFrom_example =
    run_observations-ComesFrom evidence start_and_stop one_allocation 1 fresh refl

one_allocation-IsHistory : IsHistory one_allocation
unfolding select last_state last_sequence number_of sequences
one_allocation-IsHistory = record {
  in_last_state = λ id a found. first id a found;
  numbered = λ id. tt;
  counted = λ id. refl;
}
  where
    first :
        (id : ℕ) (a : AllocationRow)
        → select (is_allocation id) one_allocation.allocations ≡ some a
        → a.state ≡ AllocationState.allocated
    first id a found = elim (Bool-cases (1 == id)) [
      | inl hit ↦ ap (λ r. r.state) (sym (some-injective fresh a (rw (select, hit) at found)))
      | inr miss ↦ absurd (none-some a (rw (select, miss) at found))
    ]

run_observations-IsHistory_example :
    IsHistory (run_observations evidence start_and_stop one_allocation)
run_observations-IsHistory_example =
    run_observations-IsHistory evidence start_and_stop one_allocation one_allocation-IsHistory

record_observation-run_observations_example :
    record_observation evidence runs 5000 20 (
      run_observations evidence
        (record { request = stops; now = 3000; new_id = 11 } ∷ [])
        (record_observation evidence runs 2000 10 one_allocation).0)
    ≡ (
      run_observations evidence
          (record { request = stops; now = 3000; new_id = 11 } ∷ [])
          (record_observation evidence runs 2000 10 one_allocation).0,
      ok (repeated first_answer),
    )
unfolding record_observation evidence select
record_observation-run_observations_example =
    record_observation-run_observations evidence runs 2000 5000 10 20 one_allocation
      (record_observation evidence runs 2000 10 one_allocation).0 first_answer
      (record { request = stops; now = 3000; new_id = 11 } ∷ []) (omega arith) refl

abbrev healthy_now : RecordObservationRequest
healthy_now = record runs { state = codes "healthy"; receipt_digest = digest_c }

abbrev healthy_answer : ObservationResponse
healthy_answer = record first_answer { id = 12; sequence = 2; state = codes "healthy" }

record_observation-healthy_example :
    (receipt : ExecutorReceipt) × (health : HealthReceipt) × (read_receipt evidence digest_c
      ≡ ok (some receipt))
    × (receipt.health ≡ some health)
    × (ltb 0 (length health.checks) ≡ true)
    × All (λ c. c.status_code ≡ some 200) health.checks
unfolding record_observation evidence select update_rows
record_observation-healthy_example =
    record_observation-healthy evidence healthy_now 2500 12
      (record_observation evidence runs 2000 10 one_allocation).0
      (record_observation evidence healthy_now 2500 12
        (record_observation evidence runs 2000 10 one_allocation).0).0
      healthy_answer refl refl refl

-- A file that is not what its name says is refused.
mismatched_evidence :
    read_receipt (record evidence { sha256_hex = λ _. [] }) digest_a
    ≡ err (conflict "runtime_evidence_digest_mismatch")
unfolding read_receipt evidence
mismatched_evidence = refl
