-- ===== src/Admission/Tests.antt =====
-- Runs of the handlers of crates/control/src/admission.rs at concrete tables.
use hostlet_app.Base.{◌+◌, ◌≤◌, ◌<◌, ◌≡◌, refl, true, false, some, none, [], ◌∷◌, arith}
use hostlet_app.Base.Integers.{pos}
use hostlet_app.Base.Text.{codes, text_eq}
use hostlet_app.Base.Table.{select}
use hostlet_app.Base.Counts.{number_of, sum_of}
use hostlet_app.Api.{ok, err, conflict}
use hostlet_app.Admission.Model.{
  HoldKind, HoldState, ReservationState, EntitlementRow, HoldRow, Tables,
}
use hostlet_app.Admission.Messages.{AdmissionResponse, EntitlementSummary, BuildUsageResponse}
use hostlet_app.Admission.Store.{
  is_pool, pool_slot_use, pool_rollout_use, row_seconds, hold_active, expire_holds_for_scope,
}
use hostlet_app.Admission.Context.{
  validate_source_proof, ensure_lifecycle_allows_hold, ensure_capacity_available,
  lock_entitlement_and_pool,
}
use hostlet_app.Admission.Admit.{hold_for, admit_checked, admit}
use hostlet_app.Admission.Usage.{record_build_usage}
use hostlet_app.Admission.Queries.{get_entitlement}
use hostlet_app.Admission.Machine.{run_calls}
use hostlet_app.Admission.Meter.{outstanding}
use hostlet_app.Admission.Limits.{WithinLimits}
use hostlet_app.Admission.Safety.{
  Untouched-WithinLimits, run_calls-pool_slot_use, run_calls-get_entitlement,
}
use hostlet_app.Admission.AdmitLaws.{Moves, ShowsConsumed, admit_checked-Moves}
use hostlet_app.Admission.FailLaws.{Refused, admit-Refused}
use hostlet_app.Admission.ReceiptLaws.{record_build_usage-run_calls}
use hostlet_app.Admission.Samples.{
  sample_env, start, with_hold, pool_name, pool, entitlement, held, clock_at, fresh_ids, owner,
  owner_call, inputs, admit_ids, admit_request, quoted_one, build_debit, read_usage-print_usage,
}

-- One slot is held once the owner has asked for it.
held_slots : pool_slot_use (run_calls sample_env held start) pool_name ≡ 1
unfolding run_calls pool_slot_use select validate_source_proof ensure_lifecycle_allows_hold
    ensure_capacity_available
held_slots = refl

pool_listed : select (is_pool pool_name) (run_calls sample_env held start).pools ≡ some pool
unfolding run_calls select validate_source_proof ensure_lifecycle_allows_hold
    ensure_capacity_available
pool_listed = refl

run_calls-pool_slot_use_example :
    (pool_slot_use (run_calls sample_env held start) pool_name ≤ 1)
    × (pool_rollout_use (run_calls sample_env held start) pool_name ≤ 1)
run_calls-pool_slot_use_example =
    run_calls-pool_slot_use sample_env held start (refl, refl, refl) pool_name pool pool_listed

abbrev summary : EntitlementSummary
summary = record {
  hosted_slot_limit = 1;
  hosted_slots_used = 0;
  active_initial_holds = 1;
  build_seconds_limit = 100;
  build_seconds_debited = 0;
  build_seconds_credited = 0;
  build_seconds_remaining = 100;
  period_starts_at = 0;
  period_ends_at = 1000;
}

summary_shown : get_entitlement (run_calls sample_env held start) 1 ≡ ok summary
unfolding run_calls get_entitlement select validate_source_proof ensure_lifecycle_allows_hold
    ensure_capacity_available
summary_shown = refl

run_calls-get_entitlement_example :
    (0 + 1 ≤ 1)
    × (100
          + sum_of row_seconds
              (outstanding (run_calls sample_env held start).usage 1)
              (run_calls sample_env held start).usage
        ≡ 100)
run_calls-get_entitlement_example =
    run_calls-get_entitlement sample_env held start (refl, refl, refl) 1 summary summary_shown

with_hold-WithinLimits : WithinLimits with_hold
unfolding number_of select
with_hold-WithinLimits = (
  record {
    hold_ids = (tt, tt);
    reservation_ids = tt;
    hold_pools = ((entitlement, refl, refl), tt);
    pool_slots = λ key p found. ground (arith, found);
    pool_rollouts = λ key p found. ground (arith, found);
    account_slots = λ account e found. ground (arith, found);
  },
  (Untouched-WithinLimits start (refl, refl, refl)).1,
)

abbrev admitted : AdmissionResponse
admitted = record {
  hold = record {
    id = 21;
    kind = HoldKind.initial;
    state = HoldState.consumed;
    project_id = 2;
    deployment_id = 3;
    source_proof_id = 5;
    expires_at = 160;
  };
  reservation = some (record {
    id = 41;
    project_id = 2;
    first_deployment_id = 3;
    state = ReservationState.reserved;
    reservation_epoch = 42;
    retention_reason = none;
  });
  admitted_for_later_execution = true;
  execution_enqueued = false;
}

abbrev after_admission : Tables
after_admission =
    (admit_checked sample_env (clock_at 120) fresh_ids admit_ids owner inputs admit_request
      with_hold).0

admit_answers :
    admit_checked sample_env (clock_at 120) fresh_ids admit_ids owner inputs admit_request with_hold
    ≡ (after_admission, ok admitted)
unfolding admit_checked select validate_source_proof ensure_lifecycle_allows_hold
    lock_entitlement_and_pool text_eq
admit_answers = refl

admit_checked-Moves_example :
    (e : EntitlementRow) × (h : HoldRow) × (select
        (hold_for 21 1 2 3)
        (expire_holds_for_scope 1 e.capacity_pool_key 120 fresh_ids with_hold).holds
      ≡ some h)
    × (hold_active h.state ≡ true)
    × (120 < h.expires_at)
    × Moves 120 h
        (expire_holds_for_scope 1 e.capacity_pool_key 120 fresh_ids with_hold)
        after_admission
    × ShowsConsumed h admitted
admit_checked-Moves_example =
    admit_checked-Moves sample_env (clock_at 120) fresh_ids admit_ids owner inputs admit_request
      with_hold after_admission admitted with_hold-WithinLimits admit_answers

-- The hold's time is over at 200.
abbrev late : Tables
late =
    (admit sample_env (clock_at 200) fresh_ids admit_ids owner (2 ∷ []) (3 ∷ []) quoted_one
      owner_call.key_header admit_request with_hold).0

late_admission :
    admit sample_env
      (clock_at 200)
      fresh_ids
      admit_ids
      owner
      (2 ∷ [])
      (3 ∷ [])
      quoted_one
      owner_call.key_header
      admit_request
      with_hold
    ≡ (late, err (conflict "capacity_hold_expired"))
unfolding admit select lock_entitlement_and_pool text_eq
late_admission = refl

admit-Refused_example :
    Refused (clock_at 200) fresh_ids owner with_hold late (conflict "capacity_hold_expired")
admit-Refused_example =
    admit-Refused sample_env (clock_at 200) fresh_ids admit_ids owner admit_request (2 ∷ [])
      (3 ∷ []) quoted_one owner_call.key_header with_hold late (conflict "capacity_hold_expired")
      late_admission

abbrev debited : BuildUsageResponse
debited = record {
  id = 31;
  kind = codes "debit";
  attempt_id = 4;
  seconds = 60;
  debit_event_id = none;
  build_seconds_remaining = pos 40;
  execution_enqueued = false;
}

abbrev after_debit : Tables
after_debit = (record_build_usage sample_env 100 build_debit start).0

debit_answers : record_build_usage sample_env 100 build_debit start ≡ (after_debit, ok debited)
unfolding record_build_usage select lock_entitlement_and_pool text_eq
debit_answers = refl

-- Between the report and its repeat the owner's requests for a hold are made.
record_build_usage-run_calls_example :
    record_build_usage sample_env 5000 build_debit (run_calls sample_env held after_debit)
    ≡ (run_calls sample_env held after_debit, ok debited)
record_build_usage-run_calls_example =
    record_build_usage-run_calls sample_env held 100 5000 build_debit start after_debit debited
      read_usage-print_usage debit_answers
