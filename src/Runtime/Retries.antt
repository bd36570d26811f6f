-- ===== src/Runtime/Retries.antt =====
-- Requests of crates/control/src/runtime_policy.rs that are sent again after any others.
use hostlet_app.Base.{ℕ, ◌+◌, ◌≤◌, ◌≡◌, sym, ap, ◌∙◌, false, some, List, [], ◌∷◌, ltb, arith}
use hostlet_app.Base.Table.{select}
use hostlet_app.Api.{ok, unprocessable, not_found}
use hostlet_app.Api.Answers.{
  Answers, Answers-err, Answers-if, Answers-found, Answers-try, Answers-map,
}
use hostlet_app.Runtime.Receipt.{ExecutorReceipt, validate_executor_receipt}
use hostlet_app.Runtime.Observe.{Runtimes, RecordObservationRequest, ObservationResponse}
use hostlet_app.Runtime.Store.{RuntimeEnv, read_receipt, evidence_invalid}
use hostlet_app.Runtime.Record.{is_allocation, answer_prior, record_for, record_observation}
use hostlet_app.Runtime.Steps.{record_observation-Observed}
use hostlet_app.Runtime.Lives.{ObservationCall, run_observations}
use hostlet_app.Runtime.Again.{repeated, OnRecord}
use hostlet_app.Runtime.Resend.{OnRecord-Observed, record_for-OnRecord}

-- What the evidence store and the rows hold of a request that was answered at some time.
record Answered (env : RuntimeEnv) (request : RecordObservationRequest) (now : ℕ) (db : Runtimes)
    (answer : ObservationResponse) : Type 0 where
  receipt : ExecutorReceipt
  observed_at : ℕ
  read : read_receipt env request.receipt_digest ≡ ok (some receipt)
  valid : validate_executor_receipt receipt ≡ ok tt
  timed : env.receipt_time receipt.observed_at_unix_ms ≡ some observed_at
  in_time : ltb (now + 300000) observed_at ≡ false
  on_record : OnRecord request receipt db answer

record_observation-Answered :
    (env : RuntimeEnv) (request : RecordObservationRequest) (now new_id : ℕ) (db : Runtimes)
    → Answers (Answered env request now) (record_observation env request now new_id db)
unfolding record_observation
record_observation-Answered env request now new_id db =
    Answers-try Q (read_receipt env request.receipt_digest) db _ λ parsed read.
      Answers-found Q parsed (unprocessable "runtime_receipt_invalid") db _ λ receipt is_receipt.
        Answers-try Q (validate_executor_receipt receipt) db _ λ _ valid.
          Answers-found Q (env.receipt_time receipt.observed_at_unix_ms) evidence_invalid db _
            λ observed_at timed.
              Answers-if Q (ltb (now + 300000) observed_at) _ _ (λ _. Answers-err Q db _)
                λ in_time.
                  Answers-found Q (select (is_allocation request.allocation_id) db.allocations)
                    not_found db _
                    λ a found.
                      Answers-map (OnRecord request receipt) Q _
                        (λ _ _ on_record. record {
                          receipt = receipt;
                          observed_at = observed_at;
                          read = read ∙ ap ok is_receipt;
                          valid = valid;
                          timed = timed;
                          in_time = in_time;
                          on_record = on_record;
                        })
                        (record_for-OnRecord request receipt observed_at new_id db a found)
  where
    Q : Runtimes → ObservationResponse → Type 0
    Q = Answered env request now

OnRecord-run_observations :
    (env : RuntimeEnv) (calls : List ObservationCall) (request : RecordObservationRequest)
    (receipt : ExecutorReceipt) (db : Runtimes) (answer : ObservationResponse)
    → OnRecord request receipt db answer
    → OnRecord request receipt (run_observations env calls db) answer
unfolding run_observations
OnRecord-run_observations env [] request receipt db answer h = h
OnRecord-run_observations env (c ∷ calls) request receipt db answer h =
    let after = (record_observation env c.request c.now c.new_id db).0 in
    OnRecord-run_observations env calls request receipt after answer (
      OnRecord-Observed request receipt db after answer
        (record_observation-Observed env c.request c.now c.new_id db) h)

later_still :
    (now later observed : ℕ)
    → now ≤ later
    → ltb (now + 300000) observed ≡ false
    → ltb (later + 300000) observed ≡ false
later_still now later observed h k = ground arith

record_for_again :
    (request : RecordObservationRequest) (receipt : ExecutorReceipt) (observed_at new_id : ℕ)
    (db : Runtimes) (answer : ObservationResponse) (h : OnRecord request receipt db answer)
    → record_for request receipt observed_at new_id db h.allocation ≡ (db, ok (repeated answer))
unfolding record_for answer_prior
record_for_again request receipt observed_at new_id db answer h =
    rw (record_for, h.fenced, h.prior, answer_prior, h.in_state)
      (ap (λ r. (db, ok r)) (sym h.answered))

record_observation_again :
    (env : RuntimeEnv) (request : RecordObservationRequest) (now later new_id : ℕ) (db : Runtimes)
    (answer : ObservationResponse)
    → now ≤ later
    → Answered env request now db answer
    → record_observation env request later new_id db ≡ (db, ok (repeated answer))
unfolding record_observation
record_observation_again env request now later new_id db answer passed h =
    rw
      (
        record_observation,
        h.read,
        h.valid,
        h.timed,
        later_still now later h.observed_at passed h.in_time,
        h.on_record.found,
      )
      (record_for_again request h.receipt h.observed_at new_id db answer h.on_record)

-- A request that was answered, sent again after any further requests and at no earlier time, has the
-- same answer as one that was recorded before, and changes nothing.
pub record_observation-run_observations :
    (env : RuntimeEnv) (request : RecordObservationRequest) (now later new_id other_id : ℕ)
    (db after : Runtimes) (answer : ObservationResponse) (calls : List ObservationCall)
    → now ≤ later
    → record_observation env request now new_id db ≡ (after, ok answer)
    → record_observation env request later other_id (run_observations env calls after)
      ≡ (run_observations env calls after, ok (repeated answer))
record_observation-run_observations env request now later new_id other_id db after answer calls
      passed answered =
    let first =
      (record_observation-Answered env request now new_id db).answers after answer answered in
    record_observation_again env request now later other_id (run_observations env calls after)
      answer passed
      (record {
        receipt = first.receipt;
        observed_at = first.observed_at;
        read = first.read;
        valid = first.valid;
        timed = first.timed;
        in_time = first.in_time;
        on_record =
            OnRecord-run_observations env calls request first.receipt after answer first.on_record;
      })
