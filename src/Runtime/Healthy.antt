-- ===== src/Runtime/Healthy.antt =====
-- When crates/control/src/runtime_policy.rs records that a runtime is healthy.
use hostlet_app.Base.{
  ℕ, ◌+◌, ◌≡◌, refl, sym, ap, ◌∙◌, subst, not, ◌&&◌, ◌||◌, Bool, true, Option, none, some, List, [],
  ◌∷◌, ltb, ◌==◌, ◌⊎◌, inl, inr, Bool-cases, Option-cases, All, all, length, leb, arith,
}
use hostlet_app.Base.Text.{len, is_empty, codes, text_eq}
use hostlet_app.Base.Table.{false-true, select}
use hostlet_app.Api.{ok, unprocessable, not_found}
use hostlet_app.Api.Answers.{
  Answers, Answers-err, Answers-if, Answers-found, Answers-try, Answers-map,
}
use hostlet_app.Runtime.Receipt.{
  AllocationState, ExecutorReceipt, HealthCheck, HealthReceipt, is_some_and, is_none_or, one_of,
  valid_check, valid_sandbox, valid_network, valid_scratch, is_digest, safe_health_path,
  valid_subject, valid_outcome_fields, valid_evidence, validate_executor_receipt,
}
use hostlet_app.Runtime.Observe.{
  Runtimes, RecordObservationRequest, ObservationResponse, state_text, state_receipt_valid,
  limits_match, namespace_proof,
}
use hostlet_app.Runtime.Store.{RuntimeEnv, read_receipt, evidence_invalid}
use hostlet_app.Runtime.Record.{is_allocation, record_observation}
use hostlet_app.Runtime.Lives.{same_number}
use hostlet_app.Runtime.Evidence.{Proven, err-ok, record_for-Proven}

and_right : (a b : Bool) → (a && b) ≡ true → b ≡ true
and_right a b h = ground arith

and_left : (a b : Bool) → (a && b) ≡ true → a ≡ true
and_left a b h = ground arith

abbrev every_of : List Bool → Bool → Bool
every_of [] b = b
every_of (a ∷ before) b = a && every_of before b

-- The last of several conditions.
last_of : (before : List Bool) (b : Bool) → every_of before b ≡ true → b ≡ true
last_of [] b h = h
last_of (a ∷ before) b h = last_of before b (and_right a (every_of before b) h)

-- The evidence that an observation of this state rests on.
record Evidenced (env : RuntimeEnv) (request : RecordObservationRequest)
    (answer : ObservationResponse) : Type 0 where
  receipt : ExecutorReceipt
  read : read_receipt env request.receipt_digest ≡ ok (some receipt)
  valid : validate_executor_receipt receipt ≡ ok tt
  state : AllocationState
  proven : state_receipt_valid state receipt ≡ true
  named : answer.state ≡ state_text state

record_observation-Evidenced :
    (env : RuntimeEnv) (request : RecordObservationRequest) (now new_id : ℕ) (db : Runtimes)
    → Answers
        (λ _ answer. answer.created ≡ true → Evidenced env request answer)
        (record_observation env request now new_id db)
unfolding record_observation
record_observation-Evidenced env request now new_id db =
    Answers-try Q (read_receipt env request.receipt_digest) db _ λ parsed read.
      Answers-found Q parsed (unprocessable "runtime_receipt_invalid") db _ λ receipt is_receipt.
        Answers-try Q (validate_executor_receipt receipt) db _ λ _ valid.
          Answers-found Q (env.receipt_time receipt.observed_at_unix_ms) evidence_invalid db _
            λ observed_at _.
              Answers-if Q (ltb (now + 300000) observed_at) _ _ (λ _. Answers-err Q db _)
                λ _.
                  Answers-found Q (select (is_allocation request.allocation_id) db.allocations)
                    not_found db _
                    λ a _.
                      Answers-map (Proven receipt) Q _
                        (λ _ answer proven is_new.
                          let (state, proves, named) = proven is_new in
                          record {
                            receipt = receipt;
                            read = read ∙ ap ok is_receipt;
                            valid = valid;
                            state = state;
                            proven = proves;
                            named = named;
                          })
                        (record_for-Proven request receipt observed_at new_id db a)
  where
    Q : Runtimes → ObservationResponse → Type 0
    Q _ answer = answer.created ≡ true → Evidenced env request answer

-- Only one state is written as `healthy`.
is_healthy_text :
    (s : AllocationState) → codes "healthy" ≡ state_text s → s ≡ AllocationState.healthy
unfolding state_text text_eq
is_healthy_text AllocationState.healthy h = refl
is_healthy_text AllocationState.allocated h =
    absurd (false-true (sym (ap (text_eq (codes "healthy")) h)))
is_healthy_text AllocationState.running h =
    absurd (false-true (sym (ap (text_eq (codes "healthy")) h)))
is_healthy_text AllocationState.backoff h =
    absurd (false-true (sym (ap (text_eq (codes "healthy")) h)))
is_healthy_text AllocationState.stopped h =
    absurd (false-true (sym (ap (text_eq (codes "healthy")) h)))
is_healthy_text AllocationState.cleaned h =
    absurd (false-true (sym (ap (text_eq (codes "healthy")) h)))

-- The health of a receipt that proves a healthy runtime.
proves_health :
    (r : ExecutorReceipt)
    → state_receipt_valid AllocationState.healthy r ≡ true
    → is_some_and
        (λ h. h.passing && (ltb 0 (length h.checks) && all (λ c. c.passed) h.checks))
        r.health
      ≡ true
unfolding state_receipt_valid
proves_health r h =
    last_of
      (one_of (codes "inspect" ∷ codes "reconcile" ∷ []) r.operation
        ∷ text_eq r.status (codes "running")
        ∷ text_eq r.result (codes "passed")
        ∷ is_some_and (λ s. text_eq s (codes "running")) r.runsc_status
        ∷ limits_match r
        ∷ namespace_proof r
        ∷ [])
      (is_some_and (λ h. h.passing && (ltb 0 (length h.checks) && all (λ c. c.passed) h.checks))
        r.health)
      h

checks_of_evidence :
    (r : ExecutorReceipt)
    → valid_evidence r ≡ true
    → is_none_or (λ h. all valid_check h.checks) r.health ≡ true
unfolding valid_evidence
checks_of_evidence r h =
    last_of
      (leb (length r.namespace_inodes) 8
        ∷ is_none_or valid_sandbox r.sandbox_id
        ∷ is_none_or is_digest r.oci_config_digest
        ∷ is_none_or (one_of (codes "created" ∷ codes "running" ∷ codes "stopped" ∷ []))
            r.runsc_status
        ∷ is_none_or (λ h. leb (length h.checks) 32) r.health
        ∷ is_none_or valid_network r.network
        ∷ is_none_or (λ l. leb (len l.cgroup_path) 256) r.observed_limits
        ∷ is_none_or valid_scratch r.scratch_observation
        ∷ (not (text_eq r.reason_code (codes "scratch_limit_exceeded"))
            || is_some_and (λ s. s.available_bytes == 0) r.scratch_observation)
        ∷ [])
      (is_none_or (λ h. all valid_check h.checks) r.health) h

valid_checks :
    (r : ExecutorReceipt) (health : HealthReceipt)
    → validate_executor_receipt r ≡ ok tt
    → r.health ≡ some health
    → all valid_check health.checks ≡ true
unfolding validate_executor_receipt valid_evidence
valid_checks r health h there =
    elim (Bool-cases (valid_subject r && (valid_outcome_fields r && valid_evidence r))) [
      | inl passes ↦ rw there at (
          checks_of_evidence r
            (last_of (valid_subject r ∷ valid_outcome_fields r ∷ []) (valid_evidence r) passes))
      | inr refused ↦ absurd (err-ok (rw refused at h))
    ]

passed-status_code :
    (c : HealthCheck) → valid_check c ≡ true → c.passed ≡ true → c.status_code ≡ some 200
unfolding valid_check
passed-status_code c h passed = status c.status_code (
    rw passed at (
      last_of
        (text_eq c.kind (codes "http")
          ∷ not (is_empty c.address)
          ∷ leb (len c.address) 128
          ∷ not (c.port == 0)
          ∷ safe_health_path c.path
          ∷ not (is_empty c.reason_code)
          ∷ leb (len c.reason_code) 96
          ∷ [])
        (not c.passed || is_some_and (λ s. s == 200) c.status_code) h))
  where
    status : (o : Option ℕ) → is_some_and (λ s. s == 200) o ≡ true → o ≡ some 200
    status none e = absurd (false-true e)
    status (some n) e = ap some (same_number n 200 e)

all_passed-status_code :
    (cs : List HealthCheck)
    → all valid_check cs ≡ true
    → all (λ c. c.passed) cs ≡ true
    → All (λ c. c.status_code ≡ some 200) cs
all_passed-status_code [] h k = tt
all_passed-status_code (c ∷ cs) h k = (
  passed-status_code c (and_left _ _ h) (and_left _ _ k),
  all_passed-status_code cs (and_right _ _ h) (and_right _ _ k),
)

-- A runtime is newly recorded as healthy only on a receipt from the evidence store, whose health has a
-- check and whose every check answered 200.
pub record_observation-healthy :
    (env : RuntimeEnv) (request : RecordObservationRequest) (now new_id : ℕ) (db after : Runtimes)
    (answer : ObservationResponse)
    → record_observation env request now new_id db ≡ (after, ok answer)
    → answer.created ≡ true
    → answer.state ≡ codes "healthy"
    → (receipt : ExecutorReceipt) × (health : HealthReceipt) × (read_receipt env
          request.receipt_digest
        ≡ ok (some receipt))
      × (receipt.health ≡ some health)
      × (ltb 0 (length health.checks) ≡ true)
      × All (λ c. c.status_code ≡ some 200) health.checks
record_observation-healthy env request now new_id db after answer answered is_new healthy =
    let e =
      (record_observation-Evidenced env request now new_id db).answers after answer answered
        is_new in
    let is_state = is_healthy_text e.state (sym healthy ∙ e.named) in
    with_health e
      (proves_health e.receipt
        (subst (λ s. state_receipt_valid s e.receipt ≡ true) is_state e.proven))
      (Option-cases e.receipt.health)
  where
    with_health :
        (e : Evidenced env request answer)
        → is_some_and
            (λ h. h.passing && (ltb 0 (length h.checks) && all (λ c. c.passed) h.checks))
            e.receipt.health
          ≡ true
        → (e.receipt.health ≡ none) ⊎ ((h : HealthReceipt) × (e.receipt.health ≡ some h))
        → (receipt : ExecutorReceipt) × (health : HealthReceipt) × (read_receipt env
              request.receipt_digest
            ≡ ok (some receipt))
          × (receipt.health ≡ some health)
          × (ltb 0 (length health.checks) ≡ true)
          × All (λ c. c.status_code ≡ some 200) health.checks
    with_health e proof (inl missing) = absurd (false-true (rw missing at proof))
    with_health e proof (inr (h, there)) =
        let facts =
          and_right h.passing (ltb 0 (length h.checks) && all (λ c. c.passed) h.checks)
            (rw there at proof) in
        (
          e.receipt,
          h,
          e.read,
          there,
          and_left _ _ facts,
          all_passed-status_code h.checks (valid_checks e.receipt h e.valid there)
              (and_right _ _ facts),
        )
