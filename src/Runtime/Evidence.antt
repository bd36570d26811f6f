-- ===== src/Runtime/Evidence.antt =====
-- What `record_observation` of crates/control/src/runtime_policy.rs records, and on what evidence.
use hostlet_app.Base.{
  ℕ, ◌≡◌, refl, sym, ◌∙◌, subst, not, true, Option, none, some, any, inl, inr, if◌then◌else◌,
  Bool-cases,
}
use hostlet_app.Base.Text.{Text, text_eq}
use hostlet_app.Base.Table.{false-true, none-some, select}
use hostlet_app.Api.{ApiError, Result, ok, err, conflict}
use hostlet_app.Api.Answers.{
  ok_answer, Answers, Answers-err, Answers-ok, Answers-if, Answers-found, Answers-try,
}
use hostlet_app.Runtime.Receipt.{AllocationState, ExecutorReceipt, one_of}
use hostlet_app.Runtime.Observe.{
  AllocationRow, RuntimeObservationRow, Runtimes, RecordObservationRequest, ObservationResponse,
  state_text, observed_state, transition_allowed, state_receipt_valid, validate_state_receipt,
}
use hostlet_app.Runtime.Record.{
  observation_clashes, is_prior, fence_matches, stored_reasons, runtime_observation_row,
  observation_response, insert_runtime_observation, record_new, answer_prior, record_for,
}

-- An observation that is new reports a state that its receipt proves.
abbrev pub Proven : ExecutorReceipt → Runtimes → ObservationResponse → Type 0
Proven receipt after answer =
    answer.created ≡ true
    → (s : AllocationState) × (state_receipt_valid s receipt ≡ true) × (answer.state ≡ state_text s)

pub err-ok : {X : Type 0} {e : ApiError} {x : X} → ◌≡◌ {A = Result X} (err e) (ok x) → ⊥
err-ok h = cc

validate_state_receipt-valid :
    (t : Text) (r : ExecutorReceipt) (s : AllocationState)
    → validate_state_receipt t r ≡ ok s
    → state_receipt_valid s r ≡ true
unfolding validate_state_receipt
validate_state_receipt-valid t r s h = read (observed_state t) h
  where
    read :
        (o : Option AllocationState)
        → (elim o [
          | none ↦ err (conflict "runtime_observation_mismatch")
          | some u ↦
              if state_receipt_valid u r
              then ok u
              else err (conflict "runtime_observation_mismatch")
        ])
          ≡ ok s
        → state_receipt_valid s r ≡ true
    read none e = absurd (err-ok e)
    read (some u) e = elim (Bool-cases (state_receipt_valid u r)) [
      | inl valid ↦
          subst (λ v. state_receipt_valid v r ≡ true) (ok_answer u s (rw valid at e)) valid
      | inr refused ↦ absurd (err-ok (rw refused at e))
    ]

record_new-Proven :
    (request : RecordObservationRequest) (receipt : ExecutorReceipt) (observed_at new_id : ℕ)
    (a : AllocationRow) (db : Runtimes)
    → select (is_prior request.receipt_digest a.id) db.observations ≡ none
    → Answers (Proven receipt) (record_new request receipt observed_at new_id a db)
unfolding record_new runtime_observation_row insert_runtime_observation observation_response
record_new-Proven request receipt observed_at new_id a db nothing =
    Answers-try Q (validate_state_receipt request.state receipt) db _ λ state read.
      Answers-if Q (not (transition_allowed a.state state)) _ _ (λ _. Answers-err Q db _)
        λ _. inserted state (validate_state_receipt-valid request.state receipt state read)
  where
    Q : Runtimes → ObservationResponse → Type 0
    Q = Proven receipt

    inserted :
        (state : AllocationState)
        → state_receipt_valid state receipt ≡ true
        → Answers Q (
            insert_runtime_observation a
              (runtime_observation_row new_id request receipt observed_at a state db.observations)
              db)
    inserted state valid =
        Answers-if Q (not (one_of stored_reasons receipt.reason_code)) _ _ (λ _. Answers-err Q db _)
          λ _.
            Answers-if Q
              (any (λ p. text_eq p.receipt_digest request.receipt_digest) db.observations) _ _
              (λ _.
                Answers-found Q (select (is_prior request.receipt_digest a.id) db.observations)
                  (conflict "runtime_receipt_reused") db _
                  λ p there. absurd (none-some p (sym nothing ∙ there)))
              λ _.
                Answers-if Q
                  (any
                    (observation_clashes (
                      runtime_observation_row new_id request receipt observed_at a state
                        db.observations))
                    db.observations)
                  _ _ (λ _. Answers-err Q db _) λ _. Answers-ok Q _ _ (λ _. (state, valid, refl))

pub record_for-Proven :
    (request : RecordObservationRequest) (receipt : ExecutorReceipt) (observed_at new_id : ℕ)
    (db : Runtimes) (a : AllocationRow)
    → Answers (Proven receipt) (record_for request receipt observed_at new_id db a)
unfolding record_for answer_prior observation_response
record_for-Proven request receipt observed_at new_id db a =
    Answers-if Q (not (fence_matches request receipt a)) _ _ (λ _. Answers-err Q db _)
      λ _. prior (select (is_prior request.receipt_digest a.id) db.observations) refl
  where
    Q : Runtimes → ObservationResponse → Type 0
    Q = Proven receipt

    prior :
        (o : Option RuntimeObservationRow)
        → select (is_prior request.receipt_digest a.id) db.observations ≡ o
        → Answers Q (elim o [
          | some o ↦ answer_prior request a db o
          | none ↦ record_new request receipt observed_at new_id a db
        ])
    prior none nothing = record_new-Proven request receipt observed_at new_id a db nothing
    prior (some o) there =
        Answers-if Q (text_eq (state_text o.state) request.state) _ _
          (λ _. Answers-ok Q db _ (λ h. absurd (false-true h))) (λ _. Answers-err Q db _)
