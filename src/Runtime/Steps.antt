-- ===== src/Runtime/Steps.antt =====
-- What recording observations does to the tables of crates/control/src/runtime_policy.rs: nothing,
-- or one observation with the move of its allocation. The specification, and the handler against it.
use hostlet_app.Base.{
  ℕ, ◌+◌, ◌≡◌, refl, subst, not, Bool, true, false, Option, none, some, List, any, ltb, ◌==◌, arith,
}
use hostlet_app.Base.Text.{text_eq}
use hostlet_app.Base.Table.{select, select-some}
use hostlet_app.Api.{Result, conflict, unprocessable, not_found}
use hostlet_app.Api.Transactions.{Ends, Ends-at, Ends-if, Ends-found, Ends-try}
use hostlet_app.Runtime.Receipt.{ExecutorReceipt, one_of, validate_executor_receipt}
use hostlet_app.Runtime.Observe.{
  AllocationRow, RuntimeObservationRow, Runtimes, RecordObservationRequest, ObservationResponse,
  state_text, transition_allowed, validate_state_receipt,
}
use hostlet_app.Runtime.Store.{RuntimeEnv, read_receipt, evidence_invalid}
use hostlet_app.Runtime.Record.{
  observation_clashes, is_allocation, is_prior, fence_matches, last_sequence, stored_reasons,
  runtime_observation_row, add_observation, insert_runtime_observation, record_new, answer_prior,
  record_for, record_observation,
}

-- An allocation moves as the table of transitions allows; its observations are numbered on; a
-- receipt is used once.
pub data Observed (db after : Runtimes) : Type 0 where
  stays : after ≡ db → Observed db after
  observes :
      (a : AllocationRow) (o : RuntimeObservationRow)
      → select (is_allocation o.allocation_id) db.allocations ≡ some a
      → transition_allowed a.state o.state ≡ true
      → o.sequence ≡ last_sequence o.allocation_id db.observations + 1
      → any (λ p. text_eq p.receipt_digest o.receipt_digest) db.observations ≡ false
      → after ≡ add_observation o db
      → Observed db after

insert_runtime_observation-Observed :
    (a : AllocationRow) (o : RuntimeObservationRow) (db : Runtimes)
    → select (is_allocation o.allocation_id) db.allocations ≡ some a
    → transition_allowed a.state o.state ≡ true
    → o.sequence ≡ last_sequence o.allocation_id db.observations + 1
    → Ends (Observed db) (insert_runtime_observation a o db)
unfolding insert_runtime_observation
insert_runtime_observation-Observed a o db found allowed next =
    Ends-if (Observed db) (not (one_of stored_reasons o.reason_code)) _ _ (λ _. same _)
      λ _.
        Ends-if (Observed db) (any (λ p. text_eq p.receipt_digest o.receipt_digest) db.observations)
          _ _
          (λ _.
            Ends-found (Observed db) (select (is_prior o.receipt_digest a.id) db.observations)
              (conflict "runtime_receipt_reused") db _ (stays refl) (λ _ _. same _))
          λ unused.
            Ends-if (Observed db) (any (observation_clashes o) db.observations) _ _ (λ _. same _)
              λ _.
                Ends-at (Observed db) (add_observation o db) _
                  (observes a o found allowed next unused refl)
  where
    same : (r : Result ObservationResponse) → Ends (Observed db) (db, r)
    same r = Ends-at (Observed db) db r (stays refl)

flipped : (b : Bool) → not b ≡ false → b ≡ true
flipped b h = ground arith

record_new-Observed :
    (request : RecordObservationRequest) (receipt : ExecutorReceipt) (observed_at new_id : ℕ)
    (a : AllocationRow) (db : Runtimes)
    → select (is_allocation a.id) db.allocations ≡ some a
    → Ends (Observed db) (record_new request receipt observed_at new_id a db)
unfolding record_new runtime_observation_row
record_new-Observed request receipt observed_at new_id a db found =
    Ends-try (Observed db) (validate_state_receipt request.state receipt) db _ (stays refl)
      λ state _.
        Ends-if (Observed db) (not (transition_allowed a.state state)) _ _
          (λ _. Ends-at (Observed db) db _ (stays refl))
          (λ allowed.
            insert_runtime_observation-Observed a
              (runtime_observation_row new_id request receipt observed_at a state db.observations)
              db found (flipped (transition_allowed a.state state) allowed) refl)

record_for-Observed :
    (request : RecordObservationRequest) (receipt : ExecutorReceipt) (observed_at new_id : ℕ)
    (db : Runtimes) (a : AllocationRow)
    → select (is_allocation a.id) db.allocations ≡ some a
    → Ends (Observed db) (record_for request receipt observed_at new_id db a)
unfolding record_for answer_prior
record_for-Observed request receipt observed_at new_id db a found =
    Ends-if (Observed db) (not (fence_matches request receipt a)) _ _ (λ _. same _)
      λ _. prior (select (is_prior request.receipt_digest a.id) db.observations)
  where
    same : (r : Result ObservationResponse) → Ends (Observed db) (db, r)
    same r = Ends-at (Observed db) db r (stays refl)

    prior :
        (o : Option RuntimeObservationRow)
        → Ends {X = ObservationResponse} (Observed db) (elim o [
          | some o ↦ answer_prior request a db o
          | none ↦ record_new request receipt observed_at new_id a db
        ])
    prior none = record_new-Observed request receipt observed_at new_id a db found
    prior (some o) =
        Ends-if (Observed db) (text_eq (state_text o.state) request.state) _ _ (λ _. same _)
          (λ _. same _)

-- A row that is found under an identifier has it.
pub found_own :
    (id : ℕ) (rows : List AllocationRow) (a : AllocationRow)
    → select (is_allocation id) rows ≡ some a
    → select (is_allocation a.id) rows ≡ some a
found_own id rows a h =
    subst (λ i. select (is_allocation i) rows ≡ some a)
      (same_id a.id id (select-some (is_allocation id) rows a h)) h
  where
    same_id : (i j : ℕ) → (i == j) ≡ true → j ≡ i
    same_id i j e = ground arith

pub record_observation-Observed :
    (env : RuntimeEnv) (request : RecordObservationRequest) (now new_id : ℕ) (db : Runtimes)
    → Observed db (record_observation env request now new_id db).0
unfolding record_observation
record_observation-Observed env request now new_id db =
    (Ends-try Q (read_receipt env request.receipt_digest) db _ (stays refl) λ parsed _.
      Ends-found Q parsed (unprocessable "runtime_receipt_invalid") db _ (stays refl) λ receipt _.
        Ends-try Q (validate_executor_receipt receipt) db _ (stays refl) λ _ _.
          Ends-found Q (env.receipt_time receipt.observed_at_unix_ms) evidence_invalid db _
            (stays refl)
            λ observed_at _.
              Ends-if Q (ltb (now + 300000) observed_at) _ _ (λ _. Ends-at Q db _ (stays refl))
                λ _.
                  Ends-found Q (select (is_allocation request.allocation_id) db.allocations)
                    not_found db _ (stays refl)
                    λ a found.
                      record_for-Observed request receipt observed_at new_id db a
                        (found_own request.allocation_id db.allocations a found)).ends
  where
    Q : Runtimes → Type 0
    Q = Observed db
