-- ===== src/Runtime/Resend.antt =====
-- `record_observation` of crates/control/src/runtime_policy.rs on a request that is sent again.
use hostlet_app.Base.{
  ℕ, ◌≡◌, refl, sym, ap, ◌∙◌, subst, not, Bool, true, false, Option, none, some, [], ◌∷◌, any, ◌==◌,
  arith,
}
use hostlet_app.Base.Text.{Text, text_eq, text_eq_refl}
use hostlet_app.Base.Table.{none-some, select, select-before, select-updated}
use hostlet_app.Api.{conflict}
use hostlet_app.Api.Answers.{
  Answers, Answers-err, Answers-ok, Answers-if, Answers-found, Answers-try,
}
use hostlet_app.Runtime.Receipt.{AllocationState, ExecutorReceipt, one_of}
use hostlet_app.Runtime.Observe.{
  AllocationRow, RuntimeObservationRow, Runtimes, RecordObservationRequest, ObservationResponse,
  state_text, transition_allowed, validate_state_receipt,
}
use hostlet_app.Runtime.Record.{
  observation_clashes, is_allocation, is_prior, fence_matches, stored_reasons, set_state,
  runtime_observation_row, observation_response, add_observation, insert_runtime_observation,
  record_new, answer_prior, record_for,
}
use hostlet_app.Runtime.Steps.{Observed, observes, stays}
use hostlet_app.Runtime.Lives.{Observed-ComesFrom}
use hostlet_app.Runtime.Again.{
  repeated, OnRecord, select_new, state_text-observed_state, validate_state_receipt-observed_state,
}

same_test : (i : ℕ) → (i == i) ≡ true
same_test i = ground arith

fence_matches-set_state :
    (request : RecordObservationRequest) (receipt : ExecutorReceipt) (state : AllocationState)
    (reason : Text) (a : AllocationRow)
    → fence_matches request receipt a ≡ true
    → fence_matches request receipt (set_state state reason a) ≡ true
unfolding fence_matches
fence_matches-set_state request receipt state reason a h = h

is_prior-own :
    (digest : Text) (id : ℕ) (o : RuntimeObservationRow)
    → o.receipt_digest ≡ digest
    → o.allocation_id ≡ id
    → is_prior digest id o ≡ true
unfolding is_prior
is_prior-own digest id o same own = rw (same, own, text_eq_refl digest, same_test id) refl

repeated-observation_response :
    (created : Bool) (a b : AllocationRow) (o : RuntimeObservationRow)
    → b.id ≡ a.id
    → b.generation ≡ a.generation
    → b.fence ≡ a.fence
    → repeated (observation_response created a o) ≡ observation_response false b o
unfolding observation_response
repeated-observation_response created a b o i g f = rw (i, g, f) refl

insert_runtime_observation-OnRecord :
    (request : RecordObservationRequest) (receipt : ExecutorReceipt) (a : AllocationRow)
    (o : RuntimeObservationRow) (db : Runtimes)
    → select (is_allocation request.allocation_id) db.allocations ≡ some a
    → fence_matches request receipt a ≡ true
    → select (is_prior request.receipt_digest a.id) db.observations ≡ none
    → o.receipt_digest ≡ request.receipt_digest
    → o.allocation_id ≡ a.id
    → text_eq (state_text o.state) request.state ≡ true
    → Answers (OnRecord request receipt) (insert_runtime_observation a o db)
unfolding insert_runtime_observation add_observation
insert_runtime_observation-OnRecord request receipt a o db found fenced nothing digest own
      in_state =
    Answers-if Q (not (one_of stored_reasons o.reason_code)) _ _ (λ _. Answers-err Q db _)
      λ _.
        Answers-if Q (any (λ p. text_eq p.receipt_digest o.receipt_digest) db.observations) _ _
          (λ _.
            Answers-found Q (select (is_prior o.receipt_digest a.id) db.observations)
              (conflict "runtime_receipt_reused") db _
              λ p there. absurd (
                none-some p (
                  sym nothing
                  ∙ sym (ap (λ d. select (is_prior d a.id) db.observations) digest)
                  ∙ there)))
          λ _.
            Answers-if Q (any (observation_clashes o) db.observations) _ _ (λ _. Answers-err Q db _)
              λ _. Answers-ok Q (add_observation o db) (observation_response true a o) (record {
                allocation = set_state o.state o.reason_code a;
                observation = o;
                found = rw (ap (λ i. a.id == i) own ∙ same_test a.id) at (
                    select-updated (is_allocation request.allocation_id)
                      (is_allocation o.allocation_id) (set_state o.state o.reason_code)
                      db.allocations a (λ _ _. refl) found);
                fenced = fence_matches-set_state request receipt o.state o.reason_code a fenced;
                prior =
                    select_new (is_prior request.receipt_digest a.id) db.observations o nothing
                      (is_prior-own request.receipt_digest a.id o digest own);
                in_state = in_state;
                answered =
                    repeated-observation_response true a (set_state o.state o.reason_code a) o refl
                      refl refl;
              })
  where
    Q : Runtimes → ObservationResponse → Type 0
    Q = OnRecord request receipt

record_new-OnRecord :
    (request : RecordObservationRequest) (receipt : ExecutorReceipt) (observed_at new_id : ℕ)
    (a : AllocationRow) (db : Runtimes)
    → select (is_allocation request.allocation_id) db.allocations ≡ some a
    → fence_matches request receipt a ≡ true
    → select (is_prior request.receipt_digest a.id) db.observations ≡ none
    → Answers (OnRecord request receipt) (record_new request receipt observed_at new_id a db)
unfolding record_new runtime_observation_row
record_new-OnRecord request receipt observed_at new_id a db found fenced nothing =
    Answers-try Q (validate_state_receipt request.state receipt) db _ λ state read.
      Answers-if Q (not (transition_allowed a.state state)) _ _ (λ _. Answers-err Q db _)
        λ _.
          insert_runtime_observation-OnRecord request receipt a
            (runtime_observation_row new_id request receipt observed_at a state db.observations) db
            found fenced nothing refl refl
            (state_text-observed_state request.state state
              (validate_state_receipt-observed_state request.state receipt state read))
  where
    Q : Runtimes → ObservationResponse → Type 0
    Q = OnRecord request receipt

pub record_for-OnRecord :
    (request : RecordObservationRequest) (receipt : ExecutorReceipt) (observed_at new_id : ℕ)
    (db : Runtimes) (a : AllocationRow)
    → select (is_allocation request.allocation_id) db.allocations ≡ some a
    → Answers (OnRecord request receipt) (record_for request receipt observed_at new_id db a)
unfolding record_for answer_prior
record_for-OnRecord request receipt observed_at new_id db a found =
    Answers-if Q (not (fence_matches request receipt a)) _ _ (λ _. Answers-err Q db _)
      λ fenced.
        prior (flipped (fence_matches request receipt a) fenced)
          (select (is_prior request.receipt_digest a.id) db.observations) refl
  where
    Q : Runtimes → ObservationResponse → Type 0
    Q = OnRecord request receipt

    flipped : (b : Bool) → not b ≡ false → b ≡ true
    flipped b h = ground arith

    prior :
        fence_matches request receipt a ≡ true
        → (o : Option RuntimeObservationRow)
        → select (is_prior request.receipt_digest a.id) db.observations ≡ o
        → Answers Q (elim o [
          | some o ↦ answer_prior request a db o
          | none ↦ record_new request receipt observed_at new_id a db
        ])
    prior fenced none nothing =
        record_new-OnRecord request receipt observed_at new_id a db found fenced nothing
    prior fenced (some o) there =
        Answers-if Q (text_eq (state_text o.state) request.state) _ _
          (λ in_state. Answers-ok Q db (observation_response false a o) (record {
            allocation = a;
            observation = o;
            found = found;
            fenced = fenced;
            prior = there;
            in_state = in_state;
            answered = repeated-observation_response false a a o refl refl refl;
          }))
          (λ _. Answers-err Q db _)

-- The rows still hold it after one more request.
pub OnRecord-Observed :
    (request : RecordObservationRequest) (receipt : ExecutorReceipt) (db after : Runtimes)
    (answer : ObservationResponse)
    → Observed db after
    → OnRecord request receipt db answer
    → OnRecord request receipt after answer
unfolding add_observation fence_matches observation_response
OnRecord-Observed request receipt db after answer step h =
    let (b, there, from) =
      Observed-ComesFrom db after request.allocation_id h.allocation step h.found in
    let same_id = ap (λ r. r.id) from.same in
    record {
      allocation = b;
      observation = h.observation;
      found = there;
      fenced = subst (λ r. fence_matches request receipt r ≡ true) (sym from.same) h.fenced;
      prior =
          subst
            (λ i.
              select (is_prior request.receipt_digest i) after.observations ≡ some h.observation)
            (sym same_id) (kept step);
      in_state = h.in_state;
      answered = h.answered ∙ response_of b from.same;
    }
  where
    kept :
        Observed db after
        → select (is_prior request.receipt_digest h.allocation.id) after.observations
          ≡ some h.observation
    kept (stays same) = rw (ap (λ d. d.observations) same) h.prior
    kept (observes _ o _ _ _ _ same) = rw (ap (λ d. d.observations) same) (
        select-before (is_prior request.receipt_digest h.allocation.id) db.observations (o ∷ [])
          h.observation h.prior)

    response_of :
        (b : AllocationRow)
        → b ≡ record h.allocation { state = b.state; reason_code = b.reason_code }
        → observation_response false h.allocation h.observation
          ≡ observation_response false b h.observation
    response_of b same =
        repeated-observation_response false h.allocation b h.observation (ap (λ r. r.id) same)
          (ap (λ r. r.generation) same) (ap (λ r. r.fence) same)
