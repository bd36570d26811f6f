-- ===== src/Runtime/Again.antt =====
-- Observations of crates/control/src/runtime_policy.rs that are sent again.
use hostlet_app.Base.{
  ◌≡◌, refl, sym, ap, Bool, true, false, Option, none, some, List, [], ◌∷◌, ◌++◌, inl, inr,
  if◌then◌else◌, Bool-cases,
}
use mathlib.Core.Option.{some-injective}
use hostlet_app.Base.Text.{Text, text_eq, text_eq_refl, text_eq→eq}
use hostlet_app.Base.Table.{none-some, select}
use hostlet_app.Api.{ApiError, Result, ok, err, conflict}
use hostlet_app.Api.Answers.{ok_answer}
use hostlet_app.Runtime.Receipt.{AllocationState, ExecutorReceipt}
use hostlet_app.Runtime.Observe.{
  AllocationRow, RuntimeObservationRow, Runtimes, RecordObservationRequest, ObservationResponse,
  state_text, observed_state, state_receipt_valid, validate_state_receipt,
}
use hostlet_app.Runtime.Record.{is_allocation, is_prior, fence_matches, observation_response}

-- An answer as it is given to a request that is sent again.
abbrev pub repeated : ObservationResponse → ObservationResponse
repeated answer = record answer { created = false }

-- What the rows hold of an answered request.
pub record OnRecord (request : RecordObservationRequest) (receipt : ExecutorReceipt) (db : Runtimes)
    (answer : ObservationResponse) : Type 0 where
  pub allocation : AllocationRow
  pub observation : RuntimeObservationRow
  pub found : select (is_allocation request.allocation_id) db.allocations ≡ some allocation
  pub fenced : fence_matches request receipt allocation ≡ true
  pub prior :
      select (is_prior request.receipt_digest allocation.id) db.observations ≡ some observation
  pub in_state : text_eq (state_text observation.state) request.state ≡ true
  pub answered : repeated answer ≡ observation_response false allocation observation

err-ok : {X : Type 0} {e : ApiError} {x : X} → ◌≡◌ {A = Result X} (err e) (ok x) → ⊥
err-ok h = cc

pub select_new :
    {A : Type 0} (p : A → Bool) (xs : List A) (x : A)
    → select p xs ≡ none
    → p x ≡ true
    → select p (xs ++ x ∷ []) ≡ some x
unfolding select
select_new p [] x h k = rw k refl
select_new p (y ∷ ys) x h k = elim (Bool-cases (p y)) [
  | inl hit ↦ absurd (none-some y (sym (rw (select, hit) at h)))
  | inr miss ↦ rw miss (select_new p ys x (rw (select, miss) at h) k)
]

-- One state of those that a text may name.
names_state :
    (t : Text) (named s : AllocationState) (rest : Option AllocationState)
    → (rest ≡ some s → text_eq (state_text s) t ≡ true)
    → (if text_eq t (state_text named) then some named else rest) ≡ some s
    → text_eq (state_text s) t ≡ true
names_state t named s rest otherwise h = elim (Bool-cases (text_eq t (state_text named))) [
  | inl hit ↦
      rw (sym (some-injective named s (rw hit at h)), text_eq→eq t (state_text named) hit)
        (text_eq_refl (state_text named))
  | inr miss ↦ otherwise (rw miss at h)
]

-- A state that is read is written as the text that it was read from.
pub state_text-observed_state :
    (t : Text) (s : AllocationState) → observed_state t ≡ some s → text_eq (state_text s) t ≡ true
unfolding observed_state state_text
state_text-observed_state t s h =
    names_state t AllocationState.running s _
      (names_state t AllocationState.healthy s _ (
        names_state t AllocationState.backoff s _ (
          names_state t AllocationState.stopped s _
            (names_state t AllocationState.cleaned s none (λ e. absurd (none-some s e))))))
      h

pub validate_state_receipt-observed_state :
    (t : Text) (r : ExecutorReceipt) (s : AllocationState)
    → validate_state_receipt t r ≡ ok s
    → observed_state t ≡ some s
unfolding validate_state_receipt
validate_state_receipt-observed_state t r s h = read (observed_state t) h
  where
    read :
        (o : Option AllocationState)
        → (elim o [
          | none ↦ err (conflict "runtime_observation_mismatch")
          | some u ↦
              if state_receipt_valid u r
              then ok u
              else err (conflict "runtime_observation_mismatch")
        ])
          ≡ ok s
        → o ≡ some s
    read none e = absurd (err-ok e)
    read (some u) e = elim (Bool-cases (state_receipt_valid u r)) [
      | inl valid ↦ ap some (ok_answer u s (rw valid at e))
      | inr refused ↦ absurd (err-ok (rw refused at e))
    ]
