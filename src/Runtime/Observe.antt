-- ===== src/Runtime/Observe.antt =====
-- Rows, requests and states of the observations of crates/control/src/runtime_policy.rs, and the
-- receipts that go with a state.
use hostlet_app.Base.{
  ℕ, not, ◌&&◌, Bool, true, false, Option, none, some, List, [], ◌∷◌, all, leb, ltb, ◌==◌, length,
  is_some, if◌then◌else◌,
}
use hostlet_app.Base.Text.{Text, codes, text_eq}
use hostlet_app.Api.{Result, ok, err, conflict}
use hostlet_app.Runtime.Receipt.{
  AllocationState, ExecutorReceipt, is_some_and, is_none_or, one_of, is_digest,
}

-- Without the columns that observations do not touch.
pub record AllocationRow : Type 0 where
  pub id : ℕ
  pub account_id : ℕ
  pub project_id : ℕ
  pub deployment_id : ℕ
  pub service_id : ℕ
  pub generation : ℕ
  pub fence : ℕ
  pub state : AllocationState
  pub reason_code : Option Text
  pub artifact_digest : Text
  pub runtime_binary_digest : Text
  pub policy_digest : Text
  pub capability_digest : Text
  pub platform : Text

pub record RuntimeObservationRow : Type 0 where
  pub id : ℕ
  pub allocation_id : ℕ
  pub account_id : ℕ
  pub project_id : ℕ
  pub deployment_id : ℕ
  pub service_id : ℕ
  pub generation : ℕ
  pub fence : ℕ
  pub sequence : ℕ
  pub state : AllocationState
  pub reason_code : Text
  pub receipt_digest : Text
  pub observed_at : ℕ

pub record Runtimes : Type 0 where
  pub allocations : List AllocationRow
  pub observations : List RuntimeObservationRow

pub record RecordObservationRequest : Type 0 where
  pub allocation_id : ℕ
  pub generation : ℕ
  pub fence : ℕ
  pub state : Text
  pub receipt_digest : Text

-- With `created` for the status: 201 for a new observation, 200 for one that was recorded before.
pub record ObservationResponse : Type 0 where
  pub created : Bool
  pub id : ℕ
  pub allocation_id : ℕ
  pub generation : ℕ
  pub fence : ℕ
  pub sequence : ℕ
  pub state : Text
  pub reason_code : Text
  pub observed_at : ℕ

unfoldable pub state_text : AllocationState → Text
state_text AllocationState.allocated = codes "allocated"
state_text AllocationState.running = codes "running"
state_text AllocationState.healthy = codes "healthy"
state_text AllocationState.backoff = codes "backoff"
state_text AllocationState.stopped = codes "stopped"
state_text AllocationState.cleaned = codes "cleaned"

-- The state that an observation may report.
unfoldable pub observed_state : Text → Option AllocationState
unfolding text_eq
observed_state t =
    if text_eq t (codes "running")
    then some AllocationState.running
    else if text_eq t (codes "healthy")
    then some AllocationState.healthy
    else if text_eq t (codes "backoff")
    then some AllocationState.backoff
    else if text_eq t (codes "stopped")
    then some AllocationState.stopped
    else if text_eq t (codes "cleaned")
    then some AllocationState.cleaned
    else none

unfoldable pub transition_allowed : AllocationState → AllocationState → Bool
transition_allowed AllocationState.allocated AllocationState.running = true
transition_allowed AllocationState.allocated AllocationState.backoff = true
transition_allowed AllocationState.allocated AllocationState.stopped = true
transition_allowed AllocationState.running AllocationState.running = true
transition_allowed AllocationState.running AllocationState.healthy = true
transition_allowed AllocationState.running AllocationState.backoff = true
transition_allowed AllocationState.running AllocationState.stopped = true
transition_allowed AllocationState.healthy AllocationState.healthy = true
transition_allowed AllocationState.healthy AllocationState.backoff = true
transition_allowed AllocationState.healthy AllocationState.stopped = true
transition_allowed AllocationState.backoff AllocationState.backoff = true
transition_allowed AllocationState.backoff AllocationState.running = true
transition_allowed AllocationState.backoff AllocationState.healthy = true
transition_allowed AllocationState.backoff AllocationState.stopped = true
transition_allowed AllocationState.stopped AllocationState.stopped = true
transition_allowed AllocationState.stopped AllocationState.cleaned = true
transition_allowed AllocationState.cleaned AllocationState.cleaned = true
transition_allowed _ _ = false

unfoldable pub limits_match : ExecutorReceipt → Bool
unfolding text_eq
limits_match r =
    is_some_and
      (λ l.
        text_eq l.cpu_max (codes "25000 100000")
        && (l.memory_max_bytes == 536870912 && (l.memory_swap_max_bytes == 0 && l.pids_max == 128)))
      r.observed_limits

unfoldable pub namespace_proof : ExecutorReceipt → Bool
unfolding is_digest
namespace_proof r =
    leb 2 (length r.namespace_inodes)
    && is_some_and
        (λ n.
          is_some_and is_digest n.rules_digest
          && (is_some n.application_namespace_inode && is_some n.gateway_namespace_inode))
        r.network

unfoldable pub state_receipt_valid : AllocationState → ExecutorReceipt → Bool
unfolding limits_match namespace_proof one_of text_eq
state_receipt_valid AllocationState.allocated r = false
state_receipt_valid AllocationState.running r =
    one_of (codes "start" ∷ codes "inspect" ∷ codes "reconcile" ∷ []) r.operation
    && (text_eq r.status (codes "running")
        && (is_some_and (λ s. text_eq s (codes "running")) r.runsc_status
            && (limits_match r && (namespace_proof r && is_none_or (λ h. not h.passing) r.health))))
state_receipt_valid AllocationState.healthy r =
    one_of (codes "inspect" ∷ codes "reconcile" ∷ []) r.operation
    && (text_eq r.status (codes "running")
        && (text_eq r.result (codes "passed")
            && (is_some_and (λ s. text_eq s (codes "running")) r.runsc_status
                && (limits_match r
                    && (namespace_proof r
                        && is_some_and
                            (λ h.
                              h.passing
                              && (ltb 0 (length h.checks) && all (λ c. c.passed) h.checks))
                            r.health)))))
state_receipt_valid AllocationState.backoff r =
    one_of (codes "record_exit" ∷ codes "inspect" ∷ codes "reconcile" ∷ []) r.operation
    && (limits_match r
        && (namespace_proof r
            && one_of (codes "restart_scheduled" ∷ codes "crash_loop_backoff" ∷ []) r.status))
state_receipt_valid AllocationState.stopped r =
    one_of (codes "stop" ∷ codes "record_exit" ∷ []) r.operation
    && text_eq r.status (codes "stopped")
state_receipt_valid AllocationState.cleaned r =
    text_eq r.operation (codes "cleanup")
    && (text_eq r.status (codes "cleaned")
        && (text_eq r.result (codes "passed")
            && is_some_and
                (λ c.
                  c.sandbox_absent
                  && (c.application_namespace_absent
                      && (c.gateway_namespace_absent
                          && (c.cgroup_absent && (c.mounts_absent && not c.state_retained)))))
                r.cleanup))

-- With the state that was read, where it is one.
unfoldable pub validate_state_receipt : Text → ExecutorReceipt → Result AllocationState
unfolding observed_state state_receipt_valid
validate_state_receipt state r = elim (observed_state state) [
  | none ↦ err (conflict "runtime_observation_mismatch")
  | some s ↦ if state_receipt_valid s r then ok s else err (conflict "runtime_observation_mismatch")
]
