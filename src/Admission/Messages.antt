-- ===== src/Admission/Messages.antt =====
-- The requests and responses of crates/control/src/admission.rs, and what it takes from
-- third-party code.
use hostlet_app.Base.{ℕ, Bool, Option}
use hostlet_app.Base.Integers.{ℤ}
use hostlet_app.Base.Text.{Text}
use hostlet_app.Admission.Model.{HoldKind, HoldState, ReservationState, EntitlementRow}

pub record HoldRecord : Type 0 where
  pub id : ℕ
  pub kind : HoldKind
  pub state : HoldState
  pub project_id : ℕ
  pub deployment_id : ℕ
  pub source_proof_id : ℕ
  pub expires_at : ℕ

pub record ReservationRecord : Type 0 where
  pub id : ℕ
  pub project_id : ℕ
  pub first_deployment_id : ℕ
  pub state : ReservationState
  pub reservation_epoch : ℕ
  pub retention_reason : Option Text

pub record AdmissionResponse : Type 0 where
  pub hold : HoldRecord
  pub reservation : Option ReservationRecord
  pub admitted_for_later_execution : Bool
  pub execution_enqueued : Bool

pub record EntitlementSummary : Type 0 where
  pub hosted_slot_limit : ℕ
  pub hosted_slots_used : ℕ
  pub active_initial_holds : ℕ
  pub build_seconds_limit : ℕ
  pub build_seconds_debited : ℕ
  pub build_seconds_credited : ℕ
  pub build_seconds_remaining : ℕ
  pub period_starts_at : ℕ
  pub period_ends_at : ℕ

pub record CreateHoldRequest : Type 0 where
  pub source_proof_id : ℕ
  pub ttl_seconds : ℤ

pub record AdmitRequest : Type 0 where
  pub capacity_hold_id : ℕ

pub record CapacityFixtureRequest : Type 0 where
  pub event_id : ℕ
  pub pool_key : Text
  pub profile : Text
  pub hosted_slot_limit : ℤ
  pub rollout_headroom_limit : ℤ

pub record CapacityFixtureResponse : Type 0 where
  pub pool_key : Text
  pub profile : Text
  pub hosted_slot_limit : ℕ
  pub rollout_headroom_limit : ℕ
  pub revision : ℕ

pub record EntitlementFixtureRequest : Type 0 where
  pub event_id : ℕ
  pub account_id : ℕ
  pub capacity_pool_key : Text
  pub hosted_slot_limit : ℤ
  pub build_seconds_limit : ℤ
  pub period_starts_at : ℕ
  pub period_ends_at : ℕ
  pub state : Text

pub record SourceProofFixtureRequest : Type 0 where
  pub event_id : ℕ
  pub account_id : ℕ
  pub project_id : ℕ
  pub deployment_id : ℕ
  pub configuration_revision_id : ℕ
  pub source_commit : Text
  pub inventory_revision : ℤ
  pub expires_at : ℕ

pub record SourceProofResponse : Type 0 where
  pub id : ℕ
  pub account_id : ℕ
  pub project_id : ℕ
  pub deployment_id : ℕ
  pub configuration_revision_id : ℕ
  pub source_commit : Text
  pub inventory_revision : ℕ
  pub expires_at : ℕ

pub record ResourceObservationRequest : Type 0 where
  pub event_id : ℕ
  pub account_id : ℕ
  pub project_id : ℕ
  pub deployment_id : ℕ
  pub reservation_id : ℕ
  pub reservation_epoch : ℕ
  pub outcome : Text
  pub resource_inventory : Text
  pub proof_ref : Text
  pub rollout_hold_id : Option ℕ

pub record ResourceObservationResponse : Type 0 where
  pub id : ℕ
  pub outcome : Text
  pub reservation : ReservationRecord
  pub released_rollout_hold_id : Option ℕ

pub record BuildUsageRequest : Type 0 where
  pub event_id : ℕ
  pub account_id : ℕ
  pub project_id : ℕ
  pub deployment_id : ℕ
  pub attempt_id : ℕ
  pub kind : Text
  pub seconds : ℤ
  pub debit_event_id : Option ℕ
  pub platform_fault_ref : Option Text

pub record BuildUsageResponse : Type 0 where
  pub id : ℕ
  pub kind : Text
  pub attempt_id : ℕ
  pub seconds : ℕ
  pub debit_event_id : Option ℕ
  pub build_seconds_remaining : ℤ
  pub execution_enqueued : Bool

-- A response as stored JSON, and back.
pub record Json (A : Type 0) : Type 0 where
  pub print : A → Text
  pub parse : Text → Option A

-- Third-party code, as the handlers call it: `uuid` (text of a UUID and its parser), `sha2` over
-- `serde_json` (the hash of a request), `serde_json` (responses as stored JSON). The response to
-- an entitlement fixture is the row itself.
pub record AdmissionEnv : Type 0 where
  pub uuid_text : ℕ → Text
  pub parse_uuid : Text → Option ℕ
  pub hash_hold : CreateHoldRequest → Text
  pub hash_admit : AdmitRequest → Text
  pub hash_capacity : CapacityFixtureRequest → Text
  pub hash_entitlement : EntitlementFixtureRequest → Text
  pub hash_proof : SourceProofFixtureRequest → Text
  pub hash_observation : ResourceObservationRequest → Text
  pub hash_usage : BuildUsageRequest → Text
  pub json_admission : Json AdmissionResponse
  pub json_capacity : Json CapacityFixtureResponse
  pub json_entitlement : Json EntitlementRow
  pub json_proof : Json SourceProofResponse
  pub json_observation : Json ResourceObservationResponse
  pub json_usage : Json BuildUsageResponse
