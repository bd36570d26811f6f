-- ===== src/Admission/Model.antt =====
-- The tables that crates/control/src/admission.rs works on (migrations/0002_project_graph.sql and
-- 0005_onboarding.sql), without the columns that no statement of it reads. `shared` holds the
-- tables that the job handlers use too: of these the idempotency records and the audit.
use hostlet_app.Base.{ℕ, Bool, List, Option}
use hostlet_app.Base.Text.{Text}
use hostlet_app.Jobs.Model.{Database}

pub record PoolRow : Type 0 where
  pub pool_key : Text
  pub profile : Text
  pub hosted_slot_limit : ℕ
  pub rollout_headroom_limit : ℕ
  pub revision : ℕ

-- The `CHECK` on `admission_entitlements.state`.
pub data EntitlementState : Type 0 where
  active expired revoked : EntitlementState

pub record EntitlementRow : Type 0 where
  pub id : ℕ
  pub account_id : ℕ
  pub capacity_pool_key : Text
  pub hosted_slot_limit : ℕ
  pub build_seconds_limit : ℕ
  pub period_starts_at : ℕ
  pub period_ends_at : ℕ
  pub state : EntitlementState
  pub revision : ℕ

pub data ProofState : Type 0 where
  valid superseded expired : ProofState

pub record ProofRow : Type 0 where
  pub id : ℕ
  pub account_id : ℕ
  pub project_id : ℕ
  pub deployment_id : ℕ
  pub configuration_revision_id : ℕ
  pub source_commit : Text
  pub inventory_revision : ℕ
  pub state : ProofState
  pub expires_at : ℕ

pub data HoldKind : Type 0 where
  initial rollout : HoldKind

pub data HoldState : Type 0 where
  active consumed released expired : HoldState

pub record HoldRow : Type 0 where
  pub id : ℕ
  pub account_id : ℕ
  pub project_id : ℕ
  pub deployment_id : ℕ
  pub source_proof_id : ℕ
  pub entitlement_id : ℕ
  pub capacity_pool_key : Text
  pub reservation_id : Option ℕ
  pub reservation_epoch : Option ℕ
  pub kind : HoldKind
  pub state : HoldState
  pub expires_at : ℕ
  pub consumed_at : Option ℕ
  pub released_at : Option ℕ
  pub created_at : ℕ

pub data ReservationState : Type 0 where
  reserved resources_retained release_pending released : ReservationState

pub record ReservationRow : Type 0 where
  pub id : ℕ
  pub account_id : ℕ
  pub project_id : ℕ
  pub first_deployment_id : ℕ
  pub entitlement_id : ℕ
  pub capacity_pool_key : Text
  pub initial_hold_id : ℕ
  pub reservation_epoch : ℕ
  pub state : ReservationState
  pub retention_reason : Option Text
  pub release_observation_id : Option ℕ
  pub released_at : Option ℕ

pub data ObservationOutcome : Type 0 where
  resources_retained deployment_healthy cleanup_confirmed rollout_released : ObservationOutcome

pub record ObservationRow : Type 0 where
  pub id : ℕ
  pub account_id : ℕ
  pub project_id : ℕ
  pub deployment_id : ℕ
  pub reservation_id : ℕ
  pub reservation_epoch : ℕ
  pub rollout_hold_id : Option ℕ
  pub outcome : ObservationOutcome
  pub resource_inventory : Text
  pub proof_ref : Text

pub data UsageKind : Type 0 where
  debit platform_fault_credit : UsageKind

pub record UsageRow : Type 0 where
  pub id : ℕ
  pub account_id : ℕ
  pub project_id : ℕ
  pub deployment_id : ℕ
  pub entitlement_id : ℕ
  pub attempt_id : ℕ
  pub kind : UsageKind
  pub seconds : ℕ
  pub debit_event_id : Option ℕ
  pub platform_fault_ref : Option Text

-- `admission_reconciliation_intents`: always `refund_required`, pending, because a hold expired.
pub record RefundRow : Type 0 where
  pub id : ℕ
  pub account_id : ℕ
  pub project_id : ℕ
  pub deployment_id : ℕ
  pub hold_id : ℕ

pub data FixtureKind : Type 0 where
  capacity entitlement source_proof resource_observation build_debit build_credit : FixtureKind

pub record ReceiptRow : Type 0 where
  pub event_id : ℕ
  pub kind : FixtureKind
  pub request_hash : Text
  pub response_body : Text

pub data SlotState : Type 0 where
  no_slot admission_required reserved resources_retained release_pending released : SlotState

pub record ProjectRow : Type 0 where
  pub id : ℕ
  pub account_id : ℕ
  pub hosted_slots : ℕ
  pub slot_state : SlotState
  pub current_configuration_revision_id : Option ℕ
  pub revision : ℕ

pub data Lifecycle : Type 0 where
  intent admission_required queued healthy failed_no_resources : Lifecycle
  failed_resources_retained rollback_requested removed : Lifecycle

pub record DeploymentRow : Type 0 where
  pub id : ℕ
  pub account_id : ℕ
  pub project_id : ℕ
  pub configuration_revision_id : ℕ
  pub source_commit : Text
  pub lifecycle : Lifecycle

pub data LifecycleKind : Type 0 where
  rollback removal : LifecycleKind

-- `project_lifecycle_intents`; `requested` says that `state='requested'`.
pub record LifecycleIntentRow : Type 0 where
  pub account_id : ℕ
  pub project_id : ℕ
  pub kind : LifecycleKind
  pub target_deployment_id : Option ℕ
  pub requested : Bool

-- `hosting_state_events` as admission writes them: a slot became reserved, for a reason.
pub data ReservedReason : Type 0 where
  initial_admission rollout_admission : ReservedReason

pub record HostingEventRow : Type 0 where
  pub id : ℕ
  pub account_id : ℕ
  pub project_id : ℕ
  pub deployment_id : ℕ
  pub reason : ReservedReason

-- `active` says that `status='active'`, here and below.
pub record UserAuthorizationRow : Type 0 where
  pub account_id : ℕ
  pub active : Bool
  pub token_expires_at : Option ℕ

pub record InstallationRow : Type 0 where
  pub installation_id : ℕ
  pub active : Bool

pub record BindingRow : Type 0 where
  pub id : ℕ
  pub account_id : ℕ
  pub project_id : ℕ
  pub repository_id : ℕ
  pub installation_id : ℕ
  pub active : Bool

-- `owner_resolve` says that `source='owner_resolve'`.
pub record SourceRevisionRow : Type 0 where
  pub id : ℕ
  pub binding_id : ℕ
  pub account_id : ℕ
  pub project_id : ℕ
  pub repository_id : ℕ
  pub configuration_revision_id : ℕ
  pub commit_sha : Text
  pub owner_resolve : Bool

pub record Tables : Type 0 where
  pub shared : Database
  pub pools : List PoolRow
  pub entitlements : List EntitlementRow
  pub proofs : List ProofRow
  pub holds : List HoldRow
  pub reservations : List ReservationRow
  pub observations : List ObservationRow
  pub usage : List UsageRow
  pub refunds : List RefundRow
  pub receipts : List ReceiptRow
  pub projects : List ProjectRow
  pub deployments : List DeploymentRow
  pub intents : List LifecycleIntentRow
  pub hosting_events : List HostingEventRow
  pub user_authorizations : List UserAuthorizationRow
  pub installations : List InstallationRow
  pub bindings : List BindingRow
  pub source_revisions : List SourceRevisionRow
