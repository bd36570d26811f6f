-- ===== src/Admission/Observe.antt =====
-- `record_resource_observation` of crates/control/src/admission.rs: what was observed of the
-- resources of a reservation, and what it releases.
use hostlet_app.Base.{
  ℕ, ◌+◌, Bool, true, false, not, ◌&&◌, ◌||◌, Option, none, some, [], ◌∷◌, ◌++◌, any, leb, ◌==◌,
  is_some, is_some_of, if◌then◌else◌,
}
use hostlet_app.Base.Text.{Text, codes, text_eq, len, is_empty}
use hostlet_app.Base.Table.{select, update_rows}
use hostlet_app.Api.{
  Result, ok, err, guard, conflict, unprocessable, not_found, database_unavailable, internal,
}
use hostlet_app.Api.Transactions.{try_ok, found_or}
use hostlet_app.Admission.Model.{
  HoldState, ReservationState, ObservationOutcome, FixtureKind, SlotState, Lifecycle, HoldRow,
  ReservationRow, ObservationRow, ProjectRow, DeploymentRow, Tables,
}
use hostlet_app.Admission.Messages.{
  ResourceObservationRequest, ResourceObservationResponse, AdmissionEnv,
}
use hostlet_app.Admission.Store.{is_initial, is_released, is_reservation, load_reservation}
use hostlet_app.Admission.Context.{is_project, is_deployment}
use hostlet_app.Admission.Hold.{AdmissionTx}
use hostlet_app.Admission.Receipts.{with_receipt, store_fixture}

unfoldable pub read_outcome : Text → Option ObservationOutcome
unfolding text_eq
read_outcome outcome =
    if text_eq outcome (codes "resources_retained")
    then some ObservationOutcome.resources_retained
    else if text_eq outcome (codes "deployment_healthy")
    then some ObservationOutcome.deployment_healthy
    else if text_eq outcome (codes "cleanup_confirmed")
    then some ObservationOutcome.cleanup_confirmed
    else if text_eq outcome (codes "rollout_released")
    then some ObservationOutcome.rollout_released
    else none

-- What an outcome says of the inventory and of the rollout hold.
unfoldable pub fits_outcome : Bool → Bool → Option ObservationOutcome → Bool
fits_outcome empty rollout none = false
fits_outcome empty rollout (some ObservationOutcome.cleanup_confirmed) = empty
fits_outcome empty rollout (some ObservationOutcome.resources_retained) = not empty
fits_outcome empty rollout (some ObservationOutcome.deployment_healthy) = not empty
fits_outcome empty rollout (some ObservationOutcome.rollout_released) = rollout

unfoldable pub validate_observation : ResourceObservationRequest → Result (Unit {0})
unfolding read_outcome fits_outcome text_eq len
validate_observation r =
    guard
      (fits_outcome (text_eq r.resource_inventory (codes "none")) (is_some r.rollout_hold_id)
          (read_outcome r.outcome)
        && (not (is_empty r.proof_ref) && leb (len r.proof_ref) 256))
      (unprocessable "invalid_resource_observation")

-- The rollout hold of this generation of the reservation.
abbrev pub of_generation : ResourceObservationRequest → Text → ℕ → HoldRow → Bool
of_generation r pool id h =
    h.id == id
    && (h.account_id == r.account_id
        && (h.project_id == r.project_id
            && (h.deployment_id == r.deployment_id
                && (text_eq h.capacity_pool_key pool
                    && (is_some_of h.reservation_id r.reservation_id
                        && (is_some_of h.reservation_epoch r.reservation_epoch
                            && not (is_initial h.kind)))))))

abbrev pub hold_consumed : HoldState → Bool
hold_consumed HoldState.consumed = true
hold_consumed _ = false

abbrev pub hold_released : HoldState → Bool
hold_released HoldState.released = true
hold_released _ = false

abbrev linked : ResourceObservationRequest → Text → ℕ → HoldRow → Bool
linked r pool id h = of_generation r pool id h && (hold_consumed h.state || hold_released h.state)

unfoldable pub check_generation :
    ResourceObservationRequest → ReservationRow → Tables → Result (Unit {0})
check_generation r s db = elim r.rollout_hold_id [
  | some id ↦
      guard (any (linked r s.capacity_pool_key id) db.holds)
        (conflict "observation_generation_mismatch")
  | none ↦
      guard (r.deployment_id == s.first_deployment_id) (conflict "observation_generation_mismatch")
]

-- The CHECK on `resource_inventory`.
unfoldable pub known_inventory : Text → Bool
unfolding text_eq
known_inventory inventory =
    text_eq inventory (codes "none")
    || (text_eq inventory (codes "runtime")
        || (text_eq inventory (codes "static_release")
            || (text_eq inventory (codes "database") || text_eq inventory (codes "multiple"))))

abbrev observation_row : ResourceObservationRequest → ObservationOutcome → ObservationRow
observation_row r outcome = record {
  id = r.event_id;
  account_id = r.account_id;
  project_id = r.project_id;
  deployment_id = r.deployment_id;
  reservation_id = r.reservation_id;
  reservation_epoch = r.reservation_epoch;
  rollout_hold_id = r.rollout_hold_id;
  outcome = outcome;
  resource_inventory = r.resource_inventory;
  proof_ref = r.proof_ref;
}

unfoldable pub insert_observation :
    ResourceObservationRequest → ObservationOutcome → Tables → Option Tables
unfolding known_inventory
insert_observation r outcome db =
    if any (λ o. o.id == r.event_id) db.observations || not (known_inventory r.resource_inventory)
    then none
    else some (record db { observations = db.observations ++ observation_row r outcome ∷ [] })

abbrev pub by_id : ℕ → ReservationRow → Bool
by_id id s = s.id == id

abbrev pub retain_reservation : Text → ReservationRow → ReservationRow
retain_reservation inventory s = record s {
  state = ReservationState.resources_retained;
  retention_reason = some inventory;
}

abbrev pub release_reservation : ℕ → ℕ → ReservationRow → ReservationRow
release_reservation observation now s = record s {
  state = ReservationState.released;
  retention_reason = none;
  release_observation_id = some observation;
  released_at = some now;
}

abbrev set_slot : ℕ → SlotState → ProjectRow → ProjectRow
set_slot slots state p = record p {
  hosted_slots = slots;
  slot_state = state;
  revision = p.revision + 1;
}

unfoldable pub retain_resources :
    ResourceObservationRequest → ReservationRow → Tables → Result (Tables × Option ℕ)
retain_resources r s db =
    if is_released s.state
    then err (conflict "slot_reservation_released")
    else ok (
      record db {
        reservations =
            update_rows (by_id r.reservation_id) (retain_reservation r.resource_inventory)
              db.reservations;
        projects =
            update_rows (is_project r.account_id r.project_id)
              (set_slot 1 SlotState.resources_retained) db.projects;
      },
      none,
    )

abbrev set_lifecycle : Lifecycle → DeploymentRow → DeploymentRow
set_lifecycle lifecycle d = record d { lifecycle = lifecycle }

unfoldable pub deployment_healthy :
    ResourceObservationRequest → ReservationRow → Tables → Result (Tables × Option ℕ)
deployment_healthy r s db =
    if is_released s.state
    then err (conflict "slot_reservation_released")
    else ok (
      record db {
        deployments =
            update_rows (is_deployment r.account_id r.project_id r.deployment_id)
              (set_lifecycle Lifecycle.healthy) db.deployments;
      },
      none,
    )

-- lifecycle IN ('admission_required','queued').
abbrev not_started : Lifecycle → Bool
not_started Lifecycle.admission_required = true
not_started Lifecycle.queued = true
not_started _ = false

abbrev never_ran : ResourceObservationRequest → DeploymentRow → Bool
never_ran r d = is_deployment r.account_id r.project_id r.deployment_id d && not_started d.lifecycle

-- A reservation that is released already stays as it is.
unfoldable pub confirm_cleanup :
    ℕ → ResourceObservationRequest → ReservationRow → Tables → Result (Tables × Option ℕ)
confirm_cleanup now r s db =
    if is_released s.state
    then ok (db, none)
    else ok (
      record db {
        reservations =
            update_rows (by_id r.reservation_id) (release_reservation r.event_id now)
              db.reservations;
        projects =
            update_rows (is_project r.account_id r.project_id) (set_slot 0 SlotState.released)
              db.projects;
        deployments =
            update_rows (never_ran r) (set_lifecycle Lifecycle.failed_no_resources) db.deployments;
      },
      none,
    )

abbrev pub to_release : ResourceObservationRequest → Text → ℕ → HoldRow → Bool
to_release r pool id h = of_generation r pool id h && hold_consumed h.state

abbrev pub release_hold : ℕ → HoldRow → HoldRow
release_hold now h = record h { state = HoldState.released; released_at = some now }

-- `rows_affected() != 1`: a hold's identifier is its primary key, so one row or none passes.
unfoldable pub release_rollout :
    ℕ → ResourceObservationRequest → ReservationRow → Tables → Result (Tables × Option ℕ)
release_rollout now r s db = elim r.rollout_hold_id [
  | none ↦ err internal
  | some id ↦
      if not (any (to_release r s.capacity_pool_key id) db.holds)
      then err (conflict "rollout_hold_not_active")
      else ok (
        record db {
          holds = update_rows (to_release r s.capacity_pool_key id) (release_hold now) db.holds;
        },
        some id,
      )
]

unfoldable pub apply_outcome :
    ℕ
    → ResourceObservationRequest
    → ReservationRow
    → ObservationOutcome
    → Tables
    → Result (Tables × Option ℕ)
unfolding retain_resources deployment_healthy confirm_cleanup release_rollout
apply_outcome now r s ObservationOutcome.resources_retained db = retain_resources r s db
apply_outcome now r s ObservationOutcome.deployment_healthy db = deployment_healthy r s db
apply_outcome now r s ObservationOutcome.cleanup_confirmed db = confirm_cleanup now r s db
apply_outcome now r s ObservationOutcome.rollout_released db = release_rollout now r s db

-- The observation is stored, its outcome applied, and the reservation read back.
unfoldable pub observe_reservation :
    AdmissionEnv
    → ℕ
    → ResourceObservationRequest
    → ReservationRow
    → ObservationOutcome
    → Tables
    → AdmissionTx ResourceObservationResponse
unfolding insert_observation apply_outcome load_reservation store_fixture
observe_reservation env now r s outcome db =
    found_or (insert_observation r outcome db) database_unavailable db (λ db1.
      try_ok (apply_outcome now r s outcome db1) db (λ applied.
        try_ok (load_reservation applied.0 r.account_id r.project_id r.reservation_id) db (λ loaded.
          store_fixture env.json_observation r.event_id FixtureKind.resource_observation
            (env.hash_observation r)
            (record {
              id = r.event_id;
              outcome = r.outcome;
              reservation = loaded;
              released_rollout_hold_id = applied.1;
            })
            db applied.0)))

unfoldable pub observe_fresh :
    AdmissionEnv → ℕ → ResourceObservationRequest → Tables → AdmissionTx ResourceObservationResponse
unfolding check_generation observe_reservation read_outcome
observe_fresh env now r db =
    if not (any (is_project r.account_id r.project_id) db.projects)
    then (db, err not_found)
    else found_or
        (select (is_reservation r.reservation_id r.account_id r.project_id) db.reservations)
        not_found db
        (λ s.
          if not (s.reservation_epoch == r.reservation_epoch)
          then (db, err (conflict "reservation_epoch_stale"))
          else try_ok (check_generation r s db) db (λ _.
            found_or (read_outcome r.outcome) internal db
              (λ outcome. observe_reservation env now r s outcome db)))

unfoldable pub record_resource_observation :
    AdmissionEnv → ℕ → ResourceObservationRequest → Tables → AdmissionTx ResourceObservationResponse
unfolding validate_observation with_receipt observe_fresh
record_resource_observation env now r db = try_ok (validate_observation r) db (λ _.
    with_receipt env.json_observation r.event_id FixtureKind.resource_observation
      (env.hash_observation r) db (observe_fresh env now r db))
