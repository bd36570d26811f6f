-- ===== src/Admission/Admit.antt =====
-- `admit` of crates/control/src/admission.rs: a hold becomes a slot reservation of the project, or
-- a rollout under the reservation that it has.
use hostlet_app.Base.{
  ℕ, ◌+◌, Bool, true, false, not, ◌&&◌, ◌||◌, Option, none, some, List, [], ◌∷◌, ◌++◌, any, leb,
  ◌==◌, if◌then◌else◌,
}
use hostlet_app.Base.Text.{Text, codes}
use hostlet_app.Base.Table.{select, update_rows}
use hostlet_app.Api.{ok, err, conflict, not_found, database_unavailable, internal}
use hostlet_app.Api.Transactions.{try_ok, found_or}
use hostlet_app.Jobs.Intent.{Header, replay}
use hostlet_app.Jobs.Cancel.{Owner}
use hostlet_app.Admission.Model.{
  HoldState, ReservationState, SlotState, Lifecycle, ReservedReason, EntitlementRow, HoldRow,
  ReservationRow, DeploymentRow, HostingEventRow, Tables,
}
use hostlet_app.Admission.Messages.{
  ReservationRecord, AdmissionResponse, AdmitRequest, AdmissionEnv,
}
use hostlet_app.Admission.Store.{
  is_initial, hold_active, is_released, expire_holds_for_scope, load_hold, load_reservation,
  load_active_reservation,
}
use hostlet_app.Admission.Context.{
  is_project, is_deployment, awaits_admission, lock_entitlement_and_pool, validate_source_proof,
  ensure_lifecycle_allows_hold,
}
use hostlet_app.Admission.Hold.{
  AdmissionTx, OwnerInputs, owner_inputs, ensure_admissible, record_admission, answer_replay,
}

abbrev pub admit_operation : AdmissionEnv → ℕ → ℕ → Text
admit_operation env project deployment =
    codes "admission.consume/" ++ (env.uuid_text project ++ (codes "/" ++ env.uuid_text deployment))

-- WHERE id=$1 AND account_id=$2 AND project_id=$3 AND deployment_id=$4.
abbrev pub hold_for : ℕ → ℕ → ℕ → ℕ → HoldRow → Bool
hold_for id account project deployment h =
    h.id == id
    && (h.account_id == account && (h.project_id == project && h.deployment_id == deployment))

abbrev pub has_id : ℕ → HoldRow → Bool
has_id id h = h.id == id

abbrev pub consume_hold : ℕ → HoldRow → HoldRow
consume_hold now h = record h { state = HoldState.consumed; consumed_at = some now }

abbrev pub queue_deployment : DeploymentRow → DeploymentRow
queue_deployment d = record d { lifecycle = Lifecycle.queued }

abbrev pub awaiting : ℕ → ℕ → ℕ → DeploymentRow → Bool
awaiting account project deployment d =
    is_deployment account project deployment d && awaits_admission d.lifecycle

abbrev pub hosting_event : ℕ → ℕ → ℕ → ℕ → ReservedReason → HostingEventRow
hosting_event id account project deployment reason = record {
  id = id;
  account_id = account;
  project_id = project;
  deployment_id = deployment;
  reason = reason;
}

unfoldable pub project_reserved : ℕ → ℕ → ℕ → ℕ → Tables → Tables
project_reserved event account project deployment db = record db {
  deployments = update_rows (awaiting account project deployment) queue_deployment db.deployments;
  projects =
      update_rows (is_project account project)
        (λ p. record p {
          hosted_slots = 1;
          slot_state = SlotState.reserved;
          revision = p.revision + 1;
        })
        db.projects;
  hosting_events =
      db.hosting_events
      ++ hosting_event event account project deployment ReservedReason.initial_admission ∷ [];
}

-- `rows_affected() != 1`: a deployment's identifier is its primary key, so one row or none passes.
unfoldable pub rollout_admitted : ℕ → ℕ → ℕ → ℕ → Tables → Option Tables
rollout_admitted event account project deployment db =
    if not (any (awaiting account project deployment) db.deployments)
    then none
    else some (record db {
      deployments =
          update_rows (awaiting account project deployment) queue_deployment db.deployments;
      projects =
          update_rows (is_project account project) (λ p. record p { revision = p.revision + 1 })
            db.projects;
      hosting_events =
          db.hosting_events
          ++ hosting_event event account project deployment ReservedReason.rollout_admission ∷ [];
    })

unfoldable pub new_reservation : ℕ → ℕ → ℕ → ℕ → ℕ → EntitlementRow → ℕ → ReservationRow
new_reservation id epoch account project deployment e hold = record {
  id = id;
  account_id = account;
  project_id = project;
  first_deployment_id = deployment;
  entitlement_id = e.id;
  capacity_pool_key = e.capacity_pool_key;
  initial_hold_id = hold;
  reservation_epoch = epoch;
  state = ReservationState.reserved;
  retention_reason = none;
  release_observation_id = none;
  released_at = none;
}

-- The table's keys: the identifier, the hold, the epoch, and one reservation in use per project.
abbrev pub reservation_clashes : ReservationRow → ReservationRow → Bool
reservation_clashes r s =
    s.id == r.id
    || (s.initial_hold_id == r.initial_hold_id
        || (s.reservation_epoch == r.reservation_epoch
            || (s.project_id == r.project_id && not (is_released s.state))))

unfoldable pub insert_reservation :
    ReservationRow → List ReservationRow → Option (List ReservationRow)
insert_reservation r rs = if any (reservation_clashes r) rs then none else some (rs ++ r ∷ [])

-- The fresh identifiers of `admit`.
pub record AdmitIds : Type 0 where
  pub reservation : ℕ
  pub epoch : ℕ
  pub event : ℕ

abbrev pub consume : ℕ → ℕ → Tables → Tables
consume now id db = record db { holds = update_rows (has_id id) (consume_hold now) db.holds }

-- The reservation of an initial hold, or the one that a rollout finds, with the status 201 or 200.
unfoldable pub admit_initial :
    ℕ
    → AdmitIds
    → Owner
    → OwnerInputs
    → EntitlementRow
    → HoldRow
    → Tables
    → Tables
    → AdmissionTx (ReservationRecord × ℕ)
unfolding insert_reservation new_reservation project_reserved load_reservation
admit_initial now ids o inputs e h rollback db =
    let db1 = consume now h.id db in
    found_or
      (insert_reservation
        (new_reservation ids.reservation ids.epoch o.account_id inputs.project inputs.deployment e
          h.id)
        db1.reservations)
      database_unavailable rollback
      (λ reservations.
        let db2 =
          project_reserved ids.event o.account_id inputs.project inputs.deployment
            (record db1 { reservations = reservations }) in
        try_ok (load_reservation db2 o.account_id inputs.project ids.reservation) rollback
          (λ r. (db2, ok (r, 201))))

unfoldable pub admit_rollout :
    ℕ
    → AdmitIds
    → Owner
    → OwnerInputs
    → HoldRow
    → Tables
    → Tables
    → AdmissionTx (ReservationRecord × ℕ)
unfolding rollout_admitted load_active_reservation
admit_rollout now ids o inputs h rollback db =
    let db1 = consume now h.id db in
    try_ok (load_active_reservation db1 o.account_id inputs.project) rollback (λ active.
      found_or active (conflict "slot_reservation_missing") rollback (λ r.
        found_or (rollout_admitted ids.event o.account_id inputs.project inputs.deployment db1)
          internal rollback (λ db2. (db2, ok (r, 200)))))

unfoldable pub admit_kind :
    ℕ
    → AdmitIds
    → Owner
    → OwnerInputs
    → EntitlementRow
    → HoldRow
    → Tables
    → Tables
    → AdmissionTx (ReservationRecord × ℕ)
unfolding admit_initial admit_rollout
admit_kind now ids o inputs e h rollback db =
    if is_initial h.kind
    then admit_initial now ids o inputs e h rollback db
    else admit_rollout now ids o inputs h rollback db

-- What follows once the hold is consumed: the answer, its audit and its record under the key.
unfoldable pub admit_answer :
    AdmissionEnv
    → Owner
    → OwnerInputs
    → AdmitRequest
    → Tables
    → AdmissionTx (ReservationRecord × ℕ)
    → AdmissionTx AdmissionResponse
unfolding record_admission load_hold
admit_answer env o inputs request rollback (db, admitted) = try_ok admitted rollback (λ admission.
    try_ok (load_hold db o.account_id inputs.project request.capacity_hold_id) rollback (λ loaded.
      record_admission env o (admit_operation env inputs.project inputs.deployment) inputs.key
        (env.hash_admit request) "admission.consume" "slot_reservation" (some admission.0.id)
        admission.1
        (record {
          hold = loaded;
          reservation = some admission.0;
          admitted_for_later_execution = true;
          execution_enqueued = false;
        })
        rollback db))

-- A hold that is no longer active, or due: the expiry is committed all the same.
unfoldable pub admit_found :
    AdmissionEnv
    → (ℕ → ℕ)
    → AdmitIds
    → Owner
    → OwnerInputs
    → AdmitRequest
    → EntitlementRow
    → HoldRow
    → Tables
    → Tables
    → AdmissionTx AdmissionResponse
unfolding admit_answer admit_kind
admit_found env clock ids o inputs request e h rollback db =
    if not (hold_active h.state) || leb h.expires_at (clock 2)
    then (db, err (conflict "capacity_hold_expired"))
    else try_ok
        (validate_source_proof (λ n. clock (n + 3)) db o.account_id inputs.project inputs.deployment
          h.source_proof_id)
        rollback
        (λ _.
          try_ok (ensure_lifecycle_allows_hold db o.account_id inputs.project inputs.deployment)
            rollback
            (λ _.
              admit_answer env o inputs request rollback
                (admit_kind (clock 5) ids o inputs e h rollback db)))

unfoldable pub admit_checked :
    AdmissionEnv
    → (ℕ → ℕ)
    → (ℕ → ℕ)
    → AdmitIds
    → Owner
    → OwnerInputs
    → AdmitRequest
    → Tables
    → AdmissionTx AdmissionResponse
unfolding admit_found expire_holds_for_scope ensure_admissible
admit_checked env clock refund_ids ids o inputs request db =
    try_ok (lock_entitlement_and_pool db o.account_id) db (λ e.
      let db1 = expire_holds_for_scope o.account_id e.capacity_pool_key (clock 0) refund_ids db in
      try_ok (ensure_admissible clock o inputs e db1) db (λ _.
        found_or
          (select (hold_for request.capacity_hold_id o.account_id inputs.project inputs.deployment)
            db1.holds)
          not_found db (λ h. admit_found env clock ids o inputs request e h db db1)))

unfoldable pub admit :
    AdmissionEnv
    → (ℕ → ℕ)
    → (ℕ → ℕ)
    → AdmitIds
    → Owner
    → Text
    → Text
    → Header
    → Header
    → AdmitRequest
    → Tables
    → AdmissionTx AdmissionResponse
unfolding owner_inputs admit_checked answer_replay replay
admit env clock refund_ids ids o project_path deployment_path if_match key_header request db =
    try_ok (owner_inputs env project_path deployment_path if_match key_header) db (λ inputs.
      try_ok
        (replay env.json_admission.parse db.shared o.account_id
          (admit_operation env inputs.project inputs.deployment) inputs.key
          (env.hash_admit request))
        db (answer_replay o db (admit_checked env clock refund_ids ids o inputs request db)))
