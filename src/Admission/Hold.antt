-- ===== src/Admission/Hold.antt =====
-- `create_hold` of crates/control/src/admission.rs: an owner holds capacity for a deployment for a
-- short time.
use hostlet_app.Base.{
  ℕ, ◌+◌, Bool, false, not, ◌&&◌, Option, none, some, List, [], ◌∷◌, ◌++◌, any, leb, ◌==◌,
  if◌then◌else◌,
}
use hostlet_app.Base.Integers.{ℤ, pos, negsuc, to_nat}
use hostlet_app.Base.Text.{Text, codes}
use hostlet_app.Api.{
  Result, ok, err, ◌>>=◌, ◌>>◌, bad_request, conflict, unprocessable, database_unavailable,
}
use hostlet_app.Api.Transactions.{try_ok, found_or}
use hostlet_app.Jobs.Intent.{
  Header, idempotency_key, if_match_revision, replay, Replay, miss, matched, changed, store_replay,
}
use hostlet_app.Jobs.Cancel.{Owner}
use hostlet_app.Jobs.Store.{owner_audit}
use hostlet_app.Admission.Model.{HoldKind, HoldState, EntitlementRow, HoldRow, Tables}
use hostlet_app.Admission.Messages.{
  ReservationRecord, AdmissionResponse, CreateHoldRequest, AdmissionEnv,
}
use hostlet_app.Admission.Store.{
  is_initial, hold_active, in_flight, expire_holds_for_scope, load_hold, load_active_reservation,
  refresh_admission_response,
}
use hostlet_app.Admission.Context.{
  lock_entitlement_and_pool, ensure_entitlement_active, ensure_build_allowance,
  lock_project_revision, validate_source_proof, ensure_lifecycle_allows_hold,
  ensure_capacity_available,
}
use Prim.Native.String.{String}

abbrev pub AdmissionTx : Type 0 → Type 0
AdmissionTx A = Tables × Result A

-- (5..=300).contains(&ttl_seconds).
abbrev pub valid_ttl : ℤ → Bool
valid_ttl (pos n) = leb 5 n && leb n 300
valid_ttl (negsuc n) = false

abbrev pub path_uuid : AdmissionEnv → Text → Result ℕ
path_uuid env path = elim (env.parse_uuid path) [
  | none ↦ err (bad_request "invalid_id")
  | some id ↦ ok id
]

-- What `create_hold` and `admit` read from a request before the transaction begins.
pub record OwnerInputs : Type 0 where
  pub project : ℕ
  pub deployment : ℕ
  pub expected : ℕ
  pub key : Text

unfoldable pub owner_inputs : AdmissionEnv → Text → Text → Header → Header → Result OwnerInputs
unfolding idempotency_key if_match_revision
owner_inputs env project_path deployment_path if_match key_header = do
  project ← path_uuid env project_path
  deployment ← path_uuid env deployment_path
  expected ← if_match_revision if_match
  key ← idempotency_key key_header
  ok (record { project = project; deployment = deployment; expected = expected; key = key })

abbrev pub hold_operation : AdmissionEnv → ℕ → ℕ → Text
hold_operation env project deployment =
    codes "admission.hold.create/"
    ++ (env.uuid_text project ++ (codes "/" ++ env.uuid_text deployment))

-- The kinds of a hold that an in-flight one of its kind excludes.
abbrev pub conflicting : ℕ → ℕ → HoldKind → HoldRow → Bool
conflicting project deployment HoldKind.initial h =
    h.project_id == project
    && (h.deployment_id == deployment && (is_initial h.kind && hold_active h.state))
conflicting project deployment HoldKind.rollout h =
    h.project_id == project
    && (h.deployment_id == deployment && (not (is_initial h.kind) && in_flight h.state))

abbrev pub kind_for : Option ReservationRecord → HoldKind
kind_for none = HoldKind.initial
kind_for (some _) = HoldKind.rollout

abbrev option_map : {A B : Type 0} → (A → B) → Option A → Option B
option_map f none = none
option_map f (some a) = some (f a)

-- The row that INSERT INTO capacity_holds adds.
unfoldable pub new_hold :
    ℕ
    → ℕ
    → OwnerInputs
    → CreateHoldRequest
    → EntitlementRow
    → Option ReservationRecord
    → ℕ
    → HoldRow
new_hold id account inputs request e reservation now = record {
  id = id;
  account_id = account;
  project_id = inputs.project;
  deployment_id = inputs.deployment;
  source_proof_id = request.source_proof_id;
  entitlement_id = e.id;
  capacity_pool_key = e.capacity_pool_key;
  reservation_id = option_map (λ r. r.id) reservation;
  reservation_epoch = option_map (λ r. r.reservation_epoch) reservation;
  kind = kind_for reservation;
  state = HoldState.active;
  expires_at = now + to_nat request.ttl_seconds;
  consumed_at = none;
  released_at = none;
  created_at = now;
}

-- The table's primary key. Its index on the in-flight holds is the test `conflicting`, which has
-- been made.
unfoldable pub insert_hold : HoldRow → List HoldRow → Option (List HoldRow)
insert_hold h hs = if any (λ k. k.id == h.id) hs then none else some (hs ++ h ∷ [])

-- The audit of an answer and its record under the key.
unfoldable pub record_admission :
    AdmissionEnv
    → Owner
    → Text
    → Text
    → Text
    → String
    → String
    → Option ℕ
    → ℕ
    → AdmissionResponse
    → Tables
    → Tables
    → AdmissionTx AdmissionResponse
unfolding store_replay
record_admission env o operation key hash event target id code response rollback db =
    found_or
      (store_replay (owner_audit o.account_id o.session_id event target id "succeeded" db.shared)
        o.account_id operation key hash code (env.json_admission.print response))
      database_unavailable rollback (λ stored. (record db { shared = stored }, ok response))

-- The insert and the answer.
unfoldable pub create_hold_row :
    AdmissionEnv
    → Owner
    → OwnerInputs
    → CreateHoldRequest
    → Option ReservationRecord
    → HoldRow
    → Tables
    → Tables
    → AdmissionTx AdmissionResponse
unfolding insert_hold record_admission
create_hold_row env o inputs request reservation h rollback db =
    found_or (insert_hold h db.holds) database_unavailable rollback (λ holds.
      let db' = record db { holds = holds } in
      try_ok (load_hold db' o.account_id inputs.project h.id) rollback (λ loaded.
        record_admission env o (hold_operation env inputs.project inputs.deployment) inputs.key
          (env.hash_hold request) "admission.hold.create" "capacity_hold" (some h.id) 201
          (record {
            hold = loaded;
            reservation = reservation;
            admitted_for_later_execution = false;
            execution_enqueued = false;
          })
          rollback db'))

-- The checks that `create_hold` and `admit` begin with, once the holds of the scope that are due
-- have expired.
unfoldable pub ensure_admissible :
    (ℕ → ℕ) → Owner → OwnerInputs → EntitlementRow → Tables → Result (Unit {0})
unfolding ensure_entitlement_active ensure_build_allowance lock_project_revision
ensure_admissible clock o inputs e db = do
  ensure_entitlement_active (clock 1) e
  ensure_build_allowance db o.account_id e
  lock_project_revision db o.account_id inputs.project inputs.expected

unfoldable pub create_hold_checked :
    AdmissionEnv
    → (ℕ → ℕ)
    → (ℕ → ℕ)
    → ℕ
    → Owner
    → OwnerInputs
    → CreateHoldRequest
    → Tables
    → AdmissionTx AdmissionResponse
unfolding expire_holds_for_scope ensure_admissible create_hold_row new_hold load_active_reservation
create_hold_checked env clock ids id o inputs request db =
    try_ok (lock_entitlement_and_pool db o.account_id) db (λ e.
      let db1 = expire_holds_for_scope o.account_id e.capacity_pool_key (clock 0) ids db in
      try_ok (ensure_admissible clock o inputs e db1) db (λ _.
        try_ok
          (validate_source_proof (λ n. clock (n + 2)) db1 o.account_id inputs.project
            inputs.deployment request.source_proof_id)
          db
          (λ _.
            try_ok (ensure_lifecycle_allows_hold db1 o.account_id inputs.project inputs.deployment)
              db
              (λ _.
                try_ok (load_active_reservation db1 o.account_id inputs.project) db (λ reservation.
                  if any (conflicting inputs.project inputs.deployment (kind_for reservation))
                    db1.holds
                  then (db, err (conflict "capacity_hold_exists"))
                  else try_ok (ensure_capacity_available db1 o.account_id e (kind_for reservation))
                      db
                      (λ _.
                        create_hold_row env o inputs request reservation
                          (new_hold id o.account_id inputs request e reservation (clock 4)) db
                          db1))))))

-- What becomes of a request under a key that was used before.
unfoldable pub answer_replay :
    Owner
    → Tables
    → AdmissionTx AdmissionResponse
    → Replay AdmissionResponse
    → AdmissionTx AdmissionResponse
unfolding refresh_admission_response
answer_replay o db fresh (matched response) =
    (db, refresh_admission_response db o.account_id response)
answer_replay o db fresh changed = (db, err (conflict "idempotency_payload_changed"))
answer_replay o db fresh miss = fresh

unfoldable pub create_hold :
    AdmissionEnv
    → (ℕ → ℕ)
    → (ℕ → ℕ)
    → ℕ
    → Owner
    → Text
    → Text
    → Header
    → Header
    → CreateHoldRequest
    → Tables
    → AdmissionTx AdmissionResponse
unfolding owner_inputs create_hold_checked answer_replay replay
create_hold env clock ids id o project_path deployment_path if_match key_header request db =
    if not (valid_ttl request.ttl_seconds)
    then (db, err (unprocessable "invalid_hold_ttl"))
    else try_ok (owner_inputs env project_path deployment_path if_match key_header) db (λ inputs.
      try_ok
        (replay env.json_admission.parse db.shared o.account_id
          (hold_operation env inputs.project inputs.deployment) inputs.key (env.hash_hold request))
        db (answer_replay o db (create_hold_checked env clock ids id o inputs request db)))
