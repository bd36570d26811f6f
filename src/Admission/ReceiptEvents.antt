-- ===== src/Admission/ReceiptEvents.antt =====
-- The internal events of crates/control/src/admission.rs and the receipts of the earlier ones.
use hostlet_app.Base.{
  ℕ, ◌≡◌, ◌≢◌, inl, inr, subst, not, ◌||◌, Option, none, some, any, ltb, leb, ◌==◌, Bool-cases,
  Option-cases,
}
use mathlib.Core.Option.{some-injective}
use hostlet_app.Base.Integers.{not_positive, to_nat}
use hostlet_app.Base.Text.{Text}
use hostlet_app.Base.Table.{select, select-before}
use hostlet_app.Api.{Result, ok, err}
use hostlet_app.Api.Transactions.{Ends, Ends-at, Ends-if, Ends-found, Ends-try}
use hostlet_app.Admission.Model.{
  ObservationOutcome, FixtureKind, ReceiptRow, ReservationRow, Tables,
}
use hostlet_app.Admission.Messages.{
  Json, CapacityFixtureRequest, EntitlementFixtureRequest, SourceProofFixtureRequest,
  ResourceObservationRequest, AdmissionEnv,
}
use hostlet_app.Admission.Store.{
  is_pool, of_account, is_released, is_reservation, load_reservation, pool_slot_use,
  pool_rollout_use,
}
use hostlet_app.Admission.Context.{is_project, ensure_source_context}
use hostlet_app.Admission.Receipts.{is_receipt, store_fixture}
use hostlet_app.Admission.Capacity.{
  validate_capacity, upsert_pool, capacity_fresh, put_capacity_fixture, validate_entitlement,
  keeps_period, entitlement_in_use, upsert_entitlement, entitlement_fresh, put_entitlement_fixture,
}
use hostlet_app.Admission.Proofs.{exact_source, not_older, proof_fresh, put_source_proof}
use hostlet_app.Admission.Observe.{
  read_outcome, validate_observation, check_generation, insert_observation, known_inventory,
  to_release, retain_resources, deployment_healthy, confirm_cleanup, release_rollout, apply_outcome,
  observe_reservation, observe_fresh, record_resource_observation,
}
use hostlet_app.Admission.FixtureKeeps.{with_receipt-Ends}
use hostlet_app.Admission.ReceiptKeeps.{HasReceipt}

module _ (event : ℕ) (row : ReceiptRow) where
  abbrev Kept : Tables → Type 0
  Kept = HasReceipt event row

  pub store_fixture-HasReceipt :
      {A : Type 0} (json : Json A) (id : ℕ) (kind : FixtureKind) (hash : Text) (response : A)
      (rollback db : Tables)
      → Kept rollback
      → HasReceipt event row db
      → Ends Kept (store_fixture json id kind hash response rollback db)
  unfolding store_fixture
  store_fixture-HasReceipt json id kind hash response rollback db b c =
      Ends-if Kept (any (is_receipt id) db.receipts) _ _ (λ _. Ends-at Kept rollback _ b)
        (λ _. Ends-at Kept _ _ (select-before (is_receipt event) db.receipts _ row c))

  pub put_capacity_fixture-HasReceipt :
      (env : AdmissionEnv) (r : CapacityFixtureRequest) (db : Tables)
      → HasReceipt event row db
      → Ends (HasReceipt event row) (put_capacity_fixture env r db)
  unfolding put_capacity_fixture capacity_fresh
  put_capacity_fixture-HasReceipt env r db b = Ends-try Kept (validate_capacity r) db _ b λ _ _.
      with_receipt-Ends Kept env.json_capacity r.event_id FixtureKind.capacity (env.hash_capacity r)
        db (capacity_fresh env r db) b
        (Ends-if Kept
          (ltb (to_nat r.hosted_slot_limit) (pool_slot_use db r.pool_key)
            || ltb (to_nat r.rollout_headroom_limit) (pool_rollout_use db r.pool_key))
          _ _ (λ _. Ends-at Kept db _ b)
          λ _.
            Ends-found Kept (select (is_pool r.pool_key) (upsert_pool r db.pools)) _ db _ b λ p _.
              store_fixture-HasReceipt env.json_capacity r.event_id FixtureKind.capacity
                (env.hash_capacity r) _ db (record db { pools = upsert_pool r db.pools }) b b)

  pub put_entitlement_fixture-HasReceipt :
      (env : AdmissionEnv) (id : ℕ) (r : EntitlementFixtureRequest) (db : Tables)
      → HasReceipt event row db
      → Ends (HasReceipt event row) (put_entitlement_fixture env id r db)
  unfolding put_entitlement_fixture entitlement_fresh
  put_entitlement_fixture-HasReceipt env id r db b =
      Ends-try Kept (validate_entitlement r) db _ b λ state _.
        with_receipt-Ends Kept env.json_entitlement r.event_id FixtureKind.entitlement
          (env.hash_entitlement r) db (entitlement_fresh env id r state db) b
          (Ends-if Kept (not (any (is_pool r.capacity_pool_key) db.pools)) _ _
            (λ _. Ends-at Kept db _ b)
            λ _.
              Ends-if Kept (entitlement_in_use r db) _ _ (λ _. Ends-at Kept db _ b)
                λ _.
                  Ends-if Kept
                    (not (keeps_period r (select (of_account r.account_id) db.entitlements))) _ _
                    (λ _. Ends-at Kept db _ b)
                    λ _.
                      Ends-found Kept
                        (select (of_account r.account_id)
                          (upsert_entitlement id r state db.entitlements))
                        _ db _ b
                        λ e _.
                          store_fixture-HasReceipt env.json_entitlement r.event_id
                            FixtureKind.entitlement (env.hash_entitlement r) e db
                            (record db {
                              entitlements = upsert_entitlement id r state db.entitlements;
                            })
                            b b)

  pub put_source_proof-HasReceipt :
      (env : AdmissionEnv) (clock : ℕ → ℕ) (id : ℕ) (r : SourceProofFixtureRequest) (db : Tables)
      → HasReceipt event row db
      → Ends (HasReceipt event row) (put_source_proof env clock id r db)
  unfolding put_source_proof proof_fresh
  put_source_proof-HasReceipt env clock id r db b =
      Ends-if Kept (not_positive r.inventory_revision) _ _ (λ _. Ends-at Kept db _ b)
        λ _.
          Ends-if Kept (leb r.expires_at (clock 0)) _ _ (λ _. Ends-at Kept db _ b)
            λ _.
              with_receipt-Ends Kept env.json_proof r.event_id FixtureKind.source_proof
                (env.hash_proof r) db (proof_fresh env (clock 1) id r db) b
                (Ends-if Kept (not (any (is_project r.account_id r.project_id) db.projects)) _ _
                  (λ _. Ends-at Kept db _ b)
                  λ _.
                    Ends-if Kept (not (any (exact_source r) db.deployments)) _ _
                      (λ _. Ends-at Kept db _ b)
                      λ _.
                        Ends-try Kept
                          (ensure_source_context (clock 1) db r.account_id r.project_id
                            r.deployment_id r.configuration_revision_id r.source_commit)
                          db _ b
                          λ _ _.
                            Ends-if Kept (any (not_older r) db.proofs) _ _
                              (λ _. Ends-at Kept db _ b)
                              λ _.
                                Ends-if Kept (any (λ p. p.id == id) db.proofs) _ _
                                  (λ _. Ends-at Kept db _ b)
                                  λ _.
                                    store_fixture-HasReceipt env.json_proof r.event_id
                                      FixtureKind.source_proof (env.hash_proof r) _ db _ b b)

  insert_observation-HasReceipt :
      (r : ResourceObservationRequest) (outcome : ObservationOutcome) (before after : Tables)
      → insert_observation r outcome before ≡ some after
      → Kept before
      → Kept after
  unfolding insert_observation
  insert_observation-HasReceipt r outcome before after inserted b =
      elim (Bool-cases (
        any (λ o. o.id == r.event_id) before.observations
        || not (known_inventory r.resource_inventory))) [
          | inl refused ↦ absurd (none-some (rw refused at inserted))
          | inr fresh ↦ subst Kept (some-injective _ after (rw fresh at inserted)) b
        ]
    where
      none-some : {x : Tables} → ◌≢◌ {A = Option Tables} none (some x)
      none-some h = cc

  -- An outcome that succeeds leaves the receipt.
  abbrev Applied : Result (Tables × Option ℕ) → Type 0
  Applied (err e) = Unit
  Applied (ok a) = Kept a.0

  apply_outcome-Applied :
      (now : ℕ) (r : ResourceObservationRequest) (s : ReservationRow) (outcome : ObservationOutcome)
      (db : Tables)
      → HasReceipt event row db
      → Applied (apply_outcome now r s outcome db)
  unfolding apply_outcome retain_resources deployment_healthy confirm_cleanup release_rollout
  apply_outcome-Applied now r s ObservationOutcome.resources_retained db b =
      elim (Bool-cases (is_released s.state)) [ inl gone ↦ rw gone tt | inr in_use ↦ rw in_use b ]
  apply_outcome-Applied now r s ObservationOutcome.deployment_healthy db b =
      elim (Bool-cases (is_released s.state)) [ inl gone ↦ rw gone tt | inr in_use ↦ rw in_use b ]
  apply_outcome-Applied now r s ObservationOutcome.cleanup_confirmed db b =
      elim (Bool-cases (is_released s.state)) [ inl gone ↦ rw gone b | inr in_use ↦ rw in_use b ]
  apply_outcome-Applied now r s ObservationOutcome.rollout_released db b =
      elim (Option-cases r.rollout_hold_id) [
        | inl absent ↦ rw absent tt
        | inr (id, held) ↦ elim (Bool-cases (any (to_release r s.capacity_pool_key id) db.holds)) [
          | inl found ↦ rw (held, found) b
          | inr missing ↦ rw (held, missing) tt
        ]
      ]

  observe_reservation-HasReceipt :
      (env : AdmissionEnv) (now : ℕ) (r : ResourceObservationRequest) (s : ReservationRow)
      (outcome : ObservationOutcome) (db : Tables)
      → HasReceipt event row db
      → Ends Kept (observe_reservation env now r s outcome db)
  unfolding observe_reservation
  observe_reservation-HasReceipt env now r s outcome db b =
      Ends-found Kept (insert_observation r outcome db) _ db _ b λ db1 inserted.
        let applied_well : Applied (apply_outcome now r s outcome db1) =
          apply_outcome-Applied now r s outcome db1
            (insert_observation-HasReceipt r outcome db db1 inserted b) in
        Ends-try Kept (apply_outcome now r s outcome db1) db _ b λ applied done.
          Ends-try Kept (load_reservation applied.0 r.account_id r.project_id r.reservation_id) db _
            b
            λ loaded _.
              store_fixture-HasReceipt env.json_observation r.event_id
                FixtureKind.resource_observation (env.hash_observation r) _ db applied.0 b
                (subst Applied done applied_well)

  pub record_resource_observation-HasReceipt :
      (env : AdmissionEnv) (now : ℕ) (r : ResourceObservationRequest) (db : Tables)
      → HasReceipt event row db
      → Ends (HasReceipt event row) (record_resource_observation env now r db)
  unfolding record_resource_observation observe_fresh
  record_resource_observation-HasReceipt env now r db b =
      Ends-try Kept (validate_observation r) db _ b λ _ _.
        with_receipt-Ends Kept env.json_observation r.event_id FixtureKind.resource_observation
          (env.hash_observation r) db (observe_fresh env now r db) b
          (Ends-if Kept (not (any (is_project r.account_id r.project_id) db.projects)) _ _
            (λ _. Ends-at Kept db _ b)
            λ _.
              Ends-found Kept
                (select (is_reservation r.reservation_id r.account_id r.project_id) db.reservations)
                _ db _ b
                λ s _.
                  Ends-if Kept (not (s.reservation_epoch == r.reservation_epoch)) _ _
                    (λ _. Ends-at Kept db _ b)
                    λ _. Ends-try Kept (check_generation r s db) db _ b λ _ _.
                      Ends-found Kept (read_outcome r.outcome) _ db _ b
                        λ outcome _. observe_reservation-HasReceipt env now r s outcome db b)
