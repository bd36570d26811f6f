-- ===== src/Admission/FixtureKeeps.antt =====
-- The internal events of crates/control/src/admission.rs and the condition on the tables.
use hostlet_app.Base.{
  ℕ, ◌+◌, ◌≤◌, ◌≡◌, Bool, true, false, not, ◌||◌, Option, none, some, List, any, ltb, leb, ◌==◌,
  arith,
}
use hostlet_app.Base.Integers.{not_positive, to_nat}
use hostlet_app.Base.Text.{Text}
use hostlet_app.Base.Table.{select}
use hostlet_app.Api.{ok}
use hostlet_app.Api.Transactions.{Ends, Ends-at, Ends-if, Ends-found, Ends-try}
use hostlet_app.Admission.Model.{EntitlementState, FixtureKind, ProofRow, ReceiptRow, Tables}
use hostlet_app.Admission.Messages.{
  Json, CapacityFixtureRequest, EntitlementFixtureRequest, SourceProofFixtureRequest, AdmissionEnv,
}
use hostlet_app.Admission.Store.{
  is_pool, of_account, account_slot_use, pool_slot_use, pool_rollout_use, usage_totals,
}
use hostlet_app.Admission.Context.{is_project, ensure_source_context}
use hostlet_app.Admission.Hold.{AdmissionTx}
use hostlet_app.Admission.Receipts.{is_receipt, fixture_replay, store_fixture, with_receipt}
use hostlet_app.Admission.Capacity.{
  validate_capacity, upsert_pool, capacity_fresh, put_capacity_fixture, validate_entitlement,
  keeps_period, entitlement_in_use, upsert_entitlement, entitlement_fresh, put_entitlement_fixture,
}
use hostlet_app.Admission.Proofs.{exact_source, not_older, proof_fresh, put_source_proof}
use hostlet_app.Admission.Limits.{WithinLimits}
use hostlet_app.Admission.CapacityLimits.{
  upsert_pool-Bounded, upsert_entitlement-Bounded, upsert_entitlement-Metered,
}

-- A condition on the tables that the receipts do not enter.
module _ {A : Type 0} (Q : Tables → Type 0) (json : Json A) (event : ℕ) (kind : FixtureKind)
    (hash : Text) where
  pub with_receipt-Ends :
      (db : Tables) (fresh : AdmissionTx A)
      → Q db
      → Ends Q fresh
      → Ends Q (with_receipt json event kind hash db fresh)
  unfolding with_receipt
  with_receipt-Ends db fresh b c =
      Ends-try Q (fixture_replay json db event kind hash) db _ b (λ stored _. answer stored)
    where
      answer :
          (stored : Option A)
          → Ends Q (elim stored as (λ _. AdmissionTx A) [
            | none ↦ fresh
            | some response ↦ (db, ok response)
          ])
      answer none = c
      answer (some response) = Ends-at Q db _ b

  pub store_fixture-Ends :
      (response : A) (rollback db : Tables)
      → Q rollback
      → ((receipts : List ReceiptRow) → Q (record db { receipts = receipts }))
      → Ends Q (store_fixture json event kind hash response rollback db)
  unfolding store_fixture
  store_fixture-Ends response rollback db b c =
      Ends-if Q (any (is_receipt event) db.receipts) _ _ (λ _. Ends-at Q rollback _ b)
        (λ _. Ends-at Q _ _ (c _))

capacity_fresh-Ends :
    (env : AdmissionEnv) (r : CapacityFixtureRequest) (db : Tables)
    → WithinLimits db
    → Ends WithinLimits (capacity_fresh env r db)
unfolding capacity_fresh pool_slot_use pool_rollout_use
capacity_fresh-Ends env r db b =
    Ends-if WithinLimits
      (ltb (to_nat r.hosted_slot_limit) (pool_slot_use db r.pool_key)
        || ltb (to_nat r.rollout_headroom_limit) (pool_rollout_use db r.pool_key))
      _ _ (λ _. Ends-at WithinLimits db _ b)
      λ room.
        Ends-found WithinLimits (select (is_pool r.pool_key) (upsert_pool r db.pools)) _ db _ b
          λ p _.
            store_fixture-Ends WithinLimits env.json_capacity r.event_id FixtureKind.capacity
              (env.hash_capacity r) _ db (record db { pools = upsert_pool r db.pools }) b
              (λ _. (upsert_pool-Bounded r (ground (arith, room)) (ground (arith, room)) b.0, b.1))

pub put_capacity_fixture-Ends :
    (env : AdmissionEnv) (r : CapacityFixtureRequest) (db : Tables)
    → WithinLimits db
    → Ends WithinLimits (put_capacity_fixture env r db)
unfolding put_capacity_fixture
put_capacity_fixture-Ends env r db b = Ends-try WithinLimits (validate_capacity r) db _ b λ _ _.
    with_receipt-Ends WithinLimits env.json_capacity r.event_id FixtureKind.capacity
      (env.hash_capacity r) db (capacity_fresh env r db) b (capacity_fresh-Ends env r db b)

-- What `entitlement_in_use` tests.
pub entitlement_in_use-false :
    (r : EntitlementFixtureRequest) (db : Tables)
    → entitlement_in_use r db ≡ false
    → (account_slot_use db r.account_id ≤ to_nat r.hosted_slot_limit)
      × ((usage_totals db r.account_id).0
          ≤ to_nat r.build_seconds_limit + (usage_totals db r.account_id).1)
unfolding entitlement_in_use
entitlement_in_use-false r db h = ground arith

entitlement_fresh-Ends :
    (env : AdmissionEnv) (id : ℕ) (r : EntitlementFixtureRequest) (state : EntitlementState)
    (db : Tables)
    → WithinLimits db
    → Ends WithinLimits (entitlement_fresh env id r state db)
unfolding entitlement_fresh account_slot_use usage_totals
entitlement_fresh-Ends env id r state db b =
    Ends-if WithinLimits (not (any (is_pool r.capacity_pool_key) db.pools)) _ _
      (λ _. Ends-at WithinLimits db _ b)
      λ _.
        Ends-if WithinLimits (entitlement_in_use r db) _ _ (λ _. Ends-at WithinLimits db _ b)
          λ room.
            Ends-if WithinLimits
              (not (keeps_period r (select (of_account r.account_id) db.entitlements))) _ _
              (λ _. Ends-at WithinLimits db _ b)
              λ keeps.
                Ends-found WithinLimits
                  (select (of_account r.account_id) (upsert_entitlement id r state db.entitlements))
                  _ db _ b
                  λ e _.
                    store_fixture-Ends WithinLimits env.json_entitlement r.event_id
                      FixtureKind.entitlement (env.hash_entitlement r) e db
                      (record db { entitlements = upsert_entitlement id r state db.entitlements }) b
                      (λ _. (
                        upsert_entitlement-Bounded id r state (entitlement_in_use-false r db room).0
                            (not_false _ keeps) b.0,
                        upsert_entitlement-Metered id r state (entitlement_in_use-false r db room).1
                            b.1,
                      ))
  where
    not_false : (c : Bool) → not c ≡ false → c ≡ true
    not_false c h = ground arith

pub put_entitlement_fixture-Ends :
    (env : AdmissionEnv) (id : ℕ) (r : EntitlementFixtureRequest) (db : Tables)
    → WithinLimits db
    → Ends WithinLimits (put_entitlement_fixture env id r db)
unfolding put_entitlement_fixture
put_entitlement_fixture-Ends env id r db b =
    Ends-try WithinLimits (validate_entitlement r) db _ b λ state _.
      with_receipt-Ends WithinLimits env.json_entitlement r.event_id FixtureKind.entitlement
        (env.hash_entitlement r) db (entitlement_fresh env id r state db) b
        (entitlement_fresh-Ends env id r state db b)

-- A proof of source touches neither limits nor what is in use.
module _ (Q : Tables → Type 0) (env : AdmissionEnv) (r : SourceProofFixtureRequest) (db : Tables)
    (good : (proofs : List ProofRow) (receipts : List ReceiptRow)
      → Q (record db { proofs = proofs; receipts = receipts })) where
  proof_fresh-Ends : (now id : ℕ) → Q db → Ends Q (proof_fresh env now id r db)
  unfolding proof_fresh
  proof_fresh-Ends now id b =
      Ends-if Q (not (any (is_project r.account_id r.project_id) db.projects)) _ _
        (λ _. Ends-at Q db _ b)
        λ _.
          Ends-if Q (not (any (exact_source r) db.deployments)) _ _ (λ _. Ends-at Q db _ b)
            λ _.
              Ends-try Q
                (ensure_source_context now db r.account_id r.project_id r.deployment_id
                  r.configuration_revision_id r.source_commit)
                db _ b
                λ _ _.
                  Ends-if Q (any (not_older r) db.proofs) _ _ (λ _. Ends-at Q db _ b)
                    λ _.
                      Ends-if Q (any (λ p. p.id == id) db.proofs) _ _ (λ _. Ends-at Q db _ b)
                        λ _.
                          store_fixture-Ends Q env.json_proof r.event_id FixtureKind.source_proof
                            (env.hash_proof r) _ db _ b (λ receipts. good _ receipts)

  pub put_source_proof-Ends :
      (clock : ℕ → ℕ) (id : ℕ) → Q db → Ends Q (put_source_proof env clock id r db)
  unfolding put_source_proof
  put_source_proof-Ends clock id b =
      Ends-if Q (not_positive r.inventory_revision) _ _ (λ _. Ends-at Q db _ b)
        λ _.
          Ends-if Q (leb r.expires_at (clock 0)) _ _ (λ _. Ends-at Q db _ b)
            λ _.
              with_receipt-Ends Q env.json_proof r.event_id FixtureKind.source_proof
                (env.hash_proof r) db (proof_fresh env (clock 1) id r db) b
                (proof_fresh-Ends (clock 1) id b)
