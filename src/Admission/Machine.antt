-- ===== src/Admission/Machine.antt =====
-- The requests of crates/control/src/admission.rs in the order in which the database runs their
-- transactions.
use hostlet_app.Base.{ℕ, List, [], ◌∷◌}
use hostlet_app.Base.Text.{Text}
use hostlet_app.Jobs.Intent.{Header}
use hostlet_app.Jobs.Cancel.{Owner}
use hostlet_app.Admission.Model.{Tables}
use hostlet_app.Admission.Messages.{
  CreateHoldRequest, AdmitRequest, CapacityFixtureRequest, EntitlementFixtureRequest,
  SourceProofFixtureRequest, ResourceObservationRequest, BuildUsageRequest, AdmissionEnv,
}
use hostlet_app.Admission.Hold.{create_hold}
use hostlet_app.Admission.Admit.{AdmitIds, admit}
use hostlet_app.Admission.Capacity.{put_capacity_fixture, put_entitlement_fixture}
use hostlet_app.Admission.Proofs.{put_source_proof}
use hostlet_app.Admission.Observe.{record_resource_observation}
use hostlet_app.Admission.Usage.{record_build_usage}
use hostlet_app.Admission.Queries.{reconcile}

-- What an owner's request carries besides its body: the path, If-Match and the idempotency key.
pub record OwnerCall : Type 0 where
  pub owner : Owner
  pub project_path : Text
  pub deployment_path : Text
  pub if_match : Header
  pub key_header : Header

-- A request with the clock and the fresh identifiers that its handler draws.
pub data AdmissionCall : Type 0 where
  creates_hold : (clock ids : ℕ → ℕ) → ℕ → OwnerCall → CreateHoldRequest → AdmissionCall
  admits_hold : (clock ids : ℕ → ℕ) → AdmitIds → OwnerCall → AdmitRequest → AdmissionCall
  sets_capacity : CapacityFixtureRequest → AdmissionCall
  sets_entitlement : ℕ → EntitlementFixtureRequest → AdmissionCall
  proves_source : (ℕ → ℕ) → ℕ → SourceProofFixtureRequest → AdmissionCall
  observes : ℕ → ResourceObservationRequest → AdmissionCall
  uses_build : ℕ → BuildUsageRequest → AdmissionCall
  reconciles : ℕ → (ℕ → ℕ) → AdmissionCall

unfoldable pub perform : AdmissionEnv → AdmissionCall → Tables → Tables
unfolding create_hold admit put_capacity_fixture put_entitlement_fixture put_source_proof
    record_resource_observation record_build_usage reconcile
perform env (creates_hold clock ids id c r) db =
    (create_hold env clock ids id c.owner c.project_path c.deployment_path c.if_match c.key_header r
      db).0
perform env (admits_hold clock ids fresh c r) db =
    (admit env clock ids fresh c.owner c.project_path c.deployment_path c.if_match c.key_header r
      db).0
perform env (sets_capacity r) db = (put_capacity_fixture env r db).0
perform env (sets_entitlement id r) db = (put_entitlement_fixture env id r db).0
perform env (proves_source clock id r) db = (put_source_proof env clock id r db).0
perform env (observes now r) db = (record_resource_observation env now r db).0
perform env (uses_build now r) db = (record_build_usage env now r db).0
perform env (reconciles now ids) db = (reconcile now ids db).0

unfoldable pub run_calls : AdmissionEnv → List AdmissionCall → Tables → Tables
unfolding perform
run_calls env [] db = db
run_calls env (call ∷ calls) db = run_calls env calls (perform env call db)
