-- ===== src/Admission/Proofs.antt =====
-- `put_source_proof` of crates/control/src/admission.rs: a proof of the exact source of a
-- deployment, which supersedes the one before.
use hostlet_app.Base.{ℕ, Bool, not, ◌&&◌, [], ◌∷◌, ◌++◌, any, leb, ◌==◌, if◌then◌else◌}
use hostlet_app.Base.Integers.{not_positive, to_nat}
use hostlet_app.Base.Text.{text_eq}
use hostlet_app.Base.Table.{update_rows}
use hostlet_app.Api.{err, conflict, unprocessable, not_found, database_unavailable}
use hostlet_app.Api.Transactions.{try_ok}
use hostlet_app.Admission.Model.{ProofState, FixtureKind, ProofRow, DeploymentRow, Tables}
use hostlet_app.Admission.Messages.{SourceProofFixtureRequest, SourceProofResponse, AdmissionEnv}
use hostlet_app.Admission.Context.{is_project, is_deployment, proof_valid, ensure_source_context}
use hostlet_app.Admission.Hold.{AdmissionTx}
use hostlet_app.Admission.Receipts.{with_receipt, store_fixture}

abbrev pub exact_source : SourceProofFixtureRequest → DeploymentRow → Bool
exact_source r d =
    is_deployment r.account_id r.project_id r.deployment_id d
    && (d.configuration_revision_id == r.configuration_revision_id
        && text_eq d.source_commit r.source_commit)

-- A proof of the deployment whose inventory is not older: the maximum is not below the request's.
abbrev pub not_older : SourceProofFixtureRequest → ProofRow → Bool
not_older r p =
    p.account_id == r.account_id
    && (p.project_id == r.project_id
        && (p.deployment_id == r.deployment_id
            && leb (to_nat r.inventory_revision) p.inventory_revision))

abbrev pub valid_for : ℕ → ProofRow → Bool
valid_for deployment p = p.deployment_id == deployment && proof_valid p.state

abbrev pub supersede : ProofRow → ProofRow
supersede p = record p { state = ProofState.superseded }

abbrev pub new_proof : ℕ → SourceProofFixtureRequest → ProofRow
new_proof id r = record {
  id = id;
  account_id = r.account_id;
  project_id = r.project_id;
  deployment_id = r.deployment_id;
  configuration_revision_id = r.configuration_revision_id;
  source_commit = r.source_commit;
  inventory_revision = to_nat r.inventory_revision;
  state = ProofState.valid;
  expires_at = r.expires_at;
}

abbrev proof_response : ProofRow → SourceProofResponse
proof_response p = record {
  id = p.id;
  account_id = p.account_id;
  project_id = p.project_id;
  deployment_id = p.deployment_id;
  configuration_revision_id = p.configuration_revision_id;
  source_commit = p.source_commit;
  inventory_revision = p.inventory_revision;
  expires_at = p.expires_at;
}

unfoldable pub proof_fresh :
    AdmissionEnv → ℕ → ℕ → SourceProofFixtureRequest → Tables → AdmissionTx SourceProofResponse
unfolding ensure_source_context store_fixture
proof_fresh env now id r db =
    if not (any (is_project r.account_id r.project_id) db.projects)
    then (db, err not_found)
    else if not (any (exact_source r) db.deployments)
    then (db, err (conflict "admission_source_stale"))
    else try_ok
        (ensure_source_context now db r.account_id r.project_id r.deployment_id
          r.configuration_revision_id r.source_commit)
        db
        (λ _.
          if any (not_older r) db.proofs
          then (db, err (conflict "source_inventory_revision_stale"))
          else if any (λ p. p.id == id) db.proofs
          then (db, err database_unavailable)
          else store_fixture env.json_proof r.event_id FixtureKind.source_proof (env.hash_proof r)
              (proof_response (new_proof id r)) db
              (record db {
                proofs =
                    update_rows (valid_for r.deployment_id) supersede db.proofs
                    ++ new_proof id r ∷ [];
              }))

unfoldable pub put_source_proof :
    AdmissionEnv
    → (ℕ → ℕ)
    → ℕ
    → SourceProofFixtureRequest
    → Tables
    → AdmissionTx SourceProofResponse
unfolding with_receipt proof_fresh
put_source_proof env clock id r db =
    if not_positive r.inventory_revision
    then (db, err (unprocessable "invalid_source_proof"))
    else if leb r.expires_at (clock 0)
    then (db, err (unprocessable "invalid_source_proof"))
    else with_receipt env.json_proof r.event_id FixtureKind.source_proof (env.hash_proof r) db
        (proof_fresh env (clock 1) id r db)
