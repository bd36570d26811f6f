-- ===== src/Admission/FailLaws.antt =====
-- What `admit` of crates/control/src/admission.rs leaves behind when it refuses.
use hostlet_app.Base.{ℕ, ◌+◌, ◌≡◌, ◌⊎◌, inl, inr, refl, sym, ap, Option, not, ◌||◌, some, leb}
use hostlet_app.Base.Text.{Text}
use hostlet_app.Base.Table.{select}
use hostlet_app.Api.{ApiError, ok, err, conflict}
use hostlet_app.Api.Transactions.{Fails, Fails-ok, Fails-err, Fails-if, Fails-found, Fails-try}
use hostlet_app.Jobs.Intent.{Header, Replay, miss, matched, changed, replay, store_replay}
use hostlet_app.Jobs.Store.{owner_audit}
use hostlet_app.Jobs.Cancel.{Owner}
use hostlet_app.Admission.Model.{EntitlementRow, Tables}
use hostlet_app.Admission.Messages.{
  ReservationRecord, AdmissionResponse, AdmitRequest, AdmissionEnv,
}
use hostlet_app.Admission.Store.{hold_active, expire_holds_for_scope, load_hold}
use hostlet_app.Admission.Context.{
  lock_entitlement_and_pool, validate_source_proof, ensure_lifecycle_allows_hold,
}
use hostlet_app.Admission.Hold.{
  AdmissionTx, OwnerInputs, owner_inputs, record_admission, ensure_admissible, answer_replay,
}
use hostlet_app.Admission.Admit.{
  AdmitIds, hold_for, admit_kind, admit_answer, admit_found, admit_checked, admit_operation, admit,
}
use Prim.Native.String.{String}

-- Everything is as before, or the hold had expired and only the expiry was kept.
abbrev pub Refused : (ℕ → ℕ) → (ℕ → ℕ) → Owner → Tables → Tables → ApiError → Type 0
Refused clock refund_ids o db db' failure =
    (db' ≡ db)
    ⊎ ((failure ≡ conflict "capacity_hold_expired")
        × (e : EntitlementRow) × (lock_entitlement_and_pool db o.account_id ≡ ok e)
        × (db' ≡ expire_holds_for_scope o.account_id e.capacity_pool_key (clock 0) refund_ids db))

module _ (P : Tables → ApiError → Type 0) (rollback : Tables)
    (back : (e : ApiError) → P rollback e) where
  record_admission-Fails :
      (env : AdmissionEnv) (o : Owner) (operation key hash : Text) (event target : String)
      (id : Option ℕ) (code : ℕ) (response : AdmissionResponse) (db : Tables)
      → Fails P
          (record_admission env o operation key hash event target id code response rollback db)
  unfolding record_admission
  record_admission-Fails env o operation key hash event target id code response db =
      Fails-found P
        (store_replay (owner_audit o.account_id o.session_id event target id "succeeded" db.shared)
          o.account_id operation key hash code (env.json_admission.print response))
        _ rollback _ (back _) λ stored _. Fails-ok P _ _

  admit_answer-Fails :
      (env : AdmissionEnv) (o : Owner) (inputs : OwnerInputs) (request : AdmitRequest)
      (t : AdmissionTx (ReservationRecord × ℕ))
      → Fails P (admit_answer env o inputs request rollback t)
  unfolding admit_answer
  admit_answer-Fails env o inputs request (db, admitted) =
      Fails-try P admitted rollback _ back λ admission _.
        Fails-try P (load_hold db o.account_id inputs.project request.capacity_hold_id) rollback _
          back
          λ loaded _.
            record_admission-Fails env o (admit_operation env inputs.project inputs.deployment)
              inputs.key (env.hash_admit request) "admission.consume" "slot_reservation"
              (some admission.0.id) admission.1 _ db

module _ (env : AdmissionEnv) (clock refund_ids : ℕ → ℕ) (ids : AdmitIds) (o : Owner)
    (request : AdmitRequest) where
  admit_checked-Refused :
      (inputs : OwnerInputs) (db : Tables)
      → Fails
          (Refused clock refund_ids o db)
          (admit_checked env clock refund_ids ids o inputs request db)
  unfolding admit_checked admit_found
  admit_checked-Refused inputs db =
      Fails-try _ (lock_entitlement_and_pool db o.account_id) db _ (λ _. inl refl)
        λ e locked.
          let db1 =
            expire_holds_for_scope o.account_id e.capacity_pool_key (clock 0) refund_ids db in
          Fails-try _ (ensure_admissible clock o inputs e db1) db _ (λ _. inl refl)
            λ _ _.
              Fails-found _
                (select
                  (hold_for request.capacity_hold_id o.account_id inputs.project inputs.deployment)
                  db1.holds)
                _ db _ (inl refl)
                λ h _.
                  Fails-if _ (not (hold_active h.state) || leb h.expires_at (clock 2)) _ _
                    (λ _. Fails-err _ db1 _ (inr (refl, e, locked, refl)))
                    λ _.
                      Fails-try _
                        (validate_source_proof (λ n. clock (n + 3)) db1 o.account_id inputs.project
                          inputs.deployment h.source_proof_id)
                        db _ (λ _. inl refl)
                        λ _ _.
                          Fails-try _
                            (ensure_lifecycle_allows_hold db1 o.account_id inputs.project
                              inputs.deployment)
                            db _ (λ _. inl refl)
                            λ _ _.
                              admit_answer-Fails _ db (λ _. inl refl) env o inputs request
                                (admit_kind (clock 5) ids o inputs e h db db1)

  answer_replay-Refused :
      (db : Tables) (fresh : AdmissionTx AdmissionResponse) (r : Replay AdmissionResponse)
      → Fails (Refused clock refund_ids o db) fresh
      → Fails (Refused clock refund_ids o db) (answer_replay o db fresh r)
  unfolding answer_replay
  answer_replay-Refused db fresh (matched response) good = record {
    fails = λ after e h. inl (sym (ap (λ t. t.0) h));
  }
  answer_replay-Refused db fresh changed good = Fails-err _ db _ (inl refl)
  answer_replay-Refused db fresh miss good = good

  -- An admission that fails, whatever the reason, leaves the tables as they were, with one exception:
  -- when the hold is no longer active or its time is over, the expiry of the holds in the account's
  -- and the pool's scope is kept, and nothing else.
  pub admit-Refused :
      (project_path deployment_path : Text) (if_match key_header : Header) (db db' : Tables)
      (failure : ApiError)
      → admit env clock refund_ids ids o project_path deployment_path if_match key_header request db
        ≡ (db', err failure)
      → Refused clock refund_ids o db db' failure
  unfolding admit
  admit-Refused project_path deployment_path if_match key_header db db' failure refused =
      (Fails-try (Refused clock refund_ids o db)
          (owner_inputs env project_path deployment_path if_match key_header) db _ (λ _. inl refl)
          λ inputs _.
            Fails-try _
              (replay env.json_admission.parse db.shared o.account_id
                (admit_operation env inputs.project inputs.deployment) inputs.key
                (env.hash_admit request))
              db _ (λ _. inl refl)
              λ r _. answer_replay-Refused db _ r (admit_checked-Refused inputs db)).fails
        db' failure refused
