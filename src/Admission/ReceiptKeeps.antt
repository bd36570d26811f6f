-- ===== src/Admission/ReceiptKeeps.antt =====
-- The requests of owners in crates/control/src/admission.rs and the receipts of internal events.
use hostlet_app.Base.{ℕ, ◌+◌, ◌≡◌, Bool, not, ◌||◌, Option, some, any, leb}
use hostlet_app.Base.Text.{Text}
use hostlet_app.Base.Table.{select}
use hostlet_app.Api.Transactions.{Ends, Ends-at, Ends-if, Ends-found, Ends-try}
use Prim.Native.String.{String}
use hostlet_app.Jobs.Cancel.{Owner}
use hostlet_app.Jobs.Intent.{Header, Replay, miss, matched, changed, replay, store_replay}
use hostlet_app.Jobs.Store.{owner_audit}
use hostlet_app.Admission.Model.{EntitlementRow, HoldRow, ReceiptRow, Tables}
use hostlet_app.Admission.Messages.{
  ReservationRecord, AdmissionResponse, CreateHoldRequest, AdmitRequest, AdmissionEnv,
}
use hostlet_app.Admission.Store.{
  is_initial, hold_active, expire_holds, expire_holds_for_scope, in_scope, load_hold,
  load_reservation, load_active_reservation,
}
use hostlet_app.Admission.Context.{
  lock_entitlement_and_pool, ensure_capacity_available, validate_source_proof,
  ensure_lifecycle_allows_hold,
}
use hostlet_app.Admission.Hold.{
  AdmissionTx, OwnerInputs, owner_inputs, valid_ttl, ensure_admissible, record_admission,
  insert_hold, new_hold, create_hold_row, conflicting, kind_for, hold_operation,
  create_hold_checked, answer_replay, create_hold,
}
use hostlet_app.Admission.Admit.{
  AdmitIds, hold_for, consume, project_reserved, rollout_admitted, new_reservation,
  insert_reservation, admit_initial, admit_rollout, admit_kind, admit_answer, admit_found,
  admit_operation, admit_checked, admit,
}
use hostlet_app.Admission.AdmitKeeps.{rollout_admitted-same}
use hostlet_app.Admission.Receipts.{is_receipt}

-- The receipt that an event finds.
abbrev pub HasReceipt : ℕ → ReceiptRow → Tables → Type 0
HasReceipt event row db = select (is_receipt event) db.receipts ≡ some row

module _ (event : ℕ) (row : ReceiptRow) where
  abbrev Kept : Tables → Type 0
  Kept = HasReceipt event row

  pub expire_holds-HasReceipt :
      (scope : HoldRow → Bool) (now : ℕ) (ids : ℕ → ℕ) (db : Tables)
      → HasReceipt event row db
      → HasReceipt event row (expire_holds scope now ids db)
  unfolding expire_holds
  expire_holds-HasReceipt scope now ids db b = b

  record_admission-HasReceipt :
      (env : AdmissionEnv) (o : Owner) (operation key hash : Text) (kind target : String)
      (id : Option ℕ) (code : ℕ) (response : AdmissionResponse) (rollback db : Tables)
      → Kept rollback
      → Kept db
      → Ends Kept
          (record_admission env o operation key hash kind target id code response rollback db)
  unfolding record_admission
  record_admission-HasReceipt env o operation key hash kind target id code response rollback db b
        c =
      Ends-found Kept
        (store_replay (owner_audit o.account_id o.session_id kind target id "succeeded" db.shared)
          o.account_id operation key hash code (env.json_admission.print response))
        _ rollback _ b (λ stored _. Ends-at Kept (record db { shared = stored }) _ c)

  answer_replay-HasReceipt :
      (o : Owner) (db : Tables) (fresh : AdmissionTx AdmissionResponse)
      (r : Replay AdmissionResponse)
      → Kept db
      → Ends Kept fresh
      → Ends Kept (answer_replay o db fresh r)
  unfolding answer_replay
  answer_replay-HasReceipt o db fresh (matched response) b good = Ends-at Kept db _ b
  answer_replay-HasReceipt o db fresh changed b good = Ends-at Kept db _ b
  answer_replay-HasReceipt o db fresh miss b good = good

  create_hold_row-HasReceipt :
      (env : AdmissionEnv) (o : Owner) (inputs : OwnerInputs) (request : CreateHoldRequest)
      (reservation : Option ReservationRecord) (h : HoldRow) (rollback db : Tables)
      → Kept rollback
      → Kept db
      → Ends Kept (create_hold_row env o inputs request reservation h rollback db)
  unfolding create_hold_row
  create_hold_row-HasReceipt env o inputs request reservation h rollback db b c =
      Ends-found Kept (insert_hold h db.holds) _ rollback _ b λ holds _.
        let db' : Tables = record db { holds = holds } in
        Ends-try Kept (load_hold db' o.account_id inputs.project h.id) rollback _ b λ loaded _.
          record_admission-HasReceipt env o (hold_operation env inputs.project inputs.deployment)
            inputs.key (env.hash_hold request) "admission.hold.create" "capacity_hold" (some h.id)
            201 _ rollback db' b c

  create_hold_checked-HasReceipt :
      (env : AdmissionEnv) (clock ids : ℕ → ℕ) (id : ℕ) (o : Owner) (inputs : OwnerInputs)
      (request : CreateHoldRequest) (db : Tables)
      → Kept db
      → Ends Kept (create_hold_checked env clock ids id o inputs request db)
  unfolding create_hold_checked expire_holds_for_scope
  create_hold_checked-HasReceipt env clock ids id o inputs request db b =
      Ends-try Kept (lock_entitlement_and_pool db o.account_id) db _ b λ e _.
        let scope = in_scope o.account_id e.capacity_pool_key in
        let db1 : Tables = expire_holds scope (clock 0) ids db in
        Ends-try Kept (ensure_admissible clock o inputs e db1) db _ b λ _ _.
          Ends-try Kept
            (validate_source_proof (λ n. clock (n + 2)) db1 o.account_id inputs.project
              inputs.deployment request.source_proof_id)
            db _ b
            λ _ _.
              Ends-try Kept
                (ensure_lifecycle_allows_hold db1 o.account_id inputs.project inputs.deployment) db
                _ b
                λ _ _.
                  Ends-try Kept (load_active_reservation db1 o.account_id inputs.project) db _ b
                    λ reservation _.
                      Ends-if Kept
                        (any (conflicting inputs.project inputs.deployment (kind_for reservation))
                          db1.holds)
                        _ _ (λ _. Ends-at Kept db _ b)
                        λ _.
                          Ends-try Kept
                            (ensure_capacity_available db1 o.account_id e (kind_for reservation)) db
                            _ b
                            λ _ _.
                              create_hold_row-HasReceipt env o inputs request reservation
                                (new_hold id o.account_id inputs request e reservation (clock 4)) db
                                db1 b (expire_holds-HasReceipt scope (clock 0) ids db b)

  pub create_hold-HasReceipt :
      (env : AdmissionEnv) (clock ids : ℕ → ℕ) (id : ℕ) (o : Owner)
      (project_path deployment_path : Text) (if_match key_header : Header)
      (request : CreateHoldRequest) (db : Tables)
      → HasReceipt event row db
      → Ends (HasReceipt event row) (
          create_hold env clock ids id o project_path deployment_path if_match key_header request
            db)
  unfolding create_hold
  create_hold-HasReceipt env clock ids id o project_path deployment_path if_match key_header request
        db b =
      Ends-if Kept (not (valid_ttl request.ttl_seconds)) _ _ (λ _. Ends-at Kept db _ b)
        λ _.
          Ends-try Kept (owner_inputs env project_path deployment_path if_match key_header) db _ b
            λ inputs _.
              Ends-try Kept
                (replay env.json_admission.parse db.shared o.account_id
                  (hold_operation env inputs.project inputs.deployment) inputs.key
                  (env.hash_hold request))
                db _ b
                λ r _.
                  answer_replay-HasReceipt o db _ r b
                    (create_hold_checked-HasReceipt env clock ids id o inputs request db b)

  admit_kind-HasReceipt :
      (now : ℕ) (ids : AdmitIds) (o : Owner) (inputs : OwnerInputs) (e : EntitlementRow)
      (h : HoldRow) (rollback db : Tables)
      → Kept rollback
      → Kept db
      → Ends Kept (admit_kind now ids o inputs e h rollback db)
  unfolding admit_kind admit_initial admit_rollout project_reserved
  admit_kind-HasReceipt now ids o inputs e h rollback db b c =
      let db1 : Tables = consume now h.id db in
      Ends-if Kept (is_initial h.kind) _ _
        (λ _.
          Ends-found Kept
            (insert_reservation
              (new_reservation ids.reservation ids.epoch o.account_id inputs.project
                inputs.deployment e h.id)
              db1.reservations)
            _ rollback _ b
            λ rs _.
              let db2 : Tables =
                project_reserved ids.event o.account_id inputs.project inputs.deployment
                  (record db1 { reservations = rs }) in
              Ends-try Kept (load_reservation db2 o.account_id inputs.project ids.reservation)
                rollback _ b (λ _ _. Ends-at Kept db2 _ c))
        λ _.
          Ends-try Kept (load_active_reservation db1 o.account_id inputs.project) rollback _ b
            λ found _. Ends-found Kept found _ rollback _ b λ r _.
              Ends-found Kept
                (rollout_admitted ids.event o.account_id inputs.project inputs.deployment db1) _
                rollback _ b
                λ db2 admitted. Ends-at Kept db2 _ (
                  rollout_admitted-same ids.event o.account_id inputs.project inputs.deployment db1
                    db2 Kept admitted (λ _ _ _. c))

  admit_answer-HasReceipt :
      (env : AdmissionEnv) (o : Owner) (inputs : OwnerInputs) (request : AdmitRequest)
      (rollback : Tables) (t : AdmissionTx (ReservationRecord × ℕ))
      → Kept rollback
      → Ends Kept t
      → Ends Kept (admit_answer env o inputs request rollback t)
  unfolding admit_answer
  admit_answer-HasReceipt env o inputs request rollback (db, admitted) b c =
      Ends-try Kept admitted rollback _ b λ admission _.
        Ends-try Kept (load_hold db o.account_id inputs.project request.capacity_hold_id) rollback _
          b
          λ loaded _.
            record_admission-HasReceipt env o (admit_operation env inputs.project inputs.deployment)
              inputs.key (env.hash_admit request) "admission.consume" "slot_reservation"
              (some admission.0.id) admission.1 _ rollback db b c.ends

  admit_checked-HasReceipt :
      (env : AdmissionEnv) (clock refund_ids : ℕ → ℕ) (ids : AdmitIds) (o : Owner)
      (inputs : OwnerInputs) (request : AdmitRequest) (db : Tables)
      → Kept db
      → Ends Kept (admit_checked env clock refund_ids ids o inputs request db)
  unfolding admit_checked admit_found expire_holds_for_scope
  admit_checked-HasReceipt env clock refund_ids ids o inputs request db b =
      Ends-try Kept (lock_entitlement_and_pool db o.account_id) db _ b λ e _.
        let scope = in_scope o.account_id e.capacity_pool_key in
        let db1 : Tables = expire_holds scope (clock 0) refund_ids db in
        let c : Kept db1 = expire_holds-HasReceipt scope (clock 0) refund_ids db b in
        Ends-try Kept (ensure_admissible clock o inputs e db1) db _ b λ _ _.
          Ends-found Kept
            (select
              (hold_for request.capacity_hold_id o.account_id inputs.project inputs.deployment)
              db1.holds)
            _ db _ b
            λ h _.
              Ends-if Kept (not (hold_active h.state) || leb h.expires_at (clock 2)) _ _
                (λ _. Ends-at Kept db1 _ c)
                λ _.
                  Ends-try Kept
                    (validate_source_proof (λ n. clock (n + 3)) db1 o.account_id inputs.project
                      inputs.deployment h.source_proof_id)
                    db _ b
                    λ _ _.
                      Ends-try Kept
                        (ensure_lifecycle_allows_hold db1 o.account_id inputs.project
                          inputs.deployment)
                        db _ b
                        λ _ _.
                          admit_answer-HasReceipt env o inputs request db
                            (admit_kind (clock 5) ids o inputs e h db db1) b
                            (admit_kind-HasReceipt (clock 5) ids o inputs e h db db1 b c)

  pub admit-HasReceipt :
      (env : AdmissionEnv) (clock refund_ids : ℕ → ℕ) (ids : AdmitIds) (o : Owner)
      (project_path deployment_path : Text) (if_match key_header : Header) (request : AdmitRequest)
      (db : Tables)
      → HasReceipt event row db
      → Ends (HasReceipt event row) (
          admit env clock refund_ids ids o project_path deployment_path if_match key_header request
            db)
  unfolding admit
  admit-HasReceipt env clock refund_ids ids o project_path deployment_path if_match key_header
        request db b =
      Ends-try Kept (owner_inputs env project_path deployment_path if_match key_header) db _ b
        λ inputs _.
          Ends-try Kept
            (replay env.json_admission.parse db.shared o.account_id
              (admit_operation env inputs.project inputs.deployment) inputs.key
              (env.hash_admit request))
            db _ b
            λ r _.
              answer_replay-HasReceipt o db _ r b
                (admit_checked-HasReceipt env clock refund_ids ids o inputs request db b)
