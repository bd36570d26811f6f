-- ===== src/Admission/ReceiptRuns.antt =====
-- `record_build_usage`, and any requests to crates/control/src/admission.rs in a row, and the
-- receipts of earlier events.
use hostlet_app.Base.{
  ℕ, ◌+◌, inl, inr, subst, none, some, List, [], ◌∷◌, any, ltb, ◌==◌, Bool-cases, Option-cases,
}
use hostlet_app.Base.Integers.{to_nat}
use hostlet_app.Base.Table.{select}
use hostlet_app.Api.{Result, ok, err, Result-cases, internal}
use hostlet_app.Api.Transactions.{Ends, Ends-try}
use hostlet_app.Admission.Model.{EntitlementRow, ReceiptRow, UsageKind, Tables}
use hostlet_app.Admission.Messages.{BuildUsageRequest, AdmissionEnv}
use hostlet_app.Admission.Store.{usage_totals}
use hostlet_app.Admission.Context.{
  is_deployment, lock_entitlement_and_pool, ensure_entitlement_active,
}
use hostlet_app.Admission.Usage.{
  validate_build_usage, insert_usage, debit_of_attempt, debit_row, credits, debit_usage,
  exact_debit, credit_debit, credit_usage, apply_usage, usage_fixture, usage_fresh,
  record_build_usage,
}
use hostlet_app.Admission.Queries.{everywhere}
use hostlet_app.Admission.Machine.{
  AdmissionCall, creates_hold, admits_hold, sets_capacity, sets_entitlement, proves_source,
  observes, uses_build, reconciles, perform, run_calls,
}
use hostlet_app.Admission.FixtureKeeps.{with_receipt-Ends}
use hostlet_app.Admission.ReceiptKeeps.{
  HasReceipt, expire_holds-HasReceipt, create_hold-HasReceipt, admit-HasReceipt,
}
use hostlet_app.Admission.ReceiptEvents.{
  store_fixture-HasReceipt, put_capacity_fixture-HasReceipt, put_entitlement_fixture-HasReceipt,
  put_source_proof-HasReceipt, record_resource_observation-HasReceipt,
}

module _ (event : ℕ) (row : ReceiptRow) where
  abbrev Kept : Tables → Type 0
  Kept = HasReceipt event row

  -- Build seconds that are applied leave the receipt.
  abbrev KeptBy : Result Tables → Type 0
  KeptBy (err e) = Unit
  KeptBy (ok db) = Kept db

  debit_usage-KeptBy :
      (r : BuildUsageRequest) (e : EntitlementRow) (db : Tables)
      → Kept db
      → KeptBy (debit_usage r e db)
  unfolding debit_usage insert_usage
  debit_usage-KeptBy r e db b =
      elim (Bool-cases (any (debit_of_attempt e.id r.attempt_id) db.usage)) [
        | inl again ↦ rw again tt
        | inr first ↦
            elim (Bool-cases (
              ltb (e.build_seconds_limit + (usage_totals db r.account_id).1)
                ((usage_totals db r.account_id).0 + to_nat r.seconds))) [
                  | inl over ↦ rw (first, over) tt
                  | inr room ↦ elim (Bool-cases (any (λ v. v.id == r.event_id) db.usage)) [
                    | inl clash ↦ rw (first, room, clash) tt
                    | inr fresh ↦ rw (first, room, fresh) b
                  ]
                ]
      ]

  credit_debit-KeptBy :
      (r : BuildUsageRequest) (e : EntitlementRow) (id : ℕ) (db : Tables)
      → Kept db
      → KeptBy (credit_debit r e id db)
  unfolding credit_debit insert_usage
  credit_debit-KeptBy r e id db b = elim (Option-cases (select (debit_row id) db.usage)) [
    | inl missing ↦ rw (credit_debit, missing) tt
    | inr (d, found) ↦ elim (Bool-cases (exact_debit r d)) [
      | inr other ↦ rw (credit_debit, found, other) tt
      | inl exact ↦ elim (Bool-cases (any (credits id) db.usage)) [
        | inl again ↦ rw (credit_debit, found, exact, again) tt
        | inr first ↦ elim (Bool-cases (any (λ v. v.id == r.event_id) db.usage)) [
          | inl clash ↦ rw (credit_debit, found, exact, first, clash) tt
          | inr fresh ↦ rw (credit_debit, found, exact, first, fresh) b
        ]
      ]
    ]
  ]

  credit_usage-KeptBy :
      (r : BuildUsageRequest) (e : EntitlementRow) (db : Tables)
      → Kept db
      → KeptBy (credit_usage r e db)
  unfolding credit_usage
  credit_usage-KeptBy r e db b =
      elim r.debit_event_id
        as (λ o. KeptBy (elim o as (λ _. Result Tables) [
          | none ↦ err internal
          | some id ↦ credit_debit r e id db
        ])) [ none ↦ tt | some id ↦ credit_debit-KeptBy r e id db b ]

  apply_usage-KeptBy :
      (now : ℕ) (r : BuildUsageRequest) (kind : UsageKind) (e : EntitlementRow) (db : Tables)
      → Kept db
      → KeptBy (apply_usage now r kind e db)
  unfolding apply_usage
  apply_usage-KeptBy now r UsageKind.debit e db b =
      elim (Result-cases (ensure_entitlement_active now e)) [
        | inl (failure, inactive) ↦ rw inactive tt
        | inr (_, active) ↦
            elim (Bool-cases
              (any (is_deployment r.account_id r.project_id r.deployment_id) db.deployments)) [
                | inl owned ↦ rw (active, owned) (debit_usage-KeptBy r e db b)
                | inr foreign ↦ rw (active, foreign) tt
              ]
      ]
  apply_usage-KeptBy now r UsageKind.platform_fault_credit e db b =
      elim (Bool-cases
        (any (is_deployment r.account_id r.project_id r.deployment_id) db.deployments)) [
          | inl owned ↦ rw owned (credit_usage-KeptBy r e db b)
          | inr foreign ↦ rw foreign tt
        ]

  record_build_usage-HasReceipt :
      (env : AdmissionEnv) (now : ℕ) (r : BuildUsageRequest) (db : Tables)
      → Kept db
      → Ends Kept (record_build_usage env now r db)
  unfolding record_build_usage usage_fresh
  record_build_usage-HasReceipt env now r db b =
      Ends-try Kept (validate_build_usage r) db _ b λ kind _.
        with_receipt-Ends Kept env.json_usage r.event_id (usage_fixture kind) (env.hash_usage r) db
          (usage_fresh env now r kind db) b
          (Ends-try Kept (lock_entitlement_and_pool db r.account_id) db _ b λ e _.
            Ends-try Kept (apply_usage now r kind e db) db _ b λ db' done.
              store_fixture-HasReceipt event row env.json_usage r.event_id (usage_fixture kind)
                (env.hash_usage r) _ db db' b
                (subst KeptBy done (apply_usage-KeptBy now r kind e db b)))

  perform-HasReceipt :
      (env : AdmissionEnv) (call : AdmissionCall) (db : Tables)
      → Kept db
      → Kept (perform env call db)
  unfolding perform
  perform-HasReceipt env (creates_hold clock ids id c r) db b =
      (create_hold-HasReceipt event row env clock ids id c.owner c.project_path c.deployment_path
        c.if_match c.key_header r db b).ends
  perform-HasReceipt env (admits_hold clock ids fresh c r) db b =
      (admit-HasReceipt event row env clock ids fresh c.owner c.project_path c.deployment_path
        c.if_match c.key_header r db b).ends
  perform-HasReceipt env (sets_capacity r) db b =
      (put_capacity_fixture-HasReceipt event row env r db b).ends
  perform-HasReceipt env (sets_entitlement id r) db b =
      (put_entitlement_fixture-HasReceipt event row env id r db b).ends
  perform-HasReceipt env (proves_source clock id r) db b =
      (put_source_proof-HasReceipt event row env clock id r db b).ends
  perform-HasReceipt env (observes now r) db b =
      (record_resource_observation-HasReceipt event row env now r db b).ends
  perform-HasReceipt env (uses_build now r) db b =
      (record_build_usage-HasReceipt env now r db b).ends
  perform-HasReceipt env (reconciles now ids) db b =
      expire_holds-HasReceipt event row everywhere now ids db b

  pub run_calls-HasReceipt :
      (env : AdmissionEnv) (calls : List AdmissionCall) (db : Tables)
      → HasReceipt event row db
      → HasReceipt event row (run_calls env calls db)
  unfolding run_calls
  run_calls-HasReceipt env [] db b = b
  run_calls-HasReceipt env (call ∷ calls) db b =
      run_calls-HasReceipt env calls (perform env call db) (perform-HasReceipt env call db b)
