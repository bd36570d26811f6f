-- ===== src/Admission/UsageKeeps.antt =====
-- `record_build_usage` of crates/control/src/admission.rs and the condition on the tables.
use hostlet_app.Base.{
  ℕ, ◌+◌, ◌≡◌, inl, inr, refl, sym, ◌∙◌, subst, ap, true, false, none, some, [], ◌∷◌, ◌++◌, any,
  ltb, ◌==◌, Bool-cases, Option-cases, ==_iff, &&_left, &&_right, arith,
}
use hostlet_app.Base.Integers.{to_nat}
use hostlet_app.Base.Table.{select, select-some, select-any, select-In}
use hostlet_app.Api.{Result, ok, err, Result-cases, internal, database_unavailable}
use hostlet_app.Api.Transactions.{Ends, Ends-try}
use hostlet_app.Admission.Model.{UsageKind, EntitlementRow, UsageRow, Tables}
use hostlet_app.Admission.Messages.{BuildUsageRequest, AdmissionEnv}
use hostlet_app.Admission.Store.{of_account, is_debit, usage_totals}
use hostlet_app.Admission.Context.{
  is_deployment, lock_entitlement_and_pool, ensure_entitlement_active,
}
use hostlet_app.Admission.Usage.{
  valid_usage_fields, validate_build_usage, usage_row, insert_usage, debit_of_attempt, debit_row,
  credits, debit_usage, exact_debit, credit_debit, credit_usage, apply_usage, usage_fixture,
  usage_fresh, record_build_usage,
}
use hostlet_app.Admission.Meter.{Metered, debit-Metered, credit-Metered}
use hostlet_app.Admission.Limits.{WithinLimits}
use hostlet_app.Admission.HoldLimits.{lock_entitlement_and_pool-select}
use hostlet_app.Admission.FixtureKeeps.{with_receipt-Ends, store_fixture-Ends}

-- A debit that passes the checks names no other event.
validate_build_usage-debit :
    (r : BuildUsageRequest) (kind : UsageKind)
    → validate_build_usage r ≡ ok kind
    → is_debit kind ≡ true
    → r.debit_event_id ≡ none
unfolding validate_build_usage valid_usage_fields
validate_build_usage-debit r UsageKind.debit valid debit =
    ground (arith, Option-cases r.debit_event_id)
validate_build_usage-debit r UsageKind.platform_fault_credit valid debit = cc

-- The tables after a step that may fail are within the limits.
abbrev Applied : Result Tables → Type 0
Applied (err e) = Unit
Applied (ok db) = WithinLimits db

insert_usage-Applied :
    (u : UsageRow) (db : Tables)
    → WithinLimits db
    → (any (λ v. v.id == u.id) db.usage ≡ false → Metered db.entitlements (db.usage ++ u ∷ []))
    → Applied (elim (insert_usage u db) as (λ _. Result Tables) [
      | none ↦ err database_unavailable
      | some db' ↦ ok db'
    ])
unfolding insert_usage
insert_usage-Applied u db b good = elim (Bool-cases (any (λ v. v.id == u.id) db.usage)) [
  | inl clash ↦ rw clash tt
  | inr fresh ↦ rw fresh (b.0, good fresh)
]

debit_usage-Applied :
    (r : BuildUsageRequest) (e : EntitlementRow) (db : Tables)
    → select (of_account r.account_id) db.entitlements ≡ some e
    → r.debit_event_id ≡ none
    → WithinLimits db
    → Applied (debit_usage r e db)
unfolding debit_usage usage_totals
debit_usage-Applied r e db found plain b =
    elim (Bool-cases (any (debit_of_attempt e.id r.attempt_id) db.usage)) [
      | inl again ↦ rw again tt
      | inr first ↦
          elim (Bool-cases (
            ltb (e.build_seconds_limit + (usage_totals db r.account_id).1)
              ((usage_totals db r.account_id).0 + to_nat r.seconds))) [
                | inl over ↦ rw (first, over) tt
                | inr room ↦
                    rw (first, room)
                      (insert_usage-Applied (usage_row r e UsageKind.debit) db b (λ fresh.
                        debit-Metered (usage_row r e UsageKind.debit) e fresh refl plain found
                          (ground (arith, room)) b.1))
              ]
    ]

credit_debit-Applied :
    (r : BuildUsageRequest) (e : EntitlementRow) (id : ℕ) (db : Tables)
    → r.debit_event_id ≡ some id
    → WithinLimits db
    → Applied (credit_debit r e id db)
unfolding credit_debit
credit_debit-Applied r e id db points b = elim (Option-cases (select (debit_row id) db.usage)) [
  | inl missing ↦ rw (credit_debit, missing) tt
  | inr (d, found) ↦ elim (Bool-cases (exact_debit r d)) [
    | inr other ↦ rw (credit_debit, found, other) tt
    | inl exact ↦ elim (Bool-cases (any (credits id) db.usage)) [
      | inl again ↦ rw (credit_debit, found, exact, again) tt
      | inr first ↦
          let hit = select-some (debit_row id) db.usage d found in
          let there = select-In (debit_row id) db.usage d found in
          let same = (==_iff d.id id).0 (&&_left _ _ hit) in
          rw (credit_debit, found, exact, first)
            (insert_usage-Applied (usage_row r e UsageKind.platform_fault_credit) db b (λ fresh.
              credit-Metered (usage_row r e UsageKind.platform_fault_credit) d fresh refl
                (points ∙ ap some (sym same)) there (&&_right _ _ hit)
                (subst (λ i. any (debit_row i) db.usage ≡ true) (sym same)
                  (select-any (debit_row id) db.usage d found))
                (accounts d exact) (seconds d exact)
                (subst (λ i. any (credits i) db.usage ≡ false) (sym same) first) b.1))
    ]
  ]
]
  where
    accounts : (d : UsageRow) → exact_debit r d ≡ true → r.account_id ≡ d.account_id
    accounts d exact = sym ((==_iff d.account_id r.account_id).0 (&&_left _ _ exact))

    seconds : (d : UsageRow) → exact_debit r d ≡ true → to_nat r.seconds ≡ d.seconds
    seconds d exact = ground (arith, exact)

apply_usage-Applied :
    (now : ℕ) (r : BuildUsageRequest) (kind : UsageKind) (e : EntitlementRow) (db : Tables)
    → select (of_account r.account_id) db.entitlements ≡ some e
    → (is_debit kind ≡ true → r.debit_event_id ≡ none)
    → WithinLimits db
    → Applied (apply_usage now r kind e db)
unfolding apply_usage credit_usage
apply_usage-Applied now r UsageKind.debit e db found plain b =
    elim (Result-cases (ensure_entitlement_active now e)) [
      | inl (failure, inactive) ↦ rw inactive tt
      | inr (_, active) ↦
          elim (Bool-cases
            (any (is_deployment r.account_id r.project_id r.deployment_id) db.deployments)) [
              | inl owned ↦ rw (active, owned) (debit_usage-Applied r e db found (plain refl) b)
              | inr foreign ↦ rw (active, foreign) tt
            ]
    ]
apply_usage-Applied now r UsageKind.platform_fault_credit e db found plain b =
    elim (Bool-cases
      (any (is_deployment r.account_id r.project_id r.deployment_id) db.deployments)) [
        | inl owned ↦ elim (Option-cases r.debit_event_id) [
          | inl absent ↦ rw (owned, absent) tt
          | inr (id, points) ↦ rw owned (credits_it id points)
        ]
        | inr foreign ↦ rw foreign tt
      ]
  where
    credits_it :
        (id : ℕ)
        → r.debit_event_id ≡ some id
        → Applied (elim r.debit_event_id as (λ _. Result Tables) [
          | none ↦ err internal
          | some i ↦ credit_debit r e i db
        ])
    credits_it id points =
        subst
          (λ o. Applied (elim o as (λ _. Result Tables) [
            | none ↦ err internal
            | some i ↦ credit_debit r e i db
          ]))
          (sym points) (credit_debit-Applied r e id db points b)

Applied-ok : (x : Result Tables) (db : Tables) → Applied x → x ≡ ok db → WithinLimits db
Applied-ok x db h e = subst Applied e h

pub record_build_usage-Ends :
    (env : AdmissionEnv) (now : ℕ) (r : BuildUsageRequest) (db : Tables)
    → WithinLimits db
    → Ends WithinLimits (record_build_usage env now r db)
unfolding record_build_usage usage_fresh
record_build_usage-Ends env now r db b =
    Ends-try WithinLimits (validate_build_usage r) db _ b λ kind valid.
      with_receipt-Ends WithinLimits env.json_usage r.event_id (usage_fixture kind)
        (env.hash_usage r) db (usage_fresh env now r kind db) b
        (Ends-try WithinLimits (lock_entitlement_and_pool db r.account_id) db _ b λ e locked.
          let found = lock_entitlement_and_pool-select db r.account_id e locked in
          let applied_well =
            apply_usage-Applied now r kind e db found (validate_build_usage-debit r kind valid) b in
          Ends-try WithinLimits (apply_usage now r kind e db) db _ b λ db' done.
            store_fixture-Ends WithinLimits env.json_usage r.event_id (usage_fixture kind)
              (env.hash_usage r) _ db db' b
              (λ _. Applied-ok (apply_usage now r kind e db) db' applied_well done))
