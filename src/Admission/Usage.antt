-- ===== src/Admission/Usage.antt =====
-- `record_build_usage` of crates/control/src/admission.rs: build seconds are debited once for each
-- attempt, and credited back at most once and exactly.
use hostlet_app.Base.{
  ℕ, ◌+◌, Bool, false, not, ◌&&◌, Option, none, some, [], ◌∷◌, ◌++◌, any, ltb, leb, ◌==◌,
  is_some_of, is_some, if◌then◌else◌,
}
use hostlet_app.Base.Integers.{ℤ, not_positive, to_nat, difference}
use hostlet_app.Base.Text.{Text, codes, text_eq, len, is_empty}
use hostlet_app.Base.Table.{select}
use hostlet_app.Api.{
  Result, ok, err, conflict, unprocessable, not_found, database_unavailable, internal,
}
use hostlet_app.Api.Transactions.{try_ok}
use hostlet_app.Admission.Model.{UsageKind, FixtureKind, EntitlementRow, UsageRow, Tables}
use hostlet_app.Admission.Messages.{BuildUsageRequest, BuildUsageResponse, AdmissionEnv}
use hostlet_app.Admission.Store.{is_debit, usage_totals}
use hostlet_app.Admission.Context.{
  is_deployment, lock_entitlement_and_pool, ensure_entitlement_active,
}
use hostlet_app.Admission.Hold.{AdmissionTx}
use hostlet_app.Admission.Receipts.{with_receipt, store_fixture}

unfoldable pub read_usage_kind : Text → Option UsageKind
unfolding text_eq
read_usage_kind kind =
    if text_eq kind (codes "debit")
    then some UsageKind.debit
    else if text_eq kind (codes "platform_fault_credit")
    then some UsageKind.platform_fault_credit
    else none

abbrev valid_ref : Option Text → Bool
valid_ref none = false
valid_ref (some ref) = not (is_empty ref) && leb (len ref) 256

unfoldable pub valid_usage_fields : BuildUsageRequest → UsageKind → Bool
unfolding len
valid_usage_fields r UsageKind.debit =
    not (is_some r.debit_event_id) && not (is_some r.platform_fault_ref)
valid_usage_fields r UsageKind.platform_fault_credit =
    is_some r.debit_event_id && valid_ref r.platform_fault_ref

-- The kind of a valid request.
unfoldable pub validate_build_usage : BuildUsageRequest → Result UsageKind
unfolding read_usage_kind valid_usage_fields
validate_build_usage r = elim (read_usage_kind r.kind) [
  | none ↦ err (unprocessable "invalid_build_usage_event")
  | some kind ↦
      if not_positive r.seconds
      then err (unprocessable "invalid_build_usage_event")
      else if valid_usage_fields r kind
      then ok kind
      else err (unprocessable "invalid_build_usage_event")
]

abbrev pub usage_row : BuildUsageRequest → EntitlementRow → UsageKind → UsageRow
usage_row r e kind = record {
  id = r.event_id;
  account_id = r.account_id;
  project_id = r.project_id;
  deployment_id = r.deployment_id;
  entitlement_id = e.id;
  attempt_id = r.attempt_id;
  kind = kind;
  seconds = to_nat r.seconds;
  debit_event_id = r.debit_event_id;
  platform_fault_ref = r.platform_fault_ref;
}

-- The table's primary key. Its indexes, one debit for an attempt and one credit for a debit, are
-- the tests that have been made.
unfoldable pub insert_usage : UsageRow → Tables → Option Tables
insert_usage u db =
    if any (λ v. v.id == u.id) db.usage
    then none
    else some (record db { usage = db.usage ++ u ∷ [] })

abbrev pub debit_of_attempt : ℕ → ℕ → UsageRow → Bool
debit_of_attempt entitlement attempt u =
    u.entitlement_id == entitlement && (u.attempt_id == attempt && is_debit u.kind)

abbrev pub debit_row : ℕ → UsageRow → Bool
debit_row id u = u.id == id && is_debit u.kind

abbrev pub credits : ℕ → UsageRow → Bool
credits id u = is_some_of u.debit_event_id id

unfoldable pub debit_usage : BuildUsageRequest → EntitlementRow → Tables → Result Tables
unfolding usage_totals insert_usage
debit_usage r e db =
    if any (debit_of_attempt e.id r.attempt_id) db.usage
    then err (conflict "build_attempt_already_debited")
    else if ltb (e.build_seconds_limit + (usage_totals db r.account_id).1)
        ((usage_totals db r.account_id).0 + to_nat r.seconds)
    then err (conflict "build_allowance_exhausted")
    else (elim (insert_usage (usage_row r e UsageKind.debit) db) [
      | none ↦ err database_unavailable
      | some db' ↦ ok db'
    ])

-- The debit's account, project, deployment, attempt and seconds are the request's.
abbrev pub exact_debit : BuildUsageRequest → UsageRow → Bool
exact_debit r u =
    u.account_id == r.account_id
    && (u.project_id == r.project_id
        && (u.deployment_id == r.deployment_id
            && (u.attempt_id == r.attempt_id && u.seconds == to_nat r.seconds)))

unfoldable pub credit_debit : BuildUsageRequest → EntitlementRow → ℕ → Tables → Result Tables
unfolding insert_usage
credit_debit r e id db = elim (select (debit_row id) db.usage) [
  | none ↦ err not_found
  | some u ↦
      if not (exact_debit r u)
      then err (conflict "platform_fault_credit_mismatch")
      else if any (credits id) db.usage
      then err (conflict "platform_fault_already_credited")
      else (elim (insert_usage (usage_row r e UsageKind.platform_fault_credit) db) [
        | none ↦ err database_unavailable
        | some db' ↦ ok db'
      ])
]

unfoldable pub credit_usage : BuildUsageRequest → EntitlementRow → Tables → Result Tables
unfolding credit_debit
credit_usage r e db = elim r.debit_event_id [
  | none ↦ err internal
  | some id ↦ credit_debit r e id db
]

unfoldable pub apply_usage :
    ℕ → BuildUsageRequest → UsageKind → EntitlementRow → Tables → Result Tables
unfolding debit_usage credit_usage ensure_entitlement_active
apply_usage now r kind e db =
    if is_debit kind
    then (elim (ensure_entitlement_active now e) [
      | err failure ↦ err failure
      | ok _ ↦
          if not (any (is_deployment r.account_id r.project_id r.deployment_id) db.deployments)
          then err not_found
          else debit_usage r e db
    ])
    else if not (any (is_deployment r.account_id r.project_id r.deployment_id) db.deployments)
    then err not_found
    else credit_usage r e db

abbrev pub usage_fixture : UsageKind → FixtureKind
usage_fixture UsageKind.debit = FixtureKind.build_debit
usage_fixture UsageKind.platform_fault_credit = FixtureKind.build_credit

-- `limit - debited + credited`, which can be negative.
unfoldable pub seconds_left : EntitlementRow → Tables → ℕ → ℤ
unfolding usage_totals difference
seconds_left e db account =
    difference (e.build_seconds_limit + (usage_totals db account).1) (usage_totals db account).0

unfoldable pub usage_fresh :
    AdmissionEnv → ℕ → BuildUsageRequest → UsageKind → Tables → AdmissionTx BuildUsageResponse
unfolding lock_entitlement_and_pool apply_usage seconds_left store_fixture
usage_fresh env now r kind db = try_ok (lock_entitlement_and_pool db r.account_id) db (λ e.
    try_ok (apply_usage now r kind e db) db (λ db'.
      store_fixture env.json_usage r.event_id (usage_fixture kind) (env.hash_usage r)
        (record {
          id = r.event_id;
          kind = r.kind;
          attempt_id = r.attempt_id;
          seconds = to_nat r.seconds;
          debit_event_id = r.debit_event_id;
          build_seconds_remaining = seconds_left e db' r.account_id;
          execution_enqueued = false;
        })
        db db'))

unfoldable pub record_build_usage :
    AdmissionEnv → ℕ → BuildUsageRequest → Tables → AdmissionTx BuildUsageResponse
unfolding validate_build_usage with_receipt usage_fresh
record_build_usage env now r db = try_ok (validate_build_usage r) db (λ kind.
    with_receipt env.json_usage r.event_id (usage_fixture kind) (env.hash_usage r) db
      (usage_fresh env now r kind db))
