-- ===== src/Admission/Store.antt =====
-- The SQL statements that the handlers of crates/control/src/admission.rs share.
use hostlet_app.Base.{
  ℕ, ◌+◌, ◌-◌, Bool, true, false, not, ◌&&◌, ◌||◌, Option, none, some, List, [], ◌∷◌, ◌++◌, any,
  leb, ◌==◌, if◌then◌else◌,
}
use hostlet_app.Base.Text.{Text, text_eq}
use hostlet_app.Base.Counts.{number_of, sum_of}
use hostlet_app.Base.Table.{select, select_all, update_rows}
use hostlet_app.Api.{Result, ok, err, ◌>>=◌, not_found, conflict}
use hostlet_app.Admission.Model.{
  HoldKind, HoldState, ReservationState, UsageKind, PoolRow, EntitlementRow, HoldRow,
  ReservationRow, UsageRow, RefundRow, Tables,
}
use hostlet_app.Admission.Messages.{
  HoldRecord, ReservationRecord, AdmissionResponse, EntitlementSummary,
}

abbrev pub is_initial : HoldKind → Bool
is_initial HoldKind.initial = true
is_initial HoldKind.rollout = false

abbrev pub hold_active : HoldState → Bool
hold_active HoldState.active = true
hold_active _ = false

-- state IN ('active','consumed').
abbrev pub in_flight : HoldState → Bool
in_flight HoldState.active = true
in_flight HoldState.consumed = true
in_flight _ = false

abbrev pub is_released : ReservationState → Bool
is_released ReservationState.released = true
is_released _ = false

abbrev pub is_debit : UsageKind → Bool
is_debit UsageKind.debit = true
is_debit UsageKind.platform_fault_credit = false

abbrev pub is_pool : Text → PoolRow → Bool
is_pool key p = text_eq p.pool_key key

abbrev pub of_account : ℕ → EntitlementRow → Bool
of_account account e = e.account_id == account

abbrev pub is_hold : ℕ → ℕ → ℕ → HoldRow → Bool
is_hold id account project h = h.id == id && (h.account_id == account && h.project_id == project)

abbrev pub is_reservation : ℕ → ℕ → ℕ → ReservationRow → Bool
is_reservation id account project r =
    r.id == id && (r.account_id == account && r.project_id == project)

abbrev pub active_initial : HoldRow → Bool
active_initial h = is_initial h.kind && hold_active h.state

abbrev pub account_reservation : ℕ → ReservationRow → Bool
account_reservation account r = r.account_id == account && not (is_released r.state)

abbrev pub account_hold : ℕ → HoldRow → Bool
account_hold account h = h.account_id == account && active_initial h

abbrev pub pool_reservation : Text → ReservationRow → Bool
pool_reservation key r = text_eq r.capacity_pool_key key && not (is_released r.state)

abbrev pub pool_hold : Text → HoldRow → Bool
pool_hold key h = text_eq h.capacity_pool_key key && active_initial h

abbrev pub rollout_in_flight : HoldRow → Bool
rollout_in_flight h = not (is_initial h.kind) && in_flight h.state

abbrev pub pool_rollout : Text → HoldRow → Bool
pool_rollout key h = text_eq h.capacity_pool_key key && rollout_in_flight h

unfoldable pub account_slot_use : Tables → ℕ → ℕ
unfolding number_of
account_slot_use db account =
    number_of (account_reservation account) db.reservations
    + number_of (account_hold account) db.holds

unfoldable pub pool_slot_use : Tables → Text → ℕ
unfolding number_of
pool_slot_use db key =
    number_of (pool_reservation key) db.reservations + number_of (pool_hold key) db.holds

unfoldable pub pool_rollout_use : Tables → Text → ℕ
unfolding number_of
pool_rollout_use db key = number_of (pool_rollout key) db.holds

abbrev pub account_debit : ℕ → UsageRow → Bool
account_debit account u = u.account_id == account && is_debit u.kind

abbrev pub account_credit : ℕ → UsageRow → Bool
account_credit account u = u.account_id == account && not (is_debit u.kind)

abbrev pub row_seconds : UsageRow → ℕ
row_seconds u = u.seconds

-- The seconds debited to an account and those credited back.
unfoldable pub usage_totals : Tables → ℕ → ℕ × ℕ
unfolding sum_of
usage_totals db account = (
  sum_of row_seconds (account_debit account) db.usage,
  sum_of row_seconds (account_credit account) db.usage,
)

-- state='active' AND consumed_at IS NULL AND expires_at <= clock_timestamp().
abbrev pub hold_due : ℕ → HoldRow → Bool
hold_due now h =
    hold_active h.state
    && ((elim h.consumed_at [ none ↦ true | some _ ↦ false ]) && leb h.expires_at now)

abbrev pub expire_hold : ℕ → HoldRow → HoldRow
expire_hold now h = record h { state = HoldState.expired; released_at = some now }

-- INSERT … ON CONFLICT (hold_id) DO NOTHING; `ids` are the fresh identifiers.
unfoldable pub add_refunds : (ℕ → ℕ) → ℕ → List HoldRow → List RefundRow → List RefundRow
add_refunds ids i [] refunds = refunds
add_refunds ids i (h ∷ hs) refunds = add_refunds ids (i + 1) hs (
    if not (is_initial h.kind) || any (λ r. r.hold_id == h.id) refunds
    then refunds
    else refunds
      ++ record {
        id = ids i;
        account_id = h.account_id;
        project_id = h.project_id;
        deployment_id = h.deployment_id;
        hold_id = h.id;
      }
        ∷ [])

abbrev pub due_in : (HoldRow → Bool) → ℕ → HoldRow → Bool
due_in scope now h = hold_due now h && scope h

-- The statement that `expire_holds_for_scope` and `reconcile` share: the holds of a scope that are
-- due expire, and each initial one of them leaves a refund to be settled.
unfoldable pub expire_holds : (HoldRow → Bool) → ℕ → (ℕ → ℕ) → Tables → Tables
unfolding add_refunds update_rows select_all
expire_holds scope now ids db = record db {
  holds = update_rows (due_in scope now) (expire_hold now) db.holds;
  refunds = add_refunds ids 0 (select_all (due_in scope now) db.holds) db.refunds;
}

abbrev pub in_scope : ℕ → Text → HoldRow → Bool
in_scope account key h = h.account_id == account || text_eq h.capacity_pool_key key

unfoldable pub expire_holds_for_scope : ℕ → Text → ℕ → (ℕ → ℕ) → Tables → Tables
unfolding expire_holds
expire_holds_for_scope account key now ids db = expire_holds (in_scope account key) now ids db

abbrev pub hold_record : HoldRow → HoldRecord
hold_record h = record {
  id = h.id;
  kind = h.kind;
  state = h.state;
  project_id = h.project_id;
  deployment_id = h.deployment_id;
  source_proof_id = h.source_proof_id;
  expires_at = h.expires_at;
}

unfoldable pub load_hold : Tables → ℕ → ℕ → ℕ → Result HoldRecord
load_hold db account project id = elim (select (is_hold id account project) db.holds) [
  | none ↦ err not_found
  | some h ↦ ok (hold_record h)
]

abbrev pub reservation_record : ReservationRow → ReservationRecord
reservation_record r = record {
  id = r.id;
  project_id = r.project_id;
  first_deployment_id = r.first_deployment_id;
  state = r.state;
  reservation_epoch = r.reservation_epoch;
  retention_reason = r.retention_reason;
}

unfoldable pub load_reservation : Tables → ℕ → ℕ → ℕ → Result ReservationRecord
load_reservation db account project id =
    elim (select (is_reservation id account project) db.reservations) [
      | none ↦ err not_found
      | some r ↦ ok (reservation_record r)
    ]

abbrev pub holds_slot : ℕ → ℕ → ReservationRow → Bool
holds_slot account project r =
    r.account_id == account && (r.project_id == project && not (is_released r.state))

unfoldable pub load_active_reservation : Tables → ℕ → ℕ → Result (Option ReservationRecord)
unfolding load_reservation
load_active_reservation db account project =
    elim (select (holds_slot account project) db.reservations) [
      | none ↦ ok none
      | some r ↦ elim (load_reservation db account project r.id) [
        | err e ↦ err e
        | ok found ↦ ok (some found)
      ]
    ]

-- What a stored answer looks like now.
unfoldable pub refresh_admission_response :
    Tables → ℕ → AdmissionResponse → Result AdmissionResponse
unfolding load_hold load_reservation
refresh_admission_response db account response = do
  hold ← load_hold db account response.hold.project_id response.hold.id
  elim response.reservation [
    | none ↦ ok (record response { hold = hold })
    | some r ↦ elim (load_reservation db account r.project_id r.id) [
      | err e ↦ err e
      | ok found ↦ ok (record response { hold = hold; reservation = some found })
    ]
  ]

-- `source` is always 'synthetic_internal'. The `max(0)` is the subtraction of the natural numbers.
unfoldable pub entitlement_summary : Tables → ℕ → Result EntitlementSummary
unfolding number_of usage_totals
entitlement_summary db account = elim (select (of_account account) db.entitlements) [
  | none ↦ err (conflict "entitlement_unavailable")
  | some e ↦ ok (record {
    hosted_slot_limit = e.hosted_slot_limit;
    hosted_slots_used = number_of (account_reservation account) db.reservations;
    active_initial_holds = number_of (account_hold account) db.holds;
    build_seconds_limit = e.build_seconds_limit;
    build_seconds_debited = (usage_totals db account).0;
    build_seconds_credited = (usage_totals db account).1;
    build_seconds_remaining =
        e.build_seconds_limit + (usage_totals db account).1 - (usage_totals db account).0;
    period_starts_at = e.period_starts_at;
    period_ends_at = e.period_ends_at;
  })
]
