-- ===== src/Admission/Capacity.antt =====
-- `put_capacity_fixture` and `put_entitlement_fixture` of crates/control/src/admission.rs: the
-- limits of a pool and of an account are set, never below what is in use.
use hostlet_app.Base.{
  ℕ, ◌+◌, Bool, true, not, ◌&&◌, ◌||◌, Option, none, some, List, [], ◌∷◌, ◌++◌, any, ltb, leb, ◌==◌,
  if◌then◌else◌,
}
use hostlet_app.Base.Integers.{is_negative, to_nat}
use hostlet_app.Base.Text.{Text, codes, text_eq, len, bytes, is_empty, is_ascii_control}
use hostlet_app.Base.Table.{select, update_rows}
use hostlet_app.Api.{Result, ok, err, ◌>>◌, guard, conflict, unprocessable, database_unavailable}
use hostlet_app.Api.Transactions.{try_ok, found_or}
use hostlet_app.Admission.Model.{EntitlementState, FixtureKind, PoolRow, EntitlementRow, Tables}
use hostlet_app.Admission.Messages.{
  CapacityFixtureRequest, CapacityFixtureResponse, EntitlementFixtureRequest, AdmissionEnv,
}
use hostlet_app.Admission.Store.{
  is_pool, of_account, account_slot_use, pool_slot_use, pool_rollout_use, usage_totals,
}
use hostlet_app.Admission.Hold.{AdmissionTx}
use hostlet_app.Admission.Receipts.{with_receipt, store_fixture}
use Prim.Native.String.{String}

unfoldable pub validate_label : Text → String → Result (Unit {0})
unfolding len bytes
validate_label value code =
    guard (not (is_empty value) && (leb (len value) 64 && not (any is_ascii_control (bytes value))))
      (unprocessable code)

unfoldable pub validate_capacity : CapacityFixtureRequest → Result (Unit {0})
unfolding validate_label
validate_capacity r = do
  validate_label r.pool_key "invalid_pool_key"
  validate_label r.profile "invalid_capacity_profile"
  guard (not (is_negative r.hosted_slot_limit) && not (is_negative r.rollout_headroom_limit))
      (unprocessable "invalid_capacity_limit")

abbrev pub set_pool : CapacityFixtureRequest → PoolRow → PoolRow
set_pool r p = record p {
  profile = r.profile;
  hosted_slot_limit = to_nat r.hosted_slot_limit;
  rollout_headroom_limit = to_nat r.rollout_headroom_limit;
  revision = p.revision + 1;
}

abbrev pub new_pool : CapacityFixtureRequest → PoolRow
new_pool r = record {
  pool_key = r.pool_key;
  profile = r.profile;
  hosted_slot_limit = to_nat r.hosted_slot_limit;
  rollout_headroom_limit = to_nat r.rollout_headroom_limit;
  revision = 1;
}

-- INSERT … ON CONFLICT (pool_key) DO UPDATE.
unfoldable pub upsert_pool : CapacityFixtureRequest → List PoolRow → List PoolRow
upsert_pool r pools =
    if any (is_pool r.pool_key) pools
    then update_rows (is_pool r.pool_key) (set_pool r) pools
    else pools ++ new_pool r ∷ []

abbrev pool_response : PoolRow → CapacityFixtureResponse
pool_response p = record {
  pool_key = p.pool_key;
  profile = p.profile;
  hosted_slot_limit = p.hosted_slot_limit;
  rollout_headroom_limit = p.rollout_headroom_limit;
  revision = p.revision;
}

unfoldable pub capacity_fresh :
    AdmissionEnv → CapacityFixtureRequest → Tables → AdmissionTx CapacityFixtureResponse
unfolding pool_slot_use pool_rollout_use upsert_pool store_fixture
capacity_fresh env r db =
    if ltb (to_nat r.hosted_slot_limit) (pool_slot_use db r.pool_key)
      || ltb (to_nat r.rollout_headroom_limit) (pool_rollout_use db r.pool_key)
    then (db, err (conflict "capacity_in_use"))
    else found_or (select (is_pool r.pool_key) (upsert_pool r db.pools)) database_unavailable db
        (λ p.
          store_fixture env.json_capacity r.event_id FixtureKind.capacity (env.hash_capacity r)
            (pool_response p) db (record db { pools = upsert_pool r db.pools }))

unfoldable pub put_capacity_fixture :
    AdmissionEnv → CapacityFixtureRequest → Tables → AdmissionTx CapacityFixtureResponse
unfolding validate_capacity with_receipt capacity_fresh
put_capacity_fixture env r db = try_ok (validate_capacity r) db (λ _.
    with_receipt env.json_capacity r.event_id FixtureKind.capacity (env.hash_capacity r) db
      (capacity_fresh env r db))

-- The state of an entitlement by its text.
unfoldable pub entitlement_state : Text → Option EntitlementState
unfolding text_eq
entitlement_state state =
    if text_eq state (codes "active")
    then some EntitlementState.active
    else if text_eq state (codes "expired")
    then some EntitlementState.expired
    else if text_eq state (codes "revoked")
    then some EntitlementState.revoked
    else none

-- The state that a valid request sets.
unfoldable pub validate_entitlement : EntitlementFixtureRequest → Result EntitlementState
unfolding entitlement_state
validate_entitlement r =
    if is_negative r.hosted_slot_limit
      || (is_negative r.build_seconds_limit || leb r.period_ends_at r.period_starts_at)
    then err (unprocessable "invalid_entitlement_fixture")
    else (elim (entitlement_state r.state) [
      | none ↦ err (unprocessable "invalid_entitlement_fixture")
      | some state ↦ ok state
    ])

-- The period and the pool of an entitlement that is there stay as they are.
abbrev pub keeps_period : EntitlementFixtureRequest → Option EntitlementRow → Bool
keeps_period r none = true
keeps_period r (some e) =
    text_eq e.capacity_pool_key r.capacity_pool_key
    && (e.period_starts_at == r.period_starts_at && e.period_ends_at == r.period_ends_at)

abbrev pub set_entitlement :
    EntitlementFixtureRequest → EntitlementState → EntitlementRow → EntitlementRow
set_entitlement r state e = record e {
  capacity_pool_key = r.capacity_pool_key;
  hosted_slot_limit = to_nat r.hosted_slot_limit;
  build_seconds_limit = to_nat r.build_seconds_limit;
  period_starts_at = r.period_starts_at;
  period_ends_at = r.period_ends_at;
  state = state;
  revision = e.revision + 1;
}

abbrev pub new_entitlement : ℕ → EntitlementFixtureRequest → EntitlementState → EntitlementRow
new_entitlement id r state = record {
  id = id;
  account_id = r.account_id;
  capacity_pool_key = r.capacity_pool_key;
  hosted_slot_limit = to_nat r.hosted_slot_limit;
  build_seconds_limit = to_nat r.build_seconds_limit;
  period_starts_at = r.period_starts_at;
  period_ends_at = r.period_ends_at;
  state = state;
  revision = 1;
}

-- INSERT … ON CONFLICT (account_id) DO UPDATE; `id` is fresh and used where there is no row.
unfoldable pub upsert_entitlement :
    ℕ → EntitlementFixtureRequest → EntitlementState → List EntitlementRow → List EntitlementRow
upsert_entitlement id r state es =
    if any (of_account r.account_id) es
    then update_rows (of_account r.account_id) (set_entitlement r state) es
    else es ++ new_entitlement id r state ∷ []

unfoldable pub entitlement_in_use : EntitlementFixtureRequest → Tables → Bool
unfolding account_slot_use usage_totals
entitlement_in_use r db =
    ltb (to_nat r.hosted_slot_limit) (account_slot_use db r.account_id)
    || ltb (to_nat r.build_seconds_limit + (usage_totals db r.account_id).1)
        (usage_totals db r.account_id).0

unfoldable pub entitlement_fresh :
    AdmissionEnv
    → ℕ
    → EntitlementFixtureRequest
    → EntitlementState
    → Tables
    → AdmissionTx EntitlementRow
unfolding entitlement_in_use upsert_entitlement store_fixture
entitlement_fresh env id r state db =
    if not (any (is_pool r.capacity_pool_key) db.pools)
    then (db, err (conflict "capacity_pool_missing"))
    else if entitlement_in_use r db
    then (db, err (conflict "entitlement_in_use"))
    else if not (keeps_period r (select (of_account r.account_id) db.entitlements))
    then (db, err (conflict "entitlement_period_immutable"))
    else found_or (select (of_account r.account_id) (upsert_entitlement id r state db.entitlements))
        database_unavailable db
        (λ e.
          store_fixture env.json_entitlement r.event_id FixtureKind.entitlement
            (env.hash_entitlement r) e db
            (record db { entitlements = upsert_entitlement id r state db.entitlements }))

unfoldable pub put_entitlement_fixture :
    AdmissionEnv → ℕ → EntitlementFixtureRequest → Tables → AdmissionTx EntitlementRow
unfolding validate_entitlement with_receipt entitlement_fresh
put_entitlement_fixture env id r db = try_ok (validate_entitlement r) db (λ state.
    with_receipt env.json_entitlement r.event_id FixtureKind.entitlement (env.hash_entitlement r) db
      (entitlement_fresh env id r state db))
