-- ===== src/Admission/Safety.antt =====
-- Capacity and build seconds through any requests to crates/control/src/admission.rs.
use hostlet_app.Base.{
  ℕ, ◌+◌, ◌-◌, ◌≤◌, ◌≡◌, ◌≢◌, refl, subst, inl, inr, not, some, List, [], ◌∷◌, Option-cases, arith,
}
use hostlet_app.Base.Text.{Text}
use hostlet_app.Base.Table.{select}
use hostlet_app.Base.Counts.{number_of, sum_of}
use hostlet_app.Api.{ApiError, Result, ok, err}
use hostlet_app.Api.Transactions.{Ends, Ends-at, Ends-if, Ends-try}
use hostlet_app.Jobs.Intent.{Header, Replay, miss, matched, changed, replay}
use hostlet_app.Jobs.Cancel.{Owner}
use hostlet_app.Admission.Model.{PoolRow, Tables}
use hostlet_app.Admission.Messages.{
  AdmissionResponse, EntitlementSummary, CreateHoldRequest, AdmitRequest, AdmissionEnv,
}
use hostlet_app.Admission.Store.{
  is_pool, of_account, pool_slot_use, pool_rollout_use, usage_totals, row_seconds,
  entitlement_summary,
}
use hostlet_app.Admission.Hold.{
  AdmissionTx, owner_inputs, valid_ttl, hold_operation, answer_replay, create_hold,
}
use hostlet_app.Admission.Admit.{AdmitIds, admit_operation, admit}
use hostlet_app.Admission.Queries.{everywhere, get_entitlement}
use hostlet_app.Admission.Machine.{
  AdmissionCall, creates_hold, admits_hold, sets_capacity, sets_entitlement, proves_source,
  observes, uses_build, reconciles, perform, run_calls,
}
use hostlet_app.Admission.Meter.{Metered, outstanding}
use hostlet_app.Admission.Limits.{Bounded, WithinLimits}
use hostlet_app.Admission.HoldLimits.{expire_holds-WithinLimits, create_hold_checked-Ends}
use hostlet_app.Admission.AdmitKeeps.{admit_checked-Ends}
use hostlet_app.Admission.FixtureKeeps.{
  put_capacity_fixture-Ends, put_entitlement_fixture-Ends, put_source_proof-Ends,
}
use hostlet_app.Admission.ObserveKeeps.{record_resource_observation-Ends}
use hostlet_app.Admission.UsageKeeps.{record_build_usage-Ends}

-- Nothing is held, reserved or used yet.
abbrev pub Untouched : Tables → Type 0
Untouched db = (db.holds ≡ []) × (db.reservations ≡ []) × (db.usage ≡ [])

pub Untouched-WithinLimits : (db : Tables) → Untouched db → WithinLimits db
unfolding number_of sum_of
Untouched-WithinLimits db (no_holds, no_reservations, no_usage) =
    rw (no_holds, no_reservations, no_usage) (empty_bounded, empty_metered)
  where
    empty_bounded : Bounded db.pools db.entitlements [] []
    empty_bounded = record {
      hold_ids = tt;
      reservation_ids = tt;
      hold_pools = tt;
      pool_slots = λ key p found. omega arith;
      pool_rollouts = λ key p found. omega arith;
      account_slots = λ account e found. omega arith;
    }

    empty_metered : Metered db.entitlements []
    empty_metered = record {
      usage_ids = tt;
      credited_debits = tt;
      balance = λ account. refl;
      allowance = λ account e found. omega arith;
    }

answer_replay-Ends :
    (o : Owner) (db : Tables) (fresh : AdmissionTx AdmissionResponse) (r : Replay AdmissionResponse)
    → WithinLimits db
    → Ends WithinLimits fresh
    → Ends WithinLimits (answer_replay o db fresh r)
unfolding answer_replay
answer_replay-Ends o db fresh (matched response) b good = Ends-at WithinLimits db _ b
answer_replay-Ends o db fresh changed b good = Ends-at WithinLimits db _ b
answer_replay-Ends o db fresh miss b good = good

create_hold-Ends :
    (env : AdmissionEnv) (clock ids : ℕ → ℕ) (id : ℕ) (o : Owner)
    (project_path deployment_path : Text) (if_match key_header : Header)
    (request : CreateHoldRequest) (db : Tables)
    → WithinLimits db
    → Ends WithinLimits
        (create_hold env clock ids id o project_path deployment_path if_match key_header request db)
unfolding create_hold
create_hold-Ends env clock ids id o project_path deployment_path if_match key_header request db b =
    Ends-if WithinLimits (not (valid_ttl request.ttl_seconds)) _ _
      (λ _. Ends-at WithinLimits db _ b)
      λ _.
        Ends-try WithinLimits (owner_inputs env project_path deployment_path if_match key_header) db
          _ b
          λ inputs _.
            Ends-try WithinLimits
              (replay env.json_admission.parse db.shared o.account_id
                (hold_operation env inputs.project inputs.deployment) inputs.key
                (env.hash_hold request))
              db _ b
              λ r _.
                answer_replay-Ends o db _ r b
                  (create_hold_checked-Ends env clock ids id o inputs request db b)

admit-Ends :
    (env : AdmissionEnv) (clock refund_ids : ℕ → ℕ) (ids : AdmitIds) (o : Owner)
    (project_path deployment_path : Text) (if_match key_header : Header) (request : AdmitRequest)
    (db : Tables)
    → WithinLimits db
    → Ends WithinLimits (
        admit env clock refund_ids ids o project_path deployment_path if_match key_header request
          db)
unfolding admit
admit-Ends env clock refund_ids ids o project_path deployment_path if_match key_header request db
      b =
    Ends-try WithinLimits (owner_inputs env project_path deployment_path if_match key_header) db _ b
      λ inputs _.
        Ends-try WithinLimits
          (replay env.json_admission.parse db.shared o.account_id
            (admit_operation env inputs.project inputs.deployment) inputs.key
            (env.hash_admit request))
          db _ b
          λ r _.
            answer_replay-Ends o db _ r b
              (admit_checked-Ends env clock refund_ids ids o inputs request db b)

perform-WithinLimits :
    (env : AdmissionEnv) (call : AdmissionCall) (db : Tables)
    → WithinLimits db
    → WithinLimits (perform env call db)
unfolding perform
perform-WithinLimits env (creates_hold clock ids id c r) db b =
    (create_hold-Ends env clock ids id c.owner c.project_path c.deployment_path c.if_match
      c.key_header r db b).ends
perform-WithinLimits env (admits_hold clock ids fresh c r) db b =
    (admit-Ends env clock ids fresh c.owner c.project_path c.deployment_path c.if_match c.key_header
      r db b).ends
perform-WithinLimits env (sets_capacity r) db b = (put_capacity_fixture-Ends env r db b).ends
perform-WithinLimits env (sets_entitlement id r) db b =
    (put_entitlement_fixture-Ends env id r db b).ends
perform-WithinLimits env (proves_source clock id r) db b =
    (put_source_proof-Ends WithinLimits env r db (λ _ _. b) clock id b).ends
perform-WithinLimits env (observes now r) db b =
    (record_resource_observation-Ends env now r db b).ends
perform-WithinLimits env (uses_build now r) db b = (record_build_usage-Ends env now r db b).ends
perform-WithinLimits env (reconciles now ids) db b =
    expire_holds-WithinLimits everywhere now ids db b

pub run_calls-WithinLimits :
    (env : AdmissionEnv) (calls : List AdmissionCall) (db : Tables)
    → WithinLimits db
    → WithinLimits (run_calls env calls db)
unfolding run_calls
run_calls-WithinLimits env [] db b = b
run_calls-WithinLimits env (call ∷ calls) db b =
    run_calls-WithinLimits env calls (perform env call db) (perform-WithinLimits env call db b)

module _ (env : AdmissionEnv) (calls : List AdmissionCall) (db : Tables)
    (untouched : Untouched db) where
  within : WithinLimits (run_calls env calls db)
  within = run_calls-WithinLimits env calls db (Untouched-WithinLimits db untouched)

  -- Whatever requests are made of tables in which nothing was held yet, the slots of a pool that are
  -- reserved or held are within its limit, and so are its rollouts, at the limits that it then has.
  pub run_calls-pool_slot_use :
      (key : Text) (p : PoolRow)
      → select (is_pool key) (run_calls env calls db).pools ≡ some p
      → (pool_slot_use (run_calls env calls db) key ≤ p.hosted_slot_limit)
        × (pool_rollout_use (run_calls env calls db) key ≤ p.rollout_headroom_limit)
  unfolding pool_slot_use pool_rollout_use
  run_calls-pool_slot_use key p found =
      (within.0.pool_slots key p found, within.0.pool_rollouts key p found)

  -- Whatever requests are made of tables in which nothing was held yet, the summary that an account
  -- then reads shows no more slots reserved and held than its limit, and as build seconds that
  -- remain exactly the limit less the debits that no credit has taken back.
  pub run_calls-get_entitlement :
      (account : ℕ) (s : EntitlementSummary)
      → get_entitlement (run_calls env calls db) account ≡ ok s
      → (s.hosted_slots_used + s.active_initial_holds ≤ s.hosted_slot_limit)
        × (s.build_seconds_remaining
              + sum_of row_seconds
                  (outstanding (run_calls env calls db).usage account)
                  (run_calls env calls db).usage
            ≡ s.build_seconds_limit)
  unfolding get_entitlement entitlement_summary usage_totals
  run_calls-get_entitlement account s read =
      elim (Option-cases (select (of_account account) (run_calls env calls db).entitlements)) [
        | inl absent ↦ absurd (err-ok (rw (get_entitlement, entitlement_summary, absent) at read))
        | inr (e, found) ↦
            subst Fits (ok-same (rw (get_entitlement, entitlement_summary, found) at read)) (
              within.0.account_slots account e found,
              left _ _ _ e.build_seconds_limit (within.1.balance account)
                  (within.1.allowance account e found),
            )
      ]
    where
      Fits : EntitlementSummary → Type 0
      Fits t =
          (t.hosted_slots_used + t.active_initial_holds ≤ t.hosted_slot_limit)
          × (t.build_seconds_remaining
                + sum_of row_seconds (outstanding (run_calls env calls db).usage account)
                    (run_calls env calls db).usage
              ≡ t.build_seconds_limit)

      err-ok :
          {x : ApiError} {y : EntitlementSummary}
          → ◌≢◌ {A = Result EntitlementSummary} (err x) (ok y)
      err-ok h = cc

      ok-same :
          {x y : EntitlementSummary} → ◌≡◌ {A = Result EntitlementSummary} (ok x) (ok y) → x ≡ y
      ok-same h = cc

      left :
          (debited credited open_debits limit : ℕ)
          → debited ≡ credited + open_debits
          → debited ≤ limit + credited
          → limit + credited - debited + open_debits ≡ limit
      left debited credited open_debits limit balance fits = omega (arith, balance, fits)
