-- ===== src/Admission/HoldLimits.antt =====
-- `create_hold`, `admit` and the expiry of holds in crates/control/src/admission.rs and the
-- condition on the tables.
use hostlet_app.Base.{
  ℕ, ◌+◌, ◌<◌, ◌≡◌, ◌≢◌, inl, inr, refl, ◌∙◌, subst, ap, Bool, true, false, ◌&&◌, Option, none,
  some, List, [], ◌∷◌, ◌++◌, any, ◌==◌, Bool-cases, Option-cases, &&_left, arith,
}
use hostlet_app.Base.Text.{Text, text_eq_refl}
use hostlet_app.Base.Table.{select, select-some, select-narrow}
use hostlet_app.Api.{ApiError, Result, ok, err}
use hostlet_app.Api.Transactions.{Ends, Ends-at, Ends-if, Ends-found, Ends-try}
use Prim.Native.String.{String}
use mathlib.Core.Option.{some-injective}
use hostlet_app.Jobs.Cancel.{Owner}
use hostlet_app.Jobs.Intent.{store_replay}
use hostlet_app.Jobs.Store.{owner_audit}
use hostlet_app.Admission.Model.{HoldKind, PoolRow, EntitlementRow, HoldRow, Tables}
use hostlet_app.Admission.Messages.{
  ReservationRecord, AdmissionResponse, CreateHoldRequest, AdmissionEnv,
}
use hostlet_app.Admission.Store.{
  is_pool, of_account, account_slot_use, pool_slot_use, pool_rollout_use, due_in, expire_hold,
  expire_holds, expire_holds_for_scope, in_scope, load_hold, load_active_reservation,
}
use hostlet_app.Admission.Context.{
  entitled, lock_entitlement_and_pool, ensure_capacity_available, validate_source_proof,
  ensure_lifecycle_allows_hold,
}
use hostlet_app.Admission.Hold.{
  OwnerInputs, record_admission, create_hold_row, new_hold, insert_hold, ensure_admissible,
  create_hold_checked, kind_for, conflicting, hold_operation,
}
use hostlet_app.Admission.Limits.{WithinLimits, update_holds-Bounded, insert_hold-Bounded}

-- The entitlement that is locked is the one that the account finds.
pub lock_entitlement_and_pool-select :
    (db : Tables) (account : ℕ) (e : EntitlementRow)
    → lock_entitlement_and_pool db account ≡ ok e
    → select (of_account account) db.entitlements ≡ some e
unfolding lock_entitlement_and_pool
lock_entitlement_and_pool-select db account e locked =
    elim (Option-cases (select (of_account account) db.entitlements)) [
      | inl absent ↦ absurd (err-ok (rw absent at locked))
      | inr (k, found) ↦
          let hit = select-some (of_account account) db.entitlements k found in
          let narrow =
            select-narrow (of_account account) (entitled account k.capacity_pool_key)
              db.entitlements k (λ y both. &&_left _ _ both)
              (both_true hit (text_eq_refl k.capacity_pool_key)) found in
          let locked' = rw (found) at locked in
          elim (Option-cases (select (is_pool k.capacity_pool_key) db.pools)) [
            | inl gone ↦ absurd (err-ok (rw gone at locked'))
            | inr (p, there) ↦ found ∙ ap some (ok_same (rw (there, narrow) at locked'))
          ]
    ]
  where
    err-ok : {x : ApiError} {y : EntitlementRow} → ◌≢◌ {A = Result EntitlementRow} (err x) (ok y)
    err-ok h = cc

    ok_same : {x y : EntitlementRow} → ◌≡◌ {A = Result EntitlementRow} (ok x) (ok y) → x ≡ y
    ok_same h = cc

    both_true : {a b : Bool} → a ≡ true → b ≡ true → (a && b) ≡ true
    both_true h k = ground arith

-- Expiry.
pub expire_holds-WithinLimits :
    (scope : HoldRow → Bool) (now : ℕ) (ids : ℕ → ℕ) (db : Tables)
    → WithinLimits db
    → WithinLimits (expire_holds scope now ids db)
unfolding expire_holds
expire_holds-WithinLimits scope now ids db b = (
  update_holds-Bounded (due_in scope now) (expire_hold now) (λ h. (refl, refl, refl))
      (λ h key. ground arith) (λ h account. ground arith) (λ h key. ground arith) b.0,
  b.1,
)

-- What the check of capacity says of an initial hold.
ensure_capacity_available-initial :
    (db : Tables) (account : ℕ) (e : EntitlementRow) (p : PoolRow)
    → ensure_capacity_available db account e HoldKind.initial ≡ ok tt
    → select (is_pool e.capacity_pool_key) db.pools ≡ some p
    → (account_slot_use db account < e.hosted_slot_limit)
      × (pool_slot_use db e.capacity_pool_key < p.hosted_slot_limit)
unfolding ensure_capacity_available
ensure_capacity_available-initial db account e p room found = ground arith

ensure_capacity_available-account :
    (db : Tables) (account : ℕ) (e : EntitlementRow)
    → ensure_capacity_available db account e HoldKind.initial ≡ ok tt
    → account_slot_use db account < e.hosted_slot_limit
unfolding ensure_capacity_available
ensure_capacity_available-account db account e room = ground arith

ensure_capacity_available-rollout :
    (db : Tables) (account : ℕ) (e : EntitlementRow) (p : PoolRow)
    → ensure_capacity_available db account e HoldKind.rollout ≡ ok tt
    → select (is_pool e.capacity_pool_key) db.pools ≡ some p
    → pool_rollout_use db e.capacity_pool_key < p.rollout_headroom_limit
unfolding ensure_capacity_available
ensure_capacity_available-rollout db account e p room found = ground arith

pub record_admission-Ends :
    (env : AdmissionEnv) (o : Owner) (operation key hash : Text) (event target : String)
    (id : Option ℕ) (code : ℕ) (response : AdmissionResponse) (rollback db : Tables)
    → WithinLimits rollback
    → WithinLimits db
    → Ends WithinLimits
        (record_admission env o operation key hash event target id code response rollback db)
unfolding record_admission
record_admission-Ends env o operation key hash event target id code response rollback db b c =
    Ends-found WithinLimits
      (store_replay (owner_audit o.account_id o.session_id event target id "succeeded" db.shared)
        o.account_id operation key hash code (env.json_admission.print response))
      _ rollback _ b (λ stored _. Ends-at WithinLimits (record db { shared = stored }) _ c)

insert_hold-some :
    (h : HoldRow) (hs after : List HoldRow)
    → insert_hold h hs ≡ some after
    → (any (λ k. k.id == h.id) hs ≡ false) × (hs ++ h ∷ [] ≡ after)
unfolding insert_hold
insert_hold-some h hs after inserted = elim (Bool-cases (any (λ k. k.id == h.id) hs)) [
  | inl clash ↦ absurd (none-some (rw clash at inserted))
  | inr fresh ↦ (fresh, some-injective (hs ++ h ∷ []) after (rw fresh at inserted))
]
  where
    none-some : {x : List HoldRow} → ◌≢◌ {A = Option (List HoldRow)} none (some x)
    none-some h = cc

-- The hold that `create_hold` adds has room.
new_hold-WithinLimits :
    (id account : ℕ) (inputs : OwnerInputs) (request : CreateHoldRequest) (e : EntitlementRow)
    (reservation : Option ReservationRecord) (now : ℕ) (db : Tables)
    → any (λ k. k.id == id) db.holds ≡ false
    → select (of_account account) db.entitlements ≡ some e
    → ensure_capacity_available db account e (kind_for reservation) ≡ ok tt
    → WithinLimits db
    → WithinLimits (record db {
      holds = db.holds ++ new_hold id account inputs request e reservation now ∷ [];
    })
unfolding new_hold account_slot_use pool_slot_use pool_rollout_use
new_hold-WithinLimits id account inputs request e none now db fresh found room b = (
  insert_hold-Bounded (new_hold id account inputs request e none now) e fresh found refl
      (λ _. ensure_capacity_available-account db account e room)
      (λ _ p listed. (ensure_capacity_available-initial db account e p room listed).1)
      (λ h p listed. cc) b.0,
  b.1,
)
new_hold-WithinLimits id account inputs request e (some r) now db fresh found room b = (
  insert_hold-Bounded (new_hold id account inputs request e (some r) now) e fresh found refl
      (λ h. cc) (λ h p listed. cc)
      (λ _ p listed. ensure_capacity_available-rollout db account e p room listed) b.0,
  b.1,
)

create_hold_row-Ends :
    (env : AdmissionEnv) (o : Owner) (inputs : OwnerInputs) (request : CreateHoldRequest)
    (reservation : Option ReservationRecord) (h : HoldRow) (rollback db : Tables)
    → WithinLimits rollback
    → (any (λ k. k.id == h.id) db.holds ≡ false
        → WithinLimits (record db { holds = db.holds ++ h ∷ [] }))
    → Ends WithinLimits (create_hold_row env o inputs request reservation h rollback db)
unfolding create_hold_row
create_hold_row-Ends env o inputs request reservation h rollback db b good =
    Ends-found WithinLimits (insert_hold h db.holds) _ rollback _ b λ holds inserted.
      let (fresh, same) = insert_hold-some h db.holds holds inserted in
      let db' : Tables = record db { holds = holds } in
      Ends-try WithinLimits (load_hold db' o.account_id inputs.project h.id) rollback _ b
        λ loaded _.
          record_admission-Ends env o (hold_operation env inputs.project inputs.deployment)
            inputs.key (env.hash_hold request) "admission.hold.create" "capacity_hold" (some h.id)
            201 _ rollback db' b
            (subst (λ hs. WithinLimits (record db { holds = hs })) same (good fresh))

pub create_hold_checked-Ends :
    (env : AdmissionEnv) (clock ids : ℕ → ℕ) (id : ℕ) (o : Owner) (inputs : OwnerInputs)
    (request : CreateHoldRequest) (db : Tables)
    → WithinLimits db
    → Ends WithinLimits (create_hold_checked env clock ids id o inputs request db)
unfolding create_hold_checked expire_holds_for_scope
create_hold_checked-Ends env clock ids id o inputs request db b =
    Ends-try WithinLimits (lock_entitlement_and_pool db o.account_id) db _ b λ e locked.
      let scope = in_scope o.account_id e.capacity_pool_key in
      let db1 = expire_holds scope (clock 0) ids db in
      let b1 = expire_holds-WithinLimits scope (clock 0) ids db b in
      let found = lock_entitlement_and_pool-select db o.account_id e locked in
      Ends-try WithinLimits (ensure_admissible clock o inputs e db1) db _ b λ _ _.
        Ends-try WithinLimits
          (validate_source_proof (λ n. clock (n + 2)) db1 o.account_id inputs.project
            inputs.deployment request.source_proof_id)
          db _ b
          λ _ _.
            Ends-try WithinLimits
              (ensure_lifecycle_allows_hold db1 o.account_id inputs.project inputs.deployment) db _
              b
              λ _ _.
                Ends-try WithinLimits (load_active_reservation db1 o.account_id inputs.project) db _
                  b
                  λ reservation _.
                    Ends-if WithinLimits
                      (any (conflicting inputs.project inputs.deployment (kind_for reservation))
                        db1.holds)
                      _ _ (λ _. Ends-at WithinLimits db _ b)
                      λ _.
                        Ends-try WithinLimits
                          (ensure_capacity_available db1 o.account_id e (kind_for reservation)) db _
                          b
                          λ _ room.
                            create_hold_row-Ends env o inputs request reservation
                              (new_hold id o.account_id inputs request e reservation (clock 4)) db
                              db1 b
                              (λ fresh.
                                new_hold-WithinLimits id o.account_id inputs request e reservation
                                  (clock 4) db1 fresh found room b1)
