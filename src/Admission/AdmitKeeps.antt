-- ===== src/Admission/AdmitKeeps.antt =====
-- `admit` of crates/control/src/admission.rs and the condition on the tables.
use hostlet_app.Base.{
  ℕ, ◌+◌, ◌≡◌, ◌≢◌, inl, inr, refl, sym, ◌∙◌, subst, ap, Bool, true, false, not, ◌||◌, Option, none,
  some, List, [], ◌∷◌, ◌++◌, any, leb, ◌==◌, Bool-cases, ==_iff, &&_left, &&_right, arith,
}
use mathlib.Core.Option.{some-injective}
use hostlet_app.Base.Table.{select, select-some, select-In, In, All-In}
use hostlet_app.Api.Transactions.{Ends, Ends-at, Ends-if, Ends-found, Ends-try}
use hostlet_app.Jobs.Cancel.{Owner}
use hostlet_app.Admission.Model.{
  DeploymentRow, ProjectRow, HostingEventRow, EntitlementRow, HoldRow, ReservationRow, Tables,
}
use hostlet_app.Admission.Messages.{ReservationRecord, AdmitRequest, AdmissionEnv}
use hostlet_app.Admission.Store.{
  is_initial, hold_active, of_account, active_initial, expire_holds, expire_holds_for_scope,
  in_scope, load_hold, load_reservation, load_active_reservation,
}
use hostlet_app.Admission.Context.{
  lock_entitlement_and_pool, validate_source_proof, ensure_lifecycle_allows_hold,
}
use hostlet_app.Admission.Hold.{AdmissionTx, OwnerInputs, ensure_admissible}
use hostlet_app.Admission.Admit.{
  AdmitIds, awaiting, reservation_clashes, hold_for, consume, project_reserved, rollout_admitted,
  new_reservation, insert_reservation, admit_initial, admit_rollout, admit_kind, admit_answer,
  admit_found, admit_checked, admit_operation,
}
use hostlet_app.Admission.Limits.{Bounded, WithinLimits, InItsPool}
use hostlet_app.Admission.AdmitLimits.{reserve-Bounded, consume_rollout-Bounded}
use hostlet_app.Admission.HoldLimits.{
  lock_entitlement_and_pool-select, expire_holds-WithinLimits, record_admission-Ends,
}

pub insert_reservation-some :
    (r : ReservationRow) (rs after : List ReservationRow)
    → insert_reservation r rs ≡ some after
    → (any (λ k. k.id == r.id) rs ≡ false) × (rs ++ r ∷ [] ≡ after)
unfolding insert_reservation
insert_reservation-some r rs after inserted = elim (Bool-cases (any (reservation_clashes r) rs)) [
  | inl clash ↦ absurd (none-some (rw clash at inserted))
  | inr fresh ↦ (no_clash rs fresh, some-injective (rs ++ r ∷ []) after (rw fresh at inserted))
]
  where
    none-some : {x : List ReservationRow} → ◌≢◌ {A = Option (List ReservationRow)} none (some x)
    none-some h = cc

    no_clash :
        (ks : List ReservationRow)
        → any (reservation_clashes r) ks ≡ false
        → any (λ k. k.id == r.id) ks ≡ false
    no_clash [] h = refl
    no_clash (k ∷ ks) h = ground (arith, no_clash ks)

-- The hold that `admit` reads is in the pool of its account's entitlement.
pub found_hold :
    (db : Tables) (o : Owner) (inputs : OwnerInputs) (id : ℕ) (e : EntitlementRow) (h : HoldRow)
    → WithinLimits db
    → select (of_account o.account_id) db.entitlements ≡ some e
    → select (hold_for id o.account_id inputs.project inputs.deployment) db.holds ≡ some h
    → In h db.holds × (o.account_id ≡ h.account_id) × (e.capacity_pool_key ≡ h.capacity_pool_key)
found_hold db o inputs id e h b entitled found =
    let hit =
      select-some (hold_for id o.account_id inputs.project inputs.deployment) db.holds h found in
    let there =
      select-In (hold_for id o.account_id inputs.project inputs.deployment) db.holds h found in
    let mine = (==_iff h.account_id o.account_id).0 (&&_left _ _ (&&_right _ _ hit)) in
    let (e', entitled', pool) =
      All-In (InItsPool db.entitlements) db.holds h b.0.hold_pools there in
    let same = some-injective e e' (
      sym entitled ∙ subst (λ a. select (of_account a) db.entitlements ≡ some e') mine entitled') in
    (there, sym mine, ap (λ x. x.capacity_pool_key) same ∙ sym pool)

-- What holds of the tables with any other deployments, projects and events holds of those in which
-- a rollout was admitted.
pub rollout_admitted-same :
    (event account project deployment : ℕ) (before after : Tables) (P : Tables → Type 0)
    → rollout_admitted event account project deployment before ≡ some after
    → ((ds : List DeploymentRow) (ps : List ProjectRow) (hs : List HostingEventRow)
        → P (record before { deployments = ds; projects = ps; hosting_events = hs }))
    → P after
unfolding rollout_admitted
rollout_admitted-same event account project deployment before after P admitted good =
    elim (Bool-cases (any (awaiting account project deployment) before.deployments)) [
      | inl there ↦ subst P (some-injective _ after (rw there at admitted)) (good _ _ _)
      | inr absent ↦ absurd (none-some (rw absent at admitted))
    ]
  where
    none-some : {x : Tables} → ◌≢◌ {A = Option Tables} none (some x)
    none-some h = cc

module _ (now : ℕ) (ids : AdmitIds) (o : Owner) (inputs : OwnerInputs) where
  admit_initial-Ends :
      (e : EntitlementRow) (h : HoldRow) (rollback db : Tables)
      → In h db.holds
      → active_initial h ≡ true
      → o.account_id ≡ h.account_id
      → e.capacity_pool_key ≡ h.capacity_pool_key
      → WithinLimits rollback
      → WithinLimits db
      → Ends WithinLimits (admit_initial now ids o inputs e h rollback db)
  unfolding admit_initial new_reservation project_reserved
  admit_initial-Ends e h rollback db there counts mine pool b c =
      let r =
        new_reservation ids.reservation ids.epoch o.account_id inputs.project inputs.deployment e
          h.id in
      Ends-found WithinLimits (insert_reservation r db.reservations) _ rollback _ b λ rs inserted.
        let (fresh, same) = insert_reservation-some r db.reservations rs inserted in
        let db2 : Tables =
          project_reserved ids.event o.account_id inputs.project inputs.deployment
            (record (consume now h.id db) { reservations = rs }) in
        Ends-try WithinLimits (load_reservation db2 o.account_id inputs.project ids.reservation)
          rollback _ b
          λ loaded _. Ends-at WithinLimits db2 _ (
            subst (λ k. Bounded db.pools db.entitlements (consume now h.id db).holds k) same
                (reserve-Bounded now h r there counts fresh mine pool c.0),
            c.1,
          )

  admit_rollout-Ends :
      (h : HoldRow) (rollback db : Tables)
      → In h db.holds
      → is_initial h.kind ≡ false
      → hold_active h.state ≡ true
      → WithinLimits rollback
      → WithinLimits db
      → Ends WithinLimits (admit_rollout now ids o inputs h rollback db)
  unfolding admit_rollout
  admit_rollout-Ends h rollback db there kind active b c =
      let db1 : Tables = consume now h.id db in
      Ends-try WithinLimits (load_active_reservation db1 o.account_id inputs.project) rollback _ b
        λ found _. Ends-found WithinLimits found _ rollback _ b λ r _.
          Ends-found WithinLimits
            (rollout_admitted ids.event o.account_id inputs.project inputs.deployment db1) _
            rollback _ b
            λ db2 admitted. Ends-at WithinLimits db2 _ (
              rollout_admitted-same ids.event o.account_id inputs.project inputs.deployment db1 db2
                WithinLimits admitted
                (λ _ _ _. (consume_rollout-Bounded now h there kind active c.0, c.1)))

  admit_kind-Ends :
      (e : EntitlementRow) (h : HoldRow) (rollback db : Tables)
      → In h db.holds
      → hold_active h.state ≡ true
      → o.account_id ≡ h.account_id
      → e.capacity_pool_key ≡ h.capacity_pool_key
      → WithinLimits rollback
      → WithinLimits db
      → Ends WithinLimits (admit_kind now ids o inputs e h rollback db)
  unfolding admit_kind
  admit_kind-Ends e h rollback db there active mine pool b c =
      Ends-if WithinLimits (is_initial h.kind) _ _
        (λ initial.
          admit_initial-Ends e h rollback db there (ground (arith, initial, active)) mine pool b c)
        (λ rollout. admit_rollout-Ends h rollback db there rollout active b c)

admit_answer-Ends :
    (env : AdmissionEnv) (o : Owner) (inputs : OwnerInputs) (request : AdmitRequest)
    (rollback : Tables) (t : AdmissionTx (ReservationRecord × ℕ))
    → WithinLimits rollback
    → Ends WithinLimits t
    → Ends WithinLimits (admit_answer env o inputs request rollback t)
unfolding admit_answer
admit_answer-Ends env o inputs request rollback (db, admitted) b c =
    Ends-try WithinLimits admitted rollback _ b λ admission _.
      Ends-try WithinLimits (load_hold db o.account_id inputs.project request.capacity_hold_id)
        rollback _ b
        λ loaded _.
          record_admission-Ends env o (admit_operation env inputs.project inputs.deployment)
            inputs.key (env.hash_admit request) "admission.consume" "slot_reservation"
            (some admission.0.id) admission.1 _ rollback db b c.ends

admit_found-Ends :
    (env : AdmissionEnv) (clock : ℕ → ℕ) (ids : AdmitIds) (o : Owner) (inputs : OwnerInputs)
    (request : AdmitRequest) (e : EntitlementRow) (h : HoldRow) (rollback db : Tables)
    → In h db.holds
    → o.account_id ≡ h.account_id
    → e.capacity_pool_key ≡ h.capacity_pool_key
    → WithinLimits rollback
    → WithinLimits db
    → Ends WithinLimits (admit_found env clock ids o inputs request e h rollback db)
unfolding admit_found
admit_found-Ends env clock ids o inputs request e h rollback db there mine pool b c =
    Ends-if WithinLimits (not (hold_active h.state) || leb h.expires_at (clock 2)) _ _
      (λ _. Ends-at WithinLimits db _ c)
      λ live.
        Ends-try WithinLimits
          (validate_source_proof (λ n. clock (n + 3)) db o.account_id inputs.project
            inputs.deployment h.source_proof_id)
          rollback _ b
          λ _ _.
            Ends-try WithinLimits
              (ensure_lifecycle_allows_hold db o.account_id inputs.project inputs.deployment)
              rollback _ b
              λ _ _.
                admit_answer-Ends env o inputs request rollback
                  (admit_kind (clock 5) ids o inputs e h rollback db) b
                  (admit_kind-Ends (clock 5) ids o inputs e h rollback db there
                    (still_active (hold_active h.state) _ live) mine pool b c)
  where
    still_active : (a d : Bool) → (not a || d) ≡ false → a ≡ true
    still_active a d h = ground arith

pub admit_checked-Ends :
    (env : AdmissionEnv) (clock refund_ids : ℕ → ℕ) (ids : AdmitIds) (o : Owner)
    (inputs : OwnerInputs) (request : AdmitRequest) (db : Tables)
    → WithinLimits db
    → Ends WithinLimits (admit_checked env clock refund_ids ids o inputs request db)
unfolding admit_checked expire_holds_for_scope
admit_checked-Ends env clock refund_ids ids o inputs request db b =
    Ends-try WithinLimits (lock_entitlement_and_pool db o.account_id) db _ b λ e locked.
      let scope = in_scope o.account_id e.capacity_pool_key in
      let db1 : Tables = expire_holds scope (clock 0) refund_ids db in
      let b1 = expire_holds-WithinLimits scope (clock 0) refund_ids db b in
      let entitled = lock_entitlement_and_pool-select db o.account_id e locked in
      Ends-try WithinLimits (ensure_admissible clock o inputs e db1) db _ b λ _ _.
        Ends-found WithinLimits
          (select (hold_for request.capacity_hold_id o.account_id inputs.project inputs.deployment)
            db1.holds)
          _ db _ b
          λ h found.
            let (there, mine, pool) =
              found_hold db1 o inputs request.capacity_hold_id e h b1 entitled found in
            admit_found-Ends env clock ids o inputs request e h db db1 there mine pool b b1
