-- ===== src/Admission/ObserveKeeps.antt =====
-- `record_resource_observation` of crates/control/src/admission.rs and the condition on the tables.
use hostlet_app.Base.{
  ℕ, ◌≡◌, ◌≢◌, inl, inr, refl, sym, ◌∙◌, subst, ap, true, false, not, ◌||◌, Option, none, some, any,
  ◌==◌, All, All-map, All-every, Bool-cases, Option-cases, ==_iff, &&_left, arith,
}
use mathlib.Core.Option.{some-injective}
use hostlet_app.Base.Table.{select, select-some, select-In, In, All-self}
use hostlet_app.Base.Growth.{Unique-In}
use hostlet_app.Api.{ApiError, Result, ok, err}
use hostlet_app.Api.Transactions.{Ends, Ends-at, Ends-if, Ends-found, Ends-try}
use hostlet_app.Admission.Model.{ObservationOutcome, FixtureKind, ReservationRow, Tables}
use hostlet_app.Admission.Messages.{ResourceObservationRequest, AdmissionEnv}
use hostlet_app.Admission.Store.{is_released, is_reservation, load_reservation}
use hostlet_app.Admission.Context.{is_project}
use hostlet_app.Admission.Observe.{
  read_outcome, validate_observation, check_generation, insert_observation, by_id, known_inventory,
  retain_reservation, release_reservation, to_release, release_hold, retain_resources,
  deployment_healthy, confirm_cleanup, release_rollout, apply_outcome, observe_reservation,
  observe_fresh, record_resource_observation,
}
use hostlet_app.Admission.Limits.{WithinLimits, update_holds-Bounded}
use hostlet_app.Admission.AdmitLimits.{update_reservations-Bounded}
use hostlet_app.Admission.FixtureKeeps.{with_receipt-Ends, store_fixture-Ends}

ok_pair : {a b : Tables × Option ℕ} → ◌≡◌ {A = Result (Tables × Option ℕ)} (ok a) (ok b) → a.0 ≡ b.0
ok_pair h = cc

err_pair :
    {e : ApiError} {b : Tables × Option ℕ} → ◌≢◌ {A = Result (Tables × Option ℕ)} (err e) (ok b)
err_pair h = cc

-- An outcome leaves the tables within their limits.
abbrev Applied : Result (Tables × Option ℕ) → Type 0
Applied (err e) = Unit
Applied (ok a) = WithinLimits a.0

module _ (now : ℕ) (r : ResourceObservationRequest) (s : ReservationRow) (db : Tables) where
  -- The row that is retained is the one that was read.
  retains :
      In s db.reservations
      → s.id ≡ r.reservation_id
      → is_released s.state ≡ false
      → WithinLimits db
      → All
          (λ k.
            by_id r.reservation_id k ≡ true
            → is_released (retain_reservation r.resource_inventory k).state ≡ false
            → is_released k.state ≡ false)
          db.reservations
  retains there same in_use b =
      All-map (λ k. In k db.reservations) _ db.reservations
        (λ k here hit _.
          subst (λ x. is_released x.state ≡ false)
            (sym (
              Unique-In (λ x. x.id) db.reservations s k b.0.reservation_ids there here
                ((==_iff k.id r.reservation_id).0 hit ∙ sym same)))
            in_use)
        (All-self db.reservations)

  apply_outcome-Applied :
      (outcome : ObservationOutcome)
      → In s db.reservations
      → s.id ≡ r.reservation_id
      → WithinLimits db
      → Applied (apply_outcome now r s outcome db)
  unfolding apply_outcome retain_resources deployment_healthy confirm_cleanup release_rollout
  apply_outcome-Applied ObservationOutcome.resources_retained there same b =
      elim (Bool-cases (is_released s.state)) [
        | inl gone ↦ rw gone tt
        | inr in_use ↦ rw in_use (
          update_reservations-Bounded (by_id r.reservation_id)
              (retain_reservation r.resource_inventory) (λ k. (refl, refl, refl))
              (retains there same in_use b) b.0,
          b.1,
        )
      ]
  apply_outcome-Applied ObservationOutcome.deployment_healthy there same b =
      elim (Bool-cases (is_released s.state)) [ inl gone ↦ rw gone tt | inr in_use ↦ rw in_use b ]
  apply_outcome-Applied ObservationOutcome.cleanup_confirmed there same b =
      elim (Bool-cases (is_released s.state)) [
        | inl gone ↦ rw gone b
        | inr in_use ↦ rw in_use (
          update_reservations-Bounded (by_id r.reservation_id) (release_reservation r.event_id now)
              (λ k. (refl, refl, refl)) (All-every _ db.reservations (λ k hit now. cc)) b.0,
          b.1,
        )
      ]
  apply_outcome-Applied ObservationOutcome.rollout_released there same b =
      elim (Option-cases r.rollout_hold_id) [
        | inl absent ↦ rw absent tt
        | inr (id, held) ↦ elim (Bool-cases (any (to_release r s.capacity_pool_key id) db.holds)) [
          | inl found ↦
              rw (held, found)
                (
                  update_holds-Bounded (to_release r s.capacity_pool_key id) (release_hold now)
                      (λ h. (refl, refl, refl)) (λ h key. ground arith) (λ h account. ground arith)
                      (λ h key. ground arith) b.0,
                  b.1,
                )
          | inr missing ↦ rw (held, missing) tt
        ]
      ]

Applied-ok :
    (x : Result (Tables × Option ℕ)) (a : Tables × Option ℕ)
    → Applied x
    → x ≡ ok a
    → WithinLimits a.0
Applied-ok x a h e = subst Applied e h

insert_observation-WithinLimits :
    (r : ResourceObservationRequest) (outcome : ObservationOutcome) (before after : Tables)
    → insert_observation r outcome before ≡ some after
    → (before.reservations ≡ after.reservations) × (WithinLimits before → WithinLimits after)
unfolding insert_observation
insert_observation-WithinLimits r outcome before after inserted =
    elim (Bool-cases (
      any (λ o. o.id == r.event_id) before.observations
      || not (known_inventory r.resource_inventory))) [
        | inl refused ↦ absurd (none-some (rw refused at inserted))
        | inr fresh ↦
            let same = some-injective _ after (rw fresh at inserted) in
            (ap (λ t. t.reservations) same, λ b. subst WithinLimits same b)
      ]
  where
    none-some : {x : Tables} → ◌≢◌ {A = Option Tables} none (some x)
    none-some h = cc

observe_reservation-Ends :
    (env : AdmissionEnv) (now : ℕ) (r : ResourceObservationRequest) (s : ReservationRow)
    (outcome : ObservationOutcome) (db : Tables)
    → In s db.reservations
    → s.id ≡ r.reservation_id
    → WithinLimits db
    → Ends WithinLimits (observe_reservation env now r s outcome db)
unfolding observe_reservation
observe_reservation-Ends env now r s outcome db there same b =
    Ends-found WithinLimits (insert_observation r outcome db) _ db _ b λ db1 inserted.
      let (kept, good) = insert_observation-WithinLimits r outcome db db1 inserted in
      let applied_well =
        apply_outcome-Applied now r s db1 outcome (subst (In s) kept there) same (good b) in
      Ends-try WithinLimits (apply_outcome now r s outcome db1) db _ b λ applied done.
        Ends-try WithinLimits
          (load_reservation applied.0 r.account_id r.project_id r.reservation_id) db _ b
          λ loaded _.
            store_fixture-Ends WithinLimits env.json_observation r.event_id
              FixtureKind.resource_observation (env.hash_observation r) _ db applied.0 b
              (λ _. Applied-ok (apply_outcome now r s outcome db1) applied applied_well done)

observe_fresh-Ends :
    (env : AdmissionEnv) (now : ℕ) (r : ResourceObservationRequest) (db : Tables)
    → WithinLimits db
    → Ends WithinLimits (observe_fresh env now r db)
unfolding observe_fresh
observe_fresh-Ends env now r db b =
    Ends-if WithinLimits (not (any (is_project r.account_id r.project_id) db.projects)) _ _
      (λ _. Ends-at WithinLimits db _ b)
      λ _.
        Ends-found WithinLimits
          (select (is_reservation r.reservation_id r.account_id r.project_id) db.reservations) _ db
          _ b
          λ s found.
            Ends-if WithinLimits (not (s.reservation_epoch == r.reservation_epoch)) _ _
              (λ _. Ends-at WithinLimits db _ b)
              λ _. Ends-try WithinLimits (check_generation r s db) db _ b λ _ _.
                Ends-found WithinLimits (read_outcome r.outcome) _ db _ b λ outcome _.
                  observe_reservation-Ends env now r s outcome db
                    (select-In _ db.reservations s found)
                    ((==_iff s.id r.reservation_id).0
                      (&&_left _ _ (select-some _ db.reservations s found)))
                    b

pub record_resource_observation-Ends :
    (env : AdmissionEnv) (now : ℕ) (r : ResourceObservationRequest) (db : Tables)
    → WithinLimits db
    → Ends WithinLimits (record_resource_observation env now r db)
unfolding record_resource_observation
record_resource_observation-Ends env now r db b =
    Ends-try WithinLimits (validate_observation r) db _ b λ _ _.
      with_receipt-Ends WithinLimits env.json_observation r.event_id
        FixtureKind.resource_observation (env.hash_observation r) db (observe_fresh env now r db) b
        (observe_fresh-Ends env now r db b)
