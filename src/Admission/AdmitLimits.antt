-- ===== src/Admission/AdmitLimits.antt =====
-- How the statements of `admit` and of `record_resource_observation` in
-- crates/control/src/admission.rs keep the condition on the tables.
use hostlet_app.Base.{
  ℕ, ◌+◌, ◌≡◌, refl, Bool, true, false, List, [], ◌∷◌, ◌++◌, any, ◌==◌, if◌then◌else◌, All, All-map,
  ==_iff, ==_refl, arith,
}
use hostlet_app.Base.Text.{Text}
use hostlet_app.Base.Table.{update_rows, All-update_rows, In}
use hostlet_app.Base.Growth.{Unique, update_rows-Unique, append-Unique}
use hostlet_app.Base.Counts.{
  number_of, number_of-append, number_of-update_rows, update_rows-number_of,
}
use hostlet_app.Admission.Model.{PoolRow, EntitlementRow, HoldRow, ReservationRow}
use hostlet_app.Admission.Store.{
  account_reservation, account_hold, pool_reservation, pool_hold, pool_rollout, active_initial,
  is_released, is_initial, hold_active,
}
use hostlet_app.Admission.Admit.{has_id, consume_hold}
use hostlet_app.Admission.Limits.{InItsPool, Bounded}

-- What consuming a hold does to a count.
pub consume_hold-number_of :
    (holds : List HoldRow) (now : ℕ) (h : HoldRow) (p : HoldRow → Bool)
    → Unique (λ k. k.id) holds
    → In h holds
    → number_of p (update_rows (has_id h.id) (consume_hold now) holds) + (if p h then 1 else 0)
      ≡ number_of p holds + (if p (consume_hold now h) then 1 else 0)
consume_hold-number_of holds now h p unique there =
    update_rows-number_of (λ k. k.id) p (has_id h.id) (consume_hold now) h holds unique there
      (λ k hit. (==_iff k.id h.id).0 hit) (==_refl h.id)

module _ {pools : List PoolRow} {es : List EntitlementRow} {holds : List HoldRow}
    {rs : List ReservationRow} where
  -- An initial hold that is consumed gives its place to a reservation.
  pub reserve-Bounded :
      (now : ℕ) (h : HoldRow) (r : ReservationRow)
      → In h holds
      → active_initial h ≡ true
      → any (λ k. k.id == r.id) rs ≡ false
      → r.account_id ≡ h.account_id
      → r.capacity_pool_key ≡ h.capacity_pool_key
      → Bounded pools es holds rs
      → Bounded pools es (update_rows (has_id h.id) (consume_hold now) holds) (rs ++ r ∷ [])
  reserve-Bounded now h r there initial fresh same_account same_pool b = record {
    hold_ids =
        update_rows-Unique (λ k. k.id) (has_id h.id) (consume_hold now) holds (λ k. refl)
          b.hold_ids;
    reservation_ids = append-Unique (λ k. k.id) rs r b.reservation_ids fresh;
    hold_pools =
        All-update_rows (InItsPool es) (has_id h.id) (consume_hold now) holds
          (λ k hit linked. linked) b.hold_pools;
    pool_slots = λ key p listed.
        let count = consume_hold-number_of holds now h (pool_hold key) b.hold_ids there in
        let before = b.pool_slots key p listed in
        let more = number_of-append (pool_reservation key) rs r in
        ground (arith, same_pool, count, before, more);
    pool_rollouts = λ key p listed.
        let count = consume_hold-number_of holds now h (pool_rollout key) b.hold_ids there in
        let before = b.pool_rollouts key p listed in ground (arith, count, before);
    account_slots = λ account e listed.
        let count = consume_hold-number_of holds now h (account_hold account) b.hold_ids there in
        let before = b.account_slots account e listed in
        let more = number_of-append (account_reservation account) rs r in
        ground (arith, same_account, count, before, more);
  }

  -- A rollout hold that is consumed counts as before.
  pub consume_rollout-Bounded :
      (now : ℕ) (h : HoldRow)
      → In h holds
      → is_initial h.kind ≡ false
      → hold_active h.state ≡ true
      → Bounded pools es holds rs
      → Bounded pools es (update_rows (has_id h.id) (consume_hold now) holds) rs
  consume_rollout-Bounded now h there kind active b = record {
    hold_ids =
        update_rows-Unique (λ k. k.id) (has_id h.id) (consume_hold now) holds (λ k. refl)
          b.hold_ids;
    reservation_ids = b.reservation_ids;
    hold_pools =
        All-update_rows (InItsPool es) (has_id h.id) (consume_hold now) holds
          (λ k hit linked. linked) b.hold_pools;
    pool_slots = λ key p listed.
        let count = consume_hold-number_of holds now h (pool_hold key) b.hold_ids there in
        let before = b.pool_slots key p listed in ground (arith, count, before);
    pool_rollouts = λ key p listed.
        let count = consume_hold-number_of holds now h (pool_rollout key) b.hold_ids there in
        let before = b.pool_rollouts key p listed in ground (arith, count, before);
    account_slots = λ account e listed.
        let count = consume_hold-number_of holds now h (account_hold account) b.hold_ids there in
        let before = b.account_slots account e listed in ground (arith, count, before);
  }

  -- An update of reservations that takes none back into use.
  pub update_reservations-Bounded :
      (q : ReservationRow → Bool) (f : ReservationRow → ReservationRow)
      → ((r : ReservationRow)
          → ((f r).id ≡ r.id)
            × ((f r).account_id ≡ r.account_id)
            × ((f r).capacity_pool_key ≡ r.capacity_pool_key))
      → All (λ r. q r ≡ true → is_released (f r).state ≡ false → is_released r.state ≡ false) rs
      → Bounded pools es holds rs
      → Bounded pools es holds (update_rows q f rs)
  update_reservations-Bounded q f same in_use b = record {
    hold_ids = b.hold_ids;
    reservation_ids = update_rows-Unique (λ r. r.id) q f rs (λ r. (same r).0) b.reservation_ids;
    hold_pools = b.hold_pools;
    pool_slots = λ key p listed.
        let fewer =
          number_of-update_rows (pool_reservation key) q f rs
            (All-map _ _ rs (λ r stays hit now. pool_before r key hit now stays) in_use) in
        omega (arith, b.pool_slots key p listed, fewer);
    pool_rollouts = b.pool_rollouts;
    account_slots = λ account e listed.
        let fewer =
          number_of-update_rows (account_reservation account) q f rs
            (All-map _ _ rs (λ r stays hit now. account_before r account hit now stays) in_use) in
        omega (arith, b.account_slots account e listed, fewer);
  }
    where
      pool_before :
          (r : ReservationRow) (key : Text)
          → q r ≡ true
          → pool_reservation key (f r) ≡ true
          → (q r ≡ true → is_released (f r).state ≡ false → is_released r.state ≡ false)
          → pool_reservation key r ≡ true
      pool_before r key hit now stays =
          let now' = rw ((same r).2) at now in ground (arith, hit, now', stays)

      account_before :
          (r : ReservationRow) (account : ℕ)
          → q r ≡ true
          → account_reservation account (f r) ≡ true
          → (q r ≡ true → is_released (f r).state ≡ false → is_released r.state ≡ false)
          → account_reservation account r ≡ true
      account_before r account hit now stays =
          let now' = rw ((same r).1) at now in ground (arith, hit, now', stays)
