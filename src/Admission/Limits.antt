-- ===== src/Admission/Limits.antt =====
-- The limits of crates/control/src/admission.rs as a condition on its tables: what pools and
-- accounts hold is within their limits. How the statements on holds and reservations keep it.
use hostlet_app.Base.{
  ℕ, ◌+◌, ◌≤◌, ◌<◌, ◌≡◌, ◌≢◌, inl, inr, sym, ◌∙◌, subst, Bool, true, false, some, List, [], ◌∷◌,
  ◌++◌, any, ◌==◌, All, All-every, All-append, Bool-cases, ==_iff, ==_refl, arith,
}
use mathlib.Core.Option.{some-injective}
use hostlet_app.Base.Text.{Text, text_eq, text_eq_refl, text_eq→eq}
use hostlet_app.Base.Table.{select, update_rows, All-update_rows}
use hostlet_app.Base.Growth.{Unique, update_rows-Unique, append-Unique}
use hostlet_app.Base.Counts.{number_of, number_of-append, number_of-update_rows}
use hostlet_app.Admission.Model.{PoolRow, EntitlementRow, HoldRow, ReservationRow, Tables}
use hostlet_app.Admission.Meter.{Metered}
use hostlet_app.Admission.Store.{
  is_pool, of_account, account_reservation, account_hold, pool_reservation, pool_hold, pool_rollout,
  active_initial, rollout_in_flight,
}

-- A hold counts against the pool that its account is entitled to.
abbrev pub InItsPool : List EntitlementRow → HoldRow → Type 0
InItsPool es h =
    (e : EntitlementRow) × (select (of_account h.account_id) es ≡ some e)
    × (h.capacity_pool_key ≡ e.capacity_pool_key)

module _ (pools : List PoolRow) (es : List EntitlementRow) (holds : List HoldRow)
    (rs : List ReservationRow) where
  -- For the pools and entitlements that a key finds: slots and rollouts in use are within the
  -- limits; holds and reservations have one row for an identifier, and holds are in their pool.
  pub record Bounded : Type 0 where
    pub hold_ids : Unique (λ h. h.id) holds
    pub reservation_ids : Unique (λ r. r.id) rs
    pub hold_pools : All (InItsPool es) holds
    pub pool_slots :
        (key : Text) (p : PoolRow)
        → select (is_pool key) pools ≡ some p
        → number_of (pool_reservation key) rs + number_of (pool_hold key) holds
          ≤ p.hosted_slot_limit
    pub pool_rollouts :
        (key : Text) (p : PoolRow)
        → select (is_pool key) pools ≡ some p
        → number_of (pool_rollout key) holds ≤ p.rollout_headroom_limit
    pub account_slots :
        (account : ℕ) (e : EntitlementRow)
        → select (of_account account) es ≡ some e
        → number_of (account_reservation account) rs + number_of (account_hold account) holds
          ≤ e.hosted_slot_limit

-- The condition on the tables: on capacity, and on build seconds.
abbrev pub WithinLimits : Tables → Type 0
WithinLimits db =
    Bounded db.pools db.entitlements db.holds db.reservations × Metered db.entitlements db.usage

module _ {pools : List PoolRow} {es : List EntitlementRow} {holds : List HoldRow}
    {rs : List ReservationRow} where
  -- An update that leaves a hold where it is and makes none count.
  pub update_holds-Bounded :
      (q : HoldRow → Bool) (f : HoldRow → HoldRow)
      → ((h : HoldRow)
          → ((f h).id ≡ h.id)
            × ((f h).account_id ≡ h.account_id)
            × ((f h).capacity_pool_key ≡ h.capacity_pool_key))
      → ((h : HoldRow) (key : Text) → pool_hold key (f h) ≡ false)
      → ((h : HoldRow) (account : ℕ) → account_hold account (f h) ≡ false)
      → ((h : HoldRow) (key : Text) → pool_rollout key (f h) ≡ false)
      → Bounded pools es holds rs
      → Bounded pools es (update_rows q f holds) rs
  update_holds-Bounded q f same pool_stops account_stops rollout_stops b = record {
    hold_ids = update_rows-Unique (λ h. h.id) q f holds (λ h. (same h).0) b.hold_ids;
    reservation_ids = b.reservation_ids;
    hold_pools =
        All-update_rows (InItsPool es) q f holds (λ h hit linked. moved h linked) b.hold_pools;
    pool_slots = λ key p found.
        let fewer =
          number_of-update_rows (pool_hold key) q f holds
            (All-every _ holds (λ h hit now. absurd (true-false (sym now ∙ pool_stops h key)))) in
        omega (arith, b.pool_slots key p found, fewer);
    pool_rollouts = λ key p found.
        let fewer =
          number_of-update_rows (pool_rollout key) q f holds (
            All-every _ holds (λ h hit now. absurd (true-false (sym now ∙ rollout_stops h key)))) in
        omega (arith, b.pool_rollouts key p found, fewer);
    account_slots = λ account e found.
        let fewer = number_of-update_rows (account_hold account) q f holds (
          All-every _ holds
            (λ h hit now. absurd (true-false (sym now ∙ account_stops h account)))) in
        omega (arith, b.account_slots account e found, fewer);
  }
    where
      true-false : true ≢ false
      true-false h = cc

      moved : (h : HoldRow) → InItsPool es h → InItsPool es (f h)
      moved h (e, found, there) = (
        e,
        subst (λ a. select (of_account a) es ≡ some e) (sym (same h).1) found,
        (same h).2 ∙ there,
      )

  -- An INSERT of a hold in the pool of its account, where there is room for it.
  pub insert_hold-Bounded :
      (h : HoldRow) (e : EntitlementRow)
      → any (λ k. k.id == h.id) holds ≡ false
      → select (of_account h.account_id) es ≡ some e
      → h.capacity_pool_key ≡ e.capacity_pool_key
      → (active_initial h ≡ true
          → number_of (account_reservation h.account_id) rs
              + number_of (account_hold h.account_id) holds
            < e.hosted_slot_limit)
      → (active_initial h ≡ true
          → (p : PoolRow) → select (is_pool h.capacity_pool_key) pools ≡ some p
          → number_of (pool_reservation h.capacity_pool_key) rs
              + number_of (pool_hold h.capacity_pool_key) holds
            < p.hosted_slot_limit)
      → (rollout_in_flight h ≡ true
          → (p : PoolRow) → select (is_pool h.capacity_pool_key) pools ≡ some p
          → number_of (pool_rollout h.capacity_pool_key) holds < p.rollout_headroom_limit)
      → Bounded pools es holds rs
      → Bounded pools es (holds ++ h ∷ []) rs
  insert_hold-Bounded h e fresh found there account_room pool_room rollout_room b = record {
    hold_ids = append-Unique (λ k. k.id) holds h b.hold_ids fresh;
    reservation_ids = b.reservation_ids;
    hold_pools = All-append (InItsPool es) holds (h ∷ []) b.hold_pools ((e, found, there), tt);
    pool_slots = λ key p listed. elim (Bool-cases (text_eq h.capacity_pool_key key)) [
      | inl hit ↦
          subst
            (λ k.
              select (is_pool k) pools ≡ some p
              → number_of (pool_reservation k) rs + number_of (pool_hold k) (holds ++ h ∷ [])
                ≤ p.hosted_slot_limit)
            (text_eq→eq h.capacity_pool_key key hit) (own_slots p) listed
      | inr miss ↦
          rw (number_of-append (pool_hold key) holds h, miss)
            (omega (arith, b.pool_slots key p listed))
    ];
    pool_rollouts = λ key p listed. elim (Bool-cases (text_eq h.capacity_pool_key key)) [
      | inl hit ↦
          subst
            (λ k.
              select (is_pool k) pools ≡ some p
              → number_of (pool_rollout k) (holds ++ h ∷ []) ≤ p.rollout_headroom_limit)
            (text_eq→eq h.capacity_pool_key key hit) (own_rollouts p) listed
      | inr miss ↦
          rw (number_of-append (pool_rollout key) holds h, miss)
            (omega (arith, b.pool_rollouts key p listed))
    ];
    account_slots = λ account e' listed. elim (Bool-cases (h.account_id == account)) [
      | inl hit ↦
          subst
            (λ a.
              select (of_account a) es ≡ some e'
              → number_of (account_reservation a) rs + number_of (account_hold a) (holds ++ h ∷ [])
                ≤ e'.hosted_slot_limit)
            ((==_iff h.account_id account).0 hit) (own_account e') listed
      | inr miss ↦
          rw (number_of-append (account_hold account) holds h, miss)
            (omega (arith, b.account_slots account e' listed))
    ];
  }
    where
      own_slots :
          (p : PoolRow)
          → select (is_pool h.capacity_pool_key) pools ≡ some p
          → number_of (pool_reservation h.capacity_pool_key) rs
              + number_of (pool_hold h.capacity_pool_key) (holds ++ h ∷ [])
            ≤ p.hosted_slot_limit
      own_slots p listed = elim (Bool-cases (active_initial h)) [
        | inl counts ↦
            rw
              (
                number_of-append (pool_hold h.capacity_pool_key) holds h,
                text_eq_refl h.capacity_pool_key,
                counts,
              )
              (omega (arith, pool_room counts p listed))
        | inr not_counted ↦
            rw
              (
                number_of-append (pool_hold h.capacity_pool_key) holds h,
                text_eq_refl h.capacity_pool_key,
                not_counted,
              )
              (omega (arith, b.pool_slots h.capacity_pool_key p listed))
      ]

      own_rollouts :
          (p : PoolRow)
          → select (is_pool h.capacity_pool_key) pools ≡ some p
          → number_of (pool_rollout h.capacity_pool_key) (holds ++ h ∷ [])
            ≤ p.rollout_headroom_limit
      own_rollouts p listed = elim (Bool-cases (rollout_in_flight h)) [
        | inl counts ↦
            rw
              (
                number_of-append (pool_rollout h.capacity_pool_key) holds h,
                text_eq_refl h.capacity_pool_key,
                counts,
              )
              (omega (arith, rollout_room counts p listed))
        | inr not_counted ↦
            rw
              (
                number_of-append (pool_rollout h.capacity_pool_key) holds h,
                text_eq_refl h.capacity_pool_key,
                not_counted,
              )
              (omega (arith, b.pool_rollouts h.capacity_pool_key p listed))
      ]

      own_account :
          (e' : EntitlementRow)
          → select (of_account h.account_id) es ≡ some e'
          → number_of (account_reservation h.account_id) rs
              + number_of (account_hold h.account_id) (holds ++ h ∷ [])
            ≤ e'.hosted_slot_limit
      own_account e' listed = elim (Bool-cases (active_initial h)) [
        | inl counts ↦
            let same = some-injective e e' (sym found ∙ listed) in
            rw (number_of-append (account_hold h.account_id) holds h, ==_refl h.account_id, counts)
              (subst
                (λ l.
                  number_of (account_reservation h.account_id) rs
                    + (number_of (account_hold h.account_id) holds + 1)
                  ≤ l.hosted_slot_limit)
                same (omega (arith, account_room counts)))
        | inr not_counted ↦
            rw
              (
                number_of-append (account_hold h.account_id) holds h,
                ==_refl h.account_id,
                not_counted,
              )
              (omega (arith, b.account_slots h.account_id e' listed))
      ]
