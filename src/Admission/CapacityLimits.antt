-- ===== src/Admission/CapacityLimits.antt =====
-- `put_capacity_fixture` and `put_entitlement_fixture` of crates/control/src/admission.rs and the
-- condition on the tables.
use hostlet_app.Base.{
  ℕ, ◌+◌, ◌≤◌, ◌≡◌, ◌⊎◌, inl, inr, refl, sym, ◌∙◌, subst, true, some, List, any, if◌then◌else◌,
  All-map, Bool-cases, ==_iff, &&_left,
}
use hostlet_app.Base.Integers.{to_nat}
use hostlet_app.Base.Text.{Text, text_eq→eq}
use hostlet_app.Base.Table.{
  select, select-some, select-append_cases, select-update_rows, select-updated, select-before,
}
use hostlet_app.Base.Counts.{number_of, sum_of}
use hostlet_app.Admission.Meter.{Metered}
use hostlet_app.Admission.Model.{
  EntitlementState, PoolRow, EntitlementRow, HoldRow, ReservationRow, UsageRow,
}
use hostlet_app.Admission.Messages.{CapacityFixtureRequest, EntitlementFixtureRequest}
use hostlet_app.Admission.Store.{
  is_pool, of_account, account_reservation, account_hold, pool_reservation, pool_hold, pool_rollout,
  account_debit, account_credit, row_seconds,
}
use hostlet_app.Admission.Capacity.{
  set_pool, new_pool, upsert_pool, keeps_period, set_entitlement, new_entitlement,
  upsert_entitlement,
}
use hostlet_app.Admission.Limits.{InItsPool, Bounded}

-- The pool that a key finds is one that was there, or has the request's limits.
upsert_pool-select :
    (r : CapacityFixtureRequest) (pools : List PoolRow) (key : Text) (p : PoolRow)
    → select (is_pool key) (upsert_pool r pools) ≡ some p
    → (select (is_pool key) pools ≡ some p)
      ⊎ ((r.pool_key ≡ key)
          × (p.hosted_slot_limit ≡ to_nat r.hosted_slot_limit)
          × (p.rollout_headroom_limit ≡ to_nat r.rollout_headroom_limit))
unfolding upsert_pool
upsert_pool-select r pools key p found = elim (Bool-cases (any (is_pool r.pool_key) pools)) [
  | inl there ↦
      let (old, was, how) =
        select-update_rows (is_pool key) (is_pool r.pool_key) (set_pool r) pools p (λ x hit. refl)
          (rw there at found) in
      elim how [
        | inl (hit, e) ↦
            let keyed = select-some (is_pool key) pools old was in
            inr (
              sym (text_eq→eq old.pool_key r.pool_key hit) ∙ text_eq→eq old.pool_key key keyed,
              subst (λ q. q.hosted_slot_limit ≡ to_nat r.hosted_slot_limit) e refl,
              subst (λ q. q.rollout_headroom_limit ≡ to_nat r.rollout_headroom_limit) e refl,
            )
        | inr (miss, e) ↦ inl (subst (λ q. select (is_pool key) pools ≡ some q) e was)
      ]
  | inr absent ↦
      elim (select-append_cases (is_pool key) pools (new_pool r) p (rw absent at found)) [
        | inl was ↦ inl was
        | inr (hit, e) ↦ inr (
          text_eq→eq r.pool_key key hit,
          subst (λ q. q.hosted_slot_limit ≡ to_nat r.hosted_slot_limit) e refl,
          subst (λ q. q.rollout_headroom_limit ≡ to_nat r.rollout_headroom_limit) e refl,
        )
      ]
]

-- The entitlement that an account finds is one that was there, or has the request's limits.
pub upsert_entitlement-select :
    (id : ℕ) (r : EntitlementFixtureRequest) (state : EntitlementState) (es : List EntitlementRow)
    (account : ℕ) (e : EntitlementRow)
    → select (of_account account) (upsert_entitlement id r state es) ≡ some e
    → (select (of_account account) es ≡ some e)
      ⊎ ((r.account_id ≡ account)
          × (e.hosted_slot_limit ≡ to_nat r.hosted_slot_limit)
          × (e.build_seconds_limit ≡ to_nat r.build_seconds_limit))
unfolding upsert_entitlement
upsert_entitlement-select id r state es account e found =
    elim (Bool-cases (any (of_account r.account_id) es)) [
      | inl there ↦
          let (old, was, how) =
            select-update_rows (of_account account) (of_account r.account_id)
              (set_entitlement r state) es e (λ x hit. refl) (rw there at found) in
          elim how [
            | inl (hit, same) ↦
                let keyed = select-some (of_account account) es old was in
                inr (
                  sym ((==_iff old.account_id r.account_id).0 hit)
                      ∙ (==_iff old.account_id account).0 keyed,
                  subst (λ q. q.hosted_slot_limit ≡ to_nat r.hosted_slot_limit) same refl,
                  subst (λ q. q.build_seconds_limit ≡ to_nat r.build_seconds_limit) same refl,
                )
            | inr (miss, same) ↦ inl (subst (λ q. select (of_account account) es ≡ some q) same was)
          ]
      | inr absent ↦
          elim (select-append_cases (of_account account) es (new_entitlement id r state) e
            (rw absent at found)) [
              | inl was ↦ inl was
              | inr (hit, same) ↦ inr (
                (==_iff r.account_id account).0 hit,
                subst (λ q. q.hosted_slot_limit ≡ to_nat r.hosted_slot_limit) same refl,
                subst (λ q. q.build_seconds_limit ≡ to_nat r.build_seconds_limit) same refl,
              )
            ]
    ]

-- A hold stays in the pool of its account, since the pool of an entitlement never changes.
upsert_entitlement-InItsPool :
    (id : ℕ) (r : EntitlementFixtureRequest) (state : EntitlementState) (es : List EntitlementRow)
    (h : HoldRow)
    → keeps_period r (select (of_account r.account_id) es) ≡ true
    → InItsPool es h
    → InItsPool (upsert_entitlement id r state es) h
unfolding upsert_entitlement
upsert_entitlement-InItsPool id r state es h keeps (e, found, there) =
    elim (Bool-cases (any (of_account r.account_id) es)) [
      | inl present ↦ rw present (
        (if of_account r.account_id e then set_entitlement r state e else e),
        select-updated (of_account h.account_id) (of_account r.account_id) (set_entitlement r state)
            es e (λ x hit. refl) found,
        there ∙ same_pool,
      )
      | inr absent ↦ rw absent (e, select-before (of_account h.account_id) es _ e found, there)
    ]
  where
    same_pool :
        e.capacity_pool_key
        ≡ (if of_account r.account_id e then set_entitlement r state e else e).capacity_pool_key
    same_pool = elim (Bool-cases (of_account r.account_id e)) [
      | inl hit ↦
          let mine = select-some (of_account h.account_id) es e found in
          let account =
            sym ((==_iff e.account_id h.account_id).0 mine)
            ∙ (==_iff e.account_id r.account_id).0 hit in
          let kept = rw (subst (λ a. select (of_account a) es ≡ some e) account found) at keeps in
          rw hit (text_eq→eq e.capacity_pool_key r.capacity_pool_key (&&_left _ _ kept))
      | inr miss ↦ rw miss refl
    ]

module _ {pools : List PoolRow} {es : List EntitlementRow} {holds : List HoldRow}
    {rs : List ReservationRow} where
  pub upsert_pool-Bounded :
      (r : CapacityFixtureRequest)
      → number_of (pool_reservation r.pool_key) rs + number_of (pool_hold r.pool_key) holds
        ≤ to_nat r.hosted_slot_limit
      → number_of (pool_rollout r.pool_key) holds ≤ to_nat r.rollout_headroom_limit
      → Bounded pools es holds rs
      → Bounded (upsert_pool r pools) es holds rs
  upsert_pool-Bounded r slots rollouts b = record {
    hold_ids = b.hold_ids;
    reservation_ids = b.reservation_ids;
    hold_pools = b.hold_pools;
    pool_slots = λ key p found. elim (upsert_pool-select r pools key p found) [
      | inl was ↦ b.pool_slots key p was
      | inr (same, limit, _) ↦ rw limit (
          subst
            (λ k.
              number_of (pool_reservation k) rs + number_of (pool_hold k) holds
              ≤ to_nat r.hosted_slot_limit)
            same slots)
    ];
    pool_rollouts = λ key p found. elim (upsert_pool-select r pools key p found) [
      | inl was ↦ b.pool_rollouts key p was
      | inr (same, _, limit) ↦ rw limit (
          subst (λ k. number_of (pool_rollout k) holds ≤ to_nat r.rollout_headroom_limit) same
            rollouts)
    ];
    account_slots = b.account_slots;
  }

  pub upsert_entitlement-Bounded :
      (id : ℕ) (r : EntitlementFixtureRequest) (state : EntitlementState)
      → number_of (account_reservation r.account_id) rs
          + number_of (account_hold r.account_id) holds
        ≤ to_nat r.hosted_slot_limit
      → keeps_period r (select (of_account r.account_id) es) ≡ true
      → Bounded pools es holds rs
      → Bounded pools (upsert_entitlement id r state es) holds rs
  upsert_entitlement-Bounded id r state slots keeps b = record {
    hold_ids = b.hold_ids;
    reservation_ids = b.reservation_ids;
    hold_pools =
        All-map (InItsPool es) _ holds
          (λ h linked. upsert_entitlement-InItsPool id r state es h keeps linked) b.hold_pools;
    pool_slots = b.pool_slots;
    pool_rollouts = b.pool_rollouts;
    account_slots = λ account e found.
        elim (upsert_entitlement-select id r state es account e found) [
          | inl was ↦ b.account_slots account e was
          | inr (same, limit, _) ↦ rw limit (
              subst
                (λ a.
                  number_of (account_reservation a) rs + number_of (account_hold a) holds
                  ≤ to_nat r.hosted_slot_limit)
                same slots)
        ];
  }

pub upsert_entitlement-Metered :
    {es : List EntitlementRow} {us : List UsageRow} (id : ℕ) (r : EntitlementFixtureRequest)
    (state : EntitlementState)
    → sum_of row_seconds (account_debit r.account_id) us
      ≤ to_nat r.build_seconds_limit + sum_of row_seconds (account_credit r.account_id) us
    → Metered es us
    → Metered (upsert_entitlement id r state es) us
upsert_entitlement-Metered {es} {us} id r state room m = record {
  usage_ids = m.usage_ids;
  credited_debits = m.credited_debits;
  balance = m.balance;
  allowance = λ account e found. elim (upsert_entitlement-select id r state es account e found) [
    | inl was ↦ m.allowance account e was
    | inr (same, _, limit) ↦ rw limit (
        subst
          (λ a.
            sum_of row_seconds (account_debit a) us
            ≤ to_nat r.build_seconds_limit + sum_of row_seconds (account_credit a) us)
          same room)
  ];
}
