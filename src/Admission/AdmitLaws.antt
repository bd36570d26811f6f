-- ===== src/Admission/AdmitLaws.antt =====
-- What `admit` of crates/control/src/admission.rs does when it answers: a live hold is consumed, and
-- its place in the limits goes to a reservation or stays with the rollout.
use hostlet_app.Base.{
  ℕ, ◌+◌, ◌<◌, ◌≡◌, ◌≢◌, inl, inr, refl, sym, ◌∙◌, subst, ap, Bool, true, false, not, ◌||◌, Option,
  some, leb, ◌==◌, Option-cases, ==_iff, &&_left, arith,
}
use hostlet_app.Base.Text.{Text}
use hostlet_app.Base.Table.{select, select-some, select-update_rows, In, update_rows}
use hostlet_app.Base.Counts.{number_of-append}
use hostlet_app.Api.{ApiError, Result, ok, err}
use hostlet_app.Api.Answers.{
  Answers, Answers-err, Answers-ok, Answers-if, Answers-found, Answers-try, Answers-map,
}
use hostlet_app.Jobs.Cancel.{Owner}
use hostlet_app.Jobs.Intent.{store_replay}
use hostlet_app.Jobs.Store.{owner_audit}
use hostlet_app.Jobs.Model.{Database}
use Prim.Native.String.{String}
use hostlet_app.Admission.Model.{HoldState, EntitlementRow, HoldRow, Tables}
use hostlet_app.Admission.Messages.{
  HoldRecord, ReservationRecord, AdmissionResponse, AdmitRequest, AdmissionEnv,
}
use hostlet_app.Admission.Store.{
  is_initial, hold_active, is_hold, active_initial, expire_holds, expire_holds_for_scope, in_scope,
  load_hold, load_reservation, load_active_reservation, account_slot_use, pool_slot_use,
  pool_rollout_use, pool_reservation, pool_hold, pool_rollout, account_reservation, account_hold,
}
use hostlet_app.Admission.Context.{
  lock_entitlement_and_pool, validate_source_proof, ensure_lifecycle_allows_hold,
}
use hostlet_app.Admission.Hold.{AdmissionTx, OwnerInputs, record_admission, ensure_admissible}
use hostlet_app.Admission.Admit.{
  AdmitIds, hold_for, has_id, consume, consume_hold, project_reserved, rollout_admitted,
  new_reservation, insert_reservation, admit_initial, admit_rollout, admit_kind, admit_answer,
  admit_found, admit_checked, admit_operation,
}
use hostlet_app.Admission.Limits.{WithinLimits}
use hostlet_app.Admission.AdmitLimits.{consume_hold-number_of}
use hostlet_app.Admission.HoldLimits.{lock_entitlement_and_pool-select, expire_holds-WithinLimits}
use hostlet_app.Admission.AdmitKeeps.{insert_reservation-some, found_hold, rollout_admitted-same}

-- A hold was consumed, and every pool and account uses what it used before.
pub record Moves (now : ℕ) (h : HoldRow) (before after : Tables) : Type 0 where
  pub holds_after : after.holds ≡ update_rows (has_id h.id) (consume_hold now) before.holds
  pub same_slots : (key : Text) → pool_slot_use after key ≡ pool_slot_use before key
  pub same_rollouts : (key : Text) → pool_rollout_use after key ≡ pool_rollout_use before key
  pub same_account :
      (account : ℕ) → account_slot_use after account ≡ account_slot_use before account

module _ (now : ℕ) (ids : AdmitIds) (o : Owner) (inputs : OwnerInputs) where
  admit_initial-Moves :
      (e : EntitlementRow) (h : HoldRow) (rollback db : Tables)
      → WithinLimits db
      → In h db.holds
      → active_initial h ≡ true
      → o.account_id ≡ h.account_id
      → e.capacity_pool_key ≡ h.capacity_pool_key
      → Answers (λ db' _. Moves now h db db') (admit_initial now ids o inputs e h rollback db)
  unfolding admit_initial new_reservation project_reserved account_slot_use pool_slot_use
      pool_rollout_use
  admit_initial-Moves e h rollback db b there counts mine pool =
      let r =
        new_reservation ids.reservation ids.epoch o.account_id inputs.project inputs.deployment e
          h.id in
      Answers-found _ (insert_reservation r db.reservations) _ rollback _ λ rs inserted.
        let (fresh, same) = insert_reservation-some r db.reservations rs inserted in
        let db2 : Tables =
          project_reserved ids.event o.account_id inputs.project inputs.deployment
            (record (consume now h.id db) { reservations = rs }) in
        Answers-try _ (load_reservation db2 o.account_id inputs.project ids.reservation) rollback _
          λ loaded _. Answers-ok _ db2 _ (record {
            holds_after = refl;
            same_slots = λ key.
                let count =
                  consume_hold-number_of db.holds now h (pool_hold key) b.0.hold_ids there in
                let more = number_of-append (pool_reservation key) db.reservations r in
                rw⁻¹ same (ground (arith, pool, count, more));
            same_rollouts = λ key.
                let count =
                  consume_hold-number_of db.holds now h (pool_rollout key) b.0.hold_ids there in
                ground (arith, count);
            same_account = λ account.
                let count =
                  consume_hold-number_of db.holds now h (account_hold account) b.0.hold_ids there in
                let more = number_of-append (account_reservation account) db.reservations r in
                rw⁻¹ same (ground (arith, mine, count, more));
          })

  admit_rollout-Moves :
      (h : HoldRow) (rollback db : Tables)
      → WithinLimits db
      → In h db.holds
      → is_initial h.kind ≡ false
      → hold_active h.state ≡ true
      → Answers (λ db' _. Moves now h db db') (admit_rollout now ids o inputs h rollback db)
  unfolding admit_rollout account_slot_use pool_slot_use pool_rollout_use
  admit_rollout-Moves h rollback db b there kind active =
      let db1 : Tables = consume now h.id db in
      Answers-try _ (load_active_reservation db1 o.account_id inputs.project) rollback _ λ found _.
        Answers-found _ found _ rollback _ λ r _.
          Answers-found _
            (rollout_admitted ids.event o.account_id inputs.project inputs.deployment db1) _
            rollback _
            λ db2 admitted. Answers-ok _ db2 _ (
              rollout_admitted-same ids.event o.account_id inputs.project inputs.deployment db1 db2
                (λ t. Moves now h db t) admitted
                (λ ds ps hs. record {
                  holds_after = refl;
                  same_slots = λ key.
                      let count =
                        consume_hold-number_of db.holds now h (pool_hold key) b.0.hold_ids there in
                      ground (arith, count);
                  same_rollouts = λ key.
                      let count =
                        consume_hold-number_of db.holds now h (pool_rollout key) b.0.hold_ids
                          there in
                      ground (arith, count);
                  same_account = λ account.
                      let count =
                        consume_hold-number_of db.holds now h (account_hold account) b.0.hold_ids
                          there in
                      ground (arith, count);
                }))

  admit_kind-Moves :
      (e : EntitlementRow) (h : HoldRow) (rollback db : Tables)
      → WithinLimits db
      → In h db.holds
      → hold_active h.state ≡ true
      → o.account_id ≡ h.account_id
      → e.capacity_pool_key ≡ h.capacity_pool_key
      → Answers (λ db' _. Moves now h db db') (admit_kind now ids o inputs e h rollback db)
  unfolding admit_kind
  admit_kind-Moves e h rollback db b there active mine pool =
      Answers-if _ (is_initial h.kind) _ _
        (λ initial.
          admit_initial-Moves e h rollback db b there (ground (arith, initial, active)) mine pool)
        (λ rollout. admit_rollout-Moves h rollback db b there rollout active)

-- The answer shows the hold, consumed.
abbrev pub ShowsConsumed : HoldRow → AdmissionResponse → Type 0
ShowsConsumed h response = (response.hold.id ≡ h.id) × (response.hold.state ≡ HoldState.consumed)

load_hold-consumed :
    (now : ℕ) (h : HoldRow) (before after : Tables) (account project id : ℕ) (loaded : HoldRecord)
    → Moves now h before after
    → id ≡ h.id
    → load_hold after account project id ≡ ok loaded
    → (loaded.id ≡ h.id) × (loaded.state ≡ HoldState.consumed)
unfolding load_hold
load_hold-consumed now h before after account project id loaded moves same read =
    elim (Option-cases (select (is_hold id account project) after.holds)) [
      | inl absent ↦ absurd (err-ok (rw (load_hold, absent) at read))
      | inr (k, found) ↦
          let hit = select-some (is_hold id account project) after.holds k found in
          let (x, was, how) =
            select-update_rows (is_hold id account project) (has_id h.id) (consume_hold now)
              before.holds k (λ y _. refl)
              (subst (λ hs. select (is_hold id account project) hs ≡ some k) moves.holds_after
                found) in
          subst Shown (ok-same (rw (load_hold, found) at read)) (
            (==_iff k.id id).0 (&&_left _ _ hit) ∙ same,
            elim how [
              | inl (_, e) ↦ subst (λ y. y.state ≡ HoldState.consumed) e refl
              | inr (miss, e) ↦
                  let there = select-some (is_hold id account project) before.holds x was in
                  absurd (
                    false-true
                      (sym miss ∙ subst (λ i. (x.id == i) ≡ true) same (&&_left _ _ there)))
            ],
          )
    ]
  where
    Shown : HoldRecord → Type 0
    Shown l = (l.id ≡ h.id) × (l.state ≡ HoldState.consumed)

    err-ok : {x : ApiError} {y : HoldRecord} → ◌≢◌ {A = Result HoldRecord} (err x) (ok y)
    err-ok e = cc

    ok-same : {x y : HoldRecord} → ◌≡◌ {A = Result HoldRecord} (ok x) (ok y) → x ≡ y
    ok-same e = cc

    false-true : false ≢ true
    false-true e = cc

record_admission-same :
    (env : AdmissionEnv) (o : Owner) (operation key hash : Text) (event target : String)
    (id : Option ℕ) (code : ℕ) (response : AdmissionResponse) (rollback db : Tables)
    (Q : Tables → AdmissionResponse → Type 0)
    → ((shared : Database) → Q (record db { shared = shared }) response)
    → Answers Q
        (record_admission env o operation key hash event target id code response rollback db)
unfolding record_admission
record_admission-same env o operation key hash event target id code response rollback db Q good =
    Answers-found Q
      (store_replay (owner_audit o.account_id o.session_id event target id "succeeded" db.shared)
        o.account_id operation key hash code (env.json_admission.print response))
      _ rollback _ (λ stored _. Answers-ok Q (record db { shared = stored }) response (good stored))

admit_answer-Moves :
    (env : AdmissionEnv) (now : ℕ) (h : HoldRow) (o : Owner) (inputs : OwnerInputs)
    (request : AdmitRequest) (before rollback : Tables) (t : AdmissionTx (ReservationRecord × ℕ))
    → request.capacity_hold_id ≡ h.id
    → Answers (λ db' _. Moves now h before db') t
    → Answers
        (λ db' response. Moves now h before db' × ShowsConsumed h response)
        (admit_answer env o inputs request rollback t)
unfolding admit_answer account_slot_use pool_slot_use pool_rollout_use
admit_answer-Moves env now h o inputs request before rollback (db, admitted) same moved =
    Answers-try _ admitted rollback _ λ admission done.
      let moves = moved.answers db admission (ap (λ a. (db, a)) done) in
      Answers-try _ (load_hold db o.account_id inputs.project request.capacity_hold_id) rollback _
        λ loaded read.
          record_admission-same env o (admit_operation env inputs.project inputs.deployment)
            inputs.key (env.hash_admit request) "admission.consume" "slot_reservation"
            (some admission.0.id) admission.1 _ rollback db _
            (λ shared. (
              record {
                holds_after = moves.holds_after;
                same_slots = moves.same_slots;
                same_rollouts = moves.same_rollouts;
                same_account = moves.same_account;
              },
              load_hold-consumed now h before db o.account_id inputs.project
                  request.capacity_hold_id loaded moves same read,
            ))

admit_found-Moves :
    (env : AdmissionEnv) (clock : ℕ → ℕ) (ids : AdmitIds) (o : Owner) (inputs : OwnerInputs)
    (request : AdmitRequest) (e : EntitlementRow) (h : HoldRow) (rollback db : Tables)
    → WithinLimits db
    → In h db.holds
    → request.capacity_hold_id ≡ h.id
    → o.account_id ≡ h.account_id
    → e.capacity_pool_key ≡ h.capacity_pool_key
    → Answers
        (λ db' response.
          (hold_active h.state ≡ true)
          × (clock 2 < h.expires_at)
          × Moves (clock 5) h db db'
          × ShowsConsumed h response)
        (admit_found env clock ids o inputs request e h rollback db)
unfolding admit_found
admit_found-Moves env clock ids o inputs request e h rollback db b there same mine pool =
    Answers-if _ (not (hold_active h.state) || leb h.expires_at (clock 2)) _ _
      (λ _. Answers-err _ db _)
      λ live.
        let active = still_active (hold_active h.state) h.expires_at (clock 2) live in
        Answers-try _
          (validate_source_proof (λ n. clock (n + 3)) db o.account_id inputs.project
            inputs.deployment h.source_proof_id)
          rollback _
          λ _ _.
            Answers-try _
              (ensure_lifecycle_allows_hold db o.account_id inputs.project inputs.deployment)
              rollback _
              λ _ _.
                Answers-map _ _ _ (λ db' response moved. (active.0, active.1, moved.0, moved.1))
                  (admit_answer-Moves env (clock 5) h o inputs request db rollback
                    (admit_kind (clock 5) ids o inputs e h rollback db) same
                    (admit_kind-Moves (clock 5) ids o inputs e h rollback db b there active.0 mine
                      pool))
  where
    still_active :
        (a : Bool) (expires now : ℕ)
        → (not a || leb expires now) ≡ false
        → (a ≡ true) × (now < expires)
    still_active a expires now h = ground arith

-- An answer to an admission that is not a repeated one means: the hold that was asked for, which
-- the expiry at the start had left, was active and its time not over; it is consumed, and the
-- answer shows it so; and every pool and every account has as many slots and rollouts in use as
-- after that expiry. The tables were within their limits.
pub admit_checked-Moves :
    (env : AdmissionEnv) (clock refund_ids : ℕ → ℕ) (ids : AdmitIds) (o : Owner)
    (inputs : OwnerInputs) (request : AdmitRequest) (db db' : Tables) (response : AdmissionResponse)
    → WithinLimits db
    → admit_checked env clock refund_ids ids o inputs request db ≡ (db', ok response)
    → (e : EntitlementRow) × (h : HoldRow) × (select
          (hold_for request.capacity_hold_id o.account_id inputs.project inputs.deployment)
          (expire_holds_for_scope o.account_id e.capacity_pool_key (clock 0) refund_ids db).holds
        ≡ some h)
      × (hold_active h.state ≡ true)
      × (clock 2 < h.expires_at)
      × Moves
          (clock 5)
          h
          (expire_holds_for_scope o.account_id e.capacity_pool_key (clock 0) refund_ids db)
          db'
      × ShowsConsumed h response
unfolding admit_checked expire_holds_for_scope
admit_checked-Moves env clock refund_ids ids o inputs request db db' response b answered =
    (Answers-try
        (λ after reply.
          (e : EntitlementRow) × (h : HoldRow) × (select
              (hold_for request.capacity_hold_id o.account_id inputs.project inputs.deployment)
              (expire_holds (in_scope o.account_id e.capacity_pool_key) (clock 0) refund_ids
                db).holds
            ≡ some h)
          × (hold_active h.state ≡ true)
          × (clock 2 < h.expires_at)
          × Moves (clock 5) h
              (expire_holds (in_scope o.account_id e.capacity_pool_key) (clock 0) refund_ids db)
              after
          × ShowsConsumed h reply)
        (lock_entitlement_and_pool db o.account_id) db _
        λ e locked.
          let scope = in_scope o.account_id e.capacity_pool_key in
          let db1 : Tables = expire_holds scope (clock 0) refund_ids db in
          let b1 = expire_holds-WithinLimits scope (clock 0) refund_ids db b in
          let entitled = lock_entitlement_and_pool-select db o.account_id e locked in
          Answers-try _ (ensure_admissible clock o inputs e db1) db _ λ _ _.
            Answers-found _
              (select
                (hold_for request.capacity_hold_id o.account_id inputs.project inputs.deployment)
                db1.holds)
              _ db _
              λ h found.
                let (there, mine, pool) =
                  found_hold db1 o inputs request.capacity_hold_id e h b1 entitled found in
                let asked = (==_iff h.id request.capacity_hold_id).0 (
                  &&_left _ _ (
                    select-some
                      (hold_for request.capacity_hold_id o.account_id inputs.project
                        inputs.deployment)
                      db1.holds h found)) in
                Answers-map _ _ _
                  (λ after reply moved. (e, h, found, moved.0, moved.1, moved.2, moved.3))
                  (admit_found-Moves env clock ids o inputs request e h db db1 b1 there (sym asked)
                    mine pool)).answers
      db' response answered
