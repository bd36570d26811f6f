-- ===== src/Admission/ReceiptLaws.antt =====
-- Internal events of crates/control/src/admission.rs that are sent again.
use hostlet_app.Base.{
  ℕ, ◌≡◌, ◌≢◌, inl, inr, refl, true, Option, none, some, List, [], ◌∷◌, ◌++◌, any, ==_refl,
  Option-cases,
}
use hostlet_app.Base.Text.{Text, text_eq_refl}
use hostlet_app.Base.Table.{select, select-append}
use hostlet_app.Api.{Result, ok}
use hostlet_app.Api.Answers.{Answers, Answers-err, Answers-ok, Answers-if, Answers-try}
use hostlet_app.Admission.Model.{FixtureKind, ReceiptRow, Tables, UsageKind}
use hostlet_app.Admission.Messages.{Json, BuildUsageRequest, BuildUsageResponse, AdmissionEnv}
use hostlet_app.Admission.Hold.{AdmissionTx}
use hostlet_app.Admission.Receipts.{
  same_kind, is_receipt, fixture_replay, store_fixture, with_receipt,
}
use hostlet_app.Admission.Context.{lock_entitlement_and_pool}
use hostlet_app.Admission.Usage.{
  validate_build_usage, apply_usage, usage_fixture, usage_fresh, record_build_usage,
}
use hostlet_app.Admission.Machine.{AdmissionCall, run_calls}
use hostlet_app.Admission.ReceiptRuns.{run_calls-HasReceipt}

module _ {A : Type 0} (json : Json A) (event : ℕ) (kind : FixtureKind) (hash : Text) where
  -- The event has a receipt from which this answer is read back.
  abbrev pub Receipted : Tables → A → Type 0
  Receipted db x = fixture_replay json db event kind hash ≡ ok (some x)

  pub store_fixture-Receipted :
      (response : A) (rollback db : Tables)
      → json.parse (json.print response) ≡ some response
      → Answers Receipted (store_fixture json event kind hash response rollback db)
  unfolding store_fixture fixture_replay
  store_fixture-Receipted response rollback db readable =
      Answers-if _ (any (is_receipt event) db.receipts) _ _ (λ _. Answers-err _ rollback _)
        λ fresh.
          let row : ReceiptRow = record {
            event_id = event;
            kind = kind;
            request_hash = hash;
            response_body = json.print response;
          } in
          Answers-ok _ (record db { receipts = db.receipts ++ row ∷ [] }) response
            (rw
              (
                fixture_replay,
                select-append (is_receipt event) db.receipts row fresh (==_refl event),
                kind_self kind,
                text_eq_refl hash,
                readable,
              )
              refl)
    where
      kind_self : (k : FixtureKind) → same_kind k k ≡ true
      kind_self FixtureKind.capacity = refl
      kind_self FixtureKind.entitlement = refl
      kind_self FixtureKind.source_proof = refl
      kind_self FixtureKind.resource_observation = refl
      kind_self FixtureKind.build_debit = refl
      kind_self FixtureKind.build_credit = refl

  pub with_receipt-Receipted :
      (db : Tables) (fresh : AdmissionTx A)
      → Answers Receipted fresh
      → Answers Receipted (with_receipt json event kind hash db fresh)
  unfolding with_receipt
  with_receipt-Receipted db fresh good =
      Answers-try _ (fixture_replay json db event kind hash) db _
        (λ stored read. answer stored read)
    where
      answer :
          (stored : Option A)
          → fixture_replay json db event kind hash ≡ ok stored
          → Answers Receipted (elim stored as (λ _. AdmissionTx A) [
            | none ↦ fresh
            | some response ↦ (db, ok response)
          ])
      answer none read = good
      answer (some response) read = Answers-ok _ db response read

  pub with_receipt-again :
      (db : Tables) (fresh : AdmissionTx A) (x : A)
      → Receipted db x
      → with_receipt json event kind hash db fresh ≡ (db, ok x)
  unfolding with_receipt
  with_receipt-again db fresh x receipted = rw receipted refl

usage_fresh-Receipted :
    (env : AdmissionEnv) (now : ℕ) (r : BuildUsageRequest) (kind : UsageKind) (db : Tables)
    → ((x : BuildUsageResponse) → env.json_usage.parse (env.json_usage.print x) ≡ some x)
    → Answers
        (Receipted env.json_usage r.event_id (usage_fixture kind) (env.hash_usage r))
        (usage_fresh env now r kind db)
unfolding usage_fresh
usage_fresh-Receipted env now r kind db readable =
    Answers-try _ (lock_entitlement_and_pool db r.account_id) db _ λ e _.
      Answers-try _ (apply_usage now r kind e db) db _ λ db' _.
        store_fixture-Receipted env.json_usage r.event_id (usage_fixture kind) (env.hash_usage r) _
          db db' (readable _)

-- An answer that is read back once is read back after any further requests.
run_calls-Receipted :
    (env : AdmissionEnv) (calls : List AdmissionCall) (r : BuildUsageRequest) (kind : UsageKind)
    (db : Tables) (x : BuildUsageResponse)
    → Receipted env.json_usage r.event_id (usage_fixture kind) (env.hash_usage r) db x
    → Receipted env.json_usage r.event_id
        (usage_fixture kind)
        (env.hash_usage r)
        (run_calls env calls db)
        x
unfolding fixture_replay
run_calls-Receipted env calls r kind db x receipted =
    elim (Option-cases (select (is_receipt r.event_id) db.receipts)) [
      | inl absent ↦ absurd (nothing_stored (rw (fixture_replay, absent) at receipted))
      | inr (row, found) ↦
          rw (fixture_replay, run_calls-HasReceipt r.event_id row env calls db found)
            (rw (fixture_replay, found) at receipted)
    ]
  where
    nothing_stored :
        {y : BuildUsageResponse}
        → ◌≢◌ {A = Result (Option BuildUsageResponse)} (ok none) (ok (some y))
    nothing_stored h = cc

-- A report of build seconds that was answered is answered alike when it is sent again after any
-- further requests, at whatever time, and nothing is debited or credited by the repeat: the tables
-- stay as the further requests left them. Responses are read back from their stored JSON as they
-- were.
pub record_build_usage-run_calls :
    (env : AdmissionEnv) (calls : List AdmissionCall) (now later : ℕ) (r : BuildUsageRequest)
    (db db' : Tables) (x : BuildUsageResponse)
    → ((y : BuildUsageResponse) → env.json_usage.parse (env.json_usage.print y) ≡ some y)
    → record_build_usage env now r db ≡ (db', ok x)
    → record_build_usage env later r (run_calls env calls db') ≡ (run_calls env calls db', ok x)
unfolding record_build_usage
record_build_usage-run_calls env calls now later r db db' x readable answered =
    (Answers-try
        (λ after y.
          record_build_usage env later r (run_calls env calls after)
          ≡ (run_calls env calls after, ok y))
        (validate_build_usage r) db _
        λ kind valid. record {
          answers = λ after y done.
              rw (record_build_usage, valid)
                (with_receipt-again env.json_usage r.event_id (usage_fixture kind)
                  (env.hash_usage r) (run_calls env calls after)
                  (usage_fresh env later r kind (run_calls env calls after)) y
                  (run_calls-Receipted env calls r kind after y (
                    (with_receipt-Receipted env.json_usage r.event_id (usage_fixture kind)
                        (env.hash_usage r) db (usage_fresh env now r kind db)
                        (usage_fresh-Receipted env now r kind db readable)).answers
                      after y done)));
        }).answers
      db' x answered
