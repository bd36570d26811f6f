-- ===== src/Jobs/IntentLaws.antt =====
-- Idempotency keys, crates/control/src/intent.rs: `store_replay` against `replay`, and the end
-- of the owner's handlers that use them.
use hostlet_app.Base.{
  ℕ, ◌≡◌, inl, inr, refl, subst, true, Option, some, any, if◌then◌else◌, Bool-cases, Option-cases,
  arith,
}
use hostlet_app.Base.Text.{Text, text_eq, text_eq_refl}
use hostlet_app.Base.Table.{select, select-append}
use hostlet_app.Api.{ok, database_unavailable}
use hostlet_app.Jobs.Model.{Database, IdempotencyRow}
use hostlet_app.Jobs.Messages.{JobRecord, Env}
use hostlet_app.Api.Transactions.{found_or}
use hostlet_app.Jobs.Intent.{matched, changed, is_record, replay, store_replay}
use mathlib.Core.Option.{some-injective}
use hostlet_app.Jobs.RecordLaws.{KeepsRecords}
use hostlet_app.Api.Answers.{Answers, Answers-ok, Answers-found}

abbrev record_of : ℕ → Text → Text → Text → ℕ → Text → IdempotencyRow
record_of actor operation key hash response_status body = record {
  actor_account_id = actor;
  operation = operation;
  key = key;
  request_hash = hash;
  response_status = response_status;
  response_body = body;
}

is_record-same :
    (actor : ℕ) (operation key hash : Text) (n : ℕ) (body : Text)
    → is_record actor operation key (record_of actor operation key hash n body) ≡ true
is_record-same actor operation key hash n body =
    ground (arith, text_eq_refl operation, text_eq_refl key)

-- An answer that was stored under a key is found under it.
store-select :
    (db db' : Database) (actor : ℕ) (operation key hash : Text) (n : ℕ) (body : Text)
    → store_replay db actor operation key hash n body ≡ some db'
    → select (is_record actor operation key) db'.idempotency_records
      ≡ some (record_of actor operation key hash n body)
unfolding store_replay
store-select db db' actor operation key hash n body h =
    elim (Bool-cases (any (is_record actor operation key) db.idempotency_records)) [
      | inl taken ↦ let failed = rw (taken) at h in cc
      | inr new ↦
          let stored = some-injective _ db' (rw (new) at h) in
          subst
            (λ d.
              select (is_record actor operation key) d.idempotency_records
              ≡ some (record_of actor operation key hash n body))
            stored
            (select-append (is_record actor operation key) db.idempotency_records
              (record_of actor operation key hash n body) new
              (is_record-same actor operation key hash n body))
    ]

-- The same request again finds the stored answer; another one under the same key has changed.
pub replay-store_replay :
    {A : Type 0} (parse : Text → Option A) (db db' : Database) (actor : ℕ)
    (operation key hash again : Text) (n : ℕ) (body : Text) (response : A)
    → store_replay db actor operation key hash n body ≡ some db'
    → parse body ≡ some response
    → replay parse db' actor operation key again
      ≡ ok (if text_eq hash again then matched response else changed)
unfolding replay
replay-store_replay parse db db' actor operation key hash again n body response h k =
    rw (replay, store-select db db' actor operation key hash n body h)
      (elim (Bool-cases (text_eq hash again)) [
        | inl same ↦ rw (same, k) refl
        | inr other ↦ rw other refl
      ])

-- While stored answers are kept, a request that finds its answer goes on to find it.
pub replay-KeepsRecords :
    {A : Type 0} (parse : Text → Option A) (db db' : Database) (actor : ℕ)
    (operation key hash : Text) (response : A)
    → KeepsRecords db db'
    → replay parse db actor operation key hash ≡ ok (matched response)
    → replay parse db' actor operation key hash ≡ ok (matched response)
unfolding replay
replay-KeepsRecords parse db db' actor operation key hash response keeps h =
    elim (Option-cases (select (is_record actor operation key) db.idempotency_records)) [
      | inl never ↦ let missed = rw (replay, never) at h in cc
      | inr (r, found) ↦
          let before = rw (replay, found) at h in
          rw (replay, keeps.kept actor operation key r found) before
    ]

-- The answer that is kept for the same request.
abbrev pub KeepsAnswer : Env → ℕ → Text → Text → Text → Database → JobRecord → Type 0
KeepsAnswer env account operation key hash db job =
    env.parse_job (env.json_job job) ≡ some job
    → replay env.parse_job db account operation key hash ≡ ok (matched job)

store_replay-KeepsAnswer :
    (env : Env) (db db' : Database) (account : ℕ) (operation key hash : Text) (n : ℕ)
    (job : JobRecord)
    → store_replay db account operation key hash n (env.json_job job) ≡ some db'
    → KeepsAnswer env account operation key hash db' job
store_replay-KeepsAnswer env db db' account operation key hash n job h readable =
    rw
      (
        replay-store_replay env.parse_job db db' account operation key hash hash n
            (env.json_job job) job h readable,
        text_eq_refl hash,
      )
      refl

module _ (env : Env) where
  -- The end of both handlers: the answer is given once it has been stored.
  pub stored-KeepsAnswer :
      (audited db : Database) (account : ℕ) (operation key hash : Text) (n : ℕ) (job : JobRecord)
      → Answers (KeepsAnswer env account operation key hash) (
          found_or
            (store_replay audited account operation key hash n (env.json_job job))
            database_unavailable
            db
            (λ stored. (stored, ok job)))
  stored-KeepsAnswer audited db account operation key hash n job =
      Answers-found _ (store_replay audited account operation key hash n (env.json_job job)) _ _ _
        λ stored e.
          Answers-ok _ stored job
            (store_replay-KeepsAnswer env audited stored account operation key hash n job e)
