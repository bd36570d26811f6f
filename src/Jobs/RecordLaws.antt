-- ===== src/Jobs/RecordLaws.antt =====
-- The answers stored under idempotency keys, crates/control/src/intent.rs, while the handlers of
-- crates/control/src/jobs.rs go on.
use hostlet_app.Base.{
  ℕ, ◌≡◌, inl, inr, refl, subst, Bool, true, false, Option, none, some, any, if◌then◌else◌,
  Bool-cases,
}
use hostlet_app.Base.Text.{Text}
use hostlet_app.Base.Table.{select, select-before}
use hostlet_app.Api.{ApiError, Result, ok, err}
use mathlib.Core.Option.{some-injective}
use hostlet_app.Jobs.Model.{IdempotencyRow, Database}
use hostlet_app.Api.Transactions.{try_ok, found_or}
use hostlet_app.Jobs.Checks.{Tx}
use hostlet_app.Jobs.Intent.{is_record, store_replay}

-- Every answer that was stored is still found under its key.
pub record KeepsRecords (db db' : Database) : Type 0 where
  pub kept :
      (actor : ℕ) (operation key : Text) (r : IdempotencyRow)
      → select (is_record actor operation key) db.idempotency_records ≡ some r
      → select (is_record actor operation key) db'.idempotency_records ≡ some r

pub same-KeepsRecords :
    (db db' : Database) → db'.idempotency_records ≡ db.idempotency_records → KeepsRecords db db'
same-KeepsRecords db db' e = record { kept = λ actor operation key r h. rw e h }

pub KeepsRecords-trans :
    (db db' db'' : Database) → KeepsRecords db db' → KeepsRecords db' db'' → KeepsRecords db db''
KeepsRecords-trans db db' db'' f g = record {
  kept = λ actor operation key r h. g.kept actor operation key r (f.kept actor operation key r h);
}

pub store_replay-KeepsRecords :
    (audited db db' : Database) (actor : ℕ) (operation key hash : Text) (n : ℕ) (body : Text)
    → audited.idempotency_records ≡ db.idempotency_records
    → store_replay audited actor operation key hash n body ≡ some db'
    → KeepsRecords db db'
unfolding store_replay
store_replay-KeepsRecords audited db db' actor operation key hash n body same h =
    elim (Bool-cases (any (is_record actor operation key) audited.idempotency_records)) [
      | inl taken ↦ let denied = rw (taken) at h in cc
      | inr new ↦ subst (KeepsRecords db) (some-injective _ db' (rw (new) at h)) (record {
        kept = λ a o k r found.
            select-before (is_record a o k) audited.idempotency_records _ r (rw same found);
      })
    ]

-- A transaction keeps the stored answers.
pub record Keeps {X : Type 0} (db : Database) (t : Tx X) : Type 0 where
  pub keeps : KeepsRecords db t.0

module _ {X : Type 0} where
  pub Keeps-stay :
      (db : Database) (t : Tx X) → t.0.idempotency_records ≡ db.idempotency_records → Keeps db t
  Keeps-stay db t e = record { keeps = same-KeepsRecords db t.0 e }

  pub Keeps-if :
      (db : Database) (c : Bool) (x y : Tx X)
      → Keeps db x
      → Keeps db y
      → Keeps db (if c then x else y)
  Keeps-if db true x y first second = first
  Keeps-if db false x y first second = second

  pub Keeps-found :
      {Y : Type 0} (db : Database) (o : Option Y) (e : ApiError) (k : Y → Tx X)
      → ((y : Y) → o ≡ some y → Keeps db (k y))
      → Keeps db (found_or o e db k)
  Keeps-found db none e k good = Keeps-stay db _ refl
  Keeps-found db (some y) e k good = good y refl

  pub Keeps-try :
      {Y : Type 0} (db : Database) (r : Result Y) (k : Y → Tx X)
      → ((y : Y) → Keeps db (k y))
      → Keeps db (try_ok r db k)
  Keeps-try db (err e) k good = Keeps-stay db _ refl
  Keeps-try db (ok y) k good = good y
