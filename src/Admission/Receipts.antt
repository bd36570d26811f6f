-- ===== src/Admission/Receipts.antt =====
-- The receipts of internal events in crates/control/src/admission.rs: an event that is sent again
-- has the answer that it had. The advisory lock on an event is implied, since a transaction here
-- runs whole.
use hostlet_app.Base.{
  ℕ, Bool, not, ◌&&◌, Option, none, some, [], ◌∷◌, ◌++◌, any, ◌==◌, if◌then◌else◌,
}
use hostlet_app.Base.Text.{Text, text_eq}
use hostlet_app.Base.Table.{select}
use hostlet_app.Api.{Result, ok, err, conflict, internal, database_unavailable}
use hostlet_app.Api.Transactions.{try_ok}
use hostlet_app.Admission.Model.{FixtureKind, ReceiptRow, Tables}
use hostlet_app.Admission.Messages.{Json}
use hostlet_app.Admission.Hold.{AdmissionTx}

abbrev pub same_kind : FixtureKind → FixtureKind → Bool
same_kind k l = code k == code l
  where
    code : FixtureKind → ℕ
    code FixtureKind.capacity = 0
    code FixtureKind.entitlement = 1
    code FixtureKind.source_proof = 2
    code FixtureKind.resource_observation = 3
    code FixtureKind.build_debit = 4
    code FixtureKind.build_credit = 5

abbrev pub is_receipt : ℕ → ReceiptRow → Bool
is_receipt event r = r.event_id == event

unfoldable pub fixture_replay :
    {A : Type 0} → Json A → Tables → ℕ → FixtureKind → Text → Result (Option A)
fixture_replay json db event kind hash = elim (select (is_receipt event) db.receipts) [
  | none ↦ ok none
  | some r ↦
      if not (same_kind r.kind kind && text_eq r.request_hash hash)
      then err (conflict "fixture_event_payload_changed")
      else (elim (json.parse r.response_body) [
        | none ↦ err internal
        | some response ↦ ok (some response)
      ])
]

-- An INSERT under the primary key `event_id`, and the answer.
unfoldable pub store_fixture :
    {A : Type 0} → Json A → ℕ → FixtureKind → Text → A → Tables → Tables → AdmissionTx A
store_fixture json event kind hash response rollback db =
    if any (is_receipt event) db.receipts then (rollback, err database_unavailable) else (
      record db {
        receipts =
            db.receipts
            ++ record {
              event_id = event;
              kind = kind;
              request_hash = hash;
              response_body = json.print response;
            }
              ∷ [];
      },
      ok response,
    )

-- The stored answer, or what a fresh event does.
unfoldable pub with_receipt :
    {A : Type 0} → Json A → ℕ → FixtureKind → Text → Tables → AdmissionTx A → AdmissionTx A
unfolding fixture_replay
with_receipt json event kind hash db fresh =
    try_ok (fixture_replay json db event kind hash) db
      (λ stored. elim stored [ none ↦ fresh | some response ↦ (db, ok response) ])
