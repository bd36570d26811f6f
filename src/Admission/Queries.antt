-- ===== src/Admission/Queries.antt =====
-- `get_hold`, `get_reservation`, `get_entitlement` and `reconcile` of
-- crates/control/src/admission.rs.
use hostlet_app.Base.{ℕ, Bool, true, ◌&&◌, ◌||◌, none, some, ltb, ◌==◌}
use hostlet_app.Base.Text.{Text}
use hostlet_app.Base.Table.{select_first}
use hostlet_app.Base.Counts.{number_of}
use hostlet_app.Api.{Result, ok, err, ◌>>=◌, not_found}
use hostlet_app.Admission.Model.{HoldRow, Tables}
use hostlet_app.Admission.Messages.{HoldRecord, ReservationRecord, EntitlementSummary, AdmissionEnv}
use hostlet_app.Admission.Store.{
  load_hold, load_active_reservation, entitlement_summary, expire_holds, due_in,
}
use hostlet_app.Admission.Hold.{path_uuid, AdmissionTx}

-- ORDER BY created_at DESC, id DESC.
abbrev pub newest_first : HoldRow → HoldRow → Bool
newest_first h k = ltb k.created_at h.created_at || (h.created_at == k.created_at && ltb k.id h.id)

abbrev pub of_deployment : ℕ → ℕ → ℕ → HoldRow → Bool
of_deployment account project deployment h =
    h.account_id == account && (h.project_id == project && h.deployment_id == deployment)

unfoldable pub newest_hold : Tables → ℕ → ℕ → ℕ → Result HoldRecord
unfolding select_first load_hold
newest_hold db account project deployment =
    elim (select_first newest_first (of_deployment account project deployment) db.holds) [
      | none ↦ err not_found
      | some h ↦ load_hold db account project h.id
    ]

unfoldable pub get_hold : AdmissionEnv → Tables → ℕ → Text → Text → Result HoldRecord
unfolding newest_hold
get_hold env db account project_path deployment_path = do
  project ← path_uuid env project_path
  deployment ← path_uuid env deployment_path
  newest_hold db account project deployment

unfoldable pub slot_of : Tables → ℕ → ℕ → Result ReservationRecord
unfolding load_active_reservation
slot_of db account project = elim (load_active_reservation db account project) [
  | err e ↦ err e
  | ok none ↦ err not_found
  | ok (some r) ↦ ok r
]

unfoldable pub get_reservation : AdmissionEnv → Tables → ℕ → Text → Result ReservationRecord
unfolding slot_of
get_reservation env db account project_path = do
  project ← path_uuid env project_path
  slot_of db account project

unfoldable pub get_entitlement : Tables → ℕ → Result EntitlementSummary
unfolding entitlement_summary
get_entitlement db account = entitlement_summary db account

abbrev pub everywhere : HoldRow → Bool
everywhere h = true

-- How many holds expired.
unfoldable pub reconcile : ℕ → (ℕ → ℕ) → Tables → AdmissionTx ℕ
unfolding expire_holds number_of
reconcile now ids db =
    (expire_holds everywhere now ids db, ok (number_of (due_in everywhere now) db.holds))
