-- ===== src/Admission/Context.antt =====
-- The checks of crates/control/src/admission.rs that a hold passes: entitlement, allowance, revision,
-- source proof, source context and lifecycle. `clock n` is the handler's n-th reading of the
-- database's clock.
use hostlet_app.Base.{
  ℕ, ◌+◌, Bool, true, false, ◌&&◌, ◌||◌, Option, none, some, any, ltb, leb, ◌==◌, is_some_of,
  if◌then◌else◌,
}
use hostlet_app.Base.Text.{Text, text_eq}
use hostlet_app.Base.Table.{select}
use hostlet_app.Api.{
  ApiError, Result, ok, err, ◌>>=◌, ◌>>◌, guard, not_found, stale_revision, conflict,
  database_unavailable,
}
use hostlet_app.Admission.Model.{
  HoldKind, EntitlementState, ProofState, Lifecycle, LifecycleKind, EntitlementRow, ProofRow,
  ProjectRow, DeploymentRow, LifecycleIntentRow, UserAuthorizationRow, InstallationRow, BindingRow,
  SourceRevisionRow, Tables,
}
use hostlet_app.Admission.Store.{
  is_pool, of_account, account_slot_use, pool_slot_use, pool_rollout_use, usage_totals,
}

abbrev pub entitled : ℕ → Text → EntitlementRow → Bool
entitled account key e = e.account_id == account && text_eq e.capacity_pool_key key

-- A row read by key, or an error.
abbrev pub found : {A : Type 0} → Option A → ApiError → Result A
found none e = err e
found (some a) e = ok a

unfoldable pub lock_entitlement_and_pool : Tables → ℕ → Result EntitlementRow
lock_entitlement_and_pool db account = do
  key ← found (select (of_account account) db.entitlements) (conflict "entitlement_unavailable")
  locked ←
      found (select (is_pool key.capacity_pool_key) db.pools) (conflict "entitlement_unavailable")
  found (select (entitled account key.capacity_pool_key) db.entitlements)
      (conflict "entitlement_unavailable")

abbrev pub entitlement_active : EntitlementState → Bool
entitlement_active EntitlementState.active = true
entitlement_active _ = false

unfoldable pub ensure_entitlement_active : ℕ → EntitlementRow → Result (Unit {0})
ensure_entitlement_active now e =
    guard (entitlement_active e.state && (leb e.period_starts_at now && ltb now e.period_ends_at))
      (conflict "entitlement_unavailable")

-- `debited - credited >= limit`, on integers.
unfoldable pub ensure_build_allowance : Tables → ℕ → EntitlementRow → Result (Unit {0})
unfolding usage_totals
ensure_build_allowance db account e =
    let (debited, credited) = usage_totals db account in
    guard (ltb debited (e.build_seconds_limit + credited)) (conflict "build_allowance_exhausted")

abbrev pub is_project : ℕ → ℕ → ProjectRow → Bool
is_project account project p = p.account_id == account && p.id == project

unfoldable pub lock_project_revision : Tables → ℕ → ℕ → ℕ → Result (Unit {0})
lock_project_revision db account project expected = do
  p ← found (select (is_project account project) db.projects) not_found
  guard (p.revision == expected) stale_revision

abbrev pub is_deployment : ℕ → ℕ → ℕ → DeploymentRow → Bool
is_deployment account project id d =
    d.account_id == account && (d.project_id == project && d.id == id)

abbrev pub is_healthy : Lifecycle → Bool
is_healthy Lifecycle.healthy = true
is_healthy _ = false

abbrev pub awaits_admission : Lifecycle → Bool
awaits_admission Lifecycle.admission_required = true
awaits_admission _ = false

abbrev pub is_rollback : LifecycleKind → Bool
is_rollback LifecycleKind.rollback = true
is_rollback LifecycleKind.removal = false

abbrev current_configuration : ℕ → ℕ → ℕ → ProjectRow → Bool
current_configuration account project configuration p =
    is_project account project p && is_some_of p.current_configuration_revision_id configuration

abbrev rollback_target : ℕ → ℕ → ℕ → LifecycleIntentRow → Bool
rollback_target account project deployment i =
    i.account_id == account
    && (i.project_id == project
        && (is_rollback i.kind && (i.requested && is_some_of i.target_deployment_id deployment)))

abbrev healthy_source : ℕ → ℕ → ℕ → ℕ → Text → DeploymentRow → Bool
healthy_source account project deployment configuration commit d =
    is_deployment account project deployment d
    && (is_healthy d.lifecycle
        && (d.configuration_revision_id == configuration && text_eq d.source_commit commit))

-- The project's current configuration, or the exact source of the healthy deployment that a
-- requested rollback goes to.
unfoldable pub current_or_rollback : Tables → ℕ → ℕ → ℕ → ℕ → Text → Bool
current_or_rollback db account project deployment configuration commit =
    any (current_configuration account project configuration) db.projects
    || (any (rollback_target account project deployment) db.intents
        && any (healthy_source account project deployment configuration commit) db.deployments)

abbrev of_project : ℕ → ℕ → BindingRow → Bool
of_project account project b = b.account_id == account && b.project_id == project

-- token_expires_at IS NULL OR token_expires_at > clock_timestamp().
abbrev token_live : ℕ → Option ℕ → Bool
token_live now none = true
token_live now (some expires) = ltb now expires

abbrev authorizes : ℕ → ℕ → UserAuthorizationRow → Bool
authorizes account now a =
    a.account_id == account && (a.active && token_live now a.token_expires_at)

abbrev active_binding : ℕ → ℕ → BindingRow → Bool
active_binding account project b = of_project account project b && b.active

abbrev installed : ℕ → InstallationRow → Bool
installed id i = i.installation_id == id && i.active

abbrev same_binding : BindingRow → ℕ → ℕ → BindingRow → Bool
same_binding b account project c =
    c.id == b.id
    && (active_binding account project c
        && (c.repository_id == b.repository_id && c.installation_id == b.installation_id))

abbrev owner_resolved : BindingRow → ℕ → ℕ → ℕ → Text → SourceRevisionRow → Bool
owner_resolved b account project configuration commit s =
    s.binding_id == b.id
    && (s.account_id == account
        && (s.project_id == project
            && (s.repository_id == b.repository_id
                && (s.owner_resolve
                    && (s.configuration_revision_id == configuration
                        && text_eq s.commit_sha commit)))))

-- A project that was ever bound to a repository needs the whole chain: user, installation,
-- binding and the exact revision that the owner resolved.
unfoldable pub ensure_github_source : ℕ → Tables → ℕ → ℕ → ℕ → Text → Result (Unit {0})
ensure_github_source now db account project configuration commit = do
  guard (any (authorizes account now) db.user_authorizations)
      (conflict "github_source_not_authorized")
  b ←
      found (select (active_binding account project) db.bindings)
        (conflict "github_source_not_authorized")
  guard (any (installed b.installation_id) db.installations)
      (conflict "github_source_not_authorized")
  guard (any (same_binding b account project) db.bindings) (conflict "github_source_not_authorized")
  guard (any (owner_resolved b account project configuration commit) db.source_revisions)
      (conflict "github_source_not_authorized")

unfoldable pub ensure_source_context : ℕ → Tables → ℕ → ℕ → ℕ → ℕ → Text → Result (Unit {0})
unfolding current_or_rollback ensure_github_source
ensure_source_context now db account project deployment configuration commit =
    guard (current_or_rollback db account project deployment configuration commit)
      (conflict "admission_source_stale")
    >> (if any (of_project account project) db.bindings
        then ensure_github_source now db account project configuration commit
        else ok tt)

abbrev pub proof_valid : ProofState → Bool
proof_valid ProofState.valid = true
proof_valid _ = false

abbrev is_proof : ℕ → ℕ → ℕ → ℕ → ProofRow → Bool
is_proof id account project deployment p =
    p.id == id
    && (p.account_id == account && (p.project_id == project && p.deployment_id == deployment))

unfoldable pub validate_source_proof : (ℕ → ℕ) → Tables → ℕ → ℕ → ℕ → ℕ → Result (Unit {0})
unfolding ensure_source_context
validate_source_proof clock db account project deployment id = do
  p ←
      found (select (is_proof id account project deployment) db.proofs)
        (conflict "admission_source_stale")
  d ← found (select (is_deployment account project deployment) db.deployments) not_found
  guard
      (p.deployment_id == deployment
        && (p.configuration_revision_id == d.configuration_revision_id
            && (proof_valid p.state && ltb (clock 0) p.expires_at)))
      (conflict "admission_source_stale")
  ensure_source_context (clock 1) db account project deployment p.configuration_revision_id
      p.source_commit

abbrev pending_intent : ℕ → ℕ → LifecycleIntentRow → Bool
pending_intent account project i =
    i.account_id == account && (i.project_id == project && i.requested)

-- A pending rollback to this deployment, by its kind and its target.
abbrev pub rolls_back_to : ℕ → LifecycleIntentRow → Bool
rolls_back_to deployment i = is_rollback i.kind && is_some_of i.target_deployment_id deployment

unfoldable pub lifecycle_allows : Lifecycle → ℕ → Option LifecycleIntentRow → Result (Unit {0})
lifecycle_allows lifecycle deployment none =
    guard (awaits_admission lifecycle) (conflict "deployment_not_admissible")
lifecycle_allows lifecycle deployment (some i) =
    guard (rolls_back_to deployment i && is_healthy lifecycle) (conflict "lifecycle_intent_pending")

unfoldable pub ensure_lifecycle_allows_hold : Tables → ℕ → ℕ → ℕ → Result (Unit {0})
unfolding lifecycle_allows
ensure_lifecycle_allows_hold db account project deployment = do
  d ← found (select (is_deployment account project deployment) db.deployments) not_found
  lifecycle_allows d.lifecycle deployment (select (pending_intent account project) db.intents)

-- `fetch_one` fails where the pool has no row.
unfoldable pub ensure_capacity_available :
    Tables → ℕ → EntitlementRow → HoldKind → Result (Unit {0})
unfolding account_slot_use pool_slot_use pool_rollout_use
ensure_capacity_available db account e HoldKind.initial = do
  guard (ltb (account_slot_use db account) e.hosted_slot_limit)
      (conflict "entitlement_capacity_exhausted")
  p ← found (select (is_pool e.capacity_pool_key) db.pools) database_unavailable
  guard (ltb (pool_slot_use db e.capacity_pool_key) p.hosted_slot_limit)
      (conflict "platform_capacity_exhausted")
ensure_capacity_available db account e HoldKind.rollout = do
  p ← found (select (is_pool e.capacity_pool_key) db.pools) database_unavailable
  guard (ltb (pool_rollout_use db e.capacity_pool_key) p.rollout_headroom_limit)
      (conflict "rollout_capacity_exhausted")
