-- ===== src/Project/Resources.antt =====
-- `validate_resources` of crates/protocol/src/project.rs: the limits are the adopted starting
-- benchmarks, each of them once.
use hostlet_app.Base.{
  ℕ, ◌+◌, Bool, not, Option, none, some, List, [], ◌∷◌, ◌++◌, any, ◌==◌, if◌then◌else◌,
}
use hostlet_app.Project.Spec.{
  ResourceKind, ResourceUnit, ResourceScope, EnforcementBehavior, BenchmarkLimit,
  benchmark_candidate, same, ResourceKind-discrete, ResourceUnit-discrete, ResourceScope-discrete,
  EnforcementBehavior-discrete, LimitStatus-discrete, account, application_cpu, application_memory,
  build, build_cpu, build_memory, build_timeout, cap_application_connections, concurrent_builds,
  connections, count, database_connections, database_storage, days,
  fail_build_preserve_live_release, fail_excess_ephemeral_writes, gibibytes, hosted_project,
  log_retention, log_storage, mebibytes, millicpu, minutes, monthly_build_execution,
  portfolio_account, portfolio_assets, project_database, project_logs, public_outbound_transfer,
  purchased_slot_billing_month, queue_builds_until_billing_renewal, queue_builds_until_capacity,
  reject_new_assets_preserve_published_revision, reject_oversized_replacement_preserve_current,
  release, report_memory_termination_with_bounded_restart_backoff, retain_current_plus_two_previous,
  retained_successful_releases, rotate_oldest_and_redact_secrets, runtime_release_artifact,
  scratch_storage, static_release_artifact, throttle_cpu, time_out_build_preserve_live_release,
  warn_at_80_and_95_then_limit_public_traffic, warn_at_80_prevent_growth_preserve_reads_and_export,
}
use hostlet_app.Project.Issues.{
  ProjectValidationIssue, resource_limits, limit_field, resource, amount, unit, scope, enforcement,
  status, missing_resource_limit, duplicate_resource_limit, unbounded_resource_limit,
  resource_amount_mismatch, resource_unit_mismatch, resource_scope_mismatch,
  resource_enforcement_mismatch, resource_not_benchmark_candidate, issue, issue_if,
}

pub record ExpectedLimit : Type 0 where
  pub resource : ResourceKind
  pub amount : ℕ
  pub unit : ResourceUnit
  pub scope : ResourceScope
  pub enforcement : EnforcementBehavior

abbrev expected :
    ResourceKind → ℕ → ResourceUnit → ResourceScope → EnforcementBehavior → ExpectedLimit
expected kind n u s e = record { resource = kind; amount = n; unit = u; scope = s; enforcement = e }

abbrev pub expected_limits : List ExpectedLimit
expected_limits =
    expected application_memory 512 mebibytes hosted_project
      report_memory_termination_with_bounded_restart_backoff
    ∷ expected application_cpu 250 millicpu hosted_project throttle_cpu
    ∷ expected database_storage 1 gibibytes project_database
        warn_at_80_prevent_growth_preserve_reads_and_export
    ∷ expected database_connections 10 connections project_database cap_application_connections
    ∷ expected scratch_storage 256 mebibytes hosted_project fail_excess_ephemeral_writes
    ∷ expected build_cpu 2000 millicpu build fail_build_preserve_live_release
    ∷ expected build_memory 2 gibibytes build fail_build_preserve_live_release
    ∷ expected build_timeout 10 minutes build time_out_build_preserve_live_release
    ∷ expected concurrent_builds 1 count account queue_builds_until_capacity
    ∷ expected monthly_build_execution 60 minutes purchased_slot_billing_month
        queue_builds_until_billing_renewal
    ∷ expected static_release_artifact 250 mebibytes release
        reject_oversized_replacement_preserve_current
    ∷ expected runtime_release_artifact 1 gibibytes release
        reject_oversized_replacement_preserve_current
    ∷ expected retained_successful_releases 3 count hosted_project retain_current_plus_two_previous
    ∷ expected public_outbound_transfer 10 gibibytes purchased_slot_billing_month
        warn_at_80_and_95_then_limit_public_traffic
    ∷ expected portfolio_assets 100 mebibytes portfolio_account
        reject_new_assets_preserve_published_revision
    ∷ expected log_storage 100 mebibytes project_logs rotate_oldest_and_redact_secrets
    ∷ expected log_retention 7 days project_logs rotate_oldest_and_redact_secrets
    ∷ []

unfoldable pub find_limit : ResourceKind → List ExpectedLimit → Option ExpectedLimit
find_limit kind [] = none
find_limit kind (e ∷ es) =
    if same ResourceKind-discrete e.resource kind then some e else find_limit kind es

unfoldable pub expected_limit : ResourceKind → Option ExpectedLimit
unfolding find_limit
expected_limit kind = find_limit kind expected_limits

unfoldable pub amount_issues : ℕ → Option ℕ → ExpectedLimit → List ProjectValidationIssue
amount_issues index none e = issue unbounded_resource_limit (limit_field index amount)
amount_issues index (some n) e =
    if n == 0
    then issue unbounded_resource_limit (limit_field index amount)
    else issue_if (not (n == e.amount)) resource_amount_mismatch (limit_field index amount)

-- The checks of one limit against its benchmark.
unfoldable pub limit_issues : ℕ → BenchmarkLimit → ExpectedLimit → List ProjectValidationIssue
unfolding amount_issues
limit_issues index l e =
    amount_issues index l.amount e
    ++ (issue_if (not (same ResourceUnit-discrete l.unit e.unit)) resource_unit_mismatch
          (limit_field index unit)
        ++ (issue_if (not (same ResourceScope-discrete l.scope e.scope)) resource_scope_mismatch
              (limit_field index scope)
            ++ (issue_if (not (same EnforcementBehavior-discrete l.enforcement e.enforcement))
                  resource_enforcement_mismatch (limit_field index enforcement)
                ++ issue_if (not (same LimitStatus-discrete l.status benchmark_candidate))
                    resource_not_benchmark_candidate (limit_field index status))))

abbrev pub known : ResourceKind → List ResourceKind → Bool
known kind kinds = any (λ k. same ResourceKind-discrete k kind) kinds

-- A kind with no benchmark is passed over.
unfoldable pub checked_limit :
    ℕ → BenchmarkLimit → Option ExpectedLimit → List ProjectValidationIssue
unfolding limit_issues
checked_limit index l none = []
checked_limit index l (some e) = limit_issues index l e

-- What follows the loop: a benchmark that was not seen is missing.
unfoldable pub missing_limits : List ResourceKind → List ExpectedLimit → List ProjectValidationIssue
missing_limits seen [] = []
missing_limits seen (e ∷ es) =
    issue_if (not (known e.resource seen)) missing_resource_limit resource_limits
    ++ missing_limits seen es

-- The loop over the limits, from `index` on, with the kinds that were seen.
unfoldable pub limits_from :
    ℕ → List ResourceKind → List BenchmarkLimit → List ProjectValidationIssue
unfolding missing_limits checked_limit expected_limit
limits_from index seen [] = missing_limits seen expected_limits
limits_from index seen (l ∷ ls) =
    let rest =
      limits_from (index + 1) (if known l.resource seen then seen else l.resource ∷ seen) ls in
    if known l.resource seen
    then issue duplicate_resource_limit (limit_field index resource) ++ rest
    else checked_limit index l (expected_limit l.resource) ++ rest

unfoldable pub validate_resources : List BenchmarkLimit → List ProjectValidationIssue
unfolding limits_from
validate_resources limits = limits_from 0 [] limits
