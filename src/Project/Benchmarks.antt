-- ===== src/Project/Benchmarks.antt =====
-- The adopted starting benchmarks, one for each kind of resource, against the table of
-- crates/protocol/src/project.rs.
use hostlet_app.Base.{◌==◌, false, ◌≡◌, refl, some}
use hostlet_app.Project.Spec.{
  ResourceKind, ResourceKind-discrete, account, application_cpu, application_memory, build,
  build_cpu, build_memory, build_timeout, cap_application_connections, concurrent_builds,
  connections, count, database_connections, database_storage, days,
  fail_build_preserve_live_release, fail_excess_ephemeral_writes, gibibytes, hosted_project,
  log_retention, log_storage, mebibytes, millicpu, minutes, monthly_build_execution,
  portfolio_account, portfolio_assets, project_database, project_logs, public_outbound_transfer,
  purchased_slot_billing_month, queue_builds_until_billing_renewal, queue_builds_until_capacity,
  reject_new_assets_preserve_published_revision, reject_oversized_replacement_preserve_current,
  release, report_memory_termination_with_bounded_restart_backoff, retain_current_plus_two_previous,
  retained_successful_releases, rotate_oldest_and_redact_secrets, runtime_release_artifact,
  scratch_storage, static_release_artifact, throttle_cpu, time_out_build_preserve_live_release,
  warn_at_80_and_95_then_limit_public_traffic, warn_at_80_prevent_growth_preserve_reads_and_export,
}
use hostlet_app.Project.Resources.{ExpectedLimit, find_limit, expected_limit}

-- The adopted starting benchmark of each kind of resource.
unfoldable pub benchmark : ResourceKind → ExpectedLimit
benchmark application_memory = record {
  resource = application_memory;
  amount = 512;
  unit = mebibytes;
  scope = hosted_project;
  enforcement = report_memory_termination_with_bounded_restart_backoff;
}
benchmark application_cpu = record {
  resource = application_cpu;
  amount = 250;
  unit = millicpu;
  scope = hosted_project;
  enforcement = throttle_cpu;
}
benchmark database_storage = record {
  resource = database_storage;
  amount = 1;
  unit = gibibytes;
  scope = project_database;
  enforcement = warn_at_80_prevent_growth_preserve_reads_and_export;
}
benchmark database_connections = record {
  resource = database_connections;
  amount = 10;
  unit = connections;
  scope = project_database;
  enforcement = cap_application_connections;
}
benchmark scratch_storage = record {
  resource = scratch_storage;
  amount = 256;
  unit = mebibytes;
  scope = hosted_project;
  enforcement = fail_excess_ephemeral_writes;
}
benchmark build_cpu = record {
  resource = build_cpu;
  amount = 2000;
  unit = millicpu;
  scope = build;
  enforcement = fail_build_preserve_live_release;
}
benchmark build_memory = record {
  resource = build_memory;
  amount = 2;
  unit = gibibytes;
  scope = build;
  enforcement = fail_build_preserve_live_release;
}
benchmark build_timeout = record {
  resource = build_timeout;
  amount = 10;
  unit = minutes;
  scope = build;
  enforcement = time_out_build_preserve_live_release;
}
benchmark concurrent_builds = record {
  resource = concurrent_builds;
  amount = 1;
  unit = count;
  scope = account;
  enforcement = queue_builds_until_capacity;
}
benchmark monthly_build_execution = record {
  resource = monthly_build_execution;
  amount = 60;
  unit = minutes;
  scope = purchased_slot_billing_month;
  enforcement = queue_builds_until_billing_renewal;
}
benchmark static_release_artifact = record {
  resource = static_release_artifact;
  amount = 250;
  unit = mebibytes;
  scope = release;
  enforcement = reject_oversized_replacement_preserve_current;
}
benchmark runtime_release_artifact = record {
  resource = runtime_release_artifact;
  amount = 1;
  unit = gibibytes;
  scope = release;
  enforcement = reject_oversized_replacement_preserve_current;
}
benchmark retained_successful_releases = record {
  resource = retained_successful_releases;
  amount = 3;
  unit = count;
  scope = hosted_project;
  enforcement = retain_current_plus_two_previous;
}
benchmark public_outbound_transfer = record {
  resource = public_outbound_transfer;
  amount = 10;
  unit = gibibytes;
  scope = purchased_slot_billing_month;
  enforcement = warn_at_80_and_95_then_limit_public_traffic;
}
benchmark portfolio_assets = record {
  resource = portfolio_assets;
  amount = 100;
  unit = mebibytes;
  scope = portfolio_account;
  enforcement = reject_new_assets_preserve_published_revision;
}
benchmark log_storage = record {
  resource = log_storage;
  amount = 100;
  unit = mebibytes;
  scope = project_logs;
  enforcement = rotate_oldest_and_redact_secrets;
}
benchmark log_retention = record {
  resource = log_retention;
  amount = 7;
  unit = days;
  scope = project_logs;
  enforcement = rotate_oldest_and_redact_secrets;
}

pub expected-benchmark : (kind : ResourceKind) → expected_limit kind ≡ some (benchmark kind)
unfolding expected_limit find_limit benchmark ResourceKind-discrete
expected-benchmark application_memory = refl
expected-benchmark application_cpu = refl
expected-benchmark database_storage = refl
expected-benchmark database_connections = refl
expected-benchmark scratch_storage = refl
expected-benchmark build_cpu = refl
expected-benchmark build_memory = refl
expected-benchmark build_timeout = refl
expected-benchmark concurrent_builds = refl
expected-benchmark monthly_build_execution = refl
expected-benchmark static_release_artifact = refl
expected-benchmark runtime_release_artifact = refl
expected-benchmark retained_successful_releases = refl
expected-benchmark public_outbound_transfer = refl
expected-benchmark portfolio_assets = refl
expected-benchmark log_storage = refl
expected-benchmark log_retention = refl

pub benchmark-resource : (kind : ResourceKind) → (benchmark kind).resource ≡ kind
unfolding benchmark
benchmark-resource application_memory = refl
benchmark-resource application_cpu = refl
benchmark-resource database_storage = refl
benchmark-resource database_connections = refl
benchmark-resource scratch_storage = refl
benchmark-resource build_cpu = refl
benchmark-resource build_memory = refl
benchmark-resource build_timeout = refl
benchmark-resource concurrent_builds = refl
benchmark-resource monthly_build_execution = refl
benchmark-resource static_release_artifact = refl
benchmark-resource runtime_release_artifact = refl
benchmark-resource retained_successful_releases = refl
benchmark-resource public_outbound_transfer = refl
benchmark-resource portfolio_assets = refl
benchmark-resource log_storage = refl
benchmark-resource log_retention = refl

pub benchmark-IsPositive : (kind : ResourceKind) → ((benchmark kind).amount == 0) ≡ false
unfolding benchmark
benchmark-IsPositive application_memory = refl
benchmark-IsPositive application_cpu = refl
benchmark-IsPositive database_storage = refl
benchmark-IsPositive database_connections = refl
benchmark-IsPositive scratch_storage = refl
benchmark-IsPositive build_cpu = refl
benchmark-IsPositive build_memory = refl
benchmark-IsPositive build_timeout = refl
benchmark-IsPositive concurrent_builds = refl
benchmark-IsPositive monthly_build_execution = refl
benchmark-IsPositive static_release_artifact = refl
benchmark-IsPositive runtime_release_artifact = refl
benchmark-IsPositive retained_successful_releases = refl
benchmark-IsPositive public_outbound_transfer = refl
benchmark-IsPositive portfolio_assets = refl
benchmark-IsPositive log_storage = refl
benchmark-IsPositive log_retention = refl
