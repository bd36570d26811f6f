-- ===== src/Project/Tests.antt =====
-- A project that crates/protocol/src/project.rs accepts, some that it refuses, and the witnesses.
use hostlet_app.Base.{List, ◌≡◌, refl, true, false, none, some, [], ◌∷◌, map}
use hostlet_app.Base.Table.{select_all}
use hostlet_app.Base.Text.{codes, split, text_eq, len, bytes}
use hostlet_app.Project.Spec.{
  BenchmarkLimit, ServiceSpec, StandardProjectSpec, static_frontend, application, postgres,
  vite_static, node_http, postgresql18, http, single_project, npm, project_contract_version,
  build_cpu, ResourceKind-discrete, ResourceUnit-discrete, ResourceScope-discrete,
  EnforcementBehavior-discrete, LimitStatus-discrete, FrameworkPattern-discrete,
  HealthCheckProtocol-discrete, PackageManager-discrete, ResourceKind, application_memory,
  application_cpu, database_storage, database_connections, scratch_storage, build_memory,
  build_timeout, concurrent_builds, monthly_build_execution, static_release_artifact,
  runtime_release_artifact, retained_successful_releases, public_outbound_transfer,
  portfolio_assets, log_storage, log_retention,
}
use hostlet_app.Project.Paths.{
  safe_relative_path, plain_segment, safe_http_path, file_name, bounded_text, require_text,
  require_safe_path,
}
use hostlet_app.Project.PathLaws.{StaysInside, safe_relative_path-StaysInside}
use hostlet_app.Project.Resources.{
  expected_limits, expected_limit, find_limit, amount_issues, limit_issues, checked_limit,
  missing_limits, limits_from, validate_resources, ExpectedLimit,
}
use hostlet_app.Project.Benchmarks.{benchmark}
use hostlet_app.Project.ResourceChecks.{validate_resources_complete}
use hostlet_app.Project.ResourceLaws.{adopt, of_kind, validate_resources-exact}
use hostlet_app.Project.Services.{
  tally, count_limit, tally_issues, common_issues, bad_name, kind_issues, static_issues,
  application_issues, postgres_issues, validate_source_service, validate_node, services_from,
  validate_services,
}
use hostlet_app.Project.ServiceLaws.{IsStandard, validate_services-IsStandard}
use hostlet_app.Project.Validate.{
  lockfile_issues, repository_issues, repositories_from, validate_repositories, validate,
}
use hostlet_app.Project.PlaceLaws.{IsAccepted, validate-IsAccepted}

abbrev web : ServiceSpec
web = record {
  name = codes "web";
  kind = static_frontend;
  root = some (codes "apps/web");
  framework = vite_static;
  node = some (record { major = 24 });
  build_command = some (codes "npm run build");
  output_directory = some (codes "dist");
  start_command = none;
  health_check = none;
  uses_durable_data = false;
}

abbrev api : ServiceSpec
api = record {
  name = codes "api";
  kind = application;
  root = some (codes ".");
  framework = node_http;
  node = some (record { major = 22 });
  build_command = none;
  output_directory = none;
  start_command = some (codes "node server.js");
  health_check = some (record { protocol = http; path = codes "/healthz" });
  uses_durable_data = true;
}

abbrev database : ServiceSpec
database = record {
  name = codes "db";
  kind = postgres;
  root = none;
  framework = postgresql18;
  node = none;
  build_command = none;
  output_directory = none;
  start_command = none;
  health_check = none;
  uses_durable_data = false;
}

abbrev project : StandardProjectSpec
project = record {
  contract_version = project_contract_version;
  repositories =
      record {
        layout = single_project;
        package_manager = npm;
        lockfile_path = some (codes "apps/package-lock.json");
      }
      ∷ [];
  services = web ∷ api ∷ database ∷ [];
  resources = record { limits = map adopt expected_limits };
}

inside_path : safe_relative_path (codes "apps/web") ≡ true
unfolding safe_relative_path plain_segment split text_eq
inside_path = refl

climbing_path : safe_relative_path (codes "apps/../../etc") ≡ false
unfolding safe_relative_path plain_segment split text_eq
climbing_path = refl

limits_accepted : validate_resources (map adopt expected_limits) ≡ []
unfolding validate_resources limits_from missing_limits checked_limit limit_issues amount_issues
    expected_limit find_limit ResourceKind-discrete ResourceUnit-discrete ResourceScope-discrete
    EnforcementBehavior-discrete LimitStatus-discrete
limits_accepted = refl

services_accepted : validate_services (web ∷ api ∷ database ∷ []) ≡ []
unfolding validate_services services_from tally_issues tally count_limit common_issues bad_name
    kind_issues static_issues application_issues postgres_issues validate_source_service
    validate_node require_text require_safe_path bounded_text safe_relative_path plain_segment
    safe_http_path split text_eq len bytes FrameworkPattern-discrete HealthCheckProtocol-discrete
services_accepted = refl

repository_accepted : validate_repositories project.repositories ≡ []
unfolding validate_repositories repositories_from repository_issues lockfile_issues file_name
    bounded_text safe_relative_path plain_segment split text_eq len bytes PackageManager-discrete
repository_accepted = refl

project_accepted : validate project ≡ []
unfolding validate text_eq
project_accepted = rw (repository_accepted, services_accepted, limits_accepted) refl

safe_relative_path-StaysInside_example : StaysInside (codes "apps/web")
safe_relative_path-StaysInside_example =
    safe_relative_path-StaysInside (codes "apps/web") inside_path

validate_resources-exact_example :
    select_all (of_kind build_cpu) (map adopt expected_limits) ≡ adopt (benchmark build_cpu) ∷ []
validate_resources-exact_example =
    validate_resources-exact (map adopt expected_limits) build_cpu limits_accepted

validate_services-IsStandard_example : IsStandard (web ∷ api ∷ database ∷ [])
validate_services-IsStandard_example =
    validate_services-IsStandard (web ∷ api ∷ database ∷ []) services_accepted

validate-IsAccepted_example : IsAccepted project
validate-IsAccepted_example = validate-IsAccepted project project_accepted

-- The benchmarks from the last to the first.
abbrev backwards : List ExpectedLimit → List BenchmarkLimit → List BenchmarkLimit
backwards [] ls = ls
backwards (e ∷ es) ls = backwards es (adopt e ∷ ls)

each_once :
    (kind : ResourceKind)
    → select_all (of_kind kind) (backwards expected_limits []) ≡ adopt (benchmark kind) ∷ []
unfolding select_all benchmark ResourceKind-discrete
each_once application_memory = refl
each_once application_cpu = refl
each_once database_storage = refl
each_once database_connections = refl
each_once scratch_storage = refl
each_once build_cpu = refl
each_once build_memory = refl
each_once build_timeout = refl
each_once concurrent_builds = refl
each_once monthly_build_execution = refl
each_once static_release_artifact = refl
each_once runtime_release_artifact = refl
each_once retained_successful_releases = refl
each_once public_outbound_transfer = refl
each_once portfolio_assets = refl
each_once log_storage = refl
each_once log_retention = refl

validate_resources_complete_example : validate_resources (backwards expected_limits []) ≡ []
validate_resources_complete_example =
    validate_resources_complete (backwards expected_limits []) each_once
