-- ===== src/Project/Issues.antt =====
-- The issues of crates/protocol/src/project.rs: a code and the place that it is about. The
-- place stands for the code's path string, with its index as a number; messages are left out.
use hostlet_app.Base.{ℕ, Bool, List, [], ◌∷◌, if◌then◌else◌}

pub data IssueCode : Type 0 where
  unsupported_contract_version repository_count missing_lockfile unsupported_lockfile : IssueCode
  unsafe_lockfile_path missing_runnable_service invalid_service_name : IssueCode
  duplicate_service_name text_field_too_long unsafe_service_root : IssueCode
  extra_static_frontend extra_application_service extra_database : IssueCode
  unsupported_service_kind unsupported_framework_pattern missing_node_runtime : IssueCode
  unsupported_node_version missing_build_command missing_output_directory : IssueCode
  missing_start_command missing_health_check unsupported_health_check : IssueCode
  database_required database_without_application unexpected_service_configuration : IssueCode
  missing_resource_limit duplicate_resource_limit unbounded_resource_limit : IssueCode
  resource_amount_mismatch resource_unit_mismatch resource_scope_mismatch : IssueCode
  resource_enforcement_mismatch resource_not_benchmark_candidate : IssueCode

-- `services[3].root` is `service_field 3 root`.
pub data Field : Type 0 where
  name kind root framework node node_major build_command output_directory : Field
  start_command health_check health_check_path : Field
  package_manager lockfile_path : Field
  resource amount unit scope enforcement status : Field

pub data Place : Type 0 where
  contract_version repositories services resource_limits : Place
  repository_field : ℕ → Field → Place
  service_field : ℕ → Field → Place
  whole_service : ℕ → Place
  limit_field : ℕ → Field → Place

pub record ProjectValidationIssue : Type 0 where
  pub code : IssueCode
  pub path : Place

-- `if condition { issue(issues, code, path, …) }`, as the list of what is pushed.
abbrev pub issue_if : Bool → IssueCode → Place → List ProjectValidationIssue
issue_if condition code path = if condition then record { code = code; path = path } ∷ [] else []

abbrev pub issue : IssueCode → Place → List ProjectValidationIssue
issue code path = record { code = code; path = path } ∷ []
