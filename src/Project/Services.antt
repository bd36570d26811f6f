-- ===== src/Project/Services.antt =====
-- `validate_services` of crates/protocol/src/project.rs and the checks of one service.
use hostlet_app.Base.{
  ℕ, ◌+◌, Bool, false, not, ◌&&◌, ◌||◌, Option, none, some, List, [], ◌∷◌, ◌++◌, any, ltb, ◌==◌,
  is_some, if◌then◌else◌,
}
use hostlet_app.Base.Text.{Text, len, text_eq, is_blank, is_control}
use hostlet_app.Project.Spec.{
  ServiceSpec, ServiceKind, FrameworkPattern, NodeRuntime, HealthCheck, http, static_frontend,
  application, postgres, worker, scheduled_job, additional_backend, vite_static, static_export,
  node_http, nextjs16_standalone, postgresql18, same, FrameworkPattern-discrete,
  HealthCheckProtocol-discrete, max_service_name_bytes, max_command_bytes, max_relative_path_bytes,
}
use hostlet_app.Project.Issues.{
  ProjectValidationIssue, IssueCode, services, service_field, whole_service, name, kind, root,
  framework, node, node_major, build_command, output_directory, start_command, health_check,
  health_check_path, missing_runnable_service, invalid_service_name, duplicate_service_name,
  unsafe_service_root, extra_static_frontend, extra_application_service, extra_database,
  unsupported_service_kind, unsupported_framework_pattern, missing_node_runtime,
  unsupported_node_version, missing_build_command, missing_output_directory, missing_start_command,
  missing_health_check, unsupported_health_check, database_required, database_without_application,
  unexpected_service_configuration, issue, issue_if,
}
use hostlet_app.Project.Paths.{
  safe_relative_path, safe_http_path, bounded_text, require_text, require_safe_path,
}

unfoldable pub bad_name : Text → Bool
unfolding len
bad_name value = is_blank value || (ltb max_service_name_bytes (len value) || any is_control value)

abbrev unsafe_path : Option Text → Bool
unsafe_path none = false
unsafe_path (some path) = not (safe_relative_path path)

abbrev health_path : Option HealthCheck → Option Text
health_path none = none
health_path (some health) = some health.path

-- What is checked of every service, whatever its kind. `seen` are the names before it.
unfoldable pub common_issues : ℕ → List Text → ServiceSpec → List ProjectValidationIssue
unfolding bad_name bounded_text text_eq safe_relative_path
common_issues index seen s =
    issue_if (bad_name s.name) invalid_service_name (service_field index name)
    ++ (bounded_text s.root max_relative_path_bytes (service_field index root)
        ++ (issue_if (unsafe_path s.root) unsafe_service_root (service_field index root)
            ++ (bounded_text s.output_directory max_relative_path_bytes
                  (service_field index output_directory)
                ++ (bounded_text s.build_command max_command_bytes
                      (service_field index build_command)
                    ++ (bounded_text s.start_command max_command_bytes
                          (service_field index start_command)
                        ++ (bounded_text (health_path s.health_check) max_relative_path_bytes
                              (service_field index health_check_path)
                            ++ issue_if (any (λ n. text_eq n s.name) seen) duplicate_service_name
                                (service_field index name)))))))

unfoldable pub validate_source_service : ℕ → ServiceSpec → List ProjectValidationIssue
validate_source_service index s =
    issue_if (not (is_some s.root)) unsafe_service_root (service_field index root)

abbrev node_issues : ℕ → Option NodeRuntime → List ProjectValidationIssue
node_issues index none = issue missing_node_runtime (service_field index node)
node_issues index (some runtime) =
    issue_if (not (runtime.major == 22 || runtime.major == 24)) unsupported_node_version
      (service_field index node_major)

unfoldable pub validate_node : ℕ → ServiceSpec → List ProjectValidationIssue
validate_node index s = node_issues index s.node

abbrev pub is_framework : FrameworkPattern → FrameworkPattern → Bool
is_framework f g = same FrameworkPattern-discrete f g

unfoldable pub static_issues : ℕ → ServiceSpec → List ProjectValidationIssue
unfolding validate_source_service validate_node require_text require_safe_path
static_issues index s =
    validate_source_service index s
    ++ (validate_node index s
        ++ (issue_if
              (not (is_framework s.framework vite_static || is_framework s.framework static_export))
              unsupported_framework_pattern (service_field index framework)
            ++ (require_text s.build_command missing_build_command
                  (service_field index build_command)
                ++ require_safe_path s.output_directory missing_output_directory
                    (service_field index output_directory))))

abbrev health_issues : ℕ → Option HealthCheck → List ProjectValidationIssue
health_issues index none = issue missing_health_check (service_field index health_check)
health_issues index (some health) =
    issue_if
      (not (same HealthCheckProtocol-discrete health.protocol http)
        || not (safe_http_path health.path))
      unsupported_health_check (service_field index health_check)

unfoldable pub application_issues : ℕ → ServiceSpec → List ProjectValidationIssue
unfolding validate_source_service validate_node require_text safe_http_path
application_issues index s =
    validate_source_service index s
    ++ (validate_node index s
        ++ (issue_if
              (not (
                is_framework s.framework node_http || is_framework s.framework nextjs16_standalone))
              unsupported_framework_pattern (service_field index framework)
            ++ ((if is_framework s.framework nextjs16_standalone
                  then require_text s.build_command missing_build_command
                      (service_field index build_command)
                  else [])
                ++ (require_text s.start_command missing_start_command
                      (service_field index start_command)
                    ++ health_issues index s.health_check))))

-- The managed database takes no configuration.
unfoldable pub postgres_issues : ℕ → ServiceSpec → List ProjectValidationIssue
postgres_issues index s =
    issue_if (not (is_framework s.framework postgresql18)) unsupported_framework_pattern
      (service_field index framework)
    ++ issue_if
        (is_some s.root
          || (is_some s.node
              || (is_some s.build_command
                  || (is_some s.output_directory
                      || (is_some s.start_command
                          || (is_some s.health_check || s.uses_durable_data))))))
        unexpected_service_configuration (whole_service index)

unfoldable pub kind_issues : ServiceKind → ℕ → ServiceSpec → List ProjectValidationIssue
unfolding static_issues application_issues postgres_issues
kind_issues static_frontend index s = static_issues index s
kind_issues application index s = application_issues index s
kind_issues postgres index s = postgres_issues index s
kind_issues worker index s = issue unsupported_service_kind (service_field index kind)
kind_issues scheduled_job index s = issue unsupported_service_kind (service_field index kind)
kind_issues additional_backend index s = issue unsupported_service_kind (service_field index kind)

-- The variables of the loop.
pub record Tally : Type 0 where
  pub service_names : List Text
  pub static_count : ℕ
  pub application_count : ℕ
  pub database_count : ℕ
  pub needs_database : Bool

abbrev pub no_services : Tally
no_services = record {
  service_names = [];
  static_count = 0;
  application_count = 0;
  database_count = 0;
  needs_database = false;
}

abbrev count_kind : ServiceKind → Tally → Tally
count_kind static_frontend t = record t { static_count = t.static_count + 1 }
count_kind application t = record t { application_count = t.application_count + 1 }
count_kind postgres t = record t { database_count = t.database_count + 1 }
count_kind worker t = t
count_kind scheduled_job t = t
count_kind additional_backend t = t

unfoldable pub tally : Tally → ServiceSpec → Tally
tally t s = count_kind s.kind (record t {
  service_names = s.name ∷ t.service_names;
  needs_database = t.needs_database || s.uses_durable_data;
})

unfoldable pub count_limit : ℕ → IssueCode → List ProjectValidationIssue
count_limit count code = issue_if (ltb 1 count) code services

-- What follows the loop.
unfoldable pub tally_issues : Tally → List ProjectValidationIssue
unfolding count_limit
tally_issues t =
    issue_if (t.static_count + t.application_count == 0) missing_runnable_service services
    ++ (count_limit t.static_count extra_static_frontend
        ++ (count_limit t.application_count extra_application_service
            ++ (count_limit t.database_count extra_database
                ++ (issue_if (t.needs_database && t.database_count == 0) database_required services
                    ++ issue_if (ltb 0 t.database_count && t.application_count == 0)
                        database_without_application services))))

unfoldable pub services_from : ℕ → Tally → List ServiceSpec → List ProjectValidationIssue
unfolding common_issues kind_issues tally tally_issues
services_from index t [] = tally_issues t
services_from index t (s ∷ ss) =
    common_issues index t.service_names s
    ++ (kind_issues s.kind index s ++ services_from (index + 1) (tally t s) ss)

unfoldable pub validate_services : List ServiceSpec → List ProjectValidationIssue
unfolding services_from
validate_services ss = services_from 0 no_services ss
