-- ===== src/Project/Validate.antt =====
-- `StandardProjectSpec::validate` of crates/protocol/src/project.rs.
use hostlet_app.Base.{
  ℕ, ◌+◌, not, Option, none, some, List, [], ◌∷◌, ◌++◌, ◌==◌, length, if◌then◌else◌,
}
use hostlet_app.Base.Text.{Text, codes, text_eq, is_empty}
use hostlet_app.Project.Spec.{
  RepositorySpec, StandardProjectSpec, npm, same, PackageManager-discrete, project_contract_version,
  max_relative_path_bytes,
}
use hostlet_app.Project.Issues.{
  ProjectValidationIssue, contract_version, repositories, repository_field, package_manager,
  lockfile_path, unsupported_contract_version, repository_count, missing_lockfile,
  unsupported_lockfile, unsafe_lockfile_path, issue, issue_if,
}
use hostlet_app.Project.Paths.{safe_relative_path, file_name, bounded_text}
use hostlet_app.Project.Services.{validate_services}
use hostlet_app.Project.Resources.{validate_resources}

-- The arms of the match on the lockfile's path, in order.
unfoldable pub lockfile_issues : ℕ → Option Text → List ProjectValidationIssue
unfolding safe_relative_path file_name text_eq
lockfile_issues index none = issue missing_lockfile (repository_field index lockfile_path)
lockfile_issues index (some path) =
    if is_empty path
    then issue missing_lockfile (repository_field index lockfile_path)
    else if not (safe_relative_path path)
    then issue unsafe_lockfile_path (repository_field index lockfile_path)
    else issue_if (not (text_eq (file_name path) (codes "package-lock.json"))) unsupported_lockfile
        (repository_field index lockfile_path)

unfoldable pub repository_issues : ℕ → RepositorySpec → List ProjectValidationIssue
unfolding lockfile_issues bounded_text
repository_issues index r =
    issue_if (not (same PackageManager-discrete r.package_manager npm)) unsupported_lockfile
      (repository_field index package_manager)
    ++ (lockfile_issues index r.lockfile_path
        ++ bounded_text r.lockfile_path max_relative_path_bytes
            (repository_field index lockfile_path))

unfoldable pub repositories_from : ℕ → List RepositorySpec → List ProjectValidationIssue
unfolding repository_issues
repositories_from index [] = []
repositories_from index (r ∷ rs) = repository_issues index r ++ repositories_from (index + 1) rs

unfoldable pub validate_repositories : List RepositorySpec → List ProjectValidationIssue
unfolding repositories_from
validate_repositories rs =
    issue_if (not (length rs == 1)) repository_count repositories ++ repositories_from 0 rs

unfoldable pub validate : StandardProjectSpec → List ProjectValidationIssue
unfolding text_eq validate_repositories validate_services validate_resources
validate p =
    issue_if (not (text_eq p.contract_version project_contract_version))
      unsupported_contract_version contract_version
    ++ (validate_repositories p.repositories
        ++ (validate_services p.services ++ validate_resources p.resources.limits))
