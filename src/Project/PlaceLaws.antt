-- ===== src/Project/PlaceLaws.antt =====
-- The whole project: `validate` of crates/protocol/src/project.rs against a description of an
-- accepted project, its repository, its places and its parts.
use hostlet_app.Base.{
  ℕ, ◌+◌, ◌≡◌, refl, true, not, Option, none, some, List, [], ◌∷◌, ◌++◌, All, arith,
}
use hostlet_app.Base.Text.{Text, codes, text_eq, text_eq→eq}
use hostlet_app.Project.Spec.{
  ResourceKind, ServiceSpec, ServiceKind, RepositorySpec, StandardProjectSpec, npm, static_frontend,
  application, postgres, worker, scheduled_job, additional_backend, project_contract_version, same,
  same→eq, PackageManager-discrete,
}
use hostlet_app.Project.Issues.{
  unsupported_contract_version, contract_version, issue_if, missing_output_directory, service_field,
  output_directory, IssueCode, Place,
}
use hostlet_app.Project.IssueLaws.{none_left, none_right, none_unless}
use hostlet_app.Project.Paths.{safe_relative_path, file_name, require_safe_path}
use hostlet_app.Project.PathLaws.{StaysInside, safe_relative_path-StaysInside}
use hostlet_app.Project.Services.{
  Tally, no_services, tally, common_issues, kind_issues, static_issues, application_issues,
  postgres_issues, validate_source_service, services_from, validate_services,
}
use hostlet_app.Project.ServiceLaws.{services-turn, IsStandard, validate_services-IsStandard}
use hostlet_app.Project.Resources.{validate_resources}
use hostlet_app.Project.Benchmarks.{benchmark}
use hostlet_app.Project.ResourceLaws.{of_kind, adopt, validate_resources-exact}
use hostlet_app.Base.Table.{select_all}
use hostlet_app.Project.Validate.{
  lockfile_issues, repository_issues, repositories_from, validate_repositories, validate,
}

-- A path is given and stays inside.
unfoldable pub GivenInside : Option Text → Type 0
GivenInside none = ⊥
GivenInside (some path) = StaysInside path

-- The paths that a service of each kind has to give. An application's output directory is of any
-- form: the code bounds its length alone.
unfoldable pub IsPlaced : ServiceKind → ServiceSpec → Type 0
unfolding GivenInside
IsPlaced static_frontend s = GivenInside s.root × GivenInside s.output_directory
IsPlaced application s = GivenInside s.root
IsPlaced postgres s = s.root ≡ none
IsPlaced worker s = ⊥
IsPlaced scheduled_job s = ⊥
IsPlaced additional_backend s = ⊥

root-given :
    (i : ℕ) (seen : List Text) (s : ServiceSpec) (root : Option Text)
    → common_issues i seen (record s { root = root }) ≡ []
    → validate_source_service i (record s { root = root }) ≡ []
    → GivenInside root
unfolding GivenInside validate_source_service common_issues
root-given i seen s none h k = cc
root-given i seen s (some path) h k = safe_relative_path-StaysInside path (ground arith)

output-given :
    (output : Option Text) (code : IssueCode) (place : Place)
    → require_safe_path output code place ≡ []
    → GivenInside output
unfolding GivenInside require_safe_path
output-given none code place h = cc
output-given (some path) code place h =
    safe_relative_path-StaysInside path (none_unless (safe_relative_path path) code place h)

static-output :
    (i : ℕ) (s : ServiceSpec)
    → static_issues i s ≡ []
    → require_safe_path s.output_directory missing_output_directory
        (service_field i output_directory)
      ≡ []
unfolding static_issues
static-output i s h = ground arith

database-rootless :
    (i : ℕ) (s : ServiceSpec) (root : Option Text)
    → postgres_issues i (record s { root = root }) ≡ []
    → root ≡ none
unfolding postgres_issues
database-rootless i s none h = refl
database-rootless i s (some path) h = ground arith

kind-IsPlaced :
    (kind : ServiceKind) (i : ℕ) (seen : List Text) (s : ServiceSpec)
    → common_issues i seen s ≡ []
    → kind_issues kind i s ≡ []
    → IsPlaced kind s
unfolding IsPlaced kind_issues static_issues application_issues postgres_issues
kind-IsPlaced static_frontend i seen s h k = (
  root-given i seen s s.root h (none_left (validate_source_service i s) _ k),
  output-given s.output_directory _ _ (static-output i s k),
)
kind-IsPlaced application i seen s h k =
    root-given i seen s s.root h (none_left (validate_source_service i s) _ k)
kind-IsPlaced postgres i seen s h k = database-rootless i s s.root k
kind-IsPlaced worker i seen s h k = cc
kind-IsPlaced scheduled_job i seen s h k = cc
kind-IsPlaced additional_backend i seen s h k = cc

services-IsPlaced :
    (i : ℕ) (t : Tally) (ss : List ServiceSpec)
    → services_from i t ss ≡ []
    → All (λ s. IsPlaced s.kind s) ss
services-IsPlaced i t [] h = tt
services-IsPlaced i t (s ∷ ss) h =
    let turn = services-turn i t s ss h in
    (
      kind-IsPlaced s.kind i t.service_names s turn.0 turn.1,
      services-IsPlaced (i + 1) (tally t s) ss turn.2,
    )

-- A repository that npm installs from, with its lockfile.
pub record IsLocked (r : RepositorySpec) : Type 0 where
  pub npm_only : r.package_manager ≡ npm
  pub lockfile : Text
  pub given : r.lockfile_path ≡ some lockfile
  pub inside : StaysInside lockfile
  pub named : file_name lockfile ≡ codes "package-lock.json"

lockfile-IsLocked :
    (i : ℕ) (r : RepositorySpec) (path : Option Text)
    → r.package_manager ≡ npm
    → lockfile_issues i path ≡ []
    → IsLocked (record r { lockfile_path = path })
unfolding lockfile_issues
lockfile-IsLocked i r none npm_only h = cc
lockfile-IsLocked i r (some path) npm_only h = record {
  npm_only = npm_only;
  lockfile = path;
  given = refl;
  inside = safe_relative_path-StaysInside path (ground arith);
  named = text_eq→eq (file_name path) (codes "package-lock.json") (ground arith);
}

repository-npm :
    (i : ℕ) (r : RepositorySpec)
    → repository_issues i r ≡ []
    → (same PackageManager-discrete r.package_manager npm ≡ true)
      × (lockfile_issues i r.lockfile_path ≡ [])
unfolding repository_issues
repository-npm i r h = ground arith

repository-IsLocked : (i : ℕ) (r : RepositorySpec) → repository_issues i r ≡ [] → IsLocked r
repository-IsLocked i r h =
    let passed = repository-npm i r h in
    lockfile-IsLocked i r r.lockfile_path
      (same→eq PackageManager-discrete r.package_manager npm passed.0) passed.1

repositories-IsLocked :
    (rs : List RepositorySpec)
    → validate_repositories rs ≡ []
    → (r : RepositorySpec) × (rs ≡ r ∷ []) × IsLocked r
unfolding validate_repositories repositories_from
repositories-IsLocked [] h = cc
repositories-IsLocked (r ∷ []) h = (r, refl, repository-IsLocked 0 r (ground arith))
repositories-IsLocked (r ∷ q ∷ rs) h = ground arith

-- A project that is accepted: one locked repository, a standard set of services in their places.
pub record IsAccepted (p : StandardProjectSpec) : Type 0 where
  pub version : p.contract_version ≡ project_contract_version
  pub repository : RepositorySpec
  pub only : p.repositories ≡ repository ∷ []
  pub locked : IsLocked repository
  pub placed : All (λ s. IsPlaced s.kind s) p.services
  pub standard : IsStandard p.services
  pub limits :
      (kind : ResourceKind)
      → select_all (of_kind kind) p.resources.limits ≡ adopt (benchmark kind) ∷ []

validate-parts :
    (p : StandardProjectSpec)
    → validate p ≡ []
    → (text_eq p.contract_version project_contract_version ≡ true)
      × (validate_repositories p.repositories ≡ [])
      × (validate_services p.services ≡ [])
      × (validate_resources p.resources.limits ≡ [])
unfolding validate
validate-parts p h =
    let version =
      issue_if (not (text_eq p.contract_version project_contract_version))
        unsupported_contract_version contract_version in
    let later = validate_services p.services ++ validate_resources p.resources.limits in
    let kept = none_right version (validate_repositories p.repositories ++ later) h in
    let last = none_right (validate_repositories p.repositories) later kept in
    (
      none_unless (text_eq p.contract_version project_contract_version) _ _ (none_left version _ h),
      none_left (validate_repositories p.repositories) later kept,
      none_left (validate_services p.services) (validate_resources p.resources.limits) last,
      none_right (validate_services p.services) (validate_resources p.resources.limits) last,
    )

-- A project in which `validate` finds no issue has the contract's version; one repository, for npm,
-- whose lockfile is a `package-lock.json` that stays inside it; services that are standard together,
-- the frontend and the application with a root inside the repository, the frontend with an output
-- directory inside it too, the database without a root; and for every kind of resource the adopted
-- benchmark as its only limit. An application's output directory may be anywhere.
pub validate-IsAccepted : (p : StandardProjectSpec) → validate p ≡ [] → IsAccepted p
unfolding validate_services
validate-IsAccepted p h =
    let parts = validate-parts p h in
    let repositories = repositories-IsLocked p.repositories parts.1 in
    record {
      version = text_eq→eq p.contract_version project_contract_version parts.0;
      repository = repositories.0;
      only = repositories.1;
      locked = repositories.2;
      placed = services-IsPlaced 0 no_services p.services parts.2;
      standard = validate_services-IsStandard p.services parts.2;
      limits = λ kind. validate_resources-exact p.resources.limits kind parts.3;
    }
