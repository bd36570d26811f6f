-- ===== src/Project/Spec.antt =====
-- The values of the project contract, crates/protocol/src/project.rs.
use hostlet_app.Base.{ℕ, ◌≡◌, Bool, true, false, Option, List, arith}
use hostlet_app.Base.Text.{Text, codes}

abbrev pub project_contract_version : Text
project_contract_version = codes "hostlet.project/v1"

abbrev pub max_service_name_bytes : ℕ
max_service_name_bytes = 64

abbrev pub max_command_bytes : ℕ
max_command_bytes = 4096

abbrev pub max_relative_path_bytes : ℕ
max_relative_path_bytes = 1024

pub data RepositoryLayout : Type 0 where
  single_project monorepo : RepositoryLayout

pub data PackageManager : Type 0 where
  npm pnpm yarn other : PackageManager

pub record RepositorySpec : Type 0 where
  pub layout : RepositoryLayout
  pub package_manager : PackageManager
  pub lockfile_path : Option Text

pub data ServiceKind : Type 0 where
  static_frontend application postgres worker scheduled_job additional_backend : ServiceKind

pub data FrameworkPattern : Type 0 where
  vite_static static_export node_http nextjs16_standalone : FrameworkPattern
  postgresql18 docker_compose custom_next_server unsupported : FrameworkPattern

pub record NodeRuntime : Type 0 where
  pub major : ℕ

pub data HealthCheckProtocol : Type 0 where
  http tcp command : HealthCheckProtocol

pub record HealthCheck : Type 0 where
  pub protocol : HealthCheckProtocol
  pub path : Text

pub record ServiceSpec : Type 0 where
  pub name : Text
  pub kind : ServiceKind
  pub root : Option Text
  pub framework : FrameworkPattern
  pub node : Option NodeRuntime
  pub build_command : Option Text
  pub output_directory : Option Text
  pub start_command : Option Text
  pub health_check : Option HealthCheck
  pub uses_durable_data : Bool

pub data ResourceKind : Type 0 where
  application_memory application_cpu database_storage database_connections : ResourceKind
  scratch_storage build_cpu build_memory build_timeout concurrent_builds : ResourceKind
  monthly_build_execution static_release_artifact runtime_release_artifact : ResourceKind
  retained_successful_releases public_outbound_transfer portfolio_assets : ResourceKind
  log_storage log_retention : ResourceKind

pub data ResourceUnit : Type 0 where
  mebibytes gibibytes millicpu connections minutes count days : ResourceUnit

pub data ResourceScope : Type 0 where
  hosted_project project_database build account purchased_slot_billing_month : ResourceScope
  release portfolio_account project_logs : ResourceScope

pub data EnforcementBehavior : Type 0 where
  report_memory_termination_with_bounded_restart_backoff : EnforcementBehavior
  throttle_cpu : EnforcementBehavior
  warn_at_80_prevent_growth_preserve_reads_and_export : EnforcementBehavior
  cap_application_connections : EnforcementBehavior
  fail_excess_ephemeral_writes : EnforcementBehavior
  fail_build_preserve_live_release : EnforcementBehavior
  time_out_build_preserve_live_release : EnforcementBehavior
  queue_builds_until_capacity : EnforcementBehavior
  queue_builds_until_billing_renewal : EnforcementBehavior
  reject_oversized_replacement_preserve_current : EnforcementBehavior
  retain_current_plus_two_previous : EnforcementBehavior
  warn_at_80_and_95_then_limit_public_traffic : EnforcementBehavior
  reject_new_assets_preserve_published_revision : EnforcementBehavior
  rotate_oldest_and_redact_secrets : EnforcementBehavior

pub data LimitStatus : Type 0 where
  benchmark_candidate approved_promise unbounded : LimitStatus

pub record BenchmarkLimit : Type 0 where
  pub resource : ResourceKind
  pub amount : Option ℕ
  pub unit : ResourceUnit
  pub scope : ResourceScope
  pub enforcement : EnforcementBehavior
  pub status : LimitStatus

pub record ResourceEnvelope : Type 0 where
  pub limits : List BenchmarkLimit

pub record StandardProjectSpec : Type 0 where
  pub contract_version : Text
  pub repositories : List RepositorySpec
  pub services : List ServiceSpec
  pub resources : ResourceEnvelope

-- Equality of the enums, as the derived `PartialEq` decides it.
unfoldable pub PackageManager-discrete : Discrete PackageManager
PackageManager-discrete = hlevel

unfoldable pub ServiceKind-discrete : Discrete ServiceKind
ServiceKind-discrete = hlevel

unfoldable pub FrameworkPattern-discrete : Discrete FrameworkPattern
FrameworkPattern-discrete = hlevel

unfoldable pub HealthCheckProtocol-discrete : Discrete HealthCheckProtocol
HealthCheckProtocol-discrete = hlevel

unfoldable pub ResourceKind-discrete : Discrete ResourceKind
ResourceKind-discrete = hlevel

unfoldable pub ResourceUnit-discrete : Discrete ResourceUnit
ResourceUnit-discrete = hlevel

unfoldable pub ResourceScope-discrete : Discrete ResourceScope
ResourceScope-discrete = hlevel

unfoldable pub EnforcementBehavior-discrete : Discrete EnforcementBehavior
EnforcementBehavior-discrete = hlevel

unfoldable pub LimitStatus-discrete : Discrete LimitStatus
LimitStatus-discrete = hlevel

-- `a == b`.
abbrev pub same {ℓ} : {A : Type ℓ} → Discrete A → A → A → Bool
same dec a b = elim (dec a b) [ yes _ ↦ true | no _ ↦ false ]

pub same_refl {ℓ} : {A : Type ℓ} (dec : Discrete A) (a : A) → same dec a a ≡ true
same_refl dec a = ground arith

pub same→eq {ℓ} : {A : Type ℓ} (dec : Discrete A) (a b : A) → same dec a b ≡ true → a ≡ b
same→eq dec a b h = go (dec a b) h
  where
    go : (d : Dec (a ≡ b)) → (elim d as (λ _. Bool) [ yes _ ↦ true | no _ ↦ false ]) ≡ true → a ≡ b
    go (yes e) t = e
    go (no n) t = cc
