-- ===== src/Runtime/Receipt.antt =====
-- The receipts of the runtime executor, and the checks that crates/control/src/runtime_policy.rs
-- makes of them before it records an observation.
use hostlet_app.Base.{
  ℕ, not, ◌||◌, ◌&&◌, Bool, true, false, Option, none, some, List, [], ◌∷◌, all, any, leb, ◌==◌,
  length, if◌then◌else◌,
}
use hostlet_app.Base.Integers.{ℤ}
use hostlet_app.Base.Text.{
  Text, codes, text_eq, bytes, len, is_empty, starts_with, contains, is_control, is_ascii_digit,
}
use hostlet_app.Api.{Result, ok, err, unprocessable}

-- States of an allocation.
pub data AllocationState : Type 0 where
  allocated running healthy backoff stopped cleaned : AllocationState

pub record ScratchObservation : Type 0 where
  pub capacity_bytes : ℕ
  pub available_bytes : ℕ

pub record HealthCheck : Type 0 where
  pub kind : Text
  pub address : Text
  pub port : ℕ
  pub path : Text
  pub status_code : Option ℕ
  pub passed : Bool
  pub elapsed_ms : ℕ
  pub reason_code : Text

pub record HealthReceipt : Type 0 where
  pub passing : Bool
  pub checks : List HealthCheck

pub record MemoryEvents : Type 0 where
  pub low : ℕ
  pub high : ℕ
  pub max : ℕ
  pub oom : ℕ
  pub oom_kill : ℕ

pub record PidsEvents : Type 0 where
  pub max : ℕ

pub record ObservedLimits : Type 0 where
  pub cgroup_path : Text
  pub cpu_max : Text
  pub memory_max_bytes : ℕ
  pub memory_swap_max_bytes : ℕ
  pub pids_max : ℕ
  pub memory_current_bytes : ℕ
  pub memory_peak_bytes : ℕ
  pub pids_current : ℕ
  pub cpu_usage_usec : ℕ
  pub cpu_nr_throttled : ℕ
  pub cpu_throttled_usec : ℕ
  pub memory_events : MemoryEvents
  pub pids_events : PidsEvents

pub record NetworkCounter : Type 0 where
  pub name : Text
  pub packets : ℕ
  pub byte_count : ℕ

pub record NetworkReceipt : Type 0 where
  pub rules_digest : Option Text
  pub application_namespace_inode : Option ℕ
  pub gateway_namespace_inode : Option ℕ
  pub counters : List NetworkCounter

pub record CleanupReceipt : Type 0 where
  pub sandbox_absent : Bool
  pub application_namespace_absent : Bool
  pub gateway_namespace_absent : Bool
  pub cgroup_absent : Bool
  pub mounts_absent : Bool
  pub state_retained : Bool

-- `has_evaluation` says whether the receipt has an `evaluation`.
pub record ExecutorReceipt : Type 0 where
  pub schema : Text
  pub allocation_id : ℕ
  pub generation : ℕ
  pub fence : ℕ
  pub operation : Text
  pub result : Text
  pub status : Text
  pub reason_code : Text
  pub artifact_digest : Text
  pub runtime_binary_digest : Text
  pub policy_digest : Text
  pub capability_digest : Option Text
  pub platform : Text
  pub profile : Text
  pub sandbox_id : Option Text
  pub oci_config_digest : Option Text
  pub runsc_status : Option Text
  pub namespace_inodes : List ℕ
  pub observed_limits : Option ObservedLimits
  pub scratch_observation : Option ScratchObservation
  pub network : Option NetworkReceipt
  pub health : Option HealthReceipt
  pub cleanup : Option CleanupReceipt
  pub observed_at_unix_ms : ℤ
  pub has_evaluation : Bool

module _ {A : Type 0} where
  abbrev pub is_some_and : (A → Bool) → Option A → Bool
  is_some_and p none = false
  is_some_and p (some a) = p a

  abbrev pub is_none_or : (A → Bool) → Option A → Bool
  is_none_or p none = true
  is_none_or p (some a) = p a

-- `matches!(value, "…" | "…")`.
unfoldable pub one_of : List Text → Text → Bool
unfolding text_eq
one_of choices value = any (text_eq value) choices

unfoldable pub without_prefix : Text → Text → Option Text
without_prefix [] value = some value
without_prefix (c ∷ prefix) [] = none
without_prefix (c ∷ prefix) (d ∷ value) = if c == d then without_prefix prefix value else none

unfoldable pub is_digest : Text → Bool
unfolding without_prefix bytes len
is_digest value =
    is_some_and
      (λ hex.
        len hex == 64 && all (λ b. is_ascii_digit b || (leb b'a' b && leb b b'f')) (bytes hex))
      (without_prefix (codes "sha256:") value)

unfoldable pub safe_health_path : Text → Bool
unfolding len
safe_health_path value =
    not (is_empty value)
    && (leb (len value) 256
        && (starts_with 0x2F value
            && (not (contains 0x3F value || contains 0x23 value) && not (any is_control value))))

abbrev pub reason_codes : List Text
reason_codes =
    codes "runtime_prepared"
    ∷ codes "runtime_started"
    ∷ codes "runtime_stopped"
    ∷ codes "runtime_cleaned"
    ∷ codes "runtime_exit"
    ∷ codes "runtime_oom"
    ∷ codes "cpu_throttled"
    ∷ codes "process_limit_exceeded"
    ∷ codes "scratch_limit_exceeded"
    ∷ codes "network_connection_limit"
    ∷ codes "health_failed"
    ∷ codes "crash_loop_backoff"
    ∷ codes "runtime_isolation_unverified"
    ∷ codes "runtime_internal_failure"
    ∷ codes "runtime_cleanup_incomplete"
    ∷ []

unfoldable pub valid_counter : NetworkCounter → Bool
unfolding len
valid_counter c = not (is_empty c.name) && (leb (len c.name) 64 && not (any is_control c.name))

unfoldable pub valid_network : NetworkReceipt → Bool
unfolding is_digest valid_counter
valid_network n =
    leb (length n.counters) 64
    && (is_none_or is_digest n.rules_digest && all valid_counter n.counters)

unfoldable pub valid_check : HealthCheck → Bool
unfolding safe_health_path text_eq len
valid_check c =
    text_eq c.kind (codes "http")
    && (not (is_empty c.address)
        && (leb (len c.address) 128
            && (not (c.port == 0)
                && (safe_health_path c.path
                    && (not (is_empty c.reason_code)
                        && (leb (len c.reason_code) 96
                            && (not c.passed || is_some_and (λ s. s == 200) c.status_code)))))))

abbrev pub valid_scratch : ScratchObservation → Bool
valid_scratch s = s.capacity_bytes == 268435456 && leb s.available_bytes s.capacity_bytes

unfoldable pub valid_sandbox : Text → Bool
unfolding len
valid_sandbox value = not (is_empty value) && (leb (len value) 128 && not (any is_control value))

-- What the receipt is of.
unfoldable pub valid_subject : ExecutorReceipt → Bool
unfolding one_of is_digest text_eq
valid_subject r =
    text_eq r.schema (codes "hostlet.runtime.executor-receipt/v1")
    && (text_eq r.profile (codes "evidence_gated_owned_fixture")
        && (not (r.generation == 0)
            && (not (r.fence == 0)
                && (one_of (codes "systrap" ∷ codes "kvm" ∷ []) r.platform
                    && (is_digest r.artifact_digest
                        && (is_digest r.runtime_binary_digest
                            && (is_digest r.policy_digest
                                && is_some_and is_digest r.capability_digest)))))))

-- What came of the operation.
unfoldable pub valid_outcome_fields : ExecutorReceipt → Bool
unfolding one_of len
valid_outcome_fields r =
    one_of (codes "passed" ∷ codes "failed" ∷ []) r.result
    && (not r.has_evaluation
        && (not (is_empty r.reason_code)
            && (leb (len r.reason_code) 96 && one_of reason_codes r.reason_code)))

-- What was observed.
unfoldable pub valid_evidence : ExecutorReceipt → Bool
unfolding one_of is_digest valid_network valid_check valid_sandbox text_eq len
valid_evidence r =
    leb (length r.namespace_inodes) 8
    && (is_none_or valid_sandbox r.sandbox_id
        && (is_none_or is_digest r.oci_config_digest
            && (is_none_or (one_of (codes "created" ∷ codes "running" ∷ codes "stopped" ∷ []))
                  r.runsc_status
                && (is_none_or (λ h. leb (length h.checks) 32) r.health
                    && (is_none_or valid_network r.network
                        && (is_none_or (λ l. leb (len l.cgroup_path) 256) r.observed_limits
                            && (is_none_or valid_scratch r.scratch_observation
                                && ((not (text_eq r.reason_code (codes "scratch_limit_exceeded"))
                                      || is_some_and (λ s. s.available_bytes == 0)
                                          r.scratch_observation)
                                    && is_none_or (λ h. all valid_check h.checks) r.health))))))))

unfoldable pub validate_executor_receipt : ExecutorReceipt → Result (Unit {0})
unfolding valid_subject valid_outcome_fields valid_evidence
validate_executor_receipt r =
    if valid_subject r && (valid_outcome_fields r && valid_evidence r)
    then ok tt
    else err (unprocessable "runtime_receipt_invalid")
