-- ===== src/Jobs/Steps.antt =====
-- What a job may do: the specification of the queue of crates/control/src/jobs.rs, row by row.
use hostlet_app.Base.{
  length, All, ℕ, ◌+◌, ◌≤◌, ◌<◌, true, false, none, some, ◌≡◌, ◌⊎◌, leb, if◌then◌else◌, is_some,
}
use hostlet_app.Base.Text.{Text}
use hostlet_app.Jobs.Lease.{is_claimable}
use hostlet_app.Jobs.Model.{JobState, JobRow}
use hostlet_app.Jobs.Checks.{job_kind, job_operation}
use hostlet_app.Jobs.Store.{is_running, is_waiting, is_terminal}

-- One transition of a job. Every other column stays as it is.
pub data JobStep (j k : JobRow) : Type 0 where
  -- A waiting job is taken, as its next attempt, under the next fence.
  claims :
      (attempt expires now : ℕ)
      → is_waiting j.state ≡ true
      → j.attempt_count < j.max_attempts
      → k ≡ record j {
        state = JobState.running;
        revision = j.revision + 1;
        attempt_count = j.attempt_count + 1;
        current_attempt_id = some attempt;
        current_fence = j.current_fence + 1;
        lease_expires_at = some expires;
        updated_at = now;
      }
      → JobStep j k
  -- Its worker keeps the lease alive.
  renews :
      (until now : ℕ)
      → is_running j.state ≡ true
      → k ≡ record j { lease_expires_at = some until; updated_at = now }
      → JobStep j k
  -- Its worker ends it, keeping the attempt as the job's last.
  ends :
      (state : JobState) (now : ℕ)
      → is_running j.state ≡ true
      → (state ≡ JobState.succeeded) ⊎ (state ≡ JobState.failed)
      → k ≡ record j {
        state = state;
        revision = j.revision + 1;
        lease_expires_at = none;
        updated_at = now;
      }
      → JobStep j k
  -- Its worker hands it back for another attempt, of which there are three.
  hands_back :
      (now : ℕ)
      → is_running j.state ≡ true
      → j.attempt_count < 3
      → k ≡ record j {
        state = JobState.retriable;
        revision = j.revision + 1;
        current_attempt_id = none;
        lease_expires_at = none;
        updated_at = now;
      }
      → JobStep j k
  -- Its lease has run out at a reading of the clock, and it is queued again or given up. Readings
  -- are arbitrary: nothing relates this one to the others.
  expires :
      (until read now : ℕ)
      → is_running j.state ≡ true
      → j.lease_expires_at ≡ some until
      → until ≤ read
      → k ≡ record j {
        state = if leb 3 j.attempt_count then JobState.failed else JobState.retriable;
        revision = j.revision + 1;
        current_attempt_id = none;
        lease_expires_at = none;
        updated_at = now;
      }
      → JobStep j k
  -- Its owner cancels it, and the fence moves on.
  cancels :
      (now : ℕ)
      → is_terminal j.state ≡ false
      → k ≡ record j {
        state = JobState.canceled;
        revision = j.revision + 1;
        current_attempt_id = none;
        current_fence = j.current_fence + 1;
        lease_expires_at = none;
        updated_at = now;
      }
      → JobStep j k

pub data JobSteps (j : JobRow) : JobRow → Type 0 where
  here : JobSteps j j
  next : {k l : JobRow} → JobSteps j k → JobStep k l → JobSteps j l

pub JobSteps-trans : {j k l : JobRow} → JobSteps j k → JobSteps k l → JobSteps j l
JobSteps-trans p here = p
JobSteps-trans p (next q s) = next (JobSteps-trans p q) s

-- A lower-case hexadecimal digit.
abbrev pub IsHex : ℕ → Type 0
IsHex c = ((b'0' ≤ c) × (c ≤ b'9')) ⊎ ((b'a' ≤ c) × (c ≤ b'f'))

-- The CHECK on source_commit, ^[0-9a-f]{40}([0-9a-f]{24})?$.
pub record IsCommit (commit : Text) : Type 0 where
  pub size : (length commit ≡ 40) ⊎ (length commit ≡ 64)
  pub digits : All IsHex commit

-- A job as an INSERT leaves it.
pub record IsNew (j : JobRow) : Type 0 where
  pub queued : j.state ≡ JobState.queued
  pub first_revision : j.revision ≡ 1
  pub no_attempt : j.attempt_count ≡ 0
  pub three_attempts : j.max_attempts ≡ 3
  pub no_holder : j.current_attempt_id ≡ none
  pub no_fence : j.current_fence ≡ 0
  pub no_lease : j.lease_expires_at ≡ none
  pub bookkeeping : j.kind ≡ job_kind
  pub building : j.operation ≡ job_operation
  pub commit : IsCommit j.source_commit

-- A job that has come from an INSERT by transitions.
pub data Born (k : JobRow) : Type 0 where
  born : (j : JobRow) → IsNew j → JobSteps j k → Born k

pub Born-closed : (j k : JobRow) → Born j → JobSteps j k → Born k
Born-closed j k (born i new p) q = born i new (JobSteps-trans p q)

-- What is fixed when the job is inserted.
pub record SameJob (j k : JobRow) : Type 0 where
  pub id : k.id ≡ j.id
  pub account_id : k.account_id ≡ j.account_id
  pub project_id : k.project_id ≡ j.project_id
  pub service_id : k.service_id ≡ j.service_id
  pub kind : k.kind ≡ j.kind
  pub operation : k.operation ≡ j.operation
  pub source_commit : k.source_commit ≡ j.source_commit
  pub max_attempts : k.max_attempts ≡ j.max_attempts
  pub created_at : k.created_at ≡ j.created_at

-- What only goes up. Each attempt has a fence of its own.
pub record NoLess (j k : JobRow) : Type 0 where
  pub revision : j.revision ≤ k.revision
  pub attempt_count : j.attempt_count ≤ k.attempt_count
  pub current_fence : j.current_fence ≤ k.current_fence
  pub fence_per_attempt : k.attempt_count + j.current_fence ≤ k.current_fence + j.attempt_count

-- What the transitions keep of a job's counters, lease and attempt.
pub record IsCounted (j : JobRow) : Type 0 where
  pub revision_positive : 0 < j.revision
  pub three_attempts : j.max_attempts ≡ 3
  pub attempts_bounded : j.attempt_count ≤ 3
  pub attempts_fenced : j.attempt_count ≤ j.current_fence
  pub running_leased :
      is_running j.state ≡ true
      → (is_some j.current_attempt_id ≡ true)
        × (is_some j.lease_expires_at ≡ true)
        × (0 < j.attempt_count)
  pub idle_unleased : is_running j.state ≡ false → j.lease_expires_at ≡ none
  pub waiting_unheld : is_waiting j.state ≡ true → j.current_attempt_id ≡ none
  pub attempts_left : is_waiting j.state ≡ true → j.attempt_count < j.max_attempts

-- The CHECKs of the table, and what the handlers rely on besides: a job that waits is one that the
-- query of `lease_job` takes.
pub record IsSound (j : JobRow) : Type 0 where
  pub counted : IsCounted j
  pub bookkeeping : j.kind ≡ job_kind
  pub building : j.operation ≡ job_operation
  pub commit : IsCommit j.source_commit
  pub waiting_claimable : is_waiting j.state ≡ true → is_claimable j ≡ true
