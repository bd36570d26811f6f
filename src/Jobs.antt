-- ===== src/Jobs.antt =====
-- crates/control/src/jobs.rs: the queue of bookkeeping jobs, leased to workers under fences.
pub mod Model
pub mod Messages
pub mod Checks
pub mod Store
pub mod Reap
pub mod Lease
pub mod Complete
pub mod Intent
pub mod Cancel
pub mod Create
pub mod Credentials
pub mod Steps
pub mod IntentLaws
pub mod CreateLaws
pub mod CancelLaws
pub mod LeaseLaws
pub mod SecretLaws
pub mod ReleaseLaws
pub mod RecordLaws
pub mod WorkerRecords
pub mod OwnerRecords
pub mod EffectLaws
pub mod CommitLaws
pub mod StepLaws
pub mod Advance
pub mod LeaseSteps
pub mod ReportSteps
pub mod OwnerSteps
pub mod Machine
pub mod Fencing
pub mod Retries
pub mod EffectsSame
pub mod Outcomes
pub mod Drain
pub mod Samples
mod Tests
mod AnswerTests
mod SecretTests
