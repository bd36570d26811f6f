-- ===== src/Runtime.antt =====
-- crates/control/src/runtime_policy.rs: allocations of runtimes and what workers observe of them.
pub mod Receipt
pub mod Store
pub mod Observe
pub mod Record
pub mod Steps
pub mod Lives
pub mod History
pub mod Again
pub mod Resend
pub mod Retries
pub mod Tests
pub mod Evidence
pub mod Healthy
