-- ===== src/Project.antt =====
-- crates/protocol/src/project.rs: the standard project contract and its validation.
pub mod Spec
pub mod Issues
pub mod Paths
pub mod Resources
pub mod Services
pub mod Validate
pub mod Benchmarks
pub mod IssueLaws
pub mod PathLaws
pub mod ResourceLaws
pub mod ResourceChecks
pub mod TallyLaws
pub mod ServiceLaws
pub mod PlaceLaws
mod Tests
