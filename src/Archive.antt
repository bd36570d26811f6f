-- ===== src/Archive.antt =====
-- crates/database/src/archive.rs: encrypted backups of tenant databases as files.
pub mod Format
pub mod Seal
pub mod Open
pub mod Repository
pub mod HexLaws
pub mod OpenLaws
pub mod RoundTrip
pub mod FileRoundTrip
pub mod RepositoryLaws
pub mod SealLaws
pub mod Samples
pub mod Tests
pub mod ExpireLaws
