-- ===== src/Admission.antt =====
-- crates/control/src/admission.rs: capacity pools, entitlements, holds and slot reservations, and
-- the build seconds that accounts use.
pub mod Model
pub mod Messages
pub mod Store
pub mod Context
pub mod Hold
pub mod Admit
pub mod Receipts
pub mod Capacity
pub mod Proofs
pub mod Observe
pub mod Usage
pub mod Queries
pub mod Limits
pub mod AdmitLimits
pub mod CapacityLimits
pub mod HoldLimits
pub mod AdmitKeeps
pub mod FixtureKeeps
pub mod ObserveKeeps
pub mod Meter
pub mod UsageKeeps
pub mod Machine
pub mod Safety
pub mod AdmitLaws
pub mod FailLaws
pub mod ReceiptKeeps
pub mod ReceiptEvents
pub mod ReceiptRuns
pub mod ReceiptLaws
pub mod Samples
mod Tests
