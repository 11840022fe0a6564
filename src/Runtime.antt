-- ===== src/Runtime.antt =====
-- crates/runtime/src/lib.rs: the security boundary between public content, the operator's control and
-- the scheduler.
pub mod Text
pub mod Data
pub mod Content
pub mod Control
pub mod Calls
pub mod Correlations
pub mod Valid
pub mod Admission
pub mod Gate
pub mod Reachable
pub mod Commands
pub mod Memory
mod Examples
