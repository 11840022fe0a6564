-- ===== src/Scheduler.antt =====
-- crates/scheduler/src/lib.rs: the deterministic performance scheduler.
pub mod Data
pub mod Advance
pub mod Arbitrate
pub mod Schedule
pub mod Stop
pub mod Invariant
pub mod Requests
pub mod Stops
pub mod Current
pub mod Reachable
pub mod Rejections
pub mod Boundaries
mod Examples
