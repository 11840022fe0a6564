-- ===== src/Plane.antt =====
-- crates/app/src/task_plane.rs and crates/telemetry/src/task_transition.rs: the store of the agent's
-- tasks, with its bounded record of transitions.
pub mod Collector
pub mod Data
pub mod Operations
pub mod Reports
pub mod Retained
pub mod Invariant
pub mod Steps
pub mod Calls
pub mod Acts
pub mod Refines
pub mod Entry
pub mod Expiry
pub mod Overdue
pub mod Reachable
pub mod Absent
mod Examples
