-- ===== src/Task.antt =====
-- crates/domain/src/task.rs: the lifecycle of an agent task.
pub mod Data
pub mod Operations
pub mod Execution
pub mod Calls
pub mod Invariant
pub mod Lifecycle
pub mod Guards
mod Examples
