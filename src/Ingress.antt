-- ===== src/Ingress.antt =====
-- crates/domain/src/event.rs, control.rs and deadline.rs: what enters the engine, on whose
-- authority, and how long it may take.
pub mod Dates
pub mod Event
pub mod Secret
pub mod Control
pub mod Authority
pub mod Deadline
mod Examples
