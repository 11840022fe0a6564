-- ===== src/Budget.antt =====
-- crates/app/src/budget.rs: the governor that admits generation requests within rolling budgets.
pub mod Data
pub mod Governor
pub mod Calls
pub mod Admission
pub mod Concurrent
pub mod Recent
pub mod Ledgers
pub mod Window
pub mod Amounts
mod Examples
