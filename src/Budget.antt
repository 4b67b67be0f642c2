-- ===== src/Budget.antt =====
-- byte_budget.go: the byte budget that clients share, without and with tenant groups.
pub mod State
pub mod Account
pub mod GroupHeap
pub mod Schedule
pub mod Reserve
pub mod Ungrouped
pub mod Fair
pub mod Ledger
pub mod Relinked
pub mod Paying
pub mod Rounds
pub mod Settling
pub mod Registering
mod Tests
