-- ===== src/Planning.antt =====
-- `CalculateDelta` of core/state.go: from the persisted and the current snapshot to a plan.
pub mod Dag
pub mod Taint
pub mod Tasks
pub mod Delta
