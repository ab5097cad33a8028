-- ===== src/Execution.antt =====
-- core/planner.go and `PerformInTimeout` of core/generic_job.go: how the tasks of a plan run.
pub mod Attempts
pub mod Orchestrator
