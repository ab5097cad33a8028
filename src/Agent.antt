-- ===== src/Agent.antt =====
-- agent/state.go, agent/step.go and agent/worker.go: the agent that runs a host's steps.
pub mod Step
pub mod State
pub mod Worker
