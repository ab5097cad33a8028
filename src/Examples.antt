-- ===== src/Examples.antt =====
-- The theorems at concrete inputs: a small competition with one team, one network and one host.
pub mod Planning
pub mod Execution
pub mod Configuration
pub mod Agent
pub mod Names
pub mod Graphs
pub mod Snapshots
pub mod Builds
pub mod Links
pub mod Relations
pub mod Included
