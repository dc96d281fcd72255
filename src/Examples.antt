-- ===== src/Examples.antt =====
-- The theorems at concrete inputs.
pub mod Setup
pub mod Codecs
pub mod Logs
pub mod Replicas
pub mod Rebuilt
pub mod Nodes
pub mod Cluster
pub mod Servers
pub mod Rounds
pub mod Writes
pub mod Compaction
pub mod Failures
pub mod Matching
pub mod Ledgers
pub mod Acknowledged
pub mod Runs
