-- ===== src/Replication.antt =====
-- crates/wal-replication: the replicated log and the Raft node.
pub mod Config
pub mod Error
pub mod Log
pub mod PersistentState
pub mod Snapshot
pub mod Node
pub mod Handle
pub mod Server
pub mod Peer
pub mod Cluster
