-- ===== src/Replication/Config.antt =====
-- crates/wal-replication/src/config.rs
use wal_distributed_rs.Common.{ℕ, ◌+◌, ◌/◌, List, length}

-- A node's name, as its bytes.
abbrev pub NodeId : Type 0
NodeId = List ℕ

pub record NodeInfo : Type 0 where
  pub id : NodeId
  pub addr : List ℕ

-- The directory is that of the file operations; durations are milliseconds.
pub record ClusterConfig : Type 0 where
  pub this_node : NodeInfo
  pub peers : List NodeInfo
  pub election_timeout_min : ℕ
  pub election_timeout_max : ℕ
  pub heartbeat_interval : ℕ

abbrev pub new_config : NodeInfo → List NodeInfo → ClusterConfig
new_config this_node peers = record {
  this_node = this_node;
  peers = peers;
  election_timeout_min = 150;
  election_timeout_max = 300;
  heartbeat_interval = 50;
}

unfoldable pub cluster_size : ClusterConfig → ℕ
cluster_size c = length c.peers + 1

unfoldable pub quorum : ClusterConfig → ℕ
unfolding cluster_size
quorum c = cluster_size c / 2 + 1
