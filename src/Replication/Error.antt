-- ===== src/Replication/Error.antt =====
-- crates/wal-replication/src/error.rs
use wal_distributed_rs.Common.{Option}
use wal_distributed_rs.Disk.{IoError}
use wal_distributed_rs.WalCore.Error.{WalError}
use wal_distributed_rs.Replication.Config.{NodeId}

-- The text of transport and status errors is left out.
pub data RaftError : Type 0 where
  not_leader : Option NodeId → RaftError
  quorum_not_reached : RaftError
  shutdown : RaftError
  wal : WalError → RaftError
  io : IoError → RaftError
  transport : RaftError
  status : RaftError
