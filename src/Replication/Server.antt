-- ===== src/Replication/Server.antt =====
-- crates/wal-replication/src/server.rs: the services for the other nodes and for clients. A call
-- goes to the node as a message and waits for its reply.
pub mod Answers
pub mod Durable
use wal_distributed_rs.Common.{ℕ, Bool, Option, none, some, List, []}
use wal_distributed_rs.Common.Exec.{Result, ok, err, map_result}
use wal_distributed_rs.WalCore.Entry.{Crc}
use wal_distributed_rs.Replication.Config.{NodeId}
use wal_distributed_rs.Replication.Error.{RaftError, not_leader}
use wal_distributed_rs.Replication.Handle
use wal_distributed_rs.Replication.Handle.{Delivery}
use wal_distributed_rs.Replication.Log.Record.{LogEntry}
use wal_distributed_rs.Replication.Node.{
  RaftNode, AppendEntriesRequest, AppendEntriesResponse, RequestVoteRequest, RequestVoteResponse,
  InstallSnapshotRequest, InstallSnapshotResponse,
}
use wal_distributed_rs.Replication.Node.Candidate.{Network}

pub record WriteResponse : Type 0 where
  pub success : Bool
  pub index : ℕ
  pub leader_hint : NodeId

-- `tonic::Status`, of the kinds that the code makes, without its text.
pub data Status : Type 0 where
  internal unavailable deadline_exceeded : Status

-- `hint.unwrap_or_default()`
abbrev pub or_empty : Option NodeId → NodeId
or_empty none = []
or_empty (some id) = id

unfoldable pub write_response : Result RaftError ℕ → Result Status WriteResponse
write_response (ok index) = ok (record { success = Bool.true; index = index; leader_hint = [] })
write_response (err (not_leader hint)) =
    ok (record { success = Bool.false; index = 0; leader_hint = or_empty hint })
write_response (err e) = err internal

-- `map_err(|e| Status::internal(..))`
abbrev pub or_internal : {A : Type 0} → Result RaftError A × RaftNode → Result Status A × RaftNode
or_internal (r, n) = (map_result (λ e. internal) r, n)

module _ ⦃c : Crc⦄ where
  -- The service for the other nodes.
  unfoldable pub append_entries :
      Network
      → AppendEntriesRequest
      → Delivery
      → RaftNode
      → Result Status AppendEntriesResponse × RaftNode
  unfolding Handle.append_entries
  append_entries net req d n = or_internal (Handle.append_entries net req d n)

  unfoldable pub request_vote :
      Network
      → RequestVoteRequest
      → Delivery
      → RaftNode
      → Result Status RequestVoteResponse × RaftNode
  unfolding Handle.request_vote
  request_vote net req d n = or_internal (Handle.request_vote net req d n)

  unfoldable pub install_snapshot :
      Network
      → InstallSnapshotRequest
      → Delivery
      → RaftNode
      → Result Status InstallSnapshotResponse × RaftNode
  unfolding Handle.install_snapshot
  install_snapshot net req d n = or_internal (Handle.install_snapshot net req d n)

  -- The service for clients; an entry of the protocol is a `LogEntry`.
  unfoldable pub write :
      Network → List ℕ → Delivery → RaftNode → Result Status WriteResponse × RaftNode
  unfolding Handle.write write_response
  write net payload d n = let (r, n') = Handle.write net payload d n in (write_response r, n')

  unfoldable pub read_from :
      Network → ℕ → Delivery → RaftNode → Result Status (List LogEntry) × RaftNode
  unfolding Handle.read_from
  read_from net from_index d n = or_internal (Handle.read_from net from_index d n)
